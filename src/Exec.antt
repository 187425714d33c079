-- ===== src/Exec.antt =====
-- How the Go code is read: a call returns or panics, and code that talks to the API server or to the
-- cache is a function of the world outside. What was written before a panic stays written.

pub mod Ensures
pub mod Yields

-- A function that dereferences pointers or slices a list.
pub data Go {ℓ} (A : Type ℓ) : Type ℓ where
  returns : A → Go A
  panics : Go A

abbrev pub Exec {ℓ} : Type ℓ → Type ℓ → Type ℓ
Exec W A = W → Go A × W

module _ {ℓ} {W A : Type ℓ} where
  abbrev pub pure : A → Exec W A
  pure a w = (returns a, w)

  abbrev pub lift : Go A → Exec W A
  lift r w = (r, w)

  -- A call of the world outside, which always returns.
  abbrev pub call : (W → A × W) → Exec W A
  call f w = (returns (f w).0, (f w).1)

  abbrev pub asks : (W → A) → Exec W A
  asks f w = (returns (f w), w)

module _ {ℓ} {W A B : Type ℓ} where
  abbrev pub continue : Go A → (A → Exec W B) → Exec W B
  continue (returns a) f w = f a w
  continue panics f w = (panics, w)

  infixl 5 ◌>>=◌
  unfoldable pub ◌>>=◌ : Exec W A → (A → Exec W B) → Exec W B
  ◌>>=◌ m f w = continue (m w).0 f (m w).1

abbrev pub perform {ℓ} : {W : Type ℓ} → (W → W) → Exec W (Unit {ℓ})
perform f w = (returns tt, f w)
