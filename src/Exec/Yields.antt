-- ===== src/Exec/Yields.antt =====
-- Code that always returns, what it returns, and what it keeps of the world.
use infrakube_multicluster.Prelude.{◌≡◌, refl, ap, ◌∙◌, subst, sym}
use infrakube_multicluster.Exec.{returns, Exec, pure, call, continue, ◌>>=◌}

-- From a world that has `P`, the code returns a value that has `Q`, in a world that has `P`.
pub record Yields {ℓ} {W A : Type ℓ} (P : W → Type ℓ) (Q : A → Type ℓ) (m : Exec W A) : Type ℓ where
  pub value : (w : W) → P w → (a : A) × ((m w).0 ≡ returns a) × Q a
  pub kept : (w : W) → P w → P (m w).1

module _ {ℓ} {W A : Type ℓ} {P : W → Type ℓ} {Q : A → Type ℓ} where
  pub Yields-pure : (a : A) → Q a → Yields P Q (pure a)
  Yields-pure a q = record { value = λ w p. (a, refl, q); kept = λ w p. p }

  pub Yields-call :
      (f : W → A × W)
      → ((w : W) → P w → P (f w).1)
      → ((w : W) → P w → Q (f w).0)
      → Yields P Q (call f)
  Yields-call f kept value = record { value = λ w p. ((f w).0, refl, value w p); kept = kept }

module _ {ℓ} {W A B : Type ℓ} {P : W → Type ℓ} {Q : A → Type ℓ} {R : B → Type ℓ} where
  pub Yields-bind :
      (m : Exec W A) (f : A → Exec W B)
      → Yields P Q m
      → ((a : A) → Q a → Yields P R (f a))
      → Yields P R (m >>= f)
  unfolding ◌>>=◌
  Yields-bind m f km kf = record {
    value = λ w p.
        let (a, e, q) = km.value w p in
        let (b, e', r) = (kf a q).value (m w).1 (km.kept w p) in
        (b, ap (λ g. (continue g f (m w).1).0) e ∙ e', r);
    kept = λ w p.
        let (a, e, q) = km.value w p in
        subst (λ g. P (continue g f (m w).1).1) (sym e) ((kf a q).kept (m w).1 (km.kept w p));
  }
