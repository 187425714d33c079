-- ===== src/Exec/Ensures.antt =====
-- What code that acts on the world keeps, and what it returns.
use infrakube_multicluster.Prelude.{Bool, true, false, if◌then◌else◌, Option, none, some, ◌≡◌, refl}
use infrakube_multicluster.Exec.{
  Go, returns, panics, Exec, pure, lift, call, asks, perform, continue, ◌>>=◌,
}

-- Of the value that a call returned.
abbrev pub Returned {ℓ} : {A : Type ℓ} → (A → Type ℓ) → Go A → Type ℓ
Returned Q (returns a) = Q a
Returned Q panics = Unit

-- From a world that has `P`, the code leads to one that has it, and what it returns has `Q`.
pub record Ensures {ℓ} {W A : Type ℓ} (P : W → Type ℓ) (Q : A → Type ℓ) (m : Exec W A)
    : Type ℓ where
  pub kept : (w : W) → P w → P (m w).1
  pub result : (w : W) → P w → Returned Q (m w).0

-- Of a value of which nothing is asked.
abbrev pub Any : {A : Type 0} → A → Type 0
Any a = Unit

pub keeps_call :
    {W A : Type 0} {P : W → Type 0} (f : W → A × W)
    → ((w : W) → P w → P (f w).1)
    → Ensures P Any (call f)
keeps_call f kept = record { kept = kept; result = λ w p. tt }

pub keeps_perform :
    {W : Type 0} {P : W → Type 0} (f : W → W)
    → ((w : W) → P w → P (f w))
    → Ensures P Any (perform f)
keeps_perform f kept = record { kept = kept; result = λ w p. tt }

pub keeps_lift : {W A : Type 0} {P : W → Type 0} (r : Go A) → Ensures P Any (lift r)
keeps_lift (returns a) = record { kept = λ w p. p; result = λ w p. tt }
keeps_lift panics = record { kept = λ w p. p; result = λ w p. tt }

pub keeps_asks : {W A : Type 0} {P : W → Type 0} (f : W → A) → Ensures P Any (asks f)
keeps_asks f = record { kept = λ w p. p; result = λ w p. tt }

module _ {ℓ} {W A : Type ℓ} {P : W → Type ℓ} {Q : A → Type ℓ} where
  pub Ensures-pure : (a : A) → Q a → Ensures P Q (pure a)
  Ensures-pure a q = record { kept = λ w p. p; result = λ w p. q }

  pub Ensures-call :
      (f : W → A × W)
      → ((w : W) → P w → P (f w).1)
      → ((w : W) → P w → Q (f w).0)
      → Ensures P Q (call f)
  Ensures-call f kept result = record { kept = kept; result = result }

  pub Ensures-asks : (f : W → A) → ((w : W) → P w → Q (f w)) → Ensures P Q (asks f)
  Ensures-asks f result = record { kept = λ w p. p; result = result }

  pub Ensures-lift : (r : Go A) → Returned Q r → Ensures P Q (lift r)
  Ensures-lift r q = record { kept = λ w p. p; result = λ w p. q }

  pub Ensures-if :
      (b : Bool) (m n : Exec W A)
      → (b ≡ true → Ensures P Q m)
      → (b ≡ false → Ensures P Q n)
      → Ensures P Q (if b then m else n)
  Ensures-if true m n km kn = km refl
  Ensures-if false m n km kn = kn refl

module _ {ℓ} {W A B : Type ℓ} {P : W → Type ℓ} {Q : A → Type ℓ} {R : B → Type ℓ} where
  continue_kept :
      (r : Go A) (f : A → Exec W B) (w : W)
      → Returned Q r
      → ((a : A) → Q a → Ensures P R (f a))
      → P w
      → P (continue r f w).1
  continue_kept (returns a) f w q k p = (k a q).kept w p
  continue_kept panics f w q k p = p

  continue_result :
      (r : Go A) (f : A → Exec W B) (w : W)
      → Returned Q r
      → ((a : A) → Q a → Ensures P R (f a))
      → P w
      → Returned R (continue r f w).0
  continue_result (returns a) f w q k p = (k a q).result w p
  continue_result panics f w q k p = tt

  pub Ensures-bind :
      (m : Exec W A) (f : A → Exec W B)
      → Ensures P Q m
      → ((a : A) → Q a → Ensures P R (f a))
      → Ensures P R (m >>= f)
  unfolding ◌>>=◌
  Ensures-bind m f km kf = record {
    kept = λ w p. continue_kept (m w).0 f (m w).1 (km.result w p) kf (km.kept w p);
    result = λ w p. continue_result (m w).0 f (m w).1 (km.result w p) kf (km.kept w p);
  }

-- A split on an option that a call returned.
pub Ensures-option {ℓ} :
    {W A E : Type ℓ} {P : W → Type ℓ} {Q : A → Type ℓ} (o : Option E) (m : Exec W A)
    (f : E → Exec W A)
    → (o ≡ none → Ensures P Q m)
    → ((e : E) → o ≡ some e → Ensures P Q (f e))
    → Ensures P Q (elim o [ none ↦ m | some e ↦ f e ])
Ensures-option none m f km kf = km refl
Ensures-option (some e) m f km kf = kf e refl

-- A part that may panic, computed from the world.
pub keeps_asked : {W A : Type 0} {P : W → Type 0} (f : W → Go A) → Ensures P Any (asks f >>= lift)
keeps_asked f = Ensures-bind (asks f) lift (keeps_asks f) (λ r q. keeps_lift r)
