-- ===== src/Creation/Does.antt =====
-- Code that, where it ends without an error, changes the abstract view in one way.
use infrakube_multicluster.Prelude.{
  Bool, true, false, Option, none, some, ◌≡◌, refl, ap, ◌∙◌, if◌then◌else◌,
}
use infrakube_multicluster.Exec.{Go, returns, panics, Exec, pure, continue, ◌>>=◌}
use infrakube_multicluster.Controller.Api.{Error}
use infrakube_multicluster.Creation.Cluster.{◌>>?◌, after_error}

-- A call that returned no error has led from one view to the other.
abbrev pub After : {V : Type 0} → Go (Option Error) → (V → V) → V → V → Type 0
After (returns none) f v v' = v' ≡ f v
After (returns (some e)) f v v' = Unit
After panics f v v' = Unit

After-shift :
    {V : Type 0} (r : Go (Option Error)) (f g : V → V) (v between v' : V)
    → between ≡ f v
    → After r g between v'
    → After r (λ u. g (f u)) v v'
After-shift (returns none) f g v between v' h k = k ∙ ap g h
After-shift (returns (some e)) f g v between v' h k = tt
After-shift panics f g v between v' h k = tt

After-eq :
    {V : Type 0} (r : Go (Option Error)) (f g : V → V) (v v' : V)
    → f v ≡ g v
    → After r f v v'
    → After r g v v'
After-eq (returns none) f g v v' h k = k ∙ h
After-eq (returns (some e)) f g v v' h k = tt
After-eq panics f g v v' h k = tt

module _ {W V : Type 0} (view : W → V) where
  pub record Does (f : V → V) (m : Exec W (Option Error)) : Type 0 where
    pub after : (w : W) → After (m w).0 f (view w) (view (m w).1)

  pub Does-eq :
      (f g : V → V) (m : Exec W (Option Error)) → ((v : V) → f v ≡ g v) → Does f m → Does g m
  Does-eq f g m h k = record {
    after = λ w. After-eq (m w).0 f g (view w) (view (m w).1) (h (view w)) (k.after w);
  }

  After-then :
      (f g : V → V) (r : Go (Option Error)) (n : Exec W (Option Error)) (w w' : W)
      → After r f (view w) (view w')
      → Does g n
      → After
          (continue r (λ result. after_error result n) w').0
          (λ v. g (f v))
          (view w)
          (view (continue r (λ result. after_error result n) w').1)
  After-then f g (returns (some e)) n w w' h k = tt
  After-then f g panics n w w' h k = tt
  After-then f g (returns none) n w w' h k =
      After-shift (n w').0 f g (view w) (view w') (view (n w').1) h (k.after w')

  -- One after the other.
  pub Does-then :
      (f g : V → V) (m n : Exec W (Option Error))
      → Does f m
      → Does g n
      → Does (λ v. g (f v)) (m >>? n)
  unfolding ◌>>?◌ ◌>>=◌
  Does-then f g m n h k = record { after = λ w. After-then f g (m w).0 n w (m w).1 (h.after w) k }

  pub Does-pure : Does (λ v. v) (pure none)
  Does-pure = record { after = λ w. refl }

  pub Does-if :
      (b : Bool) (f g : V → V) (m n : Exec W (Option Error))
      → Does f m
      → Does g n
      → Does (if b then f else g) (if b then m else n)
  Does-if true f g m n h k = h
  Does-if false f g m n h k = k
