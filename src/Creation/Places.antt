-- ===== src/Creation/Places.antt =====
-- Setting the places of the abstract cluster.
use infrakube_multicluster.Prelude.{
  true, Option, none, ◌≡◌, refl, sym, ap, ◌∙◌, fun_ext, arith, Bool-cases, inl, inr, eq_iff, ◌==◌,
}
use infrakube_multicluster.Kube.{NamespacedName}
use infrakube_multicluster.Objects.{Kind, Object}
use infrakube_multicluster.Creation.Store.{View, same_kind, same_place, set_place}

same_kind→eq : (k l : Kind) → same_kind k l ≡ true → k ≡ l
same_kind→eq k l h = ground arith

key_eq :
    (a b : NamespacedName) → (b.namespace == a.namespace) ≡ true → (b.name == a.name) ≡ true → a ≡ b
key_eq a b h k = ground (arith, eq_iff b.namespace a.namespace, eq_iff b.name a.name)

ap2 : {A B C : Type 0} (f : A → B → C) {a a' : A} {b b' : B} → a ≡ a' → b ≡ b' → f a b ≡ f a' b'
ap2 f {a' = a'} {b = b} p q = ap (λ x. f x b) p ∙ ap (f a') q

-- A place that is empty stays as it is when it is emptied.
pub set_place-none :
    (k : Kind) (key : NamespacedName) (v : View) → v k key ≡ none → set_place k key none v ≡ v
set_place-none k key v h = fun_ext λ l. fun_ext λ at. elim (Bool-cases (same_place k key l at)) [
  | inl same ↦ rw same (
      sym h ∙ ap2 v (same_kind→eq k l (ground arith)) (key_eq key at (ground arith) (ground arith)))
  | inr other ↦ rw other refl
]

-- What is set last counts.
pub set_place-twice :
    (k : Kind) (key : NamespacedName) (a b : Option Object) (v : View)
    → set_place k key a (set_place k key b v) ≡ set_place k key a v
set_place-twice k key a b v = fun_ext λ l. fun_ext λ at. ground arith
