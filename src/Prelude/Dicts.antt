-- ===== src/Prelude/Dicts.antt =====
-- Go maps with text keys, as association lists: a missing key reads as `none`.
use Prim.Native.String.{String}
use mathlib.Core.Path.{◌≡◌}
use mathlib.Core.List.{List, [], ◌∷◌}
use mathlib.Core.Option.{Option, none, some}
use native.Mathlib.Omega.{arith}
use text.Mathlib.Text.{◌==◌}
use text.Mathlib.TextEquality.{eq_iff}
use infrakube_multicluster.Prelude.Tests.{if◌then◌else◌}

abbrev pub Dict {ℓ} : Type ℓ → Type ℓ
Dict V = List (String × V)

module _ {ℓ} {V : Type ℓ} where
  -- m[key], with its `ok`
  unfoldable pub lookup : String → Dict V → Option V
  lookup key [] = none
  lookup key (entry ∷ entries) =
      let rest = lookup key entries in if entry.0 == key then some entry.1 else rest

  -- delete(m, key)
  unfoldable pub delete : String → Dict V → Dict V
  delete key [] = []
  delete key (entry ∷ entries) =
      let rest = delete key entries in if entry.0 == key then rest else entry ∷ rest

  -- m[key] = value
  unfoldable pub insert : String → V → Dict V → Dict V
  insert key value [] = (key, value) ∷ []
  insert key value (entry ∷ entries) =
      let rest = insert key value entries in
      if entry.0 == key then (key, value) ∷ entries else entry ∷ rest

  abbrev pub keys : Dict V → List String
  keys [] = []
  keys (entry ∷ entries) = entry.0 ∷ keys entries

  -- A key that is deleted is not found, and the other keys are found as before.
  pub lookup-delete :
      (gone key : String) (entries : Dict V)
      → lookup key (delete gone entries) ≡ (if gone == key then none else lookup key entries)
  unfolding lookup delete
  lookup-delete gone key [] = ground arith
  lookup-delete gone key (entry ∷ entries) = ground (
    arith,
    lookup-delete gone key entries,
    eq_iff gone key,
    eq_iff entry.0 gone,
    eq_iff entry.0 key,
  )

  -- for key, value := range from { into[key] = value }
  unfoldable pub insert_all : Dict V → Dict V → Dict V
  insert_all into [] = into
  insert_all into (entry ∷ from) = insert_all (insert entry.0 entry.1 into) from
