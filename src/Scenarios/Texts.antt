-- ===== src/Scenarios/Texts.antt =====
-- Names and lists of names.
use Prim.Native.String.{len}
use infrakube_multicluster.Prelude.{◌≡◌, ◌≤◌, ◌<◌, ◌⊎◌, refl, String, [], ◌∷◌}
use infrakube_multicluster.Exec.{returns, panics}
use infrakube_multicluster.Utils.{auto_hash_labeler, list_contains_str}
use infrakube_multicluster.Utils.Remove.{list_remove_str, repeated_remove}
use infrakube_multicluster.Utils.Names.{auto_hash_labeler_bounds}

-- A digest that is the same for every name.
abbrev digest : String → String
digest s = "0123456789abcdef0123456789abcdef"

auto_hash_labeler_bounds_example :
    (len (auto_hash_labeler digest "network") ≤ 63)
    × ((auto_hash_labeler digest "network" ≡ "network") ⊎ (63 < len "network"))
auto_hash_labeler_bounds_example = auto_hash_labeler_bounds digest "network" (λ t. refl)

repeated_remove_example :
    (list_remove_str ("x" ∷ "a" ∷ "a" ∷ []) "a" ≡ panics)
    × (list_remove_str ("x" ∷ "a" ∷ "a" ∷ "b" ∷ "c" ∷ []) "a"
        ≡ returns ("x" ∷ "a" ∷ "b" ∷ "c" ∷ []))
unfolding list_contains_str
repeated_remove_example = repeated_remove "a" "b" ("x" ∷ []) ("c" ∷ []) refl refl
