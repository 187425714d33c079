-- ===== src/Controller/Reconcile/Outputs.antt =====
-- pkg/controllers/tf_controller.go, reconcile: the outputs that a completed workflow writes to the
-- status.
use infrakube_multicluster.Prelude.{
  String, ◌≡◌, refl, true, false, Option, none, some, List, [], ◌∷◌, ◌==◌, arith, eq_iff, Dict,
  keys, lookup, insert, insert_all, if◌then◌else◌,
}
use infrakube_multicluster.Utils.{list_contains_str}
use infrakube_multicluster.Workflow.Configured.{distinct}
use infrakube_multicluster.Controller.Reconcile.Status.{prune_outputs, update_outputs}

or_else : Option String → Option String → Option String
or_else none rest = rest
or_else (some value) rest = some value

lookup-insert :
    (key other value : String) (entries : Dict String)
    → lookup other (insert key value entries)
      ≡ (if key == other then some value else lookup other entries)
unfolding lookup insert
lookup-insert key other value [] = ground arith
lookup-insert key other value (entry ∷ entries) = ground (
  arith,
  lookup-insert key other value entries,
  eq_iff key other,
  eq_iff entry.0 key,
  eq_iff entry.0 other,
)

lookup-absent :
    (key : String) (entries : Dict String)
    → list_contains_str (keys entries) key ≡ false
    → lookup key entries ≡ none
unfolding lookup list_contains_str
lookup-absent key [] h = refl
lookup-absent key (entry ∷ entries) h = ground (arith, lookup-absent key entries)

lookup-insert_all :
    (key : String) (into from : Dict String)
    → distinct (keys from) ≡ true
    → lookup key (insert_all into from) ≡ or_else (lookup key from) (lookup key into)
unfolding lookup insert_all or_else
lookup-insert_all key into [] d = refl
lookup-insert_all key into (entry ∷ from) d = ground (
  arith,
  lookup-insert_all key (insert entry.0 entry.1 into) from,
  lookup-insert entry.0 key entry.1 into,
  lookup-absent entry.0 from,
  eq_iff entry.0 key,
)

lookup-prune_outputs :
    (key : String) (names : List String) (outputs : Dict String)
    → lookup key (prune_outputs names outputs)
      ≡ (if list_contains_str names key then lookup key outputs else none)
unfolding lookup prune_outputs
lookup-prune_outputs key names [] = ground arith
lookup-prune_outputs key names (entry ∷ outputs) =
    ground (arith, lookup-prune_outputs key names outputs, eq_iff entry.0 key)

lookup-present :
    (key : String) (entries : Dict String) (rest : Option String)
    → list_contains_str (keys entries) key ≡ true
    → or_else (lookup key entries) rest ≡ lookup key entries
unfolding lookup list_contains_str or_else
lookup-present key [] rest h = ground arith
lookup-present key (entry ∷ entries) rest h = ground (arith, lookup-present key entries rest)

-- The outputs of the status become exactly those of the secret: each name is found in both with the
-- same value or in neither, whatever the status had before, where the secret has no name twice.
pub lookup-update_outputs :
    (key : String) (outputs contents : Dict String)
    → distinct (keys contents) ≡ true
    → lookup key (update_outputs outputs contents) ≡ lookup key contents
unfolding update_outputs or_else
lookup-update_outputs key outputs contents d = ground (
  arith,
  lookup-insert_all key (prune_outputs (keys contents) outputs) contents d,
  lookup-prune_outputs key (keys contents) outputs,
  lookup-present key contents (lookup key outputs),
  lookup-absent key contents,
)
