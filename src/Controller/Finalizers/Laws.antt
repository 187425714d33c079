-- ===== src/Controller/Finalizers/Laws.antt =====
-- What `update_finalizer` settles on.
use infrakube_multicluster.Prelude.{
  String, ◌≡◌, ◌≢◌, true, false, List, [], ◌∷◌, ◌++◌, arith, ltb, length, if◌then◌else◌, eq_iff,
  ne→text_neq,
}
use infrakube_multicluster.Exec.{returns}
use infrakube_multicluster.Utils.{
  list_contains_str, list_contains_str-middle, list_contains_str-append,
}
use infrakube_multicluster.Utils.Remove.{list_remove_str_lem}
use infrakube_multicluster.Resource.{Terraform}
use infrakube_multicluster.Resource.Status.{phase_deleted}
use infrakube_multicluster.Controller.Finalizers.{tf_finalizer, update_finalizer}

-- The finalizers of a resource that does not hold the controller's, and those of one that does.
abbrev pub with_finalizers : Terraform → List String → Terraform
with_finalizers tf l = record tf { finalizers = l }

length-positive : (pre post : List String) (s : String) → ltb 0 (length (pre ++ s ∷ post)) ≡ true
length-positive [] post s = ground arith
length-positive (x ∷ pre) post s = ground arith

-- While the resource is not deleted, one call is enough: the finalizer is there exactly if deletes
-- are not ignored, the other finalizers keep their order, the call says whether it changed any,
-- and a second call changes nothing. The finalizer stands at most once at the start.
pub update_finalizer_settles :
    (tf : Terraform) (pre post : List String)
    → tf.status.phase ≢ phase_deleted
    → list_contains_str pre tf_finalizer ≡ false
    → list_contains_str post tf_finalizer ≡ false
    → (update_finalizer (with_finalizers tf (pre ++ tf_finalizer ∷ post)) ≡ (
        if tf.spec.ignore_delete
        then returns (with_finalizers tf (pre ++ post), true)
        else returns (with_finalizers tf (pre ++ tf_finalizer ∷ post), false)))
      × (update_finalizer (with_finalizers tf pre) ≡ (
          if tf.spec.ignore_delete
          then returns (with_finalizers tf pre, false)
          else returns (with_finalizers tf (pre ++ tf_finalizer ∷ []), true)))
unfolding update_finalizer
update_finalizer_settles tf pre post live h k = ground (
  arith,
  ne→text_neq tf.status.phase phase_deleted live,
  length-positive pre post tf_finalizer,
  list_remove_str_lem tf_finalizer pre post h k,
  list_contains_str-middle pre post tf_finalizer,
)

contains-without :
    (pre post : List String) (s : String)
    → list_contains_str pre s ≡ false
    → list_contains_str post s ≡ false
    → list_contains_str (pre ++ post) s ≡ false
contains-without pre post s h k = ground (arith, list_contains_str-append pre post s)

-- Of a deleted resource the first call takes the finalizer off. Where deletes are not ignored a
-- second call, which finds the resource still there, puts it back at the end.
pub update_finalizer_deleted :
    (tf : Terraform) (pre post : List String)
    → tf.status.phase ≡ phase_deleted
    → list_contains_str pre tf_finalizer ≡ false
    → list_contains_str post tf_finalizer ≡ false
    → (update_finalizer (with_finalizers tf (pre ++ tf_finalizer ∷ post))
        ≡ returns (with_finalizers tf (pre ++ post), true))
      × (update_finalizer (with_finalizers tf (pre ++ post)) ≡ (
          if tf.spec.ignore_delete
          then returns (with_finalizers tf (pre ++ post), false)
          else returns (with_finalizers tf ((pre ++ post) ++ tf_finalizer ∷ []), true)))
unfolding update_finalizer
update_finalizer_deleted tf pre post gone h k = ground (
  arith,
  eq_iff tf.status.phase phase_deleted,
  list_remove_str_lem tf_finalizer pre post h k,
  list_contains_str-middle pre post tf_finalizer,
  contains-without pre post tf_finalizer h k,
)
