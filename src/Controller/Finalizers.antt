-- ===== src/Controller/Finalizers.antt =====
-- pkg/controllers/tf_controller.go: `updateFinalizer`, which adds and removes the finalizer that
-- holds a resource until its delete workflow has run.
pub mod Laws
use infrakube_multicluster.Prelude.{
  String, Bool, true, false, not, ◌&&◌, List, [], ◌∷◌, ◌++◌, ◌==◌, ltb, length, if◌then◌else◌,
}
use infrakube_multicluster.Exec.{Go, returns, panics}
use infrakube_multicluster.Utils.{list_contains_str}
use infrakube_multicluster.Utils.Remove.{list_remove_str}
use infrakube_multicluster.Resource.{Terraform}
use infrakube_multicluster.Resource.Status.{phase_deleted}

abbrev pub tf_finalizer : String
tf_finalizer = "finalizer.infrakube.galleybytes.com"

-- SetFinalizers with what is left, and `true`.
abbrev removed : Terraform → Go (List String) → Go (Terraform × Bool)
removed tf (returns rest) = returns (record tf { finalizers = rest }, true)
removed tf panics = panics

-- The resource with its finalizers set, and whether they changed.
unfoldable pub update_finalizer : Terraform → Go (Terraform × Bool)
update_finalizer tf =
    let held = list_contains_str tf.finalizers tf_finalizer in
    let without = removed tf (list_remove_str tf.finalizers tf_finalizer) in
    if tf.status.phase == phase_deleted && held
    then without
    else if (tf.spec.ignore_delete && ltb 0 (length tf.finalizers)) && held
    then without
    else if not tf.spec.ignore_delete && not held
    then returns (record tf { finalizers = tf.finalizers ++ tf_finalizer ∷ [] }, true)
    else returns (tf, false)
