-- ===== src/Controller/Reconcile/Panics.antt =====
-- A round chooses its stage without a panic: a retry that is marked has its reason.
use infrakube_multicluster.Prelude.{ℕ, ◌≡◌, ◌≢◌, Option, none, true, arith}
use infrakube_multicluster.Exec.{panics}
use infrakube_multicluster.Kube.{NamespacedName, ApiError}
use infrakube_multicluster.Resource.{Terraform}
use infrakube_multicluster.Stages.{check_set_new_stage}
use infrakube_multicluster.Stages.Totality.{check-panics}
use infrakube_multicluster.Controller.Reconcile.Status.{mark_deletion, mark_retry}

mark_retry-reason :
    (now : ℕ) (tf : Terraform)
    → (mark_retry now tf).0 ≡ true
    → (mark_retry now tf).1.status.retry_event_reason ≢ none
unfolding mark_retry
mark_retry-reason now tf h k = ground arith

-- The stage that a round chooses, once the deletion and the retry have been marked, is chosen
-- without a panic, whatever the resource.
pub check-marked :
    (get_pod : NamespacedName → Option ApiError) (now : ℕ) (tf : Terraform)
    → let marked = mark_retry now (mark_deletion tf) in
      check_set_new_stage get_pod now marked.1 marked.0 ≢ panics
check-marked get_pod now tf h =
    let marked = mark_retry now (mark_deletion tf) in
    let (retry, _, nil) = (check-panics get_pod now marked.1 marked.0).0 h in
    mark_retry-reason now (mark_deletion tf) retry nil
