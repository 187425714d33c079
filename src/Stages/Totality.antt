-- ===== src/Stages/Totality.antt =====
-- When `check_set_new_stage` dereferences a nil pointer.
use infrakube_multicluster.Prelude.{
  ℕ, String, List, ◌≡◌, ◌≢◌, ◌↔◌, Bool, true, Option, none, some, arith,
}
use infrakube_multicluster.Task.{TaskName, run_init, run_setup, run_init_delete, run_setup_delete}
use infrakube_multicluster.Kube.{NamespacedName, ApiError}
use infrakube_multicluster.Workflow.{get_configured_tasks}
use infrakube_multicluster.Resource.{Terraform}
use infrakube_multicluster.Resource.Status.{Stage}
use infrakube_multicluster.Exec.{panics}
use infrakube_multicluster.Stages.{
  Choice, keep, move, nil_reason, choose, set_choice, check_set_new_stage, retry_choice,
  completed_choice, failed_choice,
}

set_choice-panics :
    (now : ℕ) (tf : Terraform) (c : Choice) → (set_choice now tf c ≡ panics) ↔ (c ≡ nil_reason)
unfolding set_choice
set_choice-panics now tf keep = ground arith
set_choice-panics now tf nil_reason = ground arith
set_choice-panics now tf (move t r i s) = ground arith

retry_choice-nil :
    (reason : Option String) (init setup : TaskName)
    → (retry_choice reason init setup ≡ nil_reason) ↔ (reason ≡ none)
unfolding retry_choice
retry_choice-nil none init setup = ground arith
retry_choice-nil (some reason) init setup = ground arith

completed_choice-nil :
    (configured : List TaskName) (stage : Stage) → completed_choice configured stage ≢ nil_reason
unfolding completed_choice
completed_choice-nil configured stage = ground arith

failed_choice-nil :
    (get_pod : NamespacedName → Option ApiError) (configured : List TaskName) (tf : Terraform)
    → failed_choice get_pod configured tf ≢ nil_reason
unfolding failed_choice
failed_choice-nil get_pod configured tf = ground arith

choose-nil :
    (get_pod : NamespacedName → Option ApiError) (tf : Terraform) (is_retry : Bool)
    → (choose get_pod tf is_retry ≡ nil_reason) ↔ (
        (is_retry ≡ true)
        × (tf.status.stage.generation ≡ tf.generation)
        × (tf.status.retry_event_reason ≡ none))
unfolding choose
choose-nil get_pod tf is_retry =
    let configured = get_configured_tasks (some tf.spec.task_options) in
    ground (
      arith,
      retry_choice-nil tf.status.retry_event_reason run_init run_setup,
      retry_choice-nil tf.status.retry_event_reason run_init_delete run_setup_delete,
      completed_choice-nil configured tf.status.stage,
      failed_choice-nil get_pod configured tf,
    )

-- checkSetNewStage dereferences a nil pointer exactly at a retry of the stage's own generation whose
-- resource has no reason for one.
pub check-panics :
    (get_pod : NamespacedName → Option ApiError) (now : ℕ) (tf : Terraform) (is_retry : Bool)
    → (check_set_new_stage get_pod now tf is_retry ≡ panics) ↔ (
        (is_retry ≡ true)
        × (tf.status.stage.generation ≡ tf.generation)
        × (tf.status.retry_event_reason ≡ none))
unfolding check_set_new_stage
check-panics get_pod now tf is_retry =
    ground
      (arith, set_choice-panics now tf (choose get_pod tf is_retry), choose-nil get_pod tf is_retry)
