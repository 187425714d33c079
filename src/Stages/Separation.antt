-- ===== src/Stages/Separation.antt =====
-- The two workflows stay apart: while a resource is being deleted its stages are those of the delete
-- workflow, and otherwise those of the create workflow.
use infrakube_multicluster.Prelude.{
  ℕ, String, ◌≡◌, ◌≢◌, ◌⊎◌, inl, inr, refl, Bool, true, false, Option, none, some, List, arith,
  eq_iff,
}
use infrakube_multicluster.Utils.{list_contains_str}
use infrakube_multicluster.Task.{
  TaskName, list_contains_task, run_nil, run_post_init, run_post_init_delete, run_apply,
  run_apply_delete, run_setup, run_init, run_setup_delete, run_init_delete,
}
use infrakube_multicluster.Kube.{NamespacedName, ApiError}
use infrakube_multicluster.Resource.{Terraform}
use infrakube_multicluster.Resource.Status.{Stage}
use infrakube_multicluster.Workflow.{tasks_in_order, delete_tasks_in_order, get_configured_tasks}
use infrakube_multicluster.Workflow.Closed.{WithinList, next_task-within}
use infrakube_multicluster.Exec.{returns}
use infrakube_multicluster.Stages.{
  Choice, keep, move, nil_reason, choose, set_choice, check_set_new_stage, is_deleting,
  retry_choice, completed_choice, failed_choice,
}

-- The workflow that the phase of the resource asks for.
abbrev pub workflow_of : Bool → List TaskName
workflow_of true = delete_tasks_in_order
workflow_of false = tasks_in_order

abbrev TaskWithin : List TaskName → Choice → Type 0
TaskWithin w keep = Unit
TaskWithin w nil_reason = Unit
TaskWithin w (move t r i s) = WithinList w t

retry-within :
    (w : List TaskName) (o : Option String) (init setup : TaskName)
    → list_contains_task w init ≡ true
    → list_contains_task w setup ≡ true
    → TaskWithin w (retry_choice o init setup)
unfolding retry_choice
retry-within w none init setup h k = tt
retry-within w (some r) init setup h k = ground arith

completed-within :
    (deleting : Bool) (conf : List TaskName) (stage : Stage)
    → WithinList (workflow_of deleting) stage.task_type
    → TaskWithin (workflow_of deleting) (completed_choice conf stage)
unfolding completed_choice
completed-within true conf stage h = ground (
  arith,
  next_task-within delete_tasks_in_order stage.task_type conf (inr refl),
  eq_iff stage.task_type run_nil,
)
completed-within false conf stage h = ground (
  arith,
  next_task-within tasks_in_order stage.task_type conf (inl refl),
  eq_iff stage.task_type run_nil,
)

-- The apply tasks of the other workflow.
apply-apart :
    (list_contains_task delete_tasks_in_order run_apply ≡ false)
    × (list_contains_task tasks_in_order run_apply_delete ≡ false)
    × (list_contains_task tasks_in_order run_post_init ≡ true)
    × (list_contains_task delete_tasks_in_order run_post_init_delete ≡ true)
unfolding list_contains_str
apply-apart = (refl, refl, refl, refl)

failed-within :
    (get_pod : NamespacedName → Option ApiError) (conf : List TaskName) (tf : Terraform)
    (deleting : Bool)
    → WithinList (workflow_of deleting) tf.status.stage.task_type
    → TaskWithin (workflow_of deleting) (failed_choice get_pod conf tf)
unfolding failed_choice
failed-within get_pod conf tf true h = ground (
  arith,
  apply-apart,
  eq_iff tf.status.stage.task_type run_apply,
  eq_iff run_apply run_nil,
  next_task-within delete_tasks_in_order run_post_init_delete conf (inr refl),
)
failed-within get_pod conf tf false h = ground (
  arith,
  apply-apart,
  eq_iff tf.status.stage.task_type run_apply_delete,
  eq_iff run_apply_delete run_nil,
  next_task-within tasks_in_order run_post_init conf (inl refl),
)

first_task-within :
    (list_contains_task tasks_in_order run_setup ≡ true)
    × (list_contains_task delete_tasks_in_order run_setup_delete ≡ true)
    × (list_contains_task tasks_in_order run_init ≡ true)
    × (list_contains_task delete_tasks_in_order run_init_delete ≡ true)
unfolding list_contains_str
first_task-within = (refl, refl, refl, refl)

-- The stage is of another generation, or it belongs to the workflow that the phase asks for.
abbrev pub IsSeparated : Terraform → Type 0
IsSeparated tf =
    (tf.status.stage.generation ≢ tf.generation)
    ⊎ WithinList (workflow_of (is_deleting tf)) tf.status.stage.task_type

choose-within :
    (get_pod : NamespacedName → Option ApiError) (tf : Terraform) (is_retry deleting : Bool)
    → is_deleting tf ≡ deleting
    → (tf.status.stage.generation ≢ tf.generation)
      ⊎ WithinList (workflow_of deleting) tf.status.stage.task_type
    → TaskWithin (workflow_of deleting) (choose get_pod tf is_retry)
unfolding choose
choose-within get_pod tf is_retry true d h = ground (
  arith,
  first_task-within,
  retry-within delete_tasks_in_order tf.status.retry_event_reason run_init_delete run_setup_delete,
  completed-within true (get_configured_tasks (some tf.spec.task_options)) tf.status.stage,
  failed-within get_pod (get_configured_tasks (some tf.spec.task_options)) tf true,
)
choose-within get_pod tf is_retry false d h = ground (
  arith,
  first_task-within,
  retry-within tasks_in_order tf.status.retry_event_reason run_init run_setup,
  completed-within false (get_configured_tasks (some tf.spec.task_options)) tf.status.stage,
  failed-within get_pod (get_configured_tasks (some tf.spec.task_options)) tf false,
)

set_choice-within :
    (now : ℕ) (tf tf' : Terraform) (stage : Stage) (w : List TaskName) (c : Choice)
    → TaskWithin w c
    → set_choice now tf c ≡ returns (tf', some stage)
    → WithinList w stage.task_type × (stage.generation ≡ tf.generation)
unfolding set_choice
set_choice-within now tf tf' stage w keep h e = cc
set_choice-within now tf tf' stage w nil_reason h e = cc
set_choice-within now tf tf' stage w (move t r i s) h e = ground arith

-- The stage that follows belongs to the workflow that the phase asks for: to the delete workflow
-- exactly while the resource is being deleted; and it is a stage of the present generation.
pub check-separated :
    (get_pod : NamespacedName → Option ApiError) (now : ℕ) (tf tf' : Terraform) (is_retry : Bool)
    (stage : Stage)
    → IsSeparated tf
    → check_set_new_stage get_pod now tf is_retry ≡ returns (tf', some stage)
    → WithinList (workflow_of (is_deleting tf)) stage.task_type × (stage.generation ≡ tf.generation)
unfolding check_set_new_stage
check-separated get_pod now tf tf' is_retry stage h e =
    set_choice-within now tf tf' stage _ _
      (choose-within get_pod tf is_retry (is_deleting tf) refl h) e
