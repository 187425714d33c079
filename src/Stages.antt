-- ===== src/Stages.antt =====
-- pkg/controllers/tf_controller.go: `newStage`, `isTaskInterruptable` and `checkSetNewStage`, which
-- chooses the stage that follows the present one. What the API server says of the stage's pod is
-- the argument `get_pod`, and the time of the call is `now`.
pub mod Runs
pub mod Separation
pub mod Safety
pub mod Totality
use infrakube_multicluster.Prelude.{
  ℕ, String, Bool, true, false, not, ◌&&◌, Option, none, some, List, [], ◌∷◌, ◌==◌, ◌⧺◌, eqb,
  has_suffix, to_upper, if◌then◌else◌,
}
use infrakube_multicluster.Exec.{Go, returns, panics}
use infrakube_multicluster.Utils.{list_contains_str}
use infrakube_multicluster.Task.{
  TaskName, list_contains_task, run_nil, run_setup, run_init, run_post_init, run_plan, run_apply,
  run_setup_delete, run_init_delete, run_post_init_delete, run_plan_delete, run_apply_delete,
}
use infrakube_multicluster.Kube.{NamespacedName, ApiError, not_found}
use infrakube_multicluster.Resource.{Terraform}
use infrakube_multicluster.Resource.Status.{
  Stage, StageState, Interruptible, can_not_be_interrupt, can_be_interrupt, phase_initializing,
  phase_init_delete, phase_deleting, phase_deleted, state_initializing, state_complete,
  state_failed, state_in_progress,
}
use infrakube_multicluster.Workflow.{get_configured_tasks, next_task}

abbrev pub uninterruptible_tasks : List TaskName
uninterruptible_tasks =
    run_init ∷ run_plan ∷ run_apply ∷ run_init_delete ∷ run_plan_delete ∷ run_apply_delete ∷ []

unfoldable pub is_task_interruptable : TaskName → Interruptible
is_task_interruptable task =
    if list_contains_task uninterruptible_tasks task then can_not_be_interrupt else can_be_interrupt

-- newStage, with the resource whose status it changes.
unfoldable pub new_stage :
    (now : ℕ) → Terraform → TaskName → String → Interruptible → StageState → Terraform × Stage
new_stage now tf task_type reason interruptible stage_state =
    let tf' =
      if reason == "GENERATION_CHANGE"
      then record tf {
        status = record tf.status { plugins_started = []; phase = phase_initializing };
      }
      else tf in
    (
      tf',
      record {
        generation = tf.generation;
        state = stage_state;
        task_type = task_type;
        interruptible = interruptible;
        reason = reason;
        start_time = now;
        stop_time = if stage_state == state_complete then now else 0;
        message = "";
        pod_name = "";
        pod_uid = "";
      },
    )

-- What the chain of tests decides: to keep the stage, to move to another, or to read the reason of
-- a retry through a nil pointer.
pub data Choice : Type 0 where
  keep : Choice
  move : TaskName → String → Interruptible → StageState → Choice
  nil_reason : Choice

abbrev pub delete_phases : List String
delete_phases = phase_deleted ∷ phase_init_delete ∷ phase_deleting ∷ []

unfoldable pub is_deleting : Terraform → Bool
is_deleting tf = list_contains_str delete_phases tf.status.phase

abbrev pub is_new_generation : Terraform → Bool
is_new_generation tf = not (eqb tf.status.stage.generation tf.generation)

-- The branches of a retry, which differ by the tasks they start from.
unfoldable pub retry_choice : Option String → TaskName → TaskName → Choice
retry_choice none init setup = nil_reason
retry_choice (some reason) init setup =
    let pod_type = if has_suffix reason ".setup" then setup else init in
    move pod_type reason (is_task_interruptable pod_type) state_initializing

-- The branch of a complete stage.
unfoldable pub completed_choice : List TaskName → Stage → Choice
completed_choice configured stage =
    if stage.task_type == run_nil
    then keep
    else let pod_type = next_task stage.task_type configured in
      move pod_type ("COMPLETED_" ⧺ to_upper stage.task_type) (is_task_interruptable pod_type)
        (if pod_type == run_nil then state_complete else state_initializing)

abbrev pub is_not_found : Option ApiError → Bool
is_not_found (some not_found) = true
is_not_found _ = false

-- The branch of a failed stage: a failed apply whose pod is gone restarts the workflow.
unfoldable pub failed_choice :
    (NamespacedName → Option ApiError) → List TaskName → Terraform → Choice
failed_choice get_pod configured tf =
    let gone =
      is_not_found
        (get_pod (record { namespace = tf.namespace; name = tf.status.stage.pod_name })) in
    let restart = λ (reason : String) (after : TaskName).
      let pod_type = next_task after configured in
      if gone
      then move pod_type reason (is_task_interruptable pod_type) state_initializing
      else keep in
    if tf.status.stage.task_type == run_apply
    then restart "RESTARTED_WORKFLOW" run_post_init
    else if tf.status.stage.task_type == run_apply_delete
    then restart "RESTARTED_DELETE_WORKFLOW" run_post_init_delete
    else keep

-- The chain of tests of checkSetNewStage, in its order.
unfoldable pub choose : (NamespacedName → Option ApiError) → Terraform → Bool → Choice
choose get_pod tf is_retry =
    let configured = get_configured_tasks (some tf.spec.task_options) in
    let stage = tf.status.stage in
    let can_not_be_interrupted = not stage.interruptible in
    let is_running = stage.state == state_in_progress in
    let init_delete = tf.status.phase == phase_init_delete in
    if is_retry && not (is_deleting tf) && not (is_new_generation tf)
    then retry_choice tf.status.retry_event_reason run_init run_setup
    else if is_retry && is_deleting tf && not (is_new_generation tf)
    then retry_choice tf.status.retry_event_reason run_init_delete run_setup_delete
    else if can_not_be_interrupted && is_running
    then keep
    else if is_new_generation tf && not (is_deleting tf)
    then move run_setup "GENERATION_CHANGE" can_be_interrupt state_initializing
    else if is_new_generation tf && init_delete
    then move run_setup_delete "TF_RESOURCE_DELETED" can_not_be_interrupt state_initializing
    else if is_new_generation tf && is_deleting tf
    then move run_setup_delete "TF_RESOURCE_DELETED" can_be_interrupt state_initializing
    else if stage.state == state_complete
    then completed_choice configured stage
    else if stage.state == state_failed
    then failed_choice get_pod configured tf
    else keep

unfoldable pub set_choice : ℕ → Terraform → Choice → Go (Terraform × Option Stage)
unfolding new_stage
set_choice now tf keep = returns (tf, none)
set_choice now tf nil_reason = panics
set_choice now tf (move pod_type reason interruptible stage_state) =
    let (tf', stage) = new_stage now tf pod_type reason interruptible stage_state in
    returns (tf', some stage)

-- checkSetNewStage: the resource, whose status it may change, and the new stage.
unfoldable pub check_set_new_stage :
    (NamespacedName → Option ApiError) → ℕ → Terraform → Bool → Go (Terraform × Option Stage)
unfolding set_choice choose
check_set_new_stage get_pod now tf is_retry = set_choice now tf (choose get_pod tf is_retry)
