-- ===== src/Resource/Status.antt =====
-- pkg/apis/infrakube/v1/tf_types.go: the status of a resource and its stage. Phases and states are
-- texts, as in the source: the reconciler stores the phase of a pod as a stage's state. Times count
-- seconds.
use infrakube_multicluster.Prelude.{
  ℕ, String, Bool, true, false, not, Option, List, Dict, ◌==◌, eqb, if◌then◌else◌,
}
use infrakube_multicluster.Task.{TaskName}

abbrev pub StatusPhase : Type 0
StatusPhase = String

abbrev pub phase_initializing : StatusPhase
phase_initializing = "initializing"

abbrev pub phase_completed : StatusPhase
phase_completed = "completed"

abbrev pub phase_running : StatusPhase
phase_running = "running"

abbrev pub phase_init_delete : StatusPhase
phase_init_delete = "initializing-delete"

abbrev pub phase_deleting : StatusPhase
phase_deleting = "deleting"

abbrev pub phase_deleted : StatusPhase
phase_deleted = "deleted"

abbrev pub StageState : Type 0
StageState = String

abbrev pub state_initializing : StageState
state_initializing = "initializing"

abbrev pub state_complete : StageState
state_complete = "complete"

abbrev pub state_failed : StageState
state_failed = "failed"

abbrev pub state_in_progress : StageState
state_in_progress = "in-progress"

abbrev pub Interruptible : Type 0
Interruptible = Bool

abbrev pub can_not_be_interrupt : Interruptible
can_not_be_interrupt = false

abbrev pub can_be_interrupt : Interruptible
can_be_interrupt = true

pub record Stage : Type 0 where
  pub generation : ℕ
  pub state : StageState
  pub task_type : TaskName
  pub interruptible : Interruptible
  pub reason : String
  pub start_time : ℕ
  pub stop_time : ℕ
  pub message : String
  pub pod_name : String
  pub pod_uid : String

abbrev pub bool_eq : Bool → Bool → Bool
bool_eq true b = b
bool_eq false b = not b

-- Stage.IsEqual: the name of the first field that differs, or "".
unfoldable pub is_equal : Stage → Stage → String
is_equal s desired =
    if not (eqb s.generation desired.generation)
    then "generation"
    else if not (s.task_type == desired.task_type)
    then "taskType"
    else if not (bool_eq s.interruptible desired.interruptible)
    then "interruptible"
    else if not (s.reason == desired.reason)
    then "reason"
    else if not (s.message == desired.message)
    then "message"
    else if not (s.pod_name == desired.pod_name)
    then "podName"
    else ""

pub record TerraformStatus : Type 0 where
  pub pod_name_prefix : String
  pub phase : StatusPhase
  pub last_completed_generation : ℕ
  pub outputs : Dict String
  pub stage : Stage
  pub plugins_started : List TaskName
  pub retry_event_reason : Option String
  pub retry_timestamp : Option ℕ
