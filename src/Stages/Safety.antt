-- ===== src/Stages/Safety.antt =====
-- When `check_set_new_stage` leaves a stage: a stage that runs is not interrupted by chance.
use infrakube_multicluster.Prelude.{
  ℕ, String, ◌≡◌, refl, ap, ◌≢◌, ◌⊎◌, Bool, true, Option, some, arith, eq_iff,
}
use infrakube_multicluster.Task.{TaskName}
use infrakube_multicluster.Kube.{NamespacedName, ApiError}
use infrakube_multicluster.Resource.{Terraform}
use infrakube_multicluster.Resource.Status.{
  Interruptible, StageState, Stage, state_complete, state_failed, state_in_progress,
  can_be_interrupt,
}
use infrakube_multicluster.Exec.{returns}
use infrakube_multicluster.Stages.{
  new_stage, Choice, keep, move, nil_reason, choose, set_choice, check_set_new_stage,
}

-- Why a stage that is neither complete nor failed may be left: a retry of its own generation, or a
-- new generation, and then the stage may be interrupted or is not in progress.
abbrev pub MayLeave : Terraform → Bool → Type 0
MayLeave tf is_retry =
    ((is_retry ≡ true) × (tf.status.stage.generation ≡ tf.generation))
    ⊎ ((tf.status.stage.generation ≢ tf.generation)
        × ((tf.status.stage.interruptible ≡ can_be_interrupt)
            ⊎ (tf.status.stage.state ≢ state_in_progress)))

choose-MayLeave :
    (get_pod : NamespacedName → Option ApiError) (tf : Terraform) (is_retry : Bool)
    → tf.status.stage.state ≢ state_complete
    → tf.status.stage.state ≢ state_failed
    → choose get_pod tf is_retry ≢ keep
    → MayLeave tf is_retry
unfolding choose
choose-MayLeave get_pod tf is_retry c f moved = ground (
  arith,
  eq_iff tf.status.stage.state state_complete,
  eq_iff tf.status.stage.state state_failed,
  eq_iff tf.status.stage.state state_in_progress,
)

set_choice-keep :
    (now : ℕ) (tf tf' : Terraform) (stage : Stage) (c : Choice)
    → set_choice now tf c ≡ returns (tf', some stage)
    → c ≢ keep
unfolding set_choice
set_choice-keep now tf tf' stage keep h = ground arith
set_choice-keep now tf tf' stage nil_reason h = ground arith
set_choice-keep now tf tf' stage (move t r i s) h = ground arith

-- A stage that is neither complete nor failed gives way to another only for a retry of its own
-- generation, or for a new generation while it may be interrupted or is not "in-progress".
pub check-MayLeave :
    (get_pod : NamespacedName → Option ApiError) (now : ℕ) (tf tf' : Terraform) (is_retry : Bool)
    (stage : Stage)
    → tf.status.stage.state ≢ state_complete
    → tf.status.stage.state ≢ state_failed
    → check_set_new_stage get_pod now tf is_retry ≡ returns (tf', some stage)
    → MayLeave tf is_retry
unfolding check_set_new_stage
check-MayLeave get_pod now tf tf' is_retry stage c f h =
    choose-MayLeave get_pod tf is_retry c f (set_choice-keep now tf tf' stage _ h)

-- A decision to move is carried out.
pub check-move :
    (get_pod : NamespacedName → Option ApiError) (now : ℕ) (tf : Terraform) (is_retry : Bool)
    (t : TaskName) (r : String) (i : Interruptible) (s : StageState)
    → choose get_pod tf is_retry ≡ move t r i s
    → (tf' : Terraform) × (stage : Stage) × (check_set_new_stage get_pod now tf is_retry
        ≡ returns (tf', some stage))
      × (stage.task_type ≡ t)
      × (stage.generation ≡ tf.generation)
unfolding check_set_new_stage set_choice
check-move get_pod now tf is_retry t r i s e = (
  (new_stage now tf t r i s).0,
  (new_stage now tf t r i s).1,
  ap (set_choice now tf) e,
  refl,
  refl,
)
