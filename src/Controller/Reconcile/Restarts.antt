-- ===== src/Controller/Reconcile/Restarts.antt =====
-- When a round restarts a workflow: by a label, and by a generation that changes under a pod.
use infrakube_multicluster.Prelude.{
  ℕ, String, ◌≡◌, refl, ◌≢◌, true, false, Option, none, some, arith, ◌==◌, eq_iff, eqb_refl, lookup,
  has_suffix, if◌then◌else◌,
}
use infrakube_multicluster.Exec.{returns}
use infrakube_multicluster.Utils.{list_contains_str}
use infrakube_multicluster.Task.{run_setup, run_init}
use infrakube_multicluster.Kube.{NamespacedName, ApiError, PodStatus, pod_running}
use infrakube_multicluster.Resource.{Terraform}
use infrakube_multicluster.Resource.Status.{
  can_be_interrupt, state_initializing, can_be_interrupt, state_initializing, Stage,
  state_in_progress, phase_initializing,
}
use infrakube_multicluster.Stages.Safety.{check-move}
use infrakube_multicluster.Stages.{
  is_task_interruptable, is_deleting, choose, retry_choice, check_set_new_stage, move,
}
use infrakube_multicluster.Controller.Reconcile.Status.{
  mark_deletion, mark_retry, observed, differs,
}

some_ne : (o : Option String) (label : String) → o ≢ some label → differs o label ≡ true
unfolding differs
some_ne none label h = refl
some_ne (some reason) label h = ground (arith, eq_iff reason label)

module _ (now : ℕ) (tf : Terraform) (label : String)
    (labelled : lookup "kubernetes.io/change-cause" tf.labels ≡ some label)
    (new : tf.status.retry_event_reason ≢ some label) where
  labels-mark_deletion : (mark_deletion tf).labels ≡ tf.labels
  unfolding mark_deletion
  labels-mark_deletion = ground arith

  marked : Terraform
  marked = (mark_retry now (mark_deletion tf)).1

  marked_lem :
      ((mark_retry now (mark_deletion tf)).0 ≡ true)
      × (marked.status.phase ≡ phase_initializing)
      × (marked.status.retry_event_reason ≡ some label)
      × (marked.status.stage ≡ tf.status.stage)
      × (marked.generation ≡ tf.generation)
  unfolding marked mark_retry mark_deletion
  marked_lem = ground (arith, some_ne tf.status.retry_event_reason label new)

  marked_not_deleting : is_deleting marked ≡ false
  unfolding is_deleting list_contains_str
  marked_not_deleting = rw (marked_lem.1) refl

  choose-marked :
      (get_pod : NamespacedName → Option ApiError)
      → tf.status.stage.generation ≡ tf.generation
      → choose get_pod marked true ≡ retry_choice (some label) run_init run_setup
  unfolding choose
  choose-marked get_pod same =
      ground (arith, marked_lem, marked_not_deleting, eqb_refl marked.generation)

  choose-marked-move :
      (get_pod : NamespacedName → Option ApiError)
      → tf.status.stage.generation ≡ tf.generation
      → let t = if has_suffix label ".setup" then run_setup else run_init in
        choose get_pod marked true ≡ move t label (is_task_interruptable t) state_initializing
  unfolding retry_choice
  choose-marked-move get_pod same = choose-marked get_pod same

  -- A change-cause label that is new to the status restarts the create workflow of the present
  -- generation, at its setup where the label ends in ".setup" and at its init otherwise, whatever
  -- the phase is: also while the resource is being deleted.
  pub retry_restarts_create :
      (get_pod : NamespacedName → Option ApiError)
      → tf.status.stage.generation ≡ tf.generation
      → (tf' : Terraform) × (stage : Stage) × (check_set_new_stage get_pod now
            (mark_retry now (mark_deletion tf)).1
            (mark_retry now (mark_deletion tf)).0
          ≡ returns (tf', some stage))
        × (stage.task_type ≡ (if has_suffix label ".setup" then run_setup else run_init))
  unfolding marked
  retry_restarts_create get_pod same =
      let (tf', stage, checked, task, _) =
        check-move get_pod now marked true _ _ _ _ (choose-marked-move get_pod same) in
      (tf', stage, rw (marked_lem.0) checked, task)

-- The stage, once its pod has been seen running: its state is the phase of the pod, "Running", and
-- not "in-progress".
observed-running :
    (now : ℕ) (tf : Terraform) (pod : PodStatus)
    → pod.phase ≡ pod_running
    → (((observed now tf pod).status.stage.state == state_in_progress) ≡ false)
      × ((observed now tf pod).status.stage.generation ≡ tf.status.stage.generation)
      × ((observed now tf pod).status.phase ≡ tf.status.phase)
unfolding observed
observed-running now tf pod h = rw h (refl, refl, refl)

choose-running :
    (get_pod : NamespacedName → Option ApiError) (now generation : ℕ) (tf : Terraform)
    (pod : PodStatus)
    → pod.phase ≡ pod_running
    → is_deleting tf ≡ false
    → generation ≢ tf.status.stage.generation
    → choose get_pod (record (observed now tf pod) { generation = generation }) false
      ≡ move run_setup "GENERATION_CHANGE" can_be_interrupt state_initializing
unfolding choose is_deleting
choose-running get_pod now generation tf pod h live new =
    ground (arith, observed-running now tf pod h, eq_iff pod_running state_in_progress)

-- A stage whose pod has been seen running gives way to the setup of a new generation of a resource
-- that is not being deleted, also where the stage can not be interrupted.
pub running_interrupted :
    (get_pod : NamespacedName → Option ApiError) (now later generation : ℕ) (tf : Terraform)
    (pod : PodStatus)
    → pod.phase ≡ pod_running
    → is_deleting tf ≡ false
    → generation ≢ tf.status.stage.generation
    → (tf' : Terraform) × (stage : Stage) × (check_set_new_stage get_pod later
          (record (observed now tf pod) { generation = generation })
          false
        ≡ returns (tf', some stage))
      × (stage.task_type ≡ run_setup)
      × (stage.generation ≡ generation)
running_interrupted get_pod now later generation tf pod h live new =
    check-move get_pod later (record (observed now tf pod) { generation = generation }) false _ _ _
      _ (choose-running get_pod now generation tf pod h live new)
