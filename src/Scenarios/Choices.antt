-- ===== src/Scenarios/Choices.antt =====
-- Stages that give way to others.
use infrakube_multicluster.Prelude.{
  text_ne, ◌≡◌, ◌≢◌, ◌↔◌, refl, inl, [], ◌∷◌, true, false, some, none, arith, if◌then◌else◌,
  has_suffix, lookup,
}
use infrakube_multicluster.Exec.{returns, panics}
use infrakube_multicluster.Utils.{list_contains_str}
use infrakube_multicluster.Task.{
  run_setup, run_pre_init, run_init, run_post_init, run_pre_plan, run_plan, run_post_plan,
  run_pre_apply, run_apply, run_post_apply, run_setup_delete,
}
use infrakube_multicluster.Resource.{Terraform}
use infrakube_multicluster.Resource.Status.{
  Stage, phase_running, phase_deleting, state_initializing, state_complete, state_failed,
  can_be_interrupt, can_not_be_interrupt, is_equal,
}
use infrakube_multicluster.Resource.Equality.{SameStage, is_equal-SameStage}
use infrakube_multicluster.Workflow.{tasks_in_order}
use infrakube_multicluster.Workflow.Sequence.{selected}
use infrakube_multicluster.Workflow.Closed.{WithinList}
use infrakube_multicluster.Stages.{check_set_new_stage, new_stage, is_deleting}
use infrakube_multicluster.Stages.Safety.{MayLeave, check-MayLeave}
use infrakube_multicluster.Stages.Totality.{check-panics}
use infrakube_multicluster.Stages.Runs.{configured_tasks, stages_run, stages_run-selected}
use infrakube_multicluster.Stages.Separation.{workflow_of, check-separated}
use infrakube_multicluster.Controller.Reconcile.Status.{mark_deletion, mark_retry, observed}
use infrakube_multicluster.Controller.Reconcile.Restarts.{
  retry_restarts_create, running_interrupted,
}
use infrakube_multicluster.Controller.Reconcile.Panics.{check-marked}
use infrakube_multicluster.Scenarios.Resources.{resource_at, stage_at, no_pod, running_pod}

-- A plan of the present generation, one of the generation before, and one that is being deleted
-- under a label that asks for a retry.
abbrev planning : Terraform
planning = resource_at 3 phase_running (stage_at 3 run_plan state_initializing can_not_be_interrupt)

abbrev outdated : Terraform
outdated = resource_at 3 phase_running (stage_at 2 run_plan state_initializing can_be_interrupt)

abbrev deleting : Terraform
deleting =
    record (resource_at 3 phase_deleting
      (stage_at 3 run_setup_delete state_initializing can_not_be_interrupt)) {
        labels = ("kubernetes.io/change-cause", "again.setup") ∷ [];
        deletion_timestamp = some 30;
      }

abbrev moved : Terraform × Stage
moved = new_stage 40 outdated run_setup "GENERATION_CHANGE" can_be_interrupt state_initializing

outdated_moves : check_set_new_stage no_pod 40 outdated false ≡ returns (moved.0, some moved.1)
unfolding check_set_new_stage new_stage list_contains_str is_deleting
outdated_moves = refl

check-MayLeave_example : MayLeave outdated false
check-MayLeave_example =
    check-MayLeave no_pod 40 outdated moved.0 false moved.1
      (text_ne state_initializing state_complete refl)
      (text_ne state_initializing state_failed refl) outdated_moves

check-separated_example :
    WithinList (workflow_of (is_deleting outdated)) moved.1.task_type
    × (moved.1.generation ≡ outdated.generation)
check-separated_example =
    check-separated no_pod 40 outdated moved.0 false moved.1 (inl (λ e. ground (arith, e)))
      outdated_moves

stages_run-selected_example :
    stages_run no_pod 40 6 planning
    ≡ run_plan
      ∷ selected
          (configured_tasks planning)
          (run_post_plan ∷ run_pre_apply ∷ run_apply ∷ run_post_apply ∷ [])
stages_run-selected_example =
    stages_run-selected no_pod 40 tasks_in_order
      (run_setup ∷ run_pre_init ∷ run_init ∷ run_post_init ∷ run_pre_plan ∷ [])
      (run_post_plan ∷ run_pre_apply ∷ run_apply ∷ run_post_apply ∷ []) planning 6 (inl refl) refl
      refl (omega arith)

check-panics_example : (check_set_new_stage no_pod 40 planning true ≡ panics) ↔ (
    (true ≡ true)
    × (planning.status.stage.generation ≡ planning.generation)
    × (planning.status.retry_event_reason ≡ none))
check-panics_example = check-panics no_pod 40 planning true

check-marked_example :
    let marked = mark_retry 40 (mark_deletion deleting) in
    check_set_new_stage no_pod 40 marked.1 marked.0 ≢ panics
check-marked_example = check-marked no_pod 40 deleting

retry_restarts_create_example :
    (tf' : Terraform) × (stage : Stage) × (check_set_new_stage no_pod 40
        (mark_retry 40 (mark_deletion deleting)).1
        (mark_retry 40 (mark_deletion deleting)).0
      ≡ returns (tf', some stage))
    × (stage.task_type ≡ (if has_suffix "again.setup" ".setup" then run_setup else run_init))
unfolding lookup
retry_restarts_create_example =
    retry_restarts_create 40 deleting "again.setup" refl (λ e. ground (arith, e)) no_pod refl

running_interrupted_example :
    (tf' : Terraform) × (stage : Stage) × (check_set_new_stage no_pod 50
        (record (observed 40 planning running_pod) { generation = 4 })
        false
      ≡ returns (tf', some stage))
    × (stage.task_type ≡ run_setup)
    × (stage.generation ≡ 4)
unfolding is_deleting list_contains_str
running_interrupted_example =
    running_interrupted no_pod 40 50 4 planning running_pod refl refl (λ e. ground (arith, e))

is_equal-SameStage_example :
    (is_equal planning.status.stage outdated.status.stage ≡ "")
    ↔ SameStage planning.status.stage outdated.status.stage
is_equal-SameStage_example = is_equal-SameStage planning.status.stage outdated.status.stage
