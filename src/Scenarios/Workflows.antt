-- ===== src/Scenarios/Workflows.antt =====
-- Workflows of a resource with one more task.
use infrakube_multicluster.Prelude.{◌≡◌, refl, inl, List, [], ◌∷◌, ◌||◌, some, arith}
use infrakube_multicluster.Utils.{list_contains_str}
use infrakube_multicluster.Task.{
  TaskName, list_contains_task, run_setup, run_pre_init, run_init, run_post_init, run_pre_plan,
  run_plan, run_post_plan, run_pre_apply, run_apply, run_post_apply,
}
use infrakube_multicluster.Workflow.{tasks_in_order, default_tasks, next_task, get_configured_tasks}
use infrakube_multicluster.Workflow.Sequence.{
  first_configured, walk, selected, next_task-first_configured, walk-workflow,
}
use infrakube_multicluster.Workflow.Configured.{named_by, contains-get_configured_tasks}
use infrakube_multicluster.Scenarios.Resources.{approval}

abbrev configured : List TaskName
configured = get_configured_tasks (some (approval ∷ []))

abbrev before_plan : List TaskName
before_plan = run_setup ∷ run_pre_init ∷ run_init ∷ run_post_init ∷ run_pre_plan ∷ []

abbrev after_plan : List TaskName
after_plan = run_post_plan ∷ run_pre_apply ∷ run_apply ∷ run_post_apply ∷ []

walk_from_plan : walk 6 run_plan configured ≡ run_plan ∷ run_pre_apply ∷ run_apply ∷ []
unfolding walk next_task get_configured_tasks list_contains_str
walk_from_plan = refl

next_task-first_configured_example :
    next_task run_plan configured ≡ first_configured configured after_plan
next_task-first_configured_example =
    next_task-first_configured tasks_in_order before_plan after_plan run_plan configured (inl refl)
      refl

walk-workflow_example : walk 6 run_plan configured ≡ run_plan ∷ selected configured after_plan
walk-workflow_example =
    walk-workflow tasks_in_order before_plan after_plan run_plan configured 6 (inl refl) refl
      (omega arith)

contains-get_configured_tasks_example :
    list_contains_task configured run_pre_apply
    ≡ (list_contains_task default_tasks run_pre_apply || named_by (approval ∷ []) run_pre_apply)
contains-get_configured_tasks_example = contains-get_configured_tasks (approval ∷ []) run_pre_apply
