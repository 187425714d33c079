-- ===== src/Workflow.antt =====
-- pkg/controllers/tf_controller.go: `getConfiguredTasks` and `nextTask`, the order of the tasks.
pub mod Closed
pub mod Sequence
pub mod Configured
use infrakube_multicluster.Prelude.{
  Bool, true, false, not, ◌&&◌, Option, none, some, List, [], ◌∷◌, ◌++◌, ◌==◌, if◌then◌else◌,
}
use infrakube_multicluster.Resource.{TaskOption}
use infrakube_multicluster.Task.{
  TaskName, list_contains_task, run_nil, run_setup, run_pre_init, run_init, run_post_init,
  run_pre_plan, run_plan, run_post_plan, run_pre_apply, run_apply, run_post_apply, run_setup_delete,
  run_pre_init_delete, run_init_delete, run_post_init_delete, run_pre_plan_delete, run_plan_delete,
  run_post_plan_delete, run_pre_apply_delete, run_apply_delete, run_post_apply_delete,
}

abbrev pub tasks_in_order : List TaskName
tasks_in_order =
    run_setup ∷ run_pre_init ∷ run_init ∷ run_post_init ∷ run_pre_plan ∷ run_plan ∷ run_post_plan
    ∷ run_pre_apply ∷ run_apply ∷ run_post_apply ∷ []

abbrev pub delete_tasks_in_order : List TaskName
delete_tasks_in_order =
    run_setup_delete ∷ run_pre_init_delete ∷ run_init_delete ∷ run_post_init_delete
    ∷ run_pre_plan_delete ∷ run_plan_delete ∷ run_post_plan_delete ∷ run_pre_apply_delete
    ∷ run_apply_delete ∷ run_post_apply_delete ∷ []

-- One of the two loops of nextTask over an ordered list: `is_up_next` is set at the current task,
-- whose round ends with `continue`, and the loop breaks at the first configured task after it.
pub next_in : Bool → TaskName → List TaskName → List TaskName → TaskName
next_in is_up_next current configured [] = run_nil
next_in is_up_next current configured (task ∷ tasks) =
    let marked = next_in true current configured tasks in
    let rest = next_in is_up_next current configured tasks in
    if task == current
    then marked
    else if is_up_next && list_contains_task configured task
    then task
    else rest

unfoldable pub next_task : TaskName → List TaskName → TaskName
unfolding next_in
next_task current configured =
    if list_contains_task tasks_in_order current
    then next_in false current configured tasks_in_order
    else if list_contains_task delete_tasks_in_order current
    then next_in false current configured delete_tasks_in_order
    else run_nil

abbrev pub default_tasks : List TaskName
default_tasks =
    run_setup ∷ run_init ∷ run_plan ∷ run_apply ∷ run_setup_delete ∷ run_init_delete
    ∷ run_plan_delete ∷ run_apply_delete ∷ []

-- The body of the inner loop of getConfiguredTasks.
add_task : List TaskName → TaskName → List TaskName
add_task tasks affected =
    if affected == "*"
    then tasks
    else if not (list_contains_task tasks affected)
    then tasks ++ affected ∷ []
    else tasks

-- The inner loop, over the tasks that one option affects.
add_affected : List TaskName → List TaskName → List TaskName
add_affected tasks [] = tasks
add_affected tasks (affected ∷ rest) = add_affected (add_task tasks affected) rest

-- The outer loop, over the options.
add_options : List TaskName → List TaskOption → List TaskName
add_options tasks [] = tasks
add_options tasks (task_option ∷ rest) = add_options (add_affected tasks task_option.for) rest

unfoldable pub get_configured_tasks : Option (List TaskOption) → List TaskName
unfolding add_options add_affected add_task
get_configured_tasks none = default_tasks
get_configured_tasks (some task_options) = add_options default_tasks task_options
