-- ===== src/Task.antt =====
-- pkg/apis/infrakube/v1/tf_types.go and helpers.go: the names of tasks. `TaskName` is a text, and a
-- resource may hold any: what is none of the constants is the name of a plugin.
pub mod Ids
use infrakube_multicluster.Prelude.{
  ℕ, String, Bool, true, false, not, List, [], ◌∷◌, ◌==◌, eqb, length, if◌then◌else◌,
}
use infrakube_multicluster.Utils.{list_contains_str}

abbrev pub TaskName : Type 0
TaskName = String

abbrev pub run_setup : TaskName
run_setup = "setup"

abbrev pub run_pre_init : TaskName
run_pre_init = "preinit"

abbrev pub run_init : TaskName
run_init = "init"

abbrev pub run_post_init : TaskName
run_post_init = "postinit"

abbrev pub run_pre_plan : TaskName
run_pre_plan = "preplan"

abbrev pub run_plan : TaskName
run_plan = "plan"

abbrev pub run_post_plan : TaskName
run_post_plan = "postplan"

abbrev pub run_pre_apply : TaskName
run_pre_apply = "preapply"

abbrev pub run_apply : TaskName
run_apply = "apply"

abbrev pub run_post_apply : TaskName
run_post_apply = "postapply"

abbrev pub run_setup_delete : TaskName
run_setup_delete = "setup-delete"

abbrev pub run_pre_init_delete : TaskName
run_pre_init_delete = "preinit-delete"

abbrev pub run_init_delete : TaskName
run_init_delete = "init-delete"

abbrev pub run_post_init_delete : TaskName
run_post_init_delete = "postinit-delete"

abbrev pub run_pre_plan_delete : TaskName
run_pre_plan_delete = "preplan-delete"

abbrev pub run_plan_delete : TaskName
run_plan_delete = "plan-delete"

abbrev pub run_post_plan_delete : TaskName
run_post_plan_delete = "postplan-delete"

abbrev pub run_pre_apply_delete : TaskName
run_pre_apply_delete = "preapply-delete"

abbrev pub run_apply_delete : TaskName
run_apply_delete = "apply-delete"

abbrev pub run_post_apply_delete : TaskName
run_post_apply_delete = "postapply-delete"

abbrev pub run_nil : TaskName
run_nil = ""

-- ListContainsTask is the loop of ListContainsStr on task names.
abbrev pub list_contains_task : List TaskName → TaskName → Bool
list_contains_task = list_contains_str

-- The loop of TaskListsAreEqual, behind its test of the lengths.
all_equal : List TaskName → List TaskName → Bool
all_equal [] l2 = true
all_equal (a ∷ l1) [] = true
all_equal (a ∷ l1) (b ∷ l2) = if not (a == b) then false else all_equal l1 l2

unfoldable pub task_lists_are_equal : List TaskName → List TaskName → Bool
unfolding all_equal
task_lists_are_equal l1 l2 = if not (eqb (length l1) (length l2)) then false else all_equal l1 l2
