-- ===== src/Workflow/Configured.antt =====
-- Which tasks `get_configured_tasks` yields: the default ones and those that an option names.
use infrakube_multicluster.Prelude.{
  ◌≡◌, refl, Bool, true, false, not, ◌&&◌, ◌||◌, some, List, [], ◌∷◌, ◌++◌, arith, ◌==◌, eq_iff,
  if◌then◌else◌,
}
use infrakube_multicluster.Utils.{list_contains_str, list_contains_str-snoc}
use infrakube_multicluster.Task.{TaskName, list_contains_task}
use infrakube_multicluster.Resource.{TaskOption}
use infrakube_multicluster.Workflow.{
  default_tasks, add_task, add_affected, add_options, get_configured_tasks,
}

-- No task stands twice.
abbrev pub distinct : List TaskName → Bool
distinct [] = true
distinct (task ∷ tasks) = if list_contains_task tasks task then false else distinct tasks

-- Whether some option names the task; the wildcard names none.
abbrev pub named_by : List TaskOption → TaskName → Bool
named_by [] task = false
named_by (option ∷ options) task =
    (list_contains_task option.for task && not (task == "*")) || named_by options task

contains-add_task :
    (tasks : List TaskName) (a t : TaskName)
    → list_contains_task (add_task tasks a) t
      ≡ (list_contains_task tasks t || (a == t && not (t == "*")))
unfolding add_task
contains-add_task tasks a t =
    ground (arith, list_contains_str-snoc tasks a t, eq_iff a t, eq_iff a "*", eq_iff t "*")

contains-add_affected :
    (affected tasks : List TaskName) (t : TaskName)
    → list_contains_task (add_affected tasks affected) t
      ≡ (list_contains_task tasks t || (list_contains_task affected t && not (t == "*")))
unfolding add_affected list_contains_str
contains-add_affected [] tasks t = ground arith
contains-add_affected (a ∷ affected) tasks t = ground (
  arith,
  contains-add_affected affected (add_task tasks a) t,
  contains-add_task tasks a t,
  eq_iff a t,
  eq_iff a "*",
  eq_iff t "*",
)

contains-add_options :
    (options : List TaskOption) (tasks : List TaskName) (t : TaskName)
    → list_contains_task (add_options tasks options) t
      ≡ (list_contains_task tasks t || named_by options t)
unfolding add_options
contains-add_options [] tasks t = ground arith
contains-add_options (option ∷ options) tasks t = ground (
  arith,
  contains-add_options options (add_affected tasks option.for) t,
  contains-add_affected option.for tasks t,
)

-- The configured tasks are the eight defaults and the tasks that some option names; `*` adds none.
pub contains-get_configured_tasks :
    (options : List TaskOption) (t : TaskName)
    → list_contains_task (get_configured_tasks (some options)) t
      ≡ (list_contains_task default_tasks t || named_by options t)
unfolding get_configured_tasks
contains-get_configured_tasks options t = contains-add_options options default_tasks t

distinct-snoc :
    (tasks : List TaskName) (a : TaskName)
    → distinct tasks ≡ true
    → list_contains_task tasks a ≡ false
    → distinct (tasks ++ a ∷ []) ≡ true
unfolding list_contains_str
distinct-snoc [] a d h = refl
distinct-snoc (x ∷ tasks) a d h =
    ground (arith, distinct-snoc tasks a, list_contains_str-snoc tasks a x, eq_iff x a, eq_iff a x)

distinct-add_affected :
    (affected tasks : List TaskName)
    → distinct tasks ≡ true
    → distinct (add_affected tasks affected) ≡ true
unfolding add_affected add_task
distinct-add_affected [] tasks d = d
distinct-add_affected (a ∷ affected) tasks d =
    distinct-add_affected affected _ (ground (arith, distinct-snoc tasks a))

distinct-add_options :
    (options : List TaskOption) (tasks : List TaskName)
    → distinct tasks ≡ true
    → distinct (add_options tasks options) ≡ true
unfolding add_options
distinct-add_options [] tasks d = d
distinct-add_options (option ∷ options) tasks d =
    distinct-add_options options _ (distinct-add_affected option.for tasks d)

-- No task is configured twice, whatever the options repeat.
pub distinct-get_configured_tasks :
    (options : List TaskOption) → distinct (get_configured_tasks (some options)) ≡ true
unfolding get_configured_tasks list_contains_str
distinct-get_configured_tasks options = distinct-add_options options default_tasks refl
