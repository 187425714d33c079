-- ===== src/Workflow/Closed.antt =====
-- `next_task` stays in the workflow of its task.
use infrakube_multicluster.Prelude.{
  ◌≡◌, refl, sym, ◌⊎◌, inl, inr, subst, Bool, true, false, List, [], ◌∷◌, arith, eq_refl,
}
use infrakube_multicluster.Utils.{list_contains_str}
use infrakube_multicluster.Task.{TaskName, list_contains_task, run_nil}
use infrakube_multicluster.Workflow.{tasks_in_order, delete_tasks_in_order, next_in, next_task}
use infrakube_multicluster.Workflow.Sequence.{IsWorkflow, next_task-create, next_task-destroy}

-- A task of the list, or none.
abbrev pub WithinList : List TaskName → TaskName → Type 0
WithinList w t = (list_contains_task w t ≡ true) ⊎ (t ≡ run_nil)

next_in-within :
    (up : Bool) (current : TaskName) (configured w : List TaskName)
    → WithinList w (next_in up current configured w)
unfolding next_in list_contains_str
next_in-within up current configured [] = inr refl
next_in-within up current configured (task ∷ w) = ground (
  arith,
  next_in-within true current configured w,
  next_in-within up current configured w,
  eq_refl task,
)

-- A task of a workflow is followed by one of that workflow, or by none, whatever is configured.
pub next_task-within :
    (w : List TaskName) (current : TaskName) (configured : List TaskName)
    → IsWorkflow w
    → list_contains_task w current ≡ true
    → WithinList w (next_task current configured)
next_task-within w current configured (inl create) h =
    subst (λ l. WithinList l (next_task current configured)) (sym create)
      (rw
        (next_task-create current configured
          (subst (λ l. list_contains_task l current ≡ true) create h))
        (next_in-within false current configured tasks_in_order))
next_task-within w current configured (inr destroy) h =
    subst (λ l. WithinList l (next_task current configured)) (sym destroy)
      (rw
        (next_task-destroy current configured
          (subst (λ l. list_contains_task l current ≡ true) destroy h))
        (next_in-within false current configured delete_tasks_in_order))
