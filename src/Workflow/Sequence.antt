-- ===== src/Workflow/Sequence.antt =====
-- The order that `next_task` walks: the configured tasks after the current one, and no others.
use infrakube_multicluster.Prelude.{
  append_assoc, ◌+◌, ℕ, zero, suc, ◌≡◌, refl, ◌⊎◌, ap, ◌∙◌, sym, subst, length, ◌<◌, Bool, true,
  false, List, [], ◌∷◌, ◌++◌, arith, ◌==◌, eq_refl, eq_iff, inl, inr, if◌then◌else◌,
}
use infrakube_multicluster.Utils.{list_contains_str, list_contains_str-middle}
use infrakube_multicluster.Task.{TaskName, list_contains_task, run_nil}
use infrakube_multicluster.Workflow.Configured.{distinct}
use infrakube_multicluster.Workflow.{tasks_in_order, delete_tasks_in_order, next_in, next_task}

-- The first task of a list that is configured, or none.
abbrev pub first_configured : List TaskName → List TaskName → TaskName
first_configured configured [] = run_nil
first_configured configured (task ∷ tasks) =
    if list_contains_task configured task then task else first_configured configured tasks

-- Once the current task is behind, the loop stops at the first configured task.
next_in-after :
    (current : TaskName) (configured post : List TaskName)
    → list_contains_task post current ≡ false
    → next_in true current configured post ≡ first_configured configured post
unfolding next_in list_contains_str
next_in-after current configured [] h = refl
next_in-after current configured (task ∷ post) h =
    ground (arith, next_in-after current configured post)

-- Before the current task nothing is chosen.
next_in-split :
    (current : TaskName) (configured pre post : List TaskName)
    → list_contains_task pre current ≡ false
    → list_contains_task post current ≡ false
    → next_in false current configured (pre ++ current ∷ post) ≡ first_configured configured post
unfolding next_in list_contains_str
next_in-split current configured [] post h k =
    ground (arith, eq_refl current, next_in-after current configured post)
next_in-split current configured (task ∷ pre) post h k =
    ground (arith, next_in-split current configured pre post)

abbrev apart : List TaskName → List TaskName → Bool
apart [] others = true
apart (task ∷ tasks) others = if list_contains_task others task then false else apart tasks others

-- In a list without repetitions a task stands neither before nor after its place.
distinct-split :
    (pre post : List TaskName) (c : TaskName)
    → distinct (pre ++ c ∷ post) ≡ true
    → (list_contains_task pre c ≡ false) × (list_contains_task post c ≡ false)
unfolding list_contains_str
distinct-split [] post c h = ground arith
distinct-split (x ∷ pre) post c h =
    ground (arith, distinct-split pre post c, list_contains_str-middle pre post c, eq_iff x c)

apart-contains :
    (xs ys : List TaskName) (c : TaskName)
    → apart xs ys ≡ true
    → list_contains_task xs c ≡ true
    → list_contains_task ys c ≡ false
unfolding list_contains_str
apart-contains [] ys c h k = cc
apart-contains (x ∷ xs) ys c h k = ground (arith, apart-contains xs ys c, eq_iff x c)

-- The two workflows.
abbrev pub IsWorkflow : List TaskName → Type 0
IsWorkflow w = (w ≡ tasks_in_order) ⊎ (w ≡ delete_tasks_in_order)

contains-create :
    (pre post : List TaskName) (c : TaskName)
    → tasks_in_order ≡ pre ++ c ∷ post
    → list_contains_task tasks_in_order c ≡ true
contains-create pre post c split =
    subst (λ l. list_contains_task l c ≡ true) (sym split) (list_contains_str-middle pre post c)

contains-destroy :
    (pre post : List TaskName) (c : TaskName)
    → delete_tasks_in_order ≡ pre ++ c ∷ post
    → list_contains_task delete_tasks_in_order c ≡ true
contains-destroy pre post c split =
    subst (λ l. list_contains_task l c ≡ true) (sym split) (list_contains_str-middle pre post c)

destroy_not_create :
    (c : TaskName)
    → list_contains_task delete_tasks_in_order c ≡ true
    → list_contains_task tasks_in_order c ≡ false
destroy_not_create c =
    apart-contains delete_tasks_in_order tasks_in_order c (unfold list_contains_str in refl)

-- `next_task` walks the list in which the current task stands.
pub next_task-create :
    (c : TaskName) (configured : List TaskName)
    → list_contains_task tasks_in_order c ≡ true
    → next_task c configured ≡ next_in false c configured tasks_in_order
unfolding next_task
next_task-create c configured h = rw h

pub next_task-destroy :
    (c : TaskName) (configured : List TaskName)
    → list_contains_task delete_tasks_in_order c ≡ true
    → next_task c configured ≡ next_in false c configured delete_tasks_in_order
unfolding next_task
next_task-destroy c configured h = rw (destroy_not_create c h, h)

next_in-workflow :
    (w pre post : List TaskName) (c : TaskName) (configured : List TaskName)
    → distinct w ≡ true
    → w ≡ pre ++ c ∷ post
    → next_in false c configured w ≡ first_configured configured post
next_in-workflow w pre post c configured d split =
    let (before, after) = distinct-split pre post c (subst (λ l. distinct l ≡ true) split d) in
    ap (next_in false c configured) split ∙ next_in-split c configured pre post before after

-- After a task of either workflow comes the first configured task that stands behind it in the same
-- workflow, and none where there is no such task.
pub next_task-first_configured :
    (w pre post : List TaskName) (current : TaskName) (configured : List TaskName)
    → IsWorkflow w
    → w ≡ pre ++ current ∷ post
    → next_task current configured ≡ first_configured configured post
next_task-first_configured w pre post current configured (inl create) split =
    let split' = sym create ∙ split in
    next_task-create current configured (contains-create pre post current split')
    ∙ next_in-workflow tasks_in_order pre post current configured (unfold list_contains_str in refl)
        split'
next_task-first_configured w pre post current configured (inr destroy) split =
    let split' = sym destroy ∙ split in
    next_task-destroy current configured (contains-destroy pre post current split')
    ∙ next_in-workflow delete_tasks_in_order pre post current configured
        (unfold list_contains_str in refl) split'

-- The tasks that a workflow runs from a task on, as each of them completes: at most `n` of them.
unfoldable pub walk : ℕ → TaskName → List TaskName → List TaskName
walk zero task configured = []
walk (suc n) task configured =
    let rest = walk n (next_task task configured) configured in
    if task == run_nil then [] else task ∷ rest

-- The configured tasks of a list, in its order.
abbrev pub selected : List TaskName → List TaskName → List TaskName
selected configured [] = []
selected configured (task ∷ tasks) =
    if list_contains_task configured task
    then task ∷ selected configured tasks
    else selected configured tasks

module _ (w : List TaskName) (is_workflow : IsWorkflow w) (configured : List TaskName) where
  walk-selected :
      (n : ℕ) (pre post : List TaskName)
      → length post < n
      → list_contains_task post run_nil ≡ false
      → w ≡ pre ++ post
      → walk n (first_configured configured post) configured ≡ selected configured post
  unfolding walk list_contains_str
  walk-selected zero pre post h k split = absurd (omega arith)
  walk-selected (suc n) pre [] h k split = refl
  walk-selected (suc n) pre (task ∷ post) h k split =
      let further : w ≡ (pre ++ task ∷ []) ++ post =
        split ∙ sym (append_assoc pre (task ∷ []) post) in
      ground (
        arith,
        next_task-first_configured w pre post task configured is_workflow split,
        walk-selected n (pre ++ task ∷ []) post (omega arith) (ground arith) further,
        walk-selected (suc n) (pre ++ task ∷ []) post (omega arith) (ground arith) further,
      )

contains-run_nil : (w : List TaskName) → IsWorkflow w → list_contains_task w run_nil ≡ false
unfolding list_contains_str
contains-run_nil w (inl create) = rw create refl
contains-run_nil w (inr destroy) = rw destroy refl

contains-part :
    (pre post : List TaskName) (c x : TaskName)
    → list_contains_task (pre ++ c ∷ post) x ≡ false
    → (list_contains_task post x ≡ false) × ((c == x) ≡ false)
unfolding list_contains_str
contains-part [] post c x h = ground arith
contains-part (y ∷ pre) post c x h = ground (arith, contains-part pre post c x)

-- From any task of a workflow on, exactly that task and the configured tasks behind it run, each
-- once and in the order of the workflow, and then no task is left, whatever else is configured:
-- `n` need only exceed the number of those places.
pub walk-workflow :
    (w pre post : List TaskName) (current : TaskName) (configured : List TaskName) (n : ℕ)
    → IsWorkflow w
    → w ≡ pre ++ current ∷ post
    → length post + 1 < n
    → walk n current configured ≡ current ∷ selected configured post
unfolding walk
walk-workflow w pre post current configured zero is_workflow split h = absurd (omega arith)
walk-workflow w pre post current configured (suc n) is_workflow split h =
    let absent =
      subst (λ l. list_contains_task l run_nil ≡ false) split (contains-run_nil w is_workflow) in
    let (later, here) = contains-part pre post current run_nil absent in
    let further : w ≡ (pre ++ current ∷ []) ++ post =
      split ∙ sym (append_assoc pre (current ∷ []) post) in
    ground (
      arith,
      next_task-first_configured w pre post current configured is_workflow split,
      walk-selected w is_workflow configured n (pre ++ current ∷ []) post (omega arith) later
          further,
    )
