-- ===== src/Task/Ids.antt =====
-- pkg/apis/infrakube/v1/tf_types.go: `TaskName.ID`, the place of a task in its workflow.
use infrakube_multicluster.Prelude.{ℕ, Bool, ◌+◌, ◌==◌, ltb, eqb, suc, if◌then◌else◌}
use infrakube_multicluster.Task.{
  TaskName, run_nil, run_setup, run_pre_init, run_init, run_post_init, run_pre_plan, run_plan,
  run_post_plan, run_pre_apply, run_apply, run_post_apply, run_setup_delete, run_pre_init_delete,
  run_init_delete, run_post_init_delete, run_pre_plan_delete, run_plan_delete, run_post_plan_delete,
  run_pre_apply_delete, run_apply_delete, run_post_apply_delete,
}

-- `negsuc n` is -(n + 1).
pub data ℤ : Type 0 where
  pos : ℕ → ℤ
  negsuc : ℕ → ℤ

abbrev pub pos_part : ℤ → ℕ
pos_part (pos n) = n
pos_part (negsuc n) = 0

abbrev pub neg_part : ℤ → ℕ
neg_part (pos n) = 0
neg_part (negsuc n) = suc n

abbrev pub ltb_ℤ : ℤ → ℤ → Bool
ltb_ℤ a b = ltb (pos_part a + neg_part b) (pos_part b + neg_part a)

unfoldable pub id : TaskName → ℤ
id t =
    if t == run_nil
    then negsuc 0
    else if t == run_setup
    then pos 1
    else if t == run_pre_init
    then pos 2
    else if t == run_init
    then pos 3
    else if t == run_post_init
    then pos 4
    else if t == run_pre_plan
    then pos 5
    else if t == run_plan
    then pos 6
    else if t == run_post_plan
    then pos 7
    else if t == run_pre_apply
    then pos 8
    else if t == run_apply
    then pos 9
    else if t == run_post_apply
    then pos 10
    else if t == run_setup_delete
    then pos 101
    else if t == run_pre_init_delete
    then pos 102
    else if t == run_init_delete
    then pos 103
    else if t == run_post_init_delete
    then pos 104
    else if t == run_pre_plan_delete
    then pos 105
    else if t == run_plan_delete
    then pos 106
    else if t == run_post_plan_delete
    then pos 107
    else if t == run_pre_apply_delete
    then pos 108
    else if t == run_apply_delete
    then pos 109
    else if t == run_post_apply_delete
    then pos 110
    else negsuc 1

abbrev pub eqb_ℤ : ℤ → ℤ → Bool
eqb_ℤ a b = eqb (pos_part a + neg_part b) (pos_part b + neg_part a)
