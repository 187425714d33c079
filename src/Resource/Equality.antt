-- ===== src/Resource/Equality.antt =====
-- pkg/apis/infrakube/v1/tf_types.go: what Stage.IsEqual compares.
use infrakube_multicluster.Prelude.{
  ◌≡◌, refl, ◌↔◌, String, Bool, true, false, not, ◌==◌, eqb, arith, eq_iff, if◌then◌else◌,
}
use infrakube_multicluster.Resource.Status.{Stage, is_equal, bool_eq}

-- The fields that IsEqual names.
abbrev pub SameStage : Stage → Stage → Type 0
SameStage s t =
    (s.generation ≡ t.generation)
    × (s.task_type ≡ t.task_type)
    × (s.interruptible ≡ t.interruptible)
    × (s.reason ≡ t.reason)
    × (s.message ≡ t.message)
    × (s.pod_name ≡ t.pod_name)

pick :
    (same : Bool) (field rest : String)
    → (field == "") ≡ false
    → ((if not same then field else rest) ≡ "") ↔ ((same ≡ true) × (rest ≡ ""))
pick true field rest h = (λ k. (refl, k), λ k. k.1)
pick false field rest h = (λ k. ground (arith, eq_iff field ""), λ k. ground arith)

-- IsEqual finds no difference exactly where six fields are the same. The state, the times and the
-- pod's uid may differ.
pub is_equal-SameStage : (s t : Stage) → (is_equal s t ≡ "") ↔ SameStage s t
unfolding is_equal
is_equal-SameStage s t =
    let pod : String = if not (s.pod_name == t.pod_name) then "podName" else "" in
    let text : String = if not (s.message == t.message) then "message" else pod in
    let why : String = if not (s.reason == t.reason) then "reason" else text in
    let may : String =
      if not (bool_eq s.interruptible t.interruptible) then "interruptible" else why in
    let task : String = if not (s.task_type == t.task_type) then "taskType" else may in
    ground (
      arith,
      pick (eqb s.generation t.generation) "generation" task refl,
      pick (s.task_type == t.task_type) "taskType" may refl,
      pick (bool_eq s.interruptible t.interruptible) "interruptible" why refl,
      pick (s.reason == t.reason) "reason" text refl,
      pick (s.message == t.message) "message" pod refl,
      pick (s.pod_name == t.pod_name) "podName" "" refl,
      eq_iff s.task_type t.task_type,
      eq_iff s.reason t.reason,
      eq_iff s.message t.message,
      eq_iff s.pod_name t.pod_name,
    )
