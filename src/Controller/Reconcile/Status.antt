-- ===== src/Controller/Reconcile/Status.antt =====
-- pkg/controllers/tf_controller.go, reconcile: the parts that only compute the next status.
use infrakube_multicluster.Prelude.{
  ℕ, String, Bool, true, false, not, ◌&&◌, Option, none, some, List, [], ◌∷◌, ◌==◌, ◌⧺◌, Dict, keys,
  insert_all, lookup, ltb, decimal, if◌then◌else◌,
}
use infrakube_multicluster.Utils.{list_contains_str}
use infrakube_multicluster.Task.{run_setup}
use infrakube_multicluster.Kube.{PodStatus, pod_failed, pod_succeeded}
use infrakube_multicluster.Resource.{Terraform}
use infrakube_multicluster.Resource.Status.{
  Stage, StageState, StatusPhase, TerraformStatus, phase_initializing, phase_running,
  phase_init_delete, phase_deleting, phase_deleted, state_initializing, state_in_progress,
  state_complete, state_failed, can_not_be_interrupt,
}
use infrakube_multicluster.Stages.{new_stage}

abbrev pub with_status : Terraform → TerraformStatus → Terraform
with_status tf status = record tf { status = status }

abbrev pub with_phase : Terraform → StatusPhase → Terraform
with_phase tf phase = with_status tf (record tf.status { phase = phase })

abbrev pub with_stage : Terraform → Stage → Terraform
with_stage tf stage = with_status tf (record tf.status { stage = stage })

abbrev pub with_state : Terraform → StageState → Terraform
with_state tf state = with_stage tf (record tf.status.stage { state = state })

-- "Initialize resource"
unfoldable pub initialized : Terraform → String → Terraform
initialized tf prefix = with_status tf (record tf.status {
  pod_name_prefix = prefix;
  phase = phase_initializing;
  last_completed_generation = 0;
})

-- "Add the first stage"
unfoldable pub with_first_stage : (now : ℕ) → Terraform → Terraform
with_first_stage now tf =
    let (tf', stage) =
      new_stage now tf run_setup "TF_RESOURCE_CREATED" can_not_be_interrupt state_initializing in
    with_status tf' (record tf'.status { stage = stage; plugins_started = [] })

is_some : Option ℕ → Bool
is_some none = false
is_some (some t) = true

-- "Check if the resource is marked to be deleted"
unfoldable pub mark_deletion : Terraform → Terraform
unfolding is_some
mark_deletion tf =
    if is_some tf.deletion_timestamp
      && not (
          list_contains_str (phase_deleting ∷ phase_init_delete ∷ phase_deleted ∷ [])
            tf.status.phase)
    then with_phase tf phase_init_delete
    else tf

unfoldable pub differs : Option String → String → Bool
differs none label = true
differs (some reason) label = not (reason == label)

-- The retry that the change-cause label asks for: whether there is one, and the resource with the
-- label as its reason, the time, and the phase of a start.
unfoldable pub mark_retry : (now : ℕ) → Terraform → Bool × Terraform
unfolding differs
mark_retry now tf = elim (lookup "kubernetes.io/change-cause" tf.labels) [
  | none ↦ (false, tf)
  | some label ↦
      if differs tf.status.retry_event_reason label
      then (
        true,
        with_status tf (record tf.status {
          retry_event_reason = some label;
          retry_timestamp = some now;
          phase = phase_initializing;
        }),
      )
      else (false, tf)
]

-- The outputs that are no longer in the secret go, and those that are take its values.
unfoldable pub prune_outputs : List String → Dict String → Dict String
prune_outputs names [] = []
prune_outputs names ((key, value) ∷ outputs) =
    let rest = prune_outputs names outputs in
    if list_contains_str names key then (key, value) ∷ rest else rest

unfoldable pub update_outputs : Dict String → Dict String → Dict String
unfolding prune_outputs
update_outputs outputs contents = insert_all (prune_outputs (keys contents) outputs) contents

-- The pods that count after a retry: those that are not older than it.
unfoldable pub pods_since : Option ℕ → List PodStatus → List PodStatus
pods_since none pods = pods
pods_since (some t) [] = []
pods_since (some t) (pod ∷ pods) =
    let rest = pods_since (some t) pods in
    elim pod.creation_timestamp [
      | none ↦ pod ∷ rest
      | some created ↦ if ltb created t then rest else pod ∷ rest
    ]

-- The status once the pod of the stage has been created.
unfoldable pub started : Terraform → Terraform
started tf =
    let phase =
      if tf.status.phase == phase_initializing
      then phase_running
      else if tf.status.phase == phase_init_delete
      then phase_deleting
      else tf.status.phase in
    with_state (with_phase tf phase) state_in_progress

-- The status that the pod of the stage gives.
unfoldable pub observed : (now : ℕ) → Terraform → PodStatus → Terraform
observed now tf pod =
    let stage = record tf.status.stage {
      pod_uid = pod.uid;
      pod_name = pod.name;
      message = "Pod '" ⧺ pod.name ⧺ "' " ⧺ pod.phase;
    } in
    if pod.phase == pod_failed
    then with_stage tf (record stage { state = state_failed; stop_time = now })
    else if pod.phase == pod_succeeded
    then with_stage tf (record stage { state = state_complete; stop_time = now })
    else with_stage tf (record stage { state = pod.phase })

-- metadata.generateName of the pods of a stage.
unfoldable pub generate_name : Terraform → String
generate_name tf =
    tf.status.pod_name_prefix
    ⧺ "-v"
    ⧺ decimal tf.status.stage.generation
    ⧺ "-"
    ⧺ tf.status.stage.task_type
    ⧺ "-"
