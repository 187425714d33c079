-- ===== src/Controller/Reconcile.antt =====
-- pkg/controllers/tf_controller.go: `reconcile`, one round for one resource.
pub mod Replies
pub mod Status
pub mod Parts
pub mod Pods
pub mod Restarts
pub mod Panics
pub mod Keeping
pub mod Outputs
pub mod Round
pub mod Deletion
use infrakube_multicluster.Prelude.{
  ℕ, String, Bool, true, false, not, ◌&&◌, ◌||◌, Option, none, some, List, [], ◌∷◌, ◌++◌, ◌==◌, ◌⧺◌,
  Dict, eqb, decimal, if◌then◌else◌,
}
use infrakube_multicluster.Exec.{Go, returns, panics, Exec, pure, lift, call, asks, perform, ◌>>=◌}
use infrakube_multicluster.Utils.{truncate_resource_name, auto_hash_labeler}
use infrakube_multicluster.Task.{
  run_nil, run_setup, run_pre_init, run_init, run_post_init, run_setup_delete, run_pre_init_delete,
  run_init_delete, run_post_init_delete,
}
use infrakube_multicluster.Kube.{
  NamespacedName, ApiError, not_found, PodStatus, pod_succeeded, EnvFromSource, Secret,
}
use infrakube_multicluster.Options.{TaskOptions, Inherited, new_task_options}
use infrakube_multicluster.Resource.{Terraform, Plugin}
use infrakube_multicluster.Resource.Status.{
  Stage, phase_running, phase_completed, phase_deleting, phase_deleted, state_initializing,
  state_in_progress,
}
use infrakube_multicluster.Stages.{check_set_new_stage}
use infrakube_multicluster.Controller.Api.{
  Api, Answer, found, failed, Error, api, CacheValue, lock_owner,
}
use infrakube_multicluster.Controller.Settings.{
  Config, list_env_from_sources, cache_node_selectors, node_selectors_from_cache,
}
use infrakube_multicluster.Controller.Finalizers.{update_finalizer}
use infrakube_multicluster.Controller.Secrets.{load_secret, update_secret_finalizer}
use infrakube_multicluster.Controller.Updates.{get_tf_resource, update, update_status_with_retry}
use infrakube_multicluster.Controller.Plugins.{
  Runner, Collected, collect, add_approval, approval_plugin, plugin_run_opts, run_deferred,
}
use infrakube_multicluster.Controller.Reconcile.Replies.{
  Outcome, Reply, done, again, later, fails, reply_of,
}
use infrakube_multicluster.Controller.Reconcile.Status.{
  with_status, with_phase, with_stage, with_state, initialized, with_first_stage, mark_deletion,
  mark_retry, update_outputs, pods_since, started, observed, generate_name,
}
use infrakube_multicluster.Controller.Reconcile.Parts.{
  remove_finalizers, initialize, add_first_stage, enter_stage,
}
use infrakube_multicluster.Controller.Reconcile.Pods.{run_stage}

module _ {W : Type 0} (a : Api W) (c : Config) (r : Runner W) where
  -- What follows checkSetNewStage.
  abbrev pub after_check : Terraform × Option Stage → Exec W Reply
  after_check (tf, some stage) = enter_stage a c r tf stage
  after_check (tf, none) = run_stage a c r tf

  -- From the deletion mark on: a retry, a new stage, or the present one.
  unfoldable pub advance_stage : Terraform → Exec W Reply
  advance_stage tf = asks a.now >>= λ now.
      let (retry, tf') = mark_retry now (mark_deletion tf) in
      asks (λ w. check_set_new_stage (λ name. a.get_pod name w) now tf' retry)
      >>= lift
      >>= after_check

  -- reconcile, once the resource has been read.
  unfoldable pub reconcile_found : Terraform → Exec W Reply
  reconcile_found tf =
      if tf.status.phase == phase_deleted
      then remove_finalizers a c r tf
      else (lift (update_finalizer tf) >>= λ changed.
          if changed.1
          then (update a changed.0 >>= λ result. pure (reply_of result))
          else if tf.status.pod_name_prefix == ""
          then initialize a c r tf
          else if eqb tf.status.stage.generation 0
          then add_first_stage a c r tf
          else advance_stage tf)

  -- What reconcile does while it holds the lock.
  unfoldable pub reconcile_locked : NamespacedName → Exec W Reply
  reconcile_locked name = get_tf_resource a name 2 >>= λ answer. elim answer [
    | failed not_found ↦ pure done
    | failed e ↦ pure (fails (api e))
    | found tf ↦ reconcile_found tf
  ]

  -- The lock of the request, over what is done under it by the owner; the deferred release follows a
  -- panic too.
  unfoldable pub under_lock : String → String → Option CacheValue → Exec W Reply → Exec W Reply
  under_lock key id (some (lock_owner owner)) body w = (returns later, w)
  under_lock key id (some _) body w = (panics, w)
  under_lock key id none body w =
      let (reply, w') = body (a.cache_set key (lock_owner id) w) in (reply, a.cache_delete key w')

  -- reconcile, for the request whose text is the base of the lock's key.
  unfoldable pub reconcile : NamespacedName → String → Exec W Reply
  reconcile name lock_key_base w =
      let (id, w0) = a.new_uuid w in
      let w1 = cache_node_selectors a c w0 in
      let key = lock_key_base ⧺ "-reconcile-lock" in
      under_lock key id (a.cache_get key w1) (reconcile_locked name) w1
