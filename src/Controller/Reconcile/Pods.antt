-- ===== src/Controller/Reconcile/Pods.antt =====
-- pkg/controllers/tf_controller.go, reconcile: the stage that stays, and its pod.
use infrakube_multicluster.Prelude.{
  String, Bool, true, false, not, ◌&&◌, none, some, List, [], ◌∷◌, ◌==◌, decimal, if◌then◌else◌,
}
use infrakube_multicluster.Exec.{Go, returns, panics, Exec, pure, lift, call, asks, ◌>>=◌}
use infrakube_multicluster.Task.{run_nil}
use infrakube_multicluster.Kube.{PodStatus, pod_succeeded, EnvFromSource}
use infrakube_multicluster.Options.{TaskOptions, Inherited, new_task_options}
use infrakube_multicluster.Resource.{Terraform, Plugin}
use infrakube_multicluster.Resource.Status.{state_initializing, state_in_progress}
use infrakube_multicluster.Controller.Api.{Api, Answer, found, failed}
use infrakube_multicluster.Controller.Settings.{
  Config, list_env_from_sources, node_selectors_from_cache,
}
use infrakube_multicluster.Controller.Plugins.{
  Runner, Collected, collect, add_approval, approval_plugin, plugin_run_opts, run_deferred,
}
use infrakube_multicluster.Controller.Reconcile.Replies.{Outcome, Reply, done, again, fails}
use infrakube_multicluster.Controller.Reconcile.Status.{
  with_state, pods_since, started, observed, generate_name,
}
use infrakube_multicluster.Controller.Reconcile.Parts.{save, finish_workflow}

module _ {W : Type 0} (a : Api W) (c : Config) (r : Runner W) where
  -- The pod of the stage is created, with the sidecars that were collected.
  unfoldable pub run_task : Terraform → TaskOptions → Bool × Collected → Exec W Outcome
  run_task tf run_opts (true, st) = pure (again, tf)
  run_task tf run_opts (false, st) =
      r.setup_and_run tf (record run_opts { sidecar_plugins = st.sidecars }) >>= λ refused.
      elim refused [ some e ↦ pure (fails e, tf) | none ↦ save a c r (started tf) (λ e. again) ]

  abbrev pub after_body :
      List EnvFromSource → Terraform → List (String × Plugin) → Go Outcome → W → Go Reply × W
  after_body global_env_from tf jobs (returns (reply, tf')) w =
      (run_deferred a c r global_env_from tf' jobs >>= λ _. pure reply) w
  after_body global_env_from tf jobs panics w =
      (panics, (run_deferred a c r global_env_from tf jobs w).1)

  -- The deferred jobs of plugins run after the rest, whether it returned or panicked.
  unfoldable pub with_deferred :
      List EnvFromSource → Terraform → List (String × Plugin) → Exec W Outcome → Exec W Reply
  with_deferred global_env_from tf jobs body w =
      after_body global_env_from tf jobs (body w).0 (body w).1

  -- "Trigger a new pod when no pods are found for current stage"
  unfoldable pub start_task : Inherited → Terraform → TaskOptions → Exec W Reply
  start_task inherited tf run_opts =
      let global_env_from = list_env_from_sources c tf in
      let make = λ (name : String) (plugin : Plugin).
        r.generate_sidecar (plugin_run_opts a c r inherited tf global_env_from name plugin) in
      let collected =
        add_approval run_opts.task run_opts.require_approval
          (make "require-approval" (approval_plugin run_opts.require_approval_image))
          (collect make tf.status.plugins_started run_opts.task tf.spec.plugins
            (record { sidecar_names = []; sidecars = []; deferred = [] })) in
      with_deferred global_env_from tf collected.1.deferred (run_task tf run_opts collected)

  -- A pod of the stage was found: its phase becomes the state of the stage, and the pod of a task
  -- that succeeded is deleted unless it is kept.
  unfoldable pub observe_pod : Terraform → PodStatus → Exec W Reply
  observe_pod tf pod = asks a.now >>= λ now. save a c r (observed now tf pod) fails >>= λ result.
      elim result.0.error [
        | some e ↦ pure result.0
        | none ↦
            if pod.phase == pod_succeeded
              && not tf.spec.keep_completed_pods
              && not tf.spec.keep_latest_pods_only
            then (call (a.delete_pod pod) >>= λ _. pure done)
            else pure done
      ]

  -- The pods of the stage decide.
  unfoldable pub follow_pods : Inherited → Terraform → TaskOptions → List PodStatus → Exec W Reply
  follow_pods inherited tf run_opts (pod ∷ pods) = observe_pod tf pod
  follow_pods inherited tf run_opts [] =
      if tf.status.stage.state == state_in_progress
      then (save a c r (with_state tf state_initializing) (λ e. again) >>= λ result. pure result.0)
      else start_task inherited tf run_opts

  -- What follows the lookup of the stage's pods. Its error is only logged.
  abbrev pub after_list :
      Inherited → Terraform → TaskOptions → Answer (List PodStatus) → Exec W Reply
  after_list inherited tf run_opts (failed e) = pure done
  after_list inherited tf run_opts (found pods) =
      follow_pods inherited tf run_opts (pods_since tf.status.retry_timestamp pods)

  -- The stage stays: its workflow has ended, or its pod is looked up.
  unfoldable pub run_stage : Terraform → Exec W Reply
  run_stage tf = asks (node_selectors_from_cache a c) >>= lift >>= λ inherited.
      let stage = tf.status.stage in
      let run_opts =
        new_task_options c.md5_hex c.settings inherited tf stage.task_type stage.generation
          (list_env_from_sources c tf) in
      if stage.task_type == run_nil
      then finish_workflow a c r tf run_opts
      else (call (a.list_pods tf.namespace (generate_name tf) (decimal stage.generation))
          >>= after_list inherited tf run_opts)
