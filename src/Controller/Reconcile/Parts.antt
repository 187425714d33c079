-- ===== src/Controller/Reconcile/Parts.antt =====
-- pkg/controllers/tf_controller.go, reconcile: the parts that end a round with one update of the
-- resource or of its status.
use infrakube_multicluster.Prelude.{
  ℕ, String, ◌||◌, none, some, List, [], ◌∷◌, ◌++◌, ◌==◌, ◌⧺◌, Dict, decimal, if◌then◌else◌,
}
use infrakube_multicluster.Exec.{Exec, pure, lift, call, asks, perform, ◌>>=◌}
use infrakube_multicluster.Utils.{truncate_resource_name, auto_hash_labeler}
use infrakube_multicluster.Task.{
  run_setup, run_pre_init, run_init, run_post_init, run_setup_delete, run_pre_init_delete,
  run_init_delete, run_post_init_delete,
}
use infrakube_multicluster.Kube.{Secret}
use infrakube_multicluster.Options.{TaskOptions}
use infrakube_multicluster.Resource.{Terraform}
use infrakube_multicluster.Resource.Status.{
  Stage, phase_running, phase_completed, phase_deleting, phase_deleted,
}
use infrakube_multicluster.Controller.Api.{Api, Answer, found, failed, Error}
use infrakube_multicluster.Controller.Settings.{Config}
use infrakube_multicluster.Controller.Finalizers.{update_finalizer}
use infrakube_multicluster.Controller.Secrets.{load_secret, update_secret_finalizer}
use infrakube_multicluster.Controller.Updates.{update, update_status_with_retry}
use infrakube_multicluster.Controller.Plugins.{Runner}
use infrakube_multicluster.Controller.Reconcile.Replies.{Outcome, Reply, done, fails}
use infrakube_multicluster.Controller.Reconcile.Status.{
  with_status, with_phase, with_stage, initialized, with_first_stage, update_outputs,
}

-- The selectors of removeOldPlan, by the reason of a stage.
unfoldable pub old_plan_selectors : Config → (name reason : String) → ℕ → List String
old_plan_selectors c name reason generation =
    let common =
      (c.settings.names.label_prefix ⧺ "generation==" ⧺ decimal generation)
      ∷ (c.settings.names.label_prefix ⧺ "resourceName=" ⧺ auto_hash_labeler c.md5_hex name)
      ∷ "app.kubernetes.io/instance"
      ∷ [] in
    let other = λ (task : String). "app.kubernetes.io/instance!=" ⧺ task in
    if reason == "RESTARTED_WORKFLOW"
    then common
      ++ (other run_setup ∷ other run_pre_init ∷ other run_init ∷ other run_post_init ∷ [])
    else if reason == "RESTARTED_DELETE_WORKFLOW"
    then common
      ++ (other run_setup_delete
          ∷ other run_pre_init_delete
          ∷ other run_init_delete
          ∷ other run_post_init_delete
          ∷ [])
    else common

contents_of : Answer Secret → Dict String
contents_of (found secret) = secret.contents
contents_of (failed e) = []

module _ {W : Type 0} (a : Api W) (c : Config) (r : Runner W) where
  -- An update of the status from the caller's own resource, and the reply where it fails.
  unfoldable pub save : Terraform → (Error → Reply) → Exec W Outcome
  save tf refused = update_status_with_retry a tf none >>= λ result. elim result.0 [
    | none ↦ pure (done, result.1)
    | some e ↦ pure (refused e, result.1)
  ]

  -- "Final delete by removing finalizers"
  unfoldable pub remove_finalizers : Terraform → Exec W Reply
  remove_finalizers tf = update_secret_finalizer a tf >>= λ refused. elim refused [
    | some e ↦ perform (a.event "Warning" "ProcessingError") >>= λ _. pure (fails e)
    | none ↦ lift (update_finalizer tf) >>= λ changed. update a changed.0 >>= λ result.
        elim result [
          | some e ↦ perform (a.event "Warning" "ProcessingError") >>= λ _. pure (fails e)
          | none ↦ pure done
        ]
  ]

  -- "Initialize resource": the error of the update is only logged.
  unfoldable pub initialize : Terraform → Exec W Reply
  initialize tf = call (a.random_text 8 "abcdefghijklmnopqrstuvwxyz0123456789") >>= λ text.
      save (initialized tf (truncate_resource_name tf.name 54 ⧺ "-" ⧺ text)) (λ e. done)
      >>= λ result. pure result.0

  -- "Add the first stage"
  unfoldable pub add_first_stage : Terraform → Exec W Reply
  add_first_stage tf =
      asks a.now >>= λ now. save (with_first_stage now tf) fails >>= λ result. pure result.0

  -- removeOldPlan; what it returns is dropped.
  unfoldable pub remove_old_plan : Terraform → (reason : String) → Exec W (Unit {0})
  remove_old_plan tf reason =
      call (
        a.delete_pods_of tf.namespace (old_plan_selectors c tf.name reason tf.generation)
          "status.phase!=Running")
      >>= λ _. pure tt

  -- A new stage is stored, and the pods of older generations are reaped. The old plan is removed by
  -- the reason of the stage that ends.
  unfoldable pub enter_stage : Terraform → Stage → Exec W Reply
  enter_stage tf stage =
      (if stage.reason == "RESTARTED_WORKFLOW" || stage.reason == "RESTARTED_DELETE_WORKFLOW"
        then remove_old_plan tf tf.status.stage.reason
        else pure tt)
      >>= λ _.
          update_status_with_retry a (with_stage tf stage) (some (with_stage tf stage).status)
          >>= λ result.
              (if tf.spec.keep_latest_pods_only
                then perform (r.reap_old_generation_pods result.1)
                else pure tt)
              >>= λ _. pure done

  -- The end of a workflow, where the stage has no task.
  unfoldable pub finish_workflow : Terraform → TaskOptions → Exec W Reply
  unfolding contents_of
  finish_workflow tf run_opts =
      if tf.status.phase == phase_running
      then (load_secret a run_opts.outputs_secret_name run_opts.namespace >>= λ answer.
          let completed = with_phase tf phase_completed in
          let outputs =
            if tf.spec.write_outputs_to_status
            then update_outputs tf.status.outputs (contents_of answer)
            else tf.status.outputs in
          save (with_status completed (record completed.status { outputs = outputs })) fails
          >>= λ result. pure result.0)
      else if tf.status.phase == phase_deleting
      then (save (with_phase tf phase_deleted) fails >>= λ result. pure result.0)
      else pure done
