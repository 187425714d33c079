-- ===== src/Controller/Reconcile/Keeping.antt =====
-- The parts of a round that follow the choice of a stage, and the phases that they store, with what
-- has to hold where that is "deleted".
use infrakube_multicluster.Prelude.{
  ◌++◌, ℕ, String, Bool, true, false, ◌≡◌, ◌≢◌, ◌⊎◌, inl, inr, subst, sym, none, List, [], ◌∷◌,
  ◌==◌, arith, eq_iff, decimal,
}
use infrakube_multicluster.Exec.{Go, returns, panics, Exec, pure, lift, call, asks, perform, ◌>>=◌}
use infrakube_multicluster.Exec.Ensures.{
  Any, keeps_call, keeps_perform, keeps_asks, keeps_asked, Returned, Ensures, Ensures-pure,
  Ensures-if, Ensures-bind, Ensures-option,
}
use infrakube_multicluster.Task.{run_nil}
use infrakube_multicluster.Kube.{PodStatus, EnvFromSource}
use infrakube_multicluster.Options.{TaskOptions, Inherited}
use infrakube_multicluster.Resource.{Terraform, Plugin}
use infrakube_multicluster.Resource.Status.{
  StatusPhase, phase_initializing, phase_init_delete, phase_deleting, phase_deleted,
  phase_completed, phase_running, state_in_progress, state_initializing,
}
use infrakube_multicluster.Controller.Api.{Api, Answer, found, failed, Error}
use infrakube_multicluster.Controller.Settings.{
  Config, node_selectors_from_cache, list_env_from_sources,
}
use infrakube_multicluster.Controller.Plugins.{Runner, Collected, create_plugin_job, run_deferred}
use infrakube_multicluster.Controller.Secrets.{load_secret}
use infrakube_multicluster.Controller.Updates.{update_status_with_retry}
use infrakube_multicluster.Controller.Writes.{RespectsIf, update_status-Ensures}
use infrakube_multicluster.Controller.Reconcile.Replies.{Outcome, Reply, done, again, fails}
use infrakube_multicluster.Controller.Reconcile.Status.{
  started, observed, generate_name, with_state,
}
use infrakube_multicluster.Controller.Reconcile.Parts.{save, finish_workflow}
use infrakube_multicluster.Controller.Reconcile.Pods.{
  run_task, with_deferred, start_task, observe_pod, follow_pods, after_list, run_stage, after_body,
}

-- The delete workflow has not ended.
abbrev pub Unfinished : Terraform → Type 0
Unfinished tf = (tf.status.phase ≢ phase_deleting) ⊎ (tf.status.stage.task_type ≢ run_nil)

-- The phases that a round may write, besides those that it finds.
pub record Allows (Allowed : StatusPhase → Type 0) : Type 0 where
  pub initializing : Allowed phase_initializing
  pub init_delete : Allowed phase_init_delete
  pub running : Allowed phase_running
  pub deleting : Allowed phase_deleting
  pub completed : Allowed phase_completed

started-phase :
    (tf : Terraform)
    → ((started tf).status.phase ≡ tf.status.phase)
      ⊎ (((started tf).status.phase ≡ phase_running) ⊎ ((started tf).status.phase ≡ phase_deleting))
unfolding started
started-phase tf = ground arith

observed-phase :
    (now : ℕ) (tf : Terraform) (pod : PodStatus)
    → (observed now tf pod).status.phase ≡ tf.status.phase
unfolding observed
observed-phase now tf pod = ground arith

module _ (Allowed : StatusPhase → Type 0) (allows : Allows Allowed) {W : Type 0} (a : Api W)
    (c : Config) (r : Runner W) (P : W → Type 0) (k : RespectsIf Allowed a r P) where
  abbrev IsAllowed : Terraform → Type 0
  IsAllowed tf = Allowed tf.status.phase

  abbrev LeftBy : Outcome → Type 0
  LeftBy outcome = IsAllowed outcome.1

  pub save-Ensures :
      (tf : Terraform) (refused : Error → Reply)
      → IsAllowed tf
      → Ensures P LeftBy (save a c r tf refused)
  unfolding save
  save-Ensures tf refused d =
      Ensures-bind (update_status_with_retry a tf none) _
        (update_status-Ensures Allowed a r P k tf none d d)
        (λ result l. Ensures-option result.0 _ _ (λ e. Ensures-pure _ l) (λ e h. Ensures-pure _ l))

  -- The reply of a part that is saved last.
  pub saved-Ensures :
      (tf : Terraform) (refused : Error → Reply)
      → IsAllowed tf
      → Ensures P Any (save a c r tf refused >>= λ result. pure result.0)
  saved-Ensures tf refused d =
      Ensures-bind (save a c r tf refused) _ (save-Ensures tf refused d)
        (λ result l. Ensures-pure _ tt)

  create_plugin_job-Ensures :
      (g : List EnvFromSource) (tf : Terraform) (job : String × Plugin)
      → IsAllowed tf
      → Ensures P IsAllowed (create_plugin_job a c r g tf job)
  unfolding create_plugin_job
  create_plugin_job-Ensures g tf job d =
      let tf' : Terraform = record tf {
        status = record tf.status { plugins_started = tf.status.plugins_started ++ job.0 ∷ [] };
      } in
      Ensures-bind (asks (node_selectors_from_cache a c) >>= lift) _ (keeps_asked _) (λ inherited q.
        Ensures-bind (perform _) _ (keeps_perform _ (λ w p. k.creates tf _ w p)) (λ u q.
          Ensures-bind (update_status_with_retry a tf' none) _
            (update_status-Ensures Allowed a r P k tf' none d d) (λ updated l. Ensures-pure _ l)))

  run_deferred-Ensures :
      (g : List EnvFromSource) (tf : Terraform) (jobs : List (String × Plugin))
      → IsAllowed tf
      → Ensures P IsAllowed (run_deferred a c r g tf jobs)
  unfolding run_deferred
  run_deferred-Ensures g tf [] d = Ensures-pure tf d
  run_deferred-Ensures g tf (job ∷ jobs) d =
      Ensures-bind (create_plugin_job a c r g tf job) _ (create_plugin_job-Ensures g tf job d)
        (λ tf' d'. run_deferred-Ensures g tf' jobs d')

  started-IsAllowed : (tf : Terraform) → IsAllowed tf → IsAllowed (started tf)
  started-IsAllowed tf d = elim (started-phase tf) [
    | inl e ↦ subst Allowed (sym e) d
    | inr (inl e) ↦ subst Allowed (sym e) allows.running
    | inr (inr e) ↦ subst Allowed (sym e) allows.deleting
  ]

  observed-IsAllowed :
      (now : ℕ) (tf : Terraform) (pod : PodStatus) → IsAllowed tf → IsAllowed (observed now tf pod)
  observed-IsAllowed now tf pod d = subst Allowed (sym (observed-phase now tf pod)) d

  run_task-Ensures :
      (tf : Terraform) (opts : TaskOptions) (st : Bool × Collected)
      → IsAllowed tf
      → Ensures P LeftBy (run_task a c r tf opts st)
  unfolding run_task
  run_task-Ensures tf opts (true, st) d = Ensures-pure _ d
  run_task-Ensures tf opts (false, st) d =
      Ensures-bind (r.setup_and_run tf _) _ (k.runs tf _) (λ refused q.
        Ensures-option refused _ _ (λ e. save-Ensures (started tf) _ (started-IsAllowed tf d))
          (λ e h. Ensures-pure _ d))

  observe_pod-Ensures :
      (tf : Terraform) (pod : PodStatus) → IsAllowed tf → Ensures P Any (observe_pod a c r tf pod)
  unfolding observe_pod
  observe_pod-Ensures tf pod d = Ensures-bind (asks a.now) _ (keeps_asks a.now) (λ now q.
      Ensures-bind (save a c r (observed now tf pod) fails) _
        (save-Ensures (observed now tf pod) fails (observed-IsAllowed now tf pod d))
        (λ result l.
          Ensures-option result.0.error _ _
            (λ e.
              Ensures-if _ _ _
                (λ e.
                  Ensures-bind (call (a.delete_pod pod)) _
                    (keeps_call (a.delete_pod pod) (k.deletes pod)) (λ x q. Ensures-pure done tt))
                (λ e. Ensures-pure done tt))
            (λ x e. Ensures-pure _ tt)))

  with_deferred-Ensures :
      (g : List EnvFromSource) (tf : Terraform) (jobs : List (String × Plugin))
      (body : Exec W Outcome)
      → IsAllowed tf
      → Ensures P LeftBy body
      → Ensures P Any (with_deferred a c r g tf jobs body)
  unfolding with_deferred
  with_deferred-Ensures g tf jobs body d e = record {
    kept = λ w p. after (body w).0 (body w).1 (e.result w p) (e.kept w p);
    result = λ w p. any_returned (with_deferred a c r g tf jobs body w).0;
  }
    where
      any_returned : (x : Go Reply) → Returned Any x
      any_returned (returns x) = tt
      any_returned panics = tt

      after :
          (x : Go Outcome) (w : W) → Returned LeftBy x → P w → P (after_body a c r g tf jobs x w).1
      after (returns (reply, tf')) w l p =
          (Ensures-bind {R = Any} (run_deferred a c r g tf' jobs) (λ x. pure reply)
              (run_deferred-Ensures g tf' jobs l) (λ x q. Ensures-pure reply tt)).kept
            w p
      after panics w l p = (run_deferred-Ensures g tf jobs d).kept w p

  start_task-Ensures :
      (inherited : Inherited) (tf : Terraform) (opts : TaskOptions)
      → IsAllowed tf
      → Ensures P Any (start_task a c r inherited tf opts)
  unfolding start_task
  start_task-Ensures inherited tf opts d =
      with_deferred-Ensures (list_env_from_sources c tf) tf _ _ d (run_task-Ensures tf opts _ d)

  follow_pods-Ensures :
      (inherited : Inherited) (tf : Terraform) (opts : TaskOptions) (pods : List PodStatus)
      → IsAllowed tf
      → Ensures P Any (follow_pods a c r inherited tf opts pods)
  unfolding follow_pods
  follow_pods-Ensures inherited tf opts (pod ∷ pods) d = observe_pod-Ensures tf pod d
  follow_pods-Ensures inherited tf opts [] d =
      Ensures-if (tf.status.stage.state == state_in_progress) _ _
        (λ e. saved-Ensures (with_state tf state_initializing) (λ e. again) d)
        (λ e. start_task-Ensures inherited tf opts d)

  load_secret-Ensures : (name namespace : String) → Ensures P Any (load_secret a name namespace)
  unfolding load_secret
  load_secret-Ensures name namespace = keeps_asks _

  finish_workflow-Ensures :
      (tf : Terraform) (opts : TaskOptions)
      → IsAllowed tf
      → Allowed phase_deleted ⊎ (tf.status.phase ≢ phase_deleting)
      → Ensures P Any (finish_workflow a c r tf opts)
  unfolding finish_workflow
  finish_workflow-Ensures tf opts d live =
      Ensures-if (tf.status.phase == phase_running) _ _
        (λ e.
          Ensures-bind (load_secret a opts.outputs_secret_name opts.namespace) _
            (load_secret-Ensures opts.outputs_secret_name opts.namespace)
            (λ answer q. saved-Ensures _ fails allows.completed))
        (λ e.
          Ensures-if (tf.status.phase == phase_deleting) _ _
            (λ x. elim live [
              | inl may ↦ saved-Ensures _ fails may
              | inr not_deleting ↦
                  elim (not_deleting ((eq_iff tf.status.phase phase_deleting).0 x)) [ ]
            ])
            (λ x. Ensures-pure done tt))

  live_unless_nil :
      (tf : Terraform)
      → Unfinished tf
      → (tf.status.stage.task_type == run_nil) ≡ true
      → tf.status.phase ≢ phase_deleting
  live_unless_nil tf u e = ground (arith, eq_iff tf.status.stage.task_type run_nil)

  live_phase :
      (tf : Terraform)
      → Allowed phase_deleted ⊎ Unfinished tf
      → (tf.status.stage.task_type == run_nil) ≡ true
      → Allowed phase_deleted ⊎ (tf.status.phase ≢ phase_deleting)
  live_phase tf (inl may) e = inl may
  live_phase tf (inr u) e = inr (live_unless_nil tf u e)

  after_list-Ensures :
      (inherited : Inherited) (tf : Terraform) (opts : TaskOptions)
      (answer : Answer (List PodStatus))
      → IsAllowed tf
      → Ensures P Any (after_list a c r inherited tf opts answer)
  after_list-Ensures inherited tf opts (failed e) d = Ensures-pure done tt
  after_list-Ensures inherited tf opts (found pods) d = follow_pods-Ensures inherited tf opts _ d

  pub run_stage-Ensures :
      (tf : Terraform)
      → IsAllowed tf
      → Allowed phase_deleted ⊎ Unfinished tf
      → Ensures P Any (run_stage a c r tf)
  unfolding run_stage
  run_stage-Ensures tf d u =
      Ensures-bind (asks (node_selectors_from_cache a c) >>= lift) _ (keeps_asked _) (λ inherited q.
        Ensures-if (tf.status.stage.task_type == run_nil) _ _
          (λ e. finish_workflow-Ensures tf _ d (live_phase tf u e))
          (λ e.
            Ensures-bind
              (call
                (a.list_pods tf.namespace (generate_name tf) (decimal tf.status.stage.generation)))
              _
              (keeps_call _
                (k.lists tf.namespace (generate_name tf) (decimal tf.status.stage.generation)))
              (λ answer q. after_list-Ensures inherited tf _ answer d)))
