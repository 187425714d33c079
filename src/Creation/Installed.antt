-- ===== src/Creation/Installed.antt =====
-- pkg/controllers/tf_controller.go, setupAndRun: the pods that it starts.
use infrakube_multicluster.Prelude.{
  String, Bool, ◌||◌, Option, none, some, List, [], ◌∷◌, ◌++◌, ◌==◌, ◌≡◌, refl, ◌∙◌, Dict, inl, inr,
  sym, subst,
}
use infrakube_multicluster.Exec.{Go, returns, panics, Exec, perform, continue, ◌>>=◌}
use infrakube_multicluster.Exec.Ensures.{
  Ensures, Returned, Any, Ensures-pure, Ensures-bind, Ensures-if, keeps_perform,
}
use infrakube_multicluster.Kube.{Secret}
use infrakube_multicluster.Resource.{Terraform}
use infrakube_multicluster.Options.{TaskOptions}
use infrakube_multicluster.Controller.Api.{Api, Error}
use infrakube_multicluster.Controller.Settings.{Config}
use infrakube_multicluster.Controller.Secrets.{update_secret_finalizer}
use infrakube_multicluster.Addresses.Parse.{Libraries}
use infrakube_multicluster.Objects.{Pod}
use infrakube_multicluster.Objects.Pods.{generated, generate_pod}
use infrakube_multicluster.Creation.Cluster.{Cluster}
use infrakube_multicluster.Creation.Git.{
  Result, ok, err, Messages, unless_err, format_job_ssh_config,
}
use infrakube_multicluster.Creation.Run.{run}
use infrakube_multicluster.Creation.Setup.{
  Texts, Background, add_askpass, with_ssh, add_changed, changed_options, run_with, setup_with,
  setup_and_run, set_module, scm_map_of, add_scripts,
}
use infrakube_multicluster.Creation.Store.{View, IsStore}
use infrakube_multicluster.Creation.Started.{HasStarted, run_starts}
use infrakube_multicluster.Creation.Prepared.{
  Prepared, Prepares, Prepared-same, add_secrets-Prepared, add_scripts-Prepared,
  set_module-Prepares, with_downloads-Prepares,
}
use infrakube_multicluster.Controller.Finalized.{update_secret_finalizer-keeps}
use infrakube_multicluster.Creation.Granted.{
  Ensures-unless_err, Ensures-Prepared, unless_err-Ensures, format_job_ssh_config-keeps,
  add_askpass-Ensures,
}

-- How setupAndRun ends: with one pod more, made from options that differ from the given ones in what
-- it sets only, or with an error or a panic and no pod more.
abbrev pub HasInstalled : TaskOptions → List Pod → Go (Option Error) → List Pod → Type 0
HasInstalled r ps (returns none) ps' =
    (r' : TaskOptions) × (pod : Pod) × Prepared r r'
    × (generate_pod r' ≡ generated pod)
    × (ps' ≡ ps ++ pod ∷ [])
HasInstalled r ps (returns (some e)) ps' = ps' ≡ ps
HasInstalled r ps panics ps' = ps' ≡ ps

installed :
    (r r' : TaskOptions) (ps : List Pod) (res : Go (Option Error)) (ps' : List Pod)
    → Prepared r r'
    → HasStarted r' ps res ps'
    → HasInstalled r ps res ps'
installed r r' ps res ps' h (inl (e, pod, g, grown)) =
    subst (λ x. HasInstalled r ps x ps') (sym e) (r', pod, h, g, grown)
installed r r' ps res ps' h (inr (x, e, same)) = subst (λ x. HasInstalled r ps x ps') (sym e) same

module _ {W : Type 0} (a : Api W) (c : Cluster W) (b : Background W) (config : Config)
    (l : Libraries) (texts : Texts) (m : Messages) (view : W → View) (pods : W → List Pod)
    (store : IsStore c view pods)
    (updates : (secret : Secret) (w : W) → pods (a.update_secret secret w).1 ≡ pods w)
    (reaps : (tf : Terraform) (w : W) → pods (b.reap_plugins tf w) ≡ pods w) where
  module _ (ps : List Pod) where
    abbrev Same : W → Type 0
    Same w = pods w ≡ ps

    with_ssh-Ensures :
        (r : TaskOptions) (x : Result (Dict String))
        → Ensures Same (Prepares r) (with_ssh a c b config l texts m r x)
    with_ssh-Ensures r (err e) =
        Ensures-bind {Q = Any} (perform _) _
          (keeps_perform _ (λ w p. store.pods-event "Warning" "SSHConfigError" w ∙ p))
          (λ u q. Ensures-pure _ tt)
    with_ssh-Ensures r (ok data') = Ensures-pure _ (add_secrets-Prepared r data')

    add_changed-Ensures :
        (tf : Terraform) (scm_map : Dict String) (r : TaskOptions)
        → Ensures Same (Prepares r) (add_changed a c b config l texts m tf scm_map r)
    unfolding add_changed
    add_changed-Ensures tf scm_map r =
        let scripts = add_scripts l texts config.settings.names.tool tf r in
        Ensures-bind (update_secret_finalizer a tf) _
          (update_secret_finalizer-keeps a Same (λ secret w p. updates secret w ∙ p) tf)
          (λ x q.
            Ensures-bind {Q = Any} (perform (b.reap_plugins tf)) _
              (keeps_perform _ (λ w p. reaps tf w ∙ p))
              (λ u q.
                Ensures-unless_err Same r (add_askpass a m tf.spec.scm_auth_methods scripts) _
                  (Ensures-Prepared Same r scripts _
                    (add_scripts-Prepared l texts config.settings.names.tool tf r)
                    (add_askpass-Ensures a m Same tf.spec.scm_auth_methods scripts))
                  (λ r'.
                    Ensures-unless_err Same r'
                      (format_job_ssh_config a m tf >>= with_ssh a c b config l texts m r') _
                      (Ensures-bind (format_job_ssh_config a m tf) _
                        (format_job_ssh_config-keeps a m Same tf) (λ x q. with_ssh-Ensures r' x))
                      (λ r''.
                        Ensures-pure _
                          (with_downloads-Prepares l texts config.settings.names.tool tf r'' _)))))

    prepare-Ensures :
        (is_changed : Bool) (tf : Terraform) (scm_map : Dict String) (r : TaskOptions)
        → Ensures Same (Prepares r) (
            unless_err
              (changed_options a c b config l texts m is_changed tf scm_map)
              (set_module l texts config.settings.names.tool tf scm_map r))
    prepare-Ensures is_changed tf scm_map r =
        unless_err-Ensures Same r _ _
          (set_module-Prepares l texts config.settings.names.tool tf scm_map r)
          (λ s.
            Ensures-if is_changed _ _ (λ e. add_changed-Ensures tf scm_map s)
              (λ e. Ensures-pure _ (Prepared-same s)))

  -- What setupAndRun does with any run of a task that starts its pod or returns an error.
  module _ (start : Terraform → TaskOptions → Bool → Bool → Exec W (Option Error))
      (starts : (tf : Terraform) (r : TaskOptions) (is_new is_first : Bool) (w : W)
        → HasStarted r
            (pods w)
            (start tf r is_new is_first w).0
            (pods (start tf r is_new is_first w).1)) where
    run_installs :
        (tf : Terraform) (r : TaskOptions) (is_new is_first : Bool) (ps : List Pod)
        (res : Go (Result TaskOptions)) (w : W)
        → Returned (Prepares r) res
        → pods w ≡ ps
        → let (end, w') =
            continue res (run_with a c b config l texts m start tf is_new is_first) w in
          HasInstalled r ps end (pods w')
    run_installs tf r is_new is_first ps (returns (err e)) w q p = p
    run_installs tf r is_new is_first ps (returns (ok r')) w q p = installed r r' ps _ _ q (
        subst
          (λ x.
            HasStarted r' x (start tf r' is_new is_first w).0
              (pods (start tf r' is_new is_first w).1))
          p (starts tf r' is_new is_first w))
    run_installs tf r is_new is_first ps panics w q p = p

    pub setup_with_installs :
        (tf : Terraform) (r : TaskOptions) (w : W)
        → let (res, w') = setup_with a c b config l texts m start tf r w in
          HasInstalled r (pods w) res (pods w')
    unfolding setup_with ◌>>=◌
    setup_with_installs tf r w =
        let reason = tf.status.stage.reason in
        let is_new = reason == "GENERATION_CHANGE" || reason == "TF_RESOURCE_DELETED" in
        let is_first = reason == "TF_RESOURCE_CREATED" in
        let scm_map = scm_map_of tf.spec.scm_auth_methods [] in
        let ready = prepare-Ensures (pods w) (is_new || is_first) tf scm_map r in
        run_installs tf r is_new is_first (pods w) _ _ (ready.result w refl) (ready.kept w refl)

  -- setupAndRun ends without an error only with one pod more, which is generated for its options but
  -- for the module and the data that it sets in them; where it returns an error or panics, the pods
  -- are those of before.
  pub setup_and_run_installs :
      (tf : Terraform) (r : TaskOptions) (w : W)
      → HasInstalled r
          (pods w)
          (setup_and_run a c b config l texts m tf r w).0
          (pods (setup_and_run a c b config l texts m tf r w).1)
  unfolding setup_and_run
  setup_and_run_installs = setup_with_installs (run c config) (run_starts c view pods store config)
