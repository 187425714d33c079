-- ===== src/Tofu/Starts.antt =====
-- pkg/controllers/tofu_controller.go, run and setupAndRun: the pods that they start.
use infrakube_multicluster.Prelude.{String, Bool, true, false, ◌||◌, none, List, ◌==◌, refl}
use infrakube_multicluster.Exec.{call, asks}
use infrakube_multicluster.Kube.{NamespacedName}
use infrakube_multicluster.Options.{TaskOptions}
use infrakube_multicluster.Controller.Api.{Api}
use infrakube_multicluster.Controller.Settings.{Config}
use infrakube_multicluster.Addresses.Parse.{Libraries}
use infrakube_multicluster.Objects.{Kind, Object, Pod, kind_of}
use infrakube_multicluster.Reapers.{Reaping}
use infrakube_multicluster.Creation.Cluster.{Cluster}
use infrakube_multicluster.Creation.Git.{Messages}
use infrakube_multicluster.Creation.Setup.{Texts}
use infrakube_multicluster.Creation.Kinds.{
  Found, existing, missing, lookup_failed, found_of, create_pod,
  check_persistent_volume_claim_exists, check_config_map_exists, check_secret_exists,
  check_service_account_exists, check_role_exists, check_role_binding_exists,
}
use infrakube_multicluster.Creation.Run.{create_env_from_sources, check_objects}
use infrakube_multicluster.Creation.Store.{View, IsStore}
use infrakube_multicluster.Creation.Quiet.{
  Quiet, Quiet-pure, Quiet-call, Quiet-bind, Quiet-then, Quiet-if, Quiet-report, Quiet-secret,
  Quiet-create, Quiet-claim,
}
use infrakube_multicluster.Creation.Started.{HasStarted, Quiet-source, Quiet-checks, Quiet-starts}
use infrakube_multicluster.Creation.Installed.{HasInstalled, setup_with_installs}
use infrakube_multicluster.Creation.Composed.{StartNothing, reaping_starts-nothing}
use infrakube_multicluster.Tofu.Controller.{
  TofuClient, tofu_api, tofu_config, tofu_background, reap_tofu_plugins, setup_and_run_tofu,
}
use infrakube_multicluster.Tofu.Types.{Tofu, shared, own}
use infrakube_multicluster.Tofu.Creation.{
  tolerated, resource_exists, claim_exists, delete_existing, delete_previous, delete_and_create,
  create_tofu_pvc, create_tofu_secret, create_tofu_pod, create_tofu_objects, check_tofu_objects,
  run_tofu,
}

module _ {W : Type 0} (c : Cluster W) (view : W → View) (pods : W → List Pod)
    (store : IsStore c view pods) where
  module _ (ps : List Pod) where
    existing-Quiet :
        (kind : Kind) (key : NamespacedName) (f : Found Object)
        → Quiet c view pods store ps (delete_existing c kind key f)
    existing-Quiet kind key (existing o) =
        Quiet-bind c view pods store ps (call (c.delete_object kind key)) _
          (Quiet-call c view pods store ps _ (store.pods-delete kind key))
          (λ r. Quiet-pure c view pods store ps (tolerated r))
    existing-Quiet kind key missing = Quiet-pure c view pods store ps none
    existing-Quiet kind key (lookup_failed e) = Quiet-pure c view pods store ps _

    previous-Quiet : (o : Object) → Quiet c view pods store ps (delete_previous c o)
    unfolding delete_previous
    previous-Quiet o =
        Quiet-bind c view pods store ps (asks (λ w. found_of (c.get_object (kind_of o.body) _ w))) _
          (Quiet-call c view pods store ps (λ w. (found_of (c.get_object (kind_of o.body) _ w), w))
            (λ w. refl))
          (existing-Quiet (kind_of o.body) _)

    replace-Quiet :
        (tofu : Tofu) (kind : String) (o : Object)
        → Quiet c view pods store ps (delete_and_create c tofu kind o)
    unfolding delete_and_create
    replace-Quiet tofu kind o = Quiet-then c view pods store ps _ _ (previous-Quiet o) (
        Quiet-create c view pods store ps (shared tofu) o _
          (Quiet-report c view pods store ps kind))

    objects-Quiet :
        (config : Config) (tofu : Tofu) (r : TaskOptions)
        → Quiet c view pods store ps (create_tofu_objects c config tofu r)
    unfolding create_tofu_objects create_env_from_sources create_tofu_pvc create_tofu_secret
        claim_exists
    objects-Quiet config tofu r =
        let then' = Quiet-then c view pods store ps in
        let source = Quiet-source c view pods store ps (shared tofu) in
        let replace = replace-Quiet tofu in
        let nothing = Quiet-pure c view pods store ps none in
        let secret = λ (recreate : Bool) (o : Object).
          Quiet-create c view pods store ps (shared tofu) o _
            (Quiet-secret c view pods store ps recreate) in
        then' _ _ (then' _ _ (source _ _) (source _ _)) (
          then' _ _
            (Quiet-bind c view pods store ps (asks (λ w. found_of (c.get_claim _ w))) _
              (Quiet-call c view pods store ps (λ w. (found_of (c.get_claim _ w), w)) (λ w. refl))
              (Quiet-claim c view pods store ps (shared tofu) _))
            (then' _ _ (then' _ _ (previous-Quiet _) (secret true _)) (
              then' _ _ (replace "ConfigMap" _) (
                then' _ _ (replace "RoleBinding" _) (
                  then' _ _ (replace "Role" _) (
                    then' _ _
                      (Quiet-if c view pods store ps (tofu.spec.service_account == "") _ _
                        (replace "ServiceAccount" _) nothing)
                      (then' _ _ nothing (secret false _))))))))

    checks-Quiet : (r : TaskOptions) → Quiet c view pods store ps (check_tofu_objects c r)
    unfolding check_tofu_objects check_objects resource_exists claim_exists
        check_persistent_volume_claim_exists check_config_map_exists check_secret_exists
        check_service_account_exists check_role_exists check_role_binding_exists
    checks-Quiet r = Quiet-checks c view pods store ps r

  -- A run always returns. Without an error exactly one pod more is started, the one generated for its
  -- options; where any step fails, none is.
  pub run_tofu_starts :
      (config : Config) (tofu : Tofu) (r : TaskOptions) (is_new is_first : Bool) (w : W)
      → HasStarted r
          (pods w)
          (run_tofu c config tofu r is_new is_first w).0
          (pods (run_tofu c config tofu r is_new is_first w).1)
  unfolding run_tofu create_tofu_pod create_pod
  run_tofu_starts config tofu r is_new is_first w =
      Quiet-starts c view pods store _ (shared tofu) r
        (λ ps.
          Quiet-if c view pods store ps (is_first || is_new) _ _ (objects-Quiet ps config tofu r)
            (checks-Quiet ps r))
        w

module _ {W : Type 0} (a : Api W) (client : TofuClient W) (config : Config) (c : Cluster W)
    (k : Reaping W) (l : Libraries) (texts : Texts) (m : Messages) (view : W → View)
    (started : W → List Pod) (store : IsStore c view started)
    (others : StartNothing (tofu_api a client) k started) where
  -- The runner of the Tofu controller ends without an error only with exactly one pod more started,
  -- the one generated for its options but for the module and the data that it sets in them. Where it
  -- returns an error or panics, it has started none.
  pub setup_and_run_tofu_starts :
      (tofu : Tofu) (r : TaskOptions) (w : W)
      → let (res, w') = setup_and_run_tofu a client config c k l texts m tofu r w in
        HasInstalled r (started w) res (started w')
  unfolding setup_and_run_tofu reap_tofu_plugins
  setup_and_run_tofu_starts tofu r w =
      setup_with_installs (tofu_api a client) c (tofu_background a client config c k l texts m)
        (tofu_config config) l texts m view started store others.updates
        (λ tf u.
          reaping_starts-nothing (tofu_api a client) k (tofu_config config) started others
            (shared (own tf)) u)
        (λ tf. run_tofu c (tofu_config config) (own tf))
        (λ tf s is_new is_first u.
          run_tofu_starts c view started store (tofu_config config) (own tf) s is_new is_first u)
        (shared tofu) r w
