-- ===== src/Creation/Started.antt =====
-- pkg/controllers/tf_controller.go, run: when the pod of a task starts.
use infrakube_multicluster.Prelude.{
  String, Bool, true, false, ◌||◌, Option, none, some, List, [], ◌∷◌, ◌++◌, ◌≡◌, refl, ◌∙◌, ltb,
  length, Dict, ◌==◌, subst, sym, ◌⊎◌, inl, inr,
}
use infrakube_multicluster.Exec.{Go, returns, Exec, ◌>>=◌, call, asks, continue}
use infrakube_multicluster.Kube.{NamespacedName, ApiError}
use infrakube_multicluster.Resource.{Terraform}
use infrakube_multicluster.Options.{TaskOptions}
use infrakube_multicluster.Controller.Api.{Error, api, message}
use infrakube_multicluster.Controller.Settings.{Config}
use infrakube_multicluster.Objects.{Object, Pod, Kind}
use infrakube_multicluster.Objects.Pods.{Generated, generated, refused, generate_pod}
use infrakube_multicluster.Creation.Cluster.{Cluster, ◌>>?◌, after_error}
use infrakube_multicluster.Creation.Kinds.{
  Found, found_of, delete_found, report_creation, create_generated,
  check_persistent_volume_claim_exists, check_config_map_exists, check_secret_exists,
  check_service_account_exists, check_role_exists, check_role_binding_exists,
  delete_config_map_if_exists, delete_secret_if_exists, delete_service_account_if_exists,
  delete_role_if_exists, delete_role_binding_if_exists, create_pvc, create_config_map,
  create_secret, create_service_account, create_role, create_role_binding, create_pod,
}
use infrakube_multicluster.Creation.Run.{
  require, create_env_from_source, create_env_from_sources, create_objects, check_objects, run,
}
use infrakube_multicluster.Creation.Quiet.{
  Quiet, Quiet-pure, Quiet-call, Quiet-bind, Quiet-then, Quiet-if, Quiet-delete, Quiet-report,
  Quiet-secret, Quiet-create, Quiet-existing, Quiet-claim, Quiet-require,
}
use infrakube_multicluster.Creation.Store.{View, IsStore, PodCreated}

-- How a run ends: with its pod started, or with an error and no pod more than before.
abbrev pub HasStarted : TaskOptions → List Pod → Go (Option Error) → List Pod → Type 0
HasStarted r ps res ps' =
    ((res ≡ returns none) × (pod : Pod) × (generate_pod r ≡ generated pod) × (ps' ≡ ps ++ pod ∷ []))
    ⊎ ((e : Error) × (res ≡ returns (some e)) × (ps' ≡ ps))

module _ {W : Type 0} (c : Cluster W) (view : W → View) (pods : W → List Pod)
    (store : IsStore c view pods) where
  module _ (ps : List Pod) where
    Quiet-replace :
        (kind : Kind) (key : NamespacedName) (tf : Terraform) (o : Object)
        (report : Option ApiError → Exec W (Option Error))
        → ((r : Option ApiError) → Quiet c view pods store ps (report r))
        → Quiet c view pods store ps (
            (asks (λ w. found_of (c.get_object kind key w)) >>= delete_found c kind key)
            >>? (call (c.create_object tf o) >>= report))
    Quiet-replace kind key tf o report h =
        Quiet-then c view pods store ps _ _ (Quiet-delete c view pods store ps kind key)
          (Quiet-create c view pods store ps tf o report h)

    pub Quiet-source :
        (tf : Terraform) (contents : Dict String) (o : Object)
        → Quiet c view pods store ps (create_env_from_source c tf contents o)
    unfolding create_env_from_source
    Quiet-source tf contents o =
        Quiet-if c view pods store ps (ltb 0 (length contents)) _ _
          (Quiet-create c view pods store ps tf o _ (Quiet-existing c view pods store ps tf o))
          (Quiet-pure c view pods store ps none)

    Quiet-objects :
        (config : Config) (tf : Terraform) (r : TaskOptions)
        → Quiet c view pods store ps (create_objects c config tf r)
    unfolding create_objects create_env_from_sources create_pvc create_config_map create_secret
        create_service_account create_role create_role_binding delete_config_map_if_exists
        delete_secret_if_exists delete_service_account_if_exists delete_role_if_exists
        delete_role_binding_if_exists check_persistent_volume_claim_exists check_config_map_exists
        check_secret_exists check_service_account_exists check_role_exists check_role_binding_exists
    Quiet-objects config tf r =
        let then' = Quiet-then c view pods store ps in
        let report = Quiet-report c view pods store ps in
        then' _ _ (then' _ _ (Quiet-source tf _ _) (Quiet-source tf _ _)) (
          then' _ _
            (Quiet-bind c view pods store ps (asks (λ w. found_of (c.get_claim _ w))) _
              (Quiet-call c view pods store ps (λ w. (found_of (c.get_claim _ w), w)) (λ w. refl))
              (Quiet-claim c view pods store ps tf _))
            (then' _ _ (Quiet-replace _ _ tf _ _ (Quiet-secret c view pods store ps true)) (
              then' _ _ (Quiet-replace _ _ tf _ _ (report "ConfigMap")) (
                then' _ _ (Quiet-replace _ _ tf _ _ (report "RoleBinding")) (
                  then' _ _ (Quiet-replace _ _ tf _ _ (report "Role")) (
                    then' _ _
                      (Quiet-if c view pods store ps (tf.spec.service_account == "") _ _
                        (Quiet-replace _ _ tf _ _ (report "ServiceAccount"))
                        (Quiet-pure c view pods store ps none))
                      (then' _ _ (Quiet-pure c view pods store ps none) (
                        Quiet-create c view pods store ps tf _ _
                          (Quiet-secret c view pods store ps false)))))))))

    Quiet-checked :
        {A : Type 0} (kind : String) (key : NamespacedName) (f : W → Found A)
        → Quiet c view pods store ps (asks f >>= require c kind key)
    Quiet-checked kind key f =
        Quiet-bind c view pods store ps (asks f) _
          (Quiet-call c view pods store ps (λ w. (f w, w)) (λ w. refl))
          (Quiet-require c view pods store ps kind key)

    pub Quiet-checks : (r : TaskOptions) → Quiet c view pods store ps (check_objects c r)
    unfolding check_objects check_persistent_volume_claim_exists check_config_map_exists
        check_secret_exists check_service_account_exists check_role_exists check_role_binding_exists
    Quiet-checks r =
        let then' = Quiet-then c view pods store ps in
        then' _ _ (Quiet-checked "PersistentVolumeClaim" _ _) (
          then' _ _ (Quiet-checked "ConfigMap" _ _) (
            then' _ _ (Quiet-checked "Secret" _ _) (
              then' _ _ (Quiet-checked "RoleBinding" _ _)
                (then' _ _ (Quiet-checked "Role" _ _) (Quiet-checked "ServiceAccount" _ _)))))

  -- The creation of the pod, from its result.
  reported_start :
      (r : TaskOptions) (pod : Pod) (res : Option ApiError) (ps : List Pod) (w : W)
      → generate_pod r ≡ generated pod
      → PodCreated res pod ps (pods w)
      → HasStarted r ps (report_creation c "Pod" res w).0 (pods (report_creation c "Pod" res w).1)
  unfolding ◌>>=◌
  reported_start r pod none ps w g h =
      inl (refl, pod, g, store.pods-event "Normal" "SuccessfulCreate" w ∙ h)
  reported_start r pod (some e) ps w g h =
      inr (api e, refl, store.pods-event "Warning" "PodCreateError" w ∙ h)

  generated_start :
      (tf : Terraform) (r : TaskOptions) (g : Generated) (w : W)
      → generate_pod r ≡ g
      → HasStarted r (pods w) (create_generated c tf g w).0 (pods (create_generated c tf g w).1)
  unfolding ◌>>=◌
  generated_start tf r (generated pod) w e =
      reported_start r pod (c.create_pod tf pod w).0 (pods w) (c.create_pod tf pod w).1 e
        (store.pod_created tf pod w)
  generated_start tf r (refused m) w e =
      inr (message m, refl, store.pods-event "Warning" "PodCreateError" w)

  start_after :
      (tf : Terraform) (r : TaskOptions) (e : Option Error) (ps : List Pod) (w : W)
      → pods w ≡ ps
      → HasStarted r ps
          (after_error e (create_pod c tf r) w).0
          (pods (after_error e (create_pod c tf r) w).1)
  unfolding create_pod
  start_after tf r none ps w h =
      subst
        (λ q.
          HasStarted r q (create_generated c tf (generate_pod r) w).0
            (pods (create_generated c tf (generate_pod r) w).1))
        h (generated_start tf r (generate_pod r) w refl)
  start_after tf r (some e) ps w h = inr (e, refl, h)

  -- A pod that is created after a part which starts none.
  pub Quiet-starts :
      (before : Exec W (Option Error)) (tf : Terraform) (r : TaskOptions)
      → ((ps : List Pod) → Quiet c view pods store ps before)
      → (w : W)
      → HasStarted r
          (pods w)
          ((before >>? create_pod c tf r) w).0
          (pods ((before >>? create_pod c tf r) w).1)
  unfolding ◌>>=◌ ◌>>?◌
  Quiet-starts before tf r quiet w =
      let (e, returned, u) = (quiet (pods w)).value w refl in
      subst
        (λ res.
          HasStarted r (pods w)
            (continue res (λ x. after_error x (create_pod c tf r)) (before w).1).0
            (pods (continue res (λ x. after_error x (create_pod c tf r)) (before w).1).1))
        (sym returned) (start_after tf r e (pods w) (before w).1 ((quiet (pods w)).kept w refl))

  -- A run always returns. If it returns no error, exactly one pod more than before runs, the one that
  -- is generated for its options; if any step fails, the pods are those of before. This holds of the
  -- branch that creates the objects and of the branch that only looks for them.
  pub run_starts :
      (config : Config) (tf : Terraform) (r : TaskOptions) (is_new is_first : Bool) (w : W)
      → HasStarted r
          (pods w)
          (run c config tf r is_new is_first w).0
          (pods (run c config tf r is_new is_first w).1)
  unfolding run
  run_starts config tf r is_new is_first w =
      Quiet-starts _ tf r
        (λ ps.
          Quiet-if c view pods store ps (is_first || is_new) _ _ (Quiet-objects ps config tf r)
            (Quiet-checks ps r))
        w
