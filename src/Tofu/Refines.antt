-- ===== src/Tofu/Refines.antt =====
-- pkg/controllers/tofu_controller.go, run: its effect on the objects of the cluster, which is that of
-- the Terraform controller.
use infrakube_multicluster.Prelude.{
  String, Bool, ◌||◌, Option, none, some, List, [], ◌==◌, ◌≡◌, refl, sym, ap, ◌∙◌,
}
use infrakube_multicluster.Exec.{Go, returns, panics, Exec, continue, ◌>>=◌}
use infrakube_multicluster.Kube.{ApiError, not_found, already_exists, other_error}
use infrakube_multicluster.Options.{TaskOptions}
use infrakube_multicluster.Controller.Api.{Error}
use infrakube_multicluster.Controller.Settings.{Config}
use infrakube_multicluster.Objects.{Object, Pod, kind_of}
use infrakube_multicluster.Objects.Access.{
  generate_config_map, generate_service_account, generate_role, generate_role_binding,
}
use infrakube_multicluster.Creation.Cluster.{Cluster, ◌>>?◌, after_error}
use infrakube_multicluster.Creation.Kinds.{
  Found, existing, missing, lookup_failed, found_of, secret_object, create_pod,
  check_persistent_volume_claim_exists, check_config_map_exists, check_secret_exists,
  check_service_account_exists, check_role_exists, check_role_binding_exists,
}
use infrakube_multicluster.Creation.Run.{check_objects}
use infrakube_multicluster.Creation.Store.{View, place, set_place, object_key, IsStore, Deleted}
use infrakube_multicluster.Creation.Does.{Does, After, Does-then}
use infrakube_multicluster.Creation.Places.{set_place-twice}
use infrakube_multicluster.Creation.Replaced.{
  keep-Does, claim-Does, create_recorded-Does, create_recreated-Does,
}
use infrakube_multicluster.Creation.Refines.{desired, outputs_secret, sources-Does, optional-Does}
use infrakube_multicluster.Creation.Outcome.{HasRun, run_with-HasRun}
use infrakube_multicluster.Tofu.Types.{Tofu, shared}
use infrakube_multicluster.Tofu.Creation.{
  tolerated, resource_exists, claim_exists, delete_existing, delete_previous, delete_and_create,
  create_tofu_pvc, create_tofu_secret, create_tofu_pod, create_tofu_objects, check_tofu_objects,
  run_tofu,
}

-- The change depends on the view only through another one.
After-source :
    {V : Type 0} (res : Go (Option Error)) (f : V → V) (u v v' : V)
    → f u ≡ f v
    → After res f u v'
    → After res f v v'
After-source (returns none) f u v v' h k = k ∙ h
After-source (returns (some e)) f u v v' h k = tt
After-source panics f u v v' h k = tt

module _ {W : Type 0} (c : Cluster W) (view : W → View) (pods : W → List Pod)
    (store : IsStore c view pods) where
  -- The deletion may or may not have emptied the place.
  emptied : Object → View → View
  emptied o = set_place (kind_of o.body) (object_key o) none

  deleted-same :
      (o : Object) (res : Option ApiError) (v : View) (w : W)
      → Deleted res (kind_of o.body) (object_key o) v (view w)
      → After (returns (tolerated res)) (λ u. u) (emptied o v) (emptied o (view w))
  unfolding emptied
  deleted-same o none v w h =
      ap (emptied o) h ∙ set_place-twice (kind_of o.body) (object_key o) none none v
  deleted-same o (some not_found) v w h = ap (emptied o) h
  deleted-same o (some already_exists) v w h = tt
  deleted-same o (some other_error) v w h = tt

  existing-same :
      (o : Object) (f : Found Object) (w : W)
      → After
          (delete_existing c (kind_of o.body) (object_key o) f w).0
          (λ u. u)
          (emptied o (view w))
          (emptied o (view (delete_existing c (kind_of o.body) (object_key o) f w).1))
  unfolding ◌>>=◌
  existing-same o (existing old) w =
      deleted-same o (c.delete_object (kind_of o.body) (object_key o) w).0 (view w)
        (c.delete_object (kind_of o.body) (object_key o) w).1
        (store.deleted (kind_of o.body) (object_key o) w)
  existing-same o missing w = refl
  existing-same o (lookup_failed e) w = tt

  previous-After :
      (o : Object) (res : Go (Option Error)) (n : Exec W (Option Error)) (w w' : W)
      → After res (λ u. u) (emptied o (view w)) (emptied o (view w'))
      → Does view (place o) n
      → After
          (continue res (λ e. after_error e n) w').0
          (place o)
          (view w)
          (view (continue res (λ e. after_error e n) w').1)
  unfolding emptied
  previous-After o (returns (some e)) n w w' h k = tt
  previous-After o panics n w w' h k = tt
  previous-After o (returns none) n w w' h k =
      After-source (n w').0 (place o) (view w') (view w) (view (n w').1)
        (sym (set_place-twice (kind_of o.body) (object_key o) (some o) none (view w'))
          ∙ ap (place o) h
          ∙ set_place-twice (kind_of o.body) (object_key o) (some o) none (view w))
        (k.after w')

  -- A creation after the deletion of what stood in the place.
  previous-Does :
      (o : Object) (n : Exec W (Option Error))
      → Does view (place o) n
      → Does view (place o) (delete_previous c o >>? n)
  unfolding delete_previous ◌>>?◌ ◌>>=◌
  previous-Does o n h = record {
    after = λ w.
        let f = found_of (c.get_object (kind_of o.body) (object_key o) w) in
        previous-After o (delete_existing c (kind_of o.body) (object_key o) f w).0 n w
          (delete_existing c (kind_of o.body) (object_key o) f w).1 (existing-same o f w) h;
  }

  delete_and_create-Does :
      (tofu : Tofu) (kind : String) (o : Object)
      → Does view (place o) (delete_and_create c tofu kind o)
  unfolding delete_and_create
  delete_and_create-Does tofu kind o =
      previous-Does o _ (create_recorded-Does c view pods store kind (shared tofu) o)

  create_tofu_objects-Does :
      (config : Config) (tofu : Tofu) (r : TaskOptions)
      → Does view (desired config (shared tofu) r) (create_tofu_objects c config tofu r)
  unfolding create_tofu_objects create_tofu_pvc create_tofu_secret claim_exists
  create_tofu_objects-Does config tofu r =
      let dc = delete_and_create-Does tofu in
      Does-then view _ _ _ _ (sources-Does c view pods store config (shared tofu)) (
        Does-then view _ _ _ _ (claim-Does c view pods store (shared tofu) _ _) (
          Does-then view _ _ _ _
            (previous-Does (secret_object r.versioned_name r.namespace r.secret_data [] r) _ (
              create_recreated-Does c view pods store (shared tofu)
                (secret_object r.versioned_name r.namespace r.secret_data [] r)))
            (Does-then view _ _ _ _ (dc "ConfigMap" (generate_config_map r)) (
              Does-then view _ _ _ _ (dc "RoleBinding" (generate_role_binding r)) (
                Does-then view _ _ _ _ (dc "Role" (generate_role r)) (
                  Does-then view _ _ _ _
                    (optional-Does c view pods store (tofu.spec.service_account == "")
                      (generate_service_account r) _
                      (dc "ServiceAccount" (generate_service_account r)))
                    (keep-Does c view pods store (shared tofu) (outputs_secret config r))))))))

  check_objects-same : (r : TaskOptions) → check_tofu_objects c r ≡ check_objects c r
  unfolding check_tofu_objects check_objects resource_exists claim_exists
      check_persistent_volume_claim_exists check_config_map_exists check_secret_exists
      check_service_account_exists check_role_exists check_role_binding_exists
  check_objects-same r = refl

  -- The Tofu controller, whose deletions tolerate that nothing is found, refines the change of the
  -- abstract cluster that the Terraform controller does: a run that ends without an error sets the same
  -- places on a new generation or a first install, and otherwise found the same objects and changed
  -- none.
  pub run_tofu-HasRun :
      (config : Config) (tofu : Tofu) (r : TaskOptions) (is_new is_first : Bool) (w : W)
      → (run_tofu c config tofu r is_new is_first w).0 ≡ returns none
      → HasRun c view config
          (shared tofu)
          r
          (is_first || is_new)
          w
          (view (run_tofu c config tofu r is_new is_first w).1)
  unfolding run_tofu create_tofu_pod create_pod check_tofu_objects check_objects resource_exists
      claim_exists check_persistent_volume_claim_exists check_config_map_exists check_secret_exists
      check_service_account_exists check_role_exists check_role_binding_exists
  run_tofu-HasRun config tofu r is_new is_first w ended =
      run_with-HasRun c view pods store config (shared tofu) r (create_tofu_objects c config tofu r)
        (is_first || is_new) w (create_tofu_objects-Does config tofu r) ended
