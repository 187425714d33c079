-- ===== src/Creation/Refines.antt =====
-- pkg/controllers/tf_controller.go, run: what the creations of a new generation leave in the cluster.
use infrakube_multicluster.Prelude.{
  arith, some, none, String, Bool, true, false, Option, none, List, [], ◌∷◌, ◌++◌, ◌≡◌, refl, ltb,
  length, Dict, ◌==◌, if◌then◌else◌,
}
use infrakube_multicluster.Exec.{Go, returns, panics, Exec, pure}
use infrakube_multicluster.Resource.{Terraform}
use infrakube_multicluster.Options.{TaskOptions}
use infrakube_multicluster.Controller.Api.{Error}
use infrakube_multicluster.Controller.Settings.{Config}
use infrakube_multicluster.Objects.{Object, Pod, config_map, secret}
use infrakube_multicluster.Objects.Access.{
  generate_config_map, generate_service_account, generate_role, generate_role_binding,
  generate_secret,
}
use infrakube_multicluster.Creation.Cluster.{Cluster}
use infrakube_multicluster.Creation.Kinds.{
  secret_object, check_persistent_volume_claim_exists, check_config_map_exists, check_secret_exists,
  check_service_account_exists, check_role_exists, check_role_binding_exists,
  delete_config_map_if_exists, delete_secret_if_exists, delete_service_account_if_exists,
  delete_role_if_exists, delete_role_binding_if_exists, create_pvc, create_config_map,
  create_secret, create_service_account, create_role, create_role_binding,
}
use infrakube_multicluster.Creation.Run.{
  env_source, labels_to_omit, create_env_from_source, create_env_from_sources, create_objects,
}
use infrakube_multicluster.Creation.Store.{View, place, IsStore}
use infrakube_multicluster.Creation.Does.{After, Does, Does-then, Does-pure, Does-if, Does-eq}
use infrakube_multicluster.Creation.Replaced.{
  place_missing, replace-Does, recreate-Does, keep-Does, apply-Does, claim-Does,
}

-- The objects put in their places, the first of the list first.
abbrev pub place_all : List Object → View → View
place_all [] v = v
place_all (o ∷ objects) v = place_all objects (place o v)

abbrev pub one_if : Bool → Object → List Object
one_if b o = if b then o ∷ [] else []

-- The controller's own variables, where there are any.
abbrev pub env_objects : Config → Terraform → List Object
env_objects config tf =
    one_if (ltb 0 (length config.global_env_from_configmap_data))
      (env_source config tf (config_map config.global_env_from_configmap_data))
    ++ one_if (ltb 0 (length config.global_env_from_secret_data))
        (env_source config tf (secret config.global_env_from_secret_data))

-- The objects of the task's generation.
abbrev pub task_objects : Terraform → TaskOptions → List Object
task_objects tf r =
    secret_object r.versioned_name r.namespace r.secret_data [] r
    ∷ generate_config_map r
    ∷ generate_role_binding r
    ∷ generate_role r
    ∷ one_if (tf.spec.service_account == "") (generate_service_account r)

abbrev pub outputs_secret : Config → TaskOptions → Object
outputs_secret config r =
    secret_object r.outputs_secret_name r.namespace [] (labels_to_omit config r) r

-- The abstract change of a new generation.
abbrev pub desired : Config → Terraform → TaskOptions → View → View
desired config tf r v =
    place_missing (outputs_secret config r)
      (place_all (task_objects tf r) (place_all (env_objects config tf) v))

place-one_if :
    (b : Bool) (o : Object) (v : View)
    → (if b then place o else (λ (u : View). u)) v ≡ place_all (one_if b o) v
place-one_if true o v = refl
place-one_if false o v = refl

place_all-append :
    (xs ys : List Object) (v : View) → place_all ys (place_all xs v) ≡ place_all (xs ++ ys) v
place_all-append [] ys v = refl
place_all-append (x ∷ xs) ys v = place_all-append xs ys (place x v)

pub After-returned :
    {V : Type 0} (res : Go (Option Error)) (f : V → V) (v v' : V)
    → res ≡ returns none
    → After res f v v'
    → v' ≡ f v
After-returned (returns none) f v v' e h = h
After-returned (returns (some x)) f v v' e h = ground arith
After-returned panics f v v' e h = ground arith

module _ {W : Type 0} (c : Cluster W) (view : W → View) (pods : W → List Pod)
    (store : IsStore c view pods) where
  pub optional-Does :
      (b : Bool) (o : Object) (m : Exec W (Option Error))
      → Does view (place o) m
      → Does view (place_all (one_if b o)) (if b then m else pure none)
  optional-Does b o m h =
      Does-eq view (if b then place o else (λ (u : View). u)) _ _ (place-one_if b o)
        (Does-if view b (place o) (λ (u : View). u) m (pure none) h (Does-pure view))

  source-Does :
      (tf : Terraform) (contents : Dict String) (o : Object)
      → Does view
          (place_all (one_if (ltb 0 (length contents)) o))
          (create_env_from_source c tf contents o)
  unfolding create_env_from_source
  source-Does tf contents o =
      optional-Does (ltb 0 (length contents)) o _ (apply-Does c view pods store tf o)

  pub sources-Does :
      (config : Config) (tf : Terraform)
      → Does view (place_all (env_objects config tf)) (create_env_from_sources c config tf)
  unfolding create_env_from_sources
  sources-Does config tf =
      let cm = env_source config tf (config_map config.global_env_from_configmap_data) in
      let sec = env_source config tf (secret config.global_env_from_secret_data) in
      Does-eq view _ _ _
        (place_all-append (one_if (ltb 0 (length config.global_env_from_configmap_data)) cm)
          (one_if (ltb 0 (length config.global_env_from_secret_data)) sec))
        (Does-then view _ _ _ _ (source-Does tf config.global_env_from_configmap_data cm)
          (source-Does tf config.global_env_from_secret_data sec))

  -- The creations, one after the other.
  pub create_objects-Does :
      (config : Config) (tf : Terraform) (r : TaskOptions)
      → Does view (desired config tf r) (create_objects c config tf r)
  unfolding create_objects create_pvc create_config_map create_secret create_service_account
      create_role create_role_binding delete_config_map_if_exists delete_secret_if_exists
      delete_service_account_if_exists delete_role_if_exists delete_role_binding_if_exists
      check_persistent_volume_claim_exists check_config_map_exists check_secret_exists
      check_service_account_exists check_role_exists check_role_binding_exists generate_secret
      generate_config_map generate_role generate_role_binding generate_service_account
  create_objects-Does config tf r = Does-then view _ _ _ _ (sources-Does config tf) (
      Does-then view _ _ _ _ (claim-Does c view pods store tf _ _) (
        Does-then view _ _ _ _
          (recreate-Does c view pods store tf
            (secret_object r.versioned_name r.namespace r.secret_data [] r))
          (Does-then view _ _ _ _
            (replace-Does c view pods store "ConfigMap" tf (generate_config_map r))
            (Does-then view _ _ _ _
              (replace-Does c view pods store "RoleBinding" tf (generate_role_binding r))
              (Does-then view _ _ _ _ (replace-Does c view pods store "Role" tf (generate_role r)) (
                Does-then view _ _ _ _
                  (optional-Does (tf.spec.service_account == "") (generate_service_account r) _ (
                    replace-Does c view pods store "ServiceAccount" tf
                      (generate_service_account r)))
                  (keep-Does c view pods store tf (outputs_secret config r))))))))
