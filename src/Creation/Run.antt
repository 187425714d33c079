-- ===== src/Creation/Run.antt =====
-- pkg/controllers/tf_controller.go, createEnvFromSources and run: the objects in the order of their
-- creation, and the pod after them.
use infrakube_multicluster.Prelude.{
  List, String, Bool, true, false, ◌||◌, Option, none, some, [], ◌∷◌, ◌==◌, ◌⧺◌, Dict, ltb, length,
  if◌then◌else◌,
}
use infrakube_multicluster.Exec.{Exec, pure, call, ◌>>=◌}
use infrakube_multicluster.Kube.{NamespacedName, ApiError, not_found, already_exists, other_error}
use infrakube_multicluster.Resource.{Terraform}
use infrakube_multicluster.Options.{TaskOptions}
use infrakube_multicluster.Controller.Api.{Error, api, message}
use infrakube_multicluster.Controller.Settings.{Config}
use infrakube_multicluster.Objects.{Object, Body, config_map, secret, named_meta}
use infrakube_multicluster.Creation.Cluster.{Cluster, wrapped, ◌>>?◌}
use infrakube_multicluster.Creation.Kinds.{
  Found, existing, missing, lookup_failed, key_of, check_persistent_volume_claim_exists,
  check_config_map_exists, check_secret_exists, check_service_account_exists, check_role_exists,
  check_role_binding_exists, create_pvc, create_config_map, create_secret, create_service_account,
  create_role, create_role_binding, create_pod,
}

-- `types.NamespacedName.String`
abbrev shown : NamespacedName → String
shown key = key.namespace ⧺ "/" ⧺ key.name

-- An object of the controller's own variables, named after the resource.
abbrev pub env_source : Config → Terraform → Body → Object
env_source config tf body = record {
  meta = named_meta (tf.name ⧺ "-" ⧺ config.global_env_suffix) tf.namespace [];
  body = body;
}

abbrev pub labels_to_omit : Config → TaskOptions → List String
labels_to_omit config r =
    if r.strip_generation_label_on_outputs_secret
    then (config.settings.names.label_prefix ⧺ "generation") ∷ []
    else []

module _ {W : Type 0} (c : Cluster W) where
  -- What follows the creation: an object that exists is updated.
  abbrev pub update_existing : Terraform → Object → Option ApiError → Exec W (Option Error)
  update_existing tf o none = pure none
  update_existing tf o (some already_exists) =
      call (c.update_object tf o) >>= λ result. pure (wrapped result)
  update_existing tf o (some not_found) = pure (some (api not_found))
  update_existing tf o (some other_error) = pure (some (api other_error))

  -- One of the two sources, where the controller was given variables for it.
  unfoldable pub create_env_from_source : Terraform → Dict String → Object → Exec W (Option Error)
  create_env_from_source tf contents o =
      if ltb 0 (length contents)
      then (call (c.create_object tf o) >>= update_existing tf o)
      else pure none

  unfoldable pub create_env_from_sources : Config → Terraform → Exec W (Option Error)
  create_env_from_sources config tf =
      create_env_from_source tf config.global_env_from_configmap_data
        (env_source config tf (config_map config.global_env_from_configmap_data))
      >>? create_env_from_source tf config.global_env_from_secret_data
          (env_source config tf (secret config.global_env_from_secret_data))

  -- An object that has to be there.
  abbrev pub require : {A : Type 0} → String → NamespacedName → Found A → Exec W (Option Error)
  require kind key (existing o) = pure none
  require kind key missing =
      pure (some (message ("could not find " ⧺ kind ⧺ " '" ⧺ shown key ⧺ "'")))
  require kind key (lookup_failed e) = pure (some (api e))

  -- The branch of a new generation.
  unfoldable pub create_objects : Config → Terraform → TaskOptions → Exec W (Option Error)
  create_objects config tf r =
      create_env_from_sources config tf
      >>? create_pvc c tf r
      >>? create_secret c tf r.versioned_name r.namespace r.secret_data true [] r
      >>? create_config_map c tf r
      >>? create_role_binding c tf r
      >>? create_role c tf r
      >>? (if tf.spec.service_account == "" then create_service_account c tf r else pure none)
      >>? create_secret c tf r.outputs_secret_name r.namespace [] false (labels_to_omit config r) r

  -- The other branch.
  unfoldable pub check_objects : TaskOptions → Exec W (Option Error)
  check_objects r =
      let key = key_of r.prefixed_name r.namespace in
      let versioned_key = key_of r.versioned_name r.namespace in
      let service_account_key = key_of r.service_account r.namespace in
      (check_persistent_volume_claim_exists c key >>= require "PersistentVolumeClaim" key)
      >>? (check_config_map_exists c versioned_key >>= require "ConfigMap" versioned_key)
      >>? (check_secret_exists c versioned_key >>= require "Secret" versioned_key)
      >>? (check_role_binding_exists c versioned_key >>= require "RoleBinding" versioned_key)
      >>? (check_role_exists c versioned_key >>= require "Role" versioned_key)
      >>? (check_service_account_exists c service_account_key
          >>= require "ServiceAccount" service_account_key)

  unfoldable pub run :
      Config
      → Terraform
      → TaskOptions
      → (is_new_generation is_first_install : Bool) → Exec W (Option Error)
  run config tf r is_new_generation is_first_install =
      (if is_first_install || is_new_generation
        then create_objects config tf r
        else check_objects r)
      >>? create_pod c tf r
