-- ===== src/Tofu/Creation.antt =====
-- pkg/controllers/tofu_controller.go: resourceExists, deleteAndCreate, createPVC, createSecret,
-- createPod, createJob and run. The objects have the Tofu resource as their owner.
use infrakube_multicluster.Prelude.{
  String, Bool, true, false, ◌||◌, Option, none, some, List, [], ◌==◌, Dict, if◌then◌else◌,
}
use infrakube_multicluster.Exec.{Exec, pure, lift, call, asks, ◌>>=◌}
use infrakube_multicluster.Kube.{NamespacedName, ApiError, not_found, already_exists, other_error}
use infrakube_multicluster.Options.{TaskOptions}
use infrakube_multicluster.Controller.Api.{Error, api}
use infrakube_multicluster.Controller.Settings.{Config}
use infrakube_multicluster.Objects.{
  Kind, config_map_kind, secret_kind, service_account_kind, role_kind, role_binding_kind, kind_of,
  Object, VolumeClaim,
}
use infrakube_multicluster.Objects.Pods.{generate_pod, generate_job}
use infrakube_multicluster.Objects.Access.{
  generate_config_map, generate_service_account, generate_role, generate_role_binding, generate_pvc,
}
use infrakube_multicluster.Creation.Cluster.{Cluster, ◌>>?◌}
use infrakube_multicluster.Creation.Kinds.{
  Found, existing, missing, lookup_failed, found_of, key_of, secret_object, report_creation,
  report_secret, create_unless_found, create_generated, size_of,
}
use infrakube_multicluster.Creation.Run.{create_env_from_sources, require, labels_to_omit}
use infrakube_multicluster.Tofu.Types.{Tofu, shared}

-- A deletion that finds nothing is no error here.
abbrev pub tolerated : Option ApiError → Option Error
tolerated none = none
tolerated (some not_found) = none
tolerated (some already_exists) = some (api already_exists)
tolerated (some other_error) = some (api other_error)

module _ {W : Type 0} (c : Cluster W) where
  unfoldable pub resource_exists : Kind → NamespacedName → Exec W (Found Object)
  resource_exists kind key = asks (λ w. found_of (c.get_object kind key w))

  -- resourceExists at a volume claim.
  unfoldable pub claim_exists : NamespacedName → Exec W (Found VolumeClaim)
  claim_exists key = asks (λ w. found_of (c.get_claim key w))

  abbrev pub delete_existing : Kind → NamespacedName → Found Object → Exec W (Option Error)
  delete_existing kind key (existing o) =
      call (c.delete_object kind key) >>= λ result. pure (tolerated result)
  delete_existing kind key missing = pure none
  delete_existing kind key (lookup_failed e) = pure (some (api e))

  -- What stands under the name of an object is deleted.
  unfoldable pub delete_previous : Object → Exec W (Option Error)
  delete_previous o =
      let key = key_of o.meta.name o.meta.namespace in
      asks (λ w. found_of (c.get_object (kind_of o.body) key w))
      >>= delete_existing (kind_of o.body) key

  unfoldable pub delete_and_create : Tofu → String → Object → Exec W (Option Error)
  delete_and_create tofu kind o =
      delete_previous o >>? (call (c.create_object (shared tofu) o) >>= report_creation c kind)

  unfoldable pub create_tofu_pvc : Tofu → TaskOptions → Exec W (Option Error)
  create_tofu_pvc tofu r =
      claim_exists (key_of r.prefixed_name r.namespace)
      >>= create_unless_found c (shared tofu)
          (generate_pvc r (size_of c tofu.spec.persistent_volume_size) tofu.spec.storage_class_name)

  unfoldable pub create_tofu_secret :
      Tofu
      → (name namespace : String) (contents : Dict String) (recreate : Bool)
      → (labels_to_omit : List String) → TaskOptions
      → Exec W (Option Error)
  create_tofu_secret tofu name namespace contents recreate omitted r =
      let o = secret_object name namespace contents omitted r in
      (if recreate then delete_previous o else pure none)
      >>? (call (c.create_object (shared tofu) o) >>= report_secret c recreate)

  unfoldable pub create_tofu_pod : Tofu → TaskOptions → Exec W (Option Error)
  create_tofu_pod tofu r = create_generated c (shared tofu) (generate_pod r)

  unfoldable pub create_tofu_job : Tofu → TaskOptions → Exec W (Option Error)
  create_tofu_job tofu r = lift (generate_job r) >>= λ job.
      call (c.create_job (shared tofu) job) >>= report_creation c "Job"

  unfoldable pub create_tofu_objects : Config → Tofu → TaskOptions → Exec W (Option Error)
  create_tofu_objects config tofu r =
      create_env_from_sources c config (shared tofu)
      >>? create_tofu_pvc tofu r
      >>? create_tofu_secret tofu r.versioned_name r.namespace r.secret_data true [] r
      >>? delete_and_create tofu "ConfigMap" (generate_config_map r)
      >>? delete_and_create tofu "RoleBinding" (generate_role_binding r)
      >>? delete_and_create tofu "Role" (generate_role r)
      >>? (if tofu.spec.service_account == ""
          then delete_and_create tofu "ServiceAccount" (generate_service_account r)
          else pure none)
      >>? create_tofu_secret tofu r.outputs_secret_name r.namespace [] false
          (labels_to_omit config r) r

  unfoldable pub check_tofu_objects : TaskOptions → Exec W (Option Error)
  check_tofu_objects r =
      let key = key_of r.prefixed_name r.namespace in
      let versioned_key = key_of r.versioned_name r.namespace in
      let service_account_key = key_of r.service_account r.namespace in
      (claim_exists key >>= require c "PersistentVolumeClaim" key)
      >>? (resource_exists config_map_kind versioned_key >>= require c "ConfigMap" versioned_key)
      >>? (resource_exists secret_kind versioned_key >>= require c "Secret" versioned_key)
      >>? (resource_exists role_binding_kind versioned_key
          >>= require c "RoleBinding" versioned_key)
      >>? (resource_exists role_kind versioned_key >>= require c "Role" versioned_key)
      >>? (resource_exists service_account_kind service_account_key
          >>= require c "ServiceAccount" service_account_key)

  unfoldable pub run_tofu :
      Config
      → Tofu
      → TaskOptions
      → (is_new_generation is_first_install : Bool) → Exec W (Option Error)
  run_tofu config tofu r is_new_generation is_first_install =
      (if is_first_install || is_new_generation
        then create_tofu_objects config tofu r
        else check_tofu_objects r)
      >>? create_tofu_pod tofu r
