-- ===== src/Creation/Kinds.antt =====
-- pkg/controllers/tf_controller.go: the functions that look for, delete and create the objects of each
-- kind.
use infrakube_multicluster.Prelude.{
  String, Bool, Option, none, some, List, [], ◌∷◌, ◌⧺◌, Dict, insert_all, delete, if◌then◌else◌,
}
use infrakube_multicluster.Exec.{Exec, pure, lift, call, asks, perform, ◌>>=◌}
use infrakube_multicluster.Kube.{NamespacedName, ApiError, not_found, already_exists, other_error}
use infrakube_multicluster.Resource.{Terraform}
use infrakube_multicluster.Options.{TaskOptions}
use infrakube_multicluster.Controller.Api.{Answer, found, failed, Error, api, message}
use infrakube_multicluster.Objects.{
  Kind, config_map_kind, secret_kind, service_account_kind, role_kind, role_binding_kind, Object,
  VolumeClaim,
}
use infrakube_multicluster.Objects.Pods.{Generated, generated, refused, generate_pod, generate_job}
use infrakube_multicluster.Objects.Access.{
  generate_config_map, generate_service_account, generate_role, generate_role_binding, generate_pvc,
  generate_secret,
}
use infrakube_multicluster.Creation.Cluster.{Cluster, wrapped, ◌>>?◌}

-- What the check functions return: the object, that there is none, or an error.
pub data Found (A : Type 0) : Type 0 where
  existing : A → Found A
  missing : Found A
  lookup_failed : ApiError → Found A

abbrev pub found_of : {A : Type 0} → Answer A → Found A
found_of (found a) = existing a
found_of (failed not_found) = missing
found_of (failed already_exists) = lookup_failed already_exists
found_of (failed other_error) = lookup_failed other_error

abbrev pub key_of : (name namespace : String) → NamespacedName
key_of name namespace = record { namespace = namespace; name = name }

abbrev delete_all : Dict String → List String → Dict String
delete_all labels [] = labels
delete_all labels (key ∷ keys) = delete_all (delete key labels) keys

-- The labels are a copy, since the options share theirs.
abbrev pub secret_object :
    (name namespace : String) (contents : Dict String) (labels_to_omit : List String)
    → TaskOptions
    → Object
secret_object name namespace contents labels_to_omit r =
    generate_secret name namespace contents
      (delete_all (insert_all [] r.resource_labels) labels_to_omit)

module _ {W : Type 0} (c : Cluster W) where
  unfoldable pub check_persistent_volume_claim_exists : NamespacedName → Exec W (Found VolumeClaim)
  check_persistent_volume_claim_exists key = asks (λ w. found_of (c.get_claim key w))

  unfoldable pub check_config_map_exists : NamespacedName → Exec W (Found Object)
  check_config_map_exists key = asks (λ w. found_of (c.get_object config_map_kind key w))

  unfoldable pub check_secret_exists : NamespacedName → Exec W (Found Object)
  check_secret_exists key = asks (λ w. found_of (c.get_object secret_kind key w))

  unfoldable pub check_service_account_exists : NamespacedName → Exec W (Found Object)
  check_service_account_exists key = asks (λ w. found_of (c.get_object service_account_kind key w))

  unfoldable pub check_role_exists : NamespacedName → Exec W (Found Object)
  check_role_exists key = asks (λ w. found_of (c.get_object role_kind key w))

  unfoldable pub check_role_binding_exists : NamespacedName → Exec W (Found Object)
  check_role_binding_exists key = asks (λ w. found_of (c.get_object role_binding_kind key w))

  -- What the delete functions do with the result of the check.
  abbrev pub delete_found : Kind → NamespacedName → Found Object → Exec W (Option Error)
  delete_found kind key (existing o) =
      call (c.delete_object kind key) >>= λ result. pure (wrapped result)
  delete_found kind key missing = pure none
  delete_found kind key (lookup_failed e) = pure (some (api e))

  unfoldable pub delete_config_map_if_exists : (name namespace : String) → Exec W (Option Error)
  delete_config_map_if_exists name namespace =
      check_config_map_exists (key_of name namespace)
      >>= delete_found config_map_kind (key_of name namespace)

  unfoldable pub delete_secret_if_exists : (name namespace : String) → Exec W (Option Error)
  delete_secret_if_exists name namespace =
      check_secret_exists (key_of name namespace)
      >>= delete_found secret_kind (key_of name namespace)

  unfoldable pub delete_service_account_if_exists :
      (name namespace : String) → Exec W (Option Error)
  delete_service_account_if_exists name namespace =
      check_service_account_exists (key_of name namespace)
      >>= delete_found service_account_kind (key_of name namespace)

  unfoldable pub delete_role_if_exists : (name namespace : String) → Exec W (Option Error)
  delete_role_if_exists name namespace =
      check_role_exists (key_of name namespace) >>= delete_found role_kind (key_of name namespace)

  unfoldable pub delete_role_binding_if_exists : (name namespace : String) → Exec W (Option Error)
  delete_role_binding_if_exists name namespace =
      check_role_binding_exists (key_of name namespace)
      >>= delete_found role_binding_kind (key_of name namespace)

  -- The event of a creation, and the error.
  abbrev pub report_creation : String → Option ApiError → Exec W (Option Error)
  report_creation kind none =
      perform (c.record_event "Normal" "SuccessfulCreate") >>= λ _. pure none
  report_creation kind (some e) =
      perform (c.record_event "Warning" (kind ⧺ "CreateError")) >>= λ _. pure (some (api e))

  -- A lookup that fails ends the creation without an error.
  abbrev pub create_unless_found :
      Terraform → VolumeClaim → Found VolumeClaim → Exec W (Option Error)
  create_unless_found tf claim (lookup_failed e) = pure none
  create_unless_found tf claim (existing o) = pure none
  create_unless_found tf claim missing =
      call (c.create_claim tf claim) >>= report_creation "PersistentVolumeClaim"

  abbrev pub size_of : Option String → String
  size_of none = "2Gi"
  size_of (some size) = size

  unfoldable pub create_pvc : Terraform → TaskOptions → Exec W (Option Error)
  create_pvc tf r =
      check_persistent_volume_claim_exists (key_of r.prefixed_name r.namespace)
      >>= create_unless_found tf
          (generate_pvc r (size_of tf.spec.persistent_volume_size) tf.spec.storage_class_name)

  unfoldable pub create_config_map : Terraform → TaskOptions → Exec W (Option Error)
  create_config_map tf r =
      let o = generate_config_map r in
      delete_config_map_if_exists o.meta.name o.meta.namespace
      >>? (call (c.create_object tf o) >>= report_creation "ConfigMap")

  -- Where an object of that name may stay, one that exists is no error.
  abbrev pub report_secret : (recreate : Bool) → Option ApiError → Exec W (Option Error)
  report_secret recreate none = report_creation "Secret" none
  report_secret recreate (some already_exists) =
      if recreate then report_creation "Secret" (some already_exists) else pure none
  report_secret recreate (some not_found) = report_creation "Secret" (some not_found)
  report_secret recreate (some other_error) = report_creation "Secret" (some other_error)

  unfoldable pub create_secret :
      Terraform
      → (name namespace : String) (contents : Dict String) (recreate : Bool)
      → (labels_to_omit : List String) → TaskOptions
      → Exec W (Option Error)
  create_secret tf name namespace contents recreate labels_to_omit r =
      let o = secret_object name namespace contents labels_to_omit r in
      (if recreate then delete_secret_if_exists o.meta.name o.meta.namespace else pure none)
      >>? (call (c.create_object tf o) >>= report_secret recreate)

  unfoldable pub create_service_account : Terraform → TaskOptions → Exec W (Option Error)
  create_service_account tf r =
      let o = generate_service_account r in
      delete_service_account_if_exists o.meta.name o.meta.namespace
      >>? (call (c.create_object tf o) >>= report_creation "ServiceAccount")

  unfoldable pub create_role : Terraform → TaskOptions → Exec W (Option Error)
  create_role tf r =
      let o = generate_role r in
      delete_role_if_exists o.meta.name o.meta.namespace
      >>? (call (c.create_object tf o) >>= report_creation "Role")

  unfoldable pub create_role_binding : Terraform → TaskOptions → Exec W (Option Error)
  create_role_binding tf r =
      let o = generate_role_binding r in
      delete_role_binding_if_exists o.meta.name o.meta.namespace
      >>? (call (c.create_object tf o) >>= report_creation "RoleBinding")

  abbrev pub create_generated : Terraform → Generated → Exec W (Option Error)
  create_generated tf (generated pod) = call (c.create_pod tf pod) >>= report_creation "Pod"
  create_generated tf (refused e) =
      perform (c.record_event "Warning" "PodCreateError") >>= λ _. pure (some (message e))

  unfoldable pub create_pod : Terraform → TaskOptions → Exec W (Option Error)
  create_pod tf r = create_generated tf (generate_pod r)

  unfoldable pub create_job : Terraform → TaskOptions → Exec W (Option Error)
  create_job tf r =
      lift (generate_job r) >>= λ job. call (c.create_job tf job) >>= report_creation "Job"
