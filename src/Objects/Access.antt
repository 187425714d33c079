-- ===== src/Objects/Access.antt =====
-- pkg/controllers/tf_controller.go: the config map, the service account, the role with its binding,
-- the volume claim and the secrets of a task.
use Prim.Native.Char.{Char}
use Prim.Native.String.{char_at}
use infrakube_multicluster.Prelude.{
  String, Bool, true, false, ◌&&◌, Option, none, some, List, [], ◌∷◌, ◌++◌, ◌==◌, Dict, lookup,
  insert, insert_all, contains, split, if◌then◌else◌,
}
use infrakube_multicluster.Kube.{PolicyRule}
use infrakube_multicluster.Resource.{Credentials}
use infrakube_multicluster.Options.{TaskOptions}
use infrakube_multicluster.Objects.Types.{
  named_meta, Object, config_map, secret, service_account, role, role_binding, VolumeClaim,
}

unfoldable pub generate_config_map : TaskOptions → Object
generate_config_map r = record {
  meta = named_meta r.versioned_name r.namespace r.resource_labels;
  body = config_map r.main_module_plugin_data;
}

-- The annotations of every entry of the credentials, in their order.
service_account_annotations : Dict String → List Credentials → Dict String
service_account_annotations annotations [] = annotations
service_account_annotations annotations (c ∷ credentials) =
    let given = insert_all annotations c.service_account_annotations in
    service_account_annotations
      (if c.aws_credentials.irsa == ""
        then given
        else insert "eks.amazonaws.com/role-arn" c.aws_credentials.irsa given)
      credentials

unfoldable pub generate_service_account : TaskOptions → Object
unfolding service_account_annotations
generate_service_account r = record {
  meta = record (named_meta r.service_account r.namespace r.resource_labels) {
    annotations = service_account_annotations [] r.credentials;
  };
  body = service_account;
}

abbrev pub newline : Char
newline = char_at "\n" 0

-- The loop over the lines of the backend, which ends at the first that names Kubernetes.
unfoldable pub names_kubernetes : List String → Bool
names_kubernetes [] = false
names_kubernetes (line ∷ lines) =
    let rest = names_kubernetes lines in
    if contains line "backend " && contains line "kubernetes" then true else rest

-- m[key], which is empty for a missing key
abbrev pub value_or_empty : Option String → String
value_or_empty none = ""
value_or_empty (some s) = s

abbrev pub any_verb : (api_group resource : String) → PolicyRule
any_verb api_group resource = record {
  verbs = "*" ∷ [];
  api_groups = api_group ∷ [];
  resources = resource ∷ [];
  resource_names = [];
}

-- The rules for the backend that keeps its state in secrets.
unfoldable pub backend_rules : String → List PolicyRule
unfolding names_kubernetes
backend_rules backend =
    if backend == ""
    then []
    else if names_kubernetes (split backend newline)
    then any_verb "" "secrets" ∷ any_verb "coordination.k8s.io" "leases" ∷ []
    else []

unfoldable pub role_rules : TaskOptions → List PolicyRule
unfolding backend_rules
role_rules r =
    any_verb "" "configmaps"
      ∷ record {
        verbs = "get" ∷ [];
        api_groups = "infrakube.galleybytes.com" ∷ [];
        resources = r.crd_resource ∷ [];
        resource_names = r.resource_name ∷ [];
      }
      ∷ backend_rules (value_or_empty (lookup "backend_override.tf" r.main_module_plugin_data))
    ++ r.policy_rules

unfoldable pub generate_role : TaskOptions → Object
unfolding role_rules
generate_role r = record {
  meta = named_meta r.versioned_name r.namespace r.resource_labels;
  body = role (role_rules r);
}

unfoldable pub generate_role_binding : TaskOptions → Object
generate_role_binding r = record {
  meta = named_meta r.versioned_name r.namespace r.resource_labels;
  body =
      role_binding
        (record { kind = "ServiceAccount"; name = r.service_account; namespace = r.namespace } ∷ [])
        (record {
          kind = "Role";
          name = r.versioned_name;
          api_group = "rbac.authorization.k8s.io";
        });
}

unfoldable pub generate_pvc : TaskOptions → (size : String) → Option String → VolumeClaim
generate_pvc r size storage_class_name = record {
  meta = named_meta r.prefixed_name r.namespace r.resource_labels;
  access_modes = "ReadWriteOnce" ∷ [];
  storage_class_name = storage_class_name;
  storage = size;
}

-- generateSecret reads none of the options.
unfoldable pub generate_secret :
    (name namespace : String) → (contents labels : Dict String) → Object
generate_secret name namespace contents labels = record {
  meta = named_meta name namespace labels;
  body = secret contents;
}
