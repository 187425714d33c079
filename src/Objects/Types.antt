-- ===== src/Objects/Types.antt =====
-- The objects that pkg/controllers/tf_controller.go generates, with the fields that it sets.
use infrakube_multicluster.Prelude.{ℕ, String, Option, List, [], Dict}
use infrakube_multicluster.Kube.{PolicyRule, Volume, Container}

pub record ObjectMeta : Type 0 where
  pub name : String
  pub generate_name : String
  pub namespace : String
  pub labels : Dict String
  pub annotations : Dict String

pub record PodSpec : Type 0 where
  pub affinity : Option String
  pub node_selector : Dict String
  pub tolerations : List String
  pub fs_group : ℕ
  pub service_account_name : String
  pub restart_policy : String
  pub containers : List Container
  pub volumes : List Volume

pub record Pod : Type 0 where
  pub meta : ObjectMeta
  pub spec : PodSpec

pub record Job : Type 0 where
  pub meta : ObjectMeta
  pub backoff_limit : ℕ
  pub template : PodSpec

pub record RoleRef : Type 0 where
  pub kind : String
  pub name : String
  pub api_group : String

pub record Subject : Type 0 where
  pub kind : String
  pub name : String
  pub namespace : String

pub record VolumeClaim : Type 0 where
  pub meta : ObjectMeta
  pub access_modes : List String
  pub storage_class_name : Option String
  pub storage : String

-- The kinds that are read, created and deleted by their names.
pub data Kind : Type 0 where
  config_map_kind secret_kind service_account_kind role_kind role_binding_kind : Kind

-- What an object of one of these kinds holds.
pub data Body : Type 0 where
  config_map secret : Dict String → Body
  service_account : Body
  role : List PolicyRule → Body
  role_binding : List Subject → RoleRef → Body

pub record Object : Type 0 where
  pub meta : ObjectMeta
  pub body : Body

abbrev pub kind_of : Body → Kind
kind_of (config_map data') = config_map_kind
kind_of (secret data') = secret_kind
kind_of service_account = service_account_kind
kind_of (role rules) = role_kind
kind_of (role_binding subjects ref) = role_binding_kind

-- An ObjectMeta with a name, a namespace and labels.
abbrev pub named_meta : (name namespace : String) → Dict String → ObjectMeta
named_meta name namespace labels = record {
  name = name;
  generate_name = "";
  namespace = namespace;
  labels = labels;
  annotations = [];
}
