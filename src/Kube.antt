-- ===== src/Kube.antt =====
-- The Kubernetes objects that the controllers read and write, with the fields that they name. A
-- field that the code only copies from the resource to an object is kept as a whole.
use infrakube_multicluster.Prelude.{ℕ, String, Bool, Option, List, Dict}

pub record EnvVar : Type 0 where
  pub name : String
  pub value : String
  -- ValueFrom.FieldRef.FieldPath
  pub field_path : Option String

pub data EnvFromSource : Type 0 where
  config_map_ref secret_ref : String → EnvFromSource

pub record PolicyRule : Type 0 where
  pub verbs : List String
  pub api_groups : List String
  pub resources : List String
  pub resource_names : List String

pub record KeyToPath : Type 0 where
  pub key : String
  pub path : String
  pub mode : ℕ

pub data VolumeSource : Type 0 where
  pvc_claim : String → VolumeSource
  config_map_volume : String → VolumeSource
  secret_volume :
      (secret_name : String) (default_mode : Option ℕ) (items : List KeyToPath) (optional : Bool)
      → VolumeSource
  -- any other source, under a text that stands for it
  other_volume : String → VolumeSource

pub record Volume : Type 0 where
  pub name : String
  pub source : VolumeSource

pub record VolumeMount : Type 0 where
  pub name : String
  pub mount_path : String

-- A container, without the security context, which is the same for every task.
pub record Container : Type 0 where
  pub name : String
  pub image : String
  pub image_pull_policy : String
  pub env_from : List EnvFromSource
  pub env : List EnvVar
  pub volume_mounts : List VolumeMount

pub record NamespacedName : Type 0 where
  pub namespace : String
  pub name : String

-- What an error of the API server tells the code: whether `errors.IsNotFound` or
-- `errors.IsAlreadyExists` holds of it.
pub data ApiError : Type 0 where
  not_found already_exists other_error : ApiError

pub record Secret : Type 0 where
  pub name : String
  pub namespace : String
  pub labels : Dict String
  pub finalizers : List String
  pub contents : Dict String

-- A pod of the list that the reconciler asks for: its creation time is `none` where it is zero.
pub record PodStatus : Type 0 where
  pub name : String
  pub uid : String
  pub phase : String
  pub creation_timestamp : Option ℕ

abbrev pub pod_failed : String
pod_failed = "Failed"

abbrev pub pod_succeeded : String
pod_succeeded = "Succeeded"

abbrev pub pod_running : String
pod_running = "Running"
