-- ===== src/Options/Types.antt =====
-- pkg/controllers/tf_controller.go: the types TaskOptions and ParsedAddress. Affinities and
-- tolerations are only handed on: a text stands for each.
use infrakube_multicluster.Prelude.{ℕ, String, Bool, Option, List, [], ◌∷◌, Dict}
use infrakube_multicluster.Task.{TaskName}
use infrakube_multicluster.Kube.{EnvVar, EnvFromSource, PolicyRule, Volume, VolumeMount, Container}
use infrakube_multicluster.Resource.{Credentials}

pub record ParsedAddress : Type 0 where
  pub detected_scheme : String
  pub path : String
  pub use_as_var : Bool
  pub url : String
  pub files : List String
  pub hash : String
  pub url_scheme : String
  pub uri : String
  pub host : String
  pub port : String
  pub user : String
  pub repo : String

-- The fields of TaskOptions; a sidecar is the pod of a plugin, of which the containers and the
-- volumes are read.
pub record Sidecar : Type 0 where
  pub containers : List Container
  pub volumes : List Volume

abbrev names_of : List Container → List String
names_of [] = []
names_of (c ∷ containers) = c.name ∷ names_of containers

abbrev pub container_names : Sidecar → List String
container_names s = names_of s.containers

pub record TaskOptions : Type 0 where
  pub annotations : Dict String
  pub config_map_source_name : String
  pub config_map_source_key : String
  pub credentials : List Credentials
  pub env : List EnvVar
  pub env_from : List EnvFromSource
  pub generation : ℕ
  pub image : String
  pub image_pull_policy : String
  pub inherited_affinity : Option String
  pub inherited_node_selector : Dict String
  pub inherited_tolerations : List String
  pub inline_task_execution_file : String
  pub labels : Dict String
  pub main_module_plugin_data : Dict String
  pub namespace : String
  pub outputs_secret_name : String
  pub outputs_to_include : List String
  pub outputs_to_omit : List String
  pub policy_rules : List PolicyRule
  pub prefixed_name : String
  pub resource_labels : Dict String
  pub resource_name : String
  pub resource_uuid : String
  pub task : TaskName
  pub save_outputs : Bool
  pub secret_data : Dict String
  pub service_account : String
  pub cleanup_disk : Bool
  pub strip_generation_label_on_outputs_secret : Bool
  pub tf_module_parsed : ParsedAddress
  pub tf_version : String
  pub cache_url : String
  pub auto_download : Bool
  pub tf_download_base_url : String
  pub url_source : String
  pub versioned_name : String
  pub require_approval : Bool
  pub require_approval_image : String
  pub restart_policy : String
  pub volumes : List Volume
  pub volume_mounts : List VolumeMount
  pub sidecar_plugins : List Sidecar
  pub crd_resource : String
  pub version_env_var : String
  pub download_url_env_var : String
