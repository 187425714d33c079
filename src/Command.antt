-- ===== src/Command.antt =====
-- cmd/manager/main.go, StartInfrakube: the environment that tasks are given, and the reconcilers that
-- are made from the flags.
use infrakube_multicluster.Prelude.{
  String, Bool, List, [], ◌∷◌, ◌==◌, Dict, insert, split, has_prefix, trim_prefix, if◌then◌else◌,
}
use infrakube_multicluster.Options.{default_image, terraform_names}
use infrakube_multicluster.Controller.Settings.{Config}
use infrakube_multicluster.Tofu.Controller.{tofu_names}

-- The data of the config map and of the secret.
pub record GlobalEnv : Type 0 where
  pub configmap_data : Dict String
  pub secret_data : Dict String

abbrev key_in : List String → String
key_in [] = ""
key_in (key ∷ rest) = key

-- A variable goes under the rest of its name, where it has the prefix.
abbrev pub add_prefixed :
    (prefix key : String) → (getenv : String → String) → Dict String → Dict String
add_prefixed prefix key getenv data' =
    if has_prefix key prefix then insert (trim_prefix key prefix) (getenv key) data' else data'

-- The loop over os.Environ.
unfoldable pub global_env :
    (getenv : String → String) → (environ : List String) → GlobalEnv → GlobalEnv
global_env getenv [] data' = data'
global_env getenv (env ∷ environ) data' =
    let key = key_in (split env "=") in
    global_env getenv environ (record {
      configmap_data = add_prefixed "INFRAKUBE_VAR_" key getenv data'.configmap_data;
      secret_data = add_prefixed "INFRAKUBE_SECRET_" key getenv data'.secret_data;
    })

-- The flags that the reconcilers are given.
pub record Flags : Type 0 where
  pub inherit_node_selector : Bool
  pub inherit_affinity : Bool
  pub inherit_tolerations : Bool
  pub require_approval_image : String
  pub cache_url : String
  pub auto_download : Bool
  pub tf_download_base_url : String
  pub tofu_download_base_url : String
  pub task_image : String

-- The default of the flag of the task image.
abbrev pub task_image_default : (getenv : String → String) → String
task_image_default getenv =
    if getenv "INFRAKUBE_TASK_IMAGE" == "" then default_image else getenv "INFRAKUBE_TASK_IMAGE"

-- The settings of ReconcileTf.
unfoldable pub terraform_reconciler : (md5_hex : String → String) → Flags → GlobalEnv → Config
terraform_reconciler md5_hex flags env = record {
  global_env_from_configmap_data = env.configmap_data;
  global_env_from_secret_data = env.secret_data;
  global_env_suffix = "global-envs";
  inherit_affinity = flags.inherit_affinity;
  affinity_cache_key = "inherited_affinity";
  inherit_node_selector = flags.inherit_node_selector;
  node_selector_cache_key = "inherited_nodeselector";
  inherit_tolerations = flags.inherit_tolerations;
  tolerations_cache_key = "inherited_tolerations";
  settings = record {
    names = terraform_names;
    require_approval_image = flags.require_approval_image;
    cache_url = flags.cache_url;
    auto_download = flags.auto_download;
    tf_download_base_url = flags.tf_download_base_url;
    task_image = flags.task_image;
  };
  md5_hex = md5_hex;
}

-- The settings of ReconcileTofu.
unfoldable pub tofu_reconciler : (md5_hex : String → String) → Flags → GlobalEnv → Config
tofu_reconciler md5_hex flags env = record {
  global_env_from_configmap_data = env.configmap_data;
  global_env_from_secret_data = env.secret_data;
  global_env_suffix = "global-envs";
  inherit_affinity = flags.inherit_affinity;
  affinity_cache_key = "inherited_affinity";
  inherit_node_selector = flags.inherit_node_selector;
  node_selector_cache_key = "inherited_nodeselector";
  inherit_tolerations = flags.inherit_tolerations;
  tolerations_cache_key = "inherited_tolerations";
  settings = record {
    names = tofu_names;
    require_approval_image = flags.require_approval_image;
    cache_url = flags.cache_url;
    auto_download = flags.auto_download;
    tf_download_base_url = flags.tofu_download_base_url;
    task_image = flags.task_image;
  };
  md5_hex = md5_hex;
}
