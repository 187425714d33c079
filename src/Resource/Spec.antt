-- ===== src/Resource/Spec.antt =====
-- pkg/apis/infrakube/v1/tf_types.go: TerraformSpec and the types of its fields.
use infrakube_multicluster.Prelude.{String, Bool, Option, List, Dict}
use infrakube_multicluster.Task.{TaskName}
use infrakube_multicluster.Kube.{EnvVar, EnvFromSource, PolicyRule, Volume, VolumeMount}

pub record ConfigMapSelector : Type 0 where
  pub name : String
  pub key : String

pub record ImageConfig : Type 0 where
  pub image : String
  pub image_pull_policy : String

pub record Images : Type 0 where
  pub terraform : Option ImageConfig
  pub script : Option ImageConfig
  pub setup : Option ImageConfig

pub record ResourceDownload : Type 0 where
  pub address : String
  pub path : String
  pub use_as_var : Bool

pub record Setup : Type 0 where
  pub resource_downloads : List ResourceDownload
  pub cleanup_disk : Bool

pub record Module : Type 0 where
  pub source : String
  pub version : String
  pub config_map_selector : Option ConfigMapSelector
  pub config_map_seclector_x : Option ConfigMapSelector
  pub inline : String

pub record Plugin : Type 0 where
  pub image_config : ImageConfig
  pub when : String
  pub task : TaskName
  pub must : Bool

pub record StageScript : Type 0 where
  pub source : String
  pub config_map_selector : Option ConfigMapSelector
  pub inline : String

pub record TaskOption : Type 0 where
  pub for : List TaskName
  pub policy_rules : List PolicyRule
  pub labels : Dict String
  pub annotations : Dict String
  pub env_from : List EnvFromSource
  pub env : List EnvVar
  pub script : StageScript
  pub restart_policy : String
  pub volumes : List Volume
  pub volume_mounts : List VolumeMount

pub record SshKeySecretRef : Type 0 where
  pub name : String
  pub namespace : String
  pub key : String
  pub lock_secret_deletion : Bool

pub record TokenSecretRef : Type 0 where
  pub name : String
  pub namespace : String
  pub key : String
  pub lock_secret_deletion : Bool

-- The reference is a pointer that the schema requires.
pub record GitSsh : Type 0 where
  pub require_proxy : Bool
  pub ssh_key_secret_ref : Option SshKeySecretRef

pub record GitHttps : Type 0 where
  pub require_proxy : Bool
  pub token_secret_ref : Option TokenSecretRef

pub record GitScm : Type 0 where
  pub ssh : Option GitSsh
  pub https : Option GitHttps

pub record ScmAuthMethod : Type 0 where
  pub host : String
  pub git : Option GitScm

pub record ProxyOpts : Type 0 where
  pub host : String
  pub user : String
  pub ssh_key_secret_ref : SshKeySecretRef

pub record SecretNameRef : Type 0 where
  pub name : String
  pub namespace : String
  pub key : String

pub record AwsCredentials : Type 0 where
  pub irsa : String
  pub kiam : String

pub record Credentials : Type 0 where
  pub secret_name_ref : SecretNameRef
  pub aws_credentials : AwsCredentials
  pub service_account_annotations : Dict String

-- A quantity is kept as its text.
pub record TerraformSpec : Type 0 where
  pub keep_latest_pods_only : Bool
  pub keep_completed_pods : Bool
  pub outputs_secret : String
  pub outputs_to_include : List String
  pub outputs_to_omit : List String
  pub write_outputs_to_status : Bool
  pub persistent_volume_size : Option String
  pub storage_class_name : Option String
  pub service_account : String
  pub credentials : List Credentials
  pub ignore_delete : Bool
  pub ssh_tunnel : Option ProxyOpts
  pub scm_auth_methods : List ScmAuthMethod
  pub images : Option Images
  pub setup : Option Setup
  pub terraform_module : Module
  pub terraform_version : String
  pub backend : String
  pub task_options : List TaskOption
  pub plugins : Dict Plugin
  pub require_approval : Bool
