-- ===== src/Tofu/Types.antt =====
-- pkg/apis/infrakube/v1/tofu_types.go: the Tofu resource, and its fields under the names that the
-- Terraform resource has for them.
use infrakube_multicluster.Prelude.{ℕ, String, Bool, Option, none, some, List, Dict, ◌≡◌, refl, ap}
use infrakube_multicluster.Task.{TaskName}
use infrakube_multicluster.Resource.{
  Terraform, TerraformSpec, Credentials, ProxyOpts, ScmAuthMethod, ImageConfig, Images, Setup,
  Module, TaskOption, Plugin,
}
use infrakube_multicluster.Resource.Status.{TerraformStatus, StatusPhase, Stage}

pub record TofuImages : Type 0 where
  pub tofu : Option ImageConfig
  pub script : Option ImageConfig
  pub setup : Option ImageConfig

pub record TofuSpec : Type 0 where
  pub keep_latest_pods_only : Bool
  pub keep_completed_pods : Bool
  pub outputs_secret : String
  pub outputs_to_include : List String
  pub outputs_to_omit : List String
  pub write_outputs_to_status : Bool
  pub persistent_volume_size : Option String
  pub storage_class_name : Option String
  pub service_account : String
  pub credentials : List Credentials
  pub ignore_delete : Bool
  pub ssh_tunnel : Option ProxyOpts
  pub scm_auth_methods : List ScmAuthMethod
  pub images : Option TofuImages
  pub setup : Option Setup
  pub tofu_module : Module
  pub tofu_version : String
  pub backend : String
  pub task_options : List TaskOption
  pub plugins : Dict Plugin
  pub require_approval : Bool

pub record TofuStatus : Type 0 where
  pub pod_name_prefix : String
  pub phase : StatusPhase
  pub last_completed_generation : ℕ
  pub outputs : Dict String
  pub stage : Stage
  pub plugins_started : List TaskName
  pub retry_event_reason : Option String
  pub retry_timestamp : Option ℕ

pub record Tofu : Type 0 where
  pub name : String
  pub namespace : String
  pub uid : String
  pub generation : ℕ
  pub deletion_timestamp : Option ℕ
  pub finalizers : List String
  pub labels : Dict String
  pub spec : TofuSpec
  pub status : TofuStatus

abbrev shared_images : Option TofuImages → Option Images
shared_images none = none
shared_images (some images) =
    some (record { terraform = images.tofu; script = images.script; setup = images.setup })

abbrev own_images : Option Images → Option TofuImages
own_images none = none
own_images (some images) =
    some (record { tofu = images.terraform; script = images.script; setup = images.setup })

abbrev shared_spec : TofuSpec → TerraformSpec
shared_spec s = record {
  keep_latest_pods_only = s.keep_latest_pods_only;
  keep_completed_pods = s.keep_completed_pods;
  outputs_secret = s.outputs_secret;
  outputs_to_include = s.outputs_to_include;
  outputs_to_omit = s.outputs_to_omit;
  write_outputs_to_status = s.write_outputs_to_status;
  persistent_volume_size = s.persistent_volume_size;
  storage_class_name = s.storage_class_name;
  service_account = s.service_account;
  credentials = s.credentials;
  ignore_delete = s.ignore_delete;
  ssh_tunnel = s.ssh_tunnel;
  scm_auth_methods = s.scm_auth_methods;
  images = shared_images s.images;
  setup = s.setup;
  terraform_module = s.tofu_module;
  terraform_version = s.tofu_version;
  backend = s.backend;
  task_options = s.task_options;
  plugins = s.plugins;
  require_approval = s.require_approval;
}

abbrev own_spec : TerraformSpec → TofuSpec
own_spec s = record {
  keep_latest_pods_only = s.keep_latest_pods_only;
  keep_completed_pods = s.keep_completed_pods;
  outputs_secret = s.outputs_secret;
  outputs_to_include = s.outputs_to_include;
  outputs_to_omit = s.outputs_to_omit;
  write_outputs_to_status = s.write_outputs_to_status;
  persistent_volume_size = s.persistent_volume_size;
  storage_class_name = s.storage_class_name;
  service_account = s.service_account;
  credentials = s.credentials;
  ignore_delete = s.ignore_delete;
  ssh_tunnel = s.ssh_tunnel;
  scm_auth_methods = s.scm_auth_methods;
  images = own_images s.images;
  setup = s.setup;
  tofu_module = s.terraform_module;
  tofu_version = s.terraform_version;
  backend = s.backend;
  task_options = s.task_options;
  plugins = s.plugins;
  require_approval = s.require_approval;
}

abbrev pub shared_status : TofuStatus → TerraformStatus
shared_status s = record {
  pod_name_prefix = s.pod_name_prefix;
  phase = s.phase;
  last_completed_generation = s.last_completed_generation;
  outputs = s.outputs;
  stage = s.stage;
  plugins_started = s.plugins_started;
  retry_event_reason = s.retry_event_reason;
  retry_timestamp = s.retry_timestamp;
}

abbrev pub own_status : TerraformStatus → TofuStatus
own_status s = record {
  pod_name_prefix = s.pod_name_prefix;
  phase = s.phase;
  last_completed_generation = s.last_completed_generation;
  outputs = s.outputs;
  stage = s.stage;
  plugins_started = s.plugins_started;
  retry_event_reason = s.retry_event_reason;
  retry_timestamp = s.retry_timestamp;
}

abbrev pub shared : Tofu → Terraform
shared t = record {
  name = t.name;
  namespace = t.namespace;
  uid = t.uid;
  generation = t.generation;
  deletion_timestamp = t.deletion_timestamp;
  finalizers = t.finalizers;
  labels = t.labels;
  spec = shared_spec t.spec;
  status = shared_status t.status;
}

abbrev pub own : Terraform → Tofu
own t = record {
  name = t.name;
  namespace = t.namespace;
  uid = t.uid;
  generation = t.generation;
  deletion_timestamp = t.deletion_timestamp;
  finalizers = t.finalizers;
  labels = t.labels;
  spec = own_spec t.spec;
  status = own_status t.status;
}

own-shared_images : (images : Option TofuImages) → own_images (shared_images images) ≡ images
own-shared_images none = refl
own-shared_images (some images) = refl

-- Nothing of a Tofu resource is lost on the way to the names of the other kind and back.
pub own-shared : (t : Tofu) → own (shared t) ≡ t
own-shared t =
    ap (λ i. record t { spec = record t.spec { images = i } }) (own-shared_images t.spec.images)
