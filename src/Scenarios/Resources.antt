-- ===== src/Scenarios/Resources.antt =====
-- The resources that the scenarios start from.
use infrakube_multicluster.Prelude.{ℕ, Bool, true, false, Option, none, some, [], ◌∷◌}
use infrakube_multicluster.Task.{TaskName, run_pre_apply}
use infrakube_multicluster.Kube.{NamespacedName, ApiError, PodStatus}
use infrakube_multicluster.Resource.{Terraform, TerraformSpec, TaskOption}
use infrakube_multicluster.Resource.Status.{Stage, StatusPhase, StageState}

-- An option that names one more task beside every task.
abbrev pub approval : TaskOption
approval = record {
  for = "*" ∷ run_pre_apply ∷ run_pre_apply ∷ [];
  policy_rules = [];
  labels = [];
  annotations = [];
  env_from = [];
  env = [];
  script = record { source = ""; config_map_selector = none; inline = "" };
  restart_policy = "";
  volumes = [];
  volume_mounts = [];
}

abbrev pub spec : TerraformSpec
spec = record {
  keep_latest_pods_only = false;
  keep_completed_pods = true;
  outputs_secret = "";
  outputs_to_include = [];
  outputs_to_omit = [];
  write_outputs_to_status = false;
  persistent_volume_size = none;
  storage_class_name = none;
  service_account = "";
  credentials = [];
  ignore_delete = false;
  ssh_tunnel = none;
  scm_auth_methods = [];
  images = none;
  setup = none;
  terraform_module = record {
    source = "git::https://host/module";
    version = "";
    config_map_selector = none;
    config_map_seclector_x = none;
    inline = "";
  };
  terraform_version = "1.5.0";
  backend = "";
  task_options = approval ∷ [];
  plugins = [];
  require_approval = false;
}

abbrev pub stage_at : (generation : ℕ) → TaskName → StageState → (interruptible : Bool) → Stage
stage_at generation task state interruptible = record {
  generation = generation;
  state = state;
  task_type = task;
  interruptible = interruptible;
  reason = "TF_RESOURCE_CREATED";
  start_time = 10;
  stop_time = 0;
  message = "";
  pod_name = "";
  pod_uid = "";
}

abbrev pub resource_at : (generation : ℕ) → StatusPhase → Stage → Terraform
resource_at generation phase stage = record {
  name = "network";
  namespace = "prod";
  uid = "1";
  generation = generation;
  deletion_timestamp = none;
  finalizers = [];
  labels = [];
  spec = spec;
  status = record {
    pod_name_prefix = "network-abc";
    phase = phase;
    last_completed_generation = 0;
    outputs = [];
    stage = stage;
    plugins_started = [];
    retry_event_reason = none;
    retry_timestamp = none;
  };
}

abbrev pub running_pod : PodStatus
running_pod = record { name = "pod"; uid = "7"; phase = "Running"; creation_timestamp = some 20 }

abbrev pub no_pod : NamespacedName → Option ApiError
no_pod name = none
