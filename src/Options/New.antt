-- ===== src/Options/New.antt =====
-- pkg/controllers/tf_controller.go, newTaskOptions: the choice of the image and of the script, the
-- names and the labels.
use infrakube_multicluster.Prelude.{
  ℕ, zero, suc, String, Bool, true, false, not, ◌&&◌, ◌||◌, Option, none, some, List, [], ◌∷◌, ◌==◌,
  ◌⧺◌, Dict, insert, decimal, if◌then◌else◌,
}
use infrakube_multicluster.Utils.{auto_hash_labeler}
use infrakube_multicluster.Task.{
  TaskName, list_contains_task, run_setup, run_pre_init, run_init, run_post_init, run_pre_plan,
  run_plan, run_post_plan, run_pre_apply, run_apply, run_post_apply, run_setup_delete,
  run_pre_init_delete, run_init_delete, run_post_init_delete, run_pre_plan_delete, run_plan_delete,
  run_post_plan_delete, run_pre_apply_delete, run_apply_delete, run_post_apply_delete,
}
use infrakube_multicluster.Task.Ids.{id, ℤ, negsuc}
use infrakube_multicluster.Kube.{EnvFromSource}
use infrakube_multicluster.Resource.{Terraform, Images, ImageConfig, Setup}
use infrakube_multicluster.Options.Types.{TaskOptions, ParsedAddress}
use infrakube_multicluster.Options.Gather.{Gathered, start, gather}

abbrev pub tf_task_list : List TaskName
tf_task_list =
    run_init ∷ run_init_delete ∷ run_plan ∷ run_plan_delete ∷ run_apply ∷ run_apply_delete ∷ []

abbrev pub script_task_list : List TaskName
script_task_list =
    run_pre_init ∷ run_pre_init_delete ∷ run_post_init ∷ run_post_init_delete ∷ run_pre_plan
    ∷ run_pre_plan_delete ∷ run_post_plan ∷ run_post_plan_delete ∷ run_pre_apply
    ∷ run_pre_apply_delete ∷ run_post_apply ∷ run_post_apply_delete ∷ []

abbrev pub setup_task_list : List TaskName
setup_task_list = run_setup ∷ run_setup_delete ∷ []

-- The names in which the controllers of the two kinds of resources differ.
pub record ResourceNames : Type 0 where
  pub tool : String
  pub label_prefix : String
  pub version_label : String
  pub crd_resource : String
  pub version_env_var : String
  pub download_url_env_var : String

abbrev pub terraform_names : ResourceNames
terraform_names = record {
  tool = "tf";
  label_prefix = "terraforms.infrakube.galleybytes.com/";
  version_label = "tfVersion";
  crd_resource = "terraforms";
  version_env_var = "INFRAKUBE_TF_VERSION";
  download_url_env_var = "INFRAKUBE_TF_DOWNLOAD_URL_BASE";
}

-- The fields of ReconcileTf that newTaskOptions is given, with the names of its kind.
pub record Settings : Type 0 where
  pub names : ResourceNames
  pub require_approval_image : String
  pub cache_url : String
  pub auto_download : Bool
  pub tf_download_base_url : String
  pub task_image : String

-- What getNodeSelectorsFromCache returns.
pub record Inherited : Type 0 where
  pub affinity : Option String
  pub node_selector : Dict String
  pub tolerations : List String

abbrev pub default_image : String
default_image = "ghcr.io/galleybytes/infrakube-task:latest"

-- One of the three images of the resource, with the defaults filled in. The source fills them into
-- the images of the resource itself, whose specification the round does not store again.
unfoldable pub fill_image : String → Option ImageConfig → ImageConfig
fill_image default none = record { image = default; image_pull_policy = "IfNotPresent" }
fill_image default (some config) =
    if config.image == "" then record config { image = default } else config

abbrev pub images_of : Option Images → Images
images_of none = record { terraform = none; script = none; setup = none }
images_of (some images) = images

cleanup_disk_of : Option Setup → Bool
cleanup_disk_of none = false
cleanup_disk_of (some setup) = setup.cleanup_disk

-- The image of the task, its pull policy, and the script where none was given.
unfoldable pub image_of : (tool : String) → TaskName → String → Option Images → ImageConfig × String
image_of tool task default images =
    if list_contains_task tf_task_list task
    then (fill_image default (images_of images).terraform, "default-" ⧺ tool ⧺ ".sh")
    else if list_contains_task script_task_list task
    then (fill_image default (images_of images).script, "default-noop.sh")
    else if list_contains_task setup_task_list task
    then (fill_image default (images_of images).setup, "default-setup.sh")
    else (record { image = ""; image_pull_policy = "Always" }, "")

-- Whether the options gave the task no script of any kind.
unfoldable pub has_no_script : Gathered → Bool
has_no_script g =
    g.inline_task_execution_file == ""
    && g.url_source == ""
    && (g.config_map_source_key == "" || g.config_map_source_name == "")

is_plugin : ℤ → Bool
is_plugin (negsuc (suc zero)) = true
is_plugin _ = false

-- The labels of every object that a task brings along.
unfoldable pub resource_labels_of :
    (String → String)
    → ResourceNames
    → (task : TaskName) (generation : ℕ) (resource_name prefixed_name tf_version : String)
    → Dict String
unfolding is_plugin
resource_labels_of md5_hex names task generation resource_name prefixed_name tf_version =
    let common =
      (names.label_prefix ⧺ "generation", decimal generation)
      ∷ (names.label_prefix ⧺ "resourceName", auto_hash_labeler md5_hex resource_name)
      ∷ (names.label_prefix ⧺ "podPrefix", prefixed_name)
      ∷ (names.label_prefix ⧺ names.version_label, tf_version)
      ∷ ("app.kubernetes.io/name", "infrakube")
      ∷ ("app.kubernetes.io/component", "infrakube-runner")
      ∷ ("app.kubernetes.io/created-by", "controller")
      ∷ [] in
    if is_plugin (id task) then insert (names.label_prefix ⧺ "isPlugin") "true" common else common

abbrev pub no_address : ParsedAddress
no_address = record {
  detected_scheme = "";
  path = "";
  use_as_var = false;
  url = "";
  files = [];
  hash = "";
  url_scheme = "";
  uri = "";
  host = "";
  port = "";
  user = "";
  repo = "";
}

unfoldable pub new_task_options :
    (String → String)
    → Settings
    → Inherited
    → Terraform
    → TaskName
    → ℕ
    → List EnvFromSource
    → TaskOptions
unfolding cleanup_disk_of
new_task_options md5_hex settings inherited tf task generation global_env_from =
    let prefixed_name = tf.status.pod_name_prefix in
    let versioned_name = prefixed_name ⧺ "-v" ⧺ decimal tf.generation in
    let tf_version =
      if tf.spec.terraform_version == "" then "latest" else tf.spec.terraform_version in
    let g = gather task (start global_env_from) tf.spec.task_options in
    let default = if settings.task_image == "" then default_image else settings.task_image in
    let (config, default_script) = image_of settings.names.tool task default tf.spec.images in
    let has_secret = not (tf.spec.outputs_secret == "") in
    record {
      annotations = g.annotations;
      config_map_source_name = g.config_map_source_name;
      config_map_source_key = g.config_map_source_key;
      credentials = tf.spec.credentials;
      env = g.env;
      env_from = g.env_from;
      generation = generation;
      image = config.image;
      image_pull_policy = config.image_pull_policy;
      inherited_affinity = inherited.affinity;
      inherited_node_selector = inherited.node_selector;
      inherited_tolerations = inherited.tolerations;
      inline_task_execution_file =
          if has_no_script g && not (default_script == "")
          then default_script
          else g.inline_task_execution_file;
      labels = g.labels;
      main_module_plugin_data = [];
      namespace = tf.namespace;
      outputs_secret_name =
          if has_secret then tf.spec.outputs_secret else versioned_name ⧺ "-outputs";
      outputs_to_include = tf.spec.outputs_to_include;
      outputs_to_omit = tf.spec.outputs_to_omit;
      policy_rules = g.policy_rules;
      prefixed_name = prefixed_name;
      resource_labels =
          resource_labels_of md5_hex settings.names task generation tf.name prefixed_name
            tf_version;
      resource_name = tf.name;
      resource_uuid = tf.uid;
      task = task;
      save_outputs = has_secret || tf.spec.write_outputs_to_status;
      secret_data = [];
      service_account =
          if tf.spec.service_account == ""
          then settings.names.tool ⧺ "-" ⧺ versioned_name
          else tf.spec.service_account;
      cleanup_disk = cleanup_disk_of tf.spec.setup;
      strip_generation_label_on_outputs_secret = has_secret;
      tf_module_parsed = no_address;
      tf_version = tf_version;
      cache_url = settings.cache_url;
      auto_download = settings.auto_download;
      tf_download_base_url = settings.tf_download_base_url;
      url_source = g.url_source;
      versioned_name = versioned_name;
      require_approval = tf.spec.require_approval;
      require_approval_image = settings.require_approval_image;
      restart_policy = g.restart_policy;
      volumes = g.volumes;
      volume_mounts = g.volume_mounts;
      sidecar_plugins = [];
      crd_resource = settings.names.crd_resource;
      version_env_var = settings.names.version_env_var;
      download_url_env_var = settings.names.download_url_env_var;
    }
