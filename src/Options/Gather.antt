-- ===== src/Options/Gather.antt =====
-- pkg/controllers/tf_controller.go, newTaskOptions: the loop over the options of the resource.
use infrakube_multicluster.Prelude.{
  String, ◌||◌, Option, none, some, List, [], ◌∷◌, ◌++◌, ◌==◌, ◌⧺◌, Dict, insert_all, if◌then◌else◌,
}
use infrakube_multicluster.Task.{TaskName, list_contains_task}
use infrakube_multicluster.Kube.{EnvVar, EnvFromSource, PolicyRule, Volume, VolumeMount}
use infrakube_multicluster.Resource.{TaskOption, StageScript, ConfigMapSelector}

-- The variables that the loop changes.
pub record Gathered : Type 0 where
  pub policy_rules : List PolicyRule
  pub labels : Dict String
  pub annotations : Dict String
  pub env : List EnvVar
  pub env_from : List EnvFromSource
  pub restart_policy : String
  pub volumes : List Volume
  pub volume_mounts : List VolumeMount
  pub url_source : String
  pub config_map_source_name : String
  pub config_map_source_key : String
  pub inline_task_execution_file : String

-- The variables before the loop.
unfoldable pub start : List EnvFromSource → Gathered
start global_env_from = record {
  policy_rules = [];
  labels = [];
  annotations = [];
  env = [];
  env_from = global_env_from;
  restart_policy = "Never";
  volumes = [];
  volume_mounts = [];
  url_source = "";
  config_map_source_name = "";
  config_map_source_key = "";
  inline_task_execution_file = "";
}

-- The first statement of the loop, for options that match the task or *.
unfoldable pub add_common : Gathered → TaskOption → Gathered
add_common g o = record g {
  policy_rules = g.policy_rules ++ o.policy_rules;
  annotations = insert_all g.annotations o.annotations;
  labels = insert_all g.labels o.labels;
  env = g.env ++ o.env;
  env_from = g.env_from ++ o.env_from;
  restart_policy = if o.restart_policy == "" then g.restart_policy else o.restart_policy;
  volumes = g.volumes ++ o.volumes;
  volume_mounts = g.volume_mounts ++ o.volume_mounts;
}

selected_name : Option ConfigMapSelector → String → String
selected_name none old = old
selected_name (some selector) old = selector.name

selected_key : Option ConfigMapSelector → String → String
selected_key none old = old
selected_key (some selector) old = selector.key

-- The second statement, for options that match the task by its name.
unfoldable pub set_script : TaskName → Gathered → StageScript → Gathered
unfolding selected_name selected_key
set_script task g script = record g {
  url_source = script.source;
  config_map_source_name = selected_name script.config_map_selector g.config_map_source_name;
  config_map_source_key = selected_key script.config_map_selector g.config_map_source_key;
  inline_task_execution_file =
      if script.inline == "" then g.inline_task_execution_file else "inline-" ⧺ task ⧺ ".sh";
}

unfoldable pub gather_option : TaskName → Gathered → TaskOption → Gathered
gather_option task g o =
    let g' =
      if list_contains_task o.for task || list_contains_task o.for "*" then add_common g o else g in
    if list_contains_task o.for task then set_script task g' o.script else g'

unfoldable pub gather : TaskName → Gathered → List TaskOption → Gathered
gather task g [] = g
gather task g (o ∷ options) = gather task (gather_option task g o) options
