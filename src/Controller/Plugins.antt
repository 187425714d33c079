-- ===== src/Controller/Plugins.antt =====
-- pkg/controllers/tf_controller.go: the plugins of a resource, chosen when a stage starts its pod.
use infrakube_multicluster.Prelude.{
  String, Bool, true, false, ◌&&◌, ◌||◌, Option, none, some, List, [], ◌∷◌, ◌++◌, ◌==◌, Dict,
  if◌then◌else◌,
}
use infrakube_multicluster.Exec.{Exec, pure, lift, asks, perform, ◌>>=◌}
use infrakube_multicluster.Utils.{list_contains_str}
use infrakube_multicluster.Task.{TaskName, list_contains_task, run_plan, run_plan_delete}
use infrakube_multicluster.Task.Ids.{id, ltb_ℤ, eqb_ℤ}
use infrakube_multicluster.Kube.{EnvFromSource}
use infrakube_multicluster.Options.{
  TaskOptions, Sidecar, container_names, Inherited, new_task_options,
}
use infrakube_multicluster.Resource.{Terraform, Plugin}
use infrakube_multicluster.Controller.Api.{Api, Error}
use infrakube_multicluster.Controller.Settings.{Config, node_selectors_from_cache}
use infrakube_multicluster.Controller.Updates.{update_status_with_retry}

-- What the reconciler asks of the parts that make and run pods: a sidecar is the pod that
-- `generatePod` makes, or none where it refuses the options; a job is created in the background;
-- `setup_and_run` creates what the task needs and its pod; the reaper runs in the background.
pub record Runner (W : Type 0) : Type 0 where
  pub generate_sidecar : TaskOptions → Option Sidecar
  pub create_job : Terraform → TaskOptions → W → W
  pub setup_and_run : Terraform → TaskOptions → Exec W (Option Error)
  pub reap_old_generation_pods : Terraform → W → W

-- What one round of the loop over the plugins does.
pub data PluginStep : Type 0 where
  skip defer_job refuse : PluginStep
  add_sidecar : Sidecar → PluginStep

-- The variables of the loop; the job deferred last stands first, as the deferred calls run.
pub record Collected : Type 0 where
  pub sidecar_names : List String
  pub sidecars : List Sidecar
  pub deferred : List (String × Plugin)

any_contained : List String → List String → Bool
any_contained names [] = false
any_contained names (n ∷ rest) = list_contains_str names n || any_contained names rest

-- Whether a container of the sidecar has one of the names.
unfoldable pub name_exists : List String → Sidecar → Bool
unfolding any_contained
name_exists names sidecar = any_contained names (container_names sidecar)

unfoldable pub add_unless_exists : Collected → Sidecar → Collected
add_unless_exists st sidecar = if name_exists st.sidecar_names sidecar then st else record st {
  sidecar_names = st.sidecar_names ++ container_names sidecar;
  sidecars = st.sidecars ++ sidecar ∷ [];
}

-- A sidecar that cannot be made ends the reconciliation if it is a must.
unfoldable pub sidecar_step : Bool → Option Sidecar → PluginStep
sidecar_step must none = if must then refuse else skip
sidecar_step must (some sidecar) = add_sidecar sidecar

-- The switch on `when`, for a plugin that has not started yet.
unfoldable pub plugin_step :
    (started : List TaskName) (pod_type : TaskName) → Option Sidecar → String → Plugin → PluginStep
plugin_step started pod_type sidecar name plugin =
    if list_contains_task started name
    then skip
    else if plugin.when == "After"
    then (if ltb_ℤ (id plugin.task) (id pod_type) then defer_job else skip)
    else if plugin.when == "At"
    then (if eqb_ℤ (id plugin.task) (id pod_type) then defer_job else skip)
    else if plugin.when == "Sidecar"
    then (if eqb_ℤ (id plugin.task) (id pod_type) then sidecar_step plugin.must sidecar else skip)
    else skip

-- The loop: whether it ended early, and its variables. The order of a map is any; here it is that
-- of the list.
unfoldable pub collect :
    (make : String → Plugin → Option Sidecar) (started : List TaskName) (pod_type : TaskName)
    → Dict Plugin
    → Collected
    → Bool × Collected
collect make started pod_type [] st = (false, st)
collect make started pod_type ((name, plugin) ∷ plugins) st =
    elim (plugin_step started pod_type (make name plugin) name plugin) [
      | skip ↦ collect make started pod_type plugins st
      | defer_job ↦
          collect make started pod_type plugins
            (record st { deferred = (name, plugin) ∷ st.deferred })
      | refuse ↦ (true, st)
      | add_sidecar sidecar ↦ collect make started pod_type plugins (add_unless_exists st sidecar)
    ]

-- The sidecar that asks for approval, after the loop.
unfoldable pub add_approval :
    (pod_type : TaskName) (require_approval : Bool)
    → Option Sidecar
    → Bool × Collected
    → Bool × Collected
add_approval pod_type require_approval sidecar (true, st) = (true, st)
add_approval pod_type require_approval sidecar (false, st) =
    if (pod_type == run_plan || pod_type == run_plan_delete) && require_approval
    then elim sidecar [
      | none ↦ (true, st)
      | some s ↦
          if name_exists st.sidecar_names s
          then (false, st)
          else (false, record st { sidecars = st.sidecars ++ s ∷ [] })
    ]
    else (false, st)

-- The plugin whose pod asks for approval.
abbrev pub approval_plugin : String → Plugin
approval_plugin image = record {
  image_config = record { image = image; image_pull_policy = "IfNotPresent" };
  when = "";
  task = "";
  must = true;
}

module _ {W : Type 0} (a : Api W) (c : Config) (r : Runner W) where
  -- getPluginRunOpts, over what the tasks inherit.
  unfoldable pub plugin_run_opts :
      Inherited → Terraform → List EnvFromSource → String → Plugin → TaskOptions
  plugin_run_opts inherited tf global_env_from name plugin =
      let opts =
        new_task_options c.md5_hex c.settings inherited tf name tf.generation global_env_from in
      record opts {
        image = plugin.image_config.image;
        image_pull_policy = plugin.image_config.image_pull_policy;
      }

  -- createPluginJob, with the resource as it leaves it. Its error is not read.
  unfoldable pub create_plugin_job :
      List EnvFromSource → Terraform → String × Plugin → Exec W Terraform
  create_plugin_job global_env_from tf (name, plugin) =
      asks (node_selectors_from_cache a c) >>= lift >>= λ inherited.
      perform (r.create_job tf (plugin_run_opts inherited tf global_env_from name plugin)) >>= λ _.
      update_status_with_retry a
        (record tf {
          status = record tf.status { plugins_started = tf.status.plugins_started ++ name ∷ [] };
        })
        none
      >>= λ updated. pure updated.1

  -- The deferred calls, in the order in which they run.
  unfoldable pub run_deferred :
      List EnvFromSource → Terraform → List (String × Plugin) → Exec W Terraform
  run_deferred global_env_from tf [] = pure tf
  run_deferred global_env_from tf (job ∷ jobs) =
      create_plugin_job global_env_from tf job >>= λ tf'. run_deferred global_env_from tf' jobs
