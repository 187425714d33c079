-- ===== src/Objects/Pods.antt =====
-- pkg/controllers/tf_controller.go, generatePod and generateJob: the pod of a task, and the job of a
-- plugin. The security context, which is the same for every task, is left out.
use infrakube_multicluster.Prelude.{
  ℕ, String, Bool, true, not, ◌&&◌, ◌||◌, Option, none, some, List, [], ◌∷◌, ◌++◌, ◌==◌, ◌⧺◌, Dict,
  insert, insert_all, decimal, join, format_bool, if◌then◌else◌,
}
use infrakube_multicluster.Exec.{Go, returns, panics}
use infrakube_multicluster.Utils.{list_contains_str}
use infrakube_multicluster.Task.{TaskName}
use infrakube_multicluster.Task.Ids.{id, negsuc, eqb_ℤ}
use infrakube_multicluster.Kube.{
  EnvVar, EnvFromSource, secret_ref, KeyToPath, Volume, pvc_claim, config_map_volume, secret_volume,
  VolumeMount, Container,
}
use infrakube_multicluster.Resource.{Credentials, SecretNameRef}
use infrakube_multicluster.Options.{TaskOptions, ParsedAddress, Sidecar}
use infrakube_multicluster.Objects.Types.{Pod, Job}
use infrakube_multicluster.Objects.Volumes.{validate_volume, volume_names}

env_var : (name value : String) → EnvVar
env_var name value = record { name = name; value = value; field_path = none }

mount : (name mount_path : String) → VolumeMount
mount name mount_path = record { name = name; mount_path = mount_path }

abbrev pub home : String
home = "/home/infrakube-runner"

-- 0775
abbrev pub executable_mode : ℕ
executable_mode = 509

-- The variables that every task has.
base_env : TaskOptions → List EnvVar
unfolding env_var
base_env r =
    let generation_path = home ⧺ "/generations/" ⧺ decimal r.generation in
    record { name = "POD_UID"; value = ""; field_path = some "metadata.uid" }
    ∷ env_var "INFRAKUBE_TASK" r.task
    ∷ env_var "INFRAKUBE_TASK_EXEC_URL_SOURCE" r.url_source
    ∷ env_var "INFRAKUBE_TASK_EXEC_CONFIGMAP_SOURCE_NAME" r.config_map_source_name
    ∷ env_var "INFRAKUBE_TASK_EXEC_CONFIGMAP_SOURCE_KEY" r.config_map_source_key
    ∷ env_var "INFRAKUBE_TASK_EXEC_INLINE_SOURCE_FILE" r.inline_task_execution_file
    ∷ env_var "INFRAKUBE_RESOURCE" r.resource_name
    ∷ env_var "INFRAKUBE_RESOURCE_UUID" r.resource_uuid
    ∷ env_var "INFRAKUBE_NAMESPACE" r.namespace
    ∷ env_var "INFRAKUBE_GENERATION" (decimal r.generation)
    ∷ env_var "INFRAKUBE_GENERATION_PATH" generation_path
    ∷ env_var "INFRAKUBE_MAIN_MODULE" (generation_path ⧺ "/main")
    ∷ env_var r.version_env_var r.tf_version
    ∷ env_var "INFRAKUBE_CACHE_URL" r.cache_url
    ∷ env_var "INFRAKUBE_AUTO_DOWNLOAD" (format_bool r.auto_download)
    ∷ env_var r.download_url_env_var r.tf_download_base_url
    ∷ env_var "INFRAKUBE_SAVE_OUTPUTS" (format_bool r.save_outputs)
    ∷ env_var "INFRAKUBE_OUTPUTS_SECRET_NAME" r.outputs_secret_name
    ∷ env_var "INFRAKUBE_OUTPUTS_TO_INCLUDE" (join r.outputs_to_include ",")
    ∷ env_var "INFRAKUBE_OUTPUTS_TO_OMIT" (join r.outputs_to_omit ",")
    ∷ []

cleanup_env : TaskOptions → List EnvVar
unfolding env_var
cleanup_env r = if r.cleanup_disk then env_var "INFRAKUBE_CLEANUP_DISK" "true" ∷ [] else []

subdir_of : List String → String
subdir_of [] = "."
subdir_of (file ∷ files) = if file == "" then "." else file

repo_env : ParsedAddress → List EnvVar
unfolding env_var subdir_of
repo_env parsed =
    if parsed.repo == ""
    then []
    else env_var "INFRAKUBE_MAIN_MODULE_REPO" parsed.repo
      ∷ env_var "INFRAKUBE_MAIN_MODULE_REPO_REF" parsed.hash
      ∷ env_var "INFRAKUBE_MAIN_MODULE_REPO_SUBDIR" (subdir_of parsed.files)
      ∷ []

unfoldable pub envs_of : TaskOptions → List EnvVar
unfolding env_var base_env cleanup_env repo_env
envs_of r =
    r.env
    ++ base_env r
    ++ cleanup_env r
    ++ env_var "INFRAKUBE_ROOT_PATH" home ∷ repo_env r.tf_module_parsed
    ++ env_var "INFRAKUBE_TASK_EXEC_CONFIGMAP_SOURCE_PATH" "/tmp/config-map-source"
      ∷ env_var "INFRAKUBE_MAIN_MODULE_ADDONS" "/tmp/main-module-addons"
      ∷ env_var "GIT_ASKPASS" "/git/askpass/GIT_ASKPASS"
      ∷ env_var "INFRAKUBE_SSH" "/tmp/ssh"
      ∷ []

unfoldable pub has_config_map_source : TaskOptions → Bool
has_config_map_source r =
    not (r.config_map_source_name == "") && not (r.config_map_source_key == "")

-- The items of the volume `ssh`: every entry of the secret but the script for git.
unfoldable pub ssh_config_items : Dict String → List KeyToPath
ssh_config_items [] = []
ssh_config_items ((key, value) ∷ entries) =
    let rest = ssh_config_items entries in
    if list_contains_str ("gitAskpass" ∷ []) key
    then rest
    else record { key = key; path = key; mode = executable_mode } ∷ rest

-- The volumes that the operator adds after those of the task.
unfoldable pub added_volumes : TaskOptions → List Volume
unfolding has_config_map_source
added_volumes r =
    let more =
      record { name = "main-module-addons"; source = config_map_volume r.versioned_name }
      ∷ record {
        name = "gitaskpass";
        source =
            secret_volume r.versioned_name none
              (record { key = "gitAskpass"; path = "GIT_ASKPASS"; mode = executable_mode } ∷ [])
              true;
      }
      ∷ record {
        name = "ssh";
        source =
            secret_volume r.versioned_name (some executable_mode) (ssh_config_items r.secret_data)
              true;
      }
      ∷ [] in
    if has_config_map_source r
    then record { name = "config-map-source"; source = config_map_volume r.config_map_source_name }
      ∷ more
    else more

unfoldable pub task_volumes : TaskOptions → List Volume
unfolding added_volumes
task_volumes r =
    record { name = "infrakubehome"; source = pvc_claim r.prefixed_name } ∷ r.volumes
    ++ added_volumes r

unfoldable pub added_mounts : TaskOptions → List VolumeMount
unfolding has_config_map_source mount
added_mounts r =
    let more =
      mount "main-module-addons" "/tmp/main-module-addons"
      ∷ mount "gitaskpass" "/git/askpass"
      ∷ mount "ssh" "/tmp/ssh"
      ∷ [] in
    if has_config_map_source r
    then mount "config-map-source" "/tmp/config-map-source" ∷ more
    else more

unfoldable pub task_mounts : TaskOptions → List VolumeMount
unfolding added_mounts mount
task_mounts r = mount "infrakubehome" home ∷ r.volume_mounts ++ added_mounts r

-- The role of KIAM, from the last of the credentials that names one.
kiam_annotations : Dict String → List Credentials → Dict String
kiam_annotations annotations [] = annotations
kiam_annotations annotations (c ∷ credentials) =
    kiam_annotations
      (if c.aws_credentials.kiam == ""
        then annotations
        else insert "iam.amazonaws.com/role" c.aws_credentials.kiam annotations)
      credentials

is_empty_ref : SecretNameRef → Bool
is_empty_ref ref = ref.name == "" && ref.namespace == "" && ref.key == ""

credentials_env_from : List EnvFromSource → List Credentials → List EnvFromSource
unfolding is_empty_ref
credentials_env_from env_from [] = env_from
credentials_env_from env_from (c ∷ credentials) =
    credentials_env_from
      (if is_empty_ref c.secret_name_ref
        then env_from
        else env_from ++ secret_ref c.secret_name_ref.name ∷ [])
      credentials

container_name : TaskName → String
container_name task = if eqb_ℤ (id task) (negsuc 1) then task else "task"

unfoldable pub task_container : TaskOptions → Container
unfolding container_name credentials_env_from envs_of task_mounts
task_container r = record {
  name = container_name r.task;
  image = r.image;
  image_pull_policy = r.image_pull_policy;
  env_from = credentials_env_from r.env_from r.credentials;
  env = envs_of r;
  volume_mounts = task_mounts r;
}

-- The loop over the volumes of one sidecar; `listed` are the names of the volumes before it.
unfoldable pub add_missing : List String → List Volume → List Volume → List Volume
add_missing listed volumes [] = volumes
add_missing listed volumes (v ∷ more) =
    add_missing listed (if list_contains_str listed v.name then volumes else volumes ++ v ∷ []) more

-- The loop over the sidecars.
unfoldable pub add_sidecars :
    List Sidecar → List Container × List Volume → List Container × List Volume
unfolding add_missing
add_sidecars [] (containers, volumes) = (containers, volumes)
add_sidecars (s ∷ sidecars) (containers, volumes) =
    add_sidecars sidecars
      (containers ++ s.containers, add_missing (volume_names volumes) volumes s.volumes)

-- The labels and the annotations are maps that generatePod changes in place; the options are not
-- read after it.
unfoldable pub pod_of : TaskOptions → Pod
unfolding task_container task_volumes add_sidecars kiam_annotations
pod_of r =
    let (containers, volumes) =
      add_sidecars r.sidecar_plugins (task_container r ∷ [], task_volumes r) in
    record {
      meta = record {
        name = "";
        generate_name = r.versioned_name ⧺ "-" ⧺ r.task ⧺ "-";
        namespace = r.namespace;
        labels = insert "app.kubernetes.io/instance" r.task (insert_all r.labels r.resource_labels);
        annotations = kiam_annotations r.annotations r.credentials;
      };
      spec = record {
        affinity = r.inherited_affinity;
        node_selector = r.inherited_node_selector;
        tolerations = r.inherited_tolerations;
        fs_group = 2000;
        service_account_name = r.service_account;
        restart_policy = r.restart_policy;
        containers = containers;
        volumes = volumes;
      };
    }

-- The pod, or the message of the error.
pub data Generated : Type 0 where
  generated : Pod → Generated
  refused : String → Generated

abbrev pub unless_refused : Option String → Pod → Generated
unless_refused none pod = generated pod
unless_refused (some e) pod = refused e

unfoldable pub generate_pod : TaskOptions → Generated
unfolding pod_of validate_volume
generate_pod r = unless_refused (validate_volume r) (pod_of r)

abbrev pub job_restart_policy : String → String
job_restart_policy policy =
    if policy == "Always" || policy == "OnFailure" then "OnFailure" else "Never"

abbrev pub job_of_pod : Pod → Job
job_of_pod pod = record {
  meta = pod.meta;
  backoff_limit = 1_000_000;
  template = record pod.spec { restart_policy = job_restart_policy pod.spec.restart_policy };
}

-- The job of what generatePod returned: its error is dropped, and the pod, which is nil with an
-- error, is dereferenced.
abbrev pub job_of : Generated → Go Job
job_of (generated pod) = returns (job_of_pod pod)
job_of (refused e) = panics

unfoldable pub generate_job : TaskOptions → Go Job
unfolding generate_pod
generate_job r = job_of (generate_pod r)

-- getPluginSidecarPod: the pod of a plugin as a sidecar.
abbrev sidecar_of : Generated → Option Sidecar
sidecar_of (generated pod) =
    some (record { containers = pod.spec.containers; volumes = pod.spec.volumes })
sidecar_of (refused e) = none

unfoldable pub generate_sidecar : TaskOptions → Option Sidecar
unfolding generate_pod
generate_sidecar r = sidecar_of (generate_pod r)
