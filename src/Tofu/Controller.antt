-- ===== src/Tofu/Controller.antt =====
-- pkg/controllers/tofu_controller.go: the functions whose code is that of pkg/controllers/
-- tf_controller.go up to the names of the type and of the labels. Each is the function of the other
-- controller at the resource under the shared names, and what it leaves in the resource is read back.
use infrakube_multicluster.Prelude.{
  ℕ, String, Bool, true, false, Option, List, [], Dict, ◌==◌, ◌≡◌, ap, if◌then◌else◌,
}
use infrakube_multicluster.Exec.{Go, returns, panics, Exec}
use infrakube_multicluster.Kube.{NamespacedName, EnvFromSource, ApiError}
use infrakube_multicluster.Task.{TaskName}
use infrakube_multicluster.Resource.Status.{
  Stage, StageState, state_complete, Interruptible, phase_initializing,
}
use infrakube_multicluster.Resource.{Terraform}
use infrakube_multicluster.Stages.{new_stage, check_set_new_stage}
use infrakube_multicluster.Options.{
  ResourceNames, Settings, Inherited, TaskOptions, new_task_options,
}
use infrakube_multicluster.Controller.Api.{Api, Answer, found, failed, Error}
use infrakube_multicluster.Controller.Settings.{Config, list_env_from_sources}
use infrakube_multicluster.Controller.Finalizers.{update_finalizer}
use infrakube_multicluster.Controller.Secrets.{GitSecret, get_git_secrets, update_secret_finalizer}
use infrakube_multicluster.Addresses.Parse.{Libraries}
use infrakube_multicluster.Reapers.{
  Reaping, ReapEnd, background_reap_old_generation_pods, reap_plugins,
}
use infrakube_multicluster.Creation.Cluster.{Cluster}
use infrakube_multicluster.Creation.Git.{Result, Messages, format_job_ssh_config}
use infrakube_multicluster.Creation.Run.{create_env_from_sources}
use infrakube_multicluster.Creation.Setup.{Texts, Background, setup_with}
use infrakube_multicluster.Controller.Plugins.{Runner}
use infrakube_multicluster.Controller.Reconcile.Replies.{Reply}
use infrakube_multicluster.Controller.Reconcile.{reconcile}
use infrakube_multicluster.Objects.Pods.{generate_sidecar}
use infrakube_multicluster.Tofu.Types.{Tofu, shared, own, own-shared}
use infrakube_multicluster.Tofu.Creation.{run_tofu, create_tofu_job}

abbrev pub tofu_names : ResourceNames
tofu_names = record {
  tool = "tofu";
  label_prefix = "tofus.infrakube.galleybytes.com/";
  version_label = "tofuVersion";
  crd_resource = "tofus";
  version_env_var = "INFRAKUBE_TOFU_VERSION";
  download_url_env_var = "INFRAKUBE_TOFU_DOWNLOAD_URL_BASE";
}

-- The fields of ReconcileTofu, under the names of this kind of resources.
abbrev pub tofu_settings : Settings → Settings
tofu_settings settings = record settings { names = tofu_names }

abbrev pub tofu_config : Config → Config
tofu_config config = record config { settings = tofu_settings config.settings }

unfoldable pub new_tofu_task_options :
    (String → String)
    → Settings
    → Inherited
    → Tofu
    → TaskName
    → ℕ
    → List EnvFromSource
    → TaskOptions
new_tofu_task_options md5_hex settings inherited tofu task generation global_env_from =
    new_task_options md5_hex (tofu_settings settings) inherited (shared tofu) task generation
      global_env_from

unfoldable pub list_tofu_env_from_sources : Config → Tofu → List EnvFromSource
list_tofu_env_from_sources config tofu = list_env_from_sources config (shared tofu)

-- newTofuStage, with the resource whose status it changes.
unfoldable pub new_tofu_stage :
    (now : ℕ) → Tofu → TaskName → String → Interruptible → StageState → Tofu × Stage
new_tofu_stage now tofu task_type reason interruptible stage_state =
    let tofu' =
      if reason == "GENERATION_CHANGE"
      then record tofu {
        status = record tofu.status { plugins_started = []; phase = phase_initializing };
      }
      else tofu in
    (
      tofu',
      record {
        generation = tofu.generation;
        interruptible = interruptible;
        reason = reason;
        state = stage_state;
        task_type = task_type;
        start_time = now;
        stop_time = if stage_state == state_complete then now else 0;
        message = "";
        pod_name = "";
        pod_uid = "";
      },
    )

own-shared_choice :
    (tofu : Tofu) (is_new : Bool)
    → own (
        if is_new
        then record (shared tofu) {
          status = record (shared tofu).status { plugins_started = []; phase = phase_initializing };
        }
        else shared tofu)
      ≡ (if is_new
          then record tofu {
            status = record tofu.status { plugins_started = []; phase = phase_initializing };
          }
          else tofu)
own-shared_choice tofu true = own-shared (record tofu {
  status = record tofu.status { plugins_started = []; phase = phase_initializing };
})
own-shared_choice tofu false = own-shared tofu

-- The new stage and the resource are those of newStage of the other controller.
pub new_tofu_stage_lem :
    (now : ℕ) (tofu : Tofu) (task : TaskName) (reason : String) (i : Interruptible)
    (state : StageState)
    → let (tf, stage) = new_stage now (shared tofu) task reason i state in
      (own tf, stage) ≡ new_tofu_stage now tofu task reason i state
unfolding new_tofu_stage new_stage
new_tofu_stage_lem now tofu task reason i state =
    ap (λ t. (t, (new_stage now (shared tofu) task reason i state).1))
      (own-shared_choice tofu (reason == "GENERATION_CHANGE"))

-- A function of the shared names, on what it leaves in the resource.
abbrev own_result : {A : Type 0} → Go (Terraform × A) → Go (Tofu × A)
own_result panics = panics
own_result (returns (tf, a)) = returns (own tf, a)

unfoldable pub check_set_new_tofu_stage :
    (NamespacedName → Option ApiError) → ℕ → Tofu → Bool → Go (Tofu × Option Stage)
check_set_new_tofu_stage get_pod now tofu is_retry =
    own_result (check_set_new_stage get_pod now (shared tofu) is_retry)

unfoldable pub update_tofu_finalizer : Tofu → Go (Tofu × Bool)
update_tofu_finalizer tofu = own_result (update_finalizer (shared tofu))

unfoldable pub get_tofu_git_secrets : Tofu → Go (List GitSecret)
get_tofu_git_secrets tofu = get_git_secrets (shared tofu)

-- The client at Tofu resources.
pub record TofuClient (W : Type 0) : Type 0 where
  pub get_tofu : NamespacedName → W → Answer Tofu × W
  pub update_tofu : Tofu → W → Option ApiError × W
  pub update_tofu_status : Tofu → W → Answer Tofu × W

abbrev shared_answer : {W : Type 0} → Answer Tofu × W → Answer Terraform × W
shared_answer (found tofu, w) = (found (shared tofu), w)
shared_answer (failed e, w) = (failed e, w)

-- The functions of the world, where a resource is a Tofu resource.
abbrev pub tofu_api : {W : Type 0} → Api W → TofuClient W → Api W
tofu_api a client = record a {
  get_tf = λ name w. shared_answer (client.get_tofu name w);
  update_tf = λ tf w. client.update_tofu (own tf) w;
  update_status = λ tf w. shared_answer (client.update_tofu_status (own tf) w);
}

module _ {W : Type 0} (a : Api W) (client : TofuClient W) (config : Config) where
  unfoldable pub update_tofu_secret_finalizer : Tofu → Exec W (Option Error)
  update_tofu_secret_finalizer tofu = update_secret_finalizer a (shared tofu)

  unfoldable pub format_tofu_job_ssh_config : Messages → Tofu → Exec W (Result (Dict String))
  format_tofu_job_ssh_config m tofu = format_job_ssh_config a m (shared tofu)

  unfoldable pub reap_old_tofu_pods : Reaping W → (fuel : ℕ) → Tofu → (attempt : ℕ) → Exec W ReapEnd
  reap_old_tofu_pods k fuel tofu attempt =
      background_reap_old_generation_pods (tofu_api a client) k tofu_names.label_prefix
        config.md5_hex fuel (shared tofu) attempt

  unfoldable pub reap_tofu_plugins : Reaping W → (fuel : ℕ) → Tofu → (attempt : ℕ) → Exec W ReapEnd
  reap_tofu_plugins k fuel tofu attempt =
      reap_plugins (tofu_api a client) k tofu_names.label_prefix config.md5_hex fuel (shared tofu)
        attempt

  module _ (c : Cluster W) (k : Reaping W) (l : Libraries) (texts : Texts) (m : Messages) where
    abbrev pub tofu_background : Background W
    tofu_background = record { reap_plugins = λ tf w. (reap_tofu_plugins k 22 (own tf) 0 w).1 }

    unfoldable pub create_tofu_env_from_sources : Tofu → Exec W (Option Error)
    create_tofu_env_from_sources tofu = create_env_from_sources c config (shared tofu)

    unfoldable pub setup_and_run_tofu : Tofu → TaskOptions → Exec W (Option Error)
    setup_and_run_tofu tofu r =
        setup_with (tofu_api a client) c tofu_background (tofu_config config) l texts m
          (λ tf. run_tofu c (tofu_config config) (own tf)) (shared tofu) r

    -- The goroutines run at once, as for the other controller.
    unfoldable pub tofu_runner : Runner W
    tofu_runner = record {
      generate_sidecar = generate_sidecar;
      create_job = λ tf r w. (create_tofu_job c (own tf) r w).1;
      setup_and_run = λ tf r. setup_and_run_tofu (own tf) r;
      reap_old_generation_pods = λ tf w. (reap_old_tofu_pods k 22 (own tf) 0 w).1;
    }

    -- A round at a Tofu resource. The errors of its writes are told as those of the other
    -- controller.
    unfoldable pub reconcile_tofu : NamespacedName → String → Exec W Reply
    reconcile_tofu = reconcile (tofu_api a client) (tofu_config config) tofu_runner
