-- ===== src/Scenarios/Server.antt =====
-- A server that holds one resource, fails some of its reads, and has a cache of locks.
use infrakube_multicluster.Prelude.{
  text_ne, inl, ◌≢◌, ◌≡◌, refl, ℕ, zero, suc, true, false, none, [], ◌∷◌, ◌++◌, Dict, lookup,
  insert, delete, arith,
}
use infrakube_multicluster.Exec.{returns, pure}
use infrakube_multicluster.Utils.{list_contains_str}
use infrakube_multicluster.Task.{run_plan, task_lists_are_equal}
use infrakube_multicluster.Kube.{not_found, other_error}
use infrakube_multicluster.Options.{Inherited, terraform_names, new_task_options}
use infrakube_multicluster.Options.Laws.{HasScript, new_task_options-HasScript}
use infrakube_multicluster.Workflow.{tasks_in_order}
use infrakube_multicluster.Resource.{Terraform}
use infrakube_multicluster.Resource.Status.{
  phase_running, phase_deleted, state_initializing, can_not_be_interrupt, is_equal,
}
use infrakube_multicluster.Controller.Api.{Api, Answer, found, failed, CacheValue}
use infrakube_multicluster.Controller.Settings.{Config}
use infrakube_multicluster.Controller.Plugins.{Runner}
use infrakube_multicluster.Controller.Finalizers.{tf_finalizer, update_finalizer}
use infrakube_multicluster.Controller.Finalizers.Laws.{
  with_finalizers, update_finalizer_settles, update_finalizer_deleted,
}
use infrakube_multicluster.Controller.Updates.{
  get_tf_resource, confirms, update_status_with_retry, named,
}
use infrakube_multicluster.Controller.Retries.{
  reads_now, reads_later, get_tf_resource-Reads, Shows, shows_now, update_status-Shows,
}
use infrakube_multicluster.Scenarios.Resources.{resource_at, stage_at}

pub record World : Type 0 where
  pub stored : Terraform
  pub cache : Dict CacheValue
  pub failures : ℕ

-- A read with so many failures ahead.
abbrev pub read_at : ℕ → World → Answer Terraform × World
read_at zero w = (found w.stored, w)
read_at (suc n) w = (failed other_error, record w { failures = n })

unfoldable pub read : World → Answer Terraform × World
read w = read_at w.failures w

abbrev pub server : Api World
server = record {
  get_tf = λ name w. read w;
  update_tf = λ tf w. (none, record w { stored = record tf { status = w.stored.status } });
  update_status = λ tf w. (found tf, record w { stored = tf });
  list_pods = λ namespace name generation w. (found [], w);
  get_pod = λ name w. none;
  delete_pod = λ pod w. (none, w);
  delete_pods_of = λ namespace labels field w. (none, w);
  get_secret = λ name w. failed not_found;
  update_secret = λ secret w. (none, w);
  pod_owners = λ name w. failed not_found;
  replica_set_owners = λ name w. failed not_found;
  deployment_template = λ name w. failed not_found;
  getenv = λ name w. "";
  contains_finalizer = list_contains_str;
  add_finalizer = λ l s. l ++ s ∷ [];
  remove_finalizer = λ l s. l;
  cache_get = λ key w. lookup key w.cache;
  cache_set = λ key value w. record w { cache = insert key value w.cache };
  cache_delete = λ key w. record w { cache = delete key w.cache };
  event = λ kind reason w. w;
  now = λ w. 40;
  new_uuid = λ w. ("u", w);
  random_text = λ length charset w. ("abc", w);
}

abbrev pub config : Config
config = record {
  global_env_from_configmap_data = [];
  global_env_from_secret_data = [];
  global_env_suffix = "";
  inherit_node_selector = false;
  node_selector_cache_key = "";
  inherit_affinity = false;
  affinity_cache_key = "";
  inherit_tolerations = false;
  tolerations_cache_key = "";
  settings = record {
    names = terraform_names;
    require_approval_image = "approval";
    cache_url = "";
    auto_download = false;
    tf_download_base_url = "";
    task_image = "";
  };
  md5_hex = λ s. s;
}

abbrev pub runner : Runner World
runner = record {
  generate_sidecar = λ opts. none;
  create_job = λ tf opts w. w;
  setup_and_run = λ tf opts. pure none;
  reap_old_generation_pods = λ tf w. w;
}

abbrev pub planning : Terraform
planning = resource_at 3 phase_running (stage_at 3 run_plan state_initializing can_not_be_interrupt)

abbrev pub failing : ℕ → World
failing n = record { stored = planning; cache = []; failures = n }

get_tf_resource-Reads_example :
    get_tf_resource server (named planning) 2 (failing 2) ≡ (returns (found planning), failing 0)
unfolding read
get_tf_resource-Reads_example =
    get_tf_resource-Reads server (named planning) 2 2 (failing 2) (failing 0) (found planning)
      (omega arith)
      (reads_later 1 (failing 2) (failing 0) (found planning) refl
        (reads_later 0 (failing 1) (failing 0) (found planning) refl (reads_now (failing 0) refl)))

shows : Shows server (named planning) planning.status 0 (failing 0) (failing 0)
unfolding read confirms task_lists_are_equal is_equal
shows =
    shows_now (failing 0) (failing 0) planning
      (get_tf_resource-Reads server (named planning) 0 9 (failing 0) (failing 0) (found planning)
        (omega arith) (reads_now (failing 0) refl))
      refl

update_status-Shows_example :
    update_status_with_retry server planning none (failing 0)
    ≡ (returns (none, planning), failing 0)
update_status-Shows_example =
    update_status-Shows server planning planning none 0 (failing 0) (failing 0) (failing 0) refl
      shows (omega arith)

update_finalizer_settles_example :
    (update_finalizer (with_finalizers planning ("a" ∷ tf_finalizer ∷ "b" ∷ []))
      ≡ returns (with_finalizers planning ("a" ∷ tf_finalizer ∷ "b" ∷ []), false))
    × (update_finalizer (with_finalizers planning ("a" ∷ []))
        ≡ returns (with_finalizers planning ("a" ∷ tf_finalizer ∷ []), true))
unfolding list_contains_str
update_finalizer_settles_example =
    update_finalizer_settles planning ("a" ∷ []) ("b" ∷ [])
      (text_ne phase_running phase_deleted refl) refl refl

abbrev deleted : Terraform
deleted = resource_at 3 phase_deleted (stage_at 3 run_plan state_initializing can_not_be_interrupt)

update_finalizer_deleted_example :
    (update_finalizer (with_finalizers deleted (tf_finalizer ∷ []))
      ≡ returns (with_finalizers deleted [], true))
    × (update_finalizer (with_finalizers deleted [])
        ≡ returns (with_finalizers deleted (tf_finalizer ∷ []), true))
unfolding list_contains_str
update_finalizer_deleted_example = update_finalizer_deleted deleted [] [] refl refl refl

abbrev inherited : Inherited
inherited = record { affinity = none; node_selector = []; tolerations = [] }

new_task_options-HasScript_example :
    let opts = new_task_options config.md5_hex config.settings inherited planning run_plan 3 [] in
    (opts.image ≢ "") × HasScript opts
unfolding list_contains_str
new_task_options-HasScript_example =
    new_task_options-HasScript config.md5_hex config.settings inherited planning tasks_in_order
      run_plan 3 [] (inl refl) refl
