-- ===== src/Scenarios/Pods.antt =====
-- Pods, jobs and roles of a task with a volume of its own and a sidecar.
use infrakube_multicluster.Prelude.{none, [], ◌∷◌, ◌≡◌, ◌≢◌, ◌⊎◌, refl, text_ne}
use infrakube_multicluster.Exec.{returns, panics}
use infrakube_multicluster.Utils.{list_contains_str}
use infrakube_multicluster.Kube.{Volume, config_map_volume}
use infrakube_multicluster.Options.{TaskOptions, Sidecar}
use infrakube_multicluster.Objects.{Job}
use infrakube_multicluster.Objects.Volumes.{validate_volume}
use infrakube_multicluster.Objects.Pods.{generated, generate_pod, pod_of, generate_job}
use infrakube_multicluster.Objects.Distinct.{IsWellFormed, generate_pod-IsWellFormed}
use infrakube_multicluster.Objects.Jobs.{IsJobPolicy, generate_job_lem}
use infrakube_multicluster.Addresses.Patterns.{get_forced_getter, is_line}
use infrakube_multicluster.Addresses.Forms.{joined_getter, get_forced_getter_roundtrip}
use infrakube_multicluster.Scenarios.Stores.{plan_options}

abbrev cache_volume : Volume
cache_volume = record { name = "cache"; source = config_map_volume "cache" }

abbrev watcher : Sidecar
watcher = record {
  containers =
      record {
        name = "watcher";
        image = "watch";
        image_pull_policy = "Always";
        env_from = [];
        env = [];
        volume_mounts = record { name = "ssh"; mount_path = "/keys" } ∷ [];
      }
      ∷ [];
  volumes = record { name = "ssh"; source = config_map_volume "keys" } ∷ [];
}

abbrev with_cache : TaskOptions
with_cache = record plan_options {
  volumes = cache_volume ∷ [];
  volume_mounts = record { name = "cache"; mount_path = "/cache" } ∷ [];
  sidecar_plugins = watcher ∷ [];
}

made : generate_pod with_cache ≡ generated (pod_of with_cache)
unfolding generate_pod validate_volume list_contains_str
made = refl

generate_pod-IsWellFormed_example :
    IsWellFormed (pod_of with_cache).spec.containers (pod_of with_cache).spec.volumes
unfolding list_contains_str
generate_pod-IsWellFormed_example =
    generate_pod-IsWellFormed with_cache (pod_of with_cache) (refl, tt)
      ((((refl, tt), tt), (refl, tt)), tt) made

-- The mount of the volume is missing.
generate_job_lem_example :
    let r = record with_cache { volume_mounts = [] } in
    ((validate_volume r ≢ none) × (generate_job r ≡ panics))
    ⊎ ((validate_volume r ≡ none)
        × (job : Job) × (generate_job r ≡ returns job)
        × IsJobPolicy job.template.restart_policy)
generate_job_lem_example = generate_job_lem (record with_cache { volume_mounts = [] })

abbrev with_backend : TaskOptions
with_backend = record plan_options {
  policy_rules = [];
  crd_resource = "terraforms";
  main_module_plugin_data = ("backend_override.tf", "terraform {\n  backend \"s3\" {}\n}\n") ∷ [];
}

get_forced_getter_roundtrip_example :
    (get_forced_getter (joined_getter ("git", "https://x.y/z")) ≡ ("git", "https://x.y/z"))
    × (joined_getter (get_forced_getter "a::b") ≡ "a::b")
unfolding is_line
get_forced_getter_roundtrip_example =
    get_forced_getter_roundtrip "git" "https://x.y/z" "a::b" (text_ne "git" "" refl) refl refl
