-- ===== src/Scenarios/Tofus.antt =====
-- pkg/controllers/tofu_controller.go at a cluster: a task of a Tofu resource, and its names.
use infrakube_multicluster.Prelude.{true, false, none, [], ◌≡◌, refl, decimal}
use infrakube_multicluster.Exec.{returns, ◌>>=◌}
use infrakube_multicluster.Utils.{list_contains_str}
use infrakube_multicluster.Task.{run_plan}
use infrakube_multicluster.Options.{
  TaskOptions, new_task_options, gather, gather_option, add_common, start, image_of, has_no_script,
  fill_image,
}
use infrakube_multicluster.Objects.Volumes.{validate_volume}
use infrakube_multicluster.Objects.Pods.{generate_pod}
use infrakube_multicluster.Objects.Access.{
  generate_config_map, generate_role, generate_role_binding, generate_secret,
  generate_service_account, generate_pvc, role_rules,
}
use infrakube_multicluster.Creation.Cluster.{◌>>?◌}
use infrakube_multicluster.Creation.Run.{create_env_from_sources, create_env_from_source}
use infrakube_multicluster.Creation.Outcome.{HasRun}
use infrakube_multicluster.Tofu.{Tofu, own, shared}
use infrakube_multicluster.Tofu.Creation.{
  resource_exists, claim_exists, delete_previous, delete_and_create, create_tofu_pvc,
  create_tofu_secret, create_tofu_pod, create_tofu_objects, run_tofu,
}
use infrakube_multicluster.Tofu.Controller.{tofu_config, new_tofu_task_options}
use infrakube_multicluster.Tofu.Refines.{run_tofu-HasRun}
use infrakube_multicluster.Scenarios.Server.{config, planning}
use infrakube_multicluster.Scenarios.Stores.{cluster, cluster-IsStore, nowhere}

abbrev tofu_planning : Tofu
tofu_planning = own planning

abbrev tofu_options : TaskOptions
tofu_options =
    new_tofu_task_options config.md5_hex config.settings
      (record { affinity = none; node_selector = []; tolerations = [] }) tofu_planning run_plan 3 []

tofu_ended :
    (run_tofu cluster (tofu_config config) tofu_planning tofu_options true false nowhere).0
    ≡ returns none
unfolding run_tofu create_tofu_objects create_env_from_sources create_env_from_source
    create_tofu_pvc create_tofu_secret create_tofu_pod resource_exists claim_exists delete_previous
    delete_and_create generate_pod validate_volume ◌>>=◌ ◌>>?◌ generate_config_map generate_role
    generate_role_binding generate_secret generate_service_account generate_pvc
    new_tofu_task_options new_task_options gather role_rules decimal gather_option list_contains_str
    add_common start
tofu_ended = refl

run_tofu-HasRun_example :
    HasRun cluster
      (λ w. w.objects)
      (tofu_config config)
      (shared tofu_planning)
      tofu_options
      true
      nowhere
      (run_tofu cluster
        (tofu_config config)
        tofu_planning
        tofu_options
        true
        false
        nowhere).1.objects
run_tofu-HasRun_example =
    run_tofu-HasRun cluster (λ w. w.objects) (λ w. w.running) cluster-IsStore (tofu_config config)
      tofu_planning tofu_options true false nowhere tofu_ended

tofu_script : tofu_options.inline_task_execution_file ≡ "default-tofu.sh"
unfolding new_tofu_task_options new_task_options gather gather_option add_common start image_of
    has_no_script fill_image list_contains_str
tofu_script = refl
