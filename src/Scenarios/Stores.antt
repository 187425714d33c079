-- ===== src/Scenarios/Stores.antt =====
-- A cluster that holds the objects of tasks and their pods, and tasks that run in it.
use infrakube_multicluster.Prelude.{
  true, false, Option, none, some, List, [], ◌∷◌, ◌++◌, ◌≡◌, refl, arith,
}
use infrakube_multicluster.Exec.{returns}
use infrakube_multicluster.Kube.{NamespacedName, ApiError, already_exists, not_found}
use infrakube_multicluster.Task.{run_plan}
use infrakube_multicluster.Options.{TaskOptions, new_task_options}
use infrakube_multicluster.Controller.Api.{Answer, found, failed}
use infrakube_multicluster.Objects.{Kind, Object, VolumeClaim, Pod}
use infrakube_multicluster.Creation.Cluster.{Cluster, ◌>>?◌}
use infrakube_multicluster.Exec.{◌>>=◌}
use infrakube_multicluster.Options.{gather, gather_option, add_common, start}
use infrakube_multicluster.Utils.{list_contains_str}
use infrakube_multicluster.Prelude.{decimal}
use infrakube_multicluster.Objects.Volumes.{validate_volume}
use infrakube_multicluster.Objects.Pods.{generate_pod}
use infrakube_multicluster.Objects.Access.{
  generate_config_map, generate_role, generate_role_binding, generate_secret,
  generate_service_account, generate_pvc, role_rules,
}
use infrakube_multicluster.Creation.Kinds.{
  create_pvc, create_config_map, create_secret, create_service_account, create_role,
  create_role_binding, create_pod, delete_config_map_if_exists, delete_secret_if_exists,
  delete_service_account_if_exists, delete_role_if_exists, delete_role_binding_if_exists,
  check_persistent_volume_claim_exists, check_config_map_exists, check_secret_exists,
  check_service_account_exists, check_role_exists, check_role_binding_exists,
}
use infrakube_multicluster.Creation.Store.{View, place, set_place, object_at, Got, Created, IsStore}
use infrakube_multicluster.Creation.Run.{
  run, create_objects, create_env_from_sources, create_env_from_source,
}
use infrakube_multicluster.Creation.Outcome.{HasRun, run-HasRun}
use infrakube_multicluster.Creation.Started.{HasStarted, run_starts}
use infrakube_multicluster.Scenarios.Server.{config, planning}

pub record Held : Type 0 where
  pub objects : View
  pub claims : List VolumeClaim
  pub running : List Pod

abbrev answer_of : Option Object → Answer Object
answer_of none = failed not_found
answer_of (some o) = found o

abbrev created_in : Object → Option Object → Held → Option ApiError × Held
created_in o none w = (none, record w { objects = place o w.objects })
created_in o (some old) w = (some already_exists, w)

abbrev first_claim : List VolumeClaim → Answer VolumeClaim
first_claim [] = failed not_found
first_claim (claim ∷ claims) = found claim

abbrev pub cluster : Cluster Held
cluster = record {
  get_object = λ k key w. answer_of (w.objects k key);
  create_object = λ tf o w. created_in o (object_at w.objects o) w;
  update_object = λ tf o w. (none, record w { objects = place o w.objects });
  delete_object = λ k key w. (none, record w { objects = set_place k key none w.objects });
  get_claim = λ key w. first_claim w.claims;
  create_claim = λ tf claim w. (none, record w { claims = claim ∷ w.claims });
  create_pod = λ tf pod w. (none, record w { running = w.running ++ pod ∷ [] });
  create_job = λ tf job w. (none, w);
  record_event = λ kind reason w. w;
}

Got-in : (k : Kind) (key : NamespacedName) (o : Option Object) → Got (answer_of o) o
Got-in k key none = refl
Got-in k key (some o) = refl

created_lem :
    (o : Object) (at : Option Object) (w : Held)
    → object_at w.objects o ≡ at
    → Created (created_in o at w).0 o w.objects (created_in o at w).1.objects
created_lem o none w h = (h, refl)
created_lem o (some old) w h = (refl, λ e. ground arith)

running-created :
    (o : Object) (at : Option Object) (w : Held) → (created_in o at w).1.running ≡ w.running
running-created o none w = refl
running-created o (some old) w = refl

pub cluster-IsStore : IsStore cluster (λ w. w.objects) (λ w. w.running)
cluster-IsStore = record {
  got = λ k key w. Got-in k key (w.objects k key);
  created = λ tf o w. created_lem o (object_at w.objects o) w refl;
  updated = λ tf o w. refl;
  deleted = λ k key w. refl;
  pod_created = λ tf pod w. refl;
  view-claim = λ tf o w. refl;
  view-pod = λ tf o w. refl;
  view-event = λ kind reason w. refl;
  pods-create = λ tf o w. running-created o (object_at w.objects o) w;
  pods-update = λ tf o w. refl;
  pods-delete = λ k key w. refl;
  pods-claim = λ tf o w. refl;
  pods-event = λ kind reason w. refl;
}

abbrev pub nowhere : Held
nowhere = record { objects = λ k key. none; claims = []; running = [] }

abbrev pub plan_options : TaskOptions
plan_options =
    new_task_options config.md5_hex config.settings
      (record { affinity = none; node_selector = []; tolerations = [] }) planning run_plan 3 []

run_starts_example :
    HasStarted plan_options []
      (run cluster config planning plan_options true false nowhere).0
      (run cluster config planning plan_options true false nowhere).1.running
run_starts_example =
    run_starts cluster (λ w. w.objects) (λ w. w.running) cluster-IsStore config planning
      plan_options true false nowhere

ended : (run cluster config planning plan_options true false nowhere).0 ≡ returns none
unfolding run create_objects create_env_from_sources create_env_from_source create_pvc
    create_config_map create_secret create_service_account create_role create_role_binding
    create_pod delete_config_map_if_exists delete_secret_if_exists delete_service_account_if_exists
    delete_role_if_exists delete_role_binding_if_exists check_persistent_volume_claim_exists
    check_config_map_exists check_secret_exists check_service_account_exists check_role_exists
    check_role_binding_exists generate_pod validate_volume ◌>>=◌ ◌>>?◌ generate_config_map
    generate_role generate_role_binding generate_secret generate_service_account generate_pvc
    new_task_options gather role_rules decimal gather_option list_contains_str add_common start
ended = refl

run-HasRun_example :
    HasRun cluster
      (λ w. w.objects)
      config
      planning
      plan_options
      true
      nowhere
      (run cluster config planning plan_options true false nowhere).1.objects
run-HasRun_example =
    run-HasRun cluster (λ w. w.objects) (λ w. w.running) cluster-IsStore config planning
      plan_options true false nowhere ended
