-- ===== src/Scenarios/Composed.antt =====
-- The runner of the reconciler at a cluster: a first install of a task from its resource.
use infrakube_multicluster.Prelude.{none, some, [], ◌∷◌, ◌++◌, refl}
use infrakube_multicluster.Utils.{list_contains_str}
use infrakube_multicluster.Kube.{not_found}
use infrakube_multicluster.Resource.{Terraform}
use infrakube_multicluster.Controller.Api.{Api, found, failed}
use infrakube_multicluster.Addresses.Parse.{Libraries, ok, error}
use infrakube_multicluster.Reapers.{Reaping}
use infrakube_multicluster.Creation.Git.{Messages}
use infrakube_multicluster.Creation.Setup.{Texts}
use infrakube_multicluster.Creation.Installed.{HasInstalled}
use infrakube_multicluster.Creation.Tasks.{tasks_runner}
use infrakube_multicluster.Creation.Composed.{StartNothing, setup_and_run_starts}
use infrakube_multicluster.Scenarios.Server.{config, planning}
use infrakube_multicluster.Scenarios.Stores.{Held, cluster, cluster-IsStore, nowhere, plan_options}

abbrev held : Api Held
held = record {
  get_tf = λ name w. (found planning, w);
  update_tf = λ tf w. (none, w);
  update_status = λ tf w. (found tf, w);
  list_pods = λ namespace name generation w. (found [], w);
  get_pod = λ name w. none;
  delete_pod = λ pod w. (none, w);
  delete_pods_of = λ namespace labels field w. (none, w);
  get_secret = λ name w. failed not_found;
  update_secret = λ secret w. (none, w);
  pod_owners = λ name w. failed not_found;
  replica_set_owners = λ name w. failed not_found;
  deployment_template = λ name w. failed not_found;
  getenv = λ name w. "";
  contains_finalizer = list_contains_str;
  add_finalizer = λ l s. l ++ s ∷ [];
  remove_finalizer = λ l s. l;
  cache_get = λ key w. none;
  cache_set = λ key value w. w;
  cache_delete = λ key w. w;
  event = λ kind reason w. w;
  now = λ w. 40;
  new_uuid = λ w. ("u", w);
  random_text = λ length charset w. ("abc", w);
}

abbrev idle : Reaping Held
idle = record {
  parse_labels = λ s. some s;
  parse_fields = λ s. some s;
  delete_all_of = λ kind namespace labels fields w. (none, w);
  list_pods_with = λ namespace labels w. (found [], w);
  sleep = λ w. w;
}

abbrev words : Messages
words = record { docf = λ format argument. argument; error_text = λ e. "not found" }

abbrev scripts : Texts
scripts = record {
  default_tool = "plan";
  default_setup = "setup";
  default_noop = "noop";
  marshal_selector = λ s. s.name;
  marshal_addresses = λ addresses. "";
}

idle-StartNothing : StartNothing held idle (λ w. w.running)
idle-StartNothing = record {
  reads = λ name w. refl;
  updates = λ secret w. refl;
  deletes = λ kind namespace labels fields w. refl;
  lists = λ namespace labels w. refl;
  sleeps = λ w. refl;
}

abbrev installing : Terraform
installing = record planning {
  spec = record planning.spec {
    terraform_module = record planning.spec.terraform_module { inline = "resource" };
  };
  status = record planning.status {
    stage = record planning.status.stage { reason = "TF_RESOURCE_CREATED" };
  };
}

abbrev libraries : Libraries
libraries = record {
  parse_url = λ s. error "refused";
  ssh_url_text = λ u. "";
  encoded_query = λ s. ok "";
  query_get = λ q key. ok "";
  detect = λ ssh s. ok s;
  source_dir_subdir = λ s. (s, "");
}

setup_and_run_starts_example :
    let (res, w') =
      (tasks_runner held cluster idle config libraries scripts words).setup_and_run installing
        plan_options nowhere in
    HasInstalled plan_options [] res w'.running
setup_and_run_starts_example =
    setup_and_run_starts held cluster idle config libraries scripts words (λ w. w.objects)
      (λ w. w.running) cluster-IsStore idle-StartNothing installing plan_options nowhere
