-- ===== src/Creation/Tasks.antt =====
-- pkg/controllers/tf_controller.go: what a round of `reconcile` asks of the parts that make and run
-- pods, put together from them.
use infrakube_multicluster.Controller.Api.{Api}
use infrakube_multicluster.Controller.Settings.{Config}
use infrakube_multicluster.Controller.Plugins.{Runner}
use infrakube_multicluster.Objects.Pods.{generate_sidecar}
use infrakube_multicluster.Addresses.Parse.{Libraries}
use infrakube_multicluster.Reapers.{Reaping, background_reap_old_generation_pods, reap_plugins}
use infrakube_multicluster.Creation.Cluster.{Cluster}
use infrakube_multicluster.Creation.Git.{Messages}
use infrakube_multicluster.Creation.Kinds.{create_job}
use infrakube_multicluster.Creation.Setup.{Texts, Background, setup_and_run}

module _ {W : Type 0} (a : Api W) (c : Cluster W) (k : Reaping W) (config : Config) (l : Libraries)
    (texts : Texts) (m : Messages) where
  -- go r.reapPlugins(tf, 0), as if it ran at once.
  unfoldable pub background : Background W
  background = record {
    reap_plugins =
        λ tf w. (reap_plugins a k config.settings.names.label_prefix config.md5_hex 22 tf 0 w).1;
  }

  -- The goroutines run at once. A panic in one of them ends the program; what it did before stays.
  unfoldable pub tasks_runner : Runner W
  tasks_runner = record {
    generate_sidecar = generate_sidecar;
    create_job = λ tf r w. (create_job c tf r w).1;
    setup_and_run = λ tf r. setup_and_run a c background config l texts m tf r;
    reap_old_generation_pods = λ tf w.
        (background_reap_old_generation_pods a k config.settings.names.label_prefix config.md5_hex
          22 tf 0 w).1;
  }
