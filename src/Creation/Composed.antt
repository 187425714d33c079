-- ===== src/Creation/Composed.antt =====
-- pkg/controllers/tf_controller.go: setupAndRun together with run and the reaper of plugins, as the
-- reconciler calls them.
use infrakube_multicluster.Prelude.{String, Option, List, ◌≡◌, refl, ◌∙◌}
use infrakube_multicluster.Kube.{NamespacedName, Secret}
use infrakube_multicluster.Resource.{Terraform}
use infrakube_multicluster.Options.{TaskOptions}
use infrakube_multicluster.Controller.Api.{Api}
use infrakube_multicluster.Controller.Settings.{Config}
use infrakube_multicluster.Addresses.Parse.{Libraries}
use infrakube_multicluster.Objects.{Pod}
use infrakube_multicluster.Reapers.{Reaped, Reaping, reap_plugins}
use infrakube_multicluster.Reapers.Keeps.{reap_plugins-keeps}
use infrakube_multicluster.Creation.Cluster.{Cluster}
use infrakube_multicluster.Creation.Git.{Messages}
use infrakube_multicluster.Creation.Setup.{Texts}
use infrakube_multicluster.Creation.Store.{View, IsStore}
use infrakube_multicluster.Creation.Installed.{HasInstalled, setup_and_run_installs}
use infrakube_multicluster.Creation.Tasks.{background, tasks_runner}

-- The calls beside those that create objects start no pod: `started` are the pods that were created so
-- far, also where they are gone by now.
pub record StartNothing {W : Type 0} (a : Api W) (k : Reaping W) (started : W → List Pod)
    : Type 0 where
  pub reads : (name : NamespacedName) (w : W) → started (a.get_tf name w).1 ≡ started w
  pub updates : (secret : Secret) (w : W) → started (a.update_secret secret w).1 ≡ started w
  pub deletes :
      (kind : Reaped) (namespace : String) (labels fields : Option String) (w : W)
      → started (k.delete_all_of kind namespace labels fields w).1 ≡ started w
  pub lists :
      (namespace : String) (labels : Option String) (w : W)
      → started (k.list_pods_with namespace labels w).1 ≡ started w
  pub sleeps : (w : W) → started (k.sleep w) ≡ started w

pub reaping_starts-nothing :
    {W : Type 0} (a : Api W) (k : Reaping W) (config : Config) (started : W → List Pod)
    → StartNothing a k started
    → (tf : Terraform) (w : W)
    → started (reap_plugins a k config.settings.names.label_prefix config.md5_hex 22 tf 0 w).1
      ≡ started w
reaping_starts-nothing a k config started others tf w =
    (reap_plugins-keeps a k (λ u. started u ≡ started w) (λ name u p. others.reads name u ∙ p)
        (λ kind namespace labels fields u p. others.deletes kind namespace labels fields u ∙ p)
        (λ namespace labels u p. others.lists namespace labels u ∙ p) (λ u p. others.sleeps u ∙ p)
        config.settings.names.label_prefix config.md5_hex 22 tf 0).kept
      w refl

module _ {W : Type 0} (a : Api W) (c : Cluster W) (k : Reaping W) (config : Config) (l : Libraries)
    (texts : Texts) (m : Messages) (view : W → View) (started : W → List Pod)
    (store : IsStore c view started) (others : StartNothing a k started) where
  -- The runner of the reconciler ends without an error only with exactly one pod more started, the one
  -- generated for the options it was given but for the module and the data that it sets in them. Where
  -- it returns an error or panics, it has started none.
  pub setup_and_run_starts :
      (tf : Terraform) (r : TaskOptions) (w : W)
      → let (res, w') = (tasks_runner a c k config l texts m).setup_and_run tf r w in
        HasInstalled r (started w) res (started w')
  unfolding tasks_runner background
  setup_and_run_starts =
      setup_and_run_installs a c (background a c k config l texts m) config l texts m view started
        store others.updates (reaping_starts-nothing a k config started others)
