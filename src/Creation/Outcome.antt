-- ===== src/Creation/Outcome.antt =====
-- pkg/controllers/tf_controller.go, run: its effect on the objects of the cluster, on both branches.
use infrakube_multicluster.Prelude.{Bool, true, false, ◌||◌, Option, none, List, ◌≡◌, if◌then◌else◌}
use infrakube_multicluster.Exec.{returns, Exec}
use infrakube_multicluster.Resource.{Terraform}
use infrakube_multicluster.Options.{TaskOptions}
use infrakube_multicluster.Controller.Api.{Error}
use infrakube_multicluster.Controller.Settings.{Config}
use infrakube_multicluster.Objects.{Pod}
use infrakube_multicluster.Objects.Pods.{generate_pod}
use infrakube_multicluster.Creation.Cluster.{Cluster, ◌>>?◌}
use infrakube_multicluster.Creation.Kinds.{create_pod}
use infrakube_multicluster.Creation.Run.{create_objects, check_objects, run}
use infrakube_multicluster.Creation.Store.{View, IsStore}
use infrakube_multicluster.Creation.Does.{Does, Does-then}
use infrakube_multicluster.Creation.Replaced.{pod-Does}
use infrakube_multicluster.Creation.Refines.{desired, create_objects-Does, After-returned}
use infrakube_multicluster.Creation.Checked.{IsSetUp, unchanged_run}

-- What a run without an error says of the cluster: on a new generation or a first install, the
-- places of the task's objects are set; otherwise they were found, and nothing is changed.
abbrev pub HasRun :
    {W : Type 0}
    → Cluster W
    → (W → View)
    → Config
    → Terraform
    → TaskOptions
    → Bool
    → W
    → View
    → Type 0
HasRun c view config tf r is_changed w v' =
    if is_changed then v' ≡ desired config tf r (view w) else IsSetUp c view r w × (v' ≡ view w)

module _ {W : Type 0} (c : Cluster W) (view : W → View) (pods : W → List Pod)
    (store : IsStore c view pods) where
  -- A run whose creations change the view as they should, `create` being any such.
  pub run_with-HasRun :
      (config : Config) (tf : Terraform) (r : TaskOptions) (create : Exec W (Option Error))
      (b : Bool) (w : W)
      → Does view (desired config tf r) create
      → (((if b then create else check_objects c r) >>? create_pod c tf r) w).0 ≡ returns none
      → HasRun c view config tf r b w
          (view (((if b then create else check_objects c r) >>? create_pod c tf r) w).1)
  unfolding create_pod
  run_with-HasRun config tf r create true w h ended =
      After-returned ((create >>? create_pod c tf r) w).0 (desired config tf r) (view w)
        (view ((create >>? create_pod c tf r) w).1) ended
        ((Does-then view (desired config tf r) (λ v. v) create _ h
            (pod-Does c view pods store tf (generate_pod r))).after
          w)
  run_with-HasRun config tf r create false w h ended = unchanged_run c view pods store tf r w ended

  -- A run that ends without an error refines this change of the abstract cluster. On a new generation
  -- or a first install, the objects of the controller's variables, and then the task's secret, config
  -- map, role binding, role and, if the resource names none, service account stand in their places
  -- whatever stood there, the secret of the outputs stands in its own if nothing stood there, and every
  -- other place is as it was. Within a generation, the volume claim and the five objects of the task
  -- were there, and no place is changed.
  pub run-HasRun :
      (config : Config) (tf : Terraform) (r : TaskOptions) (is_new is_first : Bool) (w : W)
      → (run c config tf r is_new is_first w).0 ≡ returns none
      → HasRun c view config tf r
          (is_first || is_new)
          w
          (view (run c config tf r is_new is_first w).1)
  unfolding run
  run-HasRun config tf r is_new is_first w ended =
      run_with-HasRun config tf r (create_objects c config tf r) (is_first || is_new) w
        (create_objects-Does c view pods store config tf r) ended
