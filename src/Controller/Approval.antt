-- ===== src/Controller/Approval.antt =====
-- pkg/controllers/tf_controller.go, reconcile: the sidecars that go along with the pod of a stage.
use infrakube_multicluster.Prelude.{
  Among, ◌≡◌, ◌⊎◌, Bool, true, ◌&&◌, not, Option, some, String, List, [], ◌∷◌, ◌++◌,
}
use infrakube_multicluster.Exec.{Exec}
use infrakube_multicluster.Options.{Sidecar, TaskOptions, container_names}
use infrakube_multicluster.Resource.{Terraform}
use infrakube_multicluster.Controller.Api.{Api, Error}
use infrakube_multicluster.Controller.Settings.{Config}
use infrakube_multicluster.Controller.Plugins.{Runner, Collected, name_exists}

-- The names of the containers of all the sidecars.
abbrev pub all_names : List Sidecar → List String
all_names [] = []
all_names (x ∷ xs) = container_names x ++ all_names xs

-- No sidecar has a container with a name of the ones before it, of which `seen` are given.
abbrev pub apart : (seen : List String) → List Sidecar → Bool
apart seen [] = true
apart seen (x ∷ xs) = not (name_exists seen x) && apart (seen ++ container_names x) xs

-- The names that are kept are those of the sidecars, and no two sidecars share one.
abbrev IsCollected : Collected → Type 0
IsCollected st = (st.sidecar_names ≡ all_names st.sidecars) × (apart [] st.sidecars ≡ true)

-- The sidecars of a pod that asks for approval, with the sidecar that could be made for it: they have
-- it, or one with a container of its name, and no two of them share the name of a container.
abbrev pub AskApproval : Option Sidecar → List Sidecar → Type 0
AskApproval approver sidecars =
    (s : Sidecar) × (approver ≡ some s)
    × (Among s sidecars ⊎ (name_exists (all_names sidecars) s ≡ true))
    × (apart [] sidecars ≡ true)

module _ {W : Type 0} (a : Api W) (c : Config) (r : Runner W)
    (other : Terraform → TaskOptions → Exec W (Option Error)) where
  -- The runner with another way to run a task.
  abbrev pub with_run : Runner W
  with_run = record r { setup_and_run = other }
