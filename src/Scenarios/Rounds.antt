-- ===== src/Scenarios/Rounds.antt =====
-- Outputs that come and go, and a plan that asks for approval.
use infrakube_multicluster.Prelude.{
  String, ◌≡◌, refl, true, some, none, [], ◌∷◌, Dict, lookup, Option,
}
use infrakube_multicluster.Exec.{Exec, panics, lift}
use infrakube_multicluster.Utils.{list_contains_str}
use infrakube_multicluster.Task.{run_plan}
use infrakube_multicluster.Options.{Sidecar, TaskOptions, Inherited}
use infrakube_multicluster.Resource.{Terraform}
use infrakube_multicluster.Controller.Api.{Error}
use infrakube_multicluster.Controller.Plugins.{Runner}
use infrakube_multicluster.Controller.Reconcile.Status.{update_outputs}
use infrakube_multicluster.Controller.Reconcile.Outputs.{lookup-update_outputs}
use infrakube_multicluster.Scenarios.Server.{World, runner}
use infrakube_multicluster.Scenarios.Stores.{plan_options}

abbrev written : Dict String
written = ("vpc", "old") ∷ ("gone", "1") ∷ []

abbrev fresh : Dict String
fresh = ("vpc", "new") ∷ ("subnet", "2") ∷ []

lookup-update_outputs_example : lookup "gone" (update_outputs written fresh) ≡ lookup "gone" fresh
unfolding list_contains_str
lookup-update_outputs_example = lookup-update_outputs "gone" written fresh refl

abbrev approver : Sidecar
approver = record {
  containers =
      record {
        name = "require-approval";
        image = "";
        image_pull_policy = "IfNotPresent";
        env_from = [];
        env = [];
        volume_mounts = [];
      }
      ∷ [];
  volumes = [];
}

abbrev inherit_none : Inherited
inherit_none = record { affinity = none; node_selector = []; tolerations = [] }

abbrev approving : Runner World
approving = record runner { generate_sidecar = λ opts. some approver }

-- A runner that gives up where a pod has no sidecar.
abbrev unless_alone : Terraform → TaskOptions → Exec World (Option Error)
unless_alone tf opts = elim opts.sidecar_plugins [
  | [] ↦ lift panics
  | s ∷ rest ↦ approving.setup_and_run tf opts
]

abbrev approved_options : TaskOptions
approved_options = record plan_options { task = run_plan; require_approval = true }
