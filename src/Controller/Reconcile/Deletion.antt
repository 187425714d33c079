-- ===== src/Controller/Reconcile/Deletion.antt =====
-- When a round may store the phase "deleted", which lets the finalizers go.
use infrakube_multicluster.Prelude.{refl, ◌≢◌, inr, text_ne}
use infrakube_multicluster.Resource.{Terraform}
use infrakube_multicluster.Resource.Status.{
  phase_deleting, phase_deleted, phase_initializing, phase_init_delete, phase_running,
  phase_completed,
}
use infrakube_multicluster.Controller.Api.{Api}
use infrakube_multicluster.Controller.Settings.{Config}
use infrakube_multicluster.Controller.Plugins.{Runner}
use infrakube_multicluster.Controller.Writes.{NotDeleted, Respects}
use infrakube_multicluster.Controller.Reconcile.Keeping.{Allows, Unfinished}
use infrakube_multicluster.Controller.Reconcile.{reconcile_found}
use infrakube_multicluster.Controller.Reconcile.Round.{round-Ensures}

not_deleted-Allows : Allows (λ phase. phase ≢ phase_deleted)
not_deleted-Allows = record {
  initializing = text_ne phase_initializing phase_deleted refl;
  init_delete = text_ne phase_init_delete phase_deleted refl;
  running = text_ne phase_running phase_deleted refl;
  deleting = text_ne phase_deleting phase_deleted refl;
  completed = text_ne phase_completed phase_deleted refl;
}

module _ {W : Type 0} (a : Api W) (c : Config) (r : Runner W) (P : W → Type 0)
    (k : Respects a r P) where
  -- A round that reads a resource that is not deleted keeps every property of the world that a status
  -- update of another phase than "deleted" keeps, unless the phase is "deleting" and the stage has no
  -- task left: so only the end of the delete workflow stores the phase that lets the finalizers go.
  -- The other calls keep the property too, and a status update answers with the phase it was given.
  pub reconcile_found-NotDeleted :
      (tf : Terraform) (w : W)
      → NotDeleted tf
      → Unfinished tf
      → P w
      → P (reconcile_found a c r tf w).1
  reconcile_found-NotDeleted tf w d u p =
      (round-Ensures (λ phase. phase ≢ phase_deleted) not_deleted-Allows a c r P k tf d (inr u)
          (λ e. elim (d e) [ ])).kept
        w p
