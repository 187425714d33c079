-- ===== src/Scenarios/Deletion.antt =====
-- The server of Scenarios/Server keeps a resource from the phase "deleted".
use infrakube_multicluster.Prelude.{◌≡◌, refl, ap, sym, ◌∙◌, ℕ, inl, String, zero, suc, text_ne}
use infrakube_multicluster.Exec.Ensures.{Ensures-pure}
use infrakube_multicluster.Resource.{Terraform}
use infrakube_multicluster.Resource.Status.{phase_running, phase_deleting, phase_deleted}
use infrakube_multicluster.Controller.Api.{Answer, found, failed}
use infrakube_multicluster.Controller.Writes.{NotDeleted, Respects}
use infrakube_multicluster.Controller.Reconcile.{reconcile_found}
use infrakube_multicluster.Controller.Reconcile.Deletion.{reconcile_found-NotDeleted}
use infrakube_multicluster.Scenarios.Server.{
  World, read_at, read, server, config, runner, planning, failing,
}

abbrev StoredNotDeleted : World → Type 0
StoredNotDeleted w = NotDeleted w.stored

phase_of : Answer Terraform → String
phase_of (found tf) = tf.status.phase
phase_of (failed e) = ""

read_at-stored : (n : ℕ) (w : World) → (read_at n w).1.stored ≡ w.stored
read_at-stored zero w = refl
read_at-stored (suc n) w = refl

respects : Respects server runner StoredNotDeleted
unfolding phase_of read
respects = record {
  writes = λ tf w d p. d;
  answers = λ tf echo w d e x. d (ap phase_of e ∙ x);
  reads = λ name w p x. p (sym (ap (λ tf. tf.status.phase) (read_at-stored w.failures w)) ∙ x);
  updates = λ tf w p. p;
  lists = λ n g v w p. p;
  deletes = λ pod w p. p;
  reaps = λ n labels f w p. p;
  draws = λ n charset w p. p;
  creates = λ tf opts w p. p;
  runs = λ tf opts. Ensures-pure _ tt;
  reaps_old = λ tf w p. p;
}

reconcile_found-NotDeleted_example :
    StoredNotDeleted (reconcile_found server config runner planning (failing 0)).1
reconcile_found-NotDeleted_example =
    reconcile_found-NotDeleted server config runner StoredNotDeleted respects planning (failing 0)
      (text_ne phase_running phase_deleted refl) (inl (text_ne phase_running phase_deleting refl))
      (text_ne phase_running phase_deleted refl)
