-- ===== src/Controller/Reconcile/Round.antt =====
-- A round of reconcile: what its calls keep, and the phases that it stores.
use infrakube_multicluster.Prelude.{
  ℕ, String, ◌≡◌, subst, sym, ◌||◌, eqb, refl, ◌≢◌, ◌⊎◌, inl, inr, Option, none, some, ◌==◌, arith,
  eq_iff, text_ne,
}
use infrakube_multicluster.Exec.{pure, lift, call, asks, ◌>>=◌}
use infrakube_multicluster.Exec.Ensures.{
  Any, keeps_call, keeps_perform, keeps_asks, keeps_lift, Returned, Ensures, Ensures-pure,
  Ensures-asks, Ensures-lift, Ensures-if, Ensures-bind, Ensures-option,
}
use infrakube_multicluster.Resource.{Terraform}
use infrakube_multicluster.Resource.Status.{
  StatusPhase, Interruptible, StageState, Stage, phase_deleting, phase_deleted, phase_initializing,
  phase_init_delete,
}
use infrakube_multicluster.Controller.Api.{Api}
use infrakube_multicluster.Controller.Settings.{Config}
use infrakube_multicluster.Controller.Plugins.{Runner}
use infrakube_multicluster.Controller.Updates.{update_status_with_retry, update}
use infrakube_multicluster.Controller.Writes.{RespectsIf, update_status-Ensures}
use infrakube_multicluster.Controller.Finalizers.{update_finalizer}
use infrakube_multicluster.Stages.{
  check_set_new_stage, choose, Choice, keep, move, nil_reason, set_choice, new_stage,
}
use infrakube_multicluster.Controller.Reconcile.Keeping.{
  Allows, saved-Ensures, Unfinished, run_stage-Ensures,
}
use infrakube_multicluster.Controller.Reconcile.Replies.{done, fails, reply_of}
use infrakube_multicluster.Controller.Reconcile.Status.{
  with_stage, initialized, with_first_stage, mark_deletion, mark_retry,
}
use infrakube_multicluster.Controller.Reconcile.Parts.{
  remove_finalizers, initialize, add_first_stage, enter_stage, remove_old_plan,
}
use infrakube_multicluster.Controller.Reconcile.{after_check, advance_stage, reconcile_found}
use infrakube_multicluster.Task.{TaskName}

module _ (Allowed : StatusPhase → Type 0) (allows : Allows Allowed) {W : Type 0} (a : Api W)
    (c : Config) (r : Runner W) (P : W → Type 0) (k : RespectsIf Allowed a r P) where
  abbrev IsAllowed : Terraform → Type 0
  IsAllowed tf = Allowed tf.status.phase

  -- The workflow may end, or has not.
  abbrev MayEnd : Terraform → Type 0
  MayEnd tf = Allowed phase_deleted ⊎ Unfinished tf

  -- What the choice of a stage leaves.
  abbrev Chosen : Terraform × Option Stage → Type 0
  Chosen checked = IsAllowed checked.0 × ((checked.1 ≢ none) ⊎ MayEnd checked.0)

  chosen-phase :
      (now : ℕ) (tf : Terraform) (t : TaskName) (reason : String) (i : Interruptible)
      (state : StageState)
      → let chosen = (new_stage now tf t reason i state).0 in
        (chosen.status.phase ≡ tf.status.phase) ⊎ (chosen.status.phase ≡ phase_initializing)
  unfolding new_stage
  chosen-phase now tf t reason i state = ground arith

  set_choice-Chosen :
      (now : ℕ) (tf : Terraform) (choice : Choice)
      → IsAllowed tf
      → MayEnd tf
      → Returned Chosen (set_choice now tf choice)
  unfolding set_choice
  set_choice-Chosen now tf keep d u = (d, inr u)
  set_choice-Chosen now tf nil_reason d u = tt
  set_choice-Chosen now tf (move t reason i s) d u = (
    elim (chosen-phase now tf t reason i s) [
      | inl e ↦ subst Allowed (sym e) d
      | inr e ↦ subst Allowed (sym e) allows.initializing
    ],
    inl (λ e. ground arith),
  )

  marked-phase :
      (now : ℕ) (tf : Terraform)
      → let marked = (mark_retry now (mark_deletion tf)).1 in
        (marked.status.phase ≡ tf.status.phase)
        ⊎ ((marked.status.phase ≡ phase_initializing) ⊎ (marked.status.phase ≡ phase_init_delete))
  unfolding mark_retry mark_deletion
  marked-phase now tf = ground arith

  mark-IsAllowed :
      (now : ℕ) (tf : Terraform) → IsAllowed tf → IsAllowed (mark_retry now (mark_deletion tf)).1
  mark-IsAllowed now tf d = elim (marked-phase now tf) [
    | inl e ↦ subst Allowed (sym e) d
    | inr (inl e) ↦ subst Allowed (sym e) allows.initializing
    | inr (inr e) ↦ subst Allowed (sym e) allows.init_delete
  ]

  mark-Unfinished :
      (now : ℕ) (tf : Terraform) → Unfinished tf → Unfinished (mark_retry now (mark_deletion tf)).1
  unfolding mark_retry mark_deletion
  mark-Unfinished now tf u = ground (
    arith,
    text_ne phase_initializing phase_deleting refl,
    text_ne phase_init_delete phase_deleting refl,
  )

  mark-MayEnd :
      (now : ℕ) (tf : Terraform) → MayEnd tf → MayEnd (mark_retry now (mark_deletion tf)).1
  mark-MayEnd now tf (inl may) = inl may
  mark-MayEnd now tf (inr u) = inr (mark-Unfinished now tf u)

  enter_stage-Ensures :
      (tf : Terraform) (stage : Stage) → IsAllowed tf → Ensures P Any (enter_stage a c r tf stage)
  unfolding enter_stage remove_old_plan
  enter_stage-Ensures tf stage d =
      Ensures-bind {Q = Any} _ _
        (Ensures-if
          (stage.reason == "RESTARTED_WORKFLOW" || stage.reason == "RESTARTED_DELETE_WORKFLOW") _ _
          (λ e. Ensures-bind (call _) _ (keeps_call _ (k.reaps _ _ _)) (λ x q. Ensures-pure tt tt))
          (λ e. Ensures-pure tt tt))
        (λ u q.
          Ensures-bind
            (update_status_with_retry a (with_stage tf stage) (some (with_stage tf stage).status)) _
            (update_status-Ensures Allowed a r P k (with_stage tf stage)
              (some (with_stage tf stage).status) d d)
            (λ result l.
              Ensures-bind {Q = Any} _ _
                (Ensures-if tf.spec.keep_latest_pods_only _ _
                  (λ e. keeps_perform _ (k.reaps_old result.1)) (λ e. Ensures-pure tt tt))
                (λ x q. Ensures-pure done tt)))

  checked-Ensures :
      (checked : Terraform × Option Stage)
      → Chosen checked
      → Ensures P Any (after_check a c r checked)
  checked-Ensures (tf, some stage) (d, u) = enter_stage-Ensures tf stage d
  checked-Ensures (tf, none) (d, inl u) = elim (u refl) [ ]
  checked-Ensures (tf, none) (d, inr u) = run_stage-Ensures Allowed allows a c r P k tf d u

  advance_stage-Ensures :
      (tf : Terraform) → IsAllowed tf → MayEnd tf → Ensures P Any (advance_stage a c r tf)
  unfolding advance_stage check_set_new_stage
  advance_stage-Ensures tf d u = Ensures-bind (asks a.now) _ (keeps_asks a.now) (λ now q.
      let (retry, marked) = mark_retry now (mark_deletion tf) in
      Ensures-bind
        (asks (λ w. check_set_new_stage (λ name. a.get_pod name w) now marked retry) >>= lift) _
        (Ensures-bind {Q = Returned Chosen}
          (asks (λ w. check_set_new_stage (λ name. a.get_pod name w) now marked retry)) lift
          (Ensures-asks _ (λ w p.
            set_choice-Chosen now marked (choose (λ name. a.get_pod name w) marked retry)
              (mark-IsAllowed now tf d) (mark-MayEnd now tf u)))
          (λ g h. Ensures-lift g h))
        (λ checked h. checked-Ensures checked h))

  updated-Ensures :
      (tf : Terraform) → Ensures P Any (update a tf >>= λ result. pure (reply_of result))
  unfolding update
  updated-Ensures tf =
      Ensures-bind {Q = Any} (update a tf) _
        (Ensures-bind (call (a.update_tf tf)) _ (keeps_call _ (k.updates tf)) (λ result q.
          Ensures-option result _ _ (λ e. Ensures-pure none tt) (λ x e. Ensures-pure _ tt)))
        (λ result q. Ensures-pure _ tt)

  initialize-Ensures : (tf : Terraform) → Ensures P Any (initialize a c r tf)
  unfolding initialize initialized
  initialize-Ensures tf =
      Ensures-bind (call _) _ (keeps_call _ (k.draws _ _))
        (λ text q. saved-Ensures Allowed allows a c r P k _ (λ e. done) allows.initializing)

  add_first_stage-Ensures :
      (tf : Terraform) → IsAllowed tf → Ensures P Any (add_first_stage a c r tf)
  unfolding add_first_stage with_first_stage new_stage
  add_first_stage-Ensures tf d =
      Ensures-bind (asks a.now) _ (keeps_asks a.now)
        (λ now q. saved-Ensures Allowed allows a c r P k _ fails d)

  -- A round on a resource that was read, where what it does with a deleted one is given.
  pub round-Ensures :
      (tf : Terraform)
      → IsAllowed tf
      → MayEnd tf
      → (tf.status.phase ≡ phase_deleted → Ensures P Any (remove_finalizers a c r tf))
      → Ensures P Any (reconcile_found a c r tf)
  unfolding reconcile_found
  round-Ensures tf d u deleted =
      Ensures-if (tf.status.phase == phase_deleted) _ _
        (λ e. deleted ((eq_iff tf.status.phase phase_deleted).0 e))
        (λ e. Ensures-bind (lift (update_finalizer tf)) _ (keeps_lift _) (λ changed q.
          Ensures-if changed.1 _ _ (λ e. updated-Ensures changed.0)
            (λ e.
              Ensures-if (tf.status.pod_name_prefix == "") _ _ (λ e. initialize-Ensures tf)
                (λ e.
                  Ensures-if (eqb tf.status.stage.generation 0) _ _
                    (λ e. add_first_stage-Ensures tf d) (λ e. advance_stage-Ensures tf d u)))))
