-- ===== src/Controller/Writes.antt =====
-- pkg/controllers/tf_controller.go: what the writes of a status keep, where its phase is allowed.
use infrakube_multicluster.Prelude.{ℕ, zero, suc, String, ◌≡◌, refl, ◌≢◌, Option, none, some, List}
use infrakube_multicluster.Exec.{Exec, call, ◌>>=◌}
use infrakube_multicluster.Exec.Ensures.{
  Any, keeps_call, Ensures, Ensures-pure, Ensures-call, Ensures-if, Ensures-bind,
}
use infrakube_multicluster.Kube.{NamespacedName, not_found, already_exists, other_error, PodStatus}
use infrakube_multicluster.Options.{TaskOptions}
use infrakube_multicluster.Resource.{Terraform}
use infrakube_multicluster.Resource.Status.{StatusPhase, TerraformStatus, phase_deleted}
use infrakube_multicluster.Controller.Api.{Api, Answer, found, failed, Error}
use infrakube_multicluster.Controller.Plugins.{Runner}
use infrakube_multicluster.Controller.Updates.{
  named, confirms, desired_or, Confirmation, confirmed, unconfirmed, unreadable, after_read,
  get_tf_resource, after_status, confirm, after_confirm, update_again, after_write, after_latest,
  after_update, update_status_with_retry,
}

abbrev pub NotDeleted : Terraform → Type 0
NotDeleted tf = tf.status.phase ≢ phase_deleted

-- What the calls of the world keep: a property that a status update keeps too, where the phase that it
-- writes is allowed, and whose answer then has an allowed phase.
pub record RespectsIf (Allowed : StatusPhase → Type 0) {W : Type 0} (a : Api W) (r : Runner W)
    (P : W → Type 0) : Type 0 where
  pub writes : (tf : Terraform) (w : W) → Allowed tf.status.phase → P w → P (a.update_status tf w).1
  pub answers :
      (tf echo : Terraform) (w : W)
      → Allowed tf.status.phase
      → (a.update_status tf w).0 ≡ found echo
      → Allowed echo.status.phase
  pub reads : (name : NamespacedName) (w : W) → P w → P (a.get_tf name w).1
  pub updates : (tf : Terraform) (w : W) → P w → P (a.update_tf tf w).1
  pub lists : (n g v : String) (w : W) → P w → P (a.list_pods n g v w).1
  pub deletes : (pod : PodStatus) (w : W) → P w → P (a.delete_pod pod w).1
  pub reaps :
      (n : String) (labels : List String) (f : String) (w : W)
      → P w
      → P (a.delete_pods_of n labels f w).1
  pub draws : (n : ℕ) (charset : String) (w : W) → P w → P (a.random_text n charset w).1
  pub creates : (tf : Terraform) (opts : TaskOptions) (w : W) → P w → P (r.create_job tf opts w)
  pub runs : (tf : Terraform) (opts : TaskOptions) → Ensures P Any (r.setup_and_run tf opts)
  pub reaps_old : (tf : Terraform) (w : W) → P w → P (r.reap_old_generation_pods tf w)

-- Where every phase is allowed but "deleted".
abbrev pub Respects : {W : Type 0} → Api W → Runner W → (W → Type 0) → Type 0
Respects a r P = RespectsIf (λ phase. phase ≢ phase_deleted) a r P

module _ (Allowed : StatusPhase → Type 0) {W : Type 0} (a : Api W) (r : Runner W) (P : W → Type 0)
    (k : RespectsIf Allowed a r P) where
  after_read-Ensures :
      (again : Exec W (Answer Terraform)) (answer : Answer Terraform)
      → Ensures P Any again
      → Ensures P Any (after_read a again answer)
  after_read-Ensures again (found tf) e = Ensures-pure (found tf) tt
  after_read-Ensures again (failed not_found) e = Ensures-pure (failed not_found) tt
  after_read-Ensures again (failed already_exists) e = e
  after_read-Ensures again (failed other_error) e = e

  pub get_tf_resource-Ensures :
      (name : NamespacedName) (n : ℕ) → Ensures P Any (get_tf_resource a name n)
  unfolding get_tf_resource
  get_tf_resource-Ensures name zero = keeps_call (a.get_tf name) (k.reads name)
  get_tf_resource-Ensures name (suc n) =
      Ensures-bind (call (a.get_tf name)) (after_read a (get_tf_resource a name n))
        (keeps_call (a.get_tf name) (k.reads name))
        (λ answer q. after_read-Ensures _ answer (get_tf_resource-Ensures name n))

  after_status-Ensures :
      (again : Exec W Confirmation) (desired : TerraformStatus) (answer : Answer Terraform)
      → Ensures P Any again
      → Ensures P Any (after_status a again desired answer)
  after_status-Ensures again desired (failed e) k = Ensures-pure unreadable tt
  after_status-Ensures again desired (found tf) k =
      Ensures-if (confirms tf.status desired) _ _ (λ e. Ensures-pure confirmed tt) (λ e. k)

  confirm-Ensures :
      (n : ℕ) (name : NamespacedName) (desired : TerraformStatus)
      → Ensures P Any (confirm a n name desired)
  unfolding confirm
  confirm-Ensures zero name desired = Ensures-pure unconfirmed tt
  confirm-Ensures (suc n) name desired =
      Ensures-bind (get_tf_resource a name 9) (after_status a (confirm a n name desired) desired)
        (get_tf_resource-Ensures name 9)
        (λ answer q. after_status-Ensures _ desired answer (confirm-Ensures n name desired))

  after_confirm-Ensures :
      (again : Option Error → Exec W (Option Error)) (c : Confirmation)
      → ((e : Option Error) → Ensures P Any (again e))
      → Ensures P Any (after_confirm a again c)
  after_confirm-Ensures again confirmed k = Ensures-pure none tt
  after_confirm-Ensures again unconfirmed k = k none
  after_confirm-Ensures again unreadable k = Ensures-pure _ tt

  after_latest-Ensures :
      (again : Option Error → Exec W (Option Error)) (name : NamespacedName)
      (desired : TerraformStatus) (answer : Answer Terraform)
      → Allowed desired.phase
      → ((e : Option Error) → Ensures P Any (again e))
      → Ensures P Any (after_latest a again name desired answer)
  after_latest-Ensures again name desired (failed e) d k' = Ensures-pure _ tt
  after_latest-Ensures again name desired (found tf) d k' =
      let tf' : Terraform = record tf { status = desired } in
      Ensures-bind (call (a.update_status tf')) (after_write a again name desired)
        (keeps_call (a.update_status tf') (λ w p. k.writes tf' w d p))
        (λ answer q. after_write-Ensures answer)
    where
      after_write-Ensures :
          (answer : Answer Terraform) → Ensures P Any (after_write a again name desired answer)
      after_write-Ensures (failed e) = k' _
      after_write-Ensures (found echo) =
          Ensures-bind (confirm a 10 name desired) (after_confirm a again)
            (confirm-Ensures 10 name desired) (λ c q. after_confirm-Ensures again c k')

  update_again-Ensures :
      (n : ℕ) (name : NamespacedName) (desired : TerraformStatus) (e : Option Error)
      → Allowed desired.phase
      → Ensures P Any (update_again a n name desired e)
  unfolding update_again
  update_again-Ensures zero name desired e d = Ensures-pure e tt
  update_again-Ensures (suc n) name desired e d =
      Ensures-bind (get_tf_resource a name 9)
        (after_latest a (update_again a n name desired) name desired)
        (get_tf_resource-Ensures name 9)
        (λ answer q.
          after_latest-Ensures _ name desired answer d
            (λ e. update_again-Ensures n name desired e d))

  -- The resource that an update leaves has an allowed phase too.
  abbrev pub Left : Option Error × Terraform → Type 0
  Left result = Allowed result.1.status.phase

  confirmed-Ensures :
      (name : NamespacedName) (desired : TerraformStatus)
      → Allowed desired.phase
      → Ensures P Any
          (confirm a 10 name desired >>= after_confirm a (update_again a 9 name desired))
  confirmed-Ensures name desired d =
      Ensures-bind (confirm a 10 name desired) (after_confirm a (update_again a 9 name desired))
        (confirm-Ensures 10 name desired)
        (λ c q. after_confirm-Ensures _ c (λ e. update_again-Ensures 9 name desired e d))

  after_update-Ensures :
      (tf : Terraform) (desired : Option TerraformStatus) (answer : Answer Terraform)
      → Allowed tf.status.phase
      → Allowed (desired_or desired tf.status).phase
      → ((echo : Terraform) → answer ≡ found echo → Allowed echo.status.phase)
      → Ensures P Left (after_update a tf desired answer)
  after_update-Ensures tf desired (failed e) d ne h =
      Ensures-bind (update_again a 9 (named tf) (desired_or desired tf.status) _) _
        (update_again-Ensures 9 (named tf) (desired_or desired tf.status) _ ne)
        (λ e q. Ensures-pure _ d)
  after_update-Ensures tf none (found echo) d ne h =
      let same = h echo refl in
      Ensures-bind
        (confirm a 10 (named tf) echo.status
          >>= after_confirm a (update_again a 9 (named tf) echo.status))
        _ (confirmed-Ensures (named tf) echo.status same) (λ e q. Ensures-pure _ same)
  after_update-Ensures tf (some copy) (found echo) d ne h =
      let same = h echo refl in
      Ensures-bind
        (confirm a 10 (named tf) copy >>= after_confirm a (update_again a 9 (named tf) copy)) _
        (confirmed-Ensures (named tf) copy ne) (λ e q. Ensures-pure _ same)

  pub update_status-Ensures :
      (tf : Terraform) (desired : Option TerraformStatus)
      → Allowed tf.status.phase
      → Allowed (desired_or desired tf.status).phase
      → Ensures P Left (update_status_with_retry a tf desired)
  unfolding update_status_with_retry
  update_status-Ensures tf desired d ne =
      Ensures-bind
        {Q = λ answer. (echo : Terraform) → answer ≡ found echo → Allowed echo.status.phase}
        (call (a.update_status tf)) (after_update a tf desired)
        (Ensures-call (a.update_status tf) (λ w p. k.writes tf w d p)
          (λ w p echo e. k.answers tf echo w d e))
        (λ answer h. after_update-Ensures tf desired answer d ne h)
