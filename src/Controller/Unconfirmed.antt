-- ===== src/Controller/Unconfirmed.antt =====
-- pkg/controllers/tf_controller.go, updateStatusWithRetry: a status that no read ever shows.
use infrakube_multicluster.Prelude.{ℕ, zero, suc, ◌≡◌, refl, ap, ◌∙◌, false, Option, none}
use infrakube_multicluster.Exec.{returns, Exec, pure, call, ◌>>=◌}
use infrakube_multicluster.Exec.Yields.{Yields, Yields-pure, Yields-call, Yields-bind}
use infrakube_multicluster.Kube.{NamespacedName}
use infrakube_multicluster.Resource.{Terraform}
use infrakube_multicluster.Resource.Status.{TerraformStatus}
use infrakube_multicluster.Controller.Api.{Api, Answer, found, Error}
use infrakube_multicluster.Controller.Updates.{
  named, confirms, Confirmation, unconfirmed, after_read, get_tf_resource, after_status, confirm,
  after_confirm, update_again, after_write, after_latest, after_update, update_status_with_retry,
  desired_or,
}

-- A read that shows another status than the desired one, and an update that is taken.
abbrev pub ShowsOther : TerraformStatus → Answer Terraform → Type 0
ShowsOther desired answer =
    (tf : Terraform) × (answer ≡ found tf) × (confirms tf.status desired ≡ false)

abbrev pub IsTaken : Answer Terraform → Type 0
IsTaken answer = (echo : Terraform) × (answer ≡ found echo)

abbrev IsUnconfirmed : Confirmation → Type 0
IsUnconfirmed c = c ≡ unconfirmed

abbrev NoError : Option Error → Type 0
NoError e = e ≡ none

-- A server that takes each update and never shows the desired status, as long as `P` holds of it.
pub record Stale {W : Type 0} (a : Api W) (P : W → Type 0) (name : NamespacedName)
    (desired : TerraformStatus) : Type 0 where
  pub writes : (tf : Terraform) (w : W) → P w → P (a.update_status tf w).1
  pub takes : (tf : Terraform) (w : W) → P w → IsTaken (a.update_status tf w).0
  pub reads : (w : W) → P w → P (a.get_tf name w).1
  pub shows : (w : W) → P w → ShowsOther desired (a.get_tf name w).0

module _ {W : Type 0} (a : Api W) (P : W → Type 0) (name : NamespacedName)
    (desired : TerraformStatus) (k : Stale a P name desired) where
  after_read-Yields :
      (again : Exec W (Answer Terraform)) (answer : Answer Terraform)
      → ShowsOther desired answer
      → Yields P (ShowsOther desired) (after_read a again answer)
  after_read-Yields again answer (tf, h, c) = rw h (Yields-pure (found tf) (tf, refl, c))

  get_tf_resource-Yields : (n : ℕ) → Yields P (ShowsOther desired) (get_tf_resource a name n)
  unfolding get_tf_resource
  get_tf_resource-Yields zero = Yields-call (a.get_tf name) k.reads k.shows
  get_tf_resource-Yields (suc n) =
      Yields-bind (call (a.get_tf name)) (after_read a (get_tf_resource a name n))
        (Yields-call (a.get_tf name) k.reads k.shows)
        (λ answer q. after_read-Yields (get_tf_resource a name n) answer q)

  after_status-Yields :
      (again : Exec W Confirmation) (answer : Answer Terraform)
      → ShowsOther desired answer
      → Yields P IsUnconfirmed again
      → Yields P IsUnconfirmed (after_status a again desired answer)
  after_status-Yields again answer (tf, h, c) y = rw (h, c) y

  confirm-Yields : (n : ℕ) → Yields P IsUnconfirmed (confirm a n name desired)
  unfolding confirm
  confirm-Yields zero = Yields-pure unconfirmed refl
  confirm-Yields (suc n) =
      Yields-bind (get_tf_resource a name 9) (after_status a (confirm a n name desired) desired)
        (get_tf_resource-Yields 9)
        (λ answer q. after_status-Yields (confirm a n name desired) answer q (confirm-Yields n))

  confirmed-Yields :
      (again : Option Error → Exec W (Option Error))
      → Yields P NoError (again none)
      → Yields P NoError (confirm a 10 name desired >>= after_confirm a again)
  confirmed-Yields again y =
      Yields-bind (confirm a 10 name desired) (after_confirm a again) (confirm-Yields 10)
        (λ c e. rw e y)

  update_again-Yields :
      (n : ℕ) (e : Option Error) → e ≡ none → Yields P NoError (update_again a n name desired e)
  unfolding update_again
  update_again-Yields zero e h = Yields-pure e h
  update_again-Yields (suc n) e h =
      Yields-bind (get_tf_resource a name 9)
        (after_latest a (update_again a n name desired) name desired) (get_tf_resource-Yields 9)
        (λ answer (tf, e, c). rw e (
          Yields-bind {Q = IsTaken} (call (a.update_status (record tf { status = desired })))
            (after_write a (update_again a n name desired) name desired)
            (Yields-call _ (k.writes _) (k.takes _))
            (λ answer (echo, e). rw e (
              confirmed-Yields (update_again a n name desired) (update_again-Yields n none refl)))))

after_update-Yields :
    {W : Type 0} (a : Api W) (P : W → Type 0) (tf echo : Terraform)
    (desired : Option TerraformStatus)
    → Stale a P (named tf) (desired_or desired echo.status)
    → Yields P (λ result. result ≡ (none, echo)) (after_update a tf desired (found echo))
after_update-Yields a P tf echo desired k =
    let d = desired_or desired echo.status in
    let again = update_again a 9 (named tf) d in
    Yields-bind {Q = NoError} (confirm a 10 (named tf) d >>= after_confirm a again)
      (λ error. pure (error, echo))
      (confirmed-Yields a P (named tf) d k again
        (update_again-Yields a P (named tf) d k 9 none refl))
      (λ error e. Yields-pure (error, echo) (ap (λ x. (x, echo)) e))

-- A status that the server takes each time and that no read ever shows is reported as stored: after all
-- its rounds updateStatusWithRetry returns no error, and the caller's resource is the answer to its
-- first update. This is so where the desired status is a copy, and where it is the status of the
-- caller's resource itself, which that answer then sets.
pub update_status-unconfirmed :
    {W : Type 0} (a : Api W) (P : W → Type 0) (tf echo : Terraform)
    (desired : Option TerraformStatus) (w : W)
    → (a.update_status tf w).0 ≡ found echo
    → P (a.update_status tf w).1
    → Stale a P (named tf) (desired_or desired echo.status)
    → (update_status_with_retry a tf desired w).0 ≡ returns (none, echo)
unfolding update_status_with_retry ◌>>=◌
update_status-unconfirmed a P tf echo desired w taken p k =
    let (result, h, q) = (after_update-Yields a P tf echo desired k).value _ p in
    ap (λ answer. (after_update a tf desired answer (a.update_status tf w).1).0) taken
    ∙ h
    ∙ ap returns q
