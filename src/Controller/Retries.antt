-- ===== src/Controller/Retries.antt =====
-- pkg/controllers/tf_controller.go: what the retries of `getTfResource` and `updateStatusWithRetry`
-- reach.
use infrakube_multicluster.Prelude.{
  ℕ, zero, suc, ◌≤◌, ◌<◌, ◌≡◌, refl, ◌∙◌, Bool, true, false, Option, none, arith,
}
use infrakube_multicluster.Exec.{returns, Exec, ◌>>=◌}
use infrakube_multicluster.Kube.{NamespacedName, not_found, already_exists, other_error}
use infrakube_multicluster.Resource.{Terraform}
use infrakube_multicluster.Resource.Status.{TerraformStatus}
use infrakube_multicluster.Controller.Api.{Api, Answer, found, failed}
use infrakube_multicluster.Controller.Updates.{
  named, confirms, desired_or, confirmed, after_read, get_tf_resource, confirm,
  update_status_with_retry,
}

-- An answer that getTfResource does not try again.
abbrev pub is_final : Answer Terraform → Bool
is_final (found tf) = true
is_final (failed not_found) = true
is_final (failed already_exists) = false
is_final (failed other_error) = false

module _ {W : Type 0} (a : Api W) (name : NamespacedName) where
  -- Reads that end with an answer after so many others that failed.
  pub data Reads : ℕ → W → Answer Terraform → W → Type 0 where
    reads_now :
        (w : W)
        → is_final (a.get_tf name w).0 ≡ true
        → Reads 0 w (a.get_tf name w).0 (a.get_tf name w).1
    reads_later :
        (n : ℕ) (w w' : W) (answer : Answer Terraform)
        → is_final (a.get_tf name w).0 ≡ false
        → Reads n (a.get_tf name w).1 answer w'
        → Reads (suc n) w answer w'

  read-final :
      (again : Exec W (Answer Terraform)) (answer : Answer Terraform) (w : W)
      → is_final answer ≡ true
      → after_read a again answer w ≡ (returns answer, w)
  read-final again (found tf) w h = refl
  read-final again (failed not_found) w h = refl
  read-final again (failed already_exists) w h = ground arith
  read-final again (failed other_error) w h = ground arith

  read-again :
      (again : Exec W (Answer Terraform)) (answer : Answer Terraform) (w : W)
      → is_final answer ≡ false
      → after_read a again answer w ≡ again w
  read-again again (found tf) w h = ground arith
  read-again again (failed not_found) w h = ground arith
  read-again again (failed already_exists) w h = refl
  read-again again (failed other_error) w h = refl

  -- Where the resource can be read, or is known not to exist, after at most as many failures as there
  -- are retries, getTfResource answers so, with the first such answer.
  pub get_tf_resource-Reads :
      (n max : ℕ) (w w' : W) (answer : Answer Terraform)
      → n ≤ max
      → Reads n w answer w'
      → get_tf_resource a name max w ≡ (returns answer, w')
  unfolding get_tf_resource ◌>>=◌
  get_tf_resource-Reads _ zero w _ _ le (reads_now _ h) = refl
  get_tf_resource-Reads _ (suc max) w _ _ le (reads_now _ h) =
      read-final (get_tf_resource a name max) (a.get_tf name w).0 (a.get_tf name w).1 h
  get_tf_resource-Reads _ zero w w' answer le (reads_later n _ _ _ h r) = ground arith
  get_tf_resource-Reads _ (suc max) w w' answer le (reads_later n _ _ _ h r) =
      read-again (get_tf_resource a name max) (a.get_tf name w).0 (a.get_tf name w).1 h
      ∙ get_tf_resource-Reads n max (a.get_tf name w).1 w' answer (omega arith) r

  -- Reads that end with one that confirms the desired status, after so many others that do not.
  pub data Shows (desired : TerraformStatus) : ℕ → W → W → Type 0 where
    shows_now :
        (w w' : W) (tf : Terraform)
        → get_tf_resource a name 9 w ≡ (returns (found tf), w')
        → confirms tf.status desired ≡ true
        → Shows desired 0 w w'
    shows_later :
        (n : ℕ) (w w1 w' : W) (tf : Terraform)
        → get_tf_resource a name 9 w ≡ (returns (found tf), w1)
        → confirms tf.status desired ≡ false
        → Shows desired n w1 w'
        → Shows desired (suc n) w w'

  confirm-Shows :
      (desired : TerraformStatus) (n max : ℕ) (w w' : W)
      → n < max
      → Shows desired n w w'
      → confirm a max name desired w ≡ (returns confirmed, w')
  unfolding confirm ◌>>=◌
  confirm-Shows desired _ zero w w' lt s = ground arith
  confirm-Shows desired _ (suc max) w w' lt (shows_now _ _ tf r h) = rw (r, h) refl
  confirm-Shows desired _ (suc max) w w' lt (shows_later n _ w1 _ tf r h s) =
      rw (r, h) (confirm-Shows desired n max w1 w' (omega arith) s)

-- A status update that the server takes is done without an error and without another update, once a
-- read shows the desired status before the tenth that does not.
pub update_status-Shows :
    {W : Type 0} (a : Api W) (tf echo : Terraform) (desired : Option TerraformStatus) (n : ℕ)
    (w w1 w' : W)
    → a.update_status tf w ≡ (found echo, w1)
    → Shows a (named tf) (desired_or desired echo.status) n w1 w'
    → n < 10
    → update_status_with_retry a tf desired w ≡ (returns (none, echo), w')
unfolding update_status_with_retry ◌>>=◌
update_status-Shows a tf echo desired n w w1 w' u s lt =
    rw (u, confirm-Shows a (named tf) (desired_or desired echo.status) n 10 w1 w' lt s) refl
