-- ===== src/Controller/Updates.antt =====
-- pkg/controllers/tf_controller.go: `getTfResource`, `update` and `updateStatusWithRetry`. The
-- waits between two attempts are left out.
use infrakube_multicluster.Prelude.{
  ℕ, zero, suc, Bool, ◌&&◌, Option, none, some, ◌==◌, if◌then◌else◌,
}
use infrakube_multicluster.Exec.{Exec, pure, call, ◌>>=◌}
use infrakube_multicluster.Task.{task_lists_are_equal}
use infrakube_multicluster.Kube.{NamespacedName, not_found, already_exists, other_error}
use infrakube_multicluster.Resource.{Terraform}
use infrakube_multicluster.Resource.Status.{TerraformStatus, is_equal}
use infrakube_multicluster.Controller.Api.{Api, Answer, found, failed, Error, message}

abbrev pub named : Terraform → NamespacedName
named tf = record { namespace = tf.namespace; name = tf.name }

-- What the loop of updateStatusWithRetry confirms: the plugins, the stage by IsEqual, the phase and
-- the prefix.
unfoldable pub confirms : TerraformStatus → TerraformStatus → Bool
confirms status desired =
    task_lists_are_equal status.plugins_started desired.plugins_started
    && (is_equal status.stage desired.stage == "")
    && (status.phase == desired.phase)
    && (status.pod_name_prefix == desired.pod_name_prefix)

-- The status that a pointer stands for: the resource's own, or the copy.
abbrev pub desired_or : Option TerraformStatus → TerraformStatus → TerraformStatus
desired_or none own = own
desired_or (some copy) own = copy

pub data Confirmation : Type 0 where
  confirmed unconfirmed unreadable : Confirmation

module _ {W : Type 0} (a : Api W) where
  -- What follows a read: `again` is the next one.
  abbrev pub after_read : Exec W (Answer Terraform) → Answer Terraform → Exec W (Answer Terraform)
  after_read again (found tf) = pure (found tf)
  after_read again (failed not_found) = pure (failed not_found)
  after_read again (failed already_exists) = again
  after_read again (failed other_error) = again

  -- getTfResource, with the attempts that may follow the first: maxRetry is one more. An error other
  -- than "not found" is tried again.
  unfoldable pub get_tf_resource : NamespacedName → ℕ → Exec W (Answer Terraform)
  get_tf_resource name zero = call (a.get_tf name)
  get_tf_resource name (suc later) =
      let again = get_tf_resource name later in call (a.get_tf name) >>= after_read again

  -- update, with its error.
  unfoldable pub update : Terraform → Exec W (Option Error)
  update tf = call (a.update_tf tf) >>= λ result. elim result [
    | none ↦ pure none
    | some e ↦ pure (some (message "failed to update tf resource"))
  ]

  -- What follows a read of the inner loop of updateStatusWithRetry.
  abbrev pub after_status :
      Exec W Confirmation → TerraformStatus → Answer Terraform → Exec W Confirmation
  after_status again desired (failed e) = pure unreadable
  after_status again desired (found tf) =
      if confirms tf.status desired then pure confirmed else again

  -- The inner loop of updateStatusWithRetry, with the rounds left: the resource is read until it
  -- shows the desired status.
  unfoldable pub confirm : ℕ → NamespacedName → TerraformStatus → Exec W Confirmation
  confirm zero name desired = pure unconfirmed
  confirm (suc left) name desired =
      let again = confirm left name desired in get_tf_resource name 9 >>= after_status again desired

  -- What follows an attempt of the outer loop: `again` is the next one, with its `updateErr`.
  abbrev pub after_confirm :
      (Option Error → Exec W (Option Error)) → Confirmation → Exec W (Option Error)
  after_confirm again confirmed = pure none
  after_confirm again unconfirmed = again none
  after_confirm again unreadable =
      pure (some (message "failed to get latest tf while validating status"))

  -- What follows a later update of the outer loop.
  abbrev pub after_write :
      (Option Error → Exec W (Option Error))
      → NamespacedName
      → TerraformStatus
      → Answer Terraform
      → Exec W (Option Error)
  after_write again name desired (failed e) = again (some (message "failed to update tf status"))
  after_write again name desired (found echo) = confirm 10 name desired >>= after_confirm again

  -- What follows the read of a later round.
  abbrev pub after_latest :
      (Option Error → Exec W (Option Error))
      → NamespacedName
      → TerraformStatus
      → Answer Terraform
      → Exec W (Option Error)
  after_latest again name desired (failed e) =
      pure (some (message "failed to get latest tf while updating status"))
  after_latest again name desired (found tf) =
      call (a.update_status (record tf { status = desired })) >>= after_write again name desired

  -- The rounds of the outer loop after the first, with the `updateErr` of the round before: the
  -- latest resource is read, and takes the desired status.
  unfoldable pub update_again :
      ℕ → NamespacedName → TerraformStatus → Option Error → Exec W (Option Error)
  update_again zero name desired update_err = pure update_err
  update_again (suc left) name desired update_err =
      let again = update_again left name desired in
      get_tf_resource name 9 >>= after_latest again name desired

  -- What follows the first update of updateStatusWithRetry.
  abbrev pub after_update :
      Terraform → Option TerraformStatus → Answer Terraform → Exec W (Option Error × Terraform)
  after_update tf desired (failed e) =
      update_again 9 (named tf) (desired_or desired tf.status)
        (some (message "failed to update tf status"))
      >>= λ error. pure (error, tf)
  after_update tf desired (found echo) =
      let d = desired_or desired echo.status in
      confirm 10 (named tf) d >>= after_confirm (update_again 9 (named tf) d) >>= λ error.
      pure (error, echo)

  -- updateStatusWithRetry, with the caller's resource as it is left: a first update that succeeds
  -- decodes the answer into it. The desired status is the resource's own, where the caller passes a
  -- pointer to it (`none`), or a copy.
  unfoldable pub update_status_with_retry :
      Terraform → Option TerraformStatus → Exec W (Option Error × Terraform)
  update_status_with_retry tf desired = call (a.update_status tf) >>= after_update tf desired
