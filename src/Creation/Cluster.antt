-- ===== src/Creation/Cluster.antt =====
-- The client of a cluster, as pkg/controllers/tf_controller.go uses it on the objects of tasks: reads,
-- creations, updates and deletions by kind and name, and the recorder of events.
use infrakube_multicluster.Prelude.{String, Option, none, some}
use infrakube_multicluster.Exec.{Exec, pure, ◌>>=◌}
use infrakube_multicluster.Kube.{NamespacedName, ApiError}
use infrakube_multicluster.Resource.{Terraform}
use infrakube_multicluster.Objects.{Kind, Object, VolumeClaim, Pod, Job}
use infrakube_multicluster.Controller.Api.{Answer, Error, api}

-- What is created has the resource as its owner (controllerutil.SetControllerReference). An object is
-- deleted by the key under which it was read.
pub record Cluster (W : Type 0) : Type 0 where
  pub get_object : Kind → NamespacedName → W → Answer Object
  pub create_object : Terraform → Object → W → Option ApiError × W
  pub update_object : Terraform → Object → W → Option ApiError × W
  pub delete_object : Kind → NamespacedName → W → Option ApiError × W
  pub get_claim : NamespacedName → W → Answer VolumeClaim
  pub create_claim : Terraform → VolumeClaim → W → Option ApiError × W
  pub create_pod : Terraform → Pod → W → Option ApiError × W
  pub create_job : Terraform → Job → W → Option ApiError × W
  pub record_event : (kind reason : String) → W → W

abbrev pub wrapped : Option ApiError → Option Error
wrapped none = none
wrapped (some e) = some (api e)

abbrev pub after_error {ℓ} : {W E : Type ℓ} → Option E → Exec W (Option E) → Exec W (Option E)
after_error (some e) next = pure (some e)
after_error none next = next

infixr 4 ◌>>?◌
-- if err := m; err != nil { return err }; next
unfoldable pub ◌>>?◌ {ℓ} :
    {W E : Type ℓ} → Exec W (Option E) → Exec W (Option E) → Exec W (Option E)
m >>? next = m >>= λ result. after_error result next
