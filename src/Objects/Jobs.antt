-- ===== src/Objects/Jobs.antt =====
-- pkg/controllers/tf_controller.go, generateJob: which jobs there are.
use infrakube_multicluster.Prelude.{
  String, Bool, true, false, ◌||◌, Option, none, some, ◌≡◌, ◌≢◌, ◌⊎◌, inl, inr, refl, arith, ◌==◌,
  if◌then◌else◌,
}
use infrakube_multicluster.Exec.{returns, panics}
use infrakube_multicluster.Options.{TaskOptions}
use infrakube_multicluster.Objects.Types.{Pod, Job}
use infrakube_multicluster.Objects.Volumes.{validate_volume}
use infrakube_multicluster.Objects.Pods.{
  generate_job, generate_pod, pod_of, job_of, job_of_pod, job_restart_policy, unless_refused,
}

-- The restart policies that a job may have.
abbrev pub IsJobPolicy : String → Type 0
IsJobPolicy policy = (policy ≡ "OnFailure") ⊎ (policy ≡ "Never")

job_restart_policy-IsJobPolicy : (policy : String) → IsJobPolicy (job_restart_policy policy)
job_restart_policy-IsJobPolicy policy = choice (policy == "Always" || policy == "OnFailure")
  where
    choice : (b : Bool) → IsJobPolicy (if b then "OnFailure" else "Never")
    choice true = inl refl
    choice false = inr refl

job_of_checked :
    (checked : Option String) (pod : Pod)
    → ((checked ≢ none) × (job_of (unless_refused checked pod) ≡ panics))
      ⊎ ((checked ≡ none)
          × (job : Job) × (job_of (unless_refused checked pod) ≡ returns job)
          × IsJobPolicy job.template.restart_policy)
job_of_checked none pod =
    inr (refl, job_of_pod pod, refl, job_restart_policy-IsJobPolicy pod.spec.restart_policy)
job_of_checked (some e) pod = inl (λ h. ground arith, refl)

-- The job of a plugin panics exactly where the volumes of its options are refused; otherwise its
-- restart policy is one that a job may have.
pub generate_job_lem :
    (r : TaskOptions)
    → ((validate_volume r ≢ none) × (generate_job r ≡ panics))
      ⊎ ((validate_volume r ≡ none)
          × (job : Job) × (generate_job r ≡ returns job)
          × IsJobPolicy job.template.restart_policy)
unfolding generate_job generate_pod
generate_job_lem r = job_of_checked (validate_volume r) (pod_of r)
