-- ===== src/Stages/Runs.antt =====
-- What a resource runs when each of its stages completes: the walk of `Workflow.Sequence`.
use infrakube_multicluster.Prelude.{
  ℕ, zero, suc, ◌+◌, ◌<◌, ◌≡◌, refl, ap, ◌∙◌, sym, false, Option, none, some, List, [], ◌∷◌, ◌++◌,
  arith, ◌==◌, eqb_refl, length, if◌then◌else◌, Bool-cases, inl, inr,
}
use infrakube_multicluster.Task.{TaskName, run_nil}
use infrakube_multicluster.Kube.{NamespacedName, ApiError}
use infrakube_multicluster.Resource.{Terraform, TerraformSpec}
use infrakube_multicluster.Resource.Status.{Stage, state_complete}
use infrakube_multicluster.Workflow.{get_configured_tasks, next_task}
use infrakube_multicluster.Workflow.Sequence.{IsWorkflow, walk, selected, walk-workflow}
use infrakube_multicluster.Exec.{Go, returns, panics}
use infrakube_multicluster.Stages.{choose, set_choice, check_set_new_stage, completed_choice}

-- The resource after its stage has completed, and after the reconciler has stored a new stage.
abbrev pub complete : Terraform → Terraform
complete tf = record tf {
  status = record tf.status { stage = record tf.status.stage { state = state_complete } };
}

abbrev pub with_stage : Terraform → Stage → Terraform
with_stage tf stage = record tf { status = record tf.status { stage = stage } }

abbrev pub configured_tasks : Terraform → List TaskName
configured_tasks tf = get_configured_tasks (some tf.spec.task_options)

module _ (get_pod : NamespacedName → Option ApiError) (now : ℕ) where
  abbrev after_check : Terraform → Go (Terraform × Option Stage) → Terraform
  after_check tf (returns (tf', some stage)) = with_stage tf' stage
  after_check tf (returns (tf', none)) = tf'
  after_check tf panics = tf

  -- The resource in the stage that follows, once the present one has completed.
  pub advance : Terraform → Terraform
  advance tf = after_check tf (check_set_new_stage get_pod now (complete tf) false)

  -- The tasks of the stages that the resource goes through, as each completes, `n` of them at most.
  pub stages_run : ℕ → Terraform → List TaskName
  stages_run zero tf = []
  stages_run (suc n) tf =
      let rest = stages_run n (advance tf) in
      if tf.status.stage.task_type == run_nil then [] else tf.status.stage.task_type ∷ rest

  choose-complete :
      (tf : Terraform)
      → tf.status.stage.generation ≡ tf.generation
      → choose get_pod (complete tf) false
        ≡ completed_choice (configured_tasks tf) (complete tf).status.stage
  unfolding choose
  choose-complete tf g = ground (arith, eqb_refl tf.generation)

  -- One completed stage of the present generation.
  advance-next_task :
      (tf : Terraform)
      → tf.status.stage.generation ≡ tf.generation
      → (tf.status.stage.task_type == run_nil) ≡ false
      → (advance tf).status.stage.task_type
          ≡ next_task tf.status.stage.task_type (configured_tasks tf)
        × ((advance tf).status.stage.generation ≡ tf.generation)
        × ((advance tf).generation ≡ tf.generation)
        × ((advance tf).spec ≡ tf.spec)
  unfolding advance check_set_new_stage completed_choice set_choice
  advance-next_task tf g t = rw (choose-complete tf g) (rw t (ground arith))

  -- The stages follow the walk of `next_task`.
  stages_run-walk :
      (n : ℕ) (tf : Terraform)
      → tf.status.stage.generation ≡ tf.generation
      → stages_run n tf ≡ walk n tf.status.stage.task_type (configured_tasks tf)
  unfolding stages_run walk
  stages_run-walk zero tf g = refl
  stages_run-walk (suc n) tf g = elim (Bool-cases (tf.status.stage.task_type == run_nil)) [
    | inl done ↦ rw done refl
    | inr more ↦
        let (task, generation, same, spec) = advance-next_task tf g more in
        let ih = stages_run-walk n (advance tf) (generation ∙ sym same) in
        rw more (
          ap (λ l. tf.status.stage.task_type ∷ l)
            (ih
              ∙ ap (λ t. walk n t (configured_tasks (advance tf))) task
              ∙ ap
                  (λ (s : TerraformSpec).
                    walk n (next_task tf.status.stage.task_type (configured_tasks tf))
                      (get_configured_tasks (some s.task_options)))
                  spec))
  ]

  -- From a stage of the present generation on, in either workflow, a resource whose stages all
  -- complete goes through exactly the configured tasks behind it, each once and in the order of
  -- the workflow, and then ends; `n` need only exceed the number of those places.
  pub stages_run-selected :
      (w pre post : List TaskName) (tf : Terraform) (n : ℕ)
      → IsWorkflow w
      → w ≡ pre ++ tf.status.stage.task_type ∷ post
      → tf.status.stage.generation ≡ tf.generation
      → length post + 1 < n
      → stages_run n tf ≡ tf.status.stage.task_type ∷ selected (configured_tasks tf) post
  stages_run-selected w pre post tf n is_workflow split g h =
      stages_run-walk n tf g
      ∙ walk-workflow w pre post tf.status.stage.task_type (configured_tasks tf) n is_workflow split
          h
