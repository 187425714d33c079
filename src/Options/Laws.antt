-- ===== src/Options/Laws.antt =====
-- What every task of a workflow has once its options are made.
use infrakube_multicluster.Prelude.{
  ℕ, String, ◌≡◌, refl, subst, ◌≢◌, ◌⊎◌, inl, inr, true, ◌||◌, Option, none, some, List, [], ◌∷◌,
  All, ◌==◌, ◌⧺◌, arith, eq_iff, text_ne, if◌then◌else◌, Bool-cases,
}
use text.Mathlib.TextLemmas.{append-eq-nil_iff}
use infrakube_multicluster.Utils.{list_contains_str}
use infrakube_multicluster.Task.{TaskName, list_contains_task}
use infrakube_multicluster.Kube.{EnvFromSource}
use infrakube_multicluster.Resource.{Terraform, ImageConfig, Images}
use infrakube_multicluster.Workflow.{tasks_in_order, delete_tasks_in_order}
use infrakube_multicluster.Workflow.Sequence.{IsWorkflow}
use infrakube_multicluster.Options.Types.{TaskOptions}
use infrakube_multicluster.Options.Gather.{start, gather}
use infrakube_multicluster.Options.New.{
  Settings, Inherited, fill_image, image_of, images_of, tf_task_list, script_task_list,
  setup_task_list, has_no_script, new_task_options, default_image,
}

All-contains :
    (P : String → Type 0) (w : List String) (t : String)
    → All P w
    → list_contains_str w t ≡ true
    → P t
unfolding list_contains_str
All-contains P [] t a h = ground arith
All-contains P (x ∷ w) t a h = elim (Bool-cases (x == t)) [
  | inl e ↦ subst P ((eq_iff x t).0 e) a.0
  | inr e ↦ All-contains P w t a.1 (ground arith)
]

fill_image-filled :
    (default : String) (o : Option ImageConfig) → default ≢ "" → (fill_image default o).image ≢ ""
unfolding fill_image
fill_image-filled default none h = h
fill_image-filled default (some config) h = ground (arith, eq_iff config.image "")

-- An image and a script, where the options gave none.
abbrev Equipped : (tool default : String) → Option Images → TaskName → Type 0
Equipped tool default images t =
    ((image_of tool t default images).0.image ≢ "") × ((image_of tool t default images).1 ≢ "")

-- The task is in one of the three lists.
abbrev Listed : TaskName → Type 0
Listed t =
    (list_contains_task tf_task_list t
      || list_contains_task script_task_list t
      || list_contains_task setup_task_list t)
    ≡ true

listed : All Listed tasks_in_order × All Listed delete_tasks_in_order
unfolding list_contains_str
listed = (
  (refl, (refl, (refl, (refl, (refl, (refl, (refl, (refl, (refl, (refl, tt)))))))))),
  (refl, (refl, (refl, (refl, (refl, (refl, (refl, (refl, (refl, (refl, tt)))))))))),
)

workflow-Listed :
    (w : List TaskName) (t : TaskName) → IsWorkflow w → list_contains_task w t ≡ true → Listed t
workflow-Listed w t (inl e) h =
    All-contains Listed tasks_in_order t (listed.0) (subst (λ l. list_contains_task l t ≡ true) e h)
workflow-Listed w t (inr e) h =
    All-contains Listed delete_tasks_in_order t (listed.1)
      (subst (λ l. list_contains_task l t ≡ true) e h)

-- The name of the default script of the tasks that run the tool is never empty.
script_named : (tool : String) → ("default-" ⧺ tool ⧺ ".sh") ≢ ""
script_named tool e = text_ne "default-" "" refl (append-eq-nil_iff.0 e).0

Listed-Equipped :
    (tool default : String) (images : Option Images) (t : TaskName)
    → default ≢ ""
    → Listed t
    → Equipped tool default images t
unfolding image_of
Listed-Equipped tool default images t d h = ground (
  arith,
  fill_image-filled default (images_of images).terraform d,
  fill_image-filled default (images_of images).script d,
  fill_image-filled default (images_of images).setup d,
  script_named tool,
  text_ne "default-noop.sh" "" refl,
  text_ne "default-setup.sh" "" refl,
)

-- A script to run: a file of the options or the default's, a source, or a key of a config map.
abbrev pub HasScript : TaskOptions → Type 0
HasScript opts =
    (opts.inline_task_execution_file ≢ "")
    ⊎ ((opts.url_source ≢ "")
        ⊎ ((opts.config_map_source_key ≢ "") × (opts.config_map_source_name ≢ "")))

-- Each task of either workflow gets an image that is named and a script to run, whatever the resource
-- and the settings say.
pub new_task_options-HasScript :
    (md5_hex : String → String) (settings : Settings) (inherited : Inherited) (tf : Terraform)
    (w : List TaskName) (task : TaskName) (generation : ℕ) (global_env_from : List EnvFromSource)
    → IsWorkflow w
    → list_contains_task w task ≡ true
    → let opts = new_task_options md5_hex settings inherited tf task generation global_env_from in
      (opts.image ≢ "") × HasScript opts
unfolding new_task_options has_no_script
new_task_options-HasScript md5_hex settings inherited tf w task generation global_env_from is h =
    let default = if settings.task_image == "" then default_image else settings.task_image in
    let g = gather task (start global_env_from) tf.spec.task_options in
    let named : default ≢ "" =
      ground (arith, eq_iff settings.task_image "", text_ne default_image "" refl) in
    let (image, script) =
      Listed-Equipped settings.names.tool default tf.spec.images task named
        (workflow-Listed w task is h) in
    (
      image,
      ground (
        arith,
        script,
        eq_iff (image_of settings.names.tool task default tf.spec.images).1 "",
        eq_iff g.inline_task_execution_file "",
        eq_iff g.url_source "",
        eq_iff g.config_map_source_key "",
        eq_iff g.config_map_source_name "",
      ),
    )
