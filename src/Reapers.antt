-- ===== src/Reapers.antt =====
-- pkg/controllers/tf_controller.go, backgroundReapOldGenerationPods and reapPlugins: the loops that
-- delete the pods of earlier generations, and what belongs to them after they are gone. Each round
-- starts the next in the background; here it is a call.
pub mod Ends
pub mod Keeps
use infrakube_multicluster.Prelude.{
  ℕ, zero, suc, ◌+◌, String, Option, none, some, List, [], ◌∷◌, ◌⧺◌, decimal, ltb, if◌then◌else◌,
}
use infrakube_multicluster.Exec.{Exec, pure, call, perform, ◌>>=◌}
use infrakube_multicluster.Utils.{auto_hash_labeler}
use infrakube_multicluster.Kube.{PodStatus, ApiError}
use infrakube_multicluster.Resource.{Terraform}
use infrakube_multicluster.Controller.Api.{Api, Answer, found, failed}
use infrakube_multicluster.Controller.Updates.{get_tf_resource, named}

pub data Reaped : Type 0 where
  pods jobs config_maps secrets roles role_bindings service_accounts : Reaped

-- labels.Parse and fields.ParseSelector, where a text stands for a selector and `none` for an error;
-- DeleteAllOf and List, where no selector selects everything in the namespace; the wait of 30 seconds.
pub record Reaping (W : Type 0) : Type 0 where
  pub parse_labels : String → Option String
  pub parse_fields : String → Option String
  pub delete_all_of :
      Reaped → (namespace : String) → (labels fields : Option String) → W → Option ApiError × W
  pub list_pods_with :
      (namespace : String) → (labels : Option String) → W → Answer (List PodStatus) × W
  pub sleep : W → W

-- How the rounds end: after the last attempt, at an error, with everything deleted, or by running
-- out of the fuel of the model.
pub data ReapEnd : Type 0 where
  gave_up stopped removed out_of_fuel : ReapEnd

-- The labels of the objects of other generations of the resource.
abbrev pub old_generation :
    (label_prefix : String) → (md5_hex : String → String) → Terraform → String
old_generation label_prefix md5_hex tf =
    label_prefix
    ⧺ "generation,"
    ⧺ label_prefix
    ⧺ "generation!="
    ⧺ decimal tf.generation
    ⧺ ","
    ⧺ label_prefix
    ⧺ "resourceName,"
    ⧺ label_prefix
    ⧺ "resourceName="
    ⧺ auto_hash_labeler md5_hex tf.name

abbrev pub other_kinds : List Reaped
other_kinds = config_maps ∷ secrets ∷ roles ∷ role_bindings ∷ service_accounts ∷ []

module _ {W : Type 0} (a : Api W) (k : Reaping W) (label_prefix : String)
    (md5_hex : String → String) where
  abbrev pub unless_failed : Exec W ReapEnd → Option ApiError → Exec W ReapEnd
  unless_failed next (some e) = pure stopped
  unless_failed next none = next

  -- The objects of each kind, up to the first error.
  unfoldable pub remove_others : Terraform → (labels : String) → List Reaped → Exec W ReapEnd
  remove_others tf labels [] = pure removed
  remove_others tf labels (kind ∷ kinds) =
      call (k.delete_all_of kind tf.namespace (some labels) none)
      >>= unless_failed (remove_others tf labels kinds)

  -- What follows the list of the pods that are left; `again` is the next round.
  abbrev pub after_old_list :
      Exec W ReapEnd → Terraform → (labels : String) → Answer (List PodStatus) → Exec W ReapEnd
  after_old_list again tf labels (failed e) = pure stopped
  after_old_list again tf labels (found []) = remove_others tf labels other_kinds
  after_old_list again tf labels (found (pod ∷ left)) = perform k.sleep >>= λ _. again

  -- A round with its selectors.
  abbrev pub reap_selected :
      (Terraform → Exec W ReapEnd) → Terraform → (labels fields : Option String) → Exec W ReapEnd
  reap_selected again tf none fields = pure stopped
  reap_selected again tf (some labels) none = pure stopped
  reap_selected again tf (some labels) (some fields) =
      call (k.delete_all_of pods tf.namespace (some labels) (some fields))
      >>= unless_failed (
          call (k.list_pods_with tf.namespace (some labels))
          >>= after_old_list (again tf) tf labels)

  abbrev pub reap_read : (Terraform → Exec W ReapEnd) → Answer Terraform → Exec W ReapEnd
  reap_read again (failed e) = pure stopped
  reap_read again (found tf) =
      reap_selected again tf (k.parse_labels (old_generation label_prefix md5_hex tf))
        (k.parse_fields "status.phase!=Running")

  unfoldable pub background_reap_old_generation_pods :
      (fuel : ℕ) → Terraform → (attempt : ℕ) → Exec W ReapEnd
  background_reap_old_generation_pods zero tf attempt = pure out_of_fuel
  background_reap_old_generation_pods (suc fuel) tf attempt =
      let again =
        λ (latest : Terraform). background_reap_old_generation_pods fuel latest (attempt + 1) in
      if ltb 20 attempt then pure gave_up else get_tf_resource a (named tf) 2 >>= reap_read again

  -- The errors of reapPlugins are logged, and it goes on: a selector that is refused is then none.
  abbrev pub after_plugin_list : Exec W ReapEnd → Answer (List PodStatus) → Exec W ReapEnd
  after_plugin_list again (failed e) = pure removed
  after_plugin_list again (found []) = pure removed
  after_plugin_list again (found (pod ∷ left)) = perform k.sleep >>= λ _. again

  abbrev pub reap_plugins_read : (Terraform → Exec W ReapEnd) → Answer Terraform → Exec W ReapEnd
  reap_plugins_read again (failed e) = pure stopped
  reap_plugins_read again (found tf) =
      let labels =
        k.parse_labels (label_prefix ⧺ "isPlugin=true," ⧺ old_generation label_prefix md5_hex tf) in
      call (k.delete_all_of jobs tf.namespace labels none) >>= λ ignored.
      call (k.delete_all_of pods tf.namespace labels none) >>= λ ignored'.
      call (k.list_pods_with tf.namespace labels) >>= after_plugin_list (again tf)

  unfoldable pub reap_plugins : (fuel : ℕ) → Terraform → (attempt : ℕ) → Exec W ReapEnd
  reap_plugins zero tf attempt = pure out_of_fuel
  reap_plugins (suc fuel) tf attempt =
      let again = λ (latest : Terraform). reap_plugins fuel latest (attempt + 1) in
      if ltb 20 attempt
      then pure gave_up
      else get_tf_resource a (named tf) 2 >>= reap_plugins_read again
