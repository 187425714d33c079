-- ===== src/Creation/Store.antt =====
-- The abstract cluster of pkg/controllers/tf_controller.go: a function from kinds and names to
-- objects, and what a client promises of it.
use infrakube_multicluster.Prelude.{
  String, Bool, true, false, ◌&&◌, Option, none, some, List, [], ◌∷◌, ◌++◌, ◌==◌, ◌≡◌, ◌≢◌,
  if◌then◌else◌,
}
use infrakube_multicluster.Kube.{NamespacedName, ApiError, not_found, already_exists, other_error}
use infrakube_multicluster.Resource.{Terraform}
use infrakube_multicluster.Controller.Api.{Answer, found, failed}
use infrakube_multicluster.Objects.{
  Kind, config_map_kind, secret_kind, service_account_kind, role_kind, role_binding_kind, Object,
  kind_of, VolumeClaim, Pod,
}
use infrakube_multicluster.Creation.Cluster.{Cluster}
use infrakube_multicluster.Creation.Kinds.{key_of}

abbrev pub View : Type 0
View = Kind → NamespacedName → Option Object

abbrev pub same_kind : Kind → Kind → Bool
same_kind config_map_kind config_map_kind = true
same_kind secret_kind secret_kind = true
same_kind service_account_kind service_account_kind = true
same_kind role_kind role_kind = true
same_kind role_binding_kind role_binding_kind = true
same_kind _ _ = false

abbrev pub same_place : Kind → NamespacedName → Kind → NamespacedName → Bool
same_place k key l at = same_kind k l && at.namespace == key.namespace && at.name == key.name

abbrev pub object_key : Object → NamespacedName
object_key o = key_of o.meta.name o.meta.namespace

-- The view with one place set.
abbrev pub set_place : Kind → NamespacedName → Option Object → View → View
set_place k key o v l at = if same_place k key l at then o else v l at

abbrev pub place : Object → View → View
place o = set_place (kind_of o.body) (object_key o) (some o)

abbrev pub object_at : View → Object → Option Object
object_at v o = v (kind_of o.body) (object_key o)

-- The view after each of the calls, by its result. An object that has finalizers would stay after its
-- deletion; those of a task have none.
abbrev pub Got : Answer Object → Option Object → Type 0
Got (found o) at = at ≡ some o
Got (failed not_found) at = at ≡ none
Got (failed already_exists) at = Unit
Got (failed other_error) at = Unit

abbrev pub Created : Option ApiError → Object → View → View → Type 0
Created none o v v' = (object_at v o ≡ none) × (v' ≡ place o v)
Created (some already_exists) o v v' = (v' ≡ v) × (object_at v o ≢ none)
Created (some not_found) o v v' = v' ≡ v
Created (some other_error) o v v' = v' ≡ v

abbrev pub Updated : Option ApiError → Object → View → View → Type 0
Updated none o v v' = v' ≡ place o v
Updated (some e) o v v' = v' ≡ v

abbrev pub Deleted : Option ApiError → Kind → NamespacedName → View → View → Type 0
Deleted none k key v v' = v' ≡ set_place k key none v
Deleted (some e) k key v v' = v' ≡ v

-- A pod that was created stands last.
abbrev pub PodCreated : Option ApiError → Pod → List Pod → List Pod → Type 0
PodCreated none pod ps ps' = ps' ≡ ps ++ pod ∷ []
PodCreated (some e) pod ps ps' = ps' ≡ ps

module _ {W : Type 0} (c : Cluster W) (view : W → View) (pods : W → List Pod) where
  -- What the documentation of the API promises of a client, no other client acting between its calls.
  pub record IsStore : Type 0 where
    pub got : (k : Kind) (key : NamespacedName) (w : W) → Got (c.get_object k key w) (view w k key)
    pub created :
        (tf : Terraform) (o : Object) (w : W)
        → Created (c.create_object tf o w).0 o (view w) (view (c.create_object tf o w).1)
    pub updated :
        (tf : Terraform) (o : Object) (w : W)
        → Updated (c.update_object tf o w).0 o (view w) (view (c.update_object tf o w).1)
    pub deleted :
        (k : Kind) (key : NamespacedName) (w : W)
        → Deleted (c.delete_object k key w).0 k key (view w) (view (c.delete_object k key w).1)
    pub pod_created :
        (tf : Terraform) (pod : Pod) (w : W)
        → PodCreated (c.create_pod tf pod w).0 pod (pods w) (pods (c.create_pod tf pod w).1)
    pub view-claim :
        (tf : Terraform) (o : VolumeClaim) (w : W) → view (c.create_claim tf o w).1 ≡ view w
    pub view-pod : (tf : Terraform) (o : Pod) (w : W) → view (c.create_pod tf o w).1 ≡ view w
    pub view-event : (kind reason : String) (w : W) → view (c.record_event kind reason w) ≡ view w
    pub pods-create :
        (tf : Terraform) (o : Object) (w : W) → pods (c.create_object tf o w).1 ≡ pods w
    pub pods-update :
        (tf : Terraform) (o : Object) (w : W) → pods (c.update_object tf o w).1 ≡ pods w
    pub pods-delete :
        (k : Kind) (key : NamespacedName) (w : W) → pods (c.delete_object k key w).1 ≡ pods w
    pub pods-claim :
        (tf : Terraform) (o : VolumeClaim) (w : W) → pods (c.create_claim tf o w).1 ≡ pods w
    pub pods-event : (kind reason : String) (w : W) → pods (c.record_event kind reason w) ≡ pods w
