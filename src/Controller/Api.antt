-- ===== src/Controller/Api.antt =====
-- What pkg/controllers/tf_controller.go calls outside the repository: the client of the API server,
-- the cache of go-cache, the clock, and the random source, as functions of a world.
use infrakube_multicluster.Prelude.{ℕ, String, Bool, Option, List, Dict}
use infrakube_multicluster.Kube.{NamespacedName, ApiError, Secret, PodStatus}
use infrakube_multicluster.Resource.{Terraform}

-- The answer of a read: the object, or an error.
pub data Answer (A : Type 0) : Type 0 where
  found : A → Answer A
  failed : ApiError → Answer A

-- The errors that reach the caller: one of the API server, or one that wraps it in a message.
pub data Error : Type 0 where
  api : ApiError → Error
  message : String → Error

pub data CacheValue : Type 0 where
  lock_owner : String → CacheValue
  cached_affinity : Option String → CacheValue
  cached_node_selector : Dict String → CacheValue
  cached_tolerations : List String → CacheValue

-- The fields of a deployment's pod template that tasks inherit.
pub record PodTemplate : Type 0 where
  pub affinity : Option String
  pub node_selector : Dict String
  pub tolerations : List String

-- Client.Get, Update, Status().Update, List, Delete and DeleteAllOf at the kinds that are used. A
-- status update answers with the resource as the server has it, which the client decodes into the
-- object that it was given.
pub record Api (W : Type 0) : Type 0 where
  pub get_tf : NamespacedName → W → Answer Terraform × W
  pub update_tf : Terraform → W → Option ApiError × W
  pub update_status : Terraform → W → Answer Terraform × W
  pub list_pods : (namespace generate_name generation : String) → W → Answer (List PodStatus) × W
  pub get_pod : NamespacedName → W → Option ApiError
  pub delete_pod : PodStatus → W → Option ApiError × W
  pub delete_pods_of :
      (namespace : String) (labels : List String) (field : String) → W → Option ApiError × W
  pub get_secret : NamespacedName → W → Answer Secret
  pub update_secret : Secret → W → Option ApiError × W
  -- The owner references of a pod and of a replica set (kind and name), and a deployment's template.
  pub pod_owners : NamespacedName → W → Answer (List (String × String))
  pub replica_set_owners : NamespacedName → W → Answer (List (String × String))
  pub deployment_template : NamespacedName → W → Answer PodTemplate
  pub getenv : String → W → String
  -- controllerutil.ContainsFinalizer, AddFinalizer and RemoveFinalizer on the list of finalizers
  pub contains_finalizer : List String → String → Bool
  pub add_finalizer : List String → String → List String
  pub remove_finalizer : List String → String → List String
  pub cache_get : String → W → Option CacheValue
  pub cache_set : String → CacheValue → W → W
  pub cache_delete : String → W → W
  pub event : (kind reason : String) → W → W
  pub now : W → ℕ
  pub new_uuid : W → String × W
  pub random_text : (length : ℕ) (charset : String) → W → String × W
