-- ===== src/Multicluster/Provider.antt =====
-- pkg/multicluster/provider.go: clusters are engaged and disengaged as their kubeconfig secrets come,
-- change and go. A Go map is the function that reads it. What client-go and controller-runtime
-- answer is an argument, `Engine`, over their type of clusters.
pub mod Agree
pub mod Invariant
pub mod Effects
pub mod Accounts
pub mod Frames
use infrakube_multicluster.Prelude.{
  String, Bool, true, false, not, ◌&&◌, Option, none, some, List, [], ◌∷◌, ◌++◌, ◌==◌, ◌⧺◌, lookup,
  if◌then◌else◌,
}
use infrakube_multicluster.Kube.{Secret}
use infrakube_multicluster.Multicluster.Secrets.{
  ProviderOptions, secret_key, matches, text_or_empty, cluster_name, Obj, as_secret,
}

-- A registration of a field index, under its field.
abbrev pub Index : Type 0
Index = String

-- What the libraries answer: the configuration of a kubeconfig, a cluster over it, whether a field
-- could be indexed, and whether the manager took the cluster.
pub record Engine (C : Type 0) : Type 0 where
  pub config_of : String → Option String
  pub new_cluster : String → Option C
  pub index_field : C → Index → Bool
  pub engage : String → C → Bool

-- The fields of kubeconfigProvider, with the clusters whose contexts have been cancelled and those
-- that have been started.
pub record Provider (C : Type 0) : Type 0 where
  pub clusters : String → Option C
  pub secret_cluster : String → Option String
  pub indexes : List Index
  pub cancelled : List C
  pub started : List C

-- Maps as functions: m[k] = v, delete(m, k), and the removal of each entry that holds a value.
abbrev pub put {ℓ} : {V : Type ℓ} → String → V → (String → Option V) → String → Option V
put k v m j = if k == j then some v else m j

abbrev pub remove {ℓ} : {V : Type ℓ} → String → (String → Option V) → String → Option V
remove k m j = if k == j then none else m j

abbrev pub unless_value : String → Option String → Option String
unless_value v none = none
unless_value v (some w) = if w == v then none else some w

abbrev pub remove_value : String → (String → Option String) → String → Option String
remove_value v m j = unless_value v (m j)

-- What the provider is told, in the order in which it is told.
pub data Event : Type 0 where
  stored deleted : Obj → Event
  indexed : (host : Bool) → List String → Index → Event

module _ {C : Type 0} where
  abbrev pub empty : Provider C
  empty = record {
    clusters = λ name. none;
    secret_cluster = λ key. none;
    indexes = [];
    cancelled = [];
    started = [];
  }

  -- Get, which answers ErrClusterNotFound where the name is not engaged.
  unfoldable pub get : Provider C → String → Option C
  get p name = p.clusters name

  -- What disengage does with the entry that it reads.
  abbrev pub disengage_entry : Provider C → String → Option C → Provider C
  disengage_entry p name none = p
  disengage_entry p name (some entry) = record p {
    clusters = remove name p.clusters;
    secret_cluster = remove_value name p.secret_cluster;
    cancelled = entry ∷ p.cancelled;
  }

  unfoldable pub disengage : Provider C → String → Provider C
  disengage p name = disengage_entry p name (p.clusters name)

  unfoldable pub disengage_secret : Provider C → String → Provider C
  unfolding text_or_empty
  disengage_secret p key =
      let name = text_or_empty (p.secret_cluster key) in
      if not (name == "") then disengage p name else p

  -- The loop that indexes a new cluster ends at the first refusal.
  unfoldable pub index_all : Engine C → C → List Index → Bool
  index_all e cl [] = true
  index_all e cl (idx ∷ indexes) = if e.index_field cl idx then index_all e cl indexes else false

  -- The end of handleSecret, once the cluster is there: it is put in both maps, and taken out again
  -- and cancelled where the manager refuses it.
  unfoldable pub engage_cluster : Engine C → Provider C → (key name : String) → C → Provider C
  engage_cluster e p key name cl =
      let held = record p {
        clusters = put name cl p.clusters;
        secret_cluster = put key name p.secret_cluster;
      } in
      if e.engage name cl then record held { started = cl ∷ held.started } else record held {
        clusters = remove name held.clusters;
        secret_cluster = remove key held.secret_cluster;
        cancelled = cl ∷ held.cancelled;
      }

  -- handleSecret from cluster.New on, by what that call answers.
  unfoldable pub place_cluster : Engine C → Provider C → (key name : String) → Option C → Provider C
  place_cluster e p key name none = p
  place_cluster e p key name (some cl) =
      if index_all e cl p.indexes then engage_cluster e p key name cl else p

  -- handleSecret from the parsing of the kubeconfig on, by what that call answers.
  unfoldable pub replace_cluster :
      Engine C → Provider C → (key name : String) → Option String → Provider C
  replace_cluster e p key name none = disengage_secret p key
  replace_cluster e p key name (some config) =
      place_cluster e (disengage (disengage_secret p key) name) key name (e.new_cluster config)

  unfoldable pub handle_matching : Engine C → ProviderOptions → Provider C → Secret → Provider C
  unfolding text_or_empty
  handle_matching e o p secret =
      let key = secret_key secret in
      let kubeconfig = text_or_empty (lookup o.kubeconfig_key secret.contents) in
      if kubeconfig == ""
      then disengage_secret p key
      else replace_cluster e p key (cluster_name o secret) (e.config_of kubeconfig)

  unfoldable pub handle_found : Engine C → ProviderOptions → Provider C → Secret → Provider C
  handle_found e o p secret =
      if matches o secret
      then handle_matching e o p secret
      else disengage_secret p (secret_key secret)

  abbrev pub handle_read : Engine C → ProviderOptions → Provider C → Option Secret → Provider C
  handle_read e o p none = p
  handle_read e o p (some secret) = handle_found e o p secret

  -- handleSecret
  unfoldable pub handle_secret : Engine C → ProviderOptions → Provider C → Obj → Provider C
  handle_secret e o p obj = handle_read e o p (as_secret obj)

  abbrev pub delete_read : Provider C → Option Secret → Provider C
  delete_read p none = p
  delete_read p (some secret) = disengage_secret p (secret_key secret)

  -- The handler of a deleted secret, from Run.
  unfoldable pub handle_delete : Provider C → Obj → Provider C
  handle_delete p obj = delete_read p (as_secret obj)

  -- IndexField: the registration stays also where an index is refused. Go ranges over the map in any
  -- order, which is an argument; the answer is whether there was no error.
  index_clusters : Engine C → Index → Provider C → List String → Bool
  index_clusters e idx p [] = true
  index_clusters e idx p (name ∷ order) =
      let rest = index_clusters e idx p order in
      elim (p.clusters name) [
        | none ↦ rest
        | some cl ↦ if e.index_field cl idx then rest else false
      ]

  unfoldable pub index_field :
      Engine C → (host : Bool) → List String → Provider C → Index → Provider C × Bool
  unfolding index_clusters
  index_field e host order p idx =
      let p' = record p { indexes = p.indexes ++ idx ∷ [] } in
      (p', if host then index_clusters e idx p' order else false)

  unfoldable pub step : Engine C → ProviderOptions → Provider C → Event → Provider C
  step e o p (stored obj) = handle_secret e o p obj
  step e o p (deleted obj) = handle_delete p obj
  step e o p (indexed host order idx) = (index_field e host order p idx).0

  unfoldable pub run : Engine C → ProviderOptions → Provider C → List Event → Provider C
  run e o p [] = p
  run e o p (event ∷ events) = run e o (step e o p event) events
