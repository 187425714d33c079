-- ===== src/Multicluster/Provider/Effects.antt =====
-- pkg/multicluster/provider.go: what storing and withdrawing a secret does to the clusters.
use infrakube_multicluster.Prelude.{
  ◌≡◌, refl, ap, ◌∙◌, ◌≢◌, String, Bool, true, false, ◌&&◌, Option, none, some, List, [], ◌∷◌,
  if◌then◌else◌, lookup, arith, eq_iff, ne→text_neq,
}
use infrakube_multicluster.Kube.{Secret}
use infrakube_multicluster.Multicluster.Secrets.{
  ProviderOptions, secret_key, matches, text_or_empty, cluster_name, Obj, as_secret,
}
use infrakube_multicluster.Multicluster.Provider.{
  Provider, Engine, Index, disengage_entry, disengage, disengage_secret, replace_cluster,
  engage_cluster, place_cluster, index_all, handle_found, handle_matching, handle_secret,
  handle_delete, step, Event, stored, deleted, get,
}
use infrakube_multicluster.Multicluster.Provider.Agree.{
  Agree, disengage-gone, disengage_secret-frees,
}

module _ {C : Type 0} where
  -- Every field is indexed.
  abbrev pub accepts : Engine C → C → List Index → Bool
  accepts e cl [] = true
  accepts e cl (idx ∷ indexes) = e.index_field cl idx && accepts e cl indexes

  -- The cluster that a configuration ends as: the library makes it, its fields are indexed, and the
  -- manager takes it under its name.
  abbrev pub taken : Engine C → List Index → (name : String) → Option C → Option C
  taken e indexes name none = none
  taken e indexes name (some cl) =
      if accepts e cl indexes && e.engage name cl then some cl else none

  index_all-accepts :
      (e : Engine C) (cl : C) (indexes : List Index) → index_all e cl indexes ≡ accepts e cl indexes
  unfolding index_all
  index_all-accepts e cl [] = refl
  index_all-accepts e cl (idx ∷ indexes) = ground (arith, index_all-accepts e cl indexes)

  disengage-indexes : (p : Provider C) (name : String) → (disengage p name).indexes ≡ p.indexes
  unfolding disengage
  disengage-indexes p name = go (p.clusters name)
    where
      go : (o : Option C) → (disengage_entry p name o).indexes ≡ p.indexes
      go none = refl
      go (some entry) = refl

  disengage_secret-indexes :
      (p : Provider C) (key : String) → (disengage_secret p key).indexes ≡ p.indexes
  unfolding disengage_secret
  disengage_secret-indexes p key =
      ground (arith, disengage-indexes p (text_or_empty (p.secret_cluster key)))

  place_cluster-taken :
      (e : Engine C) (p : Provider C) (key name : String) (o : Option C)
      → p.clusters name ≡ none
      → (place_cluster e p key name o).clusters name ≡ taken e p.indexes name o
  unfolding place_cluster engage_cluster
  place_cluster-taken e p key name none h = h
  place_cluster-taken e p key name (some cl) h =
      ground (arith, index_all-accepts e cl p.indexes, eq_iff name name)

  stored-found :
      (e : Engine C) (o : ProviderOptions) (p : Provider C) (obj : Obj) (secret : Secret)
      → as_secret obj ≡ some secret
      → step e o p (stored obj) ≡ handle_found e o p secret
  unfolding step handle_secret
  stored-found e o p obj secret h = rw h refl

  found-placed :
      (e : Engine C) (o : ProviderOptions) (p : Provider C) (secret : Secret)
      (kubeconfig config : String)
      → matches o secret ≡ true
      → lookup o.kubeconfig_key secret.contents ≡ some kubeconfig
      → kubeconfig ≢ ""
      → e.config_of kubeconfig ≡ some config
      → let key = secret_key secret in
        let name = cluster_name o secret in
        handle_found e o p secret
        ≡ place_cluster e (disengage (disengage_secret p key) name) key name (e.new_cluster config)
  unfolding handle_found handle_matching replace_cluster text_or_empty
  found-placed e o p secret kubeconfig config m l ne c =
      rw (m, l, ne→text_neq kubeconfig "" ne, c) refl

  -- Storing a secret that matches and whose kubeconfig is there and parses leaves under its name the
  -- new cluster where the library made it, every field was indexed and the manager took it, and no
  -- cluster otherwise, whatever was there before.
  pub stored-taken :
      (e : Engine C) (o : ProviderOptions) (p : Provider C) (obj : Obj) (secret : Secret)
      (kubeconfig config : String)
      → as_secret obj ≡ some secret
      → matches o secret ≡ true
      → lookup o.kubeconfig_key secret.contents ≡ some kubeconfig
      → kubeconfig ≢ ""
      → e.config_of kubeconfig ≡ some config
      → let name = cluster_name o secret in
        get (step e o p (stored obj)) name ≡ taken e p.indexes name (e.new_cluster config)
  unfolding get
  stored-taken e o p obj secret kubeconfig config h m l ne c =
      let key = secret_key secret in
      let name = cluster_name o secret in
      let p' = disengage_secret p key in
      ap (λ q. q.clusters name)
        (stored-found e o p obj secret h ∙ found-placed e o p secret kubeconfig config m l ne c)
      ∙ place_cluster-taken e (disengage p' name) key name (e.new_cluster config)
          (disengage-gone p' name)
      ∙ ap (λ indexes. taken e indexes name (e.new_cluster config))
          (disengage-indexes p' name ∙ disengage_secret-indexes p key)

  -- The four ways in which a secret is withdrawn.
  pub data Withdraws (e : Engine C) (o : ProviderOptions) (secret : Secret) : Event → Type 0 where
    removed : (obj : Obj) → as_secret obj ≡ some secret → Withdraws e o secret (deleted obj)
    unmatched :
        (obj : Obj)
        → as_secret obj ≡ some secret
        → matches o secret ≡ false
        → Withdraws e o secret (stored obj)
    emptied :
        (obj : Obj)
        → as_secret obj ≡ some secret
        → text_or_empty (lookup o.kubeconfig_key secret.contents) ≡ ""
        → Withdraws e o secret (stored obj)
    unparsed :
        (obj : Obj)
        → as_secret obj ≡ some secret
        → e.config_of (text_or_empty (lookup o.kubeconfig_key secret.contents)) ≡ none
        → Withdraws e o secret (stored obj)

  found-emptied :
      (e : Engine C) (o : ProviderOptions) (p : Provider C) (secret : Secret)
      → text_or_empty (lookup o.kubeconfig_key secret.contents) ≡ ""
      → handle_found e o p secret ≡ disengage_secret p (secret_key secret)
  unfolding handle_found handle_matching
  found-emptied e o p secret k =
      ground (arith, eq_iff (text_or_empty (lookup o.kubeconfig_key secret.contents)) "")

  found-unparsed :
      (e : Engine C) (o : ProviderOptions) (p : Provider C) (secret : Secret)
      → e.config_of (text_or_empty (lookup o.kubeconfig_key secret.contents)) ≡ none
      → handle_found e o p secret ≡ disengage_secret p (secret_key secret)
  unfolding handle_found handle_matching replace_cluster
  found-unparsed e o p secret k =
      rw k (ground (arith, eq_iff (text_or_empty (lookup o.kubeconfig_key secret.contents)) ""))

  disengage_secret-entry :
      (p : Provider C) (key name : String) (cl : C)
      → Agree p
      → p.secret_cluster key ≡ some name
      → p.clusters name ≡ some cl
      → disengage_secret p key ≡ disengage_entry p name (some cl)
  unfolding disengage_secret disengage text_or_empty
  disengage_secret-entry p key name cl a h k =
      rw (h, ne→text_neq name "" (λ e. a.named key (h ∙ ap some e)), k) refl

  withdraws-disengage_secret :
      (e : Engine C) (o : ProviderOptions) (p : Provider C) (secret : Secret) (event : Event)
      → Withdraws e o secret event
      → step e o p event ≡ disengage_secret p (secret_key secret)
  unfolding step handle_delete handle_found
  withdraws-disengage_secret e o p secret _ (removed obj h) = rw h refl
  withdraws-disengage_secret e o p secret _ (unmatched obj h m) =
      stored-found e o p obj secret h ∙ rw m refl
  withdraws-disengage_secret e o p secret _ (emptied obj h k) =
      stored-found e o p obj secret h ∙ found-emptied e o p secret k
  withdraws-disengage_secret e o p secret _ (unparsed obj h k) =
      stored-found e o p obj secret h ∙ found-unparsed e o p secret k

  -- Once a secret is deleted, no longer matches, or has no kubeconfig that parses, the cluster that
  -- it held, if it held one, is gone and its context is cancelled, and every other cluster is as it
  -- was.
  pub withdrawn :
      (e : Engine C) (o : ProviderOptions) (p : Provider C) (secret : Secret) (event : Event)
      (name other : String) (cl : C)
      → Agree p
      → p.secret_cluster (secret_key secret) ≡ some name
      → get p name ≡ some cl
      → other ≢ name
      → Withdraws e o secret event
      → let p' = step e o p event in
        (get p' name ≡ none)
        × (p'.cancelled ≡ cl ∷ p.cancelled)
        × (p'.secret_cluster (secret_key secret) ≡ none)
        × (get p' other ≡ get p other)
  unfolding get
  withdrawn e o p secret event name other cl a h k ne w =
      let key = secret_key secret in
      let to = withdraws-disengage_secret e o p secret event w in
      let entry = to ∙ disengage_secret-entry p key name cl a h k in
      (
        ap (λ q. q.clusters name) entry ∙ ground (arith, eq_iff name name),
        ap (λ q. q.cancelled) entry,
        ap (λ q. q.secret_cluster key) to ∙ disengage_secret-frees p key a,
        ap (λ q. q.clusters other) entry ∙ ground (arith, eq_iff name other),
      )
