-- ===== src/Multicluster/Provider/Invariant.antt =====
-- pkg/multicluster/provider.go: the two maps of kubeconfigProvider agree after every event.
use infrakube_multicluster.Prelude.{
  All, ◌≡◌, refl, ◌≢◌, String, Option, none, some, List, [], ◌∷◌, ◌==◌, lookup, arith, eq_iff,
}
use infrakube_multicluster.Kube.{Secret}
use infrakube_multicluster.Multicluster.Provider.Agree.{
  Agree, if-Agree, put-Agree, remove-put, disengage-Agree, disengage_secret-Agree,
  disengage-still_none, disengage_secret-frees, disengage-gone,
}
use infrakube_multicluster.Multicluster.Secrets.{
  ProviderOptions, secret_key, matches, text_or_empty, cluster_name, as_secret,
}
use infrakube_multicluster.Multicluster.Provider.{
  Provider, Engine, put, remove, disengage, disengage_secret, replace_cluster, engage_cluster,
  place_cluster, index_all, handle_found, handle_matching, handle_secret, handle_delete,
  handle_read, delete_read, index_field, step, run, Event, stored, deleted, indexed, empty,
}

-- A secret that is stored has a name.
abbrev pub NamedEvent : Event → Type 0
NamedEvent (stored obj) = (secret : Secret) → as_secret obj ≡ some secret → secret.name ≢ ""
NamedEvent (deleted obj) = Unit
NamedEvent (indexed host order idx) = Unit

cluster_name-named :
    (o : ProviderOptions) (secret : Secret) → secret.name ≢ "" → cluster_name o secret ≢ ""
unfolding cluster_name
cluster_name-named o secret ne =
    ground (arith, eq_iff (text_or_empty (lookup o.cluster_name_label secret.labels)) "")

module _ {C : Type 0} where
  Agree-refused :
      (p : Provider C) (key name : String) (cl : C) (gone : List C)
      → Agree p
      → p.secret_cluster key ≡ none
      → p.clusters name ≡ none
      → Agree (record p {
        clusters = remove name (put name cl p.clusters);
        secret_cluster = remove key (put key name p.secret_cluster);
        cancelled = gone;
      })
  Agree-refused p key name cl gone a h k =
      rw (remove-put name cl p.clusters k, remove-put key name p.secret_cluster h)
        (record { named = a.named; present = a.present; unique = a.unique; owned = a.owned })

  engage_cluster-Agree :
      (e : Engine C) (p : Provider C) (key name : String) (cl : C)
      → Agree p
      → p.secret_cluster key ≡ none
      → p.clusters name ≡ none
      → name ≢ ""
      → Agree (engage_cluster e p key name cl)
  unfolding engage_cluster
  engage_cluster-Agree e p key name cl a h k ne =
      let b = put-Agree p key name cl a h k ne in
      if-Agree (e.engage name cl) _ _
        (record { named = b.named; present = b.present; unique = b.unique; owned = b.owned })
        (Agree-refused p key name cl (cl ∷ p.cancelled) a h k)

  place_cluster-Agree :
      (e : Engine C) (p : Provider C) (key name : String) (o : Option C)
      → Agree p
      → p.secret_cluster key ≡ none
      → p.clusters name ≡ none
      → name ≢ ""
      → Agree (place_cluster e p key name o)
  unfolding place_cluster
  place_cluster-Agree e p key name none a h k ne = a
  place_cluster-Agree e p key name (some cl) a h k ne =
      if-Agree (index_all e cl p.indexes) _ _ (engage_cluster-Agree e p key name cl a h k ne) a

  replace_cluster-Agree :
      (e : Engine C) (p : Provider C) (key name : String) (o : Option String)
      → Agree p
      → name ≢ ""
      → Agree (replace_cluster e p key name o)
  unfolding replace_cluster
  replace_cluster-Agree e p key name none a ne = disengage_secret-Agree p key a
  replace_cluster-Agree e p key name (some config) a ne =
      let p' = disengage_secret p key in
      let a' = disengage_secret-Agree p key a in
      place_cluster-Agree e (disengage p' name) key name (e.new_cluster config)
        (disengage-Agree p' name a')
        (disengage-still_none p' name key (disengage_secret-frees p key a)) (disengage-gone p' name)
        ne

  handle_found-Agree :
      (e : Engine C) (o : ProviderOptions) (p : Provider C) (secret : Secret)
      → Agree p
      → secret.name ≢ ""
      → Agree (handle_found e o p secret)
  unfolding handle_found handle_matching
  handle_found-Agree e o p secret a ne =
      let key = secret_key secret in
      let kubeconfig = text_or_empty (lookup o.kubeconfig_key secret.contents) in
      let out = disengage_secret-Agree p key a in
      if-Agree (matches o secret) _ _
        (if-Agree (kubeconfig == "") _ _ out (
          replace_cluster-Agree e p key (cluster_name o secret) (e.config_of kubeconfig) a
            (cluster_name-named o secret ne)))
        out

  step-Agree :
      (e : Engine C) (o : ProviderOptions) (p : Provider C) (event : Event)
      → NamedEvent event
      → Agree p
      → Agree (step e o p event)
  unfolding step handle_secret handle_delete index_field
  step-Agree e o p (stored obj) h a = stored-Agree (as_secret obj) refl
    where
      stored-Agree : (s : Option Secret) → as_secret obj ≡ s → Agree (handle_read e o p s)
      stored-Agree none k = a
      stored-Agree (some secret) k = handle_found-Agree e o p secret a (h secret k)
  step-Agree e o p (deleted obj) h a = deleted-Agree p (as_secret obj) a
    where
      deleted-Agree : (p : Provider C) (s : Option Secret) → Agree p → Agree (delete_read p s)
      deleted-Agree p none a = a
      deleted-Agree p (some secret) a = disengage_secret-Agree p (secret_key secret) a
  step-Agree e o p (indexed host order idx) h a = record {
    named = a.named;
    present = a.present;
    unique = a.unique;
    owned = a.owned;
  }

  -- After any events, whatever the libraries answer, where each secret that is stored has a name: a
  -- secret that holds a cluster holds one that is there under a name, no two secrets hold the same
  -- one, and each cluster that is there has its secret.
  pub run-Agree :
      (e : Engine C) (o : ProviderOptions) (p : Provider C) (events : List Event)
      → All NamedEvent events
      → Agree p
      → Agree (run e o p events)
  unfolding run
  run-Agree e o p [] h a = a
  run-Agree e o p (event ∷ events) h a =
      run-Agree e o (step e o p event) events h.1 (step-Agree e o p event h.0 a)

  pub empty-Agree : Agree (empty {C = C})
  empty-Agree = record {
    named = λ key h. ground arith;
    present = λ key name h. ground arith;
    unique = λ key other name h k. ground arith;
    owned = λ name h. elim (h refl) [ ];
  }
