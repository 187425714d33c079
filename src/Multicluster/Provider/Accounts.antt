-- ===== src/Multicluster/Provider/Accounts.antt =====
-- pkg/multicluster/provider.go: no cluster that was started is lost without its context cancelled.
use infrakube_multicluster.Prelude.{
  Among, ◌≡◌, refl, ap, ◌∙◌, ◌⊎◌, inl, inr, String, Bool, true, false, not, Option, none, some,
  List, [], ◌∷◌, ◌==◌, if◌then◌else◌, lookup, arith, eq_iff, Bool-cases,
}
use infrakube_multicluster.Kube.{Secret}
use infrakube_multicluster.Multicluster.Secrets.{
  ProviderOptions, secret_key, matches, text_or_empty, cluster_name, as_secret,
}
use infrakube_multicluster.Multicluster.Provider.{
  Provider, Engine, put, remove, disengage_entry, disengage, disengage_secret, replace_cluster,
  engage_cluster, place_cluster, index_all, handle_found, handle_matching, handle_secret,
  handle_delete, handle_read, delete_read, index_field, step, run, Event, stored, deleted, indexed,
  empty,
}
use infrakube_multicluster.Multicluster.Provider.Agree.{disengage-gone, put-here, remove-put}

module _ {C : Type 0} where
  -- Under some name, or with its context cancelled.
  abbrev pub Kept : Provider C → C → Type 0
  Kept p cl = ((name : String) × (p.clusters name ≡ some cl)) ⊎ Among cl p.cancelled

  -- Each cluster that was started is one of these.
  pub record Accounted (p : Provider C) : Type 0 where
    pub of : (cl : C) → Among cl p.started → Kept p cl

  if-Accounted :
      (b : Bool) (p q : Provider C) → Accounted p → Accounted q → Accounted (if b then p else q)
  if-Accounted true p q a b = a
  if-Accounted false p q a b = b

  entry-Kept :
      (p : Provider C) (name : String) (o : Option C) (cl : C)
      → p.clusters name ≡ o
      → Kept p cl
      → Kept (disengage_entry p name o) cl
  entry-Kept p name none cl h k = k
  entry-Kept p name (some entry) cl h (inr k) = inr (inr k)
  entry-Kept p name (some entry) cl h (inl (n, k)) = elim (Bool-cases (name == n)) [
    | inl e ↦ inr (inl (ground (arith, h, k, ap p.clusters ((eq_iff name n).0 e))))
    | inr e ↦ inl (n, ground (arith, h, k, e))
  ]

  disengage-Accounted :
      (p : Provider C) (name : String) → Accounted p → Accounted (disengage p name)
  unfolding disengage
  disengage-Accounted p name a = go p (p.clusters name) refl a
    where
      go :
          (p : Provider C) (o : Option C)
          → p.clusters name ≡ o
          → Accounted p
          → Accounted (disengage_entry p name o)
      go p none h a = a
      go p (some entry) h a = record {
        of = λ cl s. entry-Kept p name (some entry) cl h (a.of cl s);
      }

  disengage_secret-Accounted :
      (p : Provider C) (key : String) → Accounted p → Accounted (disengage_secret p key)
  unfolding disengage_secret
  disengage_secret-Accounted p key a =
      let name = text_or_empty (p.secret_cluster key) in
      if-Accounted (not (name == "")) _ _ (disengage-Accounted p name a) a

  held-Kept :
      (p : Provider C) (name n : String) (cl c : C)
      → p.clusters name ≡ none
      → p.clusters n ≡ some c
      → put name cl p.clusters n ≡ some c
  held-Kept p name n cl c h k = ground (arith, ap p.clusters, eq_iff name n)

  started-Kept :
      (p : Provider C) (key name : String) (cl c : C)
      → p.clusters name ≡ none
      → Accounted p
      → Among c (cl ∷ p.started)
      → Kept
          (record p {
            clusters = put name cl p.clusters;
            secret_cluster = put key name p.secret_cluster;
            started = cl ∷ p.started;
          })
          c
  started-Kept p key name cl c h a (inl e) = inl (name, put-here name cl p.clusters ∙ ap some e)
  started-Kept p key name cl c h a (inr s) = elim (a.of c s) [
    | inl k ↦ inl (k.0, held-Kept p name k.0 cl c h k.1)
    | inr k ↦ inr k
  ]

  refused-Kept :
      (p : Provider C) (name : String) (cl c : C)
      → p.clusters name ≡ none
      → Kept p c
      → ((n : String) × (remove name (put name cl p.clusters) n ≡ some c))
        ⊎ Among c (cl ∷ p.cancelled)
  refused-Kept p name cl c h (inl k) =
      inl (k.0, ap (λ m. m k.0) (remove-put name cl p.clusters h) ∙ k.1)
  refused-Kept p name cl c h (inr k) = inr (inr k)

  place_cluster-Accounted :
      (e : Engine C) (p : Provider C) (key name : String) (o : Option C)
      → p.clusters name ≡ none
      → Accounted p
      → Accounted (place_cluster e p key name o)
  unfolding place_cluster engage_cluster
  place_cluster-Accounted e p key name none h a = a
  place_cluster-Accounted e p key name (some cl) h a =
      if-Accounted (index_all e cl p.indexes) _ _
        (if-Accounted (e.engage name cl) _ _
          (record { of = λ c s. started-Kept p key name cl c h a s })
          (record { of = λ c s. refused-Kept p name cl c h (a.of c s) }))
        a

  replace_cluster-Accounted :
      (e : Engine C) (p : Provider C) (key name : String) (o : Option String)
      → Accounted p
      → Accounted (replace_cluster e p key name o)
  unfolding replace_cluster
  replace_cluster-Accounted e p key name none a = disengage_secret-Accounted p key a
  replace_cluster-Accounted e p key name (some config) a =
      let p' = disengage_secret p key in
      place_cluster-Accounted e (disengage p' name) key name (e.new_cluster config)
        (disengage-gone p' name) (disengage-Accounted p' name (disengage_secret-Accounted p key a))

  handle_read-Accounted :
      (e : Engine C) (o : ProviderOptions) (p : Provider C) (s : Option Secret)
      → Accounted p
      → Accounted (handle_read e o p s)
  unfolding handle_found handle_matching
  handle_read-Accounted e o p none a = a
  handle_read-Accounted e o p (some secret) a =
      let key = secret_key secret in
      let kubeconfig = text_or_empty (lookup o.kubeconfig_key secret.contents) in
      let out = disengage_secret-Accounted p key a in
      if-Accounted (matches o secret) _ _
        (if-Accounted (kubeconfig == "") _ _ out
          (replace_cluster-Accounted e p key (cluster_name o secret) (e.config_of kubeconfig) a))
        out

  delete_read-Accounted :
      (p : Provider C) (s : Option Secret) → Accounted p → Accounted (delete_read p s)
  delete_read-Accounted p none a = a
  delete_read-Accounted p (some secret) a = disengage_secret-Accounted p (secret_key secret) a

  step-Accounted :
      (e : Engine C) (o : ProviderOptions) (p : Provider C) (event : Event)
      → Accounted p
      → Accounted (step e o p event)
  unfolding step handle_secret handle_delete index_field
  step-Accounted e o p (stored obj) a = handle_read-Accounted e o p (as_secret obj) a
  step-Accounted e o p (deleted obj) a = delete_read-Accounted p (as_secret obj) a
  step-Accounted e o p (indexed host order idx) a = record { of = a.of }

  -- After any events, whatever the libraries answer, each cluster that was started is there under
  -- some name, or its context has been cancelled.
  pub run-Accounted :
      (e : Engine C) (o : ProviderOptions) (p : Provider C) (events : List Event)
      → Accounted p
      → Accounted (run e o p events)
  unfolding run
  run-Accounted e o p [] a = a
  run-Accounted e o p (event ∷ events) a =
      run-Accounted e o (step e o p event) events (step-Accounted e o p event a)

  pub empty-Accounted : Accounted (empty {C = C})
  empty-Accounted = record { of = λ cl s. elim s [ ] }
