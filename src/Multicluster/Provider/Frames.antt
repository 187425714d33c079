-- ===== src/Multicluster/Provider/Frames.antt =====
-- pkg/multicluster/provider.go: what an event of one secret leaves as it was.
use infrakube_multicluster.Prelude.{
  ◌≡◌, refl, sym, ap, ◌∙◌, ◌≢◌, String, not, Option, none, some, ◌==◌, if◌then◌else◌, lookup, arith,
  eq_iff, Bool-cases, inl, inr,
}
use infrakube_multicluster.Kube.{Secret}
use infrakube_multicluster.Multicluster.Secrets.{
  ProviderOptions, secret_key, text_or_empty, cluster_name, Obj, as_secret,
}
use infrakube_multicluster.Multicluster.Provider.{
  Provider, Engine, disengage_entry, disengage, disengage_secret, replace_cluster, engage_cluster,
  place_cluster, handle_found, handle_matching, handle_secret, handle_read, step, stored, get,
}

module _ {C : Type 0} where
  disengage-other :
      (p : Provider C) (name other : String)
      → other ≢ name
      → (disengage p name).clusters other ≡ p.clusters other
  unfolding disengage
  disengage-other p name other ne = go p (p.clusters name)
    where
      go :
          (p : Provider C) (o : Option C)
          → (disengage_entry p name o).clusters other ≡ p.clusters other
      go p none = refl
      go p (some entry) = ground (arith, eq_iff name other)

  disengage_secret-other :
      (p : Provider C) (key other : String)
      → p.secret_cluster key ≢ some other
      → (disengage_secret p key).clusters other ≡ p.clusters other
  unfolding disengage_secret text_or_empty
  disengage_secret-other p key other ne = go (p.secret_cluster key) ne
    where
      go :
          (o : Option String)
          → o ≢ some other
          → (if not (text_or_empty o == "") then disengage p (text_or_empty o) else p).clusters
              other
            ≡ p.clusters other
      go none h = refl
      go (some name) h = elim (Bool-cases (name == "")) [
        | inl e ↦ rw e refl
        | inr e ↦ rw e (disengage-other p name other (λ x. h (ap some (sym x))))
      ]

  place_cluster-other :
      (e : Engine C) (p : Provider C) (key name other : String) (o : Option C)
      → other ≢ name
      → (place_cluster e p key name o).clusters other ≡ p.clusters other
  unfolding place_cluster engage_cluster
  place_cluster-other e p key name other none ne = refl
  place_cluster-other e p key name other (some cl) ne = ground (arith, eq_iff name other)

  replace_cluster-other :
      (e : Engine C) (p : Provider C) (key name other : String) (o : Option String)
      → other ≢ name
      → p.secret_cluster key ≢ some other
      → (replace_cluster e p key name o).clusters other ≡ p.clusters other
  unfolding replace_cluster
  replace_cluster-other e p key name other none ne free = disengage_secret-other p key other free
  replace_cluster-other e p key name other (some config) ne free =
      let p' = disengage_secret p key in
      place_cluster-other e (disengage p' name) key name other (e.new_cluster config) ne
      ∙ disengage-other p' name other ne
      ∙ disengage_secret-other p key other free

  -- Storing a secret leaves every cluster that is neither under its name nor held by it as it was,
  -- whatever the libraries answer.
  pub stored-others :
      (e : Engine C) (o : ProviderOptions) (p : Provider C) (obj : Obj) (secret : Secret)
      (other : String)
      → as_secret obj ≡ some secret
      → other ≢ cluster_name o secret
      → p.secret_cluster (secret_key secret) ≢ some other
      → get (step e o p (stored obj)) other ≡ get p other
  unfolding get step handle_secret handle_found handle_matching
  stored-others e o p obj secret other h ne free =
      let key = secret_key secret in
      let kubeconfig = text_or_empty (lookup o.kubeconfig_key secret.contents) in
      ap (λ s. (handle_read e o p s).clusters other) h
      ∙ ground (
        arith,
        disengage_secret-other p key other free,
        replace_cluster-other e p key (cluster_name o secret) other (e.config_of kubeconfig) ne
            free,
      )
