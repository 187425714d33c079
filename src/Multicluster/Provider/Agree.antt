-- ===== src/Multicluster/Provider/Agree.antt =====
-- pkg/multicluster/provider.go: what it is for the two maps of kubeconfigProvider to agree, and the
-- removals and the insertion that keep it.
use infrakube_multicluster.Prelude.{
  ◌≡◌, refl, sym, ap, fun_ext, ◌∙◌, ◌≢◌, ◌⊎◌, inl, inr, String, Bool, true, false, not, Option,
  none, some, List, ◌∷◌, ◌==◌, if◌then◌else◌, arith, eq_iff, Bool-cases, ne→text_neq,
}
use infrakube_multicluster.Multicluster.Secrets.{text_or_empty}
use infrakube_multicluster.Multicluster.Provider.{
  Provider, put, remove, remove_value, unless_value, disengage_entry, disengage, disengage_secret,
}

unless_value-some :
    (v n : String) (o : Option String) → unless_value v o ≡ some n → (o ≡ some n) × (n ≢ v)
unless_value-some v n none h = ground arith
unless_value-some v n (some w) h = (ground (arith, eq_iff w v), ground (arith, eq_iff w v))

unless_value-other :
    (v n : String) (o : Option String) → o ≡ some n → n ≢ v → unless_value v o ≡ some n
unless_value-other v n none h k = ground arith
unless_value-other v n (some w) h k = ground (arith, eq_iff w v)

module _ {V : Type 0} where
  put-some :
      (k j : String) (v w : V) (m : String → Option V)
      → put k v m j ≡ some w
      → ((j ≡ k) × (w ≡ v)) ⊎ ((j ≢ k) × (m j ≡ some w))
  put-some k j v w m h = ground (arith, eq_iff k j)

  pub put-here : (k : String) (v : V) (m : String → Option V) → put k v m k ≡ some v
  put-here k v m = ground (arith, eq_iff k k)

  pub put-there : (k j : String) (v : V) (m : String → Option V) → j ≢ k → put k v m j ≡ m j
  put-there k j v m h = ground (arith, eq_iff k j)

  pub remove-put :
      (k : String) (v : V) (m : String → Option V) → m k ≡ none → remove k (put k v m) ≡ m
  remove-put k v m h = fun_ext (λ j. ground (arith, eq_iff k j, h))

module _ {C : Type 0} where
  -- A secret holds a cluster that is there and has a name, no cluster has two secrets, and no cluster
  -- is left without one.
  pub record Agree (p : Provider C) : Type 0 where
    pub named : (key : String) → p.secret_cluster key ≢ some ""
    pub present : (key name : String) → p.secret_cluster key ≡ some name → p.clusters name ≢ none
    pub unique :
        (key other name : String)
        → p.secret_cluster key ≡ some name
        → p.secret_cluster other ≡ some name
        → key ≡ other
    pub owned :
        (name : String)
        → p.clusters name ≢ none
        → (key : String) × (p.secret_cluster key ≡ some name)

  remove-some :
      (v n : String) (m : String → Option C) → remove v m n ≢ none → (n ≢ v) × (m n ≢ none)
  remove-some v n m h = (ground (arith, eq_iff v n), ground (arith, eq_iff v n))

  remove-other : (v n : String) (m : String → Option C) → n ≢ v → m n ≢ none → remove v m n ≢ none
  remove-other v n m k h = ground (arith, eq_iff v n)

  -- The maps without a cluster and the secrets that hold it.
  without-Agree :
      (p : Provider C) (name : String) (gone : List C)
      → Agree p
      → Agree (record p {
        clusters = remove name p.clusters;
        secret_cluster = remove_value name p.secret_cluster;
        cancelled = gone;
      })
  without-Agree p name gone a = record {
    named = λ key h. a.named key (unless_value-some name "" (p.secret_cluster key) h).0;
    present = λ key n h.
        let (e, k) = unless_value-some name n (p.secret_cluster key) h in
        remove-other name n p.clusters k (a.present key n e);
    unique = λ key other n h k.
        a.unique key other n (unless_value-some name n (p.secret_cluster key) h).0
          (unless_value-some name n (p.secret_cluster other) k).0;
    owned = λ n h.
        let (k, e) = remove-some name n p.clusters h in
        let (key, q) = a.owned n e in (key, unless_value-other name n (p.secret_cluster key) q k);
  }

  disengage_entry-Agree :
      (p : Provider C) (name : String) (o : Option C) → Agree p → Agree (disengage_entry p name o)
  disengage_entry-Agree p name none a = a
  disengage_entry-Agree p name (some entry) a = without-Agree p name (entry ∷ p.cancelled) a

  pub disengage-Agree : (p : Provider C) (name : String) → Agree p → Agree (disengage p name)
  unfolding disengage
  disengage-Agree p name a = disengage_entry-Agree p name (p.clusters name) a

  pub if-Agree : (b : Bool) (p q : Provider C) → Agree p → Agree q → Agree (if b then p else q)
  if-Agree true p q a b = a
  if-Agree false p q a b = b

  pub disengage_secret-Agree :
      (p : Provider C) (key : String) → Agree p → Agree (disengage_secret p key)
  unfolding disengage_secret text_or_empty
  disengage_secret-Agree p key a =
      let name = text_or_empty (p.secret_cluster key) in
      if-Agree (not (name == "")) (disengage p name) p (disengage-Agree p name a) a

  pub disengage-gone : (p : Provider C) (name : String) → (disengage p name).clusters name ≡ none
  unfolding disengage
  disengage-gone p name = entry-gone name p (p.clusters name) refl
    where
      entry-gone :
          (name : String) (p : Provider C) (o : Option C)
          → p.clusters name ≡ o
          → (disengage_entry p name o).clusters name ≡ none
      entry-gone name p none h = h
      entry-gone name p (some entry) h = ground (arith, eq_iff name name)

  -- The secret of a cluster that is disengaged holds none, and one that holds none gets none.
  pub disengage-frees :
      (p : Provider C) (name key : String)
      → Agree p
      → p.secret_cluster key ≡ some name
      → (disengage p name).secret_cluster key ≡ none
  unfolding disengage
  disengage-frees p name key a h = entry-frees p (p.clusters name) name key refl a h
    where
      entry-frees :
          (p : Provider C) (o : Option C) (name key : String)
          → p.clusters name ≡ o
          → Agree p
          → p.secret_cluster key ≡ some name
          → (disengage_entry p name o).secret_cluster key ≡ none
      entry-frees p none name key e a h = elim (a.present key name h e) [ ]
      entry-frees p (some entry) name key e a h =
          ap (unless_value name) h ∙ ground (arith, eq_iff name name)

  pub disengage-still_none :
      (p : Provider C) (name key : String)
      → p.secret_cluster key ≡ none
      → (disengage p name).secret_cluster key ≡ none
  unfolding disengage
  disengage-still_none p name key h = entry-still_none p (p.clusters name) name key h
    where
      entry-still_none :
          (p : Provider C) (o : Option C) (name key : String)
          → p.secret_cluster key ≡ none
          → (disengage_entry p name o).secret_cluster key ≡ none
      entry-still_none p none name key h = h
      entry-still_none p (some entry) name key h = ap (unless_value name) h

  pub disengage_secret-frees :
      (p : Provider C) (key : String) → Agree p → (disengage_secret p key).secret_cluster key ≡ none
  unfolding disengage_secret text_or_empty
  disengage_secret-frees p key a = go p key (p.secret_cluster key) a refl
    where
      go :
          (p : Provider C) (key : String) (o : Option String)
          → Agree p
          → p.secret_cluster key ≡ o
          → (if not (text_or_empty o == "")
                then disengage p (text_or_empty o)
                else p).secret_cluster
              key
            ≡ none
      go p key none a h = h
      go p key (some name) a h =
          rw (ne→text_neq name "" (λ e. a.named key (h ∙ ap some e)))
            (disengage-frees p name key a h)

  pub put-Agree :
      (p : Provider C) (key name : String) (cl : C)
      → Agree p
      → p.secret_cluster key ≡ none
      → p.clusters name ≡ none
      → name ≢ ""
      → Agree (record p {
        clusters = put name cl p.clusters;
        secret_cluster = put key name p.secret_cluster;
      })
  put-Agree p key name cl a h k ne = record {
    named = λ j q. ground (arith, eq_iff key j, a.named j);
    present = λ j n q. ground (arith, eq_iff key j, eq_iff name n, a.present j n);
    unique = λ j i n q r. elim (put-some key j name n p.secret_cluster q) [
      | inl s ↦ elim (put-some key i name n p.secret_cluster r) [
        | inl t ↦ s.0 ∙ sym t.0
        | inr t ↦ elim (a.present i n t.1 (ap p.clusters s.1 ∙ k)) [ ]
      ]
      | inr s ↦ elim (put-some key i name n p.secret_cluster r) [
        | inl t ↦ elim (a.present j n s.1 (ap p.clusters t.1 ∙ k)) [ ]
        | inr t ↦ a.unique j i n s.1 t.1
      ]
    ];
    owned = λ n q. elim (Bool-cases (name == n)) [
      | inl e ↦
          let same = (eq_iff name n).0 e in (key, put-here key name p.secret_cluster ∙ ap some same)
      | inr e ↦
          let (j, x) = a.owned n (λ y. q (ground (arith, eq_iff name n))) in
          (
            j,
            put-there key j name p.secret_cluster
                  (λ y. ground (arith, sym x ∙ ap p.secret_cluster y ∙ h))
                ∙ x,
          )
    ];
  }
