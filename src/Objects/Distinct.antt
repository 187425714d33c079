-- ===== src/Objects/Distinct.antt =====
-- pkg/controllers/tf_controller.go, generatePod: no two volumes of a pod share a name, and what that and
-- the mounts make of it.
use infrakube_multicluster.Prelude.{
  String, true, false, Option, subst, none, some, List, [], ◌∷◌, ◌++◌, ◌≡◌, refl, arith, eq_iff,
  All, Bool-cases, inl, inr,
}
use infrakube_multicluster.Utils.{list_contains_str, list_contains_str-append}
use infrakube_multicluster.Kube.{Volume, VolumeMount, Container}
use infrakube_multicluster.Options.{TaskOptions, Sidecar}
use infrakube_multicluster.Objects.Types.{Pod}
use infrakube_multicluster.Objects.Volumes.{
  volume_names, prohibited_names, validate_volume, validate_volume_lem, IsUsable,
}
use infrakube_multicluster.Objects.Closed.{
  IsClosed, IsDistinct, volume_names-append, contains_names-append, add_sidecars-IsClosed,
  task_mounts_closed,
}
use infrakube_multicluster.Objects.Pods.{
  pod_of, task_container, unless_refused, generated, generate_pod, task_volumes, added_volumes,
  add_missing, add_sidecars, has_config_map_source,
}

-- What keeps the names of the volumes distinct.
IsDistinct-snoc :
    (names : List String) (n : String)
    → list_contains_str names n ≡ false
    → IsDistinct names
    → IsDistinct (names ++ n ∷ [])
unfolding list_contains_str
IsDistinct-snoc [] n e h = (refl, tt)
IsDistinct-snoc (x ∷ names) n e h =
    let absent : list_contains_str names n ≡ false = ground arith in
    (
      ground (arith, list_contains_str-append names (n ∷ []) x, eq_iff x n, eq_iff n x, h.0),
      IsDistinct-snoc names n absent h.1,
    )

IsDistinct-append :
    (xs ys : List String)
    → ((n : String) → list_contains_str xs n ≡ true → list_contains_str ys n ≡ false)
    → IsDistinct xs
    → IsDistinct ys
    → IsDistinct (xs ++ ys)
unfolding list_contains_str
IsDistinct-append [] ys h k l = l
IsDistinct-append (x ∷ xs) ys h k l = (
  ground (arith, list_contains_str-append xs ys x, h x (ground (arith, eq_iff x x)), k.0),
  IsDistinct-append xs ys (λ n p. h n (ground arith)) k.1 l,
)

add_missing-IsDistinct :
    (listed : List String) (volumes more : List Volume)
    → ((n : String)
        → list_contains_str (volume_names volumes) n ≡ true
        → list_contains_str (volume_names more) n ≡ true
        → list_contains_str listed n ≡ true)
    → IsDistinct (volume_names volumes)
    → IsDistinct (volume_names more)
    → IsDistinct (volume_names (add_missing listed volumes more))
unfolding add_missing list_contains_str
add_missing-IsDistinct listed volumes [] h k l = k
add_missing-IsDistinct listed volumes (v ∷ more) h k l =
    elim (Bool-cases (list_contains_str listed v.name)) [
      | inl old ↦
          rw old (add_missing-IsDistinct listed volumes more (λ n p q. h n p (ground arith)) k l.1)
      | inr new ↦ rw new (
          add_missing-IsDistinct listed (volumes ++ v ∷ []) more
            (λ n p q.
              ground (arith, contains_names-append volumes (v ∷ []) n, eq_iff v.name n, h n, l.0))
            (rw (volume_names-append volumes (v ∷ [])) (
              IsDistinct-snoc (volume_names volumes) v.name
                (ground (arith, h v.name, eq_iff v.name v.name)) k))
            l.1)
    ]

add_sidecars-IsDistinct :
    (sidecars : List Sidecar) (containers : List Container) (volumes : List Volume)
    → All (λ s. IsDistinct (volume_names s.volumes)) sidecars
    → IsDistinct (volume_names volumes)
    → IsDistinct (volume_names (add_sidecars sidecars (containers, volumes)).1)
unfolding add_sidecars
add_sidecars-IsDistinct [] containers volumes h k = k
add_sidecars-IsDistinct (s ∷ sidecars) containers volumes h k =
    let next = add_missing (volume_names volumes) volumes s.volumes in
    add_sidecars-IsDistinct sidecars (containers ++ s.containers) next h.1
      (add_missing-IsDistinct (volume_names volumes) volumes s.volumes (λ n p q. p) k h.0)

added_names-IsDistinct : (r : TaskOptions) → IsDistinct (volume_names (added_volumes r))
unfolding added_volumes list_contains_str
added_names-IsDistinct r = elim (Bool-cases (has_config_map_source r)) [
  | inl p ↦ rw p (refl, (refl, (refl, (refl, tt))))
  | inr p ↦ rw p (refl, (refl, (refl, tt)))
]

-- The operator's volumes have names of its own.
added_names_prohibited :
    (r : TaskOptions) (n : String)
    → list_contains_str prohibited_names n ≡ false
    → list_contains_str (volume_names (added_volumes r)) n ≡ false
unfolding added_volumes list_contains_str
added_names_prohibited r n h = elim (Bool-cases (has_config_map_source r)) [
  | inl p ↦ rw p (ground arith)
  | inr p ↦ rw p (ground arith)
]

added_names_home :
    (r : TaskOptions) → list_contains_str (volume_names (added_volumes r)) "infrakubehome" ≡ false
unfolding added_volumes list_contains_str
added_names_home r = elim (Bool-cases (has_config_map_source r)) [
  | inl p ↦ rw p refl
  | inr p ↦ rw p refl
]

usable_names :
    (mounts : List VolumeMount) (volumes : List Volume) (n : String)
    → All (IsUsable mounts) volumes
    → list_contains_str (volume_names volumes) n ≡ true
    → list_contains_str prohibited_names n ≡ false
unfolding list_contains_str
usable_names mounts [] n h e = ground arith
usable_names mounts (v ∷ volumes) n h e =
    ground (arith, eq_iff v.name n, h.0.0, usable_names mounts volumes n h.1)

task_names-IsDistinct :
    (r : TaskOptions)
    → validate_volume r ≡ none
    → IsDistinct (volume_names r.volumes)
    → IsDistinct (volume_names (task_volumes r))
unfolding task_volumes list_contains_str
task_names-IsDistinct r h k =
    let (usable, mounted) = (validate_volume_lem r).0 h in
    let home_free : list_contains_str (volume_names (r.volumes ++ added_volumes r)) "infrakubehome"
        ≡ false =
      ground (
        arith,
        contains_names-append r.volumes (added_volumes r) "infrakubehome",
        usable_names r.volume_mounts r.volumes "infrakubehome" usable,
        added_names_home r,
      ) in
    (
      home_free,
      rw (volume_names-append r.volumes (added_volumes r)) (
          IsDistinct-append (volume_names r.volumes) (volume_names (added_volumes r))
            (λ n p. added_names_prohibited r n (usable_names r.volume_mounts r.volumes n usable p))
            k (added_names-IsDistinct r)),
    )

-- The volumes of a pod have distinct names, and every mount of its containers is of one of them.
abbrev pub IsWellFormed : List Container → List Volume → Type 0
IsWellFormed containers volumes = IsClosed containers volumes × IsDistinct (volume_names volumes)

All-firsts {ℓ κ} :
    {A : Type ℓ} (P Q : A → Type κ) (xs : List A) → All (λ x. P x × Q x) xs → All P xs × All Q xs
All-firsts P Q [] h = (tt, tt)
All-firsts P Q (x ∷ xs) h = let (p, q) = All-firsts P Q xs h.1 in ((h.0.0, p), (h.0.1, q))

generated_inv :
    (o : Option String) (made pod : Pod)
    → unless_refused o made ≡ generated pod
    → (o ≡ none) × (made ≡ pod)
generated_inv none made pod e = (refl, ground arith)
generated_inv (some m) made pod e = ground arith

-- Where the volumes of a task have distinct names and its sidecars are well formed, so is the pod
-- that is generated for it: the operator's own volumes hide none of the task's, each sidecar's mounts
-- find a volume in the merged list, and no volume of a sidecar is added under a name that is taken.
pub generate_pod-IsWellFormed :
    (r : TaskOptions) (pod : Pod)
    → IsDistinct (volume_names r.volumes)
    → All (λ s. IsWellFormed s.containers s.volumes) r.sidecar_plugins
    → generate_pod r ≡ generated pod
    → IsWellFormed pod.spec.containers pod.spec.volumes
unfolding generate_pod pod_of
generate_pod-IsWellFormed r pod h k e =
    let (valid, same) = generated_inv (validate_volume r) (pod_of r) pod e in
    let (closed, distinct) = All-firsts _ _ r.sidecar_plugins k in
    subst (λ p. IsWellFormed p.spec.containers p.spec.volumes) same
      (
        add_sidecars-IsClosed r.sidecar_plugins (task_container r ∷ []) (task_volumes r) closed
            (task_mounts_closed r valid, tt),
        add_sidecars-IsDistinct r.sidecar_plugins (task_container r ∷ []) (task_volumes r) distinct
            (task_names-IsDistinct r valid h),
      )
