-- ===== src/Objects/Closed.antt =====
-- pkg/controllers/tf_controller.go, generatePod: every mount of a pod has its volume, and no two
-- volumes share a name.
use infrakube_multicluster.Prelude.{
  String, true, false, ◌||◌, none, List, [], ◌∷◌, ◌++◌, ◌≡◌, refl, ap, ◌∙◌, arith, eq_iff, All,
  Bool-cases, inl, inr,
}
use infrakube_multicluster.Utils.{list_contains_str, list_contains_str-append}
use infrakube_multicluster.Kube.{Volume, VolumeMount, Container}
use infrakube_multicluster.Options.{TaskOptions, Sidecar}
use infrakube_multicluster.Objects.Volumes.{
  volume_names, validate_volume, validate_volume_lem, IsMounted,
}
use infrakube_multicluster.Objects.Pods.{
  task_volumes, added_volumes, task_mounts, added_mounts, add_missing, add_sidecars,
  has_config_map_source,
}

-- The mounts of every container are of these volumes.
abbrev pub IsClosed : List Container → List Volume → Type 0
IsClosed containers volumes = All (λ c. All (IsMounted volumes) c.volume_mounts) containers

abbrev pub IsDistinct : List String → Type 0
IsDistinct [] = Unit
IsDistinct (n ∷ names) = (list_contains_str names n ≡ false) × IsDistinct names

pub volume_names-append :
    (xs ys : List Volume) → volume_names (xs ++ ys) ≡ volume_names xs ++ volume_names ys
volume_names-append [] ys = refl
volume_names-append (x ∷ xs) ys = ap (◌∷◌ x.name) (volume_names-append xs ys)

pub contains_names-append :
    (xs ys : List Volume) (n : String)
    → list_contains_str (volume_names (xs ++ ys)) n
      ≡ (list_contains_str (volume_names xs) n || list_contains_str (volume_names ys) n)
contains_names-append xs ys n =
    ap (λ l. list_contains_str l n) (volume_names-append xs ys)
    ∙ list_contains_str-append (volume_names xs) (volume_names ys) n

-- Volumes that contain the names of others.
abbrev IsWithin : List Volume → List Volume → Type 0
IsWithin xs ys =
    (n : String)
    → list_contains_str (volume_names xs) n ≡ true
    → list_contains_str (volume_names ys) n ≡ true

mounts-IsWithin :
    (xs ys : List Volume) (mounts : List VolumeMount)
    → IsWithin xs ys
    → All (IsMounted xs) mounts
    → All (IsMounted ys) mounts
mounts-IsWithin xs ys [] h k = tt
mounts-IsWithin xs ys (m ∷ mounts) h k = (h m.name k.0, mounts-IsWithin xs ys mounts h k.1)

IsClosed-IsWithin :
    (xs ys : List Volume) (containers : List Container)
    → IsWithin xs ys
    → IsClosed containers xs
    → IsClosed containers ys
IsClosed-IsWithin xs ys [] h k = tt
IsClosed-IsWithin xs ys (c ∷ containers) h k =
    (mounts-IsWithin xs ys c.volume_mounts h k.0, IsClosed-IsWithin xs ys containers h k.1)

All-append {ℓ κ} :
    {A : Type ℓ} (P : A → Type κ) (xs ys : List A) → All P xs → All P ys → All P (xs ++ ys)
All-append P [] ys h k = k
All-append P (x ∷ xs) ys h k = (h.0, All-append P xs ys h.1 k)

-- What one sidecar adds: its volumes are there afterwards, and those before are kept.
add_missing_within :
    (listed : List String) (volumes more : List Volume) (n : String)
    → ((k : String)
        → list_contains_str listed k ≡ true
        → list_contains_str (volume_names volumes) k ≡ true)
    → (list_contains_str (volume_names volumes) n || list_contains_str (volume_names more) n) ≡ true
    → list_contains_str (volume_names (add_missing listed volumes more)) n ≡ true
unfolding add_missing list_contains_str
add_missing_within listed volumes [] n h e = ground arith
add_missing_within listed volumes (v ∷ more) n h e =
    elim (Bool-cases (list_contains_str listed v.name)) [
      | inl old ↦ rw old (
          add_missing_within listed volumes more n h
            (ground (arith, h v.name old, eq_iff v.name n)))
      | inr new ↦ rw new (
          add_missing_within listed (volumes ++ v ∷ []) more n
            (λ k p. ground (arith, h k p, contains_names-append volumes (v ∷ []) k))
            (ground (arith, contains_names-append volumes (v ∷ []) n)))
    ]

-- The containers and the volumes after the loop over the sidecars.
pub add_sidecars-IsClosed :
    (sidecars : List Sidecar) (containers : List Container) (volumes : List Volume)
    → All (λ s. IsClosed s.containers s.volumes) sidecars
    → IsClosed containers volumes
    → IsClosed
        (add_sidecars sidecars (containers, volumes)).0
        (add_sidecars sidecars (containers, volumes)).1
unfolding add_sidecars
add_sidecars-IsClosed [] containers volumes h k = k
add_sidecars-IsClosed (s ∷ sidecars) containers volumes h k =
    let next = add_missing (volume_names volumes) volumes s.volumes in
    let before : IsWithin volumes next = λ n p.
      add_missing_within (volume_names volumes) volumes s.volumes n (λ k q. q) (ground arith) in
    let added : IsWithin s.volumes next = λ n p.
      add_missing_within (volume_names volumes) volumes s.volumes n (λ k q. q) (ground arith) in
    add_sidecars-IsClosed sidecars (containers ++ s.containers) next h.1 (
      All-append _ containers s.containers (IsClosed-IsWithin volumes next containers before k)
        (IsClosed-IsWithin s.volumes next s.containers added h.0))

added_mounts_closed : (r : TaskOptions) → All (IsMounted (added_volumes r)) (added_mounts r)
unfolding added_volumes added_mounts list_contains_str
added_mounts_closed r = elim (Bool-cases (has_config_map_source r)) [
  | inl p ↦ rw p (refl, (refl, (refl, (refl, tt))))
  | inr p ↦ rw p (refl, (refl, (refl, tt)))
]

-- The container of the task, with the volumes that are checked and those that are added.
pub task_mounts_closed :
    (r : TaskOptions) → validate_volume r ≡ none → All (IsMounted (task_volumes r)) (task_mounts r)
unfolding task_volumes task_mounts list_contains_str
task_mounts_closed r h =
    let (usable, mounted) = (validate_volume_lem r).0 h in
    let own : IsWithin r.volumes (task_volumes r) =
      λ n p. ground (arith, contains_names-append r.volumes (added_volumes r) n) in
    let added : IsWithin (added_volumes r) (task_volumes r) =
      λ n p. ground (arith, contains_names-append r.volumes (added_volumes r) n) in
    (
      refl,
      All-append _ r.volume_mounts (added_mounts r)
          (mounts-IsWithin r.volumes (task_volumes r) r.volume_mounts own mounted)
          (mounts-IsWithin (added_volumes r) (task_volumes r) (added_mounts r) added
            (added_mounts_closed r)),
    )
