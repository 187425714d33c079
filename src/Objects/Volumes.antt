-- ===== src/Objects/Volumes.antt =====
-- pkg/controllers/tf_controller.go, validateVolume: which volumes a task may bring along.
use infrakube_multicluster.Prelude.{
  String, true, false, Option, none, some, List, [], ◌∷◌, ◌≡◌, refl, arith, All, ◌⧺◌, if◌then◌else◌,
  ◌↔◌,
}
use infrakube_multicluster.Utils.{list_contains_str}
use infrakube_multicluster.Kube.{Volume, VolumeMount}
use infrakube_multicluster.Options.{TaskOptions}

abbrev pub volume_names : List Volume → List String
volume_names [] = []
volume_names (v ∷ volumes) = v.name ∷ volume_names volumes

abbrev pub mount_names : List VolumeMount → List String
mount_names [] = []
mount_names (m ∷ mounts) = m.name ∷ mount_names mounts

-- The keys of `prohibitedNames`.
abbrev pub prohibited_names : List String
prohibited_names =
    "infrakubehome" ∷ "config-map-source" ∷ "main-module-addons" ∷ "gitaskpass" ∷ "ssh" ∷ []

misconfigured : String → String → String
misconfigured task what = "task '" ⧺ task ⧺ "' is misconfigured: " ⧺ what

-- The loop over the volumes, given the names of the mounts: the message of the first that is
-- refused.
check_volumes : (task : String) → List String → List Volume → Option String
unfolding misconfigured
check_volumes task mounts [] = none
check_volumes task mounts (v ∷ volumes) =
    let rest = check_volumes task mounts volumes in
    if list_contains_str prohibited_names v.name
    then some (misconfigured task ("volume name '" ⧺ v.name ⧺ "' is reserved by tf-operator"))
    else if list_contains_str mounts v.name
    then rest
    else some
        (misconfigured task ("volume: '" ⧺ v.name ⧺ "' doesn't have corresponding volumeMount"))

-- The loop over the mounts, given the names of the volumes.
check_mounts : (task : String) → List String → List VolumeMount → Option String
unfolding misconfigured
check_mounts task volumes [] = none
check_mounts task volumes (m ∷ mounts) =
    let rest = check_mounts task volumes mounts in
    if list_contains_str volumes m.name
    then rest
    else some
        (misconfigured task ("volumeMount: '" ⧺ m.name ⧺ "' doesn't have corresponding volume"))

abbrev or_else : Option String → Option String → Option String
or_else (some e) next = some e
or_else none next = next

unfoldable pub validate_volume : TaskOptions → Option String
unfolding check_volumes check_mounts
validate_volume r =
    or_else (check_volumes r.task (mount_names r.volume_mounts) r.volumes)
      (check_mounts r.task (volume_names r.volumes) r.volume_mounts)

-- A volume that the task may bring: its name is free and something mounts it.
abbrev pub IsUsable : List VolumeMount → Volume → Type 0
IsUsable mounts v =
    (list_contains_str prohibited_names v.name ≡ false)
    × (list_contains_str (mount_names mounts) v.name ≡ true)

-- A mount of one of the volumes.
abbrev pub IsMounted : List Volume → VolumeMount → Type 0
IsMounted volumes m = list_contains_str (volume_names volumes) m.name ≡ true

check_volumes_lem :
    (task : String) (mounts : List VolumeMount) (volumes : List Volume)
    → (check_volumes task (mount_names mounts) volumes ≡ none) ↔ All (IsUsable mounts) volumes
unfolding check_volumes
check_volumes_lem task mounts [] = (λ e. tt, λ h. refl)
check_volumes_lem task mounts (v ∷ volumes) =
    let (to, from) = check_volumes_lem task mounts volumes in
    (λ e. ground (arith, to), λ h. ground (arith, from h.1))

check_mounts_lem :
    (task : String) (volumes : List Volume) (mounts : List VolumeMount)
    → (check_mounts task (volume_names volumes) mounts ≡ none) ↔ All (IsMounted volumes) mounts
unfolding check_mounts
check_mounts_lem task volumes [] = (λ e. tt, λ h. refl)
check_mounts_lem task volumes (m ∷ mounts) =
    let (to, from) = check_mounts_lem task volumes mounts in
    (λ e. ground (arith, to), λ h. ground (arith, from h.1))

or_else_lem : (a b : Option String) → (or_else a b ≡ none) ↔ ((a ≡ none) × (b ≡ none))
or_else_lem (some e) b = (λ e. ground arith, λ h. ground arith)
or_else_lem none b = (λ e. (refl, e), λ h. h.1)

-- Volumes and mounts pass exactly when every volume has a name that the operator does not use for
-- its own and is mounted, and every mount is of one of these volumes.
pub validate_volume_lem :
    (r : TaskOptions)
    → (validate_volume r ≡ none)
      ↔ (All (IsUsable r.volume_mounts) r.volumes × All (IsMounted r.volumes) r.volume_mounts)
unfolding validate_volume
validate_volume_lem r =
    let (both, join) =
      or_else_lem (check_volumes r.task (mount_names r.volume_mounts) r.volumes)
        (check_mounts r.task (volume_names r.volumes) r.volume_mounts) in
    let (to_volumes, of_volumes) = check_volumes_lem r.task r.volume_mounts r.volumes in
    let (to_mounts, of_mounts) = check_mounts_lem r.task r.volumes r.volume_mounts in
    (
      λ e. let (a, b) = both e in (to_volumes a, to_mounts b),
      λ h. join (of_volumes h.0, of_mounts h.1),
    )
