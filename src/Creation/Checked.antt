-- ===== src/Creation/Checked.antt =====
-- pkg/controllers/tf_controller.go, run: what stands in the cluster where a later stage of the same
-- generation starts its pod.
use infrakube_multicluster.Prelude.{
  String, Option, none, some, List, ◌≡◌, ◌≢◌, refl, ap, ◌∙◌, arith, subst, sym,
}
use infrakube_multicluster.Exec.{Go, returns, panics, Exec, ◌>>=◌, asks, continue}
use infrakube_multicluster.Kube.{NamespacedName, not_found, already_exists, other_error}
use infrakube_multicluster.Resource.{Terraform}
use infrakube_multicluster.Options.{TaskOptions}
use infrakube_multicluster.Controller.Api.{Error, Answer, found, failed}
use infrakube_multicluster.Objects.{
  Kind, config_map_kind, secret_kind, service_account_kind, role_kind, role_binding_kind, Object,
  Pod, VolumeClaim,
}
use infrakube_multicluster.Objects.Pods.{generate_pod}
use infrakube_multicluster.Creation.Cluster.{Cluster, ◌>>?◌, after_error}
use infrakube_multicluster.Creation.Kinds.{
  found_of, key_of, check_persistent_volume_claim_exists, check_config_map_exists,
  check_secret_exists, check_service_account_exists, check_role_exists, check_role_binding_exists,
  create_pod,
}
use infrakube_multicluster.Creation.Run.{require, check_objects}
use infrakube_multicluster.Creation.Store.{View, IsStore, Got}
use infrakube_multicluster.Creation.Does.{Does, After}
use infrakube_multicluster.Creation.Replaced.{pod-Does}

-- A test that changes nothing, and what holds where it finds no error.
abbrev Passed : Go (Option Error) → Type 0 → Type 0
Passed (returns none) P = P
Passed (returns (some e)) P = Unit
Passed panics P = Unit

module _ {W : Type 0} where
  record Tests (P : W → Type 0) (m : Exec W (Option Error)) : Type 0 where
    passed : (w : W) → Passed (m w).0 (P w)
    same : (w : W) → (m w).1 ≡ w

  passed_then :
      (P Q : W → Type 0) (res : Go (Option Error)) (n : Exec W (Option Error)) (w w' : W)
      → w' ≡ w
      → Passed res (P w)
      → Tests Q n
      → Passed (continue res (λ e. after_error e n) w').0 (P w × Q w)
        × ((continue res (λ e. after_error e n) w').1 ≡ w)
  passed_then P Q (returns (some e)) n w w' s p h = (tt, s)
  passed_then P Q panics n w w' s p h = (tt, s)
  passed_then P Q (returns none) n w w' s p h =
      (subst (λ u. Passed (n u).0 (P w × Q w)) (sym s) (pair (n w).0 (h.passed w)), h.same w' ∙ s)
    where
      pair : (r : Go (Option Error)) → Passed r (Q w) → Passed r (P w × Q w)
      pair (returns none) q = (p, q)
      pair (returns (some e)) q = tt
      pair panics q = tt

  Tests-then :
      (P Q : W → Type 0) (m n : Exec W (Option Error))
      → Tests P m
      → Tests Q n
      → Tests (λ w. P w × Q w) (m >>? n)
  unfolding ◌>>?◌ ◌>>=◌
  Tests-then P Q m n h k = record {
    passed = λ w. (passed_then P Q (m w).0 n w (m w).1 (h.same w) (h.passed w) k).0;
    same = λ w. (passed_then P Q (m w).0 n w (m w).1 (h.same w) (h.passed w) k).1;
  }

-- The claim and the five objects that a task needs.
abbrev pub IsSetUp : {W : Type 0} → Cluster W → (W → View) → TaskOptions → W → Type 0
IsSetUp c view r w =
    let versioned = key_of r.versioned_name r.namespace in
    ((claim : VolumeClaim) × (c.get_claim (key_of r.prefixed_name r.namespace) w ≡ found claim))
    × ((view w config_map_kind versioned ≢ none)
        × ((view w secret_kind versioned ≢ none)
            × ((view w role_binding_kind versioned ≢ none)
                × ((view w role_kind versioned ≢ none)
                    × (view w service_account_kind (key_of r.service_account r.namespace)
                        ≢ none)))))

module _ {W : Type 0} (c : Cluster W) (view : W → View) (pods : W → List Pod)
    (store : IsStore c view pods) where
  require_object :
      (kind : String) (k : Kind) (key : NamespacedName) (a : Answer Object) (w : W)
      → Got a (view w k key)
      → Passed (require c kind key (found_of a) w).0 (view w k key ≢ none)
        × ((require c kind key (found_of a) w).1 ≡ w)
  require_object kind k key (found o) w h = (λ e. ground arith, refl)
  require_object kind k key (failed not_found) w h = (tt, refl)
  require_object kind k key (failed already_exists) w h = (tt, refl)
  require_object kind k key (failed other_error) w h = (tt, refl)

  Tests-object :
      (kind : String) (k : Kind) (key : NamespacedName)
      → Tests
          (λ w. view w k key ≢ none)
          (asks (λ w. found_of (c.get_object k key w)) >>= require c kind key)
  unfolding ◌>>=◌
  Tests-object kind k key = record {
    passed = λ w. (require_object kind k key (c.get_object k key w) w (store.got k key w)).0;
    same = λ w. (require_object kind k key (c.get_object k key w) w (store.got k key w)).1;
  }

  require_claim :
      (key : NamespacedName) (a : Answer VolumeClaim) (w : W)
      → Passed
          (require c "PersistentVolumeClaim" key (found_of a) w).0
          ((claim : VolumeClaim) × (a ≡ found claim))
        × ((require c "PersistentVolumeClaim" key (found_of a) w).1 ≡ w)
  require_claim key (found o) w = ((o, refl), refl)
  require_claim key (failed not_found) w = (tt, refl)
  require_claim key (failed already_exists) w = (tt, refl)
  require_claim key (failed other_error) w = (tt, refl)

  Tests-claim :
      (key : NamespacedName)
      → Tests
          (λ w. (claim : VolumeClaim) × (c.get_claim key w ≡ found claim))
          (asks (λ w. found_of (c.get_claim key w)) >>= require c "PersistentVolumeClaim" key)
  unfolding ◌>>=◌
  Tests-claim key = record {
    passed = λ w. (require_claim key (c.get_claim key w) w).0;
    same = λ w. (require_claim key (c.get_claim key w) w).1;
  }

  check_objects-Tests : (r : TaskOptions) → Tests (IsSetUp c view r) (check_objects c r)
  unfolding check_objects check_persistent_volume_claim_exists check_config_map_exists
      check_secret_exists check_service_account_exists check_role_exists check_role_binding_exists
  check_objects-Tests r =
      let versioned = key_of r.versioned_name r.namespace in
      Tests-then _ _ _ _ (Tests-claim (key_of r.prefixed_name r.namespace)) (
        Tests-then _ _ _ _ (Tests-object "ConfigMap" config_map_kind versioned) (
          Tests-then _ _ _ _ (Tests-object "Secret" secret_kind versioned) (
            Tests-then _ _ _ _ (Tests-object "RoleBinding" role_binding_kind versioned) (
              Tests-then _ _ _ _ (Tests-object "Role" role_kind versioned) (
                Tests-object "ServiceAccount" service_account_kind
                  (key_of r.service_account r.namespace))))))

  checked_run :
      (P : Type 0) (res : Go (Option Error)) (n : Exec W (Option Error)) (w w' : W)
      → w' ≡ w
      → Passed res P
      → Does view (λ v. v) n
      → (continue res (λ e. after_error e n) w').0 ≡ returns none
      → P × (view (continue res (λ e. after_error e n) w').1 ≡ view w)
  checked_run P (returns (some e)) n w w' s p h ended = ground arith
  checked_run P panics n w w' s p h ended = ground arith
  checked_run P (returns none) n w w' s p h ended =
      (p, kept (n w').0 ended (h.after w') ∙ ap view s)
    where
      kept :
          (res : Go (Option Error))
          → res ≡ returns none
          → After res (λ v. v) (view w') (view (n w').1)
          → view (n w').1 ≡ view w'
      kept (returns none) e a = a
      kept (returns (some x)) e a = ground arith
      kept panics e a = ground arith

  -- The run where the objects are only looked for.
  pub unchanged_run :
      (tf : Terraform) (r : TaskOptions) (w : W)
      → ((check_objects c r >>? create_pod c tf r) w).0 ≡ returns none
      → IsSetUp c view r w × (view ((check_objects c r >>? create_pod c tf r) w).1 ≡ view w)
  unfolding ◌>>?◌ ◌>>=◌ create_pod
  unchanged_run tf r w ended =
      let t = check_objects-Tests r in
      checked_run (IsSetUp c view r w) (check_objects c r w).0 (create_pod c tf r) w
        (check_objects c r w).1 (t.same w) (t.passed w)
        (pod-Does c view pods store tf (generate_pod r)) ended
