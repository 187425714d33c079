-- ===== src/Reapers/Ends.antt =====
-- pkg/controllers/tf_controller.go: how the loops of the reapers end.
use infrakube_multicluster.Prelude.{
  ℕ, zero, suc, ◌+◌, ◌≤◌, String, Option, none, some, List, [], ◌∷◌, ◌≡◌, ◌≢◌, ◌⊎◌, refl, arith,
  ltb, Bool-cases, inl, inr,
}
use infrakube_multicluster.Exec.{returns, Exec, call, perform, ◌>>=◌}
use infrakube_multicluster.Exec.Yields.{Yields, Yields-pure, Yields-call, Yields-bind}
use infrakube_multicluster.Kube.{
  NamespacedName, PodStatus, ApiError, not_found, already_exists, other_error,
}
use infrakube_multicluster.Resource.{Terraform}
use infrakube_multicluster.Controller.Api.{Api, Answer, found, failed}
use infrakube_multicluster.Controller.Updates.{get_tf_resource, named, after_read}
use infrakube_multicluster.Reapers.{
  Reaped, pods, Reaping, ReapEnd, gave_up, stopped, removed, out_of_fuel, other_kinds,
  unless_failed, remove_others, after_old_list, reap_selected, reap_read,
  background_reap_old_generation_pods,
}

-- A predicate on the world that the calls of a round keep, and what it says of the pods left.
pub record Lasts {W : Type 0} (a : Api W) (k : Reaping W) (P : W → Type 0)
    (L : Answer (List PodStatus) → Type 0) : Type 0 where
  pub read : (name : NamespacedName) (w : W) → P w → P (a.get_tf name w).1
  pub pods_deleted :
      (namespace : String) (labels fields : Option String) (w : W)
      → P w
      → P (k.delete_all_of pods namespace labels fields w).1
  pub listed :
      (namespace : String) (labels : Option String) (w : W)
      → P w
      → P (k.list_pods_with namespace labels w).1
  pub pods_left :
      (namespace : String) (labels : Option String) (w : W)
      → P w
      → L (k.list_pods_with namespace labels w).0
  pub slept : (w : W) → P w → P (k.sleep w)

module _ {W : Type 0} (a : Api W) (k : Reaping W) (label_prefix : String)
    (md5_hex : String → String) (P : W → Type 0) (L : Answer (List PodStatus) → Type 0)
    (Q : ReapEnd → Type 0) (lasts : Lasts a k P L) (stop : Q stopped) (give_up : Q gave_up)
    (empty : (tf : Terraform) (labels : String)
      → L (found [])
      → Yields P Q (remove_others a k label_prefix md5_hex tf labels other_kinds)) where
  again-Yields :
      (again : Exec W (Answer Terraform)) (r : Answer Terraform)
      → Yields P (λ (r : Answer Terraform). Unit) again
      → Yields P (λ (r : Answer Terraform). Unit) (after_read a again r)
  again-Yields again (found tf) y = Yields-pure (found tf) tt
  again-Yields again (failed not_found) y = Yields-pure (failed not_found) tt
  again-Yields again (failed already_exists) y = y
  again-Yields again (failed other_error) y = y

  read-Yields :
      (name : NamespacedName) (n : ℕ)
      → Yields P (λ (r : Answer Terraform). Unit) (get_tf_resource a name n)
  unfolding get_tf_resource
  read-Yields name zero = Yields-call (a.get_tf name) (lasts.read name) (λ w p. tt)
  read-Yields name (suc n) =
      Yields-bind (call (a.get_tf name)) (after_read a (get_tf_resource a name n))
        (Yields-call {Q = λ r. Unit} (a.get_tf name) (lasts.read name) (λ w p. tt))
        (λ r q. again-Yields (get_tf_resource a name n) r (read-Yields name n))

  list-Yields :
      (again : Exec W ReapEnd) (tf : Terraform) (labels : String) (r : Answer (List PodStatus))
      → L r
      → Yields P Q again
      → Yields P Q (after_old_list a k label_prefix md5_hex again tf labels r)
  list-Yields again tf labels (failed e) l y = Yields-pure stopped stop
  list-Yields again tf labels (found []) l y = empty tf labels l
  list-Yields again tf labels (found (pod ∷ left)) l y =
      Yields-bind (perform k.sleep) (λ u. again)
        (Yields-call {Q = λ u. Unit} (λ w. (tt, k.sleep w)) lasts.slept (λ w p. tt)) (λ u q. y)

  selected-Yields :
      (again : Terraform → Exec W ReapEnd) (tf : Terraform) (labels fields : Option String)
      → Yields P Q (again tf)
      → Yields P Q (reap_selected a k label_prefix md5_hex again tf labels fields)
  selected-Yields again tf none fields y = Yields-pure stopped stop
  selected-Yields again tf (some labels) none y = Yields-pure stopped stop
  selected-Yields again tf (some labels) (some fields) y =
      Yields-bind (call (k.delete_all_of pods tf.namespace (some labels) (some fields))) _
        (Yields-call {Q = λ u. Unit} (k.delete_all_of pods tf.namespace (some labels) (some fields))
          (lasts.pods_deleted tf.namespace (some labels) (some fields)) (λ w p. tt))
        (λ r q. after r)
    where
      after :
          (r : Option ApiError)
          → Yields P Q (
              unless_failed a k label_prefix md5_hex
                (call (k.list_pods_with tf.namespace (some labels))
                  >>= after_old_list a k label_prefix md5_hex (again tf) tf labels)
                r)
      after (some e) = Yields-pure stopped stop
      after none =
          Yields-bind (call (k.list_pods_with tf.namespace (some labels))) _
            (Yields-call (k.list_pods_with tf.namespace (some labels))
              (lasts.listed tf.namespace (some labels))
              (lasts.pods_left tf.namespace (some labels)))
            (λ r l. list-Yields (again tf) tf labels r l y)

  latest-Yields :
      (again : Terraform → Exec W ReapEnd) (r : Answer Terraform)
      → ((latest : Terraform) → Yields P Q (again latest))
      → Yields P Q (reap_read a k label_prefix md5_hex again r)
  latest-Yields again (failed e) y = Yields-pure stopped stop
  latest-Yields again (found latest) y = selected-Yields again latest _ _ (y latest)

  pub reap-Yields :
      (fuel : ℕ) (tf : Terraform) (attempt : ℕ)
      → 22 ≤ fuel + attempt
      → attempt ≤ 21
      → Yields P Q (background_reap_old_generation_pods a k label_prefix md5_hex fuel tf attempt)
  unfolding background_reap_old_generation_pods
  reap-Yields zero tf attempt h l = absurd (omega (arith, h, l))
  reap-Yields (suc fuel) tf attempt h l = elim (Bool-cases (ltb 20 attempt)) [
    | inl over ↦ rw over (Yields-pure gave_up give_up)
    | inr more ↦ rw more (
        Yields-bind (get_tf_resource a (named tf) 2) _ (read-Yields (named tf) 2) (λ r q.
          latest-Yields _ r
            (λ latest. reap-Yields fuel latest (attempt + 1) (ground arith) (ground arith))))
  ]

module _ {W : Type 0} (a : Api W) (k : Reaping W) (label_prefix : String)
    (md5_hex : String → String) where
  anything-Lasts : Lasts a k (λ w. Unit) (λ r. Unit)
  anything-Lasts = record {
    read = λ name w p. tt;
    pods_deleted = λ namespace labels fields w p. tt;
    listed = λ namespace labels w p. tt;
    pods_left = λ namespace labels w p. tt;
    slept = λ w p. tt;
  }

  remove-Yields :
      (tf : Terraform) (labels : String) (kinds : List Reaped)
      → Yields
          (λ (w : W). Unit)
          (λ e. e ≢ out_of_fuel)
          (remove_others a k label_prefix md5_hex tf labels kinds)
  unfolding remove_others
  remove-Yields tf labels [] = Yields-pure removed (λ e. ground arith)
  remove-Yields tf labels (kind ∷ kinds) =
      Yields-bind (call (k.delete_all_of kind tf.namespace (some labels) none)) _
        (Yields-call {Q = λ r. Unit} (k.delete_all_of kind tf.namespace (some labels) none)
          (λ w p. tt) (λ w p. tt))
        (λ r q. after_delete r (remove-Yields tf labels kinds))
    where
      after_delete :
          (r : Option ApiError)
          → Yields
              (λ (w : W). Unit)
              (λ e. e ≢ out_of_fuel)
              (remove_others a k label_prefix md5_hex tf labels kinds)
          → Yields
              (λ (w : W). Unit)
              (λ e. e ≢ out_of_fuel)
              (unless_failed a k label_prefix md5_hex
                (remove_others a k label_prefix md5_hex tf labels kinds)
                r)
      after_delete none y = y
      after_delete (some e) y = Yields-pure stopped (λ e. ground arith)

  -- Whatever the server answers, the loop that reaps the pods of old generations ends: 22 calls, the
  -- last of which only finds that no attempt is left, are enough.
  pub reap_ends :
      (tf : Terraform) (w : W)
      → (e : ReapEnd) × ((background_reap_old_generation_pods a k label_prefix md5_hex 22 tf 0 w).0
          ≡ returns e)
        × (e ≢ out_of_fuel)
  reap_ends tf w =
      (reap-Yields a k label_prefix md5_hex (λ w. Unit) (λ r. Unit) (λ e. e ≢ out_of_fuel)
          anything-Lasts (λ e. ground arith) (λ e. ground arith)
          (λ tf labels l. remove-Yields tf labels other_kinds) 22 tf 0 (omega arith)
          (omega arith)).value
        w tt

  -- As long as pods of old generations are left, the loop deletes nothing but pods: it ends at an
  -- error or after its last attempt, and keeps every property of the world that reads, lists, waits
  -- and deletions of pods keep and under which a list is not empty.
  pub reap_waits :
      (P : W → Type 0)
      → Lasts a k P (λ r. r ≢ found [])
      → (tf : Terraform) (w : W) → P w
      → ((e : ReapEnd) × ((background_reap_old_generation_pods a k label_prefix md5_hex 22 tf 0 w).0
            ≡ returns e)
          × ((e ≡ gave_up) ⊎ (e ≡ stopped)))
        × P (background_reap_old_generation_pods a k label_prefix md5_hex 22 tf 0 w).1
  reap_waits P lasts tf w p =
      let y =
        reap-Yields a k label_prefix md5_hex P (λ r. r ≢ found [])
          (λ e. (e ≡ gave_up) ⊎ (e ≡ stopped)) lasts (inr refl) (inl refl)
          (λ tf labels l. absurd (l refl)) 22 tf 0 (omega arith) (omega arith) in
      (y.value w p, y.kept w p)
