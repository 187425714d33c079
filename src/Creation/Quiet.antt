-- ===== src/Creation/Quiet.antt =====
-- pkg/controllers/tf_controller.go, run: code that starts no pod.
use infrakube_multicluster.Prelude.{
  String, Bool, true, false, Option, none, some, List, ◌≡◌, refl, ◌∙◌, if◌then◌else◌,
}
use infrakube_multicluster.Exec.{Exec, pure, ◌>>=◌, call, asks, perform}
use infrakube_multicluster.Exec.Yields.{Yields, Yields-pure, Yields-call, Yields-bind}
use infrakube_multicluster.Kube.{NamespacedName, ApiError, not_found, already_exists, other_error}
use infrakube_multicluster.Resource.{Terraform}
use infrakube_multicluster.Controller.Api.{Error}
use infrakube_multicluster.Objects.{Object, Pod, Kind, VolumeClaim}
use infrakube_multicluster.Creation.Cluster.{Cluster, ◌>>?◌, after_error, wrapped}
use infrakube_multicluster.Creation.Kinds.{
  Found, existing, missing, lookup_failed, found_of, delete_found, report_creation, report_secret,
  create_unless_found,
}
use infrakube_multicluster.Creation.Run.{require, update_existing}
use infrakube_multicluster.Creation.Store.{View, IsStore}

module _ {W : Type 0} (c : Cluster W) (view : W → View) (pods : W → List Pod)
    (store : IsStore c view pods) (ps : List Pod) where
  -- Code that always returns and starts no pod.
  abbrev pub Quiet : {A : Type 0} → Exec W A → Type 0
  Quiet {A = A} m = Yields (λ w. pods w ≡ ps) (λ (a : A). Unit) m

  pub Quiet-pure : {A : Type 0} (a : A) → Quiet (pure a)
  Quiet-pure a = Yields-pure a tt

  pub Quiet-call : {A : Type 0} (f : W → A × W) → ((w : W) → pods (f w).1 ≡ pods w) → Quiet (call f)
  Quiet-call f h = Yields-call f (λ w p. h w ∙ p) (λ w p. tt)

  pub Quiet-bind :
      {A B : Type 0} (m : Exec W A) (f : A → Exec W B)
      → Quiet m
      → ((a : A) → Quiet (f a))
      → Quiet (m >>= f)
  Quiet-bind m f h k = Yields-bind m f h (λ a q. k a)

  pub Quiet-after :
      (e : Option Error) (n : Exec W (Option Error)) → Quiet n → Quiet (after_error e n)
  Quiet-after none n h = h
  Quiet-after (some e) n h = Quiet-pure (some e)

  pub Quiet-then : (m n : Exec W (Option Error)) → Quiet m → Quiet n → Quiet (m >>? n)
  unfolding ◌>>?◌
  Quiet-then m n h k = Quiet-bind m _ h (λ e. Quiet-after e n k)

  pub Quiet-if :
      (b : Bool) (m n : Exec W (Option Error)) → Quiet m → Quiet n → Quiet (if b then m else n)
  Quiet-if true m n h k = h
  Quiet-if false m n h k = k

  pub Quiet-found :
      (kind : Kind) (key : NamespacedName) (f : Found Object) → Quiet (delete_found c kind key f)
  Quiet-found kind key (existing o) =
      Quiet-bind _ _ (Quiet-call _ (store.pods-delete kind key)) (λ r. Quiet-pure (wrapped r))
  Quiet-found kind key missing = Quiet-pure _
  Quiet-found kind key (lookup_failed e) = Quiet-pure _

  pub Quiet-delete :
      (kind : Kind) (key : NamespacedName)
      → Quiet (asks (λ w. found_of (c.get_object kind key w)) >>= delete_found c kind key)
  Quiet-delete kind key =
      Quiet-bind (asks (λ w. found_of (c.get_object kind key w))) _
        (Quiet-call (λ w. (found_of (c.get_object kind key w), w)) (λ w. refl))
        (Quiet-found kind key)

  pub Quiet-event :
      (kind reason : String) (e : Option Error)
      → Quiet (perform (c.record_event kind reason) >>= λ _. pure e)
  Quiet-event kind reason e =
      Quiet-bind (perform (c.record_event kind reason)) _
        (Quiet-call (λ w. (tt, c.record_event kind reason w)) (store.pods-event kind reason))
        (λ u. Quiet-pure e)

  pub Quiet-report : (kind : String) (r : Option ApiError) → Quiet (report_creation c kind r)
  Quiet-report kind none = Quiet-event _ _ _
  Quiet-report kind (some e) = Quiet-event _ _ _

  pub Quiet-secret : (b : Bool) (r : Option ApiError) → Quiet (report_secret c b r)
  Quiet-secret b none = Quiet-report "Secret" none
  Quiet-secret true (some already_exists) = Quiet-report "Secret" (some already_exists)
  Quiet-secret false (some already_exists) = Quiet-pure none
  Quiet-secret b (some not_found) = Quiet-report "Secret" (some not_found)
  Quiet-secret b (some other_error) = Quiet-report "Secret" (some other_error)

  pub Quiet-create :
      (tf : Terraform) (o : Object) (report : Option ApiError → Exec W (Option Error))
      → ((r : Option ApiError) → Quiet (report r))
      → Quiet (call (c.create_object tf o) >>= report)
  Quiet-create tf o report h = Quiet-bind _ _ (Quiet-call _ (store.pods-create tf o)) h

  pub Quiet-existing :
      (tf : Terraform) (o : Object) (r : Option ApiError) → Quiet (update_existing c tf o r)
  Quiet-existing tf o none = Quiet-pure _
  Quiet-existing tf o (some already_exists) =
      Quiet-bind _ _ (Quiet-call _ (store.pods-update tf o)) (λ r. Quiet-pure (wrapped r))
  Quiet-existing tf o (some not_found) = Quiet-pure _
  Quiet-existing tf o (some other_error) = Quiet-pure _

  pub Quiet-claim :
      (tf : Terraform) (claim : VolumeClaim) (f : Found VolumeClaim)
      → Quiet (create_unless_found c tf claim f)
  Quiet-claim tf claim (existing o) = Quiet-pure _
  Quiet-claim tf claim (lookup_failed e) = Quiet-pure _
  Quiet-claim tf claim missing =
      Quiet-bind _ _ (Quiet-call _ (store.pods-claim tf claim))
        (Quiet-report "PersistentVolumeClaim")

  pub Quiet-require :
      {A : Type 0} (kind : String) (key : NamespacedName) (f : Found A)
      → Quiet (require c kind key f)
  Quiet-require kind key (existing o) = Quiet-pure _
  Quiet-require kind key missing = Quiet-pure _
  Quiet-require kind key (lookup_failed e) = Quiet-pure _
