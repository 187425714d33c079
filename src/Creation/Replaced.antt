-- ===== src/Creation/Replaced.antt =====
-- pkg/controllers/tf_controller.go: what one creation does to the abstract cluster.
use infrakube_multicluster.Prelude.{
  String, true, false, Option, none, some, List, ◌≡◌, ◌≢◌, refl, sym, ap, subst, ◌∙◌,
}
use infrakube_multicluster.Exec.{returns, Exec, pure, call, asks, ◌>>=◌}
use infrakube_multicluster.Kube.{NamespacedName, ApiError, not_found, already_exists, other_error}
use infrakube_multicluster.Resource.{Terraform}
use infrakube_multicluster.Controller.Api.{Answer, found, failed, Error}
use infrakube_multicluster.Objects.{Kind, Object, kind_of, Pod, VolumeClaim}
use infrakube_multicluster.Objects.Pods.{Generated, generated, refused}
use infrakube_multicluster.Creation.Cluster.{Cluster, wrapped, ◌>>?◌}
use infrakube_multicluster.Creation.Kinds.{
  Found, existing, missing, lookup_failed, found_of, delete_found, report_creation, report_secret,
  create_unless_found, create_generated,
}
use infrakube_multicluster.Creation.Run.{update_existing}
use infrakube_multicluster.Creation.Store.{
  View, set_place, place, object_at, object_key, Got, Created, Updated, Deleted, IsStore,
}
use infrakube_multicluster.Creation.Does.{Does, After, Does-then, Does-eq}
use infrakube_multicluster.Creation.Places.{set_place-none, set_place-twice}

-- The object is put where nothing stands.
abbrev pub place_missing : Object → View → View
place_missing o v = elim (object_at v o) [ none ↦ place o v | some _ ↦ v ]

place_missing_found : (o : Object) (v : View) → object_at v o ≢ none → place_missing o v ≡ v
place_missing_found o v h = at (object_at v o) h
  where
    at : (e : Option Object) → e ≢ none → elim e [ none ↦ place o v | some _ ↦ v ] ≡ v
    at none k = absurd (k refl)
    at (some e) k = refl

place_missing_free : (o : Object) (v : View) → object_at v o ≡ none → place_missing o v ≡ place o v
place_missing_free o v h = ap (λ e. elim e [ none ↦ place o v | some _ ↦ v ]) h

module _ {W : Type 0} (c : Cluster W) (view : W → View) (pods : W → List Pod)
    (store : IsStore c view pods) where
  report-After :
      (kind : String) (r : Option ApiError) (o : Object) (v : View) (w : W)
      → Created r o v (view w)
      → After (report_creation c kind r w).0 (place o) v (view (report_creation c kind r w).1)
  unfolding ◌>>=◌
  report-After kind none o v w h = store.view-event "Normal" "SuccessfulCreate" w ∙ h.1
  report-After kind (some e) o v w h = tt

  recreated-After :
      (r : Option ApiError) (o : Object) (v : View) (w : W)
      → Created r o v (view w)
      → After (report_secret c true r w).0 (place o) v (view (report_secret c true r w).1)
  unfolding ◌>>=◌
  recreated-After none o v w h = report-After "Secret" none o v w h
  recreated-After (some not_found) o v w h = tt
  recreated-After (some already_exists) o v w h = tt
  recreated-After (some other_error) o v w h = tt

  create-Does :
      (tf : Terraform) (o : Object) (report : Option ApiError → Exec W (Option Error))
      → ((r : Option ApiError) (v : View) (w : W)
          → Created r o v (view w)
          → After (report r w).0 (place o) v (view (report r w).1))
      → Does view (place o) (call (c.create_object tf o) >>= report)
  unfolding ◌>>=◌
  create-Does tf o report h = record {
    after = λ w.
        h (c.create_object tf o w).0 (view w) (c.create_object tf o w).1 (store.created tf o w);
  }

  deleted-After :
      (kind : Kind) (key : NamespacedName) (r : Option ApiError) (v : View) (w : W)
      → Deleted r kind key v (view w)
      → After (returns (wrapped r)) (set_place kind key none) v (view w)
  deleted-After kind key none v w h = h
  deleted-After kind key (some e) v w h = tt

  delete_found-After :
      (kind : Kind) (key : NamespacedName) (r : Answer Object) (w : W)
      → Got r (view w kind key)
      → After
          (delete_found c kind key (found_of r) w).0
          (set_place kind key none)
          (view w)
          (view (delete_found c kind key (found_of r) w).1)
  unfolding ◌>>=◌
  delete_found-After kind key (found o) w h =
      deleted-After kind key (c.delete_object kind key w).0 (view w) (c.delete_object kind key w).1
        (store.deleted kind key w)
  delete_found-After kind key (failed not_found) w h = sym (set_place-none kind key (view w) h)
  delete_found-After kind key (failed already_exists) w h = tt
  delete_found-After kind key (failed other_error) w h = tt

  -- A check and the deletion of what it found, for any kind.
  delete-Does :
      (kind : Kind) (key : NamespacedName)
      → Does view
          (set_place kind key none)
          (asks (λ w. found_of (c.get_object kind key w)) >>= delete_found c kind key)
  unfolding ◌>>=◌
  delete-Does kind key = record {
    after = λ w. delete_found-After kind key (c.get_object kind key w) w (store.got kind key w);
  }

  replace_by :
      (tf : Terraform) (o : Object) (report : Option ApiError → Exec W (Option Error))
      → ((r : Option ApiError) (v : View) (w : W)
          → Created r o v (view w)
          → After (report r w).0 (place o) v (view (report r w).1))
      → Does view (place o) (
          (asks (λ w. found_of (c.get_object (kind_of o.body) (object_key o) w))
            >>= delete_found c (kind_of o.body) (object_key o))
          >>? (call (c.create_object tf o) >>= report))
  replace_by tf o report h =
      Does-eq view (λ v. place o (set_place (kind_of o.body) (object_key o) none v)) (place o) _
        (λ v. set_place-twice (kind_of o.body) (object_key o) (some o) none v)
        (Does-then view (set_place (kind_of o.body) (object_key o) none) (place o) _ _
          (delete-Does (kind_of o.body) (object_key o)) (create-Does tf o report h))

  -- The creations alone.
  pub create_recorded-Does :
      (kind : String) (tf : Terraform) (o : Object)
      → Does view (place o) (call (c.create_object tf o) >>= report_creation c kind)
  create_recorded-Does kind tf o =
      create-Does tf o (report_creation c kind) (λ r v w h. report-After kind r o v w h)

  pub create_recreated-Does :
      (tf : Terraform) (o : Object)
      → Does view (place o) (call (c.create_object tf o) >>= report_secret c true)
  create_recreated-Does tf o =
      create-Does tf o (report_secret c true) (λ r v w h. recreated-After r o v w h)

  -- An object that is deleted and created is put in its place.
  pub replace-Does :
      (kind : String) (tf : Terraform) (o : Object)
      → Does view (place o) (
          (asks (λ w. found_of (c.get_object (kind_of o.body) (object_key o) w))
            >>= delete_found c (kind_of o.body) (object_key o))
          >>? (call (c.create_object tf o) >>= report_creation c kind))
  replace-Does kind tf o =
      replace_by tf o (report_creation c kind) (λ r v w h. report-After kind r o v w h)

  pub recreate-Does :
      (tf : Terraform) (o : Object)
      → Does view (place o) (
          (asks (λ w. found_of (c.get_object (kind_of o.body) (object_key o) w))
            >>= delete_found c (kind_of o.body) (object_key o))
          >>? (call (c.create_object tf o) >>= report_secret c true))
  recreate-Does tf o = replace_by tf o (report_secret c true) (λ r v w h. recreated-After r o v w h)

  kept-After :
      (o : Object) (r : Option ApiError) (w w' : W)
      → Created r o (view w) (view w')
      → After
          (report_secret c false r w').0
          (place_missing o)
          (view w)
          (view (report_secret c false r w').1)
  unfolding ◌>>=◌
  kept-After o none w w' h =
      store.view-event "Normal" "SuccessfulCreate" w'
      ∙ h.1
      ∙ sym (place_missing_free o (view w) h.0)
  kept-After o (some already_exists) w w' h = h.0 ∙ sym (place_missing_found o (view w) h.1)
  kept-After o (some not_found) w w' h = tt
  kept-After o (some other_error) w w' h = tt

  pub keep-Does :
      (tf : Terraform) (o : Object)
      → Does view
          (place_missing o)
          (pure none >>? (call (c.create_object tf o) >>= report_secret c false))
  unfolding ◌>>=◌ ◌>>?◌
  keep-Does tf o = record {
    after = λ w.
        kept-After o (c.create_object tf o w).0 w (c.create_object tf o w).1 (store.created tf o w);
  }

  Updated-After :
      (o : Object) (r : Option ApiError) (v : View) (w : W)
      → Updated r o v (view w)
      → After (returns (wrapped r)) (place o) v (view w)
  Updated-After o none v w h = h
  Updated-After o (some e) v w h = tt

  existing-After :
      (tf : Terraform) (o : Object) (r : Option ApiError) (w w' : W)
      → Created r o (view w) (view w')
      → After
          (update_existing c tf o r w').0
          (place o)
          (view w)
          (view (update_existing c tf o r w').1)
  unfolding ◌>>=◌
  existing-After tf o none w w' h = h.1
  existing-After tf o (some already_exists) w w' h =
      subst
        (λ v.
          After (returns (wrapped (c.update_object tf o w').0)) (place o) v
            (view (c.update_object tf o w').1))
        h.0
        (Updated-After o (c.update_object tf o w').0 (view w') (c.update_object tf o w').1
          (store.updated tf o w'))
  existing-After tf o (some not_found) w w' h = tt
  existing-After tf o (some other_error) w w' h = tt

  -- An object that is created, or updated where it exists.
  pub apply-Does :
      (tf : Terraform) (o : Object)
      → Does view (place o) (call (c.create_object tf o) >>= update_existing c tf o)
  unfolding ◌>>=◌
  apply-Does tf o = record {
    after = λ w.
        existing-After tf o (c.create_object tf o w).0 w (c.create_object tf o w).1
          (store.created tf o w);
  }

  -- What leaves the view as it is.
  report-same :
      (kind : String) (r : Option ApiError) (v : View) (w : W)
      → view w ≡ v
      → After (report_creation c kind r w).0 (λ u. u) v (view (report_creation c kind r w).1)
  unfolding ◌>>=◌
  report-same kind none v w h = store.view-event "Normal" "SuccessfulCreate" w ∙ h
  report-same kind (some e) v w h = tt

  claim-same :
      (tf : Terraform) (claim : VolumeClaim) (r : Found VolumeClaim) (w : W)
      → After
          (create_unless_found c tf claim r w).0
          (λ u. u)
          (view w)
          (view (create_unless_found c tf claim r w).1)
  unfolding ◌>>=◌
  claim-same tf claim (existing o) w = refl
  claim-same tf claim (lookup_failed e) w = refl
  claim-same tf claim missing w =
      report-same "PersistentVolumeClaim" (c.create_claim tf claim w).0 (view w)
        (c.create_claim tf claim w).1 (store.view-claim tf claim w)

  pub claim-Does :
      (tf : Terraform) (claim : VolumeClaim) (key : NamespacedName)
      → Does view
          (λ v. v)
          (asks (λ w. found_of (c.get_claim key w)) >>= create_unless_found c tf claim)
  unfolding ◌>>=◌
  claim-Does tf claim key = record {
    after = λ w. claim-same tf claim (found_of (c.get_claim key w)) w;
  }

  pod-same :
      (tf : Terraform) (g : Generated) (w : W)
      → After (create_generated c tf g w).0 (λ u. u) (view w) (view (create_generated c tf g w).1)
  unfolding ◌>>=◌
  pod-same tf (generated pod) w =
      report-same "Pod" (c.create_pod tf pod w).0 (view w) (c.create_pod tf pod w).1
        (store.view-pod tf pod w)
  pod-same tf (refused e) w = tt

  pub pod-Does : (tf : Terraform) (g : Generated) → Does view (λ v. v) (create_generated c tf g)
  pod-Does tf g = record { after = λ w. pod-same tf g w }
