-- ===== src/Controller/Finalized.antt =====
-- pkg/controllers/tf_controller.go, updateSecretFinalizer: what it keeps of the world.
use infrakube_multicluster.Prelude.{String, Bool, not, none, some, List, [], ◌∷◌}
use infrakube_multicluster.Exec.{pure, lift, call}
use infrakube_multicluster.Exec.Ensures.{
  Ensures, Any, Ensures-pure, Ensures-bind, Ensures-if, Ensures-option, keeps_call, keeps_lift,
  keeps_asks,
}
use infrakube_multicluster.Kube.{Secret}
use infrakube_multicluster.Resource.{Terraform}
use infrakube_multicluster.Controller.Api.{Api, Answer, found, failed, api}
use infrakube_multicluster.Controller.Secrets.{
  GitSecret, get_git_secrets, load_secret, set_finalizers, lock_git_secret_deletion,
  unlock_git_secret_deletion, update_secrets, update_secret_finalizer,
}

module _ {W : Type 0} (a : Api W) (P : W → Type 0)
    (keeps : (secret : Secret) (w : W) → P w → P (a.update_secret secret w).1) where
  set_finalizers-keeps :
      (needed : Bool) (secret : Secret) (finalizers : List String)
      → Ensures P Any (set_finalizers a needed secret finalizers)
  unfolding set_finalizers
  set_finalizers-keeps needed secret finalizers =
      Ensures-if needed _ _
        (λ e.
          Ensures-bind (call (a.update_secret _)) _ (keeps_call _ (keeps _))
            (λ r q. Ensures-option r _ _ (λ e. Ensures-pure none tt) (λ x e. Ensures-pure _ tt)))
        (λ e. Ensures-pure none tt)

  lock-keeps :
      (name namespace key : String) → Ensures P Any (lock_git_secret_deletion a name namespace key)
  unfolding lock_git_secret_deletion load_secret
  lock-keeps name namespace key =
      Ensures-bind (load_secret a name namespace) _ (keeps_asks _) (λ answer q. loaded answer)
    where
      loaded :
          (answer : Answer Secret)
          → Ensures P Any (elim answer [
            | failed e ↦ pure (some (api e))
            | found secret ↦
                set_finalizers a
                  (not (a.contains_finalizer secret.finalizers key))
                  secret
                  (a.add_finalizer secret.finalizers key)
          ])
      loaded (failed e) = Ensures-pure _ tt
      loaded (found secret) = set_finalizers-keeps _ _ _

  unlock-keeps :
      (name namespace key : String)
      → Ensures P Any (unlock_git_secret_deletion a name namespace key)
  unfolding unlock_git_secret_deletion load_secret
  unlock-keeps name namespace key =
      Ensures-bind (load_secret a name namespace) _ (keeps_asks _) (λ answer q. loaded answer)
    where
      loaded :
          (answer : Answer Secret)
          → Ensures P Any (elim answer [
            | failed e ↦ pure (some (api e))
            | found secret ↦
                set_finalizers a
                  (a.contains_finalizer secret.finalizers key)
                  secret
                  (a.remove_finalizer secret.finalizers key)
          ])
      loaded (failed e) = Ensures-pure _ tt
      loaded (found secret) = set_finalizers-keeps _ _ _

  update_secrets-keeps :
      (tf : Terraform) (key : String) (secrets : List GitSecret)
      → Ensures P Any (update_secrets a tf key secrets)
  unfolding update_secrets
  update_secrets-keeps tf key [] = Ensures-pure none tt
  update_secrets-keeps tf key (m ∷ secrets) =
      Ensures-bind {Q = Any} _ _
        (Ensures-if _ _ _ (λ e. lock-keeps m.name m.namespace key)
          (λ e. unlock-keeps m.name m.namespace key))
        (λ r q.
          Ensures-option r _ _ (λ e. update_secrets-keeps tf key secrets)
            (λ x e. Ensures-pure _ tt))

  pub update_secret_finalizer-keeps :
      (tf : Terraform) → Ensures P Any (update_secret_finalizer a tf)
  unfolding update_secret_finalizer
  update_secret_finalizer-keeps tf =
      Ensures-bind (lift (get_git_secrets tf)) _ (keeps_lift (get_git_secrets tf))
        (λ secrets q. update_secrets-keeps tf _ secrets)
