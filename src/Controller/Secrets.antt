-- ===== src/Controller/Secrets.antt =====
-- pkg/controllers/tf_controller.go: the finalizers on the secrets of `spec.scmAuthMethods`.
use infrakube_multicluster.Prelude.{
  String, Bool, not, ◌&&◌, Option, none, some, List, [], ◌∷◌, ◌++◌, ◌==◌, ◌⧺◌, if◌then◌else◌,
}
use infrakube_multicluster.Exec.{Go, returns, panics, Exec, pure, lift, call, asks, ◌>>=◌}
use infrakube_multicluster.Utils.{truncate_resource_name}
use infrakube_multicluster.Kube.{Secret}
use infrakube_multicluster.Resource.{Terraform, ScmAuthMethod, GitScm, GitSsh, GitHttps}
use infrakube_multicluster.Resource.Status.{phase_deleted}
use infrakube_multicluster.Controller.Api.{Api, Answer, found, failed, Error, api}

pub record GitSecret : Type 0 where
  pub name : String
  pub namespace : String
  pub shoud_be_locked : Bool

git_secret : Terraform → (name namespace : String) → Bool → GitSecret
git_secret tf name namespace lock = record {
  name = name;
  namespace = if namespace == "" then tf.namespace else namespace;
  shoud_be_locked = lock && not tf.spec.ignore_delete;
}

-- The secret of m.Git.HTTPS and that of m.Git.SSH; a reference is read through its pointer.
https_secrets : Terraform → Option GitHttps → Go (List GitSecret)
unfolding git_secret
https_secrets tf none = returns []
https_secrets tf (some https) = elim https.token_secret_ref [
  | none ↦ panics
  | some ref ↦ returns (git_secret tf ref.name ref.namespace ref.lock_secret_deletion ∷ [])
]

ssh_secrets : Terraform → Option GitSsh → Go (List GitSecret)
unfolding git_secret
ssh_secrets tf none = returns []
ssh_secrets tf (some ssh) = elim ssh.ssh_key_secret_ref [
  | none ↦ panics
  | some ref ↦ returns (git_secret tf ref.name ref.namespace ref.lock_secret_deletion ∷ [])
]

joined : Go (List GitSecret) → Go (List GitSecret) → Go (List GitSecret)
joined panics second = panics
joined (returns xs) panics = panics
joined (returns xs) (returns ys) = returns (xs ++ ys)

-- One round of getGitSecrets: `m.Git` is dereferenced without a test.
method_secrets : Terraform → Option GitScm → Go (List GitSecret)
unfolding https_secrets ssh_secrets joined
method_secrets tf none = panics
method_secrets tf (some git) = joined (https_secrets tf git.https) (ssh_secrets tf git.ssh)

git_secrets_of : Terraform → List ScmAuthMethod → Go (List GitSecret)
unfolding joined method_secrets
git_secrets_of tf [] = returns []
git_secrets_of tf (m ∷ methods) = joined (method_secrets tf m.git) (git_secrets_of tf methods)

unfoldable pub get_git_secrets : Terraform → Go (List GitSecret)
unfolding git_secrets_of
get_git_secrets tf = git_secrets_of tf tf.spec.scm_auth_methods

module _ {W : Type 0} (a : Api W) where
  -- loadSecret
  unfoldable pub load_secret : String → String → Exec W (Answer Secret)
  load_secret name namespace = asks (
      a.get_secret
        (record { namespace = if namespace == "" then "default" else namespace; name = name }))

  unfoldable pub set_finalizers : Bool → Secret → List String → Exec W (Option Error)
  set_finalizers needed secret finalizers =
      if needed
      then (call (a.update_secret (record secret { finalizers = finalizers })) >>= λ result.
          elim result [ none ↦ pure none | some e ↦ pure (some (api e)) ])
      else pure none

  -- lockGitSecretDeletion and unlockGitSecretDeletion
  unfoldable pub lock_git_secret_deletion :
      (name namespace finalizer_key : String) → Exec W (Option Error)
  lock_git_secret_deletion name namespace key = load_secret name namespace >>= λ answer.
      elim answer [
        | failed e ↦ pure (some (api e))
        | found secret ↦
            set_finalizers (not (a.contains_finalizer secret.finalizers key)) secret
              (a.add_finalizer secret.finalizers key)
      ]

  unfoldable pub unlock_git_secret_deletion :
      (name namespace finalizer_key : String) → Exec W (Option Error)
  unlock_git_secret_deletion name namespace key = load_secret name namespace >>= λ answer.
      elim answer [
        | failed e ↦ pure (some (api e))
        | found secret ↦
            set_finalizers (a.contains_finalizer secret.finalizers key) secret
              (a.remove_finalizer secret.finalizers key)
      ]

  -- The loop of updateSecretFinalizer, which ends at the first error.
  unfoldable pub update_secrets : Terraform → String → List GitSecret → Exec W (Option Error)
  update_secrets tf key [] = pure none
  update_secrets tf key (m ∷ secrets) =
      let rest = update_secrets tf key secrets in
      (if m.shoud_be_locked && not (tf.status.phase == phase_deleted)
        then lock_git_secret_deletion m.name m.namespace key
        else unlock_git_secret_deletion m.name m.namespace key)
      >>= λ result. elim result [ some e ↦ pure (some e) | none ↦ rest ]

  unfoldable pub update_secret_finalizer : Terraform → Exec W (Option Error)
  update_secret_finalizer tf =
      lift (get_git_secrets tf)
      >>= update_secrets tf
          (truncate_resource_name ("finalizer.infrakube.galleybytes.com/" ⧺ tf.name) 53)
