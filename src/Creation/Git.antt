-- ===== src/Creation/Git.antt =====
-- pkg/controllers/tf_controller.go: loadPassword, createGitAskpass and formatJobSSHConfig, the secrets
-- that give a task access to git.
use infrakube_multicluster.Prelude.{
  String, Bool, Option, none, some, List, [], ◌∷◌, ◌==◌, ◌⧺◌, Dict, lookup, insert, if◌then◌else◌,
}
use infrakube_multicluster.Exec.{panics, Exec, pure, lift, asks, ◌>>=◌}
use infrakube_multicluster.Kube.{Secret, ApiError}
use infrakube_multicluster.Resource.{
  Terraform, ScmAuthMethod, GitScm, SshKeySecretRef, TokenSecretRef, ProxyOpts,
}
use infrakube_multicluster.Controller.Api.{Api, Answer, found, failed, Error, api, message}
use infrakube_multicluster.Controller.Secrets.{load_secret}
use infrakube_multicluster.Objects.Access.{value_or_empty}

pub data Result (A : Type 0) : Type 0 where
  ok : A → Result A
  err : Error → Result A

-- heredoc.Docf, and the text of an error of the API server.
pub record Messages : Type 0 where
  pub docf : (format argument : String) → String
  pub error_text : ApiError → String

abbrev unless_empty : String → String → String
unless_empty default s = if s == "" then default else s

-- The entry of the proxy, and that of a host.
abbrev proxy_entry : ProxyOpts → String
proxy_entry proxy =
    "Host proxy\n\tStrictHostKeyChecking no\n\tUserKnownHostsFile=/dev/null\n\tUser " ⧺ proxy.user
    ⧺ "\n\tHostname " ⧺ proxy.host ⧺ "\n\tIdentityFile ~/.ssh/proxy_key\n"

abbrev host_entry : (require_proxy : Bool) → String → String
host_entry require_proxy host =
    "\nHost "
    ⧺ host
    ⧺ "\n\tStrictHostKeyChecking no\n\tUserKnownHostsFile=/dev/null\n\tHostname "
    ⧺ host
    ⧺ "\n\tIdentityFile ~/.ssh/"
    ⧺ host
    ⧺ (if require_proxy then "\n\tProxyJump proxy" else "\n")

abbrev pub unless_err : {W A B : Type 0} → (A → Exec W (Result B)) → Result A → Exec W (Result B)
unless_err f (err e) = pure (err e)
unless_err f (ok x) = f x

module _ {W : Type 0} (a : Api W) (m : Messages) where
  -- The password in the secret that was read. An empty one counts as missing; the error that the
  -- message then shows is nil.
  abbrev pub password_in : (key : String) → Answer Secret → Result String
  password_in key (failed e) = err (message ("could not get secret: " ⧺ m.error_text e))
  password_in key (found secret) =
      let password = value_or_empty (lookup key secret.contents) in
      if password == ""
      then err (message ("unable to locate '" ⧺ key ⧺ "' in secret: %!v(<nil>)"))
      else ok password

  unfoldable pub load_password : (key name namespace : String) → Exec W (Result String)
  load_password key name namespace =
      asks (λ w. password_in key (a.get_secret (record { namespace = namespace; name = name }) w))

  -- The entry that is missing has no value, and that is what the message names.
  abbrev pub askpass_in : TokenSecretRef → Answer Secret → Result String
  askpass_in ref (failed e) = err (api e)
  askpass_in ref (found secret) = elim (lookup ref.key secret.contents) [
    | none ↦ err (message ("secret '" ⧺ secret.name ⧺ "' did not contain ''"))
    | some token ↦ ok (m.docf "\n\t\t#!/bin/sh\n\t\texec echo \"%s\"\n\t" token)
  ]

  unfoldable pub create_git_askpass : TokenSecretRef → Exec W (Result String)
  create_git_askpass ref =
      load_secret a ref.name ref.namespace >>= λ answer. pure (askpass_in ref answer)

  -- The password of a reference, under its key or `id_rsa`, in its namespace or the resource's.
  unfoldable pub load_key : Terraform → SshKeySecretRef → Exec W (Result String)
  load_key tf ref =
      load_password (unless_empty "id_rsa" ref.key) ref.name
        (unless_empty tf.namespace ref.namespace)

  abbrev pub with_key : (name : String) → Dict String → Result String → Result (Dict String)
  with_key name data' (err e) = err e
  with_key name data' (ok key) = ok (insert name key data')

  unfoldable pub proxy_data : Terraform → Option ProxyOpts → Exec W (Result (Dict String))
  proxy_data tf none = pure (ok [])
  proxy_data tf (some proxy) = load_key tf proxy.ssh_key_secret_ref >>= λ key.
      pure (with_key "proxy_key" (("config", proxy_entry proxy) ∷ []) key)

  -- One method: `m.Git` and the reference of the key are dereferenced.
  unfoldable pub method_data :
      Terraform → String → Dict String → Option GitScm → Exec W (Result (Dict String))
  method_data tf host data' none = lift panics
  method_data tf host data' (some git) = elim git.ssh [
    | none ↦ pure (ok data')
    | some ssh ↦ elim ssh.ssh_key_secret_ref [
      | none ↦ lift panics
      | some ref ↦
          let config = value_or_empty (lookup "config" data') ⧺ host_entry ssh.require_proxy host in
          load_key tf ref >>= λ key. pure (with_key host (insert "config" config data') key)
    ]
  ]

  unfoldable pub methods_data :
      Terraform → List ScmAuthMethod → Dict String → Exec W (Result (Dict String))
  methods_data tf [] data' = pure (ok data')
  methods_data tf (method ∷ methods) data' =
      method_data tf method.host data' method.git >>= unless_err (methods_data tf methods)

  unfoldable pub format_job_ssh_config : Terraform → Exec W (Result (Dict String))
  format_job_ssh_config tf =
      proxy_data tf tf.spec.ssh_tunnel >>= unless_err (methods_data tf tf.spec.scm_auth_methods)
