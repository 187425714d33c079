-- ===== src/Creation/Granted.antt =====
-- pkg/controllers/tf_controller.go, setupAndRun: what its parts that read git secrets keep of the
-- world, and what they change in the options.
use infrakube_multicluster.Prelude.{
  String, Option, none, some, List, [], ◌∷◌, refl, Dict, lookup, insert,
}
use infrakube_multicluster.Exec.{Go, returns, panics, Exec, asks, ◌>>=◌}
use infrakube_multicluster.Exec.Ensures.{
  Ensures, Returned, Any, Ensures-pure, Ensures-bind, Ensures-option, Ensures-lift, keeps_lift,
  keeps_asks,
}
use infrakube_multicluster.Resource.{
  Terraform, ScmAuthMethod, GitScm, GitHttps, ProxyOpts, SshKeySecretRef,
}
use infrakube_multicluster.Options.{TaskOptions}
use infrakube_multicluster.Controller.Api.{Api}
use infrakube_multicluster.Controller.Secrets.{load_secret}
use infrakube_multicluster.Creation.Git.{
  Result, ok, err, Messages, unless_err, create_git_askpass, load_password, load_key, proxy_data,
  method_data, methods_data, format_job_ssh_config,
}
use infrakube_multicluster.Creation.Setup.{
  with_askpass, with_default_key, askpass_step, method_askpass, add_askpass,
}
use infrakube_multicluster.Creation.Prepared.{Prepared, Prepares, Prepared-same, Prepares-after}

-- Code that takes an option's record further.
module _ {W : Type 0} (P : W → Type 0) where
  Returned-Prepared :
      (r s : TaskOptions) (res : Go (Result TaskOptions))
      → Prepared r s
      → Returned (Prepares s) res
      → Returned (Prepares r) res
  Returned-Prepared r s (returns x) h k = Prepares-after r s x h k
  Returned-Prepared r s panics h k = tt

  pub Ensures-Prepared :
      (r s : TaskOptions) (m : Exec W (Result TaskOptions))
      → Prepared r s
      → Ensures P (Prepares s) m
      → Ensures P (Prepares r) m
  Ensures-Prepared r s m h k = record {
    kept = k.kept;
    result = λ w p. Returned-Prepared r s (m w).0 h (k.result w p);
  }

  pub unless_err-Ensures :
      (r : TaskOptions) (f : TaskOptions → Exec W (Result TaskOptions)) (x : Result TaskOptions)
      → Prepares r x
      → ((s : TaskOptions) → Ensures P (Prepares s) (f s))
      → Ensures P (Prepares r) (unless_err f x)
  unless_err-Ensures r f (err e) q k = Ensures-pure (err e) tt
  unless_err-Ensures r f (ok s) q k = Ensures-Prepared r s (f s) q (k s)

  pub Ensures-unless_err :
      (r : TaskOptions) (m : Exec W (Result TaskOptions))
      (f : TaskOptions → Exec W (Result TaskOptions))
      → Ensures P (Prepares r) m
      → ((s : TaskOptions) → Ensures P (Prepares s) (f s))
      → Ensures P (Prepares r) (m >>= unless_err f)
  Ensures-unless_err r m f km kf =
      Ensures-bind m (unless_err f) km (λ x q. unless_err-Ensures r f x q kf)

  -- Code of which nothing is asked but that it keeps the property.
  keeps_unless_err :
      {A B : Type 0} (x : Result A) (f : A → Exec W (Result B))
      → ((a : A) → Ensures P Any (f a))
      → Ensures P Any (unless_err f x)
  keeps_unless_err (err e) f k = Ensures-pure (err e) tt
  keeps_unless_err (ok a) f k = k a

module _ {W : Type 0} (a : Api W) (m : Messages) (P : W → Type 0) where
  load_key-keeps : (tf : Terraform) (ref : SshKeySecretRef) → Ensures P Any (load_key a m tf ref)
  unfolding load_key load_password
  load_key-keeps tf ref = keeps_asks _

  proxy_data-keeps :
      (tf : Terraform) (proxy : Option ProxyOpts) → Ensures P Any (proxy_data a m tf proxy)
  unfolding proxy_data
  proxy_data-keeps tf none = Ensures-pure (ok []) tt
  proxy_data-keeps tf (some proxy) =
      Ensures-bind (load_key a m tf proxy.ssh_key_secret_ref) _ (load_key-keeps tf _)
        (λ key q. Ensures-pure _ tt)

  method_data-keeps :
      (tf : Terraform) (host : String) (data' : Dict String) (git : Option GitScm)
      → Ensures P Any (method_data a m tf host data' git)
  unfolding method_data
  method_data-keeps tf host data' none = keeps_lift panics
  method_data-keeps tf host data' (some git) =
      Ensures-option git.ssh _ _ (λ e. Ensures-pure (ok data') tt)
        (λ ssh e.
          Ensures-option ssh.ssh_key_secret_ref _ _ (λ e. keeps_lift panics)
            (λ ref e.
              Ensures-bind (load_key a m tf ref) _ (load_key-keeps tf ref)
                (λ key q. Ensures-pure _ tt)))

  methods_data-keeps :
      (tf : Terraform) (methods : List ScmAuthMethod) (data' : Dict String)
      → Ensures P Any (methods_data a m tf methods data')
  unfolding methods_data
  methods_data-keeps tf [] data' = Ensures-pure (ok data') tt
  methods_data-keeps tf (method ∷ methods) data' =
      Ensures-bind (method_data a m tf method.host data' method.git) _
        (method_data-keeps tf method.host data' method.git)
        (λ x q. keeps_unless_err P x _ (methods_data-keeps tf methods))

  pub format_job_ssh_config-keeps : (tf : Terraform) → Ensures P Any (format_job_ssh_config a m tf)
  unfolding format_job_ssh_config
  format_job_ssh_config-keeps tf =
      Ensures-bind (proxy_data a m tf tf.spec.ssh_tunnel) _ (proxy_data-keeps tf tf.spec.ssh_tunnel)
        (λ x q. keeps_unless_err P x _ (methods_data-keeps tf tf.spec.scm_auth_methods))

  -- The token is only put into the data of the secret.
  askpass-Prepares :
      (r : TaskOptions) (script : Result String) → Prepares r (with_askpass a m r script)
  askpass-Prepares r (err e) = tt
  askpass-Prepares r (ok script) = (
    r.tf_module_parsed,
    r.main_module_plugin_data,
    insert "gitAskpass" script r.secret_data,
    refl,
  )

  askpass_step-Ensures :
      (r : TaskOptions) (script : Option String) (https : GitHttps)
      → Ensures P (Prepares r) (askpass_step a m r script https)
  unfolding create_git_askpass load_secret
  askpass_step-Ensures r (some script) https = Ensures-pure (ok r) (Prepared-same r)
  askpass_step-Ensures r none https =
      Ensures-option https.token_secret_ref _ _ (λ e. Ensures-lift panics tt)
        (λ ref e.
          Ensures-bind {Q = Any} (create_git_askpass a m (with_default_key a m ref)) _
            (Ensures-bind (asks _) _ (keeps_asks _) (λ answer q. Ensures-pure _ tt))
            (λ script q. Ensures-pure _ (askpass-Prepares r script)))

  method_askpass-Ensures :
      (r : TaskOptions) (git : Option GitScm) → Ensures P (Prepares r) (method_askpass a m r git)
  method_askpass-Ensures r none = Ensures-lift panics tt
  method_askpass-Ensures r (some git) =
      Ensures-option git.https _ _ (λ e. Ensures-pure (ok r) (Prepared-same r))
        (λ https e. askpass_step-Ensures r (lookup "gitAskpass" r.secret_data) https)

  pub add_askpass-Ensures :
      (methods : List ScmAuthMethod) (r : TaskOptions)
      → Ensures P (Prepares r) (add_askpass a m methods r)
  unfolding add_askpass
  add_askpass-Ensures [] r = Ensures-pure (ok r) (Prepared-same r)
  add_askpass-Ensures (method ∷ methods) r =
      Ensures-unless_err P r (method_askpass a m r method.git) _
        (method_askpass-Ensures r method.git) (add_askpass-Ensures methods)
