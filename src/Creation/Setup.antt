-- ===== src/Creation/Setup.antt =====
-- pkg/controllers/tf_controller.go, setupAndRun: the data that a stage hands to its objects.
use infrakube_multicluster.Prelude.{
  String, Bool, false, not, ◌||◌, Option, none, some, List, [], ◌∷◌, ◌==◌, ◌⧺◌, Dict, lookup,
  insert, insert_all, trim_space, if◌then◌else◌,
}
use infrakube_multicluster.Exec.{panics, Exec, pure, lift, perform, ◌>>=◌}
use infrakube_multicluster.Task.{TaskName}
use infrakube_multicluster.Resource.{
  Terraform, ScmAuthMethod, GitScm, GitHttps, TokenSecretRef, TaskOption, ConfigMapSelector, Setup,
  ResourceDownload,
}
use infrakube_multicluster.Options.{TaskOptions, ParsedAddress}
use infrakube_multicluster.Controller.Api.{Api, Error, api, message}
use infrakube_multicluster.Controller.Settings.{Config}
use infrakube_multicluster.Controller.Secrets.{update_secret_finalizer}
use infrakube_multicluster.Addresses.Parse.{
  Libraries, Fallible, ok, error, git_scm_type, get_parsed_address,
}
use infrakube_multicluster.Creation.Cluster.{Cluster}
use infrakube_multicluster.Creation.Git.{
  Result, ok, err, Messages, create_git_askpass, format_job_ssh_config, unless_err,
}
use infrakube_multicluster.Creation.Run.{run}

-- The embedded scripts, and encoding/json on the two types that are marshalled, which cannot fail.
pub record Texts : Type 0 where
  pub default_tool : String
  pub default_setup : String
  pub default_noop : String
  pub marshal_selector : ConfigMapSelector → String
  pub marshal_addresses : List ParsedAddress → String

abbrev pub add_data : (key value : String) → TaskOptions → TaskOptions
add_data key value r = record r {
  main_module_plugin_data = insert key value r.main_module_plugin_data;
}

-- The hosts of the methods that have settings for git.
unfoldable pub scm_map_of : List ScmAuthMethod → Dict String → Dict String
scm_map_of [] hosts = hosts
scm_map_of (m ∷ methods) hosts =
    scm_map_of methods (elim m.git [ none ↦ hosts | some git ↦ insert m.host git_scm_type hosts ])

-- The scripts of one option, under the names of its tasks.
unfoldable pub add_inline : (script : String) → List TaskName → TaskOptions → TaskOptions
add_inline script [] r = r
add_inline script (task ∷ tasks) r =
    add_inline script tasks
      (if task == "*" then r else add_data ("inline-" ⧺ task ⧺ ".sh") script r)

unfoldable pub add_inline_scripts : List TaskOption → TaskOptions → TaskOptions
unfolding add_inline
add_inline_scripts [] r = r
add_inline_scripts (option ∷ options) r =
    add_inline_scripts options
      (if option.script.inline == "" then r else add_inline option.script.inline option.for r)

abbrev pub parsed_to : {A : Type 0} → (ParsedAddress → A) → Fallible ParsedAddress → Result A
parsed_to f (ok address) = ok (f address)
parsed_to f (error e) = err (message e)

module _ (l : Libraries) (texts : Texts) (tool : String) where
  -- The choice of the module: an inline one, a config map under either field, or an address.
  unfoldable pub set_module : Terraform → Dict String → TaskOptions → Result TaskOptions
  set_module tf scm_map r =
      let module' = tf.spec.terraform_module in
      let config_map_file : String = ".__INFRAKUBE__ConfigMapModule.json" in
      if not (module'.inline == "")
      then ok (add_data "inline-module.tf" module'.inline r)
      else elim module'.config_map_seclector_x [
        | some selector ↦ ok (add_data config_map_file (texts.marshal_selector selector) r)
        | none ↦ elim module'.config_map_selector [
          | some selector ↦ ok (add_data config_map_file (texts.marshal_selector selector) r)
          | none ↦
              if module'.source == ""
              then err (message ("no " ⧺ tool ⧺ " module detected"))
              else parsed_to (λ address. record r { tf_module_parsed = address })
                  (get_parsed_address l module'.source "" false scm_map)
        ]
      ]

  abbrev pub cons_parsed :
      Fallible ParsedAddress → Result (List ParsedAddress) → Result (List ParsedAddress)
  cons_parsed (error e) rest = err (message e)
  cons_parsed (ok address) (err e) = err e
  cons_parsed (ok address) (ok addresses) = ok (address ∷ addresses)

  -- The loop over the downloads, which ends at the first address that is refused.
  unfoldable pub parse_downloads : Dict String → List ResourceDownload → Result (List ParsedAddress)
  parse_downloads scm_map [] = ok []
  parse_downloads scm_map (s ∷ downloads) =
      cons_parsed (get_parsed_address l (trim_space s.address) s.path s.use_as_var scm_map)
        (parse_downloads scm_map downloads)

  abbrev pub downloads_of : Option Setup → List ResourceDownload
  downloads_of none = []
  downloads_of (some setup) = setup.resource_downloads

  abbrev pub with_downloads :
      Terraform → TaskOptions → Result (List ParsedAddress) → Result TaskOptions
  with_downloads tf r (err e) = err e
  with_downloads tf r (ok addresses) = ok (
      add_data "backend_override.tf" tf.spec.backend
        (add_data ".__INFRAKUBE__ResourceDownloads.json" (texts.marshal_addresses addresses) r))

  -- The default scripts and those of the options.
  unfoldable pub add_scripts : Terraform → TaskOptions → TaskOptions
  unfolding add_inline_scripts
  add_scripts tf r = add_inline_scripts tf.spec.task_options (
      add_data "default-noop.sh" texts.default_noop (
        add_data "default-setup.sh" texts.default_setup
          (add_data ("default-" ⧺ tool ⧺ ".sh") texts.default_tool r)))

abbrev pub add_secrets : TaskOptions → Dict String → TaskOptions
add_secrets r data' = record r { secret_data = insert_all r.secret_data data' }

module _ {W : Type 0} (a : Api W) (m : Messages) where
  abbrev pub with_askpass : TaskOptions → Result String → Result TaskOptions
  with_askpass r (err e) = err e
  with_askpass r (ok script) =
      ok (record r { secret_data = insert "gitAskpass" script r.secret_data })

  abbrev pub with_default_key : TokenSecretRef → TokenSecretRef
  with_default_key ref = if ref.key == "" then record ref { key = "token" } else ref

  -- One method: nothing is done once a script is set. `m.Git` and the reference are dereferenced.
  abbrev pub askpass_step : TaskOptions → Option String → GitHttps → Exec W (Result TaskOptions)
  askpass_step r (some script) https = pure (ok r)
  askpass_step r none https = elim https.token_secret_ref [
    | none ↦ lift panics
    | some ref ↦
        create_git_askpass a m (with_default_key ref) >>= λ script. pure (with_askpass r script)
  ]

  abbrev pub method_askpass : TaskOptions → Option GitScm → Exec W (Result TaskOptions)
  method_askpass r none = lift panics
  method_askpass r (some git) = elim git.https [
    | none ↦ pure (ok r)
    | some https ↦ askpass_step r (lookup "gitAskpass" r.secret_data) https
  ]

  -- The loop that takes the first token.
  unfoldable pub add_askpass : List ScmAuthMethod → TaskOptions → Exec W (Result TaskOptions)
  add_askpass [] r = pure (ok r)
  add_askpass (method ∷ methods) r =
      method_askpass r method.git >>= unless_err (add_askpass methods)

-- The part that runs beside the reconciler.
pub record Background (W : Type 0) : Type 0 where
  pub reap_plugins : Terraform → W → W

module _ {W : Type 0} (a : Api W) (c : Cluster W) (b : Background W) (config : Config)
    (l : Libraries) (texts : Texts) (m : Messages) where
  abbrev pub error_shown : Error → String
  error_shown (api e) = m.error_text e
  error_shown (message text) = text

  abbrev pub with_ssh : TaskOptions → Result (Dict String) → Exec W (Result TaskOptions)
  with_ssh r (err e) = perform (c.record_event "Warning" "SSHConfigError") >>= λ _.
      pure (err (message ("error setting up sshconfig: " ⧺ error_shown e)))
  with_ssh r (ok data') = pure (ok (add_secrets r data'))

  -- What a changed stage adds to its options.
  unfoldable pub add_changed : Terraform → Dict String → TaskOptions → Exec W (Result TaskOptions)
  add_changed tf scm_map r = update_secret_finalizer a tf >>= λ ignored.
      perform (b.reap_plugins tf) >>= λ _.
      add_askpass a m tf.spec.scm_auth_methods (add_scripts l texts config.settings.names.tool tf r)
      >>= unless_err (λ r'.
        format_job_ssh_config a m tf
        >>= with_ssh r'
        >>= unless_err (λ r''. pure (
            with_downloads l texts config.settings.names.tool tf r'' (
              parse_downloads l texts config.settings.names.tool scm_map
                (downloads_of l texts config.settings.names.tool tf.spec.setup)))))

  -- `start` is the run of the task.
  abbrev pub run_with :
      (start : Terraform → TaskOptions → Bool → Bool → Exec W (Option Error))
      → Terraform
      → (is_new_generation is_first_install : Bool) → Result TaskOptions
      → Exec W (Option Error)
  run_with start tf is_new_generation is_first_install (err e) = pure (some e)
  run_with start tf is_new_generation is_first_install (ok r) =
      start tf r is_new_generation is_first_install

  abbrev pub changed_options :
      (is_changed : Bool) → Terraform → Dict String → TaskOptions → Exec W (Result TaskOptions)
  changed_options is_changed tf scm_map r =
      if is_changed then add_changed tf scm_map r else pure (ok r)

  unfoldable pub setup_with :
      (start : Terraform → TaskOptions → Bool → Bool → Exec W (Option Error))
      → Terraform
      → TaskOptions
      → Exec W (Option Error)
  setup_with start tf r =
      let reason = tf.status.stage.reason in
      let is_new_generation = reason == "GENERATION_CHANGE" || reason == "TF_RESOURCE_DELETED" in
      let is_first_install = reason == "TF_RESOURCE_CREATED" in
      let scm_map = scm_map_of tf.spec.scm_auth_methods [] in
      unless_err (changed_options (is_new_generation || is_first_install) tf scm_map)
        (set_module l texts config.settings.names.tool tf scm_map r)
      >>= run_with start tf is_new_generation is_first_install

  unfoldable pub setup_and_run : Terraform → TaskOptions → Exec W (Option Error)
  setup_and_run = setup_with (run c config)
