-- ===== src/Creation/Prepared.antt =====
-- pkg/controllers/tf_controller.go, setupAndRun: what it may change in the options of a task.
use infrakube_multicluster.Prelude.{
  String, Bool, true, false, not, Option, none, some, List, [], ◌∷◌, ◌==◌, ◌⧺◌, ◌≡◌, refl, ap, ◌∙◌,
  Dict, if◌then◌else◌,
}
use infrakube_multicluster.Task.{TaskName}
use infrakube_multicluster.Resource.{Terraform, TaskOption, ConfigMapSelector}
use infrakube_multicluster.Options.{TaskOptions, ParsedAddress}
use infrakube_multicluster.Controller.Api.{message}
use infrakube_multicluster.Addresses.Parse.{Libraries, Fallible, ok, error, get_parsed_address}
use infrakube_multicluster.Creation.Git.{Result, ok, err}
use infrakube_multicluster.Creation.Setup.{
  Texts, add_data, add_inline, add_inline_scripts, add_scripts, add_secrets, parsed_to, set_module,
  with_downloads,
}

-- The options with another module, other data for the config map and other data for the secret.
abbrev pub with_data : TaskOptions → ParsedAddress → (texts secrets : Dict String) → TaskOptions
with_data r address texts secrets = record r {
  tf_module_parsed = address;
  main_module_plugin_data = texts;
  secret_data = secrets;
}

-- The second options are the first but for those three fields.
abbrev pub Prepared : TaskOptions → TaskOptions → Type 0
Prepared r r' =
    (address : ParsedAddress) × (texts : Dict String) × (secrets : Dict String) × (r'
      ≡ with_data r address texts secrets)

abbrev pub Prepares : TaskOptions → Result TaskOptions → Type 0
Prepares r (err e) = Unit
Prepares r (ok r') = Prepared r r'

pub Prepared-same : (r : TaskOptions) → Prepared r r
Prepared-same r = (r.tf_module_parsed, r.main_module_plugin_data, r.secret_data, refl)

pub Prepared-then : (r s t : TaskOptions) → Prepared r s → Prepared s t → Prepared r t
Prepared-then r s t (address, texts, secrets, e) (address', texts', secrets', e') =
    (address', texts', secrets', e' ∙ ap (λ q. with_data q address' texts' secrets') e)

pub Prepares-after :
    (r s : TaskOptions) (result : Result TaskOptions)
    → Prepared r s
    → Prepares s result
    → Prepares r result
Prepares-after r s (err e) h k = tt
Prepares-after r s (ok t) h k = Prepared-then r s t h k

Prepared-if :
    (r s t : TaskOptions) (b : Bool) → Prepared r s → Prepared r t → Prepared r (if b then s else t)
Prepared-if r s t true h k = h
Prepared-if r s t false h k = k

Prepares-if :
    (r : TaskOptions) (b : Bool) (x y : Result TaskOptions)
    → Prepares r x
    → Prepares r y
    → Prepares r (if b then x else y)
Prepares-if r true x y h k = h
Prepares-if r false x y h k = k

Prepares-option :
    {A : Type 0} (r : TaskOptions) (o : Option A) (x : Result TaskOptions)
    (f : A → Result TaskOptions)
    → ((a : A) → Prepares r (f a))
    → Prepares r x
    → Prepares r (elim o [ none ↦ x | some a ↦ f a ])
Prepares-option r none x f h k = k
Prepares-option r (some a) x f h k = h a

add_data-Prepared : (key value : String) (r : TaskOptions) → Prepared r (add_data key value r)
add_data-Prepared key value r =
    (r.tf_module_parsed, (add_data key value r).main_module_plugin_data, r.secret_data, refl)

pub add_secrets-Prepared :
    (r : TaskOptions) (data' : Dict String) → Prepared r (add_secrets r data')
add_secrets-Prepared r data' =
    (r.tf_module_parsed, r.main_module_plugin_data, (add_secrets r data').secret_data, refl)

add_inline-Prepared :
    (script : String) (tasks : List TaskName) (r : TaskOptions)
    → Prepared r (add_inline script tasks r)
unfolding add_inline
add_inline-Prepared script [] r = Prepared-same r
add_inline-Prepared script (task ∷ tasks) r =
    let s = if task == "*" then r else add_data ("inline-" ⧺ task ⧺ ".sh") script r in
    Prepared-then r s _
      (Prepared-if r r _ (task == "*") (Prepared-same r) (add_data-Prepared _ script r))
      (add_inline-Prepared script tasks s)

add_inline_scripts-Prepared :
    (options : List TaskOption) (r : TaskOptions) → Prepared r (add_inline_scripts options r)
unfolding add_inline_scripts
add_inline_scripts-Prepared [] r = Prepared-same r
add_inline_scripts-Prepared (option ∷ options) r =
    let text = option.script.inline in
    let s = if text == "" then r else add_inline text option.for r in
    Prepared-then r s _
      (Prepared-if r r _ (text == "") (Prepared-same r) (add_inline-Prepared text option.for r))
      (add_inline_scripts-Prepared options s)

module _ (l : Libraries) (texts : Texts) (tool : String) where
  pub add_scripts-Prepared :
      (tf : Terraform) (r : TaskOptions) → Prepared r (add_scripts l texts tool tf r)
  unfolding add_scripts
  add_scripts-Prepared tf r =
      let s = add_data ("default-" ⧺ tool ⧺ ".sh") texts.default_tool r in
      let t = add_data "default-setup.sh" texts.default_setup s in
      let u = add_data "default-noop.sh" texts.default_noop t in
      Prepared-then r u _
        (Prepared-then r t u
          (Prepared-then r s t (add_data-Prepared _ _ r) (add_data-Prepared _ _ s))
          (add_data-Prepared _ _ t))
        (add_inline_scripts-Prepared tf.spec.task_options u)

  parsed-Prepares :
      (r : TaskOptions) (address : Fallible ParsedAddress)
      → Prepares r (parsed_to (λ address. record r { tf_module_parsed = address }) address)
  parsed-Prepares r (ok address) = (address, r.main_module_plugin_data, r.secret_data, refl)
  parsed-Prepares r (error e) = tt

  pub set_module-Prepares :
      (tf : Terraform) (scm_map : Dict String) (r : TaskOptions)
      → Prepares r (set_module l texts tool tf scm_map r)
  unfolding set_module
  set_module-Prepares tf scm_map r =
      let module' = tf.spec.terraform_module in
      let selected : ConfigMapSelector → Result TaskOptions =
        λ s. ok (add_data ".__INFRAKUBE__ConfigMapModule.json" (texts.marshal_selector s) r) in
      let selected-Prepares = λ (s : ConfigMapSelector).
        add_data-Prepared ".__INFRAKUBE__ConfigMapModule.json" (texts.marshal_selector s) r in
      let address = get_parsed_address l module'.source "" false scm_map in
      let parsed : Result TaskOptions =
        parsed_to (λ address. record r { tf_module_parsed = address }) address in
      let refused : Result TaskOptions = err (message ("no " ⧺ tool ⧺ " module detected")) in
      let addressed = if module'.source == "" then refused else parsed in
      let configured : Result TaskOptions = elim module'.config_map_selector [
        | none ↦ addressed
        | some s ↦ selected s
      ] in
      Prepares-if r (not (module'.inline == "")) (ok (add_data "inline-module.tf" module'.inline r))
        (elim module'.config_map_seclector_x [ none ↦ configured | some s ↦ selected s ])
        (add_data-Prepared "inline-module.tf" module'.inline r)
        (Prepares-option r module'.config_map_seclector_x configured selected selected-Prepares (
          Prepares-option r module'.config_map_selector addressed selected selected-Prepares
            (Prepares-if r (module'.source == "") refused parsed tt (parsed-Prepares r address))))

  pub with_downloads-Prepares :
      (tf : Terraform) (r : TaskOptions) (addresses : Result (List ParsedAddress))
      → Prepares r (with_downloads l texts tool tf r addresses)
  with_downloads-Prepares tf r (err e) = tt
  with_downloads-Prepares tf r (ok addresses) =
      let s =
        add_data ".__INFRAKUBE__ResourceDownloads.json" (texts.marshal_addresses addresses) r in
      Prepared-then r s _ (add_data-Prepared _ _ r) (add_data-Prepared _ _ s)
