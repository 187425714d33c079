-- ===== src/Scenarios/Clusters.antt =====
-- A provider over clusters that are their configurations, and the secrets of two clusters.
use infrakube_multicluster.Prelude.{
  arith, sym, text_ne, ap, ◌∙◌, ◌≡◌, refl, String, true, false, Option, none, some, List, [], ◌∷◌,
  ◌==◌, All, lookup, if◌then◌else◌,
}
use infrakube_multicluster.Kube.{Secret}
use infrakube_multicluster.Multicluster.Secrets.{
  ProviderOptions, with_defaults, secret_key, matches, cluster_name, text_or_empty, secret_obj,
  as_secret,
}
use infrakube_multicluster.Multicluster.Provider.{
  Provider, Engine, empty, Event, stored, deleted, indexed, step, run, get, handle_secret,
  handle_found, handle_matching, replace_cluster, place_cluster, engage_cluster, index_all,
  index_field, disengage, disengage_secret, handle_found, handle_matching, replace_cluster,
  place_cluster, engage_cluster, index_all, index_field, disengage, disengage_secret,
}
use infrakube_multicluster.Multicluster.Provider.Agree.{Agree}
use infrakube_multicluster.Multicluster.Provider.Invariant.{NamedEvent, empty-Agree, run-Agree}
use infrakube_multicluster.Multicluster.Provider.Effects.{taken, stored-taken, removed, withdrawn}
use infrakube_multicluster.Multicluster.Provider.Frames.{stored-others}
use infrakube_multicluster.Multicluster.Provider.Accounts.{
  Accounted, empty-Accounted, run-Accounted,
}
use infrakube_multicluster.Multicluster.Manager.{
  canceled, failure, provider_first, beside, start, is_none, both_quiet, start-both_quiet,
}

-- Every text but "bad" is a kubeconfig, every field is indexed but "bad", and the manager takes all.
abbrev engine : Engine String
engine = record {
  config_of = λ kubeconfig. if kubeconfig == "bad" then none else some kubeconfig;
  new_cluster = λ config. some config;
  index_field = λ cl idx. if idx == "bad" then false else true;
  engage = λ name cl. true;
}

abbrev options : ProviderOptions
options =
    with_defaults
      (record { namespace = ""; secret_label = ""; kubeconfig_key = ""; cluster_name_label = "" })

abbrev east : Secret
east = record {
  name = "east";
  namespace = "infrakube-system";
  labels = ("infrakube.galleybytes.com/cluster", "true") ∷ [];
  finalizers = [];
  contents = ("kubeconfig", "https://east") ∷ [];
}

abbrev events : List Event
events = indexed true [] "spec" ∷ stored (secret_obj east) ∷ []

abbrev engaged : Provider String
engaged = run engine options empty events

name_of : Option Secret → String
name_of none = ""
name_of (some secret) = secret.name

-- The provider before the secret comes, and the only event that follows.
abbrev idle : Provider String
idle = run engine options empty (indexed true [] "spec" ∷ [])

events_named : All NamedEvent events
unfolding as_secret name_of
events_named = (tt, ((λ secret e h. text_ne "east" "" refl (ap name_of e ∙ h)), tt))

engaged_held : engaged.secret_cluster (secret_key east) ≡ some "east"
unfolding run step handle_secret handle_found handle_matching replace_cluster place_cluster
    engage_cluster index_all index_field disengage disengage_secret matches cluster_name secret_key
    with_defaults as_secret text_or_empty lookup
engaged_held = refl

engaged_cluster : get engaged "east" ≡ some "https://east"
unfolding get run step handle_secret handle_found handle_matching replace_cluster place_cluster
    engage_cluster index_all index_field disengage disengage_secret matches cluster_name secret_key
    with_defaults as_secret text_or_empty lookup
engaged_cluster = refl

engaged-Agree : Agree engaged
engaged-Agree = run-Agree engine options empty events events_named empty-Agree

run-Agree_example : Agree engaged
run-Agree_example = run-Agree engine options empty events events_named empty-Agree

run-Accounted_example : Accounted engaged
run-Accounted_example = run-Accounted engine options empty events empty-Accounted

stored-taken_example :
    get (step engine options idle (stored (secret_obj east))) (cluster_name options east)
    ≡ taken engine idle.indexes (cluster_name options east) (some "https://east")
unfolding as_secret matches with_defaults lookup
stored-taken_example =
    stored-taken engine options idle (secret_obj east) east "https://east" "https://east" refl refl
      refl (text_ne "https://east" "" refl) refl

withdrawn_example :
    let p = step engine options engaged (deleted (secret_obj east)) in
    (get p "east" ≡ none)
    × (p.cancelled ≡ "https://east" ∷ engaged.cancelled)
    × (p.secret_cluster (secret_key east) ≡ none)
    × (get p "west" ≡ get engaged "west")
unfolding as_secret
withdrawn_example =
    withdrawn engine options engaged east (deleted (secret_obj east)) "east" "west" "https://east"
      engaged-Agree engaged_held engaged_cluster (text_ne "west" "east" refl)
      (removed (secret_obj east) refl)

start-both_quiet_example :
    is_none (start (beside (provider_first (some canceled) (some (failure "lost")))))
    ≡ both_quiet (provider_first (some canceled) (some (failure "lost")))
start-both_quiet_example = start-both_quiet (provider_first (some canceled) (some (failure "lost")))

abbrev west : Secret
west = record east { name = "west" }

west_free : engaged.secret_cluster (secret_key west) ≡ none
unfolding run step handle_secret handle_found handle_matching replace_cluster place_cluster
    engage_cluster index_all index_field disengage disengage_secret matches cluster_name secret_key
    with_defaults as_secret text_or_empty lookup
west_free = refl

stored-others_example :
    get (step engine options engaged (stored (secret_obj west))) "east" ≡ get engaged "east"
unfolding as_secret cluster_name with_defaults lookup
stored-others_example =
    stored-others engine options engaged (secret_obj west) west "east" refl
      (text_ne "east" "west" refl) (λ e. ground (arith, sym west_free ∙ e))
