-- ===== src/Multicluster/Secrets.antt =====
-- pkg/multicluster/provider.go: which secrets hold a cluster, and what they say of it.
use infrakube_multicluster.Prelude.{
  String, Bool, false, not, Option, none, some, ◌==◌, ◌⧺◌, lookup, if◌then◌else◌,
}
use infrakube_multicluster.Kube.{Secret}

pub record ProviderOptions : Type 0 where
  pub namespace : String
  pub secret_label : String
  pub kubeconfig_key : String
  pub cluster_name_label : String

or_default : String → String → String
or_default default s = if s == "" then default else s

-- The defaults of NewKubeconfigProvider.
unfoldable pub with_defaults : ProviderOptions → ProviderOptions
unfolding or_default
with_defaults o = record {
  namespace = or_default "infrakube-system" o.namespace;
  secret_label = or_default "infrakube.galleybytes.com/cluster" o.secret_label;
  kubeconfig_key = or_default "kubeconfig" o.kubeconfig_key;
  cluster_name_label = or_default "infrakube.galleybytes.com/cluster-name" o.cluster_name_label;
}

unfoldable pub secret_key : Secret → String
secret_key secret = secret.namespace ⧺ "/" ⧺ secret.name

is_true : Option String → Bool
is_true none = false
is_true (some value) = value == "true"

unfoldable pub matches : ProviderOptions → Secret → Bool
unfolding is_true
matches o secret =
    if not (secret.namespace == o.namespace)
    then false
    else is_true (lookup o.secret_label secret.labels)

unfoldable pub text_or_empty : Option String → String
text_or_empty none = ""
text_or_empty (some s) = s

unfoldable pub cluster_name : ProviderOptions → Secret → String
unfolding text_or_empty
cluster_name o secret =
    let name = text_or_empty (lookup o.cluster_name_label secret.labels) in
    if not (name == "") then name else secret.name

-- What an informer hands over: a secret, a tombstone of one, or something else.
pub data Obj : Type 0 where
  secret_obj : Secret → Obj
  final_state_unknown : Option Secret → Obj
  other_obj : Obj

unfoldable pub as_secret : Obj → Option Secret
as_secret (secret_obj secret) = some secret
as_secret (final_state_unknown obj) = obj
as_secret other_obj = none
