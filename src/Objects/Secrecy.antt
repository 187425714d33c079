-- ===== src/Objects/Secrecy.antt =====
-- pkg/controllers/tf_controller.go, generateRole: who may touch secrets.
use Prim.Native.Char.{Char}
use infrakube_multicluster.Prelude.{
  String, Bool, false, ◌&&◌, ◌||◌, List, [], ◌∷◌, contains, has_prefix,
}
use infrakube_multicluster.Utils.{list_contains_str}
use infrakube_multicluster.Kube.{PolicyRule}

-- How the API server matches a list of a rule: by the name itself, or by the asterisk.
abbrev pub matches : List String → String → Bool
matches names name = list_contains_str names name || list_contains_str names "*"

-- Whether one of the rules gives some access to secrets, which are in the group of the empty name.
abbrev pub grants_secrets : List PolicyRule → Bool
grants_secrets [] = false
grants_secrets (rule ∷ rules) =
    (matches rule.api_groups "" && matches rule.resources "secrets") || grants_secrets rules

abbrev pub any_contains : List String → String → Bool
any_contains [] part = false
any_contains (piece ∷ pieces) part = contains piece part || any_contains pieces part

abbrev starts : List String → String → Bool
starts [] part = has_prefix "" part
starts (piece ∷ pieces) part = has_prefix piece part
