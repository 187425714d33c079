-- ===== src/Controller/Settings.antt =====
-- pkg/controllers/tf_controller.go: the settings of ReconcileTf, `listEnvFromSources`, and what tasks
-- inherit from the controller's own deployment through the cache.
use infrakube_multicluster.Prelude.{
  String, Bool, true, false, not, ◌&&◌, Option, none, some, List, [], ◌∷◌, ◌++◌, ◌==◌, ◌⧺◌, Dict,
  ltb, length, if◌then◌else◌,
}
use infrakube_multicluster.Exec.{Go, returns, panics}
use infrakube_multicluster.Kube.{NamespacedName, EnvFromSource, config_map_ref, secret_ref}
use infrakube_multicluster.Options.{Settings, Inherited}
use infrakube_multicluster.Resource.{Terraform}
use infrakube_multicluster.Controller.Api.{
  Api, Answer, found, failed, PodTemplate, CacheValue, cached_affinity, cached_node_selector,
  cached_tolerations,
}

pub record Config : Type 0 where
  pub global_env_from_configmap_data : Dict String
  pub global_env_from_secret_data : Dict String
  pub global_env_suffix : String
  pub inherit_node_selector : Bool
  pub node_selector_cache_key : String
  pub inherit_affinity : Bool
  pub affinity_cache_key : String
  pub inherit_tolerations : Bool
  pub tolerations_cache_key : String
  pub settings : Settings
  -- the hex digits of crypto/md5
  pub md5_hex : String → String

unfoldable pub list_env_from_sources : Config → Terraform → List EnvFromSource
list_env_from_sources c tf =
    let name = tf.name ⧺ "-" ⧺ c.global_env_suffix in
    (if ltb 0 (length c.global_env_from_configmap_data) then config_map_ref name ∷ [] else [])
    ++ (if ltb 0 (length c.global_env_from_secret_data) then secret_ref name ∷ [] else [])

is_some : {A : Type 0} → Option A → Bool
is_some none = false
is_some (some a) = true

-- The name of the only owner, where it has the kind.
only_owner : String → Answer (List (String × String)) → Option String
only_owner kind (found ((k, name) ∷ [])) = if k == kind then some name else none
only_owner kind _ = none

found_template : Answer PodTemplate → Option PodTemplate
found_template (found t) = some t
found_template (failed e) = none

-- The three assertions of types, which panic on a value of another type.
affinity_in : Option CacheValue → Go (Option String)
affinity_in none = returns none
affinity_in (some (cached_affinity a)) = returns a
affinity_in (some _) = panics

node_selector_in : Option CacheValue → Go (Dict String)
node_selector_in none = returns []
node_selector_in (some (cached_node_selector s)) = returns s
node_selector_in (some _) = panics

tolerations_in : Option CacheValue → Go (List String)
tolerations_in none = returns []
tolerations_in (some (cached_tolerations t)) = returns t
tolerations_in (some _) = panics

module _ {W : Type 0} (a : Api W) (c : Config) where
  -- The walk of cacheNodeSelectors from the controller's pod to its deployment; `none` where one of
  -- its tests ends it.
  unfoldable pub own_template : W → Option PodTemplate
  unfolding only_owner found_template
  own_template w =
      let namespace = a.getenv "POD_NAMESPACE" w in
      let pod_name = a.getenv "POD_NAME" w in
      let at = λ (name : String).
        let n : NamespacedName = record { namespace = namespace; name = name } in n in
      if namespace == ""
      then none
      else if pod_name == ""
      then none
      else elim (only_owner "ReplicaSet" (a.pod_owners (at pod_name) w)) [
        | none ↦ none
        | some replica_set ↦
            elim (only_owner "Deployment" (a.replica_set_owners (at replica_set) w)) [
              | none ↦ none
              | some deployment ↦ found_template (a.deployment_template (at deployment) w)
            ]
      ]

  unfoldable pub found_all : W → Bool
  unfolding is_some
  found_all w =
      not (c.inherit_affinity && not (is_some (a.cache_get c.affinity_cache_key w)))
      && not (c.inherit_node_selector && not (is_some (a.cache_get c.node_selector_cache_key w)))
      && not (c.inherit_tolerations && not (is_some (a.cache_get c.tolerations_cache_key w)))

  set_if : Bool → String → CacheValue → W → W
  set_if inherit key value w = if inherit then a.cache_set key value w else w

  -- cacheNodeSelectors, which returns no error on any path.
  unfoldable pub cache_node_selectors : W → W
  unfolding set_if
  cache_node_selectors w =
      if not c.inherit_affinity && not c.inherit_node_selector && not c.inherit_tolerations
      then w
      else if found_all w
      then w
      else elim (own_template w) [
        | none ↦ w
        | some t ↦
            set_if c.inherit_tolerations c.tolerations_cache_key (cached_tolerations t.tolerations)
              (set_if c.inherit_node_selector c.node_selector_cache_key
                (cached_node_selector t.node_selector)
                (set_if c.inherit_affinity c.affinity_cache_key (cached_affinity t.affinity) w))
      ]

  -- getNodeSelectorsFromCache
  unfoldable pub node_selectors_from_cache : W → Go Inherited
  unfolding affinity_in node_selector_in tolerations_in
  node_selectors_from_cache w =
      let read = λ (inherit : Bool) (key : String). if inherit then a.cache_get key w else none in
      elim (affinity_in (read c.inherit_affinity c.affinity_cache_key)) [
        | panics ↦ panics
        | returns affinity ↦
            elim (node_selector_in (read c.inherit_node_selector c.node_selector_cache_key)) [
              | panics ↦ panics
              | returns selector ↦
                  elim (tolerations_in (read c.inherit_tolerations c.tolerations_cache_key)) [
                    | panics ↦ panics
                    | returns tolerations ↦ returns (record {
                      affinity = affinity;
                      node_selector = selector;
                      tolerations = tolerations;
                    })
                  ]
            ]
      ]
