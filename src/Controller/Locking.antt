-- ===== src/Controller/Locking.antt =====
-- pkg/controllers/tf_controller.go, reconcile: the lock of a request in the cache.
use infrakube_multicluster.Prelude.{◌≡◌, ◌⧺◌, String, Option, none, some}
use infrakube_multicluster.Exec.{Go, returns}
use infrakube_multicluster.Exec.Ensures.{Ensures}
use infrakube_multicluster.Kube.{Secret}
use infrakube_multicluster.Controller.Api.{Api, CacheValue, lock_owner}
use infrakube_multicluster.Controller.Settings.{Config, cache_node_selectors}
use infrakube_multicluster.Controller.Plugins.{Runner}
use infrakube_multicluster.Controller.Writes.{RespectsIf}
use infrakube_multicluster.Controller.Reconcile.Replies.{Reply, later}

-- Every phase is allowed.
abbrev pub AnyPhase : String → Type 0
AnyPhase phase = Unit

module _ {W : Type 0} (a : Api W) (c : Config) (r : Runner W) (base : String) where
  -- The world at the time of the test of the lock.
  abbrev pub at_test : W → W
  at_test w = cache_node_selectors a c (a.new_uuid w).1

  abbrev pub lock_key : String
  lock_key = base ⧺ "-reconcile-lock"

  abbrev pub IsHeld : (id : String) → W → Type 0
  IsHeld id w = a.cache_get lock_key w ≡ some (lock_owner id)

  -- The calls that a round makes keep a property while the round has the lock in the cache, and leave
  -- the lock there. Nothing is asked of a call that is made without the lock.
  pub record KeptUnderLock (id : String) (P : W → Type 0) : Type 0 where
    pub calls : RespectsIf AnyPhase a r (λ w. IsHeld id w × P w)
    pub secrets :
        (secret : Secret) (w : W)
        → IsHeld id w × P w
        → IsHeld id (a.update_secret secret w).1 × P (a.update_secret secret w).1
    pub events :
        (kind reason : String) (w : W)
        → IsHeld id w × P w
        → IsHeld id (a.event kind reason w) × P (a.event kind reason w)
    pub takes :
        (w : W) → a.cache_get lock_key w ≡ none → P w → P (a.cache_set lock_key (lock_owner id) w)
    pub releases : (w : W) → IsHeld id w → P w → P (a.cache_delete lock_key w)

  -- What go-cache says of the key: what was set is found, and what was deleted is not.
  pub record IsCached : Type 0 where
    pub set : (v : CacheValue) (w : W) → a.cache_get lock_key (a.cache_set lock_key v w) ≡ some v
    pub deleted : (w : W) → a.cache_get lock_key (a.cache_delete lock_key w) ≡ none

  module _ (id : String) (P : W → Type 0) (k : KeptUnderLock id P) where
    abbrev Guarded : W → Type 0
    Guarded w = IsHeld id w × P w

    -- What a round that found `lock` in the world `w` leaves.
    abbrev pub Excluded : (lock : Option CacheValue) → W → Go Reply × W → Type 0
    Excluded (some (lock_owner owner)) w result = result ≡ (returns later, w)
    Excluded lock w result = P result.1 × (a.cache_get lock_key result.1 ≡ a.cache_get lock_key w)
