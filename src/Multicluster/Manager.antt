-- ===== src/Multicluster/Manager.antt =====
-- pkg/multicluster/manager.go: the manager that runs the provider beside the manager it wraps.
use infrakube_multicluster.Prelude.{
  ◌≡◌, refl, String, Bool, true, false, not, ◌&&◌, Option, none, some, if◌then◌else◌, arith,
}

-- What errors.Is reads of an error: a cancelled context, another error, or one wrapped by a message.
pub data GoError : Type 0 where
  canceled : GoError
  failure : String → GoError
  wrapping : String → GoError → GoError

-- errors.Is(err, context.Canceled)
unfoldable pub is_canceled : GoError → Bool
is_canceled canceled = true
is_canceled (failure s) = false
is_canceled (wrapping s err) = is_canceled err

unfoldable pub ignore_canceled : Option GoError → Option GoError
ignore_canceled none = none
ignore_canceled (some err) = if is_canceled err then none else some err

-- The goroutine whose error `select` receives, with that error and the one that is received once the
-- context of both is cancelled.
pub data Received : Type 0 where
  provider_first manager_first : (first later : Option GoError) → Received

after_provider : Option GoError → Option GoError → Option GoError
after_provider none later = ignore_canceled later
after_provider (some err) later =
    if not (is_canceled err)
    then some (wrapping "multicluster provider stopped" err)
    else ignore_canceled later

after_manager : Option GoError → Option GoError → Option GoError
after_manager none later = ignore_canceled later
after_manager (some err) later = if not (is_canceled err) then some err else ignore_canceled later

-- The manager's own error, where it has no provider, or what `select` received.
pub data Runs : Type 0 where
  alone : Option GoError → Runs
  beside : Received → Runs

-- manager.IsMulticluster
unfoldable pub is_multicluster : Runs → Bool
is_multicluster (alone err) = false
is_multicluster (beside received) = true

-- manager.Start
unfoldable pub start : Runs → Option GoError
unfolding after_provider after_manager
start (alone err) = err
start (beside (provider_first err later)) = after_provider err later
start (beside (manager_first err later)) = after_manager err later

-- No error, or that of a cancelled context.
abbrev pub is_quiet : Option GoError → Bool
is_quiet none = true
is_quiet (some err) = is_canceled err

-- Of either order, both errors.
abbrev pub both_quiet : Received → Bool
both_quiet (provider_first err later) = is_quiet err && is_quiet later
both_quiet (manager_first err later) = is_quiet err && is_quiet later

abbrev pub is_none : Option GoError → Bool
is_none none = true
is_none (some err) = false

ignore_canceled-is_quiet : (err : Option GoError) → is_none (ignore_canceled err) ≡ is_quiet err
unfolding ignore_canceled
ignore_canceled-is_quiet none = refl
ignore_canceled-is_quiet (some err) = ground arith

-- With a provider, whichever of the two ends first, Start answers no error exactly when each of the
-- two ended without one or with that of its cancelled context.
pub start-both_quiet :
    (received : Received) → is_none (start (beside received)) ≡ both_quiet received
unfolding start after_provider after_manager
start-both_quiet (provider_first none later) = ignore_canceled-is_quiet later
start-both_quiet (provider_first (some err) later) = ground (arith, ignore_canceled-is_quiet later)
start-both_quiet (manager_first none later) = ignore_canceled-is_quiet later
start-both_quiet (manager_first (some err) later) = ground (arith, ignore_canceled-is_quiet later)
