-- ===== src/Scenarios/Locks.antt =====
-- A server that counts a failure where it is called without the lock of the request.
use infrakube_multicluster.Prelude.{Option, none, some, ◌≡◌, lookup, []}
use infrakube_multicluster.Controller.Api.{Api, found, CacheValue}
use infrakube_multicluster.Controller.Locking.{IsHeld}
use infrakube_multicluster.Scenarios.Server.{World, server, config, runner}

abbrev seen_by : Option CacheValue → World → World
seen_by none w = record w { failures = 1 }
seen_by (some v) w = w

abbrev watched : World → World
watched w = seen_by (lookup "k-reconcile-lock" w.cache) w

abbrev watching : Api World
watching = record server {
  get_tf = λ name w. (found w.stored, watched w);
  update_tf = λ tf w. (none, watched w);
  update_status = λ tf w. (found tf, watched (record w { stored = tf }));
  list_pods = λ namespace name generation w. (found [], watched w);
  update_secret = λ secret w. (none, watched w);
}

abbrev Quiet : World → Type 0
Quiet w = w.failures ≡ 0

abbrev Safe : World → Type 0
Safe w = IsHeld watching config runner "k" "u" w × Quiet w
