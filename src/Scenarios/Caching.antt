-- ===== src/Scenarios/Caching.antt =====
-- A disk that is a function from paths to contents, and requests to the cache server.
use infrakube_multicluster.Prelude.{
  String, Option, none, some, ◌≡◌, ◌≢◌, refl, ◌==◌, if◌then◌else◌, arith, eq_refl, eq_iff,
  has_prefix, split, onto_first, join, after_prefix, trim_prefix,
}
use infrakube_multicluster.Exec.{returns, ◌>>=◌}
use infrakube_multicluster.CacheServer.{
  Disk, Opened, contents, open_failed, not_exist, created, handle_binary, store_binary, bin_path_of,
  cache_root, join_path, non_empty, clean, resolve, step_up,
}
use infrakube_multicluster.CacheServer.Stored.{Shows, IsDisk, Answers, handle_binary_roundtrip}

abbrev Files : Type 0
Files = String → Option String

abbrev set : String → Option String → Files → Files
set path f files at = if at == path then f else files at

abbrev open_in : Option String → Opened
open_in none = open_failed not_exist
open_in (some body) = contents body

abbrev disk : Disk Files
disk = record {
  mkdir_all = λ path w. (none, w);
  open_file = λ path w. open_in (w path);
  create_file = λ path w. (none, set path (some "") w);
  copy_to = λ path body w. (none, set path (some body) w);
  remove_file = λ path w. (none, set path none w);
  chmod = λ path w. (none, w);
  read_dir = λ path w. none;
}

open-Shows : (f : Option String) → Shows (open_in f) f
open-Shows none = refl
open-Shows (some body) = refl

set-same : (path : String) (f : Option String) (w : Files) → set path f w path ≡ f
set-same path f w = ground (arith, eq_refl path)

set-others : (path at : String) (f : Option String) (w : Files) → at ≢ path → set path f w at ≡ w at
set-others path at f w other = ground (arith, other, eq_iff at path)

disk-IsDisk : IsDisk disk (λ path w. w path)
disk-IsDisk = record {
  opened = λ path w. open-Shows (w path);
  copied = λ path body w. set-same path (some body) w;
  mode = λ path at w. refl;
  directories = λ path at w. refl;
  create-others = λ path at w other. set-others path at (some "") w other;
  copy-others = λ path body at w other. set-others path at (some body) w other;
  remove-others = λ path at w other. set-others path at none w other;
}

abbrev empty : Files
empty path = none

stored :
    (handle_binary disk "/cache" "tofu"
      (record { method = "PUT"; path = "/api/v1/tofu/1.8.0"; arch = ""; body = "binary" })
      empty).0
    ≡ returns created
unfolding handle_binary store_binary ◌>>=◌ after_prefix trim_prefix
stored = refl

handle_binary_roundtrip_example :
    let stored_at =
      (handle_binary disk "/cache" "tofu"
        (record { method = "PUT"; path = "/api/v1/tofu/1.8.0"; arch = ""; body = "binary" })
        empty).1 in
    Answers disk
      (λ path w. w path)
      "/cache"
      disk-IsDisk
      "binary"
      (open_in (stored_at (bin_path_of disk "/cache" "tofu" "" "1.8.0")))
      (handle_binary disk "/cache" "tofu"
        (record { method = "GET"; path = "/api/v1/tofu/1.8.0"; arch = ""; body = "" })
        stored_at).0
unfolding after_prefix trim_prefix
handle_binary_roundtrip_example =
    handle_binary_roundtrip disk (λ path w. w path) "/cache" disk-IsDisk "tofu" "/api/v1/tofu/1.8.0"
      "" "binary" "" empty stored

usual_path : bin_path_of disk "/cache" "tofu" "" "1.8.0" ≡ "/cache/tofu/amd64/1.8.0"
unfolding bin_path_of cache_root join_path non_empty clean resolve step_up has_prefix split
    onto_first join
usual_path = refl

-- The architecture of a request may lead out of the directory of the cache.
path_outside : bin_path_of disk "/cache" "terraform" "../etc" "passwd" ≡ "/etc/passwd"
unfolding bin_path_of cache_root join_path non_empty clean resolve step_up has_prefix split
    onto_first join
path_outside = refl
