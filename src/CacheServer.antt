-- ===== src/CacheServer.antt =====
-- pkg/controllers/cache_server.go: the handlers of the server that keeps the binaries of the tools.
mod Paths
unfoldable pub use Paths.*
pub mod Stored
use infrakube_multicluster.Prelude.{
  ℕ, String, Bool, true, false, ◌||◌, Option, none, some, List, [], ◌∷◌, ◌++◌, ◌==◌, ◌⧺◌,
  trim_prefix, if◌then◌else◌,
}
use text.Mathlib.Text.{is_le}
use Prim.Native.String.{compare}
use infrakube_multicluster.Exec.{Exec, pure, call, asks, perform, ◌>>=◌}

pub data DiskError : Type 0 where
  not_exist disk_error : DiskError

-- What is found where a file is opened, with what io.Copy reads of it: the file to its end, or a part
-- of it and then an error.
pub data Opened : Type 0 where
  contents : String → Opened
  cut : String → Opened
  open_failed : DiskError → Opened

pub record Entry : Type 0 where
  pub name : String
  pub is_dir : Bool

-- The package os, and io.Copy into a file that was created.
pub record Disk (W : Type 0) : Type 0 where
  pub mkdir_all : String → W → Option DiskError × W
  pub open_file : String → W → Opened
  pub create_file : String → W → Option DiskError × W
  pub copy_to : (path body : String) → W → Option DiskError × W
  pub remove_file : String → W → Option DiskError × W
  pub chmod : String → W → Option DiskError × W
  pub read_dir : String → W → Option (List Entry)

-- The parts of a request that are read; `arch` is empty where the query has none.
pub record Request : Type 0 where
  pub method : String
  pub path : String
  pub arch : String
  pub body : String

pub record Response : Type 0 where
  pub status : ℕ
  pub text : String

-- http.Error
abbrev pub http_error : String → ℕ → Response
http_error text status = record { status = status; text = text ⧺ "\n" }

abbrev pub internal_error : Response
internal_error = http_error "internal error" 500

abbrev pub created : Response
created = record { status = 201; text = "" }

-- The error of io.Copy is not read: a part of the file is sent as if it were the whole.
abbrev pub served : Opened → Response
served (contents body) = record { status = 200; text = body }
served (cut part) = record { status = 200; text = part }
served (open_failed not_exist) = http_error "404 page not found" 404
served (open_failed disk_error) = internal_error

-- The texts in their order, as sort.Strings leaves them.
unfoldable pub insert_sorted : String → List String → List String
insert_sorted s [] = s ∷ []
insert_sorted s (t ∷ ts) =
    let rest = insert_sorted s ts in if is_le (compare s t) then s ∷ t ∷ ts else t ∷ rest

unfoldable pub sort_strings : List String → List String
sort_strings [] = []
sort_strings (s ∷ ss) = insert_sorted s (sort_strings ss)

-- The files of one directory, under its name.
unfoldable pub files_in : (dir_name : String) → List Entry → List String
files_in dir_name [] = []
files_in dir_name (e ∷ entries) =
    let rest = files_in dir_name entries in
    if e.is_dir then rest else (dir_name ⧺ "/" ⧺ e.name) ∷ rest

unfoldable pub lines : List String → String
lines [] = ""
lines (v ∷ versions) = v ⧺ "\n" ⧺ lines versions

module _ {W : Type 0} (d : Disk W) (cache_dir : String) where
  unfoldable pub cache_root : (resource : String) → String
  cache_root resource =
      if resource == "terraform" then cache_dir else join_path (cache_dir ∷ resource ∷ [])

  unfoldable pub serve_binary : (bin_path : String) → Exec W Response
  serve_binary bin_path = asks (λ w. served (d.open_file bin_path w))

  -- A file that could not be written is removed, where that succeeds; an error of the mode is only
  -- logged.
  abbrev pub after_copy : (bin_path : String) → Option DiskError → Exec W Response
  after_copy bin_path (some e) =
      call (d.remove_file bin_path) >>= λ ignored. pure (http_error "write error" 500)
  after_copy bin_path none = call (d.chmod bin_path) >>= λ ignored. pure created

  abbrev pub after_create : (bin_path body : String) → Option DiskError → Exec W Response
  after_create bin_path body (some e) = pure internal_error
  after_create bin_path body none = call (d.copy_to bin_path body) >>= after_copy bin_path

  abbrev pub after_mkdir : (bin_path body : String) → Option DiskError → Exec W Response
  after_mkdir bin_path body (some e) = pure internal_error
  after_mkdir bin_path body none = call (d.create_file bin_path) >>= after_create bin_path body

  unfoldable pub store_binary : (bin_path body : String) → Exec W Response
  store_binary bin_path body = call (d.mkdir_all (dir_of bin_path)) >>= after_mkdir bin_path body

  unfoldable pub bin_path_of : (resource arch version : String) → String
  bin_path_of resource arch version =
      join_path (cache_root resource ∷ (if arch == "" then "amd64" else arch) ∷ version ∷ [])

  unfoldable pub handle_binary : (resource : String) → Request → Exec W Response
  handle_binary resource r =
      let version = trim_prefix r.path ("/api/v1/" ⧺ resource ⧺ "/") in
      let bin_path = bin_path_of resource r.arch version in
      if version == "" || version == "versions"
      then pure (http_error "missing version" 400)
      else if r.method == "GET"
      then serve_binary bin_path
      else if r.method == "PUT"
      then store_binary bin_path r.body
      else pure (http_error "method not allowed" 405)

  -- The loop over the directories of the architectures; one that cannot be read is passed over.
  unfoldable pub versions_in : (resource : String) → List Entry → W → List String
  versions_in resource [] w = []
  versions_in resource (arch_dir ∷ dirs) w =
      let rest = versions_in resource dirs w in
      if arch_dir.is_dir
      then elim (d.read_dir (join_path (cache_root resource ∷ arch_dir.name ∷ [])) w) [
        | none ↦ rest
        | some entries ↦ files_in arch_dir.name entries ++ rest
      ]
      else rest

  unfoldable pub list_versions : (resource : String) → W → Response
  list_versions resource w = elim (d.read_dir (cache_root resource) w) [
    | none ↦ record { status = 200; text = "no cached versions\n" }
    | some dirs ↦ record { status = 200; text = lines (sort_strings (versions_in resource dirs w)) }
  ]

  unfoldable pub handle_list_versions : (resource : String) → Request → Exec W Response
  handle_list_versions resource r =
      if r.method == "GET"
      then asks (list_versions resource)
      else pure (http_error "method not allowed" 405)
