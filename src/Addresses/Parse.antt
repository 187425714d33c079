-- ===== src/Addresses/Parse.antt =====
-- pkg/controllers/tf_controller.go: sshDetector.Detect and getParsedAddress, over the packages that
-- parse and print URLs and go-getter.
use Prim.Native.Char.{Char}
use infrakube_multicluster.Prelude.{
  String, Bool, ◌&&◌, Option, none, some, List, [], ◌∷◌, ◌==◌, Dict, keys, lookup, onto_first, ◌⧺◌,
  if◌then◌else◌,
}
use infrakube_multicluster.Utils.{list_contains_str}
use infrakube_multicluster.Options.{ParsedAddress}
use infrakube_multicluster.Addresses.Patterns.{is_char, get_forced_getter, ssh_pattern, SshAddress}

-- A URL that the detector puts together; the query stands in its encoded form.
pub record SshUrl : Type 0 where
  pub user : String
  pub host : String
  pub path : String
  pub raw_query : String

-- What is read of a URL that net/url parsed.
pub record ParsedUrl : Type 0 where
  pub scheme : String
  pub host : String
  pub port : String
  pub username : String
  pub raw_query : String
  pub request_uri : String
  pub text : String

-- A value, or the text of an error.
pub data Fallible (A : Type 0) : Type 0 where
  ok : A → Fallible A
  error : String → Fallible A

-- What Detect of a detector returns.
pub data Detection : Type 0 where
  detected : String → Detection
  not_detected : Detection
  detect_error : String → Detection

-- net/url: `encoded_query` is ParseQuery and Encode, `query_ref` is ParseQuery and Get of a key, which is
-- empty for a missing one. go-getter: Detect is given the detector of this file, which it asks before
-- its own.
pub record Libraries : Type 0 where
  pub parse_url : String → Fallible ParsedUrl
  pub ssh_url_text : SshUrl → String
  pub encoded_query : String → Fallible String
  pub query_get : (query key : String) → Fallible String
  pub detect : (String → Detection) → String → Fallible String
  pub source_dir_subdir : String → String × String

abbrev pub git_scm_type : String
git_scm_type = "git"

-- The text before a character, and after it where it stands in the text.
unfoldable pub cut_at : (Char → Bool) → String → String × Option String
cut_at p String.[] = ("", none)
cut_at p (String.◌∷◌ c s) =
    let rest = cut_at p s in if p c then ("", some s) else (String.◌∷◌ c rest.0, rest.1)

is_slash : Char → Bool
is_slash c = is_char b'/' c

-- strings.Split with the separator `//`.
unfoldable pub split_double : String → List String
unfolding is_slash onto_first
split_double String.[] = "" ∷ []
split_double (String.◌∷◌ c String.[]) = String.◌∷◌ c "" ∷ []
split_double (String.◌∷◌ c (String.◌∷◌ d s)) =
    let pieces = split_double s in
    let pieces' = split_double (String.◌∷◌ d s) in
    if is_slash c && is_slash d then "" ∷ pieces else onto_first c pieces'

module _ (l : Libraries) where
  abbrev pub with_query : (user host path : String) → Option (Fallible String) → Detection
  with_query user host path none =
      detected (l.ssh_url_text (record { user = user; host = host; path = path; raw_query = "" }))
  with_query user host path (some (error e)) = detect_error ("error parsing GitHub SSH URL: " ⧺ e)
  with_query user host path (some (ok query)) =
      detected
        (l.ssh_url_text (record { user = user; host = host; path = path; raw_query = query }))

  abbrev query_of : Option String → Option (Fallible String)
  query_of none = none
  query_of (some query) = some (l.encoded_query query)

  abbrev pub detected_address : Option SshAddress → Detection
  detected_address none = not_detected
  detected_address (some (user, host, path)) =
      let (before, query) = cut_at (is_char b'?') path in
      with_query user host before (query_of query)

  -- sshDetector.Detect
  unfoldable pub ssh_detect : String → Detection
  unfolding cut_at
  ssh_detect src = detected_address (ssh_pattern src)

  -- The scheme: a forced one, else that of the resource's settings for the host, else `git` for
  -- GitHub, else that of the URL.
  unfoldable pub scheme_of : (forced : String) → Dict String → ParsedUrl → String
  scheme_of forced scm_map url =
      let own = if list_contains_str ("github.com" ∷ []) url.host then "git" else url.scheme in
      let configured =
        if list_contains_str (keys scm_map) url.host
        then elim (lookup url.host scm_map) [ none ↦ "" | some scheme ↦ scheme ]
        else own in
      if forced == "" then configured else forced

  unfoldable pub files_of : String → List String
  unfolding split_double
  files_of source = if source == "" then "." ∷ [] else split_double source

  unfoldable pub port_of : ParsedUrl → String
  port_of url =
      if url.port == ""
      then (if url.scheme == "ssh" then "22" else if url.scheme == "https" then "443" else "")
      else url.port

  abbrev pub hash_of : String → String
  hash_of ref = if ref == "" then "master" else ref

  abbrev pub parsed_with :
      (path : String) (use_as_var : Bool) (scheme : String) (files : List String)
      → ParsedUrl
      → Fallible String
      → Fallible ParsedAddress
  parsed_with path use_as_var scheme files url (error e) = error e
  parsed_with path use_as_var scheme files url (ok ref) = ok (record {
    detected_scheme = scheme;
    path = path;
    use_as_var = use_as_var;
    url = url.text;
    files = files;
    hash = hash_of ref;
    url_scheme = url.scheme;
    uri = (cut_at (is_char b'?') url.request_uri).0;
    host = url.host;
    port = port_of url;
    user = url.username;
    repo = (cut_at (is_char b'?') url.text).0;
  })

  abbrev pub parsed_url :
      (path : String) (use_as_var : Bool)
      → Dict String
      → (forced files_source : String) → Fallible ParsedUrl
      → Fallible ParsedAddress
  parsed_url path use_as_var scm_map forced files_source (error e) = error e
  parsed_url path use_as_var scm_map forced files_source (ok url) =
      parsed_with path use_as_var (scheme_of forced scm_map url) (files_of files_source) url
        (l.query_get url.raw_query "ref")

  abbrev pub parsed_output :
      (path : String) (use_as_var : Bool) → Dict String → Fallible String → Fallible ParsedAddress
  parsed_output path use_as_var scm_map (error e) = error e
  parsed_output path use_as_var scm_map (ok output) =
      let (forced, result) = get_forced_getter output in
      let (url_source, files_source) = l.source_dir_subdir result in
      parsed_url path use_as_var scm_map forced files_source (l.parse_url url_source)

  -- getParsedAddress
  unfoldable pub get_parsed_address :
      (address path : String) (use_as_var : Bool) → Dict String → Fallible ParsedAddress
  unfolding ssh_detect scheme_of files_of port_of
  get_parsed_address address path use_as_var scm_map =
      parsed_output path use_as_var scm_map (l.detect ssh_detect address)
