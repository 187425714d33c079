-- ===== src/Addresses/Patterns.antt =====
-- pkg/controllers/tf_controller.go: the regular expressions `forcedRegexp` and `sshPattern`, of which
-- each matches a text in one way at most, and `getForcedGetter`.
use Prim.Native.Char.{Char, code}
use infrakube_multicluster.Prelude.{
  ℕ, String, Bool, false, not, ◌&&◌, ◌||◌, Option, none, some, ◌==◌, leb, eqb, if◌then◌else◌,
}

abbrev pub is_alnum : Char → Bool
is_alnum c =
    leb b'A' (code c) && leb (code c) b'Z'
    || leb b'a' (code c) && leb (code c) b'z'
    || leb b'0' (code c) && leb (code c) b'9'

abbrev pub is_char : ℕ → Char → Bool
is_char n c = eqb (code c) n

onto_part : Char → String × String → String × String
onto_part c (s, t) = (String.◌∷◌ c s, t)

-- The longest part of which every character passes a test, and what is left.
unfoldable pub span : (Char → Bool) → String → String × String
unfolding onto_part
span p String.[] = ("", "")
span p (String.◌∷◌ c s) =
    let rest = span p s in if p c then onto_part c rest else ("", String.◌∷◌ c s)

-- What a `.` does not match.
has_newline : String → Bool
has_newline String.[] = false
has_newline (String.◌∷◌ c s) = is_char 10 c || has_newline s

-- `.+` up to the end of the text.
unfoldable pub is_line : String → Bool
unfolding has_newline
is_line s = not (s == "") && not (has_newline s)

-- What follows one character, or two colons.
unfoldable pub after_char : ℕ → String → Option String
after_char n String.[] = none
after_char n (String.◌∷◌ c s) = if is_char n c then some s else none

abbrev and_then : Option String → (String → Option String) → Option String
and_then none f = none
and_then (some s) f = f s

unfoldable pub after_colons : String → Option String
unfolding after_char
after_colons s = and_then (after_char b':' s) (after_char b':')

abbrev pub forced_match : String → Option String → Option (String × String)
forced_match forced none = none
forced_match forced (some source) =
    if not (forced == "") && is_line source then some (forced, source) else none

-- forcedRegexp.FindStringSubmatch: the two groups.
unfoldable pub forced_regexp : String → Option (String × String)
unfolding span after_colons is_line
forced_regexp s = let (forced, rest) = span is_alnum s in forced_match forced (after_colons rest)

abbrev pub or_unforced : String → Option (String × String) → String × String
or_unforced src none = ("", src)
or_unforced src (some found) = found

unfoldable pub get_forced_getter : String → String × String
unfolding forced_regexp
get_forced_getter src = or_unforced src (forced_regexp src)

abbrev pub SshAddress : Type 0
SshAddress = (user : String) × (host : String) × String

-- `/?(.+)$`: the slash is left out of the group unless nothing follows it.
abbrev pub ssh_path : (more : String) → Option String → Option String
ssh_path more none = if is_line more then some more else none
ssh_path more (some path) =
    if is_line path then some path else if path == "" then some more else none

abbrev pub with_host : (user host : String) → Option String → Option SshAddress
with_host user host none = none
with_host user host (some path) = if host == "" then none else some (user, host, path)

abbrev pub path_after : Option String → Option String
path_after none = none
path_after (some more) = ssh_path more (after_char b'/' more)

-- `([^:]+):/?(.+)$`, after the user.
unfoldable pub host_and_path : (user : String) → String → Option SshAddress
unfolding span after_char is_line
host_and_path user s =
    let (host, rest) = span (λ c. not (is_char b':' c)) s in
    with_host user host (path_after (after_char b':' rest))

abbrev pub with_user : (user : String) → Option String → Option SshAddress
with_user user none = none
with_user user (some rest) = if user == "" then none else host_and_path user rest

abbrev pub or_without_user : Option SshAddress → Option SshAddress → Option SshAddress
or_without_user (some found) other = some found
or_without_user none other = other

-- sshPattern.FindStringSubmatch: the three groups. The first, with its `@`, is left out only where
-- the text does not match with it.
unfoldable pub ssh_pattern : String → Option SshAddress
unfolding span after_char host_and_path
ssh_pattern s =
    let (user, rest) = span (λ c. not (is_char b'@' c)) s in
    or_without_user (with_user user (after_char b'@' rest)) (host_and_path "" s)
