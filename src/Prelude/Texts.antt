-- ===== src/Prelude/Texts.antt =====
-- What the code uses of Go's `strings`, on texts.
use Prim.Native.Nat.{ℕ, zero, suc, ◌-◌, ◌/◌, ◌%◌}
use mathlib.Core.List.{List, [], ◌∷◌}
use Prim.Native.Char.{Char, code}
use Prim.Native.String
use Prim.Native.String.{String, char_at}
use mathlib.Core.Option.{Option, none, some}
use mathlib.Core.Bool.{Bool, true, false, ◌&&◌, ◌||◌}
use text.Mathlib.Text.{◌==◌}
use infrakube_multicluster.Prelude.Tests.{if◌then◌else◌, leb, ltb, eqb}

infixr 65 ◌⧺◌
-- The `+` of Go on texts; also what a `%s` of `fmt.Sprintf` puts between two parts of its format.
abbrev pub ◌⧺◌ : String → String → String
s ⧺ t = String.◌++◌ s t

-- strings.HasSuffix
unfoldable pub has_suffix : String → String → Bool
has_suffix String.[] suffix = String.[] == suffix
has_suffix (String.◌∷◌ c s) suffix = String.◌∷◌ c s == suffix || has_suffix s suffix

upper_char : Char → Char
upper_char c =
    if leb b'a' (code c) && leb (code c) b'z'
    then char_at "ABCDEFGHIJKLMNOPQRSTUVWXYZ" (code c - b'a')
    else c

-- strings.ToUpper, of the letters of ASCII.
unfoldable pub to_upper : String → String
unfolding upper_char
to_upper String.[] = String.[]
to_upper (String.◌∷◌ c s) = String.◌∷◌ (upper_char c) (to_upper s)

-- The digits of a number before those that are written; the fuel counts the digits left.
decimal_onto : ℕ → ℕ → String → String
decimal_onto zero n written = written
decimal_onto (suc fuel) n written =
    let written' = String.◌∷◌ (char_at "0123456789" (n % 10)) written in
    let more = decimal_onto fuel (n / 10) written' in if ltb n 10 then written' else more

-- fmt.Sprint of a number that is not negative. A number has no more digits than its value plus one.
unfoldable pub decimal : ℕ → String
unfolding decimal_onto
decimal n = decimal_onto (suc n) n ""

-- strings.TrimRight with a cutset of the one character.
unfoldable pub trim_right : Char → String → String
trim_right cut String.[] = String.[]
trim_right cut (String.◌∷◌ c s) =
    let rest = trim_right cut s in
    if rest == String.[] && eqb (code c) (code cut) then String.[] else String.◌∷◌ c rest

-- strings.Join
unfoldable pub join : List String → String → String
join [] sep = ""
join (s ∷ []) sep = s
join (s ∷ t ∷ rest) sep = s ⧺ sep ⧺ join (t ∷ rest) sep

-- strings.HasPrefix
unfoldable pub has_prefix : String → String → Bool
has_prefix s String.[] = true
has_prefix String.[] (String.◌∷◌ d prefix) = false
has_prefix (String.◌∷◌ c s) (String.◌∷◌ d prefix) = eqb (code c) (code d) && has_prefix s prefix

-- strings.Contains
unfoldable pub contains : String → String → Bool
contains String.[] part = has_prefix String.[] part
contains (String.◌∷◌ c s) part = has_prefix (String.◌∷◌ c s) part || contains s part

unfoldable pub onto_first : Char → List String → List String
onto_first c [] = String.◌∷◌ c "" ∷ []
onto_first c (piece ∷ pieces) = String.◌∷◌ c piece ∷ pieces

-- strings.Split with a separator of one character.
unfoldable pub split : String → Char → List String
unfolding onto_first
split String.[] sep = "" ∷ []
split (String.◌∷◌ c s) sep =
    let pieces = split s sep in if eqb (code c) (code sep) then "" ∷ pieces else onto_first c pieces

-- strconv.FormatBool
abbrev pub format_bool : Bool → String
format_bool true = "true"
format_bool false = "false"

-- The white space of Unicode.
abbrev is_space : Char → Bool
is_space c =
    let n = code c in
    (leb 9 n && leb n 13)
    || eqb n 32
    || eqb n 0x85
    || eqb n 0xA0
    || eqb n 0x1680
    || (leb 0x2000 n && leb n 0x200A)
    || eqb n 0x2028
    || eqb n 0x2029
    || eqb n 0x202F
    || eqb n 0x205F
    || eqb n 0x3000

trim_left_space : String → String
trim_left_space String.[] = String.[]
trim_left_space (String.◌∷◌ c s) =
    let rest = trim_left_space s in if is_space c then rest else String.◌∷◌ c s

trim_right_space : String → String
trim_right_space String.[] = String.[]
trim_right_space (String.◌∷◌ c s) =
    let rest = trim_right_space s in
    if rest == String.[] && is_space c then String.[] else String.◌∷◌ c rest

-- strings.TrimSpace
unfoldable pub trim_space : String → String
unfolding trim_left_space trim_right_space
trim_space s = trim_right_space (trim_left_space s)

-- What follows a prefix, where the text has it.
unfoldable pub after_prefix : String → String → Option String
after_prefix s String.[] = some s
after_prefix String.[] (String.◌∷◌ d prefix) = none
after_prefix (String.◌∷◌ c s) (String.◌∷◌ d prefix) =
    let rest = after_prefix s prefix in if eqb (code c) (code d) then rest else none

-- strings.TrimPrefix
unfoldable pub trim_prefix : String → String → String
trim_prefix s prefix = elim (after_prefix s prefix) [ none ↦ s | some rest ↦ rest ]
