-- ===== src/Utils.antt =====
-- pkg/utils/utils.go: the helpers on lists and on names.
pub mod Remove
pub mod Names
use Prim.Native.Char.{Char}
use Prim.Native.String.{len, slice, char_at}
use infrakube_multicluster.Prelude.{
  ℕ, ltb, trim_right, String, ◌≡◌, refl, Bool, true, false, ◌||◌, List, [], ◌∷◌, ◌++◌, arith, ◌==◌,
  eq_refl, if◌then◌else◌,
}

-- ListContainsStr: the loop returns at the first element that is equal.
unfoldable pub list_contains_str : List String → String → Bool
list_contains_str [] e = false
list_contains_str (a ∷ s) e = if a == e then true else list_contains_str s e

pub list_contains_str-append :
    (xs ys : List String) (e : String)
    → list_contains_str (xs ++ ys) e ≡ (list_contains_str xs e || list_contains_str ys e)
unfolding list_contains_str
list_contains_str-append [] ys e = refl
list_contains_str-append (x ∷ xs) ys e = ground (arith, list_contains_str-append xs ys e)

pub list_contains_str-middle :
    (pre post : List String) (c : String) → list_contains_str (pre ++ c ∷ post) c ≡ true
unfolding list_contains_str
list_contains_str-middle [] post c = ground (arith, eq_refl c)
list_contains_str-middle (x ∷ pre) post c = ground (arith, list_contains_str-middle pre post c)

-- Membership after one more element.
pub list_contains_str-snoc :
    (xs : List String) (a e : String)
    → list_contains_str (xs ++ a ∷ []) e ≡ (list_contains_str xs e || a == e)
unfolding list_contains_str
list_contains_str-snoc [] a e = ground arith
list_contains_str-snoc (x ∷ xs) a e = ground (arith, list_contains_str-snoc xs a e)

pub list_contains_str-append_self :
    (xs : List String) (e : String) → list_contains_str (xs ++ e ∷ []) e ≡ true
unfolding list_contains_str
list_contains_str-append_self [] e = ground (arith, eq_refl e)
list_contains_str-append_self (x ∷ xs) e = ground (arith, list_contains_str-append_self xs e)

abbrev pub hyphen : Char
hyphen = char_at "-" 0

abbrev pub dot : Char
dot = char_at "." 0

-- TruncateResourceName; a length counts bytes.
unfoldable pub truncate_resource_name : String → ℕ → String
truncate_resource_name s i =
    if ltb i (len s) then trim_right dot (trim_right hyphen (slice s 0 i)) else s

-- AutoHashLabeler, over the hex digits of an MD5 sum.
unfoldable pub auto_hash_labeler : (String → String) → String → String
auto_hash_labeler md5_hex s = if ltb 63 (len s) then md5_hex s else s
