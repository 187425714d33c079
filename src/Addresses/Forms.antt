-- ===== src/Addresses/Forms.antt =====
-- pkg/controllers/tf_controller.go: texts that are taken apart and put together again.
use Prim.Native.Char.{Char, code}
use Prim.Native.String
use infrakube_multicluster.Prelude.{
  ℕ, String, Bool, true, false, not, ◌&&◌, Option, none, some, ◌==◌, ◌≡◌, ◌≢◌, inl, inr, refl, ap,
  sym, ◌∙◌, arith, ◌⧺◌, if◌then◌else◌, Bool-cases, ne→text_neq, Option-cases, eq_refl,
}
use text.Mathlib.TextEquality.{Char-path}
use text.Mathlib.TextLemmas.{nil-append, cons-append}
use infrakube_multicluster.Addresses.Patterns.{
  is_alnum, span, is_line, after_char, after_colons, forced_match, forced_regexp, or_unforced,
  get_forced_getter,
}

-- Whether every character passes a test.
abbrev pub all_chars : (Char → Bool) → String → Bool
all_chars p String.[] = true
all_chars p (String.◌∷◌ c s) = p c && all_chars p s

-- The span of a part whose characters pass, before a character that does not.
span-append :
    (p : Char → Bool) (s t : String) (c : Char)
    → all_chars p s ≡ true
    → p c ≡ false
    → span p (s ⧺ String.◌∷◌ c t) ≡ (s, String.◌∷◌ c t)
unfolding span
span-append p String.[] t c h k = ground (arith, nil-append (String.◌∷◌ c t))
span-append p (String.◌∷◌ d s) t c h k =
    ground (arith, cons-append d s (String.◌∷◌ c t), span-append p s t c)

-- A span is a part of the text, with the rest behind it.
span-concat : (p : Char → Bool) (s : String) → s ≡ (span p s).0 ⧺ (span p s).1
unfolding span
span-concat p String.[] = sym (nil-append String.[])
span-concat p (String.◌∷◌ c s) =
    ground
      (arith, span-concat p s, cons-append c (span p s).0 (span p s).1, nil-append (String.◌∷◌ c s))

abbrev colon : Char
colon = String.char_at ":" 0

colons_cons : (t : String) → "::" ⧺ t ≡ String.◌∷◌ colon (String.◌∷◌ colon t)
colons_cons t =
    cons-append colon ":" t
    ∙ ap (String.◌∷◌ colon) (cons-append colon "" t ∙ ap (String.◌∷◌ colon) (nil-append t))

-- A forced getter before its source, as `getForcedGetter` reads it.
abbrev pub joined_getter : String × String → String
joined_getter (forced, src) = if forced == "" then src else forced ⧺ "::" ⧺ src

after_char_lem :
    (n : ℕ) (s t : String)
    → after_char n s ≡ some t
    → (c : Char) × (s ≡ String.◌∷◌ c t) × (code c ≡ n)
unfolding after_char
after_char_lem n String.[] t e = ground arith
after_char_lem n (String.◌∷◌ c s) t e = (c, ground arith, ground arith)

after_colons_lem : (s t : String) → after_colons s ≡ some t → s ≡ "::" ⧺ t
unfolding after_colons
after_colons_lem s t e = elim (Option-cases (after_char b':' s)) [
  | inl h ↦ ground arith
  | inr (u, h) ↦
      let (c, p, q) = after_char_lem b':' s u h in
      let (d, p', q') = after_char_lem b':' u t (ground arith) in
      ground (arith, colons_cons t, Char-path c colon q, Char-path d colon q')
]

joined-matched :
    (s forced : String) (source : Option String)
    → ((t : String) → source ≡ some t → s ≡ forced ⧺ "::" ⧺ t)
    → joined_getter (or_unforced s (forced_match forced source)) ≡ s
joined-matched s forced none h = ground arith
joined-matched s forced (some t) h =
    let joined : s ≡ forced ⧺ "::" ⧺ t = h t refl in
    elim (Bool-cases (not (forced == "") && is_line t)) [
      | inl p ↦ rw p (ground arith)
      | inr p ↦ rw p (ground (arith, eq_refl ""))
    ]

joined-get_forced_getter : (s : String) → joined_getter (get_forced_getter s) ≡ s
unfolding get_forced_getter forced_regexp
joined-get_forced_getter s =
    joined-matched s (span is_alnum s).0 (after_colons (span is_alnum s).1) (λ t e.
      span-concat is_alnum s
      ∙ ap (λ u. (span is_alnum s).0 ⧺ u) (after_colons_lem (span is_alnum s).1 t e))

-- A forced getter of letters and digits and a source of one line are read from the text that joins
-- them by two colons, and what is read from any text gives that text again when it is joined.
pub get_forced_getter_roundtrip :
    (forced src s : String)
    → forced ≢ ""
    → all_chars is_alnum forced ≡ true
    → is_line src ≡ true
    → (get_forced_getter (joined_getter (forced, src)) ≡ (forced, src))
      × (joined_getter (get_forced_getter s) ≡ s)
unfolding get_forced_getter forced_regexp after_colons after_char
get_forced_getter_roundtrip forced src s h k l = (
  ground (
    arith,
    colons_cons src,
    span-append is_alnum forced (String.◌∷◌ colon src) colon,
    ne→text_neq forced "" h,
  ),
  joined-get_forced_getter s,
)
