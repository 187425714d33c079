-- ===== src/Utils/Remove.antt =====
-- pkg/utils/utils.go: ListRemoveStr, which cuts the list while it ranges over it. The range keeps to
-- the array as it was when the loop began, and each cut shifts the elements of that array in place.
use infrakube_multicluster.Prelude.{
  take_all, take-append, length-drop_cons, ℕ, zero, suc, ◌+◌, ◌-◌, String, ◌≡◌, refl, ap, ◌∙◌, sym,
  true, false, List, [], ◌∷◌, ◌++◌, arith, ◌==◌, eq_refl, length, take, drop, ltb, append_assoc,
  append-nil, length-append,
}
use infrakube_multicluster.Exec.{Go, returns, panics}
use infrakube_multicluster.Utils.{list_contains_str, list_contains_str-append}

-- append(list[:i], list[i+1:]...) from the place i on, where `v ∷ more` is the array from there and
-- `kept` elements of the list stand behind `v`: they move one place, and the array's end stays.
shift : ℕ → String → List String → List String
shift kept v more = take kept more ++ drop kept (v ∷ more)

-- The rounds left, with the array before and from the place, and the length of the list. Slicing
-- list[i+1:] panics where the list is shorter than i + 1.
remove_loop : ℕ → String → List String → List String → ℕ → Go (List String)
unfolding shift
remove_loop zero s pre rest len = returns (take len (pre ++ rest))
remove_loop (suc k) s pre [] len = returns (take len pre)
remove_loop (suc k) s pre (v ∷ more) len = elim (v == s) [
  | false ↦ remove_loop k s (pre ++ v ∷ []) more len
  | true ↦
      let rest = shift (len - (length pre + 1)) v more in
      elim (ltb len (length pre + 1)) [
        | true ↦ panics
        | false ↦ remove_loop k s (pre ++ take 1 rest) (drop 1 rest) (len - 1)
      ]
]

unfoldable pub list_remove_str : List String → String → Go (List String)
unfolding remove_loop
list_remove_str list s = remove_loop (length list) s [] list (length list)

take_of_length : (n : ℕ) (xs ys : List String) → n ≡ length xs → take n (xs ++ ys) ≡ xs
take_of_length n xs ys e = rw e (take-append xs ys)

contains-drop :
    (n : ℕ) (xs : List String) (s : String)
    → list_contains_str xs s ≡ false
    → list_contains_str (drop n xs) s ≡ false
unfolding list_contains_str
contains-drop zero xs s h = h
contains-drop (suc n) [] s h = refl
contains-drop (suc n) (x ∷ xs) s h = contains-drop n xs s (ground arith)

-- Where the text does not stand in the rest of the array, the loop changes nothing.
remove_loop-none :
    (k : ℕ) (s : String) (pre rest : List String) (len : ℕ)
    → k ≡ length rest
    → list_contains_str rest s ≡ false
    → remove_loop k s pre rest len ≡ returns (take len (pre ++ rest))
unfolding remove_loop list_contains_str
remove_loop-none zero s pre rest len e h = refl
remove_loop-none (suc k) s pre [] len e h = absurd (omega arith)
remove_loop-none (suc k) s pre (v ∷ more) len e h =
    ground (arith, remove_loop-none k s (pre ++ v ∷ []) more len, append_assoc pre (v ∷ []) more)

-- One cut.
remove_loop-step :
    (k : ℕ) (s : String) (pre more : List String) (len kept : ℕ)
    → len ≡ length pre + kept + 1
    → remove_loop (suc k) s pre (s ∷ more) len
      ≡ remove_loop k s (pre ++ take 1 (shift kept s more)) (drop 1 (shift kept s more)) (len - 1)
unfolding remove_loop
remove_loop-step k s pre more len kept e =
    let kept_eq : len - (length pre + 1) ≡ kept = omega arith in ground (arith, eq_refl s, kept_eq)

-- A cut that moves the text `p` to the place, with none of the rest left to cut.
remove_loop-cut_cons :
    (s : String) (pre : List String) (p : String) (ps : List String) (len : ℕ)
    → len ≡ length pre + length (p ∷ ps) + 1
    → list_contains_str ps s ≡ false
    → list_contains_str (drop (length ps) (p ∷ ps)) s ≡ false
    → remove_loop (suc (length (p ∷ ps))) s pre (s ∷ p ∷ ps) len ≡ returns (pre ++ p ∷ ps)
unfolding shift
remove_loop-cut_cons s pre p ps len e h last =
    let end = drop (length ps) (p ∷ ps) in
    let moved : take (length ps) ps ++ end ≡ ps ++ end = ap (λ l. l ++ end) (take_all ps) in
    let absent : list_contains_str (take (length ps) ps ++ end) s ≡ false =
      ground (arith, moved, last, h, list_contains_str-append ps end s) in
    remove_loop-step (suc (length ps)) s pre (p ∷ ps) len (suc (length ps)) e
    ∙ remove_loop-none (suc (length ps)) s (pre ++ p ∷ []) (take (length ps) ps ++ end) (len - 1)
        (omega (
          arith,
          length-append (take (length ps) ps) end,
          ap length (take_all ps),
          length-drop_cons p ps,
        ))
        absent
    ∙ ap returns (
        ap (λ l. take (len - 1) ((pre ++ p ∷ []) ++ l)) moved
        ∙ ap (take (len - 1))
            (append_assoc pre (p ∷ []) (ps ++ end) ∙ sym (append_assoc pre (p ∷ ps) end))
        ∙ take_of_length (len - 1) (pre ++ p ∷ ps) end (omega (arith, length-append pre (p ∷ ps))))

-- The cut at the only place of the text, and the rounds after it.
remove_loop-cut :
    (s : String) (pre post : List String) (len : ℕ)
    → len ≡ length pre + length post + 1
    → list_contains_str post s ≡ false
    → remove_loop (suc (length post)) s pre (s ∷ post) len ≡ returns (pre ++ post)
unfolding shift list_contains_str
remove_loop-cut s pre [] len e h =
    remove_loop-step 0 s pre [] len 0 e
    ∙ remove_loop-none 0 s (pre ++ s ∷ []) [] (len - 1) refl h
    ∙ ap returns (
        ap (take (len - 1)) (append_assoc pre (s ∷ []) [])
        ∙ take_of_length (len - 1) pre (s ∷ []) (omega arith)
        ∙ sym (append-nil pre))
remove_loop-cut s pre (p ∷ ps) len e h =
    remove_loop-cut_cons s pre p ps len e (ground arith) (contains-drop (length ps) (p ∷ ps) s h)

-- The rounds before the only place of the text, and the cut.
remove_loop-once :
    (s : String) (pre mid post : List String) (len : ℕ)
    → len ≡ length pre + length mid + length post + 1
    → list_contains_str mid s ≡ false
    → list_contains_str post s ≡ false
    → remove_loop (length (mid ++ s ∷ post)) s pre (mid ++ s ∷ post) len
      ≡ returns (pre ++ (mid ++ post))
unfolding remove_loop list_contains_str
remove_loop-once s pre [] post len e h k = remove_loop-cut s pre post len (omega arith) k
remove_loop-once s pre (v ∷ mid) post len e h k = ground (
  arith,
  remove_loop-once s (pre ++ v ∷ []) mid post len (omega (arith, length-append pre (v ∷ []))),
  append_assoc pre (v ∷ []) (mid ++ post),
)

-- A text that stands once in a list is removed and the rest keeps its order, and a text that does
-- not stand in it leaves the list as it is.
pub list_remove_str_lem :
    (s : String) (pre post : List String)
    → list_contains_str pre s ≡ false
    → list_contains_str post s ≡ false
    → (list_remove_str (pre ++ s ∷ post) s ≡ returns (pre ++ post))
      × (list_remove_str post s ≡ returns post)
unfolding list_remove_str
list_remove_str_lem s pre post h k = (
  remove_loop-once s [] pre post (length (pre ++ s ∷ post))
      (omega (arith, length-append pre (s ∷ post))) h k,
  remove_loop-none (length post) s [] post (length post) refl k ∙ ap returns (take_all post),
)

-- The rounds before the first place of the text.
remove_loop-skip :
    (s : String) (pre mid rest : List String) (len : ℕ)
    → list_contains_str mid s ≡ false
    → remove_loop (length (mid ++ rest)) s pre (mid ++ rest) len
      ≡ remove_loop (length rest) s (pre ++ mid) rest len
unfolding remove_loop list_contains_str
remove_loop-skip s pre [] rest len h =
    ap (λ l. remove_loop (length rest) s l rest len) (sym (append-nil pre))
remove_loop-skip s pre (v ∷ mid) rest len h =
    ground (arith, remove_loop-skip s (pre ++ v ∷ []) mid rest len, append_assoc pre (v ∷ []) mid)

-- The second of two copies at the end is met at a place behind the end of the list.
remove_loop-pair :
    (s : String) (pre : List String) (len : ℕ)
    → len ≡ length pre + 2
    → remove_loop 2 s pre (s ∷ s ∷ []) len ≡ panics
unfolding remove_loop shift
remove_loop-pair s pre len e =
    remove_loop-step 1 s pre (s ∷ []) len 1 (omega arith)
    ∙ ground (arith, eq_refl s, length-append pre (s ∷ []))

-- Two copies of a text that stand side by side, in a list that has no other: where they end the list,
-- ListRemoveStr panics, and where something follows them it takes off only one of them.
pub repeated_remove :
    (s t : String) (pre post : List String)
    → list_contains_str pre s ≡ false
    → list_contains_str (t ∷ post) s ≡ false
    → (list_remove_str (pre ++ s ∷ s ∷ []) s ≡ panics)
      × (list_remove_str (pre ++ s ∷ s ∷ t ∷ post) s ≡ returns (pre ++ s ∷ t ∷ post))
unfolding list_remove_str
repeated_remove s t pre post h k = (
  remove_loop-skip s [] pre (s ∷ s ∷ []) (length (pre ++ s ∷ s ∷ [])) h
      ∙ remove_loop-pair s pre _ (omega (arith, length-append pre (s ∷ s ∷ []))),
  remove_loop-skip s [] pre (s ∷ s ∷ t ∷ post) (length (pre ++ s ∷ s ∷ t ∷ post)) h
      ∙ remove_loop-cut_cons s pre s (t ∷ post) _
          (omega (arith, length-append pre (s ∷ s ∷ t ∷ post))) k
          (contains-drop (length post) (t ∷ post) s k),
)
