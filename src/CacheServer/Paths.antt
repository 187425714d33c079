-- ===== src/CacheServer/Paths.antt =====
-- What pkg/controllers/cache_server.go uses of Go's path/filepath.
use infrakube_multicluster.Prelude.{
  String, Bool, true, false, not, ◌&&◌, ◌||◌, List, [], ◌∷◌, ◌==◌, ◌⧺◌, split, join, has_prefix,
  if◌then◌else◌,
}

-- A step up; the elements stand in reverse, and a rooted path has none above its root.
unfoldable pub step_up : (rooted : Bool) → List String → List String
step_up true [] = []
step_up false [] = ".." ∷ []
step_up rooted (last ∷ elements) =
    if not rooted && last == ".." then ".." ∷ last ∷ elements else elements

unfoldable pub resolve : (rooted : Bool) (elements pieces : List String) → List String
resolve rooted elements [] = elements
resolve rooted elements (piece ∷ pieces) =
    resolve rooted
      (if piece == "" || piece == "."
        then elements
        else if piece == ".."
        then step_up rooted elements
        else piece ∷ elements)
      pieces

abbrev reversed_onto : List String → List String → List String
reversed_onto [] done = done
reversed_onto (x ∷ xs) done = reversed_onto xs (x ∷ done)

-- filepath.Clean
unfoldable pub clean : String → String
clean path =
    let rooted = has_prefix path "/" in
    let text = join (reversed_onto (resolve rooted [] (split path "/")) []) "/" in
    if rooted then "/" ⧺ text else if text == "" then "." else text

unfoldable pub non_empty : List String → List String
non_empty [] = []
non_empty (s ∷ ss) = let rest = non_empty ss in if s == "" then rest else s ∷ rest

-- filepath.Join
unfoldable pub join_path : List String → String
join_path elements = elim (non_empty elements) [ [] ↦ "" | s ∷ ss ↦ clean (join (s ∷ ss) "/") ]

abbrev but_last : List String → List String
but_last [] = []
but_last (s ∷ []) = []
but_last (s ∷ t ∷ ss) = s ∷ but_last (t ∷ ss)

-- filepath.Dir
unfoldable pub dir_of : String → String
dir_of path = elim (but_last (split path "/")) [
  | [] ↦ "."
  | s ∷ ss ↦ clean (join (s ∷ ss) "/" ⧺ "/")
]
