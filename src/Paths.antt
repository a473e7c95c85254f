-- ===== src/Paths.antt =====
-- The lexical part of `std::filesystem::path`, for relative paths on POSIX: a path is the list of
-- its components, and one that ends in a separator has an empty last component.
pub mod Inside
pub mod Ancestors
pub mod RoundTrip
use makebelieve.Base.{
  ℕ, zero, suc, ◌+◌, ◌-◌, ◌*◌, ◌%◌, ◌^◌, ◌≤◌, ◌<◌, ◌≡◌, refl, sym, ap, subst, ◌∙◌, ◌≢◌, ◌↔◌, ◌⊎◌,
  inl, inr, Bool, true, false, not, ◌&&◌, ◌||◌, Option, none, some, List, [], ◌∷◌, ◌++◌, map,
  reverse, arith, ltb, leb, nat_eq, if◌then◌else◌, nat_eq_iff, ltb→lt, lt→ltb, Bool-cases,
  Option-cases, and_left, and_right, or_right, length, get_elem?, take, drop, find_if, any_of,
  all_of, keep, All, In, AllPairs, length-append, take-append, drop-append, All-append, All-keep,
  All-map, AllPairs-keep, AllPairs-concat, HasTest, ◌==◌, ℕ-HasTest, List-HasTest, list_eq, eq_iff,
  eq_self, eq_cases, Result, ok, err, ◌>>=◌, ◌>>◌, reject_if, ok_steps, reject_if-eq-ok,
}
use makebelieve.Base.OrdMap
use makebelieve.Text.{Bytes, is_empty, split_on, starts_with, contains}

abbrev pub FilePath : Type 0
FilePath = List Bytes

abbrev pub dot : Bytes
dot = b'.' ∷ []

abbrev pub dot_dot : Bytes
dot_dot = b'.' ∷ b'.' ∷ []

-- Runs of separators count as one, and a separator at the end leaves an empty component.
pub squeeze : List Bytes → FilePath
unfolding is_empty
squeeze [] = []
squeeze (w ∷ []) = w ∷ []
squeeze (w ∷ v ∷ ws) = let rest = squeeze (v ∷ ws) in if is_empty w then rest else w ∷ rest

-- The components of a text with no root.
unfoldable pub elements : Bytes → FilePath
unfolding squeeze split_on
elements [] = []
elements (c ∷ text) = squeeze (split_on b'/' (c ∷ text))

-- `generic_string()`.
unfoldable pub generic_string : FilePath → Bytes
generic_string [] = []
generic_string (w ∷ []) = w
generic_string (w ∷ v ∷ ws) = w ++ b'/' ∷ generic_string (v ∷ ws)

-- The components so far, innermost first, at a `..`: it takes the one before it away.
climb : FilePath → FilePath
climb [] = dot_dot ∷ []
climb (top ∷ up) = if top == dot_dot then dot_dot ∷ top ∷ up else up

finish : Bool → FilePath → FilePath
finish trailing [] = dot ∷ []
finish trailing (top ∷ up) =
    if trailing && not (top == dot_dot) then reverse (top ∷ up) ++ [] ∷ [] else reverse (top ∷ up)

-- `trailing` says that the last component read names the directory reached.
pub normal_from : Bool → FilePath → FilePath → FilePath
unfolding climb finish is_empty
normal_from trailing stack [] = finish trailing stack
normal_from trailing stack (w ∷ ws) =
    if is_empty w || w == dot
    then (let rest = normal_from true stack ws in rest)
    else normal_from (w == dot_dot) (if w == dot_dot then climb stack else w ∷ stack) ws

unfoldable pub lexically_normal : FilePath → FilePath
unfolding normal_from
lexically_normal [] = []
lexically_normal (w ∷ ws) = normal_from false [] (w ∷ ws)

unfoldable pub filename : FilePath → Bytes
filename [] = []
filename (w ∷ []) = w
filename (w ∷ v ∷ ws) = filename (v ∷ ws)

unfoldable pub parent_path : FilePath → FilePath
parent_path [] = []
parent_path (w ∷ []) = []
parent_path (w ∷ v ∷ ws) = w ∷ parent_path (v ∷ ws)

abbrev pub front : FilePath → Bytes
front [] = []
front (w ∷ ws) = w

-- The directories above a path, innermost first, without the empty path: the values of
-- `for (p = path.parent_path(); !p.empty(); p = p.parent_path())`.
unfoldable pub ancestors : FilePath → List FilePath
ancestors [] = []
ancestors (w ∷ []) = []
ancestors (w ∷ v ∷ ws) = map (◌∷◌ w) (ancestors (v ∷ ws)) ++ (w ∷ []) ∷ []

-- Whether `entry` is strictly beneath `directory`.
unfoldable pub is_within : FilePath → FilePath → Bool
unfolding is_empty
is_within entry [] = not (is_empty entry)
is_within [] (w ∷ directory) = false
is_within (v ∷ entry) (w ∷ directory) = v == w && is_within entry directory

-- The order of paths as `std::map` keys: by components, each by its bytes.
unfoldable pub bytes_before : Bytes → Bytes → Bool
bytes_before text [] = false
bytes_before [] (d ∷ other) = true
bytes_before (c ∷ text) (d ∷ other) = ltb c d || (c == d && bytes_before text other)

unfoldable pub path_before : FilePath → FilePath → Bool
unfolding bytes_before
path_before p [] = false
path_before [] (w ∷ q) = true
path_before (v ∷ p) (w ∷ q) = bytes_before v w || (v == w && path_before p q)

instance abbrev pub FilePath-Order : OrdMap.Order FilePath
FilePath-Order = record { before = path_before }

-- Such a path stays below the directory it is relative to, and is in normal form.
abbrev pub IsName : Bytes → Type 0
IsName w =
    (is_empty w ≡ false)
    × ((w == dot) ≡ false)
    × ((w == dot_dot) ≡ false)
    × (contains w b'/' ≡ false)

abbrev pub IsInside : FilePath → Type 0
IsInside p = (p ≢ []) × All IsName p

-- `to_inside_path` of manifest.cpp.
unfoldable pub to_inside_path : Bytes → Option FilePath
unfolding elements lexically_normal is_empty filename starts_with
to_inside_path text =
    let path = lexically_normal (elements text) in
    let file = filename path in
    if is_empty path
      || starts_with text (b'/' ∷ [])
      || is_empty file
      || file == dot
      || file == dot_dot
      || front path == dot_dot
    then none
    else some path
