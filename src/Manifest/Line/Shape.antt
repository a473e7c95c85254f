-- ===== src/Manifest/Line/Shape.antt =====
-- What every line that is read declares: an output inside, and a source pattern exactly for a
-- wildcard.
use makebelieve.Base.{
  ◌≡◌, refl, subst, ◌≢◌, inl, inr, Bool, true, false, not, Option, none, some, [], arith,
  if◌then◌else◌, Bool-cases, drop, ◌==◌, ℕ-HasTest, List-HasTest, eq_self, ok, reject_if, ok_steps,
  after_check, ok-injective, ne_test,
}
use makebelieve.Text.{Bytes, contains, codes, starts_with, is_empty}
use makebelieve.Manifest.Words.{first_wildcard_word}
use makebelieve.Paths.{FilePath, IsInside, to_inside_path}
use makebelieve.Paths.Inside.{to_inside_path-IsInside}
use makebelieve.Manifest.Line.{
  Assignment, Declared, read_assignment, keep_pattern, read_sources, place, need_output,
  read_wildcard, read_simple, read_command, read_line, quoted,
}
use makebelieve.Manifest.{is_copy, is_tracing, tracing_wildcard, no_sources}

abbrev pub IsShaped : Declared → Type 0
IsShaped d = IsInside d.output × ((d.wildcard_source == []) ≡ not d.wildcard)

need_output-eq :
    (left : Bytes) (at : Option FilePath) {o : FilePath} → need_output left at ≡ ok o → at ≡ some o
unfolding need_output
need_output-eq left none h = cc
need_output-eq left (some p) h = ground arith

source_of_place :
    (left pattern : Bytes) (over : Bool) (at : Option FilePath) {p : FilePath × Bool}
    → ((q : FilePath) → at ≡ some q → q ≢ [])
    → keep_pattern left pattern over at ≡ ok p
    → p.0 ≢ []
unfolding keep_pattern
source_of_place left pattern over none f h = cc
source_of_place left pattern over (some q) {p} f h =
    let e : p.0 ≡ q = ground arith in rw e (f q refl)

place_inside :
    (quote over : Bool) (text : Bytes) (q : FilePath)
    → (if quote then none else place over text) ≡ some q
    → q ≢ []
unfolding place
place_inside true over text q h = cc
place_inside false over text q h =
    (to_inside_path-IsInside (if over then drop 2 text else text) h).0

read_sources-ne-nil : (a : Assignment) {p : FilePath × Bool} → read_sources a ≡ ok p → p.0 ≢ []
unfolding read_sources
read_sources-ne-nil a h =
    let pattern = if is_copy a.action then a.argument else first_wildcard_word a.argument in
    let over = starts_with pattern (codes "@/") in
    let (_, _, h1) = ok_steps (reject_if (is_tracing a.action) (tracing_wildcard a.left)) _ h in
    let (_, _, h2) = ok_steps (reject_if (is_empty pattern) (no_sources a.left)) _ h1 in
    source_of_place a.left pattern over _ (place_inside (quoted pattern) over pattern) h2

read_wildcard-IsShaped :
    (a : Assignment) (at : Option FilePath) {d : Declared}
    → ((o : FilePath) → at ≡ some o → IsInside o)
    → read_wildcard a at ≡ ok d
    → IsShaped d
unfolding read_wildcard
read_wildcard-IsShaped a at {d} f h =
    let (p, e, h1) = ok_steps (read_sources a) _ h in
    let (o, e2, h2) = ok_steps (need_output a.left at) _ h1 in
    subst IsShaped (ok-injective (after_check _ _ _ h2))
      (f o (need_output-eq a.left at e2), ne_test p.0 [] (read_sources-ne-nil a e))

read_simple-IsShaped :
    (a : Assignment) (at : Option FilePath) {d : Declared}
    → ((o : FilePath) → at ≡ some o → IsInside o)
    → read_simple a at ≡ ok d
    → IsShaped d
unfolding read_simple
read_simple-IsShaped a at {d} f h =
    let (p, e, h1) = ok_steps (read_command a at) _ h in
    let (o, e2, h2) = ok_steps (need_output a.left at) _ h1 in
    subst IsShaped (ok-injective h2) (f o (need_output-eq a.left at e2), eq_self {A = FilePath} [])

-- A line that is read declares an output inside the output directory, and has a source pattern
-- exactly when it is a wildcard.
pub read_line-IsShaped : (line : Bytes) {d : Declared} → read_line line ≡ ok d → IsShaped d
unfolding read_line
read_line-IsShaped line {d} h = let (a, e, h1) = ok_steps (read_assignment line) _ h in go a h1
  where
    go :
        (a : Assignment)
        → (if contains a.left b'*'
            then read_wildcard a (to_inside_path (drop 2 a.left))
            else read_simple a (to_inside_path (drop 2 a.left)))
          ≡ ok d
        → IsShaped d
    go a k = elim (Bool-cases (contains a.left b'*')) [
      | inl w ↦
          read_wildcard-IsShaped a _ (λ o. to_inside_path-IsInside (drop 2 a.left)) (rw w at k)
      | inr w ↦ read_simple-IsShaped a _ (λ o. to_inside_path-IsInside (drop 2 a.left)) (rw w at k)
    ]
