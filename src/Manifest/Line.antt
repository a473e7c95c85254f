-- ===== src/Manifest/Line.antt =====
-- The part of `Manifest::parse` that reads one line by itself: from the line to what it declares.
pub mod Shape
use makebelieve.Base.{
  ℕ, zero, suc, ◌+◌, ◌-◌, ◌*◌, ◌%◌, ◌^◌, ◌≤◌, ◌<◌, ◌≡◌, refl, sym, ap, subst, ◌∙◌, ◌≢◌, ◌↔◌, ◌⊎◌,
  inl, inr, Bool, true, false, not, ◌&&◌, ◌||◌, Option, none, some, List, [], ◌∷◌, ◌++◌, map,
  reverse, arith, ltb, leb, nat_eq, if◌then◌else◌, nat_eq_iff, ltb→lt, lt→ltb, Bool-cases,
  Option-cases, and_left, and_right, or_right, length, get_elem?, take, drop, find_if, any_of,
  all_of, keep, All, In, AllPairs, length-append, take-append, drop-append, All-append, All-keep,
  All-map, AllPairs-keep, AllPairs-concat, HasTest, ◌==◌, ℕ-HasTest, List-HasTest, list_eq, eq_iff,
  eq_self, eq_cases, Result, ok, err, ◌>>=◌, ◌>>◌, reject_if, ok_steps, reject_if-eq-ok,
}
use makebelieve.Text.{Bytes, codes, contains, is_empty, starts_with, before, after?}
use makebelieve.Paths.{FilePath, generic_string, to_inside_path}
use makebelieve.Manifest.Words.{trim, first_word, to_action, first_wildcard_word}
use makebelieve.Manifest.Pattern.{is_wildcard_pattern}
use makebelieve.Manifest.{
  Action, tracing, copy, run, capture, Reason, expected_assignment, outside_outputs, not_an_action,
  tracing_argument, no_argument, tracing_wildcard, no_sources, bad_sources, bad_copy, copies_itself,
  bad_output, bad_wildcard, is_copy, is_tracing,
}

-- The two sides of the `=`, and the action with its argument.
pub record Assignment : Type 0 where
  pub left : Bytes
  pub action : Action
  pub argument : Bytes

-- What a line declares, before it is held against the other lines.
pub record Declared : Type 0 where
  pub left : Bytes
  pub output : FilePath
  pub action : Action
  pub command : Bytes
  pub wildcard : Bool
  pub wildcard_source : FilePath
  pub over_outputs : Bool
  pub copied_output : Option FilePath

pub check_argument : Bytes → Action → Bytes → Result Reason (Unit {0})
unfolding is_empty
check_argument left tracing argument =
    reject_if (not (is_empty argument)) (tracing_argument left argument)
check_argument left action argument = reject_if (is_empty argument) (no_argument left action)

read_value : Bytes → Bytes → Result Reason Assignment
unfolding first_word to_action trim check_argument
read_value left value = elim (to_action (first_word value)) [
  | none ↦ err (not_an_action left)
  | some action ↦
      let argument = trim (drop (length (first_word value)) value) in
      check_argument left action argument
      >> ok (record { left = left; action = action; argument = argument })
]

read_sides : Bytes → Bytes → Result Reason Assignment
unfolding starts_with read_value
read_sides left value = do
  reject_if (not (starts_with left (codes "@/"))) (outside_outputs left)
  read_value left value

unfoldable pub read_assignment : Bytes → Result Reason Assignment
unfolding before after? trim read_sides
read_assignment line = elim (after? b'=' line) [
  | none ↦ err expected_assignment
  | some right ↦ read_sides (trim (before b'=' line)) (trim right)
]

-- A path as written, under `@/` or in the manifest's directory.
place : Bool → Bytes → Option FilePath
unfolding to_inside_path
place under_outputs text = to_inside_path (if under_outputs then drop 2 text else text)

quoted : Bytes → Bool
unfolding contains
quoted text = contains text 34 || contains text 39

keep_pattern : Bytes → Bytes → Bool → Option FilePath → Result Reason (FilePath × Bool)
unfolding is_wildcard_pattern
keep_pattern left pattern over none = err (bad_sources left pattern over)
keep_pattern left pattern over (some source) =
    if is_wildcard_pattern source then ok (source, over) else err (bad_sources left pattern over)

-- Where a wildcard's sources are: their pattern, and whether it is over outputs.
unfoldable pub read_sources : Assignment → Result Reason (FilePath × Bool)
unfolding is_tracing is_copy first_wildcard_word is_empty starts_with keep_pattern place quoted
read_sources a =
    let pattern = if is_copy a.action then a.argument else first_wildcard_word a.argument in
    let over = starts_with pattern (codes "@/") in
    do
      reject_if (is_tracing a.action) (tracing_wildcard a.left)
      reject_if (is_empty pattern) (no_sources a.left)
      keep_pattern a.left pattern over (if quoted pattern then none else place over pattern)

is_output : FilePath → Option FilePath → Bool
is_output source none = false
is_output source (some output) = source == output

copy_from :
    Assignment → Bool → Option FilePath → Option FilePath → Result Reason (Bytes × Option FilePath)
unfolding generic_string is_output
copy_from a generated output none = err (bad_copy a.left a.argument generated)
copy_from a true output (some source) =
    if is_output source output
    then err (copies_itself a.left)
    else ok (codes "@/" ++ generic_string source, some source)
copy_from a false output (some source) = ok (generic_string source, none)

-- The command of a rule with no wildcard, and the output that it copies.
unfoldable pub read_command : Assignment → Option FilePath → Result Reason (Bytes × Option FilePath)
unfolding is_copy starts_with copy_from place
read_command a output =
    let generated = starts_with a.argument (codes "@/") in
    if is_copy a.action
    then copy_from a generated output (place generated a.argument)
    else ok (a.argument, none)

need_output : Bytes → Option FilePath → Result Reason FilePath
need_output left none = err (bad_output left)
need_output left (some output) = ok output

read_wildcard : Assignment → Option FilePath → Result Reason Declared
unfolding read_sources generic_string is_wildcard_pattern is_copy need_output
read_wildcard a at = do
  (source, over) ← read_sources a
  output ← need_output a.left at
  reject_if (not (is_wildcard_pattern output)) (bad_wildcard a.left)
  ok (record {
    left = a.left;
    output = output;
    action = a.action;
    command =
        if is_copy a.action
        then (if over then codes "@/" else []) ++ generic_string source
        else a.argument;
    wildcard = true;
    wildcard_source = source;
    over_outputs = over;
    copied_output = none;
  })

read_simple : Assignment → Option FilePath → Result Reason Declared
unfolding read_command need_output
read_simple a at = do
  (command, copied) ← read_command a at
  output ← need_output a.left at
  ok (record {
    left = a.left;
    output = output;
    action = a.action;
    command = command;
    wildcard = false;
    wildcard_source = [];
    over_outputs = false;
    copied_output = copied;
  })

-- A line that is neither blank nor a comment, up to the checks against earlier lines.
unfoldable pub read_line : Bytes → Result Reason Declared
unfolding read_assignment contains read_wildcard read_simple to_inside_path
read_line line = do
  a ← read_assignment line
  let at = to_inside_path (drop 2 a.left)
  if contains a.left b'*' then read_wildcard a at else read_simple a at
