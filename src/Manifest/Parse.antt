-- ===== src/Manifest/Parse.antt =====
-- `Manifest::parse`: the loop over the lines, and the checks of the whole manifest after it.
use makebelieve.Base.{
  ℕ, zero, suc, Bool, false, ◌||◌, none, some, List, [], ◌∷◌, ◌++◌, map, leb, if◌then◌else◌, length,
  any_of, ◌==◌, ℕ-HasTest, List-HasTest, Result, ok, err, ◌>>=◌, ◌>>◌,
}
use makebelieve.Base.OrdMap
use makebelieve.Text.{Bytes, is_empty, split_on}
use makebelieve.Paths.{FilePath, FilePath-Order}
use makebelieve.Manifest.Words.{trim}
use makebelieve.Manifest.Line.{Declared, read_line}
use makebelieve.Manifest.Declare.{Progress, CopyOfOutput, check_declared, declare, reject}
use makebelieve.Manifest.Feeds.{direct_feeds, close}
use makebelieve.Manifest.Feeds.Matrix.{Table, at}
use makebelieve.Manifest.{Manifest, Rule, Error, Reason, copies_undeclared, feeds_itself}

unfoldable pub initial : Progress
initial = record {
  rules = [];
  errors = [];
  files = [];
  directories = [];
  banned_suffixes = [];
  copies = [];
  lines = [];
}

unfoldable pub accept_line : Progress → Bytes → Result Reason Declared
unfolding read_line check_declared
accept_line st line = do d ← read_line line; check_declared st d; ok d

unfoldable pub is_comment : Bytes → Bool
is_comment [] = false
is_comment (c ∷ line) = c == b'#'

-- One round of the loop; `line` is trimmed.
unfoldable pub step : Progress → ℕ → Bytes → Progress
unfolding is_empty is_comment accept_line declare reject
step st number line =
    if is_empty line || is_comment line
    then st
    else elim (accept_line st line) [ ok d ↦ declare st number d | err why ↦ reject st number why ]

-- The loop over the lines, numbered from 1.
unfoldable pub run_lines : Progress → ℕ → List Bytes → Progress
unfolding step trim
run_lines st number [] = st
run_lines st number (line ∷ rest) = run_lines (step st number (trim line)) (suc number) rest

unfoldable pub read_all : Bytes → Progress
unfolding run_lines initial split_on
read_all text = run_lines initial 1 (split_on b'\n' text)

-- The copies of outputs that no line declares: their errors, and their rules.
unfoldable pub undeclared : List (FilePath × ℕ) → List CopyOfOutput → List CopyOfOutput
unfolding OrdMap.find
undeclared files [] = []
undeclared files (c ∷ copies) =
    let rest = undeclared files copies in
    elim (OrdMap.find c.source files) [ none ↦ c ∷ rest | some n ↦ rest ]

-- The rules that feed themselves, by index, from `i` on.
unfoldable pub feeding : Table → ℕ → List Rule → List ℕ
unfolding at
feeding feeds i [] = []
feeding feeds i (r ∷ rules) =
    let rest = feeding feeds (suc i) rules in if at feeds i i then i ∷ rest else rest

abbrev line_at : List ℕ → ℕ → ℕ
line_at [] i = 0
line_at (n ∷ lines) zero = n
line_at (n ∷ lines) (suc i) = line_at lines i

unfoldable pub feeding_errors : Table → List ℕ → ℕ → List Rule → List Error
unfolding at
feeding_errors feeds lines i [] = []
feeding_errors feeds lines i (r ∷ rules) =
    let rest = feeding_errors feeds lines (suc i) rules in
    if at feeds i i
    then (record { line = line_at lines i; message = feeds_itself r.output }) ∷ rest
    else rest

abbrev pub copy_error : CopyOfOutput → Error
copy_error c = record { line = c.line; message = copies_undeclared c.left c.source }

-- The rules left once those of the set `dropped` are erased. The source erases the last first,
-- so that earlier indices still hold; here the index counts on over what is erased.
unfoldable pub erase_dropped : (ℕ → Bool) → ℕ → List Rule → List Rule
erase_dropped dropped i [] = []
erase_dropped dropped i (r ∷ rules) =
    let rest = erase_dropped dropped (suc i) rules in if dropped i then rest else r ∷ rest

unfoldable pub insert_error : Error → List Error → List Error
insert_error e [] = e ∷ []
insert_error e (f ∷ errors) =
    if leb e.line f.line then e ∷ f ∷ errors else f ∷ insert_error e errors

-- `std::ranges::stable_sort` by line.
unfoldable pub stable_sort : List Error → List Error
unfolding insert_error
stable_sort [] = []
stable_sort (e ∷ errors) = insert_error e (stable_sort errors)

unfoldable pub dropped_rules : Progress → List ℕ
unfolding undeclared feeding direct_feeds close
dropped_rules st =
    map (λ c. c.rule) (undeclared st.files st.copies)
    ++ feeding (close (length st.rules) (direct_feeds st.rules)) 0 st.rules

unfoldable pub late_errors : Progress → List Error
unfolding undeclared feeding_errors direct_feeds close
late_errors st =
    map copy_error (undeclared st.files st.copies)
    ++ feeding_errors (close (length st.rules) (direct_feeds st.rules)) st.lines 0 st.rules

-- What happens once every line is read.
unfoldable pub finish : Progress → Manifest
unfolding dropped_rules late_errors erase_dropped stable_sort is_empty
finish st =
    let dropped = dropped_rules st in
    record {
      rules = erase_dropped (λ i. any_of (λ j. j == i) dropped) 0 st.rules;
      errors =
          if is_empty dropped
          then st.errors ++ late_errors st
          else stable_sort (st.errors ++ late_errors st);
    }

unfoldable pub parse : Bytes → Manifest
unfolding read_all finish
parse text = finish (read_all text)
