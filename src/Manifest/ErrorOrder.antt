-- ===== src/Manifest/ErrorOrder.antt =====
-- The errors of a manifest come in the order of their lines.
use makebelieve.Base.{
  ℕ, suc, ◌≤◌, ◌<◌, ◌≡◌, refl, inl, inr, true, ◌||◌, List, [], ◌∷◌, ◌++◌, map, arith, leb,
  Bool-cases, length, All, AllPairs, All-append, All-map, AllPairs-concat, ℕ-HasTest, List-HasTest,
  Result, ok, err,
}
use makebelieve.Text.{Bytes, is_empty, split_on}
use makebelieve.Manifest.Words.{trim}
use makebelieve.Manifest.Line.{Declared}
use makebelieve.Manifest.Declare.{Progress, CopyOfOutput, declare, reject}
use makebelieve.Manifest.Feeds.{direct_feeds, close}
use makebelieve.Manifest.Feeds.Matrix.{Table}
use makebelieve.Manifest.Parse.{
  accept_line, is_comment, step, run_lines, read_all, initial, stable_sort, insert_error, finish,
  dropped_rules, late_errors, undeclared, copy_error, feeding, feeding_errors, parse,
}
use makebelieve.Manifest.{Error, Reason, Rule}
use mathlib.Core.List.{append-nil}

abbrev pub InOrder : List Error → Type 0
InOrder = AllPairs (λ e f. e.line ≤ f.line)

insert_error-All :
    (n : ℕ) (e : Error) (errors : List Error)
    → n ≤ e.line
    → All (λ f. n ≤ f.line) errors
    → All (λ f. n ≤ f.line) (insert_error e errors)
unfolding insert_error
insert_error-All n e [] h a = (h, tt)
insert_error-All n e (f ∷ errors) h a = ground (arith, insert_error-All n e errors h a.1)

All-weaken :
    (m n : ℕ) (errors : List Error)
    → m ≤ n
    → All (λ f. n ≤ f.line) errors
    → All (λ f. m ≤ f.line) errors
All-weaken m n [] h a = tt
All-weaken m n (f ∷ errors) h a = (omega arith, All-weaken m n errors h a.1)

insert_error-InOrder :
    (e : Error) (errors : List Error) → InOrder errors → InOrder (insert_error e errors)
unfolding insert_error
insert_error-InOrder e [] o = (tt, tt)
insert_error-InOrder e (f ∷ errors) o = elim (Bool-cases (leb e.line f.line)) [
  | inl h ↦
      let le : e.line ≤ f.line = ground arith in
      rw h ((le, All-weaken e.line f.line errors le o.0), o)
  | inr h ↦
      let le : f.line ≤ e.line = ground arith in
      rw h (insert_error-All f.line e errors le o.0, insert_error-InOrder e errors o.1)
]

stable_sort-InOrder : (errors : List Error) → InOrder (stable_sort errors)
unfolding stable_sort
stable_sort-InOrder [] = tt
stable_sort-InOrder (e ∷ errors) =
    insert_error-InOrder e (stable_sort errors) (stable_sort-InOrder errors)

-- While lines are read, the errors are in order and stand before the next line.
record IsOrdered (next : ℕ) (st : Progress) : Type 0 where
  ordered : InOrder st.errors
  behind : All (λ e. e.line < next) st.errors

step-IsOrdered :
    (st : Progress) (n : ℕ) (line : Bytes) → IsOrdered n st → IsOrdered (suc n) (step st n line)
step-IsOrdered st n line o = elim (Bool-cases (is_empty line || is_comment line)) [
  | inl h ↦ unfold step in rw h wider
  | inr h ↦ unfold step in rw h (outcome (accept_line st line))
]
  where
    further : All (λ e. e.line < suc n) st.errors
    further =
        All-map (λ e. e.line < n) (λ e. e.line < suc n) st.errors (λ e h. omega arith) o.behind

    wider : IsOrdered (suc n) st
    wider = record { ordered = o.ordered; behind = further }

    outcome :
        (r : Result Reason Declared)
        → IsOrdered (suc n) (elim r [ ok d ↦ declare st n d | err why ↦ reject st n why ])
    outcome (ok d) = unfold declare in record { ordered = o.ordered; behind = further }
    outcome (err why) =
        unfold reject in
        record {
          ordered =
              AllPairs-concat (λ e f. e.line ≤ f.line) st.errors _ o.ordered
                (All-map (λ e. e.line < n) (λ e. e.line ≤ n) st.errors (λ e h. omega arith)
                  o.behind);
          behind = All-append (λ e. e.line < suc n) st.errors _ further (omega arith, tt);
        }

run_lines-InOrder :
    (lines : List Bytes) (st : Progress) (n : ℕ)
    → IsOrdered n st
    → InOrder (run_lines st n lines).errors
unfolding run_lines
run_lines-InOrder [] st n o = o.ordered
run_lines-InOrder (line ∷ rest) st n o =
    run_lines-InOrder rest (step st n (trim line)) (suc n) (step-IsOrdered st n (trim line) o)

no_feeding :
    (m : Table) (lines : List ℕ) (i : ℕ) (rules : List Rule)
    → feeding m i rules ≡ []
    → feeding_errors m lines i rules ≡ []
unfolding feeding feeding_errors
no_feeding m lines i [] h = refl
no_feeding m lines i (r ∷ rules) h = ground (arith, no_feeding m lines (suc i) rules)

no_late_errors :
    (m : Table) (lines : List ℕ) (rules : List Rule) (copies : List CopyOfOutput)
    → is_empty (map (λ c. c.rule) copies ++ feeding m 0 rules) ≡ true
    → map copy_error copies ++ feeding_errors m lines 0 rules ≡ []
unfolding is_empty
no_late_errors m lines rules [] h = no_feeding m lines 0 rules (none_left (feeding m 0 rules) h)
  where
    none_left : (xs : List ℕ) → is_empty xs ≡ true → xs ≡ []
    none_left [] h = refl
    none_left (x ∷ xs) h = cc
no_late_errors m lines rules (c ∷ copies) h = cc

nothing_dropped : (st : Progress) → is_empty (dropped_rules st) ≡ true → late_errors st ≡ []
unfolding dropped_rules late_errors
nothing_dropped st h =
    no_late_errors (close (length st.rules) (direct_feeds st.rules)) st.lines st.rules
      (undeclared st.files st.copies) h

finish-InOrder : (st : Progress) → InOrder st.errors → InOrder (finish st).errors
unfolding finish
finish-InOrder st o = elim (Bool-cases (is_empty (dropped_rules st))) [
  | inl h ↦ rw (h, nothing_dropped st h, append-nil st.errors) o
  | inr h ↦ rw h (stable_sort-InOrder (st.errors ++ late_errors st))
]

-- The errors of a manifest are in the order of the lines they are about.
pub parse_errors-InOrder : (text : Bytes) → InOrder (parse text).errors
unfolding parse read_all
parse_errors-InOrder text = finish-InOrder (run_lines initial 1 (split_on b'\n' text)) (
    run_lines-InOrder (split_on b'\n' text) initial 1
      (unfold initial in record { ordered = tt; behind = tt }))
