-- ===== src/BuildCache/Records/Inputs.antt =====
-- The rows of `inputs` after a `store`.
use makebelieve.Base.{
  ◌≡◌, refl, ap, ◌∙◌, Bool, true, false, not, List, [], ◌∷◌, ◌++◌, arith, if◌then◌else◌, any_of,
  keep, ◌==◌, ℕ-HasTest, List-HasTest, eq_iff, eq_self,
}
use makebelieve.Text.{Bytes}
use makebelieve.Paths.{generic_string}
use makebelieve.DirectoryTree.{ℤ}
use makebelieve.BuildCache.{InputRow, Libraries, IsSql, same_key, Command, Input}
use makebelieve.BuildCache.Operations.{input_row, insert_inputs, output_row, record_output}

-- `INSERT OR IGNORE`: the first input with each path.
abbrev pub add_first : InputRow → List InputRow → List InputRow
add_first i rows = if any_of (same_key i) rows then rows else rows ++ i ∷ []

unfoldable pub first_inputs : Bytes → List Input → List InputRow → List InputRow
unfolding generic_string
first_inputs output [] rows = rows
first_inputs output (i ∷ is) rows = first_inputs output is (add_first (input_row output i) rows)

keep-append :
    (p : InputRow → Bool) (xs ys : List InputRow) → keep p (xs ++ ys) ≡ keep p xs ++ keep p ys
keep-append p [] ys = refl
keep-append p (x ∷ xs) ys = by_test (p x) (keep-append p xs ys)
  where
    by_test :
        (b : Bool)
        → keep p (xs ++ ys) ≡ keep p xs ++ keep p ys
        → (if b then x ∷ keep p (xs ++ ys) else keep p (xs ++ ys))
          ≡ (if b then x ∷ keep p xs else keep p xs) ++ keep p ys
    by_test true h = ap (λ zs. x ∷ zs) h
    by_test false h = h

any_of-keep :
    (n : InputRow) (rows : List InputRow)
    → any_of (same_key n) (keep (λ i. n.output == i.output) rows) ≡ any_of (same_key n) rows
any_of-keep n [] = refl
any_of-keep n (i ∷ rows) = ground (arith, any_of-keep n rows)

-- Among the rows of its output, a row is inserted as among all.
keep-insert :
    (l : Libraries) (n : InputRow) (t : l.Tables)
    → IsSql l
    → keep (λ i. n.output == i.output) (l.input_rows (l.insert_input n t))
      ≡ add_first n (keep (λ i. n.output == i.output) (l.input_rows t))
keep-insert l n t sql =
    let own = λ (i : InputRow). n.output == i.output in
    let rows = l.input_rows t in
    ap (keep own) (sql.insert_input_in n t)
    ∙ by_test (any_of (same_key n) rows) (any_of-keep n rows)
  where
    by_test :
        (b : Bool)
        → any_of (same_key n) (keep (λ i. n.output == i.output) (l.input_rows t)) ≡ b
        → keep (λ i. n.output == i.output) (if b then l.input_rows t else l.input_rows t ++ n ∷ [])
          ≡ add_first n (keep (λ i. n.output == i.output) (l.input_rows t))
    by_test true e = rw e refl
    by_test false e = rw e (
        keep-append (λ i. n.output == i.output) (l.input_rows t) (n ∷ [])
        ∙ ap (λ b. keep (λ i. n.output == i.output) (l.input_rows t) ++ (if b then n ∷ [] else []))
            (eq_self n.output))

keep-insert_inputs :
    (l : Libraries) (output : Bytes) (is : List Input) (t : l.Tables)
    → IsSql l
    → keep (λ i. output == i.output) (l.input_rows (insert_inputs l output is t))
      ≡ first_inputs output is (keep (λ i. output == i.output) (l.input_rows t))
unfolding insert_inputs first_inputs
keep-insert_inputs l output [] t sql = refl
keep-insert_inputs l output (i ∷ is) t sql =
    keep-insert_inputs l output is (l.insert_input (input_row output i) t) sql
    ∙ ap (first_inputs output is) (keep-insert l (input_row output i) t sql)

keep-nil :
    (p : Bytes) (rows : List InputRow)
    → keep (λ i. p == i.output) (keep (λ i. not (i.output == p)) rows) ≡ []
keep-nil p [] = refl
keep-nil p (i ∷ rows) = ground (arith, keep-nil p rows, eq_iff i.output p, eq_iff p i.output)

pub inputs-recorded :
    (l : Libraries) (command : Command) (h : Bytes) (mtime : ℤ) (inputs : List Input) (t : l.Tables)
    → IsSql l
    → keep
        (λ i. generic_string command.output == i.output)
        (l.input_rows (record_output l command h mtime inputs t))
      ≡ first_inputs (generic_string command.output) inputs []
unfolding record_output
inputs-recorded l command h mtime inputs t sql =
    let output = generic_string command.output in
    let own = λ (i : InputRow). output == i.output in
    let cleared = l.delete_inputs output t in
    keep-insert_inputs l output inputs (l.replace_output (output_row command h mtime) cleared) sql
    ∙ ap (first_inputs output inputs) (
        ap (keep own) (
          sql.replace_output_in (output_row command h mtime) cleared
          ∙ sql.delete_inputs_in output t)
        ∙ keep-nil output (l.input_rows t))
