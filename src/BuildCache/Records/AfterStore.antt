-- ===== src/BuildCache/Records/AfterStore.antt =====
-- What `records` gives after a `store`.
use mathlib.Core.List.{append_assoc, append-nil}
use makebelieve.Base.{
  ◌≡◌, refl, sym, ap, subst, ◌∙◌, ◌⊎◌, inl, inr, Bool, true, false, ◌&&◌, ◌||◌, none, List, [], ◌∷◌,
  ◌++◌, map, if◌then◌else◌, any_of, keep, In, ◌==◌, ℕ-HasTest, List-HasTest, eq_iff, ok,
}
use makebelieve.Text.{Bytes}
use makebelieve.Paths.{elements, generic_string}
use makebelieve.DirectoryTree.{ℤ}
use makebelieve.BuildCache.{
  OutputRow, InputRow, Libraries, IsSql, same_key, Command, Input, Record, Cache, action_text, hash,
}
use makebelieve.BuildCache.Operations.{Faults, input_row, output_row, record_output, store}
use makebelieve.BuildCache.Actions.{action_from_text_iff}
use makebelieve.BuildCache.Whole.{record_output_iff}
use makebelieve.BuildCache.Outcome.{
  Stored, recorded, not_written, not_renamed, not_committed, recorded_and_fails, store_ends,
}
use makebelieve.BuildCache.Records.{
  input_of, all_records, records_in, add_inputs, record_of, records, records-In,
}
use makebelieve.BuildCache.Records.Inputs.{first_inputs, inputs-recorded}

add_inputs-map :
    (rows : List InputRow) (r : Record)
    → add_inputs rows r ≡ record r { inputs = r.inputs ++ map input_of rows }
add_inputs-map [] r = ap (λ is. record r { inputs = is }) (sym (append-nil r.inputs))
add_inputs-map (i ∷ rows) r =
    add_inputs-map rows (record r { inputs = r.inputs ++ input_of i ∷ [] })
    ∙ ap (λ is. record r { inputs = is })
        (append_assoc r.inputs (input_of i ∷ []) (map input_of rows))

-- The first input of each path not seen yet.
unfoldable pub firsts : List Bytes → List Input → List Input
unfolding elements generic_string
firsts seen [] = []
firsts seen (i ∷ is) =
    let path = generic_string i.path in
    let same = firsts seen is in
    let more = firsts (seen ++ path ∷ []) is in
    if any_of (λ p. path == p) seen
    then same
    else record { path = elements path; mtime = i.mtime; size = i.size; hash = i.hash } ∷ more

any_of-same_key :
    (n : InputRow) (rows : List InputRow)
    → ((i : InputRow) → In i rows → n.output ≡ i.output)
    → any_of (same_key n) rows ≡ any_of (λ p. n.path == p) (map (λ i. i.path) rows)
any_of-same_key n [] own = refl
any_of-same_key n (i ∷ rows) own =
    ap (λ b. (b && n.path == i.path) || any_of (same_key n) rows)
      ((eq_iff n.output i.output).1 (own i (inl refl)))
    ∙ ap (λ b. n.path == i.path || b) (any_of-same_key n rows (λ j k. own j (inr k)))

map-append_one :
    {A B : Type 0} (f : A → B) (xs : List A) (x : A) → map f (xs ++ x ∷ []) ≡ map f xs ++ f x ∷ []
map-append_one f [] x = refl
map-append_one f (y ∷ xs) x = ap (λ zs. f y ∷ zs) (map-append_one f xs x)

In-append_one : {A : Type 0} (xs : List A) (x y : A) → In y (xs ++ x ∷ []) → In y xs ⊎ (y ≡ x)
In-append_one [] x y (inl e) = inr e
In-append_one [] x y (inr never) = absurd never
In-append_one (z ∷ xs) x y (inl e) = inl (inl e)
In-append_one (z ∷ xs) x y (inr i) = elim (In-append_one xs x y i) [
  | inl j ↦ inl (inr j)
  | inr e ↦ inr e
]

map-first_inputs :
    (output : Bytes) (is : List Input) (rows : List InputRow)
    → ((i : InputRow) → In i rows → output ≡ i.output)
    → map input_of (first_inputs output is rows)
      ≡ map input_of rows ++ firsts (map (λ i. i.path) rows) is
unfolding first_inputs firsts
map-first_inputs output [] rows own = sym (append-nil (map input_of rows))
map-first_inputs output (i ∷ is) rows own =
    by_test (any_of (same_key (input_row output i)) rows)
      (any_of-same_key (input_row output i) rows own) (map-first_inputs output is rows own)
      (map-first_inputs output is (rows ++ input_row output i ∷ []) (λ j k.
        elim (In-append_one rows (input_row output i) j k) [
          | inl m ↦ own j m
          | inr e ↦ ap (λ x. x.output) (sym e)
        ]))
  where
    seen : List Bytes
    seen = map (λ r. r.path) rows

    by_test :
        (b : Bool)
        → b ≡ any_of (λ p. generic_string i.path == p) seen
        → map input_of (first_inputs output is rows) ≡ map input_of rows ++ firsts seen is
        → map input_of (first_inputs output is (rows ++ input_row output i ∷ []))
          ≡ map input_of (rows ++ input_row output i ∷ [])
            ++ firsts (map (λ r. r.path) (rows ++ input_row output i ∷ [])) is
        → map input_of
            (first_inputs output is (if b then rows else rows ++ input_row output i ∷ []))
          ≡ map input_of rows ++ firsts seen (i ∷ is)
    by_test true e same more =
        same
        ∙ ap
            (λ b.
              map input_of rows
              ++ (if b
                  then firsts seen is
                  else input_of (input_row output i)
                    ∷ firsts (seen ++ generic_string i.path ∷ []) is))
            e
    by_test false e same more =
        more
        ∙ ap (λ ps. map input_of (rows ++ input_row output i ∷ []) ++ firsts ps is)
            (map-append_one (λ r. r.path) rows (input_row output i))
        ∙ ap (λ xs. xs ++ firsts (seen ++ generic_string i.path ∷ []) is)
            (map-append_one input_of rows (input_row output i))
        ∙ append_assoc (map input_of rows) (input_of (input_row output i) ∷ [])
            (firsts (seen ++ generic_string i.path ∷ []) is)
        ∙ ap
            (λ b.
              map input_of rows
              ++ (if b
                  then firsts seen is
                  else input_of (input_row output i)
                    ∷ firsts (seen ++ generic_string i.path ∷ []) is))
            e

-- The record `records` is to give of a command stored: all is as stored, but each path is the one that
-- its text stands for, and of the inputs with one path's text the first is there.
abbrev pub kept_record : Command → Bytes → ℤ → List Input → Record
kept_record command h mtime inputs = record {
  command = record {
    output = elements (generic_string command.output);
    action = command.action;
    text = command.text;
  };
  hash = h;
  mtime = mtime;
  inputs = firsts [] inputs;
}

-- After a `store` that returns, `records`, when its queries go through, gives the record of the output:
-- the path that its text is read as, its action, text, hash and time, and the first input given of each
-- path, in the order given.
pub store-records :
    (l : Libraries) (faults : Faults) (command : Command) (bytes : Bytes) (mtime : ℤ)
    (inputs : List Input) (c : Cache l) (h : Bytes) (later : Faults)
    → IsSql l
    → (store l faults command bytes mtime inputs c).0 ≡ ok h
    → later.select_outputs ≡ none
    → later.select_inputs ≡ none
    → (found : List Record) × (records l later (store l faults command bytes mtime inputs c).1
        ≡ ok found)
      × In (kept_record command (hash l bytes) mtime inputs) found
unfolding records
store-records l faults command bytes mtime inputs c h later sql fine outs ins = (
  all_records l d,
  ap (λ q. records_in l q later.select_inputs d) outs ∙ ap (λ q. records_in l none q d) ins,
  subst (λ r. In r (all_records l d)) shape
      (by_end (store_ends l faults command bytes mtime inputs c)),
)
  where
    d : Cache l
    d = (store l faults command bytes mtime inputs c).1

    row : OutputRow
    row = output_row command (hash l bytes) mtime

    rows : List InputRow
    rows = first_inputs (generic_string command.output) inputs []

    shape :
        add_inputs rows (record_of row command.action)
        ≡ kept_record command (hash l bytes) mtime inputs
    shape =
        add_inputs-map rows (record_of row command.action)
        ∙ ap (λ is. record (record_of row command.action) { inputs = is })
            (map-first_inputs (generic_string command.output) inputs [] (λ i never. absurd never))

    by_recorded :
        d.tables ≡ record_output l command (hash l bytes) mtime inputs c.tables
        → In (add_inputs rows (record_of row command.action)) (all_records l d)
    by_recorded same =
        let there : In row (l.output_rows d.tables) =
          subst (λ t. In row (l.output_rows t)) (sym same)
            ((record_output_iff l command (hash l bytes) mtime inputs c.tables row sql).1
              (inl refl)) in
        let own : keep (λ i. row.path == i.output) (l.input_rows d.tables) ≡ rows =
          ap (λ t. keep (λ i. row.path == i.output) (l.input_rows t)) same
          ∙ inputs-recorded l command (hash l bytes) mtime inputs c.tables sql in
        subst (λ is. In (add_inputs is (record_of row command.action)) (all_records l d)) own
          (records-In l d row command.action sql there
            ((action_from_text_iff (action_text command.action) command.action).1 refl))

    by_end :
        Stored l faults command bytes c
          (λ t. t ≡ record_output l command (hash l bytes) mtime inputs c.tables)
          (store l faults command bytes mtime inputs c).0
          d.tables
        → In (add_inputs rows (record_of row command.action)) (all_records l d)
    by_end (recorded _ _ _ _ same) = by_recorded same
    by_end (not_written e _ fails _) = cc (sym fails ∙ fine)
    by_end (not_renamed e _ _ fails _) = cc (sym fails ∙ fine)
    by_end (not_committed e _ _ _ fails _) = cc (sym fails ∙ fine)
    by_end (recorded_and_fails e p _ _ _ fails _ _ _ _) = cc (sym fails ∙ fine)
