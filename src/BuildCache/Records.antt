-- ===== src/BuildCache/Records.antt =====
-- `records`.
pub mod AfterStore
mod Inputs
use makebelieve.Base.{
  ℕ, zero, suc, ◌+◌, ◌-◌, ◌*◌, ◌%◌, ◌^◌, ◌≤◌, ◌<◌, ◌≡◌, refl, sym, ap, subst, ◌∙◌, ◌≢◌, ◌↔◌, ◌⊎◌,
  inl, inr, Bool, true, false, not, ◌&&◌, ◌||◌, Option, none, some, List, [], ◌∷◌, ◌++◌, map,
  reverse, arith, ltb, leb, nat_eq, if◌then◌else◌, nat_eq_iff, ltb→lt, lt→ltb, Bool-cases,
  Option-cases, and_left, and_right, or_right, length, get_elem?, modify, length-modify,
  modify_self, modify-none, modify_other, take, drop, find_if, any_of, all_of, keep, All, In,
  In-left, In-right, In-split, get_elem?-append, length-get, In-any_of, modify-cases, keep-In,
  find_if_passes, In-keep, get-length, AllPairs, length-append, take-append, drop-append,
  All-append, All-keep, All-map, AllPairs-keep, AllPairs-concat, HasTest, ◌==◌, ℕ-HasTest,
  List-HasTest, list_eq, eq_iff, eq_self, eq_cases, Result, ok, err, ◌>>=◌, ◌>>◌, reject_if,
  ok_steps, reject_if-eq-ok, after_check, ok-injective, ne_test,
}
use makebelieve.Base.OrdMap
use makebelieve.Base.Optional.{some_value, no_value}
use makebelieve.Text.{Bytes}
use makebelieve.Paths.{elements, generic_string}
use makebelieve.Manifest.{Action}
use makebelieve.DirectoryTree.{ℤ, ErrorCode}
use makebelieve.BuildCache.{
  OutputRow, InputRow, Libraries, IsSql, same_key, Command, Input, Record, Cache, action_text,
  action_from_text, hash,
}
use makebelieve.BuildCache.Operations.{
  Faults, input_row, insert_inputs, output_row, record_output, store,
}
use makebelieve.BuildCache.Actions.{action_from_text_iff}
use makebelieve.BuildCache.Whole.{record_output_iff}

-- The records so far, with the text of each output's path: `records` and `by_output`.
abbrev pub Found : Type 0
Found = List (Bytes × Record)

abbrev pub record_of : OutputRow → Action → Record
record_of r action = record {
  command = record { output = elements r.path; action = action; text = r.command };
  hash = r.hash;
  mtime = r.mtime;
  inputs = [];
}

abbrev add_row : OutputRow → Option Action → Found → Found
add_row r none found = found
add_row r (some action) found = (r.path, record_of r action) ∷ found

-- The loop over the rows of `outputs`.
pub read_outputs : List OutputRow → Found
unfolding action_from_text elements
read_outputs [] = []
read_outputs (r ∷ rows) = add_row r (action_from_text r.action) (read_outputs rows)

abbrev pub input_of : InputRow → Input
input_of i = record { path = elements i.path; mtime = i.mtime; size = i.size; hash = i.hash }

abbrev with_input : InputRow → Record → Record
with_input i r = record r { inputs = r.inputs ++ input_of i ∷ [] }

pub add_input : InputRow → Found → Found
unfolding elements
add_input i [] = []
add_input i ((path, r) ∷ found) =
    let rest = add_input i found in
    if path == i.output then (path, with_input i r) ∷ found else (path, r) ∷ rest

-- The loop over the rows of `inputs`.
pub read_inputs : List InputRow → Found → Found
unfolding add_input
read_inputs [] found = found
read_inputs (i ∷ is) found = read_inputs is (add_input i found)

abbrev pub all_records : (l : Libraries) → Cache l → List Record
all_records l c =
    map (λ e. e.1) (read_inputs (l.input_rows c.tables) (read_outputs (l.output_rows c.tables)))

abbrev pub records_in :
    (l : Libraries) → Option ErrorCode → Option ErrorCode → Cache l → Result ErrorCode (List Record)
records_in l (some e) of_inputs c = err e
records_in l none (some e) c = err e
records_in l none none c = ok (all_records l c)

unfoldable pub records : (l : Libraries) → Faults → Cache l → Result ErrorCode (List Record)
unfolding read_outputs read_inputs
records l faults c = records_in l faults.select_outputs faults.select_inputs c

abbrev pub add_inputs : List InputRow → Record → Record
add_inputs [] r = r
add_inputs (i ∷ is) r = add_inputs is (with_input i r)

find-add_input :
    (i : InputRow) (p : Bytes) (found : Found) (r : Record)
    → OrdMap.find p found ≡ some r
    → OrdMap.find p (add_input i found) ≡ some (if p == i.output then with_input i r else r)
unfolding add_input OrdMap.find
find-add_input i p [] r h = cc h
find-add_input i p ((q, s) ∷ found) r h = elim (eq_cases q p) [
  | inl (e, t) ↦
      let same : s ≡ r =
        some_value (sym (ap (λ b. if b then some s else OrdMap.find p found) t) ∙ h) in
      subst
        (λ x.
          OrdMap.find p
            (if q == i.output then (q, with_input i s) ∷ found else (q, s) ∷ add_input i found)
          ≡ some (if x == i.output then with_input i r else r))
        e (here same t (q == i.output))
  | inr (ne, t) ↦
      let old : OrdMap.find p found ≡ some r =
        sym (ap (λ b. if b then some s else OrdMap.find p found) t) ∙ h in
      there ne t old (q == i.output) refl (find-add_input i p found r old)
]
  where
    here :
        s ≡ r
        → (q == p) ≡ true
        → (b : Bool)
        → OrdMap.find p (if b then (q, with_input i s) ∷ found else (q, s) ∷ add_input i found)
          ≡ some (if b then with_input i r else r)
    here same t true =
        ap (λ x. if x then some (with_input i s) else OrdMap.find p found) t
        ∙ ap (λ x. some (with_input i x)) same
    here same t false =
        ap (λ x. if x then some s else OrdMap.find p (add_input i found)) t ∙ ap some same

    there :
        q ≢ p
        → (q == p) ≡ false
        → OrdMap.find p found ≡ some r
        → (b : Bool) → (q == i.output) ≡ b
        → OrdMap.find p (add_input i found) ≡ some (if p == i.output then with_input i r else r)
        → OrdMap.find p (if b then (q, with_input i s) ∷ found else (q, s) ∷ add_input i found)
          ≡ some (if p == i.output then with_input i r else r)
    there ne t old true e rest =
        let apart : p ≢ i.output = λ k. ne ((eq_iff q i.output).0 e ∙ sym k) in
        ap (λ x. if x then some (with_input i s) else OrdMap.find p found) t
        ∙ old
        ∙ ap (λ x. some (if x then with_input i r else r)) (sym (ne_test p i.output apart))
    there ne t old false e rest =
        ap (λ x. if x then some s else OrdMap.find p (add_input i found)) t ∙ rest

-- A record's inputs are the rows with its output, in their order.
find-read_inputs :
    (is : List InputRow) (p : Bytes) (found : Found) (r : Record)
    → OrdMap.find p found ≡ some r
    → OrdMap.find p (read_inputs is found) ≡ some (add_inputs (keep (λ i. p == i.output) is) r)
unfolding read_inputs
find-read_inputs [] p found r h = h
find-read_inputs (i ∷ is) p found r h =
    by_test (p == i.output) (find-add_input i p found r h)
      (λ s e. find-read_inputs is p (add_input i found) s e)
  where
    by_test :
        (b : Bool)
        → OrdMap.find p (add_input i found) ≡ some (if b then with_input i r else r)
        → ((s : Record)
            → OrdMap.find p (add_input i found) ≡ some s
            → OrdMap.find p (read_inputs is (add_input i found))
              ≡ some (add_inputs (keep (λ i. p == i.output) is) s))
        → OrdMap.find p (read_inputs is (add_input i found))
          ≡ some (
              add_inputs
                (if b then i ∷ keep (λ i. p == i.output) is else keep (λ i. p == i.output) is)
                r)
    by_test true e next = next (with_input i r) e
    by_test false e next = next r e

find-read_outputs :
    (rows : List OutputRow) (r : OutputRow) (a : Action)
    → ((s : OutputRow) → In s rows → s.path ≡ r.path → s ≡ r)
    → In r rows
    → action_from_text r.action ≡ some a
    → OrdMap.find r.path (read_outputs rows) ≡ some (record_of r a)
unfolding read_outputs OrdMap.find
find-read_outputs [] r a u i h = absurd i
find-read_outputs (s ∷ rows) r a u i h = elim (eq_cases s.path r.path) [
  | inl (e, t) ↦
      subst
        (λ x.
          OrdMap.find r.path (add_row x (action_from_text x.action) (read_outputs rows))
          ≡ some (record_of r a))
        (sym (u s (inl refl) e))
        (ap (λ o. OrdMap.find r.path (add_row r o (read_outputs rows))) h
          ∙ ap (λ b. if b then some (record_of r a) else OrdMap.find r.path (read_outputs rows))
              (eq_self r.path))
  | inr (ne, t) ↦
      let rest =
        find-read_outputs rows r a (λ x j. u x (inr j))
          (elim i [ inl now ↦ absurd (ne (ap (λ x. x.path) (sym now))) | inr j ↦ j ]) h in
      passed t (action_from_text s.action) ∙ rest
]
  where
    passed :
        (s.path == r.path) ≡ false
        → (o : Option Action)
        → OrdMap.find r.path (add_row s o (read_outputs rows))
          ≡ OrdMap.find r.path (read_outputs rows)
    passed t none = refl
    passed t (some b) =
        ap (λ x. if x then some (record_of s b) else OrdMap.find r.path (read_outputs rows)) t

find-In :
    (p : Bytes) (found : Found) (r : Record)
    → OrdMap.find p found ≡ some r
    → In r (map (λ e. e.1) found)
unfolding OrdMap.find
find-In p [] r h = absurd (no_value h)
find-In p ((q, s) ∷ found) r h = by_test (q == p) h (find-In p found r)
  where
    by_test :
        (b : Bool)
        → (if b then some s else OrdMap.find p found) ≡ some r
        → (OrdMap.find p found ≡ some r → In r (map (λ e. e.1) found))
        → (r ≡ s) ⊎ In r (map (λ e. e.1) found)
    by_test true e next = inl (sym (some_value e))
    by_test false e next = inr (next e)

-- Of an output row with an action of this version, `all_records` has the record, with the inputs of its
-- rows in their order.
pub records-In :
    (l : Libraries) (c : Cache l) (r : OutputRow) (a : Action)
    → IsSql l
    → In r (l.output_rows c.tables)
    → action_from_text r.action ≡ some a
    → In
        (add_inputs (keep (λ i. r.path == i.output) (l.input_rows c.tables)) (record_of r a))
        (all_records l c)
records-In l c r a sql i h =
    let found = read_outputs (l.output_rows c.tables) in
    find-In r.path (read_inputs (l.input_rows c.tables) found)
      (add_inputs (keep (λ i. r.path == i.output) (l.input_rows c.tables)) (record_of r a))
      (find-read_inputs (l.input_rows c.tables) r.path found (record_of r a) (
        find-read_outputs (l.output_rows c.tables) r a (λ s j e. sql.rows_unique c.tables r s i j e)
          i h))
