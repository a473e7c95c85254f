-- ===== src/BuildCache/Tests.antt =====
-- One output stored, forgotten and collected, over tables of lists and a hash by length.
use makebelieve.Base.{
  ◌≡◌, refl, sym, ap, ◌∙◌, ◌↔◌, inl, inr, true, Option, none, some, List, [], ◌∷◌, if◌then◌else◌,
  length, In, ℕ-HasTest, List-HasTest, list_eq, eq_cases, Result, ok, err,
}
use makebelieve.Base.OrdMap
use makebelieve.Text.{Bytes, codes}
use makebelieve.Paths.{generic_string}
use makebelieve.Manifest.{run, capture}
use makebelieve.DirectoryTree.{pos, ErrorCode, io_error}
use makebelieve.BuildCache.{
  OutputRow, Input, Record, Libraries, Command, Cache, initial, hash, is_hash, is_hash-hash,
  action_text, action_from_text,
}
use makebelieve.BuildCache.Operations.{
  Faults, output_row, read, store, forget, is_referenced, collect_garbage,
}
use makebelieve.BuildCache.Whole.{Holds, IsWhole}
use makebelieve.BuildCache.Whole.Reachable.{
  stores, Reached, at_first, next, Reached-IsWhole, Reached-read,
}
use makebelieve.BuildCache.Effects.{store-read}
use makebelieve.BuildCache.Outcome.{Stored, IsRecorded, store-Stored}
use makebelieve.BuildCache.Drops.{forget-rows, collect_garbage-find}
use makebelieve.BuildCache.Actions.{action_from_text_iff}
use makebelieve.BuildCache.Rows.{libraries, libraries-IsSql}
use makebelieve.BuildCache.Records.{records}
use makebelieve.BuildCache.Records.AfterStore.{firsts, kept_record, store-records}

abbrev by_length : Libraries
by_length = libraries (λ bytes. (length bytes, 7))

abbrev no_faults : Faults
no_faults = record {
  write = none;
  left = none;
  rename = none;
  transaction = none;
  look_up = λ h. none;
  reading = λ h. none;
  select_outputs = none;
  select_inputs = none;
  removing = λ h. none;
}

abbrev bytes : Bytes
bytes = codes "hi"

abbrev command : Command
command = record { output = codes "out" ∷ []; action = capture; text = codes "echo hi" }

abbrev stored : Result (Option ErrorCode) Bytes × Cache by_length
stored = store by_length no_faults command bytes (pos 3) [] (initial by_length)

abbrev row : OutputRow
row = output_row command (hash by_length bytes) (pos 3)

stored-Reached : Reached by_length stored.1
stored-Reached = next at_first (stores no_faults command bytes (pos 3) [])

Reached-IsWhole_example : IsWhole by_length stored.1
Reached-IsWhole_example =
    Reached-IsWhole (libraries-IsSql (λ bytes. (length bytes, 7))) stored-Reached

row-In : In row (by_length.output_rows stored.1.tables)
unfolding store initial
row-In = inl refl

Reached-read_example :
    (b : Bytes) × (read by_length no_faults row.hash stored.1 ≡ ok b)
    × (hash by_length b ≡ row.hash)
Reached-read_example =
    Reached-read (libraries-IsSql (λ bytes. (length bytes, 7))) stored-Reached no_faults row row-In
      refl

store-Stored_example :
    Stored by_length no_faults command bytes
      (initial by_length)
      (IsRecorded by_length command (hash by_length bytes) (pos 3) (initial by_length).tables)
      stored.0
      stored.1.tables
store-Stored_example =
    store-Stored by_length no_faults command bytes (pos 3) [] (initial by_length)
      (libraries-IsSql (λ bytes. (length bytes, 7)))

-- The rename fails and the scratch file is deleted: what is thrown has the code of success.
abbrev failing_rename : Faults
failing_rename = record no_faults { rename = some (io_error 5) }

store_success :
    (store by_length failing_rename command bytes (pos 3) [] (initial by_length)).0 ≡ err none
unfolding store
store_success = refl

store-ok : stored.0 ≡ ok (hash by_length bytes)
unfolding store initial
store-ok = refl

store-read_example : read by_length no_faults (hash by_length bytes) stored.1 ≡ ok bytes
store-read_example =
    store-read by_length no_faults command bytes (pos 3) [] (initial by_length)
      (hash by_length bytes) no_faults store-ok refl

forget-rows_example :
    In row
      (by_length.output_rows (forget by_length no_faults (command.output ∷ []) stored.1).1.tables)
    ↔ (In row (by_length.output_rows stored.1.tables) × ¬ In row.path (codes "out" ∷ []))
unfolding generic_string
forget-rows_example =
    forget-rows by_length no_faults (command.output ∷ []) stored.1 row
      (libraries-IsSql (λ bytes. (length bytes, 7))) refl

-- A file that a crash left, and no record.
abbrev crashed : Cache by_length
crashed = record { tables = ([], []); objects = (bytes, bytes) ∷ []; next_scratch = 0 }

crashed-listed : (name : Bytes) → Holds crashed.objects name → In name (bytes ∷ [])
unfolding OrdMap.find
crashed-listed name (b, found) = elim (eq_cases bytes name) [
  | inl (e, t) ↦ inl (sym e)
  | inr (ne, t) ↦ cc (sym found ∙ ap (λ y. if y then some bytes else none) t)
]

collect_garbage-find_example :
    OrdMap.find bytes (collect_garbage by_length no_faults (bytes ∷ []) crashed).1.objects ≡ (
      if is_referenced by_length crashed.tables bytes
      then OrdMap.find bytes crashed.objects
      else none)
collect_garbage-find_example =
    collect_garbage-find by_length no_faults (bytes ∷ []) crashed bytes refl crashed-listed
      (λ name. refl)

is_hash-hash_example : is_hash (hash by_length bytes) ≡ true
is_hash-hash_example = is_hash-hash by_length bytes

action_from_text_iff_example :
    (action_from_text (codes "run") ≡ some run) ↔ (codes "run" ≡ action_text run)
action_from_text_iff_example = action_from_text_iff (codes "run") run

-- The query for the content recorded before fails, with the new one recorded.
abbrev failing_query : Faults
failing_query = record {
  write = none;
  left = none;
  rename = none;
  transaction = none;
  look_up = λ h. some (io_error 5);
  reading = λ h. none;
  select_outputs = none;
  select_inputs = none;
  removing = λ h. none;
}

abbrev stored_again : Result (Option ErrorCode) Bytes × Cache by_length
stored_again = store by_length failing_query command (codes "hello") (pos 4) [] stored.1

fails_recorded :
    (stored_again.0 ≡ err (some (io_error 5)))
    × (by_length.find_hash (codes "out") stored_again.1.tables
        ≡ some (hash by_length (codes "hello")))
unfolding store initial list_eq
fails_recorded = (refl, refl)

-- The same input twice: the first is kept.
abbrev twice : List Input
twice =
    record { path = codes "in" ∷ []; mtime = pos 1; size = pos 2; hash = [] }
    ∷ record { path = codes "in" ∷ []; mtime = pos 4; size = pos 2; hash = [] }
    ∷ []

abbrev reading_twice : Result (Option ErrorCode) Bytes × Cache by_length
reading_twice = store by_length no_faults command bytes (pos 3) twice (initial by_length)

reading_twice-ok : reading_twice.0 ≡ ok (hash by_length bytes)
unfolding store initial
reading_twice-ok = refl

first_kept : length (firsts [] twice) ≡ 1
unfolding firsts list_eq
first_kept = refl

store-records_example :
    (found : List Record) × (records by_length no_faults reading_twice.1 ≡ ok found)
    × In (kept_record command (hash by_length bytes) (pos 3) twice) found
store-records_example =
    store-records by_length no_faults command bytes (pos 3) twice (initial by_length)
      (hash by_length bytes) no_faults (libraries-IsSql (λ bytes. (length bytes, 7)))
      reading_twice-ok refl refl
