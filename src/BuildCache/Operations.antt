-- ===== src/BuildCache/Operations.antt =====
-- The operations, each under the cache's lock. `Faults` says what fails of what they call.
use makebelieve.Base.{
  ℕ, ◌+◌, ◌%◌, ◌^◌, Bool, true, false, not, Option, none, some, List, [], ◌∷◌, ◌++◌, if◌then◌else◌,
  any_of, keep, ◌==◌, ℕ-HasTest, List-HasTest, Result, ok, err,
}
use makebelieve.Base.OrdMap
use makebelieve.Text.{Bytes, codes}
use makebelieve.Paths.{FilePath, generic_string}
use makebelieve.DirectoryTree.{ℤ, ErrorCode, no_such_file_or_directory}
use makebelieve.BuildCache.{
  OutputRow, InputRow, Libraries, Command, Input, Cache, action_text, hash, is_hash,
}

-- An error of a call, if any: `left` is what a failed write leaves in the file, `look_up` the query of
-- `drop_if_unreferenced`, `select_outputs` a query for all rows of `outputs`, `select_inputs` of
-- `inputs`, `removing` the deletion of a file.
pub record Faults : Type 0 where
  pub write : Option ErrorCode
  pub left : Option Bytes
  pub rename : Option ErrorCode
  pub transaction : Option ErrorCode
  pub look_up : Bytes → Option ErrorCode
  pub reading : Bytes → Option ErrorCode
  pub select_outputs : Option ErrorCode
  pub select_inputs : Option ErrorCode
  pub removing : Bytes → Option ErrorCode

abbrev pub removes : Faults → Bytes → Bool
removes faults name = elim (faults.removing name) [ none ↦ true | some e ↦ false ]

abbrev pub Files : Type 0
Files = List (Bytes × Bytes)

unfoldable pub write_file : Bytes → Bytes → Files → Files
unfolding OrdMap.erase
write_file name bytes files = (name, bytes) ∷ OrdMap.erase name files

unfoldable pub rename_file : Bytes → Bytes → Files → Files
unfolding OrdMap.find OrdMap.erase write_file
rename_file from to files = elim (OrdMap.find from files) [
  | none ↦ files
  | some bytes ↦ write_file to bytes (OrdMap.erase from files)
]

abbrev pub remove_file : Bool → Bytes → Files → Files
remove_file removes name files = if removes then OrdMap.erase name files else files

abbrev read_outcome : Libraries → Bytes → Option ErrorCode → Option Bytes → Result ErrorCode Bytes
read_outcome l h (some e) found = err e
read_outcome l h none none = err no_such_file_or_directory
read_outcome l h none (some bytes) =
    if hash l bytes == h then ok bytes else err no_such_file_or_directory

unfoldable pub read : (l : Libraries) → Faults → Bytes → Cache l → Result ErrorCode Bytes
unfolding OrdMap.find
read l faults h c =
    if is_hash h
    then read_outcome l h (faults.reading h) (OrdMap.find h c.objects)
    else err no_such_file_or_directory

abbrev pub drop_found :
    (l : Libraries) → Bool → Bytes → Bool → Option ErrorCode → Cache l → Option ErrorCode × Cache l
drop_found l removes h named (some e) c = (some e, c)
drop_found l removes h true none c = (none, c)
drop_found l removes h false none c = (none, record c { objects = remove_file removes h c.objects })

-- With the error of the query, if it fails.
unfoldable pub drop_if_unreferenced :
    (l : Libraries) → Faults → Bytes → Cache l → Option ErrorCode × Cache l
unfolding OrdMap.erase
drop_if_unreferenced l faults h c =
    drop_found l (removes faults h) h (l.is_named h c.tables) (faults.look_up h) c

unfoldable pub scratch_name : Libraries → Bytes → ℕ → Bytes
scratch_name l h n = h ++ codes "." ++ l.decimal n ++ codes ".tmp"

abbrev pub input_row : Bytes → Input → InputRow
input_row output i = record {
  output = output;
  path = generic_string i.path;
  mtime = i.mtime;
  size = i.size;
  hash = i.hash;
}

unfoldable pub insert_inputs : (l : Libraries) → Bytes → List Input → l.Tables → l.Tables
unfolding generic_string
insert_inputs l output [] t = t
insert_inputs l output (i ∷ is) t =
    insert_inputs l output is (l.insert_input (input_row output i) t)

abbrev pub output_row : Command → Bytes → ℤ → OutputRow
output_row command h mtime = record {
  path = generic_string command.output;
  action = action_text command.action;
  command = command.text;
  hash = h;
  mtime = mtime;
}

-- The statements of the transaction.
unfoldable pub record_output :
    (l : Libraries) → Command → Bytes → ℤ → List Input → l.Tables → l.Tables
unfolding generic_string action_text insert_inputs
record_output l command h mtime inputs t =
    let output = generic_string command.output in
    insert_inputs l output inputs
      (l.replace_output (output_row command h mtime) (l.delete_inputs output t))

abbrev pub drop_previous :
    (l : Libraries) → Faults → Bytes → Option Bytes → Cache l → Option ErrorCode × Cache l
drop_previous l faults h none c = (none, c)
drop_previous l faults h (some previous) c =
    if previous == h then (none, c) else drop_if_unreferenced l faults previous c

abbrev pub answer_store :
    {l : Libraries} → Bytes → Option ErrorCode × Cache l → Result (Option ErrorCode) Bytes × Cache l
answer_store h (none, c) = (ok h, c)
answer_store h (some e, c) = (err (some e), c)

-- Once the content is in place.
abbrev pub store_record :
    (l : Libraries)
    → Faults
    → Command
    → Bytes
    → ℤ
    → List Input
    → Option ErrorCode
    → Cache l
    → Result (Option ErrorCode) Bytes × Cache l
store_record l faults command h mtime inputs (some e) c =
    (err (some e), (drop_if_unreferenced l faults h c).1)
store_record l faults command h mtime inputs none c =
    let d = record c { tables = record_output l command h mtime inputs c.tables } in
    answer_store h
      (drop_previous l faults h (l.find_hash (generic_string command.output) c.tables) d)

-- Once the scratch file is written. What is thrown for a failed rename is the outcome of deleting the
-- scratch file, which the same variable holds by then: `none`, success, when that works.
abbrev pub store_rename :
    (l : Libraries)
    → Faults
    → Command
    → Bytes
    → Bytes
    → ℤ
    → List Input
    → Option ErrorCode
    → Cache l
    → Result (Option ErrorCode) Bytes × Cache l
store_rename l faults command h scratch mtime inputs (some e) c = (
  err (faults.removing scratch),
  record c { objects = remove_file (removes faults scratch) scratch c.objects },
)
store_rename l faults command h scratch mtime inputs none c =
    store_record l faults command h mtime inputs faults.transaction
      (record c { objects = rename_file scratch h c.objects })

abbrev pub left_over : Bytes → Option Bytes → Files → Files
left_over scratch none files = files
left_over scratch (some bytes) files = write_file scratch bytes files

abbrev pub store_write :
    (l : Libraries)
    → Faults
    → Command
    → Bytes
    → Bytes
    → Bytes
    → ℤ
    → List Input
    → Option ErrorCode
    → Cache l
    → Result (Option ErrorCode) Bytes × Cache l
store_write l faults command h scratch bytes mtime inputs (some e) c = (
  err (some e),
  record c {
    objects =
        remove_file (removes faults scratch) scratch (left_over scratch faults.left c.objects);
  },
)
store_write l faults command h scratch bytes mtime inputs none c =
    store_rename l faults command h scratch mtime inputs faults.rename
      (record c { objects = write_file scratch bytes c.objects })

-- The code of an error is a `std::error_code`: `none` is success.
unfoldable pub store :
    (l : Libraries)
    → Faults
    → Command
    → Bytes
    → ℤ
    → List Input
    → Cache l
    → Result (Option ErrorCode) Bytes × Cache l
unfolding hash scratch_name write_file rename_file OrdMap.erase drop_if_unreferenced record_output
    generic_string
store l faults command bytes mtime inputs c =
    let n = (c.next_scratch + 1) % 2 ^ 64 in
    let h = hash l bytes in
    store_write l faults command h (scratch_name l h n) bytes mtime inputs faults.write
      (record c { next_scratch = n })

abbrev pub add_hash : Bytes → List Bytes → List Bytes
add_hash h dropped = if any_of (λ x. x == h) dropped then dropped else dropped ++ h ∷ []

abbrev pub forget_row :
    (l : Libraries) → Bytes → l.Tables × List Bytes → Option Bytes → l.Tables × List Bytes
forget_row l path s none = s
forget_row l path s (some h) = (l.delete_output path (l.delete_inputs path s.0), add_hash h s.1)

-- The loop over the outputs to forget.
unfoldable pub forget_rows :
    (l : Libraries) → List FilePath → l.Tables × List Bytes → l.Tables × List Bytes
unfolding generic_string
forget_rows l [] s = s
forget_rows l (output ∷ outputs) s =
    forget_rows l outputs
      (forget_row l (generic_string output) s (l.find_hash (generic_string output) s.0))

-- The loop over the hashes dropped; a query that fails ends it.
unfoldable pub drop_all :
    (l : Libraries) → Faults → List Bytes → Cache l → Option ErrorCode × Cache l
unfolding drop_if_unreferenced
drop_all l faults [] c = (none, c)
drop_all l faults (h ∷ hs) c =
    let d = drop_if_unreferenced l faults h c in
    elim d.0 [ none ↦ drop_all l faults hs d.1 | some e ↦ (some e, d.1) ]

abbrev pub forget_in :
    (l : Libraries)
    → Faults
    → List FilePath
    → Option ErrorCode
    → Cache l
    → Option ErrorCode × Cache l
forget_in l faults outputs (some e) c = (some e, c)
forget_in l faults outputs none c =
    let s = forget_rows l outputs (c.tables, []) in
    drop_all l faults s.1 (record c { tables = s.0 })

unfoldable pub forget :
    (l : Libraries) → Faults → List FilePath → Cache l → Option ErrorCode × Cache l
unfolding forget_rows drop_all
forget l faults [] c = (none, c)
forget l faults (output ∷ outputs) c = forget_in l faults (output ∷ outputs) faults.transaction c

unfoldable pub remove_files : (Bytes → Bool) → List Bytes → Files → Files
unfolding OrdMap.erase
remove_files removes [] files = files
remove_files removes (name ∷ names) files =
    remove_files removes names (remove_file (removes name) name files)

abbrev pub is_referenced : (l : Libraries) → l.Tables → Bytes → Bool
is_referenced l t name = any_of (λ r. r.hash == name) (l.output_rows t)

abbrev pub collect_garbage_in :
    (l : Libraries) → Faults → List Bytes → Option ErrorCode → Cache l → Option ErrorCode × Cache l
collect_garbage_in l faults listed (some e) c = (some e, c)
collect_garbage_in l faults listed none c = (
  none,
  record c {
    objects =
        remove_files (removes faults) (keep (λ name. not (is_referenced l c.tables name)) listed)
          c.objects;
  },
)

-- `listed` is what the iteration over the directory gives, which an error may cut short.
unfoldable pub collect_garbage :
    (l : Libraries) → Faults → List Bytes → Cache l → Option ErrorCode × Cache l
unfolding remove_files
collect_garbage l faults listed c = collect_garbage_in l faults listed faults.select_outputs c
