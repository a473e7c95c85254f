-- ===== src/BuildCache/Whole/Storing.antt =====
-- `store` through each of its stages.
use makebelieve.Base.{
  ℕ, ◌≡◌, refl, sym, ap, subst, ◌∙◌, Bool, true, false, Option, none, some, List, if◌then◌else◌,
  ◌==◌, ℕ-HasTest, List-HasTest, eq_self,
}
use makebelieve.Base.OrdMap
use makebelieve.Text.{Bytes}
use makebelieve.Paths.{generic_string}
use makebelieve.DirectoryTree.{ℤ, ErrorCode}
use makebelieve.BuildCache.{Libraries, IsSql, Command, Input, Cache, hash, is_hash-hash}
use makebelieve.BuildCache.Operations.{
  removes, Faults, Files, write_file, rename_file, remove_file, drop_if_unreferenced, scratch_name,
  record_output, drop_previous, answer_store, store_record, left_over, store,
}
use makebelieve.BuildCache.Stages.{
  with_files, scratch_number, scratch_of, counted, written, renamed, store_by,
}
use makebelieve.BuildCache.Whole.{
  Holds, IsWhole, find-write_file, write-IsWhole, erase-IsWhole, remove-IsWhole, unhashed,
  is_hash-scratch_name, Holds-put, record-IsWhole, drop_if_unreferenced-IsWhole,
}

pub rename_file-some :
    (from to bytes : Bytes) (files : Files)
    → OrdMap.find from files ≡ some bytes
    → rename_file from to files ≡ write_file to bytes (OrdMap.erase from files)
unfolding rename_file
rename_file-some from to bytes files h = rw (h, rename_file) refl

pub scratch-IsWhole :
    (l : Libraries) (bytes left : Bytes) (n : ℕ) (c : Cache l)
    → IsWhole l c
    → IsWhole l (with_files c (write_file (scratch_name l (hash l bytes) n) left c.objects))
scratch-IsWhole l bytes left n c w =
    write-IsWhole l (scratch_name l (hash l bytes) n) left c
      (λ t. cc (sym t ∙ is_hash-scratch_name l bytes n)) w

-- With the scratch file renamed to the hash's name.
pub renamed-IsWhole :
    (l : Libraries) (bytes : Bytes) (n : ℕ) (c : Cache l)
    → OrdMap.find (scratch_name l (hash l bytes) n) c.objects ≡ some bytes
    → IsWhole l c
    → (IsWhole l
        (with_files c (rename_file (scratch_name l (hash l bytes) n) (hash l bytes) c.objects)))
      × Holds
          (rename_file (scratch_name l (hash l bytes) n) (hash l bytes) c.objects)
          (hash l bytes)
renamed-IsWhole l bytes n c found w =
    let scratch = scratch_name l (hash l bytes) n in
    let same = rename_file-some scratch (hash l bytes) bytes c.objects found in
    let erased =
      erase-IsWhole l scratch c (unhashed l scratch c (is_hash-scratch_name l bytes n) w) w in
    (
      subst (λ files. IsWhole l (with_files c files)) (sym same)
          (write-IsWhole l (hash l bytes) bytes (with_files c (OrdMap.erase scratch c.objects))
            (λ t. refl) erased),
      subst (λ files. Holds files (hash l bytes)) (sym same)
          (Holds-put (hash l bytes) bytes (OrdMap.erase scratch c.objects)),
    )

drop_previous-IsWhole :
    (l : Libraries) (faults : Faults) (h : Bytes) (p : Option Bytes) (c : Cache l)
    → IsSql l
    → IsWhole l c
    → IsWhole l (drop_previous l faults h p c).1
drop_previous-IsWhole l faults h none c sql w = w
drop_previous-IsWhole l faults h (some p) c sql w = by_same (p == h)
  where
    by_same : (t : Bool) → IsWhole l (if t then (none, c) else drop_if_unreferenced l faults p c).1
    by_same true = w
    by_same false = drop_if_unreferenced-IsWhole l faults p c sql w

pub answer_store-same :
    {l : Libraries} (h : Bytes) (s : Option ErrorCode × Cache l) → (answer_store h s).1 ≡ s.1
answer_store-same h (none, c) = refl
answer_store-same h (some e, c) = refl

store_record-IsWhole :
    (l : Libraries) (faults : Faults) (command : Command) (bytes : Bytes) (mtime : ℤ)
    (inputs : List Input) (q : Option ErrorCode) (c : Cache l)
    → IsSql l
    → Holds c.objects (hash l bytes)
    → IsWhole l c
    → IsWhole l (store_record l faults command (hash l bytes) mtime inputs q c).1
store_record-IsWhole l faults command bytes mtime inputs (some e) c sql there w =
    drop_if_unreferenced-IsWhole l faults (hash l bytes) c sql w
store_record-IsWhole l faults command bytes mtime inputs none c sql there w =
    let h = hash l bytes in
    let d = record c { tables = record_output l command h mtime inputs c.tables } in
    let p = l.find_hash (generic_string command.output) c.tables in
    subst (IsWhole l) (sym (answer_store-same h (drop_previous l faults h p d))) (
      drop_previous-IsWhole l faults h p d sql
        (record-IsWhole l command h mtime inputs c sql (is_hash-hash l bytes) there w))

left_over-IsWhole :
    (l : Libraries) (bytes : Bytes) (n : ℕ) (left : Option Bytes) (c : Cache l)
    → IsWhole l c
    → IsWhole l (with_files c (left_over (scratch_name l (hash l bytes) n) left c.objects))
left_over-IsWhole l bytes n none c w = w
left_over-IsWhole l bytes n (some left) c w = scratch-IsWhole l bytes left n c w

unscratch-IsWhole :
    (l : Libraries) (removes : Bool) (bytes : Bytes) (n : ℕ) (c : Cache l)
    → IsWhole l c
    → IsWhole l (with_files c (remove_file removes (scratch_name l (hash l bytes) n) c.objects))
unscratch-IsWhole l removes bytes n c w =
    remove-IsWhole l removes (scratch_name l (hash l bytes) n) c
      (unhashed l (scratch_name l (hash l bytes) n) c (is_hash-scratch_name l bytes n) w) w

pub found-written :
    (l : Libraries) (bytes : Bytes) (c : Cache l)
    → OrdMap.find (scratch_of l bytes c) (written l bytes c).objects ≡ some bytes
found-written l bytes c =
    let scratch = scratch_of l bytes c in
    find-write_file scratch scratch bytes c.objects
    ∙ ap (λ y. if y then some bytes else OrdMap.find scratch c.objects) (eq_self scratch)

pub store-IsWhole :
    (l : Libraries) (faults : Faults) (command : Command) (bytes : Bytes) (mtime : ℤ)
    (inputs : List Input) (c : Cache l)
    → IsSql l
    → IsWhole l c
    → IsWhole l (store l faults command bytes mtime inputs c).1
store-IsWhole l faults command bytes mtime inputs c sql w =
    store_by l faults command bytes mtime inputs c (λ s. IsWhole l s.1)
      (λ e _.
        unscratch-IsWhole l (removes faults (scratch_of l bytes c)) bytes n
          (with_files (counted c) (left_over (scratch_of l bytes c) faults.left c.objects))
          (left_over-IsWhole l bytes n faults.left (counted c) counted-IsWhole))
      (λ e _ _.
        unscratch-IsWhole l (removes faults (scratch_of l bytes c)) bytes n (written l bytes c)
          written-IsWhole)
      (λ q _ _ _.
        let (whole, there) =
          renamed-IsWhole l bytes n (written l bytes c) (found-written l bytes c) written-IsWhole in
        store_record-IsWhole l faults command bytes mtime inputs q (renamed l bytes c) sql there
          whole)
  where
    n : ℕ
    n = scratch_number c

    counted-IsWhole : IsWhole l (counted c)
    counted-IsWhole = record { content = w.content; hashes = w.hashes; there = w.there }

    written-IsWhole : IsWhole l (written l bytes c)
    written-IsWhole = scratch-IsWhole l bytes bytes n (counted c) counted-IsWhole
