-- ===== src/BuildCache/Whole/Reachable.antt =====
-- A cache through any operations, with any failures, and a process ended in the midst of `store`.
use makebelieve.Base.{
  ℕ, ◌≡◌, refl, ap, subst, ◌∙◌, ◌≢◌, inl, inr, Bool, not, Option, none, some, List, [], ◌∷◌, keep,
  In, In-any_of, In-keep, ◌==◌, ℕ-HasTest, List-HasTest, eq_self, ok,
}
use makebelieve.Base.OrdMap
use makebelieve.Base.Optional.{no_value}
use makebelieve.Text.{Bytes}
use makebelieve.Paths.{FilePath, generic_string}
use makebelieve.DirectoryTree.{ℤ, ErrorCode}
use makebelieve.BuildCache.{OutputRow, Libraries, IsSql, Command, Input, Cache, initial, hash}
use makebelieve.BuildCache.Operations.{
  Faults, write_file, remove_file, drop_if_unreferenced, scratch_name, store, forget_row,
  forget_rows, drop_all, forget_in, forget, remove_files, is_referenced, collect_garbage_in,
  removes, collect_garbage, read,
}
use makebelieve.BuildCache.Stages.{with_files}
use makebelieve.BuildCache.Whole.{
  IsWhole, write-IsWhole, remove-IsWhole, drop_if_unreferenced-IsWhole,
}
use makebelieve.BuildCache.Whole.Storing.{scratch-IsWhole, store-IsWhole}

-- Forgetting adds no row.
forget_row-In :
    (l : Libraries) (path : Bytes) (s : l.Tables × List Bytes) (o : Option Bytes) (r : OutputRow)
    → IsSql l
    → In r (l.output_rows (forget_row l path s o).0)
    → In r (l.output_rows s.0)
forget_row-In l path s none r sql i = i
forget_row-In l path s (some h) r sql i =
    subst (In r) (sql.delete_inputs_out path s.0)
      ((sql.delete_output_iff path (l.delete_inputs path s.0) r).0 i).0

pub forget_rows-In :
    (l : Libraries) (outputs : List FilePath) (s : l.Tables × List Bytes) (r : OutputRow)
    → IsSql l
    → In r (l.output_rows (forget_rows l outputs s).0)
    → In r (l.output_rows s.0)
unfolding forget_rows
forget_rows-In l [] s r sql i = i
forget_rows-In l (output ∷ outputs) s r sql i =
    let path = generic_string output in
    let found = l.find_hash path s.0 in
    forget_row-In l path s found r sql
      (forget_rows-In l outputs (forget_row l path s found) r sql i)

drop_all-IsWhole :
    (l : Libraries) (faults : Faults) (hs : List Bytes) (c : Cache l)
    → IsSql l
    → IsWhole l c
    → IsWhole l (drop_all l faults hs c).1
unfolding drop_all
drop_all-IsWhole l faults [] c sql w = w
drop_all-IsWhole l faults (h ∷ hs) c sql w =
    go (drop_if_unreferenced l faults h c).0 (drop_all-IsWhole l faults hs d sql more) more
  where
    d : Cache l
    d = (drop_if_unreferenced l faults h c).1

    more : IsWhole l d
    more = drop_if_unreferenced-IsWhole l faults h c sql w

    go :
        (q : Option ErrorCode)
        → IsWhole l (drop_all l faults hs d).1
        → IsWhole l d
        → (let r : Option ErrorCode × Cache l = elim q [
          | none ↦ drop_all l faults hs d
          | some e ↦ (some e, d)
        ] in
            IsWhole l r.1)
    go none all here = all
    go (some e) all here = here

forget_in-IsWhole :
    (l : Libraries) (faults : Faults) (outputs : List FilePath) (q : Option ErrorCode) (c : Cache l)
    → IsSql l
    → IsWhole l c
    → IsWhole l (forget_in l faults outputs q c).1
forget_in-IsWhole l faults outputs (some e) c sql w = w
forget_in-IsWhole l faults outputs none c sql w =
    let s = forget_rows l outputs (c.tables, []) in
    let d = record c { tables = s.0 } in
    let less : IsWhole l d = record {
      content = w.content;
      hashes = λ r i. w.hashes r (forget_rows-In l outputs (c.tables, []) r sql i);
      there = λ r i. w.there r (forget_rows-In l outputs (c.tables, []) r sql i);
    } in
    drop_all-IsWhole l faults s.1 d sql less

forget-IsWhole :
    (l : Libraries) (faults : Faults) (outputs : List FilePath) (c : Cache l)
    → IsSql l
    → IsWhole l c
    → IsWhole l (forget l faults outputs c).1
unfolding forget
forget-IsWhole l faults [] c sql w = w
forget-IsWhole l faults (output ∷ outputs) c sql w =
    forget_in-IsWhole l faults (output ∷ outputs) faults.transaction c sql w

remove_files-IsWhole :
    (l : Libraries) (removes : Bytes → Bool) (names : List Bytes) (c : Cache l)
    → ((name : Bytes)
        → In name names
        → (r : OutputRow) → In r (l.output_rows c.tables)
        → name ≢ r.hash)
    → IsWhole l c
    → IsWhole l (with_files c (remove_files removes names c.objects))
unfolding remove_files
remove_files-IsWhole l removes [] c h w = w
remove_files-IsWhole l removes (name ∷ names) c h w =
    remove_files-IsWhole l removes names (with_files c (remove_file (removes name) name c.objects))
      (λ n i. h n (inr i)) (remove-IsWhole l (removes name) name c (h name (inl refl)) w)

-- A name that is kept as unreferenced is the hash of no row.
pub unreferenced-In :
    (l : Libraries) (t : l.Tables) (listed : List Bytes) (name : Bytes)
    → In name (keep (λ n. not (is_referenced l t n)) listed)
    → (r : OutputRow) → In r (l.output_rows t)
    → name ≢ r.hash
unreferenced-In l t listed name i r j e = cc (
  ap not (
      In-any_of (λ x. x.hash == name) (l.output_rows t) j
        (ap (λ n. r.hash == n) e ∙ eq_self r.hash)),
  (In-keep (λ n. not (is_referenced l t n)) listed i).0,
)

collect_garbage-IsWhole :
    (l : Libraries) (faults : Faults) (listed : List Bytes) (c : Cache l)
    → IsWhole l c
    → IsWhole l (collect_garbage l faults listed c).1
unfolding collect_garbage
collect_garbage-IsWhole l faults listed c w = by_query faults.select_outputs
  where
    by_query : (q : Option ErrorCode) → IsWhole l (collect_garbage_in l faults listed q c).1
    by_query (some e) = w
    by_query none =
        remove_files-IsWhole l (removes faults)
          (keep (λ name. not (is_referenced l c.tables name)) listed) c
          (unreferenced-In l c.tables listed) w

initial-IsWhole : (l : Libraries) → IsSql l → IsWhole l (initial l)
unfolding initial OrdMap.find
initial-IsWhole l sql = record {
  content = λ h bytes e k. absurd (no_value e);
  hashes = λ r i. absurd (subst (In r) sql.none_out i);
  there = λ r i. absurd (subst (In r) sql.none_out i);
}

-- A process that ends before it writes all of the scratch file, or once it is renamed; the next one
-- counts scratch files from 0.
pub data Step (l : Libraries) (c : Cache l) : Cache l → Type 0 where
  stores :
      (faults : Faults) (command : Command) (bytes : Bytes) (mtime : ℤ) (inputs : List Input)
      → Step l c (store l faults command bytes mtime inputs c).1
  forgets : (faults : Faults) (outputs : List FilePath) → Step l c (forget l faults outputs c).1
  collects :
      (faults : Faults) (listed : List Bytes) → Step l c (collect_garbage l faults listed c).1
  ends_writing :
      (bytes left : Bytes) (n : ℕ)
      → Step l c (with_files c (write_file (scratch_name l (hash l bytes) n) left c.objects))
  ends_renamed :
      (bytes : Bytes) → Step l c (with_files c (write_file (hash l bytes) bytes c.objects))
  opens : Step l c (record c { next_scratch = 0 })

pub data Reached (l : Libraries) : Cache l → Type 0 where
  at_first : Reached l (initial l)
  next : {c d : Cache l} → Reached l c → Step l c d → Reached l d

Step-IsWhole : {l : Libraries} {c d : Cache l} → IsSql l → Step l c d → IsWhole l c → IsWhole l d
Step-IsWhole {l} {c} sql (stores faults command bytes mtime inputs) w =
    store-IsWhole l faults command bytes mtime inputs c sql w
Step-IsWhole {l} {c} sql (forgets faults outputs) w = forget-IsWhole l faults outputs c sql w
Step-IsWhole {l} {c} sql (collects faults listed) w = collect_garbage-IsWhole l faults listed c w
Step-IsWhole {l} {c} sql (ends_writing bytes left n) w = scratch-IsWhole l bytes left n c w
Step-IsWhole {l} {c} sql (ends_renamed bytes) w =
    write-IsWhole l (hash l bytes) bytes c (λ t. refl) w
Step-IsWhole {l} {c} sql opens w = record {
  content = w.content;
  hashes = w.hashes;
  there = w.there;
}

-- Whatever fails, in a cache reached from an empty one, a file of a hash's name holds what the hash
-- is of, and each record's hash is one and has a file.
pub Reached-IsWhole : {l : Libraries} {c : Cache l} → IsSql l → Reached l c → IsWhole l c
Reached-IsWhole {l} sql at_first = initial-IsWhole l sql
Reached-IsWhole sql (next h step) = Step-IsWhole sql step (Reached-IsWhole sql h)

-- In a cache reached, the content of every record is read back unless reading the file fails, and is
-- what the record's hash is of.
pub Reached-read :
    {l : Libraries} {c : Cache l}
    → IsSql l
    → Reached l c
    → (faults : Faults) (r : OutputRow) → In r (l.output_rows c.tables)
    → faults.reading r.hash ≡ none
    → (bytes : Bytes) × (read l faults r.hash c ≡ ok bytes) × (hash l bytes ≡ r.hash)
unfolding read
Reached-read {l} {c} sql h faults r i clear =
    let w = Reached-IsWhole sql h in
    let (bytes, found) = w.there r i in
    let same = w.content r.hash bytes found (w.hashes r i) in
    (bytes, rw (w.hashes r i, clear, found, same, eq_self r.hash) refl, same)
