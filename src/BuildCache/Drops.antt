-- ===== src/BuildCache/Drops.antt =====
-- What `forget` and `collect_garbage` leave.
use makebelieve.Base.{
  ◌≡◌, refl, sym, ap, subst, ◌∙◌, ◌≢◌, ◌↔◌, ◌⊎◌, inl, inr, Bool, true, false, not, Option, none,
  some, List, [], ◌∷◌, map, if◌then◌else◌, Option-cases, keep, In, keep-In, In-keep, ◌==◌,
  ℕ-HasTest, List-HasTest, eq_cases, ne_test,
}
use makebelieve.Base.OrdMap
use makebelieve.Text.{Bytes}
use makebelieve.Paths.{FilePath, generic_string}
use makebelieve.DirectoryTree.{ErrorCode}
use makebelieve.BuildCache.{OutputRow, Libraries, IsSql, Cache}
use makebelieve.BuildCache.Operations.{
  Faults, Files, remove_file, drop_if_unreferenced, forget_row, forget_rows, drop_all, forget_in,
  forget, removes, remove_files, is_referenced, collect_garbage_in, collect_garbage,
}
use makebelieve.BuildCache.Whole.{Holds}
use makebelieve.BuildCache.Outcome.{drop-tables}

forget_row_iff :
    (l : Libraries) (path : Bytes) (s : l.Tables × List Bytes) (r : OutputRow)
    → IsSql l
    → In r (l.output_rows (forget_row l path s (l.find_hash path s.0)).0)
      ↔ (In r (l.output_rows s.0) × (r.path ≢ path))
forget_row_iff l path s r sql = by_hash (l.find_hash path s.0) refl
  where
    by_hash :
        (o : Option Bytes)
        → l.find_hash path s.0 ≡ o
        → In r (l.output_rows (forget_row l path s o).0)
          ↔ (In r (l.output_rows s.0) × (r.path ≢ path))
    by_hash none e = (
      λ i. (i, λ same. cc (sym e ∙ (sql.find_hash_iff path r.hash s.0).1 (r, i, same, refl))),
      λ p. p.0,
    )
    by_hash (some h) e =
        let rows = sql.delete_inputs_out path s.0 in
        let (to, from) = sql.delete_output_iff path (l.delete_inputs path s.0) r in
        (λ i. (subst (In r) rows (to i).0, (to i).1), λ p. from (subst (In r) (sym rows) p.0, p.1))

forget_rows_iff :
    (l : Libraries) (outputs : List FilePath) (s : l.Tables × List Bytes) (r : OutputRow)
    → IsSql l
    → In r (l.output_rows (forget_rows l outputs s).0)
      ↔ (In r (l.output_rows s.0) × ¬ In r.path (map generic_string outputs))
unfolding forget_rows
forget_rows_iff l [] s r sql = (λ i. (i, λ never. never), λ p. p.0)
forget_rows_iff l (output ∷ outputs) s r sql =
    let path = generic_string output in
    let (to, from) = forget_rows_iff l outputs (forget_row l path s (l.find_hash path s.0)) r sql in
    let (first, back) = forget_row_iff l path s r sql in
    (
      λ i.
          let (j, apart) = to i in
          ((first j).0, λ k. elim k [ inl e ↦ (first j).1 e | inr m ↦ apart m ]),
      λ p. from (back (p.0, λ e. p.1 (inl e)), λ m. p.1 (inr m)),
    )

drop_all-tables :
    (l : Libraries) (faults : Faults) (hs : List Bytes) (c : Cache l)
    → (drop_all l faults hs c).1.tables ≡ c.tables
unfolding drop_all
drop_all-tables l faults [] c = refl
drop_all-tables l faults (h ∷ hs) c =
    by_query (drop_if_unreferenced l faults h c).0
      (drop_all-tables l faults hs (drop_if_unreferenced l faults h c).1)
  where
    by_query :
        (q : Option ErrorCode)
        → (drop_all l faults hs (drop_if_unreferenced l faults h c).1).1.tables
          ≡ (drop_if_unreferenced l faults h c).1.tables
        → (let r : Option ErrorCode × Cache l = elim q [
          | none ↦ drop_all l faults hs (drop_if_unreferenced l faults h c).1
          | some e ↦ (some e, (drop_if_unreferenced l faults h c).1)
        ] in
            r.1.tables ≡ c.tables)
    by_query none rest = rest ∙ drop-tables l faults h c
    by_query (some e) rest = drop-tables l faults h c

-- When its transaction goes through, `forget` leaves exactly the records of other outputs than those
-- it is given, whatever becomes of their contents.
pub forget-rows :
    (l : Libraries) (faults : Faults) (outputs : List FilePath) (c : Cache l) (r : OutputRow)
    → IsSql l
    → faults.transaction ≡ none
    → In r (l.output_rows (forget l faults outputs c).1.tables)
      ↔ (In r (l.output_rows c.tables) × ¬ In r.path (map generic_string outputs))
unfolding forget
forget-rows l faults [] c r sql fine = (λ i. (i, λ never. never), λ p. p.0)
forget-rows l faults (output ∷ outputs) c r sql fine =
    let s = forget_rows l (output ∷ outputs) (c.tables, []) in
    let d = record c { tables = s.0 } in
    let same : (forget_in l faults (output ∷ outputs) faults.transaction c).1.tables ≡ s.0 =
      ap (λ q. (forget_in l faults (output ∷ outputs) q c).1.tables) fine
      ∙ drop_all-tables l faults s.1 d in
    subst
      (λ t.
        In r (l.output_rows t)
        ↔ (In r (l.output_rows c.tables) × ¬ In r.path (map generic_string (output ∷ outputs))))
      (sym same) (forget_rows_iff l (output ∷ outputs) (c.tables, []) r sql)

remove_file-find :
    (name n : Bytes) (files : Files)
    → OrdMap.find n (remove_file true name files)
      ≡ (if name == n then none else OrdMap.find n files)
remove_file-find name n files = OrdMap.find-erase name n files

remove_files-gone :
    (removes : Bytes → Bool) (names : List Bytes) (n : Bytes) (files : Files)
    → ((x : Bytes) → removes x ≡ true)
    → (OrdMap.find n files ≡ none) ⊎ In n names
    → OrdMap.find n (remove_files removes names files) ≡ none
unfolding remove_files
remove_files-gone removes [] n files k (inl gone) = gone
remove_files-gone removes [] n files k (inr never) = absurd never
remove_files-gone removes (name ∷ names) n files k h =
    remove_files-gone removes names n (remove_file (removes name) name files) k
      (elim (eq_cases name n) [
        | inl (_, t) ↦ inl (step ∙ ap (λ y. if y then none else OrdMap.find n files) t)
        | inr (ne, t) ↦ elim h [
          | inl gone ↦ inl (step ∙ ap (λ y. if y then none else OrdMap.find n files) t ∙ gone)
          | inr i ↦ elim i [ inl e ↦ absurd (ne (sym e)) | inr j ↦ inr j ]
        ]
      ])
  where
    step :
        OrdMap.find n (remove_file (removes name) name files)
        ≡ (if name == n then none else OrdMap.find n files)
    step =
        ap (λ b. OrdMap.find n (remove_file b name files)) (k name) ∙ OrdMap.find-erase name n files

remove_files-kept :
    (removes : Bytes → Bool) (names : List Bytes) (n : Bytes) (files : Files)
    → ¬ In n names
    → OrdMap.find n (remove_files removes names files) ≡ OrdMap.find n files
unfolding remove_files
remove_files-kept removes [] n files apart = refl
remove_files-kept removes (name ∷ names) n files apart =
    remove_files-kept removes names n (remove_file (removes name) name files) (λ i. apart (inr i))
    ∙ one (removes name)
  where
    one : (b : Bool) → OrdMap.find n (remove_file b name files) ≡ OrdMap.find n files
    one false = refl
    one true =
        OrdMap.find-erase name n files
        ∙ ap (λ y. if y then none else OrdMap.find n files)
            (ne_test name n (λ e. apart (inl (sym e))))

-- When its query goes through, the directory is listed in full and every file can be deleted,
-- `collect_garbage` deletes exactly the files that no record names; it leaves the rest as they were.
pub collect_garbage-find :
    (l : Libraries) (faults : Faults) (listed : List Bytes) (c : Cache l) (n : Bytes)
    → faults.select_outputs ≡ none
    → ((name : Bytes) → Holds c.objects name → In name listed)
    → ((name : Bytes) → faults.removing name ≡ none)
    → OrdMap.find n (collect_garbage l faults listed c).1.objects
      ≡ (if is_referenced l c.tables n then OrdMap.find n c.objects else none)
unfolding collect_garbage
collect_garbage-find l faults listed c n fine full k =
    ap (λ q. OrdMap.find n (collect_garbage_in l faults listed q c).1.objects) fine
    ∙ by_reference (is_referenced l c.tables n) refl
  where
    unreferenced : List Bytes
    unreferenced = keep (λ name. not (is_referenced l c.tables name)) listed

    by_reference :
        (t : Bool)
        → is_referenced l c.tables n ≡ t
        → OrdMap.find n (remove_files (removes faults) unreferenced c.objects)
          ≡ (if t then OrdMap.find n c.objects else none)
    by_reference true e =
        remove_files-kept (removes faults) unreferenced n c.objects
          (λ i. cc (ap not e, (In-keep (λ name. not (is_referenced l c.tables name)) listed i).0))
    by_reference false e =
        remove_files-gone (removes faults) unreferenced n c.objects
          (λ x. ap (λ q. elim q [ none ↦ true | some e ↦ false ]) (k x))
          (elim (Option-cases (OrdMap.find n c.objects)) [
            | inl gone ↦ inl gone
            | inr (bytes, found) ↦ inr (
                keep-In (λ name. not (is_referenced l c.tables name)) listed (full n (bytes, found))
                  (ap not e))
          ])
