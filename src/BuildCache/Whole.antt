-- ===== src/BuildCache/Whole.antt =====
-- Contents that are what their names say, records that have contents, and changes of either.
pub mod Reachable
pub mod Storing
use makebelieve.Base.{
  ℕ, zero, suc, ◌+◌, ◌-◌, ◌*◌, ◌%◌, ◌^◌, ◌≤◌, ◌<◌, ◌≡◌, refl, sym, ap, subst, ◌∙◌, ◌≢◌, ◌↔◌, ◌⊎◌,
  inl, inr, Bool, true, false, not, ◌&&◌, ◌||◌, Option, none, some, List, [], ◌∷◌, ◌++◌, map,
  reverse, arith, ltb, leb, nat_eq, if◌then◌else◌, nat_eq_iff, ltb→lt, lt→ltb, Bool-cases,
  Option-cases, and_left, and_right, or_right, length, get_elem?, modify, length-modify,
  modify_self, modify-none, modify_other, take, drop, find_if, any_of, all_of, keep, All, In,
  In-left, In-right, In-split, get_elem?-append, length-get, get-length, AllPairs, length-append,
  take-append, drop-append, All-append, All-keep, All-map, AllPairs-keep, AllPairs-concat, HasTest,
  ◌==◌, ℕ-HasTest, List-HasTest, list_eq, eq_iff, eq_self, eq_cases, Result, ok, err, ◌>>=◌, ◌>>◌,
  reject_if, ok_steps, reject_if-eq-ok, after_check, ok-injective, ne_test,
}
use makebelieve.Base.OrdMap
use makebelieve.Base.Optional.{some_value, no_value}
use makebelieve.Text.{Bytes, codes}
use makebelieve.Paths.{FilePath, generic_string}
use makebelieve.DirectoryTree.{ℤ, ErrorCode, no_such_file_or_directory}
use makebelieve.BuildCache.{
  OutputRow, InputRow, Libraries, IsSql, Command, Input, Record, Cache, initial, hash, is_hex,
  is_hash, is_hash-hash, length-hash,
}
use makebelieve.BuildCache.Operations.{
  Faults, Files, write_file, rename_file, remove_file, drop_found, drop_if_unreferenced,
  scratch_name, input_row, insert_inputs, output_row, record_output, drop_previous, answer_store,
  store_record, store_rename, left_over, store_write, store, forget_rows, drop_all, forget_in,
  forget, removes, remove_files, is_referenced, collect_garbage,
}

-- A file of a hash's name holds what the hash is of.
abbrev pub IsTrue : Libraries → Files → Type 0
IsTrue l files =
    (h bytes : Bytes) → OrdMap.find h files ≡ some bytes → is_hash h ≡ true → hash l bytes ≡ h

abbrev pub Holds : Files → Bytes → Type 0
Holds files h = (bytes : Bytes) × (OrdMap.find h files ≡ some bytes)

pub record IsWhole (l : Libraries) (c : Cache l) : Type 0 where
  pub content : IsTrue l c.objects
  pub hashes : (r : OutputRow) → In r (l.output_rows c.tables) → is_hash r.hash ≡ true
  pub there : (r : OutputRow) → In r (l.output_rows c.tables) → Holds c.objects r.hash

pub find-write_file :
    (name n bytes : Bytes) (files : Files)
    → OrdMap.find n (write_file name bytes files)
      ≡ (if name == n then some bytes else OrdMap.find n files)
unfolding write_file OrdMap.find
find-write_file name n bytes files = ground (arith, OrdMap.find-erase name n files)

IsTrue-write :
    (l : Libraries) (name bytes : Bytes) (files : Files)
    → (is_hash name ≡ true → hash l bytes ≡ name)
    → IsTrue l files
    → IsTrue l (write_file name bytes files)
IsTrue-write l name bytes files h k n b found ok_name = elim (eq_cases name n) [
  | inl (e, t) ↦
      let same : bytes ≡ b = some_value (sym (step t) ∙ found) in
      subst (λ x. hash l x ≡ n) same (h (subst (λ x. is_hash x ≡ true) (sym e) ok_name) ∙ e)
  | inr (_, t) ↦ k n b (sym (other t) ∙ found) ok_name
]
  where
    step : (name == n) ≡ true → OrdMap.find n (write_file name bytes files) ≡ some bytes
    step t =
        find-write_file name n bytes files
        ∙ ap (λ y. if y then some bytes else OrdMap.find n files) t

    other : (name == n) ≡ false → OrdMap.find n (write_file name bytes files) ≡ OrdMap.find n files
    other t =
        find-write_file name n bytes files
        ∙ ap (λ y. if y then some bytes else OrdMap.find n files) t

IsTrue-erase :
    (l : Libraries) (name : Bytes) (files : Files)
    → IsTrue l files
    → IsTrue l (OrdMap.erase name files)
IsTrue-erase l name files k n b found ok_name = elim (eq_cases name n) [
  | inl (_, t) ↦ cc (
      sym found
      ∙ OrdMap.find-erase name n files
      ∙ ap (λ y. if y then none else OrdMap.find n files) t)
  | inr (_, t) ↦
      k n b
        (sym (OrdMap.find-erase name n files ∙ ap (λ y. if y then none else OrdMap.find n files) t)
          ∙ found)
        ok_name
]

Holds-write :
    (name bytes h : Bytes) (files : Files) → Holds files h → Holds (write_file name bytes files) h
Holds-write name bytes h files (b, found) = elim (eq_cases name h) [
  | inl (_, t) ↦ (
    bytes,
    find-write_file name h bytes files ∙ ap (λ y. if y then some bytes else OrdMap.find h files) t,
  )
  | inr (_, t) ↦ (
    b,
    find-write_file name h bytes files
        ∙ ap (λ y. if y then some bytes else OrdMap.find h files) t
        ∙ found,
  )
]

Holds-erase :
    (name h : Bytes) (files : Files) → name ≢ h → Holds files h → Holds (OrdMap.erase name files) h
Holds-erase name h files ne (b, found) = (
  b,
  OrdMap.find-erase name h files
      ∙ ap (λ y. if y then none else OrdMap.find h files) (ne_test name h ne)
      ∙ found,
)

pub Holds-put : (name bytes : Bytes) (files : Files) → Holds (write_file name bytes files) name
Holds-put name bytes files = (
  bytes,
  find-write_file name name bytes files
      ∙ ap (λ y. if y then some bytes else OrdMap.find name files) (eq_self name),
)

-- Changes of the files alone.
pub write-IsWhole :
    (l : Libraries) (name bytes : Bytes) (c : Cache l)
    → (is_hash name ≡ true → hash l bytes ≡ name)
    → IsWhole l c
    → IsWhole l (record c { objects = write_file name bytes c.objects })
write-IsWhole l name bytes c h w = record {
  content = IsTrue-write l name bytes c.objects h w.content;
  hashes = w.hashes;
  there = λ r i. Holds-write name bytes r.hash c.objects (w.there r i);
}

pub erase-IsWhole :
    (l : Libraries) (name : Bytes) (c : Cache l)
    → ((r : OutputRow) → In r (l.output_rows c.tables) → name ≢ r.hash)
    → IsWhole l c
    → IsWhole l (record c { objects = OrdMap.erase name c.objects })
erase-IsWhole l name c h w = record {
  content = IsTrue-erase l name c.objects w.content;
  hashes = w.hashes;
  there = λ r i. Holds-erase name r.hash c.objects (h r i) (w.there r i);
}

pub remove-IsWhole :
    (l : Libraries) (removes : Bool) (name : Bytes) (c : Cache l)
    → ((r : OutputRow) → In r (l.output_rows c.tables) → name ≢ r.hash)
    → IsWhole l c
    → IsWhole l (record c { objects = remove_file removes name c.objects })
remove-IsWhole l true name c h w = erase-IsWhole l name c h w
remove-IsWhole l false name c h w = w

-- No record is of a name that is no hash.
pub unhashed :
    (l : Libraries) (name : Bytes) (c : Cache l)
    → is_hash name ≡ false
    → IsWhole l c
    → (r : OutputRow) → In r (l.output_rows c.tables)
    → name ≢ r.hash
unhashed l name c h w r i e = cc (sym (ap is_hash e ∙ w.hashes r i) ∙ h)

pub is_hash-scratch_name :
    (l : Libraries) (bytes : Bytes) (n : ℕ) → is_hash (scratch_name l (hash l bytes) n) ≡ false
unfolding is_hash scratch_name hash
is_hash-scratch_name l bytes n =
    let rest : Bytes = codes "." ++ l.decimal n ++ codes ".tmp" in
    let whole : Bytes = hash l bytes ++ rest in
    let more : length whole ≢ 32 =
      λ e. omega (arith, e, length-append (hash l bytes) rest, length-hash l bytes) in
    ap (λ t. t && all_of is_hex whole) (ne_test (length whole) 32 more)

insert_inputs_out :
    (l : Libraries) (output : Bytes) (is : List Input) (t : l.Tables)
    → IsSql l
    → l.output_rows (insert_inputs l output is t) ≡ l.output_rows t
unfolding insert_inputs
insert_inputs_out l output [] t sql = refl
insert_inputs_out l output (i ∷ is) t sql =
    insert_inputs_out l output is (l.insert_input (input_row output i) t) sql
    ∙ sql.insert_input_out (input_row output i) t

-- The rows after a store.
pub record_output_iff :
    (l : Libraries) (command : Command) (h : Bytes) (mtime : ℤ) (inputs : List Input) (t : l.Tables)
    (r : OutputRow)
    → IsSql l
    → In r (l.output_rows (record_output l command h mtime inputs t)) ↔ (
        (r ≡ output_row command h mtime)
        ⊎ (In r (l.output_rows t) × (r.path ≢ generic_string command.output)))
unfolding record_output
record_output_iff l command h mtime inputs t r sql =
    let output = generic_string command.output in
    let cleared = l.delete_inputs output t in
    let put = l.replace_output (output_row command h mtime) cleared in
    let rows = insert_inputs_out l output inputs put sql in
    let old = sql.delete_inputs_out output t in
    let (to, from) = sql.replace_output_iff (output_row command h mtime) cleared r in
    (
      λ i. elim (to (subst (In r) rows i)) [
        | inl e ↦ inl e
        | inr (j, ne) ↦ inr (subst (In r) old j, ne)
      ],
      λ c.
          subst (In r) (sym rows)
            (from (elim c [ inl e ↦ inl e | inr (j, ne) ↦ inr (subst (In r) (sym old) j, ne) ])),
    )

pub record-IsWhole :
    (l : Libraries) (command : Command) (h : Bytes) (mtime : ℤ) (inputs : List Input) (c : Cache l)
    → IsSql l
    → is_hash h ≡ true
    → Holds c.objects h
    → IsWhole l c
    → IsWhole l (record c { tables = record_output l command h mtime inputs c.tables })
record-IsWhole l command h mtime inputs c sql ok_name there w =
    let rows = λ (r : OutputRow). record_output_iff l command h mtime inputs c.tables r sql in
    record {
      content = w.content;
      hashes = λ r i. elim ((rows r).0 i) [
        | inl e ↦ ap (λ x. is_hash x.hash) e ∙ ok_name
        | inr (j, _) ↦ w.hashes r j
      ];
      there = λ r i. elim ((rows r).0 i) [
        | inl e ↦ subst (λ x. Holds c.objects x.hash) (sym e) there
        | inr (j, _) ↦ w.there r j
      ];
    }

pub drop_if_unreferenced-IsWhole :
    (l : Libraries) (faults : Faults) (h : Bytes) (c : Cache l)
    → IsSql l
    → IsWhole l c
    → IsWhole l (drop_if_unreferenced l faults h c).1
unfolding drop_if_unreferenced
drop_if_unreferenced-IsWhole l faults h c sql w =
    by_query (faults.look_up h) (l.is_named h c.tables) refl
  where
    by_query :
        (q : Option ErrorCode) (t : Bool)
        → l.is_named h c.tables ≡ t
        → IsWhole l (drop_found l (removes faults h) h t q c).1
    by_query (some e) t same = w
    by_query none true same = w
    by_query none false same =
        remove-IsWhole l (removes faults h) h c
          (λ r i e. cc (sym ((sql.is_named_iff h c.tables).1 (r, i, sym e)) ∙ same)) w
