-- ===== src/BuildCache/Effects.antt =====
-- What `store` puts in place is what `read` gives back.
use makebelieve.Base.{
  ◌≡◌, refl, sym, ap, subst, ◌∙◌, ◌≢◌, inl, inr, Bool, true, false, Option, none, some, List,
  if◌then◌else◌, ℕ-HasTest, List-HasTest, eq_self, eq_cases, ok, ok-injective, ne_test,
}
use makebelieve.Base.OrdMap
use makebelieve.Text.{Bytes}
use makebelieve.Paths.{generic_string}
use makebelieve.DirectoryTree.{ℤ, ErrorCode}
use makebelieve.BuildCache.{Libraries, Command, Input, Cache, hash, is_hash-hash}
use makebelieve.BuildCache.Operations.{
  Faults, removes, drop_found, drop_if_unreferenced, record_output, drop_previous, answer_store,
  store_record, store, read,
}
use makebelieve.BuildCache.Whole.{find-write_file}
use makebelieve.BuildCache.Stages.{scratch_of, written, renamed, store_by}
use makebelieve.BuildCache.Whole.Storing.{rename_file-some, answer_store-same, found-written}

-- The content found once the file is renamed.
found-renamed :
    (l : Libraries) (bytes : Bytes) (c : Cache l)
    → OrdMap.find (hash l bytes) (renamed l bytes c).objects ≡ some bytes
found-renamed l bytes c =
    let scratch = scratch_of l bytes c in
    let h = hash l bytes in
    let files = OrdMap.erase scratch (written l bytes c).objects in
    ap (OrdMap.find h)
      (rename_file-some scratch h bytes (written l bytes c).objects (found-written l bytes c))
    ∙ find-write_file h h bytes files
    ∙ ap (λ y. if y then some bytes else OrdMap.find h files) (eq_self h)

drop_found-other :
    (l : Libraries) (removes : Bool) (p h : Bytes) (named : Bool) (q : Option ErrorCode)
    (c : Cache l)
    → p ≢ h
    → OrdMap.find h (drop_found l removes p named q c).1.objects ≡ OrdMap.find h c.objects
drop_found-other l removes p h named (some e) c ne = refl
drop_found-other l removes p h true none c ne = refl
drop_found-other l false p h false none c ne = refl
drop_found-other l true p h false none c ne =
    OrdMap.find-erase p h c.objects
    ∙ ap (λ y. if y then none else OrdMap.find h c.objects) (ne_test p h ne)

drop_previous-found :
    (l : Libraries) (faults : Faults) (h : Bytes) (p : Option Bytes) (c : Cache l)
    → OrdMap.find h (drop_previous l faults h p c).1.objects ≡ OrdMap.find h c.objects
unfolding drop_if_unreferenced
drop_previous-found l faults h none c = refl
drop_previous-found l faults h (some p) c = elim (eq_cases p h) [
  | inl (_, t) ↦ rw t refl
  | inr (ne, t) ↦
      rw t
        (drop_found-other l (removes faults p) p h (l.is_named p c.tables) (faults.look_up p) c ne)
]

answer_ok :
    {l : Libraries} (h n : Bytes) (s : Option ErrorCode × Cache l)
    → (answer_store h s).0 ≡ ok n
    → n ≡ h
answer_ok h n (none, c) e = cc (ok-injective e)
answer_ok h n (some f, c) e = cc e

store-found :
    (l : Libraries) (faults : Faults) (command : Command) (bytes : Bytes) (mtime : ℤ)
    (inputs : List Input) (c : Cache l) (h : Bytes)
    → (store l faults command bytes mtime inputs c).0 ≡ ok h
    → (h ≡ hash l bytes)
      × (OrdMap.find (hash l bytes) (store l faults command bytes mtime inputs c).1.objects
          ≡ some bytes)
store-found l faults command bytes mtime inputs c h =
    store_by l faults command bytes mtime inputs c
      (λ s. s.0 ≡ ok h → (h ≡ hash l bytes) × (OrdMap.find (hash l bytes) s.1.objects ≡ some bytes))
      (λ e _ never. cc never) (λ e _ _ never. cc never) (λ q _ _ _. by_commit q)
  where
    by_commit :
        (q : Option ErrorCode)
        → (let s =
              store_record l faults command (hash l bytes) mtime inputs q (renamed l bytes c) in
            s.0 ≡ ok h → (h ≡ hash l bytes) × (OrdMap.find (hash l bytes) s.1.objects ≡ some bytes))
    by_commit (some e) never = cc never
    by_commit none fine =
        let d = record (renamed l bytes c) {
          tables = record_output l command (hash l bytes) mtime inputs c.tables;
        } in
        let p = l.find_hash (generic_string command.output) c.tables in
        let s = drop_previous l faults (hash l bytes) p d in
        (
          answer_ok (hash l bytes) h s fine,
          ap (λ x. OrdMap.find (hash l bytes) x.objects) (answer_store-same (hash l bytes) s)
              ∙ drop_previous-found l faults (hash l bytes) p d
              ∙ found-renamed l bytes c,
        )

-- What `store` returns the hash of is what `read` then gives back for it, unless reading the file
-- fails.
pub store-read :
    (l : Libraries) (faults : Faults) (command : Command) (bytes : Bytes) (mtime : ℤ)
    (inputs : List Input) (c : Cache l) (h : Bytes) (later : Faults)
    → (store l faults command bytes mtime inputs c).0 ≡ ok h
    → later.reading h ≡ none
    → read l later h (store l faults command bytes mtime inputs c).1 ≡ ok bytes
unfolding read
store-read l faults command bytes mtime inputs c h later fine clear =
    let (same, found) = store-found l faults command bytes mtime inputs c h fine in
    let clear_there = ap later.reading (sym same) ∙ clear in
    subst (λ n. read l later n (store l faults command bytes mtime inputs c).1 ≡ ok bytes)
      (sym same) (rw (is_hash-hash l bytes, clear_there, found, eq_self (hash l bytes)) refl)
