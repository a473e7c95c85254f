-- ===== src/BuildCache/Outcome.antt =====
-- How `store` ends, and what it does to the records.
use makebelieve.Base.{
  ◌≡◌, refl, sym, ap, subst, ◌∙◌, ◌≢◌, ◌↔◌, ◌⊎◌, inl, inr, Bool, true, false, Option, none, some,
  List, Option-cases, In, ℕ-HasTest, List-HasTest, eq_cases, Result, ok, err,
}
use makebelieve.Base.Optional.{no_value}
use makebelieve.Text.{Bytes}
use makebelieve.Paths.{generic_string}
use makebelieve.DirectoryTree.{ℤ, ErrorCode}
use makebelieve.BuildCache.{OutputRow, IsSql, action_text, Libraries, Command, Input, Cache, hash}
use makebelieve.BuildCache.Operations.{
  Faults, removes, output_row, drop_found, drop_if_unreferenced, record_output, drop_previous,
  answer_store, store_record, store,
}
use makebelieve.BuildCache.Whole.{record_output_iff}
use makebelieve.BuildCache.Stages.{scratch_of, renamed, store_by}
use makebelieve.BuildCache.Whole.Storing.{answer_store-same}

drop_found-tables :
    (l : Libraries) (removes : Bool) (h : Bytes) (named : Bool) (q : Option ErrorCode) (c : Cache l)
    → (drop_found l removes h named q c).1.tables ≡ c.tables
drop_found-tables l removes h named (some e) c = refl
drop_found-tables l removes h true none c = refl
drop_found-tables l removes h false none c = refl

pub drop-tables :
    (l : Libraries) (faults : Faults) (h : Bytes) (c : Cache l)
    → (drop_if_unreferenced l faults h c).1.tables ≡ c.tables
unfolding drop_if_unreferenced
drop-tables l faults h c =
    drop_found-tables l (removes faults h) h (l.is_named h c.tables) (faults.look_up h) c

-- How `store` ends: `Rows` is to hold of the tables where the output is recorded.
pub data Stored (l : Libraries) (faults : Faults) (command : Command) (bytes : Bytes) (c : Cache l)
    (Rows : l.Tables → Type 0) (result : Result (Option ErrorCode) Bytes) (t : l.Tables)
    : Type 0 where
  recorded :
      faults.write ≡ none
      → faults.rename ≡ none
      → faults.transaction ≡ none
      → result ≡ ok (hash l bytes)
      → Rows t
      → Stored l faults command bytes c Rows result t
  not_written :
      (e : ErrorCode)
      → faults.write ≡ some e
      → result ≡ err (some e)
      → t ≡ c.tables
      → Stored l faults command bytes c Rows result t
  not_renamed :
      (e : ErrorCode)
      → faults.write ≡ none
      → faults.rename ≡ some e
      → result ≡ err (faults.removing (scratch_of l bytes c))
      → t ≡ c.tables
      → Stored l faults command bytes c Rows result t
  not_committed :
      (e : ErrorCode)
      → faults.write ≡ none
      → faults.rename ≡ none
      → faults.transaction ≡ some e
      → result ≡ err (some e)
      → t ≡ c.tables
      → Stored l faults command bytes c Rows result t
  recorded_and_fails :
      (e : ErrorCode) (previous : Bytes)
      → faults.write ≡ none
      → faults.rename ≡ none
      → faults.transaction ≡ none
      → result ≡ err (some e)
      → l.find_hash (generic_string command.output) c.tables ≡ some previous
      → previous ≢ hash l bytes
      → faults.look_up previous ≡ some e
      → Rows t
      → Stored l faults command bytes c Rows result t

-- The rows of `outputs` after `command` is recorded: its own, and those of other paths.
abbrev pub IsRecorded : (l : Libraries) → Command → Bytes → ℤ → (before after : l.Tables) → Type 0
IsRecorded l command h mtime before after =
    (r : OutputRow)
    → In r (l.output_rows after) ↔ (
        (r ≡ record {
          path = generic_string command.output;
          action = action_text command.action;
          command = command.text;
          hash = h;
          mtime = mtime;
        })
        ⊎ (In r (l.output_rows before) × (r.path ≢ generic_string command.output)))

drop_found-query :
    (l : Libraries) (removes : Bool) (h : Bytes) (named : Bool) (q : Option ErrorCode) (c : Cache l)
    → (drop_found l removes h named q c).0 ≡ q
drop_found-query l removes h named (some e) c = refl
drop_found-query l removes h true none c = refl
drop_found-query l removes h false none c = refl

drop-query :
    (l : Libraries) (faults : Faults) (h : Bytes) (c : Cache l)
    → (drop_if_unreferenced l faults h c).0 ≡ faults.look_up h
unfolding drop_if_unreferenced
drop-query l faults h c =
    drop_found-query l (removes faults h) h (l.is_named h c.tables) (faults.look_up h) c

answer_some :
    {l : Libraries} (h : Bytes) (s : Option ErrorCode × Cache l) (e : ErrorCode)
    → s.0 ≡ some e
    → (answer_store h s).0 ≡ err (some e)
answer_some h (none, c) e k = absurd (no_value k)
answer_some h (some f, c) e k = ap err k

answer_none :
    {l : Libraries} (h : Bytes) (s : Option ErrorCode × Cache l)
    → s.0 ≡ none
    → (answer_store h s).0 ≡ ok h
answer_none h (none, c) k = refl
answer_none h (some f, c) k = cc k

previous-Stored :
    (l : Libraries) (faults : Faults) (command : Command) (bytes : Bytes) (mtime : ℤ)
    (inputs : List Input) (c d : Cache l) (p : Option Bytes)
    → l.find_hash (generic_string command.output) c.tables ≡ p
    → d.tables ≡ record_output l command (hash l bytes) mtime inputs c.tables
    → faults.write ≡ none
    → faults.rename ≡ none
    → faults.transaction ≡ none
    → Stored l faults command bytes c
        (λ t. t ≡ record_output l command (hash l bytes) mtime inputs c.tables)
        (answer_store (hash l bytes) (drop_previous l faults (hash l bytes) p d)).0
        (answer_store (hash l bytes) (drop_previous l faults (hash l bytes) p d)).1.tables
previous-Stored l faults command bytes mtime inputs c d none found same w r k =
    recorded w r k refl same
previous-Stored l faults command bytes mtime inputs c d (some p) found same w r k =
    elim (eq_cases p (hash l bytes)) [
      | inl (_, t) ↦ rw t (recorded w r k refl same)
      | inr (ne, t) ↦
          let s = drop_if_unreferenced l faults p d in
          let kept : (answer_store (hash l bytes) s).1.tables
              ≡ record_output l command (hash l bytes) mtime inputs c.tables =
            ap (λ x. x.tables) (answer_store-same (hash l bytes) s)
            ∙ drop-tables l faults p d
            ∙ same in
          rw t (elim (Option-cases (faults.look_up p)) [
            | inl fine ↦
                recorded w r k (answer_none (hash l bytes) s (drop-query l faults p d ∙ fine)) kept
            | inr (e, fails) ↦
                recorded_and_fails e p w r k
                  (answer_some (hash l bytes) s e (drop-query l faults p d ∙ fails)) found ne fails
                  kept
          ])
    ]

pub store_ends :
    (l : Libraries) (faults : Faults) (command : Command) (bytes : Bytes) (mtime : ℤ)
    (inputs : List Input) (c : Cache l)
    → Stored l faults command bytes c
        (λ t. t ≡ record_output l command (hash l bytes) mtime inputs c.tables)
        (store l faults command bytes mtime inputs c).0
        (store l faults command bytes mtime inputs c).1.tables
store_ends l faults command bytes mtime inputs c =
    store_by l faults command bytes mtime inputs c
      (λ s.
        Stored l faults command bytes c
          (λ t. t ≡ record_output l command (hash l bytes) mtime inputs c.tables) s.0 s.1.tables)
      (λ e w. not_written e w refl refl) (λ e w r. not_renamed e w r refl refl) by_commit
  where
    by_commit :
        (q : Option ErrorCode)
        → faults.write ≡ none
        → faults.rename ≡ none
        → faults.transaction ≡ q
        → (let s =
              store_record l faults command (hash l bytes) mtime inputs q (renamed l bytes c) in
            Stored l faults command bytes c
              (λ t. t ≡ record_output l command (hash l bytes) mtime inputs c.tables)
              s.0
              s.1.tables)
    by_commit (some e) w r k =
        not_committed e w r k refl (drop-tables l faults (hash l bytes) (renamed l bytes c))
    by_commit none w r k =
        previous-Stored l faults command bytes mtime inputs c
          (record (renamed l bytes c) {
            tables = record_output l command (hash l bytes) mtime inputs c.tables;
          })
          (l.find_hash (generic_string command.output) c.tables) refl refl w r k

map_rows :
    {l : Libraries} {faults : Faults} {command : Command} {bytes : Bytes} {c : Cache l}
    {P Q : l.Tables → Type 0} {result : Result (Option ErrorCode) Bytes} {t : l.Tables}
    → (P t → Q t)
    → Stored l faults command bytes c P result t
    → Stored l faults command bytes c Q result t
map_rows f (recorded w r k e p) = recorded w r k e (f p)
map_rows f (not_written e w h s) = not_written e w h s
map_rows f (not_renamed e w r h s) = not_renamed e w r h s
map_rows f (not_committed e w r k h s) = not_committed e w r k h s
map_rows f (recorded_and_fails e p w r k h o ne q s) = recorded_and_fails e p w r k h o ne q (f s)

-- `store` returns the hash of the bytes, the rows of `outputs` being the one of the command and the old
-- ones of other paths; or writing fails with its error, or renaming fails with the outcome of deleting
-- the scratch file, or the transaction fails with its error, and the tables are as they were; or only
-- the query for another content recorded before fails, with its error and with the rows as in the first
-- case.
pub store-Stored :
    (l : Libraries) (faults : Faults) (command : Command) (bytes : Bytes) (mtime : ℤ)
    (inputs : List Input) (c : Cache l)
    → IsSql l
    → Stored l faults command bytes c
        (IsRecorded l command (hash l bytes) mtime c.tables)
        (store l faults command bytes mtime inputs c).0
        (store l faults command bytes mtime inputs c).1.tables
store-Stored l faults command bytes mtime inputs c sql =
    map_rows
      (λ same r.
        subst
          (λ t. In r (l.output_rows t) ↔ (
            (r ≡ output_row command (hash l bytes) mtime)
            ⊎ (In r (l.output_rows c.tables) × (r.path ≢ generic_string command.output))))
          (sym same) (record_output_iff l command (hash l bytes) mtime inputs c.tables r sql))
      (store_ends l faults command bytes mtime inputs c)
