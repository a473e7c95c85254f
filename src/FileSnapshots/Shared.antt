-- ===== src/FileSnapshots/Shared.antt =====
-- What `take` shares is the file as it is, unchanged since the snapshot's generation.
use makebelieve.Base.{
  ℕ, suc, ◌+◌, ◌^◌, ◌≤◌, ◌<◌, ◌≡◌, refl, sym, ap, subst, ◌∙◌, ◌⊎◌, inl, inr, true, ◌&&◌, Option,
  none, some, List, [], ◌∷◌, arith, if◌then◌else◌, Bool-cases, and_left, and_right, length, any_of,
  In, ◌==◌, ℕ-HasTest, List-HasTest, eq_iff, Result, ok, err, ok-injective,
}
use makebelieve.Base.OrdMap
use makebelieve.Base.Optional.{some_value, no_value}
use makebelieve.Paths.{FilePath, FilePath-Order}
use makebelieve.DirectoryTree.{
  FileInfo, EntryInfo, FileContent, DirectoryTreeDiff, file, directory, ErrorCode,
}
use makebelieve.FileSnapshots.{
  FileSnapshot, info, Snapshots, same, file_status, generation, shared, reading, lock, share,
  look_up, begin_with, begin_take, changed, end_take, expire, forget, forget_from,
}
use makebelieve.FileSnapshots.Generations.{
  IsOrdered, generation_bound, changed_clock, changed-generation,
}
use makebelieve.FileSnapshots.Kept.{Reached, Reached-IsKept}

same_info : (a b : FileInfo) → same a b ≡ true → a ≡ b
unfolding same
same_info a b h =
    let size = (eq_iff a.size b.size).0 (and_left (a.size == b.size) (a.mtime == b.mtime) h) in
    let mtime = (eq_iff a.mtime b.mtime).0 (and_right (a.size == b.size) (a.mtime == b.mtime) h) in
    cc

file_of : (r : Result ErrorCode EntryInfo) {i : FileInfo} → file_status r ≡ ok i → r ≡ ok (file i)
unfolding file_status
file_of (err e) h = cc
file_of (ok (file i)) h = ap (λ x. ok (file x)) (ok-injective h)
file_of (ok (directory i)) h = cc

-- What a sharing `take` found.
record Fresh (s : Snapshots) (before : ℕ) (i : FileInfo) (a : ℕ) (n : FileSnapshot) : Type 0 where
  locked : lock s a ≡ some n
  version : n.generation ≡ before
  unchanged : info n ≡ i

shared_parts : (b a : ℕ) (m n : FileSnapshot) → shared b m ≡ shared a n → (b ≡ a) × (m ≡ n)
shared_parts b a m n h = (cc, cc)

share-Fresh :
    (s : Snapshots) (before : ℕ) (i : FileInfo) (b : ℕ) (o : Option FileSnapshot) {a : ℕ}
    {n : FileSnapshot}
    → lock s b ≡ o
    → share before i b o ≡ shared a n
    → (b ≡ a) × Fresh s before i a n
share-Fresh s before i b none e h = cc
share-Fresh s before i b (some m) {a} {n} e h =
    elim (Bool-cases (m.generation == before && same (info m) i)) [
      | inl t ↦
          let (at, one) =
            shared_parts b a m n
              (subst (λ y. (if y then shared b m else reading before) ≡ shared a n) t h) in
          let version =
            (eq_iff m.generation before).0
              (and_left (m.generation == before) (same (info m) i) t) in
          let unchanged =
            same_info (info m) i (and_right (m.generation == before) (same (info m) i) t) in
          (
            at,
            record {
              locked = sym (ap (lock s) at) ∙ e ∙ ap some one;
              version = ap (λ x. x.generation) (sym one) ∙ version;
              unchanged = ap info (sym one) ∙ unchanged;
            },
          )
      | inr t ↦ absurd (
          not_shared before a n
            (subst (λ y. (if y then shared b m else reading before) ≡ shared a n) t h))
    ]
  where
    not_shared : (c a : ℕ) (n : FileSnapshot) → reading c ≡ shared a n → ⊥
    not_shared c a n h = cc

look_up-Fresh :
    (s : Snapshots) (before : ℕ) (i : FileInfo) (c : Option ℕ) {a : ℕ} {n : FileSnapshot}
    → look_up s before i c ≡ shared a n
    → (c ≡ some a) × Fresh s before i a n
look_up-Fresh s before i none h = cc
look_up-Fresh s before i (some b) h =
    let (e, f) = share-Fresh s before i b (lock s b) refl h in (ap some e, f)

begin-Fresh :
    (before : ℕ) (s : Snapshots) (path : FilePath) (r : Result ErrorCode FileInfo) {a : ℕ}
    {n : FileSnapshot}
    → begin_with before s path r ≡ shared a n
    → (i : FileInfo) × (r ≡ ok i) × (OrdMap.find path s.current ≡ some a) × Fresh s before i a n
begin-Fresh before s path (err e) h = cc
begin-Fresh before s path (ok i) h =
    let (e, f) = look_up-Fresh s before i (OrdMap.find path s.current) h in (i, refl, e, f)

locked-held :
    (s : Snapshots) (a : ℕ) {n : FileSnapshot} → lock s a ≡ some n → OrdMap.find a s.held ≡ some n
unfolding lock
locked-held s a {n} h = elim (Bool-cases (any_of (λ x. x == a) s.expired)) [
  | inl t ↦ absurd (no_value (subst (λ y. (if y then none else OrdMap.find a s.held) ≡ some n) t h))
  | inr t ↦ subst (λ y. (if y then none else OrdMap.find a s.held) ≡ some n) t h
]

-- From one state to a later one, with the changes that happen between them, the last first.
pub data Between (s : Snapshots) : List DirectoryTreeDiff → Snapshots → Type 0 where
  at_once : Between s [] s
  changes :
      {diffs : List DirectoryTreeDiff} {t : Snapshots}
      → Between s diffs t
      → (diff : DirectoryTreeDiff) → Between s (diff ∷ diffs) (changed diff t)
  takes :
      {diffs : List DirectoryTreeDiff} {t : Snapshots}
      → Between s diffs t
      → (path : FilePath) (before address : ℕ) (content : Result ErrorCode FileContent)
      → Between s diffs (end_take t path before address content).1
  expires :
      {diffs : List DirectoryTreeDiff} {t : Snapshots}
      → Between s diffs t
      → (a : ℕ) → Between s diffs (expire t a)
  forgets :
      {diffs : List DirectoryTreeDiff} {t : Snapshots}
      → Between s diffs t
      → (a : ℕ) → Between s diffs (forget t a)

-- At least as many ticks of the clock as the changes take.
abbrev pub ticks : List DirectoryTreeDiff → ℕ
ticks [] = 0
ticks (diff ∷ diffs) = suc (length diff.entries_changed) + ticks diffs

-- The change says that the file, or everything, may be another.
abbrev pub Names : DirectoryTreeDiff → FilePath → Type 0
Names diff path = (diff.everything_dirty ≡ true) ⊎ In path diff.entries_changed

record Later (s : Snapshots) (diffs : List DirectoryTreeDiff) (p : FilePath) (t : Snapshots)
    : Type 0 where
  ordered : IsOrdered t
  clock : s.clock ≤ t.clock
  bound : t.clock ≤ s.clock + ticks diffs
  grows : generation s p ≤ generation t p
  passes : (diff : DirectoryTreeDiff) → In diff diffs → Names diff p → s.clock < generation t p

changed-Later :
    {s t : Snapshots} {diffs : List DirectoryTreeDiff} (p : FilePath) (diff : DirectoryTreeDiff)
    → s.clock + ticks (diff ∷ diffs) < 2 ^ 64
    → Later s diffs p t
    → Later s (diff ∷ diffs) p (changed diff t)
changed-Later {s} {t} {diffs} p diff small l =
    let room : suc (t.clock + length diff.entries_changed) < 2 ^ 64 =
      omega (arith, small, l.bound) in
    let (ordered, grows, passes, _) = changed-generation diff t p l.ordered room in
    let (up, bound) = changed_clock diff t room in
    record {
      ordered = ordered;
      clock = omega (arith, up, l.clock);
      bound = omega (arith, bound, l.bound);
      grows = omega (arith, grows, l.grows);
      passes = λ d i named. elim i [
        | inl e ↦ omega (arith, passes (subst (λ x. Names x p) e named), l.clock)
        | inr j ↦ omega (arith, l.passes d j named, grows)
      ];
    }

end_take-Later :
    {s t : Snapshots} {diffs : List DirectoryTreeDiff} {p : FilePath} (path : FilePath)
    (before address : ℕ) (content : Result ErrorCode FileContent)
    → Later s diffs p t
    → Later s diffs p (end_take t path before address content).1
unfolding end_take generation
end_take-Later path before address (err e) l = l
end_take-Later path before address (ok content) l = record {
  ordered = record { everything = l.ordered.everything; files = l.ordered.files };
  clock = l.clock;
  bound = l.bound;
  grows = l.grows;
  passes = l.passes;
}

forget-Later :
    {s t : Snapshots} {diffs : List DirectoryTreeDiff} {p : FilePath} (a : ℕ)
    (o : Option FileSnapshot)
    → Later s diffs p t
    → Later s diffs p (forget_from t a o)
unfolding generation
forget-Later a none l = l
forget-Later a (some n) l = record {
  ordered = record { everything = l.ordered.everything; files = l.ordered.files };
  clock = l.clock;
  bound = l.bound;
  grows = l.grows;
  passes = l.passes;
}

Between-Later :
    {s t : Snapshots} {diffs : List DirectoryTreeDiff} (p : FilePath)
    → IsOrdered s
    → s.clock + ticks diffs < 2 ^ 64
    → Between s diffs t
    → Later s diffs p t
unfolding expire forget generation
Between-Later p o small at_once = record {
  ordered = o;
  clock = omega arith;
  bound = omega arith;
  grows = omega arith;
  passes = λ d never. absurd never;
}
Between-Later {s} p o small (changes {diffs} between diff) =
    changed-Later p diff small (Between-Later p o (omega (arith, small)) between)
Between-Later p o small (takes between path before address content) =
    end_take-Later path before address content (Between-Later p o small between)
Between-Later p o small (expires between a) =
    let l = Between-Later p o small between in
    record {
      ordered = record { everything = l.ordered.everything; files = l.ordered.files };
      clock = l.clock;
      bound = l.bound;
      grows = l.grows;
      passes = l.passes;
    }
Between-Later p o small (forgets {t = t} between a) =
    forget-Later a (OrdMap.find a t.held) (Between-Later p o small between)

-- When a `take` that read the file's generation in one state shares a snapshot whose generation is that
-- of an earlier state, then no change between the two states named the file or everything, whatever
-- else happened there, the clock not wrapping; the snapshot is of the file asked for, and has the size
-- and the time that the tree gives for it. The snapshots may be locked in any state reached.
pub begin_take-unchanged :
    {s t u : Snapshots} (path : FilePath) (status : Result ErrorCode EntryInfo) (a : ℕ)
    (n : FileSnapshot) (diffs : List DirectoryTreeDiff)
    → IsOrdered s
    → Between s diffs t
    → s.clock + ticks diffs < 2 ^ 64
    → Reached u
    → n.generation ≡ generation s path
    → begin_take (generation t path) u path status ≡ shared a n
    → (n.path ≡ path)
      × (status ≡ ok (file (info n)))
      × ((diff : DirectoryTreeDiff) → In diff diffs → ¬ Names diff path)
unfolding begin_take
begin_take-unchanged {s} {t} {u} path status a n diffs o between small r made h =
    let (i, e, at, f) = begin-Fresh (generation t path) u path (file_status status) h in
    let (m, held, named) = (Reached-IsKept r).current path a at in
    let one = some_value (sym (locked-held u a f.locked) ∙ held) in
    let l = Between-Later path o small between in
    (
      ap (λ x. x.path) one ∙ named,
      file_of status e ∙ ap (λ x. ok (file x)) (sym f.unchanged),
      λ d j names.
          absurd (omega (arith, l.passes d j names, generation_bound s path o, made, f.version)),
    )
