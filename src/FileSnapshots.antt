-- ===== src/FileSnapshots.antt =====
-- src/filesnapshots.cpp: versions of files, numbered and shared. A snapshot is known by its address.
-- `take` reads the file's generation, looks for a snapshot to share, and records a new one once it has
-- awaited the content: three steps, with the tree's status in between, and others may happen between.
pub mod Generations
pub mod Kept
pub mod Shared
mod Tests
use makebelieve.Base.{
  ℕ, zero, suc, ◌+◌, ◌-◌, ◌*◌, ◌%◌, ◌^◌, ◌≤◌, ◌<◌, ◌≡◌, refl, sym, ap, subst, ◌∙◌, ◌≢◌, ◌↔◌, ◌⊎◌,
  inl, inr, Bool, true, false, not, ◌&&◌, ◌||◌, Option, none, some, List, [], ◌∷◌, ◌++◌, map,
  reverse, arith, ltb, leb, nat_eq, if◌then◌else◌, nat_eq_iff, ltb→lt, lt→ltb, Bool-cases,
  Option-cases, and_left, and_right, or_right, length, get_elem?, take, drop, find_if, any_of,
  all_of, keep, All, In, AllPairs, length-append, take-append, drop-append, All-append, All-keep,
  All-map, AllPairs-keep, AllPairs-concat, HasTest, ◌==◌, ℕ-HasTest, List-HasTest, list_eq, eq_iff,
  eq_self, eq_cases, Result, ok, err, ◌>>=◌, ◌>>◌, reject_if, ok_steps, reject_if-eq-ok,
  after_check, ok-injective, ne_test,
}
use makebelieve.Base.OrdMap
use makebelieve.Text.{Bytes}
use makebelieve.Paths.{FilePath, FilePath-Order}
use makebelieve.DirectoryTree.{
  FileInfo, EntryInfo, file, directory, FileContent, DirectoryTreeDiff, ErrorCode, is_a_directory,
}

pub record FileSnapshot : Type 0 where
  pub path : FilePath
  pub bytes : Bytes
  pub mtime : ℕ
  pub generation : ℕ

abbrev pub info : FileSnapshot → FileInfo
info n = record { size = length n.bytes; mtime = n.mtime }

-- `current` holds the address of each file's newest snapshot. `held` are the snapshots not yet
-- deleted, of which those in `expired` have no reference left.
pub record Snapshots : Type 0 where
  pub clock : ℕ
  pub everything : ℕ
  pub generations : List (FilePath × ℕ)
  pub current : List (FilePath × ℕ)
  pub held : List (ℕ × FileSnapshot)
  pub expired : List ℕ

unfoldable pub same : FileInfo → FileInfo → Bool
same a b = a.size == b.size && a.mtime == b.mtime

unfoldable pub file_status : Result ErrorCode EntryInfo → Result ErrorCode FileInfo
file_status (err e) = err e
file_status (ok (file i)) = ok i
file_status (ok (directory i)) = err is_a_directory

-- `++m_clock`, on 64 bits.
unfoldable pub tick : ℕ → ℕ
tick clock = (clock + 1) % 2 ^ 64

unfoldable pub change_path : FilePath → Snapshots → Snapshots
unfolding tick OrdMap.assign OrdMap.erase
change_path path s = record s {
  clock = tick s.clock;
  generations = OrdMap.assign path (tick s.clock) s.generations;
  current = OrdMap.erase path s.current;
}

unfoldable pub change_paths : List FilePath → Snapshots → Snapshots
unfolding change_path
change_paths [] s = s
change_paths (path ∷ paths) s = change_paths paths (change_path path s)

unfoldable pub changed : DirectoryTreeDiff → Snapshots → Snapshots
unfolding tick change_paths
changed diff s =
    if diff.everything_dirty
    then record s {
      clock = tick s.clock;
      everything = tick s.clock;
      generations = [];
      current = [];
    }
    else change_paths diff.entries_changed s

abbrev pub or_zero : Option ℕ → ℕ
or_zero none = 0
or_zero (some n) = n

abbrev pub larger : ℕ → ℕ → ℕ
larger a b = if ltb a b then b else a

unfoldable pub generation : Snapshots → FilePath → ℕ
unfolding OrdMap.find
generation s path = larger s.everything (or_zero (OrdMap.find path s.generations))

-- What `take` comes to before it reads: an error, a snapshot to share, or the generation to read at.
pub data Begun : Type 0 where
  failed : ErrorCode → Begun
  shared : ℕ → FileSnapshot → Begun
  reading : ℕ → Begun

-- `weak_ptr::lock`.
unfoldable pub lock : Snapshots → ℕ → Option FileSnapshot
unfolding OrdMap.find
lock s a = if any_of (λ x. x == a) s.expired then none else OrdMap.find a s.held

abbrev share : ℕ → FileInfo → ℕ → Option FileSnapshot → Begun
share before i a none = reading before
share before i a (some n) =
    if n.generation == before && same (info n) i then shared a n else reading before

abbrev look_up : Snapshots → ℕ → FileInfo → Option ℕ → Begun
look_up s before i none = reading before
look_up s before i (some a) = share before i a (lock s a)

abbrev begin_with : ℕ → Snapshots → FilePath → Result ErrorCode FileInfo → Begun
begin_with before s path (err e) = failed e
begin_with before s path (ok i) = look_up s before i (OrdMap.find path s.current)

-- `before` is the file's `generation` in the state in which `take` is called, `status` what the tree's
-- `status` gives for the path after that, and the state is the one in which the snapshots are locked.
unfoldable pub begin_take : ℕ → Snapshots → FilePath → Result ErrorCode EntryInfo → Begun
unfolding file_status same lock OrdMap.find
begin_take before s path status = begin_with before s path (file_status status)

-- `address` is where `new` puts the snapshot, and `content` what the tree's `read_whole` gave.
unfoldable pub end_take :
    Snapshots → FilePath → ℕ → ℕ → Result ErrorCode FileContent → Result ErrorCode ℕ × Snapshots
unfolding OrdMap.assign
end_take s path before address (err e) = (err e, s)
end_take s path before address (ok content) = (
  ok address,
  record s {
    current = OrdMap.assign path address s.current;
    held =
        (
          address,
          record {
            path = path;
            bytes = content.bytes;
            mtime = content.info.mtime;
            generation = before;
          },
        )
        ∷ s.held;
  },
)

-- The last reference to a snapshot goes, and then `Forget` deletes it.
unfoldable pub expire : Snapshots → ℕ → Snapshots
expire s a = record s { expired = a ∷ s.expired }

abbrev erase_if_current : Snapshots → ℕ → FilePath → Option ℕ → List (FilePath × ℕ)
erase_if_current s a path none = s.current
erase_if_current s a path (some b) = if b == a then OrdMap.erase path s.current else s.current

abbrev forget_from : Snapshots → ℕ → Option FileSnapshot → Snapshots
forget_from s a none = s
forget_from s a (some n) = record s {
  current = erase_if_current s a n.path (OrdMap.find n.path s.current);
  held = OrdMap.erase a s.held;
  expired = keep (λ x. not (x == a)) s.expired;
}

unfoldable pub forget : Snapshots → ℕ → Snapshots
unfolding OrdMap.find OrdMap.erase
forget s a = forget_from s a (OrdMap.find a s.held)
