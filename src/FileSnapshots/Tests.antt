-- ===== src/FileSnapshots/Tests.antt =====
-- A file changed and taken.
use makebelieve.Base.{
  ◌≤◌, ◌<◌, ◌≡◌, refl, ◌⊎◌, true, false, [], ◌∷◌, arith, In, ℕ-HasTest, List-HasTest, list_eq,
  Result, ok,
}
use makebelieve.Base.OrdMap
use makebelieve.Text.{codes}
use makebelieve.Paths.{FilePath}
use makebelieve.DirectoryTree.{EntryInfo, file, DirectoryTreeDiff, ErrorCode}
use makebelieve.FileSnapshots.{
  FileSnapshot, info, Snapshots, changed, generation, begin_take, end_take,
}
use makebelieve.FileSnapshots.Generations.{IsOrdered, changed-generation}
use makebelieve.FileSnapshots.Kept.{IsKept, Reached, at_first, takes, Reached-IsKept}
use makebelieve.FileSnapshots.Shared.{Names, begin_take-unchanged}
use makebelieve.FileSnapshots.Shared

abbrev at_start : Snapshots
at_start = record {
  clock = 0;
  everything = 0;
  generations = [];
  current = [];
  held = [];
  expired = [];
}

abbrev path : FilePath
path = codes "f" ∷ []

abbrev one_changed : DirectoryTreeDiff
one_changed = record {
  everything_dirty = false;
  entries_changed = path ∷ [];
  child_lists_changed = [];
}

changed-generation_example :
    IsOrdered (changed one_changed at_start)
    × (generation at_start path ≤ generation (changed one_changed at_start) path)
    × ((false ≡ true) ⊎ In path (path ∷ []) → 0 < generation (changed one_changed at_start) path)
    × (false ≡ false
        → ¬ In path (path ∷ [])
        → generation (changed one_changed at_start) path ≡ generation at_start path)
changed-generation_example =
    changed-generation one_changed at_start path
      (record { everything = omega arith; files = λ p. unfold OrdMap.find in omega arith })
      (omega arith)

abbrev snapshot : FileSnapshot
snapshot = record { path = path; bytes = codes "hi"; mtime = 5; generation = 0 }

abbrev taken : Snapshots
taken = record at_start { current = (path, 9) ∷ []; held = (9, snapshot) ∷ [] }

taken-Reached : Reached taken
unfolding end_take
taken-Reached =
    takes at_first path 0 9
      (ok (record { bytes = codes "hi"; info = record { size = 2; mtime = 5 } }))
      (unfold OrdMap.find in refl)

Reached-IsKept_example : IsKept taken
Reached-IsKept_example = Reached-IsKept taken-Reached

-- Another file changes after the snapshot's generation is read, and then this one is taken again.
abbrev other_changed : DirectoryTreeDiff
other_changed = record {
  everything_dirty = false;
  entries_changed = (codes "g" ∷ []) ∷ [];
  child_lists_changed = [];
}

begin_take-unchanged_example :
    (path ≡ path)
    × (◌≡◌ {A = Result ErrorCode EntryInfo}
        (ok (file (record { size = 2; mtime = 5 })))
        (ok (file (info snapshot))))
    × ((diff : DirectoryTreeDiff) → In diff (other_changed ∷ []) → ¬ Names diff path)
unfolding begin_take list_eq changed generation
begin_take-unchanged_example =
    begin_take-unchanged {s = at_start} path (ok (file (record { size = 2; mtime = 5 }))) 9 snapshot
      (other_changed ∷ [])
      (record { everything = omega arith; files = λ p. unfold OrdMap.find in omega arith })
      (Shared.changes Shared.at_once other_changed) (omega arith) taken-Reached
      (unfold OrdMap.find in refl) (unfold OrdMap.find in refl)
