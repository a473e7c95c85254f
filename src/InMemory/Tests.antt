-- ===== src/InMemory/Tests.antt =====
-- A small tree, changed and read.
use makebelieve.Base.{
  ◌+◌, ◌≡◌, refl, false, Option, none, some, [], ◌∷◌, length, ℕ-HasTest, List-HasTest, list_eq, ok,
}
use makebelieve.Text.{codes}
use makebelieve.DirectoryTree.{pos, file}
use makebelieve.InMemory.{Tree, Change, initial, write_file, make_directory, remove, subscribe}
use makebelieve.InMemory.Reads.{status, read, read_whole}
use makebelieve.InMemory.Reads.Pieces.{read-append, read_whole_agrees}
use makebelieve.InMemory.Valid.{IsValid}
use makebelieve.InMemory.Reachable.{
  Step, written, made, Reached, fresh, stepped, joined, Reached-IsValid,
}
use makebelieve.InMemory.Diffs.{Reports, Step-Reports}

abbrev watched : Tree
watched = subscribe initial 7

abbrev change : Option Change → Change
change none = record {
  tree = initial;
  diff = record { everything_dirty = false; entries_changed = []; child_lists_changed = [] };
  notified = [];
}
change (some c) = c

abbrev with_dir : Change
with_dir = change (make_directory watched (codes "d") 1)

abbrev with_file : Change
with_file = change (write_file with_dir.tree (codes "d/x/../f") (codes "hello") 2)

with_dir-Step : Step watched with_dir
unfolding make_directory list_eq subscribe initial
with_dir-Step = made (codes "d") 1 refl

with_file-Step : Step with_dir.tree with_file
unfolding write_file list_eq make_directory subscribe initial makebelieve.Paths.path_before
with_file-Step = written (codes "d/x/../f") (codes "hello") 2 refl

with_file-Reached : Reached with_file.tree
with_file-Reached = stepped (stepped (joined fresh 7) with_dir-Step) with_file-Step

Reached-IsValid_example : IsValid with_file.tree.entries
Reached-IsValid_example = Reached-IsValid with_file-Reached

Step-Reports_example : Reports with_dir.tree with_file
Step-Reports_example =
    Step-Reports (Reached-IsValid (stepped (joined fresh 7) with_dir-Step)) with_file-Step

read-append_example : read with_file.tree (codes "d/f") (pos 1) (3 + 9) ≡ ok (codes "ello")
unfolding read write_file list_eq make_directory subscribe initial makebelieve.Paths.path_before
read-append_example =
    read-append with_file.tree (codes "d/f") 1 3 9 (codes "ell") (codes "o") refl refl

read_whole_agrees_example :
    (status with_file.tree (codes "d/f") ≡ ok (file (record { size = 5; mtime = 2 })))
    × (read with_file.tree (codes "d/f") (pos 0) 5 ≡ ok (codes "hello"))
    × (length (codes "hello") ≡ 5)
unfolding read_whole write_file list_eq make_directory subscribe initial
    makebelieve.Paths.path_before
read_whole_agrees_example =
    read_whole_agrees (codes "d/f")
      (record { bytes = (codes "hello"); info = record { size = 5; mtime = 2 } }) with_file-Reached
      refl

removal :
    (change (remove with_file.tree (codes "d"))).diff.entries_changed
    ≡ ((codes "d") ∷ []) ∷ ((codes "d") ∷ (codes "f") ∷ []) ∷ []
unfolding remove write_file list_eq make_directory subscribe initial makebelieve.Paths.path_before
removal = refl
