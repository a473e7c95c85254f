-- ===== src/DirectoryTree/Util/Tests.antt =====
-- A tree of one file, compared with itself.
use makebelieve.Base.{
  ◌≡◌, refl, inl, Option, some, [], ◌∷◌, length, take, drop, ℕ-HasTest, List-HasTest, list_eq, ok,
  err,
}
use makebelieve.Text.{Bytes, codes}
use makebelieve.DirectoryTree.{file, directory, no_such_file_or_directory, is_a_directory}
use makebelieve.DirectoryTree.Util.{DirectoryTree, Difference, content_differs, diff_at}
use makebelieve.DirectoryTree.Util.Alike.{Alike, Below, here, child, diff_at-Alike}
use makebelieve.DirectoryTree.Util.Ends.{IsShallow, diff_at_ends}

abbrev one_file : Bytes → DirectoryTree
one_file content = record {
  status = λ p. elim p [
    | [] ↦ ok (directory (record { mtime = 0 }))
    | w ∷ q ↦ ok (file (record { size = length content; mtime = 1 }))
  ];
  ls = λ p. elim p [
    | [] ↦ ok (
        (record { name = codes "f"; info = file (record { size = length content; mtime = 1 }) })
        ∷ [])
    | w ∷ q ↦ err no_such_file_or_directory
  ];
  read = λ p offset size. elim p [
    | [] ↦ err is_a_directory
    | w ∷ q ↦ ok (take size (drop offset content))
  ];
}

contents :
    diff_at 3 (one_file (codes "ab")) (one_file (codes "abc")) []
    ≡ some (some (content_differs (codes "f" ∷ []) 2 3))
unfolding diff_at list_eq
contents = refl

file-Below : Below (one_file (codes "ab")) [] (codes "f" ∷ [])
file-Below = child (record { mtime = 0 }) _ _ refl refl (inl refl) here

diff_at-Alike_example : Alike (one_file (codes "ab")) (one_file (codes "ab")) (codes "f" ∷ [])
unfolding diff_at list_eq
diff_at-Alike_example =
    diff_at-Alike 3 (one_file (codes "ab")) (one_file (codes "ab")) [] (codes "f" ∷ []) refl
      file-Below

one_file-IsShallow : IsShallow (one_file (codes "ab")) 2 []
one_file-IsShallow es e listed i ds d nothing j = cc

diff_at_ends_example :
    (d : Option Difference) × (diff_at 2 (one_file (codes "ab")) (one_file (codes "b")) [] ≡ some d)
diff_at_ends_example =
    diff_at_ends 2 (one_file (codes "ab")) (one_file (codes "b")) [] one_file-IsShallow
