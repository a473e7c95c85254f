-- ===== src/DirectoryTree/Util.antt =====
-- src/directorytreeutil.cpp: the difference of two trees. A message is a constructor with its
-- arguments. The recursion is on fuel, more than the depth of a tree.
pub mod Alike
pub mod Ends
mod Tests
use makebelieve.Base.{
  ℕ, zero, suc, ◌+◌, ◌-◌, ◌*◌, ◌%◌, ◌^◌, ◌≤◌, ◌<◌, ◌≡◌, refl, sym, ap, subst, ◌∙◌, ◌≢◌, ◌↔◌, ◌⊎◌,
  inl, inr, Bool, true, false, not, ◌&&◌, ◌||◌, Option, none, some, List, [], ◌∷◌, ◌++◌, map,
  reverse, arith, ltb, leb, nat_eq, if◌then◌else◌, nat_eq_iff, ltb→lt, lt→ltb, Bool-cases,
  Option-cases, and_left, and_right, or_right, length, get_elem?, take, drop, find_if, any_of,
  all_of, keep, All, In, AllPairs, length-append, take-append, drop-append, All-append, All-keep,
  All-map, AllPairs-keep, AllPairs-concat, HasTest, ◌==◌, ℕ-HasTest, List-HasTest, list_eq, eq_iff,
  eq_self, eq_cases, Result, ok, err, ◌>>=◌, ◌>>◌, reject_if, ok_steps, reject_if-eq-ok,
  after_check, ok-injective, ne_test,
}
use makebelieve.Text.{Bytes}
use makebelieve.Paths.{FilePath, bytes_before}
use makebelieve.DirectoryTree.{
  FileInfo, DirectoryInfo, EntryInfo, file, directory, TreeEntry, ErrorCode,
}

-- What `diff_at` calls of a `DirectoryTree`. `read` is `DirectoryTreeUtil::read`.
pub record DirectoryTree : Type 0 where
  pub status : FilePath → Result ErrorCode EntryInfo
  pub ls : FilePath → Result ErrorCode (List TreeEntry)
  pub read : FilePath → ℕ → ℕ → Result ErrorCode Bytes

-- A Boolean says whether it is the first tree that has the entry, or that failed.
pub data Difference : Type 0 where
  exists_in_one : FilePath → Bool → Difference
  kinds_differ : FilePath → EntryInfo → EntryInfo → Difference
  failed_to_read : FilePath → Bool → Difference
  content_differs : FilePath → ℕ → ℕ → Difference
  failed_to_list : FilePath → Bool → Difference
  children_differ : FilePath → List Bytes → List Bytes → Difference

abbrev insert_name : Bytes → List Bytes → List Bytes
insert_name name [] = name ∷ []
insert_name name (other ∷ names) =
    let rest = insert_name name names in
    if bytes_before other name then other ∷ rest else name ∷ other ∷ names

unfoldable pub sorted_names : List TreeEntry → List Bytes
unfolding bytes_before
sorted_names [] = []
sorted_names (e ∷ entries) = insert_name e.name (sorted_names entries)

-- The loop over the children; `none` is the end of the fuel.
unfoldable pub first_difference :
    (FilePath → Option (Option Difference)) → FilePath → List Bytes → Option (Option Difference)
first_difference compare_child path [] = some none
first_difference compare_child path (name ∷ names) = elim (compare_child (path ++ name ∷ [])) [
  | none ↦ none
  | some (some d) ↦ some (some d)
  | some none ↦ first_difference compare_child path names
]

abbrev compare_files :
    FilePath → Result ErrorCode Bytes → Result ErrorCode Bytes → Option Difference
compare_files path (err e) other = some (failed_to_read path true)
compare_files path (ok x) (err e) = some (failed_to_read path false)
compare_files path (ok x) (ok y) =
    if x == y then none else some (content_differs path (length x) (length y))

abbrev compare_names :
    (FilePath → Option (Option Difference))
    → FilePath
    → List Bytes
    → List Bytes
    → Option (Option Difference)
compare_names compare_child path names others = elim (names == others) [
  | true ↦ first_difference compare_child path names
  | false ↦ some (some (children_differ path names others))
]

abbrev compare_lists :
    (FilePath → Option (Option Difference))
    → FilePath
    → Result ErrorCode (List TreeEntry)
    → Result ErrorCode (List TreeEntry)
    → Option (Option Difference)
compare_lists compare_child path (err e) other = some (some (failed_to_list path true))
compare_lists compare_child path (ok es) (err e) = some (some (failed_to_list path false))
compare_lists compare_child path (ok es) (ok fs) =
    compare_names compare_child path (sorted_names es) (sorted_names fs)

abbrev compare_status :
    (FilePath → Option (Option Difference))
    → DirectoryTree
    → DirectoryTree
    → FilePath
    → Result ErrorCode EntryInfo
    → Result ErrorCode EntryInfo
    → Option (Option Difference)
compare_status compare_child a b path (err e) (err f) = some none
compare_status compare_child a b path (ok i) (err f) = some (some (exists_in_one path true))
compare_status compare_child a b path (err e) (ok j) = some (some (exists_in_one path false))
compare_status compare_child a b path (ok (file i)) (ok (file j)) =
    some (compare_files path (a.read path 0 i.size) (b.read path 0 j.size))
compare_status compare_child a b path (ok (directory i)) (ok (directory j)) =
    compare_lists compare_child path (a.ls path) (b.ls path)
compare_status compare_child a b path (ok i) (ok j) = some (some (kinds_differ path i j))

unfoldable pub diff_at : ℕ → DirectoryTree → DirectoryTree → FilePath → Option (Option Difference)
unfolding first_difference sorted_names
diff_at zero a b path = none
diff_at (suc fuel) a b path =
    compare_status (diff_at fuel a b) a b path (a.status path) (b.status path)

unfoldable pub diff : ℕ → DirectoryTree → DirectoryTree → Option (Option Difference)
unfolding diff_at
diff fuel a b = diff_at fuel a b []
