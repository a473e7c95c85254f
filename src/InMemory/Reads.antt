-- ===== src/InMemory/Reads.antt =====
-- `status`, `ls`, `read` and `read_whole`, and what they return.
pub mod Pieces
use makebelieve.Base.{
  ℕ, zero, suc, ◌+◌, ◌-◌, ◌*◌, ◌%◌, ◌^◌, ◌≤◌, ◌<◌, ◌≡◌, refl, sym, ap, subst, ◌∙◌, ◌≢◌, ◌↔◌, ◌⊎◌,
  inl, inr, Bool, true, false, not, ◌&&◌, ◌||◌, Option, none, some, List, [], ◌∷◌, ◌++◌, map,
  reverse, arith, ltb, leb, nat_eq, if◌then◌else◌, nat_eq_iff, ltb→lt, lt→ltb, Bool-cases,
  Option-cases, and_left, and_right, or_right, length, get_elem?, take, drop, find_if, any_of,
  all_of, keep, All, In, AllPairs, length-append, take-append, drop-append, All-append, All-keep,
  All-map, AllPairs-keep, AllPairs-concat, HasTest, ◌==◌, ℕ-HasTest, List-HasTest, list_eq, eq_iff,
  eq_self, eq_cases, Result, ok, err, ◌>>=◌, ◌>>◌, reject_if, ok_steps, reject_if-eq-ok,
  after_check, ok-injective, ne_test,
}
use makebelieve.Base.OrdMap
use makebelieve.Text.{Bytes}
use makebelieve.Paths.{FilePath, parent_path, filename}
use makebelieve.DirectoryTree.{
  ℤ, pos, negsuc, FileInfo, EntryInfo, file, directory, FileContent, TreeEntry, ErrorCode,
  no_such_file_or_directory, is_a_directory, invalid_argument,
}
use makebelieve.InMemory.{Tree, Node, Entries, normalize, is_directory}

-- What follows once a path is normalized.
abbrev inside {κ} :
    {T : Type κ} → Option FilePath → (FilePath → Result ErrorCode T) → Result ErrorCode T
inside none next = err no_such_file_or_directory
inside (some p) next = next p

abbrev entry : Option Node → Result ErrorCode Node
entry none = err no_such_file_or_directory
entry (some n) = ok n

unfoldable pub status : Tree → Bytes → Result ErrorCode EntryInfo
unfolding normalize OrdMap.find
status t path = inside (normalize path) λ p. do n ← entry (OrdMap.find p t.entries); ok n.info

-- The loop of `ls`: the children of `p`, in the order of the map.
unfoldable pub children : FilePath → Entries → List TreeEntry
unfolding parent_path filename
children p [] = []
children p ((q, n) ∷ entries) =
    let rest = children p entries in
    if not (q == p) && parent_path q == p
    then (record { name = filename q; info = n.info }) ∷ rest
    else rest

unfoldable pub list_entry : Tree → FilePath → Result ErrorCode (List TreeEntry)
unfolding OrdMap.find is_directory children
list_entry t p =
    if is_directory (OrdMap.find p t.entries)
    then ok (children p t.entries)
    else err no_such_file_or_directory

unfoldable pub ls : Tree → Bytes → Result ErrorCode (List TreeEntry)
unfolding normalize list_entry
ls t path = inside (normalize path) (list_entry t)

abbrev bytes_of : Option Bytes → Bytes
bytes_of none = []
bytes_of (some b) = b

-- The content of a file from an offset, at most `size` bytes of it.
abbrev slice : Bytes → ℕ → ℕ → EntryInfo → Result ErrorCode Bytes
slice content offset size (directory i) = err is_a_directory
slice content offset size (file i) =
    if leb (length content) offset then ok [] else ok (take size (drop offset content))

unfoldable pub read : Tree → Bytes → ℤ → ℕ → Result ErrorCode Bytes
unfolding normalize OrdMap.find
read t path offset size = inside (normalize path) λ p. elim offset [
  | negsuc n ↦ err invalid_argument
  | pos n ↦
      if size == 0
      then ok []
      else (do m ← entry (OrdMap.find p t.entries); slice (bytes_of m.content) n size m.info)
]

abbrev whole : Bytes → EntryInfo → Result ErrorCode FileContent
whole content (directory i) = err is_a_directory
whole content (file i) = ok (record { bytes = content; info = i })

unfoldable pub read_whole : Tree → Bytes → Result ErrorCode FileContent
unfolding normalize OrdMap.find
read_whole t path =
    inside (normalize path)
      λ p. do n ← entry (OrdMap.find p t.entries); whole (bytes_of n.content) n.info
