-- ===== src/InMemory.antt =====
-- src/inmemorydirectorytree.cpp: a directory tree held in memory. A failed `assert` is `none`. Locks are
-- left out: each operation is one step, and subscribers are notified after it.
pub mod Entries
pub mod Valid
pub mod Reachable
pub mod Diffs
pub mod Reads
mod Tests
use makebelieve.Base.{
  ℕ, zero, suc, ◌+◌, ◌-◌, ◌*◌, ◌%◌, ◌^◌, ◌≤◌, ◌<◌, ◌≡◌, refl, sym, ap, subst, ◌∙◌, ◌≢◌, ◌↔◌, ◌⊎◌,
  inl, inr, Bool, true, false, not, ◌&&◌, ◌||◌, Option, none, some, List, [], ◌∷◌, ◌++◌, map,
  reverse, arith, ltb, leb, nat_eq, if◌then◌else◌, nat_eq_iff, ltb→lt, lt→ltb, Bool-cases,
  Option-cases, and_left, and_right, or_right, length, get_elem?, take, drop, find_if, any_of,
  all_of, keep, All, In, AllPairs, length-append, take-append, drop-append, All-append, All-keep,
  All-map, AllPairs-keep, AllPairs-concat, HasTest, ◌==◌, ℕ-HasTest, List-HasTest, list_eq, eq_iff,
  eq_self, eq_cases, Result, ok, err, reject_if, ok_steps, reject_if-eq-ok, after_check,
  ok-injective, ne_test,
}
use makebelieve.Base.OrdMap
use makebelieve.Base.Optional.{◌>>=◌, ◌>>◌, assert}
use makebelieve.Text.{Bytes, is_empty, starts_with}
use makebelieve.Paths.{
  FilePath, FilePath-Order, dot, dot_dot, elements, lexically_normal, parent_path, filename, front,
  is_within,
}
use makebelieve.DirectoryTree.{
  ℤ, pos, negsuc, FileInfo, DirectoryInfo, EntryInfo, file, directory, FileContent, TreeEntry,
  DirectoryTreeDiff, ErrorCode, no_such_file_or_directory, is_a_directory, invalid_argument,
}

unfoldable pub normalize : Bytes → Option FilePath
unfolding is_empty starts_with elements lexically_normal
normalize text =
    let normal = lexically_normal (elements text) in
    if is_empty text
    then some []
    else if starts_with text (b'/' ∷ [])
    then none
    else if front normal == dot_dot
    then none
    else some (if normal == dot ∷ [] then [] else normal)

pub record Node : Type 0 where
  pub info : EntryInfo
  pub content : Option Bytes

abbrev pub Entries : Type 0
Entries = List (FilePath × Node)

-- `subscribers` names the callbacks, in the order they subscribed.
pub record Tree : Type 0 where
  pub entries : Entries
  pub subscribers : List ℕ

-- A change, and the callbacks made for it.
pub record Change : Type 0 where
  pub tree : Tree
  pub diff : DirectoryTreeDiff
  pub notified : List (ℕ × DirectoryTreeDiff)

abbrev pub dir_node : ℕ → Node
dir_node mtime = record { info = directory (record { mtime = mtime }); content = none }

unfoldable pub initial : Tree
initial = record { entries = ([], dir_node 0) ∷ []; subscribers = [] }

unfoldable pub is_directory : Option Node → Bool
is_directory none = false
is_directory (some n) = elim n.info [ file i ↦ false | directory i ↦ true ]

unfoldable pub is_file : Option Node → Bool
is_file none = false
is_file (some n) = elim n.info [ file i ↦ true | directory i ↦ false ]

abbrev pub is_none : Option Node → Bool
is_none none = true
is_none (some n) = false

unfoldable pub notify : Tree → DirectoryTreeDiff → Change
notify t diff = record {
  tree = t;
  diff = diff;
  notified = map (λ callback. (callback, diff)) t.subscribers;
}

unfoldable pub parent_is_directory : Entries → FilePath → Bool
unfolding OrdMap.find is_directory parent_path
parent_is_directory entries p = is_directory (OrdMap.find (parent_path p) entries)

unfoldable pub write_entry : Tree → FilePath → Bytes → ℕ → Option Change
unfolding OrdMap.find OrdMap.assign parent_is_directory is_file notify parent_path is_empty
write_entry t p content mtime = do
  assert (not (is_empty p))
  assert (parent_is_directory t.entries p)
  let old = OrdMap.find p t.entries
  assert (is_none old || is_file old)
  some (
      notify
        (record t {
          entries =
              OrdMap.assign p
                (record {
                  info = file (record { size = length content; mtime = mtime });
                  content = some content;
                })
                t.entries;
        })
        (record {
          everything_dirty = false;
          entries_changed = p ∷ [];
          child_lists_changed = if is_none old then parent_path p ∷ [] else [];
        }))

unfoldable pub write_file : Tree → Bytes → Bytes → ℕ → Option Change
unfolding normalize write_entry
write_file t path content mtime = do p ← normalize path; write_entry t p content mtime

unfoldable pub make_entry : Tree → FilePath → ℕ → Option Change
unfolding OrdMap.find OrdMap.assign parent_is_directory notify parent_path is_empty
make_entry t p mtime = do
  assert (not (is_empty p))
  assert (parent_is_directory t.entries p)
  assert (is_none (OrdMap.find p t.entries))
  some (
      notify (record t { entries = OrdMap.assign p (dir_node mtime) t.entries })
        (record {
          everything_dirty = false;
          entries_changed = p ∷ [];
          child_lists_changed = parent_path p ∷ [];
        }))

unfoldable pub make_directory : Tree → Bytes → ℕ → Option Change
unfolding normalize make_entry
make_directory t path mtime = do p ← normalize path; make_entry t p mtime

-- The test of the loop in `remove`.
unfoldable pub is_gone : FilePath → FilePath → Bool
unfolding is_within
is_gone p q = q == p || is_within q p

unfoldable pub keys : Entries → List FilePath
keys m = map (λ e. e.0) m

unfoldable pub remove_entry : Tree → FilePath → Option Change
unfolding OrdMap.find is_gone notify keys parent_path is_empty
remove_entry t p = do
  assert (not (is_empty p))
  assert (not (is_none (OrdMap.find p t.entries)))
  some (
      notify (record t { entries = keep (λ e. not (is_gone p e.0)) t.entries })
        (record {
          everything_dirty = false;
          entries_changed = keys (keep (λ e. is_gone p e.0) t.entries);
          child_lists_changed = parent_path p ∷ [];
        }))

unfoldable pub remove : Tree → Bytes → Option Change
unfolding normalize remove_entry
remove t path = do p ← normalize path; remove_entry t p

abbrev pub touch : EntryInfo → ℕ → EntryInfo
touch (file i) mtime = file (record i { mtime = mtime })
touch (directory i) mtime = directory (record { mtime = mtime })

unfoldable pub touch_entry : Tree → FilePath → ℕ → Option Change
unfolding OrdMap.find OrdMap.assign notify
touch_entry t p mtime = do
  n ← OrdMap.find p t.entries
  some (
      notify
        (record t { entries = OrdMap.assign p (record n { info = touch n.info mtime }) t.entries })
        (record { everything_dirty = false; entries_changed = p ∷ []; child_lists_changed = [] }))

unfoldable pub set_mtime : Tree → Bytes → ℕ → Option Change
unfolding normalize touch_entry
set_mtime t path mtime = do p ← normalize path; touch_entry t p mtime

-- `subscribe_to_changes`, and what its subscription does when it goes.
unfoldable pub subscribe : Tree → ℕ → Tree
subscribe t callback = record t { subscribers = t.subscribers ++ callback ∷ [] }

unfoldable pub unsubscribe : Tree → ℕ → Tree
unsubscribe t callback = record t { subscribers = keep (λ c. not (c == callback)) t.subscribers }
