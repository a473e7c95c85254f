-- ===== src/InMemory/Reachable.antt =====
-- Every tree that the operations lead to is well formed.
use makebelieve.Base.{ℕ, ◌≡◌, refl, subst, some, [], ◌∷◌, ℕ-HasTest, List-HasTest, list_eq}
use makebelieve.Base.OrdMap
use makebelieve.Base.Optional.{some_step, some_value}
use makebelieve.Text.{Bytes}
use makebelieve.Paths.{FilePath, FilePath-Order}
use makebelieve.InMemory.{
  Tree, Node, Change, normalize, is_directory, dir_node, write_file, make_directory, remove,
  set_mtime, initial, subscribe, unsubscribe,
}
use makebelieve.InMemory.Valid.{
  IsValid, Holds, write_entry-IsValid, make_entry-IsValid, remove_entry-IsValid,
  touch_entry-IsValid,
}

-- A change that an operation makes to a tree.
pub data Step (t : Tree) : Change → Type 0 where
  written :
      (path content : Bytes) (mtime : ℕ) {c : Change}
      → write_file t path content mtime ≡ some c
      → Step t c
  made : (path : Bytes) (mtime : ℕ) {c : Change} → make_directory t path mtime ≡ some c → Step t c
  removed : (path : Bytes) {c : Change} → remove t path ≡ some c → Step t c
  touched : (path : Bytes) (mtime : ℕ) {c : Change} → set_mtime t path mtime ≡ some c → Step t c

-- The trees that the operations lead to.
pub data Reached : Tree → Type 0 where
  fresh : Reached initial
  stepped : {t : Tree} {c : Change} → Reached t → Step t c → Reached c.tree
  joined : {t : Tree} → Reached t → (callback : ℕ) → Reached (subscribe t callback)
  left : {t : Tree} → Reached t → (callback : ℕ) → Reached (unsubscribe t callback)

pub Step-IsValid : {t : Tree} {c : Change} → IsValid t.entries → Step t c → IsValid c.tree.entries
unfolding write_file make_directory remove set_mtime
Step-IsValid {t} v (written path content mtime h) =
    let (p, _, e) = some_step (normalize path) _ h in write_entry-IsValid t p content mtime v e
Step-IsValid {t} v (made path mtime h) =
    let (p, _, e) = some_step (normalize path) _ h in make_entry-IsValid t p mtime v e
Step-IsValid {t} v (removed path h) =
    let (p, _, e) = some_step (normalize path) _ h in remove_entry-IsValid t p v e
Step-IsValid {t} v (touched path mtime h) =
    let (p, _, e) = some_step (normalize path) _ h in touch_entry-IsValid t p mtime v e

initial-IsValid : IsValid initial.entries
unfolding initial is_directory OrdMap.find list_eq
initial-IsValid = record { root = refl; parents = λ w p h. cc; holds = held }
  where
    held : (p : FilePath) (n : Node) → OrdMap.find p (([], dir_node 0) ∷ []) ≡ some n → Holds n
    held [] n e = subst Holds (some_value e) refl
    held (w ∷ p) n e = cc

-- Every tree that the operations lead to is well formed: its root is a directory, the parent of
-- every entry is a directory of the tree, a file has content of the size it says, and a directory
-- has none.
pub Reached-IsValid : {t : Tree} → Reached t → IsValid t.entries
unfolding subscribe unsubscribe
Reached-IsValid fresh = initial-IsValid
Reached-IsValid (stepped r s) = Step-IsValid (Reached-IsValid r) s
Reached-IsValid (joined r callback) = Reached-IsValid r
Reached-IsValid (left r callback) = Reached-IsValid r
