-- ===== src/InMemory/Valid.antt =====
-- Every operation keeps the tree well formed.
use makebelieve.Base.{
  ℕ, ◌≡◌, refl, sym, ap, subst, ◌∙◌, ◌⊎◌, inl, inr, true, false, not, ◌||◌, Option, none, some, [],
  ◌∷◌, arith, if◌then◌else◌, Bool-cases, length, keep, ℕ-HasTest, List-HasTest, list_eq, eq_cases,
}
use makebelieve.Base.OrdMap
use makebelieve.Base.Optional.{some_value}
use mathlib.Core.Bool.{true≢false}
use makebelieve.Text.{Bytes, is_empty}
use makebelieve.Paths.{FilePath, FilePath-Order, parent_path, is_within}
use makebelieve.DirectoryTree.{EntryInfo, file, directory}
use makebelieve.InMemory.{
  Tree, Node, Entries, Change, is_directory, is_file, is_none, is_gone, dir_node, touch,
  parent_is_directory, write_entry, make_entry, remove_entry, touch_entry,
}
use makebelieve.InMemory.Entries.{
  find-keep, gone-parent, write_entry-Written, make_entry-Made, remove_entry-Removed,
  touch_entry-Touched,
}

-- A file has content of its size; a directory has none.
abbrev pub Holds : Node → Type 0
Holds n = elim n.info [
  | file i ↦ (c : Bytes) × (n.content ≡ some c) × (i.size ≡ length c)
  | directory i ↦ n.content ≡ none
]

-- The root is a directory, what has an entry has a directory for parent, and entries hold what
-- they say.
pub record IsValid (m : Entries) : Type 0 where
  pub root : is_directory (OrdMap.find [] m) ≡ true
  pub parents :
      (w : Bytes) (p : FilePath)
      → is_none (OrdMap.find (w ∷ p) m) ≡ false
      → is_directory (OrdMap.find (parent_path (w ∷ p)) m) ≡ true
  pub holds : (p : FilePath) (n : Node) → OrdMap.find p m ≡ some n → Holds n

-- A new entry, one in the place of a file, or one that stays a directory.
put-IsValid :
    (p : FilePath) (n : Node) (m : Entries)
    → (p ≡ []) ⊎ (parent_is_directory m p ≡ true)
    → (is_directory (OrdMap.find p m) ≡ true → is_directory (some n) ≡ true)
    → (p ≡ [] → is_directory (some n) ≡ true)
    → Holds n
    → IsValid m
    → IsValid (OrdMap.assign p n m)
put-IsValid p n m at keeps top h v = record {
  root = kind_at [] v.root;
  parents = λ u q present. kind_at (parent_path (u ∷ q)) (up u q present);
  holds = λ q k e. held q k e;
}
  where
    kind_at :
        (q : FilePath)
        → is_directory (OrdMap.find q m) ≡ true
        → is_directory (OrdMap.find q (OrdMap.assign p n m)) ≡ true
    kind_at q d = elim (eq_cases p q) [
      | inl (e, t) ↦ rw (← e, OrdMap.find_same p n m) (keeps (rw e d))
      | inr (ne, t) ↦ rw (OrdMap.find_other p q n m ne) d
    ]

    here :
        (u : Bytes) (q : FilePath)
        → p ≡ u ∷ q
        → (p ≡ []) ⊎ (parent_is_directory m p ≡ true)
        → is_directory (OrdMap.find (parent_path (u ∷ q)) m) ≡ true
    here u q e (inl z) = cc
    here u q e (inr d) =
        subst (λ x. is_directory (OrdMap.find (parent_path x) m) ≡ true) e
          (unfold parent_is_directory in d)

    up :
        (u : Bytes) (q : FilePath)
        → is_none (OrdMap.find (u ∷ q) (OrdMap.assign p n m)) ≡ false
        → is_directory (OrdMap.find (parent_path (u ∷ q)) m) ≡ true
    up u q present = elim (eq_cases p (u ∷ q)) [
      | inl (e, t) ↦ here u q e at
      | inr (ne, t) ↦ v.parents u q (rw (← OrdMap.find_other p (u ∷ q) n m ne) present)
    ]

    held : (q : FilePath) (k : Node) → OrdMap.find q (OrdMap.assign p n m) ≡ some k → Holds k
    held q k e = elim (eq_cases p q) [
      | inl (same, t) ↦
          subst Holds
            (some_value (
              sym (OrdMap.find_same p n m)
              ∙ subst (λ x. OrdMap.find x (OrdMap.assign p n m) ≡ some k) (sym same) e))
            h
      | inr (ne, t) ↦ v.holds q k (sym (OrdMap.find_other p q n m ne) ∙ e)
    ]

pub root_stays : (p : FilePath) → is_empty p ≡ false → is_gone p [] ≡ false
unfolding is_gone is_within list_eq is_empty
root_stays [] h = cc
root_stays (w ∷ p) h = refl

kept-present :
    (p q : FilePath) (m : Entries)
    → is_none (OrdMap.find q (keep (λ e. not (is_gone p e.0)) m)) ≡ false
    → (is_gone p q ≡ false) × (is_none (OrdMap.find q m) ≡ false)
kept-present p q m present = ground (arith, find-keep (is_gone p) q m, Bool-cases (is_gone p q))

kept_value :
    (p q : FilePath) (m : Entries) (n : Node)
    → OrdMap.find q (keep (λ e. not (is_gone p e.0)) m)
      ≡ (if is_gone p q then none else OrdMap.find q m)
    → OrdMap.find q (keep (λ e. not (is_gone p e.0)) m) ≡ some n
    → OrdMap.find q m ≡ some n
kept_value p q m n f e = elim (Bool-cases (is_gone p q)) [
  | inl g ↦ ground arith
  | inr g ↦ ground arith
]

keep-IsValid :
    (p : FilePath) (m : Entries)
    → is_empty p ≡ false
    → IsValid m
    → IsValid (keep (λ e. not (is_gone p e.0)) m)
keep-IsValid p m named v = record {
  root = rw (find-keep (is_gone p) [] m, root_stays p named) v.root;
  parents = λ w q present.
      let (stays, old) = kept-present p (w ∷ q) m present in
      rw (find-keep (is_gone p) (parent_path (w ∷ q)) m, above w q stays) (v.parents w q old);
  holds = λ q n e. v.holds q n (kept_value p q m n (find-keep (is_gone p) q m) e);
}
  where
    above :
        (w : Bytes) (q : FilePath)
        → is_gone p (w ∷ q) ≡ false
        → is_gone p (parent_path (w ∷ q)) ≡ false
    above w q stays = elim (Bool-cases (is_gone p (parent_path (w ∷ q)))) [
      | inl g ↦ absurd (true≢false (sym (gone-parent p w q g) ∙ stays))
      | inr g ↦ g
    ]

touch-Holds : (n : Node) (mtime : ℕ) → Holds n → Holds (record n { info = touch n.info mtime })
touch-Holds n mtime h = by_info n.info n.content mtime h
  where
    by_info :
        (i : EntryInfo) (c : Option Bytes) (mtime : ℕ)
        → Holds (record { info = i; content = c })
        → Holds (record { info = touch i mtime; content = c })
    by_info (file i) c mtime h = h
    by_info (directory i) c mtime h = h

touch-directory :
    (n : Node) (mtime : ℕ)
    → is_directory (some n) ≡ true
    → is_directory (some (record n { info = touch n.info mtime })) ≡ true
unfolding is_directory
touch-directory n mtime h = by_info n.info mtime h
  where
    by_info :
        (i : EntryInfo) (mtime : ℕ)
        → elim i [ file k ↦ false | directory k ↦ true ] ≡ true
        → elim (touch i mtime) [ file k ↦ false | directory k ↦ true ] ≡ true
    by_info (file i) mtime h = h
    by_info (directory i) mtime h = h

not_both : (r : Option Node) → (is_none r || is_file r) ≡ true → is_directory r ≡ false
unfolding is_directory is_file
not_both none h = refl
not_both (some n) h = by_info n.info h
  where
    by_info :
        (i : EntryInfo)
        → elim i [ file k ↦ true | directory k ↦ false ] ≡ true
        → elim i [ file k ↦ false | directory k ↦ true ] ≡ false
    by_info (file i) h = refl
    by_info (directory i) h = cc

pub write_entry-IsValid :
    (t : Tree) (p : FilePath) (content : Bytes) (mtime : ℕ) {c : Change}
    → IsValid t.entries
    → write_entry t p content mtime ≡ some c
    → IsValid c.tree.entries
unfolding is_empty
write_entry-IsValid t p content mtime {c} v h =
    let w = write_entry-Written t p content mtime h in
    rw (w.entries) (
      put-IsValid p
        (record {
          info = file (record { size = length content; mtime = mtime });
          content = some content;
        })
        t.entries (inr w.parent)
        (λ d. absurd (true≢false (sym d ∙ not_both (OrdMap.find p t.entries) w.target)))
        (λ e. absurd (true≢false (sym (ap is_empty e) ∙ w.named))) (content, refl, refl) v)

pub make_entry-IsValid :
    (t : Tree) (p : FilePath) (mtime : ℕ) {c : Change}
    → IsValid t.entries
    → make_entry t p mtime ≡ some c
    → IsValid c.tree.entries
make_entry-IsValid t p mtime {c} v h =
    let w = make_entry-Made t p mtime h in
    rw (w.entries) (
      put-IsValid p (dir_node mtime) t.entries (inr w.parent) (λ e. unfold is_directory in refl)
        (λ e. unfold is_directory in refl) refl v)

pub remove_entry-IsValid :
    (t : Tree) (p : FilePath) {c : Change}
    → IsValid t.entries
    → remove_entry t p ≡ some c
    → IsValid c.tree.entries
remove_entry-IsValid t p {c} v h =
    let w = remove_entry-Removed t p h in rw (w.entries) (keep-IsValid p t.entries w.named v)

pub touch_entry-IsValid :
    (t : Tree) (p : FilePath) (mtime : ℕ) {c : Change}
    → IsValid t.entries
    → touch_entry t p mtime ≡ some c
    → IsValid c.tree.entries
touch_entry-IsValid t p mtime {c} v h =
    let w = touch_entry-Touched t p mtime h in
    rw (w.entries) (
      put-IsValid p (record w.node { info = touch w.node.info mtime }) t.entries
        (place p (subst (λ r. is_none r ≡ false) (sym w.found) refl))
        (λ d. touch-directory w.node mtime (subst (λ r. is_directory r ≡ true) w.found d))
        (λ e.
          touch-directory w.node mtime (subst (λ r. is_directory r ≡ true) w.found (rw e v.root)))
        (touch-Holds w.node mtime (v.holds p w.node w.found)) v)
  where
    place :
        (p : FilePath)
        → is_none (OrdMap.find p t.entries) ≡ false
        → (p ≡ []) ⊎ (parent_is_directory t.entries p ≡ true)
    place [] h = inl refl
    place (u ∷ q) h = inr (unfold parent_is_directory in v.parents u q h)
