-- ===== src/InMemory/Entries.antt =====
-- What the map holds after an entry is written, or a directory is removed.
use makebelieve.Base.{
  ℕ, suc, ◌≡◌, refl, sym, ap, subst, ◌≢◌, ◌⊎◌, inl, inr, Bool, true, false, not, ◌||◌, none, some,
  [], ◌∷◌, ◌++◌, map, arith, if◌then◌else◌, or_right, length, keep, ◌==◌, ℕ-HasTest, List-HasTest,
  list_eq, eq_iff, eq_cases, ne_test,
}
use makebelieve.Base.OrdMap
use makebelieve.Base.Optional.{passed, some_step, some_value}
use mathlib.Core.List.{append_assoc}
use makebelieve.Text.{Bytes, is_empty}
use makebelieve.Paths.{FilePath, FilePath-Order, parent_path, filename, is_within}
use makebelieve.Paths.Ancestors.{parent-filename, is_within-Beneath, Beneath-is_within}
use makebelieve.DirectoryTree.{file}
use makebelieve.InMemory.{
  Tree, Node, Entries, Change, is_file, is_none, is_gone, dir_node, touch, parent_is_directory,
  write_entry, make_entry, remove_entry, touch_entry, notify, keys,
}

pub find-keep :
    (gone : FilePath → Bool) (q : FilePath) (m : Entries)
    → OrdMap.find q (keep (λ e. not (gone e.0)) m) ≡ (if gone q then none else OrdMap.find q m)
unfolding OrdMap.find
find-keep gone q [] = ground arith
find-keep gone q ((k, n) ∷ m) = ground (arith, find-keep gone q m, eq_iff k q)

length-parent : (w : Bytes) (p : FilePath) → length (w ∷ p) ≡ suc (length (parent_path (w ∷ p)))
unfolding parent_path
length-parent w [] = refl
length-parent w (v ∷ p) = ap suc (length-parent v p)

pub parent-ne : (p : FilePath) → p ≢ [] → p ≢ parent_path p
parent-ne [] h e = h refl
parent-ne (w ∷ p) h e = omega (arith, length-parent w p, ap length e)

is_within_child :
    (p d : FilePath) (name : Bytes)
    → is_within (d ++ name ∷ []) p ≡ true
    → (k : FilePath) → is_within ((d ++ name ∷ []) ++ k) p ≡ true
is_within_child p d name h k =
    let (n, r, e) = is_within-Beneath (d ++ name ∷ []) p h in
    rw (e, append_assoc) (Beneath-is_within p n (r ++ k))

extend_within :
    (p d : FilePath) (name : Bytes)
    → (d ≡ p) ⊎ (is_within d p ≡ true)
    → is_within (d ++ name ∷ []) p ≡ true
extend_within p d name (inl e) = rw e (Beneath-is_within p name [])
extend_within p d name (inr h) =
    let (n, r, e) = is_within-Beneath d p h in
    rw (e, append_assoc) (Beneath-is_within p n (r ++ name ∷ []))

-- A path whose parent is removed is removed.
pub gone-parent :
    (p : FilePath) (v : Bytes) (w : FilePath)
    → is_gone p (parent_path (v ∷ w)) ≡ true
    → is_gone p (v ∷ w) ≡ true
unfolding is_gone
gone-parent p v w g = or_right (v ∷ w == p) (is_within (v ∷ w) p) (
    rw (← parent-filename v w)
      (extend_within p (parent_path (v ∷ w)) (filename (v ∷ w)) (either g)))
  where
    either :
        (parent_path (v ∷ w) == p || is_within (parent_path (v ∷ w)) p) ≡ true
        → (parent_path (v ∷ w) ≡ p) ⊎ (is_within (parent_path (v ∷ w)) p ≡ true)
    either h = elim (eq_cases (parent_path (v ∷ w)) p) [
      | inl (e, _) ↦ inl e
      | inr (_, e) ↦ inr (ground arith)
    ]

pub gone-is_within : (p q : FilePath) → q ≢ p → is_gone p q ≡ true → is_within q p ≡ true
unfolding is_gone
gone-is_within p q ne g = subst (λ b. (b || is_within q p) ≡ true) (ne_test q p ne) g

pub gone-parent_path :
    (p : FilePath) (v : Bytes) (w : FilePath)
    → is_within (v ∷ w) p ≡ true
    → is_gone p (parent_path (v ∷ w)) ≡ true
unfolding is_gone is_within parent_path list_eq is_empty
gone-parent_path [] v [] h = refl
gone-parent_path [] v (u ∷ w) h = refl
gone-parent_path (x ∷ []) v [] h = ground arith
gone-parent_path (x ∷ y ∷ p) v [] h = ground arith
gone-parent_path (x ∷ p) v (u ∷ w) h = ground (arith, gone-parent_path p u w)

-- What a write that succeeded found and did.
pub record Written (t : Tree) (p : FilePath) (content : Bytes) (mtime : ℕ) (c : Change)
    : Type 0 where
  pub named : is_empty p ≡ false
  pub parent : parent_is_directory t.entries p ≡ true
  pub target : (is_none (OrdMap.find p t.entries) || is_file (OrdMap.find p t.entries)) ≡ true
  pub entries :
      c.tree.entries
      ≡ OrdMap.assign p
          (record {
            info = file (record { size = length content; mtime = mtime });
            content = some content;
          })
          t.entries
  pub changed : c.diff.entries_changed ≡ p ∷ []
  pub lists :
      c.diff.child_lists_changed
      ≡ (if is_none (OrdMap.find p t.entries) then parent_path p ∷ [] else [])
  pub told : c.notified ≡ map (λ callback. (callback, c.diff)) t.subscribers

pub write_entry-Written :
    (t : Tree) (p : FilePath) (content : Bytes) (mtime : ℕ) {c : Change}
    → write_entry t p content mtime ≡ some c
    → Written t p content mtime c
unfolding write_entry notify
write_entry-Written t p content mtime {c} h =
    let (a, h1) = passed (not (is_empty p)) _ h in
    let (b, h2) = passed (parent_is_directory t.entries p) _ h1 in
    let (d, h3) =
      passed (is_none (OrdMap.find p t.entries) || is_file (OrdMap.find p t.entries)) _ h2 in
    let done = some_value h3 in
    record {
      named = ground arith;
      parent = b;
      target = d;
      entries = ap (λ x. x.tree.entries) (sym done);
      changed = ap (λ x. x.diff.entries_changed) (sym done);
      lists = ap (λ x. x.diff.child_lists_changed) (sym done);
      told = subst (λ x. x.notified ≡ map (λ callback. (callback, x.diff)) t.subscribers) done refl;
    }

pub record Made (t : Tree) (p : FilePath) (mtime : ℕ) (c : Change) : Type 0 where
  pub named : is_empty p ≡ false
  pub parent : parent_is_directory t.entries p ≡ true
  pub target : is_none (OrdMap.find p t.entries) ≡ true
  pub entries : c.tree.entries ≡ OrdMap.assign p (dir_node mtime) t.entries
  pub changed : c.diff.entries_changed ≡ p ∷ []
  pub lists : c.diff.child_lists_changed ≡ parent_path p ∷ []
  pub told : c.notified ≡ map (λ callback. (callback, c.diff)) t.subscribers

pub make_entry-Made :
    (t : Tree) (p : FilePath) (mtime : ℕ) {c : Change}
    → make_entry t p mtime ≡ some c
    → Made t p mtime c
unfolding make_entry notify
make_entry-Made t p mtime {c} h =
    let (a, h1) = passed (not (is_empty p)) _ h in
    let (b, h2) = passed (parent_is_directory t.entries p) _ h1 in
    let (d, h3) = passed (is_none (OrdMap.find p t.entries)) _ h2 in
    let done = some_value h3 in
    record {
      named = ground arith;
      parent = b;
      target = d;
      entries = ap (λ x. x.tree.entries) (sym done);
      changed = ap (λ x. x.diff.entries_changed) (sym done);
      lists = ap (λ x. x.diff.child_lists_changed) (sym done);
      told = subst (λ x. x.notified ≡ map (λ callback. (callback, x.diff)) t.subscribers) done refl;
    }

pub record Removed (t : Tree) (p : FilePath) (c : Change) : Type 0 where
  pub named : is_empty p ≡ false
  pub entries : c.tree.entries ≡ keep (λ e. not (is_gone p e.0)) t.entries
  pub changed : c.diff.entries_changed ≡ keys (keep (λ e. is_gone p e.0) t.entries)
  pub lists : c.diff.child_lists_changed ≡ parent_path p ∷ []
  pub told : c.notified ≡ map (λ callback. (callback, c.diff)) t.subscribers

pub remove_entry-Removed :
    (t : Tree) (p : FilePath) {c : Change} → remove_entry t p ≡ some c → Removed t p c
unfolding remove_entry notify
remove_entry-Removed t p {c} h =
    let (a, h1) = passed (not (is_empty p)) _ h in
    let (b, h2) = passed (not (is_none (OrdMap.find p t.entries))) _ h1 in
    let done = some_value h2 in
    record {
      named = ground arith;
      entries = ap (λ x. x.tree.entries) (sym done);
      changed = ap (λ x. x.diff.entries_changed) (sym done);
      lists = ap (λ x. x.diff.child_lists_changed) (sym done);
      told = subst (λ x. x.notified ≡ map (λ callback. (callback, x.diff)) t.subscribers) done refl;
    }

pub record Touched (t : Tree) (p : FilePath) (mtime : ℕ) (c : Change) : Type 0 where
  pub node : Node
  pub found : OrdMap.find p t.entries ≡ some node
  pub entries :
      c.tree.entries ≡ OrdMap.assign p (record node { info = touch node.info mtime }) t.entries
  pub changed : c.diff.entries_changed ≡ p ∷ []
  pub lists : c.diff.child_lists_changed ≡ []
  pub told : c.notified ≡ map (λ callback. (callback, c.diff)) t.subscribers

pub touch_entry-Touched :
    (t : Tree) (p : FilePath) (mtime : ℕ) {c : Change}
    → touch_entry t p mtime ≡ some c
    → Touched t p mtime c
unfolding touch_entry notify
touch_entry-Touched t p mtime {c} h =
    let (n, f, h1) = some_step (OrdMap.find p t.entries) _ h in
    let done = some_value h1 in
    record {
      node = n;
      found = f;
      entries = ap (λ x. x.tree.entries) (sym done);
      changed = ap (λ x. x.diff.entries_changed) (sym done);
      lists = ap (λ x. x.diff.child_lists_changed) (sym done);
      told = subst (λ x. x.notified ≡ map (λ callback. (callback, x.diff)) t.subscribers) done refl;
    }
