-- ===== src/InMemory/Diffs.antt =====
-- What a diff tells the subscribers.
use makebelieve.Base.{
  ◌≡◌, refl, sym, ap, subst, ◌∙◌, ◌⊎◌, inl, inr, Bool, true, false, Option, none, some, [], ◌∷◌,
  map, if◌then◌else◌, Bool-cases, keep, In, ℕ-HasTest, List-HasTest, eq_cases,
}
use makebelieve.Base.OrdMap
use makebelieve.Base.Optional.{some_step}
use mathlib.Core.Bool.{true≢false}
use makebelieve.Paths.{FilePath, FilePath-Order, parent_path}
use makebelieve.InMemory.{
  Tree, Node, Entries, Change, normalize, is_directory, is_none, is_gone, write_file,
  make_directory, remove, set_mtime, keys,
}
use makebelieve.InMemory.Entries.{
  find-keep, gone-parent_path, gone-is_within, write_entry-Written, make_entry-Made, Removed,
  remove_entry-Removed, touch_entry-Touched,
}
use makebelieve.InMemory.Valid.{IsValid, root_stays}
use makebelieve.InMemory.Reachable.{Step, written, made, removed, touched}

-- An entry that differs is in the diff, as is the parent of one that came or went; each
-- subscriber is told the diff, once.
pub record Reports (t : Tree) (c : Change) : Type 0 where
  pub entries :
      (q : FilePath)
      → (OrdMap.find q c.tree.entries ≡ OrdMap.find q t.entries) ⊎ In q c.diff.entries_changed
  pub lists :
      (q : FilePath)
      → (is_none (OrdMap.find q c.tree.entries) ≡ is_none (OrdMap.find q t.entries))
        ⊎ (In (parent_path q) c.diff.child_lists_changed
            ⊎ In (parent_path q) c.diff.entries_changed)
  pub told : c.notified ≡ map (λ callback. (callback, c.diff)) t.subscribers

-- One entry was put into the map.
put-Reports :
    (t : Tree) (p : FilePath) (n : Node) (c : Change)
    → c.tree.entries ≡ OrdMap.assign p n t.entries
    → c.diff.entries_changed ≡ p ∷ []
    → (is_none (OrdMap.find p t.entries) ≡ false)
      ⊎ (c.diff.child_lists_changed ≡ parent_path p ∷ [])
    → c.notified ≡ map (λ callback. (callback, c.diff)) t.subscribers
    → Reports t c
put-Reports t p n c put changed lists told = record {
  entries = λ q. elim (eq_cases p q) [
    | inl (e, _) ↦ inr (rw (changed, e) (inl refl))
    | inr (ne, _) ↦ inl (rw put (OrdMap.find_other p q n t.entries ne))
  ];
  lists = λ q. elim (eq_cases p q) [
    | inl (e, _) ↦ elim lists [
      | inl old ↦ inl (
          subst (λ x. is_none (OrdMap.find x c.tree.entries) ≡ is_none (OrdMap.find x t.entries)) e
            (rw (put, OrdMap.find_same p n t.entries) (sym old)))
      | inr listed ↦ inr (inl (rw (listed, e) (inl refl)))
    ]
    | inr (ne, _) ↦ inl (rw put (ap is_none (OrdMap.find_other p q n t.entries ne)))
  ];
  told = told;
}

found-key :
    (gone : FilePath → Bool) (q : FilePath) (m : Entries)
    → gone q ≡ true
    → is_none (OrdMap.find q m) ≡ false
    → In q (keys (keep (λ e. gone e.0) m))
unfolding OrdMap.find keys
found-key gone q [] g h = cc
found-key gone q ((k, n) ∷ m) g h = elim (eq_cases k q) [
  | inl (e, t) ↦ rw (e, g) (inl refl)
  | inr (ne, t) ↦
      let deeper =
        found-key gone q m g
          (subst (λ b. is_none (if b then some n else OrdMap.find q m) ≡ false) t h) in
      elim (Bool-cases (gone k)) [ inl r ↦ rw r (inr deeper) | inr r ↦ rw r deeper ]
]

keep-Reports :
    (t : Tree) (p : FilePath) (c : Change) → IsValid t.entries → Removed t p c → Reports t c
keep-Reports t p c v r = record {
  entries = λ q. elim (Bool-cases (is_gone p q)) [
    | inl g ↦ was_there q g
    | inr g ↦ inl (rw (r.entries, find-keep (is_gone p) q t.entries, g))
  ];
  lists = λ q. elim (Bool-cases (is_gone p q)) [
    | inl g ↦ lost q g
    | inr g ↦ inl (rw (r.entries, find-keep (is_gone p) q t.entries, g))
  ];
  told = r.told;
}
  where
    gone_now : (q : FilePath) → is_gone p q ≡ true → OrdMap.find q c.tree.entries ≡ none
    gone_now q g = rw (r.entries, find-keep (is_gone p) q t.entries, g)

    none_of : (n : Option Node) → is_none n ≡ true → n ≡ none
    none_of none h = refl
    none_of (some n) h = cc

    was_there :
        (q : FilePath)
        → is_gone p q ≡ true
        → (OrdMap.find q c.tree.entries ≡ OrdMap.find q t.entries) ⊎ In q c.diff.entries_changed
    was_there q g = elim (Bool-cases (is_none (OrdMap.find q t.entries))) [
      | inl h ↦ inl (gone_now q g ∙ sym (none_of (OrdMap.find q t.entries) h))
      | inr h ↦ inr (rw r.changed (found-key (is_gone p) q t.entries g h))
    ]

    known : (r : Option Node) → is_directory r ≡ true → is_none r ≡ false
    known none d = unfold is_directory in (sym d)
    known (some n) d = refl

    up :
        (q : FilePath)
        → is_gone p q ≡ true
        → is_none (OrdMap.find q t.entries) ≡ false
        → In (parent_path q) c.diff.child_lists_changed ⊎ In (parent_path q) c.diff.entries_changed
    up [] g h = absurd (true≢false (sym g ∙ root_stays p r.named))
    up (u ∷ w) g h = elim (eq_cases (u ∷ w) p) [
      | inl (e, _) ↦ inl (rw (r.lists, e) (inl refl))
      | inr (ne, _) ↦
          let above = gone-parent_path p u w (gone-is_within p (u ∷ w) ne g) in
          let there = known (OrdMap.find (parent_path (u ∷ w)) t.entries) (v.parents u w h) in
          inr (rw r.changed (found-key (is_gone p) (parent_path (u ∷ w)) t.entries above there))
    ]

    lost :
        (q : FilePath)
        → is_gone p q ≡ true
        → (is_none (OrdMap.find q c.tree.entries) ≡ is_none (OrdMap.find q t.entries))
          ⊎ (In (parent_path q) c.diff.child_lists_changed
              ⊎ In (parent_path q) c.diff.entries_changed)
    lost q g = elim (Bool-cases (is_none (OrdMap.find q t.entries))) [
      | inl h ↦ inl (ap is_none (gone_now q g ∙ sym (none_of (OrdMap.find q t.entries) h)))
      | inr h ↦ inr (up q g h)
    ]

-- After every operation on a well-formed tree, an entry that differs is in the diff's
-- `entries_changed`; the parent of an entry that came or went is in `child_lists_changed` or itself
-- in `entries_changed`; and each subscriber is told that diff once, in the order they subscribed.
pub Step-Reports : {t : Tree} {c : Change} → IsValid t.entries → Step t c → Reports t c
unfolding write_file make_directory remove set_mtime
Step-Reports {t} {c} v (written path content mtime h) =
    let (p, _, e) = some_step (normalize path) _ h in
    let w = write_entry-Written t p content mtime e in
    put-Reports t p _ c w.entries w.changed
      (elim (Bool-cases (is_none (OrdMap.find p t.entries))) [
        | inl n ↦ inr (rw (w.lists, n))
        | inr n ↦ inl n
      ])
      w.told
Step-Reports {t} {c} v (made path mtime h) =
    let (p, _, e) = some_step (normalize path) _ h in
    let w = make_entry-Made t p mtime e in
    put-Reports t p _ c w.entries w.changed (inr w.lists) w.told
Step-Reports {t} {c} v (removed path h) =
    let (p, _, e) = some_step (normalize path) _ h in
    keep-Reports t p c v (remove_entry-Removed t p e)
Step-Reports {t} {c} v (touched path mtime h) =
    let (p, _, e) = some_step (normalize path) _ h in
    let w = touch_entry-Touched t p mtime e in
    put-Reports t p _ c w.entries w.changed
      (inl (subst (λ r. is_none r ≡ false) (sym w.found) refl)) w.told
