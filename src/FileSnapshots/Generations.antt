-- ===== src/FileSnapshots/Generations.antt =====
-- Generations only grow, and grow for what changed.
use makebelieve.Base.{
  ℕ, suc, ◌+◌, ◌^◌, ◌≤◌, ◌<◌, ◌≡◌, refl, sym, ◌∙◌, ◌≢◌, ◌⊎◌, inl, inr, true, false, List, [], ◌∷◌,
  arith, ltb, Bool-cases, length, In, ℕ-HasTest, List-HasTest, eq_cases,
}
use makebelieve.Base.OrdMap
use makebelieve.Paths.{FilePath, FilePath-Order}
use makebelieve.DirectoryTree.{DirectoryTreeDiff}
use makebelieve.FileSnapshots.{
  Snapshots, tick, change_path, change_paths, changed, or_zero, larger, generation,
}

tick_next : (c : ℕ) → suc c < 2 ^ 64 → tick c ≡ suc c
unfolding tick
tick_next c h = omega (arith, h)

-- No generation is past the clock.
pub record IsOrdered (s : Snapshots) : Type 0 where
  pub everything : s.everything ≤ s.clock
  pub files : (p : FilePath) → or_zero (OrdMap.find p s.generations) ≤ s.clock

-- From one state to a later one: no generation falls, those of `named` pass the clock there was,
-- and the others stay.
record Grown (named : List FilePath) (s r : Snapshots) : Type 0 where
  ordered : IsOrdered r
  clock : s.clock ≤ r.clock
  grows : (p : FilePath) → generation s p ≤ generation r p
  passes : (p : FilePath) → In p named → s.clock < generation r p
  stays : (p : FilePath) → ¬ In p named → generation r p ≡ generation s p

pub generation_bound : (s : Snapshots) (p : FilePath) → IsOrdered s → generation s p ≤ s.clock
unfolding generation
generation_bound s p o = ground (arith, o.everything, o.files p)

larger_right : (a b : ℕ) → a ≤ b → larger a b ≡ b
larger_right a b h = elim (Bool-cases (ltb a b)) [ inl t ↦ rw t refl | inr t ↦ ground arith ]

larger_left : (a : ℕ) → larger a 0 ≡ a
larger_left a = elim (Bool-cases (ltb a 0)) [ inl t ↦ ground arith | inr t ↦ rw t refl ]

generation_here :
    (q : FilePath) (s : Snapshots)
    → IsOrdered s
    → suc s.clock < 2 ^ 64
    → generation (change_path q s) q ≡ suc s.clock
unfolding generation change_path
generation_here q s o small =
    rw (OrdMap.find_same q (tick s.clock) s.generations, tick_next s.clock small)
      (larger_right s.everything (suc s.clock) (omega (arith, o.everything)))

generation_there :
    (q p : FilePath) (s : Snapshots) → q ≢ p → generation (change_path q s) p ≡ generation s p
unfolding generation change_path
generation_there q p s ne = rw (OrdMap.find_other q p (tick s.clock) s.generations ne) refl

path-IsOrdered :
    (q : FilePath) (s : Snapshots)
    → IsOrdered s
    → suc s.clock < 2 ^ 64
    → IsOrdered (change_path q s)
unfolding change_path
path-IsOrdered q s o small = record {
  everything = omega (arith, o.everything, tick_next s.clock small);
  files = λ p. elim (eq_cases q p) [
    | inl (e, _) ↦ rw (← e, OrdMap.find_same q (tick s.clock) s.generations) (omega arith)
    | inr (ne, _) ↦
        rw (OrdMap.find_other q p (tick s.clock) s.generations ne)
          (omega (arith, o.files p, tick_next s.clock small))
  ];
}

path_clock :
    (q : FilePath) (s : Snapshots) → suc s.clock < 2 ^ 64 → (change_path q s).clock ≡ suc s.clock
unfolding change_path
path_clock q s small = tick_next s.clock small

path-Grown :
    (q : FilePath) (s : Snapshots)
    → IsOrdered s
    → suc s.clock < 2 ^ 64
    → Grown (q ∷ []) s (change_path q s)
path-Grown q s o small = record {
  ordered = path-IsOrdered q s o small;
  clock = omega (arith, path_clock q s small);
  grows = λ p. elim (eq_cases q p) [
    | inl (e, _) ↦ rw (← e) (omega (arith, generation_here q s o small, generation_bound s q o))
    | inr (ne, _) ↦ omega (arith, generation_there q p s ne)
  ];
  passes = λ p h. elim h [
    | inl e ↦ rw e (omega (arith, generation_here q s o small))
    | inr never ↦ absurd never
  ];
  stays = λ p h. elim (eq_cases q p) [
    | inl (e, _) ↦ absurd (h (inl (sym e)))
    | inr (ne, _) ↦ generation_there q p s ne
  ];
}

paths-Grown :
    (qs : List FilePath) (s : Snapshots)
    → IsOrdered s
    → s.clock + length qs < 2 ^ 64
    → Grown qs s (change_paths qs s)
unfolding change_paths
paths-Grown [] s o small = record {
  ordered = o;
  clock = omega arith;
  grows = λ p. omega arith;
  passes = λ p h. absurd h;
  stays = λ p h. refl;
}
paths-Grown (q ∷ qs) s o small =
    let a = path-Grown q s o (omega (arith, small)) in
    let b =
      paths-Grown qs (change_path q s) a.ordered
        (omega (arith, small, path_clock q s (omega (arith, small)))) in
    record {
      ordered = b.ordered;
      clock = omega (arith, a.clock, b.clock);
      grows = λ p. omega (arith, a.grows p, b.grows p);
      passes = λ p h. elim h [
        | inl e ↦ omega (arith, a.passes p (inl e), b.grows p)
        | inr later ↦ omega (arith, b.passes p later, a.clock)
      ];
      stays = λ p h. b.stays p (λ x. h (inr x)) ∙ a.stays p (λ x. h (x0 p x));
    }
  where
    x0 : (p : FilePath) → In p (q ∷ []) → In p (q ∷ qs)
    x0 p (inl e) = inl e
    x0 p (inr never) = absurd never

all_passed :
    (s : Snapshots) (p : FilePath)
    → suc s.clock < 2 ^ 64
    → generation
        (record s {
          clock = tick s.clock;
          everything = tick s.clock;
          generations = [];
          current = [];
        })
        p
      ≡ suc s.clock
unfolding generation OrdMap.find
all_passed s p small = larger_left (tick s.clock) ∙ tick_next s.clock small

paths_clock :
    (qs : List FilePath) (s : Snapshots)
    → s.clock + length qs < 2 ^ 64
    → (change_paths qs s).clock ≡ s.clock + length qs
unfolding change_paths
paths_clock [] s small = omega arith
paths_clock (q ∷ qs) s small =
    let first = path_clock q s (omega (arith, small)) in
    omega (arith, first, paths_clock qs (change_path q s) (omega (arith, small, first)))

pub changed_clock :
    (diff : DirectoryTreeDiff) (s : Snapshots)
    → suc (s.clock + length diff.entries_changed) < 2 ^ 64
    → (s.clock ≤ (changed diff s).clock)
      × ((changed diff s).clock ≤ suc (s.clock + length diff.entries_changed))
unfolding changed
changed_clock diff s small = elim (Bool-cases diff.everything_dirty) [
  | inl t ↦
      let next = tick_next s.clock (omega (arith, small)) in
      rw t (omega (arith, next), omega (arith, next))
  | inr t ↦
      let next = paths_clock diff.entries_changed s (omega (arith, small)) in
      rw t (omega (arith, next), omega (arith, next))
]

-- While the clock does not wrap, a change moves the generation of every file it names, or of every
-- file if it says that everything is dirty, past all that there were; no generation falls, none is
-- past the clock, and that of a file not named stays.
pub changed-generation :
    (diff : DirectoryTreeDiff) (s : Snapshots) (p : FilePath)
    → IsOrdered s
    → suc (s.clock + length diff.entries_changed) < 2 ^ 64
    → IsOrdered (changed diff s)
      × (generation s p ≤ generation (changed diff s) p)
      × ((diff.everything_dirty ≡ true) ⊎ In p diff.entries_changed
          → s.clock < generation (changed diff s) p)
      × (diff.everything_dirty ≡ false
          → ¬ In p diff.entries_changed
          → generation (changed diff s) p ≡ generation s p)
unfolding changed
changed-generation diff s p o small = elim (Bool-cases diff.everything_dirty) [
  | inl t ↦
      let all = all_passed s p (omega (arith, small)) in
      rw t (
        record { everything = omega arith; files = λ q. unfold OrdMap.find in omega arith },
        omega (arith, all, generation_bound s p o),
        λ h. omega (arith, all),
        λ h out. cc,
      )
  | inr t ↦
      let g = paths-Grown diff.entries_changed s o (omega (arith, small)) in
      rw t (
        g.ordered,
        g.grows p,
        (λ h. elim h [ inl d ↦ cc | inr i ↦ g.passes p i ]),
        λ h out. g.stays p out,
      )
]
