-- ===== src/Manifest/Feeds/Loops.antt =====
-- What each of the three loops of the closure keeps and adds.
use makebelieve.Base.{
  ℕ, zero, suc, ◌+◌, ◌≤◌, ◌<◌, ◌≡◌, refl, ◌∙◌, inl, inr, true, ◌&&◌, ◌||◌, arith, or_right,
  ℕ-HasTest, List-HasTest, eq_cases,
}
use makebelieve.Manifest.Feeds.Matrix.{Table, at, IsSquare, at-put_self, at-put_ne, put-IsSquare}
use makebelieve.Manifest.Feeds.{for_range, close_cell, close_row, close_via}

-- What every round keeps, the loop keeps.
pub for_range_keeps {ℓ κ} :
    {S : Type ℓ} (P : S → Type κ) (n : ℕ) (body : ℕ → S → S)
    → ((i : ℕ) (s : S) → i < n → P s → P (body i s))
    → (start rounds : ℕ) (s : S) → start + rounds ≤ n
    → P s
    → P (for_range start rounds body s)
unfolding for_range
for_range_keeps P n body keeps start zero s h p = p
for_range_keeps P n body keeps start (suc rounds) s h p =
    for_range_keeps P n body keeps (suc start) rounds (body start s) (omega arith)
      (keeps start s (omega arith) p)

-- Every entry set in the first table is set in the second.
abbrev pub Grows : Table → Table → Type 0
Grows m m' = (x y : ℕ) → at m x y ≡ true → at m' x y ≡ true

-- A square table in which the entries of `old` are still set.
abbrev pub Above : ℕ → Table → Table → Type 0
Above n old m = IsSquare n m × Grows old m

cell_value :
    (n via a b : ℕ) (m : Table)
    → IsSquare n m
    → a < n
    → b < n
    → at (close_cell via a b m) a b ≡ (at m a b || (at m a via && at m via b))
unfolding close_cell
cell_value n via a b m s ha hb = at-put_self m n a b _ s.1 (omega (arith, s.0)) hb

cell-Grows :
    (n via a b : ℕ) (m : Table) → IsSquare n m → a < n → b < n → Grows m (close_cell via a b m)
unfolding close_cell
cell-Grows n via a b m s ha hb x y h = elim (eq_cases a x) [
  | inl (e, _) ↦ elim (eq_cases b y) [
    | inl (f, _) ↦ rw (← e, ← f) (cell_value n via a b m s ha hb ∙ rw (e, f, h) refl)
    | inr (f, _) ↦ at-put_ne m a b x y _ (inr f) ∙ h
  ]
  | inr (e, _) ↦ at-put_ne m a b x y _ (inl e) ∙ h
]

pub cell-Above :
    (n via a : ℕ) (old : Table)
    → a < n
    → (b : ℕ) (m : Table) → b < n
    → Above n old m
    → Above n old (close_cell via a b m)
cell-Above n via a old ha b m hb (s, g) = (
  unfold close_cell in put-IsSquare m n a b _ s,
  λ x y h. cell-Grows n via a b m s ha hb x y (g x y h),
)

pub row-Above :
    (n via : ℕ) (old : Table)
    → (a : ℕ) (m : Table) → a < n
    → Above n old m
    → Above n old (close_row n via a m)
unfolding close_row
row-Above n via old a m ha p =
    for_range_keeps (Above n old) n (close_cell via a) (cell-Above n via a old ha) 0 n m
      (omega arith) p

pub via-Above :
    (n : ℕ) (old : Table)
    → (via : ℕ) (m : Table) → via < n
    → Above n old m
    → Above n old (close_via n via m)
unfolding close_via
via-Above n old via m h p =
    for_range_keeps (Above n old) n (close_row n via) (row-Above n via old) 0 n m (omega arith) p

-- The row loop sets each entry that two entries of an earlier table lead to.
row_adds :
    (n via a b : ℕ) (old : Table)
    → a < n
    → at old a via ≡ true
    → at old via b ≡ true
    → (start rounds : ℕ) (m : Table) → start + rounds ≤ n
    → start ≤ b
    → b < start + rounds
    → Above n old m
    → at (for_range start rounds (close_cell via a) m) a b ≡ true
unfolding for_range
row_adds n via a b old ha p q start zero m h l u k = absurd (omega arith)
row_adds n via a b old ha p q start (suc rounds) m h l u k =
    let next = cell-Above n via a old ha start m (omega arith) k in
    elim (eq_cases start b) [
      | inl (e, _) ↦
          let now : at (close_cell via a start m) a start ≡ true =
            cell_value n via a start m k.0 ha (omega arith)
            ∙ rw (k.1 a via p, k.1 via start (rw e q)) (or_right _ _ refl) in
          (for_range_keeps (Above n (close_cell via a start m)) n (close_cell via a)
              (cell-Above n via a (close_cell via a start m) ha) (suc start) rounds _ (omega arith)
              (next.0, λ x y t. t)).1
            a b (rw (← e) now)
      | inr (e, _) ↦
          row_adds n via a b old ha p q (suc start) rounds _ (omega arith) (omega arith)
            (omega arith) next
    ]

rows_add :
    (n via a b : ℕ) (old : Table)
    → b < n
    → at old a via ≡ true
    → at old via b ≡ true
    → (start rounds : ℕ) (m : Table) → start + rounds ≤ n
    → start ≤ a
    → a < start + rounds
    → Above n old m
    → at (for_range start rounds (close_row n via) m) a b ≡ true
unfolding for_range
rows_add n via a b old hb p q start zero m h l u k = absurd (omega arith)
rows_add n via a b old hb p q start (suc rounds) m h l u k =
    let next = row-Above n via old start m (omega arith) k in
    elim (eq_cases start a) [
      | inl (e, _) ↦
          let now : at (close_row n via start m) start b ≡ true =
            unfold close_row in
            row_adds n via start b old (omega arith) (rw e p) q 0 n m (omega arith) (omega arith)
              (omega arith) k in
          (for_range_keeps (Above n (close_row n via start m)) n (close_row n via)
              (row-Above n via (close_row n via start m)) (suc start) rounds _ (omega arith)
              (next.0, λ x y t. t)).1
            a b (rw (← e) now)
      | inr (e, _) ↦
          rows_add n via a b old hb p q (suc start) rounds _ (omega arith) (omega arith)
            (omega arith) next
    ]

-- One round of the outer loop joins every two entries that meet at `via`.
pub via_adds :
    (n via a b : ℕ) (m : Table)
    → IsSquare n m
    → a < n
    → b < n
    → at m a via ≡ true
    → at m via b ≡ true
    → at (close_via n via m) a b ≡ true
unfolding close_via
via_adds n via a b m s ha hb p q =
    rows_add n via a b m hb p q 0 n m (omega arith) (omega arith) (omega arith) (s, λ x y t. t)
