-- ===== src/Manifest/Feeds/Closure.antt =====
-- The closed table holds exactly the chains of the first.
use makebelieve.Base.{
  ℕ, zero, suc, ◌+◌, ◌≤◌, ◌<◌, ◌≡◌, sym, subst, ◌∙◌, ◌↔◌, ◌⊎◌, inl, inr, true, ◌&&◌, ◌||◌, arith,
  Bool-cases, ℕ-HasTest, List-HasTest, eq_cases,
}
use makebelieve.Manifest.Feeds.Matrix.{
  Table, at, put, IsSquare, at-put_self, at-put_ne, put-IsSquare, at_range,
}
use makebelieve.Manifest.Feeds.Loops.{for_range_keeps, Above, via-Above, via_adds}
use makebelieve.Manifest.Feeds.{for_range, close_cell, close_row, close_via, close}

-- A chain of one or more entries of a table.
pub data Chain (m : Table) : ℕ → ℕ → Type 0 where
  link : {a b : ℕ} → at m a b ≡ true → Chain m a b
  onward : {a c b : ℕ} → at m a c ≡ true → Chain m c b → Chain m a b

join : {m : Table} {a c b : ℕ} → Chain m a c → Chain m c b → Chain m a b
join (link h) d = onward h d
join (onward h c) d = onward h (join c d)

-- A square table whose entries are all chains of `old`.
abbrev IsSound : ℕ → Table → Table → Type 0
IsSound n old m = IsSquare n m × ((x y : ℕ) → at m x y ≡ true → Chain old x y)

joined :
    {old : Table} (m : Table) (a via b : ℕ)
    → ((x y : ℕ) → at m x y ≡ true → Chain old x y)
    → (at m a b || (at m a via && at m via b)) ≡ true
    → Chain old a b
joined m a via b h t = elim (Bool-cases (at m a b)) [
  | inl e ↦ h a b e
  | inr e ↦
      let first : at m a via ≡ true = ground arith in
      let second : at m via b ≡ true = ground arith in join (h a via first) (h via b second)
]

cell-IsSound :
    (n via a : ℕ) (old : Table)
    → a < n
    → (b : ℕ) (m : Table) → b < n
    → IsSound n old m
    → IsSound n old (close_cell via a b m)
unfolding close_cell
cell-IsSound n via a old ha b m hb (s, h) = (
  put-IsSquare m n a b _ s,
  λ x y t. elim (eq_cases a x) [
    | inl (e, _) ↦ elim (eq_cases b y) [
      | inl (f, _) ↦
          let v = at m a b || (at m a via && at m via b) in
          let u : at (put m a b v) a b ≡ true =
            subst (λ z. at (put m a b v) z b ≡ true) (sym e)
              (subst (λ z. at (put m a b v) x z ≡ true) (sym f) t) in
          subst (λ z. Chain old z y) e
            (subst (λ z. Chain old a z) f
              (joined m a via b h (sym (at-put_self m n a b v s.1 (omega (arith, s.0)) hb) ∙ u)))
      | inr (f, _) ↦ h x y (sym (at-put_ne m a b x y _ (inr f)) ∙ t)
    ]
    | inr (e, _) ↦ h x y (sym (at-put_ne m a b x y _ (inl e)) ∙ t)
  ],
)

row-IsSound :
    (n via : ℕ) (old : Table)
    → (a : ℕ) (m : Table) → a < n
    → IsSound n old m
    → IsSound n old (close_row n via a m)
unfolding close_row
row-IsSound n via old a m ha p =
    for_range_keeps (IsSound n old) n (close_cell via a) (cell-IsSound n via a old ha) 0 n m
      (omega arith) p

via-IsSound :
    (n : ℕ) (old : Table)
    → (via : ℕ) (m : Table) → via < n
    → IsSound n old m
    → IsSound n old (close_via n via m)
unfolding close_via
via-IsSound n old via m h p =
    for_range_keeps (IsSound n old) n (close_row n via) (row-IsSound n via old) 0 n m (omega arith)
      p

-- Chains whose inner places are all below `k`, as the rounds of the outer loop build them.
Within : Table → ℕ → ℕ → ℕ → Type 0
Within m zero a b = at m a b ≡ true
Within m (suc k) a b = Within m k a b ⊎ (Within m k a k × Within m k k b)

Joins : Table → ℕ → Type 0
Joins m k = (a c b : ℕ) → c < k → Within m k a c → Within m k c b → Within m k a b

to_last : (m : Table) (k a : ℕ) → Within m (suc k) a k → Within m k a k
unfolding Within
to_last m k a (inl x) = x
to_last m k a (inr (x, y)) = x

from_last : (m : Table) (k b : ℕ) → Within m (suc k) k b → Within m k k b
unfolding Within
from_last m k b (inl x) = x
from_last m k b (inr (x, y)) = y

join_below :
    (m : Table) (k a c b : ℕ)
    → Joins m k
    → c < k
    → Within m (suc k) a c
    → Within m (suc k) c b
    → Within m (suc k) a b
unfolding Within Joins
join_below m k a c b j l (inl x) (inl y) = inl (j a c b l x y)
join_below m k a c b j l (inl x) (inr (y, z)) = inr (j a c k l x y, z)
join_below m k a c b j l (inr (x, y)) (inl z) = inr (x, j k c b l y z)
join_below m k a c b j l (inr (x, y)) (inr (z, w)) = inr (x, w)

Within-Joins : (m : Table) (k : ℕ) → Joins m k
unfolding Joins
Within-Joins m zero a c b h p q = elim h [ ]
Within-Joins m (suc k) a c b h p q = elim (eq_cases c k) [
  | inl (e, _) ↦
      unfold Within in
      inr (
        to_last m k a (subst (Within m (suc k) a) e p),
        from_last m k b (subst (λ z. Within m (suc k) z b) e q),
      )
  | inr (e, _) ↦ join_below m k a c b (Within-Joins m k) (omega arith) p q
]

Within-edge : (m : Table) (k a b : ℕ) → at m a b ≡ true → Within m k a b
unfolding Within
Within-edge m zero a b h = h
Within-edge m (suc k) a b h = inl (Within-edge m k a b h)

Chain-Within : {m : Table} {a b : ℕ} (n : ℕ) → IsSquare n m → Chain m a b → Within m n a b
unfolding Joins
Chain-Within n s (link h) = Within-edge _ n _ _ h
Chain-Within {m} n s (onward {a} {c} {b} h d) =
    Within-Joins m n a c b (at_range m n a c s.1 h).1 (Within-edge m n a c h) (Chain-Within n s d)

-- The table after the rounds up to `k` has every chain through places below `k`.
abbrev Covers : ℕ → Table → ℕ → Table → Type 0
Covers n old k m = (a b : ℕ) → a < n → b < n → Within old k a b → at m a b ≡ true

rounds-Covers :
    (n stop : ℕ) (old : Table)
    → stop ≤ n
    → (start rounds : ℕ) (m : Table) → start + rounds ≡ stop
    → Above n old m
    → Covers n old start m
    → Covers n old stop (for_range start rounds (close_via n) m)
unfolding for_range Within
rounds-Covers n stop old hs start zero m e p c =
    λ a b ha hb w. c a b ha hb (subst (λ k. Within old k a b) (omega arith) w)
rounds-Covers n stop old hs start (suc rounds) m e p c =
    rounds-Covers n stop old hs (suc start) rounds (close_via n start m) (omega arith)
      (via-Above n old start m (omega arith) p) next
  where
    next : Covers n old (suc start) (close_via n start m)
    next a b ha hb (inl w) =
        (via-Above n m start m (omega arith) (p.0, λ x y t. t)).1 a b (c a b ha hb w)
    next a b ha hb (inr (v, w)) =
        via_adds n start a b m p.0 ha hb (c a start ha (omega arith) v)
          (c start b (omega arith) hb w)

-- After the three loops an entry is set exactly when a chain of entries leads there.
pub close_iff :
    (n : ℕ) (m : Table) (a b : ℕ)
    → IsSquare n m
    → a < n
    → b < n
    → (at (close n m) a b ≡ true) ↔ Chain m a b
unfolding close Within
close_iff n m a b s ha hb = (
  λ t.
      (for_range_keeps (IsSound n m) n (close_via n) (via-IsSound n m) 0 n m (omega arith)
          (s, λ x y h. link h)).1
        a b t,
  λ c.
      rounds-Covers n n m (omega arith) 0 n m (omega arith) (s, λ x y t. t) (λ x y _ _ h. h) a b ha
        hb (Chain-Within n s c),
)
