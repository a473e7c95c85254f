-- ===== src/Coordinator/Requests/Acyclic.antt =====
-- What a new wait does to chains of attempts.
use makebelieve.Base.{
  ℕ, ◌≤◌, ◌<◌, ◌≡◌, subst, ◌⊎◌, inl, inr, arith, length, ℕ-HasTest, List-HasTest,
}
use makebelieve.Coordinator.{Coordinator, Edge, Leads, stay, onward}
use makebelieve.Coordinator.Search.Ends.{IsBounded}
use makebelieve.Coordinator.Transitions.Shrinks.{Narrows}

-- `d` has what `c` has, and at most that `from` waits on `to`.
pub record Adds (from to : ℕ) (c d : Coordinator) : Type 0 where
  pub edges : (a b : ℕ) → Edge d a b → Edge c a b ⊎ ((a ≡ from) × (b ≡ to))
  pub size : length c.attempts ≤ length d.attempts

pub record IsSound (c : Coordinator) : Type 0 where
  pub bounded : IsBounded c
  pub acyclic : (a b : ℕ) → Edge c a b → ¬ Leads c b a

Leads-less :
    {c d : Coordinator} {a b : ℕ}
    → ((m n : ℕ) → Edge d m n → Edge c m n)
    → Leads d a b
    → Leads c a b
Leads-less h stay = stay
Leads-less h (onward {a} {m} e k) = onward (h a m e) (Leads-less h k)

-- A chain that may use the new edge is one without it, or goes through it.
Leads-split :
    {from to : ℕ} {c d : Coordinator} {a b : ℕ}
    → Adds from to c d
    → Leads d a b
    → Leads c a b ⊎ (Leads c a from × Leads c to b)
Leads-split h stay = inl stay
Leads-split {from} {to} {c} {d} {b = b} h (onward {a} {m} e k) = elim (h.edges a m e) [
  | inl old ↦ elim (Leads-split h k) [
    | inl l ↦ inl (onward old l)
    | inr (x, y) ↦ inr (onward old x, y)
  ]
  | inr (at_from, at_to) ↦ elim (Leads-split h k) [
    | inl l ↦ inr (subst (λ n. Leads c a n) at_from stay, subst (λ n. Leads c n b) at_to l)
    | inr (x, y) ↦ inr (subst (λ n. Leads c a n) at_from stay, y)
  ]
]

pub Leads-trans : {c : Coordinator} {a m b : ℕ} → Leads c a m → Leads c m b → Leads c a b
Leads-trans stay k = k
Leads-trans (onward e h) k = onward e (Leads-trans h k)

-- Nothing leads out of the store.
pub Leads-bounded :
    {c : Coordinator} {a b : ℕ}
    → IsBounded c
    → Leads c a b
    → a < length c.attempts
    → b < length c.attempts
Leads-bounded k stay h = h
Leads-bounded k (onward {a} {m} e l) h = Leads-bounded k l (k a m e)

pub Narrows-IsSound : {c d : Coordinator} → Narrows c d → IsSound c → IsSound d
Narrows-IsSound h s = record {
  bounded = λ a b e. omega (arith, s.bounded a b (h.edges a b e), h.size);
  acyclic = λ a b e l. s.acyclic a b (h.edges a b e) (Leads-less h.edges l);
}

pub Adds-IsSound :
    {from to : ℕ} {c d : Coordinator}
    → Adds from to c d
    → to < length c.attempts
    → ¬ Leads c to from
    → IsSound c
    → IsSound d
Adds-IsSound {from} {to} {c} {d} h there apart s = record {
  bounded = λ a b e. elim (h.edges a b e) [
    | inl old ↦ omega (arith, s.bounded a b old, h.size)
    | inr (_, at_to) ↦ omega (arith, at_to, there, h.size)
  ];
  acyclic = λ a b e l. elim (h.edges a b e) [
    | inl old ↦ elim (Leads-split h l) [
      | inl k ↦ s.acyclic a b old k
      | inr (x, y) ↦ apart (Leads-trans y (onward old x))
    ]
    | inr (at_from, at_to) ↦
        let k : Leads d to from =
          subst (λ n. Leads d to n) at_from (subst (λ n. Leads d n a) at_to l) in
        elim (Leads-split h k) [ inl k ↦ apart k | inr (x, y) ↦ apart x ]
  ];
}
