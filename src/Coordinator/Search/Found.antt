-- ===== src/Coordinator/Search/Found.antt =====
-- What the search finds, and what it means that it finds nothing.
use makebelieve.Base.{
  ℕ, zero, suc, ◌≡◌, refl, sym, subst, ◌∙◌, ◌≢◌, ◌⊎◌, inl, inr, Bool, true, false, some, List, [],
  ◌∷◌, arith, Bool-cases, or_right, length, In, ◌==◌, ℕ-HasTest, List-HasTest, eq_self, eq_cases,
}
use makebelieve.Coordinator.{Coordinator, nexts_at, Edge, Leads, stay, onward}
use makebelieve.Coordinator.Search.{Parents, seen, visit, visit_all, chain, search}

abbrev pub Seen : ℕ → Parents → Type 0
Seen a parents = seen a parents ≡ true

-- One visit, and a list of visits, of what `node` waits on.
pub record Visited (node : ℕ) (ns : List ℕ) (s t : Parents × List ℕ) : Type 0 where
  pub keeps : (a : ℕ) → Seen a s.0 → Seen a t.0
  pub sees : (a : ℕ) → In a ns → Seen a t.0
  pub stacks : (a : ℕ) → Seen a t.0 → Seen a s.0 ⊎ In a t.1
  pub arrives : (a : ℕ) → In a t.1 → In a s.1 ⊎ Seen a t.0
  pub stays_stacked : (a : ℕ) → In a s.1 → In a t.1

pub visit-Visited :
    (node next : ℕ) (s : Parents × List ℕ) → Visited node (next ∷ []) s (visit node next s)
visit-Visited node next s = elim (Bool-cases (seen next s.0)) [
  | inl t ↦ rw t (record {
    keeps = λ a h. h;
    sees = λ a h. elim h [ inl e ↦ rw e t | inr never ↦ absurd never ];
    stacks = λ a h. inl h;
    stays_stacked = λ a h. h;
    arrives = λ a h. inl h;
  })
  | inr t ↦ rw t (record {
    keeps = λ a h. or_right (next == a) (seen a s.0) h;
    sees = λ a h. elim h [ inl e ↦ ground (arith, eq_self a) | inr never ↦ absurd never ];
    stacks = λ a h. elim (eq_cases next a) [
      | inl (e, _) ↦ inr (inl (sym e))
      | inr (_, e) ↦ inl (ground arith)
    ];
    stays_stacked = λ a h. inr h;
    arrives = λ a h. elim h [ inl e ↦ inr (ground (arith, eq_self a)) | inr old ↦ inl old ];
  })
]

pub visit_all-Visited :
    (node : ℕ) (ns : List ℕ) (s : Parents × List ℕ) → Visited node ns s (visit_all node ns s)
unfolding visit_all
visit_all-Visited node [] s = record {
  keeps = λ a h. h;
  sees = λ a h. absurd h;
  stacks = λ a h. inl h;
  stays_stacked = λ a h. h;
  arrives = λ a h. inl h;
}
visit_all-Visited node (n ∷ ns) s =
    let first = visit-Visited node n s in
    let rest = visit_all-Visited node ns (visit node n s) in
    record {
      keeps = λ a h. rest.keeps a (first.keeps a h);
      sees = λ a h. elim h [
        | inl e ↦ rest.keeps a (first.sees a (inl e))
        | inr later ↦ rest.sees a later
      ];
      stacks = λ a h. elim (rest.stacks a h) [
        | inl before ↦ elim (first.stacks a before) [
          | inl old ↦ inl old
          | inr new ↦ inr (rest.stays_stacked a new)
        ]
        | inr new ↦ inr new
      ];
      stays_stacked = λ a h. rest.stays_stacked a (first.stays_stacked a h);
      arrives = λ a h. elim (rest.arrives a h) [
        | inr new ↦ inr new
        | inl before ↦ elim (first.arrives a before) [
          | inl old ↦ inl old
          | inr new ↦ inr (rest.keeps a new)
        ]
      ];
    }

-- What is seen is still to be looked at, or is not `to` and all that it waits on is seen.
pub record Closed (c : Coordinator) (to : ℕ) (parents : Parents) (stack : List ℕ) : Type 0 where
  pub settled :
      (a : ℕ) → Seen a parents → In a stack ⊎ ((a ≢ to) × ((b : ℕ) → Edge c a b → Seen b parents))

round-Closed :
    (c : Coordinator) (to node : ℕ) (parents : Parents) (stack : List ℕ)
    → node ≢ to
    → Closed c to parents (node ∷ stack)
    → Closed c to
        (visit_all node (nexts_at c node) (parents, stack)).0
        (visit_all node (nexts_at c node) (parents, stack)).1
round-Closed c to node parents stack ne k =
    let v = visit_all-Visited node (nexts_at c node) (parents, stack) in
    record {
      settled = λ a h. elim (v.stacks a h) [
        | inr new ↦ inl new
        | inl old ↦ elim (k.settled a old) [
          | inl (inl e) ↦
              inr (
                (λ x. ne (sym e ∙ x)),
                λ b edge. v.sees b (subst (λ n. In b (nexts_at c n)) e edge),
              )
          | inl (inr later) ↦ inl (v.stays_stacked a later)
          | inr (no_end, all) ↦ inr (no_end, λ b edge. v.keeps b (all b edge))
        ]
      ];
    }

seen-Leads :
    (c : Coordinator) (to : ℕ) (parents : Parents) (a b : ℕ)
    → Closed c to parents []
    → Seen a parents
    → Leads c a b
    → (b ≢ to) × Seen b parents
seen-Leads c to parents a _ k h stay = elim (k.settled a h) [
  | inl never ↦ absurd never
  | inr (ne, _) ↦ (ne, h)
]
seen-Leads c to parents a b k h (onward {m = m} e l) = elim (k.settled a h) [
  | inl never ↦ absurd never
  | inr (_, all) ↦ seen-Leads c to parents m b k (all m e) l
]

pub search-nil :
    (fuel : ℕ) (c : Coordinator) (to : ℕ) (parents : Parents) (stack : List ℕ) (from : ℕ)
    → Closed c to parents stack
    → Seen from parents
    → search fuel c to parents stack ≡ some []
    → ¬ Leads c from to
unfolding search chain
search-nil zero c to parents stack from k h e l = cc
search-nil (suc fuel) c to parents [] from k h e l = (seen-Leads c to parents from to k h l).0 refl
search-nil (suc fuel) c to parents (node ∷ stack) from k h e l = elim (eq_cases node to) [
  | inl (_, t) ↦ let found = subst next_round t e in cc
  | inr (ne, t) ↦
      search-nil fuel c to _ _ from (round-Closed c to node parents stack ne k)
        ((visit_all-Visited node (nexts_at c node) (parents, stack)).keeps from h)
        (subst next_round t e) l
]
  where
    next_round : Bool → Type 0
    next_round b =
        elim b [
          | true ↦ some (chain (suc (length parents)) parents node)
          | false ↦
              search fuel c to (visit_all node (nexts_at c node) (parents, stack)).0
                (visit_all node (nexts_at c node) (parents, stack)).1
        ]
        ≡ some []
