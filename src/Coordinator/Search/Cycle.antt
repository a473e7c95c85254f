-- ===== src/Coordinator/Search/Cycle.antt =====
-- What the search finds is a chain of attempts.
use makebelieve.Base.{
  ℕ, zero, suc, ◌≡◌, refl, sym, subst, inl, inr, Bool, true, false, Option, none, some, List, [],
  ◌∷◌, arith, if◌then◌else◌, Bool-cases, or_right, length, In, ◌==◌, ℕ-HasTest, List-HasTest,
  eq_self, eq_cases,
}
use makebelieve.Base.OrdMap
use makebelieve.Base.Optional.{some_value, no_value}
use makebelieve.Coordinator.{Coordinator, nexts_at, Edge, Leads, stay, onward}
use makebelieve.Coordinator.Search.{
  Parents, seen, visit, visit_all, chain, search, or_none, path_to,
}
use makebelieve.Coordinator.Search.Found.{Seen, visit_all-Visited, visit-Visited}

-- Each attempt seen was reached from `from`, along the links to the ones it was seen from.
record Linked (c : Coordinator) (from : ℕ) (parents : Parents) : Type 0 where
  reached : (a : ℕ) → Seen a parents → Leads c from a
  link : (a b : ℕ) → OrdMap.find a parents ≡ some (some b) → Edge c b a × Seen b parents

Leads-append : {c : Coordinator} {a m b : ℕ} → Leads c a m → Leads c m b → Leads c a b
Leads-append stay k = k
Leads-append (onward e l) k = onward e (Leads-append l k)

visit-Linked :
    (c : Coordinator) (from node next : ℕ) (s : Parents × List ℕ)
    → Seen node s.0
    → Edge c node next
    → Linked c from s.0
    → Linked c from (visit node next s).0
unfolding OrdMap.find
visit-Linked c from node next s h e k = elim (Bool-cases (seen next s.0)) [
  | inl t ↦ rw t k
  | inr t ↦ rw t (record {
    reached = λ a g. elim (eq_cases next a) [
      | inl (same, _) ↦ subst (Leads c from) same (Leads-append (k.reached node h) (onward e stay))
      | inr (_, u) ↦ k.reached a (ground arith)
    ];
    link = λ a b g. elim (eq_cases next a) [
      | inl (same, u) ↦
          let before = some_value (
            some_value (
              subst (λ y. (if y then some (some node) else OrdMap.find a s.0) ≡ some (some b)) u
                g)) in
          (
            subst (λ x. Edge c x a) before (subst (Edge c node) same e),
            or_right (next == b) (seen b s.0) (subst (λ x. Seen x s.0) before h),
          )
      | inr (_, u) ↦
          let (edge, was) = k.link a b (
            subst (λ y. (if y then some (some node) else OrdMap.find a s.0) ≡ some (some b)) u g) in
          (edge, or_right (next == b) (seen b s.0) was)
    ];
  })
]

visit_all-Linked :
    (c : Coordinator) (from node : ℕ) (ns : List ℕ) (s : Parents × List ℕ)
    → Seen node s.0
    → ((b : ℕ) → In b ns → Edge c node b)
    → Linked c from s.0
    → Linked c from (visit_all node ns s).0
unfolding visit_all
visit_all-Linked c from node [] s h e k = k
visit_all-Linked c from node (n ∷ ns) s h e k =
    visit_all-Linked c from node ns (visit node n s) ((visit-Visited node n s).keeps node h)
      (λ b i. e b (inr i)) (visit-Linked c from node n s h (e n (inl refl)) k)

chain-On :
    (c : Coordinator) (from : ℕ) (fuel : ℕ) (parents : Parents) (it a : ℕ)
    → Linked c from parents
    → Seen it parents
    → In a (chain fuel parents it)
    → Leads c from a × Leads c a it
unfolding chain
chain-On c from zero parents it a k h i = absurd i
chain-On c from (suc fuel) parents it a k h (inl e) =
    (rw e (k.reached it h), subst (λ x. Leads c x it) (sym e) stay)
chain-On c from (suc fuel) parents it a k h (inr i) =
    go (OrdMap.find it parents) refl i (λ b. chain-On c from fuel parents b a k)
  where
    go :
        (o : Option (Option ℕ))
        → OrdMap.find it parents ≡ o
        → In a
            (elim o [ none ↦ [] | some none ↦ [] | some (some before) ↦ chain fuel parents before ])
        → ((b : ℕ) → Seen b parents → In a (chain fuel parents b) → Leads c from a × Leads c a b)
        → Leads c from a × Leads c a it
    go none e i deeper = absurd i
    go (some none) e i deeper = absurd i
    go (some (some b)) e i deeper =
        let (edge, was) = k.link it b e in
        let (l, r) = deeper b was i in (l, Leads-append r (onward edge stay))

search-On :
    (fuel : ℕ) (c : Coordinator) (from to : ℕ) (parents : Parents) (stack : List ℕ) (path : List ℕ)
    (a : ℕ)
    → Linked c from parents
    → ((b : ℕ) → In b stack → Seen b parents)
    → search fuel c to parents stack ≡ some path
    → In a path
    → Leads c from a × Leads c a to
unfolding search
search-On zero c from to parents stack path a k h e i = absurd (no_value e)
search-On (suc fuel) c from to parents [] path a k h e i =
    absurd (subst (In a) (sym (some_value e)) i)
search-On (suc fuel) c from to parents (node ∷ stack) path a k h e i = elim (eq_cases node to) [
  | inl (same, t) ↦
      let found = some_value (subst next_round t e) in
      let (l, r) =
        chain-On c from (suc (length parents)) parents node a k (h node (inl refl))
          (subst (In a) (sym found) i) in
      (l, subst (Leads c a) same r)
  | inr (_, t) ↦
      let v = visit_all-Visited node (nexts_at c node) (parents, stack) in
      search-On fuel c from to _ _ path a
        (visit_all-Linked c from node (nexts_at c node) (parents, stack) (h node (inl refl))
          (λ b x. x) k)
        (λ b x. elim (v.arrives b x) [ inl old ↦ v.keeps b (h b (inr old)) | inr new ↦ new ])
        (subst next_round t e) i
]
  where
    next_round : Bool → Type 0
    next_round b =
        elim b [
          | true ↦ some (chain (suc (length parents)) parents node)
          | false ↦
              search fuel c to (visit_all node (nexts_at c node) (parents, stack)).0
                (visit_all node (nexts_at c node) (parents, stack)).1
        ]
        ≡ some path

start-Linked : (c : Coordinator) (from : ℕ) → Linked c from ((from, none) ∷ [])
unfolding OrdMap.find
start-Linked c from = record {
  reached = λ a h. elim (eq_cases from a) [
    | inl (e, _) ↦ subst (Leads c from) e stay
    | inr (_, t) ↦ ground arith
  ];
  link = λ a b h. elim (eq_cases from a) [
    | inl (_, t) ↦
        cc (some_value (subst (λ y. (if y then some none else none) ≡ some (some b)) t h))
    | inr (_, t) ↦ cc (subst (λ y. (if y then some none else none) ≡ some (some b)) t h)
  ];
}

pub start_seen : (from b : ℕ) → In b (from ∷ []) → Seen b ((from, none) ∷ [])
start_seen from b (inl e) = ground (arith, eq_self from)
start_seen from b (inr never) = absurd never

-- Every attempt on the path that the search finds is one that the first attempt leads to, and leads
-- to the last.
pub path_to-Leads :
    (c : Coordinator) (from to a : ℕ) → In a (path_to c from to) → Leads c from a × Leads c a to
unfolding path_to
path_to-Leads c from to a i =
    go (search (suc (suc (length c.attempts))) c to ((from, none) ∷ []) (from ∷ [])) refl i
  where
    go :
        (o : Option (List ℕ))
        → search (suc (suc (length c.attempts))) c to ((from, none) ∷ []) (from ∷ []) ≡ o
        → In a (or_none o)
        → Leads c from a × Leads c a to
    go none e i = absurd i
    go (some path) e i =
        search-On (suc (suc (length c.attempts))) c from to ((from, none) ∷ []) (from ∷ []) path a
          (start-Linked c from) (λ b x. start_seen from b x) e i
