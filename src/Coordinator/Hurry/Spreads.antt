-- ===== src/Coordinator/Hurry/Spreads.antt =====
-- What `hurry` reaches.
use makebelieve.Base.{
  ℕ, zero, suc, ◌+◌, ◌≤◌, ◌<◌, ◌≡◌, refl, sym, ap, subst, ◌∙◌, ◌≢◌, ◌⊎◌, inl, inr, Bool, true,
  false, some, List, [], ◌∷◌, ◌++◌, arith, if◌then◌else◌, Bool-cases, Option-cases, length,
  get_elem?, modify, modify_self, modify_other, In, length-get, ℕ-HasTest, List-HasTest, eq_cases,
}
use makebelieve.Base.Optional.{some_value}
use makebelieve.Coordinator.{
  is_hurried, Attempt, Coordinator, at_attempt, at_calls, nexts, nexts_of, Edge, Leads, stay,
  onward,
}
use makebelieve.Coordinator.Hurry.{push_all, mark, hurry_from, edges_of, hurry}
use makebelieve.Coordinator.Transitions.Shrinks.{Edge-from}
use makebelieve.Coordinator.Requests.Shrinks.{mark-Narrows}
use makebelieve.Coordinator.Search.Ends.{IsBounded}

abbrev pub Hurried : Coordinator → ℕ → Type 0
Hurried c a = is_hurried (get_elem? c.attempts a) ≡ true

-- What a hurried attempt waits on is hurried or on the stack.
abbrev pub Spread : List ℕ → Coordinator → Type 0
Spread stack c = (a b : ℕ) → Edge c a b → Hurried c a → Hurried c b ⊎ In b stack

work : List Attempt → ℕ
work [] = 0
work (x ∷ xs) = (if x.hurried then 0 else suc (length (nexts x))) + work xs

abbrev hurried : Attempt → Attempt
hurried x = record x { hurried = true }

work-modify :
    (a : ℕ) (xs : List Attempt) {x : Attempt}
    → get_elem? xs a ≡ some x
    → x.hurried ≡ false
    → work (modify a hurried xs) + suc (length (nexts x)) ≡ work xs
unfolding work
work-modify a [] e h = cc e
work-modify zero (y ∷ xs) {x} e h =
    let same : y ≡ x = some_value e in
    let not_yet : y.hurried ≡ false = ap (λ z. z.hurried) same ∙ h in
    rw (not_yet) (omega (arith, ap (λ z. length (nexts z)) same))
work-modify (suc a) (y ∷ xs) e h = omega (arith, work-modify a xs e h)

work-le : (xs : List Attempt) → work xs ≤ edges_of xs
unfolding work edges_of
work-le [] = omega arith
work-le (x ∷ xs) = ground (arith, work-le xs)

length-push_all : (bs stack : List ℕ) → length (push_all bs stack) ≡ length bs + length stack
length-push_all [] stack = omega arith
length-push_all (b ∷ bs) stack = omega (arith, length-push_all bs (b ∷ stack))

push_all-from : (x : ℕ) (bs stack : List ℕ) → In x (push_all bs stack) → In x bs ⊎ In x stack
push_all-from x [] stack i = inr i
push_all-from x (b ∷ bs) stack i = elim (push_all-from x bs (b ∷ stack) i) [
  | inl j ↦ inl (inr j)
  | inr (inl e) ↦ inl (inl e)
  | inr (inr j) ↦ inr j
]

push_all-old : (x : ℕ) (bs stack : List ℕ) → In x stack → In x (push_all bs stack)
push_all-old x [] stack i = i
push_all-old x (b ∷ bs) stack i = push_all-old x bs (b ∷ stack) (inr i)

push_all-new : (x : ℕ) (bs stack : List ℕ) → In x bs → In x (push_all bs stack)
push_all-new x (b ∷ bs) stack (inl e) = push_all-old x bs (b ∷ stack) (inl e)
push_all-new x (b ∷ bs) stack (inr i) = push_all-new x bs (b ∷ stack) i
push_all-new x [] stack never = absurd never

mark-attempts : (a : ℕ) (c : Coordinator) → (mark a c).attempts ≡ modify a hurried c.attempts
mark-attempts a c = go c.can_promote
  where
    go :
        (t : Bool)
        → (if t
            then at_calls
                (λ e. record e { promotions = e.promotions ++ a ∷ [] })
                (at_attempt a hurried c)
            else at_attempt a hurried c).attempts
          ≡ modify a hurried c.attempts
    go true = refl
    go false = refl

mark_self :
    (a : ℕ) (c : Coordinator) (x : Attempt) → get_elem? c.attempts a ≡ some x → Hurried (mark a c) a
mark_self a c x e =
    ap (λ xs. is_hurried (get_elem? xs a)) (mark-attempts a c)
    ∙ ap is_hurried (modify_self a hurried c.attempts e)

mark_other :
    (a b : ℕ) (c : Coordinator)
    → a ≢ b
    → is_hurried (get_elem? (mark a c).attempts b) ≡ is_hurried (get_elem? c.attempts b)
mark_other a b c ne =
    ap (λ xs. is_hurried (get_elem? xs b)) (mark-attempts a c)
    ∙ ap is_hurried (modify_other a b hurried c.attempts ne)

mark_more :
    (a b : ℕ) (c : Coordinator) (x : Attempt)
    → get_elem? c.attempts a ≡ some x
    → Hurried c b
    → Hurried (mark a c) b
mark_more a b c x e h = elim (eq_cases a b) [
  | inl (same, _) ↦ subst (Hurried (mark a c)) same (mark_self a c x e)
  | inr (ne, _) ↦ mark_other a b c ne ∙ h
]

mark-Spread :
    (a : ℕ) (stack : List ℕ) (c : Coordinator) (x : Attempt)
    → get_elem? c.attempts a ≡ some x
    → Spread (a ∷ stack) c
    → Spread (push_all (nexts x) stack) (mark a c)
mark-Spread a stack c x found h p q e k = elim (eq_cases a p) [
  | inl (same, _) ↦ inr (
      push_all-new q (nexts x) stack
        (subst (λ o. In q (nexts_of o)) found (subst (λ n. Edge c n q) (sym same) old)))
  | inr (ne, _) ↦ elim (h p q old (sym (mark_other a p c ne) ∙ k)) [
    | inl there ↦ inl (mark_more a q c x found there)
    | inr (inl now) ↦ inl (subst (Hurried (mark a c)) (sym now) (mark_self a c x found))
    | inr (inr i) ↦ inr (push_all-old q (nexts x) stack i)
  ]
]
  where
    old : Edge c p q
    old = (mark-Narrows a c).edges p q e

-- What a run of the loop gives.
pub record Outcome (stack : List ℕ) (c d : Coordinator) : Type 0 where
  pub spread : Spread [] d
  pub more : (b : ℕ) → Hurried c b → Hurried d b
  pub covers : (b : ℕ) → In b stack → Hurried d b

top-Spread :
    (a : ℕ) (stack : List ℕ) (c : Coordinator) → Hurried c a → Spread (a ∷ stack) c → Spread stack c
top-Spread a stack c here h p q e k = elim (h p q e k) [
  | inl there ↦ inl there
  | inr (inl now) ↦ inl (subst (Hurried c) (sym now) here)
  | inr (inr i) ↦ inr i
]

hurry_from-Outcome :
    (fuel : ℕ) (stack : List ℕ) (c : Coordinator)
    → IsBounded c
    → ((b : ℕ) → In b stack → b < length c.attempts)
    → work c.attempts + length stack < fuel
    → Spread stack c
    → Outcome stack c (hurry_from fuel stack c)
unfolding hurry_from
hurry_from-Outcome zero stack c k there less h = absurd (omega arith)
hurry_from-Outcome (suc fuel) [] c k there less h = record {
  spread = h;
  more = λ b x. x;
  covers = λ b never. absurd never;
}
hurry_from-Outcome (suc fuel) (a ∷ stack) c k there less h =
    elim (Option-cases (get_elem? c.attempts a)) [
      | inl missing ↦ absurd (length-get c.attempts a (there a (inl refl)) missing)
      | inr (x, found) ↦ elim (Bool-cases x.hurried) [
        | inl t ↦
            let here : Hurried c a = ap is_hurried found ∙ t in
            let o =
              hurry_from-Outcome fuel stack c k (λ b i. there b (inr i)) (omega (arith, less))
                (top-Spread a stack c here h) in
            let whole : Outcome (a ∷ stack) c (hurry_from fuel stack c) = record {
              spread = o.spread;
              more = o.more;
              covers = λ b i. elim i [
                | inl now ↦ o.more b (subst (Hurried c) (sym now) here)
                | inr j ↦ o.covers b j
              ];
            } in
            rw (found, t, hurry_from) whole
        | inr t ↦
            let n = mark-Narrows a c in
            let d = mark a c in
            let o =
              hurry_from-Outcome fuel (push_all (nexts x) stack) d
                (λ p q e. omega (arith, k p q (n.edges p q e), n.size))
                (λ b i. elim (push_all-from b (nexts x) stack i) [
                  | inl j ↦ omega (arith, k a b (Edge-from c a b x found j), n.size)
                  | inr j ↦ omega (arith, there b (inr j), n.size)
                ])
                (omega (
                  arith,
                  less,
                  length-push_all (nexts x) stack,
                  work-modify a c.attempts found t,
                  ap work (mark-attempts a c),
                ))
                (mark-Spread a stack c x found h) in
            let whole : Outcome (a ∷ stack) c (hurry_from fuel (push_all (nexts x) stack) d) =
              record {
                spread = o.spread;
                more = λ b y. o.more b (mark_more a b c x found y);
                covers = λ b i. elim i [
                  | inl now ↦ o.more b (subst (Hurried d) (sym now) (mark_self a c x found))
                  | inr j ↦ o.covers b (push_all-old b (nexts x) stack j)
                ];
              } in
            rw (found, t, hurry_from) whole
      ]
    ]

pub hurry-Outcome :
    (a : ℕ) (c : Coordinator)
    → IsBounded c
    → a < length c.attempts
    → Spread (a ∷ []) c
    → Outcome (a ∷ []) c (hurry a c)
unfolding hurry
hurry-Outcome a c k here h =
    hurry_from-Outcome (suc (suc (edges_of c.attempts))) (a ∷ []) c k
      (λ b i. elim i [ inl e ↦ omega (arith, e, here) | inr never ↦ absurd never ])
      (omega (arith, work-le c.attempts)) h

pub Leads-Hurried :
    {c : Coordinator} {a b : ℕ} → Spread [] c → Leads c a b → Hurried c a → Hurried c b
Leads-Hurried h stay k = k
Leads-Hurried h (onward {a} {m} e l) k =
    Leads-Hurried h l (elim (h a m e k) [ inl x ↦ x | inr never ↦ absurd never ])
