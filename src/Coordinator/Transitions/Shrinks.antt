-- ===== src/Coordinator/Transitions/Shrinks.antt =====
-- Changes that make no attempt wait on another.
use makebelieve.Base.{
  ℕ, ◌-◌, ◌≤◌, ◌≡◌, refl, sym, ap, subst, ◌∙◌, ◌⊎◌, inl, inr, Bool, true, false, Option, none, some,
  List, [], ◌∷◌, ◌++◌, map, arith, if◌then◌else◌, length, get_elem?, modify, length-modify,
  modify_self, modify-none, modify_other, In, In-left, In-right, In-split, ◌==◌, ℕ-HasTest,
  List-HasTest, eq_cases,
}
use makebelieve.Paths.{FilePath-Order}
use makebelieve.Coordinator.{Phase, Code, is_hurried, Attempt, Wait, Coordinator, at_attempt, nexts}
use makebelieve.Coordinator.{Edge, nexts_of, behind}
use makebelieve.Coordinator.Transitions.{
  on_attempt, on_wait, one_less, remove_edge, each, with_result,
}

pub record Narrows (c d : Coordinator) : Type 0 where
  pub edges : (a b : ℕ) → Edge d a b → Edge c a b
  pub size : length c.attempts ≤ length d.attempts

-- And none is hurried.
pub record Shrinks (c d : Coordinator) : Type 0 where
  pub narrows : Narrows c d
  pub hurried : (a : ℕ) → is_hurried (get_elem? d.attempts a) ≡ is_hurried (get_elem? c.attempts a)

abbrev pub unchanged : {c : Coordinator} → Shrinks c c
unchanged = record {
  narrows = record { edges = λ a b e. e; size = omega arith };
  hurried = λ a. refl;
}

pub Narrows-trans : {c d e : Coordinator} → Narrows c d → Narrows d e → Narrows c e
Narrows-trans h k = record {
  edges = λ a b e. h.edges a b (k.edges a b e);
  size = omega (arith, h.size, k.size);
}

pub Shrinks_trans : {c d e : Coordinator} → Shrinks c d → Shrinks d e → Shrinks c e
Shrinks_trans h k = record {
  narrows = Narrows-trans h.narrows k.narrows;
  hurried = λ a. k.hurried a ∙ h.hurried a;
}

-- Where the attempts waited on after a change of one attempt come from.
pub at_attempt-Edge :
    (a : ℕ) (f : Attempt → Attempt) (c : Coordinator) (a' b : ℕ)
    → Edge (at_attempt a f c) a' b
    → Edge c a' b
      ⊎ ((a' ≡ a) × (x : Attempt) × (get_elem? c.attempts a ≡ some x) × In b (nexts (f x)))
at_attempt-Edge a f c a' b e = elim (eq_cases a a') [
  | inl (same, _) ↦
      here same (get_elem? c.attempts a) refl
        (subst (λ n. Edge (at_attempt a f c) n b) (sym same) e)
  | inr (ne, _) ↦ inl (subst (λ o. In b (nexts_of o)) (modify_other a a' f c.attempts ne) e)
]
  where
    here :
        (a ≡ a')
        → (o : Option Attempt) → get_elem? c.attempts a ≡ o
        → Edge (at_attempt a f c) a b
        → Edge c a' b
          ⊎ ((a' ≡ a) × (x : Attempt) × (get_elem? c.attempts a ≡ some x) × In b (nexts (f x)))
    here same none e i = absurd (subst (λ o. In b (nexts_of o)) (modify-none a f c.attempts e) i)
    here same (some x) e i =
        inr (sym same, x, e, subst (λ o. In b (nexts_of o)) (modify_self a f c.attempts e) i)

-- An attempt waits on what it is said to.
pub Edge-from :
    (c : Coordinator) (a b : ℕ) (x : Attempt)
    → get_elem? c.attempts a ≡ some x
    → In b (nexts x)
    → Edge c a b
Edge-from c a b x e i = subst (λ o. In b (nexts_of o)) (sym e) i

pub at_attempt-Narrows :
    (a : ℕ) (f : Attempt → Attempt) (c : Coordinator)
    → ((x : Attempt) (b : ℕ) → In b (nexts (f x)) → In b (nexts x))
    → Narrows c (at_attempt a f c)
at_attempt-Narrows a f c h = record {
  edges = λ a' b e. elim (at_attempt-Edge a f c a' b e) [
    | inl before ↦ before
    | inr (same, x, found, i) ↦
        subst (λ n. Edge c n b) (sym same) (Edge-from c a b x found (h x b i))
  ];
  size = omega (arith, length-modify a f c.attempts);
}

-- What is hurried after a change of one attempt.
pub at_attempt-hurried :
    (a : ℕ) (f : Attempt → Attempt) (c : Coordinator)
    → ((x : Attempt) → (f x).hurried ≡ x.hurried)
    → (a' : ℕ)
    → is_hurried (get_elem? (modify a f c.attempts) a') ≡ is_hurried (get_elem? c.attempts a')
at_attempt-hurried a f c h a' = elim (eq_cases a a') [
  | inl (same, _) ↦
      subst
        (λ n.
          is_hurried (get_elem? (modify a f c.attempts) n) ≡ is_hurried (get_elem? c.attempts n))
        same (here (get_elem? c.attempts a) refl)
  | inr (ne, _) ↦ ap is_hurried (modify_other a a' f c.attempts ne)
]
  where
    here :
        (o : Option Attempt)
        → get_elem? c.attempts a ≡ o
        → is_hurried (get_elem? (modify a f c.attempts) a) ≡ is_hurried (get_elem? c.attempts a)
    here none e = ap is_hurried (modify-none a f c.attempts e ∙ sym e)
    here (some x) e = ap is_hurried (modify_self a f c.attempts e) ∙ h x ∙ sym (ap is_hurried e)

pub at_attempt-Shrinks :
    (a : ℕ) (f : Attempt → Attempt) (c : Coordinator)
    → ((x : Attempt) → (f x).hurried ≡ x.hurried)
    → ((x : Attempt) (b : ℕ) → In b (nexts (f x)) → In b (nexts x))
    → Shrinks c (at_attempt a f c)
at_attempt-Shrinks a f c same h = record {
  narrows = at_attempt-Narrows a f c h;
  hurried = at_attempt-hurried a f c same;
}

-- A change of all but the attempts.
pub elsewhere :
    {c d : Coordinator} (e : Coordinator) → e.attempts ≡ d.attempts → Shrinks c d → Shrinks c e
elsewhere e p h = record {
  narrows = record {
    edges = λ a b x. h.narrows.edges a b (subst (λ xs. In b (nexts_of (get_elem? xs a))) p x);
    size = omega (arith, h.narrows.size, ap length p);
  };
  hurried = λ a. ap (λ xs. is_hurried (get_elem? xs a)) p ∙ h.hurried a;
}

-- A change that leaves what the attempt waits on.
pub keeps-Shrinks :
    (a : ℕ) (f : Attempt → Attempt) (c : Coordinator)
    → ((x : Attempt) → (f x).hurried ≡ x.hurried)
    → ((x : Attempt) → nexts (f x) ≡ nexts x)
    → Shrinks c (at_attempt a f c)
keeps-Shrinks a f c same h = at_attempt-Shrinks a f c same (λ x b i. subst (In b) (h x) i)

pub on_attempt-Shrinks :
    (a : ℕ) (f : Attempt → Coordinator → Coordinator) (c : Coordinator)
    → ((x : Attempt) → Shrinks c (f x c))
    → Shrinks c (on_attempt a f c)
on_attempt-Shrinks a f c h = go (get_elem? c.attempts a)
  where
    go : (o : Option Attempt) → Shrinks c (elim o [ none ↦ c | some x ↦ f x c ])
    go none = unchanged
    go (some x) = h x

pub on_wait-Shrinks :
    (i : ℕ) (f : Wait → Coordinator → Coordinator) (c : Coordinator)
    → ((w : Wait) → Shrinks c (f w c))
    → Shrinks c (on_wait i f c)
on_wait-Shrinks i f c h = go (get_elem? c.waits i)
  where
    go : (o : Option Wait) → Shrinks c (elim o [ none ↦ c | some w ↦ f w c ])
    go none = unchanged
    go (some w) = h w

pub if-Shrinks :
    (t : Bool) (c d e : Coordinator) → Shrinks c d → Shrinks c e → Shrinks c (if t then d else e)
if-Shrinks true c d e h k = h
if-Shrinks false c d e h k = k

pub each-Shrinks :
    (f : ℕ → Coordinator → Coordinator) (is : List ℕ) (c : Coordinator)
    → ((i : ℕ) (d : Coordinator) → Shrinks d (f i d))
    → Shrinks c (each f is c)
unfolding each
each-Shrinks f [] c h = unchanged
each-Shrinks f (i ∷ is) c h = Shrinks_trans (h i c) (each-Shrinks f is (f i c) h)

one_less-In :
    (to b : ℕ) (edges : List (ℕ × ℕ))
    → In b (map (λ e. e.0) (one_less to edges))
    → In b (map (λ e. e.0) edges)
unfolding one_less
one_less-In to b [] h = h
one_less-In to b ((m, n) ∷ edges) h = go (m == to) (n - 1 == 0) h (one_less-In to b edges)
  where
    go :
        (s t : Bool)
        → In b (
            map
              (λ e. e.0)
              (if s then (if t then edges else (m, n - 1) ∷ edges) else (m, n) ∷ one_less to edges))
        → (In b (map (λ e. e.0) (one_less to edges)) → In b (map (λ e. e.0) edges))
        → (b ≡ m) ⊎ In b (map (λ e. e.0) edges)
    go true true h next = inr h
    go true false h next = h
    go false t (inl e) next = inl e
    go false t (inr h) next = inr (next h)

pub remove_edge-Shrinks : (from to : ℕ) (c : Coordinator) → Shrinks c (remove_edge from to c)
unfolding remove_edge
remove_edge-Shrinks from to c =
    at_attempt-Shrinks from (λ x. record x { edges_out = one_less to x.edges_out }) c (λ x. refl)
      λ x b i. elim (In-split b (map (λ e. e.0) (one_less to x.edges_out)) _ i) [
        | inl l ↦ In-left b (map (λ e. e.0) x.edges_out) _ (one_less-In to b x.edges_out l)
        | inr r ↦ In-right b (map (λ e. e.0) x.edges_out) _ r
      ]

-- An attempt that is not pending waits on no predecessor.
pub fewer : (x : Attempt) (b : ℕ) → In b (map (λ e. e.0) x.edges_out ++ []) → In b (nexts x)
fewer x b i = elim (In-split b (map (λ e. e.0) x.edges_out) [] i) [
  | inl l ↦ In-left b (map (λ e. e.0) x.edges_out) _ l
  | inr never ↦ absurd never
]

pub with_result-Shrinks :
    (a : ℕ) (result : Code) (c : Coordinator) → Shrinks c (with_result a result c)
with_result-Shrinks a result c =
    at_attempt-Shrinks a (λ y. record y { result = some result; predecessor = none }) c (λ x. refl)
      λ y b i. fewer y b (by_phase y y.phase b i)
  where
    by_phase :
        (y : Attempt) (p : Phase) (b : ℕ)
        → In b (map (λ e. e.0) y.edges_out ++ behind p none)
        → In b (map (λ e. e.0) y.edges_out ++ [])
    by_phase y Phase.pending b i = i
    by_phase y Phase.queued b i = i
    by_phase y Phase.running b i = i
    by_phase y Phase.ended b i = i
