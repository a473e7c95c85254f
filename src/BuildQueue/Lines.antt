-- ===== src/BuildQueue/Lines.antt =====
-- How the operations of the queue change its lines.
use makebelieve.Base.{
  ℕ, ◌+◌, ◌≡◌, refl, ap, subst, ◌≢◌, ◌⊎◌, inl, inr, Bool, true, false, Option, none, some, List, [],
  ◌∷◌, ◌++◌, arith, if◌then◌else◌, ◌==◌, ℕ-HasTest, List-HasTest, eq_cases,
}
use makebelieve.Base.Optional.{some_value}
use makebelieve.BuildQueue.{
  Queue, push, remove, put_back, note_waiter, is_promoted, enqueue, left_line, dequeue,
}

-- The waiters in the order in which they are served.
abbrev pub line : Queue → List ℕ
line q = q.reacquiring ++ (q.promoted ++ q.waiting)

abbrev pub hit : ℕ → ℕ → ℕ
hit i j = if i == j then 1 else 0

-- How often a waiter is in a line.
unfoldable pub times : ℕ → List ℕ → ℕ
times j [] = 0
times j (i ∷ is) = hit i j + times j is

pub times-append : (j : ℕ) (is ks : List ℕ) → times j (is ++ ks) ≡ times j is + times j ks
unfolding times
times-append j [] ks = omega arith
times-append j (i ∷ is) ks = omega (arith, times-append j is ks)

times-push : (j i : ℕ) (is : List ℕ) → times j (push is i) ≡ times j is + hit i j
unfolding times
times-push j i is = omega (arith, times-append j is (i ∷ []))

times-remove :
    (j i : ℕ) (is : List ℕ) {ks : List ℕ}
    → remove is i ≡ some ks
    → times j ks + hit i j ≡ times j is
unfolding times remove
times-remove j i [] h = cc
times-remove j i (v ∷ is) {ks} h =
    go (remove is i) refl (eq_cases v i) h (λ rest e. times-remove j i is e)
  where
    go :
        (r : Option (List ℕ))
        → remove is i ≡ r
        → ((v ≡ i) × ((v == i) ≡ true)) ⊎ ((v ≢ i) × ((v == i) ≡ false))
        → (if v == i then some is else put_back v r) ≡ some ks
        → ((rest : List ℕ) → remove is i ≡ some rest → times j rest + hit i j ≡ times j is)
        → times j ks + hit i j ≡ hit v j + times j is
    go r e (inl (same, t)) h deeper =
        let all = some_value (subst (λ b. (if b then some is else put_back v r) ≡ some ks) t h) in
        omega (arith, ap (times j) all, ap (λ x. hit x j) same)
    go none e (inr (ne, t)) h deeper =
        let no = subst (λ b. (if b then some is else none) ≡ some ks) t h in cc
    go (some rest) e (inr (ne, t)) h deeper =
        let all =
          some_value (subst (λ b. (if b then some is else put_back v (some rest)) ≡ some ks) t h) in
        omega (arith, ap (times j) all, deeper rest e)

pub times_line :
    (j : ℕ) (q : Queue)
    → times j (line q) ≡ times j q.reacquiring + (times j q.promoted + times j q.waiting)
times_line j q = omega (
  arith,
  times-append j q.reacquiring (q.promoted ++ q.waiting),
  times-append j q.promoted q.waiting,
)

-- A change of the queue that leaves its free slots, and puts a waiter in line or takes one out.
pub record Joined (i : ℕ) (q r : Queue) : Type 0 where
  pub free : r.free ≡ q.free
  pub line : (j : ℕ) → times j (line r) ≡ times j (line q) + hit i j

noted-line :
    (t : Option ℕ) (w : Option ℕ) (q : Queue)
    → (line (note_waiter t w q) ≡ line q) × ((note_waiter t w q).free ≡ q.free)
noted-line none w q = (refl, refl)
noted-line (some t) w q = (refl, refl)

join_reacquiring :
    (i : ℕ) (q : Queue) → Joined i q (record q { reacquiring = push q.reacquiring i })
join_reacquiring i q = record {
  free = refl;
  line = λ j. omega (
    arith,
    times_line j (record q { reacquiring = push q.reacquiring i }),
    times_line j q,
    times-push j i q.reacquiring,
  );
}

pub join_promoted : (i : ℕ) (q : Queue) → Joined i q (record q { promoted = push q.promoted i })
join_promoted i q = record {
  free = refl;
  line = λ j. omega (
    arith,
    times_line j (record q { promoted = push q.promoted i }),
    times_line j q,
    times-push j i q.promoted,
  );
}

join_waiting : (i : ℕ) (q : Queue) → Joined i q (record q { waiting = push q.waiting i })
join_waiting i q = record {
  free = refl;
  line = λ j. omega (
    arith,
    times_line j (record q { waiting = push q.waiting i }),
    times_line j q,
    times-push j i q.waiting,
  );
}

after_note :
    (t : Option ℕ) (w : Option ℕ) (i : ℕ) (q r : Queue)
    → Joined i (note_waiter t w q) r
    → Joined i q r
after_note none w i q r h = h
after_note (some t) w i q r h = record { free = h.free; line = h.line }

pub enqueue-Joined :
    (q : Queue) (i : ℕ) (ticket : Option ℕ) (reacquire : Bool)
    → Joined i q (enqueue q i ticket reacquire)
unfolding enqueue
enqueue-Joined q i ticket true = join_reacquiring i q
enqueue-Joined q i ticket false =
    after_note ticket (some i) i q _ (
      by_ticket (is_promoted ticket (note_waiter ticket (some i) q))
        (note_waiter ticket (some i) q))
  where
    by_ticket :
        (b : Bool) (n : Queue)
        → Joined i n (
            if b
            then record n { promoted = push n.promoted i }
            else record n { waiting = push n.waiting i })
    by_ticket true n = join_promoted i n
    by_ticket false n = join_waiting i n

before_note :
    (t : Option ℕ) (w : Option ℕ) (i : ℕ) (q r : Queue)
    → Joined i q r
    → Joined i (note_waiter t w q) r
before_note none w i q r h = h
before_note (some t) w i q r h = record { free = h.free; line = h.line }

leave_reacquiring :
    (i : ℕ) (q : Queue) (rest : List ℕ)
    → remove q.reacquiring i ≡ some rest
    → Joined i (record q { reacquiring = rest }) q
leave_reacquiring i q rest e = record {
  free = refl;
  line = λ j. omega (
    arith,
    times_line j (record q { reacquiring = rest }),
    times_line j q,
    times-remove j i q.reacquiring e,
  );
}

leave_promoted :
    (i : ℕ) (q : Queue) (rest : List ℕ)
    → remove q.promoted i ≡ some rest
    → Joined i (record q { promoted = rest }) q
leave_promoted i q rest e = record {
  free = refl;
  line = λ j. omega (
    arith,
    times_line j (record q { promoted = rest }),
    times_line j q,
    times-remove j i q.promoted e,
  );
}

pub leave_waiting :
    (i : ℕ) (q : Queue) (rest : List ℕ)
    → remove q.waiting i ≡ some rest
    → Joined i (record q { waiting = rest }) q
leave_waiting i q rest e = record {
  free = refl;
  line = λ j. omega (
    arith,
    times_line j (record q { waiting = rest }),
    times_line j q,
    times-remove j i q.waiting e,
  );
}

pub dequeue-Joined :
    (q : Queue) (i : ℕ) (ticket : Option ℕ) (reacquire : Bool) {r : Queue}
    → dequeue q i ticket reacquire ≡ some r
    → Joined i r q
unfolding dequeue left_line
dequeue-Joined q i ticket true {r} h = go (remove q.reacquiring i) refl h
  where
    go :
        (o : Option (List ℕ))
        → remove q.reacquiring i ≡ o
        → elim o [ none ↦ none | some l ↦ some (record q { reacquiring = l }) ] ≡ some r
        → Joined i r q
    go none e h = cc
    go (some l) e h = subst (λ x. Joined i x q) (some_value h) (leave_reacquiring i q l e)
dequeue-Joined q i ticket false {r} h = go (remove q.promoted i) refl (remove q.waiting i) refl h
  where
    go :
        (o : Option (List ℕ))
        → remove q.promoted i ≡ o
        → (u : Option (List ℕ)) → remove q.waiting i ≡ u
        → elim o [
          | some l ↦ some (note_waiter ticket none (record q { promoted = l }))
          | none ↦ elim u [
            | some l ↦ some (note_waiter ticket none (record q { waiting = l }))
            | none ↦ none
          ]
        ]
          ≡ some r
        → Joined i r q
    go (some l) e u f h =
        subst (λ x. Joined i x q) (some_value h)
          (before_note ticket none i (record q { promoted = l }) q (leave_promoted i q l e))
    go none e (some l) f h =
        subst (λ x. Joined i x q) (some_value h)
          (before_note ticket none i (record q { waiting = l }) q (leave_waiting i q l f))
    go none e none f h = cc
