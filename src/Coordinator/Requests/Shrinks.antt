-- ===== src/Coordinator/Requests/Shrinks.antt =====
-- Requests that make no attempt wait on another.
use makebelieve.Base.{
  inl, inr, Option-cases, Bool-cases, ℕ, zero, suc, refl, Bool, true, false, not, ◌&&◌, Option,
  none, some, List, [], ◌∷◌, ◌++◌, arith, if◌then◌else◌, get_elem?, ℕ-HasTest, List-HasTest,
}
use makebelieve.Coordinator.{Phase, canceled, Attempt, Coordinator, at_attempt, at_calls, nexts}
use makebelieve.Coordinator.Hurry.{push_all, mark, hurry_from, edges_of, hurry}
use makebelieve.Coordinator.Transitions.{
  is_running, is_released, is_done, answer, reacquire, stop_attempt,
}
use makebelieve.Coordinator.Transitions.Shrinks.{
  Narrows, Narrows-trans, at_attempt-Narrows, Shrinks, at_attempt-Shrinks, fewer,
}
use makebelieve.Coordinator.Transitions.Calms.{Calms, quiet, Calms-trans, at_attempt-Calms}
use makebelieve.Coordinator.Transitions.Steady.{
  Steady, same, Steady-trans, kept, keeps-Steady, on_attempt-Steady, on_wait-Steady, if-Steady,
}
use makebelieve.Coordinator.Transitions.Preserved.{
  answer-Steady, reacquire-Steady, stop_attempt-Steady,
}
use makebelieve.Coordinator.Requests.{run, doom, is_empty, restore, cancel, cancel_wait}

pub mark-Narrows : (a : ℕ) (c : Coordinator) → Narrows c (mark a c)
mark-Narrows a c =
    let b = at_attempt a (λ x. record x { hurried = true }) c in
    let d = at_calls (λ e. record e { promotions = e.promotions ++ a ∷ [] }) b in
    let to_b = at_attempt-Narrows a (λ x. record x { hurried = true }) c (λ x n i. i) in
    by_provider c.can_promote (record { edges = to_b.edges; size = to_b.size }) to_b
  where
    by_provider :
        {d b : Coordinator} (t : Bool) → Narrows c d → Narrows c b → Narrows c (if t then d else b)
    by_provider true h k = h
    by_provider false h k = k

hurried-Narrows :
    (t : Bool) (fuel : ℕ) (a : ℕ) (x : Attempt) (stack : List ℕ) (c : Coordinator)
    → ((s : List ℕ) (d : Coordinator) → Narrows d (hurry_from fuel s d))
    → Narrows c (elim t [
      | true ↦ hurry_from fuel stack c
      | false ↦ hurry_from fuel (push_all (nexts x) stack) (mark a c)
    ])
hurried-Narrows true fuel a x stack c h = h stack c
hurried-Narrows false fuel a x stack c h =
    Narrows-trans (mark-Narrows a c) (h (push_all (nexts x) stack) (mark a c))

hurry_from-Narrows :
    (fuel : ℕ) (stack : List ℕ) (c : Coordinator) → Narrows c (hurry_from fuel stack c)
unfolding hurry_from
hurry_from-Narrows zero stack c = record { edges = λ a b e. e; size = omega arith }
hurry_from-Narrows (suc fuel) [] c = record { edges = λ a b e. e; size = omega arith }
hurry_from-Narrows (suc fuel) (a ∷ stack) c = go (get_elem? c.attempts a) (hurry_from-Narrows fuel)
  where
    go :
        (o : Option Attempt)
        → ((s : List ℕ) (d : Coordinator) → Narrows d (hurry_from fuel s d))
        → Narrows c (elim o [
          | none ↦ hurry_from fuel stack c
          | some x ↦ elim x.hurried [
            | true ↦ hurry_from fuel stack c
            | false ↦ hurry_from fuel (push_all (nexts x) stack) (mark a c)
          ]
        ])
    go none h = h stack c
    go (some x) h = hurried-Narrows x.hurried fuel a x stack c h

pub hurry-Narrows : (a : ℕ) (c : Coordinator) → Narrows c (hurry a c)
unfolding hurry
hurry-Narrows a c = hurry_from-Narrows (suc (suc (edges_of c.attempts))) (a ∷ []) c

pub run-Shrinks : (a : ℕ) (c : Coordinator) → Shrinks c (run a c)
unfolding run
run-Shrinks a c =
    at_attempt-Shrinks a (λ x. record x { phase = Phase.queued; predecessor = none }) c (λ x. refl)
      fewer

mark-Calms : (a : ℕ) (c : Coordinator) → Calms c (mark a c)
mark-Calms a c =
    by_provider c.can_promote
      (at_attempt-Calms a (λ x. record x { hurried = true }) c (λ x. kept refl refl refl refl refl))
  where
    by_provider :
        (t : Bool)
        → Calms c (at_attempt a (λ x. record x { hurried = true }) c)
        → Calms c (
            if t
            then at_calls
                (λ e. record e { promotions = e.promotions ++ a ∷ [] })
                (at_attempt a (λ x. record x { hurried = true }) c)
            else at_attempt a (λ x. record x { hurried = true }) c)
    by_provider true h = record {
      follow = h.follow;
      absent = h.absent;
      blocked = h.blocked;
      size = h.size;
      running = h.running;
    }
    by_provider false h = h

pub hurry_from-Calms :
    (fuel : ℕ) (stack : List ℕ) (c : Coordinator) → Calms c (hurry_from fuel stack c)
unfolding hurry_from
hurry_from-Calms zero stack c = quiet
hurry_from-Calms (suc fuel) [] c = quiet
hurry_from-Calms (suc fuel) (a ∷ stack) c = elim (Option-cases (get_elem? c.attempts a)) [
  | inl missing ↦ rw (missing, hurry_from) (hurry_from-Calms fuel stack c)
  | inr (x, found) ↦ elim (Bool-cases x.hurried) [
    | inl t ↦ rw (found, t, hurry_from) (hurry_from-Calms fuel stack c)
    | inr t ↦
        rw (found, t, hurry_from)
          (Calms-trans (mark-Calms a c)
            (hurry_from-Calms fuel (push_all (nexts x) stack) (mark a c)))
  ]
]

pub hurry-Calms : (a : ℕ) (c : Coordinator) → Calms c (hurry a c)
unfolding hurry
hurry-Calms a c = hurry_from-Calms (suc (suc (edges_of c.attempts))) (a ∷ []) c

pub doom-Steady : (a : ℕ) (c : Coordinator) → Steady c (doom a c)
unfolding doom
doom-Steady a c =
    let b = at_attempt a (λ y. record y { doomed = true }) c in
    on_attempt-Steady a
      (λ x d.
        if is_running x.phase && not x.stopping
        then stop_attempt a (at_attempt a (λ y. record y { doomed = true }) d)
        else d)
      c
      λ x.
        if-Steady (is_running x.phase && not x.stopping) c (stop_attempt a b) c
          (Steady-trans
            (keeps-Steady a (λ y. record y { doomed = true }) c (λ y. refl) (λ y. refl)
              (λ y. kept refl refl refl refl refl))
            (stop_attempt-Steady a b))
          same

restore-Steady : (r : Option ℕ) (c : Coordinator) → Steady c (restore r c)
restore-Steady none c = same
restore-Steady (some r) c =
    on_attempt-Steady r
      (λ x d.
        if not x.stopping && is_empty x.waits_by_me && is_released x.permit
        then reacquire r d
        else d)
      c
      λ x.
        if-Steady (not x.stopping && is_empty x.waits_by_me && is_released x.permit) c
          (reacquire r c) c (reacquire-Steady r c) same

pub cancel_wait-Steady : (i : ℕ) (c : Coordinator) → Steady c (cancel_wait i c)
unfolding cancel_wait
cancel_wait-Steady i c = on_wait-Steady i (cancel i) c λ w.
    let d = answer i canceled c in
    if-Steady (is_done w.state) c c (restore w.requester d) same
      (Steady-trans (answer-Steady i canceled c) (restore-Steady w.requester d))
