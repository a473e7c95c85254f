-- ===== src/Coordinator/Transitions/Preserved.antt =====
-- The transitions that are steady.
use makebelieve.Base.{
  ℕ, ◌≡◌, refl, sym, ◌∙◌, ◌⊎◌, inl, inr, Bool, true, false, not, ◌&&◌, Option, none, some, List, [],
  ◌∷◌, ◌++◌, if◌then◌else◌, In, ◌==◌, ℕ-HasTest, List-HasTest,
}
use makebelieve.Coordinator.{
  Permit, WaitState, Code, canceled, Attempt, Wait, Coordinator, at_attempt, at_wait, at_calls,
}
use makebelieve.Coordinator.Transitions.{
  is_running, is_held, is_ready, remove, one_less, remove_edge, unlink_requester, unlink, drop_edge,
  answer_wait, answer, give_back, give_back_if_waiting, block, reacquire, keep_ready, ready_with,
  ready_for, ready, each, answer_ready, drain_end, cancel_waits_of, note_stop, stop_attempt,
  on_outer_stop, with_result, complete, any_blocked,
}
use makebelieve.Coordinator.Transitions.Shrinks.{remove_edge-Shrinks, with_result-Shrinks}
use makebelieve.Coordinator.Transitions.Calms.{Follows, at_attempt-Calms}
use makebelieve.Coordinator.Transitions.Steady.{
  Steady, Steady-trans, at_wait-Steady, each-Steady, elsewhere-Steady, if-Steady, keeps-Steady,
  kept, on_attempt-Steady, on_wait-Steady, same,
}

remove-In : (i j : ℕ) (xs : List ℕ) → In j (remove i xs) → In j xs
unfolding remove
remove-In i j [] h = h
remove-In i j (x ∷ xs) h = by_test (x == i) h (remove-In i j xs)
  where
    by_test :
        (t : Bool)
        → In j (if t then xs else x ∷ remove i xs)
        → (In j (remove i xs) → In j xs)
        → (j ≡ x) ⊎ In j xs
    by_test true h next = inr h
    by_test false (inl e) next = inl e
    by_test false (inr k) next = inr (next k)

unlink-Steady : (i : ℕ) (w : Wait) (c : Coordinator) → Steady c (unlink i w c)
unfolding unlink
unlink-Steady i w c = elsewhere-Steady (unlink i w c) refl refl refl (
    Steady-trans (first w.requester) (
      keeps-Steady w.target (λ x. record x { waits_on_me = remove i x.waits_on_me })
        (unlink_requester i w.requester c) (λ x. refl) (λ x. refl)
        (λ x. kept refl refl refl refl refl)))
  where
    first : (r : Option ℕ) → Steady c (unlink_requester i r c)
    first none = same
    first (some r) =
        keeps-Steady r (λ x. record x { waits_by_me = remove i x.waits_by_me }) c (λ x. refl)
          (λ x. refl)
          (λ x. record {
            phase = refl;
            output = refl;
            held = λ e. e;
            stopping = λ e. e;
            mine = λ j k. remove-In i j x.waits_by_me k;
          })

remove_edge-Steady : (from to : ℕ) (c : Coordinator) → Steady c (remove_edge from to c)
unfolding remove_edge
remove_edge-Steady from to c = record {
  shrinks = remove_edge-Shrinks from to c;
  calms =
      at_attempt-Calms from (λ x. record x { edges_out = one_less to x.edges_out }) c
        (λ x. kept refl refl refl refl refl);
}

drop_edge-Steady :
    (w : Wait) (s : WaitState) (r : Option ℕ) (c : Coordinator) → Steady c (drop_edge w s r c)
drop_edge-Steady w WaitState.blocked (some r) c = remove_edge-Steady r w.target c
drop_edge-Steady w _ _ c = same

pub answer-Steady : (i : ℕ) (result : Code) (c : Coordinator) → Steady c (answer i result c)
unfolding answer answer_wait
answer-Steady i result c = on_wait-Steady i (answer_wait i result) c λ w.
    let a = drop_edge w w.state w.requester c in
    let b = unlink i w a in
    let d = at_wait i (λ x. record x { result = result; state = WaitState.done }) b in
    elsewhere-Steady {d = d} (answer_wait i result w c) refl refl refl (
      Steady-trans (drop_edge-Steady w w.state w.requester c) (
        Steady-trans (unlink-Steady i w a) (
          at_wait-Steady i (λ x. record x { result = result; state = WaitState.done }) b
            (λ w e. cc e))))

-- An attempt whose permit is not held.
no_longer-held :
    {x : Attempt} {p : Permit} (outstanding : Bool)
    → is_held p ≡ false
    → Follows x (record x { permit = p; reacquire_outstanding = outstanding })
no_longer-held outstanding h = record {
  phase = refl;
  output = refl;
  held = λ e. cc (sym e ∙ h);
  stopping = λ e. e;
  mine = λ i j. j;
}

give_back-Steady : (a : ℕ) (x : Attempt) (c : Coordinator) → Steady c (give_back a x c)
unfolding give_back
give_back-Steady a x c =
    let b =
      keeps-Steady a (λ y. record y { permit = Permit.released }) c (λ y. refl) (λ y. refl)
        (λ y. no_longer-held y.reacquire_outstanding refl) in
    let d = at_attempt a (λ y. record y { permit = Permit.released }) c in
    let e = at_calls (λ e. record e { releases = e.releases ++ a ∷ [] }) d in
    if-Steady x.leased c e d (elsewhere-Steady e refl refl refl b) b

pub give_back_if_waiting-Steady : (a : ℕ) (c : Coordinator) → Steady c (give_back_if_waiting a c)
unfolding give_back_if_waiting
give_back_if_waiting-Steady a c =
    on_attempt-Steady a
      (λ x d.
        if is_held x.permit && not x.stopping && any_blocked d.waits x.waits_by_me
        then give_back a x d
        else d)
      c
      λ x.
        if-Steady (is_held x.permit && not x.stopping && any_blocked c.waits x.waits_by_me) c
          (give_back a x c) c (give_back-Steady a x c) same

pub block-Steady : (a : ℕ) (c : Coordinator) → Steady c (block a c)
unfolding block
block-Steady a c =
    on_attempt-Steady a (λ x d. if is_held x.permit then give_back a x d else d) c
      λ x. if-Steady (is_held x.permit) c (give_back a x c) c (give_back-Steady a x c) same

pub reacquire-Steady : (a : ℕ) (c : Coordinator) → Steady c (reacquire a c)
unfolding reacquire
reacquire-Steady a c = elsewhere-Steady (reacquire a c) refl refl refl (
    keeps-Steady a (λ x. record x { permit = Permit.reacquiring; reacquire_outstanding = true }) c
      (λ x. refl) (λ x. refl) (λ x. no_longer-held true refl))

keep_ready-Steady :
    (i : ℕ) (result : Code) (w : Wait) (r : ℕ) (c : Coordinator)
    → Steady c (keep_ready i result w r c)
unfolding keep_ready
keep_ready-Steady i result w r c =
    let a = remove_edge r w.target c in
    Steady-trans (remove_edge-Steady r w.target c) (
      Steady-trans
        (keeps-Steady w.target (λ x. record x { waits_on_me = remove i x.waits_on_me }) a
          (λ x. refl) (λ x. refl) (λ x. kept refl refl refl refl refl))
        (at_wait-Steady i (λ x. record x { result = result; state = WaitState.ready })
          (at_attempt w.target (λ x. record x { waits_on_me = remove i x.waits_on_me }) a)
          (λ w e. cc e)))

ready_with-Steady :
    (i : ℕ) (result : Code) (w : Wait) (r : ℕ) (p : Permit) (c : Coordinator)
    → Steady c (ready_with i result w r p c)
ready_with-Steady i result w r Permit.held c =
    Steady-trans (answer-Steady i result c) (give_back_if_waiting-Steady r (answer i result c))
ready_with-Steady i result w r Permit.released c =
    Steady-trans (reacquire-Steady r c) (keep_ready-Steady i result w r (reacquire r c))
ready_with-Steady i result w r Permit.reacquiring c = keep_ready-Steady i result w r c
ready_with-Steady i result w r Permit.no_permit c = answer-Steady i canceled c

pub ready-Steady : (i : ℕ) (result : Code) (c : Coordinator) → Steady c (ready i result c)
unfolding ready
ready-Steady i result c =
    on_wait-Steady i (λ w. ready_for i result w w.requester) c λ w. by_requester w w.requester
  where
    by_requester : (w : Wait) (r : Option ℕ) → Steady c (ready_for i result w r c)
    by_requester w none = answer-Steady i result c
    by_requester w (some r) =
        on_attempt-Steady r
          (λ x d. if x.stopping then answer i canceled d else ready_with i result w r x.permit d) c
          λ x.
            if-Steady x.stopping c (answer i canceled c) (ready_with i result w r x.permit c)
              (answer-Steady i canceled c) (ready_with-Steady i result w r x.permit c)

pub answer_ready-Steady :
    (granted stopping : Bool) (i : ℕ) (c : Coordinator)
    → Steady c (answer_ready granted stopping i c)
answer_ready-Steady granted stopping i c =
    on_wait-Steady i
      (λ w d.
        if is_ready w.state
        then answer i (if granted && not stopping then w.result else canceled) d
        else d)
      c
      λ w.
        let result = if granted && not stopping then w.result else canceled in
        if-Steady (is_ready w.state) c (answer i result c) c (answer-Steady i result c) same

pub drain_end-Steady : (a : ℕ) (c : Coordinator) → Steady c (drain_end a c)
drain_end-Steady a c = elsewhere-Steady (drain_end a c) refl refl refl (
    keeps-Steady a (λ y. record y { draining = false }) c (λ y. refl) (λ y. refl)
      (λ y. kept refl refl refl refl refl))

pub cancel_waits_of-Steady : (a : ℕ) (c : Coordinator) → Steady c (cancel_waits_of a c)
unfolding cancel_waits_of
cancel_waits_of-Steady a c =
    on_attempt-Steady a (λ x. each (λ i. answer i canceled) x.waits_by_me) c
      λ x. each-Steady (λ i. answer i canceled) x.waits_by_me c (λ i d. answer-Steady i canceled d)

pub stop_attempt-Steady : (a : ℕ) (c : Coordinator) → Steady c (stop_attempt a c)
unfolding stop_attempt
stop_attempt-Steady a c =
    Steady-trans
      (keeps-Steady a (λ x. record x { stopping = true }) c (λ x. refl) (λ x. refl)
        (λ x. record {
          phase = refl;
          output = refl;
          held = λ e. e;
          stopping = λ e. cc e;
          mine = λ i j. j;
        }))
      (Steady-trans (cancel_waits_of-Steady a _) (
        on_attempt-Steady a (note_stop a)
          (cancel_waits_of a (at_attempt a (λ x. record x { stopping = true }) c))
          λ x.
            elsewhere-Steady
              (note_stop a x
                (cancel_waits_of a (at_attempt a (λ x. record x { stopping = true }) c)))
              refl refl refl same))

pub on_outer_stop-Steady : (a : ℕ) (c : Coordinator) → Steady c (on_outer_stop a c)
unfolding on_outer_stop
on_outer_stop-Steady a c =
    let other = at_calls (λ e. record e { stop_attempts = e.stop_attempts ++ a ∷ [] }) in
    on_attempt-Steady a
      (λ x d. if is_running x.phase && not x.stopping then stop_attempt a d else other d) c
      λ x.
        if-Steady (is_running x.phase && not x.stopping) c (stop_attempt a c) (other c)
          (stop_attempt-Steady a c) (elsewhere-Steady (other c) refl refl refl same)

with_result-Steady : (a : ℕ) (result : Code) (c : Coordinator) → Steady c (with_result a result c)
with_result-Steady a result c = record {
  shrinks = with_result-Shrinks a result c;
  calms =
      at_attempt-Calms a (λ y. record y { result = some result; predecessor = none }) c
        (λ x. kept refl refl refl refl refl);
}

pub complete-Steady : (a : ℕ) (result : Code) (c : Coordinator) → Steady c (complete a result c)
unfolding complete
complete-Steady a result c =
    on_attempt-Steady a (λ x d. each (λ i. ready i result) x.waits_on_me (with_result a result d)) c
      λ x. Steady-trans (with_result-Steady a result c) (
        each-Steady (λ i. ready i result) x.waits_on_me (with_result a result c)
          (λ i. ready-Steady i result))
