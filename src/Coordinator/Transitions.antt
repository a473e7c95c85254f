-- ===== src/Coordinator/Transitions.antt =====
-- The state transitions made under the lock.
pub mod Shrinks
pub mod Calms
pub mod Steady
pub mod Preserved
pub mod Others
use makebelieve.Base.{
  ℕ, zero, suc, ◌+◌, ◌-◌, ◌*◌, ◌%◌, ◌^◌, ◌≤◌, ◌<◌, ◌≡◌, refl, sym, ap, subst, ◌∙◌, ◌≢◌, ◌↔◌, ◌⊎◌,
  inl, inr, Bool, true, false, not, ◌&&◌, ◌||◌, Option, none, some, List, [], ◌∷◌, ◌++◌, map,
  reverse, arith, ltb, leb, nat_eq, if◌then◌else◌, nat_eq_iff, ltb→lt, lt→ltb, Bool-cases,
  Option-cases, and_left, and_right, or_right, length, get_elem?, modify, length-modify,
  modify_self, modify-none, modify_other, take, drop, find_if, any_of, all_of, keep, All, In,
  AllPairs, length-append, take-append, drop-append, All-append, All-keep, All-map, AllPairs-keep,
  AllPairs-concat, HasTest, ◌==◌, ℕ-HasTest, List-HasTest, list_eq, eq_iff, eq_self, eq_cases,
  Result, ok, err, ◌>>=◌, ◌>>◌, reject_if, ok_steps, reject_if-eq-ok, after_check, ok-injective,
  ne_test,
}
use makebelieve.Base.OrdMap
use makebelieve.Paths.{FilePath, FilePath-Order}
use makebelieve.DirectoryTree.{ErrorCode}
use makebelieve.Coordinator.{
  Phase, Permit, WaitState, Code, canceled, Attempt, Wait, Effects, Coordinator, at_attempt,
  at_wait, at_calls, nexts,
}

abbrev is_pending : Phase → Bool
is_pending Phase.pending = true
is_pending _ = false

abbrev pub is_running : Phase → Bool
is_running Phase.running = true
is_running _ = false

abbrev pub is_held : Permit → Bool
is_held Permit.held = true
is_held _ = false

abbrev pub is_released : Permit → Bool
is_released Permit.released = true
is_released _ = false

abbrev pub is_blocked : WaitState → Bool
is_blocked WaitState.blocked = true
is_blocked _ = false

abbrev pub is_ready : WaitState → Bool
is_ready WaitState.ready = true
is_ready _ = false

abbrev pub is_done : WaitState → Bool
is_done WaitState.done = true
is_done _ = false

abbrev pub on_attempt : ℕ → (Attempt → Coordinator → Coordinator) → Coordinator → Coordinator
on_attempt a f c = elim (get_elem? c.attempts a) [ none ↦ c | some x ↦ f x c ]

abbrev pub on_wait : ℕ → (Wait → Coordinator → Coordinator) → Coordinator → Coordinator
on_wait i f c = elim (get_elem? c.waits i) [ none ↦ c | some x ↦ f x c ]

unfoldable pub remove : ℕ → List ℕ → List ℕ
remove x [] = []
remove x (y ∷ ys) = let rest = remove x ys in if y == x then ys else y ∷ rest

-- The counts of `edges_out`. An entry whose count falls to 0 goes.
unfoldable pub one_less : ℕ → List (ℕ × ℕ) → List (ℕ × ℕ)
one_less to [] = []
one_less to ((b, n) ∷ edges) =
    let rest = one_less to edges in
    if b == to then (if n - 1 == 0 then edges else (b, n - 1) ∷ edges) else (b, n) ∷ rest

unfoldable pub one_more : ℕ → List (ℕ × ℕ) → List (ℕ × ℕ)
one_more to [] = (to, 1) ∷ []
one_more to ((b, n) ∷ edges) =
    let rest = one_more to edges in if b == to then (b, n + 1) ∷ edges else (b, n) ∷ rest

unfoldable pub remove_edge : ℕ → ℕ → Coordinator → Coordinator
unfolding one_less
remove_edge from to = at_attempt from (λ x. record x { edges_out = one_less to x.edges_out })

abbrev unlink_requester : ℕ → Option ℕ → Coordinator → Coordinator
unlink_requester i none c = c
unlink_requester i (some r) c =
    at_attempt r (λ x. record x { waits_by_me = remove i x.waits_by_me }) c

unfoldable pub unlink : ℕ → Wait → Coordinator → Coordinator
unfolding remove
unlink i w c =
    let a = unlink_requester i w.requester c in
    let b = at_attempt w.target (λ x. record x { waits_on_me = remove i x.waits_on_me }) a in
    record b { waiting = remove i b.waiting }

abbrev drop_edge : Wait → WaitState → Option ℕ → Coordinator → Coordinator
drop_edge w WaitState.blocked (some r) c = remove_edge r w.target c
drop_edge w _ _ c = c

unfoldable pub answer_wait : ℕ → Code → Wait → Coordinator → Coordinator
unfolding remove_edge unlink
answer_wait i result w c =
    let a = drop_edge w w.state w.requester c in
    let b = unlink i w a in
    let d = at_wait i (λ x. record x { result = result; state = WaitState.done }) b in
    at_calls (λ e. record e { answered = e.answered ++ i ∷ [] }) d

unfoldable pub answer : ℕ → Code → Coordinator → Coordinator
unfolding answer_wait
answer i result = on_wait i (answer_wait i result)

unfoldable pub give_back : ℕ → Attempt → Coordinator → Coordinator
give_back a x c =
    let b = at_attempt a (λ y. record y { permit = Permit.released }) c in
    if x.leased then at_calls (λ e. record e { releases = e.releases ++ a ∷ [] }) b else b

unfoldable pub any_blocked : List Wait → List ℕ → Bool
any_blocked waits [] = false
any_blocked waits (i ∷ is) =
    elim (get_elem? waits i) [ none ↦ false | some w ↦ is_blocked w.state ] || any_blocked waits is

unfoldable pub give_back_if_waiting : ℕ → Coordinator → Coordinator
unfolding give_back any_blocked
give_back_if_waiting a c =
    on_attempt a
      (λ x d.
        if is_held x.permit && not x.stopping && any_blocked d.waits x.waits_by_me
        then give_back a x d
        else d)
      c

unfoldable pub block : ℕ → Coordinator → Coordinator
unfolding give_back
block a = on_attempt a (λ x d. if is_held x.permit then give_back a x d else d)

unfoldable pub reacquire : ℕ → Coordinator → Coordinator
reacquire a c =
    at_calls (λ e. record e { reacquires = e.reacquires ++ a ∷ [] })
      (at_attempt a (λ x. record x { permit = Permit.reacquiring; reacquire_outstanding = true }) c)

-- The end of `ready`: the wait keeps its place among its requester's waits.
unfoldable pub keep_ready : ℕ → Code → Wait → ℕ → Coordinator → Coordinator
unfolding remove_edge remove
keep_ready i result w r c =
    let a = remove_edge r w.target c in
    let b = at_attempt w.target (λ x. record x { waits_on_me = remove i x.waits_on_me }) a in
    at_wait i (λ x. record x { result = result; state = WaitState.ready }) b

abbrev ready_with : ℕ → Code → Wait → ℕ → Permit → Coordinator → Coordinator
ready_with i result w r Permit.held c = give_back_if_waiting r (answer i result c)
ready_with i result w r Permit.released c = keep_ready i result w r (reacquire r c)
ready_with i result w r Permit.reacquiring c = keep_ready i result w r c
ready_with i result w r Permit.no_permit c = answer i canceled c

abbrev ready_for : ℕ → Code → Wait → Option ℕ → Coordinator → Coordinator
ready_for i result w none c = answer i result c
ready_for i result w (some r) c =
    on_attempt r
      (λ x d. if x.stopping then answer i canceled d else ready_with i result w r x.permit d) c

unfoldable pub ready : ℕ → Code → Coordinator → Coordinator
unfolding answer give_back_if_waiting reacquire keep_ready
ready i result = on_wait i (λ w. ready_for i result w w.requester)

-- A loop over a copy of a list of waits.
unfoldable pub each : (ℕ → Coordinator → Coordinator) → List ℕ → Coordinator → Coordinator
each f [] c = c
each f (i ∷ is) c = each f is (f i c)

abbrev pub answer_ready : Bool → Bool → ℕ → Coordinator → Coordinator
answer_ready granted stopping i = on_wait i (λ w d.
    if is_ready w.state
    then answer i (if granted && not stopping then w.result else canceled) d
    else d)

abbrev pub drain_end : ℕ → Coordinator → Coordinator
drain_end a c =
    at_calls (λ e. record e { drains = e.drains ++ a ∷ [] })
      (at_attempt a (λ y. record y { draining = false }) c)

abbrev pub reacquired : ℕ → Bool → Attempt → Coordinator → Coordinator
reacquired a granted x c =
    let b =
      at_attempt a
        (λ y. record y {
          reacquire_outstanding = false;
          permit = if granted then Permit.held else Permit.released;
        })
        c in
    let d = each (answer_ready granted x.stopping) x.waits_by_me b in
    let e = give_back_if_waiting a d in if x.draining then drain_end a e else e

unfoldable pub on_reacquired : ℕ → Bool → Coordinator → Coordinator
unfolding answer give_back_if_waiting each
on_reacquired a granted = on_attempt a (reacquired a granted)

unfoldable pub cancel_waits_of : ℕ → Coordinator → Coordinator
unfolding answer each
cancel_waits_of a = on_attempt a (λ x. each (λ i. answer i canceled) x.waits_by_me)

abbrev pub note_stop : ℕ → Attempt → Coordinator → Coordinator
note_stop a x = at_calls (λ e. record e {
  stop_reacquires =
      if x.reacquire_outstanding then e.stop_reacquires ++ a ∷ [] else e.stop_reacquires;
  stop_attempts = e.stop_attempts ++ a ∷ [];
})

unfoldable pub stop_attempt : ℕ → Coordinator → Coordinator
unfolding cancel_waits_of
stop_attempt a c =
    on_attempt a (note_stop a)
      (cancel_waits_of a (at_attempt a (λ x. record x { stopping = true }) c))

unfoldable pub on_outer_stop : ℕ → Coordinator → Coordinator
unfolding stop_attempt
on_outer_stop a = on_attempt a (λ x c.
    if is_running x.phase && not x.stopping
    then stop_attempt a c
    else at_calls (λ e. record e { stop_attempts = e.stop_attempts ++ a ∷ [] }) c)

abbrev pub with_result : ℕ → Code → Coordinator → Coordinator
with_result a result = at_attempt a (λ y. record y { result = some result; predecessor = none })

unfoldable pub complete : ℕ → Code → Coordinator → Coordinator
unfolding ready each
complete a result =
    on_attempt a (λ x c. each (λ i. ready i result) x.waits_on_me (with_result a result c))

abbrev pub permitted : ℕ → Attempt → Coordinator → Coordinator
permitted a x c =
    record (at_attempt a
      (λ y. record y { phase = Phase.running; permit = Permit.held; leased = true }) c) {
        running = OrdMap.emplace x.output a c.running;
      }

unfoldable pub on_permit : ℕ → Coordinator → Coordinator
unfolding OrdMap.emplace
on_permit a = on_attempt a (permitted a)

abbrev pub ended_at : ℕ → Attempt → Coordinator → Coordinator
ended_at a x c =
    let b = at_attempt a (λ y. record y { phase = Phase.ended; stopping = true }) c in
    record b { running = OrdMap.erase x.output b.running }

abbrev pub drain_later : ℕ → Coordinator → Coordinator
drain_later a c =
    at_calls (λ e. record e { stop_reacquires = e.stop_reacquires ++ a ∷ [] })
      (at_attempt a (λ y. record y { draining = true }) c)

abbrev pub drain_now : ℕ → Coordinator → Coordinator
drain_now a = at_calls (λ e. record e { drains = e.drains ++ a ∷ [] })

unfoldable pub finish : ℕ → Coordinator → Coordinator
unfolding cancel_waits_of OrdMap.erase
finish a = on_attempt a (λ x c.
    let d = cancel_waits_of a (ended_at a x c) in
    if x.reacquire_outstanding then drain_later a d else drain_now a d)
