-- ===== src/Coordinator/Requests.antt =====
-- What is called from outside: requests, and the life of an attempt.
pub mod Shrinks
pub mod Acyclic
pub mod Sound
pub mod Hurrying
pub mod Permits
pub mod Deadlock
use makebelieve.Base.{
  ℕ, zero, suc, ◌+◌, ◌-◌, ◌*◌, ◌%◌, ◌^◌, ◌≤◌, ◌<◌, ◌≡◌, refl, sym, ap, subst, ◌∙◌, ◌≢◌, ◌↔◌, ◌⊎◌,
  inl, inr, Bool, true, false, not, ◌&&◌, ◌||◌, Option, none, some, List, [], ◌∷◌, ◌++◌, map,
  reverse, arith, ltb, leb, nat_eq, if◌then◌else◌, nat_eq_iff, ltb→lt, lt→ltb, Bool-cases,
  Option-cases, and_left, and_right, or_right, length, get_elem?, modify, length-modify,
  modify_self, modify-none, modify_other, take, drop, find_if, any_of, all_of, keep, All, In,
  AllPairs, length-append, take-append, drop-append, All-append, All-keep, All-map, AllPairs-keep,
  AllPairs-concat, HasTest, ◌==◌, ℕ-HasTest, List-HasTest, list_eq, eq_iff, eq_self, eq_cases,
  Result, ok, err, ◌>>=◌, ◌>>◌, reject_if, ok_steps, reject_if-eq-ok, after_check, ok-injective,
  ne_test,
}
use makebelieve.Base.OrdMap
use makebelieve.Paths.{FilePath, FilePath-Order}
use makebelieve.DirectoryTree.{ErrorCode}
use makebelieve.Coordinator.{
  Phase, Permit, WaitState, Code, canceled, dependency_cycle, no_calls, is_hurried, Attempt, Wait,
  Effects, Coordinator, initial, at_attempt, at_wait, at_calls, nexts,
}
use makebelieve.Coordinator.Search.{path_to}
use makebelieve.Coordinator.Hurry.{hurry}
use makebelieve.Coordinator.Transitions.{
  is_running, is_released, is_done, on_attempt, on_wait, one_more, answer, block, reacquire, each,
  stop_attempt, on_reacquired, on_outer_stop, complete, on_permit, finish,
}

-- How a call of `wait` goes on: it returns at once, or as the wait with this number.
pub data Waited : Type 0 where
  returns : Code → Waited
  waits_as : ℕ → Waited

-- The attempt running at the output that the request comes from.
unfoldable pub requester_of : Coordinator → Option FilePath → Option ℕ
unfolding OrdMap.find
requester_of c none = none
requester_of c (some output) = OrdMap.find output c.running

abbrev pub ended_phase : Option Attempt → Bool
ended_phase none = false
ended_phase (some x) = elim x.phase [ Phase.ended ↦ true | _ ↦ false ]

abbrev pub still_under_way : Coordinator → Option ℕ → Option ℕ
still_under_way c none = none
still_under_way c (some p) = if ended_phase (get_elem? c.attempts p) then none else some p

-- `Attempt`'s constructor.
abbrev pub new_attempt : FilePath → Option ℕ → Attempt
new_attempt output predecessor = record {
  output = output;
  phase = Phase.pending;
  permit = Permit.no_permit;
  stopping = false;
  doomed = false;
  hurried = false;
  result = none;
  predecessor = predecessor;
  leased = false;
  reacquire_outstanding = false;
  draining = false;
  waits_by_me = [];
  waits_on_me = [];
  edges_out = [];
}

unfoldable pub create_attempt : FilePath → Option ℕ → Coordinator → Coordinator
create_attempt output predecessor c = record c {
  attempts = c.attempts ++ new_attempt output (still_under_way c predecessor) ∷ [];
}

-- The start of `run`, before the attempt has its permit.
unfoldable pub run : ℕ → Coordinator → Coordinator
run a = at_attempt a (λ x. record x { phase = Phase.queued; predecessor = none })

-- The body of the loop over a cycle.
unfoldable pub doom : ℕ → Coordinator → Coordinator
unfolding stop_attempt
doom a = on_attempt a (λ x c.
    if is_running x.phase && not x.stopping
    then stop_attempt a (at_attempt a (λ y. record y { doomed = true }) c)
    else c)

abbrev pub link_requester : ℕ → ℕ → Option ℕ → Coordinator → Coordinator
link_requester i target none c = c
link_requester i target (some r) c =
    at_attempt r
      (λ x. record x {
        waits_by_me = x.waits_by_me ++ i ∷ [];
        edges_out = one_more target x.edges_out;
      })
      c

abbrev pub add_wait : ℕ → Option ℕ → Coordinator → Coordinator
add_wait target requester c = record c {
  waits =
      c.waits
      ++ (record {
        target = target;
        requester = requester;
        state = WaitState.blocked;
        result = none;
      })
        ∷ [];
  waiting = c.waiting ++ length c.waits ∷ [];
}

-- The new wait, put with its target and its requester.
unfoldable pub link : ℕ → Option ℕ → Coordinator → Coordinator
unfolding one_more
link target requester c = link_requester (length c.waits) target requester (
    at_attempt target (λ x. record x { waits_on_me = x.waits_on_me ++ length c.waits ∷ [] })
      (add_wait target requester c))

abbrev pub hurries : Coordinator → Option ℕ → Bool
hurries c none = true
hurries c (some r) = is_hurried (get_elem? c.attempts r)

abbrev pub block_requester : Option ℕ → Coordinator → Coordinator
block_requester none c = c
block_requester (some r) c = block r c

unfoldable pub enqueue : ℕ → Option ℕ → Coordinator → Coordinator
unfolding link hurry block
enqueue target requester c =
    let a = link target requester c in
    let b = if hurries a requester then hurry target a else a in block_requester requester b

abbrev pub is_stopping : Option Attempt → Bool
is_stopping none = false
is_stopping (some x) = x.stopping

abbrev pub wait_on : ℕ → Option ℕ → List ℕ → Coordinator → Waited × Coordinator
wait_on target requester [] c = (waits_as (length c.waits), enqueue target requester c)
wait_on target requester (a ∷ cycle) c = (returns dependency_cycle, each doom (a ∷ cycle) c)

abbrev pub wait_from : ℕ → Option ℕ → Coordinator → Waited × Coordinator
wait_from target none c = (waits_as (length c.waits), enqueue target none c)
wait_from target (some r) c =
    if is_stopping (get_elem? c.attempts r)
    then (returns canceled, c)
    else wait_on target (some r) (path_to c target r) c

abbrev pub result_at : Option Attempt → Option Code
result_at none = none
result_at (some x) = x.result

abbrev pub wait_for : ℕ → Option FilePath → Option Code → Coordinator → Waited × Coordinator
wait_for target requester (some result) c = (returns result, c)
wait_for target requester none c = wait_from target (requester_of c requester) c

-- `wait`, up to where it suspends.
unfoldable pub wait : Bool → ℕ → Option FilePath → Coordinator → Waited × Coordinator
unfolding requester_of path_to doom each enqueue
wait stop_requested target requester c =
    if stop_requested
    then (returns canceled, c)
    else wait_for target requester (result_at (get_elem? c.attempts target)) c

abbrev pub is_empty : List ℕ → Bool
is_empty [] = true
is_empty _ = false

abbrev pub restore : Option ℕ → Coordinator → Coordinator
restore none c = c
restore (some r) c =
    on_attempt r
      (λ x d.
        if not x.stopping && is_empty x.waits_by_me && is_released x.permit
        then reacquire r d
        else d)
      c

abbrev pub cancel : ℕ → Wait → Coordinator → Coordinator
cancel i w c = if is_done w.state then c else restore w.requester (answer i canceled c)

unfoldable pub cancel_wait : ℕ → Coordinator → Coordinator
unfolding answer reacquire
cancel_wait i = on_wait i (cancel i)

-- What may happen. The provider of permits answers a `reacquire` with `on_reacquired`. What runs an
-- attempt calls `run` once, then `on_permit` once, and in time `finish` and `complete`.
pub data Step (c : Coordinator) : Coordinator → Type 0 where
  creates :
      (output : FilePath) (predecessor : Option ℕ)
      → ((p : ℕ) → predecessor ≡ some p → p < length c.attempts)
      → Step c (create_attempt output predecessor c)
  runs :
      (a : ℕ) (x : Attempt)
      → get_elem? c.attempts a ≡ some x
      → x.phase ≡ Phase.pending
      → Step c (run a c)
  waits :
      (stop_requested : Bool) (target : ℕ) (requester : Option FilePath)
      → target < length c.attempts
      → Step c (wait stop_requested target requester c).1
  cancels : (i : ℕ) → Step c (cancel_wait i c)
  completes : (a : ℕ) (result : Code) → Step c (complete a result c)
  takes_permit :
      (a : ℕ) (x : Attempt)
      → get_elem? c.attempts a ≡ some x
      → x.phase ≡ Phase.queued
      → Step c (on_permit a c)
  reacquires : (a : ℕ) (granted : Bool) → Step c (on_reacquired a granted c)
  stops : (a : ℕ) → Step c (on_outer_stop a c)
  finishes : (a : ℕ) → Step c (finish a c)

pub data Reached : Coordinator → Type 0 where
  at_first : (can_promote : Bool) → Reached (initial can_promote)
  next : {c d : Coordinator} → Reached c → Step (record c { calls = no_calls }) d → Reached d
