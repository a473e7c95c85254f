-- ===== src/Coordinator/Tests.antt =====
-- Two outputs, and a second attempt at the first of them.
use makebelieve.Base.{
  ℕ, zero, suc, ◌<◌, ◌≡◌, refl, ◌↔◌, inl, inr, true, false, none, some, List, [], ◌∷◌, arith,
  length, get_elem?, ℕ-HasTest, List-HasTest, list_eq,
}
use makebelieve.Paths.{FilePath}
use makebelieve.Base.Optional.{some_value, no_value}
use makebelieve.Coordinator.{
  Permit, Phase, dependency_cycle, no_calls, Attempt, Coordinator, initial, Edge, Leads, stay,
  onward,
}
use makebelieve.Coordinator.Search.{search, path_to}
use makebelieve.Coordinator.Search.Cycle.{path_to-Leads}
use makebelieve.Coordinator.Search.Ends.{IsBounded, path_to_ends}
use makebelieve.Coordinator.Hurry.Spreads.{Hurried}
use makebelieve.Coordinator.Requests.{
  Waited, create_attempt, new_attempt, enqueue, requester_of, wait, Step, Reached,
}
use makebelieve.Coordinator.Requests.Sound.{Reached-acyclic}
use makebelieve.Coordinator.Requests.Hurrying.{Reached-Hurried, wait-Hurried}
use makebelieve.Text.{codes}
use makebelieve.Coordinator.Transitions.{any_blocked, on_permit, complete, on_reacquired}
use makebelieve.Coordinator.Requests.{run}
use makebelieve.Coordinator.Requests.Permits.Reachable.{Reached-any_blocked}
use makebelieve.Coordinator.Requests.Deadlock.{wait-dependency_cycle}

abbrev holding : List Attempt → List (FilePath × ℕ) → Coordinator
holding attempts running = record {
  attempts = attempts;
  waits = [];
  waiting = [];
  running = running;
  can_promote = true;
  calls = no_calls;
}

abbrev one_attempt : Coordinator
one_attempt = holding (new_attempt [] none ∷ []) []

abbrev two_attempts : Coordinator
two_attempts = holding (new_attempt [] none ∷ new_attempt [] (some 0) ∷ []) []

two-Reached : Reached two_attempts
unfolding create_attempt initial
two-Reached =
    Reached.next
      (Reached.next (Reached.at_first true) (Step.creates [] none (λ p e. absurd (no_value e))))
      (Step.creates [] (some 0) (λ p e. omega (arith, some_value e)))

second-Edge : Edge two_attempts 1 0
second-Edge = inl refl

Reached-acyclic_example : ¬ Leads two_attempts 0 1
Reached-acyclic_example = Reached-acyclic two-Reached 1 0 second-Edge

-- A reader asks for the second attempt.
abbrev asked : Coordinator
asked = (wait false 1 none two_attempts).1

asked-Reached : Reached asked
asked-Reached = Reached.next two-Reached (Step.waits false 1 none (omega arith))

asked-Edge : Edge asked 1 0
unfolding wait enqueue
asked-Edge = inl refl

asked-Hurried : Hurried asked 1
unfolding wait enqueue
asked-Hurried = refl

Reached-Hurried_example : Hurried asked 0
Reached-Hurried_example = Reached-Hurried asked-Reached 1 0 asked-Edge asked-Hurried

second-Leads : Leads asked 1 0
unfolding wait enqueue
second-Leads = onward (inl refl) stay

wait-Hurried_example : Hurried asked 0
unfolding requester_of
wait-Hurried_example = wait-Hurried two-Reached 1 0 none (omega arith) refl refl second-Leads

two-IsBounded : IsBounded two_attempts
two-IsBounded zero b never = absurd never
two-IsBounded (suc zero) b (inl e) = omega (arith, e)
two-IsBounded (suc zero) b (inr never) = absurd never
two-IsBounded (suc (suc a)) b never = absurd never

path_to_ends_example :
    (path : List ℕ) × (search 4 two_attempts 1 ((0, none) ∷ []) (0 ∷ []) ≡ some path)
    × (path_to two_attempts 0 1 ≡ path)
    × (path ≡ [] → ¬ Leads two_attempts 0 1)
path_to_ends_example = path_to_ends two_attempts 0 1 two-IsBounded

path_to-Leads_example : Leads two_attempts 1 1 × Leads two_attempts 1 0
unfolding path_to
path_to-Leads_example = path_to-Leads two_attempts 1 0 1 (inr (inl refl))

-- The first attempt is running and waits on nothing; the second waits on it.
abbrev going : Coordinator
going =
    holding
      ((record (new_attempt [] none) { phase = Phase.running })
        ∷ (record (new_attempt [] none) { edges_out = (0, 1) ∷ [] })
        ∷ [])
      (([], 0) ∷ [])

going-IsBounded : IsBounded going
going-IsBounded zero b never = absurd never
going-IsBounded (suc zero) b (inl e) = omega (arith, e)
going-IsBounded (suc zero) b (inr never) = absurd never
going-IsBounded (suc (suc a)) b never = absurd never

wait-dependency_cycle_example :
    ((wait false 1 (some []) going).0 ≡ Waited.returns dependency_cycle) ↔ Leads going 1 0
unfolding requester_of list_eq
wait-dependency_cycle_example = wait-dependency_cycle 1 0 [] going going-IsBounded refl refl refl

-- The first attempt runs, asks for the second, and has its permit back once that is built.
abbrev cleared : Coordinator → Coordinator
cleared c = record c { calls = no_calls }

abbrev queued : Coordinator
queued = run 0 (
    cleared
      (create_attempt (codes "b" ∷ []) none (cleared (create_attempt [] none (initial true)))))

abbrev waits_for_b : Coordinator
waits_for_b = (wait false 1 (some []) (cleared (on_permit 0 (cleared queued)))).1

abbrev goes_on : Coordinator
goes_on = on_reacquired 0 true (cleared (complete 1 none (cleared waits_for_b)))

on_permit-size : length (on_permit 0 (cleared queued)).attempts ≡ 2
unfolding initial create_attempt run on_permit
on_permit-size = refl

goes_on-Reached : Reached goes_on
unfolding initial create_attempt run
goes_on-Reached =
    Reached.next
      (Reached.next
        (Reached.next
          (Reached.next
            (Reached.next
              (Reached.next
                (Reached.next (Reached.at_first true)
                  (Step.creates [] none (λ p e. absurd (no_value e))))
                (Step.creates (codes "b" ∷ []) none (λ p e. absurd (no_value e))))
              (Step.runs 0 (new_attempt [] none) refl refl))
            (Step.takes_permit 0 (record (new_attempt [] none) { phase = Phase.queued }) refl refl))
          (Step.waits false 1 (some []) (there on_permit-size)))
        (Step.completes 1 none))
      (Step.reacquires 0 true)
  where
    there :
        length (on_permit 0 (cleared queued)).attempts ≡ 2
        → 1 < length (on_permit 0 (cleared queued)).attempts
    there e = omega (arith, e)

abbrev holder : Attempt
holder = record (new_attempt [] none) { phase = Phase.running; permit = Permit.held; leased = true }

goes_on-holder : get_elem? goes_on.attempts 0 ≡ some holder
unfolding initial create_attempt run on_permit wait complete on_reacquired list_eq
goes_on-holder = refl

Reached-any_blocked_example : any_blocked goes_on.waits holder.waits_by_me ≡ false
Reached-any_blocked_example = Reached-any_blocked goes_on-Reached 0 holder goes_on-holder refl refl
