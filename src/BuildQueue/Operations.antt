-- ===== src/BuildQueue/Operations.antt =====
-- `SlotOperation`, `Slot` and `Lease`: the operations that wait for slots, step by step. An operation
-- that has completed with a slot holds it, through a `Slot` or a `Lease`, until it is given back.
pub mod Counting
pub mod Slots
pub mod Actions
pub mod Reachable
use makebelieve.Base.{
  ℕ, zero, suc, ◌+◌, ◌-◌, ◌*◌, ◌%◌, ◌^◌, ◌≤◌, ◌<◌, ◌≡◌, refl, sym, ap, subst, ◌∙◌, ◌≢◌, ◌↔◌, ◌⊎◌,
  inl, inr, Bool, true, false, not, ◌&&◌, ◌||◌, Option, none, some, List, [], ◌∷◌, ◌++◌, map,
  reverse, arith, ltb, leb, nat_eq, if◌then◌else◌, nat_eq_iff, ltb→lt, lt→ltb, Bool-cases,
  Option-cases, and_left, and_right, or_right, length, get_elem?, take, drop, find_if, any_of,
  all_of, keep, All, In, AllPairs, length-append, take-append, drop-append, All-append, All-keep,
  All-map, AllPairs-keep, AllPairs-concat, HasTest, ◌==◌, ℕ-HasTest, List-HasTest, list_eq, eq_iff,
  eq_self, eq_cases, Result, ok, err, ◌>>=◌, ◌>>◌, reject_if, ok_steps, reject_if-eq-ok,
  after_check, ok-injective, ne_test,
}
use makebelieve.BuildQueue.{Queue, QueueTicket, try_take, enqueue, dequeue, release, promote}

-- How far an operation is: made; its stop callback registered; stopped, or given a slot, by
-- `start`, which has yet to say so; in line; off the line with a slot, or by a stop, and to be
-- resumed; complete with a slot, or stopped; and its slot given back.
pub data Phase : Type 0 where
  fresh registered stopping taking in_line handed taken_off holding stopped given_back : Phase

pub record Operation : Type 0 where
  pub reacquire : Bool
  pub ticket : Option ℕ
  pub phase : Phase
  pub stopped_early : Bool

pub record World : Type 0 where
  pub queue : Queue
  pub operations : List Operation

-- `BuildQueue(concurrency, ...)`.
unfoldable pub initial : ℕ → World
initial concurrency = record {
  queue = record {
    free = concurrency;
    reacquiring = [];
    promoted = [];
    waiting = [];
    tickets = λ t. record { promoted = false; waiter = none };
  };
  operations = [];
}

unfoldable pub update : ℕ → Operation → List Operation → List Operation
update i o [] = []
update zero o (p ∷ os) = o ∷ os
update (suc i) o (p ∷ os) = p ∷ update i o os

abbrev ticket_at : Option Operation → Option ℕ
ticket_at none = none
ticket_at (some o) = o.ticket

abbrev to_phase : Phase → ℕ → Operation → World → World
to_phase phase i o w = record w { operations = update i (record o { phase = phase }) w.operations }

abbrev hand : Option Operation → ℕ → World → World
hand none i w = w
hand (some o) i w = to_phase handed i o w

-- The call of a waiter's task, which only schedules its resumption.
abbrev call_task : Option ℕ → World → World
call_task none w = w
call_task (some i) w = hand (get_elem? w.operations i) i w

unfoldable pub release_slot : World → World
unfolding release update
release_slot w =
    let (waiter, q) = release (λ i. ticket_at (get_elem? w.operations i)) w.queue in
    call_task waiter (record w { queue = q })

abbrev take_or_wait : World → ℕ → Operation → Option Queue → World
take_or_wait w i o (some q) = to_phase taking i o (record w { queue = q })
take_or_wait w i o none =
    to_phase in_line i o (record w { queue = enqueue w.queue i o.ticket o.reacquire })

-- The part of `start` under the lock.
unfoldable pub enter : World → ℕ → Operation → World
unfolding update try_take enqueue
enter w i o =
    if o.stopped_early then to_phase stopping i o w else take_or_wait w i o (try_take w.queue)

abbrev leave_or_note : World → ℕ → Operation → Option Queue → World
leave_or_note w i o none = record w {
  operations = update i (record o { stopped_early = true }) w.operations;
}
leave_or_note w i o (some q) = to_phase taken_off i o (record w { queue = q })

unfoldable pub on_stop : World → ℕ → Operation → World
unfolding update dequeue
on_stop w i o = leave_or_note w i o (dequeue w.queue i o.ticket o.reacquire)

-- Whether the stop callback is registered, and has not taken the operation off.
abbrev listens : Phase → Bool
listens registered = true
listens stopping = true
listens taking = true
listens in_line = true
listens handed = true
listens _ = false

-- The end of `start`, after the lock.
abbrev complete : World → ℕ → Operation → Phase → Option World
complete w i o stopping = some (to_phase stopped i o w)
complete w i o taking = some (to_phase holding i o w)
complete w i o _ = none

-- `Resume`: `set_stopped` if the handoff is shutting down, else `set_value`.
abbrev resume : World → ℕ → Operation → Bool → Phase → Option World
resume w i o false handed = some (to_phase holding i o w)
resume w i o true handed = some (release_slot (to_phase stopped i o w))
resume w i o shutdown taken_off = some (to_phase stopped i o w)
resume w i o _ _ = none

-- `Slot::release` and `Lease::release`, which do nothing without a slot.
abbrev give_back : World → ℕ → Operation → Phase → World
give_back w i o holding = release_slot (to_phase given_back i o w)
give_back w i o _ = w

-- What may happen to an operation `o` numbered `i`.
pub data Act (w : World) (i : ℕ) (o : Operation) : World → Type 0 where
  registers : o.phase ≡ fresh → Act w i o (to_phase registered i o w)
  enters : o.phase ≡ registered → Act w i o (enter w i o)
  stops : listens o.phase ≡ true → Act w i o (on_stop w i o)
  completes : {v : World} → complete w i o o.phase ≡ some v → Act w i o v
  resumes : (shutdown : Bool) {v : World} → resume w i o shutdown o.phase ≡ some v → Act w i o v
  gives_back : Act w i o (give_back w i o o.phase)

-- An operation is made, a ticket is promoted, or something happens to an operation.
pub data Step (w : World) : World → Type 0 where
  makes :
      (reacquire : Bool) (ticket : Option ℕ)
      → Step w (record w {
        operations =
            w.operations
            ++ (record {
              reacquire = reacquire;
              ticket = ticket;
              phase = fresh;
              stopped_early = false;
            })
              ∷ [];
      })
  promotes : (t : ℕ) → Step w (record w { queue = promote w.queue t })
  acts :
      (i : ℕ) (o : Operation) {v : World}
      → get_elem? w.operations i ≡ some o
      → Act w i o v
      → Step w v

pub data Reached (concurrency : ℕ) : World → Type 0 where
  at_first : Reached concurrency (initial concurrency)
  onward : {v w : World} → Reached concurrency v → Step v w → Reached concurrency w
