-- ===== src/BuildQueue/Tests.antt =====
-- One slot and two operations, the second of which waits.
use makebelieve.Base.{ℕ, refl, false, none, some, List, [], ◌∷◌, ℕ-HasTest, List-HasTest}
use makebelieve.BuildQueue.{QueueTicket, Queue, release, promote}
use makebelieve.BuildQueue.Release.{Served, release-Served}
use makebelieve.BuildQueue.Operations.{
  Phase, fresh, registered, taking, in_line, Operation, World, initial, registers, enters, makes,
  acts, Reached, at_first, onward, update, enter,
}
use makebelieve.BuildQueue.Operations.Slots.{IsBalanced}
use makebelieve.BuildQueue.Operations.Reachable.{Reached-IsBalanced}

abbrev no_tickets : ℕ → QueueTicket
no_tickets t = record { promoted = false; waiter = none }

abbrev operation : Phase → Operation
operation phase = record { reacquire = false; ticket = none; phase = phase; stopped_early = false }

abbrev world : ℕ → List ℕ → Phase → Phase → World
world free waiting a b = record {
  queue = record {
    free = free;
    reacquiring = [];
    promoted = [];
    waiting = waiting;
    tickets = no_tickets;
  };
  operations = operation a ∷ operation b ∷ [];
}

made-Reached : Reached 1 (world 1 [] fresh fresh)
unfolding initial
made-Reached = onward (onward at_first (makes false none)) (makes false none)

took-Reached : Reached 1 (world 0 [] taking fresh)
unfolding update enter makebelieve.BuildQueue.try_take
took-Reached =
    onward (onward made-Reached (acts 0 (operation fresh) refl (registers refl)))
      (acts 0 (operation registered) refl (enters refl))

waits-Reached : Reached 1 (world 0 (1 ∷ []) taking in_line)
unfolding update enter makebelieve.BuildQueue.try_take makebelieve.BuildQueue.enqueue
waits-Reached =
    onward (onward took-Reached (acts 1 (operation fresh) refl (registers refl)))
      (acts 1 (operation registered) refl (enters refl))

Reached-IsBalanced_example : IsBalanced 0 1 (world 0 (1 ∷ []) taking in_line)
Reached-IsBalanced_example = Reached-IsBalanced 1 waits-Reached

abbrev busy_queue : Queue
busy_queue = record {
  free = 0;
  reacquiring = [];
  promoted = 4 ∷ [];
  waiting = 2 ∷ 3 ∷ [];
  tickets = no_tickets;
}

release-Served_example : Served busy_queue (
  some 4,
  record { free = 0; reacquiring = []; promoted = []; waiting = 2 ∷ 3 ∷ []; tickets = no_tickets },
)
unfolding release
release-Served_example = release-Served (λ i. none) busy_queue
