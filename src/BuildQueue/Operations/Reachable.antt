-- ===== src/BuildQueue/Operations/Reachable.antt =====
-- Slots in every world that the operations lead to.
use makebelieve.Base.{
  ℕ, ◌≡◌, refl, sym, ◌∙◌, inr, false, some, [], arith, get_elem?, ℕ-HasTest, List-HasTest,
}
use makebelieve.BuildQueue.{dequeue}
use makebelieve.BuildQueue.Lines.{times}
use makebelieve.BuildQueue.Release.{promote-line}
use makebelieve.BuildQueue.Operations.{
  fresh, registered, Operation, World, initial, on_stop, Act, registers, enters, stops, completes,
  resumes, gives_back, makes, promotes, acts, Reached, at_first, onward,
}
use makebelieve.BuildQueue.Operations.Counting.{slots_out, slots_out-append, lined-append}
use makebelieve.BuildQueue.Operations.Slots.{IsBalanced, IsSound, same-IsBalanced}
use makebelieve.BuildQueue.Operations.Actions.{
  enter-IsSound, leave-IsSound, complete-IsSound, resume-IsSound, give_back-IsSound,
}

slots_out-nil : slots_out [] ≡ 0
unfolding slots_out
slots_out-nil = refl

Act-IsSound :
    (k : ℕ) (w : World) (i : ℕ) (o : Operation) (v : World)
    → IsSound k w
    → get_elem? w.operations i ≡ some o
    → Act w i o v
    → IsSound k v
unfolding on_stop
Act-IsSound k w i o v s at (registers is) =
    same-IsBalanced 0 0 k w i o (record o { phase = registered }) s at (rw is refl) (rw is refl)
Act-IsSound k w i o v s at (enters is) = enter-IsSound k w i o s at is
Act-IsSound k w i o v s at (stops is) =
    leave-IsSound k w i o (dequeue w.queue i o.ticket o.reacquire) s at refl
Act-IsSound k w i o v s at (completes h) = complete-IsSound k w i o o.phase s at refl h
Act-IsSound k w i o v s at (resumes b h) = resume-IsSound k w i o b o.phase s at refl h
Act-IsSound k w i o v s at gives_back = give_back-IsSound k w i o o.phase s at refl

-- In every world that the operations lead to, the free slots and those of operations are together
-- as many as the queue was made with; no slot is free while an operation is in line; and an
-- operation stands in the lines exactly when it waits, and then once.
pub Reached-IsBalanced : (k : ℕ) {w : World} → Reached k w → IsBalanced 0 k w
unfolding initial
Reached-IsBalanced k at_first = record {
  slots = omega (arith, slots_out-nil);
  busy = λ j. inr (unfold times in refl);
  lines = λ j. unfold times in refl;
}
Reached-IsBalanced k (onward {v} r (makes reacquire ticket)) =
    let s = Reached-IsBalanced k r in
    record {
      slots = omega (
        arith,
        s.slots,
        slots_out-append v.operations (record {
          reacquire = reacquire;
          ticket = ticket;
          phase = fresh;
          stopped_early = false;
        }),
      );
      busy = s.busy;
      lines = λ j. s.lines j ∙ sym (lined-append v.operations _ j refl);
    }
Reached-IsBalanced k (onward {v} r (promotes t)) =
    let s = Reached-IsBalanced k r in
    record {
      slots = omega (arith, s.slots, (promote-line v.queue t 0).0);
      busy = λ j. rw ((promote-line v.queue t j).0, (promote-line v.queue t j).1) (s.busy j);
      lines = λ j. (promote-line v.queue t j).1 ∙ s.lines j;
    }
Reached-IsBalanced k (onward {v} {w} r (acts i o at a)) =
    Act-IsSound k v i o w (Reached-IsBalanced k r) at a
