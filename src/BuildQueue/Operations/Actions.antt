-- ===== src/BuildQueue/Operations/Actions.antt =====
-- What each thing that may happen to an operation does to the slots.
use makebelieve.Base.{
  ℕ, suc, ◌-◌, ◌≡◌, refl, sym, subst, ◌∙◌, ◌⊎◌, inl, inr, Bool, true, false, Option, none, some,
  arith, if◌then◌else◌, get_elem?, ◌==◌, ℕ-HasTest, List-HasTest, eq_cases,
}
use makebelieve.Base.Optional.{some_value}
use makebelieve.BuildQueue.{Queue, try_take, enqueue, dequeue}
use makebelieve.BuildQueue.Lines.{line, enqueue-Joined, dequeue-Joined}
use makebelieve.BuildQueue.Operations.{
  Phase, registered, stopping, taking, in_line, handed, taken_off, holding, stopped, given_back,
  Operation, World, to_phase, take_or_wait, enter, leave_or_note, complete, resume, give_back,
}
use makebelieve.BuildQueue.Operations.Counting.{lined, lined_at}
use makebelieve.BuildQueue.Operations.Slots.{
  IsSound, same-IsBalanced, change-IsBalanced, release_slot-IsSound, hit_self, zero_if,
  waits-slots_of,
}

try_take-eq :
    (q : Queue) (t : Option Queue)
    → try_take q ≡ t
    → ((r : Queue) × (t ≡ some r) × (suc r.free ≡ q.free) × (line r ≡ line q))
      ⊎ ((t ≡ none) × (q.free ≡ 0))
unfolding try_take
try_take-eq q t h = elim (eq_cases q.free 0) [
  | inl (e, b) ↦ inr (sym h ∙ rw b refl, e)
  | inr (ne, b) ↦ inl (record q { free = q.free - 1 }, sym h ∙ rw b refl, omega (arith, ne), refl)
]

start-IsSound :
    (k : ℕ) (w : World) (i : ℕ) (o : Operation)
    → IsSound k w
    → get_elem? w.operations i ≡ some o
    → o.phase ≡ registered
    → IsSound k (take_or_wait w i o (try_take w.queue))
start-IsSound k w i o s at is = elim (try_take-eq w.queue (try_take w.queue) refl) [
  | inl (r, e, free, still) ↦ rw e (
      change-IsBalanced 0 0 k w r i o (record o { phase = taking }) s at
        (rw is (omega (arith, free))) (λ j. rw (still, is) refl)
        (λ j. elim (s.busy j) [
          | inl z ↦ absurd (omega (arith, free, z))
          | inr z ↦ inr (rw still z)
        ]))
  | inr (e, none_free) ↦
      let q = enqueue-Joined w.queue i o.ticket o.reacquire in
      rw e (
        change-IsBalanced 0 0 k w (enqueue w.queue i o.ticket o.reacquire) i o
          (record o { phase = in_line }) s at (rw is (omega (arith, q.free)))
          (λ j. rw (is, zero_if (i == j)) (omega (arith, q.line j)))
          (λ j. inl (q.free ∙ none_free)))
]

pub enter-IsSound :
    (k : ℕ) (w : World) (i : ℕ) (o : Operation)
    → IsSound k w
    → get_elem? w.operations i ≡ some o
    → o.phase ≡ registered
    → IsSound k (enter w i o)
unfolding enter
enter-IsSound k w i o s at is = go o.stopped_early
  where
    go :
        (b : Bool)
        → IsSound k (if b then to_phase stopping i o w else take_or_wait w i o (try_take w.queue))
    go true =
        same-IsBalanced 0 0 k w i o (record o { phase = stopping }) s at (rw is refl) (rw is refl)
    go false = start-IsSound k w i o s at is

pub leave-IsSound :
    (k : ℕ) (w : World) (i : ℕ) (o : Operation) (t : Option Queue)
    → IsSound k w
    → get_elem? w.operations i ≡ some o
    → dequeue w.queue i o.ticket o.reacquire ≡ t
    → IsSound k (leave_or_note w i o t)
leave-IsSound k w i o none s at e =
    same-IsBalanced 0 0 k w i o (record o { stopped_early = true }) s at refl refl
leave-IsSound k w i o (some r) s at e =
    let left = dequeue-Joined w.queue i o.ticket o.reacquire e in
    let lined_here : lined_at (get_elem? w.operations i) ≡ lined o.phase = rw at refl in
    let one : lined o.phase ≡ 1 =
      omega (arith, left.line i, s.lines i, hit_self i, lined_here, waits-slots_of o.phase) in
    change-IsBalanced 0 0 k w r i o (record o { phase = taken_off }) s at
      (omega (arith, left.free, one, waits-slots_of o.phase))
      (λ j. rw (one, zero_if (i == j)) (omega (arith, left.line j)))
      (λ j. elim (s.busy j) [
        | inl z ↦ inl (sym left.free ∙ z)
        | inr z ↦ inr (omega (arith, left.line j, z))
      ])

pub complete-IsSound :
    (k : ℕ) (w : World) (i : ℕ) (o : Operation) (p : Phase) {v : World}
    → IsSound k w
    → get_elem? w.operations i ≡ some o
    → o.phase ≡ p
    → complete w i o p ≡ some v
    → IsSound k v
complete-IsSound k w i o stopping s at is h =
    subst (IsSound k) (some_value h)
      (same-IsBalanced 0 0 k w i o (record o { phase = stopped }) s at (rw is refl) (rw is refl))
complete-IsSound k w i o taking s at is h =
    subst (IsSound k) (some_value h)
      (same-IsBalanced 0 0 k w i o (record o { phase = holding }) s at (rw is refl) (rw is refl))
complete-IsSound k w i o _ s at is h = cc

pub resume-IsSound :
    (k : ℕ) (w : World) (i : ℕ) (o : Operation) (b : Bool) (p : Phase) {v : World}
    → IsSound k w
    → get_elem? w.operations i ≡ some o
    → o.phase ≡ p
    → resume w i o b p ≡ some v
    → IsSound k v
resume-IsSound k w i o false handed s at is h =
    subst (IsSound k) (some_value h)
      (same-IsBalanced 0 0 k w i o (record o { phase = holding }) s at (rw is refl) (rw is refl))
resume-IsSound k w i o true handed s at is h = subst (IsSound k) (some_value h) (
    release_slot-IsSound k (to_phase stopped i o w)
      (same-IsBalanced 0 1 k w i o (record o { phase = stopped }) s at (rw is refl) (rw is refl)))
resume-IsSound k w i o false taken_off s at is h =
    subst (IsSound k) (some_value h)
      (same-IsBalanced 0 0 k w i o (record o { phase = stopped }) s at (rw is refl) (rw is refl))
resume-IsSound k w i o true taken_off s at is h =
    subst (IsSound k) (some_value h)
      (same-IsBalanced 0 0 k w i o (record o { phase = stopped }) s at (rw is refl) (rw is refl))
resume-IsSound k w i o _ _ s at is h = cc

pub give_back-IsSound :
    (k : ℕ) (w : World) (i : ℕ) (o : Operation) (p : Phase)
    → IsSound k w
    → get_elem? w.operations i ≡ some o
    → o.phase ≡ p
    → IsSound k (give_back w i o p)
give_back-IsSound k w i o holding s at is =
    release_slot-IsSound k (to_phase given_back i o w)
      (same-IsBalanced 0 1 k w i o (record o { phase = given_back }) s at (rw is refl) (rw is refl))
give_back-IsSound k w i o _ s at is = s
