-- ===== src/BuildQueue/Operations/Slots.antt =====
-- Slots are neither lost nor made, and none is free while an operation waits.
use makebelieve.Base.{
  ℕ, ◌+◌, ◌≤◌, ◌<◌, ◌≡◌, refl, ap, ◌⊎◌, inl, inr, Bool, true, false, Option, none, some, arith,
  if◌then◌else◌, get_elem?, ◌==◌, ℕ-HasTest, List-HasTest, eq_self, eq_cases,
}
use makebelieve.BuildQueue.{Queue, release}
use makebelieve.BuildQueue.Lines.{line, times, hit}
use makebelieve.BuildQueue.Release.{Served, release-Served}
use makebelieve.BuildQueue.Operations.{
  Phase, handed, Operation, World, update, ticket_at, call_task, release_slot,
}
use makebelieve.BuildQueue.Operations.Counting.{
  slots_of, lined, slots_out, lined_at, slots_out-update, lined-update,
}

-- The slots that are free, that operations have and that are `owed` (between the phase of their
-- holder and the queue) are as many as there are; none is free while an operation waits; and the
-- operations in line are those that wait, each once.
pub record IsBalanced (owed concurrency : ℕ) (w : World) : Type 0 where
  pub slots : w.queue.free + slots_out w.operations + owed ≡ concurrency
  pub busy : (j : ℕ) → (w.queue.free ≡ 0) ⊎ (times j (line w.queue) ≡ 0)
  pub lines : (j : ℕ) → times j (line w.queue) ≡ lined_at (get_elem? w.operations j)

abbrev pub IsSound : ℕ → World → Type 0
IsSound = IsBalanced 0

-- One operation and the queue change together.
pub change-IsBalanced :
    (a b k : ℕ) (w : World) (q : Queue) (i : ℕ) (o p : Operation)
    → IsBalanced a k w
    → get_elem? w.operations i ≡ some o
    → q.free + slots_of p.phase + b ≡ w.queue.free + slots_of o.phase + a
    → ((j : ℕ)
        → times j (line q) + (if i == j then lined o.phase else 0)
          ≡ times j (line w.queue) + (if i == j then lined p.phase else 0))
    → ((j : ℕ) → (q.free ≡ 0) ⊎ (times j (line q) ≡ 0))
    → IsBalanced b k (record { queue = q; operations = update i p w.operations })
change-IsBalanced a b k w q i o p s at free line_of busy = record {
  slots = omega (arith, s.slots, free, slots_out-update i o p w.operations at);
  busy = busy;
  lines = λ j. omega (arith, s.lines j, line_of j, lined-update i j o p w.operations at);
}

-- An operation changes, and the queue does not.
pub same-IsBalanced :
    (a b k : ℕ) (w : World) (i : ℕ) (o p : Operation)
    → IsBalanced a k w
    → get_elem? w.operations i ≡ some o
    → slots_of p.phase + b ≡ slots_of o.phase + a
    → lined p.phase ≡ lined o.phase
    → IsBalanced b k (record w { operations = update i p w.operations })
same-IsBalanced a b k w i o p s at slots same =
    change-IsBalanced a b k w w.queue i o p s at (omega (arith, slots)) (λ j. rw same refl) s.busy

abbrev hit_if : Bool → ℕ
hit_if b = if b then 1 else 0

pub zero_if : (b : Bool) → ◌≡◌ {A = ℕ} (if b then 0 else 0) 0
zero_if true = refl
zero_if false = refl

pub hit_self : (i : ℕ) → hit i i ≡ 1
hit_self i = rw (eq_self i) refl

pub waits-slots_of : (p : Phase) → lined p + slots_of p ≤ 1
waits-slots_of p = ground arith

lined-some :
    (o : Option Operation) → 0 < lined_at o → (p : Operation) × (o ≡ some p) × (lined p.phase ≡ 1)
lined-some none h = absurd (omega arith)
lined-some (some p) h = (p, refl, omega (arith, waits-slots_of p.phase))

call-IsSound :
    (k : ℕ) (w : World) (r : Option ℕ × Queue)
    → IsBalanced 1 k w
    → Served w.queue r
    → IsSound k (call_task r.0 (record w { queue = r.1 }))
call-IsSound k w (none, q) s (free, empty, still) = record {
  slots = omega (arith, s.slots, free);
  busy = λ j. inr (rw still (unfold times in refl));
  lines = λ j. rw (still, ← empty) (s.lines j);
}
call-IsSound k w (some i, q) s (free, first) =
    let many = first_times i in
    let (p, at, one) =
      lined-some (get_elem? w.operations i) (omega (arith, s.lines i, many, hit_self i)) in
    rw at (
      change-IsBalanced 1 0 k w q i p (record p { phase = handed }) s at
        (omega (arith, free, one, waits-slots_of p.phase))
        (λ j. elim (eq_cases i j) [
          | inl (_, t) ↦ rw t (omega (arith, first_times j, ap (λ b. hit_if b) t))
          | inr (_, t) ↦ rw t (omega (arith, first_times j, ap (λ b. hit_if b) t))
        ])
        (λ j. elim (s.busy j) [
          | inl none_free ↦ inl (omega (arith, free))
          | inr out ↦ inr (omega (arith, out, first_times j))
        ]))
  where
    first_times : (j : ℕ) → times j (line w.queue) ≡ hit i j + times j (line q)
    first_times j = unfold times in ap (times j) first

pub release_slot-IsSound : (k : ℕ) (w : World) → IsBalanced 1 k w → IsSound k (release_slot w)
unfolding release_slot
release_slot-IsSound k w s =
    call-IsSound k w (release (λ i. ticket_at (get_elem? w.operations i)) w.queue) s
      (release-Served (λ i. ticket_at (get_elem? w.operations i)) w.queue)
