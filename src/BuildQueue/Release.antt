-- ===== src/BuildQueue/Release.antt =====
-- Who gets a slot that is given back, and what a promotion changes.
use makebelieve.Base.{
  ℕ, suc, ◌≡◌, refl, sym, ◌∙◌, inl, inr, true, Option, none, some, List, [], ◌∷◌, Bool-cases,
  ℕ-HasTest, List-HasTest,
}
use makebelieve.BuildQueue.{
  Queue, set_ticket, remove, note_waiter, release_new, release, move_from, move_up, promote,
}
use makebelieve.BuildQueue.Lines.{line, times, leave_waiting, join_promoted}

-- What a release did: the first in line has the slot, or with none in line there is one more free.
abbrev pub Served : Queue → Option ℕ × Queue → Type 0
Served q (some i, r) = (r.free ≡ q.free) × (line q ≡ i ∷ line r)
Served q (none, r) = (r.free ≡ suc q.free) × (line q ≡ []) × (line r ≡ [])

note-Served :
    (t : Option ℕ) (i : ℕ) (q r : Queue)
    → Served q (some i, r)
    → Served q (some i, note_waiter t none r)
note-Served none i q r h = h
note-Served (some t) i q r h = h

-- A slot that is given back goes to the oldest lease that takes its slot back, with none to the
-- oldest promoted waiter, with none to the oldest other waiter, which leaves the line, and the rest
-- of the line keeps its order; with nobody in line the slot is free.
pub release-Served : (ticket_of : ℕ → Option ℕ) (q : Queue) → Served q (release ticket_of q)
unfolding release
release-Served ticket_of q = go q.reacquiring q.promoted q.waiting
  where
    at : List ℕ → List ℕ → List ℕ → Queue
    at a b c = record q { reacquiring = a; promoted = b; waiting = c }

    go :
        (a b c : List ℕ)
        → Served (at a b c) (elim a as (λ x. Option ℕ × Queue) [
          | i ∷ rest ↦ (some i, at rest b c)
          | [] ↦ release_new ticket_of (at a b c) b c
        ])
    go (i ∷ a) b c = (refl, refl)
    go [] (i ∷ b) c = note-Served (ticket_of i) i (at [] (i ∷ b) c) (at [] b c) (refl, refl)
    go [] [] (i ∷ c) = note-Served (ticket_of i) i (at [] [] (i ∷ c)) (at [] [] c) (refl, refl)
    go [] [] [] = (refl, refl, refl)

move_from-line :
    (q : Queue) (i j : ℕ) (o : Option (List ℕ))
    → remove q.waiting i ≡ o
    → ((move_from q i o).free ≡ q.free) × (times j (line (move_from q i o)) ≡ times j (line q))
move_from-line q i j none e = (refl, refl)
move_from-line q i j (some l) e = (
  refl,
  (join_promoted i (record q { waiting = l })).line j ∙ sym ((leave_waiting i q l e).line j),
)

move_up-line :
    (q : Queue) (w : Option ℕ) (j : ℕ)
    → ((move_up q w).free ≡ q.free) × (times j (line (move_up q w)) ≡ times j (line q))
unfolding remove
move_up-line q none j = (refl, refl)
move_up-line q (some i) j = move_from-line q i j (remove q.waiting i) refl

pub promote-line :
    (q : Queue) (t j : ℕ)
    → ((promote q t).free ≡ q.free) × (times j (line (promote q t)) ≡ times j (line q))
unfolding promote
promote-line q t j = elim (Bool-cases (q.tickets t).promoted) [
  | inl h ↦ rw h (refl, refl)
  | inr h ↦ rw h (
      move_up-line (set_ticket t (record (q.tickets t) { promoted = true }) q) (q.tickets t).waiter
        j)
]
