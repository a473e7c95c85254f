-- ===== src/BuildQueue/Operations/Counting.antt =====
-- How many operations have a slot, and which are in line, after one of them changes.
use makebelieve.Base.{
  ℕ, zero, suc, ◌+◌, ◌≡◌, refl, ap, ◌≢◌, inl, inr, Option, none, some, List, [], ◌∷◌, ◌++◌, arith,
  if◌then◌else◌, get_elem?, ◌==◌, ℕ-HasTest, List-HasTest, eq_cases,
}
use makebelieve.Base.Optional.{some_value}
use makebelieve.BuildQueue.Operations.{Phase, taking, in_line, handed, holding, Operation, update}

-- Whether an operation in this phase has a slot.
abbrev pub slots_of : Phase → ℕ
slots_of taking = 1
slots_of handed = 1
slots_of holding = 1
slots_of _ = 0

abbrev pub lined : Phase → ℕ
lined in_line = 1
lined _ = 0

unfoldable pub slots_out : List Operation → ℕ
slots_out [] = 0
slots_out (o ∷ os) = slots_of o.phase + slots_out os

abbrev pub lined_at : Option Operation → ℕ
lined_at none = 0
lined_at (some o) = lined o.phase

pub slots_out-update :
    (i : ℕ) (o p : Operation) (os : List Operation)
    → get_elem? os i ≡ some o
    → slots_out (update i p os) + slots_of o.phase ≡ slots_out os + slots_of p.phase
unfolding slots_out update
slots_out-update i o p [] h = cc
slots_out-update zero o p (a ∷ os) h = omega (arith, ap (λ x. slots_of x.phase) (some_value h))
slots_out-update (suc i) o p (a ∷ os) h = omega (arith, slots_out-update i o p os h)

pub update_self :
    (i : ℕ) (o p : Operation) (os : List Operation)
    → get_elem? os i ≡ some o
    → get_elem? (update i p os) i ≡ some p
unfolding update
update_self i o p [] h = cc
update_self zero o p (a ∷ os) h = refl
update_self (suc i) o p (a ∷ os) h = update_self i o p os h

pub update_other :
    (i j : ℕ) (p : Operation) (os : List Operation)
    → i ≢ j
    → get_elem? (update i p os) j ≡ get_elem? os j
unfolding update
update_other i j p [] h = refl
update_other zero zero p (a ∷ os) h = absurd (h refl)
update_other zero (suc j) p (a ∷ os) h = refl
update_other (suc i) zero p (a ∷ os) h = refl
update_other (suc i) (suc j) p (a ∷ os) h = update_other i j p os (λ e. h (ap suc e))

-- The operations in line after one of them changes.
pub lined-update :
    (i j : ℕ) (o p : Operation) (os : List Operation)
    → get_elem? os i ≡ some o
    → lined_at (get_elem? (update i p os) j) + (if i == j then lined o.phase else 0)
      ≡ lined_at (get_elem? os j) + (if i == j then lined p.phase else 0)
lined-update i j o p os h = elim (eq_cases i j) [
  | inl (e, t) ↦ rw (t, ← e, update_self i o p os h, h) (omega arith)
  | inr (ne, t) ↦ rw (t, update_other i j p os ne) refl
]

pub slots_out-append :
    (os : List Operation) (o : Operation)
    → slots_out (os ++ o ∷ []) ≡ slots_out os + slots_of o.phase
unfolding slots_out
slots_out-append [] o = omega arith
slots_out-append (a ∷ os) o = omega (arith, slots_out-append os o)

pub lined-append :
    (os : List Operation) (o : Operation) (j : ℕ)
    → lined o.phase ≡ 0
    → lined_at (get_elem? (os ++ o ∷ []) j) ≡ lined_at (get_elem? os j)
lined-append [] o zero h = h
lined-append [] o (suc j) h = refl
lined-append (a ∷ os) o zero h = refl
lined-append (a ∷ os) o (suc j) h = lined-append os o j h
