-- ===== src/BuildQueue.antt =====
-- src/buildqueue.hpp: slots, who waits for them, and in which order. Operations are numbered, and a
-- line of waiters is the list of their numbers, oldest first. What a lock guards is one step.
pub mod Lines
pub mod Release
pub mod Operations
mod Tests
use makebelieve.Base.{
  ℕ, zero, suc, ◌+◌, ◌-◌, ◌*◌, ◌%◌, ◌^◌, ◌≤◌, ◌<◌, ◌≡◌, refl, sym, ap, subst, ◌∙◌, ◌≢◌, ◌↔◌, ◌⊎◌,
  inl, inr, Bool, true, false, not, ◌&&◌, ◌||◌, Option, none, some, List, [], ◌∷◌, ◌++◌, map,
  reverse, arith, ltb, leb, nat_eq, if◌then◌else◌, nat_eq_iff, ltb→lt, lt→ltb, Bool-cases,
  Option-cases, and_left, and_right, or_right, length, get_elem?, take, drop, find_if, any_of,
  all_of, keep, All, In, AllPairs, length-append, take-append, drop-append, All-append, All-keep,
  All-map, AllPairs-keep, AllPairs-concat, HasTest, ◌==◌, ℕ-HasTest, List-HasTest, list_eq, eq_iff,
  eq_self, eq_cases, Result, ok, err, ◌>>=◌, ◌>>◌, reject_if, ok_steps, reject_if-eq-ok,
  after_check, ok-injective, ne_test,
}

-- `QueueTicket`.
pub record QueueTicket : Type 0 where
  pub promoted : Bool
  pub waiter : Option ℕ

-- The members of `BuildQueue` and the tickets used with it.
pub record Queue : Type 0 where
  pub free : ℕ
  pub reacquiring : List ℕ
  pub promoted : List ℕ
  pub waiting : List ℕ
  pub tickets : ℕ → QueueTicket

abbrev pub set_ticket : ℕ → QueueTicket → Queue → Queue
set_ticket t ticket q = record q { tickets = λ u. if u == t then ticket else q.tickets u }

-- `Waiters`.
abbrev pub push : List ℕ → ℕ → List ℕ
push line waiter = line ++ waiter ∷ []

abbrev put_back : ℕ → Option (List ℕ) → Option (List ℕ)
put_back v none = none
put_back v (some line) = some (v ∷ line)

-- `none` for a waiter that is not in the line.
unfoldable pub remove : List ℕ → ℕ → Option (List ℕ)
remove [] waiter = none
remove (v ∷ line) waiter =
    let rest = remove line waiter in if v == waiter then some line else put_back v rest

unfoldable pub try_take : Queue → Option Queue
try_take q = if q.free == 0 then none else some (record q { free = q.free - 1 })

abbrev note_waiter : Option ℕ → Option ℕ → Queue → Queue
note_waiter none waiter q = q
note_waiter (some t) waiter q = set_ticket t (record (q.tickets t) { waiter = waiter }) q

abbrev is_promoted : Option ℕ → Queue → Bool
is_promoted none q = false
is_promoted (some t) q = (q.tickets t).promoted

unfoldable pub enqueue : Queue → ℕ → Option ℕ → Bool → Queue
enqueue q i ticket reacquire =
    if reacquire
    then record q { reacquiring = push q.reacquiring i }
    else (let noted = note_waiter ticket (some i) q in
        if is_promoted ticket noted
        then record noted { promoted = push noted.promoted i }
        else record noted { waiting = push noted.waiting i })

unfoldable pub left_line : Option ℕ → Queue → Queue
left_line ticket q = note_waiter ticket none q

-- `none` for a waiter that is in no line.
unfoldable pub dequeue : Queue → ℕ → Option ℕ → Bool → Option Queue
unfolding remove left_line
dequeue q i ticket reacquire =
    if reacquire
    then elim (remove q.reacquiring i) [
      | none ↦ none
      | some line ↦ some (record q { reacquiring = line })
    ]
    else elim (remove q.promoted i) [
      | some line ↦ some (left_line ticket (record q { promoted = line }))
      | none ↦ elim (remove q.waiting i) [
        | some line ↦ some (left_line ticket (record q { waiting = line }))
        | none ↦ none
      ]
    ]

-- The waiter whose task is called, if one is. `ticket_of` is each waiter's `ticket`.
abbrev release_new : (ℕ → Option ℕ) → Queue → List ℕ → List ℕ → Option ℕ × Queue
release_new ticket_of q (i ∷ line) waiting =
    (some i, note_waiter (ticket_of i) none (record q { promoted = line }))
release_new ticket_of q [] (i ∷ line) =
    (some i, note_waiter (ticket_of i) none (record q { waiting = line }))
release_new ticket_of q [] [] = (none, record q { free = suc q.free })

unfoldable pub release : (ℕ → Option ℕ) → Queue → Option ℕ × Queue
release ticket_of q = elim q.reacquiring [
  | i ∷ line ↦ (some i, record q { reacquiring = line })
  | [] ↦ release_new ticket_of q q.promoted q.waiting
]

abbrev move_from : Queue → ℕ → Option (List ℕ) → Queue
move_from q i none = q
move_from q i (some line) = record q { waiting = line; promoted = push q.promoted i }

abbrev move_up : Queue → Option ℕ → Queue
move_up q none = q
move_up q (some i) = move_from q i (remove q.waiting i)

unfoldable pub promote : Queue → ℕ → Queue
unfolding remove
promote q t =
    let ticket = q.tickets t in
    if ticket.promoted
    then q
    else move_up (set_ticket t (record ticket { promoted = true }) q) ticket.waiter
