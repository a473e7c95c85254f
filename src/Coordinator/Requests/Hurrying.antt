-- ===== src/Coordinator/Requests/Hurrying.antt =====
-- What is hurried, through every step.
use makebelieve.Base.{
  ℕ, ◌<◌, ◌≡◌, refl, sym, ap, ◌∙◌, ◌⊎◌, inl, inr, Bool, true, false, Option, none, some, List, [],
  ◌∷◌, ◌++◌, arith, if◌then◌else◌, Option-cases, length, get_elem?, get_elem?-append, get-length,
  ℕ-HasTest, List-HasTest,
}
use makebelieve.Paths.{FilePath}
use makebelieve.Coordinator.{
  Code, canceled, no_calls, is_hurried, Coordinator, initial, at_attempt, Edge, Leads,
}
use makebelieve.Coordinator.Search.{path_to}
use makebelieve.Coordinator.Hurry.{hurry}
use makebelieve.Coordinator.Hurry.Spreads.{Hurried, Spread, Outcome, hurry-Outcome, Leads-Hurried}
use makebelieve.Coordinator.Search.Ends.{IsBounded}
use makebelieve.Coordinator.Transitions.{one_more}
use makebelieve.Coordinator.Transitions.Shrinks.{Shrinks, unchanged, at_attempt-hurried, elsewhere}
use makebelieve.Coordinator.Transitions.Steady.{each-Steady}
use makebelieve.Coordinator.Transitions.Preserved.{
  block-Steady, complete-Steady, on_outer_stop-Steady,
}
use makebelieve.Coordinator.Transitions.Others.{
  on_permit-Shrinks, on_reacquired-Shrinks, finish-Shrinks,
}
use makebelieve.Coordinator.Requests.{
  Waited, requester_of, still_under_way, new_attempt, create_attempt, doom, add_wait, link, hurries,
  enqueue, is_stopping, wait_on, wait_from, result_at, wait_for, wait, Step, Reached,
}
use makebelieve.Coordinator.Requests.Shrinks.{run-Shrinks, doom-Steady, cancel_wait-Steady}
use makebelieve.Coordinator.Requests.Acyclic.{IsSound, Narrows-IsSound}
use makebelieve.Coordinator.Requests.Sound.{created, with_wait-Shrinks, link-Adds, Reached-IsSound}

abbrev pub IsSpread : Coordinator → Type 0
IsSpread c = (a b : ℕ) → Edge c a b → Hurried c a → Hurried c b

Shrinks-IsSpread : {c d : Coordinator} → Shrinks c d → IsSpread c → IsSpread d
Shrinks-IsSpread h s a b e k = h.hurried b ∙ s a b (h.narrows.edges a b e) (sym (h.hurried a) ∙ k)

create_attempt-IsSpread :
    (output : FilePath) (p : Option ℕ) (c : Coordinator)
    → IsBounded c
    → IsSpread c
    → IsSpread (create_attempt output p c)
unfolding create_attempt
create_attempt-IsSpread output p c bounded s a b e k = elim (put a) [
  | inr (_, new) ↦ cc (sym k ∙ ap is_hurried new)
  | inl old ↦ elim (created output (still_under_way c p) c a b e) [
    | inr (at_end, _) ↦ absurd (elim (Option-cases (get_elem? c.attempts a)) [
      | inl missing ↦ cc (sym k ∙ ap is_hurried (old ∙ missing))
      | inr (x, found) ↦ get-length c.attempts a (omega (arith, at_end)) found
    ])
    | inl edge ↦
        let there : Hurried c b = s a b edge (sym (ap is_hurried old) ∙ k) in
        elim (put b) [
          | inl same ↦ ap is_hurried same ∙ there
          | inr (at_end, _) ↦ absurd (omega (arith, at_end, bounded a b edge))
        ]
  ]
]
  where
    put :
        (n : ℕ)
        → (get_elem? (create_attempt output p c).attempts n ≡ get_elem? c.attempts n)
          ⊎ ((n ≡ length c.attempts)
              × (get_elem? (create_attempt output p c).attempts n
                  ≡ some (new_attempt output (still_under_way c p))))
    put = get_elem?-append c.attempts (new_attempt output (still_under_way c p))

link-hurried :
    (target r : ℕ) (c : Coordinator) (a : ℕ)
    → is_hurried (get_elem? (link target (some r) c).attempts a)
      ≡ is_hurried (get_elem? c.attempts a)
unfolding link
link-hurried target r c a =
    at_attempt-hurried r
      (λ x. record x {
        waits_by_me = x.waits_by_me ++ length c.waits ∷ [];
        edges_out = one_more target x.edges_out;
      })
      (at_attempt target (λ x. record x { waits_on_me = x.waits_on_me ++ length c.waits ∷ [] })
        (add_wait target (some r) c))
      (λ x. refl) a
    ∙ (with_wait-Shrinks target (some r) c).hurried a

-- Once linked, at most the new wait is on an attempt that is not hurried.
link-Spread :
    (target r : ℕ) (c : Coordinator) → IsSpread c → Spread (target ∷ []) (link target (some r) c)
link-Spread target r c s a b e k = elim ((link-Adds target r c).edges a b e) [
  | inl old ↦ inl (link-hurried target r c b ∙ s a b old (sym (link-hurried target r c a) ∙ k))
  | inr (_, at_target) ↦ inr (inl at_target)
]

Outcome-IsSpread : {stack : List ℕ} {c d : Coordinator} → Outcome stack c d → IsSpread d
Outcome-IsSpread o a b e k = elim (o.spread a b e k) [ inl h ↦ h | inr never ↦ absurd never ]

-- A wait from an attempt that is not hurried needs no more.
unhurried-IsSpread :
    (target r : ℕ) (c : Coordinator)
    → IsSpread c
    → is_hurried (get_elem? (link target (some r) c).attempts r) ≡ false
    → IsSpread (link target (some r) c)
unhurried-IsSpread target r c s not_hurried a b e k = elim ((link-Adds target r c).edges a b e) [
  | inl old ↦ link-hurried target r c b ∙ s a b old (sym (link-hurried target r c a) ∙ k)
  | inr (at_r, _) ↦ cc (
      sym k
      ∙ ap (λ n. is_hurried (get_elem? (link target (some r) c).attempts n)) at_r
      ∙ not_hurried)
]

start-Spread : (target : ℕ) (c : Coordinator) → IsSpread c → Spread (target ∷ []) c
start-Spread target c s a b e k = inl (s a b e k)

outside-Narrows : (target : ℕ) (c : Coordinator) → Shrinks c (link target none c)
unfolding link
outside-Narrows target c = with_wait-Shrinks target none c

outside-Outcome :
    (target : ℕ) (c : Coordinator)
    → IsSound c
    → IsSpread c
    → target < length c.attempts
    → Outcome (target ∷ []) (link target none c) (enqueue target none c)
unfolding enqueue
outside-Outcome target c sound s h =
    let a = outside-Narrows target c in
    hurry-Outcome target (link target none c) (Narrows-IsSound a.narrows sound).bounded
      (omega (arith, h, a.narrows.size))
      (start-Spread target (link target none c) (Shrinks-IsSpread a s))

hurries-IsSpread :
    (target r : ℕ) (c : Coordinator)
    → IsSound c
    → IsSpread c
    → target < length c.attempts
    → (t : Bool) → is_hurried (get_elem? (link target (some r) c).attempts r) ≡ t
    → IsSpread (if t then hurry target (link target (some r) c) else link target (some r) c)
hurries-IsSpread target r c sound s h true e = Outcome-IsSpread (
    hurry-Outcome target (link target (some r) c)
      (λ a b edge. elim ((link-Adds target r c).edges a b edge) [
        | inl old ↦ omega (arith, sound.bounded a b old, (link-Adds target r c).size)
        | inr (_, at_target) ↦ omega (arith, at_target, h, (link-Adds target r c).size)
      ])
      (omega (arith, h, (link-Adds target r c).size)) (link-Spread target r c s))
hurries-IsSpread target r c sound s h false e = unhurried-IsSpread target r c s e

enqueue-IsSpread :
    (target r : ℕ) (c : Coordinator)
    → IsSound c
    → IsSpread c
    → target < length c.attempts
    → IsSpread (enqueue target (some r) c)
unfolding enqueue
enqueue-IsSpread target r c sound s h =
    let a = link target (some r) c in
    Shrinks-IsSpread (block-Steady r (if hurries a (some r) then hurry target a else a)).shrinks
      (hurries-IsSpread target r c sound s h (hurries a (some r)) refl)

wait-IsSpread :
    (stop_requested : Bool) (target : ℕ) (requester : Option FilePath) (c : Coordinator)
    → target < length c.attempts
    → IsSound c
    → IsSpread c
    → IsSpread (wait stop_requested target requester c).1
unfolding wait
wait-IsSpread true target requester c h sound s = s
wait-IsSpread false target requester c h sound s =
    by_result (result_at (get_elem? c.attempts target))
  where
    by_path : (r : ℕ) (path : List ℕ) → IsSpread (wait_on target (some r) path c).1
    by_path r [] = enqueue-IsSpread target r c sound s h
    by_path r (a ∷ cycle) = Shrinks-IsSpread (each-Steady doom (a ∷ cycle) c doom-Steady).shrinks s

    by_stopping :
        (t : Bool) (r : ℕ)
        → IsSpread
            (if t
              then (Waited.returns canceled, c)
              else wait_on target (some r) (path_to c target r) c).1
    by_stopping true r = s
    by_stopping false r = by_path r (path_to c target r)

    by_requester : (r : Option ℕ) → IsSpread (wait_from target r c).1
    by_requester none = Outcome-IsSpread (outside-Outcome target c sound s h)
    by_requester (some r) = by_stopping (is_stopping (get_elem? c.attempts r)) r

    by_result : (o : Option Code) → IsSpread (wait_for target requester o c).1
    by_result (some result) = s
    by_result none = by_requester (requester_of c requester)

Step-IsSpread : {c d : Coordinator} → Step c d → IsSound c → IsSpread c → IsSpread d
Step-IsSpread {c} (Step.creates output p h) sound s =
    create_attempt-IsSpread output p c sound.bounded s
Step-IsSpread {c} (Step.runs a x found pending) sound s = Shrinks-IsSpread (run-Shrinks a c) s
Step-IsSpread {c} (Step.waits stop_requested target requester h) sound s =
    wait-IsSpread stop_requested target requester c h sound s
Step-IsSpread {c} (Step.cancels i) sound s = Shrinks-IsSpread (cancel_wait-Steady i c).shrinks s
Step-IsSpread {c} (Step.completes a result) sound s =
    Shrinks-IsSpread (complete-Steady a result c).shrinks s
Step-IsSpread {c} (Step.takes_permit a x found queued) sound s =
    Shrinks-IsSpread (on_permit-Shrinks a c) s
Step-IsSpread {c} (Step.reacquires a granted) sound s =
    Shrinks-IsSpread (on_reacquired-Shrinks a granted c) s
Step-IsSpread {c} (Step.stops a) sound s = Shrinks-IsSpread (on_outer_stop-Steady a c).shrinks s
Step-IsSpread {c} (Step.finishes a) sound s = Shrinks-IsSpread (finish-Shrinks a c) s

no_calls-Shrinks : (c : Coordinator) → Shrinks c (record c { calls = no_calls })
no_calls-Shrinks c = elsewhere (record c { calls = no_calls }) refl unchanged

at_first-IsSpread : (can_promote : Bool) → IsSpread (initial can_promote)
unfolding initial
at_first-IsSpread can_promote a b e k = absurd e

all-IsSpread : {c : Coordinator} → Reached c → IsSpread c
all-IsSpread (Reached.at_first can_promote) = at_first-IsSpread can_promote
all-IsSpread (Reached.next {c} h step) =
    Step-IsSpread step (Narrows-IsSound (no_calls-Shrinks c).narrows (Reached-IsSound h))
      (Shrinks-IsSpread (no_calls-Shrinks c) (all-IsSpread h))

-- In every state reached, what a hurried attempt waits on is hurried.
pub Reached-Hurried :
    {c : Coordinator} → Reached c → (a b : ℕ) → Edge c a b → Hurried c a → Hurried c b
Reached-Hurried h = all-IsSpread h

enqueue-Hurried :
    {c : Coordinator}
    → Reached c
    → (target b : ℕ) → target < length c.attempts
    → Leads (enqueue target none c) target b
    → Hurried (enqueue target none c) b
enqueue-Hurried {c} reached target b h l =
    let o = outside-Outcome target c (Reached-IsSound reached) (all-IsSpread reached) h in
    Leads-Hurried o.spread l (o.covers target (inl refl))

-- In a state reached, a request that is not stopped already, that comes from no running attempt, for an
-- attempt that is there and has no result, leaves every attempt hurried that the one asked for leads to.
pub wait-Hurried :
    {c : Coordinator}
    → Reached c
    → (target b : ℕ) (requester : Option FilePath) → target < length c.attempts
    → result_at (get_elem? c.attempts target) ≡ none
    → requester_of c requester ≡ none
    → Leads (wait false target requester c).1 target b
    → Hurried (wait false target requester c).1 b
unfolding wait
wait-Hurried {c} reached target b requester h unfinished outside =
    rw (unfinished, outside) (enqueue-Hurried reached target b h)
