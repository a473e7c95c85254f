-- ===== src/Coordinator/Requests/Sound.antt =====
-- Circles of attempts, through every step.
use makebelieve.Base.{
  ℕ, ◌+◌, ◌<◌, ◌≡◌, refl, sym, ap, subst, ◌⊎◌, inl, inr, Bool, true, false, Option, none, some,
  List, [], ◌∷◌, ◌++◌, map, arith, if◌then◌else◌, length, get_elem?, length-modify, In, In-left,
  In-right, In-split, get_elem?-append, length-append, ◌==◌, ℕ-HasTest, List-HasTest,
}
use makebelieve.Coordinator.{
  Phase, Code, canceled, no_calls, Attempt, Coordinator, initial, at_attempt, nexts_of, behind,
  Edge, Leads,
}
use makebelieve.Paths.{FilePath}
use makebelieve.Coordinator.Search.{path_to}
use makebelieve.Coordinator.Hurry.{hurry}
use makebelieve.Coordinator.Search.Ends.{path_to-nil}
use makebelieve.Coordinator.Transitions.{one_more}
use makebelieve.Coordinator.Transitions.Shrinks.{
  Narrows, Narrows-trans, Shrinks, unchanged, Shrinks_trans, at_attempt-Edge, Edge-from, elsewhere,
  keeps-Shrinks,
}
use makebelieve.Coordinator.Transitions.Steady.{each-Steady}
use makebelieve.Coordinator.Transitions.Preserved.{
  block-Steady, complete-Steady, on_outer_stop-Steady,
}
use makebelieve.Coordinator.Transitions.Others.{
  on_permit-Shrinks, on_reacquired-Shrinks, finish-Shrinks,
}
use makebelieve.Coordinator.Requests.{
  Waited, requester_of, ended_phase, still_under_way, new_attempt, create_attempt, doom, add_wait,
  link, hurries, block_requester, enqueue, is_stopping, wait_on, wait_from, result_at, wait_for,
  wait, Step, Reached,
}
use makebelieve.Coordinator.Requests.Shrinks.{
  hurry-Narrows, run-Shrinks, doom-Steady, cancel_wait-Steady,
}
use makebelieve.Coordinator.Requests.Acyclic.{
  Adds, IsSound, Leads-bounded, Narrows-IsSound, Adds-IsSound,
}

at_first-IsSound : (can_promote : Bool) → IsSound (initial can_promote)
unfolding initial
at_first-IsSound can_promote = record { bounded = λ a b e. absurd e; acyclic = λ a b e. absurd e }

pub created :
    (output : FilePath) (p : Option ℕ) (c : Coordinator) (a b : ℕ)
    → In b (nexts_of (get_elem? (c.attempts ++ new_attempt output p ∷ []) a))
    → Edge c a b ⊎ ((a ≡ length c.attempts) × (p ≡ some b))
created output p c a b i = elim (get_elem?-append c.attempts (new_attempt output p) a) [
  | inl e ↦ inl (subst (λ o. In b (nexts_of o)) e i)
  | inr (at_end, e) ↦ inr (at_end, by_predecessor p (subst (λ o. In b (nexts_of o)) e i))
]
  where
    by_predecessor : (p : Option ℕ) → In b (behind Phase.pending p) → p ≡ some b
    by_predecessor none i = absurd i
    by_predecessor (some m) (inl e) = ap some (sym e)
    by_predecessor (some m) (inr never) = absurd never

length_more :
    (output : FilePath) (p : Option ℕ) (c : Coordinator)
    → length (c.attempts ++ new_attempt output p ∷ []) ≡ length c.attempts + 1
length_more output p c = length-append c.attempts (new_attempt output p ∷ [])

create-IsSound :
    (output : FilePath) (p : Option ℕ) (c : Coordinator)
    → ((m : ℕ) → p ≡ some m → m < length c.attempts)
    → IsSound c
    → IsSound (record c { attempts = c.attempts ++ new_attempt output p ∷ [] })
create-IsSound output none c h s =
    Narrows-IsSound
      (record {
        edges = λ a b i. elim (created output none c a b i) [ inl e ↦ e | inr (_, e) ↦ cc e ];
        size = omega (arith, length_more output none c);
      })
      s
create-IsSound output (some m) c h s =
    Adds-IsSound {from = length c.attempts} {to = m}
      (record {
        edges = λ a b i. elim (created output (some m) c a b i) [
          | inl e ↦ inl e
          | inr (at_end, e) ↦ inr (at_end, cc e)
        ];
        size = omega (arith, length_more output (some m) c);
      })
      (h m refl) (λ l. absurd (omega (arith, Leads-bounded s.bounded l (h m refl)))) s

create_attempt-IsSound :
    (output : FilePath) (p : Option ℕ) (c : Coordinator)
    → ((m : ℕ) → p ≡ some m → m < length c.attempts)
    → IsSound c
    → IsSound (create_attempt output p c)
unfolding create_attempt
create_attempt-IsSound output p c h s =
    create-IsSound output (still_under_way c p) c (λ m e. h m (still p e)) s
  where
    by_end : (t : Bool) (p m : ℕ) → (if t then none else some p) ≡ some m → some p ≡ some m
    by_end true p m e = cc e
    by_end false p m e = e

    still : (p : Option ℕ) → {m : ℕ} → still_under_way c p ≡ some m → p ≡ some m
    still none e = e
    still (some p) {m} e = by_end (ended_phase (get_elem? c.attempts p)) p m e

one_more-In :
    (to b : ℕ) (edges : List (ℕ × ℕ))
    → In b (map (λ e. e.0) (one_more to edges))
    → In b (map (λ e. e.0) edges) ⊎ (b ≡ to)
unfolding one_more
one_more-In to b [] (inl e) = inr e
one_more-In to b [] (inr never) = absurd never
one_more-In to b ((m, n) ∷ edges) h = go (m == to) h (one_more-In to b edges)
  where
    go :
        (t : Bool)
        → In b (map (λ e. e.0) (if t then (m, n + 1) ∷ edges else (m, n) ∷ one_more to edges))
        → (In b (map (λ e. e.0) (one_more to edges)) → In b (map (λ e. e.0) edges) ⊎ (b ≡ to))
        → ((b ≡ m) ⊎ In b (map (λ e. e.0) edges)) ⊎ (b ≡ to)
    go true h next = inl h
    go false (inl e) next = inl (inl e)
    go false (inr i) next = elim (next i) [ inl k ↦ inl (inr k) | inr e ↦ inr e ]

-- A change of a coordinator after another that adds at most a wait.
later-IsSound :
    {from to : ℕ} {c d e : Coordinator}
    → Adds from to c d
    → Narrows d e
    → to < length c.attempts
    → ¬ Leads c to from
    → IsSound c
    → IsSound e
later-IsSound h k there apart s = Narrows-IsSound k (Adds-IsSound h there apart s)

pub with_wait-Shrinks :
    (target : ℕ) (requester : Option ℕ) (c : Coordinator)
    → Shrinks c (
        at_attempt target
          (λ x. record x { waits_on_me = x.waits_on_me ++ length c.waits ∷ [] })
          (add_wait target requester c))
with_wait-Shrinks target requester c =
    Shrinks_trans (elsewhere (add_wait target requester c) refl unchanged) (
      keeps-Shrinks target (λ x. record x { waits_on_me = x.waits_on_me ++ length c.waits ∷ [] })
        (add_wait target requester c) (λ x. refl) (λ x. refl))

pub link-Adds : (target r : ℕ) (c : Coordinator) → Adds r target c (link target (some r) c)
unfolding link
link-Adds target r c =
    let before =
      at_attempt target (λ x. record x { waits_on_me = x.waits_on_me ++ length c.waits ∷ [] })
        (add_wait target (some r) c) in
    let h = (with_wait-Shrinks target (some r) c).narrows in
    let f : Attempt → Attempt = λ x. record x {
      waits_by_me = x.waits_by_me ++ length c.waits ∷ [];
      edges_out = one_more target x.edges_out;
    } in
    record {
      edges = λ a b e. elim (at_attempt-Edge r f before a b e) [
        | inl old ↦ inl (h.edges a b old)
        | inr (at_r, x, found, i) ↦
            elim (In-split b (map (λ e. e.0) (one_more target x.edges_out)) _ i) [
              | inl j ↦ elim (one_more-In target b x.edges_out j) [
                | inl k ↦ inl (
                    h.edges a b (
                      subst (λ n. Edge before n b) (sym at_r)
                        (Edge-from before r b x found (
                          In-left b (map (λ e. e.0) x.edges_out) (behind x.phase x.predecessor)
                            k))))
                | inr at_target ↦ inr (at_r, at_target)
              ]
              | inr j ↦ inl (
                  h.edges a b (
                    subst (λ n. Edge before n b) (sym at_r)
                      (Edge-from before r b x found (
                        In-right b (map (λ e. e.0) x.edges_out) (behind x.phase x.predecessor) j))))
            ]
      ];
      size = omega (arith, h.size, length-modify r f before.attempts);
    }

hurried-Narrows : (t : Bool) (a : ℕ) (c : Coordinator) → Narrows c (if t then hurry a c else c)
hurried-Narrows true a c = hurry-Narrows a c
hurried-Narrows false a c = unchanged.narrows

pub block_requester-Shrinks : (r : Option ℕ) (c : Coordinator) → Shrinks c (block_requester r c)
block_requester-Shrinks none c = unchanged
block_requester-Shrinks (some r) c = (block-Steady r c).shrinks

-- `enqueue` after the new wait is put.
linked-Narrows :
    (target : ℕ) (requester : Option ℕ) (c : Coordinator)
    → Narrows (link target requester c) (enqueue target requester c)
unfolding enqueue
linked-Narrows target requester c =
    let a = link target requester c in
    Narrows-trans (hurried-Narrows (hurries a requester) target a)
      (block_requester-Shrinks requester
        (if hurries a requester then hurry target a else a)).narrows

from_outside-IsSound : (target : ℕ) (c : Coordinator) → IsSound c → IsSound (enqueue target none c)
unfolding link
from_outside-IsSound target c s =
    Narrows-IsSound
      (Narrows-trans (with_wait-Shrinks target none c).narrows (linked-Narrows target none c)) s

on_path-IsSound :
    (target r : ℕ) (path : List ℕ) (c : Coordinator)
    → target < length c.attempts
    → (path ≡ [] → ¬ Leads c target r)
    → IsSound c
    → IsSound (wait_on target (some r) path c).1
on_path-IsSound target r [] c h apart s =
    later-IsSound (link-Adds target r c) (linked-Narrows target (some r) c) h (apart refl) s
on_path-IsSound target r (a ∷ cycle) c h apart s =
    Narrows-IsSound (each-Steady doom (a ∷ cycle) c doom-Steady).shrinks.narrows s

wait-IsSound :
    (stop_requested : Bool) (target : ℕ) (requester : Option FilePath) (c : Coordinator)
    → target < length c.attempts
    → IsSound c
    → IsSound (wait stop_requested target requester c).1
unfolding wait
wait-IsSound true target requester c h s = s
wait-IsSound false target requester c h s = by_result (result_at (get_elem? c.attempts target))
  where
    by_stopping :
        (t : Bool) (r : ℕ)
        → IsSound
            (if t
              then (Waited.returns canceled, c)
              else wait_on target (some r) (path_to c target r) c).1
    by_stopping true r = s
    by_stopping false r =
        on_path-IsSound target r (path_to c target r) c h (path_to-nil c target r s.bounded) s

    by_requester : (r : Option ℕ) → IsSound (wait_from target r c).1
    by_requester none = from_outside-IsSound target c s
    by_requester (some r) = by_stopping (is_stopping (get_elem? c.attempts r)) r

    by_result : (o : Option Code) → IsSound (wait_for target requester o c).1
    by_result (some result) = s
    by_result none = by_requester (requester_of c requester)

Step-IsSound : {c d : Coordinator} → Step c d → IsSound c → IsSound d
Step-IsSound {c} (Step.creates output p h) s = create_attempt-IsSound output p c h s
Step-IsSound {c} (Step.runs a x found pending) s = Narrows-IsSound (run-Shrinks a c).narrows s
Step-IsSound {c} (Step.waits stop_requested target requester h) s =
    wait-IsSound stop_requested target requester c h s
Step-IsSound {c} (Step.cancels i) s = Narrows-IsSound (cancel_wait-Steady i c).shrinks.narrows s
Step-IsSound {c} (Step.completes a result) s =
    Narrows-IsSound (complete-Steady a result c).shrinks.narrows s
Step-IsSound {c} (Step.takes_permit a x found queued) s =
    Narrows-IsSound (on_permit-Shrinks a c).narrows s
Step-IsSound {c} (Step.reacquires a granted) s =
    Narrows-IsSound (on_reacquired-Shrinks a granted c).narrows s
Step-IsSound {c} (Step.stops a) s = Narrows-IsSound (on_outer_stop-Steady a c).shrinks.narrows s
Step-IsSound {c} (Step.finishes a) s = Narrows-IsSound (finish-Shrinks a c).narrows s

pub Reached-IsSound : {c : Coordinator} → Reached c → IsSound c
Reached-IsSound (Reached.at_first can_promote) = at_first-IsSound can_promote
Reached-IsSound (Reached.next {c} h step) = Step-IsSound step (
    Narrows-IsSound (elsewhere (record c { calls = no_calls }) refl unchanged).narrows
      (Reached-IsSound h))

-- In every state reached, an attempt that waits on another, as a request or behind it, is waited on
-- by no chain of attempts from there.
pub Reached-acyclic : {c : Coordinator} → Reached c → (a b : ℕ) → Edge c a b → ¬ Leads c b a
Reached-acyclic h = (Reached-IsSound h).acyclic
