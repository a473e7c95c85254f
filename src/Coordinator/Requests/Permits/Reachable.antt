-- ===== src/Coordinator/Requests/Permits/Reachable.antt =====
-- Permits held and requests that wait, through every step.
use makebelieve.Base.{
  ℕ, ◌<◌, ◌≡◌, refl, sym, ap, subst, ◌∙◌, inl, inr, Bool, true, false, ◌||◌, Option, none, some,
  List, [], ◌∷◌, ◌++◌, arith, if◌then◌else◌, length, get_elem?, modify, modify_self, modify_other,
  In, In-split, get_elem?-append, modify-cases, length-append, ℕ-HasTest, List-HasTest, eq_cases,
}
use makebelieve.Base.OrdMap
use makebelieve.Base.Optional.{some_value, no_value}
use makebelieve.Paths.{FilePath, FilePath-Order}
use makebelieve.Coordinator.{
  Phase, WaitState, Code, canceled, no_calls, Attempt, Wait, Coordinator, initial, at_attempt,
}
use makebelieve.Coordinator.Search.{path_to}
use makebelieve.Coordinator.Hurry.{hurry}
use makebelieve.Coordinator.Transitions.{is_held, is_blocked, one_more, any_blocked, block}
use makebelieve.Coordinator.Transitions.Calms.{
  blocked_at, Calms, quiet, Calms-trans, at_attempt-Calms, if-cases,
}
use makebelieve.Coordinator.Transitions.Steady.{kept, each-Steady}
use makebelieve.Coordinator.Transitions.Preserved.{
  block-Steady, complete-Steady, on_outer_stop-Steady,
}
use makebelieve.Coordinator.Requests.{
  Waited, requester_of, doom, add_wait, link_requester, link, hurries, enqueue, is_stopping,
  wait_on, wait_from, result_at, wait_for, wait, Step, Reached,
}
use makebelieve.Coordinator.Requests.Shrinks.{hurry-Calms, doom-Steady, cancel_wait-Steady}
use makebelieve.Coordinator.Requests.Permits.{
  GivesAt, is_unstarted, IsOrdered, Calms-GivesAt, Calms-IsOrdered, touched-GivesAt,
}
use makebelieve.Coordinator.Requests.Permits.Giving.{block-GivesAt}
use makebelieve.Coordinator.Requests.Permits.Kept.{
  IsCalm, Calms-IsCalm, calling-Calms, on_permit-IsCalm, run-IsCalm, finish-IsCalm,
  on_reacquired-IsCalm, create-IsCalm,
}

-- The new wait is one that no attempt has made yet.
add_wait-IsCalm :
    (target : ℕ) (requester : Option ℕ) (c : Coordinator)
    → IsCalm c
    → IsCalm (add_wait target requester c)
add_wait-IsCalm target requester c s = record {
  ordered = record {
    fresh = s.ordered.fresh;
    known = λ a x found i j.
        omega (arith, s.ordered.known a x found i j, length-append c.waits (wait_made ∷ []));
    running = s.ordered.running;
  };
  gives = λ a x found held going i j. elim (get_elem?-append c.waits wait_made i) [
    | inl e ↦ ap blocked_at e ∙ s.gives a x found held going i j
    | inr (at_end, _) ↦ absurd (omega (arith, s.ordered.known a x found i j, at_end))
  ];
}
  where
    wait_made : Wait
    wait_made = record {
      target = target;
      requester = requester;
      state = WaitState.blocked;
      result = none;
    }

targeted-IsCalm :
    (target : ℕ) (requester : Option ℕ) (c : Coordinator)
    → IsCalm c
    → IsCalm (
        at_attempt target
          (λ x. record x { waits_on_me = x.waits_on_me ++ length c.waits ∷ [] })
          (add_wait target requester c))
targeted-IsCalm target requester c s =
    Calms-IsCalm
      (at_attempt-Calms target
        (λ x. record x { waits_on_me = x.waits_on_me ++ length c.waits ∷ [] })
        (add_wait target requester c) (λ x. kept refl refl refl refl refl))
      (add_wait-IsCalm target requester c s)

-- The attempt that makes the wait is running.
linked-IsOrdered :
    (i target r : ℕ) (x : Attempt) (c : Coordinator)
    → get_elem? c.attempts r ≡ some x
    → x.phase ≡ Phase.running
    → i < length c.waits
    → IsOrdered c
    → IsOrdered (link_requester i target (some r) c)
linked-IsOrdered i target r x c found going less s = record {
  fresh = λ b y there early n j. elim (modify-cases r b made c.attempts there) [
    | inl (_, z, old, e) ↦
        let same : z.phase ≡ Phase.running =
          ap (λ w. w.phase) (some_value (sym old ∙ found)) ∙ going in
        cc (sym early ∙ ap (λ w. is_unstarted w.phase) e ∙ ap is_unstarted same)
    | inr (_, old) ↦ s.fresh b y old early n j
  ];
  known = λ b y there n j. elim (modify-cases r b made c.attempts there) [
    | inl (_, z, old, e) ↦
        elim (In-split n z.waits_by_me (i ∷ []) (subst (λ w. In n w.waits_by_me) e j)) [
          | inl k ↦ s.known r z old n k
          | inr k ↦ elim k [ inl now ↦ omega (arith, now, less) | inr never ↦ absurd never ]
        ]
    | inr (_, old) ↦ s.known b y old n j
  ];
  running = λ o b there.
      let (y, here, on, at) = s.running o b there in
      elim (eq_cases r b) [
        | inl (e, _) ↦ (
          made y,
          subst (λ n. get_elem? (modify r made c.attempts) n ≡ some (made y)) e
              (modify_self r made c.attempts (ap (get_elem? c.attempts) e ∙ here)),
          on,
          at,
        )
        | inr (apart, _) ↦ (y, modify_other r b made c.attempts apart ∙ here, on, at)
      ];
}
  where
    made : Attempt → Attempt
    made y = record y {
      waits_by_me = y.waits_by_me ++ i ∷ [];
      edges_out = one_more target y.edges_out;
    }

hurried-Calms : (t : Bool) (a : ℕ) (c : Coordinator) → Calms c (if t then hurry a c else c)
hurried-Calms t a c = if-cases (Calms c) t (hurry a c) c (hurry-Calms a c) quiet

enqueue-IsCalm :
    (target r : ℕ) (x : Attempt) (c : Coordinator)
    → get_elem? c.attempts r ≡ some x
    → x.phase ≡ Phase.running
    → IsCalm c
    → IsCalm (enqueue target (some r) c)
unfolding enqueue link
enqueue-IsCalm target r x c found going s =
    let i = length c.waits in
    let b =
      at_attempt target (λ x. record x { waits_on_me = x.waits_on_me ++ length c.waits ∷ [] })
        (add_wait target (some r) c) in
    let before = targeted-IsCalm target (some r) c s in
    let to_b =
      at_attempt-Calms target (λ x. record x { waits_on_me = x.waits_on_me ++ length c.waits ∷ [] })
        (add_wait target (some r) c) (λ x. kept refl refl refl refl refl) in
    let (y, there, f) = to_b.follow r x found in
    let a = link_requester i target (some r) b in
    let h = if hurries a (some r) then hurry target a else a in
    let more : i < length b.waits = omega (
      arith,
      length-append c.waits (
          (record { target = target; requester = some r; state = WaitState.blocked; result = none })
          ∷ []),
    ) in
    let on = linked-IsOrdered i target r y b there (f.phase ∙ going) more before.ordered in
    let to_h : Calms a h = hurried-Calms (hurries a (some r)) target a in
    let to_end : Calms h (block r h) = (block-Steady r h).calms in
    record {
      ordered = Calms-IsOrdered (Calms-trans to_h to_end) on;
      gives = λ n. elim (eq_cases r n) [
        | inl (here, _) ↦ subst (GivesAt (block r h)) here (block-GivesAt r h)
        | inr (ne, _) ↦ Calms-GivesAt n (Calms-trans to_h to_end) (
            touched-GivesAt r
              (λ x. record x {
                waits_by_me = x.waits_by_me ++ i ∷ [];
                edges_out = one_more target x.edges_out;
              })
              b n ne (before.gives n))
      ];
    }

outside-IsCalm : (target : ℕ) (c : Coordinator) → IsCalm c → IsCalm (enqueue target none c)
unfolding enqueue link
outside-IsCalm target c s =
    Calms-IsCalm
      (hurry-Calms target (
        at_attempt target (λ x. record x { waits_on_me = x.waits_on_me ++ length c.waits ∷ [] })
          (add_wait target none c)))
      (targeted-IsCalm target none c s)

requester-running :
    (requester : Option FilePath) (r : ℕ) (c : Coordinator)
    → IsOrdered c
    → requester_of c requester ≡ some r
    → (x : Attempt) × (get_elem? c.attempts r ≡ some x) × (x.phase ≡ Phase.running)
unfolding requester_of
requester-running none r c s e = absurd (no_value e)
requester-running (some o) r c s e = let (x, found, going, _) = s.running o r e in (x, found, going)

wait-IsCalm :
    (stop_requested : Bool) (target : ℕ) (requester : Option FilePath) (c : Coordinator)
    → IsCalm c
    → IsCalm (wait stop_requested target requester c).1
unfolding wait
wait-IsCalm true target requester c s = s
wait-IsCalm false target requester c s = by_result (result_at (get_elem? c.attempts target))
  where
    by_path :
        (r : ℕ) (path : List ℕ)
        → requester_of c requester ≡ some r
        → IsCalm (wait_on target (some r) path c).1
    by_path r [] e =
        let (x, found, going) = requester-running requester r c s.ordered e in
        enqueue-IsCalm target r x c found going s
    by_path r (a ∷ cycle) e = Calms-IsCalm (each-Steady doom (a ∷ cycle) c doom-Steady).calms s

    by_stopping :
        (t : Bool) (r : ℕ)
        → requester_of c requester ≡ some r
        → IsCalm
            (if t
              then (Waited.returns canceled, c)
              else wait_on target (some r) (path_to c target r) c).1
    by_stopping true r e = s
    by_stopping false r e = by_path r (path_to c target r) e

    by_requester : (r : Option ℕ) → requester_of c requester ≡ r → IsCalm (wait_from target r c).1
    by_requester none e = outside-IsCalm target c s
    by_requester (some r) e = by_stopping (is_stopping (get_elem? c.attempts r)) r e

    by_result : (o : Option Code) → IsCalm (wait_for target requester o c).1
    by_result (some result) = s
    by_result none = by_requester (requester_of c requester) refl

Step-IsCalm : {c d : Coordinator} → Step c d → IsCalm c → IsCalm d
Step-IsCalm {c} (Step.creates output p h) s = create-IsCalm output p c s
Step-IsCalm {c} (Step.runs a x found pending) s = run-IsCalm a x c found pending s
Step-IsCalm {c} (Step.waits stop_requested target requester h) s =
    wait-IsCalm stop_requested target requester c s
Step-IsCalm {c} (Step.cancels i) s = Calms-IsCalm (cancel_wait-Steady i c).calms s
Step-IsCalm {c} (Step.completes a result) s = Calms-IsCalm (complete-Steady a result c).calms s
Step-IsCalm {c} (Step.takes_permit a x found queued) s = on_permit-IsCalm a x c found queued s
Step-IsCalm {c} (Step.reacquires a granted) s = on_reacquired-IsCalm a granted c s
Step-IsCalm {c} (Step.stops a) s = Calms-IsCalm (on_outer_stop-Steady a c).calms s
Step-IsCalm {c} (Step.finishes a) s = finish-IsCalm a c s

at_first-IsCalm : (can_promote : Bool) → IsCalm (initial can_promote)
unfolding initial OrdMap.find
at_first-IsCalm can_promote = record {
  ordered = record {
    fresh = λ a x never. absurd (no_value never);
    known = λ a x never. absurd (no_value never);
    running = λ o r never. absurd (no_value never);
  };
  gives = λ a x never. absurd (no_value never);
}

Reached-IsCalm : {c : Coordinator} → Reached c → IsCalm c
Reached-IsCalm (Reached.at_first can_promote) = at_first-IsCalm can_promote
Reached-IsCalm (Reached.next {c} h step) =
    Step-IsCalm step (Calms-IsCalm (calling-Calms c no_calls) (Reached-IsCalm h))

any_blocked-false :
    (waits : List Wait) (is : List ℕ)
    → ((i : ℕ) → In i is → blocked_at (get_elem? waits i) ≡ false)
    → any_blocked waits is ≡ false
unfolding any_blocked
any_blocked-false waits [] h = refl
any_blocked-false waits (i ∷ is) h =
    first (get_elem? waits i) (h i (inl refl)) ∙ any_blocked-false waits is (λ j k. h j (inr k))
  where
    first :
        (o : Option Wait)
        → blocked_at o ≡ false
        → (elim o [ none ↦ false | some w ↦ is_blocked w.state ] || any_blocked waits is)
          ≡ any_blocked waits is
    first none e = refl
    first (some w) e = ap (λ b. b || any_blocked waits is) e

-- In every state reached, none of the requests of an attempt that holds its permit and is not
-- stopping still waits for a build.
pub Reached-any_blocked :
    {c : Coordinator}
    → Reached c
    → (a : ℕ) (x : Attempt) → get_elem? c.attempts a ≡ some x
    → is_held x.permit ≡ true
    → x.stopping ≡ false
    → any_blocked c.waits x.waits_by_me ≡ false
Reached-any_blocked {c} h a x found held going =
    any_blocked-false c.waits x.waits_by_me ((Reached-IsCalm h).gives a x found held going)
