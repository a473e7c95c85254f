-- ===== src/Coordinator/Requests/Permits/Kept.antt =====
-- Permits held and requests that wait, through the steps of one attempt.
use makebelieve.Base.{
  ℕ, ◌≡◌, refl, sym, ap, subst, ◌∙◌, ◌⊎◌, inl, inr, Bool, true, false, Option, none, some, [], ◌∷◌,
  ◌++◌, arith, if◌then◌else◌, get_elem?, modify_other, In, get_elem?-append, modify-cases,
  get-length, ℕ-HasTest, List-HasTest, eq_cases,
}
use makebelieve.Base.Optional.{some_value}
use makebelieve.Paths.{FilePath, FilePath-Order}
use makebelieve.Coordinator.{Phase, Permit, Attempt, Effects, Coordinator, at_attempt}
use makebelieve.Coordinator.Transitions.{
  is_held, permitted, on_permit, ended_at, each, answer_ready, give_back_if_waiting, reacquired,
  on_reacquired, drain_end, drain_later, drain_now, cancel_waits_of, finish,
}
use makebelieve.Coordinator.Transitions.Calms.{
  Calms, quiet, Calms-trans, at_attempt-Calms, on_attempt-cases, if-cases,
}
use makebelieve.Coordinator.Transitions.Steady.{kept, each-Steady}
use makebelieve.Coordinator.Transitions.Preserved.{
  answer_ready-Steady, give_back_if_waiting-Steady, drain_end-Steady, cancel_waits_of-Steady,
}
use makebelieve.Coordinator.Requests.{still_under_way, new_attempt, create_attempt, run}
use makebelieve.Coordinator.Requests.Permits.{
  GivesAt, is_unstarted, IsOrdered, Calms-GivesAt, Calms-IsOrdered, permitted-IsOrdered,
  permitted-GivesAt, ended_at-IsOrdered, ended_at-GivesAt, touched-IsOrdered, touched-GivesAt,
}
use makebelieve.Coordinator.Requests.Permits.Giving.{give_back_if_waiting-GivesAt}

pub record IsCalm (c : Coordinator) : Type 0 where
  pub ordered : IsOrdered c
  pub gives : (a : ℕ) → GivesAt c a

pub Calms-IsCalm : {c d : Coordinator} → Calms c d → IsCalm c → IsCalm d
Calms-IsCalm h s = record {
  ordered = Calms-IsOrdered h s.ordered;
  gives = λ a. Calms-GivesAt a h (s.gives a);
}

pub on_permit-IsCalm :
    (a : ℕ) (x : Attempt) (c : Coordinator)
    → get_elem? c.attempts a ≡ some x
    → x.phase ≡ Phase.queued
    → IsCalm c
    → IsCalm (on_permit a c)
unfolding on_permit
on_permit-IsCalm a x c found queued s = on_attempt-cases IsCalm a (permitted a) c s λ y there.
    let early : y.phase ≡ Phase.queued =
      ap (λ w. w.phase) (some_value (sym there ∙ found)) ∙ queued in
    record {
      ordered = permitted-IsOrdered a y c there early s.ordered;
      gives = λ b. permitted-GivesAt a y c there early s.ordered b (s.gives b);
    }

pub run-IsCalm :
    (a : ℕ) (x : Attempt) (c : Coordinator)
    → get_elem? c.attempts a ≡ some x
    → x.phase ≡ Phase.pending
    → IsCalm c
    → IsCalm (run a c)
unfolding run
run-IsCalm a x c found pending s = record {
  ordered = record {
    fresh = λ b y there early i j. elim (modify-cases a b started c.attempts there) [
      | inl (_, z, old, e) ↦
          s.ordered.fresh a z old
            (ap (λ w. is_unstarted w.phase) (some_value (sym old ∙ found))
              ∙ ap is_unstarted pending)
            i (subst (λ w. In i w.waits_by_me) e j)
      | inr (_, old) ↦ s.ordered.fresh b y old early i j
    ];
    known = λ b y there i j. elim (modify-cases a b started c.attempts there) [
      | inl (_, z, old, e) ↦ s.ordered.known a z old i (subst (λ w. In i w.waits_by_me) e j)
      | inr (_, old) ↦ s.ordered.known b y old i j
    ];
    running = λ o r there.
        let (y, here, going, at) = s.ordered.running o r there in
        elim (eq_cases a r) [
          | inl (e, _) ↦ cc (
              sym pending
              ∙ ap (λ w. w.phase) (some_value (sym found ∙ ap (get_elem? c.attempts) e ∙ here))
              ∙ going)
          | inr (apart, _) ↦ (y, modify_other a r started c.attempts apart ∙ here, going, at)
        ];
  };
  gives = λ b y there held going i j. elim (modify-cases a b started c.attempts there) [
    | inl (_, z, old, e) ↦
        s.gives a z old (ap (λ w. is_held w.permit) (sym e) ∙ held)
          (ap (λ w. w.stopping) (sym e) ∙ going) i (subst (λ w. In i w.waits_by_me) e j)
    | inr (_, old) ↦ s.gives b y old held going i j
  ];
}
  where
    started : Attempt → Attempt
    started y = record y { phase = Phase.queued; predecessor = none }

pub calling-Calms : (c : Coordinator) (calls : Effects) → Calms c (record c { calls = calls })
calling-Calms c calls = record {
  follow = (quiet {c = c}).follow;
  absent = λ a e. e;
  blocked = λ i e. e;
  size = refl;
  running = refl;
}

drain_later-Calms : (a : ℕ) (c : Coordinator) → Calms c (drain_later a c)
drain_later-Calms a c =
    Calms-trans
      (at_attempt-Calms a (λ y. record y { draining = true }) c
        (λ y. kept refl refl refl refl refl))
      (calling-Calms (at_attempt a (λ y. record y { draining = true }) c) (drain_later a c).calls)

pub finish-IsCalm : (a : ℕ) (c : Coordinator) → IsCalm c → IsCalm (finish a c)
unfolding finish
finish-IsCalm a c s =
    on_attempt-cases IsCalm a
      (λ x b.
        let d = cancel_waits_of a (ended_at a x b) in
        if x.reacquire_outstanding then drain_later a d else drain_now a d)
      c s
      λ x found.
        let over : IsCalm (ended_at a x c) = record {
          ordered = ended_at-IsOrdered a x c found s.ordered;
          gives = λ b. ended_at-GivesAt a x c b (s.gives b);
        } in
        let d = cancel_waits_of a (ended_at a x c) in
        let after : IsCalm d =
          Calms-IsCalm (cancel_waits_of-Steady a (ended_at a x c)).calms over in
        if-cases IsCalm x.reacquire_outstanding (drain_later a d) (drain_now a d)
          (Calms-IsCalm (drain_later-Calms a d) after)
          (Calms-IsCalm (calling-Calms d (drain_now a d).calls) after)

-- The permit back, with all answered that waited for it, and given up again if a request still waits.
pub on_reacquired-IsCalm :
    (a : ℕ) (granted : Bool) (c : Coordinator) → IsCalm c → IsCalm (on_reacquired a granted c)
unfolding on_reacquired
on_reacquired-IsCalm a granted c s = on_attempt-cases IsCalm a (reacquired a granted) c s λ x found.
    let f : Attempt → Attempt = λ y. record y {
      reacquire_outstanding = false;
      permit = if granted then Permit.held else Permit.released;
    } in
    let b = at_attempt a f c in
    let d = each (answer_ready granted x.stopping) x.waits_by_me b in
    let e = give_back_if_waiting a d in
    let to_d : Calms b d =
      (each-Steady (answer_ready granted x.stopping) x.waits_by_me b
        (answer_ready-Steady granted x.stopping)).calms in
    let to_e : Calms d e = (give_back_if_waiting-Steady a d).calms in
    let after : IsCalm e = record {
      ordered =
          Calms-IsOrdered (Calms-trans to_d to_e)
            (touched-IsOrdered a f c (λ y. refl) (λ y. refl) (λ y. refl) s.ordered);
      gives = λ n. elim (eq_cases a n) [
        | inl (here, _) ↦ subst (GivesAt e) here (give_back_if_waiting-GivesAt a d)
        | inr (ne, _) ↦
            Calms-GivesAt n (Calms-trans to_d to_e) (touched-GivesAt a f c n ne (s.gives n))
      ];
    } in
    if-cases IsCalm x.draining (drain_end a e) e (Calms-IsCalm (drain_end-Steady a e).calms after)
      after

pub create-IsCalm :
    (output : FilePath) (p : Option ℕ) (c : Coordinator)
    → IsCalm c
    → IsCalm (create_attempt output p c)
unfolding create_attempt
create-IsCalm output p c s = record {
  ordered = record {
    fresh = λ b y there early i j. elim (put b y there) [
      | inl old ↦ s.ordered.fresh b y old early i j
      | inr e ↦ subst (λ w. In i w.waits_by_me) (sym e) j
    ];
    known = λ b y there i j. elim (put b y there) [
      | inl old ↦ s.ordered.known b y old i j
      | inr e ↦ absurd (subst (λ w. In i w.waits_by_me) (sym e) j)
    ];
    running = λ o r there.
        let (y, here, going, at) = s.ordered.running o r there in (y, before r y here, going, at);
  };
  gives = λ b y there held going i j. elim (put b y there) [
    | inl old ↦ s.gives b y old held going i j
    | inr e ↦ absurd (subst (λ w. In i w.waits_by_me) (sym e) j)
  ];
}
  where
    new : Attempt
    new = new_attempt output (still_under_way c p)

    put :
        (b : ℕ) (y : Attempt)
        → get_elem? (c.attempts ++ new ∷ []) b ≡ some y
        → (get_elem? c.attempts b ≡ some y) ⊎ (new ≡ y)
    put b y there = elim (get_elem?-append c.attempts new b) [
      | inl e ↦ inl (sym e ∙ there)
      | inr (_, e) ↦ inr (some_value (sym e ∙ there))
    ]

    before :
        (r : ℕ) (y : Attempt)
        → get_elem? c.attempts r ≡ some y
        → get_elem? (c.attempts ++ new ∷ []) r ≡ some y
    before r y here = elim (get_elem?-append c.attempts new r) [
      | inl e ↦ e ∙ here
      | inr (at_end, _) ↦ absurd (get-length c.attempts r (omega (arith, at_end)) here)
    ]
