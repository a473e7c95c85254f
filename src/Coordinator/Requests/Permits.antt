-- ===== src/Coordinator/Requests/Permits.antt =====
-- Permits held, and requests that wait.
pub mod Kept
pub mod Giving
pub mod Reachable
use makebelieve.Base.{
  ℕ, zero, suc, ◌+◌, ◌-◌, ◌*◌, ◌%◌, ◌^◌, ◌≤◌, ◌<◌, ◌≡◌, refl, sym, ap, subst, ◌∙◌, ◌≢◌, ◌↔◌, ◌⊎◌,
  inl, inr, Bool, true, false, not, ◌&&◌, ◌||◌, Option, none, some, List, [], ◌∷◌, ◌++◌, map,
  reverse, arith, ltb, leb, nat_eq, if◌then◌else◌, nat_eq_iff, ltb→lt, lt→ltb, Bool-cases,
  Option-cases, and_left, and_right, or_right, length, get_elem?, modify, length-modify,
  modify_self, modify-none, modify_other, take, drop, find_if, any_of, all_of, keep, All, In,
  In-left, In-right, In-split, get_elem?-append, length-get, In-any_of, modify-cases, keep-In,
  find_if_passes, In-keep, get-length, AllPairs, length-append, take-append, drop-append,
  All-append, All-keep, All-map, AllPairs-keep, AllPairs-concat, HasTest, ◌==◌, ℕ-HasTest,
  List-HasTest, list_eq, eq_iff, eq_self, eq_cases, Result, ok, err, ◌>>=◌, ◌>>◌, reject_if,
  ok_steps, reject_if-eq-ok, after_check, ok-injective, ne_test,
}
use makebelieve.Base.OrdMap
use makebelieve.Base.Optional.{some_value, no_value}
use makebelieve.Paths.{FilePath, FilePath-Order}
use makebelieve.Coordinator.{
  Phase, Permit, WaitState, Code, no_calls, Attempt, Wait, Effects, Coordinator, initial,
  at_attempt, at_wait, at_calls,
}
use makebelieve.Coordinator.Transitions.{
  is_running, is_held, is_blocked, on_attempt, permitted, ended_at, any_blocked, give_back,
  give_back_if_waiting, block,
}
use makebelieve.Coordinator.Transitions.Calms.{Follows, blocked_at, Calms, quiet}

-- An attempt that holds its permit and is not stopping has no request that waits.
abbrev pub GivesAt : Coordinator → ℕ → Type 0
GivesAt c a =
    (x : Attempt)
    → get_elem? c.attempts a ≡ some x
    → is_held x.permit ≡ true
    → x.stopping ≡ false
    → (i : ℕ) → In i x.waits_by_me
    → blocked_at (get_elem? c.waits i) ≡ false

abbrev pub is_unstarted : Phase → Bool
is_unstarted Phase.pending = true
is_unstarted Phase.queued = true
is_unstarted _ = false

-- An attempt makes requests only once it runs, as the one at its output.
pub record IsOrdered (c : Coordinator) : Type 0 where
  pub fresh :
      (a : ℕ) (x : Attempt)
      → get_elem? c.attempts a ≡ some x
      → is_unstarted x.phase ≡ true
      → (i : ℕ) → ¬ In i x.waits_by_me
  pub known :
      (a : ℕ) (x : Attempt)
      → get_elem? c.attempts a ≡ some x
      → (i : ℕ) → In i x.waits_by_me
      → i < length c.waits
  pub running :
      (o : FilePath) (r : ℕ)
      → OrdMap.find o c.running ≡ some r
      → (x : Attempt) × (get_elem? c.attempts r ≡ some x)
        × (x.phase ≡ Phase.running)
        × (x.output ≡ o)

-- Where an attempt after a calm change comes from.
Calms-before :
    {c d : Coordinator}
    → Calms c d
    → (a : ℕ) (y : Attempt) → get_elem? d.attempts a ≡ some y
    → (x : Attempt) × (get_elem? c.attempts a ≡ some x) × Follows x y
Calms-before {c} h a y found = elim (Option-cases (get_elem? c.attempts a)) [
  | inl missing ↦ cc (sym (h.absent a missing) ∙ found)
  | inr (x, there) ↦
      let (z, here, f) = h.follow a x there in
      (x, there, subst (Follows x) (some_value (sym here ∙ found)) f)
]

pub Calms-GivesAt : {c d : Coordinator} (a : ℕ) → Calms c d → GivesAt c a → GivesAt d a
Calms-GivesAt {c} {d} a h g y found held going i j =
    let (x, there, f) = Calms-before h a y found in
    elim (Bool-cases (blocked_at (get_elem? d.waits i))) [
      | inl t ↦ cc (sym (g x there (f.held held) (f.stopping going) i (f.mine i j)) ∙ h.blocked i t)
      | inr t ↦ t
    ]

pub Calms-IsOrdered : {c d : Coordinator} → Calms c d → IsOrdered c → IsOrdered d
Calms-IsOrdered h s = record {
  fresh = λ a y found early i j.
      let (x, there, f) = Calms-before h a y found in
      s.fresh a x there (ap is_unstarted (sym f.phase) ∙ early) i (f.mine i j);
  known = λ a y found i j.
      let (x, there, f) = Calms-before h a y found in
      omega (arith, s.known a x there i (f.mine i j), h.size);
  running = λ o r found.
      let (x, there, going, at) = s.running o r (ap (OrdMap.find o) (sym h.running) ∙ found) in
      let (y, here, f) = h.follow r x there in (y, here, f.phase ∙ going, f.output ∙ at);
}

-- Of the new attempt of `on_permit`.
pub permitted-IsOrdered :
    (a : ℕ) (x : Attempt) (c : Coordinator)
    → get_elem? c.attempts a ≡ some x
    → x.phase ≡ Phase.queued
    → IsOrdered c
    → IsOrdered (permitted a x c)
permitted-IsOrdered a x c found queued s = record {
  fresh = λ b y there early i j. elim (modify-cases a b allowed c.attempts there) [
    | inl (_, z, _, e) ↦ cc (sym early ∙ ap (λ w. is_unstarted w.phase) e)
    | inr (_, old) ↦ s.fresh b y old early i j
  ];
  known = λ b y there i j. elim (modify-cases a b allowed c.attempts there) [
    | inl (_, z, old, e) ↦ s.known a z old i (subst (λ w. In i w.waits_by_me) e j)
    | inr (_, old) ↦ s.known b y old i j
  ];
  running = λ o r there. elim (Option-cases (OrdMap.find x.output c.running)) [
    | inl free ↦ elim (eq_cases x.output o) [
      | inl (e, t) ↦
          let now : a ≡ r = some_value (
            sym (
              OrdMap.find-emplace x.output o a c.running free
              ∙ ap (λ b. if b then some a else OrdMap.find o c.running) t)
            ∙ there) in
          subst
            (λ n.
              (y : Attempt) × (get_elem? (modify a allowed c.attempts) n ≡ some y)
              × (y.phase ≡ Phase.running)
              × (y.output ≡ o))
            now (allowed x, modify_self a allowed c.attempts found, refl, e)
      | inr (ne, t) ↦ unchanged o r (
          sym (
            OrdMap.find-emplace x.output o a c.running free
            ∙ ap (λ b. if b then some a else OrdMap.find o c.running) t)
          ∙ there)
    ]
    | inr (b, taken) ↦
        unchanged o r
          (ap (OrdMap.find o) (sym (OrdMap.emplace_old x.output a b c.running taken)) ∙ there)
  ];
}
  where
    allowed : Attempt → Attempt
    allowed y = record y { phase = Phase.running; permit = Permit.held; leased = true }

    unchanged :
        (o : FilePath) (r : ℕ)
        → OrdMap.find o c.running ≡ some r
        → (y : Attempt) × (get_elem? (modify a allowed c.attempts) r ≡ some y)
          × (y.phase ≡ Phase.running)
          × (y.output ≡ o)
    unchanged o r old =
        let (y, here, going, at) = s.running o r old in
        elim (eq_cases a r) [
          | inl (e, _) ↦ cc (
              sym queued
              ∙ ap (λ w. w.phase) (some_value (sym found ∙ ap (get_elem? c.attempts) e ∙ here))
              ∙ going)
          | inr (ne, _) ↦ (y, modify_other a r allowed c.attempts ne ∙ here, going, at)
        ]

pub permitted-GivesAt :
    (a : ℕ) (x : Attempt) (c : Coordinator)
    → get_elem? c.attempts a ≡ some x
    → x.phase ≡ Phase.queued
    → IsOrdered c
    → (b : ℕ) → GivesAt c b
    → GivesAt (permitted a x c) b
permitted-GivesAt a x c found queued s b g y there held going i j =
    elim (modify-cases a b
      (λ y. record y { phase = Phase.running; permit = Permit.held; leased = true }) c.attempts
      there) [
        | inl (_, z, old, e) ↦
            let same : z ≡ x = some_value (sym old ∙ found) in
            absurd (
              s.fresh a x found (ap is_unstarted queued) i
                (subst (λ w. In i w.waits_by_me) same (subst (λ w. In i w.waits_by_me) e j)))
        | inr (_, old) ↦ g y old held going i j
      ]

-- Once it has ended it has no place among the running attempts.
pub ended_at-IsOrdered :
    (a : ℕ) (x : Attempt) (c : Coordinator)
    → get_elem? c.attempts a ≡ some x
    → IsOrdered c
    → IsOrdered (ended_at a x c)
ended_at-IsOrdered a x c found s = record {
  fresh = λ b y there early i j. elim (modify-cases a b over c.attempts there) [
    | inl (_, z, _, e) ↦ cc (sym early ∙ ap (λ w. is_unstarted w.phase) e)
    | inr (_, old) ↦ s.fresh b y old early i j
  ];
  known = λ b y there i j. elim (modify-cases a b over c.attempts there) [
    | inl (_, z, old, e) ↦ s.known a z old i (subst (λ w. In i w.waits_by_me) e j)
    | inr (_, old) ↦ s.known b y old i j
  ];
  running = λ o r there. elim (eq_cases x.output o) [
    | inl (e, t) ↦ cc (
        sym (
          OrdMap.find-erase x.output o c.running
          ∙ ap (λ b. if b then none else OrdMap.find o c.running) t)
        ∙ there)
    | inr (ne, t) ↦
        let (y, here, going, at) = s.running o r (
          sym (
            OrdMap.find-erase x.output o c.running
            ∙ ap (λ b. if b then none else OrdMap.find o c.running) t)
          ∙ there) in
        elim (eq_cases a r) [
          | inl (e, _) ↦ absurd (
              ne (
                ap (λ w. w.output) (some_value (sym found ∙ ap (get_elem? c.attempts) e ∙ here))
                ∙ at))
          | inr (apart, _) ↦ (y, modify_other a r over c.attempts apart ∙ here, going, at)
        ]
  ];
}
  where
    over : Attempt → Attempt
    over y = record y { phase = Phase.ended; stopping = true }

pub ended_at-GivesAt :
    (a : ℕ) (x : Attempt) (c : Coordinator) (b : ℕ) → GivesAt c b → GivesAt (ended_at a x c) b
ended_at-GivesAt a x c b g y there held going i j =
    elim (modify-cases a b (λ y. record y { phase = Phase.ended; stopping = true }) c.attempts
      there) [
        | inl (_, z, _, e) ↦ cc (sym going ∙ ap (λ w. w.stopping) e)
        | inr (_, old) ↦ g y old held going i j
      ]

-- A change of one attempt that leaves its phase, its output and its requests.
pub touched-IsOrdered :
    (a : ℕ) (f : Attempt → Attempt) (c : Coordinator)
    → ((x : Attempt) → (f x).phase ≡ x.phase)
    → ((x : Attempt) → (f x).output ≡ x.output)
    → ((x : Attempt) → (f x).waits_by_me ≡ x.waits_by_me)
    → IsOrdered c
    → IsOrdered (at_attempt a f c)
touched-IsOrdered a f c phase output mine s = record {
  fresh = λ b y there early i j. elim (modify-cases a b f c.attempts there) [
    | inl (_, z, old, e) ↦
        s.fresh a z old (sym (ap (λ w. is_unstarted w.phase) e ∙ ap is_unstarted (phase z)) ∙ early)
          i (subst (In i) (mine z) (subst (λ w. In i w.waits_by_me) e j))
    | inr (_, old) ↦ s.fresh b y old early i j
  ];
  known = λ b y there i j. elim (modify-cases a b f c.attempts there) [
    | inl (_, z, old, e) ↦
        s.known a z old i (subst (In i) (mine z) (subst (λ w. In i w.waits_by_me) e j))
    | inr (_, old) ↦ s.known b y old i j
  ];
  running = λ o r there.
      let (y, here, going, at) = s.running o r there in
      elim (eq_cases a r) [
        | inl (e, _) ↦ (
          f y,
          subst (λ n. get_elem? (modify a f c.attempts) n ≡ some (f y)) e
              (modify_self a f c.attempts (ap (get_elem? c.attempts) e ∙ here)),
          phase y ∙ going,
          output y ∙ at,
        )
        | inr (apart, _) ↦ (y, modify_other a r f c.attempts apart ∙ here, going, at)
      ];
}

pub touched-GivesAt :
    (a : ℕ) (f : Attempt → Attempt) (c : Coordinator) (b : ℕ)
    → a ≢ b
    → GivesAt c b
    → GivesAt (at_attempt a f c) b
touched-GivesAt a f c b ne g y there = g y (sym (modify_other a b f c.attempts ne) ∙ there)
