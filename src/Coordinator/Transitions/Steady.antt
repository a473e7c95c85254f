-- ===== src/Coordinator/Transitions/Steady.antt =====
-- Changes that also hurry no attempt and give none a permit.
use makebelieve.Base.{
  ℕ, ◌≡◌, refl, sym, ap, subst, ◌∙◌, Bool, true, false, Option, none, some, List, [], ◌∷◌,
  if◌then◌else◌, length, get_elem?, In, ℕ-HasTest, List-HasTest,
}
use makebelieve.Coordinator.{Attempt, Wait, Coordinator, at_attempt, at_wait, nexts}
use makebelieve.Coordinator.Transitions.{is_held, is_blocked, on_attempt, on_wait, each}
use makebelieve.Coordinator.Transitions.Shrinks.{
  Shrinks, unchanged, Shrinks_trans, elsewhere, keeps-Shrinks,
}
use makebelieve.Coordinator.Transitions.Calms.{
  Follows, blocked_at, Calms, quiet, Calms-trans, at_attempt-Calms, at_wait-Calms,
}

pub record Steady (c d : Coordinator) : Type 0 where
  pub shrinks : Shrinks c d
  pub calms : Calms c d

abbrev pub same : {c : Coordinator} → Steady c c
same = record { shrinks = unchanged; calms = quiet }

pub Steady-trans : {c d e : Coordinator} → Steady c d → Steady d e → Steady c e
Steady-trans h k = record {
  shrinks = Shrinks_trans h.shrinks k.shrinks;
  calms = Calms-trans h.calms k.calms;
}

abbrev pub kept :
    {x y : Attempt}
    → y.phase ≡ x.phase
    → y.output ≡ x.output
    → y.permit ≡ x.permit
    → y.stopping ≡ x.stopping
    → y.waits_by_me ≡ x.waits_by_me
    → Follows x y
kept phase output permit stopping mine = record {
  phase = phase;
  output = output;
  held = λ e. ap is_held (sym permit) ∙ e;
  stopping = λ e. sym stopping ∙ e;
  mine = λ i j. subst (In i) mine j;
}

pub keeps-Steady :
    (a : ℕ) (f : Attempt → Attempt) (c : Coordinator)
    → ((x : Attempt) → (f x).hurried ≡ x.hurried)
    → ((x : Attempt) → nexts (f x) ≡ nexts x)
    → ((x : Attempt) → Follows x (f x))
    → Steady c (at_attempt a f c)
keeps-Steady a f c h k l = record {
  shrinks = keeps-Shrinks a f c h k;
  calms = at_attempt-Calms a f c l;
}

-- A change of what is called, or of the list of waits under way.
pub elsewhere-Steady :
    {c d : Coordinator} (e : Coordinator)
    → e.attempts ≡ d.attempts
    → e.waits ≡ d.waits
    → e.running ≡ d.running
    → Steady c d
    → Steady c e
elsewhere-Steady {c} {d} e p q r h = record {
  shrinks = elsewhere e p h.shrinks;
  calms = record {
    follow = λ a x found.
        let (y, there, f) = h.calms.follow a x found in (y, ap (λ xs. get_elem? xs a) p ∙ there, f);
    absent = λ a gone. ap (λ xs. get_elem? xs a) p ∙ h.calms.absent a gone;
    blocked = λ i k. h.calms.blocked i (subst (λ ws. blocked_at (get_elem? ws i) ≡ true) q k);
    size = ap length q ∙ h.calms.size;
    running = r ∙ h.calms.running;
  };
}

pub at_wait-Steady :
    (i : ℕ) (f : Wait → Wait) (c : Coordinator)
    → ((w : Wait) → is_blocked (f w).state ≡ true → is_blocked w.state ≡ true)
    → Steady c (at_wait i f c)
at_wait-Steady i f c h = record {
  shrinks = elsewhere (at_wait i f c) refl unchanged;
  calms = at_wait-Calms i f c h;
}

pub on_attempt-Steady :
    (a : ℕ) (f : Attempt → Coordinator → Coordinator) (c : Coordinator)
    → ((x : Attempt) → Steady c (f x c))
    → Steady c (on_attempt a f c)
on_attempt-Steady a f c h = go (get_elem? c.attempts a)
  where
    go : (o : Option Attempt) → Steady c (elim o [ none ↦ c | some x ↦ f x c ])
    go none = same
    go (some x) = h x

pub on_wait-Steady :
    (i : ℕ) (f : Wait → Coordinator → Coordinator) (c : Coordinator)
    → ((w : Wait) → Steady c (f w c))
    → Steady c (on_wait i f c)
on_wait-Steady i f c h = go (get_elem? c.waits i)
  where
    go : (o : Option Wait) → Steady c (elim o [ none ↦ c | some w ↦ f w c ])
    go none = same
    go (some w) = h w

pub if-Steady :
    (t : Bool) (c d e : Coordinator) → Steady c d → Steady c e → Steady c (if t then d else e)
if-Steady true c d e h k = h
if-Steady false c d e h k = k

pub each-Steady :
    (f : ℕ → Coordinator → Coordinator) (is : List ℕ) (c : Coordinator)
    → ((i : ℕ) (d : Coordinator) → Steady d (f i d))
    → Steady c (each f is c)
unfolding each
each-Steady f [] c h = same
each-Steady f (i ∷ is) c h = Steady-trans (h i c) (each-Steady f is (f i c) h)
