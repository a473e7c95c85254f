-- ===== src/Coordinator/Transitions/Calms.antt =====
-- A change after which no attempt has a permit, a phase or a request that it had not before.
use makebelieve.Base.{
  ℕ, ◌≡◌, refl, sym, ap, subst, ◌∙◌, inl, inr, Bool, true, false, Option, none, some, if◌then◌else◌,
  length, get_elem?, modify, length-modify, modify_self, modify-none, modify_other, In, ℕ-HasTest,
  List-HasTest, eq_cases,
}
use makebelieve.Coordinator.{Attempt, Wait, Coordinator, at_attempt, at_wait}
use makebelieve.Coordinator.Transitions.{is_held, is_blocked, on_attempt}

pub record Follows (x y : Attempt) : Type 0 where
  pub phase : y.phase ≡ x.phase
  pub output : y.output ≡ x.output
  pub held : is_held y.permit ≡ true → is_held x.permit ≡ true
  pub stopping : y.stopping ≡ false → x.stopping ≡ false
  pub mine : (i : ℕ) → In i y.waits_by_me → In i x.waits_by_me

abbrev pub blocked_at : Option Wait → Bool
blocked_at none = false
blocked_at (some w) = is_blocked w.state

pub record Calms (c d : Coordinator) : Type 0 where
  pub follow :
      (a : ℕ) (x : Attempt)
      → get_elem? c.attempts a ≡ some x
      → (y : Attempt) × (get_elem? d.attempts a ≡ some y) × Follows x y
  pub absent : (a : ℕ) → get_elem? c.attempts a ≡ none → get_elem? d.attempts a ≡ none
  pub blocked :
      (i : ℕ) → blocked_at (get_elem? d.waits i) ≡ true → blocked_at (get_elem? c.waits i) ≡ true
  pub size : length d.waits ≡ length c.waits
  pub running : d.running ≡ c.running

abbrev pub itself : {x : Attempt} → Follows x x
itself = record { phase = refl; output = refl; held = λ e. e; stopping = λ e. e; mine = λ i j. j }

abbrev pub quiet : {c : Coordinator} → Calms c c
quiet = record {
  follow = λ a x e. (x, e, itself);
  absent = λ a e. e;
  blocked = λ i e. e;
  size = refl;
  running = refl;
}

Follows-trans : {x y z : Attempt} → Follows x y → Follows y z → Follows x z
Follows-trans h k = record {
  phase = k.phase ∙ h.phase;
  output = k.output ∙ h.output;
  held = λ e. h.held (k.held e);
  stopping = λ e. h.stopping (k.stopping e);
  mine = λ i j. h.mine i (k.mine i j);
}

pub Calms-trans : {c d e : Coordinator} → Calms c d → Calms d e → Calms c e
Calms-trans h k = record {
  follow = λ a x found.
      let (y, there, f) = h.follow a x found in
      let (z, here, g) = k.follow a y there in (z, here, Follows-trans f g);
  absent = λ a e. k.absent a (h.absent a e);
  blocked = λ i e. h.blocked i (k.blocked i e);
  size = k.size ∙ h.size;
  running = k.running ∙ h.running;
}

pub at_attempt-Calms :
    (a : ℕ) (f : Attempt → Attempt) (c : Coordinator)
    → ((x : Attempt) → Follows x (f x))
    → Calms c (at_attempt a f c)
at_attempt-Calms a f c h = record {
  follow = λ b x e. elim (eq_cases a b) [
    | inl (same, _) ↦ (
      f x,
      subst (λ n. get_elem? (modify a f c.attempts) n ≡ some (f x)) same
          (modify_self a f c.attempts (subst (λ n. get_elem? c.attempts n ≡ some x) (sym same) e)),
      h x,
    )
    | inr (ne, _) ↦ (x, modify_other a b f c.attempts ne ∙ e, itself)
  ];
  absent = λ b e. elim (eq_cases a b) [
    | inl (same, _) ↦
        subst (λ n. get_elem? (modify a f c.attempts) n ≡ none) same
          (modify-none a f c.attempts (subst (λ n. get_elem? c.attempts n ≡ none) (sym same) e))
    | inr (ne, _) ↦ modify_other a b f c.attempts ne ∙ e
  ];
  blocked = λ i e. e;
  size = refl;
  running = refl;
}

pub at_wait-Calms :
    (i : ℕ) (f : Wait → Wait) (c : Coordinator)
    → ((w : Wait) → is_blocked (f w).state ≡ true → is_blocked w.state ≡ true)
    → Calms c (at_wait i f c)
at_wait-Calms i f c h = record {
  follow = λ a x e. (x, e, itself);
  absent = λ a e. e;
  blocked = λ j e. elim (eq_cases i j) [
    | inl (same, _) ↦
        subst (λ n. blocked_at (get_elem? c.waits n) ≡ true) same
          (here (get_elem? c.waits i) refl
            (subst (λ n. blocked_at (get_elem? (modify i f c.waits) n) ≡ true) (sym same) e))
    | inr (ne, _) ↦ sym (ap blocked_at (modify_other i j f c.waits ne)) ∙ e
  ];
  size = length-modify i f c.waits;
  running = refl;
}
  where
    here :
        (o : Option Wait)
        → get_elem? c.waits i ≡ o
        → blocked_at (get_elem? (modify i f c.waits) i) ≡ true
        → blocked_at (get_elem? c.waits i) ≡ true
    here none e k = cc (sym (ap blocked_at (modify-none i f c.waits e)) ∙ k)
    here (some w) e k = ap blocked_at e ∙ h w (sym (ap blocked_at (modify_self i f c.waits e)) ∙ k)

-- What holds whether or not the attempt is in the store.
pub on_attempt-cases :
    (P : Coordinator → Type 0) (a : ℕ) (f : Attempt → Coordinator → Coordinator) (c : Coordinator)
    → P c
    → ((x : Attempt) → get_elem? c.attempts a ≡ some x → P (f x c))
    → P (on_attempt a f c)
on_attempt-cases P a f c h k = go (get_elem? c.attempts a) refl
  where
    go :
        (o : Option Attempt) → get_elem? c.attempts a ≡ o → P (elim o [ none ↦ c | some x ↦ f x c ])
    go none e = h
    go (some x) e = k x e

pub if-cases :
    (P : Coordinator → Type 0) (t : Bool) (c d : Coordinator) → P c → P d → P (if t then c else d)
if-cases P true c d h k = h
if-cases P false c d h k = k
