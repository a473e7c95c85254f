-- ===== src/Coordinator/Requests/Permits/Giving.antt =====
-- What gives a permit back.
use makebelieve.Base.{
  ℕ, ◌≡◌, refl, sym, ap, subst, ◌∙◌, inl, inr, Bool, true, false, not, ◌&&◌, ◌||◌, Option, none,
  some, List, [], ◌∷◌, ◌++◌, arith, if◌then◌else◌, get_elem?, In, modify-cases, ℕ-HasTest,
  List-HasTest,
}
use makebelieve.Base.Optional.{some_value}
use makebelieve.Paths.{FilePath-Order}
use makebelieve.Coordinator.{Permit, Attempt, Wait, Coordinator, at_attempt, at_calls}
use makebelieve.Coordinator.Transitions.{
  is_held, is_blocked, any_blocked, give_back, give_back_if_waiting, block,
}
use makebelieve.Coordinator.Transitions.Calms.{blocked_at}
use makebelieve.Coordinator.Requests.Permits.{GivesAt}

any_blocked-In :
    (waits : List Wait) (is : List ℕ) (i : ℕ)
    → any_blocked waits is ≡ false
    → In i is
    → blocked_at (get_elem? waits i) ≡ false
unfolding any_blocked
any_blocked-In waits [] i h never = absurd never
any_blocked-In waits (j ∷ is) i h (inl e) =
    ap (λ n. blocked_at (get_elem? waits n)) e ∙ left (get_elem? waits j) (any_blocked waits is) h
  where
    left :
        (o : Option Wait) (b : Bool)
        → (elim o [ none ↦ false | some w ↦ is_blocked w.state ] || b) ≡ false
        → blocked_at o ≡ false
    left none b h = refl
    left (some w) b h = ground arith
any_blocked-In waits (j ∷ is) i h (inr k) =
    any_blocked-In waits is i
      (right (elim (get_elem? waits j) [ none ↦ false | some w ↦ is_blocked w.state ])
        (any_blocked waits is) h)
      k
  where
    right : (b d : Bool) → (b || d) ≡ false → d ≡ false
    right b d h = ground arith

give_back-GivesAt : (a : ℕ) (x : Attempt) (c : Coordinator) → GivesAt (give_back a x c) a
unfolding give_back
give_back-GivesAt a x c = by_lease x.leased
  where
    given : Coordinator
    given = at_attempt a (λ y. record y { permit = Permit.released }) c

    let_go : GivesAt given a
    let_go y there held going i j =
        elim (modify-cases a a (λ y. record y { permit = Permit.released }) c.attempts there) [
          | inl (_, z, _, e) ↦ cc (sym held ∙ ap (λ w. is_held w.permit) e)
          | inr (ne, _) ↦ absurd (ne refl)
        ]

    by_lease :
        (t : Bool)
        → GivesAt
            (if t
              then at_calls (λ e. record e { releases = e.releases ++ a ∷ [] }) given
              else given)
            a
    by_lease true = let_go
    by_lease false = let_go

only_waiting : (b t d : Bool) → b ≡ true → t ≡ false → (b && not t && d) ≡ false → d ≡ false
only_waiting b t d h k l = ground arith

-- What gives its permit back if it waits, does not hold it and wait.
pub give_back_if_waiting-GivesAt : (a : ℕ) (c : Coordinator) → GivesAt (give_back_if_waiting a c) a
unfolding give_back_if_waiting
give_back_if_waiting-GivesAt a c = by_found (get_elem? c.attempts a) refl
  where
    by_test :
        (x : Attempt) (t : Bool)
        → get_elem? c.attempts a ≡ some x
        → (is_held x.permit && not x.stopping && any_blocked c.waits x.waits_by_me) ≡ t
        → GivesAt (if t then give_back a x c else c) a
    by_test x true found e = give_back-GivesAt a x c
    by_test x false found e = λ y there held going i j.
        let same : x ≡ y = some_value (sym found ∙ there) in
        any_blocked-In c.waits y.waits_by_me i
          (only_waiting (is_held y.permit) y.stopping (any_blocked c.waits y.waits_by_me) held going
            (subst
              (λ w.
                (is_held w.permit && not w.stopping && any_blocked c.waits w.waits_by_me) ≡ false)
              same e))
          j

    by_found :
        (o : Option Attempt)
        → get_elem? c.attempts a ≡ o
        → (let d : Coordinator = elim o [
          | none ↦ c
          | some x ↦
              if is_held x.permit && not x.stopping && any_blocked c.waits x.waits_by_me
              then give_back a x c
              else c
        ] in
            GivesAt d a)
    by_found none missing = λ y there. cc (sym missing ∙ there)
    by_found (some x) found =
        by_test x (is_held x.permit && not x.stopping && any_blocked c.waits x.waits_by_me) found
          refl

pub block-GivesAt : (a : ℕ) (c : Coordinator) → GivesAt (block a c) a
unfolding block
block-GivesAt a c = by_found (get_elem? c.attempts a) refl
  where
    by_test :
        (x : Attempt) (t : Bool)
        → get_elem? c.attempts a ≡ some x
        → is_held x.permit ≡ t
        → GivesAt (if t then give_back a x c else c) a
    by_test x true found e = give_back-GivesAt a x c
    by_test x false found e = λ y there held going i j.
        cc (sym held ∙ ap (λ w. is_held w.permit) (some_value (sym there ∙ found)) ∙ e)

    by_found :
        (o : Option Attempt)
        → get_elem? c.attempts a ≡ o
        → (let d : Coordinator = elim o [
          | none ↦ c
          | some x ↦ if is_held x.permit then give_back a x c else c
        ] in
            GivesAt d a)
    by_found none missing = λ y there. cc (sym missing ∙ there)
    by_found (some x) found = by_test x (is_held x.permit) found refl
