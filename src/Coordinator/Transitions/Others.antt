-- ===== src/Coordinator/Transitions/Others.antt =====
-- The transitions that change a phase or may give a permit.
use makebelieve.Base.{ℕ, refl, Bool, true, false, if◌then◌else◌, ℕ-HasTest, List-HasTest}
use makebelieve.Coordinator.{Phase, Permit, Coordinator, at_attempt}
use makebelieve.Coordinator.Transitions.{
  give_back_if_waiting, each, answer_ready, reacquired, drain_end, on_reacquired, cancel_waits_of,
  permitted, on_permit, ended_at, drain_later, drain_now, finish,
}
use makebelieve.Coordinator.Transitions.Shrinks.{
  Shrinks, Shrinks_trans, at_attempt-Shrinks, elsewhere, keeps-Shrinks, on_attempt-Shrinks,
  if-Shrinks, fewer,
}
use makebelieve.Coordinator.Transitions.Steady.{each-Steady}
use makebelieve.Coordinator.Transitions.Preserved.{
  answer_ready-Steady, give_back_if_waiting-Steady, drain_end-Steady, cancel_waits_of-Steady,
}

pub on_reacquired-Shrinks :
    (a : ℕ) (granted : Bool) (c : Coordinator) → Shrinks c (on_reacquired a granted c)
unfolding on_reacquired
on_reacquired-Shrinks a granted c = on_attempt-Shrinks a (reacquired a granted) c λ x.
    let b =
      at_attempt a
        (λ y. record y {
          reacquire_outstanding = false;
          permit = if granted then Permit.held else Permit.released;
        })
        c in
    let d = each (answer_ready granted x.stopping) x.waits_by_me b in
    let e = give_back_if_waiting a d in
    let to_e : Shrinks c e =
      Shrinks_trans
        (keeps-Shrinks a
          (λ y. record y {
            reacquire_outstanding = false;
            permit = if granted then Permit.held else Permit.released;
          })
          c (λ y. refl) (λ y. refl))
        (Shrinks_trans
          (each-Steady (answer_ready granted x.stopping) x.waits_by_me b
            (answer_ready-Steady granted x.stopping)).shrinks
          (give_back_if_waiting-Steady a d).shrinks) in
    if-Shrinks x.draining c (drain_end a e) e (Shrinks_trans to_e (drain_end-Steady a e).shrinks)
      to_e

pub on_permit-Shrinks : (a : ℕ) (c : Coordinator) → Shrinks c (on_permit a c)
unfolding on_permit
on_permit-Shrinks a c = on_attempt-Shrinks a (permitted a) c λ x. elsewhere (permitted a x c) refl (
    at_attempt-Shrinks a
      (λ y. record y { phase = Phase.running; permit = Permit.held; leased = true }) c (λ x. refl)
      fewer)

pub finish-Shrinks : (a : ℕ) (c : Coordinator) → Shrinks c (finish a c)
unfolding finish
finish-Shrinks a c =
    on_attempt-Shrinks a
      (λ x b.
        let d = cancel_waits_of a (ended_at a x b) in
        if x.reacquire_outstanding then drain_later a d else drain_now a d)
      c
      λ x.
        let d = cancel_waits_of a (ended_at a x c) in
        let to_d : Shrinks c d =
          Shrinks_trans
            (elsewhere (ended_at a x c) refl (
              at_attempt-Shrinks a (λ y. record y { phase = Phase.ended; stopping = true }) c
                (λ x. refl) fewer))
            (cancel_waits_of-Steady a (ended_at a x c)).shrinks in
        if-Shrinks x.reacquire_outstanding c (drain_later a d) (drain_now a d)
          (Shrinks_trans to_d (
            elsewhere (drain_later a d) refl
              (keeps-Shrinks a (λ y. record y { draining = true }) d (λ y. refl) (λ y. refl))))
          (elsewhere (drain_now a d) refl to_d)
