-- ===== src/Coordinator/Requests/Deadlock.antt =====
-- When a request is answered with `dependency_cycle`.
use makebelieve.Base.{
  ℕ, ◌≡◌, refl, sym, subst, ◌↔◌, inl, false, none, some, List, [], ◌∷◌, get_elem?, In, ℕ-HasTest,
  List-HasTest,
}
use makebelieve.Paths.{FilePath}
use makebelieve.Coordinator.{dependency_cycle, Coordinator, Leads}
use makebelieve.Coordinator.Search.{path_to}
use makebelieve.Coordinator.Search.Ends.{IsBounded, path_to-nil}
use makebelieve.Coordinator.Search.Cycle.{path_to-Leads}
use makebelieve.Coordinator.Requests.{Waited, requester_of, is_stopping, wait_on, result_at, wait}
use makebelieve.Coordinator.Requests.Acyclic.{Leads-trans}

wait_on_iff :
    (target r : ℕ) (c : Coordinator)
    → IsBounded c
    → ((wait_on target (some r) (path_to c target r) c).0 ≡ Waited.returns dependency_cycle)
      ↔ Leads c target r
wait_on_iff target r c k = by_path (path_to c target r) refl
  where
    by_path :
        (path : List ℕ)
        → path_to c target r ≡ path
        → ((wait_on target (some r) path c).0 ≡ Waited.returns dependency_cycle) ↔ Leads c target r
    by_path [] e = (λ never. cc never, λ l. absurd (path_to-nil c target r k e l))
    by_path (a ∷ cycle) e =
        let (before, after) = path_to-Leads c target r a (subst (In a) (sym e) (inl refl)) in
        (λ _. Leads-trans before after, λ l. refl)

-- While every attempt waited on is in the store, a request that is not stopped already, from an
-- attempt that is running and not stopping, for an attempt that has no result, returns
-- `dependency_cycle` exactly when a chain of attempts leads from the one it asks for to its own.
pub wait-dependency_cycle :
    (target r : ℕ) (output : FilePath) (c : Coordinator)
    → IsBounded c
    → result_at (get_elem? c.attempts target) ≡ none
    → requester_of c (some output) ≡ some r
    → is_stopping (get_elem? c.attempts r) ≡ false
    → ((wait false target (some output) c).0 ≡ Waited.returns dependency_cycle) ↔ Leads c target r
unfolding wait
wait-dependency_cycle target r output c k unfinished found going =
    rw (unfinished, found, going) (wait_on_iff target r c k)
