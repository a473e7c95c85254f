-- ===== src/Coordinator/Hurry.antt =====
-- `hurry`. Its fuel is more than the attempts it may look at: the first, and one for each edge.
pub mod Spreads
use makebelieve.Base.{
  ℕ, zero, suc, ◌+◌, ◌-◌, ◌*◌, ◌%◌, ◌^◌, ◌≤◌, ◌<◌, ◌≡◌, refl, sym, ap, subst, ◌∙◌, ◌≢◌, ◌↔◌, ◌⊎◌,
  inl, inr, Bool, true, false, not, ◌&&◌, ◌||◌, Option, none, some, List, [], ◌∷◌, ◌++◌, map,
  reverse, arith, ltb, leb, nat_eq, if◌then◌else◌, nat_eq_iff, ltb→lt, lt→ltb, Bool-cases,
  Option-cases, and_left, and_right, or_right, length, get_elem?, modify, length-modify,
  modify_self, modify-none, modify_other, take, drop, find_if, any_of, all_of, keep, All, In,
  AllPairs, length-append, take-append, drop-append, All-append, All-keep, All-map, AllPairs-keep,
  AllPairs-concat, HasTest, ◌==◌, ℕ-HasTest, List-HasTest, list_eq, eq_iff, eq_self, eq_cases,
  Result, ok, err, ◌>>=◌, ◌>>◌, reject_if, ok_steps, reject_if-eq-ok, after_check, ok-injective,
  ne_test,
}
use makebelieve.Coordinator.{Attempt, Effects, Coordinator, at_attempt, at_calls, nexts}

abbrev pub mark : ℕ → Coordinator → Coordinator
mark a c =
    let b = at_attempt a (λ x. record x { hurried = true }) c in
    if c.can_promote then at_calls (λ e. record e { promotions = e.promotions ++ a ∷ [] }) b else b

abbrev pub push_all : List ℕ → List ℕ → List ℕ
push_all [] stack = stack
push_all (b ∷ bs) stack = push_all bs (b ∷ stack)

unfoldable pub hurry_from : ℕ → List ℕ → Coordinator → Coordinator
hurry_from zero stack c = c
hurry_from (suc fuel) [] c = c
hurry_from (suc fuel) (a ∷ stack) c = elim (get_elem? c.attempts a) [
  | none ↦ hurry_from fuel stack c
  | some x ↦ elim x.hurried [
    | true ↦ hurry_from fuel stack c
    | false ↦ hurry_from fuel (push_all (nexts x) stack) (mark a c)
  ]
]

pub edges_of : List Attempt → ℕ
edges_of [] = 0
edges_of (x ∷ xs) = suc (length (nexts x)) + edges_of xs

unfoldable pub hurry : ℕ → Coordinator → Coordinator
unfolding hurry_from edges_of
hurry a c = hurry_from (suc (suc (edges_of c.attempts))) (a ∷ []) c
