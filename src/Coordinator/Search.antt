-- ===== src/Coordinator/Search.antt =====
-- `path_to`: the search for a chain of attempts. Its fuel is two more than there are attempts, as each
-- is looked at once and the last round finds the stack empty.
pub mod Found
pub mod Cycle
pub mod Ends
use makebelieve.Base.{
  ℕ, zero, suc, ◌+◌, ◌-◌, ◌*◌, ◌%◌, ◌^◌, ◌≤◌, ◌<◌, ◌≡◌, refl, sym, ap, subst, ◌∙◌, ◌≢◌, ◌↔◌, ◌⊎◌,
  inl, inr, Bool, true, false, not, ◌&&◌, ◌||◌, Option, none, some, List, [], ◌∷◌, ◌++◌, map,
  reverse, arith, ltb, leb, nat_eq, if◌then◌else◌, nat_eq_iff, ltb→lt, lt→ltb, Bool-cases,
  Option-cases, and_left, and_right, or_right, length, get_elem?, modify, length-modify,
  modify_self, modify-none, modify_other, take, drop, find_if, any_of, all_of, keep, All, In,
  AllPairs, length-append, take-append, drop-append, All-append, All-keep, All-map, AllPairs-keep,
  AllPairs-concat, HasTest, ◌==◌, ℕ-HasTest, List-HasTest, list_eq, eq_iff, eq_self, eq_cases,
  Result, ok, err, ◌>>=◌, ◌>>◌, reject_if, ok_steps, reject_if-eq-ok, after_check, ok-injective,
  ne_test,
}
use makebelieve.Base.OrdMap
use makebelieve.Coordinator.{Coordinator, Attempt, nexts_at}

-- `parent`: each attempt seen, with the one it was seen from.
abbrev pub Parents : Type 0
Parents = List (ℕ × Option ℕ)

abbrev pub seen : ℕ → Parents → Bool
seen a parents = any_of (λ e. e.0 == a) parents

abbrev visit : ℕ → ℕ → Parents × List ℕ → Parents × List ℕ
visit node next s = if seen next s.0 then s else ((next, some node) ∷ s.0, next ∷ s.1)

pub visit_all : ℕ → List ℕ → Parents × List ℕ → Parents × List ℕ
visit_all node [] s = s
visit_all node (next ∷ rest) s = visit_all node rest (visit node next s)

-- The loop over `parent[it]`.
pub chain : ℕ → Parents → ℕ → List ℕ
unfolding OrdMap.find
chain zero parents it = []
chain (suc fuel) parents it = it ∷ elim (OrdMap.find it parents) [
  | none ↦ []
  | some none ↦ []
  | some (some before) ↦ chain fuel parents before
]

pub search : ℕ → Coordinator → ℕ → Parents → List ℕ → Option (List ℕ)
unfolding visit_all chain
search zero c to parents stack = none
search (suc fuel) c to parents [] = some []
search (suc fuel) c to parents (node ∷ stack) = elim (node == to) [
  | true ↦ some (chain (suc (length parents)) parents node)
  | false ↦ let s = visit_all node (nexts_at c node) (parents, stack) in search fuel c to s.0 s.1
]

-- A search out of fuel is taken for one with no path; `Search.Ends` is about the fuel here.
abbrev or_none : Option (List ℕ) → List ℕ
or_none none = []
or_none (some path) = path

unfoldable pub path_to : Coordinator → ℕ → ℕ → List ℕ
unfolding search
path_to c from to =
    or_none (search (suc (suc (length c.attempts))) c to ((from, none) ∷ []) (from ∷ []))
