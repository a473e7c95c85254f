-- ===== src/Coordinator/Search/Ends.antt =====
-- How the search ends.
use makebelieve.Base.{
  ℕ, zero, suc, ◌+◌, ◌≤◌, ◌<◌, ◌≡◌, refl, sym, ap, subst, ◌∙◌, inl, inr, true, false, ◌||◌, Option,
  none, some, List, [], ◌∷◌, arith, if◌then◌else◌, Bool-cases, length, In, ℕ-HasTest, List-HasTest,
  eq_self, eq_cases, ne_test,
}
use makebelieve.Coordinator.{Coordinator, nexts_at, Edge, Leads}
use makebelieve.Coordinator.Search.{
  Parents, seen, visit, visit_all, chain, search, or_none, path_to,
}
use makebelieve.Coordinator.Search.Found.{Closed, search-nil}

-- The attempts waited on are there.
abbrev pub IsBounded : Coordinator → Type 0
IsBounded c = (a b : ℕ) → Edge c a b → b < length c.attempts

-- How many attempts are not seen.
unseen : ℕ → Parents → ℕ
unseen zero parents = 0
unseen (suc n) parents = (if seen n parents then 0 else 1) + unseen n parents

unseen_more :
    (n a : ℕ) (p : Option ℕ) (parents : Parents)
    → n ≤ a
    → unseen n ((a, p) ∷ parents) ≡ unseen n parents
unfolding unseen
unseen_more zero a p parents h = refl
unseen_more (suc n) a p parents h = ground (arith, unseen_more n a p parents, ne_test a n)

unseen_less :
    (n a : ℕ) (p : Option ℕ) (parents : Parents)
    → a < n
    → seen a parents ≡ false
    → suc (unseen n ((a, p) ∷ parents)) ≡ unseen n parents
unfolding unseen
unseen_less zero a p parents h s = absurd (omega arith)
unseen_less (suc n) a p parents h s = elim (eq_cases a n) [
  | inl (e, t) ↦
      let unseen_n : seen n parents ≡ false = subst (λ x. seen x parents ≡ false) e s in
      rw (t, unseen_n) (omega (arith, unseen_more n a p parents (omega (arith, e))))
  | inr (ne, t) ↦ rw t (omega (arith, unseen_less n a p parents (omega (arith, ne)) s))
]

visit_work :
    (n node b : ℕ) (s : Parents × List ℕ)
    → b < n
    → unseen n (visit node b s).0 + length (visit node b s).1 ≡ unseen n s.0 + length s.1
visit_work n node b s h = elim (Bool-cases (seen b s.0)) [
  | inl t ↦ rw t refl
  | inr t ↦ rw t (omega (arith, unseen_less n b (some node) s.0 h t))
]

visit_all_work :
    (n node : ℕ) (ns : List ℕ) (s : Parents × List ℕ)
    → ((b : ℕ) → In b ns → b < n)
    → unseen n (visit_all node ns s).0 + length (visit_all node ns s).1 ≡ unseen n s.0 + length s.1
unfolding visit_all
visit_all_work n node [] s h = refl
visit_all_work n node (b ∷ ns) s h =
    visit_all_work n node ns (visit node b s) (λ x i. h x (inr i))
    ∙ visit_work n node b s (h b (inl refl))

search_ends :
    (fuel : ℕ) (c : Coordinator) (to : ℕ) (parents : Parents) (stack : List ℕ)
    → IsBounded c
    → unseen (length c.attempts) parents + length stack < fuel
    → (path : List ℕ) × (search fuel c to parents stack ≡ some path)
unfolding search
search_ends zero c to parents stack k h = absurd (omega arith)
search_ends (suc fuel) c to parents [] k h = ([], refl)
search_ends (suc fuel) c to parents (node ∷ stack) k h = elim (eq_cases node to) [
  | inl (_, t) ↦ (chain (suc (length parents)) parents node, rw (t, search) refl)
  | inr (_, t) ↦
      let (path, e) =
        search_ends fuel c to (visit_all node (nexts_at c node) (parents, stack)).0
          (visit_all node (nexts_at c node) (parents, stack)).1 k
          (omega (
            arith,
            h,
            visit_all_work (length c.attempts) node (nexts_at c node) (parents, stack) (k node),
          )) in
      (path, rw (t, search) e)
]

unseen-le : (n : ℕ) (parents : Parents) → unseen n parents ≤ n
unfolding unseen
unseen-le zero parents = omega arith
unseen-le (suc n) parents = ground (arith, unseen-le n parents)

start-Closed : (c : Coordinator) (from to : ℕ) → Closed c to ((from, none) ∷ []) (from ∷ [])
start-Closed c from to = record {
  settled = λ a h. elim (eq_cases from a) [
    | inl (e, _) ↦ inl (inl (sym e))
    | inr (_, t) ↦ cc (subst (λ y. (y || false) ≡ true) t h)
  ];
}

-- While every attempt waited on is in the store, the search comes to an end within the steps it is
-- given, `path_to` gives the path it ends with, and that path is empty only where the first attempt does
-- not lead to the last.
pub path_to_ends :
    (c : Coordinator) (from to : ℕ)
    → IsBounded c
    → (path : List ℕ) × (search (suc (suc (length c.attempts))) c to ((from, none) ∷ []) (from ∷ [])
        ≡ some path)
      × (path_to c from to ≡ path)
      × (path ≡ [] → ¬ Leads c from to)
unfolding path_to
path_to_ends c from to k =
    let (path, e) =
      search_ends (suc (suc (length c.attempts))) c to ((from, none) ∷ []) (from ∷ []) k
        (omega (arith, unseen-le (length c.attempts) ((from, none) ∷ []))) in
    (
      path,
      e,
      ap or_none e,
      λ empty.
          search-nil (suc (suc (length c.attempts))) c to ((from, none) ∷ []) (from ∷ []) from
            (start-Closed c from to) (ground (arith, eq_self from)) (e ∙ ap some empty),
    )

pub path_to-nil :
    (c : Coordinator) (from to : ℕ) → IsBounded c → path_to c from to ≡ [] → ¬ Leads c from to
path_to-nil c from to k h =
    let (path, _, same, none_found) = path_to_ends c from to k in none_found (sym same ∙ h)
