-- ===== src/LinkedNode.antt =====
-- src/linkednode.hpp: the links of intrusive circular lists. A node is known by its address, and the
-- store holds the links of all nodes.
mod Tests
use makebelieve.Base.{
  ℕ, zero, suc, ◌+◌, ◌-◌, ◌*◌, ◌%◌, ◌^◌, ◌≤◌, ◌<◌, ◌≡◌, refl, sym, ap, subst, ◌∙◌, ◌≢◌, ◌↔◌, ◌⊎◌,
  inl, inr, Bool, true, false, not, ◌&&◌, ◌||◌, Option, none, some, List, [], ◌∷◌, ◌++◌, map,
  reverse, arith, ltb, leb, nat_eq, if◌then◌else◌, nat_eq_iff, ltb→lt, lt→ltb, Bool-cases,
  Option-cases, and_left, and_right, or_right, length, get_elem?, take, drop, find_if, any_of,
  all_of, keep, All, In, AllPairs, length-append, take-append, drop-append, All-append, All-keep,
  All-map, AllPairs-keep, AllPairs-concat, HasTest, ◌==◌, ℕ-HasTest, List-HasTest, list_eq, eq_iff,
  eq_self, eq_cases, Result, ok, err, ◌>>=◌, ◌>>◌, reject_if, ok_steps, reject_if-eq-ok,
  after_check, ok-injective, ne_test,
}

pub record Links : Type 0 where
  pub prev : ℕ → ℕ
  pub next : ℕ → ℕ

abbrev set : (ℕ → ℕ) → ℕ → ℕ → ℕ → ℕ
set f n v m = if m == n then v else f m

abbrev set_prev : ℕ → ℕ → Links → Links
set_prev n v l = record l { prev = set l.prev n v }

abbrev set_next : ℕ → ℕ → Links → Links
set_next n v l = record l { next = set l.next n v }

unfoldable pub alone : Links → ℕ → Bool
alone l n = l.next n == n

-- The four assignments, in their order.
unfoldable pub insert_before : Links → ℕ → ℕ → Links
insert_before l position node =
    let a = set_prev node (l.prev position) l in
    let b = set_next node position a in
    let c = set_next (b.prev position) node b in set_prev position node c

unfoldable pub remove : Links → ℕ → Links
remove l node =
    let a = set_next (l.prev node) (l.next node) l in
    let b = set_prev (a.next node) (a.prev node) a in
    let c = set_prev node node b in set_next node node c

-- Going back and forth along a link leads where it began.
pub record IsLinked (l : Links) : Type 0 where
  pub forth : (n : ℕ) → l.next (l.prev n) ≡ n
  pub back : (n : ℕ) → l.prev (l.next n) ≡ n

-- Removing a node from well-linked lists leaves them so, and the node alone.
pub remove-IsLinked :
    (l : Links) (node : ℕ)
    → IsLinked l
    → IsLinked (remove l node) × (alone (remove l node) node ≡ true)
unfolding remove alone
remove-IsLinked l node k = (
  record {
    forth = λ n. ground (arith, k.forth n, k.back n, k.forth node, k.back node, eq_iff n node);
    back = λ n. ground (arith, k.forth n, k.back n, k.forth node, k.back node);
  },
  rw (eq_self node) (eq_self node),
)

-- A node that is alone, put before another in well-linked lists, leaves them so and stands between
-- the other and what was before it; and removing it again gives the links there were.
pub insert_before-remove :
    (l : Links) (position node : ℕ)
    → IsLinked l
    → alone l node ≡ true
    → position ≢ node
    → IsLinked (insert_before l position node)
      × ((insert_before l position node).prev position ≡ node)
      × ((insert_before l position node).prev node ≡ l.prev position)
      × ((n : ℕ)
          → ((remove (insert_before l position node) node).next n ≡ l.next n)
            × ((remove (insert_before l position node) node).prev n ≡ l.prev n))
unfolding remove alone insert_before
insert_before-remove l position node k h ne = (
  record {
    forth = λ n.
        ground (
          arith,
          k.forth n,
          k.back n,
          k.forth node,
          k.back node,
          k.forth position,
          k.back position,
        );
    back = λ n.
        ground (
          arith,
          k.forth n,
          k.back n,
          k.forth node,
          k.back node,
          k.forth position,
          k.back position,
        );
  },
  ground arith,
  ground arith,
  λ n. (
    ground
        (arith, k.forth n, k.back n, k.forth node, k.back node, k.forth position, k.back position),
    ground
        (arith, k.forth n, k.back n, k.forth node, k.back node, k.forth position, k.back position),
  ),
)
