-- ===== src/Manifest/Finite.antt =====
-- No chain of wildcards in a manifest leads back to its own start.
use makebelieve.Base.{
  ℕ, zero, suc, ◌+◌, ◌<◌, ◌≡◌, refl, sym, ap, subst, ◌∙◌, inl, inr, Bool, true, false, some, List,
  [], ◌∷◌, ◌++◌, arith, Bool-cases, or_right, length, get_elem?, any_of, In, ◌==◌, ℕ-HasTest,
  List-HasTest, eq_self,
}
use makebelieve.Text.{Bytes}
use makebelieve.Manifest.Feeds.{feeds_directly, direct_feeds, close}
use makebelieve.Manifest.Feeds.Matrix.{Table, at, IsSquare, at-tabulate, tabulate-IsSquare}
use makebelieve.Manifest.Feeds.Closure.{Chain, link, onward, close_iff}
use makebelieve.Manifest.Parse.{read_all, feeding, dropped_rules, erase_dropped, finish, parse}
use makebelieve.Manifest.{Rule}

-- A chain of rules of the list, each of which can produce something that the next matches.
pub data FeedChain (rules : List Rule) : Rule → Rule → Type 0 where
  feeds : {r t : Rule} → In r rules → In t rules → feeds_directly r t ≡ true → FeedChain rules r t
  through :
      {r s t : Rule}
      → In r rules
      → In s rules
      → feeds_directly r s ≡ true
      → FeedChain rules s t
      → FeedChain rules r t

abbrev At : List Rule → ℕ → Rule → Type 0
At rules k r = get_elem? rules k ≡ some r

In-At : (r : Rule) (rules : List Rule) → In r rules → (k : ℕ) × At rules k r
In-At r [] h = absurd h
In-At r (t ∷ rules) (inl e) = (0, ap some (sym e))
In-At r (t ∷ rules) (inr h) = let (k, e) = In-At r rules h in (suc k, e)

At-length : (rules : List Rule) (k : ℕ) (r : Rule) → At rules k r → k < length rules
At-length [] k r h = cc
At-length (t ∷ rules) zero r h = omega arith
At-length (t ∷ rules) (suc k) r h = omega (arith, At-length rules k r h)

direct_at :
    (rules : List Rule) (a b : ℕ) (r t : Rule)
    → At rules a r
    → At rules b t
    → feeds_directly r t ≡ true
    → at (direct_feeds rules) a b ≡ true
unfolding direct_feeds
direct_at rules a b r t h k e = at-tabulate feeds_directly rules rules a b r t h k ∙ e

direct_feeds-IsSquare : (rules : List Rule) → IsSquare (length rules) (direct_feeds rules)
unfolding direct_feeds
direct_feeds-IsSquare rules = tabulate-IsSquare feeds_directly rules rules

indexed-Chain :
    (all rules : List Rule)
    → ((r : Rule) → In r rules → In r all)
    → {r t : Rule} → FeedChain rules r t
    → (a b : ℕ) → At all a r
    → At all b t
    → Chain (direct_feeds all) a b
indexed-Chain all rules sub (feeds _ _ e) a b h k = link (direct_at all a b _ _ h k e)
indexed-Chain all rules sub (through {s = s} _ m e c) a b h k =
    let (i, j) = In-At s all (sub s m) in
    onward (direct_at all a i _ s h j e) (indexed-Chain all rules sub c i b j k)

-- An entry left is one whose index is not dropped.
surviving_index :
    (dropped : ℕ → Bool) (i : ℕ) (rules : List Rule) (r : Rule)
    → In r (erase_dropped dropped i rules)
    → (k : ℕ) × At rules k r × (dropped (i + k) ≡ false)
unfolding erase_dropped
surviving_index dropped i [] r h = absurd h
surviving_index dropped i (t ∷ rules) r h = elim (Bool-cases (dropped i)) [
  | inl e ↦ later (surviving_index dropped (suc i) rules r (rw e at h))
  | inr e ↦ first_or (rw e at h) (surviving_index dropped (suc i) rules r) e
]
  where
    later :
        (k : ℕ) × At rules k r × (dropped (suc i + k) ≡ false)
        → (k : ℕ) × At (t ∷ rules) k r × (dropped (i + k) ≡ false)
    later (k, h, e) = (suc k, h, subst (λ x. dropped x ≡ false) (omega arith) e)

    first_or :
        In r (t ∷ erase_dropped dropped (suc i) rules)
        → (In r (erase_dropped dropped (suc i) rules)
            → (k : ℕ) × At rules k r × (dropped (suc i + k) ≡ false))
        → dropped i ≡ false
        → (k : ℕ) × At (t ∷ rules) k r × (dropped (i + k) ≡ false)
    first_or (inl p) f e = (0, ap some (sym p), subst (λ x. dropped x ≡ false) (omega arith) e)
    first_or (inr m) f e = later (f m)

At-In : (rules : List Rule) (k : ℕ) (r : Rule) → At rules k r → In r rules
At-In [] k r h = cc
At-In (t ∷ rules) zero r h = inl (ground arith)
At-In (t ∷ rules) (suc k) r h = inr (At-In rules k r h)

any_of-append : (p : ℕ → Bool) (xs ys : List ℕ) → any_of p ys ≡ true → any_of p (xs ++ ys) ≡ true
any_of-append p [] ys h = h
any_of-append p (x ∷ xs) ys h = or_right (p x) _ (any_of-append p xs ys h)

listed_feeding :
    (m : Table) (i j : ℕ) (rules : List Rule) (k : ℕ) (r : Rule)
    → i + k ≡ j
    → At rules k r
    → at m j j ≡ true
    → any_of (λ x. x == j) (feeding m i rules) ≡ true
unfolding feeding
listed_feeding m i j [] k r e h a = cc
listed_feeding m i j (t ∷ rules) zero r e h a =
    let same : i ≡ j = omega arith in rw (same, a, eq_self j) refl
listed_feeding m i j (t ∷ rules) (suc k) r e h a =
    let rest = listed_feeding m (suc i) j rules k r (omega arith) h a in
    elim (Bool-cases (at m i i)) [ inl b ↦ rw b (or_right (i == j) _ rest) | inr b ↦ rw b rest ]

-- In a parsed manifest no wildcard can produce its own sources, directly or through others.
pub parse_finite :
    (text : Bytes) (r : Rule) → In r (parse text).rules → ¬ FeedChain (parse text).rules r r
unfolding parse finish dropped_rules
parse_finite text r m c =
    let all = (read_all text).rules in
    let sub = λ (t : Rule) (h : In t (parse text).rules).
      let (j, f, _) = surviving_index _ 0 all t h in At-In all j t f in
    let (k, e, kept) = surviving_index _ 0 all r m in
    let n = length all in
    let same : 0 + k ≡ k = omega arith in
    let closed : at (close n (direct_feeds all)) k k ≡ true =
      (close_iff n (direct_feeds all) k k (direct_feeds-IsSquare all) (At-length all k r e)
          (At-length all k r e)).1
        (indexed-Chain all _ sub c k k e e) in
    cc (
      any_of-append (λ x. x == k) _ _
          (listed_feeding (close n (direct_feeds all)) 0 k all k r (omega arith) e closed),
      subst (λ x. any_of (λ y. y == x) (dropped_rules (read_all text)) ≡ false) same kept,
    )
