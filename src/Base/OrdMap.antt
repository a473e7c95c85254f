-- ===== src/Base/OrdMap.antt =====
-- `std::map`: an association list, kept in the order of its keys.
use mathlib.Core.Path.{◌≡◌, refl}
use mathlib.Core.Logic.{◌≢◌}
use mathlib.Core.Bool.{Bool}
use mathlib.Core.List.{List, [], ◌∷◌}
use mathlib.Core.Option.{Option, none, some}
use native.Mathlib.Omega.{arith}
use makebelieve.Base.Tests.{if◌then◌else◌}
use makebelieve.Base.Equality.{HasTest, ◌==◌, eq_iff, eq_self, ne_test}

-- The order that the map sorts by; no law of it is needed.
pub record Order {ℓ} (K : Type ℓ) : Type ℓ where
  pub before : K → K → Bool

module _ {ℓ κ} {K : Type ℓ} {V : Type κ} ⦃e : HasTest K⦄ where
  unfoldable pub find : K → List (K × V) → Option V
  find k [] = none
  find k ((j, v) ∷ m) = if j == k then some v else find k m

  -- `erase(key)`.
  unfoldable pub erase : K → List (K × V) → List (K × V)
  erase k [] = []
  erase k ((j, v) ∷ m) = let rest = erase k m in if j == k then rest else (j, v) ∷ rest

  pub find-erase :
      (k j : K) (m : List (K × V)) → find j (erase k m) ≡ (if k == j then none else find j m)
  unfolding find erase
  find-erase k j [] = ground arith
  find-erase k j ((i, v) ∷ m) = ground (arith, find-erase k j m, eq_iff i k, eq_iff i j, eq_iff k j)

module _ {ℓ κ} {K : Type ℓ} {V : Type κ} ⦃e : HasTest K⦄ ⦃o : Order K⦄ where
  insert_new : K → V → List (K × V) → List (K × V)
  insert_new k v [] = (k, v) ∷ []
  insert_new k v ((j, w) ∷ m) =
      if o.before k j then (k, v) ∷ (j, w) ∷ m else (j, w) ∷ insert_new k v m

  replace_old : K → V → List (K × V) → List (K × V)
  replace_old k v [] = []
  replace_old k v ((j, w) ∷ m) = if j == k then (j, v) ∷ m else (j, w) ∷ replace_old k v m

  -- `emplace`: an entry already there stays as it is.
  unfoldable pub emplace : K → V → List (K × V) → List (K × V)
  unfolding find insert_new
  emplace k v m = elim (find k m) [ none ↦ insert_new k v m | some w ↦ m ]

  -- `insert_or_assign`, and assignment through `operator[]`.
  unfoldable pub assign : K → V → List (K × V) → List (K × V)
  unfolding find insert_new replace_old
  assign k v m = elim (find k m) [ none ↦ insert_new k v m | some w ↦ replace_old k v m ]

  find-insert_new :
      (k j : K) (v : V) (m : List (K × V))
      → find k m ≡ none
      → find j (insert_new k v m) ≡ (if k == j then some v else find j m)
  unfolding find insert_new
  find-insert_new k j v [] h = refl
  find-insert_new k j v ((i, w) ∷ m) h =
      ground (arith, find-insert_new k j v m, eq_iff i k, eq_iff i j, eq_iff k j)

  find-replace_old :
      (k j : K) (v w : V) (m : List (K × V))
      → find k m ≡ some w
      → find j (replace_old k v m) ≡ (if k == j then some v else find j m)
  unfolding find replace_old
  find-replace_old k j v w [] h = cc
  find-replace_old k j v w ((i, u) ∷ m) h =
      ground (arith, find-replace_old k j v w m, eq_iff i k, eq_iff i j, eq_iff k j)

  pub find-assign :
      (k j : K) (v : V) (m : List (K × V))
      → find j (assign k v m) ≡ (if k == j then some v else find j m)
  unfolding assign
  find-assign k j v m = go (find k m) refl
    where
      go :
          (r : Option V)
          → find k m ≡ r
          → find j (elim r [ none ↦ insert_new k v m | some w ↦ replace_old k v m ])
            ≡ (if k == j then some v else find j m)
      go none h = find-insert_new k j v m h
      go (some w) h = find-replace_old k j v w m h

  pub find-emplace :
      (k j : K) (v : V) (m : List (K × V))
      → find k m ≡ none
      → find j (emplace k v m) ≡ (if k == j then some v else find j m)
  unfolding emplace
  find-emplace k j v m h = rw (h, emplace) (find-insert_new k j v m h)

  pub emplace_old : (k : K) (v w : V) (m : List (K × V)) → find k m ≡ some w → emplace k v m ≡ m
  unfolding emplace
  emplace_old k v w m h = rw (h, emplace)

  pub find_same : (k : K) (v : V) (m : List (K × V)) → find k (assign k v m) ≡ some v
  find_same k v m = rw (find-assign k k v m, eq_self k)

  pub find_other : (k j : K) (v : V) (m : List (K × V)) → k ≢ j → find j (assign k v m) ≡ find j m
  find_other k j v m ne = rw (find-assign k j v m, ne_test k j ne)
