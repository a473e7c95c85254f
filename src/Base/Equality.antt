-- ===== src/Base/Equality.antt =====
-- Types with a Boolean equality test: numbers, and lists of what has one.
use Prim.Native.Nat.{ℕ}
use mathlib.Core.Path.{◌≡◌, refl}
use mathlib.Core.Logic.{◌↔◌, ◌≢◌, ◌⊎◌, inl, inr}
use mathlib.Core.Bool.{Bool, true, false, ◌&&◌}
use mathlib.Core.List.{List, [], ◌∷◌}
use native.Mathlib.Omega.{arith}
use makebelieve.Base.Tests.{nat_eq, nat_eq_iff, Bool-cases}

-- A Boolean test that decides equality.
pub record HasTest {ℓ} (T : Type ℓ) : Type ℓ where
  pub same : T → T → Bool
  pub same_iff : (x y : T) → (same x y ≡ true) ↔ (x ≡ y)

instance abbrev pub ℕ-HasTest : HasTest ℕ
ℕ-HasTest = record { same = nat_eq; same_iff = nat_eq_iff }

-- The test, whatever the type.
infix 50 ◌==◌
abbrev pub ◌==◌ {κ} : {T : Type κ} ⦃t : HasTest T⦄ → T → T → Bool
◌==◌ ⦃t⦄ x y = t.same x y

module _ {ℓ} {A : Type ℓ} ⦃e : HasTest A⦄ where
  unfoldable pub list_eq : List A → List A → Bool
  list_eq [] [] = true
  list_eq (x ∷ xs) (y ∷ ys) = x == y && list_eq xs ys
  list_eq _ _ = false

  pub list_eq_iff : (xs ys : List A) → (list_eq xs ys ≡ true) ↔ (xs ≡ ys)
  unfolding list_eq
  list_eq_iff (x ∷ xs) (y ∷ ys) = ground (arith, e.same_iff x y, list_eq_iff xs ys)
  list_eq_iff _ _ = ground arith

  instance abbrev pub List-HasTest : HasTest (List A)
  List-HasTest = record { same = list_eq; same_iff = list_eq_iff }

  pub eq_iff : (a b : A) → ((a == b) ≡ true) ↔ (a ≡ b)
  eq_iff = e.same_iff

  pub eq_self : (a : A) → (a == a) ≡ true
  eq_self a = (e.same_iff a a).1 refl

  pub eq_cases : (a b : A) → ((a ≡ b) × ((a == b) ≡ true)) ⊎ ((a ≢ b) × ((a == b) ≡ false))
  eq_cases a b = elim (Bool-cases (a == b)) [
    | inl h ↦ inl ((e.same_iff a b).0 h, h)
    | inr h ↦ inr ((λ p. ground (arith, e.same_iff a b)), h)
  ]

  pub ne_test : (a b : A) → a ≢ b → (a == b) ≡ false
  ne_test a b h = elim (eq_cases a b) [ inl (e, _) ↦ absurd (h e) | inr (_, e) ↦ e ]
