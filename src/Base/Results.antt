-- ===== src/Base/Results.antt =====
-- Fallible code: `std::expected`, a value or an error.
use mathlib.Core.Path.{◌≡◌, refl}
use mathlib.Core.Bool.{Bool, true, false}

pub data Result {ℓ κ} (E : Type ℓ) (A : Type κ) : Type (ℓ ⊔ κ) where
  ok : A → Result E A
  err : E → Result E A

-- The steps after a value; an error ends the chain.
infixl 5 ◌>>=◌ ◌>>◌
abbrev pub ◌>>=◌ {ι ℓ κ} :
    {E : Type ι} {S : Type ℓ} {T : Type κ} → Result E S → (S → Result E T) → Result E T
err why >>= next = err why
ok value >>= next = next value

abbrev pub ◌>>◌ {ι κ} : {E : Type ι} {T : Type κ} → Result E (Unit {0}) → Result E T → Result E T
first >> next = first >>= λ done. next

-- An early return with an error when a check fails.
abbrev pub reject_if {ℓ} : {E : Type ℓ} → Bool → E → Result E (Unit {0})
reject_if true e = err e
reject_if false e = ok tt

-- A chain that ends well went through its first step.
pub ok_steps {ι ℓ κ} :
    {E : Type ι} {S : Type ℓ} {T : Type κ} (first : Result E S) (next : S → Result E T) {t : T}
    → (first >>= next) ≡ ok t
    → (s : S) × (first ≡ ok s) × (next s ≡ ok t)
ok_steps (err why) next h = cc
ok_steps (ok s) next h = (s, refl, h)

pub reject_if-eq-ok {ℓ} :
    {E : Type ℓ} (b : Bool) (e : E) {u : Unit {0}} → reject_if b e ≡ ok u → b ≡ false
reject_if-eq-ok true e h = cc
reject_if-eq-ok false e h = refl

pub ok-injective {ℓ κ} :
    {E : Type ℓ} {A : Type κ} {a b : A} → ◌≡◌ {A = Result E A} (ok a) (ok b) → a ≡ b
ok-injective h = cc

-- What follows a check that passed.
pub after_check {ℓ κ} :
    {E : Type ℓ} {A : Type κ} (b : Bool) (e : E) (k : Result E A) {a : A}
    → (reject_if b e >> k) ≡ ok a
    → k ≡ ok a
after_check true e k h = cc
after_check false e k h = h
