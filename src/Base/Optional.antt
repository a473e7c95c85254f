-- ===== src/Base/Optional.antt =====
-- Steps that may give nothing: `std::optional`, and assertions that may fail.
use mathlib.Core.Bool.{Bool, true, false}
use mathlib.Core.Option.{Option, none, some}
use mathlib.Core.Path.{◌≡◌, refl}

infixl 5 ◌>>=◌ ◌>>◌
abbrev pub ◌>>=◌ {ℓ κ} : {S : Type ℓ} {T : Type κ} → Option S → (S → Option T) → Option T
none >>= next = none
some value >>= next = next value

abbrev pub ◌>>◌ {κ} : {T : Type κ} → Option (Unit {0}) → Option T → Option T
first >> next = first >>= λ done. next

-- `assert`.
abbrev pub assert : Bool → Option (Unit {0})
assert true = some tt
assert false = none

pub passed {κ} :
    {T : Type κ} (b : Bool) (next : Option T) {t : T}
    → (assert b >> next) ≡ some t
    → (b ≡ true) × (next ≡ some t)
passed true next h = (refl, h)
passed false next h = cc

pub some_step {ℓ κ} :
    {S : Type ℓ} {T : Type κ} (first : Option S) (next : S → Option T) {t : T}
    → (first >>= next) ≡ some t
    → (s : S) × (first ≡ some s) × (next s ≡ some t)
some_step none next h = cc
some_step (some s) next h = (s, refl, h)

pub some_value {ℓ} : {S : Type ℓ} {s t : S} → some s ≡ some t → s ≡ t
some_value h = cc

pub no_value {ℓ} : {S : Type ℓ} {s : S} → ¬ (◌≡◌ {A = Option S} none (some s))
no_value h = cc
