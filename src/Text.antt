-- ===== src/Text.antt =====
-- The `std::string_view` operations that the program uses, over text as a list of bytes.
pub mod Laws
use makebelieve.Base.{
  ℕ, zero, suc, ◌+◌, ◌-◌, ◌*◌, ◌%◌, ◌^◌, ◌≤◌, ◌<◌, ◌≡◌, refl, sym, ap, subst, ◌∙◌, ◌≢◌, ◌↔◌, ◌⊎◌,
  inl, inr, Bool, true, false, not, ◌&&◌, ◌||◌, Option, none, some, List, [], ◌∷◌, ◌++◌, map,
  reverse, arith, ltb, leb, nat_eq, if◌then◌else◌, nat_eq_iff, ltb→lt, lt→ltb, Bool-cases,
  Option-cases, and_left, and_right, or_right, length, get_elem?, take, drop, find_if, any_of,
  all_of, keep, All, In, AllPairs, length-append, take-append, drop-append, All-append, All-keep,
  All-map, AllPairs-keep, AllPairs-concat, HasTest, ◌==◌, ℕ-HasTest, List-HasTest, list_eq, eq_iff,
  eq_self, eq_cases, Result, ok, err, ◌>>=◌, ◌>>◌, reject_if, ok_steps, reject_if-eq-ok,
}
use Prim.Native.Char.{code}
use Prim.Native.String.{String}

abbrev pub Bytes : Type 0
Bytes = List ℕ

-- The bytes of a literal, which is ASCII.
abbrev pub codes : String → Bytes
codes String.[] = []
codes (String.◌∷◌ c s) = code c ∷ codes s

unfoldable pub is_empty {ℓ} : {A : Type ℓ} → List A → Bool
is_empty [] = true
is_empty (x ∷ xs) = false

unfoldable pub starts_with : Bytes → Bytes → Bool
starts_with text [] = true
starts_with [] (p ∷ prefix) = false
starts_with (c ∷ text) (p ∷ prefix) = c == p && starts_with text prefix

unfoldable pub ends_with : Bytes → Bytes → Bool
unfolding is_empty
ends_with [] suffix = is_empty suffix
ends_with (c ∷ text) suffix = c ∷ text == suffix || ends_with text suffix

unfoldable pub contains : Bytes → ℕ → Bool
contains text c = any_of (λ d. d == c) text

-- `std::ranges::count`.
unfoldable pub count : ℕ → Bytes → ℕ
count c [] = 0
count c (d ∷ text) = let rest = count c text in if d == c then suc rest else rest

-- What stands before the first `c`: the whole text when there is none.
unfoldable pub before : ℕ → Bytes → Bytes
before c [] = []
before c (d ∷ text) = if d == c then [] else d ∷ before c text

-- What stands behind the first `c`, if there is one.
unfoldable pub after? : ℕ → Bytes → Option Bytes
after? c [] = none
after? c (d ∷ text) = if d == c then some text else after? c text

-- The pieces of a text between the occurrences of `c`: always at least one.
unfoldable pub push_front : ℕ → List Bytes → List Bytes
push_front c [] = (c ∷ []) ∷ []
push_front c (w ∷ ws) = (c ∷ w) ∷ ws

unfoldable pub split_on : ℕ → Bytes → List Bytes
unfolding push_front
split_on c [] = [] ∷ []
split_on c (d ∷ text) =
    let rest = split_on c text in if d == c then [] ∷ rest else push_front d rest
