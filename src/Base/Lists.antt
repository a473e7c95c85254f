-- ===== src/Base/Lists.antt =====
-- Lists measured and indexed by native numbers, and predicates over lists by recursion.
use Prim.Native.Nat.{ℕ, zero, suc, ◌+◌, ◌<◌, ◌≤◌}
use mathlib.Core.Path.{◌≡◌, refl, ap, sym, ◌∙◌, subst}
use mathlib.Core.Logic.{◌⊎◌, inl, inr, ◌≢◌}
use mathlib.Core.Bool.{Bool, true, false, ◌&&◌, ◌||◌}
use mathlib.Core.List.{List, [], ◌∷◌, ◌++◌}
use mathlib.Core.Option.{Option, none, some}
use native.Mathlib.Omega.{arith}
use makebelieve.Base.Equality.{ℕ-HasTest, eq_cases}
use makebelieve.Base.Optional.{some_value}
use makebelieve.Base.Tests.{if◌then◌else◌}

module _ {ℓ} {A : Type ℓ} where
  abbrev pub length : List A → ℕ
  length [] = 0
  length (x ∷ xs) = suc (length xs)

  abbrev pub get_elem? : List A → ℕ → Option A
  get_elem? [] i = none
  get_elem? (x ∷ xs) zero = some x
  get_elem? (x ∷ xs) (suc i) = get_elem? xs i

  abbrev pub take : ℕ → List A → List A
  take zero xs = []
  take (suc n) [] = []
  take (suc n) (x ∷ xs) = x ∷ take n xs

  abbrev pub drop : ℕ → List A → List A
  drop zero xs = xs
  drop (suc n) [] = []
  drop (suc n) (x ∷ xs) = drop n xs

  -- The first entry that passes the test (`std::ranges::find_if`).
  abbrev pub find_if : (A → Bool) → List A → Option A
  find_if p [] = none
  find_if p (x ∷ xs) = if p x then some x else find_if p xs

  abbrev pub any_of : (A → Bool) → List A → Bool
  any_of p [] = false
  any_of p (x ∷ xs) = p x || any_of p xs

  abbrev pub all_of : (A → Bool) → List A → Bool
  all_of p [] = true
  all_of p (x ∷ xs) = p x && all_of p xs

  abbrev pub keep : (A → Bool) → List A → List A
  keep p [] = []
  keep p (x ∷ xs) = if p x then x ∷ keep p xs else keep p xs

  -- A change of the entry at a place; past the end it changes nothing.
  abbrev pub modify : ℕ → (A → A) → List A → List A
  modify i f [] = []
  modify zero f (x ∷ xs) = f x ∷ xs
  modify (suc i) f (x ∷ xs) = x ∷ modify i f xs

  pub length-modify : (i : ℕ) (f : A → A) (xs : List A) → length (modify i f xs) ≡ length xs
  length-modify i f [] = refl
  length-modify zero f (x ∷ xs) = refl
  length-modify (suc i) f (x ∷ xs) = ap suc (length-modify i f xs)

  pub modify_self :
      (i : ℕ) (f : A → A) (xs : List A) {x : A}
      → get_elem? xs i ≡ some x
      → get_elem? (modify i f xs) i ≡ some (f x)
  modify_self i f [] h = cc
  modify_self zero f (y ∷ xs) h = cc
  modify_self (suc i) f (y ∷ xs) h = modify_self i f xs h

  pub modify-none :
      (i : ℕ) (f : A → A) (xs : List A) → get_elem? xs i ≡ none → get_elem? (modify i f xs) i ≡ none
  modify-none i f [] h = refl
  modify-none zero f (y ∷ xs) h = cc
  modify-none (suc i) f (y ∷ xs) h = modify-none i f xs h

  pub modify_other :
      (i j : ℕ) (f : A → A) (xs : List A) → i ≢ j → get_elem? (modify i f xs) j ≡ get_elem? xs j
  modify_other i j f [] h = refl
  modify_other zero zero f (y ∷ xs) h = absurd (h refl)
  modify_other zero (suc j) f (y ∷ xs) h = refl
  modify_other (suc i) zero f (y ∷ xs) h = refl
  modify_other (suc i) (suc j) f (y ∷ xs) h = modify_other i j f xs (λ e. h (ap suc e))

  -- Every entry has the property; some entry has it, with its place kept.
  abbrev pub All {κ} : (A → Type κ) → List A → Type κ
  All P [] = Unit
  All P (x ∷ xs) = P x × All P xs

  abbrev pub AllPairs {κ} : (A → A → Type κ) → List A → Type κ
  AllPairs R [] = Unit
  AllPairs R (x ∷ xs) = All (R x) xs × AllPairs R xs

  pub length-append : (xs ys : List A) → length (xs ++ ys) ≡ length xs + length ys
  length-append [] ys = omega arith
  length-append (x ∷ xs) ys = omega (arith, length-append xs ys)

  pub take-append : (xs ys : List A) → take (length xs) (xs ++ ys) ≡ xs
  take-append [] ys = refl
  take-append (x ∷ xs) ys = ap (◌∷◌ x) (take-append xs ys)

  pub drop-append : (xs ys : List A) → drop (length xs) (xs ++ ys) ≡ ys
  drop-append [] ys = refl
  drop-append (x ∷ xs) ys = drop-append xs ys

  -- A place before the end holds something.
  pub length-get : (xs : List A) (i : ℕ) → i < length xs → get_elem? xs i ≢ none
  length-get [] i h e = absurd (omega arith)
  length-get (x ∷ xs) zero h e = cc e
  length-get (x ∷ xs) (suc i) h e = length-get xs i (omega arith) e

  -- From the end on there is nothing.
  pub get-length : (xs : List A) (i : ℕ) {x : A} → length xs ≤ i → get_elem? xs i ≢ some x
  get-length [] i h e = cc e
  get-length (y ∷ xs) zero h e = omega arith
  get-length (y ∷ xs) (suc i) h e = get-length xs i (omega arith) e

  -- What stands at a place after one more was put at the end.
  pub get_elem?-append :
      (xs : List A) (y : A) (i : ℕ)
      → (get_elem? (xs ++ y ∷ []) i ≡ get_elem? xs i)
        ⊎ ((i ≡ length xs) × (get_elem? (xs ++ y ∷ []) i ≡ some y))
  get_elem?-append [] y zero = inr (refl, refl)
  get_elem?-append [] y (suc i) = inl refl
  get_elem?-append (x ∷ xs) y zero = inl refl
  get_elem?-append (x ∷ xs) y (suc i) = elim (get_elem?-append xs y i) [
    | inl e ↦ inl e
    | inr (e, f) ↦ inr (ap suc e, f)
  ]

abbrev pub In : {A : Type 0} → A → List A → Type 0
In a [] = ⊥
In a (x ∷ xs) = (a ≡ x) ⊎ In a xs

pub In-left : {A : Type 0} (a : A) (xs ys : List A) → In a xs → In a (xs ++ ys)
In-left a [] ys h = absurd h
In-left a (x ∷ xs) ys (inl e) = inl e
In-left a (x ∷ xs) ys (inr h) = inr (In-left a xs ys h)

pub In-right : {A : Type 0} (a : A) (xs ys : List A) → In a ys → In a (xs ++ ys)
In-right a [] ys h = h
In-right a (x ∷ xs) ys h = inr (In-right a xs ys h)

pub In-split : {A : Type 0} (a : A) (xs ys : List A) → In a (xs ++ ys) → In a xs ⊎ In a ys
In-split a [] ys h = inr h
In-split a (x ∷ xs) ys (inl e) = inl (inl e)
In-split a (x ∷ xs) ys (inr h) = elim (In-split a xs ys h) [ inl l ↦ inl (inr l) | inr r ↦ inr r ]

-- Where an entry of a modified list comes from.
pub modify-cases :
    {A : Type 0} (i j : ℕ) (f : A → A) (xs : List A) {y : A}
    → get_elem? (modify i f xs) j ≡ some y
    → ((i ≡ j) × (x : A) × (get_elem? xs i ≡ some x) × (y ≡ f x))
      ⊎ (i ≢ j) × (get_elem? xs j ≡ some y)
modify-cases {A} i j f xs {y} h = elim (eq_cases i j) [
  | inl (e, _) ↦
      here e (get_elem? xs i) refl (subst (λ n. get_elem? (modify i f xs) n ≡ some y) (sym e) h)
  | inr (ne, _) ↦ inr (ne, sym (modify_other i j f xs ne) ∙ h)
]
  where
    here :
        i ≡ j
        → (o : Option A) → get_elem? xs i ≡ o
        → get_elem? (modify i f xs) i ≡ some y
        → ((i ≡ j) × (x : A) × (get_elem? xs i ≡ some x) × (y ≡ f x))
          ⊎ (i ≢ j) × (get_elem? xs j ≡ some y)
    here e none k g = cc (sym (modify-none i f xs k) ∙ g)
    here e (some x) k g = inl (e, x, k, some_value (sym g ∙ modify_self i f xs k))

pub find_if_passes :
    {A : Type 0} (p : A → Bool) {a : A} (xs : List A) → find_if p xs ≡ some a → p a ≡ true
find_if_passes p [] h = cc h
find_if_passes p {a} (x ∷ xs) h = go (p x) refl h (find_if_passes p xs)
  where
    go :
        (t : Bool)
        → p x ≡ t
        → (if t then some x else find_if p xs) ≡ some a
        → (find_if p xs ≡ some a → p a ≡ true)
        → p a ≡ true
    go true e h next = ap p (sym (some_value h)) ∙ e
    go false e h next = next h

pub In-any_of :
    {A : Type 0} (p : A → Bool) {a : A} (xs : List A) → In a xs → p a ≡ true → any_of p xs ≡ true
In-any_of p [] i h = absurd i
In-any_of p (x ∷ xs) (inl e) h = ap (λ y. p y || any_of p xs) (sym e) ∙ ap (λ b. b || any_of p xs) h
In-any_of p (x ∷ xs) (inr i) h = ground (arith, In-any_of p xs i h)

pub keep-In :
    {A : Type 0} (p : A → Bool) {a : A} (xs : List A) → In a xs → p a ≡ true → In a (keep p xs)
keep-In p [] i h = i
keep-In p {a} (x ∷ xs) i h = go (p x) refl i (λ j. keep-In p xs j h)
  where
    go :
        (t : Bool)
        → p x ≡ t
        → (a ≡ x) ⊎ In a xs
        → (In a xs → In a (keep p xs))
        → In a (if t then x ∷ keep p xs else keep p xs)
    go true e (inl now) next = inl now
    go true e (inr j) next = inr (next j)
    go false e (inl now) next = cc (sym h ∙ ap p now ∙ e)
    go false e (inr j) next = next j

pub In-keep :
    {A : Type 0} (p : A → Bool) {a : A} (xs : List A) → In a (keep p xs) → (p a ≡ true) × In a xs
In-keep p [] i = absurd i
In-keep p {a} (x ∷ xs) i = go (p x) refl i (In-keep p xs)
  where
    go :
        (t : Bool)
        → p x ≡ t
        → In a (if t then x ∷ keep p xs else keep p xs)
        → (In a (keep p xs) → (p a ≡ true) × In a xs)
        → (p a ≡ true) × ((a ≡ x) ⊎ In a xs)
    go true h (inl e) next = (ap p e ∙ h, inl e)
    go true h (inr i) next = ((next i).0, inr (next i).1)
    go false h i next = ((next i).0, inr (next i).1)

module _ {ℓ κ} {A : Type ℓ} (P : A → Type κ) where
  pub All-append : (xs ys : List A) → All P xs → All P ys → All P (xs ++ ys)
  All-append [] ys hx hy = hy
  All-append (x ∷ xs) ys hx hy = (hx.0, All-append xs ys hx.1 hy)

  pub All-keep : (p : A → Bool) (xs : List A) → All P xs → All P (keep p xs)
  All-keep p [] h = tt
  All-keep p (x ∷ xs) h = ground (arith, All-keep p xs h.1)

module _ {ℓ κ ι} {A : Type ℓ} (P : A → Type κ) (Q : A → Type ι) where
  pub All-map : (xs : List A) → ((x : A) → P x → Q x) → All P xs → All Q xs
  All-map [] f h = tt
  All-map (x ∷ xs) f h = (f x h.0, All-map xs f h.1)

module _ {ℓ κ} {A : Type ℓ} (R : A → A → Type κ) where
  pub AllPairs-keep : (p : A → Bool) (xs : List A) → AllPairs R xs → AllPairs R (keep p xs)
  AllPairs-keep p [] h = tt
  AllPairs-keep p (x ∷ xs) h = ground (arith, All-keep (R x) p xs h.0, AllPairs-keep p xs h.1)

  -- One more entry at the end, in relation with all before it.
  pub AllPairs-concat :
      (xs : List A) (y : A) → AllPairs R xs → All (λ x. R x y) xs → AllPairs R (xs ++ y ∷ [])
  AllPairs-concat [] y h n = (tt, tt)
  AllPairs-concat (x ∷ xs) y h n =
      (All-append (R x) xs (y ∷ []) h.0 (n.0, tt), AllPairs-concat xs y h.1 n.1)
