-- ===== src/Manifest/Pattern/Match.antt =====
-- What it means to match a name pattern, and what the `*` then stands for.
use makebelieve.Base.{
  ◌↔◌, ℕ, ◌+◌, ◌<◌, ◌≡◌, refl, sym, ap, ◌∙◌, ◌≢◌, true, [], ◌∷◌, ◌++◌, arith, ltb, lt→ltb, length,
  take, length-append, take-append, drop-append, ℕ-HasTest, List-HasTest,
}
use makebelieve.Text.{Bytes, starts_with, ends_with}
use makebelieve.Text.Laws.{starts_with-append, starts_with-split, ends_with-append, ends_with-split}
use makebelieve.Manifest.Pattern.{NamePattern, matches, stem}
use mathlib.Core.List.{append_assoc}

-- The name that a pattern makes of a stem.
abbrev pub fill : NamePattern → Bytes → Bytes
fill p s = p.prefix ++ (s ++ p.suffix)

abbrev Split : Bytes → Bytes → Bytes → Bytes → Type 0
Split prefix suffix t q = (s : Bytes) × (s ≢ []) × (q ≡ prefix ++ s) × (t ≡ s ++ suffix)

common-Split :
    (prefix suffix t q : Bytes)
    → prefix ++ t ≡ q ++ suffix
    → length prefix < length q
    → Split prefix suffix t q
common-Split [] suffix t [] e h = elim h [ ]
common-Split [] suffix t (c ∷ q) e h = (c ∷ q, (λ p. cc), refl, e)
common-Split (c ∷ prefix) suffix t [] e h = elim h [ ]
common-Split (c ∷ prefix) suffix t (d ∷ q) e h =
    let (s, n, f, g) = common-Split prefix suffix t q (ground arith) (omega arith) in
    (s, n, ground arith, g)

length-ne-nil : (s : Bytes) → s ≢ [] → 0 < length s
length-ne-nil [] h = absurd (h refl)
length-ne-nil (c ∷ s) h = omega arith

-- A pattern matches every name that it makes of a stem that is not empty.
pub matches-fill : (p : NamePattern) (s : Bytes) → s ≢ [] → matches p (fill p s) ≡ true
unfolding matches
matches-fill p s h =
    let back : ends_with (fill p s) p.suffix ≡ true =
      rw (← append_assoc p.prefix s p.suffix) (ends_with-append (p.prefix ++ s) p.suffix) in
    let long : ltb (length p.prefix + length p.suffix) (length (fill p s)) ≡ true = lt→ltb _ _ (
      omega (
        arith,
        length-append {0} p.prefix (s ++ p.suffix),
        length-append {0} s p.suffix,
        length-ne-nil s h,
      )) in
    rw (back, long, starts_with-append p.prefix (s ++ p.suffix)) refl

-- A name that matches is made of such a stem.
pub matches-split :
    (p : NamePattern) (name : Bytes)
    → matches p name ≡ true
    → (s : Bytes) × (s ≢ []) × (name ≡ fill p s)
unfolding matches
matches-split p name h =
    let long : length p.prefix + length p.suffix < length name = ground arith in
    let front : starts_with name p.prefix ≡ true = ground arith in
    let back : ends_with name p.suffix ≡ true = ground arith in
    let (t, e) = starts_with-split name p.prefix front in
    let (q, f) = ends_with-split name p.suffix back in
    let (s, n, _, g) =
      common-Split p.prefix p.suffix t q (sym e ∙ f)
        (omega (arith, ap length f, length-append {0} q p.suffix)) in
    (s, n, e ∙ ap (◌++◌ p.prefix) g)

take_part : (s suffix : Bytes) (n : ℕ) → n ≡ length s → take n (s ++ suffix) ≡ s
take_part s suffix n e = rw e (take-append s suffix)

-- What the `*` stands for is the stem that the name is made of.
pub stem-fill : (p : NamePattern) (s : Bytes) → stem p (fill p s) ≡ s
unfolding stem
stem-fill p s = rw (drop-append p.prefix (s ++ p.suffix)) (
    take_part s p.suffix _
      (omega (arith, length-append {0} p.prefix (s ++ p.suffix), length-append {0} s p.suffix)))

-- A pattern matches exactly the names that it makes of a stem that is not empty.
pub matches_iff :
    (p : NamePattern) (name : Bytes)
    → (matches p name ≡ true) ↔ ((s : Bytes) × (s ≢ []) × (name ≡ fill p s))
matches_iff p name = (matches-split p name, λ (s, n, e). rw e (matches-fill p s n))
