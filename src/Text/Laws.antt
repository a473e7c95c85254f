-- ===== src/Text/Laws.antt =====
-- What the text operations mean, as splits of the text.
use makebelieve.Base.{
  ℕ, ◌≡◌, refl, ap, ◌⊎◌, inl, inr, true, some, [], ◌∷◌, ◌++◌, arith, ℕ-HasTest, List-HasTest,
  eq_iff, eq_self, eq_cases,
}
use makebelieve.Text.{Bytes, starts_with, ends_with, before, after?}

pub starts_with-append : (p s : Bytes) → starts_with (p ++ s) p ≡ true
unfolding starts_with
starts_with-append [] s = refl
starts_with-append (c ∷ p) s = ground (arith, starts_with-append p s, eq_self c)

pub starts_with-split : (text p : Bytes) → starts_with text p ≡ true → (s : Bytes) × (text ≡ p ++ s)
unfolding starts_with
starts_with-split text [] h = (text, refl)
starts_with-split [] (c ∷ p) h = cc
starts_with-split (d ∷ text) (c ∷ p) h =
    let (s, e) = starts_with-split text p (ground arith) in (s, ground arith)

pub ends_with_self : (s : Bytes) → ends_with s s ≡ true
unfolding ends_with
ends_with_self [] = refl
ends_with_self (c ∷ s) = rw (eq_self (c ∷ s))

pub ends_with-append : (p s : Bytes) → ends_with (p ++ s) s ≡ true
unfolding ends_with
ends_with-append [] s = ends_with_self s
ends_with-append (c ∷ p) s = ground (arith, ends_with-append p s)

pub ends_with-split : (text s : Bytes) → ends_with text s ≡ true → (p : Bytes) × (text ≡ p ++ s)
unfolding ends_with
ends_with-split [] [] h = ([], refl)
ends_with-split [] (c ∷ s) h = cc
ends_with-split (d ∷ text) s h = elim (eq_cases (d ∷ text) s) [
  | inl (e, _) ↦ ([], e)
  | inr (_, e) ↦ let (p, q) = ends_with-split text s (ground arith) in (d ∷ p, ap (◌∷◌ d) q)
]

-- Two endings of one text: the shorter is an ending of the longer.
pub ends_with_comparable :
    (p q s t : Bytes) → p ++ s ≡ q ++ t → (ends_with s t ≡ true) ⊎ (ends_with t s ≡ true)
ends_with_comparable [] q s t h = inl (rw h (ends_with-append q t))
ends_with_comparable (c ∷ p) [] s t h = inr (rw (← h) (ends_with-append (c ∷ p) s))
ends_with_comparable (c ∷ p) (d ∷ q) s t h = ends_with_comparable p q s t (ground arith)

-- A text is what stands before its first `c`, that `c`, and what stands behind it.
pub before-after :
    (c : ℕ) (text rest : Bytes) → after? c text ≡ some rest → text ≡ before c text ++ c ∷ rest
unfolding before after?
before-after c [] rest h = cc
before-after c (d ∷ text) rest h = ground (arith, before-after c text rest, eq_iff d c)
