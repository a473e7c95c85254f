-- ===== src/Manifest/Pattern/Overlap.antt =====
-- `overlaps` decides whether two patterns share a name.
use makebelieve.Base.{
  ℕ, ◌≤◌, ◌≡◌, refl, sym, ap, subst, ◌∙◌, ◌≢◌, ◌↔◌, inl, inr, true, [], ◌∷◌, ◌++◌, arith, leb,
  Bool-cases, length, length-append, ℕ-HasTest, List-HasTest, eq_iff,
}
use makebelieve.Text.{Bytes, starts_with, ends_with}
use makebelieve.Text.Laws.{starts_with-split, ends_with-split, ends_with_self, ends_with_comparable}
use makebelieve.Manifest.Pattern.Match.{fill, matches-fill, matches-split}
use makebelieve.Manifest.Pattern.{NamePattern, matches, agree_front, agree_back, overlaps}
use mathlib.Core.List.{append-nil, append_assoc}

starts_with_comparable :
    (a b s t : Bytes) → a ++ s ≡ b ++ t → length b ≤ length a → starts_with a b ≡ true
unfolding starts_with
starts_with_comparable a [] s t e h = refl
starts_with_comparable [] (d ∷ b) s t e h = elim h [ ]
starts_with_comparable (c ∷ a) (d ∷ b) s t e h =
    ground (arith, starts_with_comparable a b s t, eq_iff c d)

ends_with_shorter :
    (a b : Bytes) → ends_with b a ≡ true → length b ≤ length a → ends_with a b ≡ true
ends_with_shorter a b h l = go (ends_with-split b a h)
  where
    same : (r : Bytes) → b ≡ r ++ a → length r ≡ 0 → a ≡ b
    same [] e n = sym e
    same (c ∷ r) e n = absurd (omega arith)

    go : (r : Bytes) × (b ≡ r ++ a) → ends_with a b ≡ true
    go (r, e) =
        let f = same r e (omega (arith, ap length e, length-append {0} r a)) in
        subst (λ x. ends_with a x ≡ true) f (ends_with_self a)

agree_front_prefixes : (a b s t : Bytes) → a ++ s ≡ b ++ t → agree_front a b ≡ true
unfolding agree_front
agree_front_prefixes a b s t e = elim (Bool-cases (leb (length b) (length a))) [
  | inl h ↦ rw h (starts_with_comparable a b s t e (ground arith))
  | inr h ↦ rw h (starts_with_comparable b a t s (sym e) (ground arith))
]

agree_back_suffixes : (a b s t : Bytes) → s ++ a ≡ t ++ b → agree_back a b ≡ true
unfolding agree_back
agree_back_suffixes a b s t e = elim (Bool-cases (leb (length b) (length a))) [
  | inl h ↦ rw h (elim (ends_with_comparable s t a b e) [
    | inl k ↦ k
    | inr k ↦ ends_with_shorter a b k (ground arith)
  ])
  | inr h ↦ rw h (elim (ends_with_comparable s t a b e) [
    | inl k ↦ ends_with_shorter b a k (ground arith)
    | inr k ↦ k
  ])
]

abbrev CommonFront : Bytes → Bytes → Type 0
CommonFront a b = (u : Bytes) × (v : Bytes) × (a ++ u ≡ b ++ v)

abbrev CommonBack : Bytes → Bytes → Type 0
CommonBack a b = (u : Bytes) × (v : Bytes) × (u ++ a ≡ v ++ b)

common_front : (a b : Bytes) → agree_front a b ≡ true → CommonFront a b
unfolding agree_front
common_front a b h = elim (Bool-cases (leb (length b) (length a))) [
  | inl k ↦ let (s, e) = starts_with-split a b (rw k at h) in ([], s, append-nil a ∙ e)
  | inr k ↦ let (s, e) = starts_with-split b a (rw k at h) in (s, [], sym e ∙ sym (append-nil b))
]

common_back : (a b : Bytes) → agree_back a b ≡ true → CommonBack a b
unfolding agree_back
common_back a b h = elim (Bool-cases (leb (length b) (length a))) [
  | inl k ↦ let (s, e) = ends_with-split a b (rw k at h) in ([], s, e)
  | inr k ↦ let (s, e) = ends_with-split b a (rw k at h) in (s, [], sym e)
]

nonempty_middle : (u v : Bytes) (c : ℕ) → u ++ c ∷ v ≢ []
nonempty_middle [] v c e = cc
nonempty_middle (d ∷ u) v c e = cc

regroup : (a u s v : Bytes) (c : ℕ) → (a ++ u) ++ c ∷ (v ++ s) ≡ a ++ ((u ++ c ∷ v) ++ s)
regroup a u s v c = simp append_assoc

abbrev Shared : NamePattern → NamePattern → Type 0
Shared p q = (name : Bytes) × (matches p name ≡ true) × (matches q name ≡ true)

overlaps-Shared : (p q : NamePattern) → overlaps p q ≡ true → Shared p q
unfolding overlaps
overlaps-Shared p q h =
    let front : agree_front p.prefix q.prefix ≡ true = ground arith in
    let back : agree_back p.suffix q.suffix ≡ true = ground arith in
    let (u, v, e) = common_front p.prefix q.prefix front in
    let (x, y, f) = common_back p.suffix q.suffix back in
    let name = (p.prefix ++ u) ++ b'x' ∷ (x ++ p.suffix) in
    let mine : name ≡ fill p (u ++ b'x' ∷ x) = regroup p.prefix u p.suffix x b'x' in
    let theirs : name ≡ fill q (v ++ b'x' ∷ y) = rw (e, f) (regroup q.prefix v q.suffix y b'x') in
    (
      name,
      rw mine (matches-fill p (u ++ b'x' ∷ x) (nonempty_middle u x b'x')),
      rw theirs (matches-fill q (v ++ b'x' ∷ y) (nonempty_middle v y b'x')),
    )

Shared-overlaps : (p q : NamePattern) → Shared p q → overlaps p q ≡ true
unfolding overlaps
Shared-overlaps p q (name, m, n) =
    let (s, _, e) = matches-split p name m in
    let (t, _, f) = matches-split q name n in
    let both : fill p s ≡ fill q t = sym e ∙ f in
    rw
      (
        agree_front_prefixes p.prefix q.prefix _ _ both,
        agree_back_suffixes p.suffix q.suffix (p.prefix ++ s) (q.prefix ++ t)
            (append_assoc p.prefix s p.suffix ∙ both ∙ sym (append_assoc q.prefix t q.suffix)),
      )
      refl

-- Two patterns overlap exactly when some name matches both.
pub overlaps_iff :
    (p q : NamePattern)
    → (overlaps p q ≡ true) ↔ ((name : Bytes) × (matches p name ≡ true) × (matches q name ≡ true))
overlaps_iff p q = (overlaps-Shared p q, Shared-overlaps p q)
