-- ===== src/Manifest/Declare/Taken.antt =====
-- What the maps of `parse` hold for the rules accepted so far, and that declaring one more keeps it.
use makebelieve.Base.{
  ℕ, ◌≡◌, refl, subst, ◌∙◌, ◌⊎◌, inl, inr, true, false, some, List, [], ◌∷◌, ◌++◌, if◌then◌else◌,
  Bool-cases, Option-cases, In, ◌==◌, ℕ-HasTest, List-HasTest, eq_self, eq_cases,
}
use makebelieve.Base.OrdMap
use makebelieve.Text.{ends_with}
use makebelieve.Paths.{FilePath, FilePath-Order, filename, parent_path, ancestors}
use makebelieve.Manifest.Line.{Declared}
use makebelieve.Manifest.Declare.{
  Progress, BannedSuffix, banned_in, emplace_all, declare, ban, or_empty, suffix_of,
}

abbrev pub IsKey : FilePath → List (FilePath × ℕ) → Type 0
IsKey k m = (n : ℕ) × (OrdMap.find k m ≡ some n)

-- A path that nothing further may be declared at: a file, or a name with a banned ending.
abbrev pub Taken : Progress → FilePath → Type 0
Taken st p =
    IsKey p st.files
    ⊎ ((b : BannedSuffix) × In b (banned_in st (parent_path p))
        × (ends_with (filename p) b.suffix ≡ true))

pub emplace-IsKey_old :
    (k j : FilePath) (n : ℕ) (m : List (FilePath × ℕ)) → IsKey k m → IsKey k (OrdMap.emplace j n m)
emplace-IsKey_old k j n m (v, h) = elim (Option-cases (OrdMap.find j m)) [
  | inl e ↦ elim (eq_cases j k) [
    | inl (f, t) ↦ (n, OrdMap.find-emplace j k n m e ∙ rw t refl)
    | inr (f, t) ↦ (v, OrdMap.find-emplace j k n m e ∙ rw t h)
  ]
  | inr (w, e) ↦ (v, rw (OrdMap.emplace_old j n w m e) h)
]

pub emplace-IsKey_self :
    (k : FilePath) (n : ℕ) (m : List (FilePath × ℕ)) → IsKey k (OrdMap.emplace k n m)
emplace-IsKey_self k n m = elim (Option-cases (OrdMap.find k m)) [
  | inl e ↦ (n, OrdMap.find-emplace k k n m e ∙ rw (eq_self k) refl)
  | inr (w, e) ↦ (w, rw (OrdMap.emplace_old k n w m e) e)
]

pub emplace_all-IsKey_old :
    (k : FilePath) (n : ℕ) (ps : List FilePath) (m : List (FilePath × ℕ))
    → IsKey k m
    → IsKey k (emplace_all n ps m)
unfolding emplace_all
emplace_all-IsKey_old k n [] m h = h
emplace_all-IsKey_old k n (p ∷ ps) m h =
    emplace_all-IsKey_old k n ps (OrdMap.emplace p n m) (emplace-IsKey_old k p n m h)

pub emplace_all-IsKey :
    (k : FilePath) (n : ℕ) (ps : List FilePath) (m : List (FilePath × ℕ))
    → In k ps
    → IsKey k (emplace_all n ps m)
unfolding emplace_all
emplace_all-IsKey k n [] m h = absurd h
emplace_all-IsKey k n (p ∷ ps) m (inl e) =
    emplace_all-IsKey_old k n ps (OrdMap.emplace p n m)
      (subst (λ x. IsKey k (OrdMap.emplace x n m)) e (emplace-IsKey_self k n m))
emplace_all-IsKey k n (p ∷ ps) m (inr h) = emplace_all-IsKey k n ps (OrdMap.emplace p n m) h

In-left : {A : Type 0} (a : A) (xs ys : List A) → In a xs → In a (xs ++ ys)
In-left a [] ys h = absurd h
In-left a (x ∷ xs) ys (inl e) = inl e
In-left a (x ∷ xs) ys (inr h) = inr (In-left a xs ys h)

In-last : {A : Type 0} (a : A) (xs : List A) → In a (xs ++ a ∷ [])
In-last a [] = inl refl
In-last a (x ∷ xs) = inr (In-last a xs)

new_ban : ℕ → Declared → BannedSuffix
new_ban n d = record { suffix = suffix_of d.output; line = n }

banned_in-ban :
    (st : Progress) (n : ℕ) (d : Declared) (p : FilePath)
    → or_empty (OrdMap.find p (ban st n d)) ≡ (
        if parent_path d.output == p
        then banned_in st (parent_path d.output) ++ new_ban n d ∷ []
        else banned_in st p)
unfolding ban banned_in new_ban
banned_in-ban st n d p =
    rw (OrdMap.find-assign (parent_path d.output) p _ st.banned_suffixes)
      (elim (Bool-cases (parent_path d.output == p)) [ inl h ↦ rw h refl | inr h ↦ rw h refl ])

ban-keeps :
    (st : Progress) (n : ℕ) (d : Declared) (p : FilePath) (b : BannedSuffix)
    → In b (banned_in st p)
    → In b (or_empty (OrdMap.find p (ban st n d)))
ban-keeps st n d p b h = rw (banned_in-ban st n d p) (elim (eq_cases (parent_path d.output) p) [
  | inl (e, t) ↦ rw t (In-left b (banned_in st (parent_path d.output)) (new_ban n d ∷ []) (rw e h))
  | inr (e, t) ↦ rw t h
])

declare-banned :
    (st : Progress) (n : ℕ) (d : Declared) (p : FilePath) (b : BannedSuffix)
    → In b (banned_in st p)
    → In b (banned_in (declare st n d) p)
unfolding declare banned_in
declare-banned st n d p b h = elim (Bool-cases d.wildcard) [
  | inl w ↦ rw w (ban-keeps st n d p b (unfold banned_in in h))
  | inr w ↦ rw w h
]

declare-file :
    (st : Progress) (n : ℕ) (d : Declared) (p : FilePath)
    → IsKey p st.files
    → IsKey p (declare st n d).files
unfolding declare
declare-file st n d p h = elim (Bool-cases d.wildcard) [
  | inl w ↦ rw w h
  | inr w ↦ rw w (emplace-IsKey_old p d.output n st.files h)
]

-- What is taken stays taken.
pub declare-Taken :
    (st : Progress) (n : ℕ) (d : Declared) (p : FilePath) → Taken st p → Taken (declare st n d) p
declare-Taken st n d p (inl h) = inl (declare-file st n d p h)
declare-Taken st n d p (inr (b, h, e)) = inr (b, declare-banned st n d (parent_path p) b h, e)

-- The new output itself, and all that a new wildcard can produce.
pub declare-Taken_simple :
    (st : Progress) (n : ℕ) (d : Declared) → d.wildcard ≡ false → Taken (declare st n d) d.output
unfolding declare
declare-Taken_simple st n d w = inl (rw w (emplace-IsKey_self d.output n st.files))

pub declare-Taken_wildcard :
    (st : Progress) (n : ℕ) (d : Declared) (p : FilePath)
    → d.wildcard ≡ true
    → parent_path p ≡ parent_path d.output
    → ends_with (filename p) (suffix_of d.output) ≡ true
    → Taken (declare st n d) p
unfolding declare banned_in new_ban
declare-Taken_wildcard st n d p w e h = inr (
  new_ban n d,
  rw (w, e, banned_in-ban st n d (parent_path d.output), eq_self (parent_path d.output))
      (In-last _ _),
  h,
)

pub declare-directory_old :
    (st : Progress) (n : ℕ) (d : Declared) (p : FilePath)
    → IsKey p st.directories
    → IsKey p (declare st n d).directories
unfolding declare
declare-directory_old st n d p h = emplace_all-IsKey_old p n (ancestors d.output) st.directories h

pub declare-directory :
    (st : Progress) (n : ℕ) (d : Declared) (p : FilePath)
    → In p (ancestors d.output)
    → IsKey p (declare st n d).directories
unfolding declare
declare-directory st n d p h = emplace_all-IsKey p n (ancestors d.output) st.directories h
