-- ===== src/Paths/Ancestors.antt =====
-- The loop over the directories above a path, and what it visits.
use makebelieve.Base.{
  ◌≡◌, refl, ap, inl, inr, true, List, [], ◌∷◌, ◌++◌, map, arith, if◌then◌else◌, and_right, In,
  ◌==◌, ℕ-HasTest, List-HasTest, eq_iff, eq_self,
}
use makebelieve.Text.{Bytes, is_empty}
use makebelieve.Paths.{FilePath, parent_path, filename, ancestors, is_within}

-- `entry` lies strictly below `directory`.
abbrev pub Beneath : FilePath → FilePath → Type 0
Beneath entry directory = (n : Bytes) × (r : FilePath) × (entry ≡ directory ++ n ∷ r)

In-append_left : {A : Type 0} (a : A) (xs ys : List A) → In a xs → In a (xs ++ ys)
In-append_left a (x ∷ xs) ys (inl e) = inl e
In-append_left a (x ∷ xs) ys (inr h) = inr (In-append_left a xs ys h)
In-append_left a [] ys h = absurd h

In-append_right : {A : Type 0} (a : A) (xs ys : List A) → In a ys → In a (xs ++ ys)
In-append_right a [] ys h = h
In-append_right a (x ∷ xs) ys h = inr (In-append_right a xs ys h)

In-map : {A B : Type 0} (f : A → B) (a : A) (xs : List A) → In a xs → In (f a) (map f xs)
In-map f a (x ∷ xs) (inl e) = inl (ap f e)
In-map f a (x ∷ xs) (inr h) = inr (In-map f a xs h)
In-map f a [] h = absurd h

-- Every directory strictly above a path, but the empty one, is visited.
pub ancestors_complete :
    (w : Bytes) (d : FilePath) (n : Bytes) (r : FilePath) → In (w ∷ d) (ancestors (w ∷ d ++ n ∷ r))
unfolding ancestors
ancestors_complete w [] n r =
    In-append_right (w ∷ []) (map (◌∷◌ w) (ancestors (n ∷ r))) ((w ∷ []) ∷ []) (inl refl)
ancestors_complete w (v ∷ d) n r =
    In-append_left (w ∷ v ∷ d) (map (◌∷◌ w) (ancestors (v ∷ d ++ n ∷ r))) ((w ∷ []) ∷ [])
      (In-map (◌∷◌ w) (v ∷ d) _ (ancestors_complete v d n r))

pub parent-filename :
    (w : Bytes) (p : FilePath) → parent_path (w ∷ p) ++ filename (w ∷ p) ∷ [] ≡ w ∷ p
unfolding parent_path filename
parent-filename w [] = refl
parent-filename w (v ∷ p) = ap (◌∷◌ w) (parent-filename v p)

pub parent-concat : (d : FilePath) (n : Bytes) → parent_path (d ++ n ∷ []) ≡ d
unfolding parent_path
parent-concat [] n = refl
parent-concat (w ∷ []) n = refl
parent-concat (w ∷ v ∷ d) n = ap (◌∷◌ w) (parent-concat (v ∷ d) n)

pub filename-concat : (d : FilePath) (n : Bytes) → filename (d ++ n ∷ []) ≡ n
unfolding filename
filename-concat [] n = refl
filename-concat (w ∷ []) n = refl
filename-concat (w ∷ v ∷ d) n = filename-concat (v ∷ d) n

-- One round of `for (p = p.parent_path(); !p.empty(); p = p.parent_path())`.
pub ancestors_lem :
    (p : FilePath)
    → ancestors p
      ≡ (if is_empty (parent_path p) then [] else parent_path p ∷ ancestors (parent_path p))
unfolding ancestors parent_path is_empty
ancestors_lem [] = refl
ancestors_lem (w ∷ []) = refl
ancestors_lem (w ∷ v ∷ []) = refl
ancestors_lem (w ∷ v ∷ u ∷ p) = rw (ancestors_lem (v ∷ u ∷ p)) refl

pub is_within-Beneath :
    (entry directory : FilePath) → is_within entry directory ≡ true → Beneath entry directory
unfolding is_within is_empty
is_within-Beneath [] [] h = cc
is_within-Beneath (n ∷ r) [] h = (n, r, refl)
is_within-Beneath [] (w ∷ d) h = cc
is_within-Beneath (v ∷ e) (w ∷ d) h =
    let (n, r, q) = is_within-Beneath e d (and_right (v == w) _ h) in
    (n, r, ground (arith, eq_iff v w))

pub Beneath-is_within : (d : FilePath) (n : Bytes) (r : FilePath) → is_within (d ++ n ∷ r) d ≡ true
unfolding is_within is_empty
Beneath-is_within [] n r = refl
Beneath-is_within (w ∷ d) n r = ground (arith, eq_self w, Beneath-is_within d n r)
