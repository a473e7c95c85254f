-- ===== src/Paths/RoundTrip.antt =====
-- A path that stays inside is read back from its text as it was.
use makebelieve.Base.{
  ◌≡◌, refl, sym, ap, ◌∙◌, false, some, [], ◌∷◌, ◌++◌, reverse, arith, All, ℕ-HasTest, List-HasTest,
}
use makebelieve.Text.{Bytes, is_empty, split_on, starts_with, contains, push_front}
use makebelieve.Paths.{
  FilePath, squeeze, elements, generic_string, finish, normal_from, lexically_normal, filename,
  IsName, IsInside, to_inside_path,
}
use mathlib.Core.List.{reverse-cons, append_assoc, append-nil}

split_word : (w : Bytes) → contains w b'/' ≡ false → split_on b'/' w ≡ w ∷ []
unfolding split_on contains push_front
split_word [] h = refl
split_word (c ∷ w) h = ground (arith, split_word w)

split_first :
    (w rest : Bytes)
    → contains w b'/' ≡ false
    → split_on b'/' (w ++ b'/' ∷ rest) ≡ w ∷ split_on b'/' rest
unfolding split_on contains push_front
split_first [] rest h = refl
split_first (c ∷ w) rest h = ground (arith, split_first w rest)

split-generic_string :
    (w : Bytes) (ws : FilePath)
    → All IsName (w ∷ ws)
    → split_on b'/' (generic_string (w ∷ ws)) ≡ w ∷ ws
unfolding generic_string
split-generic_string w [] a = split_word w a.0.3
split-generic_string w (v ∷ ws) a =
    split_first w (generic_string (v ∷ ws)) a.0.3 ∙ ap (◌∷◌ w) (split-generic_string v ws a.1)

squeeze_names : (ws : FilePath) → All IsName ws → squeeze ws ≡ ws
unfolding squeeze
squeeze_names [] a = refl
squeeze_names (w ∷ []) a = refl
squeeze_names (w ∷ v ∷ ws) a = rw (a.0.0) (ap (◌∷◌ w) (squeeze_names (v ∷ ws) a.1))

elements_text :
    (text : Bytes) → is_empty text ≡ false → elements text ≡ squeeze (split_on b'/' text)
unfolding elements is_empty
elements_text [] h = cc
elements_text (c ∷ text) h = refl

name_first : (w rest : Bytes) → IsName w → starts_with (w ++ rest) (b'/' ∷ []) ≡ false
unfolding starts_with is_empty contains
name_first [] rest n = cc (n.0)
name_first (c ∷ w) rest n = ground arith

text_of : (w : Bytes) (ws : FilePath) → (rest : Bytes) × (generic_string (w ∷ ws) ≡ w ++ rest)
unfolding generic_string
text_of w [] = ([], sym (append-nil w))
text_of w (v ∷ ws) = (b'/' ∷ generic_string (v ∷ ws), refl)

not_empty : (w rest : Bytes) → IsName w → is_empty (w ++ rest) ≡ false
unfolding is_empty
not_empty [] rest n = cc (n.0)
not_empty (c ∷ w) rest n = refl

normal_names :
    (ws : FilePath) (top : Bytes) (up : FilePath)
    → All IsName ws
    → normal_from false (top ∷ up) ws ≡ reverse (top ∷ up) ++ ws
unfolding normal_from finish
normal_names [] top up a = sym (append-nil _)
normal_names (w ∷ ws) top up a =
    rw (a.0.0, a.0.1, a.0.2)
      (normal_names ws w (top ∷ up) a.1 ∙ rw (reverse-cons w (top ∷ up), append_assoc) refl)

pub lexically_normal_names :
    (w : Bytes) (ws : FilePath) → All IsName (w ∷ ws) → lexically_normal (w ∷ ws) ≡ w ∷ ws
unfolding lexically_normal normal_from
lexically_normal_names w ws a = rw (a.0.0, a.0.1, a.0.2) (normal_names ws w [] a.1)

pub filename-IsName : (w : Bytes) (ws : FilePath) → All IsName (w ∷ ws) → IsName (filename (w ∷ ws))
unfolding filename
filename-IsName w [] a = a.0
filename-IsName w (v ∷ ws) a = filename-IsName v ws a.1

-- What `generic_string` writes for an accepted path is accepted, and gives the same path.
pub to_inside_path-generic_string :
    (p : FilePath) → IsInside p → to_inside_path (generic_string p) ≡ some p
unfolding to_inside_path is_empty
to_inside_path-generic_string [] h = absurd (h.0 refl)
to_inside_path-generic_string (w ∷ ws) h =
    let (rest, e) = text_of w ws in
    let n = filename-IsName w ws h.1 in
    let filled : is_empty (generic_string (w ∷ ws)) ≡ false = rw e (not_empty w rest h.1.0) in
    let unrooted : starts_with (generic_string (w ∷ ws)) (b'/' ∷ []) ≡ false =
      rw e (name_first w rest h.1.0) in
    let read : lexically_normal (elements (generic_string (w ∷ ws))) ≡ w ∷ ws =
      rw (elements_text _ filled, split-generic_string w ws h.1, squeeze_names (w ∷ ws) h.1)
        (lexically_normal_names w ws h.1) in
    rw (read, unrooted, n.0, n.1, n.2, h.1.0.2) refl
