-- ===== src/Paths/Inside.antt =====
-- `to_inside_path` accepts what it should: its results are normal, stay inside, and read back.
use makebelieve.Base.{
  ℕ, ◌≡◌, refl, sym, subst, ◌∙◌, ◌≢◌, ◌⊎◌, inl, inr, Bool, true, false, not, ◌&&◌, ◌||◌, none, some,
  List, [], ◌∷◌, ◌++◌, reverse, arith, if◌then◌else◌, Bool-cases, All, All-append, ◌==◌, ℕ-HasTest,
  List-HasTest, eq_iff, eq_self,
}
use makebelieve.Text.{Bytes, is_empty, split_on, contains, push_front}
use makebelieve.Paths.{
  FilePath, dot, dot_dot, squeeze, elements, climb, finish, normal_from, lexically_normal, filename,
  front, IsName, IsInside, to_inside_path,
}
use mathlib.Core.List.{reverse-cons, concat-ne-nil, append_assoc, append-nil}

abbrev NoSlash : Bytes → Type 0
NoSlash w = contains w b'/' ≡ false

push_front-NoSlash :
    (c : ℕ) (ws : List Bytes) → (c == b'/') ≡ false → All NoSlash ws → All NoSlash (push_front c ws)
unfolding push_front contains
push_front-NoSlash c [] h a = ground arith
push_front-NoSlash c (w ∷ ws) h a = ground arith

split_on-NoSlash : (text : Bytes) → All NoSlash (split_on b'/' text)
unfolding split_on contains
split_on-NoSlash [] = (refl, tt)
split_on-NoSlash (c ∷ text) = elim (Bool-cases (c == b'/')) [
  | inl h ↦ rw h (refl, split_on-NoSlash text)
  | inr h ↦ rw h (push_front-NoSlash c (split_on b'/' text) h (split_on-NoSlash text))
]

squeeze-NoSlash : (ws : List Bytes) → All NoSlash ws → All NoSlash (squeeze ws)
unfolding squeeze
squeeze-NoSlash [] a = a
squeeze-NoSlash (w ∷ []) a = a
squeeze-NoSlash (w ∷ v ∷ ws) a = elim (Bool-cases (is_empty w)) [
  | inl h ↦ rw h (squeeze-NoSlash (v ∷ ws) a.1)
  | inr h ↦ rw h (a.0, squeeze-NoSlash (v ∷ ws) a.1)
]

elements-NoSlash : (text : Bytes) → All NoSlash (elements text)
unfolding elements
elements-NoSlash [] = tt
elements-NoSlash (c ∷ text) = squeeze-NoSlash _ (split_on-NoSlash (c ∷ text))

-- Innermost first: names, below some `..`.
abbrev AllDots : FilePath → Type 0
AllDots = All (λ w. w ≡ dot_dot)

abbrev IsStack : FilePath → Type 0
IsStack [] = Unit
IsStack (w ∷ up) = (IsName w × IsStack up) ⊎ ((w ≡ dot_dot) × AllDots up)

-- A stack with a `..` in it shows it in front.
stack_front :
    (stack rest : FilePath)
    → IsStack stack
    → All IsName stack ⊎ (front (reverse stack ++ rest) ≡ dot_dot)
stack_front [] rest s = inl tt
stack_front (w ∷ []) rest (inl (n, _)) = inl (n, tt)
stack_front (w ∷ []) rest (inr (e, _)) = inr e
stack_front (w ∷ v ∷ up) rest (inl (n, s)) = elim (stack_front (v ∷ up) (w ∷ rest) s) [
  | inl a ↦ inl (n, a)
  | inr e ↦ inr (rw (reverse-cons w (v ∷ up), append_assoc) e)
]
stack_front (w ∷ v ∷ up) rest (inr (e, d)) =
    elim (stack_front (v ∷ up) (w ∷ rest) (inr (d.0, d.1))) [
      | inl a ↦ absurd (dots_no_name v d.0 a.0)
      | inr f ↦ inr (rw (reverse-cons w (v ∷ up), append_assoc) f)
    ]
  where
    dots_no_name : (v : Bytes) → v ≡ dot_dot → IsName v → ⊥
    dots_no_name v e n = cc (sym (eq_self dot_dot), rw e at n.2)

AllDots-IsStack : (stack : FilePath) → AllDots stack → IsStack stack
AllDots-IsStack [] d = tt
AllDots-IsStack (w ∷ up) d = inr (d.0, d.1)

climb_top : (w : Bytes) (up : FilePath) → IsStack (w ∷ up) → IsStack (climb (w ∷ up))
unfolding climb
climb_top w up (inl (n, s)) = rw (n.2) s
climb_top w up (inr (e, d)) = rw (e, eq_self dot_dot) (inr (refl, (refl, d)))

climb-IsStack : (stack : FilePath) → IsStack stack → IsStack (climb stack)
climb-IsStack [] s = unfold climb in inr (refl, tt)
climb-IsStack (w ∷ up) s = climb_top w up s

-- What the checks of `to_inside_path` leave.
abbrev Passes : FilePath → Type 0
Passes p =
    (is_empty (filename p) ≡ false) × ((filename p == dot) ≡ false) × ((front p == dot_dot) ≡ false)

filename-trailing : (p : FilePath) → filename (p ++ [] ∷ []) ≡ []
unfolding filename
filename-trailing [] = refl
filename-trailing (w ∷ []) = refl
filename-trailing (w ∷ v ∷ p) = filename-trailing (v ∷ p)

All-reverse : (p : FilePath) → All IsName p → All IsName (reverse p)
All-reverse [] a = tt
All-reverse (w ∷ p) a =
    rw (reverse-cons w p) (All-append IsName (reverse p) (w ∷ []) (All-reverse p a.1) (a.0, tt))

reverse-ne-nil : (w : Bytes) (p : FilePath) → reverse (w ∷ p) ≢ []
reverse-ne-nil w p e = concat-ne-nil w (reverse p) (sym (reverse-cons w p) ∙ e)

finish-IsInside :
    (trailing : Bool) (stack : FilePath)
    → IsStack stack
    → Passes (finish trailing stack)
    → IsInside (finish trailing stack)
unfolding finish filename
finish-IsInside trailing [] s p = absurd (cc (sym (eq_self dot), p.1))
finish-IsInside trailing (w ∷ up) s p = elim (Bool-cases (trailing && not (w == dot_dot))) [
  | inl h ↦
      let q : Passes (reverse (w ∷ up) ++ [] ∷ []) = rw h at p in
      absurd (unfold is_empty in (cc (rw (filename-trailing (reverse (w ∷ up))) at q.0)))
  | inr h ↦ rw h (plain (rw h at p))
]
  where
    plain : Passes (reverse (w ∷ up)) → IsInside (reverse (w ∷ up))
    plain q = elim (stack_front (w ∷ up) [] s) [
      | inl a ↦ (reverse-ne-nil w up, All-reverse (w ∷ up) a)
      | inr e ↦ cc ((eq_iff (front (reverse (w ∷ up))) dot_dot).1 (rw append-nil at e), q.2)
    ]

normal_from-IsInside :
    (ws : FilePath) (trailing : Bool) (stack : FilePath)
    → All NoSlash ws
    → IsStack stack
    → Passes (normal_from trailing stack ws)
    → IsInside (normal_from trailing stack ws)
unfolding normal_from
normal_from-IsInside [] trailing stack a s p = finish-IsInside trailing stack s p
normal_from-IsInside (w ∷ ws) trailing stack a s p = elim (Bool-cases (is_empty w || w == dot)) [
  | inl h ↦ rw h (normal_from-IsInside ws true stack a.1 s (rw h at p))
  | inr h ↦ elim (Bool-cases (w == dot_dot)) [
    | inl up ↦
        rw (h, up)
          (normal_from-IsInside ws true (climb stack) a.1 (climb-IsStack stack s) (rw (h, up) at p))
    | inr name ↦
        rw (h, name)
          (normal_from-IsInside ws false (w ∷ stack) a.1
            (inl ((ground arith, ground arith, name, a.0), s)) (rw (h, name) at p))
  ]
]

lexically_normal-IsInside :
    (ws : FilePath)
    → All NoSlash ws
    → is_empty (lexically_normal ws) ≡ false
    → Passes (lexically_normal ws)
    → IsInside (lexically_normal ws)
unfolding lexically_normal is_empty
lexically_normal-IsInside [] a e p = cc
lexically_normal-IsInside (w ∷ ws) a e p = normal_from-IsInside (w ∷ ws) false [] a tt p

passed_checks :
    (q : FilePath) (rooted : Bool) {p : FilePath}
    → (if is_empty q
          || rooted
          || is_empty (filename q)
          || filename q == dot
          || filename q == dot_dot
          || front q == dot_dot
        then none
        else some q)
      ≡ some p
    → (q ≡ p) × (is_empty q ≡ false) × Passes q
passed_checks q rooted h = elim (Bool-cases (is_empty q)) [
  | inl e ↦ absurd (ground arith)
  | inr e ↦ (ground arith, e, (ground arith, ground arith, ground arith))
]

-- An accepted path is not empty, and every component is a name: not empty, not `.` or `..`, and
-- with no separator in it.
pub to_inside_path-IsInside :
    (text : Bytes) {p : FilePath} → to_inside_path text ≡ some p → IsInside p
unfolding to_inside_path
to_inside_path-IsInside text {p} h =
    let (e, n, c) = passed_checks (lexically_normal (elements text)) _ h in
    subst IsInside e (lexically_normal-IsInside (elements text) (elements-NoSlash text) n c)
