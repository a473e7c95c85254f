-- ===== src/Manifest/Feeds/Matrix.antt =====
-- `std::vector<std::vector<bool>>`, read and written by row and column.
use makebelieve.Base.{
  ℕ, zero, suc, ◌<◌, ◌≡◌, refl, ap, ◌∙◌, ◌≢◌, ◌⊎◌, inl, inr, Bool, true, false, some, List, [], ◌∷◌,
  map, arith, length, get_elem?, All, ℕ-HasTest, List-HasTest,
}

abbrev pub Table : Type 0
Table = List (List Bool)

cell : List Bool → ℕ → Bool
cell [] i = false
cell (x ∷ xs) zero = x
cell (x ∷ xs) (suc i) = cell xs i

unfoldable pub at : Table → ℕ → ℕ → Bool
unfolding cell
at [] a b = false
at (row ∷ rows) zero b = cell row b
at (row ∷ rows) (suc a) b = at rows a b

put_cell : List Bool → ℕ → Bool → List Bool
put_cell [] i v = []
put_cell (x ∷ xs) zero v = v ∷ xs
put_cell (x ∷ xs) (suc i) v = x ∷ put_cell xs i v

unfoldable pub put : Table → ℕ → ℕ → Bool → Table
unfolding put_cell
put [] a b v = []
put (row ∷ rows) zero b v = put_cell row b v ∷ rows
put (row ∷ rows) (suc a) b v = row ∷ put rows a b v

-- A row for each entry of the first list, a column for each of the second.
unfoldable pub tabulate : {A : Type 0} → (A → A → Bool) → List A → List A → Table
tabulate f [] columns = []
tabulate f (x ∷ rows) columns = map (f x) columns ∷ tabulate f rows columns

-- The table has `n` columns in each row, and at least `n` rows.
abbrev pub IsWide : ℕ → Table → Type 0
IsWide n m = All (λ row. length row ≡ n) m

abbrev pub IsSquare : ℕ → Table → Type 0
IsSquare n m = (length m ≡ n) × IsWide n m

length-put_cell : (xs : List Bool) (i : ℕ) (v : Bool) → length (put_cell xs i v) ≡ length xs
unfolding put_cell
length-put_cell [] i v = refl
length-put_cell (x ∷ xs) zero v = refl
length-put_cell (x ∷ xs) (suc i) v = ap suc (length-put_cell xs i v)

cell-put_cell_self :
    (xs : List Bool) (i : ℕ) (v : Bool) → i < length xs → cell (put_cell xs i v) i ≡ v
unfolding cell put_cell
cell-put_cell_self [] i v h = elim h [ ]
cell-put_cell_self (x ∷ xs) zero v h = refl
cell-put_cell_self (x ∷ xs) (suc i) v h = cell-put_cell_self xs i v (omega arith)

cell-put_cell_ne :
    (xs : List Bool) (i j : ℕ) (v : Bool) → i ≢ j → cell (put_cell xs i v) j ≡ cell xs j
unfolding cell put_cell
cell-put_cell_ne [] i j v h = refl
cell-put_cell_ne (x ∷ xs) zero zero v h = absurd (h refl)
cell-put_cell_ne (x ∷ xs) zero (suc j) v h = refl
cell-put_cell_ne (x ∷ xs) (suc i) zero v h = refl
cell-put_cell_ne (x ∷ xs) (suc i) (suc j) v h = cell-put_cell_ne xs i j v (λ e. h (ap suc e))

pub at-put_self :
    (m : Table) (n a b : ℕ) (v : Bool)
    → IsWide n m
    → a < length m
    → b < n
    → at (put m a b v) a b ≡ v
unfolding at put
at-put_self [] n a b v w ha hb = elim ha [ ]
at-put_self (row ∷ m) n zero b v w ha hb = cell-put_cell_self row b v (rw (w.0) hb)
at-put_self (row ∷ m) n (suc a) b v w ha hb = at-put_self m n a b v w.1 (omega arith) hb

pub at-put_ne :
    (m : Table) (a b x y : ℕ) (v : Bool) → (a ≢ x) ⊎ (b ≢ y) → at (put m a b v) x y ≡ at m x y
unfolding at put
at-put_ne [] a b x y v h = refl
at-put_ne (row ∷ m) zero b zero y v (inl h) = absurd (h refl)
at-put_ne (row ∷ m) zero b zero y v (inr h) = cell-put_cell_ne row b y v h
at-put_ne (row ∷ m) zero b (suc x) y v h = refl
at-put_ne (row ∷ m) (suc a) b zero y v h = refl
at-put_ne (row ∷ m) (suc a) b (suc x) y v (inl h) = at-put_ne m a b x y v (inl (λ e. h (ap suc e)))
at-put_ne (row ∷ m) (suc a) b (suc x) y v (inr h) = at-put_ne m a b x y v (inr h)

length-put : (m : Table) (a b : ℕ) (v : Bool) → length (put m a b v) ≡ length m
unfolding put
length-put [] a b v = refl
length-put (row ∷ m) zero b v = refl
length-put (row ∷ m) (suc a) b v = ap suc (length-put m a b v)

put-IsWide : (m : Table) (n a b : ℕ) (v : Bool) → IsWide n m → IsWide n (put m a b v)
unfolding put
put-IsWide [] n a b v w = w
put-IsWide (row ∷ m) n zero b v w = (length-put_cell row b v ∙ w.0, w.1)
put-IsWide (row ∷ m) n (suc a) b v w = (w.0, put-IsWide m n a b v w.1)

pub put-IsSquare : (m : Table) (n a b : ℕ) (v : Bool) → IsSquare n m → IsSquare n (put m a b v)
put-IsSquare m n a b v s = (length-put m a b v ∙ s.0, put-IsWide m n a b v s.1)

cell_range : (xs : List Bool) (i : ℕ) → cell xs i ≡ true → i < length xs
unfolding cell
cell_range [] i h = cc
cell_range (x ∷ xs) zero h = omega arith
cell_range (x ∷ xs) (suc i) h = omega (arith, cell_range xs i h)

-- An entry that is set lies in the table.
pub at_range : (m : Table) (n a b : ℕ) → IsWide n m → at m a b ≡ true → (a < length m) × (b < n)
unfolding at
at_range [] n a b w h = cc
at_range (row ∷ m) n zero b w h = omega (arith, cell_range row b h, w.0)
at_range (row ∷ m) n (suc a) b w h = omega (arith, at_range m n a b w.1 h)

module _ {A : Type 0} (f : A → A → Bool) where
  cell-map :
      (x : A) (columns : List A) (b : ℕ) (y : A)
      → get_elem? columns b ≡ some y
      → cell (map (f x) columns) b ≡ f x y
  unfolding cell
  cell-map x [] b y h = cc
  cell-map x (z ∷ columns) zero y h = ground arith
  cell-map x (z ∷ columns) (suc b) y h = cell-map x columns b y h

  pub at-tabulate :
      (rows columns : List A) (a b : ℕ) (x y : A)
      → get_elem? rows a ≡ some x
      → get_elem? columns b ≡ some y
      → at (tabulate f rows columns) a b ≡ f x y
  unfolding at tabulate
  at-tabulate [] columns a b x y h k = cc
  at-tabulate (z ∷ rows) columns zero b x y h k = cell-map z columns b y k ∙ ground arith
  at-tabulate (z ∷ rows) columns (suc a) b x y h k = at-tabulate rows columns a b x y h k

  length-map : (x : A) (columns : List A) → length (map (f x) columns) ≡ length columns
  length-map x [] = refl
  length-map x (y ∷ columns) = ap suc (length-map x columns)

  pub tabulate-IsSquare :
      (rows columns : List A)
      → (length (tabulate f rows columns) ≡ length rows)
        × IsWide (length columns) (tabulate f rows columns)
  unfolding tabulate
  tabulate-IsSquare [] columns = (refl, tt)
  tabulate-IsSquare (x ∷ rows) columns =
      let (l, w) = tabulate-IsSquare rows columns in (ap suc l, (length-map x columns, w))
