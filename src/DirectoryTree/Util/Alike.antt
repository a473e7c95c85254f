-- ===== src/DirectoryTree/Util/Alike.antt =====
-- What it means that no difference is found, and that the search ends.
use makebelieve.Base.{
  ℕ, zero, suc, ◌≡◌, refl, sym, ap, subst, ◌∙◌, ◌⊎◌, inl, inr, true, false, Option, none, some,
  List, [], ◌∷◌, ◌++◌, if◌then◌else◌, Bool-cases, length, In, ℕ-HasTest, List-HasTest, eq_cases,
  Result, ok, err, ok-injective,
}
use makebelieve.Base.Optional.{some_value, no_value}
use makebelieve.Text.{Bytes}
use makebelieve.Paths.{FilePath, bytes_before}
use makebelieve.DirectoryTree.{
  FileInfo, DirectoryInfo, EntryInfo, file, directory, TreeEntry, ErrorCode,
}
use makebelieve.DirectoryTree.Util.{
  DirectoryTree, Difference, content_differs, children_differ, insert_name, sorted_names,
  first_difference, compare_files, compare_names, compare_lists, compare_status, diff_at,
}

-- Neither tree has the path, or both have a file of the same content, or both a directory with
-- children of the same names.
pub data Alike (a b : DirectoryTree) (p : FilePath) : Type 0 where
  missing : (e f : ErrorCode) → a.status p ≡ err e → b.status p ≡ err f → Alike a b p
  files :
      (i j : FileInfo) (x : Bytes)
      → a.status p ≡ ok (file i)
      → b.status p ≡ ok (file j)
      → a.read p 0 i.size ≡ ok x
      → b.read p 0 j.size ≡ ok x
      → Alike a b p
  directories :
      (i j : DirectoryInfo) (es fs : List TreeEntry)
      → a.status p ≡ ok (directory i)
      → b.status p ≡ ok (directory j)
      → a.ls p ≡ ok es
      → b.ls p ≡ ok fs
      → sorted_names es ≡ sorted_names fs
      → Alike a b p

-- The paths that the listings of a tree lead to.
pub data Below (t : DirectoryTree) : FilePath → FilePath → Type 0 where
  here : {p : FilePath} → Below t p p
  child :
      {p q : FilePath} (i : DirectoryInfo) (es : List TreeEntry) (e : TreeEntry)
      → t.status p ≡ ok (directory i)
      → t.ls p ≡ ok es
      → In e es
      → Below t (p ++ e.name ∷ []) q
      → Below t p q

In-insert_name : (n m : Bytes) (ns : List Bytes) → (n ≡ m) ⊎ In n ns → In n (insert_name m ns)
In-insert_name n m [] h = h
In-insert_name n m (o ∷ ns) h = elim (Bool-cases (bytes_before o m)) [
  | inr t ↦ rw t h
  | inl t ↦ rw t (elim h [
    | inl same ↦ inr (In-insert_name n m ns (inl same))
    | inr (inl first) ↦ inl first
    | inr (inr later) ↦ inr (In-insert_name n m ns (inr later))
  ])
]

In-sorted_names : (e : TreeEntry) (es : List TreeEntry) → In e es → In e.name (sorted_names es)
unfolding sorted_names
In-sorted_names e [] i = elim i [ ]
In-sorted_names e (d ∷ es) (inl same) =
    In-insert_name e.name d.name (sorted_names es) (inl (ap (λ x. x.name) same))
In-sorted_names e (d ∷ es) (inr later) =
    In-insert_name e.name d.name (sorted_names es) (inr (In-sorted_names e es later))

first_difference-none :
    (g : FilePath → Option (Option Difference)) (p : FilePath) (ns : List Bytes)
    → first_difference g p ns ≡ some none
    → (n : Bytes) → In n ns
    → g (p ++ n ∷ []) ≡ some none
unfolding first_difference
first_difference-none g p [] h n i = elim i [ ]
first_difference-none g p (m ∷ ns) h n i =
    go (g (p ++ m ∷ [])) refl h i (first_difference-none g p ns)
  where
    go :
        (o : Option (Option Difference))
        → g (p ++ m ∷ []) ≡ o
        → elim o [
          | none ↦ none
          | some (some d) ↦ some (some d)
          | some none ↦ first_difference g p ns
        ]
          ≡ some none
        → In n (m ∷ ns)
        → (first_difference g p ns ≡ some none
            → (k : Bytes) → In k ns
            → g (p ++ k ∷ []) ≡ some none)
        → g (p ++ n ∷ []) ≡ some none
    go none e h i next = cc
    go (some (some d)) e h i next = absurd (no_value (sym (some_value h)))
    go (some none) e h (inl same) next = subst (λ x. g (p ++ x ∷ []) ≡ some none) (sym same) e
    go (some none) e h (inr later) next = next h n later

-- What a comparison of one path found when it found no difference.
record NoDifference (g : FilePath → Option (Option Difference)) (a b : DirectoryTree) (p : FilePath)
    : Type 0 where
  alike : Alike a b p
  inside :
      (i : DirectoryInfo) (es : List TreeEntry) (e : TreeEntry)
      → a.status p ≡ ok (directory i)
      → a.ls p ≡ ok es
      → In e es
      → g (p ++ e.name ∷ []) ≡ some none

files-none :
    (p : FilePath) (r s : Result ErrorCode Bytes)
    → compare_files p r s ≡ none
    → (x : Bytes) × (r ≡ ok x) × (s ≡ ok x)
files-none p (err e) s h = cc
files-none p (ok x) (err e) h = cc
files-none p (ok x) (ok y) h = elim (eq_cases x y) [
  | inl (e, _) ↦ (x, refl, ap ok (sym e))
  | inr (_, t) ↦ absurd (
      no_value (
        sym (
          subst (λ z. (if z then none else some (content_differs p (length x) (length y))) ≡ none) t
            h)))
]

names-none :
    (g : FilePath → Option (Option Difference)) (p : FilePath) (ns ms : List Bytes)
    → compare_names g p ns ms ≡ some none
    → (ns ≡ ms) × (first_difference g p ns ≡ some none)
names-none g p ns ms h = elim (eq_cases ns ms) [
  | inl (e, t) ↦ (
    e,
    subst
        (λ z.
          elim z [ true ↦ first_difference g p ns | false ↦ some (some (children_differ p ns ms)) ]
          ≡ some none)
        t h,
  )
  | inr (_, t) ↦ absurd (
      no_value (
        sym (
          some_value (
            subst
              (λ z.
                elim z [
                  | true ↦ first_difference g p ns
                  | false ↦ some (some (children_differ p ns ms))
                ]
                ≡ some none)
              t h))))
]

lists-none :
    (g : FilePath → Option (Option Difference)) (p : FilePath)
    (r s : Result ErrorCode (List TreeEntry))
    → compare_lists g p r s ≡ some none
    → (es : List TreeEntry) × (fs : List TreeEntry) × (r ≡ ok es)
      × (s ≡ ok fs)
      × (compare_names g p (sorted_names es) (sorted_names fs) ≡ some none)
lists-none g p (err e) s h = absurd (no_value (sym (some_value h)))
lists-none g p (ok es) (err e) h = absurd (no_value (sym (some_value h)))
lists-none g p (ok es) (ok fs) h = (es, fs, refl, refl, h)

status-NoDifference :
    (g : FilePath → Option (Option Difference)) (a b : DirectoryTree) (p : FilePath)
    (r s : Result ErrorCode EntryInfo)
    → a.status p ≡ r
    → b.status p ≡ s
    → compare_status g a b p r s ≡ some none
    → NoDifference g a b p
status-NoDifference g a b p (err e) (err f) x y h = record {
  alike = missing e f x y;
  inside = λ i es e at. cc;
}
status-NoDifference g a b p (ok (file i)) (ok (file j)) x y h =
    let (c, r, s) = files-none p (a.read p 0 i.size) (b.read p 0 j.size) (some_value h) in
    record { alike = files i j c x y r s; inside = λ i es e at. cc }
status-NoDifference g a b p (ok (directory i)) (ok (directory j)) x y h =
    let (es, fs, r, s, t) = lists-none g p (a.ls p) (b.ls p) h in
    let (same, none_found) = names-none g p (sorted_names es) (sorted_names fs) t in
    record {
      alike = directories i j es fs x y r s same;
      inside = λ k ds e at listed i.
          first_difference-none g p (sorted_names es) none_found e.name
            (In-sorted_names e es (subst (In e) (ok-injective (sym listed ∙ r)) i));
    }
status-NoDifference g a b p (ok i) (err f) x y h = absurd (no_value (sym (some_value h)))
status-NoDifference g a b p (err e) (ok j) x y h = absurd (no_value (sym (some_value h)))
status-NoDifference g a b p (ok (file i)) (ok (directory j)) x y h =
    absurd (no_value (sym (some_value h)))
status-NoDifference g a b p (ok (directory i)) (ok (file j)) x y h =
    absurd (no_value (sym (some_value h)))

at-NoDifference :
    (n : ℕ) (a b : DirectoryTree) (p : FilePath)
    → diff_at (suc n) a b p ≡ some none
    → NoDifference (diff_at n a b) a b p
unfolding diff_at
at-NoDifference n a b p h =
    status-NoDifference (diff_at n a b) a b p (a.status p) (b.status p) refl refl h

no_fuel : (a b : DirectoryTree) (p : FilePath) → ¬ (diff_at 0 a b p ≡ some none)
unfolding diff_at
no_fuel a b p h = no_value h

-- When the search below a path ends and finds no difference, the trees are alike at every path that
-- the listings of the first lead to from there.
pub diff_at-Alike :
    (fuel : ℕ) (a b : DirectoryTree) (p q : FilePath)
    → diff_at fuel a b p ≡ some none
    → Below a p q
    → Alike a b q
diff_at-Alike zero a b p q h below = absurd (no_fuel a b p h)
diff_at-Alike (suc n) a b p _ h here = (at-NoDifference n a b p h).alike
diff_at-Alike (suc n) a b p q h (child i es e at listed in_it below) =
    diff_at-Alike n a b (p ++ e.name ∷ []) q
      ((at-NoDifference n a b p h).inside i es e at listed in_it) below
