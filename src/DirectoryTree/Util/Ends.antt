-- ===== src/DirectoryTree/Util/Ends.antt =====
-- The search for a difference ends on trees that are less deep than the fuel.
use makebelieve.Base.{
  ℕ, zero, suc, ◌≡◌, refl, sym, subst, ◌⊎◌, inl, inr, Bool, true, false, Option, none, some, List,
  [], ◌∷◌, ◌++◌, if◌then◌else◌, In, ◌==◌, ℕ-HasTest, List-HasTest, Result, ok, err,
}
use makebelieve.Text.{Bytes}
use makebelieve.Paths.{FilePath, bytes_before}
use makebelieve.DirectoryTree.{EntryInfo, file, directory, TreeEntry, ErrorCode}
use makebelieve.DirectoryTree.Util.{
  DirectoryTree, Difference, insert_name, sorted_names, first_difference, compare_names,
  compare_lists, compare_status, diff_at, children_differ,
}

-- The listings below the path are nested less deep than `depth`.
abbrev pub IsShallow : DirectoryTree → ℕ → FilePath → Type 0
IsShallow t zero p = ⊥
IsShallow t (suc depth) p =
    (es : List TreeEntry) (e : TreeEntry)
    → t.ls p ≡ ok es
    → In e es
    → IsShallow t depth (p ++ e.name ∷ [])

abbrev Ends : Option (Option Difference) → Type 0
Ends o = (d : Option Difference) × (o ≡ some d)

insert_name-In : (n m : Bytes) (ns : List Bytes) → In n (insert_name m ns) → (n ≡ m) ⊎ In n ns
insert_name-In n m [] h = h
insert_name-In n m (o ∷ ns) h = go (bytes_before o m) h (insert_name-In n m ns)
  where
    go :
        (b : Bool)
        → In n (if b then o ∷ insert_name m ns else m ∷ o ∷ ns)
        → (In n (insert_name m ns) → (n ≡ m) ⊎ In n ns)
        → (n ≡ m) ⊎ In n (o ∷ ns)
    go true (inl first) next = inr (inl first)
    go true (inr later) next = elim (next later) [ inl e ↦ inl e | inr i ↦ inr (inr i) ]
    go false h next = h

sorted_names-In :
    (n : Bytes) (es : List TreeEntry)
    → In n (sorted_names es)
    → (e : TreeEntry) × In e es × (n ≡ e.name)
unfolding sorted_names
sorted_names-In n [] i = elim i [ ]
sorted_names-In n (d ∷ es) i = elim (insert_name-In n d.name (sorted_names es) i) [
  | inl same ↦ (d, inl refl, same)
  | inr later ↦ let (e, there, same) = sorted_names-In n es later in (e, inr there, same)
]

first-Ends :
    (g : FilePath → Option (Option Difference)) (p : FilePath) (ns : List Bytes)
    → ((n : Bytes) → In n ns → Ends (g (p ++ n ∷ [])))
    → Ends (first_difference g p ns)
unfolding first_difference
first-Ends g p [] h = (none, refl)
first-Ends g p (n ∷ ns) h =
    let (d, e) = h n (inl refl) in go d (g (p ++ n ∷ [])) e (first-Ends g p ns (λ m i. h m (inr i)))
  where
    go :
        (d : Option Difference) (o : Option (Option Difference))
        → o ≡ some d
        → Ends (first_difference g p ns)
        → Ends (elim o [
          | none ↦ none
          | some (some c) ↦ some (some c)
          | some none ↦ first_difference g p ns
        ])
    go d none e next = cc
    go d (some (some c)) e next = (some c, refl)
    go d (some none) e next = next

names-Ends :
    (g : FilePath → Option (Option Difference)) (p : FilePath) (ns ms : List Bytes)
    → Ends (first_difference g p ns)
    → Ends (compare_names g p ns ms)
names-Ends g p ns ms h = go (ns == ms)
  where
    go :
        (b : Bool)
        → Ends (elim b [
          | true ↦ first_difference g p ns
          | false ↦ some (some (children_differ p ns ms))
        ])
    go true = h
    go false = (some (children_differ p ns ms), refl)

lists-Ends :
    (g : FilePath → Option (Option Difference)) (p : FilePath)
    (r s : Result ErrorCode (List TreeEntry))
    → ((es : List TreeEntry) (e : TreeEntry) → r ≡ ok es → In e es → Ends (g (p ++ e.name ∷ [])))
    → Ends (compare_lists g p r s)
lists-Ends g p (err e) s h = (_, refl)
lists-Ends g p (ok es) (err e) h = (_, refl)
lists-Ends g p (ok es) (ok fs) h = names-Ends g p (sorted_names es) (sorted_names fs) (
    first-Ends g p (sorted_names es) (λ n i.
      let (e, there, same) = sorted_names-In n es i in
      subst (λ x. Ends (g (p ++ x ∷ []))) (sym same) (h es e refl there)))

status-Ends :
    (g : FilePath → Option (Option Difference)) (a b : DirectoryTree) (p : FilePath)
    (r s : Result ErrorCode EntryInfo)
    → Ends (compare_lists g p (a.ls p) (b.ls p))
    → Ends (compare_status g a b p r s)
status-Ends g a b p (err e) (err f) h = (_, refl)
status-Ends g a b p (ok (file i)) (ok (file j)) h = (_, refl)
status-Ends g a b p (ok (directory i)) (ok (directory j)) h = h
status-Ends g a b p (ok i) (err f) h = (_, refl)
status-Ends g a b p (err e) (ok j) h = (_, refl)
status-Ends g a b p (ok (file i)) (ok (directory j)) h = (_, refl)
status-Ends g a b p (ok (directory i)) (ok (file j)) h = (_, refl)

-- On a tree whose listings are nested less deep than the fuel, the search ends: with a difference,
-- or with none.
pub diff_at_ends :
    (fuel : ℕ) (a b : DirectoryTree) (p : FilePath)
    → IsShallow a fuel p
    → (d : Option Difference) × (diff_at fuel a b p ≡ some d)
unfolding diff_at
diff_at_ends zero a b p h = absurd h
diff_at_ends (suc n) a b p h = status-Ends (diff_at n a b) a b p (a.status p) (b.status p) (
    lists-Ends (diff_at n a b) p (a.ls p) (b.ls p)
      (λ es e listed i. diff_at_ends n a b (p ++ e.name ∷ []) (h es e listed i)))
