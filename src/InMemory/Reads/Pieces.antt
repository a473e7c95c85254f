-- ===== src/InMemory/Reads/Pieces.antt =====
-- Files read in pieces, and whole.
use makebelieve.Base.{
  ℕ, zero, suc, ◌+◌, ◌≡◌, refl, sym, ap, subst, ◌∙◌, inl, inr, true, false, Option, none, some,
  List, [], ◌∷◌, ◌++◌, arith, leb, if◌then◌else◌, Bool-cases, length, take, drop, ◌==◌, ℕ-HasTest,
  List-HasTest, eq_cases, Result, ok, ◌>>=◌, ok-injective,
}
use makebelieve.Base.OrdMap
use native.Mathlib.Numerals.{unary_clauses}
use makebelieve.Text.{Bytes}
use makebelieve.Paths.{FilePath}
use makebelieve.DirectoryTree.{pos, FileInfo, EntryInfo, file, directory, FileContent, ErrorCode}
use makebelieve.InMemory.{Tree, Node, normalize}
use makebelieve.InMemory.Reads.{status, read, read_whole, inside, entry, slice, bytes_of, whole}
use makebelieve.InMemory.Valid.{Holds}
use makebelieve.InMemory.Reachable.{Reached, Reached-IsValid}

zero_left : (k : ℕ) → 0 + k ≡ k
zero_left k = omega arith

suc_left : (n k : ℕ) → suc n + k ≡ suc (n + k)
suc_left n k = omega arith

take_add : {A : Type 0} (n k : ℕ) (xs : List A) → take (n + k) xs ≡ take n xs ++ take k (drop n xs)
take_add {A} zero k xs = ap (λ j. take j xs) (zero_left k)
take_add (suc n) zero [] = simp unary_clauses refl
take_add (suc n) (suc k) [] = simp unary_clauses refl
take_add (suc n) k (x ∷ xs) = rw (suc_left n k) (ap (◌∷◌ x) (take_add n k xs))

drop_add : {A : Type 0} (n k : ℕ) (xs : List A) → drop k (drop n xs) ≡ drop (n + k) xs
drop_add zero k xs = ap (λ j. drop j xs) (sym (zero_left k))
drop_add (suc n) zero [] = simp unary_clauses refl
drop_add (suc n) (suc k) [] = simp unary_clauses refl
drop_add (suc n) k (x ∷ xs) = rw (suc_left n k) (drop_add n k xs)

drop_all : {A : Type 0} (n : ℕ) (xs : List A) → leb (length xs) n ≡ true → drop n xs ≡ []
drop_all zero [] h = refl
drop_all (suc n) [] h = refl
drop_all zero (x ∷ xs) h = ground arith
drop_all (suc n) (x ∷ xs) h = drop_all n xs (ground arith)

take_none : {A : Type 0} (n : ℕ) → take {A = A} n [] ≡ []
take_none zero = refl
take_none (suc n) = refl

-- The file that a path names.
record Found (t : Tree) (path : Bytes) : Type 0 where
  place : FilePath
  node : Node
  info : FileInfo
  named : normalize path ≡ some place
  at : OrdMap.find place t.entries ≡ some node
  is : node.info ≡ file info

slice-found :
    (content : Bytes) (o size : ℕ) (i : EntryInfo) {x : Bytes}
    → slice content o size i ≡ ok x
    → (k : FileInfo) × (i ≡ file k)
slice-found content o size (directory k) h = cc
slice-found content o size (file k) h = (k, refl)

entry-found :
    {T : Type 0} (n : Option Node) (next : Node → Result ErrorCode T) {x : T}
    → (entry n >>= next) ≡ ok x
    → (m : Node) × (n ≡ some m) × (next m ≡ ok x)
entry-found none next h = cc
entry-found (some m) next h = (m, refl, h)

inside-found :
    {T : Type 0} (p : Option FilePath) (next : FilePath → Result ErrorCode T) {x : T}
    → inside p next ≡ ok x
    → (q : FilePath) × (p ≡ some q) × (next q ≡ ok x)
inside-found none next h = cc
inside-found (some q) next h = (q, refl, h)

read-Found :
    (t : Tree) (path : Bytes) (o size : ℕ) {x : Bytes}
    → (size == 0) ≡ false
    → read t path (pos o) size ≡ ok x
    → Found t path
unfolding read
read-Found t path o size {x} z h =
    let (p, named, h1) = inside-found (normalize path) _ h in
    let (n, at, h2) =
      entry-found (OrdMap.find p t.entries) (λ m. slice (bytes_of m.content) o size m.info)
        (subst
          (λ b.
            (if b
              then ok []
              else (entry (OrdMap.find p t.entries) >>= λ m.
                  slice (bytes_of m.content) o size m.info))
            ≡ ok x)
          z h1) in
    let (k, is) = slice-found (bytes_of n.content) o size n.info h2 in
    record { place = p; node = n; info = k; named = named; at = at; is = is }

slice-file :
    (content : Bytes) (o size : ℕ) (k : FileInfo)
    → slice content o size (file k) ≡ ok (take size (drop o content))
slice-file content o size k = elim (Bool-cases (leb (length content) o)) [
  | inl h ↦ rw (h, drop_all o content h, take_none size) refl
  | inr h ↦ rw h refl
]

slice_or_none :
    (content : Bytes) (o size : ℕ) (k : FileInfo)
    → (if size == 0 then ok [] else slice content o size (file k)) ≡ ok (take size (drop o content))
slice_or_none content o size k = elim (eq_cases size 0) [
  | inl (e, t) ↦ rw (t, e) refl
  | inr (_, t) ↦ rw t (slice-file content o size k)
]

read-slice :
    (t : Tree) (path : Bytes) (f : Found t path) (o size : ℕ)
    → read t path (pos o) size ≡ ok (take size (drop o (bytes_of f.node.content)))
unfolding read
read-slice t path f o size =
    rw (f.named, f.at, f.is) (slice_or_none (bytes_of f.node.content) o size f.info)

same_ok : {T : Type 0} (r : Result ErrorCode T) {x y : T} → r ≡ ok x → r ≡ ok y → y ≡ x
same_ok r h k = cc

read-none :
    (t : Tree) (path : Bytes) (o size : ℕ) {x : Bytes}
    → (size == 0) ≡ true
    → read t path (pos o) size ≡ ok x
    → x ≡ []
unfolding read
read-none t path o size {x} z h =
    let (p, named, h1) = inside-found (normalize path) _ h in
    ok-injective (
      sym (
        subst
          (λ b.
            (if b
              then ok []
              else (entry (OrdMap.find p t.entries) >>= λ m.
                  slice (bytes_of m.content) o size m.info))
            ≡ ok x)
          z h1))

whole-file :
    (content : Bytes) (i : EntryInfo) {f : FileContent}
    → whole content i ≡ ok f
    → (i ≡ file f.info) × (content ≡ f.bytes)
whole-file content (directory k) h = cc
whole-file content (file k) h =
    let e = ok-injective h in (ap (λ f. file f.info) e, ap (λ f. f.bytes) e)

file-Holds :
    (n : Node) (k : FileInfo) → n.info ≡ file k → Holds n → k.size ≡ length (bytes_of n.content)
file-Holds n k is h =
    let (c, e, s) =
      subst
        (λ i. elim i [
          | file j ↦ (c : Bytes) × (n.content ≡ some c) × (j.size ≡ length c)
          | directory j ↦ n.content ≡ none
        ])
        is h in
    rw (e) s

take_all : (xs : Bytes) → take (length xs) xs ≡ xs
take_all [] = refl
take_all (x ∷ xs) = ap (◌∷◌ x) (take_all xs)

-- Two reads that succeed, the second from where the first asked up to, give together what one read
-- of both lengths gives, also where they reach past the end of the file.
pub read-append :
    (t : Tree) (path : Bytes) (offset first second : ℕ) (x y : Bytes)
    → read t path (pos offset) first ≡ ok x
    → read t path (pos (offset + first)) second ≡ ok y
    → read t path (pos offset) (first + second) ≡ ok (x ++ y)
read-append t path offset first second x y h1 h2 = elim (eq_cases first 0) [
  | inl (e, z) ↦
      rw (read-none t path offset first z h1, e, zero_left second)
        (subst (λ j. read t path (pos j) second ≡ ok y) (omega (arith, e)) h2)
  | inr (_, z) ↦
      let f = read-Found t path offset first z h1 in
      let s1 = read-slice t path f offset first in
      let s2 = read-slice t path f (offset + first) second in
      rw (read-slice t path f offset (first + second), same_ok _ s1 h1, same_ok _ s2 h2)
        (ap ok (
          take_add first second (drop offset (bytes_of f.node.content))
          ∙ ap (λ w. take first (drop offset (bytes_of f.node.content)) ++ take second w)
              (drop_add offset first (bytes_of f.node.content))))
]

-- A file read whole: `status` tells the same of it, `read` gives the same bytes for their length,
-- and on a tree that the operations lead to its size is theirs.
pub read_whole_agrees :
    {t : Tree} (path : Bytes) (f : FileContent)
    → Reached t
    → read_whole t path ≡ ok f
    → (status t path ≡ ok (file f.info))
      × (read t path (pos 0) (length f.bytes) ≡ ok f.bytes)
      × (f.info.size ≡ length f.bytes)
unfolding read_whole status
read_whole_agrees {t} path f r h =
    let (p, named, h1) = inside-found (normalize path) _ h in
    let (n, at, h2) =
      entry-found (OrdMap.find p t.entries) (λ n. whole (bytes_of n.content) n.info) h1 in
    let v = Reached-IsValid r in
    let (is, same) = whole-file (bytes_of n.content) n.info h2 in
    let found : Found t path = record {
      place = p;
      node = n;
      info = f.info;
      named = named;
      at = at;
      is = is;
    } in
    (
      rw (named, at, is) refl,
      read-slice t path found 0 (length f.bytes) ∙ ap ok (rw same (take_all f.bytes)),
      rw (← same) (file-Holds n f.info is (v.holds p n at)),
    )
