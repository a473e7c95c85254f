-- ===== src/Manifest/Declare/Checks.antt =====
-- What the checks of a line that was accepted rule out.
use makebelieve.Base.{
  ℕ, ◌≡◌, refl, sym, subst, ◌∙◌, inl, inr, Bool, true, false, Option, none, some, List, [], ◌∷◌,
  arith, or_right, find_if, In, ℕ-HasTest, List-HasTest, eq_self, eq_cases, ok, ok_steps,
}
use makebelieve.Base.OrdMap
use makebelieve.Text.{Bytes, ends_with}
use makebelieve.Text.Laws.{ends_with-split, ends_with_comparable}
use makebelieve.Paths.{FilePath, FilePath-Order, filename, parent_path, ancestors}
use makebelieve.Manifest.Line.{Declared}
use makebelieve.Manifest.Declare.{
  Progress, BannedSuffix, banned_in, banned_suffix, suffix_of, file_above, banned_above,
  reject_some, ends_in_it, suffixes_clash, check_place, check_wildcard, check_simple,
  check_declared,
}
use makebelieve.Manifest.Declare.Taken.{IsKey, Taken}
use makebelieve.Manifest.{Reason}

module _ {A : Type 0} where
  reject_some-none :
      (o : Option A) (f : A → Reason) {u : Unit {0}} → reject_some o f ≡ ok u → o ≡ none
  reject_some-none none f h = refl
  reject_some-none (some a) f h = cc

  find_if-none : (p : A → Bool) (a : A) (xs : List A) → find_if p xs ≡ none → In a xs → p a ≡ false
  find_if-none p a [] h m = absurd m
  find_if-none p a (x ∷ xs) h (inl e) = rw e (ground arith)
  find_if-none p a (x ∷ xs) h (inr m) = find_if-none p a xs (ground arith) m

find_entry :
    (k : FilePath) (n : ℕ) (m : List (FilePath × ℕ)) → OrdMap.find k m ≡ some n → In (k, n) m
unfolding OrdMap.find
find_entry k n [] e = cc
find_entry k n ((j, v) ∷ m) e = elim (eq_cases j k) [
  | inl (f, t) ↦ let g : v ≡ n = ground arith in inl (rw (f, g) refl)
  | inr (f, t) ↦ inr (find_entry k n m (ground arith))
]

-- A search that found nothing, at a key.
key_entry :
    (p : FilePath × ℕ → Bool) (k : FilePath) (m : List (FilePath × ℕ))
    → find_if p m ≡ none
    → (key : IsKey k m) → p (k, key.0) ≡ false
key_entry p k m h (n, e) = find_if-none p (k, n) m h (find_entry k n m e)

file_above-none :
    (st : Progress) (ps : List FilePath) (p : FilePath)
    → file_above st ps ≡ none
    → In p ps
    → OrdMap.find p st.files ≡ none
unfolding file_above
file_above-none st [] p h m = absurd m
file_above-none st (q ∷ ps) p h (inl e) = rw e (ground arith)
file_above-none st (q ∷ ps) p h (inr m) = file_above-none st ps p (ground arith) m

banned_above-none :
    (st : Progress) (ps : List FilePath) (p : FilePath)
    → banned_above st ps ≡ none
    → In p ps
    → banned_suffix st p ≡ none
unfolding banned_above
banned_above-none st [] p h m = absurd m
banned_above-none st (q ∷ ps) p h (inl e) = rw e (ground arith)
banned_above-none st (q ∷ ps) p h (inr m) = banned_above-none st ps p (ground arith) m

free_place :
    (st : Progress) (p : FilePath)
    → OrdMap.find p st.files ≡ none
    → banned_suffix st p ≡ none
    → ¬ Taken st p
unfolding banned_suffix
free_place st p f b (inl (n, e)) = cc (f, e)
free_place st p f b (inr (c, m, e)) =
    cc (find_if-none (λ other. ends_with (filename p) other.suffix) c _ b m, e)

clash_of_endings :
    (s t : Bytes) (b : BannedSuffix)
    → ends_with s t ≡ true
    → ends_with s b.suffix ≡ true
    → suffixes_clash t b ≡ true
unfolding suffixes_clash
clash_of_endings s t b h k =
    let (p, e) = ends_with-split s t h in
    let (q, f) = ends_with-split s b.suffix k in
    elim (ends_with_comparable p q t b.suffix (sym e ∙ f)) [
      | inl x ↦ rw x refl
      | inr x ↦ or_right _ _ x
    ]

-- What the checks leave of a declaration: none of the places that its outputs, or the
-- directories above them, would take is taken.
pub record Passed (st : Progress) (d : Declared) : Type 0 where
  pub above : (p : FilePath) → In p (ancestors d.output) → ¬ Taken st p
  pub no_file : OrdMap.find d.output st.files ≡ none
  pub no_directory : OrdMap.find d.output st.directories ≡ none
  pub simple : d.wildcard ≡ false → ¬ Taken st d.output
  pub wildcard :
      d.wildcard ≡ true
      → (p : FilePath) → parent_path p ≡ parent_path d.output
      → ends_with (filename p) (suffix_of d.output) ≡ true
      → (¬ Taken st p) × (¬ IsKey p st.directories)

module _ (st : Progress) (d : Declared) where
  abbrev directory : FilePath
  directory = parent_path d.output

  abbrev ending : Bytes
  ending = suffix_of d.output

  wildcard_place :
      (p : FilePath) (n : ℕ)
      → parent_path p ≡ directory
      → ends_with (filename p) ending ≡ true
      → ends_in_it directory ending (p, n) ≡ true
  unfolding ends_in_it
  wildcard_place p n e h = rw (e, h, eq_self directory) refl

  wildcard_free :
      find_if (ends_in_it directory ending) st.files ≡ none
      → find_if (suffixes_clash ending) (banned_in st directory) ≡ none
      → (p : FilePath) → parent_path p ≡ directory
      → ends_with (filename p) ending ≡ true
      → ¬ Taken st p
  wildcard_free f b p e h (inl k) =
      cc (wildcard_place p k.0 e h, key_entry (ends_in_it directory ending) p st.files f k)
  wildcard_free f b p e h (inr (c, m, t)) = cc (
    clash_of_endings (filename p) ending c h t,
    find_if-none (suffixes_clash ending) c _ b (subst (λ x. In c (banned_in st x)) e m),
  )

  wildcard_no_directory :
      find_if (ends_in_it directory ending) st.directories ≡ none
      → (p : FilePath) → parent_path p ≡ directory
      → ends_with (filename p) ending ≡ true
      → ¬ IsKey p st.directories
  wildcard_no_directory f p e h k =
      cc (wildcard_place p k.0 e h, key_entry (ends_in_it directory ending) p st.directories f k)

  check_wildcard-Passed :
      {u : Unit {0}}
      → check_wildcard st d ≡ ok u
      → (p : FilePath) → parent_path p ≡ directory
      → ends_with (filename p) ending ≡ true
      → (¬ Taken st p) × (¬ IsKey p st.directories)
  unfolding check_wildcard
  check_wildcard-Passed h p e k =
      let (_, h0, h1) =
        ok_steps (reject_some (find_if (ends_in_it directory ending) st.files) _) _ h in
      let (_, h2, h3) =
        ok_steps (reject_some (find_if (ends_in_it directory ending) st.directories) _) _ h1 in
      (
        wildcard_free (reject_some-none _ _ h0) (reject_some-none _ _ h3) p e k,
        wildcard_no_directory (reject_some-none _ _ h2) p e k,
      )

  pub check_declared-Passed : {u : Unit {0}} → check_declared st d ≡ ok u → Passed st d
  unfolding check_declared check_place check_simple
  check_declared-Passed h =
      let (_, hp, hc) = ok_steps (check_place st d) _ h in
      let (_, h0, h1) = ok_steps (reject_some (OrdMap.find d.output st.files) _) _ hp in
      let (_, h2, h3) = ok_steps (reject_some (OrdMap.find d.output st.directories) _) _ h1 in
      let (_, h4, h5) = ok_steps (reject_some (file_above st (ancestors d.output)) _) _ h3 in
      let f = reject_some-none _ _ h0 in
      record {
        above = λ p m.
            free_place st p (file_above-none st _ p (reject_some-none _ _ h4) m)
              (banned_above-none st _ p (reject_some-none _ _ h5) m);
        no_file = f;
        no_directory = reject_some-none _ _ h2;
        simple = λ w. free_place st d.output f (reject_some-none _ _ (rw w at hc));
        wildcard = λ w. check_wildcard-Passed (rw w at hc);
      }
