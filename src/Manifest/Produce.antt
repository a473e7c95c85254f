-- ===== src/Manifest/Produce.antt =====
-- The paths that a rule can produce, and how two such paths can meet.
use makebelieve.Base.{
  ◌≡◌, refl, sym, ap, subst, ◌∙◌, ◌≢◌, ◌⊎◌, inl, inr, true, false, none, some, List, [], ◌∷◌, ◌++◌,
  arith, if◌then◌else◌, Bool-cases, In, ℕ-HasTest, List-HasTest, list_eq, ne_test,
}
use makebelieve.Text.{Bytes, ends_with}
use makebelieve.Text.Laws.{ends_with-append}
use makebelieve.Paths.{FilePath, parent_path, filename, ancestors}
use makebelieve.Paths.Ancestors.{Beneath, ancestors_complete}
use makebelieve.Manifest.Pattern.{NamePattern, name_pattern, matches}
use makebelieve.Manifest.Pattern.Match.{fill, matches-split, matches-fill, stem-fill}
use makebelieve.Manifest.Instantiate.{instantiate, replace_stars}
use makebelieve.Manifest.{Rule, is_wildcard}
use mathlib.Core.List.{append_assoc, append-nil}

-- What a wildcard's output becomes for a stem.
abbrev pub wildcard_output : Rule → Bytes → FilePath
wildcard_output r s = parent_path r.output ++ fill (name_pattern (filename r.output)) s ∷ []

-- A simple rule produces its output; a wildcard an output for each stem that is not empty.
abbrev pub Produces : Rule → FilePath → Type 0
Produces r p =
    ((is_wildcard r ≡ false) × (p ≡ r.output))
    ⊎ ((is_wildcard r ≡ true) × ((s : Bytes) × (s ≢ []) × (p ≡ wildcard_output r s)))

abbrev pub Apart : FilePath → FilePath → Type 0
Apart p q = (p ≢ q) × (¬ Beneath p q) × (¬ Beneath q p)

-- Whatever the two rules produce, neither path is the other or a directory above it.
abbrev pub Separate : Rule → Rule → Type 0
Separate r t = (p q : FilePath) → Produces r p → Produces t q → Apart p q

instantiate-fill :
    (r : Rule) (s : Bytes)
    → s ≢ []
    → instantiate r (fill (name_pattern (filename r.wildcard_source)) s)
      ≡ some (record {
        output = wildcard_output r s;
        action = r.action;
        command = replace_stars s r.command;
        wildcard_source = [];
        wildcard_over_outputs = false;
      })
unfolding instantiate
instantiate-fill r s h =
    let p = name_pattern (filename r.wildcard_source) in rw (matches-fill p s h, stem-fill p s) refl

-- Pieces with a separator between each two.
abbrev pub join : Bytes → List Bytes → Bytes
join separator [] = []
join separator (p ∷ []) = p
join separator (p ∷ q ∷ pieces) = p ++ (separator ++ join separator (q ∷ pieces))

replace_stars-plain :
    (s p rest : Bytes) → ¬ In b'*' p → replace_stars s (p ++ rest) ≡ p ++ replace_stars s rest
unfolding replace_stars
replace_stars-plain s [] rest h = refl
replace_stars-plain s (c ∷ p) rest h =
    ap (λ b. (if b then s else c ∷ []) ++ replace_stars s (p ++ rest))
      (ne_test c b'*' (λ e. h (inl (sym e))))
    ∙ ap (λ x. c ∷ x) (replace_stars-plain s p rest (λ i. h (inr i)))

replace_stars-join :
    (s : Bytes) (pieces : List Bytes)
    → ((p : Bytes) → In p pieces → ¬ In b'*' p)
    → replace_stars s (join (b'*' ∷ []) pieces) ≡ join s pieces
unfolding replace_stars
replace_stars-join s [] h = refl
replace_stars-join s (p ∷ []) h =
    ap (replace_stars s) (sym (append-nil p))
    ∙ replace_stars-plain s p [] (h p (inl refl))
    ∙ append-nil p
replace_stars-join s (p ∷ q ∷ pieces) h =
    replace_stars-plain s p (b'*' ∷ join (b'*' ∷ []) (q ∷ pieces)) (h p (inl refl))
    ∙ ap (λ x. p ++ (s ++ x)) (replace_stars-join s (q ∷ pieces) (λ x i. h x (inr i)))

-- For a name that matches its source pattern a wildcard stands for the rule whose output takes the
-- nonempty text that the pattern's `*` matched, with the wildcard's action, and whose command is the
-- wildcard's with that text for every `*`: between the pieces, without a `*`, that `*` stood between.
pub instantiate_matching :
    (r : Rule) (s : Bytes) (pieces : List Bytes)
    → s ≢ []
    → ((p : Bytes) → In p pieces → ¬ In b'*' p)
    → r.command ≡ join (b'*' ∷ []) pieces
    → instantiate r (fill (name_pattern (filename r.wildcard_source)) s)
      ≡ some (record {
        output = wildcard_output r s;
        action = r.action;
        command = join s pieces;
        wildcard_source = [];
        wildcard_over_outputs = false;
      })
instantiate_matching r s pieces h plain parts =
    instantiate-fill r s h
    ∙ ap
        (λ command. some (record {
          output = wildcard_output r s;
          action = r.action;
          command = command;
          wildcard_source = [];
          wildcard_over_outputs = false;
        }))
        (ap (replace_stars s) parts ∙ replace_stars-join s pieces plain)

refuse :
    (r : Rule) (name : Bytes)
    → matches (name_pattern (filename r.wildcard_source)) name ≡ false
    → instantiate r name ≡ none
unfolding instantiate
refuse r name m = rw m refl

same_rule :
    (r t : Rule) (s : Bytes) (c : Bytes)
    → some (record {
      output = wildcard_output r s;
      action = r.action;
      command = c;
      wildcard_source = [];
      wildcard_over_outputs = false;
    })
      ≡ some t
    → (t.output ≡ wildcard_output r s) × (is_wildcard t ≡ false)
unfolding is_wildcard list_eq
same_rule r t s c e = ground arith

-- An instance of a wildcard is a simple rule, and its output is one that the wildcard produces.
pub instantiate-Produces :
    (r : Rule) (name : Bytes) {t : Rule}
    → is_wildcard r ≡ true
    → instantiate r name ≡ some t
    → Produces r t.output × (is_wildcard t ≡ false)
instantiate-Produces r name {t} w e =
    elim (Bool-cases (matches (name_pattern (filename r.wildcard_source)) name)) [
      | inl m ↦
          let (s, n, f) = matches-split (name_pattern (filename r.wildcard_source)) name m in
          let g = sym (instantiate-fill r s n) ∙ ap (instantiate r) (sym f) ∙ e in
          let (o, k) = same_rule r t s (replace_stars s r.command) g in (inr (w, (s, n, o)), k)
      | inr m ↦ absurd (refused m)
    ]
  where
    refused : matches (name_pattern (filename r.wildcard_source)) name ≡ false → ⊥
    refused m = let e' : none ≡ some t = sym (refuse r name m) ∙ e in cc e'

pub fill-ends_with : (p : NamePattern) (s : Bytes) → ends_with (fill p s) p.suffix ≡ true
fill-ends_with p s =
    rw (← append_assoc p.prefix s p.suffix) (ends_with-append (p.prefix ++ s) p.suffix)

shorten :
    (d q : FilePath) (n k : Bytes) (r : FilePath)
    → d ++ n ∷ [] ≡ q ++ k ∷ r
    → (r' : FilePath) × (d ≡ q ++ r')
shorten d [] n k r e = (d, refl)
shorten [] (w ∷ []) n k r e = cc
shorten [] (w ∷ v ∷ q) n k r e = cc
shorten (v ∷ d) (w ∷ q) n k r e =
    let (r', f) = shorten d q n k r (ground arith) in (r', ground arith)

ancestor_above : (q r : FilePath) (m : Bytes) → q ≢ [] → In q (ancestors ((q ++ r) ++ m ∷ []))
ancestor_above [] r m h = absurd (h refl)
ancestor_above (w ∷ q) [] m h = rw append-nil (ancestors_complete w q m [])
ancestor_above (w ∷ q) (v ∷ r) m h = rw append_assoc (ancestors_complete w q v (r ++ m ∷ []))

-- A path above another is among the directories above every path beside that other.
pub above_sibling :
    (d : FilePath) (n m : Bytes) (q : FilePath)
    → q ≢ []
    → Beneath (d ++ n ∷ []) q
    → In q (ancestors (d ++ m ∷ []))
above_sibling d n m q h (k, r, e) =
    let (r', f) = shorten d q n k r e in
    subst (λ x. In q (ancestors (x ++ m ∷ []))) (sym f) (ancestor_above q r' m h)
