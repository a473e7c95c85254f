-- ===== src/Manifest/Disjoint.antt =====
-- No two rules of a manifest can produce the same path, or one path inside another.
use makebelieve.Base.{
  ℕ, suc, ◌≡◌, refl, sym, subst, ◌∙◌, ◌≢◌, inl, inr, Bool, true, false, not, ◌||◌, List, [], ◌∷◌,
  ◌++◌, Bool-cases, All, In, AllPairs, All-append, All-map, AllPairs-concat, ℕ-HasTest,
  List-HasTest, Result, ok, err, ok_steps, ok-injective,
}
use makebelieve.Text.{Bytes, ends_with, is_empty, split_on}
use makebelieve.Paths.{FilePath, filename, parent_path, ancestors}
use makebelieve.Paths.Ancestors.{Beneath, parent-concat, filename-concat, parent-filename}
use makebelieve.Manifest.Pattern.{name_pattern}
use makebelieve.Manifest.Pattern.Match.{fill}
use makebelieve.Manifest.Words.{trim}
use makebelieve.Manifest.Line.{Declared, read_line}
use makebelieve.Manifest.Line.Shape.{IsShaped, read_line-IsShaped}
use makebelieve.Manifest.Declare.{
  Progress, suffix_of, rule_of, declare, reject, check_declared, banned_in,
}
use makebelieve.Manifest.Declare.Taken.{
  IsKey, Taken, declare-Taken, declare-Taken_simple, declare-Taken_wildcard, declare-directory_old,
  declare-directory,
}
use makebelieve.Manifest.Declare.Checks.{Passed, check_declared-Passed}
use makebelieve.Manifest.Produce.{
  Produces, Separate, wildcard_output, fill-ends_with, above_sibling,
}
use makebelieve.Manifest.Parse.{
  accept_line, is_comment, step, run_lines, read_all, initial, erase_dropped, finish, parse,
}
use makebelieve.Manifest.{Rule, is_wildcard, Reason}

-- What the maps know of an accepted rule.
record IsKnown (st : Progress) (r : Rule) : Type 0 where
  named : r.output ≢ []
  taken : (p : FilePath) → Produces r p → Taken st p
  inside : (p : FilePath) → In p (ancestors r.output) → IsKey p st.directories

declare-IsKnown :
    (st : Progress) (n : ℕ) (d : Declared) (r : Rule) → IsKnown st r → IsKnown (declare st n d) r
declare-IsKnown st n d r k = record {
  named = k.named;
  taken = λ p h. declare-Taken st n d p (k.taken p h);
  inside = λ p h. declare-directory_old st n d p (k.inside p h);
}

joined : (o : FilePath) → o ≢ [] → parent_path o ++ filename o ∷ [] ≡ o
joined [] h = absurd (h refl)
joined (v ∷ o) h = parent-filename v o

-- What a rule produces stands beside its output.
Produces-split :
    (r : Rule) (p : FilePath)
    → r.output ≢ []
    → Produces r p
    → (name : Bytes) × (p ≡ parent_path r.output ++ name ∷ [])
Produces-split r p n (inl (w, e)) = (filename r.output, e ∙ sym (joined r.output n))
Produces-split r p n (inr (w, (s, k, e))) = (fill (name_pattern (filename r.output)) s, e)

concat-nonempty : (d : FilePath) (name : Bytes) → d ++ name ∷ [] ≢ []
concat-nonempty [] name e = cc
concat-nonempty (w ∷ d) name e = cc

Produces-nonempty : (r : Rule) (p : FilePath) → r.output ≢ [] → Produces r p → p ≢ []
Produces-nonempty r p n h e =
    let (name, f) = Produces-split r p n h in
    concat-nonempty (parent_path r.output) name (sym f ∙ e)

-- A path above what a rule produces is a directory above its output.
above_output :
    (r : Rule) (p q : FilePath)
    → r.output ≢ []
    → Produces r p
    → q ≢ []
    → Beneath p q
    → In q (ancestors r.output)
above_output r p q n h m b =
    let (name, e) = Produces-split r p n h in
    subst (λ x. In q (ancestors x)) (joined r.output n)
      (above_sibling (parent_path r.output) name (filename r.output) q m
        (subst (λ x. Beneath x q) e b))

module _ (st : Progress) (d : Declared) (shaped : IsShaped d) where
  wildcard_iff : is_wildcard (rule_of d) ≡ d.wildcard
  unfolding is_wildcard rule_of
  wildcard_iff = rw (shaped.1) (not_not d.wildcard)
    where
      not_not : (b : Bool) → not (not b) ≡ b
      not_not true = refl
      not_not false = refl

  wildcard_beside :
      (s : Bytes) (q : FilePath)
      → q ≡ wildcard_output (rule_of d) s
      → (parent_path q ≡ parent_path d.output)
        × (ends_with (filename q) (suffix_of d.output) ≡ true)
  unfolding rule_of
  wildcard_beside s q e =
      let pattern = name_pattern (filename d.output) in
      let name = fill pattern s in
      (
        rw e (parent-concat (parent_path d.output) name),
        rw (e, filename-concat (parent_path d.output) name) (fill-ends_with pattern s),
      )

  -- Nothing the new rule produces was taken, nor was it a directory.
  new_place :
      Passed st d
      → (q : FilePath) → Produces (rule_of d) q
      → (¬ Taken st q) × (¬ IsKey q st.directories)
  new_place c q (inl (w, e)) =
      let simple : d.wildcard ≡ false = sym wildcard_iff ∙ w in
      let at : q ≡ d.output = unfold rule_of in e in
      (
        subst (λ x. ¬ Taken st x) (sym at) (c.simple simple),
        subst (λ x. ¬ IsKey x st.directories) (sym at) (λ k. cc (k.1, c.no_directory)),
      )
  new_place c q (inr (w, (s, _, e))) =
      let (p, h) = wildcard_beside s q e in c.wildcard (sym wildcard_iff ∙ w) q p h

  new_output : (rule_of d).output ≡ d.output
  unfolding rule_of
  new_output = refl

  new_named : (rule_of d).output ≢ []
  new_named e = shaped.0.0 (sym new_output ∙ e)

  -- An accepted rule is separate from each before it.
  new_Separate : Passed st d → (r : Rule) → IsKnown st r → Separate r (rule_of d)
  new_Separate c r k p q h m =
      let (free, no_directory) = new_place c q m in
      (
        λ e. free (subst (Taken st) e (k.taken p h)),
        λ b. no_directory (
            k.inside q
              (above_output r p q k.named h (Produces-nonempty (rule_of d) q new_named m) b)),
        λ b.
            c.above p
              (subst (λ x. In p (ancestors x)) new_output
                (above_output (rule_of d) q p new_named m (Produces-nonempty r p k.named h) b))
              (k.taken p h),
      )

  -- The maps know it from then on.
  new_IsKnown : (n : ℕ) → IsKnown (declare st n d) (rule_of d)
  new_IsKnown n = record {
    named = new_named;
    taken = λ p h. new_taken p h;
    inside = λ p h. declare-directory st n d p (subst (λ x. In p (ancestors x)) new_output h);
  }
    where
      new_taken : (p : FilePath) → Produces (rule_of d) p → Taken (declare st n d) p
      new_taken p (inl (w, e)) =
          subst (Taken (declare st n d)) (sym (e ∙ new_output))
            (declare-Taken_simple st n d (sym wildcard_iff ∙ w))
      new_taken p (inr (w, (s, _, e))) =
          let (f, h) = wildcard_beside s p e in
          declare-Taken_wildcard st n d p (sym wildcard_iff ∙ w) f h

-- The invariant of the loop over the lines.
record IsTidy (st : Progress) : Type 0 where
  known : All (IsKnown st) st.rules
  separate : AllPairs Separate st.rules

declare-IsTidy :
    (st : Progress) (n : ℕ) (d : Declared)
    → IsShaped d
    → Passed st d
    → IsTidy st
    → IsTidy (declare st n d)
declare-IsTidy st n d s c t = record {
  known =
      unfold declare in
      All-append (IsKnown (declare st n d)) st.rules (rule_of d ∷ [])
        (All-map (IsKnown st) (IsKnown (declare st n d)) st.rules (declare-IsKnown st n d) t.known)
        (new_IsKnown st d s n, tt);
  separate =
      unfold declare in
      AllPairs-concat Separate st.rules (rule_of d) t.separate (
        All-map (IsKnown st) (λ r. Separate r (rule_of d)) st.rules (new_Separate st d s c)
          t.known);
}

reject-IsTidy : (st : Progress) (n : ℕ) (why : Reason) → IsTidy st → IsTidy (reject st n why)
unfolding reject banned_in
reject-IsTidy st n why t = record {
  known = All-map (IsKnown st) (IsKnown (reject st n why)) st.rules same t.known;
  separate = t.separate;
}
  where
    same : (r : Rule) → IsKnown st r → IsKnown (reject st n why) r
    same r k = record { named = k.named; taken = k.taken; inside = k.inside }

accept_line-Passed :
    (st : Progress) (line : Bytes) {d : Declared}
    → accept_line st line ≡ ok d
    → IsShaped d × Passed st d
unfolding accept_line
accept_line-Passed st line {d} h =
    let (e, hr, h1) = ok_steps (read_line line) _ h in
    let (_, hc, h2) = ok_steps (check_declared st e) _ h1 in
    subst (λ x. IsShaped x × Passed st x) (ok-injective h2)
      (read_line-IsShaped line hr, check_declared-Passed st e hc)

step-IsTidy : (st : Progress) (n : ℕ) (line : Bytes) → IsTidy st → IsTidy (step st n line)
step-IsTidy st n line t = elim (Bool-cases (is_empty line || is_comment line)) [
  | inl h ↦ unfold step in rw h t
  | inr h ↦ unfold step in rw h (outcome (accept_line st line) refl)
]
  where
    outcome :
        (r : Result Reason Declared)
        → accept_line st line ≡ r
        → IsTidy (elim r [ ok d ↦ declare st n d | err why ↦ reject st n why ])
    outcome (ok d) e = let (s, c) = accept_line-Passed st line e in declare-IsTidy st n d s c t
    outcome (err why) e = reject-IsTidy st n why t

run_lines-IsTidy :
    (lines : List Bytes) (st : Progress) (n : ℕ) → IsTidy st → IsTidy (run_lines st n lines)
unfolding run_lines
run_lines-IsTidy [] st n t = t
run_lines-IsTidy (line ∷ rest) st n t =
    run_lines-IsTidy rest (step st n (trim line)) (suc n) (step-IsTidy st n (trim line) t)

All-erase_dropped :
    (P : Rule → Type 0) (dropped : ℕ → Bool) (i : ℕ) (rules : List Rule)
    → All P rules
    → All P (erase_dropped dropped i rules)
unfolding erase_dropped
All-erase_dropped P dropped i [] h = tt
All-erase_dropped P dropped i (r ∷ rules) h = elim (Bool-cases (dropped i)) [
  | inl e ↦ rw e (All-erase_dropped P dropped (suc i) rules h.1)
  | inr e ↦ rw e (h.0, All-erase_dropped P dropped (suc i) rules h.1)
]

AllPairs-erase_dropped :
    (dropped : ℕ → Bool) (i : ℕ) (rules : List Rule)
    → AllPairs Separate rules
    → AllPairs Separate (erase_dropped dropped i rules)
unfolding erase_dropped
AllPairs-erase_dropped dropped i [] h = tt
AllPairs-erase_dropped dropped i (r ∷ rules) h = elim (Bool-cases (dropped i)) [
  | inl e ↦ rw e (AllPairs-erase_dropped dropped (suc i) rules h.1)
  | inr e ↦ rw e (
    All-erase_dropped (Separate r) dropped (suc i) rules h.0,
    AllPairs-erase_dropped dropped (suc i) rules h.1,
  )
]

-- Whatever the text, no two rules of the parsed manifest can produce one path, nor a path inside
-- one that another produces.
pub parse-Separate : (text : Bytes) → AllPairs Separate (parse text).rules
unfolding parse finish read_all
parse-Separate text =
    AllPairs-erase_dropped _ 0 _
      (run_lines-IsTidy (split_on b'\n' text) initial 1
        (unfold initial in record { known = tt; separate = tt })).separate
