-- ===== src/BuildCache/Rows.antt =====
-- Tables as lists of rows, for tests: the first row with a key is the one in the table.
use makebelieve.Base.{
  ℕ, ◌≡◌, refl, sym, ap, ◌∙◌, ◌↔◌, ◌⊎◌, inl, inr, Bool, true, false, not, ◌||◌, Option, none, some,
  List, [], ◌∷◌, ◌++◌, arith, if◌then◌else◌, Option-cases, find_if, any_of, keep, In, In-any_of,
  keep-In, find_if_passes, In-keep, ◌==◌, ℕ-HasTest, List-HasTest, eq_iff, eq_cases, ne_test,
}
use makebelieve.Base.Optional.{some_value}
use makebelieve.Text.{Bytes}
use makebelieve.BuildCache.{OutputRow, InputRow, Libraries, IsSql, same_key}

abbrev first : Bytes → List OutputRow → Option OutputRow
first p rows = find_if (λ r. r.path == p) rows

abbrev distinct : List OutputRow → List OutputRow
distinct [] = []
distinct (r ∷ rows) = r ∷ keep (λ s. not (s.path == r.path)) (distinct rows)

abbrev row_hash : Option OutputRow → Option Bytes
row_hash none = none
row_hash (some r) = some r.hash

-- The tables with this hash function.
abbrev pub libraries : (Bytes → ℕ × ℕ) → Libraries
libraries xxh3 = record {
  Tables = List OutputRow × List InputRow;
  no_tables = ([], []);
  output_rows = λ t. distinct t.0;
  input_rows = λ t. t.1;
  find_hash = λ p t. row_hash (first p t.0);
  is_named = λ h t. any_of (λ r. r.hash == h) (distinct t.0);
  delete_inputs = λ p t. (t.0, keep (λ i. not (i.output == p)) t.1);
  delete_output = λ p t. (keep (λ r. not (r.path == p)) t.0, t.1);
  replace_output = λ r t. (r ∷ t.0, t.1);
  insert_input = λ i t. (t.0, if any_of (same_key i) t.1 then t.1 else t.1 ++ i ∷ []);
  xxh3_128bits = xxh3;
  decimal = λ n. n ∷ [];
}

first-distinct :
    (rows : List OutputRow) (r : OutputRow) (p : Bytes)
    → r.path ≡ p
    → In r (distinct rows) ↔ (first p rows ≡ some r)
first-distinct [] r p e = (λ never. absurd never, λ never. cc never)
first-distinct (s ∷ rows) r p e = elim (eq_cases s.path p) [
  | inl (same, t) ↦ (
    λ i. elim i [
      | inl now ↦ ap (λ b. if b then some s else first p rows) t ∙ ap some (sym now)
      | inr j ↦ absurd (
          ne_self (r.path == s.path) (eq_iff_to r.path s.path (e ∙ sym same))
            (In-keep (λ x. not (x.path == s.path)) (distinct rows) j).0)
    ],
    λ h. inl (some_value (sym h ∙ ap (λ b. if b then some s else first p rows) t)),
  )
  | inr (ne, t) ↦
      let (to, from) = first-distinct rows r p e in
      (
        λ i. ap (λ b. if b then some s else first p rows) t ∙ (elim i [
          | inl now ↦ absurd (ne (ap (λ x. x.path) (sym now) ∙ e))
          | inr j ↦ to (In-keep (λ x. not (x.path == s.path)) (distinct rows) j).1
        ]),
        λ h. inr (
            keep-In (λ x. not (x.path == s.path)) (distinct rows)
              (from (sym (ap (λ b. if b then some s else first p rows) t) ∙ h))
              (ap not (ne_test r.path s.path (λ k. ne (sym k ∙ e))))),
      )
]
  where
    eq_iff_to : (a b : Bytes) → a ≡ b → (a == b) ≡ true
    eq_iff_to a b k = (eq_iff a b).1 k

    ne_self : (b : Bool) → b ≡ true → ¬ (not b ≡ true)
    ne_self true k never = cc never
    ne_self false k never = cc k

first-delete :
    (p q : Bytes) (rows : List OutputRow)
    → first q (keep (λ r. not (r.path == p)) rows) ≡ (if p == q then none else first q rows)
first-delete p q [] = ground arith
first-delete p q (r ∷ rows) =
    ground (arith, first-delete p q rows, eq_iff r.path p, eq_iff r.path q, eq_iff p q)

any_of_found :
    {A : Type 0} (p : A → Bool) (xs : List A)
    → any_of p xs ≡ true
    → (x : A) × In x xs × (p x ≡ true)
any_of_found p [] h = cc h
any_of_found {A} p (x ∷ xs) h = by_test (p x) refl h (any_of_found p xs)
  where
    by_test :
        (t : Bool)
        → p x ≡ t
        → (t || any_of p xs) ≡ true
        → (any_of p xs ≡ true → (y : A) × In y xs × (p y ≡ true))
        → (y : A) × ((y ≡ x) ⊎ In y xs) × (p y ≡ true)
    by_test true e k next = (x, inl refl, e)
    by_test false e k next = let (y, i, f) = next k in (y, inr i, f)

pub libraries-IsSql : (xxh3 : Bytes → ℕ × ℕ) → IsSql (libraries xxh3)
libraries-IsSql xxh3 = record {
  none_out = refl;
  none_in = refl;
  find_hash_iff = λ p h t. (
    λ e. elim (Option-cases (first p t.0)) [
      | inl none_there ↦ cc (sym e ∙ ap row_hash none_there)
      | inr (r, found) ↦
          let here = (eq_iff r.path p).0 (find_if_passes (λ r. r.path == p) t.0 found) in
          (r, (first-distinct t.0 r p here).1 found, here, some_value (sym (ap row_hash found) ∙ e))
    ],
    λ x. ap row_hash ((first-distinct t.0 x.0 p x.2).0 x.1) ∙ ap some x.3,
  );
  rows_unique = λ t r s i j e.
      some_value
        (sym ((first-distinct t.0 s r.path e).0 j) ∙ (first-distinct t.0 r r.path refl).0 i);
  is_named_iff = λ h t. (
    λ e.
        let (r, i, k) = any_of_found (λ r. r.hash == h) (distinct t.0) e in
        (r, i, (eq_iff r.hash h).0 k),
    λ x. In-any_of (λ r. r.hash == h) (distinct t.0) x.1 ((eq_iff x.0.hash h).1 x.2),
  );
  delete_output_iff = λ p t r.
      let less = keep (λ r. not (r.path == p)) t.0 in
      let (to, from) = first-distinct less r r.path refl in
      let (old_to, old_from) = first-distinct t.0 r r.path refl in
      elim (eq_cases p r.path) [
        | inl (same, q) ↦ (
          λ i. cc (
              sym (to i)
              ∙ first-delete p r.path t.0
              ∙ ap (λ b. if b then none else first r.path t.0) q),
          λ x. absurd (x.1 (sym same)),
        )
        | inr (ne, q) ↦
            let step : first r.path less ≡ first r.path t.0 =
              first-delete p r.path t.0 ∙ ap (λ b. if b then none else first r.path t.0) q in
            (λ i. (old_from (sym step ∙ to i), λ e. ne (sym e)), λ x. from (step ∙ old_to x.0))
      ];
  replace_output_iff = λ n t r. (
    λ i. elim i [
      | inl e ↦ inl e
      | inr j ↦
          let (k, old) = In-keep (λ s. not (s.path == n.path)) (distinct t.0) j in
          inr (old, λ e. cc (k, ap not ((eq_iff r.path n.path).1 e)))
    ],
    λ x. elim x [
      | inl e ↦ inl e
      | inr (i, ne) ↦ inr (
          keep-In (λ s. not (s.path == n.path)) (distinct t.0) i
            (ap not (ne_test r.path n.path ne)))
    ],
  );
  delete_inputs_out = λ p t. refl;
  insert_input_out = λ i t. refl;
  delete_output_in = λ p t. refl;
  replace_output_in = λ n t. refl;
  delete_inputs_in = λ p t. refl;
  insert_input_in = λ i t. refl;
}
