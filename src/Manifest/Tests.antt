-- ===== src/Manifest/Tests.antt =====
-- Runs of the manifest's functions on small inputs.
use makebelieve.Base.{
  ℕ, ◌≡◌, refl, sym, ap, ◌∙◌, ◌≢◌, ◌↔◌, inl, inr, true, false, some, List, [], ◌∷◌, map, arith,
  any_of, In, In-any_of, AllPairs, ◌==◌, ℕ-HasTest, List-HasTest, list_eq, eq_self,
}
use makebelieve.Text.{Bytes, codes}
use makebelieve.Paths.{path_before}
use makebelieve.Manifest.Parse.{parse}
use makebelieve.Manifest.Produce.{Separate}
use makebelieve.Manifest.Disjoint.{parse-Separate}
use makebelieve.Manifest.Finite.{FeedChain, parse_finite}
use makebelieve.Manifest.ErrorOrder.{InOrder, parse_errors-InOrder}
use makebelieve.Manifest.Pattern.{NamePattern, overlaps, matches}
use makebelieve.Manifest.Pattern.Match.{fill, matches_iff}
use makebelieve.Manifest.Pattern.Overlap.{overlaps_iff}
use makebelieve.Manifest.Feeds.{close}
use makebelieve.Manifest.Feeds.Matrix.{Table, at}
use makebelieve.Manifest.Feeds.Closure.{Chain, close_iff}
use makebelieve.Manifest.Instantiate.{instantiate}
use makebelieve.Manifest.Produce.{Produces, instantiate_matching, instantiate-Produces}
use makebelieve.Paths.{IsInside, to_inside_path, generic_string}
use makebelieve.Paths.Inside.{to_inside_path-IsInside}
use makebelieve.Paths.RoundTrip.{to_inside_path-generic_string}
use makebelieve.Manifest.{
  is_wildcard, Rule, capture, copies_undeclared, feeds_itself, already_declared, ends_banned,
}

abbrev sample : Bytes
sample =
    codes
      "# demo\n@/a.txt = capture echo hi\n@/*.o = run cc src/*.c\n@/d/b = copy @/a.txt\n@/a.txt = tracing\n@/x.o = tracing\n@/*.z = copy @/*.z\n@/q = copy @/r"

sample_errors :
    (parse sample).errors
    ≡ record { line = 5; message = already_declared (codes "@/a.txt") 2 }
      ∷ record { line = 6; message = ends_banned (codes "@/x.o") (codes ".o") 3 }
      ∷ record { line = 7; message = feeds_itself (codes "*.z" ∷ []) }
      ∷ record { line = 8; message = copies_undeclared (codes "@/q") (codes "r" ∷ []) }
      ∷ []
unfolding parse list_eq path_before
sample_errors = refl

sample_commands :
    map (λ r. r.command) (parse sample).rules
    ≡ codes "echo hi" ∷ codes "cc src/*.c" ∷ codes "@/a.txt" ∷ []
unfolding parse list_eq path_before
sample_commands = refl

parse-Separate_example : AllPairs Separate (parse sample).rules
parse-Separate_example = parse-Separate sample

abbrev first_rule : Rule
first_rule = record {
  output = codes "a.txt" ∷ [];
  action = capture;
  command = codes "echo hi";
  wildcard_source = [];
  wildcard_over_outputs = false;
}

first_rule_kept : In first_rule (parse sample).rules
unfolding parse list_eq path_before
first_rule_kept = inl refl

parse_finite_example : ¬ FeedChain (parse sample).rules first_rule first_rule
parse_finite_example = parse_finite sample first_rule first_rule_kept

parse_errors-InOrder_example : InOrder (parse sample).errors
parse_errors-InOrder_example = parse_errors-InOrder sample

abbrev objects : NamePattern
objects = record { prefix = []; suffix = codes ".o" }

abbrev a_names : NamePattern
a_names = record { prefix = codes "a"; suffix = codes "" }

overlaps_iff_example :
    (overlaps objects a_names ≡ true)
    ↔ ((name : Bytes) × (matches objects name ≡ true) × (matches a_names name ≡ true))
overlaps_iff_example = overlaps_iff objects a_names

matches_iff_example :
    (matches objects (codes "x.o") ≡ true)
    ↔ ((s : Bytes) × (s ≢ []) × (codes "x.o" ≡ fill objects s))
matches_iff_example = matches_iff objects (codes "x.o")

abbrev one_way : Table
one_way = (false ∷ true ∷ []) ∷ (false ∷ false ∷ []) ∷ []

close_iff_example : (at (close 2 one_way) 0 1 ≡ true) ↔ Chain one_way 0 1
close_iff_example = close_iff 2 one_way 0 1 (refl, (refl, (refl, tt))) (omega arith) (omega arith)

to_inside_path-IsInside_example : IsInside (codes "b" ∷ [])
unfolding to_inside_path list_eq
to_inside_path-IsInside_example = to_inside_path-IsInside (codes "a/../b") refl

to_inside_path-generic_string_example :
    to_inside_path (generic_string (codes "d" ∷ codes "b" ∷ [])) ≡ some (codes "d" ∷ codes "b" ∷ [])
unfolding list_eq makebelieve.Text.is_empty makebelieve.Text.contains
to_inside_path-generic_string_example =
    to_inside_path-generic_string (codes "d" ∷ codes "b" ∷ [])
      ((λ e. cc), ((refl, refl, refl, refl), ((refl, refl, refl, refl), tt)))

abbrev compile : Rule
compile = record {
  output = codes "out" ∷ codes "*.o" ∷ [];
  action = capture;
  command = codes "cp *.c *.h";
  wildcard_source = codes "src" ∷ codes "*.c" ∷ [];
  wildcard_over_outputs = false;
}

abbrev compile_a : Rule
compile_a = record {
  output = codes "out" ∷ codes "a.o" ∷ [];
  action = capture;
  command = codes "cp a.c a.h";
  wildcard_source = [];
  wildcard_over_outputs = false;
}

abbrev copy_pieces : List Bytes
copy_pieces = codes "cp " ∷ codes ".c " ∷ codes ".h" ∷ []

no_star : (p : Bytes) → any_of (λ x. x == b'*') p ≡ false → ¬ In b'*' p
no_star p f i = cc (sym f ∙ In-any_of (λ x. x == b'*') p i (eq_self {A = ℕ} b'*'))

plain_pieces : (p : Bytes) → In p copy_pieces → ¬ In b'*' p
plain_pieces p (inl e) = no_star p (ap (any_of (λ x. x == b'*')) e)
plain_pieces p (inr (inl e)) = no_star p (ap (any_of (λ x. x == b'*')) e)
plain_pieces p (inr (inr (inl e))) = no_star p (ap (any_of (λ x. x == b'*')) e)
plain_pieces p (inr (inr (inr never))) = absurd never

instantiate_matching_example : instantiate compile (codes "a.c") ≡ some compile_a
unfolding makebelieve.Manifest.Pattern.name_pattern makebelieve.Paths.parent_path
    makebelieve.Manifest.Instantiate.replace_stars makebelieve.Paths.filename
instantiate_matching_example =
    instantiate_matching compile (codes "a") copy_pieces (λ e. cc) plain_pieces refl

instantiate-Produces_example :
    Produces compile (codes "out" ∷ codes "a.o" ∷ []) × (is_wildcard compile_a ≡ false)
unfolding is_wildcard list_eq instantiate matches makebelieve.Manifest.Pattern.name_pattern
    makebelieve.Paths.parent_path makebelieve.Manifest.Instantiate.replace_stars
    makebelieve.Paths.filename
instantiate-Produces_example = instantiate-Produces compile (codes "a.c") {t = compile_a} refl refl

copy_of_dropped :
    map (λ r. r.command) (parse (codes "@/a = copy @/b\n@/b = copy @/missing")).rules
    ≡ codes "@/b" ∷ []
unfolding parse list_eq path_before
copy_of_dropped = refl
