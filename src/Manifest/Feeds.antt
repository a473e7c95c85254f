-- ===== src/Manifest/Feeds.antt =====
-- The part of `Manifest::parse` that finds wildcards which could produce their own sources: the
-- table `feeds`, and its closure over every chain of rules.
pub mod Matrix
pub mod Closure
pub mod Loops
use makebelieve.Base.{
  ℕ, zero, suc, ◌+◌, ◌-◌, ◌*◌, ◌%◌, ◌^◌, ◌≤◌, ◌<◌, ◌≡◌, refl, sym, ap, subst, ◌∙◌, ◌≢◌, ◌↔◌, ◌⊎◌,
  inl, inr, Bool, true, false, not, ◌&&◌, ◌||◌, Option, none, some, List, [], ◌∷◌, ◌++◌, map,
  reverse, arith, ltb, leb, nat_eq, if◌then◌else◌, nat_eq_iff, ltb→lt, lt→ltb, Bool-cases,
  Option-cases, and_left, and_right, or_right, length, get_elem?, take, drop, find_if, any_of,
  all_of, keep, All, In, AllPairs, length-append, take-append, drop-append, All-append, All-keep,
  All-map, AllPairs-keep, AllPairs-concat, HasTest, ◌==◌, ℕ-HasTest, List-HasTest, list_eq, eq_iff,
  eq_self, eq_cases, Result, ok, err, ◌>>=◌, ◌>>◌, reject_if, ok_steps, reject_if-eq-ok,
}
use makebelieve.Text.{Bytes}
use makebelieve.Paths.{FilePath, filename, parent_path}
use makebelieve.Manifest.Pattern.{name_pattern, overlaps}
use makebelieve.Manifest.{Rule, is_wildcard}
use Matrix.{Table, at, put, tabulate}

-- What the first pair of loops writes at `a`, `b`.
unfoldable pub feeds_directly : Rule → Rule → Bool
unfolding is_wildcard filename parent_path name_pattern overlaps
feeds_directly a b =
    is_wildcard a
    && b.wildcard_over_outputs
    && parent_path a.output == parent_path b.wildcard_source
    && overlaps (name_pattern (filename a.output)) (name_pattern (filename b.wildcard_source))

unfoldable pub direct_feeds : List Rule → Table
unfolding feeds_directly tabulate
direct_feeds rules = tabulate feeds_directly rules rules

-- `for (i = start; i < start + rounds; ++i)`
pub for_range {ℓ} : {S : Type ℓ} → ℕ → ℕ → (ℕ → S → S) → S → S
for_range start zero body s = s
for_range start (suc rounds) body s = for_range (suc start) rounds body (body start s)

-- The body of the innermost loop, which writes the table in place.
pub close_cell : ℕ → ℕ → ℕ → Table → Table
unfolding at put
close_cell via a b m = put m a b (at m a b || (at m a via && at m via b))

pub close_row : ℕ → ℕ → ℕ → Table → Table
unfolding for_range close_cell
close_row n via a = for_range 0 n (close_cell via a)

pub close_via : ℕ → ℕ → Table → Table
unfolding for_range close_row
close_via n via = for_range 0 n (close_row n via)

unfoldable pub close : ℕ → Table → Table
unfolding for_range close_via
close n = for_range 0 n (close_via n)
