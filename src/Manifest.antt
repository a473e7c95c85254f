-- ===== src/Manifest.antt =====
-- src/manifest.hpp and src/manifest.cpp: the rules of a `build.makebelieve` file. A message is a
-- constructor of `Reason` with the values that it is formatted from; formatting is not modelled.
-- Paths are those of POSIX.
pub mod Words
pub mod Pattern
pub mod Instantiate
pub mod Line
pub mod Declare
pub mod Feeds
pub mod Parse
pub mod Produce
pub mod Disjoint
pub mod Finite
pub mod ErrorOrder
mod Tests
use makebelieve.Base.{
  ℕ, zero, suc, ◌+◌, ◌-◌, ◌*◌, ◌%◌, ◌^◌, ◌≤◌, ◌<◌, ◌≡◌, refl, sym, ap, subst, ◌∙◌, ◌≢◌, ◌↔◌, ◌⊎◌,
  inl, inr, Bool, true, false, not, ◌&&◌, ◌||◌, Option, none, some, List, [], ◌∷◌, ◌++◌, map,
  reverse, arith, ltb, leb, nat_eq, if◌then◌else◌, nat_eq_iff, ltb→lt, lt→ltb, Bool-cases,
  Option-cases, and_left, and_right, or_right, length, get_elem?, take, drop, find_if, any_of,
  all_of, keep, All, In, AllPairs, length-append, take-append, drop-append, All-append, All-keep,
  All-map, AllPairs-keep, AllPairs-concat, HasTest, ◌==◌, ℕ-HasTest, List-HasTest, list_eq, eq_iff,
  eq_self, eq_cases, Result, ok, err, ◌>>=◌, ◌>>◌, reject_if, ok_steps, reject_if-eq-ok,
}
use makebelieve.Text.{Bytes}
use makebelieve.Paths.{FilePath}

pub data Action : Type 0 where
  run capture copy tracing : Action

pub record Rule : Type 0 where
  pub output : FilePath
  pub action : Action
  pub command : Bytes
  pub wildcard_source : FilePath
  pub wildcard_over_outputs : Bool

-- The messages of `reject`, in the order of the source, and of the two checks of whole manifests.
pub data Reason : Type 0 where
  expected_assignment : Reason
  outside_outputs : Bytes → Reason
  not_an_action : Bytes → Reason
  tracing_argument : Bytes → Bytes → Reason
  no_argument : Bytes → Action → Reason
  tracing_wildcard : Bytes → Reason
  no_sources : Bytes → Reason
  bad_sources : Bytes → Bytes → Bool → Reason
  bad_copy : Bytes → Bytes → Bool → Reason
  copies_itself : Bytes → Reason
  bad_output : Bytes → Reason
  bad_wildcard : Bytes → Reason
  already_declared : Bytes → ℕ → Reason
  is_directory : Bytes → ℕ → Reason
  inside_output : Bytes → ℕ → Reason
  inside_banned : Bytes → Bytes → ℕ → Reason
  ends_banned : Bytes → Bytes → ℕ → Reason
  bans_file : Bytes → Bytes → ℕ → Reason
  bans_directory : Bytes → Bytes → ℕ → Reason
  both_wildcards : Bytes → ℕ → Bytes → Reason
  copies_undeclared : Bytes → FilePath → Reason
  feeds_itself : FilePath → Reason

pub record Error : Type 0 where
  pub line : ℕ
  pub message : Reason

pub record Manifest : Type 0 where
  pub rules : List Rule
  pub errors : List Error

unfoldable pub is_wildcard : Rule → Bool
is_wildcard rule = not (rule.wildcard_source == [])

unfoldable pub is_copy : Action → Bool
is_copy copy = true
is_copy _ = false

unfoldable pub is_tracing : Action → Bool
is_tracing tracing = true
is_tracing _ = false
