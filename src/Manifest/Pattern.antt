-- ===== src/Manifest/Pattern.antt =====
-- `is_wildcard_pattern` and `NamePattern`: file names with one `*`.
pub mod Match
pub mod Overlap
use makebelieve.Base.{
  ℕ, zero, suc, ◌+◌, ◌-◌, ◌*◌, ◌%◌, ◌^◌, ◌≤◌, ◌<◌, ◌≡◌, refl, sym, ap, subst, ◌∙◌, ◌≢◌, ◌↔◌, ◌⊎◌,
  inl, inr, Bool, true, false, not, ◌&&◌, ◌||◌, Option, none, some, List, [], ◌∷◌, ◌++◌, map,
  reverse, arith, ltb, leb, nat_eq, if◌then◌else◌, nat_eq_iff, ltb→lt, lt→ltb, Bool-cases,
  Option-cases, and_left, and_right, or_right, length, get_elem?, take, drop, find_if, any_of,
  all_of, keep, All, In, AllPairs, length-append, take-append, drop-append, All-append, All-keep,
  All-map, AllPairs-keep, AllPairs-concat, HasTest, ◌==◌, ℕ-HasTest, List-HasTest, list_eq, eq_iff,
  eq_self, eq_cases, Result, ok, err, ◌>>=◌, ◌>>◌, reject_if, ok_steps, reject_if-eq-ok,
}
use makebelieve.Text.{Bytes, contains, count, before, after?, starts_with, ends_with}
use makebelieve.Paths.{FilePath, filename, generic_string}
use mathlib.Core.Option.{get_or}

unfoldable pub is_wildcard_pattern : FilePath → Bool
unfolding count generic_string filename contains
is_wildcard_pattern path = count b'*' (generic_string path) == 1 && contains (filename path) b'*'

pub record NamePattern : Type 0 where
  pub prefix : Bytes
  pub suffix : Bytes

-- With no `*` both parts are the whole name (`npos + 1` is 0).
unfoldable pub name_pattern : Bytes → NamePattern
unfolding before after?
name_pattern name = record { prefix = before b'*' name; suffix = get_or (after? b'*' name) name }

unfoldable pub matches : NamePattern → Bytes → Bool
unfolding starts_with ends_with
matches p name =
    ltb (length p.prefix + length p.suffix) (length name)
    && starts_with name p.prefix
    && ends_with name p.suffix

-- The lambda of `overlaps`, at the front and at the back.
unfoldable pub agree_front : Bytes → Bytes → Bool
unfolding starts_with
agree_front a b = if leb (length b) (length a) then starts_with a b else starts_with b a

unfoldable pub agree_back : Bytes → Bytes → Bool
unfolding ends_with
agree_back a b = if leb (length b) (length a) then ends_with a b else ends_with b a

unfoldable pub overlaps : NamePattern → NamePattern → Bool
unfolding agree_front agree_back
overlaps p other = agree_front p.prefix other.prefix && agree_back p.suffix other.suffix

-- What the `*` stands for in a name that matches.
unfoldable pub stem : NamePattern → Bytes → Bytes
stem p name = take (length name - length p.prefix - length p.suffix) (drop (length p.prefix) name)
