-- ===== src/Manifest/Declare.antt =====
-- The part of `Manifest::parse` that holds a line against the lines before it, and records it.
pub mod Checks
pub mod Taken
use makebelieve.Base.{
  ℕ, zero, suc, ◌+◌, ◌-◌, ◌*◌, ◌%◌, ◌^◌, ◌≤◌, ◌<◌, ◌≡◌, refl, sym, ap, subst, ◌∙◌, ◌≢◌, ◌↔◌, ◌⊎◌,
  inl, inr, Bool, true, false, not, ◌&&◌, ◌||◌, Option, none, some, List, [], ◌∷◌, ◌++◌, map,
  reverse, arith, ltb, leb, nat_eq, if◌then◌else◌, nat_eq_iff, ltb→lt, lt→ltb, Bool-cases,
  Option-cases, and_left, and_right, or_right, length, get_elem?, take, drop, find_if, any_of,
  all_of, keep, All, In, AllPairs, length-append, take-append, drop-append, All-append, All-keep,
  All-map, AllPairs-keep, AllPairs-concat, HasTest, ◌==◌, ℕ-HasTest, List-HasTest, list_eq, eq_iff,
  eq_self, eq_cases, Result, ok, err, ◌>>=◌, ◌>>◌, reject_if, ok_steps, reject_if-eq-ok,
}
use makebelieve.Base.OrdMap
use makebelieve.Text.{Bytes, ends_with}
use makebelieve.Paths.{FilePath, FilePath-Order, filename, parent_path, ancestors}
use makebelieve.Manifest.Pattern.{NamePattern, name_pattern}
use makebelieve.Manifest.Line.{Declared}
use makebelieve.Manifest.{
  Rule, Reason, Error, already_declared, is_directory, inside_output, inside_banned, ends_banned,
  bans_file, bans_directory, both_wildcards,
}

pub record BannedSuffix : Type 0 where
  pub suffix : Bytes
  pub line : ℕ

pub record CopyOfOutput : Type 0 where
  pub rule : ℕ
  pub line : ℕ
  pub left : Bytes
  pub source : FilePath

-- The local variables of `parse`.
pub record Progress : Type 0 where
  pub rules : List Rule
  pub errors : List Error
  pub files : List (FilePath × ℕ)
  pub directories : List (FilePath × ℕ)
  pub banned_suffixes : List (FilePath × List BannedSuffix)
  pub copies : List CopyOfOutput
  pub lines : List ℕ

abbrev pub or_empty {ℓ} : {A : Type ℓ} → Option (List A) → List A
or_empty none = []
or_empty (some l) = l

-- The suffixes banned in a directory.
unfoldable pub banned_in : Progress → FilePath → List BannedSuffix
unfolding OrdMap.find
banned_in st directory = or_empty (OrdMap.find directory st.banned_suffixes)

unfoldable pub banned_suffix : Progress → FilePath → Option BannedSuffix
unfolding banned_in filename parent_path ends_with
banned_suffix st path =
    find_if (λ other. ends_with (filename path) other.suffix) (banned_in st (parent_path path))

-- The first directory above that is a file, with the line that declares it.
unfoldable pub file_above : Progress → List FilePath → Option ℕ
unfolding OrdMap.find
file_above st [] = none
file_above st (parent ∷ rest) = elim (OrdMap.find parent st.files) [
  | some n ↦ some n
  | none ↦ file_above st rest
]

unfoldable pub banned_above : Progress → List FilePath → Option BannedSuffix
unfolding banned_suffix
banned_above st [] = none
banned_above st (parent ∷ rest) = elim (banned_suffix st parent) [
  | some b ↦ some b
  | none ↦ banned_above st rest
]

-- A check that rejects with the message made of what it found.
abbrev pub reject_some {ℓ} : {A : Type ℓ} → Option A → (A → Reason) → Result Reason (Unit {0})
reject_some none f = ok tt
reject_some (some a) f = err (f a)

-- The lambda `ends_in_it`.
unfoldable pub ends_in_it : FilePath → Bytes → FilePath × ℕ → Bool
unfolding filename parent_path ends_with
ends_in_it directory suffix (path, n) =
    parent_path path == directory && ends_with (filename path) suffix

unfoldable pub suffixes_clash : Bytes → BannedSuffix → Bool
unfolding ends_with
suffixes_clash suffix other = ends_with suffix other.suffix || ends_with other.suffix suffix

abbrev pub suffix_of : FilePath → Bytes
suffix_of path = (name_pattern (filename path)).suffix

abbrev longer : Bytes → Bytes → Bytes
longer a b = if ltb (length b) (length a) then a else b

-- What is at or above the path already.
unfoldable pub check_place : Progress → Declared → Result Reason (Unit {0})
unfolding OrdMap.find file_above banned_above ancestors
check_place st d = do
  reject_some (OrdMap.find d.output st.files) (already_declared d.left)
  reject_some (OrdMap.find d.output st.directories) (is_directory d.left)
  reject_some (file_above st (ancestors d.output)) (inside_output d.left)
  reject_some (banned_above st (ancestors d.output)) (λ b. inside_banned d.left b.suffix b.line)

unfoldable pub check_wildcard : Progress → Declared → Result Reason (Unit {0})
unfolding ends_in_it suffixes_clash banned_in parent_path name_pattern filename
check_wildcard st d = do
  let directory = parent_path d.output
  let suffix = suffix_of d.output
  reject_some (find_if (ends_in_it directory suffix) st.files) (λ f. bans_file d.left suffix f.1)
  reject_some (find_if (ends_in_it directory suffix) st.directories)
      (λ f. bans_directory d.left suffix f.1)
  reject_some (find_if (suffixes_clash suffix) (banned_in st directory))
      (λ b. both_wildcards d.left b.line (longer suffix b.suffix))

unfoldable pub check_simple : Progress → Declared → Result Reason (Unit {0})
unfolding banned_suffix
check_simple st d =
    reject_some (banned_suffix st d.output) (λ b. ends_banned d.left b.suffix b.line)

unfoldable pub check_declared : Progress → Declared → Result Reason (Unit {0})
unfolding check_place check_wildcard check_simple
check_declared st d = do
  check_place st d
  if d.wildcard then check_wildcard st d else check_simple st d

-- `directories.emplace` for each directory above.
unfoldable pub emplace_all : ℕ → List FilePath → List (FilePath × ℕ) → List (FilePath × ℕ)
unfolding OrdMap.emplace
emplace_all n [] m = m
emplace_all n (p ∷ ps) m = emplace_all n ps (OrdMap.emplace p n m)

unfoldable pub rule_of : Declared → Rule
rule_of d = record {
  output = d.output;
  action = d.action;
  command = d.command;
  wildcard_source = d.wildcard_source;
  wildcard_over_outputs = d.over_outputs;
}

note_copy : Progress → ℕ → Declared → Option FilePath → List CopyOfOutput
note_copy st n d none = st.copies
note_copy st n d (some source) =
    st.copies ++ (record { rule = length st.rules; line = n; left = d.left; source = source }) ∷ []

ban : Progress → ℕ → Declared → List (FilePath × List BannedSuffix)
unfolding OrdMap.assign banned_in parent_path name_pattern filename
ban st n d =
    OrdMap.assign (parent_path d.output)
      (banned_in st (parent_path d.output)
        ++ (record { suffix = suffix_of d.output; line = n }) ∷ [])
      st.banned_suffixes

-- The line is accepted.
unfoldable pub declare : Progress → ℕ → Declared → Progress
unfolding OrdMap.emplace emplace_all ancestors rule_of note_copy ban
declare st n d = record {
  rules = st.rules ++ rule_of d ∷ [];
  errors = st.errors;
  files = if d.wildcard then st.files else OrdMap.emplace d.output n st.files;
  directories = emplace_all n (ancestors d.output) st.directories;
  banned_suffixes = if d.wildcard then ban st n d else st.banned_suffixes;
  copies = note_copy st n d d.copied_output;
  lines = st.lines ++ n ∷ [];
}

unfoldable pub reject : Progress → ℕ → Reason → Progress
reject st n why = record st { errors = st.errors ++ (record { line = n; message = why }) ∷ [] }
