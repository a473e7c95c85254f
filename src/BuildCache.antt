-- ===== src/BuildCache.antt =====
-- src/buildcache.cpp: built outputs kept on disk, records in a database and contents in files named by
-- their hash.
pub mod Operations
pub mod Stages
pub mod Whole
pub mod Effects
pub mod Outcome
pub mod Drops
pub mod Rows
pub mod Records
pub mod Actions
mod Tests
use makebelieve.Base.{
  ℕ, zero, suc, ◌+◌, ◌-◌, ◌*◌, ◌%◌, ◌^◌, ◌≤◌, ◌<◌, ◌≡◌, refl, sym, ap, subst, ◌∙◌, ◌≢◌, ◌↔◌, ◌⊎◌,
  inl, inr, Bool, true, false, not, ◌&&◌, ◌||◌, Option, none, some, List, [], ◌∷◌, ◌++◌, map,
  reverse, arith, ltb, leb, nat_eq, if◌then◌else◌, nat_eq_iff, ltb→lt, lt→ltb, Bool-cases,
  Option-cases, and_left, and_right, or_right, length, get_elem?, modify, length-modify,
  modify_self, modify-none, modify_other, take, drop, find_if, any_of, all_of, keep, All, In,
  In-left, In-right, In-split, get_elem?-append, length-get, get-length, AllPairs, length-append,
  take-append, drop-append, All-append, All-keep, All-map, AllPairs-keep, AllPairs-concat, HasTest,
  ◌==◌, ℕ-HasTest, List-HasTest, list_eq, eq_iff, eq_self, eq_cases, Result, ok, err, ◌>>=◌, ◌>>◌,
  reject_if, ok_steps, reject_if-eq-ok, after_check, ok-injective, ne_test,
}
use makebelieve.Base.OrdMap
use Prim.Native.Nat.{◌/◌}
use makebelieve.Text.{Bytes, codes}
use makebelieve.Paths.{FilePath}
use makebelieve.Manifest.{Action, run, capture, copy, tracing}
use makebelieve.DirectoryTree.{ℤ, ErrorCode}

-- A row of the table `outputs`.
pub record OutputRow : Type 0 where
  pub path : Bytes
  pub action : Bytes
  pub command : Bytes
  pub hash : Bytes
  pub mtime : ℤ

-- A row of the table `inputs`.
pub record InputRow : Type 0 where
  pub output : Bytes
  pub path : Bytes
  pub mtime : ℤ
  pub size : ℤ
  pub hash : Bytes

-- What the cache calls of SQLite, of xxHash and of the number format: each statement is one operation
-- on the tables, and `output_rows` and `input_rows` are what a SELECT of all rows gives.
pub record Libraries : Type 1 where
  pub Tables : Type 0
  pub no_tables : Tables
  pub output_rows : Tables → List OutputRow
  pub input_rows : Tables → List InputRow
  pub find_hash : Bytes → Tables → Option Bytes
  pub is_named : Bytes → Tables → Bool
  pub delete_inputs : Bytes → Tables → Tables
  pub delete_output : Bytes → Tables → Tables
  pub replace_output : OutputRow → Tables → Tables
  pub insert_input : InputRow → Tables → Tables
  pub xxh3_128bits : Bytes → ℕ × ℕ
  pub decimal : ℕ → Bytes

abbrev pub same_key : InputRow → InputRow → Bool
same_key a b = a.output == b.output && a.path == b.path

-- What SQLite promises of the statements: `path` is the key of `outputs`, and an output with a path
-- the key of `inputs`.
pub record IsSql (l : Libraries) : Type 0 where
  pub none_out : l.output_rows l.no_tables ≡ []
  pub none_in : l.input_rows l.no_tables ≡ []
  pub find_hash_iff :
      (p h : Bytes) (t : l.Tables)
      → (l.find_hash p t ≡ some h)
        ↔ ((r : OutputRow) × In r (l.output_rows t) × (r.path ≡ p) × (r.hash ≡ h))
  pub rows_unique :
      (t : l.Tables) (r s : OutputRow)
      → In r (l.output_rows t)
      → In s (l.output_rows t)
      → s.path ≡ r.path
      → s ≡ r
  pub is_named_iff :
      (h : Bytes) (t : l.Tables)
      → (l.is_named h t ≡ true) ↔ ((r : OutputRow) × In r (l.output_rows t) × (r.hash ≡ h))
  pub delete_output_iff :
      (p : Bytes) (t : l.Tables) (r : OutputRow)
      → In r (l.output_rows (l.delete_output p t)) ↔ (In r (l.output_rows t) × (r.path ≢ p))
  pub replace_output_iff :
      (n : OutputRow) (t : l.Tables) (r : OutputRow)
      → In r (l.output_rows (l.replace_output n t))
        ↔ ((r ≡ n) ⊎ (In r (l.output_rows t) × (r.path ≢ n.path)))
  pub delete_inputs_out :
      (p : Bytes) (t : l.Tables) → l.output_rows (l.delete_inputs p t) ≡ l.output_rows t
  pub insert_input_out :
      (i : InputRow) (t : l.Tables) → l.output_rows (l.insert_input i t) ≡ l.output_rows t
  pub delete_output_in :
      (p : Bytes) (t : l.Tables) → l.input_rows (l.delete_output p t) ≡ l.input_rows t
  pub replace_output_in :
      (n : OutputRow) (t : l.Tables) → l.input_rows (l.replace_output n t) ≡ l.input_rows t
  pub delete_inputs_in :
      (p : Bytes) (t : l.Tables)
      → l.input_rows (l.delete_inputs p t) ≡ keep (λ i. not (i.output == p)) (l.input_rows t)
  pub insert_input_in :
      (i : InputRow) (t : l.Tables)
      → l.input_rows (l.insert_input i t) ≡ (
          if any_of (same_key i) (l.input_rows t) then l.input_rows t else l.input_rows t ++ i ∷ [])

-- The rule that a runner gets.
pub record Command : Type 0 where
  pub output : FilePath
  pub action : Action
  pub text : Bytes

pub record Input : Type 0 where
  pub path : FilePath
  pub mtime : ℤ
  pub size : ℤ
  pub hash : Bytes

pub record Record : Type 0 where
  pub command : Command
  pub hash : Bytes
  pub mtime : ℤ
  pub inputs : List Input

-- `objects` are the files of the directory of that name.
pub record Cache (l : Libraries) : Type 0 where
  pub tables : l.Tables
  pub objects : List (Bytes × Bytes)
  pub next_scratch : ℕ

unfoldable pub initial : (l : Libraries) → Cache l
initial l = record { tables = l.no_tables; objects = []; next_scratch = 0 }

unfoldable pub action_text : Action → Bytes
action_text run = codes "run"
action_text capture = codes "capture"
action_text copy = codes "copy"
action_text tracing = codes "tracing"

unfoldable pub action_from_text : Bytes → Option Action
unfolding action_text
action_from_text text = find_if (λ a. action_text a == text) (run ∷ capture ∷ copy ∷ tracing ∷ [])

abbrev hex_digit : ℕ → ℕ
hex_digit n = if ltb n 10 then n + b'0' else n - 10 + b'a'

-- `{:016x}`, of a number of 64 bits, with 16 for the width.
unfoldable pub hex : ℕ → ℕ → Bytes
hex zero n = []
hex (suc width) n = hex width (n / 16) ++ hex_digit (n % 16) ∷ []

unfoldable pub hash : (l : Libraries) → Bytes → Bytes
unfolding hex
hash l bytes = hex 16 (l.xxh3_128bits bytes).0 ++ hex 16 (l.xxh3_128bits bytes).1

abbrev pub is_hex : ℕ → Bool
is_hex c = leb b'0' c && leb c b'9' || leb b'a' c && leb c b'f'

unfoldable pub is_hash : Bytes → Bool
is_hash h = length h == 32 && all_of is_hex h

length-hex : (w n : ℕ) → length (hex w n) ≡ w
unfolding hex
length-hex zero n = refl
length-hex (suc w) n =
    omega (arith, length-append (hex w (n / 16)) (hex_digit (n % 16) ∷ []), length-hex w (n / 16))

all_of-append :
    (p : ℕ → Bool) (xs ys : Bytes)
    → all_of p xs ≡ true
    → all_of p ys ≡ true
    → all_of p (xs ++ ys) ≡ true
all_of-append p [] ys h k = k
all_of-append p (x ∷ xs) ys h k = ground (arith, all_of-append p xs ys)

hex_digit_lem : (n : ℕ) → n < 16 → is_hex (hex_digit n) ≡ true
hex_digit_lem n h = ground arith

hex_digits : (w n : ℕ) → all_of is_hex (hex w n) ≡ true
unfolding hex
hex_digits zero n = refl
hex_digits (suc w) n =
    all_of-append is_hex (hex w (n / 16)) (hex_digit (n % 16) ∷ []) (hex_digits w (n / 16))
      (ground (arith, hex_digit_lem (n % 16) (omega arith)))

pub length-hash : (l : Libraries) (bytes : Bytes) → length (hash l bytes) ≡ 32
unfolding hash
length-hash l bytes = two (l.xxh3_128bits bytes).0 (l.xxh3_128bits bytes).1
  where
    two : (high low : ℕ) → length (hex 16 high ++ hex 16 low) ≡ 32
    two high low =
        omega
          (arith, length-append (hex 16 high) (hex 16 low), length-hex 16 high, length-hex 16 low)

-- The hash of any bytes is one that `is_hash` accepts: 32 digits, each hexadecimal.
pub is_hash-hash : (l : Libraries) (bytes : Bytes) → is_hash (hash l bytes) ≡ true
unfolding is_hash hash
is_hash-hash l bytes =
    subst (λ n. (n == 32 && all_of is_hex (hash l bytes)) ≡ true) (sym (length-hash l bytes))
      (two (l.xxh3_128bits bytes).0 (l.xxh3_128bits bytes).1)
  where
    two : (high low : ℕ) → all_of is_hex (hex 16 high ++ hex 16 low) ≡ true
    two high low =
        all_of-append is_hex (hex 16 high) (hex 16 low) (hex_digits 16 high) (hex_digits 16 low)
