-- ===== src/DirectoryTree.antt =====
-- src/directorytree.hpp: the data of a directory tree. A time point is its raw count, of which only
-- equality matters here; an `off_t` is an integer.
pub mod Util
use makebelieve.Base.{
  ℕ, zero, suc, ◌+◌, ◌-◌, ◌*◌, ◌%◌, ◌^◌, ◌≤◌, ◌<◌, ◌≡◌, refl, sym, ap, subst, ◌∙◌, ◌≢◌, ◌↔◌, ◌⊎◌,
  inl, inr, Bool, true, false, not, ◌&&◌, ◌||◌, Option, none, some, List, [], ◌∷◌, ◌++◌, map,
  reverse, arith, ltb, leb, nat_eq, if◌then◌else◌, nat_eq_iff, ltb→lt, lt→ltb, Bool-cases,
  Option-cases, and_left, and_right, or_right, length, get_elem?, take, drop, find_if, any_of,
  all_of, keep, All, In, AllPairs, length-append, take-append, drop-append, All-append, All-keep,
  All-map, AllPairs-keep, AllPairs-concat, HasTest, ◌==◌, ℕ-HasTest, List-HasTest, list_eq, eq_iff,
  eq_self, eq_cases, Result, ok, err, ◌>>=◌, ◌>>◌, reject_if, ok_steps, reject_if-eq-ok,
  after_check, ok-injective, ne_test,
}
use makebelieve.Text.{Bytes}
use makebelieve.Paths.{FilePath}

pub data ℤ : Type 0 where
  pos : ℕ → ℤ
  negsuc : ℕ → ℤ

pub record FileInfo : Type 0 where
  pub size : ℕ
  pub mtime : ℕ

pub record DirectoryInfo : Type 0 where
  pub mtime : ℕ

pub data EntryInfo : Type 0 where
  file : FileInfo → EntryInfo
  directory : DirectoryInfo → EntryInfo

pub record FileContent : Type 0 where
  pub bytes : Bytes
  pub info : FileInfo

pub record TreeEntry : Type 0 where
  pub name : Bytes
  pub info : EntryInfo

pub record DirectoryTreeDiff : Type 0 where
  pub everything_dirty : Bool
  pub entries_changed : List FilePath
  pub child_lists_changed : List FilePath

-- The error codes that a tree hands out; `io_error` is any other that the system may report.
pub data ErrorCode : Type 0 where
  no_such_file_or_directory is_a_directory invalid_argument : ErrorCode
  operation_canceled resource_deadlock_would_occur : ErrorCode
  io_error : ℕ → ErrorCode
