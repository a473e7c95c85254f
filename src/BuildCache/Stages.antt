-- ===== src/BuildCache/Stages.antt =====
-- The states that `store` goes through, and where it may end.
use makebelieve.Base.{
  ℕ, ◌+◌, ◌%◌, ◌^◌, ◌≡◌, refl, Option, none, some, List, ℕ-HasTest, List-HasTest, Result,
}
use makebelieve.Text.{Bytes}
use makebelieve.DirectoryTree.{ℤ, ErrorCode}
use makebelieve.BuildCache.{Libraries, Command, Input, Cache, hash}
use makebelieve.BuildCache.Operations.{
  Faults, Files, write_file, rename_file, scratch_name, store_record, store_rename, store_write,
  store,
}

-- The cache with other files.
abbrev pub with_files : {l : Libraries} → Cache l → Files → Cache l
with_files c files = record c { objects = files }

abbrev pub scratch_number : {l : Libraries} → Cache l → ℕ
scratch_number c = (c.next_scratch + 1) % 2 ^ 64

abbrev pub scratch_of : (l : Libraries) → Bytes → Cache l → Bytes
scratch_of l bytes c = scratch_name l (hash l bytes) (scratch_number c)

abbrev pub counted : {l : Libraries} → Cache l → Cache l
counted c = record c { next_scratch = scratch_number c }

abbrev pub written : (l : Libraries) → Bytes → Cache l → Cache l
written l bytes c = with_files (counted c) (write_file (scratch_of l bytes c) bytes c.objects)

abbrev pub renamed : (l : Libraries) → Bytes → Cache l → Cache l
renamed l bytes c =
    with_files (written l bytes c)
      (rename_file (scratch_of l bytes c) (hash l bytes) (written l bytes c).objects)

-- What holds wherever `store` may end holds of `store`.
pub store_by :
    (l : Libraries) (faults : Faults) (command : Command) (bytes : Bytes) (mtime : ℤ)
    (inputs : List Input) (c : Cache l) (P : Result (Option ErrorCode) Bytes × Cache l → Type 0)
    → ((e : ErrorCode)
        → faults.write ≡ some e
        → P (
            store_write l faults command
              (hash l bytes)
              (scratch_of l bytes c)
              bytes
              mtime
              inputs
              (some e)
              (counted c)))
    → ((e : ErrorCode)
        → faults.write ≡ none
        → faults.rename ≡ some e
        → P (
            store_rename l faults command
              (hash l bytes)
              (scratch_of l bytes c)
              mtime
              inputs
              (some e)
              (written l bytes c)))
    → ((q : Option ErrorCode)
        → faults.write ≡ none
        → faults.rename ≡ none
        → faults.transaction ≡ q
        → P (store_record l faults command (hash l bytes) mtime inputs q (renamed l bytes c)))
    → P (store l faults command bytes mtime inputs c)
unfolding store
store_by l faults command bytes mtime inputs c P unwritten unrenamed done =
    by_write faults.write refl
  where
    by_rename :
        faults.write ≡ none
        → (q : Option ErrorCode) → faults.rename ≡ q
        → P (
            store_rename l faults command
              (hash l bytes)
              (scratch_of l bytes c)
              mtime
              inputs
              q
              (written l bytes c))
    by_rename w (some e) r = unrenamed e w r
    by_rename w none r = done faults.transaction w r refl

    by_write :
        (q : Option ErrorCode)
        → faults.write ≡ q
        → P (
            store_write l faults command
              (hash l bytes)
              (scratch_of l bytes c)
              bytes
              mtime
              inputs
              q
              (counted c))
    by_write (some e) w = unwritten e w
    by_write none w = by_rename w faults.rename refl
