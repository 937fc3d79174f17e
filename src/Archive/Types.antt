-- ===== src/Archive/Types.antt =====
-- internal/archive: limits, errors, and the members of an archive as the tar and zip readers of
-- the standard library deliver them.
use corkscrew.Prelude.{
  ℕ, zero, suc, Bool, true, false, ◌&&◌, Option, none, some, List, [], ◌∷◌, Text,
}
use corkscrew.Prelude.Int.{ℤ, pos, negsuc}

pub data Failure : Type 0 where
  limits_not_positive unknown_format negative_strip : Failure
  negative_entry_size entry_size_exceeds total_size_exceeds entry_exceeds : Failure
  too_many_entries size_overflows unsupported_type : Failure
  invalid_entry_name absolute_entry_name escapes_destination : Failure
  invalid_binary_name binary_not_found : Failure
  -- Errors of the operating system and of the readers; a missing file is told apart.
  not_exist : Failure
  external : ℕ → Failure

-- An error: none, or what errors.Join puts together. `++` is errors.Join.
abbrev pub Err : Type 0
Err = List Failure

abbrev pub to_err : Option Failure → Err
to_err none = []
to_err (some f) = f ∷ []

pub data Format : Type 0 where
  format_tar_gz format_zip : Format
  format_other : ℕ → Format

pub record Limits : Type 0 where
  pub bytes_max : ℤ
  pub entry_count_max : ℤ
  pub entry_bytes_max : ℤ

abbrev pub is_positive : ℤ → Bool
is_positive (pos n) = elim n [ zero ↦ false | suc k ↦ true ]
is_positive (negsuc n) = false

abbrev pub to_nat : ℤ → ℕ
to_nat (pos n) = n
to_nat (negsuc n) = 0

-- Limits.validate
unfoldable pub validate : Limits → Err
validate l =
    elim (is_positive l.bytes_max
      && is_positive l.entry_count_max
      && is_positive l.entry_bytes_max) [ true ↦ [] | false ↦ limits_not_positive ∷ [] ]

-- What reading a member yields: its bytes, the error after them, and the error of Close.
pub record Body : Type 0 where
  pub bytes : List ℕ
  pub fault : Option Failure
  pub close_fault : Option Failure

pub data Opened : Type 0 where
  open_failed : Failure → Opened
  opened : Body → Opened

pub data Kind : Type 0 where
  kind_file kind_dir : Kind

pub record Entry : Type 0 where
  pub name : Text
  pub kind : Kind
  pub size : ℤ
  pub content : Opened

pub data TypeFlag : Type 0 where
  type_reg type_dir type_x_global_header : TypeFlag
  type_other : ℕ → TypeFlag

pub record Header : Type 0 where
  pub name : Text
  pub size : ℤ
  pub type_flag : TypeFlag
  pub content : Opened

-- The members that tar.Reader delivers, and the error that ends them if it is not io.EOF.
pub record TarFile : Type 0 where
  pub headers : List Header
  pub fault : Option Failure
  pub close_err : Err

pub data FileMode : Type 0 where
  mode_regular mode_dir mode_other : FileMode

pub record ZipEntry : Type 0 where
  pub name : Text
  pub mode : FileMode
  pub uncompressed_size : ℕ
  pub content : Opened

pub record ZipFile : Type 0 where
  pub files : List ZipEntry
  pub close_err : Err

pub data Readable {ℓ} (A : Type ℓ) : Type ℓ where
  unreadable : Err → Readable A
  readable : A → Readable A

-- The file at archivePath, as each of the two readers takes it.
pub record ArchiveFile : Type 0 where
  pub as_tar : Readable TarFile
  pub as_zip : Readable ZipFile
