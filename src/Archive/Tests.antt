-- ===== src/Archive/Tests.antt =====
-- Tests for internal/archive.
use corkscrew.Prelude.{
  ◌≤◌, ◌≡◌, refl, arith, false, none, [], ◌∷◌, ◌++◌, Text, codes, join, split, contains_byte,
  text_eq, has_prefix, length, done,
}
use corkscrew.Prelude.Int.{pos}
use corkscrew.Archive.Types.{
  Limits, Body, opened, external, Entry, kind_file, Header, type_reg, readable, unreadable,
  ArchiveFile, format_tar_gz, escapes_destination,
}
use corkscrew.Archive.Budget.{Budget, charge, copied, max_int64}
use corkscrew.Archive.Budget.Balance.{copied_lem, copy_overflows}
use corkscrew.Archive.Paths.{FilePath, confined, refused, confine, resolve}
use corkscrew.Archive.Paths.Plain.{IsPlain}
use corkscrew.Archive.Paths.Inside.{IsInside, confine-IsInside}
use corkscrew.Archive.Paths.Kept.{IsOrdinary, confine-ordinary}
use corkscrew.Archive.World.{Os, write, copy, write_atomic}
use corkscrew.Archive.World.Effects.{copy_whole}
use corkscrew.Archive.Extract.{Extraction, is_clean, extract_tree, extract_file}
use corkscrew.Archive.Extract.Install.{IsInPlace, extract_file-IsInPlace}
use corkscrew.Archive.Extract.Tree.{IsContained, extract_tree-IsContained}
use corkscrew.Archive.Extract.File.{IsInstalled, write_atomic-IsInstalled}

abbrev os_ok : Os
os_ok log call = none

abbrev small_limits : Limits
small_limits = record { bytes_max = pos 5; entry_count_max = pos 10; entry_bytes_max = pos 4 }

abbrev abc : Body
abc = record { bytes = codes "abc"; fault = none; close_fault = none }

abbrev abc_entry : Entry
abc_entry = record {
  name = codes "root/a.txt";
  kind = kind_file;
  size = pos 3;
  content = opened abc;
}

abbrev header : Text → Header
header name = record { name = name; size = pos 3; type_flag = type_reg; content = opened abc }

abbrev some_tar : ArchiveFile
some_tar = record {
  as_tar = readable (record {
    headers = header (codes "root/a.txt") ∷ header (codes "root/../../b.txt") ∷ [];
    fault = none;
    close_err = [];
  });
  as_zip = unreadable (external 1 ∷ []);
}

abbrev some_dest : FilePath
some_dest = codes "srv" ∷ codes "packs" ∷ []

IsPlain-srv : IsPlain (codes "srv")
unfolding contains_byte
IsPlain-srv = record {
  not_empty = λ e. cc;
  not_dot = λ e. cc;
  not_dot_dot = λ e. cc;
  no_slash = refl;
}

IsPlain-packs : IsPlain (codes "packs")
unfolding contains_byte
IsPlain-packs = record {
  not_empty = λ e. cc;
  not_dot = λ e. cc;
  not_dot_dot = λ e. cc;
  no_slash = refl;
}

some_dest-IsPlain : IsPlain (codes "srv") × (IsPlain (codes "packs") × Unit {0})
some_dest-IsPlain = (IsPlain-srv, (IsPlain-packs, tt))

confine_up : confine some_dest (codes "root/../../b") 1 ≡ refused escapes_destination
unfolding confine resolve split join contains_byte text_eq has_prefix
confine_up = refl

confine_in : confine some_dest (codes "root/a/../b") 1 ≡ confined (some_dest ++ codes "b" ∷ [])
unfolding confine resolve split join contains_byte text_eq has_prefix
confine_in = refl

extract_tree-IsContained_example :
    (x : Extraction) × (extract_tree os_ok format_tar_gz some_tar some_dest (pos 1) small_limits []
      ≡ done x)
    × IsContained some_dest 5 x
unfolding is_clean text_eq contains_byte
extract_tree-IsContained_example =
    extract_tree-IsContained os_ok some_dest small_limits format_tar_gz some_tar (pos 1) refl

confine-IsInside_example : IsInside some_dest (some_dest ++ codes "b" ∷ [])
confine-IsInside_example =
    confine-IsInside some_dest (codes "root/a/../b") 1 (some_dest ++ codes "b" ∷ [])
      some_dest-IsPlain confine_in

IsOrdinary-srv : IsOrdinary (codes "srv")
unfolding contains_byte
IsOrdinary-srv = record { plain = IsPlain-srv; no_backslash = refl; no_nul = refl }

IsOrdinary-packs : IsOrdinary (codes "packs")
unfolding contains_byte
IsOrdinary-packs = record { plain = IsPlain-packs; no_backslash = refl; no_nul = refl }

confine-ordinary_example :
    confine some_dest (join (codes "/") (codes "srv" ∷ codes "packs" ∷ [])) 1
    ≡ confined (some_dest ++ codes "packs" ∷ [])
confine-ordinary_example =
    confine-ordinary some_dest (codes "srv" ∷ []) (codes "packs") []
      (IsOrdinary-srv, (IsOrdinary-packs, tt))

abbrev small_budget : Budget
small_budget = record {
  bytes_max = 5;
  remaining = 5;
  entry_max = 4;
  written = 0;
  skipped = 0;
  charged = false;
}

write_atomic-IsInstalled_example :
    IsInstalled os_ok some_dest abc_entry small_budget []
      (write_atomic os_ok some_dest abc_entry small_budget [])
unfolding write_atomic copied charge
write_atomic-IsInstalled_example =
    write_atomic-IsInstalled os_ok some_dest abc_entry small_budget [] (omega arith) refl

copy_whole_example :
    ((copy os_ok some_dest abc small_budget []).log ≡ write some_dest (codes "abc") ∷ [])
    × (abc.fault ≡ none)
    × ((copy os_ok some_dest abc small_budget []).budget.written ≡ 3)
    × (3 ≤ 4)
    × (3 ≤ 5)
unfolding copy copied charge
copy_whole_example = copy_whole os_ok some_dest abc small_budget [] (omega arith) refl

copied_lem_example :
    (length (copied small_budget abc).0 ≤ 5)
    × (3 ≤ 4 → copied small_budget abc ≡ (codes "abc", none))
copied_lem_example = copied_lem small_budget abc (omega arith)

abbrev greatest_budget : Budget
greatest_budget = record {
  bytes_max = max_int64;
  remaining = max_int64;
  entry_max = max_int64;
  written = 0;
  skipped = 0;
  charged = false;
}

copy_overflows_example :
    (copied greatest_budget abc ≡ ([], none))
    × ((charge greatest_budget
          (length (copied greatest_budget abc).0)
          (copied greatest_budget abc).1).0
        ≡ [])
copy_overflows_example = copy_overflows greatest_budget abc refl

extract_file-IsInPlace_example :
    (x : Extraction) × (extract_file os_ok format_tar_gz some_tar
        (codes "a.txt")
        some_dest
        small_limits
        []
      ≡ done x)
    × IsInPlace some_dest 5 x
unfolding is_clean text_eq contains_byte
extract_file-IsInPlace_example =
    extract_file-IsInPlace os_ok some_dest small_limits format_tar_gz some_tar (codes "a.txt") refl
