-- ===== src/ScanExec/Dedupe/First.antt =====
-- internal/scanexec/executor.go: what dedupeResources keeps.
use mathlib.Core.List.{Sublist}
use mathlib.Core.List.Sublist
use corkscrew.Prelude.{
  ℕ, ◌+◌, ◌≤◌, ◌≡◌, refl, inl, inr, Option, none, some, List, [], ◌∷◌, arith, Text, text_eq,
  text_eq_iff, length, if◌then◌else◌, Bool-cases,
}
use corkscrew.ScanExec.Types.{Resource}
use corkscrew.ScanExec.Dedupe.{resource_key, is_seen, dedupe_loop, dedupe_resources}

module _ {ℓ} {B : Type ℓ} where
  -- The first resource with the key.
  abbrev pub find_key : Text → List (Option (Resource B)) → Option (Resource B)
  find_key key [] = none
  find_key key (none ∷ rs) = find_key key rs
  find_key key (some r ∷ rs) = if text_eq (resource_key r) key then some r else find_key key rs

  -- How many entries have the key.
  abbrev pub count_key : Text → List (Option (Resource B)) → ℕ
  count_key key [] = 0
  count_key key (none ∷ rs) = count_key key rs
  count_key key (some r ∷ rs) = (if text_eq (resource_key r) key then 1 else 0) + count_key key rs

  abbrev pub count_nil : List (Option (Resource B)) → ℕ
  count_nil [] = 0
  count_nil (none ∷ rs) = 1 + count_nil rs
  count_nil (some r ∷ rs) = count_nil rs

  pub record IsDeduped (rs kept : List (Option (Resource B))) : Type ℓ where
    pub first_wins : (key : Text) → find_key key kept ≡ find_key key rs
    pub at_most_once : (key : Text) → count_key key kept ≤ 1
    pub no_nil : count_nil kept ≡ 0
    pub in_order : Sublist kept rs

module _ {B : Type 0} where
  find_key-dedupe_loop :
      (key : Text) (seen : List Text) (rs : List (Option (Resource B)))
      → find_key key (dedupe_loop seen rs) ≡ (if is_seen key seen then none else find_key key rs)
  unfolding dedupe_loop is_seen
  find_key-dedupe_loop key seen [] = ground arith
  find_key-dedupe_loop key seen (none ∷ rs) = find_key-dedupe_loop key seen rs
  find_key-dedupe_loop key seen (some r ∷ rs) = ground (
    arith,
    find_key-dedupe_loop key seen rs,
    find_key-dedupe_loop key (resource_key r ∷ seen) rs,
    text_eq_iff (resource_key r) key,
  )

  count_key-dedupe_loop :
      (key : Text) (seen : List Text) (rs : List (Option (Resource B)))
      → count_key key (dedupe_loop seen rs) ≤ (if is_seen key seen then 0 else 1)
  unfolding dedupe_loop is_seen
  count_key-dedupe_loop key seen [] = omega arith
  count_key-dedupe_loop key seen (none ∷ rs) = count_key-dedupe_loop key seen rs
  count_key-dedupe_loop key seen (some r ∷ rs) = ground (
    arith,
    count_key-dedupe_loop key seen rs,
    count_key-dedupe_loop key (resource_key r ∷ seen) rs,
    text_eq_iff (resource_key r) key,
  )

  count_nil-dedupe_loop :
      (seen : List Text) (rs : List (Option (Resource B))) → count_nil (dedupe_loop seen rs) ≡ 0
  unfolding dedupe_loop
  count_nil-dedupe_loop seen [] = refl
  count_nil-dedupe_loop seen (none ∷ rs) = count_nil-dedupe_loop seen rs
  count_nil-dedupe_loop seen (some r ∷ rs) =
      ground
        (arith, count_nil-dedupe_loop seen rs, count_nil-dedupe_loop (resource_key r ∷ seen) rs)

  dedupe_loop-sublist :
      (seen : List Text) (rs : List (Option (Resource B))) → Sublist (dedupe_loop seen rs) rs
  unfolding dedupe_loop
  dedupe_loop-sublist seen [] = Sublist.refl []
  dedupe_loop-sublist seen (none ∷ rs) = Sublist.cons none (dedupe_loop-sublist seen rs)
  dedupe_loop-sublist seen (some r ∷ rs) = elim (Bool-cases (is_seen (resource_key r) seen)) [
    | inl e ↦ rw (e, dedupe_loop) (Sublist.cons (some r) (dedupe_loop-sublist seen rs))
    | inr e ↦
        rw (e, dedupe_loop)
          (Sublist.cons-cons (some r) (dedupe_loop-sublist (resource_key r ∷ seen) rs))
  ]

  -- Deduplication keeps, for each key, exactly the first resource that has it, drops nil entries,
  -- and leaves the order of what it keeps.
  pub dedupe-IsDeduped : (rs : List (Option (Resource B))) → IsDeduped rs (dedupe_resources rs)
  unfolding dedupe_resources is_seen
  dedupe-IsDeduped rs = record {
    first_wins = λ key. find_key-dedupe_loop key [] rs;
    at_most_once = λ key. count_key-dedupe_loop key [] rs;
    no_nil = count_nil-dedupe_loop [] rs;
    in_order = dedupe_loop-sublist [] rs;
  }

  length-dedupe_loop :
      (seen : List Text) (rs : List (Option (Resource B)))
      → length (dedupe_loop seen rs) ≤ length rs
  unfolding dedupe_loop
  length-dedupe_loop seen [] = omega arith
  length-dedupe_loop seen (none ∷ rs) = omega (arith, length-dedupe_loop seen rs)
  length-dedupe_loop seen (some r ∷ rs) =
      ground (arith, length-dedupe_loop seen rs, length-dedupe_loop (resource_key r ∷ seen) rs)

  pub length-dedupe_resources :
      (rs : List (Option (Resource B))) → length (dedupe_resources rs) ≤ length rs
  unfolding dedupe_resources
  length-dedupe_resources rs = length-dedupe_loop [] rs
