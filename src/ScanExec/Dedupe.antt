-- ===== src/ScanExec/Dedupe.antt =====
-- internal/scanexec/executor.go: dedupeResources.
pub mod Keys
pub mod First
use corkscrew.Prelude.{
  Bool, true, false, ◌||◌, Option, none, some, List, [], ◌∷◌, Text, text_eq, join,
}
use corkscrew.ScanExec.Types.{Resource}

-- seen[key]
unfoldable pub is_seen : Text → List Text → Bool
is_seen key [] = false
is_seen key (k ∷ seen) = text_eq k key || is_seen key seen

module _ {ℓ} {B : Type ℓ} where
  -- strings.Join([]string{Provider, AccountId, Type, Id}, "\x00")
  unfoldable pub resource_key : Resource B → Text
  resource_key r = join (0 ∷ []) (r.provider ∷ r.account_id ∷ r.type_name ∷ r.id ∷ [])

  -- The loop, with the keys in the map `seen`: what it appends to the result.
  unfoldable pub dedupe_loop : List Text → List (Option (Resource B)) → List (Option (Resource B))
  dedupe_loop seen [] = []
  dedupe_loop seen (none ∷ rs) = dedupe_loop seen rs
  dedupe_loop seen (some r ∷ rs) = elim (is_seen (resource_key r) seen) [
    | true ↦ dedupe_loop seen rs
    | false ↦ some r ∷ dedupe_loop (resource_key r ∷ seen) rs
  ]

  unfoldable pub dedupe_resources : List (Option (Resource B)) → List (Option (Resource B))
  unfolding dedupe_loop
  dedupe_resources rs = dedupe_loop [] rs
