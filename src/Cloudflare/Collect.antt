-- ===== src/Cloudflare/Collect.antt =====
-- plugins/cloudflare-provider/traversal.go: collectAutoPaging.
pub mod Stops
use corkscrew.Prelude.{
  ℕ, zero, suc, ◌+◌, Bool, true, false, ◌||◌, Option, none, some, List, [], ◌∷◌, ◌++◌, Text,
  text_eq, length, leb, ltb, if◌then◌else◌,
}

-- Cloudflare's smallest default page size.
abbrev pub repeat_complete_items_max : ℕ
repeat_complete_items_max = 20

abbrev pub list_items_max : ℕ
list_items_max = 100000

pub data ListError : Type 0 where
  pager_error : Text → ListError
  item_cap : ListError
  repeated : ListError

-- seen[key]
unfoldable pub is_seen : Text → List Text → Bool
is_seen k [] = false
is_seen k (j ∷ js) = text_eq j k || is_seen k js

-- What the pager serves: the item of each call of Next, or the end; and its error then.
pub record Pager {ℓ} (A : Type ℓ) : Type ℓ where
  pub serve : ℕ → Option A
  pub err : Option Text

pub record Listed {ℓ} (A : Type ℓ) : Type ℓ where
  pub items : List A
  pub error : Option ListError

-- iter.Err()
abbrev pub pager_end : Option Text → Option ListError
pager_end none = none
pager_end (some e) = some (pager_error e)

module _ {ℓ} {A : Type ℓ} (item_key : A → Option Text) (items_max : ℕ) (pager : Pager A) where
  -- The loop before call `i` of Next, with fuel for the calls; `none` means that it ran out.
  unfoldable pub collect_loop : ℕ → ℕ → List A → List Text → Option (Listed A)
  collect_loop zero i results seen = none
  collect_loop (suc fuel) i results seen = elim (pager.serve i) [
    | none ↦ some (record { items = results; error = pager_end pager.err })
    | some item ↦ elim (leb items_max (length results)) [
      | true ↦ some (record { items = results; error = some item_cap })
      | false ↦ elim (item_key item) [
        | none ↦ collect_loop fuel (suc i) (results ++ item ∷ []) seen
        | some k ↦ elim (is_seen k seen) [
          | true ↦ some (record {
            items = results;
            error = if ltb (length results) repeat_complete_items_max then none else some repeated;
          })
          | false ↦ collect_loop fuel (suc i) (results ++ item ∷ []) (k ∷ seen)
        ]
      ]
    ]
  ]

  unfoldable pub collect_auto_paging : Option (Listed A)
  unfolding collect_loop
  collect_auto_paging = collect_loop (suc items_max) 0 [] []
