-- ===== src/Drift/Compare.antt =====
-- internal/app/drift/drift.go: compare and changedFields.
use corkscrew.Prelude.{Option, none, some, List, [], ◌∷◌, ◌++◌, Text, codes, text_eq, if◌then◌else◌}
use corkscrew.Drift.Types.{Observation, Change, added, modified, removed}
use corkscrew.Drift.Order.{sort_changes}

abbrev pub Entry : Type 0
Entry = Text × Observation

-- item.Provider + "\x00" + item.ResourceID
abbrev pub key : Observation → Text
key o = o.provider ++ 0 ∷ o.resource_id

-- m[k] = item
abbrev pub put : Text → Observation → List Entry → List Entry
put k item [] = (k, item) ∷ []
put k item ((k', o) ∷ m) = if text_eq k' k then (k, item) ∷ m else (k', o) ∷ put k item m

abbrev pub lookup : Text → List Entry → Option Observation
lookup k [] = none
lookup k ((k', o) ∷ m) = if text_eq k' k then some o else lookup k m

-- The loops that fill the maps.
unfoldable pub index : List Observation → List Entry → List Entry
index [] m = m
index (o ∷ os) m = index os (put (key o) o m)

abbrev differ : Text → Text → Text → List Text → List Text
differ name before after rest = if text_eq before after then rest else name ∷ rest

unfoldable pub changed_fields : Observation → Observation → List Text
changed_fields a b = differ (codes "name") a.name b.name (
    differ (codes "type") a.type_name b.type_name (
      differ (codes "service") a.service b.service (
        differ (codes "location") a.location b.location (
          differ (codes "account_id") a.account_id b.account_id (
            differ (codes "arn") a.arn b.arn (
              differ (codes "parent_id") a.parent_id b.parent_id (
                differ (codes "tags") a.tags b.tags (
                  differ (codes "attributes") a.attributes b.attributes
                    (differ (codes "raw_data") a.raw_data b.raw_data [])))))))))

unfoldable pub removal : Observation → Change
removal old = record {
  change_type = removed;
  provider = old.provider;
  resource_id = old.resource_id;
  changed_fields = [];
  before = some old;
  after = none;
}

unfoldable pub modification : Observation → Observation → Change
modification old current = record {
  change_type = modified;
  provider = old.provider;
  resource_id = old.resource_id;
  changed_fields = changed_fields old current;
  before = some old;
  after = some current;
}

unfoldable pub addition : Observation → Change
addition current = record {
  change_type = added;
  provider = current.provider;
  resource_id = current.resource_id;
  changed_fields = [];
  before = none;
  after = some current;
}

-- What the first loop appends for one entry.
unfoldable pub left_change : Observation → Option Observation → List Change
left_change old none = removal old ∷ []
left_change old (some current) =
    if text_eq old.semantic_hash current.semantic_hash then [] else modification old current ∷ []

-- What the second loop appends for one entry.
unfoldable pub right_change : Observation → Option Observation → List Change
right_change current none = addition current ∷ []
right_change current (some old) = []

unfoldable pub left_changes : List Entry → List Entry → List Change
left_changes [] right = []
left_changes ((identity, old) ∷ left) right =
    left_change old (lookup identity right) ++ left_changes left right

unfoldable pub right_changes : List Entry → List Entry → List Change
right_changes [] left = []
right_changes ((identity, current) ∷ right) left =
    right_change current (lookup identity left) ++ right_changes right left

-- compare, once the maps are filled, for the orders in which the loops over them go.
unfoldable pub compare_entries : List Entry → List Entry → List Change
unfolding left_changes right_changes
compare_entries left right = sort_changes (left_changes left right ++ right_changes right left)

-- compare, where the loops go over the entries in the order in which they came.
unfoldable pub compare : List Observation → List Observation → List Change
unfolding index compare_entries
compare before after = compare_entries (index before []) (index after [])
