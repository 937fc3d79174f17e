-- ===== src/Drift/Types.antt =====
-- internal/app/drift/drift.go: observations and changes.
use corkscrew.Prelude.{Option, List, Text, codes}

-- data.Observation, without its times.
pub record Observation : Type 0 where
  pub scan_id : Text
  pub provider : Text
  pub resource_id : Text
  pub name : Text
  pub type_name : Text
  pub service : Text
  pub location : Text
  pub account_id : Text
  pub arn : Text
  pub parent_id : Text
  pub tags : Text
  pub attributes : Text
  pub raw_data : Text
  pub semantic_hash : Text

pub data ChangeType : Type 0 where
  added modified removed : ChangeType

-- The string of the constant.
abbrev pub type_text : ChangeType → Text
type_text added = codes "added"
type_text modified = codes "modified"
type_text removed = codes "removed"

pub record Change : Type 0 where
  pub change_type : ChangeType
  pub provider : Text
  pub resource_id : Text
  pub changed_fields : List Text
  pub before : Option Observation
  pub after : Option Observation
