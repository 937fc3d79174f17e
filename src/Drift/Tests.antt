-- ===== src/Drift/Tests.antt =====
-- Tests for internal/app/drift/drift.go.
use corkscrew.Prelude.{◌≡◌, refl, List, [], ◌∷◌, Text, codes, text_eq, text_eq_iff, text_le, arith}
use corkscrew.Drift.Types.{Observation}
use corkscrew.Drift.Order.{sort_changes, insert_change, change_le}
use corkscrew.Drift.Compare.{
  Entry, key, index, compare, compare_entries, left_changes, right_changes, left_change,
  right_change, removal, modification, addition,
}
use corkscrew.Drift.Maps.{IsIteration, index-IsIteration}
use corkscrew.Drift.Determined.{compare_entries_order_free}
use corkscrew.Drift.Exact.{IsComparison, compare_entries-IsComparison}

abbrev seen : Text → Text → Observation
seen id hash = record {
  scan_id = codes "s";
  provider = codes "aws";
  resource_id = id;
  name = hash;
  type_name = [];
  service = [];
  location = [];
  account_id = [];
  arn = [];
  parent_id = [];
  tags = [];
  attributes = [];
  raw_data = [];
  semantic_hash = hash;
}

abbrev first_scan : List Observation
first_scan =
    seen (codes "b") (codes "1") ∷ seen (codes "a") (codes "1") ∷ seen (codes "c") (codes "1") ∷ []

abbrev second_scan : List Observation
second_scan =
    seen (codes "a") (codes "2") ∷ seen (codes "d") (codes "1") ∷ seen (codes "c") (codes "1") ∷ []

compare_two :
    compare first_scan second_scan
    ≡ addition (seen (codes "d") (codes "1"))
      ∷ modification (seen (codes "a") (codes "1")) (seen (codes "a") (codes "2"))
      ∷ removal (seen (codes "b") (codes "1"))
      ∷ []
unfolding compare compare_entries index sort_changes insert_change change_le left_changes
    right_changes left_change right_change removal modification addition text_eq text_le
compare_two = refl

-- The second map, from its last entry to its first.
abbrev reversed : List Entry
reversed =
    (key (seen (codes "c") (codes "1")), seen (codes "c") (codes "1"))
    ∷ (key (seen (codes "d") (codes "1")), seen (codes "d") (codes "1"))
    ∷ (key (seen (codes "a") (codes "2")), seen (codes "a") (codes "2"))
    ∷ []

reversed-IsIteration : IsIteration second_scan reversed
unfolding text_eq
reversed-IsIteration = record {
  is_map = (refl, refl, (refl, refl, (refl, refl, tt)));
  entries = λ k. ground (
    arith,
    text_eq_iff (key (seen (codes "c") (codes "1"))) k,
    text_eq_iff (key (seen (codes "d") (codes "1"))) k,
    text_eq_iff (key (seen (codes "a") (codes "2"))) k,
  );
}

compare_entries_order_free_example :
    compare_entries (index first_scan []) (index second_scan [])
    ≡ compare_entries (index first_scan []) reversed
compare_entries_order_free_example =
    compare_entries_order_free first_scan second_scan (index first_scan []) (index second_scan [])
      (index first_scan []) reversed (index-IsIteration first_scan) (index-IsIteration second_scan)
      (index-IsIteration first_scan) reversed-IsIteration

compare_entries-IsComparison_example :
    IsComparison first_scan second_scan
      (compare_entries (index first_scan []) (index second_scan []))
compare_entries-IsComparison_example =
    compare_entries-IsComparison first_scan second_scan (index first_scan []) (index second_scan [])
      (index-IsIteration first_scan) (index-IsIteration second_scan)
