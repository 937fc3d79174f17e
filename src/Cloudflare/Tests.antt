-- ===== src/Cloudflare/Tests.antt =====
-- plugins/cloudflare-provider: the theorems at concrete listings, and runs of the code.
use corkscrew.Prelude.{
  ℕ, zero, suc, ◌+◌, ◌%◌, ◌≡◌, refl, none, some, Option, List, [], ◌∷◌, Text, codes, text_eq, arith,
  length, sort_texts, text_le,
}
use corkscrew.Prelude.Int.{pos}
use corkscrew.Cloudflare.Collect.{Pager, Listed, is_seen, collect_auto_paging}
use corkscrew.Cloudflare.Collect.Stops.{IsListed, collect-IsListed}
use corkscrew.Cloudflare.Listing.{
  Resource, ListRequest, ListEntry, ScanAnswer, failed, scanned, Times, load, gc_list_cache,
  filter_of, write_filters, list_cache_key, refs_of, scan_for_key, refs_for_key, list_cache_ttl,
}
use corkscrew.Cloudflare.Listing.Session.{drain, drain-IsWhole}

-- A server that serves the same page of three items for every page number.
abbrev repeating : Pager ℕ
repeating = record { serve = λ i. some (i % 3); err = none }

abbrev one_byte : ℕ → Option Text
one_byte n = some (n ∷ [])

collect-IsListed_example :
    (r : Listed ℕ) × (collect_auto_paging one_byte 5 repeating ≡ some r)
    × IsListed one_byte 5 repeating r
collect-IsListed_example = collect-IsListed one_byte 5 repeating

collect_repeating :
    collect_auto_paging one_byte 5 repeating
    ≡ some (record { items = 0 ∷ 1 ∷ 2 ∷ []; error = none })
unfolding collect_auto_paging is_seen text_eq
collect_repeating = refl

abbrev no_attributes : Text → List (Text × Text)
no_attributes s = []

abbrev record_named : Text → Resource
record_named id = record {
  id = id;
  name = id;
  type_name = codes "record";
  service = codes "dns";
  region = [];
  account_id = codes "a";
  attributes = [];
}

abbrev two_at_a_time : ListRequest
two_at_a_time = record { service = codes "dns"; filters = []; max_results = pos 2; next_token = [] }

-- A scan that finds three records at first, and fails later.
abbrev later_failing : ℕ → ScanAnswer
later_failing zero =
    scanned (record_named (codes "x") ∷ record_named (codes "y") ∷ record_named (codes "z") ∷ []) []
later_failing (suc i) = failed (codes "no")

abbrev at_ten : ℕ → Times
at_ten i = record { swept = 10; read = 10; stored = 10 }

abbrev three_records : ListEntry
three_records = record {
  refs =
      refs_of no_attributes
        (record_named (codes "x") ∷ record_named (codes "y") ∷ record_named (codes "z") ∷ []);
  errors = [];
  expires_at = 10 + list_cache_ttl;
}

drain-IsWhole_example :
    drain no_attributes two_at_a_time later_failing at_ten (suc (length three_records.refs)) 0 [] []
    ≡ some three_records.refs
unfolding refs_for_key scan_for_key load gc_list_cache refs_of
drain-IsWhole_example =
    drain-IsWhole no_attributes two_at_a_time later_failing at_ten three_records [] refl
      (omega arith) (λ i. (omega arith, omega arith))

-- Two sets of filters with one key: the separators may stand in a value.
shared_key :
    list_cache_key (codes "dns") ((codes "a", codes "1;b=2") ∷ [])
    ≡ list_cache_key (codes "dns") ((codes "a", codes "1") ∷ (codes "b", codes "2") ∷ [])
unfolding list_cache_key sort_texts write_filters filter_of text_eq text_le
shared_key = refl
