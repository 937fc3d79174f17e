-- ===== src/Cloudflare/Listing.antt =====
-- plugins/cloudflare-provider/list.go: listResourcesPaged, refsForKey, gcListCache and
-- listCacheKey. A time is a number that grows.
pub mod Pages
pub mod Session
use corkscrew.Prelude.{
  ℕ, zero, suc, ◌+◌, ◌*◌, ◌%◌, ◌^◌, Bool, true, false, ◌&&◌, ◌||◌, not, Option, none, some, List,
  [], ◌∷◌, ◌++◌, Text, codes, text_eq, join, sort_texts, length, take, drop, ltb, leb,
  if◌then◌else◌,
}
use corkscrew.Prelude.Int.{ℤ, pos, negsuc}
use corkscrew.Prelude.Decimal.{itoa, atoi}
use corkscrew.ScanErrors.{split_scan_errors}

-- Ten minutes, in nanoseconds.
abbrev pub list_cache_ttl : ℕ
list_cache_ttl = 600 * 10 ^ 9

abbrev pub list_page_size_default : ℕ
list_page_size_default = 1000

-- pb.Resource, as far as a reference is made of it.
pub record Resource : Type 0 where
  pub id : Text
  pub name : Text
  pub type_name : Text
  pub service : Text
  pub region : Text
  pub account_id : Text
  pub attributes : Text

-- pb.ResourceRef, with the map of attributes as a list of its entries.
pub record ResourceRef : Type 0 where
  pub id : Text
  pub name : Text
  pub type_name : Text
  pub service : Text
  pub region : Text
  pub account_id : Text
  pub basic_attributes : List (Text × Text)

pub record ListRequest : Type 0 where
  pub service : Text
  pub filters : List (Text × Text)
  pub max_results : ℤ
  pub next_token : Text

pub record ListResponse : Type 0 where
  pub resources : List ResourceRef
  pub total_count : ℕ
  pub next_token : Text
  pub partial : Option Text

pub record ListEntry : Type 0 where
  pub refs : List ResourceRef
  pub errors : List Text
  pub expires_at : ℕ

-- What ScanService returns: an error, or resources with the entries of its error list.
pub data ScanAnswer : Type 0 where
  failed : Text → ScanAnswer
  scanned : List Resource → List Text → ScanAnswer

abbrev pub Cache : Type 0
Cache = List (Text × ListEntry)

-- The times at which a request reads the clock: for the sweep, for the entry and for its expiry.
pub record Times : Type 0 where
  pub swept : ℕ
  pub read : ℕ
  pub stored : ℕ

-- Load, Delete and Store of the cache.
unfoldable pub load : Text → Cache → Option ListEntry
load k [] = none
load k ((j, e) ∷ cache) = if text_eq j k then some e else load k cache

unfoldable pub delete : Text → Cache → Cache
delete k [] = []
delete k ((j, e) ∷ cache) = if text_eq j k then delete k cache else (j, e) ∷ delete k cache

unfoldable pub store : Text → ListEntry → Cache → Cache
unfolding delete
store k e cache = (k, e) ∷ delete k cache

-- gcListCache
unfoldable pub gc_list_cache : ℕ → Cache → Cache
gc_list_cache now [] = []
gc_list_cache now ((k, e) ∷ cache) =
    if ltb e.expires_at now then gc_list_cache now cache else (k, e) ∷ gc_list_cache now cache

-- filters[key]
unfoldable pub filter_of : Text → List (Text × Text) → Text
filter_of k [] = []
filter_of k ((j, v) ∷ filters) = if text_eq j k then v else filter_of k filters

abbrev pub keys_of : List (Text × Text) → List Text
keys_of [] = []
keys_of ((k, v) ∷ filters) = k ∷ keys_of filters

unfoldable pub write_filters : List (Text × Text) → List Text → Text
unfolding filter_of
write_filters filters [] = []
write_filters filters (k ∷ ks) =
    k ++ (b'=' ∷ filter_of k filters) ++ (b';' ∷ write_filters filters ks)

unfoldable pub list_cache_key : Text → List (Text × Text) → Text
unfolding write_filters
list_cache_key service filters =
    service ++ b'|' ∷ write_filters filters (sort_texts (keys_of filters))

-- m[key] = value
unfoldable pub put : Text → Text → List (Text × Text) → List (Text × Text)
put k v [] = (k, v) ∷ []
put k v ((j, w) ∷ m) = if text_eq j k then (k, v) ∷ m else (j, w) ∷ put k v m

-- The loop over the attributes.
unfoldable pub put_attributes : List (Text × Text) → List (Text × Text) → List (Text × Text)
unfolding put
put_attributes [] m = m
put_attributes ((k, v) ∷ attrs) m = put_attributes attrs (if text_eq v [] then m else put k v m)

abbrev pub has_scan_errors : List Text → Bool
has_scan_errors errors = elim (split_scan_errors errors).errs [ [] ↦ false | _ ∷ _ ↦ true ]

-- fresh && (len(scanErrors) == 0 || req.GetNextToken() != "")
unfoldable pub is_usable : ListEntry → Text → ℕ → Bool
is_usable entry next_token now =
    ltb now entry.expires_at && (not (has_scan_errors entry.errors) || not (text_eq next_token []))

-- `decode` is decodeAttrs, with the entries in the order in which the loop visits them.
module _ (decode : Text → List (Text × Text)) where
  unfoldable pub ref_of : Resource → ResourceRef
  unfolding put_attributes
  ref_of r = record {
    id = r.id;
    name = r.name;
    type_name = r.type_name;
    service = r.service;
    region = r.region;
    account_id = r.account_id;
    basic_attributes =
        put_attributes (decode r.attributes) ((codes "provider", codes "cloudflare") ∷ []);
  }

  unfoldable pub refs_of : List Resource → List ResourceRef
  refs_of [] = []
  refs_of (r ∷ rs) = ref_of r ∷ refs_of rs

  -- ScanService and what follows it.
  unfoldable pub scan_for_key : Text → ScanAnswer → ℕ → Cache → Option ListEntry × Cache
  scan_for_key key (failed e) now cache = (none, cache)
  scan_for_key key (scanned resources errors) now cache =
      let entry : ListEntry = record {
        refs = refs_of resources;
        errors = errors;
        expires_at = now + list_cache_ttl;
      } in
      (some entry, store key entry cache)

  -- refsForKey; an error of the scan is `none`.
  unfoldable pub refs_for_key :
      Text → ListRequest → ScanAnswer → Times → Cache → Option ListEntry × Cache
  refs_for_key key req answer times cache =
      let swept = gc_list_cache times.swept cache in
      elim (load key swept) [
        | none ↦ scan_for_key key answer times.stored swept
        | some entry ↦
            if is_usable entry req.next_token times.read
            then (some entry, swept)
            else scan_for_key key answer times.stored (delete key swept)
      ]

-- The offset that the token asks for.
unfoldable pub offset_of : Text → ℕ
offset_of [] = 0
offset_of (c ∷ s) = elim (atoi (c ∷ s)) [ some (pos n) ↦ n | _ ↦ 0 ]

abbrev pub page_size_of : ℤ → ℕ
page_size_of (pos zero) = list_page_size_default
page_size_of (pos (suc n)) = suc n
page_size_of (negsuc n) = list_page_size_default

-- "partial" and "errors" of the response's metadata.
abbrev pub partial_of : List Text → Option Text
partial_of [] = none
partial_of (e ∷ es) = some (join (10 ∷ []) (e ∷ es))

-- listResourcesPaged once the entry is there.
unfoldable pub page_of : ListEntry → ListRequest → ListResponse
unfolding offset_of
page_of entry req =
    let asked = offset_of req.next_token in
    let offset = if ltb (length entry.refs) asked then length entry.refs else asked in
    let page = drop offset entry.refs in
    let size = page_size_of req.max_results in
    let cut = ltb size (length page) in
    record {
      resources = if cut then take size page else page;
      total_count = length entry.refs % 2 ^ 32;
      next_token = if cut then itoa (offset + length (take size page)) else [];
      partial = partial_of (split_scan_errors entry.errors).errs;
    }

-- listResourcesPaged
unfoldable pub list_resources_paged :
    (Text → List (Text × Text))
    → ListRequest
    → ScanAnswer
    → Times
    → Cache
    → Option ListResponse × Cache
list_resources_paged decode req answer times cache =
    let (entry, cache') =
      refs_for_key decode (list_cache_key req.service req.filters) req answer times cache in
    (elim entry [ none ↦ none | some e ↦ some (page_of e req) ], cache')
