-- ===== src/Cloudflare/Listing/Session.antt =====
-- plugins/cloudflare-provider/list.go: a client that follows the tokens.
use corkscrew.Prelude.{
  ℕ, zero, suc, ◌+◌, ◌^◌, ◌≤◌, ◌<◌, ◌≡◌, ◌≢◌, refl, sym, ap, ◌∙◌, inl, inr, Option, none, some,
  List, [], ◌∷◌, ◌++◌, Text, text_eq_ne, text_eq_refl, length, take, length-drop, ltb, arith,
  Bool-cases, Option-cases,
}
use mathlib.Core.Option
use corkscrew.Prelude.Decimal.{itoa, itoa-ne-nil}
use corkscrew.Cloudflare.Listing.{
  ResourceRef, ListRequest, ListResponse, ListEntry, ScanAnswer, failed, scanned, Cache, Times,
  load, store, gc_list_cache, list_cache_key, scan_for_key, is_usable, refs_for_key, offset_of,
  page_size_of, page_of, list_resources_paged,
}
use corkscrew.Cloudflare.Listing.Pages.{
  page_size_pos, take-append-drop, drop-drop, offset_of-itoa, rest_from, page_of-IsPage,
}

load-gc_list_cache :
    (k : Text) (e : ListEntry) (now : ℕ) (cache : Cache)
    → load k cache ≡ some e
    → now ≤ e.expires_at
    → load k (gc_list_cache now cache) ≡ some e
unfolding load gc_list_cache
load-gc_list_cache k e now [] h b = cc
load-gc_list_cache k e now ((j, d) ∷ cache) h b = ground (arith, load-gc_list_cache k e now cache)

load-store : (k : Text) (e : ListEntry) (cache : Cache) → load k (store k e cache) ≡ some e
unfolding load store
load-store k e cache = ground (arith, text_eq_refl k)

module _ (decode : Text → List (Text × Text)) where
  load-scan_for_key :
      (k : Text) (answer : ScanAnswer) (now : ℕ) (cache : Cache) (e : ListEntry)
      → (scan_for_key decode k answer now cache).0 ≡ some e
      → load k (scan_for_key decode k answer now cache).1 ≡ some e
  unfolding scan_for_key
  load-scan_for_key k (failed m) now cache e h = cc
  load-scan_for_key k (scanned rs es) now cache e h = load-store k _ cache ∙ h

  -- The entry is in the cache afterwards.
  load-refs_for_key :
      (k : Text) (req : ListRequest) (answer : ScanAnswer) (times : Times) (cache : Cache)
      (e : ListEntry)
      → (refs_for_key decode k req answer times cache).0 ≡ some e
      → load k (refs_for_key decode k req answer times cache).1 ≡ some e
  unfolding refs_for_key
  load-refs_for_key k req answer times cache e h =
      elim (Option-cases (load k (gc_list_cache times.swept cache))) [
        | inl miss ↦
            rw (miss, refs_for_key)
              (load-scan_for_key k answer times.stored _ e (rw (miss, refs_for_key) at h))
        | inr (d, hit) ↦ elim (Bool-cases (is_usable d req.next_token times.read)) [
          | inl usable ↦
              rw (hit, refs_for_key)
                (rw usable (hit ∙ (rw usable at (rw (hit, refs_for_key) at h))))
          | inr stale ↦
              rw (hit, refs_for_key)
                (rw stale (
                  load-scan_for_key k answer times.stored _ e
                    (rw stale at (rw (hit, refs_for_key) at h))))
        ]
      ]

  -- A continued listing is served from the entry, whatever a scan would answer.
  refs_for_key-continued :
      (k : Text) (req : ListRequest) (answer : ScanAnswer) (times : Times) (cache : Cache)
      (e : ListEntry)
      → load k cache ≡ some e
      → times.swept ≤ e.expires_at
      → times.read < e.expires_at
      → req.next_token ≢ []
      → refs_for_key decode k req answer times cache ≡ (some e, gc_list_cache times.swept cache)
  unfolding refs_for_key is_usable
  refs_for_key-continued k req answer times cache e h b c more =
      rw (load-gc_list_cache k e times.swept cache h b, refs_for_key)
        (ground (arith, text_eq_ne req.next_token [] more))

-- What the client does with a response: `next` asks for the page of a token.
follow :
    (Text → Cache → Option (List ResourceRef))
    → List ResourceRef
    → Text
    → Cache
    → Option (List ResourceRef)
follow next resources [] cache = some resources
follow next resources (c ∷ s) cache = Option.map (λ more. resources ++ more) (next (c ∷ s) cache)

go_on :
    (Text → Cache → Option (List ResourceRef))
    → Option ListResponse
    → Cache
    → Option (List ResourceRef)
go_on next none cache = none
go_on next (some r) cache = follow next r.resources r.next_token cache

follow-token :
    (next : Text → Cache → Option (List ResourceRef)) (resources : List ResourceRef) (token : Text)
    (cache : Cache)
    → token ≢ []
    → follow next resources token cache ≡ Option.map (λ more. resources ++ more) (next token cache)
unfolding follow
follow-token next resources [] cache ne = absurd (ne refl)
follow-token next resources (c ∷ s) cache ne = refl

module _ (decode : Text → List (Text × Text)) (req : ListRequest) (answers : ℕ → ScanAnswer)
    (times : ℕ → Times) where
  abbrev key : Text
  key = list_cache_key req.service req.filters

  abbrev pub with_token : Text → ListRequest
  with_token token = record req { next_token = token }

  -- A client that asks for the pages from `token` on until a response has no token, with fuel for
  -- the requests; request `i` reads the clock at `times i`, and a scan made for it would answer
  -- `answers i`.
  pub drain : ℕ → ℕ → Text → Cache → Option (List ResourceRef)
  drain zero i token cache = none
  drain (suc fuel) i token cache =
      let out = list_resources_paged decode (with_token token) (answers i) (times i) cache in
      go_on (drain fuel (suc i)) out.0 out.1

  module _ (e : ListEntry) (small : length e.refs < 2 ^ 63)
      (in_time : (i : ℕ)
        → ((times (suc i)).swept ≤ e.expires_at) × ((times (suc i)).read < e.expires_at)) where
    continued :
        (i : ℕ) (token : Text) (cache : Cache)
        → load key cache ≡ some e
        → token ≢ []
        → list_resources_paged decode (with_token token) (answers (suc i)) (times (suc i)) cache
          ≡ (some (page_of e (with_token token)), gc_list_cache (times (suc i)).swept cache)
    unfolding list_resources_paged
    continued i token cache h more = rw (
        refs_for_key-continued decode key (with_token token) (answers (suc i)) (times (suc i)) cache
          e h (in_time i).0 (in_time i).1 more)

    -- After a page from the offset `n`, the client goes on from its end.
    drain-from :
        (fuel i n : ℕ) (token : Text) (cache cache' : Cache)
        → list_resources_paged decode (with_token token) (answers i) (times i) cache
          ≡ (some (page_of e (with_token token)), cache')
        → load key cache' ≡ some e
        → offset_of token ≡ n
        → n ≤ length e.refs
        → length (rest_from e n) < fuel
        → drain fuel i token cache ≡ some (rest_from e n)
    unfolding drain go_on follow
    drain-from zero i n token cache cache' h kept o b enough = absurd (omega arith)
    drain-from (suc fuel) i n token cache cache' h kept o b enough =
        let size : ℕ = page_size_of req.max_results in
        let p = page_of-IsPage e (with_token token) n o b in
        elim (Bool-cases (ltb size (length (rest_from e n)))) [
          | inr last ↦
              let page : (page_of e (with_token token)).resources ≡ rest_from e n =
                ground (arith, p.page, last) in
              let ended : (page_of e (with_token token)).next_token ≡ [] =
                ground (arith, p.token, last) in
              rw h (rw (ended, page))
          | inl cut ↦
              let page : (page_of e (with_token token)).resources ≡ take size (rest_from e n) =
                ground (arith, p.page, cut) in
              let next : (page_of e (with_token token)).next_token ≡ itoa (n + size) =
                ground (arith, p.token, cut) in
              let within : n + size ≤ length e.refs = ground (arith, length-drop n e.refs, cut) in
              let rest =
                drain-from fuel (suc i) (n + size) (itoa (n + size)) cache'
                  (gc_list_cache (times (suc i)).swept cache')
                  (continued i (itoa (n + size)) cache' kept (itoa-ne-nil (n + size)))
                  (load-gc_list_cache key e (times (suc i)).swept cache' kept (in_time i).0)
                  (offset_of-itoa (n + size) (omega arith)) within
                  (omega (
                    arith,
                    length-drop n e.refs,
                    length-drop (n + size) e.refs,
                    page_size_pos req.max_results,
                  )) in
              rw h (
                rw (next, page)
                  (follow-token (drain fuel (suc i)) (take size (rest_from e n)) (itoa (n + size))
                      cache' (itoa-ne-nil (n + size))
                    ∙ ap (Option.map (λ more. take size (rest_from e n) ++ more)) rest
                    ∙ ap some (
                        ap (λ more. take size (rest_from e n) ++ more)
                          (sym (drop-drop n size e.refs))
                        ∙ take-append-drop size (rest_from e n))))
        ]

  -- When the first request has got an entry of fewer than 2 ^ 63 references, from the cache or by a
  -- scan, and no later one reads the clock past its expiry: a client that follows the tokens, for
  -- any page size, gets every reference of the entry exactly once and in order, within one request
  -- more than there are references, whatever a scan would answer meanwhile.
  pub drain-IsWhole :
      (e : ListEntry) (cache : Cache)
      → (refs_for_key decode key (with_token []) (answers 0) (times 0) cache).0 ≡ some e
      → length e.refs < 2 ^ 63
      → ((i : ℕ) → ((times (suc i)).swept ≤ e.expires_at) × ((times (suc i)).read < e.expires_at))
      → drain (suc (length e.refs)) 0 [] cache ≡ some e.refs
  unfolding list_resources_paged offset_of
  drain-IsWhole e cache first small in_time =
      drain-from e small in_time (suc (length e.refs)) 0 0 [] cache _
        (ap
          (λ (entry : Option ListEntry).
            let found : Option ListResponse = elim entry [
              | none ↦ none
              | some d ↦ some (page_of d (with_token []))
            ] in
            let out : Option ListResponse × Cache =
              (found, (refs_for_key decode key (with_token []) (answers 0) (times 0) cache).1) in
            out)
          first)
        (load-refs_for_key decode key (with_token []) (answers 0) (times 0) cache e first) refl
        (omega arith) (omega arith)
