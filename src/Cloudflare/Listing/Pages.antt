-- ===== src/Cloudflare/Listing/Pages.antt =====
-- plugins/cloudflare-provider/list.go: the page of an entry that a token asks for.
use corkscrew.Prelude.{
  ℕ, zero, suc, ◌+◌, ◌^◌, ◌≤◌, ◌<◌, ◌≡◌, ◌≢◌, refl, sym, ap, ◌∙◌, inl, inr, false, some, List, [],
  ◌∷◌, ◌++◌, Text, length, take, drop, length-take, ltb, if◌then◌else◌, arith, Bool-cases,
}
use corkscrew.Prelude.Int.{ℤ, pos, negsuc}
use corkscrew.Prelude.Decimal.{itoa, atoi, atoi-itoa, itoa-ne-nil}
use corkscrew.Cloudflare.Listing.{
  ResourceRef, ListRequest, ListResponse, ListEntry, offset_of, page_size_of, page_of,
}

pub page_size_pos : (n : ℤ) → 0 < page_size_of n
page_size_pos (pos zero) = omega arith
page_size_pos (pos (suc n)) = omega arith
page_size_pos (negsuc n) = omega arith

pub take-append-drop : (n : ℕ) (xs : List ResourceRef) → take n xs ++ drop n xs ≡ xs
take-append-drop zero xs = refl
take-append-drop (suc n) [] = refl
take-append-drop (suc n) (x ∷ xs) = ap (◌∷◌ x) (take-append-drop n xs)

drop-nil : (n : ℕ) → drop {A = ResourceRef} n [] ≡ []
drop-nil zero = refl
drop-nil (suc n) = refl

pub drop-drop : (m n : ℕ) (xs : List ResourceRef) → drop n (drop m xs) ≡ drop (m + n) xs
drop-drop zero n xs = let e : n ≡ 0 + n = omega arith in ap (λ (k : ℕ). drop k xs) e
drop-drop (suc m) n [] = drop-nil n ∙ sym (drop-nil (suc m + n))
drop-drop (suc m) n (x ∷ xs) =
    let e : suc (m + n) ≡ suc m + n = omega arith in
    drop-drop m n xs ∙ ap (λ (k : ℕ). drop k (x ∷ xs)) e

offset_of-atoi : (t : Text) (n : ℕ) → t ≢ [] → atoi t ≡ some (pos n) → offset_of t ≡ n
unfolding offset_of
offset_of-atoi [] n ne h = absurd (ne refl)
offset_of-atoi (c ∷ s) n ne h = rw (h, offset_of)

pub offset_of-itoa : (n : ℕ) → n < 2 ^ 63 → offset_of (itoa n) ≡ n
offset_of-itoa n h = offset_of-atoi (itoa n) n (itoa-ne-nil n) (atoi-itoa n h)

-- What is left of the references when the token asks for an offset.
abbrev pub rest_from : ListEntry → ℕ → List ResourceRef
rest_from e n = drop n e.refs

pub record IsPage (e : ListEntry) (n size : ℕ) (r : ListResponse) : Type 0 where
  pub page :
      r.resources
      ≡ (if ltb size (length (rest_from e n)) then take size (rest_from e n) else rest_from e n)
  pub token : r.next_token ≡ (if ltb size (length (rest_from e n)) then itoa (n + size) else [])

whole_page :
    (size n : ℕ) (rest : List ResourceRef)
    → (if ltb size (length rest) then itoa (n + length (take size rest)) else [])
      ≡ (if ltb size (length rest) then itoa (n + size) else [])
whole_page size n rest = elim (Bool-cases (ltb size (length rest))) [
  | inl cut ↦
      let full : n + length (take size rest) ≡ n + size = ground (arith, length-take size rest) in
      rw cut (ap itoa full)
  | inr last ↦ rw last
]

pub page_of-IsPage :
    (e : ListEntry) (req : ListRequest) (n : ℕ)
    → offset_of req.next_token ≡ n
    → n ≤ length e.refs
    → IsPage e n (page_size_of req.max_results) (page_of e req)
unfolding page_of
page_of-IsPage e req n h b =
    let inside : ltb (length e.refs) n ≡ false = ground arith in
    rw (h, inside)
      (record { page = refl; token = whole_page (page_size_of req.max_results) n (drop n e.refs) })
