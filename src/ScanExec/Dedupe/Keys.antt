-- ===== src/ScanExec/Dedupe/Keys.antt =====
-- internal/scanexec/executor.go: the key by which dedupeResources tells resources apart.
use corkscrew.Prelude.{◌≡◌, ◌↔◌, refl, false, [], ◌∷◌, ◌++◌, arith, Text, join, contains_byte}
use corkscrew.ScanExec.Types.{Resource}
use corkscrew.ScanExec.Dedupe.{resource_key}

-- A text without the byte that separates the fields of a key.
abbrev pub NulFree : Text → Type 0
NulFree s = contains_byte 0 s ≡ false

-- A text is cut at the first separator in only one way.
cut_unique : (a b x y : Text) → NulFree a → NulFree b → a ++ 0 ∷ x ≡ b ++ 0 ∷ y → (a ≡ b) × (x ≡ y)
unfolding contains_byte
cut_unique [] [] x y ha hb e = (refl, cc)
cut_unique [] (c ∷ b) x y ha hb e = ground arith
cut_unique (c ∷ a) [] x y ha hb e = ground arith
cut_unique (c ∷ a) (d ∷ b) x y ha hb e = ground (arith, cut_unique a b x y)

pub record SameFields {ℓ} {B : Type ℓ} (r s : Resource B) : Type 0 where
  pub provider : r.provider ≡ s.provider
  pub account_id : r.account_id ≡ s.account_id
  pub type_name : r.type_name ≡ s.type_name
  pub id : r.id ≡ s.id

pub record NulFreeFields {ℓ} {B : Type ℓ} (r : Resource B) : Type 0 where
  pub provider : NulFree r.provider
  pub account_id : NulFree r.account_id
  pub type_name : NulFree r.type_name

module _ {B : Type 0} (r s : Resource B) where
  fields_of_key :
      NulFreeFields r → NulFreeFields s → resource_key r ≡ resource_key s → SameFields r s
  unfolding resource_key join
  fields_of_key hr hs e =
      let (p, e₁) = cut_unique r.provider s.provider _ _ hr.provider hs.provider e in
      let (a, e₂) = cut_unique r.account_id s.account_id _ _ hr.account_id hs.account_id e₁ in
      let (t, i) = cut_unique r.type_name s.type_name _ _ hr.type_name hs.type_name e₂ in
      record { provider = p; account_id = a; type_name = t; id = i }

  -- Where provider, account and type contain no NUL byte, two resources share a key exactly if
  -- they agree on provider, account, type and id.
  pub resource_key-iff_SameFields :
      NulFreeFields r → NulFreeFields s → (resource_key r ≡ resource_key s) ↔ SameFields r s
  unfolding resource_key join
  resource_key-iff_SameFields hr hs =
      (fields_of_key hr hs, λ same. rw (same.provider, same.account_id, same.type_name, same.id))
