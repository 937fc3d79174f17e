-- ===== src/Packs/Registry/File/Keys.antt =====
-- pkg/query/compliance/pack.go: the keys of the registry, and what register changes.
use corkscrew.Prelude.{
  ◌≡◌, ◌≢◌, refl, sym, ap, ◌∙◌, inl, inr, some, List, [], ◌∷◌, ◌++◌, Text, codes, text_eq,
  text_eq_refl, text_eq_ne, Bool-cases, append_assoc, if◌then◌else◌,
}
use corkscrew.Packs.Manifest.{put}
use corkscrew.Packs.Types.{Table, QueryPack}
use corkscrew.Packs.Registry.{PackRegistry, key_of, generate_pack_key, register, get_pack}

-- The name by which GetPack finds a pack: its namespace, if it has one, a slash and its name.
abbrev pub full_name : QueryPack → Text
full_name pack =
    if text_eq pack.namespace []
    then pack.metadata.name
    else pack.namespace ++ (codes "/" ++ pack.metadata.name)

put-here : (key : Text) (pack : QueryPack) (t : Table QueryPack) → put key pack t key ≡ some pack
put-here key pack t = rw (text_eq_refl key) refl

put-other :
    (key k : Text) (pack : QueryPack) (t : Table QueryPack) → key ≢ k → put key pack t k ≡ t k
put-other key k pack t h = rw (text_eq_ne key k h) refl

key_lem :
    (pack : QueryPack) → generate_pack_key pack ≡ key_of (full_name pack) pack.metadata.version
unfolding generate_pack_key
key_lem pack = elim (Bool-cases (text_eq pack.namespace [])) [
  | inl e ↦ rw e refl
  | inr e ↦
      rw e (
        sym
          (append_assoc pack.namespace (b'/' ∷ pack.metadata.name) (b':' ∷ pack.metadata.version)))
]

register-packs :
    (pack : QueryPack) (r : PackRegistry)
    → (register pack r).packs ≡ put (generate_pack_key pack) pack r.packs
unfolding register
register-packs pack r = elim (Bool-cases (text_eq pack.namespace [])) [
  | inl e ↦ rw e refl
  | inr e ↦ rw e refl
]

-- By its full name and its version the pack is found, and the other keys have what they had.
pub record IsRegistered (r : PackRegistry) (pack : QueryPack) (r' : PackRegistry) : Type 0 where
  pub here :
      (order : List (Text × QueryPack))
      → get_pack order (full_name pack) pack.metadata.version r' ≡ some pack
  pub others : (key : Text) → generate_pack_key pack ≢ key → r'.packs key ≡ r.packs key

exact_lem :
    (order : List (Text × QueryPack)) (name version : Text) (pack : QueryPack) (r : PackRegistry)
    → version ≢ []
    → r.packs (key_of name version) ≡ some pack
    → get_pack order name version r ≡ some pack
unfolding get_pack text_eq
exact_lem order name [] pack r ne e = absurd (ne refl)
exact_lem order name (c ∷ s) pack r ne e = rw (e, get_pack) refl

pub register-IsRegistered :
    (pack : QueryPack) (r : PackRegistry)
    → pack.metadata.version ≢ []
    → IsRegistered r pack (register pack r)
register-IsRegistered pack r ne =
    let key = generate_pack_key pack in
    record {
      here = λ order.
          exact_lem order (full_name pack) pack.metadata.version pack (register pack r) ne (
            ap (register pack r).packs (sym (key_lem pack))
            ∙ ap (λ (t : Table QueryPack). t key) (register-packs pack r)
            ∙ put-here key pack r.packs);
      others = λ k different.
          ap (λ (t : Table QueryPack). t k) (register-packs pack r)
          ∙ put-other key k pack r.packs different;
    }
