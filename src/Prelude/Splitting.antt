-- ===== src/Prelude/Splitting.antt =====
-- How split, join and contains_byte go together.
use Prim.Native.Nat.{ℕ}
use mathlib.Core.Path.{◌≡◌, refl, sym, ap, ◌∙◌}
use mathlib.Core.Logic.{◌≢◌, inl, inr}
use mathlib.Core.Bool.{false}
use mathlib.Core.List.{List, [], ◌∷◌, ◌++◌}
use native.Mathlib.Omega.{arith}
use corkscrew.Prelude.Tests.{◌==◌, ==_iff, Bool-cases}
use corkscrew.Prelude.Lists.{All}
use corkscrew.Prelude.Strings.{Text, split, join, contains_byte, has_prefix, extend}

abbrev pub Lacks : ℕ → Text → Type 0
Lacks c s = contains_byte c s ≡ false

Lacks-extend :
    (sep c : ℕ) (ws : List Text)
    → (c == sep) ≡ false
    → All (Lacks sep) ws
    → All (Lacks sep) (extend c ws)
unfolding contains_byte
Lacks-extend sep c [] e h = (ground arith, tt)
Lacks-extend sep c (w ∷ ws) e h = (ground (arith, h.0), h.1)

-- No part of a text that was split has the separator.
pub split-Lacks : (sep : ℕ) (s : Text) → All (Lacks sep) (split sep s)
unfolding split contains_byte
split-Lacks sep [] = (refl, tt)
split-Lacks sep (c ∷ s) = elim (Bool-cases (c == sep)) [
  | inl e ↦ rw e (refl, split-Lacks sep s)
  | inr e ↦ rw e (Lacks-extend sep c (split sep s) e (split-Lacks sep s))
]

split_part : (sep : ℕ) (w : Text) → Lacks sep w → split sep w ≡ w ∷ []
unfolding split contains_byte
split_part sep [] h = refl
split_part sep (c ∷ w) h = ground (arith, split_part sep w)

split-append : (sep : ℕ) (w r : Text) → Lacks sep w → split sep (w ++ sep ∷ r) ≡ w ∷ split sep r
unfolding split contains_byte
split-append sep [] r h = ground arith
split-append sep (c ∷ w) r h = ground (arith, split-append sep w r)

-- Splitting undoes joining.
pub split-join :
    (sep : ℕ) (ws : List Text) → ws ≢ [] → All (Lacks sep) ws → split sep (join (sep ∷ []) ws) ≡ ws
unfolding join
split-join sep [] ne h = absurd (ne refl)
split-join sep (w ∷ []) ne h = split_part sep w h.0
split-join sep (w ∷ v ∷ ws) ne h =
    split-append sep w (join (sep ∷ []) (v ∷ ws)) h.0
    ∙ ap (◌∷◌ w) (split-join sep (v ∷ ws) (λ e. cc) h.1)

Lacks-append : (c : ℕ) (s t : Text) → Lacks c s → Lacks c t → Lacks c (s ++ t)
unfolding contains_byte
Lacks-append c [] t h k = k
Lacks-append c (b ∷ s) t h k = ground (arith, Lacks-append c s t)

pub join-Lacks :
    (c : ℕ) (sep : Text) (ws : List Text) → Lacks c sep → All (Lacks c) ws → Lacks c (join sep ws)
unfolding join contains_byte
join-Lacks c sep [] h k = refl
join-Lacks c sep (w ∷ []) h k = k.0
join-Lacks c sep (w ∷ v ∷ ws) h k =
    Lacks-append c w _ k.0 (Lacks-append c sep _ h (join-Lacks c sep (v ∷ ws) h k.1))

-- A join that begins with a part that is not empty and lacks a byte does not begin with the byte.
pub has_prefix-join :
    (c : ℕ) (sep w : Text) (ws : List Text)
    → w ≢ []
    → Lacks c w
    → has_prefix (c ∷ []) (join sep (w ∷ ws)) ≡ false
unfolding has_prefix contains_byte join
has_prefix-join c sep [] ws ne h = absurd (ne refl)
has_prefix-join c sep (b ∷ w) [] ne h = ground arith
has_prefix-join c sep (b ∷ w) (v ∷ ws) ne h = ground arith

join-extend :
    (sep c : ℕ) (ws : List Text) → ws ≢ [] → join (sep ∷ []) (extend c ws) ≡ c ∷ join (sep ∷ []) ws
unfolding join
join-extend sep c [] h = absurd (h refl)
join-extend sep c (w ∷ []) h = refl
join-extend sep c (w ∷ v ∷ ws) h = refl

extend-ne-nil : (c : ℕ) (ws : List Text) → extend c ws ≢ []
extend-ne-nil c [] h = cc
extend-ne-nil c (w ∷ ws) h = cc

join_nil :
    (sep : ℕ) (ws : List Text) → ws ≢ [] → join (sep ∷ []) ([] ∷ ws) ≡ sep ∷ join (sep ∷ []) ws
unfolding join
join_nil sep [] h = absurd (h refl)
join_nil sep (w ∷ ws) h = refl

split-ne-nil : (sep : ℕ) (s : Text) → split sep s ≢ []
unfolding split
split-ne-nil sep [] h = cc
split-ne-nil sep (c ∷ s) h = elim (Bool-cases (c == sep)) [
  | inl e ↦ ground (arith, h, e)
  | inr e ↦ extend-ne-nil c (split sep s) (rw e at h)
]

-- Joining undoes splitting.
pub join-split : (sep : ℕ) (s : Text) → join (sep ∷ []) (split sep s) ≡ s
unfolding split join
join-split sep [] = refl
join-split sep (c ∷ s) = elim (Bool-cases (c == sep)) [
  | inl e ↦ rw e (
      join_nil sep (split sep s) (split-ne-nil sep s)
      ∙ ap (◌∷◌ sep) (join-split sep s)
      ∙ ap (λ (n : ℕ). n ∷ s) (sym ((==_iff c sep).0 e)))
  | inr e ↦
      rw e (join-extend sep c (split sep s) (split-ne-nil sep s) ∙ ap (◌∷◌ c) (join-split sep s))
]
