-- ===== src/Packs/Distinct.antt =====
-- pkg/query/compliance: the maps of the names seen so far, in the checks of manifests and packs.
use corkscrew.Prelude.{
  ◌≡◌, ◌≢◌, refl, Bool, false, ◌||◌, List, [], ◌∷◌, arith, Text, text_eq, text_eq_iff, All,
}

abbrev pub contains : Text → List Text → Bool
contains k [] = false
contains k (x ∷ xs) = text_eq x k || contains k xs

-- No name is there twice.
abbrev pub AreDistinct : List Text → Type 0
AreDistinct [] = Unit {0}
AreDistinct (x ∷ xs) = All (λ y. y ≢ x) xs × AreDistinct xs

-- None of the names was seen.
abbrev pub AreFresh : List Text → List Text → Type 0
AreFresh seen xs = All (λ x. contains x seen ≡ false) xs

pub AreFresh-cons :
    (x : Text) (seen xs : List Text)
    → All (λ y. y ≢ x) xs
    → AreFresh seen xs
    → AreFresh (x ∷ seen) xs
AreFresh-cons x seen [] h k = tt
AreFresh-cons x seen (y ∷ ys) h k =
    (ground (arith, text_eq_iff x y, h.0, k.0), AreFresh-cons x seen ys h.1 k.1)

pub cons-AreFresh :
    (x : Text) (seen xs : List Text)
    → AreFresh (x ∷ seen) xs
    → All (λ y. y ≢ x) xs × AreFresh seen xs
cons-AreFresh x seen [] h = (tt, tt)
cons-AreFresh x seen (y ∷ ys) h =
    let rest = cons-AreFresh x seen ys h.1 in
    ((λ e. ground (arith, text_eq_iff x y, h.0), rest.0), (ground (arith, h.0), rest.1))

pub all_fresh : (xs : List Text) → AreFresh [] xs
all_fresh [] = tt
all_fresh (x ∷ xs) = (refl, all_fresh xs)
