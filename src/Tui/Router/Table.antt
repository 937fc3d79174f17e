-- ===== src/Tui/Router/Table.antt =====
-- internal/tui/router.go: the table of views and the history.
use corkscrew.Prelude.{
  ℕ, zero, suc, ◌≤◌, ◌≡◌, ◌↔◌, ◌⊎◌, refl, ap, inl, inr, true, Option, some, List, [], ◌∷◌, ◌++◌,
  arith, length, length-append, length-drop, drop, All, All-append, All-drop, leb, ==_iff, le→leb,
  if◌then◌else◌, Bool-cases, done,
}
use corkscrew.Tui.Types.{
  ViewType, view_main, view_scan, view_results, view_config, view_diagrams, view_compliance,
  view_query, view_other, view_code, view_eq,
}
use corkscrew.Tui.Router.{ViewRouter, history_max, push_history, split_last, put, change}

abbrev decode : ℕ → ViewType
decode zero = view_main
decode (suc zero) = view_scan
decode (suc (suc zero)) = view_results
decode (suc (suc (suc zero))) = view_config
decode (suc (suc (suc (suc zero)))) = view_diagrams
decode (suc (suc (suc (suc (suc zero))))) = view_compliance
decode (suc (suc (suc (suc (suc (suc zero)))))) = view_query
decode (suc (suc (suc (suc (suc (suc (suc n))))))) = view_other n

decode-view_code : (t : ViewType) → decode (view_code t) ≡ t
decode-view_code view_main = refl
decode-view_code view_scan = refl
decode-view_code view_results = refl
decode-view_code view_config = refl
decode-view_code view_diagrams = refl
decode-view_code view_compliance = refl
decode-view_code view_query = refl
decode-view_code (view_other n) = refl

pub view_eq_iff : (a b : ViewType) → (view_eq a b ≡ true) ↔ (a ≡ b)
view_eq_iff a b = (
  λ e.
      let same : view_code a ≡ view_code b = (==_iff _ _).0 e in
      cc (ap decode same, decode-view_code a, decode-view_code b),
  λ e. (==_iff _ _).1 (ap (λ t. view_code t) e),
)

-- The view has an instance.
abbrev pub Exists : {V : Type 0} → (ViewType → Option V) → ViewType → Type 0
Exists {V} views t = (v : V) × (views t ≡ some v)

-- The view shown and all views of the history have an instance, and the history is bounded.
pub record IsRouted {V P : Type 0} (r : ViewRouter V P) : Type 0 where
  pub current : Exists r.views r.current_view
  pub history : All (Exists r.views) r.history
  pub bounded : length r.history ≤ history_max

pub split_last-snoc : (hs : List ViewType) (a : ViewType) → split_last (hs ++ a ∷ []) ≡ some (hs, a)
split_last-snoc [] a = refl
split_last-snoc (v ∷ []) a = refl
split_last-snoc (v ∷ w ∷ vs) a = rw (split_last-snoc (w ∷ vs) a, split_last)

pub snoc-cases :
    (hs : List ViewType)
    → (hs ≡ []) ⊎ ((rest : List ViewType) × (a : ViewType) × (hs ≡ rest ++ a ∷ []))
snoc-cases [] = inl refl
snoc-cases (v ∷ vs) = elim (snoc-cases vs) [
  | inl e ↦ inr ([], v, ap (◌∷◌ v) e)
  | inr (rest, a, e) ↦ inr (v ∷ rest, a, ap (◌∷◌ v) e)
]

module _ {V : Type 0} where
  pub put-Exists :
      (t t' : ViewType) (v : V) (views : ViewType → Option V)
      → Exists views t'
      → Exists (put t v views) t'
  put-Exists t t' v views (w, e) = elim (Bool-cases (view_eq t t')) [
    | inl same ↦ (v, rw same)
    | inr other ↦ (w, rw other e)
  ]

  pub put_self-Exists :
      (t : ViewType) (v : V) (views : ViewType → Option V) → Exists (put t v views) t
  put_self-Exists t v views = (v, rw ((view_eq_iff t t).1 refl))

  pub change-Exists :
      (t t' : ViewType) (f : V → V) (views : ViewType → Option V)
      → Exists views t'
      → Exists (change t f views) t'
  change-Exists t t' f views (w, e) = (if view_eq t t' then f w else w, rw (e, change))

pub push_history_lem :
    (Q : ViewType → Type 0) (hs : List ViewType) (v : ViewType)
    → length hs ≤ history_max
    → All Q hs
    → Q v
    → (l : List ViewType) × (push_history hs v ≡ done l) × (length l ≤ history_max) × All Q l
unfolding push_history
push_history_lem Q hs v b h q = elim (Bool-cases (leb history_max (length hs))) [
  | inl full ↦
      let short : length (drop 1 hs ++ v ∷ []) ≤ history_max =
        ground (arith, length-append (drop 1 hs) (v ∷ []), length-drop 1 hs) in
      (
        drop 1 hs ++ v ∷ [],
        rw (full, le→leb _ _ short, push_history),
        short,
        All-append Q (drop 1 hs) (v ∷ []) (All-drop Q 1 hs h) (q, tt),
      )
  | inr room ↦
      let short : length (hs ++ v ∷ []) ≤ history_max = ground (arith, length-append hs (v ∷ [])) in
      (
        hs ++ v ∷ [],
        rw (room, le→leb _ _ short, push_history),
        short,
        All-append Q hs (v ∷ []) h (q, tt),
      )
]
