-- ===== src/Packs/Check/Queries.antt =====
-- pkg/query/compliance/pack.go: the checks of queries in ValidatePack.
use corkscrew.Prelude.{ℕ, suc, ◌≡◌, ◌↔◌, refl, false, List, [], ◌∷◌, arith, Text, All}
use corkscrew.Packs.Types.{ComplianceQuery}
use corkscrew.Packs.Distinct.{contains, AreDistinct, AreFresh, AreFresh-cons, cons-AreFresh}
use corkscrew.Packs.Check.{query_tests, query_errors, queries_errors}
use corkscrew.Packs.Validate.{IsQuery}
use corkscrew.Packs.Check.Valid.{query_ids}
use corkscrew.Packs.Check.Forms.{collect-nil_iff, append-nil_iff, nonempty_iff}

query_errors-nil_iff :
    (i : ℕ) (seen : List Text) (q : ComplianceQuery)
    → (query_errors i seen q ≡ []) ↔ (IsQuery q.spec × (contains q.spec.id seen ≡ false))
unfolding query_errors
query_errors-nil_iff i seen q =
    let tests = collect-nil_iff (query_tests i seen q) in
    (
      λ h.
          let (a, (b, (c, (d, (e, u))))) = tests.0 h in
          (
            record {
              id = (nonempty_iff q.spec.id).0 a;
              title = (nonempty_iff q.spec.title).0 c;
              query_file = (nonempty_iff q.spec.query_file).0 d;
              severity = ground (arith, e);
            },
            b,
          ),
      λ h. tests.1 (
        (nonempty_iff q.spec.id).1 h.0.id,
        (
          h.1,
          (
            (nonempty_iff q.spec.title).1 h.0.title,
            ((nonempty_iff q.spec.query_file).1 h.0.query_file, (ground (arith, h.0.severity), tt)),
          ),
        ),
      ),
    )

pub queries_errors-nil_iff :
    (i : ℕ) (seen : List Text) (qs : List ComplianceQuery)
    → (queries_errors i seen qs ≡ [])
      ↔ (All (λ q. IsQuery q.spec) qs × AreFresh seen (query_ids qs) × AreDistinct (query_ids qs))
unfolding queries_errors
queries_errors-nil_iff i seen [] = (λ e. (tt, tt, tt), λ h. refl)
queries_errors-nil_iff i seen (q ∷ qs) =
    let one = query_errors-nil_iff i seen q in
    let rest = queries_errors-nil_iff (suc i) (q.spec.id ∷ seen) qs in
    let both = append-nil_iff (query_errors i seen q) _ in
    (
      λ e.
          let (here, others) = both.0 e in
          let (good, unseen) = one.0 here in
          let (all, later, own) = rest.0 others in
          let (different, fresh) = cons-AreFresh q.spec.id seen (query_ids qs) later in
          ((good, all), (unseen, fresh), (different, own)),
      λ h. both.1 (
        one.1 (h.0.0, h.1.0),
        rest.1 (h.0.1, AreFresh-cons q.spec.id seen (query_ids qs) h.2.0 h.1.1, h.2.1),
      ),
    )
