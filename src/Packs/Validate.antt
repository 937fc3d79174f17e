-- ===== src/Packs/Validate.antt =====
-- pkg/query/compliance/loader.go: ValidateManifest, and isValidSeverity of pack.go.
use corkscrew.Prelude.{
  ℕ, suc, ◌≡◌, ◌≢◌, ◌↔◌, refl, true, false, Option, none, some, List, [], ◌∷◌, arith, Text, codes,
  text_eq, text_eq_iff, All, if◌then◌else◌,
}
use corkscrew.Packs.Types.{QuerySpec, PackManifest}
use corkscrew.Packs.Check.{is_valid_severity}
use corkscrew.Packs.Distinct.{
  contains, AreDistinct, AreFresh, AreFresh-cons, cons-AreFresh, all_fresh,
}
use corkscrew.Packs.Version.{parse_version, is_version}

pub data ManifestError : Type 0 where
  api_version_required kind_wrong name_required version_required provider_required : ManifestError
  version_format : ManifestError
  id_required title_required query_file_required severity_invalid : ℕ → ManifestError
  id_duplicate : ℕ → Text → ManifestError

-- The checks of one query, with the number `i`, beside the rest of the loop.
unfoldable pub validate_query :
    ℕ → List Text → QuerySpec → Option ManifestError → Option ManifestError
validate_query i seen q rest =
    if text_eq q.id []
    then some (id_required i)
    else if contains q.id seen
    then some (id_duplicate i q.id)
    else if text_eq q.title []
    then some (title_required i)
    else if text_eq q.query_file []
    then some (query_file_required i)
    else if is_valid_severity q.severity
    then rest
    else some (severity_invalid i)

unfoldable pub validate_queries : ℕ → List Text → List QuerySpec → Option ManifestError
unfolding validate_query
validate_queries i seen [] = none
validate_queries i seen (q ∷ qs) =
    validate_query i seen q (validate_queries (suc i) (q.id ∷ seen) qs)

unfoldable pub validate_manifest : PackManifest → Option ManifestError
unfolding validate_queries is_version
validate_manifest m =
    if text_eq m.api_version []
    then some api_version_required
    else if text_eq m.kind (codes "QueryPack")
    then (if text_eq m.metadata.name []
        then some name_required
        else if text_eq m.metadata.version []
        then some version_required
        else if text_eq m.metadata.provider []
        then some provider_required
        else if is_version m.metadata.version
        then validate_queries 0 [] m.queries
        else some version_format)
    else some kind_wrong

-- A query with all that is required.
pub record IsQuery (q : QuerySpec) : Type 0 where
  pub id : q.id ≢ []
  pub title : q.title ≢ []
  pub query_file : q.query_file ≢ []
  pub severity : is_valid_severity q.severity ≡ true

abbrev pub ids : List QuerySpec → List Text
ids [] = []
ids (q ∷ qs) = q.id ∷ ids qs

pub record IsWellFormed (m : PackManifest) : Type 0 where
  pub api_version : m.api_version ≢ []
  pub kind : m.kind ≡ codes "QueryPack"
  pub name : m.metadata.name ≢ []
  pub version : m.metadata.version ≢ []
  pub provider : m.metadata.provider ≢ []
  pub version_format : parse_version m.metadata.version ≢ none
  pub queries : All IsQuery m.queries
  pub distinct : AreDistinct (ids m.queries)

IsQuery-passes :
    (i : ℕ) (seen : List Text) (q : QuerySpec) (rest : Option ManifestError)
    → (validate_query i seen q rest ≡ none)
      ↔ (IsQuery q × (contains q.id seen ≡ false) × (rest ≡ none))
unfolding validate_query
IsQuery-passes i seen q rest = (
  λ e. (
    record {
      id = λ h. ground (arith, text_eq_iff q.id []);
      title = λ h. ground (arith, text_eq_iff q.title []);
      query_file = λ h. ground (arith, text_eq_iff q.query_file []);
      severity = ground arith;
    },
    ground arith,
    ground arith,
  ),
  λ h. ground (
    arith,
    h.0.id,
    h.0.title,
    h.0.query_file,
    h.0.severity,
    text_eq_iff q.id [],
    text_eq_iff q.title [],
    text_eq_iff q.query_file [],
  ),
)

queries_pass :
    (i : ℕ) (seen : List Text) (qs : List QuerySpec)
    → (validate_queries i seen qs ≡ none)
      ↔ (All IsQuery qs × AreFresh seen (ids qs) × AreDistinct (ids qs))
unfolding validate_queries
queries_pass i seen [] = (λ e. (tt, tt, tt), λ h. refl)
queries_pass i seen (q ∷ qs) =
    let rest = queries_pass (suc i) (q.id ∷ seen) qs in
    let passes = IsQuery-passes i seen q (validate_queries (suc i) (q.id ∷ seen) qs) in
    (
      λ e.
          let (good, fresh, others) = passes.0 e in
          let (all, later, own) = rest.0 others in
          let (different, unseen) = cons-AreFresh q.id seen (ids qs) later in
          ((good, all), (fresh, unseen), (different, own)),
      λ h.
          passes.1
            (h.0.0, h.1.0, rest.1 (h.0.1, AreFresh-cons q.id seen (ids qs) h.2.0 h.1.1, h.2.1)),
    )

-- ValidateManifest accepts a manifest exactly if its version fields, name, provider and kind are
-- as required, its version can be parsed, each query has an id, a title, a file and a known
-- severity, and no two queries share an id.
pub validate_manifest-none_iff : (m : PackManifest) → (validate_manifest m ≡ none) ↔ IsWellFormed m
unfolding validate_manifest
validate_manifest-none_iff m =
    let pass = queries_pass 0 [] m.queries in
    (
      λ e.
          let valid : validate_queries 0 [] m.queries ≡ none = ground arith in
          record {
            api_version = λ h. ground (arith, text_eq_iff m.api_version []);
            kind = ground (arith, text_eq_iff m.kind (codes "QueryPack"));
            name = λ h. ground (arith, text_eq_iff m.metadata.name []);
            version = λ h. ground (arith, text_eq_iff m.metadata.version []);
            provider = λ h. ground (arith, text_eq_iff m.metadata.provider []);
            version_format = ground arith;
            queries = (pass.0 valid).0;
            distinct = (pass.0 valid).2;
          },
      λ h.
          let valid : validate_queries 0 [] m.queries ≡ none =
            pass.1 (h.queries, all_fresh (ids m.queries), h.distinct) in
          ground (
            arith,
            h.api_version,
            h.kind,
            h.name,
            h.version,
            h.provider,
            h.version_format,
            valid,
            text_eq_iff m.api_version [],
            text_eq_iff m.kind (codes "QueryPack"),
            text_eq_iff m.metadata.name [],
            text_eq_iff m.metadata.version [],
            text_eq_iff m.metadata.provider [],
          ),
    )
