-- ===== src/Packs/Check/Accepts.antt =====
-- pkg/query/compliance/pack.go: which packs ValidatePack accepts.
use corkscrew.Prelude.{◌≡◌, ◌↔◌, Bool, [], Text}
use corkscrew.Packs.Types.{QueryPack}
use corkscrew.Packs.Distinct.{all_fresh}
use corkscrew.Packs.Version.{is_version, is_version_iff}
use corkscrew.Packs.Check.{
  is_valid_namespace, metadata_tests, metadata_errors, queries_errors, validate_pack,
}
use corkscrew.Packs.Check.Valid.{query_ids, parameter_names, IsPack}
use corkscrew.Packs.Check.Forms.{
  collect-nil_iff, append-nil_iff, nonempty_iff, form_iff, is_valid_namespace_iff,
}
use corkscrew.Packs.Check.Queries.{queries_errors-nil_iff}
use corkscrew.Packs.Check.Parameters.{parameters_errors-nil_iff}

module _ (compiles : Text → Bool) where
  -- ValidatePack reports no error exactly if the pack has a name, a provider and a version that
  -- can be parsed, its namespace, if it has one, is a publisher, a slash and a framework, each
  -- query has an id, a title, a file and a known severity, each parameter has a name, a known type
  -- and rules whose pattern compiles and whose limits are in order, and neither two queries share
  -- an id nor two parameters a name.
  pub validate_pack-nil_iff :
      (pack : QueryPack) → ((validate_pack compiles pack).0 ≡ []) ↔ IsPack compiles pack
  unfolding validate_pack metadata_errors
  validate_pack-nil_iff pack =
      let m = pack.metadata in
      let outer = append-nil_iff (metadata_errors m) _ in
      let inner = append-nil_iff (queries_errors 0 [] pack.queries) _ in
      let tests = collect-nil_iff (metadata_tests m) in
      let qs = queries_errors-nil_iff 0 [] pack.queries in
      let ps = parameters_errors-nil_iff compiles 0 [] pack.parameters in
      (
        λ h.
            let (mine, others) = outer.0 h in
            let (queries, parameters) = inner.0 others in
            let (a, (b, (c, (d, (e, u))))) = tests.0 mine in
            let nonempty = (nonempty_iff m.version).0 b in
            record {
              name = (nonempty_iff m.name).0 a;
              version = nonempty;
              provider = (nonempty_iff m.provider).0 c;
              version_format =
                  (is_version_iff m.version).0
                    ((form_iff m.version (is_version m.version)).0 d nonempty);
              namespace = λ k.
                  (is_valid_namespace_iff m.namespace).0
                    ((form_iff m.namespace (is_valid_namespace m.namespace)).0 e k);
              queries = (qs.0 queries).0;
              query_ids = (qs.0 queries).2;
              parameters = (ps.0 parameters).0;
              parameter_names = (ps.0 parameters).2;
            },
        λ h. outer.1 (
          tests.1 (
            (nonempty_iff m.name).1 h.name,
            (
              (nonempty_iff m.version).1 h.version,
              (
                (nonempty_iff m.provider).1 h.provider,
                (
                  (form_iff m.version (is_version m.version)).1
                      (λ k. (is_version_iff m.version).1 h.version_format),
                  (
                    (form_iff m.namespace (is_valid_namespace m.namespace)).1
                        (λ k. (is_valid_namespace_iff m.namespace).1 (h.namespace k)),
                    tt,
                  ),
                ),
              ),
            ),
          ),
          inner.1 (
            qs.1 (h.queries, all_fresh (query_ids pack.queries), h.query_ids),
            ps.1 (h.parameters, all_fresh (parameter_names pack.parameters), h.parameter_names),
          ),
        ),
      )
