-- ===== src/Packs/Check/Compiled.antt =====
-- pkg/query/compliance/pack.go: a pack that ValidatePack has accepted is valid with its patterns
-- compiled.
use corkscrew.Prelude.{
  ◌≡◌, ◌≢◌, refl, inl, inr, Bool, ◌&&◌, not, Option, none, some, List, [], ◌∷◌, arith, Text,
  text_eq, All, Bool-cases,
}
use corkscrew.Packs.Types.{ParameterValidation, PackParameter, QueryPack}
use corkscrew.Packs.Check.{compile_pattern, compile_rules, compile_parameters, validate_pack}
use corkscrew.Packs.Check.Forms.{nonempty_iff}
use corkscrew.Packs.Check.Valid.{IsValidation, IsParameter, parameter_names, IsPack}
use corkscrew.Packs.Check.Accepts.{validate_pack-nil_iff}

-- The pattern of the rules, if there is one, is compiled.
abbrev pub IsCompiled : PackParameter → Type 0
IsCompiled p =
    (v : ParameterValidation) → p.validation ≡ some v → v.pattern ≢ [] → v.regex ≡ some v.pattern

pub record IsChecked (compiles : Text → Bool) (pack : QueryPack) : Type 0 where
  pub valid : IsPack compiles pack
  pub compiled : All IsCompiled pack.parameters

module _ (compiles : Text → Bool) where
  compile_pattern-IsValidation :
      (v : ParameterValidation)
      → IsValidation compiles v
      → IsValidation compiles (compile_pattern compiles v)
  unfolding compile_pattern
  compile_pattern-IsValidation v h =
      elim (Bool-cases (not (text_eq v.pattern []) && compiles v.pattern)) [
        | inl e ↦ rw e (record {
          pattern = h.pattern;
          min_length = h.min_length;
          max_length = h.max_length;
          lengths = h.lengths;
          values = h.values;
        })
        | inr e ↦ rw e h
      ]

  compile_pattern-IsCompiled :
      (v : ParameterValidation)
      → IsValidation compiles v
      → (compile_pattern compiles v).pattern ≢ []
      → (compile_pattern compiles v).regex ≡ some (compile_pattern compiles v).pattern
  unfolding compile_pattern
  compile_pattern-IsCompiled v h =
      elim (Bool-cases (not (text_eq v.pattern []) && compiles v.pattern)) [
        | inl e ↦ rw e (λ k. refl)
        | inr e ↦ rw e (λ k. ground (arith, e, h.pattern k, (nonempty_iff v.pattern).1 k))
      ]

  compile_rules-IsParameter :
      (p : PackParameter)
      → IsParameter compiles p
      → (rules : Option ParameterValidation) → p.validation ≡ rules
      → IsParameter compiles (record p { validation = compile_rules compiles rules })
        × IsCompiled (record p { validation = compile_rules compiles rules })
  compile_rules-IsParameter p h none e =
      (record { name = h.name; type = h.type; rules = λ v k. cc }, λ v k nonempty. cc)
  compile_rules-IsParameter p h (some w) e = (
    record {
      name = h.name;
      type = h.type;
      rules = λ v k.
          let eq : v ≡ compile_pattern compiles w = cc in
          rw eq (compile_pattern-IsValidation w (h.rules w e));
    },
    λ v k.
        let eq : v ≡ compile_pattern compiles w = cc in
        rw eq (compile_pattern-IsCompiled w (h.rules w e)),
  )

  compile_parameters-AreParameters :
      (ps : List PackParameter)
      → All (IsParameter compiles) ps
      → All (IsParameter compiles) (compile_parameters compiles ps)
        × All IsCompiled (compile_parameters compiles ps)
  compile_parameters-AreParameters [] h = (tt, tt)
  compile_parameters-AreParameters (p ∷ ps) h =
      let one = compile_rules-IsParameter p h.0 p.validation refl in
      let rest = compile_parameters-AreParameters ps h.1 in ((one.0, rest.0), (one.1, rest.1))

  parameter_names-compiled :
      (ps : List PackParameter)
      → parameter_names (compile_parameters compiles ps) ≡ parameter_names ps
  parameter_names-compiled [] = refl
  parameter_names-compiled (p ∷ ps) = rw (parameter_names-compiled ps) refl

  -- If ValidatePack reports no error, the pack is valid after it and its patterns are compiled.
  pub validate_pack-IsChecked :
      (pack : QueryPack)
      → (validate_pack compiles pack).0 ≡ []
      → IsChecked compiles (validate_pack compiles pack).1
  unfolding validate_pack
  validate_pack-IsChecked pack e =
      let h : IsPack compiles pack = (validate_pack-nil_iff compiles pack).0 e in
      let ps = compile_parameters-AreParameters pack.parameters h.parameters in
      record {
        valid = record {
          name = h.name;
          version = h.version;
          provider = h.provider;
          version_format = h.version_format;
          namespace = h.namespace;
          queries = h.queries;
          query_ids = h.query_ids;
          parameters = ps.0;
          parameter_names = rw (parameter_names-compiled pack.parameters) h.parameter_names;
        };
        compiled = ps.1;
      }
