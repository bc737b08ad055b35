-- ===== src/Service/Specs/Names.antt =====
-- The names of the namespaces that `main` gives to `aiomain`.
use atasks.Prelude.{String, ◌≡◌, refl, true, false, Option, List, [], ◌∷◌, eq_iff, arith, inl, inr}
use atasks.Prelude.Lists.{contains, Distinct, length}
use atasks.Errors.{Outcome-cases, returned}
use atasks.Service.Cleanup.{spec_names}
use atasks.Service.{NamespaceSpec}
use atasks.Service.HealthHttp.{Integer}
use atasks.Service.Specs.{
  Spec, parse_namespace_spec, parse_specs, or_default, check_names, configure, namespace_spec,
}

abbrev pub namespace_specs : List Spec → List NamespaceSpec
namespace_specs [] = []
namespace_specs (spec ∷ specs) = namespace_spec spec ∷ namespace_specs specs

-- The names that were seen are not seen again.
check_names-Distinct :
    (specs : List Spec) (seen : List String)
    → check_names specs seen ≡ returned tt
    → Distinct (spec_names (namespace_specs specs))
      × ((x : String)
          → contains x seen ≡ true
          → contains x (spec_names (namespace_specs specs)) ≡ false)
unfolding check_names
check_names-Distinct [] seen h = (tt, λ x e. refl)
check_names-Distinct (ns ∷ rest) seen h =
    let l = check_names-Distinct rest (ns.name ∷ seen) (ground (arith, h)) in
    (
      (l.1 ns.name (ground (arith, eq_iff ns.name ns.name)), l.0),
      λ x e. ground (arith, h, e, l.1 x, eq_iff ns.name x),
    )

length-parse_specs :
    (int : String → Option Integer) (given : List String) (specs : List Spec)
    → parse_specs int given ≡ returned specs
    → length specs ≡ length given
unfolding parse_specs
length-parse_specs int [] specs h = ground (arith, h)
length-parse_specs int (spec ∷ given) specs h =
    elim (Outcome-cases (parse_namespace_spec int spec)) [
      | inr (x, e) ↦ absurd (ground (arith, e, h))
      | inl (ns, e) ↦ elim (Outcome-cases (parse_specs int given)) [
        | inr (x, f) ↦ absurd (ground (arith, e, f, h))
        | inl (rest, f) ↦ ground (arith, e, f, h, length-parse_specs int given rest f)
      ]
    ]

module _ (int : String → Option Integer) where
  -- However the namespaces are given, those that `main` gives to `aiomain` have different names, and
  -- there is one for each `-N`, in order, or one named "default" where no `-N` is given.
  pub configure-Distinct :
      (given : Option (List String)) (specs : List Spec)
      → configure int given ≡ returned specs
      → Distinct (spec_names (namespace_specs specs))
        × (parse_specs int (or_default given) ≡ returned specs)
        × (length specs ≡ length (or_default given))
  unfolding configure
  configure-Distinct given specs h = elim (Outcome-cases (parse_specs int (or_default given))) [
    | inr (x, e) ↦ absurd (ground (arith, e, h))
    | inl (found, e) ↦ elim (Outcome-cases (check_names found [])) [
      | inr (x, f) ↦ absurd (ground (arith, e, f, h))
      | inl (u, f) ↦
          let same : specs ≡ found = ground (arith, e, f, h) in
          rw same (
            (check_names-Distinct found [] f).0,
            e,
            length-parse_specs int (or_default given) found e,
          )
    ]
  ]
