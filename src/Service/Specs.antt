-- ===== src/Service/Specs.antt =====
-- atasks/commands/service.py, the namespaces of a command line: `_parse_namespace_spec`, and the part
-- of `main` that makes the options of `aiomain`. What `argparse` does with the other options, and
-- `int`, are parameters.
pub mod RoundTrip
pub mod Names
use atasks.Prelude.{
  ℕ, String, Bool, true, false, not, ◌||◌, ◌&&◌, Option, none, some, List, [], ◌∷◌, ◌++◌, ◌==◌,
  is_some, if◌then◌else◌,
}
use atasks.Prelude.Lists.{contains}
use atasks.Prelude.Dict
use atasks.Prelude.Dict.{Dict}
use atasks.Prelude.Text.{strip, has, before, after, split, matches_lower}
use atasks.Errors.{refuse, then_returns, Outcome, returned, raised}
use atasks.Service.{Mode, client, server, loopback, NamespaceSpec}
use atasks.Service.HealthHttp.{Integer}

-- `_NAMESPACE_SPEC_KEYS`
abbrev pub spec_keys : List String
spec_keys =
    "name" ∷ "mode" ∷ "transport" ∷ "url" ∷ "hostname" ∷ "max-trace-depth" ∷ "trace-filter-modules"
    ∷ "collect-await-frames" ∷ []

pub data TransportName : Type 0 where
  loopback_transport amqp_transport : TransportName

-- The dictionary that `_parse_namespace_spec` returns.
pub record Spec : Type 0 where
  pub name : String
  pub mode : Mode
  pub transport : TransportName
  pub url : Option String
  pub hostname : Option String
  pub max_trace_depth : Option Integer
  pub trace_filter_modules : Option (List String)
  pub collect_await_frames : Option Bool

abbrev pub read_pair : String → String → Dict String → Outcome (Dict String)
read_pair key value raw =
    if not (contains key spec_keys)
    then refuse "unknown key"
    else if is_some (Dict.lookup key raw)
    then refuse "key given twice"
    else returned (Dict.insert key value raw)

-- The body of the loop over `spec.split(',')`, of a stripped item.
unfoldable pub read_item : String → Dict String → Outcome (Dict String)
read_item item raw =
    if item == ""
    then returned raw
    else if not (has b'=' item)
    then refuse "expected key=value"
    else read_pair (strip (before b'=' item)) (strip (after b'=' item)) raw

unfoldable pub read_items : List String → Dict String → Outcome (Dict String)
read_items [] raw = returned raw
read_items (item ∷ items) raw = then_returns (read_item (strip item) raw) (read_items items)

unfoldable pub read_raw : String → Outcome (Dict String)
read_raw spec = read_items (split b',' spec) []

abbrev pub raw_or : String → String → Dict String → String
raw_or key value raw = elim (Dict.lookup key raw) [ none ↦ value | some v ↦ v ]

abbrev pub mode_of : String → Outcome Mode
mode_of mode =
    if mode == "client"
    then returned client
    else if mode == "server"
    then returned server
    else if mode == "loopback"
    then returned loopback
    else refuse "mode must be 'client', 'server', or 'loopback'"

abbrev pub transport_of : String → Outcome TransportName
transport_of transport =
    if transport == "loopback"
    then returned loopback_transport
    else if transport == "amqp"
    then returned amqp_transport
    else refuse "transport must be 'loopback' or 'amqp'"

-- `[module for module in modules if module]`
unfoldable pub without_empty : List String → List String
without_empty [] = []
without_empty (m ∷ modules) = let rest = without_empty modules in if m == "" then rest else m ∷ rest

abbrev pub modules_of : Option String → Option (List String)
modules_of none = none
modules_of (some modules) = some (without_empty (split b':' modules))

abbrev pub flag_of : Option String → Outcome (Option Bool)
flag_of none = returned none
flag_of (some text) =
    if matches_lower text "true" || matches_lower text "yes" || matches_lower text "1"
    then returned (some true)
    else if matches_lower text "false" || matches_lower text "no" || matches_lower text "0"
    then returned (some false)
    else refuse "collect-await-frames must be true/false"

abbrev pub or_default : Option (List String) → List String
or_default none = "name=default" ∷ []
or_default (some specs) = specs

-- The loop over the names that were seen.
unfoldable pub check_names : List Spec → List String → Outcome (Unit {0})
check_names [] seen = returned tt
check_names (ns ∷ rest) seen =
    if contains ns.name seen
    then refuse "namespace given more than once via -N/--namespace"
    else check_names rest (ns.name ∷ seen)

module _ (int : String → Option Integer) where
  abbrev pub depth_of : Option String → Outcome (Option Integer)
  depth_of none = returned none
  depth_of (some text) = elim (int text) [
    | none ↦ refuse "max-trace-depth must be an integer"
    | some n ↦ returned (some n)
  ]

  -- After the loop.
  unfoldable pub spec_of : Dict String → Outcome Spec
  spec_of raw = then_returns (mode_of (raw_or "mode" "loopback" raw)) λ mode.
      then_returns (transport_of (raw_or "transport" "loopback" raw)) λ transport.
        then_returns (depth_of (Dict.lookup "max-trace-depth" raw)) λ max_trace_depth.
          then_returns (flag_of (Dict.lookup "collect-await-frames" raw)) λ collect_await_frames.
            returned (record {
              name = raw_or "name" "default" raw;
              mode = mode;
              transport = transport;
              url = Dict.lookup "url" raw;
              hostname = Dict.lookup "hostname" raw;
              max_trace_depth = max_trace_depth;
              trace_filter_modules = modules_of (Dict.lookup "trace-filter-modules" raw);
              collect_await_frames = collect_await_frames;
            })

  -- `_parse_namespace_spec`
  unfoldable pub parse_namespace_spec : String → Outcome Spec
  parse_namespace_spec spec = then_returns (read_raw spec) spec_of

  -- The values of all `-N`.
  unfoldable pub parse_specs : List String → Outcome (List Spec)
  parse_specs [] = returned []
  parse_specs (spec ∷ specs) =
      then_returns (parse_namespace_spec spec)
        λ ns. then_returns (parse_specs specs) λ rest. returned (ns ∷ rest)

  -- `options['namespaces']` of `main`, by the values of `-N`, if any.
  unfoldable pub configure : Option (List String) → Outcome (List Spec)
  configure given =
      then_returns (parse_specs (or_default given))
        λ specs. then_returns (check_names specs []) λ _. returned specs

-- What `aiomain` looks at.
abbrev pub namespace_spec : Spec → NamespaceSpec
namespace_spec spec = record {
  name = spec.name;
  mode = spec.mode;
  overrides =
      is_some spec.hostname
      || is_some spec.max_trace_depth
      || is_some spec.trace_filter_modules
      || is_some spec.collect_await_frames;
}
