-- ===== src/References.antt =====
-- atasks/commands/refs.py: the light references that are generated from the source of a module. The
-- syntax tree of `ast` is kept as far as the program looks at it; `ast.parse` is a parameter.
pub mod Meaning
pub mod Generate
pub mod Main
use atasks.Prelude.{
  String, ◌<>◌, Option, none, some, List, [], ◌∷◌, ◌++◌, ◌==◌, ◌||◌, not, Bool, false,
  if◌then◌else◌,
}
use atasks.Prelude.Dict
use atasks.Prelude.Dict.{Dict}
use atasks.Prelude.Text.{join, before, after, has}
use atasks.Errors.{then_returns, Outcome, returned, raised, exception, value_error}

-- The value of a keyword: a string literal, or another expression.
pub data Value : Type 0 where
  literal : String → Value
  expression : Value

-- `arg` is missing in `**kwargs`.
pub record Keyword : Type 0 where
  pub arg : Option String
  pub value : Value

-- `ast.Name`, and `ast.Call` of an `ast.Name` or of another expression.
pub data Decorator : Type 0 where
  name : String → Decorator
  call : Option String → List Keyword → Decorator
  other_decorator : Decorator

-- `ast.FunctionDef` and `ast.AsyncFunctionDef`, or another statement.
pub data Statement : Type 0 where
  function : String → List Decorator → Statement
  other_statement : Statement

-- The tuples of `_task_references`.
pub record Reference : Type 0 where
  pub function_name : String
  pub ref_factory : String
  pub task_name : String
  pub namespace : Option String

-- `_DECORATOR_REFS`
abbrev pub decorator_refs : Dict String
decorator_refs =
    ("atask", "ataskref") ∷ ("atask_queue", "atask_qref") ∷ ("atask_broadcast", "atask_bref") ∷ []

abbrev pub is_option : String → Bool
is_option arg = arg == "name" || arg == "namespace"

-- The value of an option.
abbrev pub literal_value : String → Value → Outcome String
literal_value arg (literal s) = returned s
literal_value arg expression =
    raised (exception (value_error (arg <> "= must be a string literal")))

abbrev pub read_option : Keyword → Dict String → Outcome (Dict String)
read_option keyword options = elim keyword.arg [
  | none ↦ returned options
  | some arg ↦
      if is_option arg
      then then_returns (literal_value arg keyword.value)
          (λ s. returned (Dict.insert arg s options))
      else returned options
]

-- The loop over the keywords of a decorator.
unfoldable pub read_options : List Keyword → Dict String → Outcome (Dict String)
read_options [] options = returned options
read_options (keyword ∷ keywords) options =
    then_returns (read_option keyword options) (read_options keywords)

abbrev pub info_of : Option String → List Keyword → Outcome (Option (String × Dict String))
info_of none keywords = returned none
info_of (some ref_factory) keywords =
    then_returns (read_options keywords []) (λ options. returned (some (ref_factory, options)))

-- `_decorator_info`
unfoldable pub decorator_info : Decorator → Outcome (Option (String × Dict String))
decorator_info (name decorator_name) = info_of (Dict.lookup decorator_name decorator_refs) []
decorator_info (call (some decorator_name) keywords) =
    info_of (Dict.lookup decorator_name decorator_refs) keywords
decorator_info (call none keywords) = returned none
decorator_info other_decorator = returned none

abbrev pub default_name : String → String → String
default_name module_name function_name = module_name <> ("." <> function_name)

abbrev pub get_or : String → Option String → String
get_or value none = value
get_or value (some s) = s

abbrev pub reference_of : String → String → String × Dict String → Reference
reference_of module_name function_name (ref_factory, options) = record {
  function_name = function_name;
  ref_factory = ref_factory;
  task_name = get_or (default_name module_name function_name) (Dict.lookup "name" options);
  namespace = Dict.lookup "namespace" options;
}

-- The loop over the decorators of a function, up to `break`.
unfoldable pub function_reference : String → String → List Decorator → Outcome (Option Reference)
function_reference module_name function_name [] = returned none
function_reference module_name function_name (decorator ∷ decorators) =
    then_returns (decorator_info decorator) λ info. elim info [
      | none ↦ function_reference module_name function_name decorators
      | some found ↦ returned (some (reference_of module_name function_name found))
    ]

abbrev pub with_reference : Option Reference → List Reference → List Reference
with_reference none references = references
with_reference (some reference) references = reference ∷ references

-- `_task_references`, of the body of the tree.
unfoldable pub task_references : String → List Statement → Outcome (List Reference)
task_references module_name [] = returned []
task_references module_name (other_statement ∷ body) = task_references module_name body
task_references module_name (function function_name decorators ∷ body) =
    then_returns (function_reference module_name function_name decorators) λ reference.
      then_returns (task_references module_name body)
        λ references. returned (with_reference reference references)

unfoldable pub source_lines : List String → List String
source_lines [] = []
source_lines (source_path ∷ source_paths) = ("# - " <> source_path) ∷ source_lines source_paths

unfoldable pub source_header : List String → List String
source_header (source_path ∷ []) = ("# Generated by atasks refs from " <> (source_path <> ".")) ∷ []
source_header source_paths =
    "# Generated by atasks refs from these source files:" ∷ source_lines source_paths

-- `repr` of a string is a parameter.
module _ (repr : String → String) where
  unfoldable pub render_reference : Reference → String
  render_reference reference =
      let factory = reference.ref_factory <> elim reference.namespace [
        | none ↦ ""
        | some namespace ↦ "(namespace=" <> (repr namespace <> ")")
      ] in
      reference.function_name <> (" = " <> (factory <> ("[" <> (repr reference.task_name <> "]"))))

  unfoldable pub render_lines : List Reference → List String
  render_lines [] = []
  render_lines (reference ∷ references) = render_reference reference ∷ render_lines references

  -- `_render_references`
  unfoldable pub render_references : List Reference → List String → String
  render_references references source_paths =
      join "\n" (
        source_header source_paths
        ++ (("# This file contains lightweight references to the tasks declared there."
              ∷ "# Do not edit this file: changes will be overwritten by the next generation." ∷ ""
              ∷ "from atasks.refs import atask_bref, atask_qref, ataskref" ∷ "" ∷ [])
            ++ render_lines references))
      <> "\n"

abbrev pub after_partition : Bool → String → Outcome (Option String)
after_partition separator module_name =
    if not (module_name == "")
    then returned (some module_name)
    else if separator
    then raised (exception (value_error "module name must not be empty after ="))
    else returned none

-- `_source_specification`
unfoldable pub source_specification : String → Outcome (String × Option String)
source_specification source_spec =
    let source_path = before b'=' source_spec in
    if source_path == ""
    then raised (exception (value_error "source path must not be empty"))
    else then_returns (after_partition (has b'=' source_spec) (after b'=' source_spec))
        (λ module_name. returned (source_path, module_name))
