-- ===== src/References/Generate.antt =====
-- atasks/commands/refs.py, `generate`: the files that are read and written. Paths are those of a POSIX
-- system, whose functions of `os.path` are parameters; the current directory does not change.
pub mod Combined
pub mod Separate
use text.Mathlib.Text.{starts_with}
use atasks.Prelude.{
  String, ◌<>◌, Option, none, some, List, [], ◌∷◌, ◌++◌, ◌==◌, ◌||◌, ◌&&◌, not, Bool, true, false,
  if◌then◌else◌,
}
use atasks.Prelude.Lists.{contains}
use atasks.Prelude.Dict
use atasks.Prelude.Dict.{Dict}
use atasks.Prelude.Text.{join, split, ends_with, drop_end}
use atasks.Errors.{
  then_returns, refuse, Exec, Outcome, returned, raised, exception, value_error, os_error, continue,
  lift, pure, ◌>>=◌, ◌>>◌,
}
use atasks.References.{
  Statement, Reference, task_references, render_references, source_specification,
}

-- The functions of `os.path`, `str.isidentifier`, `ast.parse` and `repr`, and what the operating
-- system lets the program do: to make a directory, and to open a file for writing.
pub record Host : Type 0 where
  pub abspath : String → String
  pub relpath : String → String
  pub splitext : String → String × String
  pub dirname : String → String
  pub join_path : String → String → String
  pub is_identifier : String → Bool
  pub parse : String → Outcome (List Statement)
  pub repr : String → String
  pub makes_directory : String → Bool
  pub opens : String → Bool

-- The text of a file by its path.
abbrev pub Disk : Type 0
Disk = Dict String

-- A source path, with the references that were extracted from it.
abbrev pub Parsed : Type 0
Parsed = String × List Reference

-- `if test: raise ValueError(message)`
abbrev pub refuse_if : {A : Type 0} → Bool → String → Outcome A → Outcome A
refuse_if test message rest = if test then refuse message else rest

-- `len(set(names)) == len(names)`
unfoldable pub is_distinct : List String → Bool
is_distinct [] = true
is_distinct (x ∷ xs) = not (contains x xs) && is_distinct xs

abbrev is_outside : String → Bool
is_outside path = starts_with path "../" || path == ".."

-- `if parts[-1] == '__init__': parts.pop()`
unfoldable pub pop_init : List String → List String
pop_init [] = []
pop_init (part ∷ []) = if part == "__init__" then [] else part ∷ []
pop_init (part ∷ parts) = part ∷ pop_init parts

unfoldable pub all_identifiers : (String → Bool) → List String → Bool
all_identifiers is_identifier [] = true
all_identifiers is_identifier (part ∷ parts) =
    is_identifier part && all_identifiers is_identifier parts

abbrev module_of : (String → Bool) → String → List String → Outcome String
module_of is_identifier source_path [] =
    refuse ("cannot derive a Python module name from " <> source_path)
module_of is_identifier source_path parts =
    if all_identifiers is_identifier parts
    then returned (join "." parts)
    else refuse ("cannot derive a Python module name from " <> source_path)

-- The loop over the specifications.
unfoldable pub read_specs :
    (String → String) → List String → Outcome (List (String × Option String))
read_specs abspath [] = returned []
read_specs abspath (source_spec ∷ source_specs) =
    then_returns (source_specification source_spec) λ (source_path, module_name).
      then_returns (read_specs abspath source_specs)
        λ source_paths. returned ((abspath source_path, module_name) ∷ source_paths)

unfoldable pub paths_of : {A : Type 0} → List (String × A) → List String
paths_of [] = []
paths_of ((source_path, _) ∷ sources) = source_path ∷ paths_of sources

unfoldable pub all_references : List Parsed → List Reference
all_references [] = []
all_references ((_, references) ∷ sources) = references ++ all_references sources

unfoldable pub function_names : List Reference → List String
function_names [] = []
function_names (reference ∷ references) = reference.function_name ∷ function_names references

-- `source_path[:-3] + '_refs.py'`
abbrev pub refs_path : String → String
refs_path source_path = drop_end 3 source_path <> "_refs.py"

module _ (host : Host) where
  -- `_default_module_name`
  unfoldable pub default_module_name : String → Outcome String
  default_module_name source_path =
      let (stem, extension) = host.splitext (host.relpath source_path) in
      refuse_if (not (extension == ".py") || is_outside stem)
        "source must be a Python file below the current directory"
        (module_of host.is_identifier source_path (pop_init (split b'/' stem)))

  -- `_relative_source_path`
  unfoldable pub relative_source_path : String → Outcome String
  relative_source_path source_path =
      refuse_if (is_outside (host.relpath source_path))
        "source must be a Python file below the current directory"
        (returned (host.relpath source_path))

  abbrev pub module_name_of : String → Option String → Outcome String
  module_name_of source_path none = default_module_name source_path
  module_name_of source_path (some module_name) = returned module_name

  -- `open(source_path).read()`
  abbrev pub read : String → Disk → Outcome String
  read path disk = elim (Dict.lookup path disk) [
    | none ↦ raised (exception (os_error path))
    | some text ↦ returned text
  ]

  abbrev pub parse_source : Disk → String → Option String → Outcome (List Reference)
  parse_source disk source_path module_name =
      refuse_if (not (ends_with source_path ".py")) "source must have a .py extension" (
        then_returns (module_name_of source_path module_name) λ name.
          then_returns (read source_path disk)
            λ text. then_returns (host.parse text) (task_references name))

  -- The loop that fills `parsed_sources`.
  unfoldable pub parse_sources : Disk → List (String × Option String) → Outcome (List Parsed)
  parse_sources disk [] = returned []
  parse_sources disk ((source_path, module_name) ∷ sources) =
      then_returns (parse_source disk source_path module_name) λ references.
        then_returns (parse_sources disk sources)
          λ parsed. returned ((source_path, references) ∷ parsed)

  -- All that is done before the first file is written.
  unfoldable pub prepare :
      List String → Option String → Option String → Disk → Outcome (List Parsed)
  prepare [] output_dir output_file disk = refuse "at least one source file is required"
  prepare source_specs (some _) (some _) disk =
      refuse "--output-dir and --output-file cannot be used together"
  prepare source_specs output_dir output_file disk =
      then_returns (read_specs host.abspath source_specs) λ source_paths.
        refuse_if (not (is_distinct (paths_of source_paths)))
          "each source file may be given only once" (parse_sources disk source_paths)

  -- `_write_references`
  unfoldable pub write_references : String → List Reference → List String → Exec Disk (Unit {0})
  write_references output_path references source_paths disk =
      let output_directory = host.dirname output_path in
      if output_directory == "" || host.makes_directory output_directory
      then if host.opens output_path
        then (
          returned tt,
          Dict.insert output_path (render_references host.repr references source_paths) disk,
        )
        else (raised (exception (os_error output_path)), disk)
      else (raised (exception (os_error output_directory)), disk)

  unfoldable pub descriptions : List Parsed → Outcome (List String)
  descriptions [] = returned []
  descriptions ((source_path, _) ∷ sources) =
      then_returns (relative_source_path source_path)
        λ description. then_returns (descriptions sources) λ rest. returned (description ∷ rest)

  -- With `output_file`.
  unfoldable pub write_combined : String → List Parsed → Exec Disk (List String)
  write_combined output_file parsed =
      let output_path = host.abspath output_file in
      let references = all_references parsed in
      lift (
        refuse_if (contains output_path (paths_of parsed))
          "--output-file must not overwrite a source file"
          (refuse_if (not (is_distinct (function_names references)))
            "--output-file cannot combine references with duplicate function names"
            (descriptions parsed)))
      >>= λ source_paths.
          write_references output_path references source_paths >> pure (output_path ∷ [])

  -- The path of the output, and the description of the source.
  abbrev pub target : Option String → String → Outcome (String × String)
  target none source_path = returned (refs_path source_path, source_path)
  target (some output_dir) source_path =
      then_returns (relative_source_path source_path) λ relative_path.
        returned (host.join_path (host.abspath output_dir) (refs_path relative_path), relative_path)

  -- The loop over the parsed sources, without `output_file`.
  unfoldable pub write_separate : Option String → List Parsed → Exec Disk (List String)
  write_separate output_dir [] = pure []
  write_separate output_dir ((source_path, references) ∷ sources) =
      lift (target output_dir source_path) >>= λ (output_path, description).
      write_references output_path references (description ∷ [])
      >> (write_separate output_dir sources >>= λ output_paths. pure (output_path ∷ output_paths))

  abbrev write_all : Option String → Option String → List Parsed → Exec Disk (List String)
  write_all output_dir (some output_file) = write_combined output_file
  write_all output_dir none = write_separate output_dir

  unfoldable pub generate : List String → Option String → Option String → Exec Disk (List String)
  generate source_specs output_dir output_file disk =
      (lift (prepare source_specs output_dir output_file disk) >>= write_all output_dir output_file)
        disk
