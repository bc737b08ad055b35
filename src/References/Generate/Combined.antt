-- ===== src/References/Generate/Combined.antt =====
-- `generate` with `--output-file`.
use atasks.Prelude.{
  String, ◌≡◌, refl, ◌⊎◌, inl, inr, none, some, List, [], ◌∷◌, ◌==◌, ◌||◌, true, false, arith,
  Bool-cases,
}
use atasks.Prelude.Lists.{contains}
use atasks.Prelude.Dict
use atasks.Errors.{
  exception, os_error, value_error, Outcome, Outcome-cases, PyException, returned, raised,
}
use atasks.References.{Reference, render_references}
use atasks.References.Generate.{
  Host, Disk, Parsed, is_distinct, paths_of, all_references, function_names, prepare, descriptions,
  write_references, write_combined, generate,
}

module _ (host : Host) where
  pub write_references-cases :
      (path : String) (references : List Reference) (paths : List String) (disk : Disk)
      → ((e : PyException) × (write_references host path references paths disk ≡ (raised e, disk)))
        ⊎ (write_references host path references paths disk
            ≡ (returned tt, Dict.insert path (render_references host.repr references paths) disk))
  unfolding write_references
  write_references-cases path references paths disk =
      let directory = host.dirname path in
      elim (Bool-cases (directory == "" || host.makes_directory directory)) [
        | inl made ↦ elim (Bool-cases (host.opens path)) [
          | inl e ↦ inr (ground (arith, made, e))
          | inr e ↦ inl (exception (os_error path), ground (arith, made, e))
        ]
        | inr e ↦ inl (exception (os_error directory), ground (arith, e))
      ]

  -- What a combined file is made of.
  abbrev pub Written : String → List Parsed → Disk → Outcome (List String) × Disk → Type 0
  Written path parsed disk result =
      (contains path (paths_of parsed) ≡ false)
      × (is_distinct (function_names (all_references parsed)) ≡ true)
      × ((paths : List String) × (descriptions host parsed ≡ returned paths)
          × (result ≡ (
            returned (path ∷ []),
            Dict.insert path (render_references host.repr (all_references parsed) paths) disk,
          )))

  write_combined-cases :
      (file : String) (parsed : List Parsed) (disk : Disk)
      → ((e : PyException) × (write_combined host file parsed disk ≡ (raised e, disk)))
        ⊎ Written (host.abspath file) parsed disk (write_combined host file parsed disk)
  unfolding write_combined
  write_combined-cases file parsed disk =
      let path = host.abspath file in
      let references = all_references parsed in
      elim (Bool-cases (contains path (paths_of parsed))) [
        | inl e ↦
            inl
              (exception (value_error "--output-file must not overwrite a source file"), rw e refl)
        | inr fresh ↦ elim (Bool-cases (is_distinct (function_names references))) [
          | inr e ↦ inl (
            exception (
                value_error
                  "--output-file cannot combine references with duplicate function names"),
            rw (fresh, e) refl,
          )
          | inl distinct ↦ elim (Outcome-cases (descriptions host parsed)) [
            | inr (x, e) ↦ inl (x, rw (fresh, distinct, e) refl)
            | inl (paths, e) ↦ elim (write_references-cases path references paths disk) [
              | inl (x, w) ↦ inl (x, rw (fresh, distinct, e, w) refl)
              | inr w ↦ inr (fresh, distinct, (paths, e, rw (fresh, distinct, e, w) refl))
            ]
          ]
        ]
      ]

  -- With an output file, `generate` either raises and leaves every file as it was, or writes that one
  -- file, which is none of the sources, with the references of all sources in order, no two of which
  -- have the same function name.
  pub generate-combined :
      (specs : List String) (file : String) (disk : Disk)
      → ((e : PyException) × (generate host specs none (some file) disk ≡ (raised e, disk)))
        ⊎ ((parsed : List Parsed) × (prepare host specs none (some file) disk ≡ returned parsed)
            × Written (host.abspath file) parsed disk (generate host specs none (some file) disk))
  unfolding generate
  generate-combined specs file disk =
      elim (Outcome-cases (prepare host specs none (some file) disk)) [
        | inl (parsed, e) ↦ elim (write_combined-cases file parsed disk) [
          | inl (x, w) ↦ inl (x, rw e w)
          | inr w ↦ inr (parsed, e, rw e w)
        ]
        | inr (x, e) ↦ inl (x, rw e refl)
      ]
