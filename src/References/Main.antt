-- ===== src/References/Main.antt =====
-- atasks/commands/refs.py, `main`. What `argparse` makes of the arguments, and `str` of an
-- exception, are parameters.
use atasks.Prelude.{
  String, ◌≡◌, refl, ◌⊎◌, inl, inr, Bool, true, false, Bool-cases, ◌==◌, Option, none, some, List,
  [], ◌∷◌, if◌then◌else◌, ap,
}
use atasks.Errors.{
  Exec, Outcome, PyException, ExceptionClass, value_error, os_error, other, exception, returned,
  raised, refuse, lift, ◌>>=◌,
}
use atasks.References.Generate.{Host, Disk, Parsed, generate, prepare}
use atasks.References.Generate.Combined.{generate-combined, Written}

pub record Arguments : Type 0 where
  pub source : List String
  pub output_dir : Option String
  pub output_file : Option String

-- `except (OSError, SyntaxError, ValueError)`
abbrev pub is_reported : ExceptionClass → Bool
is_reported (value_error _) = true
is_reported (os_error _) = true
is_reported (other name) = name == "SyntaxError"
is_reported _ = false

module _ (parse_args : List String → Outcome Arguments) (str : PyException → String)
    (host : Host) where
  abbrev pub report : Outcome (List String) → Outcome (Unit {0})
  report (returned _) = returned tt
  report (raised e) = if is_reported e.class then refuse (str e) else raised e

  -- The arguments are those after the name of the program.
  unfoldable pub main : List String → Exec Disk (Unit {0})
  main argv = lift (parse_args argv) >>= λ options disk.
      let (result, disk') =
        generate host options.source options.output_dir options.output_file disk in
      (report result, disk')

  -- With an output file, the `refs` command either raises and leaves every file as it was, or returns
  -- and has changed no file but that one, which is none of the sources, and holds now the references
  -- of all sources in order, no two of which have the same function name.
  pub main-combined :
      (argv : List String) (options : Arguments) (file : String) (disk : Disk)
      → parse_args argv ≡ returned options
      → options.output_dir ≡ none
      → options.output_file ≡ some file
      → ((e : PyException) × (main argv disk ≡ (raised e, disk)))
        ⊎ (((main argv disk).0 ≡ returned tt)
            × (parsed : List Parsed) × (prepare host options.source none (some file) disk
                ≡ returned parsed)
            × Written host
                (host.abspath file)
                parsed
                disk
                (returned (host.abspath file ∷ []), (main argv disk).1))
  unfolding main
  main-combined argv options file disk p d f =
      rw (p, d, f)
        (elim (generate-combined host options.source file disk) [
          | inl (e, g) ↦ elim (Bool-cases (is_reported e.class)) [
            | inl r ↦ inl (exception (value_error (str e)), rw (g, r) refl)
            | inr r ↦ inl (e, rw (g, r) refl)
          ]
          | inr (parsed, q, w) ↦ inr (
            ap (λ r. report r.0) w.2.2,
            parsed,
            q,
            (w.0, w.1, (w.2.0, w.2.1, ap (λ r. (returned (host.abspath file ∷ []), r.1)) w.2.2)),
          )
        ])
