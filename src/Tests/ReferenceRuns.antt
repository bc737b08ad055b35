-- ===== src/Tests/ReferenceRuns.antt =====
-- Runs of `atasks refs`, on a disk of two modules.
use atasks.Prelude.{String, ◌<>◌, ◌≡◌, refl, ◌⊎◌, true, false, none, some, List, [], ◌∷◌}
use atasks.Prelude.Dict
use atasks.Prelude.Lists.{contains}
use atasks.Prelude.Text.{before, after, has, ends_with, drop_end}
use atasks.Errors.{returned, Outcome, raised, exception, value_error, PyException}
use atasks.References.{
  literal, expression, name, call, other_decorator, Statement, function, other_statement, Reference,
  read_options, decorator_info, function_reference, task_references, render_reference,
  source_specification,
}
use atasks.References.Meaning.{meanings, declared, task_references-declared}
use atasks.References.Generate.{
  Host, Disk, Parsed, prepare, generate, read_specs, parse_sources, paths_of, is_distinct,
  write_references, write_separate,
}
use atasks.References.Main.{Arguments, main, main-combined}
use atasks.References.Generate.Combined.{Written}
use atasks.References.Generate.Separate.{AreWritten, outputs, generate-separate}

abbrev body : List Statement
body =
    other_statement
    ∷ function "send" (name "atask" ∷ [])
    ∷ function "helper" (other_decorator ∷ [])
    ∷ function "store" (
        name "cached"
        ∷ call (some "atask_queue") (
            record { arg = some "namespace"; value = literal "orders" }
            ∷ record { arg = some "retries"; value = expression }
            ∷ [])
        ∷ [])
    ∷ []

abbrev references : List Reference
references =
    record {
      function_name = "send";
      ref_factory = "ataskref";
      task_name = "mail.send";
      namespace = none;
    }
    ∷ record {
      function_name = "store";
      ref_factory = "atask_qref";
      task_name = "mail.store";
      namespace = some "orders";
    }
    ∷ []

body-references : task_references "mail" body ≡ returned references
unfolding task_references function_reference decorator_info read_options Dict.lookup Dict.insert
body-references = refl

task_references-declared_example : meanings references ≡ declared "mail" body
task_references-declared_example = task_references-declared "mail" body references body-references

-- A name that is computed is refused.
computed_name :
    task_references "mail" (
      function "send"
        (call (some "atask") (record { arg = some "name"; value = expression } ∷ []) ∷ [])
      ∷ [])
    ≡ raised (exception (value_error "name= must be a string literal"))
unfolding task_references function_reference decorator_info read_options Dict.lookup
computed_name = refl

store_line :
    render_reference
      (λ s. "'" <> (s <> "'"))
      (record {
        function_name = "store";
        ref_factory = "atask_qref";
        task_name = "mail.store";
        namespace = some "orders";
      })
    ≡ "store = atask_qref(namespace='orders')['mail.store']"
unfolding render_reference
store_line = refl

-- The disk lies below the current directory `/w`; every text is the one module.
abbrev host : Host
host = record {
  abspath = λ p. "/w/" <> p;
  relpath = λ p. p;
  splitext = λ p. (drop_end 3 p, ".py");
  dirname = λ p. "/w";
  join_path = λ d p. d <> ("/" <> p);
  is_identifier = λ part. true;
  parse = λ text. returned body;
  repr = λ s. "'" <> (s <> "'");
  makes_directory = λ d. true;
  opens = λ p. true;
}

abbrev disk : Disk
disk = ("/w/mail.py", "mail") ∷ ("/w/mail_refs.py", "kept by hand") ∷ []

abbrev mail : List String
mail = "mail.py=mail" ∷ []

abbrev parse_args : List String → Outcome Arguments
parse_args argv =
    returned (record { source = argv; output_dir = none; output_file = some "all.py" })

main-combined_example :
    ((e : PyException) × (main parse_args (λ e. "error") host mail disk ≡ (raised e, disk)))
    ⊎ (((main parse_args (λ e. "error") host mail disk).0 ≡ returned tt)
        × (parsed : List Parsed) × (prepare host mail none (some "all.py") disk ≡ returned parsed)
        × Written host "/w/all.py" parsed disk
            (returned ("/w/all.py" ∷ []), (main parse_args (λ e. "error") host mail disk).1))
main-combined_example =
    main-combined parse_args (λ e. "error") host mail
      (record { source = mail; output_dir = none; output_file = some "all.py" }) "all.py" disk refl
      refl refl

mail-returned : (generate host mail none none disk).0 ≡ returned ("/w/mail_refs.py" ∷ [])
unfolding generate prepare read_specs source_specification before after has is_distinct paths_of
    parse_sources ends_with Dict.lookup Dict.insert task_references function_reference
    decorator_info read_options write_separate write_references drop_end
mail-returned = refl

generate-separate_example :
    (parsed : List Parsed) × (prepare host mail none none disk ≡ returned parsed)
    × (("/w/mail_refs.py" ∷ []) ≡ outputs parsed)
    × AreWritten host parsed (generate host mail none none disk).1
    × ((x : String)
        → contains x (outputs parsed) ≡ false
        → Dict.lookup x (generate host mail none none disk).1 ≡ Dict.lookup x disk)
generate-separate_example = generate-separate host mail disk ("/w/mail_refs.py" ∷ []) mail-returned
