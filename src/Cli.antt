-- ===== src/Cli.antt =====
-- atasks/cli.py, `main`: the choice of a command. What `argparse` makes of the first argument and
-- `os.path.basename` are parameters, beside those of the two commands.
use atasks.Prelude.{String, ◌<>◌, ◌≡◌, refl, inl, inr, Option, List, [], ◌∷◌}
use atasks.Errors.{Exec, Outcome, Outcome-cases, PyException, returned, raised}
use atasks.References.Generate.{Host, Disk}
use atasks.References.Main as Refs
use atasks.Service.{Services}
use atasks.Service.Cleanup.{IsTidy}
use atasks.Service.Main.Ends.{Shuts, MainEnds, main-ends}
use atasks.Service.HealthHttp.{Integer}
use atasks.Service.Main as ServiceMain
use atasks.Service.Main.{Worker}

pub data Command : Type 0 where
  service refs help : Command

-- The files, and the process that a worker would run in.
pub record Shell (S : Type 0) : Type 0 where
  pub disk : Disk
  pub worker : Worker S

-- `argv[1:]`, `argv[1:2]` and `argv[2:]`.
abbrev pub arguments : List String → List String
arguments [] = []
arguments (program ∷ args) = args

abbrev pub first : List String → List String
first [] = []
first (arg ∷ args) = arg ∷ []

-- `argv[0]`; `argparse` has seen an argument then, so that there is one.
abbrev pub program_of : List String → String
program_of [] = ""
program_of (program ∷ args) = program

module _ {S : Type 0} where
  abbrev pub on_disk : Exec Disk (Unit {0}) → Exec (Shell S) (Unit {0})
  on_disk method s = let (result, disk) = method s.disk in (result, record s { disk = disk })

  abbrev pub in_process : Exec (Worker S) (Unit {0}) → Exec (Shell S) (Unit {0})
  in_process method s = let (result, w) = method s.worker in (result, record s { worker = w })

-- The mains of the commands take an `argv` with the name of the program.
module _ {S : Type 0} (parse_command : List String → Outcome Command) (basename : String → String)
    (service_main : List String → Exec (Worker S) (Unit {0}))
    (refs_main : List String → Exec Disk (Unit {0})) where
  abbrev pub run_command : Outcome Command → List String → Exec (Shell S) (Unit {0})
  run_command (raised e) argv s = (raised e, s)
  run_command (returned service) argv s =
      in_process
        (service_main ((basename (program_of argv) <> " service") ∷ arguments (arguments argv))) s
  run_command (returned refs) argv s =
      on_disk (refs_main ((basename (program_of argv) <> " refs") ∷ arguments (arguments argv))) s
  run_command (returned help) argv s = (returned tt, s)

  unfoldable pub main : List String → Exec (Shell S) (Unit {0})
  main argv = run_command (parse_command (first (arguments argv))) argv

-- Both commands drop the name of the program.
module _ {S : Type 0} (parse_command : List String → Outcome Command) (basename : String → String)
    (service_args : List String → Outcome ServiceMain.Arguments) (int : String → Option Integer)
    (services : Services S) (shutdown_asyncgens : Exec S (Unit {0}))
    (refs_args : List String → Outcome Refs.Arguments) (str : PyException → String)
    (host : Host) where
  abbrev pub atasks_main : List String → Exec (Shell S) (Unit {0})
  atasks_main =
      main parse_command basename
        (λ argv. ServiceMain.main service_args int services shutdown_asyncgens (arguments argv))
        (λ argv. Refs.main refs_args str host (arguments argv))

  -- What came of the command that was read, by the arguments after its word: `refs` may change files
  -- only, and `service` ends as its own `main` does; where no command is read, nothing changes.
  CommandEnds : Outcome Command → List String → Shell S → Outcome (Unit {0}) → Shell S → Type 0
  CommandEnds (raised e) rest s result s' = (result ≡ raised e) × (s' ≡ s)
  CommandEnds (returned service) rest s result s' =
      (s'.disk ≡ s.disk)
      × MainEnds service_args int services shutdown_asyncgens rest s.worker result s'.worker
  CommandEnds (returned refs) rest s result s' =
      (s'.worker ≡ s.worker) × (Refs.main refs_args str host rest s.disk ≡ (result, s'.disk))
  CommandEnds (returned help) rest s result s' = (result ≡ returned tt) × (s' ≡ s)

  run_command_lem :
      IsTidy services
      → Shuts services shutdown_asyncgens
      → (program word : String) (rest : List String) (s : Shell S) (command : Command)
      → let m =
          run_command parse_command basename
            (λ argv. ServiceMain.main service_args int services shutdown_asyncgens (arguments argv))
            (λ argv. Refs.main refs_args str host (arguments argv))
            (returned command)
            (program ∷ word ∷ rest)
            s in
        CommandEnds (returned command) rest s m.0 m.1
  unfolding CommandEnds
  run_command_lem tidy shuts program word rest s service =
      (refl, main-ends service_args int services shutdown_asyncgens tidy shuts rest s.worker)
  run_command_lem tidy shuts program word rest s refs = (refl, refl)
  run_command_lem tidy shuts program word rest s help = (refl, refl)

  atasks_main-CommandEnds :
      IsTidy services
      → Shuts services shutdown_asyncgens
      → (program word : String) (rest : List String) (s : Shell S)
      → let m = atasks_main (program ∷ word ∷ rest) s in
        CommandEnds (parse_command (word ∷ [])) rest s m.0 m.1
  unfolding main CommandEnds
  atasks_main-CommandEnds tidy shuts program word rest s =
      elim (Outcome-cases (parse_command (word ∷ []))) [
        | inr (x, e) ↦ rw e (refl, refl)
        | inl (command, e) ↦ rw e (run_command_lem tidy shuts program word rest s command)
      ]
