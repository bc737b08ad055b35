-- ===== src/Tests/RegistryRuns.antt =====
-- Runs of atasks/registry.py, as a task registry.
use atasks.Prelude.{ℕ, ◌≡◌, refl, false, [], ◌∷◌}
use atasks.Prelude.Dict
use atasks.Errors.{raised, exception, registering_twice}
use atasks.Registry.{Manager, register}

abbrev tasks : Manager ℕ
tasks = record {
  name = "default";
  unite = false;
  registry = ("a", record { attributes = ("coro", 1) ∷ [] }) ∷ [];
}

twice : (register "a" [] tasks).0 ≡ raised (exception (registering_twice "default" "a"))
unfolding register Dict.lookup
twice = refl
