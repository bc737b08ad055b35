-- ===== src/Tests/SampleWorld.antt =====
-- A process of the program's own making: one router in the namespace "default" that serves an
-- atask, a queue task and a broadcast task on its loopback transport, with a pickle that can dump
-- what these calls send.
use mathlib.Core.Logic.{dite}
use mathlib.Core.Bool.{Bool-discrete}
use native.Mathlib.Decide.{ℕ_discrete}
use atasks.Prelude.{
  ℕ, zero, suc, ◌+◌, String, ◌≡◌, ◌≢◌, refl, ap, true, false, none, some, List, [], ◌∷◌, ◌==◌,
  eq_iff, sym, ◌∙◌,
}
use atasks.Prelude.Dict.{Dict}
use atasks.Hop.{Kind, rpc, queue, broadcast, AtaskHop, FrameInfo}
use atasks.Errors.{Outcome, returned, raised, exception, other}
use atasks.Registry
use atasks.Frames.{Machine}
use atasks.Trace.{Settings, Stamp, CallSite, outside, next_hop}
use atasks.Codec.{Bytes, Payload, request, success, failure}
use atasks.Transport.Loopback.{Loopback}
use atasks.Router.{Callback}
use atasks.Calls.{Program, finish, Attribute, coro, options, Process, World}
use atasks.Calls.Restores.{IsFaithful}

pub String-discrete : Discrete String
String-discrete s t =
    dite (Bool-discrete (s == t) true) (λ same. yes ((eq_iff s t).0 same))
      (λ differ. no (λ p. differ ((eq_iff s t).1 p)))

Kind-discrete : Discrete Kind
Kind-discrete = hlevel

FrameInfo-discrete : Discrete FrameInfo
FrameInfo-discrete = hlevel (ℕ_discrete, String-discrete)

pub AtaskHop-discrete : Discrete AtaskHop
AtaskHop-discrete = hlevel (ℕ_discrete, String-discrete, Kind-discrete, FrameInfo-discrete)

abbrev pub sample_machine : Machine
sample_machine = record {
  find_spec = λ _. none;
  normpath = λ path. path;
  getline = λ _ _. "    await job()";
}

abbrev pub sample_settings : Settings
sample_settings = record {
  hostname = "worker-1";
  max_trace_depth = 2;
  trace_filter_modules = [];
  collect_await_frames = true;
}

abbrev pub sample_stamp : Stamp
sample_stamp = record { call_id = "c0"; pid = 7; ts = 1000 }

abbrev pub sample_site : CallSite
sample_site = record {
  caller = record { ident = 3; co_filename = "app.py"; f_lineno = 12; co_name = "main" };
  f_back = record { ident = 2; co_filename = "run.py"; f_lineno = 4; co_name = "<module>" } ∷ [];
}

-- The hop of a call from outside of every atask.
abbrev pub first_hop : Kind → AtaskHop
first_hop kind =
    next_hop sample_machine sample_settings "job" "default" kind sample_stamp sample_site outside

abbrev pub kind_code : Kind → Bytes
kind_code rpc = 1 ∷ []
kind_code queue = 1 ∷ 1 ∷ []
kind_code broadcast = 1 ∷ 1 ∷ 1 ∷ []

dump_hop : (hop : AtaskHop) → Dec (hop ≡ first_hop hop.kind) → Outcome Bytes
dump_hop hop (yes _) = returned (kind_code hop.kind)
dump_hop hop (no _) = raised (exception (other "PicklingError"))

unfoldable pub dumps : Payload ℕ → Outcome Bytes
unfolding dump_hop
dumps (request [] [] (hop ∷ [])) = dump_hop hop (AtaskHop-discrete hop (first_hop hop.kind))
dumps (success v) = returned (0 ∷ v ∷ [])
dumps _ = raised (exception (other "PicklingError"))

unfoldable pub loads : Bytes → Outcome (Payload ℕ)
loads (zero ∷ v ∷ []) = returned (success v)
loads (suc _ ∷ []) = returned (request [] [] (first_hop rpc ∷ []))
loads (suc _ ∷ _ ∷ []) = returned (request [] [] (first_hop queue ∷ []))
loads (suc _ ∷ _ ∷ _ ∷ []) = returned (request [] [] (first_hop broadcast ∷ []))
loads _ = raised (exception (other "UnpicklingError"))

loads-kind_code : (k : Kind) → loads (kind_code k) ≡ returned (request [] [] (first_hop k ∷ []))
unfolding loads
loads-kind_code rpc = refl
loads-kind_code queue = refl
loads-kind_code broadcast = refl

returned-inj : {x y : Bytes} → returned x ≡ returned y → x ≡ y
returned-inj e = cc

loads-dump_hop :
    (hop : AtaskHop) (d : Dec (hop ≡ first_hop hop.kind)) (bytes : Bytes)
    → dump_hop hop d ≡ returned bytes
    → loads bytes ≡ returned (request [] [] (hop ∷ []))
unfolding dump_hop
loads-dump_hop hop (yes same) bytes e =
    ap loads (sym (returned-inj e))
    ∙ loads-kind_code hop.kind
    ∙ ap (λ h. returned (request [] [] (h ∷ []))) (sym same)
loads-dump_hop hop (no _) bytes e = cc

kind_code_nonempty : (k : Kind) → ¬ (returned (kind_code k) ≡ returned [])
kind_code_nonempty rpc e = cc
kind_code_nonempty queue e = cc
kind_code_nonempty broadcast e = cc

dump_hop_nonempty :
    (hop : AtaskHop) (d : Dec (hop ≡ first_hop hop.kind)) → dump_hop hop d ≢ returned []
unfolding dump_hop
dump_hop_nonempty hop (yes _) e = kind_code_nonempty hop.kind e
dump_hop_nonempty hop (no _) e = cc

dump_hop_same :
    (hop : AtaskHop) (d : Dec (hop ≡ first_hop hop.kind))
    → hop ≡ first_hop hop.kind
    → dump_hop hop d ≡ returned (kind_code hop.kind)
unfolding dump_hop
dump_hop_same hop (yes _) e = refl
dump_hop_same hop (no n) e = absurd (n e)

pub dumps-first_hop : (k : Kind) → dumps (request [] [] (first_hop k ∷ [])) ≡ returned (kind_code k)
unfolding dumps next_hop
dumps-first_hop k = dump_hop_same (first_hop k) _ refl

pub dumps-success : (v : ℕ) → dumps (success v) ≡ returned (0 ∷ v ∷ [])
unfolding dumps
dumps-success v = refl

abbrev pub sample_body : List ℕ → Dict ℕ → Program ℕ
sample_body argv kwargs = finish 42

abbrev sample_registry : Registry.Manager (Attribute ℕ)
sample_registry = record {
  name = "default";
  unite = false;
  registry =
      ("job", record { attributes = ("coro", coro sample_body) ∷ ("options", options []) ∷ [] })
      ∷ [];
}

abbrev pub sample_client : Loopback Callback
sample_client = record {
  connected = true;
  request_callbacks = ("job", record { kind = rpc; name = "job" }) ∷ [];
  event_callbacks = ("job", record { kind = queue; name = "job" }) ∷ [];
  broadcast_callbacks = ("job", record { kind = broadcast; name = "job" } ∷ []) ∷ [];
}

abbrev pub sample_process : Process ℕ
sample_process = record {
  context = outside;
  has_codec = true;
  transport = some sample_client;
  rpc_registry = sample_registry;
  queue_registry = sample_registry;
  broadcast_registry = sample_registry;
  logged = [];
  calls = 0;
}

abbrev pub sample_world : World ℕ
sample_world = record {
  namespace = "default";
  settings = sample_settings;
  stub_settings = sample_settings;
  machine = sample_machine;
  stamp_at = λ _. sample_stamp;
  site_at = λ _. sample_site;
  frame_at = λ n. n + 10;
  traceback_at = λ _. none;
  pickle = record { dumps = dumps; loads = loads };
  wait_for = λ _ run. run;
  none_value = 0;
}

pub sample_world-IsFaithful : IsFaithful sample_world
unfolding dumps loads
sample_world-IsFaithful = record {
  loads-dumps = faithful;
  dumps_nonempty = nonempty;
  wait_for_context = λ _ _. refl;
}
  where
    faithful : (x : Payload ℕ) (bytes : Bytes) → dumps x ≡ returned bytes → loads bytes ≡ returned x
    faithful (request [] [] (hop ∷ [])) bytes e = loads-dump_hop hop _ bytes e
    faithful (success v) bytes e = ap loads (sym (returned-inj e))
    faithful (request _ _ _) bytes e = cc
    faithful (failure _) bytes e = cc

    nonempty : (x : Payload ℕ) → dumps x ≢ returned []
    nonempty (request [] [] (hop ∷ [])) e = dump_hop_nonempty hop _ e
    nonempty (success v) e = cc
    nonempty (request _ _ _) e = cc
    nonempty (failure _) e = cc
