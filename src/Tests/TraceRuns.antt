-- ===== src/Tests/TraceRuns.antt =====
-- Runs of atasks/trace.py: a chain of two hops, and the frames of a nested call.
use mathlib.Core.List.{reverse}
use atasks.Prelude.{ℕ, String, ◌≡◌, refl, true, false, none, some, List, [], ◌∷◌}
use atasks.Hop.{rpc, AtaskHop}
use atasks.Errors.{PyException, exception, other, returned}
use atasks.Prelude.Text.{strip, lstrip, rstrip, is_space}
use atasks.Frames.{
  Machine, Frame, TracebackEntry, walk_frames_until, walk_traceback_after, is_filtered,
}
use atasks.Frames.Laws.{
  snapshots, tb_snapshots, walk_frames_until-entry, walk_traceback_after-entry,
}
use atasks.Trace.{Context, Settings, outside, push_hop, attach, get_trace}
use atasks.Trace.Laws.{IsNumbered, IsCoherent, push_hop-IsNumbered, attach-attach, summary}
use atasks.Tests.SampleWorld.{sample_machine, sample_settings, sample_stamp, sample_site, first_hop}

outside-IsCoherent : IsCoherent outside
outside-IsCoherent = record { numbered = tt; inside = refl }

abbrev sent : List AtaskHop
sent = first_hop rpc ∷ []

sent-pushed :
    push_hop sample_machine sample_settings "job" "default" rpc sample_stamp sample_site outside
    ≡ returned sent
unfolding push_hop
sent-pushed = refl

push_hop-IsNumbered_example : IsNumbered 0 sent
push_hop-IsNumbered_example =
    push_hop-IsNumbered sample_machine sample_settings "job" "default" rpc sample_stamp sample_site
      outside outside-IsCoherent sent-pushed

abbrev deep : Context
deep = record { chain = first_hop rpc ∷ first_hop rpc ∷ []; entry_frame = some 9 }

abbrev failed : PyException
failed = exception (other "ZeroDivisionError")

abbrev other_settings : Settings
other_settings = record sample_settings { hostname = "worker-2" }

attach-attach_example :
    (attach sample_machine
        (attach sample_machine failed sample_settings 7 none deep)
        other_settings
        8
        none
        outside
      ≡ attach sample_machine failed sample_settings 7 none deep)
    × ((attach sample_machine failed sample_settings 7 none deep).class ≡ other "ZeroDivisionError")
    × (summary (get_trace (attach sample_machine failed sample_settings 7 none deep))
        ≡ some (deep.chain, "worker-1", 7))
attach-attach_example =
    attach-attach sample_machine failed sample_settings 7 deep none other_settings 8 none outside

abbrev frame : ℕ → String → Frame
frame n name = record { ident = n; co_filename = "app.py"; f_lineno = n; co_name = name }

walk_frames_until-entry_example :
    walk_frames_until sample_machine
      (frame 1 "helper" ∷ frame 2 "body" ∷ frame 3 "_call_coro" ∷ frame 4 "loop" ∷ [])
      (some 3)
      []
    ≡ reverse (snapshots sample_machine [] (frame 1 "helper" ∷ frame 2 "body" ∷ []))
walk_frames_until-entry_example =
    walk_frames_until-entry sample_machine [] (frame 1 "helper" ∷ frame 2 "body" ∷ [])
      (frame 4 "loop" ∷ []) (frame 3 "_call_coro") (refl, (refl, tt))

abbrev entry : ℕ → String → TracebackEntry
entry n name = record { tb_frame = frame n name; tb_lineno = n }

walk_traceback_after-entry_example :
    walk_traceback_after sample_machine
      (entry 4 "loop" ∷ entry 3 "_call_coro" ∷ entry 2 "body" ∷ [])
      (some 3)
      []
    ≡ tb_snapshots sample_machine [] (entry 2 "body" ∷ [])
walk_traceback_after-entry_example =
    walk_traceback_after-entry sample_machine [] (entry 4 "loop" ∷ []) (entry 2 "body" ∷ [])
      (entry 3 "_call_coro") (refl, tt)

stripped : strip "   await job() " ≡ "await job()"
unfolding strip lstrip rstrip is_space
stripped = refl

-- A module's frames are left out, and those of a sibling whose name begins alike are kept.
abbrev packages : Machine
packages = record sample_machine {
  find_spec = λ _. some (record {
    submodule_search_locations = some ("/lib/atasks" ∷ []);
    origin = some "/lib/atasks/__init__.py";
  });
}

filtered :
    (is_filtered packages "/lib/atasks/router.py" ("atasks" ∷ []) ≡ true)
    × (is_filtered packages "/lib/atasks_extra/x.py" ("atasks" ∷ []) ≡ false)
unfolding is_filtered
filtered = (refl, refl)
