-- ===== src/Trace.antt =====
-- atasks/trace.py, the chain of hops: the two context variables, `push_hop` on the calling side,
-- `enter` and `leave` on the receiving side, and `attach`, which puts the chain on an exception.
pub mod Laws
pub mod Timestamp
pub mod Format
use atasks.Prelude.{
  ℕ, String, Bool, true, false, not, ◌||◌, Option, none, some, List, [], ◌∷◌, ◌++◌, leb, is_some,
  if◌then◌else◌,
}
use atasks.Prelude.Lists.{length}
use atasks.Hop.{Kind, AtaskHop, AtaskTrace}
use atasks.Errors.{PyException, exception, atask_stack_too_deep, Outcome, returned, raised}
use atasks.Frames.{Machine, Frame, TracebackEntry, walk_frames_until, walk_traceback_after}

-- The values of `CURRENT` and `ENTRY_FRAME` in the running task.
pub record Context : Type 0 where
  pub chain : List AtaskHop
  pub entry_frame : Option ℕ

-- Outside of every atask: the defaults of the two variables.
abbrev pub outside : Context
outside = record { chain = []; entry_frame = none }

-- The fields of a `Router` that tracing reads.
pub record Settings : Type 0 where
  pub hostname : String
  pub max_trace_depth : ℕ
  pub trace_filter_modules : List String
  pub collect_await_frames : Bool

-- What `uuid.uuid4().hex`, `os.getpid()` and `time.time()` give at one call.
pub record Stamp : Type 0 where
  pub call_id : String
  pub pid : ℕ
  pub ts : ℕ

-- The stack at a call: `sys._getframe(2)`, and the frames above it, innermost first.
pub record CallSite : Type 0 where
  pub caller : Frame
  pub f_back : List Frame

unfoldable pub current : Context → List AtaskHop
current c = c.chain

-- The chain as decoded, `None` being read as no chain; the token is the value before.
unfoldable pub enter : Option (List AtaskHop) → Context → List AtaskHop × Context
enter none c = (c.chain, record c { chain = [] })
enter (some chain) c = (c.chain, record c { chain = chain })

unfoldable pub leave : List AtaskHop → Context → Context
leave token c = record c { chain = token }

module _ (m : Machine) where
  -- The `AtaskHop(...)` of `push_hop`.
  unfoldable pub next_hop :
      Settings → String → String → Kind → Stamp → CallSite → Context → AtaskHop
  next_hop router name namespace kind stamp site c = record {
    seq = length c.chain;
    call_id = stamp.call_id;
    task = name;
    namespace = namespace;
    kind = kind;
    caller_file = site.caller.co_filename;
    caller_line = site.caller.f_lineno;
    caller_func = site.caller.co_name;
    host = router.hostname;
    pid = stamp.pid;
    ts = stamp.ts;
    await_frames =
        if router.collect_await_frames
        then walk_frames_until m site.f_back c.entry_frame router.trace_filter_modules
        else [];
    is_root = not (is_some c.entry_frame);
  }

  unfoldable pub push_hop :
      Settings → String → String → Kind → Stamp → CallSite → Context → Outcome (List AtaskHop)
  push_hop router name namespace kind stamp site c =
      if leb router.max_trace_depth (length c.chain)
      then raised (exception (atask_stack_too_deep router.max_trace_depth namespace name))
      else returned (c.chain ++ next_hop router name namespace kind stamp site c ∷ [])

  -- `ex.__traceback__` is `none` where the attribute is `None`.
  unfoldable pub attach :
      PyException → Settings → ℕ → Option (List TracebackEntry) → Context → PyException
  attach ex router pid traceback c = if is_some ex.trace || ex.has_slots then ex else record ex {
    trace = some (record {
      hops = c.chain;
      raise_host = router.hostname;
      raise_pid = pid;
      raise_frames = elim traceback [
        | none ↦ []
        | some tb ↦
            if router.collect_await_frames
            then walk_traceback_after m tb c.entry_frame router.trace_filter_modules
            else []
      ];
    });
  }

unfoldable pub get_trace : PyException → Option AtaskTrace
get_trace ex = ex.trace
