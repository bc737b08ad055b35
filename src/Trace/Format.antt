-- ===== src/Trace/Format.antt =====
-- atasks/trace.py, `format_trace`: the chain that an exception carries, as text.
pub mod OneLine
pub mod Lines
use atasks.Prelude.{
  ℕ, String, ◌<>◌, Bool, true, false, not, ◌&&◌, Option, none, some, List, [], ◌∷◌, ◌++◌, ◌==◌,
  if◌then◌else◌,
}
use atasks.Prelude.Text.{join, strip}
use atasks.Prelude.Text.Decimal.{decimal}
use atasks.Hop.{Kind, rpc, queue, broadcast, FrameInfo, AtaskHop, AtaskTrace}
use atasks.Errors.{PyException, Outcome, returned, raised}
use atasks.Trace.{get_trace}
use atasks.Trace.Timestamp.{format_ts}

-- `_KIND_MARKERS`; a kind is one of the three, so that its default is not reached.
abbrev pub marker : Kind → String
marker rpc = "»RPC«"
marker queue = "»QUEUE«"
marker broadcast = "»BROADCAST«"

-- The value of `hop.kind`.
abbrev pub kind_name : Kind → String
kind_name rpc = "rpc"
kind_name queue = "queue"
kind_name broadcast = "broadcast"

unfoldable pub format_frame : FrameInfo → String → String
format_frame frame indent =
    let line =
      indent
      <> ("File \""
          <> (frame.file <> ("\", line " <> (decimal frame.line <> (", in " <> frame.func))))) in
    if not (frame.text == "")
    then line <> ("\n" <> (indent <> ("  " <> strip frame.text)))
    else line

-- `for frame in frames: lines.append(_format_frame(frame, '      '))`
unfoldable pub append_frames : List FrameInfo → List String → List String
append_frames [] lines = lines
append_frames (frame ∷ frames) lines =
    append_frames frames (lines ++ format_frame frame "      " ∷ [])

-- The call site of a hop, as a frame without a source line.
abbrev pub call_site : AtaskHop → FrameInfo
call_site hop = record {
  file = hop.caller_file;
  line = hop.caller_line;
  func = hop.caller_func;
  text = "";
}

-- `ts` is the rendered timestamp of the hop.
abbrev pub annotation : AtaskHop → String → String
annotation hop ts =
    "        task="
    <> (hop.task
        <> (" namespace="
            <> (hop.namespace
                <> (" kind="
                    <> (kind_name hop.kind
                        <> (" call_id="
                            <> (hop.call_id
                                <> (" host="
                                    <> (hop.host
                                        <> (" pid=" <> (decimal hop.pid <> (" ts=" <> ts))))))))))))

abbrev pub has_frames : List FrameInfo → Bool
has_frames [] = false
has_frames (_ ∷ _) = true

-- The body of `for hop in info.hops`.
unfoldable pub append_hop : AtaskHop → List String → Outcome (List String)
append_hop hop lines =
    let entry =
      if hop.is_root && has_frames hop.await_frames
      then lines ++ "  -- entry point (no enclosing atask call) --" ∷ []
      else lines in
    let called =
      append_frames hop.await_frames entry
      ++ format_frame (call_site hop) ("  " <> (marker hop.kind <> " ")) ∷ [] in
    elim (format_ts hop.ts) [
      | raised e ↦ raised e
      | returned ts ↦ returned (called ++ annotation hop ts ∷ [])
    ]

abbrev pub append_next :
    Outcome (List String) → (List String → Outcome (List String)) → Outcome (List String)
append_next (raised e) rest = raised e
append_next (returned lines) rest = rest lines

unfoldable pub append_hops : List AtaskHop → List String → Outcome (List String)
append_hops [] lines = returned lines
append_hops (hop ∷ hops) lines = append_next (append_hop hop lines) (append_hops hops)

abbrev pub raised_on : AtaskTrace → String
raised_on info =
    "  (raised on host=" <> (info.raise_host <> (" pid=" <> (decimal info.raise_pid <> ")")))

abbrev pub title : String
title = "Atask call chain (root -> failure):"

-- The branches on `info`.
unfoldable pub describe : Option AtaskTrace → List String → Outcome (List String)
describe none lines = returned (lines ++ "  <no atask trace attached>" ∷ [])
describe (some info) lines =
    append_next (append_hops info.hops lines)
      λ called. returned (append_frames info.raise_frames called ++ raised_on info ∷ [])

-- `class_name` is `ex.__class__.__name__`, and `str` what `str(ex)` gives.
module _ (class_name str : PyException → String) where
  abbrev pub last_line : PyException → String
  last_line ex = class_name ex <> (": " <> str ex)

  unfoldable pub format_trace : PyException → Outcome String
  format_trace ex = elim (describe (get_trace ex) (title ∷ [])) [
    | raised e ↦ raised e
    | returned lines ↦ returned (join "\n" (lines ++ last_line ex ∷ []))
  ]
