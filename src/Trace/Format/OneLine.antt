-- ===== src/Trace/Format/OneLine.antt =====
-- The texts that a rendered chain is made of, where none that the chain brings has a line break.
use atasks.Prelude.{ℕ, ◌<◌, String, ◌<>◌, false, none, some, ◌≡◌, refl, Option}
use atasks.Prelude.Lists.{All}
use atasks.Prelude.Text.{strip, has}
use atasks.Prelude.Text.Decimal.{decimal, decimal-unbroken, padded-unbroken}
use atasks.Prelude.Text.Parts.{has-append}
use atasks.Prelude.Text.Splits.{strip-has}
use atasks.Hop.{Kind, rpc, queue, broadcast, FrameInfo, AtaskHop, AtaskTrace}
use atasks.Trace.Timestamp.{utc, to_milliseconds, timestamp_limit}
use atasks.Trace.Timestamp.Calendar.{to_milliseconds-utc}
use atasks.Trace.Format.{marker, kind_name, annotation, raised_on}

-- A text of one line.
abbrev pub OneLine : String → Type 0
OneLine s = has 10 s ≡ false

abbrev pub OneLineFrame : FrameInfo → Type 0
OneLineFrame frame = OneLine frame.file × OneLine frame.func × OneLine frame.text

abbrev pub OneLineHop : AtaskHop → Type 0
OneLineHop hop =
    (OneLine hop.task × OneLine hop.namespace × OneLine hop.call_id × OneLine hop.host)
    × (OneLine hop.caller_file × OneLine hop.caller_func)
    × All OneLineFrame hop.await_frames
    × (hop.ts < timestamp_limit)

-- No text that the chain brings has a line break, and no hop was made after the year 9999.
abbrev pub OneLineTrace : Option AtaskTrace → Type 0
OneLineTrace none = Unit
OneLineTrace (some info) =
    OneLine info.raise_host × All OneLineHop info.hops × All OneLineFrame info.raise_frames

-- The place of a frame, and its source line, are a line each.
unfoldable pub heading : FrameInfo → String → String
heading frame indent =
    indent
    <> ("File \""
        <> (frame.file <> ("\", line " <> (decimal frame.line <> (", in " <> frame.func)))))

module _ (frame : FrameInfo) (indent : String) (i : OneLine indent) (h : OneLineFrame frame) where
  pub heading-OneLine : OneLine (heading frame indent)
  unfolding heading has
  heading-OneLine = simp (has-append, i, h.0, h.1, decimal-unbroken frame.line)

  pub source-OneLine : OneLine (indent <> ("  " <> strip frame.text))
  unfolding has
  source-OneLine = simp (has-append, i, strip-has 10 frame.text h.2)

kind_name-OneLine : (kind : Kind) → OneLine (kind_name kind)
unfolding has
kind_name-OneLine rpc = refl
kind_name-OneLine queue = refl
kind_name-OneLine broadcast = refl

pub marker-OneLine : (kind : Kind) → OneLine ("  " <> (marker kind <> " "))
unfolding has
marker-OneLine rpc = refl
marker-OneLine queue = refl
marker-OneLine broadcast = refl

pub raised_on-OneLine : (info : AtaskTrace) → OneLine info.raise_host → OneLine (raised_on info)
unfolding has
raised_on-OneLine info h = simp (has-append, h, decimal-unbroken)

-- How the timestamp of a hop is rendered before the limit.
abbrev pub stamp_of : AtaskHop → String
stamp_of hop = to_milliseconds (utc hop.ts)

pub stamp_of-OneLine : (ts : ℕ) → OneLine (to_milliseconds (utc ts))
unfolding has
stamp_of-OneLine ts = rw (to_milliseconds-utc ts) (simp (has-append, padded-unbroken))

pub annotation-OneLine : (hop : AtaskHop) → OneLineHop hop → OneLine (annotation hop (stamp_of hop))
unfolding has
annotation-OneLine hop h = simp (
  has-append,
  stamp_of-OneLine,
  decimal-unbroken,
  h.0.0,
  h.0.1,
  h.0.2,
  h.0.3,
  kind_name-OneLine hop.kind,
)

pub indented : OneLine "      "
unfolding has
indented = refl
