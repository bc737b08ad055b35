-- ===== src/Tests/FormatRuns.antt =====
-- Runs of `_format_ts` and `format_trace`.
use atasks.Prelude.{arith, String, ◌≡◌, refl, true, some, [], ◌∷◌, ◌++◌}
use atasks.Prelude.Text.{split, drop_end, has, join, strip, lstrip, rstrip, is_space}
use atasks.Prelude.Text.Decimal.{padded, decimal}
use atasks.Hop.{rpc, AtaskHop, FrameInfo}
use atasks.Errors.{PyException, exception, other, returned, raised, value_error}
use atasks.Trace.{get_trace}
use atasks.Trace.Timestamp.{
  utc, to_milliseconds, fromtimestamp, strftime, format_ts, find_year, find_month, year_length,
  month_lengths, is_leap,
}
use atasks.Trace.Format.{
  format_trace, title, last_line, describe, append_hops, append_hop, append_frames, format_frame,
}
use atasks.Trace.Format.Lines.{trace_lines, split-format_trace}

leap_day : format_ts 951825600123456 ≡ returned "2000-02-29 12:00:00.123Z"
unfolding format_ts to_milliseconds strftime fromtimestamp utc find_year find_month year_length
    month_lengths is_leap padded drop_end
leap_day = refl

-- The first microsecond of the year 10000.
too_late : format_ts 253402300800000000 ≡ raised (exception (value_error "year is out of range"))
unfolding format_ts fromtimestamp
too_late = refl

abbrev source : FrameInfo
source = record { file = "app.py"; line = 12; func = "main"; text = " await job() " }

abbrev hop : AtaskHop
hop = record {
  seq = 0;
  call_id = "c0";
  task = "job";
  namespace = "default";
  kind = rpc;
  caller_file = "app.py";
  caller_line = 30;
  caller_func = "go";
  host = "web";
  pid = 7;
  ts = 1000;
  await_frames = source ∷ [];
  is_root = true;
}

abbrev failed : PyException
failed = record (exception (other "KeyError")) {
  trace =
      some (record { hops = hop ∷ []; raise_host = "worker"; raise_pid = 9; raise_frames = [] });
}

abbrev class_name : PyException → String
class_name _ = "KeyError"

abbrev str : PyException → String
str _ = "'a'"

split-format_trace_example :
    (text : String) × (format_trace class_name str failed ≡ returned text)
    × (split 10 text
        ≡ title ∷ (trace_lines (get_trace failed) ++ last_line class_name str failed ∷ []))
unfolding get_trace has
split-format_trace_example =
    split-format_trace class_name str failed
      (
        refl,
        (((refl, refl, refl, refl), (refl, refl), ((refl, refl, refl), tt), omega arith), tt),
        tt,
      )
      refl refl

rendered :
    format_trace class_name str failed
    ≡ returned
        "Atask call chain (root -> failure):\n  -- entry point (no enclosing atask call) --\n      File \"app.py\", line 12, in main\n        await job()\n  »RPC« File \"app.py\", line 30, in go\n        task=job namespace=default kind=rpc call_id=c0 host=web pid=7 ts=1970-01-01 00:00:00.001Z\n  (raised on host=worker pid=9)\nKeyError: 'a'"
unfolding format_trace get_trace describe append_hops append_hop append_frames format_frame join
    strip lstrip rstrip is_space decimal format_ts to_milliseconds strftime fromtimestamp utc
    find_year find_month year_length month_lengths is_leap padded drop_end
rendered = refl
