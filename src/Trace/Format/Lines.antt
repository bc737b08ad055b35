-- ===== src/Trace/Format/Lines.antt =====
-- The lines of a rendered chain.
use mathlib.Core.List.{flat_map, append_assoc, append-nil}
use atasks.Prelude.{
  String, ◌<>◌, false, ◌&&◌, none, some, List, [], ◌∷◌, ◌++◌, ◌==◌, if◌then◌else◌, ◌≡◌, refl, sym,
  ap, ◌∙◌, Bool-cases, inl, inr, Option,
}
use atasks.Prelude.Lists.{All}
use atasks.Prelude.Text.{join, strip, has, split}
use atasks.Prelude.Text.Decimal.{decimal}
use atasks.Prelude.Text.Parts.{has-append}
use atasks.Prelude.Text.Splits.{split_all, split-append_any, split-join_any}
use atasks.Hop.{FrameInfo, AtaskHop, AtaskTrace}
use atasks.Errors.{PyException, returned}
use atasks.Trace.Timestamp.Calendar.{format_ts-utc}
use atasks.Trace.{get_trace}
use atasks.Trace.Format.OneLine.{
  OneLine, OneLineFrame, OneLineHop, OneLineTrace, stamp_of, heading, heading-OneLine,
  source-OneLine, annotation-OneLine, marker-OneLine, raised_on-OneLine, indented,
}
use atasks.Trace.Format.{
  marker, format_frame, append_frames, call_site, annotation, has_frames, append_hop, append_next,
  append_hops, raised_on, describe, title, last_line, format_trace,
}

-- What is written for a frame: where it is, and its source line, if there is one.
abbrev pub frame_lines : String → FrameInfo → List String
frame_lines indent frame =
    (indent
      <> ("File \""
          <> (frame.file <> ("\", line " <> (decimal frame.line <> (", in " <> frame.func))))))
    ∷ (if frame.text == "" then [] else (indent <> ("  " <> strip frame.text)) ∷ [])

-- What is written for a hop: the frames that lead to its call, the call, and what was recorded of it.
abbrev pub hop_lines : AtaskHop → List String
hop_lines hop =
    (if hop.is_root && has_frames hop.await_frames
      then "  -- entry point (no enclosing atask call) --" ∷ []
      else [])
    ++ (flat_map (frame_lines "      ") hop.await_frames
        ++ (frame_lines ("  " <> (marker hop.kind <> " ")) (call_site hop)
            ++ annotation hop (stamp_of hop) ∷ []))

abbrev pub trace_lines : Option AtaskTrace → List String
trace_lines none = "  <no atask trace attached>" ∷ []
trace_lines (some info) =
    flat_map hop_lines info.hops
    ++ (flat_map (frame_lines "      ") info.raise_frames ++ raised_on info ∷ [])

ruleset joins = (append_assoc, append-nil)

abbrev all_lines : List String → List String
all_lines = flat_map (split 10)

all_lines-append : (xs ys : List String) → all_lines (xs ++ ys) ≡ all_lines xs ++ all_lines ys
unfolding flat_map
all_lines-append [] ys = refl
all_lines-append (x ∷ xs) ys = simp (all_lines-append xs ys, append_assoc)

all_lines-snoc :
    (xs : List String) (s : String) → all_lines (xs ++ s ∷ []) ≡ all_lines xs ++ split 10 s
unfolding flat_map
all_lines-snoc xs s =
    all_lines-append xs (s ∷ []) ∙ ap (λ ys. all_lines xs ++ ys) (append-nil (split 10 s))

module _ (frame : FrameInfo) (indent : String) (i : OneLine indent) (h : OneLineFrame frame) where
  split-format_frame : split 10 (format_frame frame indent) ≡ frame_lines indent frame
  unfolding format_frame heading
  split-format_frame =
      let first = split_all 10 (heading frame indent) (heading-OneLine frame indent i h) in
      let source = indent <> ("  " <> strip frame.text) in
      elim (Bool-cases (frame.text == "")) [
        | inl e ↦ rw e first
        | inr e ↦ rw e (
            split-append_any 10 (heading frame indent) "\n" source refl
            ∙ ap (λ xs. xs ++ split 10 source) first
            ∙ ap (λ xs. heading frame indent ∷ xs)
                (split_all 10 source (source-OneLine frame indent i h)))
      ]

append_frames-lines :
    (frames : List FrameInfo) (lines : List String)
    → All OneLineFrame frames
    → all_lines (append_frames frames lines)
      ≡ all_lines lines ++ flat_map (frame_lines "      ") frames
unfolding append_frames flat_map
append_frames-lines [] lines h = sym (append-nil (all_lines lines))
append_frames-lines (frame ∷ frames) lines h =
    append_frames-lines frames (lines ++ format_frame frame "      " ∷ []) h.1
    ∙ ap (λ xs. xs ++ flat_map (frame_lines "      ") frames)
        (all_lines-snoc lines (format_frame frame "      ")
          ∙ ap (λ xs. all_lines lines ++ xs) (split-format_frame frame "      " indented h.0))
    ∙ append_assoc (all_lines lines) (frame_lines "      " frame)
        (flat_map (frame_lines "      ") frames)

abbrev entry_lines : AtaskHop → List String
entry_lines hop =
    if hop.is_root && has_frames hop.await_frames
    then "  -- entry point (no enclosing atask call) --" ∷ []
    else []

append_hop-lines :
    (hop : AtaskHop) (lines : List String)
    → OneLineHop hop
    → (written : List String) × (append_hop hop lines ≡ returned written)
      × (all_lines written ≡ all_lines lines ++ hop_lines hop)
unfolding append_hop
append_hop-lines hop lines h =
    let entry =
      if hop.is_root && has_frames hop.await_frames
      then lines ++ "  -- entry point (no enclosing atask call) --" ∷ []
      else lines in
    let indent = "  " <> (marker hop.kind <> " ") in
    let call = format_frame (call_site hop) indent in
    let frames = append_frames hop.await_frames entry in
    let note = annotation hop (stamp_of hop) in
    let entered : all_lines entry ≡ all_lines lines ++ entry_lines hop =
      elim (Bool-cases (hop.is_root && has_frames hop.await_frames)) [
        | inl e ↦ rw e (
            all_lines-snoc lines "  -- entry point (no enclosing atask call) --"
            ∙ ap (λ xs. all_lines lines ++ xs)
                (split_all 10 "  -- entry point (no enclosing atask call) --" (unfold has in refl)))
        | inr e ↦ rw e (sym (append-nil (all_lines lines)))
      ] in
    let called : split 10 call ≡ frame_lines indent (call_site hop) =
      split-format_frame (call_site hop) indent (marker-OneLine hop.kind)
        (h.1.0, h.1.1, (unfold has in refl)) in
    let noted : split 10 note ≡ note ∷ [] = split_all 10 note (annotation-OneLine hop h) in
    let lines_of : all_lines ((frames ++ call ∷ []) ++ note ∷ [])
        ≡ all_lines lines ++ hop_lines hop =
      rw
        (
          all_lines-snoc (frames ++ call ∷ []) note,
          all_lines-snoc frames call,
          append_frames-lines hop.await_frames entry h.2,
          entered,
          called,
          noted,
        )
        (simp append_assoc) in
    ((frames ++ call ∷ []) ++ note ∷ [], rw (format_ts-utc hop.ts h.3, append_hop) refl, lines_of)

append_hops-lines :
    (hops : List AtaskHop) (lines : List String)
    → All OneLineHop hops
    → (written : List String) × (append_hops hops lines ≡ returned written)
      × (all_lines written ≡ all_lines lines ++ flat_map hop_lines hops)
unfolding append_hops flat_map
append_hops-lines [] lines h = (lines, refl, sym (append-nil (all_lines lines)))
append_hops-lines (hop ∷ hops) lines h =
    let (called, e, first) = append_hop-lines hop lines h.0 in
    let (written, e', rest) = append_hops-lines hops called h.1 in
    (
      written,
      ap (λ o. append_next o (append_hops hops)) e ∙ e',
      rest
          ∙ ap (λ xs. xs ++ flat_map hop_lines hops) first
          ∙ append_assoc (all_lines lines) (hop_lines hop) (flat_map hop_lines hops),
    )

all_lines-title : all_lines (title ∷ []) ≡ title ∷ []
unfolding flat_map has
all_lines-title = ap (λ xs. xs ++ []) (split_all 10 title refl)

describe-lines :
    (o : Option AtaskTrace)
    → OneLineTrace o
    → (written : List String) × (describe o (title ∷ []) ≡ returned written)
      × (all_lines written ≡ title ∷ trace_lines o)
unfolding describe
describe-lines none h = (
  title ∷ "  <no atask trace attached>" ∷ [],
  refl,
  all_lines-snoc (title ∷ []) "  <no atask trace attached>"
      ∙ ap (λ xs. xs ++ split 10 "  <no atask trace attached>") all_lines-title
      ∙ ap (λ xs. title ∷ xs) (split_all 10 "  <no atask trace attached>" (unfold has in refl)),
)
describe-lines (some info) h =
    let (lines, e, whole) = append_hops-lines info.hops (title ∷ []) h.1 in
    let last = append_frames info.raise_frames lines ++ raised_on info ∷ [] in
    let lines_of : all_lines last ≡ title ∷ trace_lines (some info) =
      rw
        (
          all_lines-snoc (append_frames info.raise_frames lines) (raised_on info),
          append_frames-lines info.raise_frames lines h.2,
          whole,
          all_lines-title,
          split_all 10 (raised_on info) (raised_on-OneLine info h.0),
        )
        (simp append_assoc) in
    (
      last,
      ap
          (λ o.
            append_next o
              λ called. returned (append_frames info.raise_frames called ++ raised_on info ∷ []))
          e,
      lines_of,
    )

split-join_snoc :
    (xs : List String) (s : String) → split 10 (join "\n" (xs ++ s ∷ [])) ≡ all_lines (xs ++ s ∷ [])
split-join_snoc [] s = split-join_any 10 "\n" s [] refl
split-join_snoc (x ∷ xs) s = split-join_any 10 "\n" x (xs ++ s ∷ []) refl

module _ (class_name str : PyException → String) where
  -- The lines of a rendered exception, where none of its texts has a line break and no
  -- hop was made after the year 9999, so that it can be rendered: the title, then
  -- for each hop, the root first, the frames that lead to its call, outermost first and each with
  -- its source line if it has one, the place of the call with the marker of its kind, and what was
  -- recorded of it, then the frames of what raised and the process that it raised in, and last the
  -- exception itself. Only before the frames of a root hop a line says that they come from outside.
  pub split-format_trace :
      (ex : PyException)
      → OneLineTrace (get_trace ex)
      → has 10 (class_name ex) ≡ false
      → has 10 (str ex) ≡ false
      → (text : String) × (format_trace class_name str ex ≡ returned text)
        × (split 10 text ≡ title ∷ (trace_lines (get_trace ex) ++ last_line class_name str ex ∷ []))
  unfolding format_trace
  split-format_trace ex h c m =
      let (described, e, lines_of) = describe-lines (get_trace ex) h in
      let last = last_line class_name str ex in
      let whole : split 10 last ≡ last ∷ [] =
        split_all 10 last (unfold has in simp (has-append, c, m)) in
      (
        join "\n" (described ++ last ∷ []),
        rw (e, format_trace) refl,
        split-join_snoc described last
            ∙ all_lines-snoc described last
            ∙ ap (λ xs. xs ++ split 10 last) lines_of
            ∙ ap (λ xs. title ∷ (trace_lines (get_trace ex) ++ xs)) whole,
      )
