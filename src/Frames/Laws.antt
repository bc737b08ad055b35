-- ===== src/Frames/Laws.antt =====
-- Laws of the two walks of atasks/trace.py over frames.
use mathlib.Core.List.{reverse, append-nil, append_assoc}
use atasks.Prelude.{
  ℕ, String, ◌≡◌, refl, sym, ◌∙◌, true, false, Option, none, some, List, [], ◌∷◌, ◌++◌, arith,
}
use atasks.Prelude.Lists.{All}
use atasks.Hop.{FrameInfo}
use atasks.Frames.{
  Machine, Frame, TracebackEntry, frame_info, add, is_boundary, until, walk_frames_until, after,
  walk_traceback_after,
}

add-append :
    (o : Option FrameInfo) (xs ys : List FrameInfo) → add o xs ++ ys ≡ xs ++ (add o [] ++ ys)
add-append none xs ys = refl
add-append (some i) xs ys = append_assoc xs (i ∷ []) ys

is_boundary_self : (f : Frame) → is_boundary f (some f.ident) ≡ true
is_boundary_self f = ground arith

module _ (m : Machine) (filter_modules : List String) where
  -- The snapshots of the frames that are not filtered out.
  abbrev pub snapshots : List Frame → List FrameInfo
  snapshots [] = []
  snapshots (frame ∷ frames) =
      add (frame_info m frame frame.f_lineno filter_modules) [] ++ snapshots frames

  abbrev pub tb_snapshots : List TracebackEntry → List FrameInfo
  tb_snapshots [] = []
  tb_snapshots (tb ∷ tbs) =
      add (frame_info m tb.tb_frame tb.tb_lineno filter_modules) [] ++ tb_snapshots tbs

  until-inner :
      (inner outer : List Frame) (entry : Frame) (collected : List FrameInfo)
      → All (λ f. is_boundary f (some entry.ident) ≡ false) inner
      → until m (inner ++ entry ∷ outer) (some entry.ident) filter_modules collected
        ≡ collected ++ snapshots inner
  unfolding until
  until-inner [] outer entry collected h =
      ground (arith, append-nil collected, is_boundary_self entry)
  until-inner (f ∷ inner) outer entry collected h =
      rw (h.0, until)
        (until-inner inner outer entry _ h.1
          ∙ add-append (frame_info m f f.f_lineno filter_modules) collected (snapshots inner))

  -- The frames that lead to a call inside a handler end at the handler's own entry: those above
  -- the entry change nothing, and those below it come outermost first.
  pub walk_frames_until-entry :
      (inner outer : List Frame) (entry : Frame)
      → All (λ f. is_boundary f (some entry.ident) ≡ false) inner
      → walk_frames_until m (inner ++ entry ∷ outer) (some entry.ident) filter_modules
        ≡ reverse (snapshots inner)
  unfolding walk_frames_until
  walk_frames_until-entry inner outer entry h = rw (until-inner inner outer entry [] h)

  after-keep :
      (tbs : List TracebackEntry) (boundary : Option ℕ) (collected : List FrameInfo)
      → after m tbs boundary filter_modules false collected ≡ collected ++ tb_snapshots tbs
  unfolding after
  after-keep [] boundary collected = sym (append-nil collected)
  after-keep (tb ∷ tbs) boundary collected = after-keep tbs boundary _ ∙ add-append _ collected _

  after-skip :
      (outer inner : List TracebackEntry) (entry : TracebackEntry)
      → All (λ t. is_boundary t.tb_frame (some entry.tb_frame.ident) ≡ false) outer
      → after m (outer ++ entry ∷ inner) (some entry.tb_frame.ident) filter_modules true []
        ≡ tb_snapshots inner
  unfolding after
  after-skip [] inner entry h = rw (is_boundary_self entry.tb_frame, after) (after-keep inner _ [])
  after-skip (t ∷ outer) inner entry h = rw (h.0, after) (after-skip outer inner entry h.1)

  -- The frames of what was raised inside a handler begin after the handler's own entry: those down
  -- to the entry change nothing, and those after it come in the order of the traceback.
  pub walk_traceback_after-entry :
      (outer inner : List TracebackEntry) (entry : TracebackEntry)
      → All (λ t. is_boundary t.tb_frame (some entry.tb_frame.ident) ≡ false) outer
      → walk_traceback_after m (outer ++ entry ∷ inner) (some entry.tb_frame.ident) filter_modules
        ≡ tb_snapshots inner
  unfolding walk_traceback_after
  walk_traceback_after-entry outer inner entry h = after-skip outer inner entry h
