-- ===== src/Frames.antt =====
-- atasks/trace.py, the frames of a hop: which files are filtered out, the snapshot of one frame,
-- and the two walks, up a stack and down a traceback. A live frame is known by its identity; the
-- chain of `f_back` and the chain of `tb_next` are lists.
pub mod Laws
use Prim.Native.Char.{Char, code}
use Prim.Native.String.{◌++◌ as ◌<>◌}
use mathlib.Core.List.{reverse}
use text.Mathlib.Text.{starts_with}
use atasks.Prelude.{
  ℕ, String, Bool, true, false, ◌&&◌, ◌||◌, not, Option, none, some, List, [], ◌∷◌, ◌++◌, map, ◌==◌,
  leb, nat_eq, if◌then◌else◌,
}
use atasks.Prelude.Lists.{contains}
use atasks.Prelude.Text.{strip}
use atasks.Hop.{FrameInfo}

-- What the code asks of the import system, the file system and the source cache.
pub record ModuleSpec : Type 0 where
  pub submodule_search_locations : Option (List String)
  pub origin : Option String

pub record Machine : Type 0 where
  -- `importlib.util.find_spec`; `none` also where it raises `ImportError` or `ValueError`.
  pub find_spec : String → Option ModuleSpec
  -- `os.path.normpath`
  pub normpath : String → String
  -- `linecache.getline`
  pub getline : String → ℕ → String

pub record Frame : Type 0 where
  pub ident : ℕ
  pub co_filename : String
  pub f_lineno : ℕ
  pub co_name : String

-- One entry of a traceback: `tb_frame` and `tb_lineno`.
pub record TracebackEntry : Type 0 where
  pub tb_frame : Frame
  pub tb_lineno : ℕ

abbrev locations : Option (List String) → List String
locations none = []
locations (some ps) = ps

abbrev origin_path : Option String → List String
origin_path none = []
origin_path (some o) = if o == "" || contains o ("built-in" ∷ "frozen" ∷ []) then [] else o ∷ []

-- `collected.append(info)`, if it is not `None`
abbrev pub add : Option FrameInfo → List FrameInfo → List FrameInfo
add none collected = collected
add (some info) collected = collected ++ info ∷ []

-- `frame is boundary`
abbrev pub is_boundary : Frame → Option ℕ → Bool
is_boundary frame none = false
is_boundary frame (some b) = nat_eq frame.ident b

module _ (m : Machine) where
  unfoldable pub module_paths : String → List String
  module_paths module_name = elim (m.find_spec module_name) [
    | none ↦ []
    | some spec ↦
        map m.normpath (locations spec.submodule_search_locations ++ origin_path spec.origin)
  ]

  unfoldable pub filter_roots : List String → List String
  filter_roots [] = []
  filter_roots (module_name ∷ rest) = module_paths module_name ++ filter_roots rest

  -- The loop over the roots in `_is_filtered`.
  unfoldable pub under_root : String → List String → Bool
  under_root normalized [] = false
  under_root normalized (root ∷ roots) =
      (normalized == root || starts_with normalized (root <> "/")) || under_root normalized roots

  unfoldable pub is_filtered : String → List String → Bool
  unfolding under_root filter_roots module_paths
  is_filtered filename [] = false
  is_filtered filename (name ∷ names) =
      under_root (m.normpath filename) (filter_roots (name ∷ names))

  unfoldable pub frame_info : Frame → ℕ → List String → Option FrameInfo
  frame_info frame lineno filter_modules =
      if is_filtered frame.co_filename filter_modules
      then none
      else some (record {
        file = frame.co_filename;
        line = lineno;
        func = frame.co_name;
        text = strip (m.getline frame.co_filename lineno);
      })

  -- The loop of `_walk_frames_until`, over the frame and those above it.
  until : List Frame → Option ℕ → List String → List FrameInfo → List FrameInfo
  until [] boundary filter_modules collected = collected
  until (frame ∷ f_back) boundary filter_modules collected =
      let rest =
        until f_back boundary filter_modules
          (add (frame_info frame frame.f_lineno filter_modules) collected) in
      if is_boundary frame boundary then collected else rest

  unfoldable pub walk_frames_until : List Frame → Option ℕ → List String → List FrameInfo
  unfolding until
  walk_frames_until frames boundary filter_modules =
      reverse (until frames boundary filter_modules [])

  -- The loop of `_walk_traceback_after`.
  after : List TracebackEntry → Option ℕ → List String → Bool → List FrameInfo → List FrameInfo
  after [] boundary filter_modules skipping collected = collected
  after (tb ∷ tb_next) boundary filter_modules true collected =
      after tb_next boundary filter_modules (not (is_boundary tb.tb_frame boundary)) collected
  after (tb ∷ tb_next) boundary filter_modules false collected =
      after tb_next boundary filter_modules false
        (add (frame_info tb.tb_frame tb.tb_lineno filter_modules) collected)

  abbrev is_not_none : Option ℕ → Bool
  is_not_none none = false
  is_not_none (some _) = true

  unfoldable pub walk_traceback_after :
      List TracebackEntry → Option ℕ → List String → List FrameInfo
  unfolding after
  walk_traceback_after tb boundary filter_modules =
      after tb boundary filter_modules (is_not_none boundary) []
