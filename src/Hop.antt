-- ===== src/Hop.antt =====
-- The records of atasks/trace.py that travel with a call or an exception: `FrameInfo`, `AtaskHop`
-- and `AtaskTrace`, and the three kinds of atask. A timestamp is a number of microseconds.
use atasks.Prelude.{ℕ, String, Bool, List}

pub data Kind : Type 0 where
  rpc queue broadcast : Kind

pub record FrameInfo : Type 0 where
  pub file : String
  pub line : ℕ
  pub func : String
  pub text : String

pub record AtaskHop : Type 0 where
  pub seq : ℕ
  pub call_id : String
  pub task : String
  pub namespace : String
  pub kind : Kind
  pub caller_file : String
  pub caller_line : ℕ
  pub caller_func : String
  pub host : String
  pub pid : ℕ
  pub ts : ℕ
  pub await_frames : List FrameInfo
  pub is_root : Bool

pub record AtaskTrace : Type 0 where
  pub hops : List AtaskHop
  pub raise_host : String
  pub raise_pid : ℕ
  pub raise_frames : List FrameInfo
