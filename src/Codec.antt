-- ===== src/Codec.antt =====
-- atasks/codecs.py, `PickleCodec`: `pickle` is a parameter that may raise, and the codec turns what
-- it raises into `None`. What travels is a request, with its arguments and its chain of hops, or a
-- response, with its success flag and a value or an exception; `V` are the values of the program.
use atasks.Prelude.{ℕ, Bool, true, false, Option, none, some, List, [], ◌∷◌}
use atasks.Prelude.Dict.{Dict}
use atasks.Hop.{AtaskHop}
use atasks.Errors.{PyException, Outcome, returned, raised}

abbrev pub Bytes : Type 0
Bytes = List ℕ

pub data Payload (V : Type 0) : Type 0 where
  request : List V → Dict V → List AtaskHop → Payload V
  success : V → Payload V
  failure : PyException → Payload V

pub record Pickle (V : Type 0) : Type 0 where
  pub dumps : Payload V → Outcome Bytes
  pub loads : Bytes → Outcome (Payload V)

-- `if not response`: `None` and empty bytes are false.
abbrev pub is_true : Option Bytes → Bool
is_true none = false
is_true (some []) = false
is_true (some (_ ∷ _)) = true

module _ {V : Type 0} (pickle : Pickle V) where
  unfoldable pub encode : Payload V → Option Bytes
  encode obj = elim (pickle.dumps obj) [ returned bytes ↦ some bytes | raised _ ↦ none ]

  -- `pickle.loads(None)` raises too.
  unfoldable pub decode : Option Bytes → Option (Payload V)
  decode none = none
  decode (some content) = elim (pickle.loads content) [ returned obj ↦ some obj | raised _ ↦ none ]
