-- ===== src/Record/ControlRecord.antt =====
-- aiokafka/record/control_record.py: the key of a control record, two unsigned numbers of 16 bits.
use aiokafka.Base.{
  ℕ, ◌+◌, ◌*◌, Bool, Option, none, some, List, ◌∷◌, eqb, ◌&&◌, Result, ok, err, struct_error,
  type_error,
}

pub record ControlRecord : Type 0 where
  pub version : ℕ
  pub type : ℕ

abbrev pub same_control : ControlRecord → ControlRecord → Bool
same_control a b = eqb b.version a.version && eqb b.type a.type

unfoldable pub parse : Option (List ℕ) → Result ControlRecord
parse (some (a ∷ b ∷ c ∷ d ∷ rest)) = ok (record { version = a * 256 + b; type = c * 256 + d })
parse (some l) = err struct_error
parse none = err type_error

abbrev pub abort_marker : ControlRecord
abort_marker = record { version = 0; type = 0 }
