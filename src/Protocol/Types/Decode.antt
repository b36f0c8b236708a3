-- ===== src/Protocol/Types/Decode.antt =====
-- The `decode` methods of aiokafka/protocol/types.py.
pub mod RoundTrip
use aiokafka.Base.{
  ℕ, zero, suc, ◌+◌, Bool, true, false, List, [], ◌∷◌, length, ltb, eqb, if◌then◌else◌, ℤ, pos,
  negsuc,
}
use aiokafka.Base.{Result, ok, err, value_error, Exec, pure, raise, continue, ◌>>=◌}
use aiokafka.Base.Keys.{nat_eq}
use aiokafka.Base.Dict
use aiokafka.Base.Dict.{Dict}
use aiokafka.Protocol.Reader.{Decoder, read}
use aiokafka.Protocol.Integers.{decode_int, decode_uint32}
use aiokafka.Protocol.Varints.{decode_unsigned, decode_var32, decode_var64}
use aiokafka.Protocol.Types.{
  WireType, int8, int16, int32, uint32, int64, boolean, string, bytes, unsigned_varint32, varint32,
  varint64, compact_string, compact_bytes, tagged_fields, array, compact_array, schema, Fields, end,
  field, Value, null, int, bool, text, raw, tags, tuple, items, Values, nil, cons, Encoding,
}

-- `struct.Struct(">?").unpack`
unpack_bool : List ℕ → Result Value
unpack_bool (b ∷ []) = ok (bool (if eqb b 0 then false else true))
unpack_bool _ = err value_error

pub decode_bool : Decoder Value
unfolding unpack_bool
decode_bool = do data_read ← read 1; λ s. (unpack_bool data_read, s)

-- `value = data.read(length)`, and ValueError on an underrun.
pub read_exactly : ℕ → Decoder (List ℕ)
read_exactly n = do value ← read n; if eqb (length value) n then pure value else raise value_error

-- After a signed length that is None if it is negative.
pub sized : ℤ → (List ℕ → Decoder Value) → Decoder Value
sized (negsuc m) found = pure null
sized (pos n) found = do value ← read_exactly n; found value

-- After an unsigned length, one more than the bytes that follow.
pub compact_sized : ℕ → (List ℕ → Decoder Value) → Decoder Value
compact_sized zero found = pure null
compact_sized (suc n) found = do value ← read_exactly n; found value

-- `[self.array_of.decode(data) for _ in range(length)]`
pub decode_many : ℕ → Decoder Value → Decoder Values
decode_many zero decode = pure nil
decode_many (suc n) decode = do v ← decode; vs ← decode_many n decode; pure (cons v vs)

-- `-1` is None; `range` of any other negative number is empty.
pub decode_array : ℤ → Decoder Value → Decoder Value
decode_array (negsuc zero) decode = pure null
decode_array (negsuc (suc m)) decode = pure (items nil)
decode_array (pos n) decode = do vs ← decode_many n decode; pure (items vs)

pub decode_compact_array : ℕ → Decoder Value → Decoder Value
decode_compact_array zero decode = pure null
decode_compact_array (suc n) decode = do vs ← decode_many n decode; pure (items vs)

-- `low` is `prev_tag + 1`.
pub decode_tags : ℕ → ℕ → Dict ℕ (List ℕ) → Decoder (Dict ℕ (List ℕ))
decode_tags zero low ret = pure ret
decode_tags (suc n) low ret = do
  tag ← decode_unsigned
  let rest = λ (val : List ℕ). decode_tags n (tag + 1) (Dict.put ret tag val)
  size ← if ltb tag low then raise value_error else decode_unsigned
  val ← read size
  rest val

abbrev pub text_value : Result (List ℕ) → Result Value
text_value (ok s) = ok (text s)
text_value (err e) = err e

module _ (encoding : Encoding) where
  -- `value.decode(self.encoding)`
  pub decode_value : List ℕ → Decoder Value
  decode_value value s = (text_value (encoding.decode_text value), s)

  mutual
    pub decode : WireType → Decoder Value
    decode int8 = do n ← decode_int 0; pure (int n)
    decode int16 = do n ← decode_int 1; pure (int n)
    decode int32 = do n ← decode_int 3; pure (int n)
    decode uint32 = do n ← decode_uint32; pure (int n)
    decode int64 = do n ← decode_int 7; pure (int n)
    decode boolean = decode_bool
    decode string = do n ← decode_int 1; sized n decode_value
    decode bytes = do n ← decode_int 3; sized n (λ b. pure (raw b))
    decode unsigned_varint32 = do n ← decode_unsigned; pure (int (pos n))
    decode varint32 = do n ← decode_var32; pure (int n)
    decode varint64 = do n ← decode_var64; pure (int n)
    decode compact_string = do n ← decode_unsigned; compact_sized n decode_value
    decode compact_bytes = do n ← decode_unsigned; compact_sized n (λ b. pure (raw b))
    decode tagged_fields = do n ← decode_unsigned; d ← decode_tags n 0 []; pure (tags d)
    decode (array t) = do n ← decode_int 3; decode_array n (decode t)
    decode (compact_array t) = do n ← decode_unsigned; decode_compact_array n (decode t)
    decode (schema fs) = do vs ← decode_fields fs; pure (tuple vs)

    pub decode_fields : Fields → Decoder Values
    decode_fields end = pure nil
    decode_fields (field t fs) = do v ← decode t; vs ← decode_fields fs; pure (cons v vs)
