-- ===== src/Protocol/Types.antt =====
-- aiokafka/protocol/types.py: the types of the fields of a message, what each writes for a value, and what
-- it reads. Float64 is left out, and so are the names of a schema's fields, which only `repr` reads.

pub mod Decode
mod Examples
use aiokafka.Base.{
  ℕ, zero, suc, ◌+◌, Bool, true, false, Option, none, some, List, [], ◌∷◌, ◌++◌, length, ltb, eqb,
  if◌then◌else◌, ℤ, pos, negsuc,
}
use aiokafka.Base.{
  Result, ok, err, value_error, type_error, assertion_error, Exec, pure, raise, continue, ◌>>=◌,
}
use aiokafka.Base.Keys.{nat_eq}
use aiokafka.Base.Dict
use aiokafka.Base.Dict.{Dict}
use aiokafka.Protocol.Reader.{Decoder, read, ◌>>=◌ as ◌then_do◌}
use aiokafka.Protocol.Integers.{pack_int, decode_int, pack_uint32, decode_uint32}
use aiokafka.Protocol.Varints.{
  encode_unsigned, decode_unsigned, encode_var32, decode_var32, encode_var64, decode_var64,
}

mutual
  pub data WireType : Type 0 where
    int8 int16 int32 uint32 int64 boolean string bytes : WireType
    unsigned_varint32 varint32 varint64 compact_string compact_bytes tagged_fields : WireType
    array compact_array : WireType → WireType
    schema : Fields → WireType

  pub data Fields : Type 0 where
    end : Fields
    field : WireType → Fields → Fields

-- Python's values: a text is the list of its code points, and a sequence is a tuple for a schema and
-- a list for an array.
mutual
  pub data Value : Type 0 where
    null : Value
    int : ℤ → Value
    bool : Bool → Value
    text : List ℕ → Value
    raw : List ℕ → Value
    tags : List (ℕ × List ℕ) → Value
    tuple : Values → Value
    items : Values → Value

  pub data Values : Type 0 where
    nil : Values
    cons : Value → Values → Values

pub count : Values → ℕ
count nil = 0
count (cons v vs) = suc (count vs)

pub count_fields : Fields → ℕ
count_fields end = 0
count_fields (field t fs) = suc (count_fields fs)

-- `self.encoding`: `str.encode` and `bytes.decode`.
pub record Encoding : Type 0 where
  pub encode_text : List ℕ → List ℕ
  pub decode_text : List ℕ → Result (List ℕ)

-- A length and the bytes themselves.
pub with_int_length : ℕ → List ℕ → Result (List ℕ)
with_int_length k value = pack_int k (pos (length value)) then_do λ head. ok (head ++ value)

pub with_varint_length : List ℕ → List ℕ
with_varint_length value = encode_unsigned (pos (length value + 1)) ++ value

-- TaggedFields.encode, which writes a tag and its bytes, and not how many they are.
pub encode_tags : List (ℕ × List ℕ) → Result (List ℕ)
encode_tags [] = ok []
encode_tags ((k, v) ∷ rest) =
    if ltb 0 k
    then (encode_tags rest then_do λ more. ok ((encode_unsigned (pos k) ++ v) ++ more))
    else err assertion_error

pub encode_many : (Value → Result (List ℕ)) → Values → Result (List ℕ)
encode_many encode nil = ok []
encode_many encode (cons v vs) =
    encode v then_do λ head. encode_many encode vs then_do λ more. ok (head ++ more)

module _ (encoding : Encoding) where
  -- Values of a kind that the type is not made for are outside the model: a type error stands for
  -- what they give.
  mutual
    pub encode : WireType → Value → Result (List ℕ)
    encode int8 (int n) = pack_int 0 n
    encode int16 (int n) = pack_int 1 n
    encode int32 (int n) = pack_int 3 n
    encode uint32 (int n) = pack_uint32 n
    encode int64 (int n) = pack_int 7 n
    encode boolean (bool b) = ok ((if b then 1 else 0) ∷ [])
    encode string null = pack_int 1 (negsuc 0)
    encode string (text s) = with_int_length 1 (encoding.encode_text s)
    encode bytes null = pack_int 3 (negsuc 0)
    encode bytes (raw b) = with_int_length 3 b
    encode unsigned_varint32 (int n) = ok (encode_unsigned n)
    encode varint32 (int n) = ok (encode_var32 n)
    encode varint64 (int n) = ok (encode_var64 n)
    encode compact_string null = ok (encode_unsigned (pos 0))
    encode compact_string (text s) = ok (with_varint_length (encoding.encode_text s))
    encode compact_bytes null = ok (encode_unsigned (pos 0))
    encode compact_bytes (raw b) = ok (with_varint_length b)
    encode tagged_fields (tags d) =
        encode_tags d then_do λ more. ok (encode_unsigned (pos (length d)) ++ more)
    encode (array t) null = pack_int 3 (negsuc 0)
    encode (array t) (items vs) = pack_int 3 (pos (count vs)) then_do λ head.
        encode_many (encode t) vs then_do λ more. ok (head ++ more)
    encode (compact_array t) null = ok (encode_unsigned (pos 0))
    encode (compact_array t) (items vs) =
        encode_many (encode t) vs then_do λ more. ok (encode_unsigned (pos (count vs + 1)) ++ more)
    encode (schema fs) (tuple vs) =
        if eqb (count vs) (count_fields fs) then encode_fields fs vs else err value_error
    encode _ _ = err type_error

    pub encode_fields : Fields → Values → Result (List ℕ)
    encode_fields end vs = ok []
    encode_fields (field t fs) nil = ok []
    encode_fields (field t fs) (cons v vs) =
        encode t v then_do λ head. encode_fields fs vs then_do λ more. ok (head ++ more)
