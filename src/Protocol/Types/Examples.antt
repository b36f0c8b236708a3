-- ===== src/Protocol/Types/Examples.antt =====
-- Messages and numbers at concrete values.
use aiokafka.Base.{ℕ, ◌-◌, ◌^◌, ◌≡◌, refl, arith, List, [], ◌∷◌, ◌++◌, true, pos, negsuc, ok}
use aiokafka.Protocol.Types.{
  WireType, int32, string, boolean, compact_string, tagged_fields, array, schema, end, field, Value,
  null, int, bool, text, tags, tuple, items, nil, cons, Encoding, encode, encode_tags, encode_many,
  with_int_length, with_varint_length, count, count_fields,
}
use aiokafka.Protocol.Integers.{pack_int, be_bytes}
use aiokafka.Protocol.Types.Decode.{decode}
use aiokafka.Protocol.Types.Decode.RoundTrip.{decode-encode}
use aiokafka.Protocol.Varints.{
  encode_var32, decode_var32, encode_var64, encode_unsigned, encode_unsigned32, mask32, mask64,
  var64_loop,
}
use aiokafka.Protocol.Varints.RoundTrip.{decode-encode_var32_negative}

-- One byte for each code point, as latin-1 has it.
abbrev latin1 : Encoding
latin1 = record { encode_text = λ s. s; decode_text = λ bs. ok bs }

-- A correlation id, a client id, an array of topics with partitions, and a flag.
abbrev request : WireType
request = schema (
    field int32 (
      field string (
        field (array (schema (field string (field (array int32) end))))
          (field boolean (field compact_string end)))))

abbrev partitions : Value
partitions = items (cons (int (pos 0)) (cons (int (pos 7)) nil))

abbrev asked : Value
asked = tuple (
    cons (int (negsuc 4)) (
      cons null (
        cons (items (cons (tuple (cons (text (116 ∷ 49 ∷ [])) (cons partitions nil))) nil))
          (cons (bool true) (cons (text (120 ∷ [])) nil)))))

abbrev asked_bytes : List ℕ
asked_bytes =
    255 ∷ 255 ∷ 255 ∷ 251 ∷ 255 ∷ 255 ∷ 0 ∷ 0 ∷ 0 ∷ 1 ∷ 0 ∷ 2 ∷ 116 ∷ 49 ∷ 0 ∷ 0 ∷ 0 ∷ 2 ∷ 0 ∷ 0 ∷ 0
    ∷ 0 ∷ 0 ∷ 0 ∷ 0 ∷ 7 ∷ 1 ∷ 2 ∷ 120 ∷ []

asked-encode : encode latin1 request asked ≡ ok asked_bytes
unfolding encode count count_fields encode_many with_int_length with_varint_length pack_int be_bytes
    encode_unsigned mask32 encode_unsigned32
asked-encode = refl

decode-encode_example : decode latin1 request (asked_bytes ++ 9 ∷ []) ≡ (ok asked, 9 ∷ [])
decode-encode_example =
    decode-encode latin1 request asked asked_bytes (9 ∷ []) (λ s. refl) (omega arith) asked-encode

-- VarInt32 reads -1 back as -2 ^ 31.
decode-encode_var32_negative_example :
    decode_var32 (encode_var32 (negsuc 0) ++ []) ≡ (ok (negsuc (2 ^ 31 - 1 - 0)), [])
decode-encode_var32_negative_example = decode-encode_var32_negative 0 [] (omega arith)

-- The size of a tagged field is not written, and its first byte is read for it.
tags-decode : encode latin1 tagged_fields (tags ((1, 5 ∷ []) ∷ [])) ≡ ok (1 ∷ 1 ∷ 5 ∷ [])
unfolding encode encode_tags encode_unsigned mask32 encode_unsigned32
tags-decode = refl

-- VarInt64 writes the low bits of the number itself, not those of its zigzag.
varint64-encode : encode_var64 (pos 64) ≡ 192 ∷ 1 ∷ []
unfolding encode_var64 mask64 var64_loop
varint64-encode = refl
