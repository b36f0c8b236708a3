-- ===== src/Record/Varint/Examples.antt =====
-- Concrete runs of the codec, and the theorems at concrete numbers.
use aiokafka.Base.{
  ◌-◌, ◌+◌, ◌^◌, ◌≡◌, refl, arith, [], ◌∷◌, ◌++◌, length, pos, negsuc, ok, leb, if◌then◌else◌,
}
use aiokafka.Record.Varint.{zigzag, encode_unsigned, encode_varint, size_of_varint, decode_varint}
use aiokafka.Record.Varint.RoundTrip.{decode_varint-encode_varint, encode_varint_result}

-- -65 takes two bytes.
encode_two : encode_varint (negsuc 64) ≡ (0x81 ∷ 0x01 ∷ [], 2)
unfolding encode_varint zigzag encode_unsigned
encode_two = refl

-- The first number that takes six bytes is reported as five.
encode_six : encode_varint (pos (2 ^ 34)) ≡ (0x80 ∷ 0x80 ∷ 0x80 ∷ 0x80 ∷ 0x80 ∷ 0x01 ∷ [], 5)
unfolding encode_varint zigzag encode_unsigned
encode_six = refl

decode_varint-encode_varint_example :
    decode_varint ((7 ∷ []) ++ ((encode_varint (negsuc 64)).0 ++ (9 ∷ []))) 1
    ≡ ok (negsuc 64, 1 + length (encode_varint (negsuc 64)).0)
decode_varint-encode_varint_example =
    decode_varint-encode_varint (negsuc 64) (7 ∷ []) (9 ∷ []) (omega arith)

encode_varint_result_example : (encode_varint (pos (2 ^ 34))).1 ≡ (
    if leb (size_of_varint (pos (2 ^ 34))) 5
    then length (encode_varint (pos (2 ^ 34))).0
    else length (encode_varint (pos (2 ^ 34))).0 - 1)
encode_varint_result_example = encode_varint_result (pos (2 ^ 34)) (omega arith)
