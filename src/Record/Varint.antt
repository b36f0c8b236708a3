-- ===== src/Record/Varint.antt =====
-- aiokafka/record/util.py: the zigzag varints of record batches. `write` is called once for each byte
-- in order, so the encoder returns the bytes that it wrote and its own result.
pub mod Shape
pub mod RoundTrip
mod Examples
use aiokafka.Base.{
  ℕ, zero, suc, ◌+◌, ◌-◌, ◌*◌, ◌/◌, ◌%◌, ◌^◌, ◌<◌, Bool, true, false, List, [], ◌∷◌, ◌++◌,
}
use aiokafka.Base.{bit_and, bit_or, bit_xor, leb, ltb, eqb, if◌then◌else◌, ℤ, pos, negsuc, drop}
use aiokafka.Base.{Result, ok, err, index_error, value_error}

-- `(value << 1) ^ (value >> 63)`. A negative number is the complement of the number of its constructor,
-- `-(m + 1)` of m, and so are its shifts; the exclusive or of two complements is that of the numbers.
unfoldable pub zigzag : ℤ → ℕ
zigzag (pos n) = bit_xor (n * 2) (n / 2 ^ 63)
zigzag (negsuc m) = bit_xor (m * 2 + 1) (m / 2 ^ 63)

-- `0x80 | (value & 0x7F)`
group : ℕ → ℕ
group value = bit_or 0x80 (bit_and value 0x7f)

-- `while value: ...; write(bits); return i`, on fuel.
encode_loop : ℕ → ℕ → ℕ → ℕ → List ℕ × ℕ
encode_loop zero value bits i = (bits ∷ [], i)
encode_loop (suc fuel) value bits i = elim (eqb value 0) [
  | true ↦ (bits ∷ [], i)
  | false ↦
      let more = encode_loop fuel (value / 128) (bit_and value 0x7f) (i + 1) in
      (bit_or 0x80 bits ∷ more.0, more.1)
]

-- The bytes of the encoded number, and what `encode_varint_py` returns.
unfoldable pub encode_unsigned : ℕ → List ℕ × ℕ
unfolding encode_loop group
encode_unsigned value =
    if leb value 0x7f
    then (value ∷ [], 1)
    else if leb value 0x3fff
    then (group value ∷ value / 2 ^ 7 ∷ [], 2)
    else if leb value 0x1fffff
    then (group value ∷ group (value / 2 ^ 7) ∷ value / 2 ^ 14 ∷ [], 3)
    else if leb value 0xfffffff
    then (group value ∷ group (value / 2 ^ 7) ∷ group (value / 2 ^ 14) ∷ value / 2 ^ 21 ∷ [], 4)
    else if leb value 0x7ffffffff
    then (
      group value
          ∷ group (value / 2 ^ 7)
          ∷ group (value / 2 ^ 14)
          ∷ group (value / 2 ^ 21)
          ∷ value / 2 ^ 28
          ∷ [],
      5,
    )
    else encode_loop value (value / 128) (bit_and value 0x7f) 0

unfoldable pub encode_varint : ℤ → List ℕ × ℕ
encode_varint value = encode_unsigned (zigzag value)

unfoldable pub size_of_unsigned : ℕ → ℕ
size_of_unsigned value =
    if leb value 0x7f
    then 1
    else if leb value 0x3fff
    then 2
    else if leb value 0x1fffff
    then 3
    else if leb value 0xfffffff
    then 4
    else if leb value 0x7ffffffff
    then 5
    else if leb value 0x3ffffffffff
    then 6
    else if leb value 0x1ffffffffffff
    then 7
    else if leb value 0xffffffffffffff
    then 8
    else if leb value 0x7fffffffffffffff
    then 9
    else 10

unfoldable pub size_of_varint : ℤ → ℕ
size_of_varint value = size_of_unsigned (zigzag value)

-- `(result >> 1) ^ -(result & 1)`: an exclusive or with -1 is the complement.
pub unzigzag : ℕ → ℤ
unzigzag result = if eqb (bit_and result 1) 0 then pos (result / 2) else negsuc (result / 2)

-- The bytes are those of the buffer from the position p on.
decode_loop : List ℕ → ℕ → ℕ → ℕ → Result (ℤ × ℕ)
decode_loop [] result p shift = err index_error
decode_loop (b ∷ rest) result p shift =
    let result' = bit_or result (bit_and b 0x7f * 2 ^ shift) in
    let more = decode_loop rest result' (p + 1) (shift + 7) in
    if eqb (bit_and b 0x80) 0
    then ok (unzigzag result', p + 1)
    else if leb 64 (shift + 7)
    then err value_error
    else more

decode_from : List ℕ → ℕ → Result (ℤ × ℕ)
decode_from [] p = err index_error
decode_from (b ∷ rest) p =
    if eqb (bit_and b 0x81) 0
    then ok (pos (b / 2), p + 1)
    else if eqb (bit_and b 0x80) 0
    then ok (negsuc (b / 2), p + 1)
    else decode_loop rest (bit_and b 0x7f) (p + 1) 7

pub decode_varint : List ℕ → ℕ → Result (ℤ × ℕ)
decode_varint buffer p = decode_from (drop p buffer) p
