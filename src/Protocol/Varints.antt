-- ===== src/Protocol/Varints.antt =====
-- The variable-length integers of aiokafka/protocol/types.py: seven bits to a byte, the lowest first,
-- with the high bit set on all but the last.
pub mod RoundTrip
use aiokafka.Base.{
  ℕ, zero, suc, ◌+◌, ◌-◌, ◌*◌, ◌/◌, ◌%◌, ◌^◌, Bool, true, false, List, [], ◌∷◌, ◌++◌, ltb, eqb,
  if◌then◌else◌, ℤ, pos, negsuc, bit_and, bit_or, bit_xor,
}
use aiokafka.Base.{Result, ok, err, value_error, struct_error, Exec, continue, ◌>>=◌}
use aiokafka.Protocol.Reader.{Decoder}

-- `value &= 0xFFFFFFFF`, on an integer of either sign.
unfoldable pub mask32 : ℤ → ℕ
mask32 (pos n) = n % 2 ^ 32
mask32 (negsuc m) = 2 ^ 32 - 1 - m % 2 ^ 32

-- `while (value & 0xFFFFFF80) != 0`: four passes at most, since the value has 32 bits.
unfoldable pub unsigned_loop : ℕ → ℕ → List ℕ
unsigned_loop zero value = value ∷ []
unsigned_loop (suc fuel) value =
    let more = unsigned_loop fuel (value / 2 ^ 7) in
    if eqb (bit_and value 0xffffff80) 0 then value ∷ [] else bit_or (bit_and value 0x7f) 0x80 ∷ more

-- UnsignedVarInt32.encode, on the number and on what its mask leaves.
unfoldable pub encode_unsigned32 : ℕ → List ℕ
unfolding unsigned_loop
encode_unsigned32 value = unsigned_loop 4 value

unfoldable pub encode_unsigned : ℤ → List ℕ
encode_unsigned value = encode_unsigned32 (mask32 value)

-- `struct.unpack("B", data.read(1))` raises struct.error at the end of the buffer.
pub unsigned_decode : List ℕ → ℕ → ℕ → Result ℕ × List ℕ
unsigned_decode [] value i = (err struct_error, [])
unsigned_decode (b ∷ rest) value i =
    let more = unsigned_decode rest (bit_or value (bit_and b 0x7f * 2 ^ i)) (i + 7) in
    if eqb (bit_and b 0x80) 0
    then (ok (bit_or value (b * 2 ^ i)), rest)
    else if ltb 28 (i + 7)
    then (err value_error, rest)
    else more

-- UnsignedVarInt32.decode
pub decode_unsigned : Decoder ℕ
decode_unsigned bytes = unsigned_decode bytes 0 0

-- `(value >> 1) ^ -(value & 1)`
pub unzigzag : ℕ → ℤ
unzigzag value = if eqb (bit_and value 1) 0 then pos (value / 2) else negsuc (value / 2)

-- VarInt32
unfoldable pub encode_var32 : ℤ → List ℕ
encode_var32 value = let v = mask32 value in encode_unsigned (pos (bit_xor (v * 2) (v / 2 ^ 31)))

pub decode_var32 : Decoder ℤ
decode_var32 = do value ← decode_unsigned; λ s. (ok (unzigzag value), s)

-- VarInt64: the loop writes the low bits of `value`, which it does not shift. The shifted `v` has 65
-- bits, so the loop makes nine passes at most.
unfoldable pub mask64 : ℤ → ℕ
mask64 (pos n) = n % 2 ^ 64
mask64 (negsuc m) = 2 ^ 64 - 1 - m % 2 ^ 64

unfoldable pub var64_loop : ℕ → ℕ → ℕ → List ℕ
var64_loop zero value v = v ∷ []
var64_loop (suc fuel) value v =
    let more = var64_loop fuel value (v / 2 ^ 7) in
    if eqb (bit_and v 0xffff_ffff_ffff_ff80) 0
    then v ∷ []
    else bit_or (bit_and value 0x7f) 0x80 ∷ more

unfoldable pub encode_var64 : ℤ → List ℕ
encode_var64 value = let n = mask64 value in var64_loop 9 n (bit_xor (n * 2) (n / 2 ^ 63))

pub var64_decode : List ℕ → ℕ → ℕ → Result ℤ × List ℕ
var64_decode [] value i = (err struct_error, [])
var64_decode (b ∷ rest) value i =
    let more = var64_decode rest (bit_or value (bit_and b 0x7f * 2 ^ i)) (i + 7) in
    if eqb (bit_and b 0x80) 0
    then (ok (unzigzag (bit_or value (b * 2 ^ i))), rest)
    else if ltb 63 (i + 7)
    then (err value_error, rest)
    else more

pub decode_var64 : Decoder ℤ
decode_var64 bytes = var64_decode bytes 0 0
