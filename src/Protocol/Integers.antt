-- ===== src/Protocol/Integers.antt =====
-- The fixed integers of aiokafka/protocol/types.py. `struct` packs them in the order of the network;
-- a number out of range, or a buffer that is too short, is a ValueError. The width is k + 1 bytes:
-- Int8, Int16, Int32 and Int64 have k = 0, 1, 3 and 7.
pub mod RoundTrip
use aiokafka.Base.{
  ℕ, zero, suc, ◌+◌, ◌-◌, ◌*◌, ◌/◌, ◌%◌, ◌^◌, Bool, true, false, List, [], ◌∷◌, ◌++◌, length, ltb,
  eqb, if◌then◌else◌, ℤ, pos, negsuc,
}
use aiokafka.Base.{Result, ok, err, value_error, Exec, continue, ◌>>=◌}
use aiokafka.Protocol.Reader.{Decoder, read}

-- The last w bytes of v, the highest first, and back.
unfoldable pub be_bytes : ℕ → ℕ → List ℕ
be_bytes zero v = []
be_bytes (suc w) v = be_bytes w (v / 256) ++ (v % 256) ∷ []

pub be_value : ℕ → List ℕ → ℕ
be_value acc [] = acc
be_value acc (b ∷ bytes) = be_value (acc * 256 + b) bytes

-- `struct.Struct(">b").pack` and its like: two's complement.
unfoldable pub pack_int : ℕ → ℤ → Result (List ℕ)
pack_int k (pos n) = if ltb n (128 * 256 ^ k) then ok (be_bytes (suc k) n) else err value_error
pack_int k (negsuc m) =
    if ltb m (128 * 256 ^ k) then ok (be_bytes (suc k) (256 * 256 ^ k - 1 - m)) else err value_error

pub signed : ℕ → ℕ → ℤ
signed k v = if ltb v (128 * 256 ^ k) then pos v else negsuc (256 * 256 ^ k - 1 - v)

pub unpack_int : ℕ → List ℕ → Result ℤ
unpack_int k bytes =
    if eqb (length bytes) (suc k) then ok (signed k (be_value 0 bytes)) else err value_error

pub decode_int : ℕ → Decoder ℤ
decode_int k = do bytes ← read (suc k); λ s. (unpack_int k bytes, s)

-- UInt32
unfoldable pub pack_uint32 : ℤ → Result (List ℕ)
pack_uint32 (pos n) = if ltb n (2 ^ 32) then ok (be_bytes 4 n) else err value_error
pack_uint32 (negsuc m) = err value_error

pub unpack_uint32 : List ℕ → Result ℤ
unpack_uint32 bytes = if eqb (length bytes) 4 then ok (pos (be_value 0 bytes)) else err value_error

pub decode_uint32 : Decoder ℤ
decode_uint32 = do bytes ← read 4; λ s. (unpack_uint32 bytes, s)
