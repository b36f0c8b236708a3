-- ===== src/Protocol/Varints/RoundTrip.antt =====
-- Which variable-length integers read back.
use aiokafka.Base.{
  ℕ, zero, suc, ◌+◌, ◌-◌, ◌*◌, ◌/◌, ◌%◌, ◌^◌, ◌<◌, ◌≤◌, ◌≡◌, refl, ap, ◌∙◌, arith, List, [], ◌∷◌,
  ◌++◌, pos, negsuc, ok, bit_and, bit_or, bit_xor,
}
use aiokafka.Base.Bits.{
  bit_and_group, bit_and_flag, bit_or_above, bit_or_flag_right, bit_and_above, bit_and_parity,
  bit_xor-zero, bit_xor_one, bit_and_above_none,
}
use aiokafka.Base.Groups.{low_and_rest, acc_fits}
use native.Mathlib.Nat.{pow-suc}
use aiokafka.Protocol.Varints.{
  mask32, unsigned_loop, encode_unsigned32, encode_unsigned, unsigned_decode, decode_unsigned,
  unzigzag, encode_var32, decode_var32, encode_var64, decode_var64, var64_loop, var64_decode,
  mask64,
}

last_byte :
    (v acc i : ℕ) (rest : List ℕ)
    → v < 128
    → acc < 2 ^ i
    → unsigned_decode (v ∷ rest) acc i ≡ (ok (acc + v * 2 ^ i), rest)
unfolding unsigned_decode
last_byte v acc i rest h a = ground (arith, bit_and_flag v, bit_or_above i acc v)

more_bytes :
    (v acc i : ℕ) (rest : List ℕ)
    → acc < 2 ^ i
    → i + 7 ≤ 28
    → unsigned_decode (bit_or (bit_and v 0x7f) 0x80 ∷ rest) acc i
      ≡ unsigned_decode rest (acc + v % 128 * 2 ^ i) (i + 7)
unfolding unsigned_decode
more_bytes v acc i rest a b = ground (
  arith,
  bit_and_group v,
  bit_or_flag_right (v % 128),
  bit_and_group (v % 128 + 128),
  bit_and_flag (v % 128 + 128),
  bit_or_above i acc (v % 128),
)

unsigned_loop-decode :
    (k v acc i : ℕ) (rest : List ℕ)
    → v < 128 ^ suc k
    → v < 2 ^ 32
    → acc < 2 ^ i
    → i + 7 * k ≤ 28
    → unsigned_decode (unsigned_loop k v ++ rest) acc i ≡ (ok (acc + v * 2 ^ i), rest)
unfolding unsigned_loop
unsigned_loop-decode zero v acc i rest h g a b = last_byte v acc i rest (omega arith) a
unsigned_loop-decode (suc k) v acc i rest h g a b = ground (
  arith,
  bit_and_above v,
  last_byte v acc i rest,
  more_bytes v acc i (unsigned_loop k (v / 128) ++ rest),
  pow-suc 128 (suc k),
  low_and_rest v i,
  acc_fits acc (v % 128) i,
  unsigned_loop-decode k (v / 128) (acc + v % 128 * 2 ^ i) (i + 7) rest,
)

-- A 32-bit number reads back.
pub decode-encode_unsigned32 :
    (v : ℕ) (rest : List ℕ)
    → v < 2 ^ 32
    → decode_unsigned (encode_unsigned32 v ++ rest) ≡ (ok v, rest)
unfolding decode_unsigned encode_unsigned32
decode-encode_unsigned32 v rest h =
    unsigned_loop-decode 4 v 0 0 rest (omega arith) h (omega arith) (omega arith)
    ∙ ap (λ t. (ok t, rest)) (low v)
  where
    low : (t : ℕ) → 0 + t * 2 ^ 0 ≡ t
    low t = omega arith

pub decode-encode_unsigned :
    (n : ℕ) (rest : List ℕ)
    → n < 2 ^ 32
    → decode_unsigned (encode_unsigned (pos n) ++ rest) ≡ (ok n, rest)
unfolding encode_unsigned mask32
decode-encode_unsigned n rest h = rw (low_32 n h) (decode-encode_unsigned32 n rest h)
  where
    low_32 : (n : ℕ) → n < 2 ^ 32 → n % 2 ^ 32 ≡ n
    low_32 n h = omega arith

zigzag_pos : (n : ℕ) → n < 2 ^ 31 → bit_xor (n % 2 ^ 32 * 2) (n % 2 ^ 32 / 2 ^ 31) ≡ n * 2
zigzag_pos n h =
    let e : n % 2 ^ 32 ≡ n = omega arith in
    let f : n / 2 ^ 31 ≡ 0 = omega arith in rw (e, f) (bit_xor-zero (n * 2))

unzigzag_even : (n : ℕ) → unzigzag (n * 2) ≡ pos n
unfolding unzigzag
unzigzag_even n = ground (arith, bit_and_parity (n * 2))

unzigzag_odd : (n : ℕ) → unzigzag (n * 2 + 1) ≡ negsuc n
unfolding unzigzag
unzigzag_odd n = ground (arith, bit_and_parity (n * 2 + 1))

-- Numbers of VarInt32 that are not negative read back.
pub decode-encode_var32 :
    (n : ℕ) (rest : List ℕ)
    → n < 2 ^ 31
    → decode_var32 (encode_var32 (pos n) ++ rest) ≡ (ok (pos n), rest)
unfolding encode_var32 decode_var32 mask32
decode-encode_var32 n rest h =
    rw (zigzag_pos n h, decode-encode_unsigned (n * 2) rest (omega arith))
      (ap (λ z. (ok z, rest)) (unzigzag_even n))

zigzag_neg :
    (m : ℕ)
    → m < 2 ^ 31
    → bit_xor ((2 ^ 32 - 1 - m % 2 ^ 32) * 2) ((2 ^ 32 - 1 - m % 2 ^ 32) / 2 ^ 31)
      ≡ (2 ^ 32 - 1 - m) * 2 + 1
zigzag_neg m h =
    let e : m % 2 ^ 32 ≡ m = omega arith in
    let f : (2 ^ 32 - 1 - m) / 2 ^ 31 ≡ 1 = omega arith in rw (e, f) (bit_xor_one (2 ^ 32 - 1 - m))

-- A negative number of VarInt32, -(m + 1), reads back as -(2 ^ 31 - m): the shift by 31 of the masked
-- number brings in zeros, and not its sign.
pub decode-encode_var32_negative :
    (m : ℕ) (rest : List ℕ)
    → m < 2 ^ 31
    → decode_var32 (encode_var32 (negsuc m) ++ rest) ≡ (ok (negsuc (2 ^ 31 - 1 - m)), rest)
unfolding encode_var32 decode_var32 mask32 encode_unsigned
decode-encode_var32_negative m rest h =
    rw
      (
        zigzag_neg m h,
        low m h,
        decode-encode_unsigned32 ((2 ^ 31 - 1 - m) * 2 + 1) rest (omega arith),
      )
      (ap (λ z. (ok z, rest)) (unzigzag_odd (2 ^ 31 - 1 - m)))
  where
    low : (m : ℕ) → m < 2 ^ 31 → ((2 ^ 32 - 1 - m) * 2 + 1) % 2 ^ 32 ≡ (2 ^ 31 - 1 - m) * 2 + 1
    low m h = omega arith

one_pass : (fuel value v : ℕ) → v < 128 → var64_loop (suc fuel) value v ≡ v ∷ []
unfolding var64_loop
one_pass fuel value v h = rw (bit_and_above_none v h) refl

last_byte64 :
    (v : ℕ) (rest : List ℕ) → v < 128 → var64_decode (v ∷ rest) 0 0 ≡ (ok (unzigzag v), rest)
unfolding var64_decode
last_byte64 v rest h = ground (arith, bit_and_flag v, bit_or_above 0 0 v)

zigzag64_pos : (n : ℕ) → n < 64 → bit_xor (mask64 (pos n) * 2) (mask64 (pos n) / 2 ^ 63) ≡ n * 2
unfolding mask64
zigzag64_pos n h =
    let e : n % 2 ^ 64 ≡ n = omega arith in
    let f : n / 2 ^ 63 ≡ 0 = omega arith in rw (e, f) (bit_xor-zero (n * 2))

-- Numbers of VarInt64 from 0 to 63, which take one byte, read back.
pub decode-encode_var64 :
    (n : ℕ) (rest : List ℕ)
    → n < 64
    → decode_var64 (encode_var64 (pos n) ++ rest) ≡ (ok (pos n), rest)
unfolding encode_var64 decode_var64
decode-encode_var64 n rest h =
    rw (zigzag64_pos n h, one_pass 8 (mask64 (pos n)) (n * 2) (omega arith))
      (last_byte64 (n * 2) rest (omega arith) ∙ ap (λ z. (ok z, rest)) (unzigzag_even n))
