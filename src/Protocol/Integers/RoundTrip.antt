-- ===== src/Protocol/Integers/RoundTrip.antt =====
-- A packed integer reads back.
use aiokafka.Base.{
  ℕ, zero, suc, ◌+◌, ◌-◌, ◌*◌, ◌/◌, ◌%◌, ◌^◌, ◌<◌, ◌≡◌, refl, sym, ap, ◌∙◌, arith, List, [], ◌∷◌,
  ◌++◌, length, length-append, take, drop, ℤ, pos, negsuc, ok,
}
use native.Mathlib.Nat.{pow-suc}
use aiokafka.Protocol.Reader.{read}
use aiokafka.Protocol.Integers.{
  be_bytes, be_value, pack_int, signed, unpack_int, decode_int, pack_uint32, unpack_uint32,
  decode_uint32,
}

be_value-append :
    (acc : ℕ) (xs : List ℕ) (b : ℕ) → be_value acc (xs ++ b ∷ []) ≡ be_value acc xs * 256 + b
unfolding be_value
be_value-append acc [] b = refl
be_value-append acc (x ∷ xs) b = be_value-append (acc * 256 + x) xs b

be_value-be_bytes : (w v : ℕ) → v < 256 ^ w → be_value 0 (be_bytes w v) ≡ v
unfolding be_value be_bytes
be_value-be_bytes zero v h = omega arith
be_value-be_bytes (suc w) v h = omega (
  arith,
  pow-suc 256 w,
  be_value-append 0 (be_bytes w (v / 256)) (v % 256),
  be_value-be_bytes w (v / 256) (omega (arith, pow-suc 256 w)),
)

pub length-be_bytes : (w v : ℕ) → length (be_bytes w v) ≡ w
unfolding be_bytes
length-be_bytes zero v = refl
length-be_bytes (suc w) v =
    omega
      (arith, length-append (be_bytes w (v / 256)) ((v % 256) ∷ []), length-be_bytes w (v / 256))

pub take-append {ℓ} : {A : Type ℓ} (xs ys : List A) → take (length xs) (xs ++ ys) ≡ xs
take-append [] ys = refl
take-append (x ∷ xs) ys = ap (λ zs. x ∷ zs) (take-append xs ys)

pub drop-append {ℓ} : {A : Type ℓ} (xs ys : List A) → drop (length xs) (xs ++ ys) ≡ ys
drop-append [] ys = refl
drop-append (x ∷ xs) ys = drop-append xs ys

pub read-append : (xs ys : List ℕ) → read (length xs) (xs ++ ys) ≡ (ok xs, ys)
unfolding read
read-append xs ys = rw (take-append xs ys, drop-append xs ys) refl

read_bytes : (w v : ℕ) (rest : List ℕ) → read w (be_bytes w v ++ rest) ≡ (ok (be_bytes w v), rest)
read_bytes w v rest =
    ap (λ n. read n (be_bytes w v ++ rest)) (sym (length-be_bytes w v))
    ∙ read-append (be_bytes w v) rest

signed_pos : (k n : ℕ) → n < 128 * 256 ^ k → signed k n ≡ pos n
unfolding signed
signed_pos k n h = ground arith

signed_neg : (k m : ℕ) → m < 128 * 256 ^ k → signed k (256 * 256 ^ k - 1 - m) ≡ negsuc m
unfolding signed
signed_neg k m h = ground arith

decode_bytes :
    (k v : ℕ) (rest : List ℕ)
    → v < 256 * 256 ^ k
    → decode_int k (be_bytes (suc k) v ++ rest) ≡ (ok (signed k v), rest)
unfolding decode_int unpack_int
decode_bytes k v rest h =
    rw (read_bytes (suc k) v rest)
      (ground (arith, pow-suc 256 k, length-be_bytes (suc k) v, be_value-be_bytes (suc k) v))

-- Whatever `pack` accepts, the decoder reads back, and leaves what follows.
pub decode_int-pack_int :
    (k : ℕ) (n : ℤ) (bytes rest : List ℕ)
    → pack_int k n ≡ ok bytes
    → decode_int k (bytes ++ rest) ≡ (ok n, rest)
unfolding pack_int
decode_int-pack_int k (pos n) bytes rest h = ground (arith, decode_bytes k n rest, signed_pos k n)
decode_int-pack_int k (negsuc m) bytes rest h =
    ground (arith, decode_bytes k (256 * 256 ^ k - 1 - m) rest, signed_neg k m)

uint32_bytes :
    (n : ℕ) (rest : List ℕ) → n < 2 ^ 32 → decode_uint32 (be_bytes 4 n ++ rest) ≡ (ok (pos n), rest)
unfolding decode_uint32 unpack_uint32
uint32_bytes n rest h =
    rw (read_bytes 4 n rest) (ground (arith, length-be_bytes 4 n, be_value-be_bytes 4 n))

pub decode_uint32-pack_uint32 :
    (n : ℤ) (bytes rest : List ℕ)
    → pack_uint32 n ≡ ok bytes
    → decode_uint32 (bytes ++ rest) ≡ (ok n, rest)
unfolding pack_uint32
decode_uint32-pack_uint32 (pos n) bytes rest h = ground (arith, uint32_bytes n rest)
decode_uint32-pack_uint32 (negsuc m) bytes rest h = cc
