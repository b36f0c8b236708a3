-- ===== src/Record/Varint/RoundTrip.antt =====
-- Decoding what was encoded, and what the encoder answers.
use aiokafka.Base.{
  ℕ, zero, suc, ◌+◌, ◌-◌, ◌*◌, ◌/◌, ◌%◌, ◌^◌, ◌<◌, ◌≤◌, ◌≡◌, refl, ap, ◌∙◌, arith, List, [], ◌∷◌,
  ◌++◌, length, drop, ℤ, ok, leb, if◌then◌else◌,
}
use aiokafka.Base.Bits.{
  bit_and_group, bit_or_above, bit_and_flag, bit_and_flag_parity, bit_and_parity,
}
use native.Mathlib.Nat.{pow-suc}
use aiokafka.Base.Groups.{low_and_rest, acc_fits}
use aiokafka.Record.Varint.{
  zigzag, unzigzag, encode_unsigned, encode_varint, size_of_varint, decode_loop, decode_from,
  decode_varint,
}
use aiokafka.Record.Varint.Shape.{
  IsInt64, groups, length-groups, zigzag-lt, unzigzag-zigzag, groups_needed, encode_unsigned-groups,
}

decode_loop-groups :
    (k v acc p s : ℕ) (rest : List ℕ)
    → v < 128 ^ suc k
    → acc < 2 ^ s
    → s + 7 * k < 64
    → decode_loop (groups k v ++ rest) acc p s ≡ ok (unzigzag (acc + v * 2 ^ s), p + (k + 1))
unfolding decode_loop groups
decode_loop-groups zero v acc p s rest h a b =
    ground (arith, bit_and_group v, bit_and_flag v, bit_or_above s acc v)
decode_loop-groups (suc k) v acc p s rest h a b = ground (
  arith,
  pow-suc 128 (suc k),
  bit_and_group (v % 128 + 128),
  bit_and_flag (v % 128 + 128),
  bit_or_above s acc (v % 128),
  low_and_rest v s,
  acc_fits acc (v % 128) s,
  decode_loop-groups k (v / 128) (acc + v % 128 * 2 ^ s) (p + 1) (s + 7) rest,
)

one_byte : (v p : ℕ) (rest : List ℕ) → v < 128 → decode_from (v ∷ rest) p ≡ ok (unzigzag v, p + 1)
unfolding decode_from unzigzag
one_byte v p rest h = ground (arith, bit_and_flag_parity v, bit_and_flag v, bit_and_parity v)

decode_from-groups :
    (k v p : ℕ) (rest : List ℕ)
    → v < 128 ^ suc k
    → k ≤ 9
    → decode_from (groups k v ++ rest) p ≡ ok (unzigzag v, p + (k + 1))
unfolding decode_from groups
decode_from-groups zero v p rest h b = one_byte v p rest (omega arith)
decode_from-groups (suc k) v p rest h b = ground (
  arith,
  pow-suc 128 (suc k),
  bit_and_group (v % 128 + 128),
  bit_and_flag_parity (v % 128 + 128),
  bit_and_flag (v % 128 + 128),
  decode_loop-groups k (v / 128) (v % 128) (p + 1) 7 rest,
)

drop-append {ℓ} : {A : Type ℓ} (xs ys : List A) → drop (length xs) (xs ++ ys) ≡ ys
drop-append [] ys = refl
drop-append (x ∷ xs) ys = drop-append xs ys

-- Decoding at the place where a 64-bit number was encoded gives the number and the position behind its
-- bytes, whatever stands before and after them.
pub decode_varint-encode_varint :
    (n : ℤ) (before rest : List ℕ)
    → IsInt64 n
    → decode_varint (before ++ ((encode_varint n).0 ++ rest)) (length before)
      ≡ ok (n, length before + length (encode_varint n).0)
unfolding decode_varint encode_varint
decode_varint-encode_varint n before rest h =
    let (k, s) = groups_needed (zigzag n) (zigzag-lt n h) in
    let e : encode_unsigned (zigzag n) ≡ (groups k (zigzag n), (if leb k 4 then suc k else k)) =
      encode_unsigned-groups (zigzag n) k s in
    rw (drop-append before, e, length-groups)
      (decode_from-groups k (zigzag n) (length before) rest s.fits s.few
        ∙ ap (λ m. ok (m, length before + (k + 1))) (unzigzag-zigzag n h))

-- The bytes written for a 64-bit number are as many as `size_of_varint` says, one to ten.
pub size_of-encode_varint :
    (n : ℤ)
    → IsInt64 n
    → (length (encode_varint n).0 ≡ size_of_varint n)
      × (1 ≤ size_of_varint n)
      × (size_of_varint n ≤ 10)
unfolding encode_varint size_of_varint
size_of-encode_varint n h =
    let (k, s) = groups_needed (zigzag n) (zigzag-lt n h) in
    let e : encode_unsigned (zigzag n) ≡ (groups k (zigzag n), (if leb k 4 then suc k else k)) =
      encode_unsigned-groups (zigzag n) k s in
    rw (e, length-groups, s.sized) (omega (arith, s.few), omega arith, omega (arith, s.few))

-- What the encoder returns is the number of bytes written up to five, and one less from six bytes on.
pub encode_varint_result :
    (n : ℤ)
    → IsInt64 n
    → (encode_varint n).1 ≡ (
        if leb (size_of_varint n) 5
        then length (encode_varint n).0
        else length (encode_varint n).0 - 1)
unfolding encode_varint size_of_varint
encode_varint_result n h =
    let (k, s) = groups_needed (zigzag n) (zigzag-lt n h) in
    let e : encode_unsigned (zigzag n) ≡ (groups k (zigzag n), (if leb k 4 then suc k else k)) =
      encode_unsigned-groups (zigzag n) k s in
    rw (e, length-groups, s.sized) (ground arith)
