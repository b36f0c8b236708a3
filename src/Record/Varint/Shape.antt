-- ===== src/Record/Varint/Shape.antt =====
-- What the encoder writes, as arithmetic: groups of seven bits, lowest first.
use aiokafka.Base.{
  ℕ, zero, suc, ◌+◌, ◌*◌, ◌/◌, ◌%◌, ◌^◌, ◌<◌, ◌≤◌, ◌≡◌, ◌⊎◌, inl, inr, refl, arith, List, [], ◌∷◌,
  length, ℤ, pos, negsuc, bit_and, leb, if◌then◌else◌, Bool-cases,
}
use aiokafka.Base.Bits.{bit_xor-zero, bit_and_group, bit_or_flag, bit_and_parity}
use native.Mathlib.Nat.{pow-suc, one-le-pow}
use aiokafka.Record.Varint.{zigzag, unzigzag, group, encode_loop, encode_unsigned, size_of_unsigned}

abbrev pub IsInt64 : ℤ → Type 0
IsInt64 (pos n) = n < 2 ^ 63
IsInt64 (negsuc m) = m < 2 ^ 63

-- The bytes of a number below 128 ^ (k + 1), with k flags set.
unfoldable pub groups : ℕ → ℕ → List ℕ
groups zero v = v ∷ []
groups (suc k) v = (v % 128 + 128) ∷ groups k (v / 128)

pub length-groups : (k v : ℕ) → length (groups k v) ≡ k + 1
unfolding groups
length-groups zero v = refl
length-groups (suc k) v = omega (arith, length-groups k (v / 128))

pub zigzag-lt : (n : ℤ) → IsInt64 n → zigzag n < 2 ^ 64
unfolding zigzag
zigzag-lt (pos n) h = let e : n / 2 ^ 63 ≡ 0 = omega arith in rw e (rw bit_xor-zero (omega arith))
zigzag-lt (negsuc m) h =
    let e : m / 2 ^ 63 ≡ 0 = omega arith in rw e (rw bit_xor-zero (omega arith))

pub unzigzag-zigzag : (n : ℤ) → IsInt64 n → unzigzag (zigzag n) ≡ n
unfolding zigzag unzigzag
unzigzag-zigzag (pos n) h =
    let e : n / 2 ^ 63 ≡ 0 = omega arith in
    rw e (rw bit_xor-zero (ground (arith, bit_and_parity (n * 2))))
unzigzag-zigzag (negsuc m) h =
    let e : m / 2 ^ 63 ≡ 0 = omega arith in
    rw e (rw bit_xor-zero (ground (arith, bit_and_parity (m * 2 + 1))))

group_lem : (v : ℕ) → group v ≡ v % 128 + 128
unfolding group
group_lem v = rw bit_and_group (bit_or_flag (v % 128) (omega arith))

-- The loop writes the groups of `v`, whose lowest it has taken already.
encode_loop-groups :
    (k fuel v i : ℕ)
    → v / 128 ≤ fuel
    → v < 128 ^ suc k
    → (k ≡ 0) ⊎ (128 ^ k ≤ v)
    → encode_loop fuel (v / 128) (v % 128) i ≡ (groups k v, i + k)
unfolding encode_loop groups
encode_loop-groups zero zero v i h b l = ground arith
encode_loop-groups zero (suc fuel) v i h b l = ground arith
encode_loop-groups (suc k) zero v i h b l = absurd (omega (arith, pow-suc 128 k, one-le-pow k 128))
encode_loop-groups (suc k) (suc fuel) v i h b l = ground (
  arith,
  pow-suc 128 k,
  pow-suc 128 (suc k),
  one-le-pow k 128,
  bit_and_group (v / 128),
  bit_or_flag (v % 128),
  encode_loop-groups k fuel (v / 128) (i + 1),
)

-- The number of flags, the byte count, and what the encoder returns.
pub record Shape (v k : ℕ) : Type 0 where
  pub few : k ≤ 9
  pub fits : v < 128 ^ suc k
  pub needs : (k ≡ 0) ⊎ (128 ^ k ≤ v)
  pub sized : size_of_unsigned v ≡ suc k

pub groups_needed : (v : ℕ) → v < 2 ^ 64 → (k : ℕ) × Shape v k
unfolding size_of_unsigned
groups_needed v h = elim (Bool-cases (leb v 0x7f)) [
  | inl e ↦ (0, ground arith)
  | inr e0 ↦ elim (Bool-cases (leb v 0x3fff)) [
    | inl e ↦ (1, ground arith)
    | inr e1 ↦ elim (Bool-cases (leb v 0x1fffff)) [
      | inl e ↦ (2, ground arith)
      | inr e2 ↦ elim (Bool-cases (leb v 0xfffffff)) [
        | inl e ↦ (3, ground arith)
        | inr e3 ↦ elim (Bool-cases (leb v 0x7ffffffff)) [
          | inl e ↦ (4, ground arith)
          | inr e4 ↦ elim (Bool-cases (leb v 0x3ffffffffff)) [
            | inl e ↦ (5, ground arith)
            | inr e5 ↦ elim (Bool-cases (leb v 0x1ffffffffffff)) [
              | inl e ↦ (6, ground arith)
              | inr e6 ↦ elim (Bool-cases (leb v 0xffffffffffffff)) [
                | inl e ↦ (7, ground arith)
                | inr e7 ↦ elim (Bool-cases (leb v 0x7fffffffffffffff)) [
                  | inl e ↦ (8, ground arith)
                  | inr e8 ↦ (9, ground arith)
                ]
              ]
            ]
          ]
        ]
      ]
    ]
  ]
]

encode_unsigned_big :
    (v : ℕ) → 0x7ffffffff < v → encode_unsigned v ≡ encode_loop v (v / 128) (bit_and v 0x7f) 0
unfolding encode_unsigned
encode_unsigned_big v h = ground arith

big_of_needs : (v k : ℕ) → 128 ^ (suc (suc (suc (suc (suc k))))) ≤ v → 0x7ffffffff < v
big_of_needs v k h = omega (
  arith,
  one-le-pow k 128,
  pow-suc 128 k,
  pow-suc 128 (suc k),
  pow-suc 128 (suc (suc k)),
  pow-suc 128 (suc (suc (suc k))),
  pow-suc 128 (suc (suc (suc (suc k)))),
)

big-groups : (v k : ℕ) → 0x7ffffffff < v → Shape v k → encode_unsigned v ≡ (groups k v, k)
big-groups v k h s =
    let l : encode_loop v (v / 128) (v % 128) 0 ≡ (groups k v, 0 + k) =
      encode_loop-groups k v v 0 (omega arith) s.fits s.needs in
    ground (arith, encode_unsigned_big v h, bit_and_group v, l)

-- What is written is the groups; what is returned is their number up to five bytes, and one less from
-- six on.
pub encode_unsigned-groups :
    (v k : ℕ) → Shape v k → encode_unsigned v ≡ (groups k v, (if leb k 4 then suc k else k))
unfolding encode_unsigned groups
encode_unsigned-groups v zero s = ground arith
encode_unsigned-groups v (suc zero) s = ground (arith, group_lem v)
encode_unsigned-groups v (suc (suc zero)) s = ground (arith, group_lem v, group_lem (v / 2 ^ 7))
encode_unsigned-groups v (suc (suc (suc zero))) s =
    ground (arith, group_lem v, group_lem (v / 2 ^ 7), group_lem (v / 2 ^ 14))
encode_unsigned-groups v (suc (suc (suc (suc zero)))) s =
    ground
      (arith, group_lem v, group_lem (v / 2 ^ 7), group_lem (v / 2 ^ 14), group_lem (v / 2 ^ 21))
encode_unsigned-groups v (suc (suc (suc (suc (suc k))))) s =
    let need : 128 ^ suc (suc (suc (suc (suc k)))) ≤ v = omega arith in
    ground (arith, big-groups v (suc (suc (suc (suc (suc k))))) (big_of_needs v k need) s)
