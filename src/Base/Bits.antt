-- ===== src/Base/Bits.antt =====
-- Python's `&`, `|` and `^` on natural numbers as arithmetic, at every width.
use Prim.Native.Nat.{ℕ, zero, suc, ◌+◌, ◌*◌, ◌/◌, ◌%◌, ◌^◌, ◌<◌, ◌≤◌, min, max}
use Prim.Native.Nat.{bit_and, bit_or, bit_xor, digits, bitwise, differ}
use Prim.Native.Nat.{bit_and-bitwise, bit_or-bitwise, bit_xor-bitwise}
use mathlib.Core.Path.{◌≡◌, refl, ap, ◌∙◌}
use native.Mathlib.Nat.{pow-suc, one-le-pow}
use native.Mathlib.Omega.{arith}

-- A digitwise operation whose first number may run out: `z b` is then what is left.
module _ (z : ℕ → ℕ) (f : ℕ → ℕ → ℕ) (run_out : (b : ℕ) → z b ≡ z (b / 2) * 2 + f 0 (b % 2)) where
  digits_enough : (n m a b : ℕ) → a ≤ n → a ≤ m → digits z f n a b ≡ digits z f m a b
  digits_enough zero zero zero b h k = refl
  digits_enough zero (suc m) zero b h k = refl
  digits_enough (suc n) zero zero b h k = refl
  digits_enough (suc n) (suc m) zero b h k = refl
  digits_enough zero m (suc a) b h k = absurd (omega arith)
  digits_enough (suc n) zero (suc a) b h k = absurd (omega arith)
  digits_enough (suc n) (suc m) (suc a) b h k =
      ap (λ (t : ℕ). t * 2 + f (suc a % 2) (b % 2))
        (digits_enough n m (suc a / 2) (b / 2) (omega arith) (omega arith))

  bitwise_low : (a b : ℕ) → bitwise z f a b ≡ bitwise z f (a / 2) (b / 2) * 2 + f (a % 2) (b % 2)
  bitwise_low zero b = run_out b
  bitwise_low (suc a) b =
      ap (λ (t : ℕ). t * 2 + f (suc a % 2) (b % 2))
        (digits_enough a (suc a / 2) (suc a / 2) (b / 2) (omega arith) (omega arith))

and_low : (a b : ℕ) → bit_and a b ≡ bit_and (a / 2) (b / 2) * 2 + min (a % 2) (b % 2)
and_low a b = omega (
  arith,
  bit_and-bitwise a b,
  bit_and-bitwise (a / 2) (b / 2),
  bitwise_low (λ b. zero) min (λ b. omega arith) a b,
)

or_low : (a b : ℕ) → bit_or a b ≡ bit_or (a / 2) (b / 2) * 2 + max (a % 2) (b % 2)
or_low a b = omega (
  arith,
  bit_or-bitwise a b,
  bit_or-bitwise (a / 2) (b / 2),
  bitwise_low (λ b. b) max (λ b. omega arith) a b,
)

xor_low : (a b : ℕ) → bit_xor a b ≡ bit_xor (a / 2) (b / 2) * 2 + differ (a % 2) (b % 2)
xor_low a b = omega (
  arith,
  bit_xor-bitwise a b,
  bit_xor-bitwise (a / 2) (b / 2),
  bitwise_low (λ b. b) differ (λ b. omega arith) a b,
)

-- By induction on a bound of the number.
and_zero_below : (n a : ℕ) → a ≤ n → bit_and a 0 ≡ 0
and_zero_below n zero h = refl
and_zero_below zero (suc a) h = absurd (omega arith)
and_zero_below (suc n) (suc a) h =
    omega (arith, and_low (suc a) 0, and_zero_below n (suc a / 2) (omega arith))

or_zero_below : (n a : ℕ) → a ≤ n → bit_or a 0 ≡ a
or_zero_below n zero h = refl
or_zero_below zero (suc a) h = absurd (omega arith)
or_zero_below (suc n) (suc a) h =
    omega (arith, or_low (suc a) 0, or_zero_below n (suc a / 2) (omega arith))

differ-zero : (a : ℕ) → differ a 0 ≡ a
differ-zero zero = refl
differ-zero (suc a) = refl

xor_zero_below : (n a : ℕ) → a ≤ n → bit_xor a 0 ≡ a
xor_zero_below n zero h = refl
xor_zero_below zero (suc a) h = absurd (omega arith)
xor_zero_below (suc n) (suc a) h =
    omega (
      arith,
      xor_low (suc a) 0,
      differ-zero (suc a % 2),
      xor_zero_below n (suc a / 2) (omega arith),
    )

pub bit_xor-zero : (a : ℕ) → bit_xor a 0 ≡ a
bit_xor-zero a = xor_zero_below a a (omega arith)

pub bit_xor_one : (v : ℕ) → bit_xor (v * 2) 1 ≡ v * 2 + 1
bit_xor_one v =
    let e : v * 2 / 2 ≡ v = omega arith in
    let d : v * 2 % 2 ≡ 0 = omega arith in rw (xor_low (v * 2) 1, e, d, bit_xor-zero v) refl

-- `2 ^ k * t` is twice `2 ^ (k - 1) * t`.
twice_pow : (q k : ℕ) → q * 2 ^ suc k ≡ q * 2 ^ k * 2
twice_pow q k = omega (arith, ap (λ (t : ℕ). q * t) (pow-suc 2 k))

and_one : (a : ℕ) → bit_and a 1 ≡ a % 2
and_one a = omega (arith, and_low a 1, and_zero_below (a / 2) (a / 2) (omega arith))

-- `a & 1`
pub bit_and_parity : (a : ℕ) → bit_and a 1 ≡ a % 2
bit_and_parity a = and_one a

no_shift : (q : ℕ) → 0 + q * 2 ^ 0 ≡ q
no_shift q = omega arith

-- The digits below and from the k-th on are taken apart.
and_split :
    (k r q s m : ℕ)
    → r < 2 ^ k
    → s < 2 ^ k
    → bit_and (r + q * 2 ^ k) (s + m * 2 ^ k) ≡ bit_and r s + bit_and q m * 2 ^ k
and_split zero r q s m h g =
    let e : r ≡ 0 = omega arith in
    let d : s ≡ 0 = omega arith in rw (e, d, no_shift q, no_shift m) (omega arith)
and_split (suc k) r q s m h g = ground (
  arith,
  and_low (r + q * 2 ^ suc k) (s + m * 2 ^ suc k),
  and_low r s,
  twice_pow q k,
  twice_pow m k,
  twice_pow (bit_and q m) k,
  pow-suc 2 k,
  and_split k (r / 2) q (s / 2) m,
)

or_split :
    (k r q s m : ℕ)
    → r < 2 ^ k
    → s < 2 ^ k
    → bit_or (r + q * 2 ^ k) (s + m * 2 ^ k) ≡ bit_or r s + bit_or q m * 2 ^ k
or_split zero r q s m h g =
    let e : r ≡ 0 = omega arith in
    let d : s ≡ 0 = omega arith in rw (e, d, no_shift q, no_shift m) (omega arith)
or_split (suc k) r q s m h g = ground (
  arith,
  or_low (r + q * 2 ^ suc k) (s + m * 2 ^ suc k),
  or_low r s,
  twice_pow q k,
  twice_pow m k,
  twice_pow (bit_or q m) k,
  pow-suc 2 k,
  or_split k (r / 2) q (s / 2) m,
)

-- k ones
ones : ℕ → ℕ
ones zero = 0
ones (suc k) = ones k * 2 + 1

and_ones : (k r q : ℕ) → r < 2 ^ k → bit_and (r + q * 2 ^ k) (ones k) ≡ r
unfolding ones
and_ones zero r q h = omega (arith, and_zero_below (r + q * 1) (r + q * 1) (omega arith))
and_ones (suc k) r q h = ground (
  arith,
  and_low (r + q * 2 ^ suc k) (ones (suc k)),
  twice_pow q k,
  pow-suc 2 k,
  and_ones k (r / 2) q,
)

low_and_high : (a : ℕ) → a ≡ a % 128 + a / 128 * 2 ^ 7
low_and_high a = omega arith

-- `a & 0x7f`
pub bit_and_group : (a : ℕ) → bit_and a 0x7f ≡ a % 128
unfolding ones
bit_and_group a =
    ap (λ t. bit_and t 0x7f) (low_and_high a) ∙ and_ones 7 (a % 128) (a / 128) (omega arith)

pub bit_and_low_three : (a : ℕ) → bit_and a 7 ≡ a % 8
unfolding ones
bit_and_low_three a = ap (λ t. bit_and t 7) (omega arith) ∙ and_ones 3 (a % 8) (a / 8) (omega arith)

and_ones_25 : (q : ℕ) → q < 2 ^ 25 → bit_and q 0x1ffffff ≡ q
unfolding ones
and_ones_25 q h = ap (λ t. bit_and t 0x1ffffff) (no_high q) ∙ and_ones 25 q 0 h
  where
    no_high : (t : ℕ) → t ≡ t + 0 * 2 ^ 25
    no_high t = omega arith

-- `a & 0xFFFFFF80` of a 32-bit number, whose upper part has 25 digits.
pub bit_and_above : (a : ℕ) → a < 2 ^ 32 → bit_and a 0xffffff80 ≡ a / 128 * 128
bit_and_above a h = omega (
  arith,
  and_split 7 (a % 128) (a / 128) 0 0x1ffffff (omega arith) (omega arith),
  ap (λ t. bit_and t 0xffffff80) (low_and_high a),
  and_zero_below (a % 128) (a % 128) (omega arith),
  and_ones_25 (a / 128) (omega arith),
)

-- `a & 0xFFFFFFFFFFFFFF80` of a number of seven digits.
pub bit_and_above_none : (a : ℕ) → a < 128 → bit_and a 0xffff_ffff_ffff_ff80 ≡ 0
bit_and_above_none a h = omega (
  arith,
  and_split 7 a 0 0 0x1ff_ffff_ffff_ffff h (omega arith),
  ap (λ t. bit_and t 0xffff_ffff_ffff_ff80) (no_high a),
  and_zero_below a a (omega arith),
  zero_left,
)
  where
    no_high : (t : ℕ) → t ≡ t + 0 * 2 ^ 7
    no_high t = omega arith

    zero_left : bit_and 0 0x1ff_ffff_ffff_ffff ≡ 0
    zero_left = refl

or_zero_left : (a : ℕ) → bit_or 0 a ≡ a
or_zero_left a = omega (arith, bit_or-bitwise 0 a)

-- `r | q << k` where `r` has at most k digits.
pub bit_or_above : (k r q : ℕ) → r < 2 ^ k → bit_or r (q * 2 ^ k) ≡ r + q * 2 ^ k
bit_or_above k r q h = ground (
  arith,
  one-le-pow 2 k,
  or_split k r 0 0 q,
  or_zero_below r r,
  ap (λ (t : ℕ). t * 2 ^ k) (or_zero_left q),
)

-- `g | 0x80` and `0x80 | g`
pub bit_or_flag_right : (g : ℕ) → g < 128 → bit_or g 0x80 ≡ g + 128
bit_or_flag_right g h = bit_or_above 7 g 1 (omega arith)

pub bit_or_flag : (g : ℕ) → g < 128 → bit_or 0x80 g ≡ g + 128
bit_or_flag g h =
    omega (arith, or_split 7 0 1 g 0 (omega arith) h, or_zero_left g, ap (bit_or 0x80) (no_high g))
  where
    no_high : (t : ℕ) → t ≡ t + 0 * 2 ^ 7
    no_high t = omega arith

-- `b & 0x80` and `b & 0x81` of a byte
pub bit_and_flag : (b : ℕ) → b < 256 → bit_and b 0x80 ≡ b / 128 * 128
bit_and_flag b h = omega (
  arith,
  and_split 7 (b % 128) (b / 128) 0 1 (omega arith) (omega arith),
  ap (λ t. bit_and t 0x80) (low_and_high b),
  and_zero_below (b % 128) (b % 128) (omega arith),
  and_one (b / 128),
)

pub bit_and_flag_parity : (b : ℕ) → b < 256 → bit_and b 0x81 ≡ b / 128 * 128 + b % 2
bit_and_flag_parity b h = omega (
  arith,
  and_split 7 (b % 128) (b / 128) 1 1 (omega arith) (omega arith),
  ap (λ t. bit_and t 0x81) (low_and_high b),
  and_one (b % 128),
  and_one (b / 128),
)

-- `a & 0xFFFFFFFF`
pub bit_and_mask32 : (a : ℕ) → bit_and a 0xffff_ffff ≡ a % 2 ^ 32
unfolding ones
bit_and_mask32 a =
    ap (λ t. bit_and t 0xffff_ffff) (low_and_above a)
    ∙ and_ones 32 (a % 2 ^ 32) (a / 2 ^ 32) (omega arith)
  where
    low_and_above : (t : ℕ) → t ≡ t % 2 ^ 32 + t / 2 ^ 32 * 2 ^ 32
    low_and_above t = omega arith
