-- ===== src/Base/Groups.antt =====
-- Numbers in groups of seven bits, as varints hold them: the group from bit s on, and what is above it.
use Prim.Native.Nat.{ℕ, ◌+◌, ◌*◌, ◌/◌, ◌%◌, ◌^◌, ◌<◌}
use mathlib.Core.Path.{◌≡◌, ap}
use native.Mathlib.Numerals.{towards_suc}
use native.Mathlib.Omega.{arith}

pub two_pow_plus_seven : (s : ℕ) → 2 ^ (s + 7) ≡ 128 * 2 ^ s
two_pow_plus_seven s = simp towards_suc (omega arith)

-- The value of the groups from bit `s` on.
pub low_and_rest : (v s : ℕ) → v % 128 * 2 ^ s + v / 128 * 2 ^ (s + 7) ≡ v * 2 ^ s
low_and_rest v s = omega (
  arith,
  ap (λ (t : ℕ). v / 128 * t) (two_pow_plus_seven s),
  ap (λ (t : ℕ). t * 2 ^ s) (div_mod_128 v),
)
  where
    div_mod_128 : (t : ℕ) → t ≡ t / 128 * 128 + t % 128
    div_mod_128 t = omega arith

pub acc_fits : (acc g s : ℕ) → acc < 2 ^ s → g < 128 → acc + g * 2 ^ s < 2 ^ (s + 7)
acc_fits acc g s h k = rw two_pow_plus_seven (grind arith)
