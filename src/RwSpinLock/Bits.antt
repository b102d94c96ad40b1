-- ===== src/RwSpinLock/Bits.antt =====
-- The low two bits of a number, under `&` and `|`.
use frog_game_framework.Base.{
  ℕ, ◌+◌, ◌*◌, ◌/◌, ◌%◌, ◌≡◌, arith, bit_and, bit_or, bit_or_halves, bit_or-zero, bit_and_halves,
  bit_and-zero_below,
}

pub bit_and-low_two : (v : ℕ) → bit_and v 3 ≡ v % 4
bit_and-low_two v = omega (
  arith,
  bit_and_halves v 3,
  bit_and_halves (v / 2) 1,
  bit_and-zero_below (v / 2 / 2) (v / 2 / 2) (omega arith),
)

-- `| 2` sets the second bit.
pub bit_or-second : (v : ℕ) → bit_or v 2 ≡ v / 4 * 4 + 2 + v % 2
bit_or-second v = omega (arith, bit_or_halves v 2, bit_or_halves (v / 2) 1, bit_or-zero (v / 2 / 2))
