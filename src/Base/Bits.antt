-- ===== src/Base/Bits.antt =====
-- Masks on one byte, by tables checked by evaluation.
use Prim.Native.Nat.{ℕ, zero, suc, ◌*◌, ◌/◌, ◌%◌, ◌<◌, bit_and}
use mathlib.Core.Path.{◌≡◌, refl}
use mathlib.Core.Bool.{Bool, true, ◌&&◌}
use native.Mathlib.Omega.{arith}
use frog_game_framework.Base.Tests.{◌==◌, ==_iff}

unfoldable pub all_below : ℕ → (ℕ → Bool) → Bool
all_below zero p = true
all_below (suc n) p = p n && all_below n p

pub all_below_at : (n : ℕ) (p : ℕ → Bool) (x : ℕ) → all_below n p ≡ true → x < n → p x ≡ true
unfolding all_below
all_below_at zero p x h lt = absurd (omega arith)
all_below_at (suc n) p x h lt = ground (arith, all_below_at n p x)

-- `b & 0x0f` keeps the low four bits, and `b & 0x7f` the low seven.
low_nibble_table : all_below 256 (λ x. bit_and x 0x0f == x % 16) ≡ true
unfolding all_below
low_nibble_table = refl

pub bit_and-low_nibble : (x : ℕ) → x < 256 → bit_and x 0x0f ≡ x % 16
bit_and-low_nibble x h = (==_iff _ _).0 (all_below_at 256 _ x low_nibble_table h)

low_seven_table : all_below 256 (λ x. bit_and x 0x7f == x % 128) ≡ true
unfolding all_below
low_seven_table = refl

pub bit_and-low_seven : (x : ℕ) → x < 256 → bit_and x 0x7f ≡ x % 128
bit_and-low_seven x h = (==_iff _ _).0 (all_below_at 256 _ x low_seven_table h)

-- `b & 0x80` is the top bit.
top_bit_table : all_below 256 (λ x. bit_and x 0x80 == x / 128 * 128) ≡ true
unfolding all_below
top_bit_table = refl

pub bit_and-top : (x : ℕ) → x < 256 → bit_and x 0x80 ≡ x / 128 * 128
bit_and-top x h = (==_iff _ _).0 (all_below_at 256 _ x top_bit_table h)
