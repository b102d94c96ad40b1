-- ===== src/Base/Words.antt =====
-- `&` and `|` by binary digits: where the digits do not overlap, `|` is a sum; `&` with ones keeps
-- the low digits.
use Prim.Native.Nat.{
  ℕ, zero, suc, ◌+◌, ◌*◌, ◌/◌, ◌%◌, ◌^◌, ◌≤◌, ◌<◌, max, digits, bit_or, bit_or-bitwise, min,
  bit_and, bit_and-bitwise, ◌-◌,
}
use mathlib.Core.Path.{◌≡◌, refl, ap, sym, ◌∙◌}
use native.Mathlib.Nat.{pow-suc, mul_assoc}
use native.Mathlib.Omega.{arith}

abbrev or_digits : ℕ → ℕ → ℕ → ℕ
or_digits n a b = digits (λ y. y) max n a b

-- The count of digits does not matter once it covers the first number.
or_digits_count : (n m a b : ℕ) → a ≤ n → a ≤ m → or_digits n a b ≡ or_digits m a b
or_digits_count zero zero a b p q = refl
or_digits_count zero (suc m) zero b p q = refl
or_digits_count zero (suc m) (suc a) b p q = absurd (omega arith)
or_digits_count (suc n) zero zero b p q = refl
or_digits_count (suc n) zero (suc a) b p q = absurd (omega arith)
or_digits_count (suc n) (suc m) zero b p q = refl
or_digits_count (suc n) (suc m) (suc a) b p q =
    omega (arith, or_digits_count n m (suc a / 2) (b / 2) (omega arith) (omega arith))

pub zero-bit_or : (b : ℕ) → bit_or 0 b ≡ b
zero-bit_or b = bit_or-bitwise 0 b

pub bit_or_halves : (a b : ℕ) → bit_or a b ≡ bit_or (a / 2) (b / 2) * 2 + max (a % 2) (b % 2)
bit_or_halves zero b = omega (arith, zero-bit_or b, zero-bit_or (b / 2))
bit_or_halves (suc a) b = omega (
  arith,
  bit_or-bitwise (suc a) b,
  bit_or-bitwise (suc a / 2) (b / 2),
  or_digits_count a (suc a / 2) (suc a / 2) (b / 2) (omega arith) (omega arith),
)

bit_or-zero_below : (n a : ℕ) → a ≤ n → bit_or a 0 ≡ a
bit_or-zero_below n zero h = zero-bit_or 0
bit_or-zero_below zero (suc a) h = absurd (omega arith)
bit_or-zero_below (suc n) (suc a) h =
    omega (arith, bit_or_halves (suc a) 0, bit_or-zero_below n (suc a / 2) (omega arith))

pub bit_or-zero : (a : ℕ) → bit_or a 0 ≡ a
bit_or-zero a = bit_or-zero_below a a (omega arith)

-- High digits joined to `k` low ones.
pub bit_or_join : (k high low : ℕ) → low < 2 ^ k → bit_or (high * 2 ^ k) low ≡ high * 2 ^ k + low
bit_or_join zero high low h = ground (arith, bit_or-zero high)
bit_or_join (suc k) high low h =
    let double : high * 2 ^ suc k ≡ high * 2 ^ k * 2 =
      ap (λ (t : ℕ). high * t) (pow-suc 2 k) ∙ sym (mul_assoc high (2 ^ k) 2) in
    let half : high * 2 ^ suc k / 2 ≡ high * 2 ^ k = omega (arith, double) in
    bit_or_halves (high * 2 ^ suc k) low
    ∙ rw (half, bit_or_join k high (low / 2) (omega (arith, pow-suc 2 k))) (omega (arith, double))

-- The same, where the high part is known to be a multiple.
pub bit_or_above : (k high m low : ℕ) → m ≡ high * 2 ^ k → low < 2 ^ k → bit_or m low ≡ m + low
bit_or_above k high m low e h = rw e (bit_or_join k high low h)

bit_or_comm_below : (n a b : ℕ) → a ≤ n → b ≤ n → bit_or a b ≡ bit_or b a
bit_or_comm_below zero zero zero p q = refl
bit_or_comm_below zero (suc a) b p q = absurd (omega arith)
bit_or_comm_below zero zero (suc b) p q = absurd (omega arith)
bit_or_comm_below (suc n) a b p q = omega (
  arith,
  bit_or_halves a b,
  bit_or_halves b a,
  bit_or_comm_below n (a / 2) (b / 2) (omega arith) (omega arith),
)

pub bit_or_comm : (a b : ℕ) → bit_or a b ≡ bit_or b a
bit_or_comm a b = bit_or_comm_below (a + b) a b (omega arith) (omega arith)

abbrev and_digits : ℕ → ℕ → ℕ → ℕ
and_digits n a b = digits (λ y. 0) min n a b

and_digits_count : (n m a b : ℕ) → a ≤ n → a ≤ m → and_digits n a b ≡ and_digits m a b
and_digits_count zero zero a b p q = refl
and_digits_count zero (suc m) zero b p q = refl
and_digits_count zero (suc m) (suc a) b p q = absurd (omega arith)
and_digits_count (suc n) zero zero b p q = refl
and_digits_count (suc n) zero (suc a) b p q = absurd (omega arith)
and_digits_count (suc n) (suc m) zero b p q = refl
and_digits_count (suc n) (suc m) (suc a) b p q =
    omega (arith, and_digits_count n m (suc a / 2) (b / 2) (omega arith) (omega arith))

pub zero-bit_and : (b : ℕ) → bit_and 0 b ≡ 0
zero-bit_and b = bit_and-bitwise 0 b

pub bit_and_halves : (a b : ℕ) → bit_and a b ≡ bit_and (a / 2) (b / 2) * 2 + min (a % 2) (b % 2)
bit_and_halves zero b = omega (arith, zero-bit_and b, zero-bit_and (b / 2))
bit_and_halves (suc a) b = omega (
  arith,
  bit_and-bitwise (suc a) b,
  bit_and-bitwise (suc a / 2) (b / 2),
  and_digits_count a (suc a / 2) (suc a / 2) (b / 2) (omega arith) (omega arith),
)

pub bit_and-zero_below : (n a : ℕ) → a ≤ n → bit_and a 0 ≡ 0
bit_and-zero_below n zero h = zero-bit_and 0
bit_and-zero_below zero (suc a) h = absurd (omega arith)
bit_and-zero_below (suc n) (suc a) h =
    omega (arith, bit_and_halves (suc a) 0, bit_and-zero_below n (suc a / 2) (omega arith))

-- The parts of a number that is halved, with its digits from the `k`-th on apart.
abbrev Halves : ℕ → ℕ → ℕ → Type 0
Halves k high low =
    ((high * 2 ^ suc k + low) / 2 ≡ high * 2 ^ k + low / 2)
    × ((high * 2 ^ suc k + low) % 2 ≡ low % 2)

halves_lem : (k high low : ℕ) → Halves k high low
halves_lem k high low =
    let double : high * 2 ^ suc k ≡ high * 2 ^ k * 2 =
      ap (λ (t : ℕ). high * t) (pow-suc 2 k) ∙ sym (mul_assoc high (2 ^ k) 2) in
    (omega (arith, double), omega (arith, double))

-- `k` ones keep the low `k` digits.
pub bit_and-ones : (k high low : ℕ) → low < 2 ^ k → bit_and (high * 2 ^ k + low) (2 ^ k - 1) ≡ low
bit_and-ones zero high low h =
    bit_and-zero_below (high * 1 + low) (high * 1 + low) (omega arith) ∙ omega arith
bit_and-ones (suc k) high low h =
    let ones : (2 ^ suc k - 1) / 2 ≡ 2 ^ k - 1 = omega (arith, pow-suc 2 k) in
    let odd : (2 ^ suc k - 1) % 2 ≡ 1 = omega (arith, pow-suc 2 k) in
    let parts = halves_lem k high low in
    bit_and_halves (high * 2 ^ suc k + low) (2 ^ suc k - 1)
    ∙ rw (ones, odd, parts.0, parts.1, bit_and-ones k high (low / 2) (omega (arith, pow-suc 2 k)))
        (omega arith)

-- A mask of digits from the `k`-th on.
pub bit_and-high :
    (k high low mask : ℕ)
    → low < 2 ^ k
    → bit_and (high * 2 ^ k + low) (mask * 2 ^ k) ≡ bit_and high mask * 2 ^ k
bit_and-high zero high low mask h = ground arith
bit_and-high (suc k) high low mask h =
    let parts = halves_lem k high low in
    let other = halves_lem k mask 0 in
    let both : bit_and high mask * 2 ^ suc k ≡ bit_and high mask * 2 ^ k * 2 =
      ap (λ (t : ℕ). bit_and high mask * t) (pow-suc 2 k)
      ∙ sym (mul_assoc (bit_and high mask) (2 ^ k) 2) in
    let half : mask * 2 ^ suc k / 2 ≡ mask * 2 ^ k = omega (arith, other.0) in
    bit_and_halves (high * 2 ^ suc k + low) (mask * 2 ^ suc k)
    ∙ rw (parts.0, half, bit_and-high k high (low / 2) mask (omega (arith, pow-suc 2 k)), both)
        (omega (arith, other.1))

-- The same for `|`.
pub bit_or-high :
    (k high low mask : ℕ)
    → low < 2 ^ k
    → bit_or (high * 2 ^ k + low) (mask * 2 ^ k) ≡ bit_or high mask * 2 ^ k + low
bit_or-high zero high low mask h = ground arith
bit_or-high (suc k) high low mask h =
    let parts = halves_lem k high low in
    let other = halves_lem k mask 0 in
    let both : bit_or high mask * 2 ^ suc k ≡ bit_or high mask * 2 ^ k * 2 =
      ap (λ (t : ℕ). bit_or high mask * t) (pow-suc 2 k)
      ∙ sym (mul_assoc (bit_or high mask) (2 ^ k) 2) in
    let half : mask * 2 ^ suc k / 2 ≡ mask * 2 ^ k = omega (arith, other.0) in
    bit_or_halves (high * 2 ^ suc k + low) (mask * 2 ^ suc k)
    ∙ rw (parts.0, half, bit_or-high k high (low / 2) mask (omega (arith, pow-suc 2 k)), both)
        (omega (arith, other.1, parts.1))

bit_and_self_below : (n a : ℕ) → a ≤ n → bit_and a a ≡ a
bit_and_self_below zero zero h = bit_and-bitwise 0 0
bit_and_self_below zero (suc a) h = absurd (omega arith)
bit_and_self_below (suc n) zero h = bit_and-bitwise 0 0
bit_and_self_below (suc n) (suc a) h =
    omega (arith, bit_and_halves (suc a) (suc a), bit_and_self_below n (suc a / 2) (omega arith))

pub bit_and_self : (a : ℕ) → bit_and a a ≡ a
bit_and_self a = bit_and_self_below a a (omega arith)
