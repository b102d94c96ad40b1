-- ===== src/Msgpack/Words.antt =====
-- The bytes of a word joined again, and the masks on a flag.
use frog_game_framework.Base.{
  ℕ, ◌+◌, ◌*◌, ◌/◌, ◌%◌, ◌^◌, ◌<◌, ◌≡◌, refl, ◌∙◌, bit_and, bit_or, bit_or_join, bit_or_above, true,
  arith, all_below, all_below_at, ==_iff, ◌==◌,
}
use frog_game_framework.Msgpack.{join8}

pub join2_lem : (v : ℕ) → bit_or (v / 2 ^ 8 % 256 * 2 ^ 8) (v % 256) ≡ v % 2 ^ 16
join2_lem v = bit_or_join 8 (v / 2 ^ 8 % 256) (v % 256) (omega arith) ∙ omega arith

join4_bytes :
    (a b c d : ℕ)
    → b < 256
    → c < 256
    → d < 256
    → bit_or (bit_or (bit_or (a * 2 ^ 24) (b * 2 ^ 16)) (c * 2 ^ 8)) d
      ≡ a * 2 ^ 24 + b * 2 ^ 16 + c * 2 ^ 8 + d
join4_bytes a b c d hb hc hd = rw (
  bit_or_join 24 a (b * 2 ^ 16) (omega arith),
  bit_or_above 16 (a * 256 + b) (a * 2 ^ 24 + b * 2 ^ 16) (c * 2 ^ 8) (omega arith) (omega arith),
  bit_or_above 8 (a * 65536 + b * 256 + c) (a * 2 ^ 24 + b * 2 ^ 16 + c * 2 ^ 8) d (omega arith) hd,
)

pub join4_lem :
    (v : ℕ)
    → bit_or
        (bit_or
          (bit_or (v / 2 ^ 24 % 256 * 2 ^ 24) (v / 2 ^ 16 % 256 * 2 ^ 16))
          (v / 2 ^ 8 % 256 * 2 ^ 8))
        (v % 256)
      ≡ v % 2 ^ 32
join4_lem v =
    join4_bytes (v / 2 ^ 24 % 256) (v / 2 ^ 16 % 256) (v / 2 ^ 8 % 256) (v % 256) (omega arith)
      (omega arith) (omega arith)
    ∙ omega arith

-- The byte at `k` completes the digits of `v` from there on.
pub join8_lem :
    (v : ℕ)
    → v < 2 ^ 64
    → join8
        (v / 2 ^ 56 % 256)
        (v / 2 ^ 48 % 256)
        (v / 2 ^ 40 % 256)
        (v / 2 ^ 32 % 256)
        (v / 2 ^ 24 % 256)
        (v / 2 ^ 16 % 256)
        (v / 2 ^ 8 % 256)
        (v % 256)
      ≡ v
join8_lem v h = rw (
  at_48,
  from 48 (v / 2 ^ 48) (v / 2 ^ 40 % 256 * 2 ^ 40) (v / 2 ^ 40 * 2 ^ 40) (omega arith)
      (omega arith),
  from 40 (v / 2 ^ 40) (v / 2 ^ 32 % 256 * 2 ^ 32) (v / 2 ^ 32 * 2 ^ 32) (omega arith)
      (omega arith),
  from 32 (v / 2 ^ 32) (v / 2 ^ 24 % 256 * 2 ^ 24) (v / 2 ^ 24 * 2 ^ 24) (omega arith)
      (omega arith),
  from 24 (v / 2 ^ 24) (v / 2 ^ 16 % 256 * 2 ^ 16) (v / 2 ^ 16 * 2 ^ 16) (omega arith)
      (omega arith),
  from 16 (v / 2 ^ 16) (v / 2 ^ 8 % 256 * 2 ^ 8) (v / 2 ^ 8 * 2 ^ 8) (omega arith) (omega arith),
  from 8 (v / 2 ^ 8) (v % 256) v (omega arith) (omega arith),
)
  where
    at_48 : bit_or (v / 2 ^ 56 % 256 * 2 ^ 56) (v / 2 ^ 48 % 256 * 2 ^ 48) ≡ v / 2 ^ 48 * 2 ^ 48
    at_48 =
        bit_or_join 56 (v / 2 ^ 56 % 256) (v / 2 ^ 48 % 256 * 2 ^ 48) (omega arith) ∙ omega arith

    from : (k high low r : ℕ) → low < 2 ^ k → high * 2 ^ k + low ≡ r → bit_or (high * 2 ^ k) low ≡ r
    from k high low r small e = bit_or_join k high low small ∙ e

-- The masks that tell the kinds of a one-byte value apart.
high_three_table : all_below 256 (λ x. bit_and x 0xe0 == x / 32 * 32) ≡ true
unfolding all_below
high_three_table = refl

pub bit_and-high_three : (x : ℕ) → x < 256 → bit_and x 0xe0 ≡ x / 32 * 32
bit_and-high_three x h = (==_iff _ _).0 (all_below_at 256 _ x high_three_table h)

high_four_table : all_below 256 (λ x. bit_and x 0xf0 == x / 16 * 16) ≡ true
unfolding all_below
high_four_table = refl

pub bit_and-high_four : (x : ℕ) → x < 256 → bit_and x 0xf0 ≡ x / 16 * 16
bit_and-high_four x h = (==_iff _ _).0 (all_below_at 256 _ x high_four_table h)

low_five_table : all_below 256 (λ x. bit_and x 0x1f == x % 32) ≡ true
unfolding all_below
low_five_table = refl

pub bit_and-low_five : (x : ℕ) → x < 256 → bit_and x 0x1f ≡ x % 32
bit_and-low_five x h = (==_iff _ _).0 (all_below_at 256 _ x low_five_table h)

all_bits_table : all_below 256 (λ x. bit_and x 0xff == x) ≡ true
unfolding all_below
all_bits_table = refl

pub bit_and-all_bits : (x : ℕ) → x < 256 → bit_and x 0xff ≡ x
bit_and-all_bits x h = (==_iff _ _).0 (all_below_at 256 _ x all_bits_table h)

-- The flags of short texts, arrays and maps.
string_flag_table : all_below 32 (λ n. bit_or 0xa0 n == 0xa0 + n) ≡ true
unfolding all_below
string_flag_table = refl

pub string_flag : (n : ℕ) → n < 32 → bit_or 0xa0 n ≡ 0xa0 + n
string_flag n h = (==_iff _ _).0 (all_below_at 32 _ n string_flag_table h)

array_flag_table : all_below 16 (λ n. bit_or 0x90 n == 0x90 + n) ≡ true
unfolding all_below
array_flag_table = refl

pub array_flag : (n : ℕ) → n < 16 → bit_or 0x90 n ≡ 0x90 + n
array_flag n h = (==_iff _ _).0 (all_below_at 16 _ n array_flag_table h)

map_flag_table : all_below 16 (λ n. bit_or 0x80 n == 0x80 + n) ≡ true
unfolding all_below
map_flag_table = refl

pub map_flag : (n : ℕ) → n < 16 → bit_or 0x80 n ≡ 0x80 + n
map_flag n h = (==_iff _ _).0 (all_below_at 16 _ n map_flag_table h)
