-- ===== src/Msgpack.antt =====
-- The msgpack codec of src/core/include/msgpack and src/core/source/msgpack. An `int64_t` is its
-- word of 64 bits, a number below 2^64: it is negative from 2^63 on. The pointers of
-- `writeUserPointer` are words too (the code for 64-bit platforms). The two functions on `double`
-- are not modelled.
pub mod Decode
pub mod Skip
pub mod Encode
mod Words
mod Ahead
pub mod RoundTrip
mod TextRoundTrip
pub mod ReadBack
pub mod SkipRead
pub mod Fault
pub mod Kind
mod Tests
use frog_game_framework.Base.{
  ℕ, ◌+◌, ◌*◌, ◌-◌, ◌^◌, bit_or, List, Option, some, ltb, if◌then◌else◌, get_elem?, ◌>>=◌,
}
use frog_game_framework.Memory.{add_size}

-- `msgpackDecode_tt`.
pub record Decoder : Type 0 where
  pub buffer : List ℕ
  pub length : ℕ
  pub offset : ℕ

-- `pBuffer[k]` behind `msgpackDecode_getBuffer`.
abbrev pub byte_at : Decoder → ℕ → Option ℕ
byte_at d k = get_elem? d.buffer (d.offset + k)

-- Numbers of two, four and eight bytes behind the flag, the highest byte first.
unfoldable pub word2_at : Decoder → Option ℕ
word2_at d = do b1 ← byte_at d 1; b2 ← byte_at d 2; some (bit_or (b1 * 2 ^ 8) b2)

unfoldable pub word4_at : Decoder → Option ℕ
word4_at d = do
  b1 ← byte_at d 1
  b2 ← byte_at d 2
  b3 ← byte_at d 3
  b4 ← byte_at d 4
  some (bit_or (bit_or (bit_or (b1 * 2 ^ 24) (b2 * 2 ^ 16)) (b3 * 2 ^ 8)) b4)

-- The eight bytes, joined one by one.
abbrev pub join8 : ℕ → ℕ → ℕ → ℕ → ℕ → ℕ → ℕ → ℕ → ℕ
join8 b1 b2 b3 b4 b5 b6 b7 b8 =
    let b1_2 = bit_or (b1 * 2 ^ 56) (b2 * 2 ^ 48) in
    let b1_4 = bit_or (bit_or b1_2 (b3 * 2 ^ 40)) (b4 * 2 ^ 32) in
    let b1_6 = bit_or (bit_or b1_4 (b5 * 2 ^ 24)) (b6 * 2 ^ 16) in
    bit_or (bit_or b1_6 (b7 * 2 ^ 8)) b8

unfoldable pub word8_at : Decoder → Option ℕ
word8_at d = do
  b1 ← byte_at d 1
  b2 ← byte_at d 2
  b3 ← byte_at d 3
  b4 ← byte_at d 4
  b5 ← byte_at d 5
  b6 ← byte_at d 6
  b7 ← byte_at d 7
  b8 ← byte_at d 8
  some (join8 b1 b2 b3 b4 b5 b6 b7 b8)

-- The word of the signed number of `bits` bits that `n` is the word of.
unfoldable pub sign_extend : ℕ → ℕ → ℕ
sign_extend bits n = if ltb n (2 ^ (bits - 1)) then n else n + (2 ^ 64 - 2 ^ bits)

-- `nOffset += n`.
abbrev pub advance : Decoder → ℕ → Decoder
advance d n = record d { offset = add_size d.offset n }
