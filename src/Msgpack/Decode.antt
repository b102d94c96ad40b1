-- ===== src/Msgpack/Decode.antt =====
-- The readers. `some (none, d)` is the answer false, or the length -1; a read outside the buffer is
-- a fault, `none`.
use frog_game_framework.Base.{
  ℕ, ◌+◌, bit_and, Bool, true, false, List, Option, none, some, ltb, leb, ◌==◌, if◌then◌else◌,
  ◌>>=◌,
}
use frog_game_framework.Memory.{add_size, load}
use frog_game_framework.Msgpack.{
  Decoder, byte_at, word2_at, word4_at, word8_at, sign_extend, advance,
}

unfoldable pub init : List ℕ → ℕ → ℕ → Decoder
init buffer length offset = record { buffer = buffer; length = length; offset = offset }

-- Whether nothing is left, the test that every reader starts with.
abbrev pub at_end : Decoder → Bool
at_end d = leb d.length d.offset

-- A value of `n` bytes, flag included, if the buffer has them.
abbrev pub sized : Decoder → ℕ → Option ℕ → Option (Option (ℕ × ℕ))
sized d n value =
    if ltb d.length (add_size d.offset n) then some none else (value >>= λ v. some (some (v, n)))

-- The switch of `peekInteger` and `readInteger`: the value and its size. The signed shift in the case
-- 0xd2 of `readInteger`, which C leaves undefined for a byte from 0x80 on, is that of GCC.
unfoldable pub integer_at : Decoder → ℕ → Option (Option (ℕ × ℕ))
integer_at d flag =
    if flag == 0xcc
    then sized d 2 (byte_at d 1)
    else if flag == 0xd0
    then sized d 2 (byte_at d 1 >>= λ b. some (sign_extend 8 b))
    else if flag == 0xcd
    then sized d 3 (word2_at d)
    else if flag == 0xd1
    then sized d 3 (word2_at d >>= λ w. some (sign_extend 16 w))
    else if flag == 0xce
    then sized d 5 (word4_at d)
    else if flag == 0xd2
    then sized d 5 (word4_at d >>= λ w. some (sign_extend 32 w))
    else if flag == 0xcf
    then sized d 9 (word8_at d)
    else if flag == 0xd3
    then sized d 9 (word8_at d)
    else if bit_and flag 0x80 == 0
    then some (some (flag, 1))
    else if bit_and flag 0xe0 == 0xe0
    then some (some (sign_extend 8 flag, 1))
    else some none

-- The answer of a reader that found a value and its size, or nothing.
abbrev pub answer : Decoder → Option (ℕ × ℕ) → Option ℕ × Decoder
answer d none = (none, d)
answer d (some (v, n)) = (some v, advance d n)

unfoldable pub peek_integer : Decoder → Option (Option ℕ)
peek_integer d =
    if at_end d
    then some none
    else (do flag ← byte_at d 0; found ← integer_at d flag; some (answer d found).0)

unfoldable pub read_integer : Decoder → Option (Option ℕ × Decoder)
read_integer d =
    if at_end d
    then some (none, d)
    else (do flag ← byte_at d 0; found ← integer_at d flag; some (answer d found))

unfoldable pub read_boolean : Decoder → Option (Option Bool × Decoder)
read_boolean d = if at_end d then some (none, d) else (do
  flag ← byte_at d 0
  if flag == 0xc3
      then some (some true, advance d 1)
      else if flag == 0xc2
      then some (some false, advance d 1)
      else some (none, d))

-- A text of `n` bytes that starts `base` bytes into the value.
abbrev pub text : Decoder → ℕ → ℕ → Option (Option (List ℕ) × Decoder)
text d base n =
    if ltb d.length (add_size (add_size d.offset base) n)
    then some (none, d)
    else (do bytes ← load d.buffer (d.offset + base) n; some (some bytes, advance d (base + n)))

-- The same where the length itself may be missing.
abbrev pub long_text : Decoder → ℕ → Option ℕ → Option (Option (List ℕ) × Decoder)
long_text d base count =
    if ltb d.length (add_size d.offset base) then some (none, d) else (count >>= text d base)

unfoldable pub string_at : Decoder → ℕ → Option (Option (List ℕ) × Decoder)
string_at d flag =
    if flag == 0xd9
    then long_text d 2 (byte_at d 1)
    else if flag == 0xda
    then long_text d 3 (word2_at d)
    else if flag == 0xdb
    then long_text d 5 (word4_at d)
    else if bit_and flag 0xe0 == 0xa0
    then text d 1 (bit_and flag 0x1f)
    else some (none, d)

unfoldable pub read_string : Decoder → Option (Option (List ℕ) × Decoder)
read_string d = if at_end d then some (none, d) else (byte_at d 0 >>= string_at d)

-- The case 0xc4 reads the length without a test that there is one.
unfoldable pub binary_at : Decoder → ℕ → Option (Option (List ℕ) × Decoder)
binary_at d flag =
    if flag == 0xc4
    then byte_at d 1 >>= text d 2
    else if flag == 0xc5
    then long_text d 3 (word2_at d)
    else if flag == 0xc6
    then long_text d 5 (word4_at d)
    else some (none, d)

unfoldable pub read_binary : Decoder → Option (Option (List ℕ) × Decoder)
read_binary d = if at_end d then some (none, d) else (byte_at d 0 >>= binary_at d)

-- The switches of `readArray`, `readMap` and `readUserPointer`.
unfoldable pub array_at : Decoder → ℕ → Option (Option (ℕ × ℕ))
array_at d flag =
    if flag == 0xdc
    then sized d 3 (word2_at d)
    else if flag == 0xdd
    then sized d 5 (word4_at d)
    else if bit_and flag 0xf0 == 0x90
    then some (some (bit_and flag 0x0f, 1))
    else some none

unfoldable pub map_at : Decoder → ℕ → Option (Option (ℕ × ℕ))
map_at d flag =
    if flag == 0xde
    then sized d 3 (word2_at d)
    else if flag == 0xdf
    then sized d 5 (word4_at d)
    else if bit_and flag 0xf0 == 0x80
    then some (some (bit_and flag 0x0f, 1))
    else some none

unfoldable pub user_pointer_at : Decoder → ℕ → Option (Option (ℕ × ℕ))
user_pointer_at d flag =
    if flag == 0xc7
    then sized d 3 (word2_at d)
    else if flag == 0xc8
    then sized d 5 (word4_at d)
    else if flag == 0xc9
    then sized d 9 (word8_at d)
    else some none

unfoldable pub read_array : Decoder → Option (Option ℕ × Decoder)
read_array d =
    if at_end d
    then some (none, d)
    else (do flag ← byte_at d 0; found ← array_at d flag; some (answer d found))

unfoldable pub read_map : Decoder → Option (Option ℕ × Decoder)
read_map d =
    if at_end d
    then some (none, d)
    else (do flag ← byte_at d 0; found ← map_at d flag; some (answer d found))

unfoldable pub read_user_pointer : Decoder → Option (Option ℕ × Decoder)
read_user_pointer d =
    if at_end d
    then some (none, d)
    else (do flag ← byte_at d 0; found ← user_pointer_at d flag; some (answer d found))

pub is_end : Decoder → Bool
is_end d = d.length == d.offset
