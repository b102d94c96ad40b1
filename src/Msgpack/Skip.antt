-- ===== src/Msgpack/Skip.antt =====
-- The functions that pass over a value, and the one that names its kind.
use frog_game_framework.Base.{
  ℕ, ◌+◌, bit_and, Bool, true, false, Option, some, ltb, ◌==◌, ◌||◌, if◌then◌else◌, ◌>>=◌,
}
use frog_game_framework.Memory.{add_size}
use frog_game_framework.Msgpack.{Decoder, byte_at, word2_at, word4_at, advance}
use frog_game_framework.Msgpack.Decode.{at_end}

-- Passes over `n` bytes, if the buffer has them.
abbrev pub pass : Decoder → ℕ → Option (Bool × Decoder)
pass d n = if ltb d.length (add_size d.offset n) then some (false, d) else some (true, advance d n)

-- The last cases of a switch: a value of one byte.
abbrev pub pass_fixed : Decoder → ℕ → Option (Bool × Decoder)
pass_fixed d flag =
    if bit_and flag 0x80 == 0
    then some (true, advance d 1)
    else if bit_and flag 0xe0 == 0xe0
    then some (true, advance d 1)
    else some (false, d)

unfoldable pub skip_integer_at : Decoder → ℕ → Option (Bool × Decoder)
skip_integer_at d flag =
    if flag == 0xcc
    then pass d 2
    else if flag == 0xd0
    then pass d 2
    else if flag == 0xcd
    then pass d 3
    else if flag == 0xd1
    then pass d 3
    else if flag == 0xce
    then pass d 5
    else if flag == 0xd2
    then pass d 5
    else if flag == 0xcf
    then pass d 9
    else if flag == 0xd3
    then pass d 9
    else pass_fixed d flag

unfoldable pub skip_integer : Decoder → Option (Bool × Decoder)
skip_integer d = if at_end d then some (false, d) else (byte_at d 0 >>= skip_integer_at d)

pub skip_boolean : Decoder → Option (Bool × Decoder)
skip_boolean d = if at_end d then some (false, d) else (do
  flag ← byte_at d 0
  if flag == 0xc3
      then some (true, advance d 1)
      else if flag == 0xc2
      then some (true, advance d 1)
      else some (false, d))

pub skip_real_at : Decoder → ℕ → Option (Bool × Decoder)
skip_real_at d flag =
    if flag == 0xcc || flag == 0xd0
    then pass d 2
    else if flag == 0xcd || flag == 0xd1
    then pass d 3
    else if flag == 0xce || flag == 0xd2
    then pass d 5
    else if flag == 0xcf || flag == 0xd3
    then pass d 9
    else if flag == 0xca
    then pass d 5
    else if flag == 0xcb
    then pass d 9
    else pass_fixed d flag

pub skip_real : Decoder → Option (Bool × Decoder)
skip_real d = if at_end d then some (false, d) else (byte_at d 0 >>= skip_real_at d)

-- Passes over a text of `n` bytes behind its head of `base` bytes.
abbrev pub pass_text : Decoder → ℕ → ℕ → Option (Bool × Decoder)
pass_text d base n =
    if ltb d.length (add_size (add_size d.offset base) n)
    then some (false, d)
    else some (true, advance d (base + n))

abbrev pub pass_long_text : Decoder → ℕ → Option ℕ → Option (Bool × Decoder)
pass_long_text d base count =
    if ltb d.length (add_size d.offset base) then some (false, d) else (count >>= pass_text d base)

unfoldable pub skip_string_at : Decoder → ℕ → Option (Bool × Decoder)
skip_string_at d flag =
    if flag == 0xd9
    then pass_long_text d 2 (byte_at d 1)
    else if flag == 0xda
    then pass_long_text d 3 (word2_at d)
    else if flag == 0xdb
    then pass_long_text d 5 (word4_at d)
    else if bit_and flag 0xe0 == 0xa0
    then pass_text d 1 (bit_and flag 0x1f)
    else some (false, d)

unfoldable pub skip_string : Decoder → Option (Bool × Decoder)
skip_string d = if at_end d then some (false, d) else (byte_at d 0 >>= skip_string_at d)

unfoldable pub skip_binary_at : Decoder → ℕ → Option (Bool × Decoder)
skip_binary_at d flag =
    if flag == 0xc4
    then pass_long_text d 2 (byte_at d 1)
    else if flag == 0xc5
    then pass_long_text d 3 (word2_at d)
    else if flag == 0xc6
    then pass_long_text d 5 (word4_at d)
    else some (false, d)

unfoldable pub skip_binary : Decoder → Option (Bool × Decoder)
skip_binary d = if at_end d then some (false, d) else (byte_at d 0 >>= skip_binary_at d)

pub skip_nil : Decoder → Option (Bool × Decoder)
skip_nil d =
    if at_end d
    then some (false, d)
    else (do flag ← byte_at d 0; if flag == 0xc0 then some (true, advance d 1) else some (false, d))

-- `enMsgpackValueType`.
pub data ValueType : Type 0 where
  integer : ValueType
  boolean : ValueType
  real : ValueType
  string : ValueType
  binary : ValueType
  array : ValueType
  map : ValueType
  nil : ValueType
  user_pointer : ValueType
  invalid : ValueType

-- The last cases of `getType`.
unfoldable pub fixed_type : ℕ → ValueType
fixed_type flag =
    if bit_and flag 0x80 == 0
    then ValueType.integer
    else if bit_and flag 0xe0 == 0xe0
    then ValueType.integer
    else if bit_and flag 0xe0 == 0xa0
    then ValueType.string
    else if bit_and flag 0xf0 == 0x90
    then ValueType.array
    else if bit_and flag 0xf0 == 0x80
    then ValueType.map
    else ValueType.invalid

unfoldable pub type_of_flag : ℕ → ValueType
type_of_flag flag =
    if flag == 0xcc || flag == 0xd0
    then ValueType.integer
    else if flag == 0xcd || flag == 0xd1
    then ValueType.integer
    else if flag == 0xce || flag == 0xd2
    then ValueType.integer
    else if flag == 0xcf || flag == 0xd3
    then ValueType.integer
    else if flag == 0xc3 || flag == 0xc2
    then ValueType.boolean
    else if flag == 0xca || flag == 0xcb
    then ValueType.real
    else if flag == 0xd9 || (flag == 0xda || flag == 0xdb)
    then ValueType.string
    else if flag == 0xc4 || (flag == 0xc5 || flag == 0xc6)
    then ValueType.binary
    else if flag == 0xc7 || (flag == 0xc8 || flag == 0xc9)
    then ValueType.user_pointer
    else if flag == 0xdc || flag == 0xdd
    then ValueType.array
    else if flag == 0xde || flag == 0xdf
    then ValueType.map
    else if flag == 0xc0
    then ValueType.nil
    else fixed_type flag

unfoldable pub get_type : Decoder → Option ValueType
get_type d =
    if at_end d then some ValueType.invalid else (byte_at d 0 >>= λ flag. some (type_of_flag flag))
