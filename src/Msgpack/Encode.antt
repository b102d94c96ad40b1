-- ===== src/Msgpack/Encode.antt =====
-- The writers. `none` is a store outside the buffer, or a loop that does not end.
pub mod Written
use frog_game_framework.Base.{
  ℕ, zero, suc, ◌+◌, ◌-◌, ◌*◌, ◌/◌, ◌%◌, ◌^◌, ◌≤◌, ◌≡◌, bit_and, bit_or, Bool, true, false, List,
  [], ◌∷◌, Option, none, some, ltb, leb, ◌==◌, ◌||◌, if◌then◌else◌, length, take, ◌>>=◌,
}
use frog_game_framework.Memory.{add_size, store}

-- What replaces the buffer by another one: `fnExpand`, or `mem_realloc` where that is NULL. It keeps
-- the first `offset` bytes, for a new length that is not below the old one.
pub record Expander : Type 0 where
  pub expand : List ℕ → ℕ → ℕ → List ℕ
  pub length-expand :
      (buffer : List ℕ) (offset size : ℕ) → length (expand buffer offset size) ≡ size
  pub take-expand :
      (buffer : List ℕ) (offset size : ℕ)
      → offset ≤ length buffer
      → length buffer ≤ size
      → take offset (expand buffer offset size) ≡ take offset buffer

-- `msgpackEncode_tt`, without the callback.
pub record Encoder : Type 0 where
  pub buffer : List ℕ
  pub length : ℕ
  pub offset : ℕ

-- The loop that doubles the length. It doubles at most 63 times, since the length is then 0 on 64
-- bits and stays so; the loop does not end where that is too little.
pub grow : ℕ → ℕ → ℕ → Option ℕ
grow zero needed size = none
grow (suc fuel) needed size = elim (ltb size needed) [
  | true ↦ grow fuel needed (size * 2 % 2 ^ 64)
  | false ↦ some size
]

abbrev pub max_size : ℕ → ℕ → ℕ
max_size a b = if leb b a then a else b

-- The bytes of a value, as the writers store them.
abbrev pub bytes2 : ℕ → List ℕ
bytes2 v = (v / 2 ^ 8 % 256) ∷ (v % 256) ∷ []

abbrev pub bytes4 : ℕ → List ℕ
bytes4 v = (v / 2 ^ 24 % 256) ∷ (v / 2 ^ 16 % 256) ∷ (v / 2 ^ 8 % 256) ∷ (v % 256) ∷ []

abbrev pub bytes8 : ℕ → List ℕ
bytes8 v =
    (v / 2 ^ 56 % 256)
    ∷ (v / 2 ^ 48 % 256)
    ∷ (v / 2 ^ 40 % 256)
    ∷ (v / 2 ^ 32 % 256)
    ∷ (v / 2 ^ 24 % 256)
    ∷ (v / 2 ^ 16 % 256)
    ∷ (v / 2 ^ 8 % 256)
    ∷ (v % 256)
    ∷ []

unfoldable pub integer_bytes : ℕ → List ℕ
integer_bytes v =
    if ltb v (2 ^ 63)
    then (if leb v 127
        then bit_and v 0x7f ∷ []
        else if leb v 0xff
        then 0xcc ∷ (v % 256) ∷ []
        else if leb v 0xffff
        then 0xcd ∷ bytes2 v
        else if leb v 0xffffffff
        then 0xce ∷ bytes4 v
        else 0xcf ∷ bytes8 v)
    else (if leb (2 ^ 64 - 32) v
        then (v % 256) ∷ []
        else if leb (2 ^ 64 - 128) v
        then 0xd0 ∷ (v % 256) ∷ []
        else if leb (2 ^ 64 - 32768) v
        then 0xd1 ∷ bytes2 v
        else if leb (2 ^ 64 - 2147483648) v
        then 0xd2 ∷ bytes4 v
        else 0xd3 ∷ bytes8 v)

unfoldable pub string_head : ℕ → List ℕ
string_head n =
    if ltb n 32
    then bit_or 0xa0 (bit_and n 0xff) ∷ []
    else if leb n 0xff
    then 0xd9 ∷ (n % 256) ∷ []
    else if leb n 0xffff
    then 0xda ∷ bytes2 n
    else 0xdb ∷ bytes4 n

unfoldable pub binary_head : ℕ → List ℕ
binary_head n =
    if leb n 0xff
    then 0xc4 ∷ (n % 256) ∷ []
    else if leb n 0xffff
    then 0xc5 ∷ bytes2 n
    else 0xc6 ∷ bytes4 n

-- `iValue <= n` on `int64_t`, for an `n` that is not negative.
abbrev signed_le : ℕ → ℕ → Bool
signed_le v n = leb (2 ^ 63) v || leb v n

unfoldable pub array_bytes : ℕ → List ℕ
array_bytes v =
    if signed_le v 15
    then bit_or 0x90 (bit_and v 0x0f) ∷ []
    else if signed_le v 0xffff
    then 0xdc ∷ bytes2 v
    else 0xdd ∷ bytes4 v

unfoldable pub map_bytes : ℕ → List ℕ
map_bytes v =
    if signed_le v 15
    then bit_or 0x80 (bit_and v 0x0f) ∷ []
    else if signed_le v 0xffff
    then 0xde ∷ bytes2 v
    else 0xdf ∷ bytes4 v

unfoldable pub user_pointer_bytes : ℕ → List ℕ
user_pointer_bytes v =
    if leb v 0xffff
    then 0xc7 ∷ bytes2 v
    else if leb v 0xffffffff
    then 0xc8 ∷ bytes4 v
    else 0xc9 ∷ bytes8 v

module _ (expander : Expander) where
  open expander use {expand}

  -- Without a buffer, one of at least 256 bytes is made.
  pub init : Option (List ℕ) → ℕ → Encoder
  init none size = record {
    buffer = expand [] 0 (max_size size 256);
    length = max_size size 256;
    offset = 0;
  }
  init (some block) size = record { buffer = block; length = size; offset = 0 }

  -- Makes room for `n` bytes.
  pub append : Encoder → ℕ → Option Encoder
  append e n =
      let needed = add_size n e.offset in
      if ltb e.length needed
      then (do
        size ← grow 64 needed e.length
        some (record { buffer = expand e.buffer e.offset size; length = size; offset = e.offset }))
      else some e

  -- `append`, then the stores, then `nOffset += n`.
  pub emit : Encoder → List ℕ → Option Encoder
  emit e bytes = do
    e1 ← append e (length bytes)
    b ← store e1.buffer e1.offset bytes
    some (record { buffer = b; length = e1.length; offset = add_size e1.offset (length bytes) })

  unfoldable pub write_integer : Encoder → ℕ → Option Encoder
  write_integer e v = emit e (integer_bytes v)

  pub write_boolean : Encoder → Bool → Option Encoder
  write_boolean e b = emit e ((if b then 0xc3 else 0xc2) ∷ [])

  unfoldable pub write_string : Encoder → List ℕ → Option Encoder
  write_string e s = do
    e1 ← emit e (string_head (length s))
    if ltb 0 (length s) then emit e1 s else some e1

  pub write_binary : Encoder → List ℕ → Option Encoder
  write_binary e s = do
    e1 ← emit e (binary_head (length s))
    if ltb 0 (length s) then emit e1 s else some e1

  pub write_array : Encoder → ℕ → Option Encoder
  write_array e v = emit e (array_bytes v)

  pub write_map : Encoder → ℕ → Option Encoder
  write_map e v = emit e (map_bytes v)

  pub write_user_pointer : Encoder → ℕ → Option Encoder
  write_user_pointer e v = emit e (user_pointer_bytes v)

  pub write_nil : Encoder → Option Encoder
  write_nil e = emit e (0xc0 ∷ [])

-- Exchanges the buffer, its length and, where it is asked for, the offset with the caller's.
pub swap : Encoder → List ℕ → ℕ → Option ℕ → Encoder × (List ℕ × (ℕ × Option ℕ))
swap e buffer size none =
    (record { buffer = buffer; length = size; offset = e.offset }, (e.buffer, (e.length, none)))
swap e buffer size (some offset) = (
  record { buffer = buffer; length = size; offset = offset },
  (e.buffer, (e.length, some e.offset)),
)
