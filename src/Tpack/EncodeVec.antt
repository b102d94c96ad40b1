-- ===== src/Tpack/EncodeVec.antt =====
-- `tpack_encodeVec`: the blocks that go out for a payload in several source buffers.
pub mod Joined
use frog_game_framework.Base.{
  ℕ, zero, suc, ◌+◌, ◌-◌, ◌/◌, bit_or, List, [], ◌∷◌, Option, some, ltb, ◌==◌, if◌then◌else◌, ◌>>=◌,
  ◌>>◌,
}
use frog_game_framework.Memory.{Memory}
use frog_game_framework.Fragments.{
  encode_buf_count, has_blocks, fragment_offset, vec_length, copy_all, Cursor, gather,
}
use frog_game_framework.Tpack.{frame_final}
use frog_game_framework.Tpack.Encode.{
  opcode_of, token_byte_of, short_header, long_header, short_size, long_size,
}

-- What stands before a payload of `n` bytes in a last block, or in the only one.
abbrev pub vec_header_size : ℕ → ℕ → ℕ
vec_header_size n token_byte = if ltb n 0xff then short_size token_byte else long_size token_byte

module _ (memory : Memory) where
  open memory use {malloc}

  -- The block of a last fragment, or of the only one, with its header.
  pub vec_final_block : ℕ → ℕ → ℕ → ℕ → Option (List ℕ)
  vec_final_block first n token_byte token =
      if ltb n 0xff
      then short_header (malloc (short_size token_byte + n)) first token_byte token n
      else long_header (malloc (long_size token_byte + n)) first token_byte token n

  -- The block of a fragment that others follow.
  pub vec_middle_block : ℕ → ℕ → ℕ → ℕ → Option (List ℕ)
  vec_middle_block j opcode token_byte token =
      long_header (malloc (long_size token_byte + 0xffff)) (if j == 0 then opcode else 0) token_byte
        token 0xffff

  -- The loop over the fragments from `j` on; `left` counts those behind `j`.
  pub encode_vec_loop : ℕ → ℕ → ℕ → Cursor → ℕ → ℕ → ℕ → Option (List (List ℕ))
  encode_vec_loop zero j n cursor opcode token_byte token = do
    offset ← fragment_offset j
    block ← vec_final_block frame_final (n - offset) token_byte token
    (b, _) ← gather cursor.sources cursor.offset block (vec_header_size (n - offset) token_byte)
    some (b ∷ [])
  encode_vec_loop (suc left) j n cursor opcode token_byte token = do
    block ← vec_middle_block j opcode token_byte token
    (b, next) ← gather cursor.sources cursor.offset block (long_size token_byte)
    rest ← encode_vec_loop left (j + 1) n next opcode token_byte token
    some (b ∷ rest)

  pub encode_vec : List (List ℕ) → ℕ → ℕ → Option (List (List ℕ))
  encode_vec srcs flag token =
      let n = vec_length srcs in
      let token_byte = token_byte_of flag in
      let count = encode_buf_count n in
      if count == 1
      then (do
        block ← vec_final_block (bit_or (opcode_of flag) frame_final) n token_byte token
        b ← copy_all srcs block (vec_header_size n token_byte)
        some (b ∷ []))
      else if has_blocks count
      then encode_vec_loop (count - 1) 0 n (record { sources = srcs; offset = 0 }) (opcode_of flag)
          token_byte token
      else some []
