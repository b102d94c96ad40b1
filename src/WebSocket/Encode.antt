-- ===== src/WebSocket/Encode.antt =====
-- `webSocket_encode` and `webSocket_encodeVec`: the blocks that go out for one payload. Each block
-- is an entry of `pOutBufVec`.
pub mod Frame
pub mod Frames
pub mod Blocks
pub mod RoundTrip
use frog_game_framework.Base.{
  ℕ, zero, suc, ◌+◌, ◌-◌, ◌*◌, ◌/◌, ◌%◌, ◌^◌, bit_and, bit_or, List, [], ◌∷◌, Option, some, ltb,
  ◌==◌, if◌then◌else◌, length, ◌>>=◌, ◌>>◌,
}
use frog_game_framework.Memory.{Memory, load, store}
use frog_game_framework.Fragments.{
  encode_buf_count, has_blocks, fragment_offset, vec_length, copy_all, Cursor, gather,
}
use frog_game_framework.WebSocket.{
  frame_final, frame_ping, frame_pong, frame_close, frame_binary, frame_text, frame_mask,
}

-- The switch on `uiFlag & DEF_WS_FRAME_MASK`.
unfoldable pub opcode_of : ℕ → ℕ
opcode_of flag =
    let kind = bit_and flag frame_mask in
    if kind == frame_text
    then 1
    else if kind == frame_binary
    then 2
    else if kind == frame_close
    then 8
    else if kind == frame_ping
    then 9
    else if kind == frame_pong
    then 10
    else 1

-- The stores that make the header for a length below 126, and for a longer one, with the byte that
-- marks it.
pub short_header : List ℕ → ℕ → ℕ → Option (List ℕ)
short_header block first n = do b1 ← store block 1 ((n % 256) ∷ []); store b1 0 (first ∷ [])

pub long_header : List ℕ → ℕ → ℕ → ℕ → Option (List ℕ)
long_header block first mark n = do
  b1 ← store block 1 (mark ∷ (n / 2 ^ 8 % 256) ∷ (n % 256) ∷ [])
  store b1 0 (first ∷ [])

-- What stands before a payload of `n` bytes, `iLength - n`.
abbrev pub header_size : ℕ → ℕ
header_size n = if ltb n 126 then 2 else 4

module _ (memory : Memory) where
  open memory use {malloc}

  -- The block of a last fragment, or of the only one, with its header; the payload is copied
  -- behind it, from `header_size` on.
  pub final_block : ℕ → ℕ → Option (List ℕ)
  final_block first n =
      if ltb n 126
      then short_header (malloc (2 + n)) first n
      else long_header (malloc (4 + n)) first 126 n

  -- The block of a fragment that others follow.
  pub middle_block : ℕ → ℕ → ℕ → Option (List ℕ)
  middle_block mark j opcode =
      long_header (malloc (4 + 0xffff)) (if j == 0 then opcode else 0) mark 0xffff

  -- The loop over the fragments from `j` on; `left` counts those behind `j`.
  pub encode_loop : ℕ → ℕ → List ℕ → ℕ → Option (List (List ℕ))
  encode_loop zero j payload opcode = do
    offset ← fragment_offset j
    chunk ← load payload offset (length payload - offset)
    block ← final_block frame_final (length chunk)
    b ← store block (header_size (length chunk)) chunk
    some (b ∷ [])
  encode_loop (suc left) j payload opcode = do
    offset ← fragment_offset j
    block ← middle_block 126 j opcode
    chunk ← load payload offset 0xffff
    b ← store block 4 chunk
    rest ← encode_loop left (j + 1) payload opcode
    some (b ∷ rest)

  pub encode : List ℕ → ℕ → Option (List (List ℕ))
  encode payload flag =
      let n = length payload in
      let count = encode_buf_count n in
      if count == 1
      then (do
        block ← final_block (bit_or (opcode_of flag) frame_final) n
        b ← store block (header_size n) payload
        some (b ∷ []))
      else if has_blocks count
      then encode_loop (count - 1) 0 payload (opcode_of flag)
      else some []

  -- The same loop over several source buffers; `n` is the sum of their lengths.
  pub encode_vec_loop : ℕ → ℕ → ℕ → Cursor → ℕ → Option (List (List ℕ))
  encode_vec_loop zero j n cursor opcode = do
    offset ← fragment_offset j
    block ← final_block frame_final (n - offset)
    (b, _) ← gather cursor.sources cursor.offset block (header_size (n - offset))
    some (b ∷ [])
  encode_vec_loop (suc left) j n cursor opcode = do
    block ← middle_block 0xff j opcode
    (b, next) ← gather cursor.sources cursor.offset block 4
    rest ← encode_vec_loop left (j + 1) n next opcode
    some (b ∷ rest)

  pub encode_vec : List (List ℕ) → ℕ → Option (List (List ℕ))
  encode_vec srcs flag =
      let n = vec_length srcs in
      let count = encode_buf_count n in
      if count == 1
      then (do
        block ← final_block (bit_or (opcode_of flag) frame_final) n
        b ← copy_all srcs block (header_size n)
        some (b ∷ []))
      else if has_blocks count
      then encode_vec_loop (count - 1) 0 n (record { sources = srcs; offset = 0 }) (opcode_of flag)
      else some []
