-- ===== src/Tpack/Encode.antt =====
-- `tpack_encode`: the blocks that go out for one payload. Each block is an
-- entry of `pOutBufVec`. A block that is allocated too small makes the copy a fault, `none`.
pub mod Frame
pub mod RoundTrip
pub mod Limits
use frog_game_framework.Base.{
  ℕ, zero, suc, ◌+◌, ◌-◌, ◌*◌, ◌/◌, ◌%◌, ◌^◌, bit_or, List, [], ◌∷◌, Option, none, some, ltb, ◌==◌,
  if◌then◌else◌, length, drop, take, ◌>>=◌, ◌>>◌, assert,
}
use frog_game_framework.Memory.{Memory, load, store}
use frog_game_framework.Fragments.{encode_buf_count, has_blocks, fragment_offset}
use frog_game_framework.Tpack.{
  frame_final, frame_reply, frame_call, frame_ping, frame_pong, frame_close, frame_binary,
  frame_text,
}

-- The switch on `uiFlag`: the opcode, and `uiTokenByte`.
unfoldable pub opcode_of : ℕ → ℕ
opcode_of flag =
    if flag == frame_text
    then 1
    else if flag == frame_binary
    then 2
    else if flag == frame_close
    then 3
    else if flag == frame_pong
    then 4
    else if flag == frame_ping
    then 5
    else if flag == frame_call
    then 6
    else if flag == frame_reply
    then 7
    else 0

unfoldable pub token_byte_of : ℕ → ℕ
token_byte_of flag =
    if flag == frame_close
    then 4
    else if flag == frame_pong
    then 4
    else if flag == frame_ping
    then 4
    else if flag == frame_call
    then 4
    else if flag == frame_reply
    then 4
    else 0

abbrev pub token_bytes : ℕ → List ℕ
token_bytes token =
    (token / 2 ^ 24 % 256) ∷ (token / 2 ^ 16 % 256) ∷ (token / 2 ^ 8 % 256) ∷ (token % 256) ∷ []

-- The stores that make the header for a length below 0xff, and for a longer one.
unfoldable pub short_header : List ℕ → ℕ → ℕ → ℕ → ℕ → Option (List ℕ)
short_header block first token_byte token n = do
  b1 ← (if token_byte == 0 then some block else store block 2 (token_bytes token))
  b2 ← store b1 1 ((n % 256) ∷ [])
  store b2 0 (first ∷ [])

unfoldable pub long_header : List ℕ → ℕ → ℕ → ℕ → ℕ → Option (List ℕ)
long_header block first token_byte token n = do
  b1 ← (if token_byte == 0 then some block else store block 4 (token_bytes token))
  b2 ← store b1 1 (0xff ∷ (n / 2 ^ 8 % 256) ∷ (n % 256) ∷ [])
  store b2 0 (first ∷ [])

-- `iLength - nLength`: what stands before the payload.
abbrev pub short_size : ℕ → ℕ
short_size token_byte = if token_byte == 0 then 2 else 6

abbrev pub long_size : ℕ → ℕ
long_size token_byte = if token_byte == 0 then 4 else 8

module _ (memory : Memory) where
  open memory use {malloc}

  -- The branch of one block.
  pub encode_single : List ℕ → ℕ → ℕ → ℕ → Option (List ℕ)
  encode_single payload opcode token_byte token =
      let n = length payload in
      if ltb n 0xff
      then (do
        block ←
            short_header (malloc (short_size token_byte + n)) (bit_or opcode frame_final) token_byte
              token n
        store block (short_size token_byte) payload)
      else (do
        block ←
            long_header (malloc (long_size token_byte + n)) (bit_or opcode frame_final) token_byte
              token n
        store block (long_size token_byte) payload)

  -- The last of several fragments, as `tpack_encode` makes it.
  pub encode_last : List ℕ → ℕ → ℕ → Option (List ℕ)
  encode_last chunk token_byte token =
      let n = length chunk in
      if ltb n 0xff
      then (do
        block ←
            short_header (malloc (if token_byte == 0 then 2 else 6 + n)) frame_final token_byte
              token n
        store block (short_size token_byte) chunk)
      else (do
        block ← long_header (malloc (long_size token_byte + n)) frame_final token_byte token n
        store block (long_size token_byte) chunk)

  -- A fragment that others follow, as `tpack_encode` makes it.
  pub encode_middle : List ℕ → ℕ → ℕ → ℕ → ℕ → Option (List ℕ)
  encode_middle chunk j opcode token_byte token = do
    block ←
        long_header (malloc (if token_byte == 0 then 4 + 0xffff else 8))
          (if j == 0 then opcode else 0) token_byte token 0xffff
    store block (long_size token_byte) chunk

  -- The loop over the fragments from `j` on; `left` counts those behind `j`.
  pub encode_loop : ℕ → ℕ → List ℕ → ℕ → ℕ → ℕ → Option (List (List ℕ))
  encode_loop zero j payload opcode token_byte token = do
    offset ← fragment_offset j
    chunk ← load payload offset (length payload - offset)
    block ← encode_last chunk token_byte token
    some (block ∷ [])
  encode_loop (suc left) j payload opcode token_byte token = do
    offset ← fragment_offset j
    chunk ← load payload offset 0xffff
    block ← encode_middle chunk j opcode token_byte token
    rest ← encode_loop left (j + 1) payload opcode token_byte token
    some (block ∷ rest)

  unfoldable pub encode : List ℕ → ℕ → ℕ → Option (List (List ℕ))
  encode payload flag token =
      let count = encode_buf_count (length payload) in
      if count == 1
      then (do
        block ← encode_single payload (opcode_of flag) (token_byte_of flag) token
        some (block ∷ []))
      else if has_blocks count
      then encode_loop (count - 1) 0 payload (opcode_of flag) (token_byte_of flag) token
      else some []
