-- ===== src/Tpack.antt =====
-- The length-prefixed packet codec of src/core/include/codec/tpack_t.h and
-- src/core/source/codec/tpack_t.c: the decoder over a byte queue. The encoders are in the children.
pub mod Wire
pub mod Body
pub mod DecodeHead
pub mod HeadParse
pub mod Decode
pub mod Encode
pub mod EncodeVec
mod Tests
use frog_game_framework.Base.{
  ℕ, ◌+◌, ◌-◌, ◌*◌, ◌^◌, bit_and, bit_or, Bool, true, false, ◌||◌, List, [], ◌∷◌, Option, none,
  some, ltb, ◌==◌, if◌then◌else◌, get_elem?, ◌>>=◌, ◌>>◌,
}
use frog_game_framework.ByteQueue.{ByteQueue, get_bytes_readable, read_bytes, read_offset}

abbrev pub frame_final : ℕ
frame_final = 0x80

abbrev pub frame_reply : ℕ
frame_reply = 0x70

abbrev pub frame_call : ℕ
frame_call = 0x60

abbrev pub frame_ping : ℕ
frame_ping = 0x50

abbrev pub frame_pong : ℕ
frame_pong = 0x40

abbrev pub frame_close : ℕ
frame_close = 0x30

abbrev pub frame_binary : ℕ
frame_binary = 0x20

abbrev pub frame_text : ℕ
frame_text = 0x10

-- `tpackHead_tt`.
pub record Head : Type 0 where
  pub payload_len : ℕ
  pub flag : ℕ
  pub offset : ℕ

-- The results 0, -1 and 1 of `tpack_decodeHead`, the last with the head that it fills in.
pub data HeadResult : Type 0 where
  incomplete : HeadResult
  invalid : HeadResult
  decoded : Head → HeadResult

-- The switch on `szFrameBuffer[0] & 0x0f`.
pub opcode_flag : ℕ → Option ℕ
opcode_flag op =
    if op == 0
    then some 0
    else if op == 1
    then some frame_text
    else if op == 2
    then some frame_binary
    else if op == 3
    then some frame_close
    else if op == 4
    then some frame_pong
    else if op == 5
    then some frame_ping
    else if op == 6
    then some frame_call
    else if op == 7
    then some frame_reply
    else none

-- The cases of the inner switches: a frame of these kinds has a token of four bytes.
pub has_token : ℕ → Bool
has_token flag =
    flag == frame_close
    || (flag == frame_pong || (flag == frame_ping || (flag == frame_call || flag == frame_reply)))

-- The head, once its length is known: `base` bytes come before the token.
pub sized_head : ℕ → ℕ → ℕ → ℕ → ℕ → HeadResult
sized_head written b0 flag payload_len base =
    let offset = if has_token flag then base + 4 else base in
    if ltb written (payload_len + offset)
    then HeadResult.incomplete
    else HeadResult.decoded (record {
      payload_len = payload_len;
      flag = if bit_and b0 0x80 == 0x80 then bit_or flag frame_final else flag;
      offset = offset;
    })

pub decode_head : ByteQueue → Option HeadResult
decode_head q =
    let written = get_bytes_readable q in
    if ltb written 2 then some HeadResult.incomplete else (do
      (out, _) ← read_bytes q 2 true
      buffer ← out
      b0 ← get_elem? buffer 0
      b1 ← get_elem? buffer 1
      elim (opcode_flag (bit_and b0 0x0f)) [
        | none ↦ some HeadResult.invalid
        | some flag ↦
            if ltb b1 0xff
            then some (sized_head written b0 flag b1 2)
            else (if ltb written 4 then some HeadResult.incomplete else (do
              (long, _) ← read_bytes q 4 true
              buffer4 ← long
              c0 ← get_elem? buffer4 0
              b2 ← get_elem? buffer4 2
              b3 ← get_elem? buffer4 3
              some (sized_head written c0 flag (bit_or (b2 * 2 ^ 8) b3) 4)))
      ])

-- What `tpack_decode` hands out.
pub record Packet : Type 0 where
  pub payload : List ℕ
  pub flag : ℕ
  pub token : ℕ

pub data DecodeResult : Type 0 where
  incomplete : DecodeResult
  invalid : DecodeResult
  packet : Packet → DecodeResult

-- The token in network order.
pub token_of : List ℕ → Option ℕ
token_of bytes = do
  t0 ← get_elem? bytes 0
  t1 ← get_elem? bytes 1
  t2 ← get_elem? bytes 2
  t3 ← get_elem? bytes 3
  some (bit_or (bit_or (bit_or (t0 * 2 ^ 24) (t1 * 2 ^ 16)) (t2 * 2 ^ 8)) t3)

unfoldable pub take_token : ByteQueue → ℕ → Option (ℕ × ByteQueue)
take_token q offset =
    if ltb 4 offset
    then (do
      q1 ← read_offset q (offset - 4)
      (out, q2) ← read_bytes q1 4 false
      bytes ← out
      token ← token_of bytes
      some (token, q2))
    else (do q1 ← read_offset q offset; some (0, q1))

unfoldable pub take_payload : ByteQueue → ℕ → Option (List ℕ × ByteQueue)
take_payload q n =
    if n == 0
    then some ([], q)
    else (do (out, q1) ← read_bytes q n false; bytes ← out; some (bytes, q1))

-- The packet that follows a head.
unfoldable pub take_packet : ByteQueue → Head → Option (DecodeResult × ByteQueue)
take_packet q head = do
  (token, q1) ← take_token q head.offset
  (payload, q2) ← take_payload q1 head.payload_len
  some (DecodeResult.packet (record { payload = payload; flag = head.flag; token = token }), q2)

pub decode : ByteQueue → Option (DecodeResult × ByteQueue)
decode q = do
  r ← decode_head q
  elim r [
    | HeadResult.incomplete ↦ some (DecodeResult.incomplete, q)
    | HeadResult.invalid ↦ some (DecodeResult.invalid, q)
    | HeadResult.decoded head ↦ take_packet q head
  ]
