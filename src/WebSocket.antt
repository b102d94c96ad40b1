-- ===== src/WebSocket.antt =====
-- The frames of src/core/include/codec/webSocket_t.h and src/core/source/codec/webSocket_t.c: the
-- decoder over a byte queue. The encoders are in the children.
pub mod Wire
pub mod Body
pub mod DecodeHead
pub mod HeadParse
pub mod Decode
pub mod Encode
mod Tests
use frog_game_framework.Base.{
  ℕ, ◌+◌, ◌-◌, ◌*◌, ◌/◌, ◌%◌, ◌^◌, bit_and, bit_or, bit_xor, Bool, true, false, List, [], ◌∷◌,
  Option, none, some, ltb, ◌==◌, if◌then◌else◌, get_elem?, ◌>>=◌, ◌>>◌,
}
use frog_game_framework.ByteQueue.{ByteQueue, get_bytes_readable, read_bytes, read_offset}

abbrev pub frame_final : ℕ
frame_final = 0x80

abbrev pub frame_ping : ℕ
frame_ping = 0x50

abbrev pub frame_pong : ℕ
frame_pong = 0x40

abbrev pub frame_close : ℕ
frame_close = 0x30

abbrev pub frame_binary : ℕ
frame_binary = 0x20

abbrev pub frame_text : ℕ
frame_text = 0x10

abbrev pub frame_mask : ℕ
frame_mask = 0xf0

-- `webSocketHead_tt`.
pub record Head : Type 0 where
  pub payload_len : ℕ
  pub flag : ℕ
  pub offset : ℕ

-- The results 0, -1 and 1 of `webSocket_decodeHead`, the last with the head that it fills in.
pub data HeadResult : Type 0 where
  incomplete : HeadResult
  invalid : HeadResult
  decoded : Head → HeadResult

-- The switch on `szFrameBuffer[0] & 0x0f`.
pub opcode_flag : ℕ → Option ℕ
opcode_flag op =
    if op == 0
    then some 0
    else if op == 1
    then some frame_text
    else if op == 2
    then some frame_binary
    else if op == 8
    then some frame_close
    else if op == 9
    then some frame_ping
    else if op == 10
    then some frame_pong
    else none

-- The head, once its length is known: `base` bytes come before the mask, if there is one.
pub sized_head : ℕ → ℕ → ℕ → ℕ → ℕ → HeadResult
sized_head written flag b1 payload_len base =
    let offset = if bit_and b1 0x80 == 0x80 then base + 4 else base in
    if ltb written (payload_len + offset)
    then HeadResult.incomplete
    else HeadResult.decoded (record { payload_len = payload_len; flag = flag; offset = offset })

pub decode_head : ByteQueue → Option HeadResult
decode_head q =
    let written = get_bytes_readable q in
    if ltb written 2 then some HeadResult.incomplete else (do
      (out, _) ← read_bytes q 2 true
      buffer ← out
      b0 ← get_elem? buffer 0
      b1 ← get_elem? buffer 1
      elim (opcode_flag (bit_and b0 0x0f)) [
        | none ↦ some HeadResult.invalid
        | some kind ↦
            let flag = if bit_and b0 0x80 == 0x80 then bit_or kind frame_final else kind in
            let short_len = bit_and b1 0x7f in
            if ltb short_len 126
            then some (sized_head written flag b1 short_len 2)
            else if short_len == 126
            then (if ltb written 4 then some HeadResult.incomplete else (do
              (long, _) ← read_bytes q 4 true
              buffer4 ← long
              c1 ← get_elem? buffer4 1
              b2 ← get_elem? buffer4 2
              b3 ← get_elem? buffer4 3
              some (sized_head written flag c1 (bit_or b2 (b3 * 2 ^ 8)) 4)))
            else some HeadResult.invalid
      ])

-- What `webSocket_decode` hands out.
pub record Frame : Type 0 where
  pub payload : List ℕ
  pub flag : ℕ

pub data DecodeResult : Type 0 where
  incomplete : DecodeResult
  invalid : DecodeResult
  frame : Frame → DecodeResult

-- `unMask`, from index `i` on.
pub unmask : List ℕ → ℕ → List ℕ → Option (List ℕ)
unmask mask i [] = some []
unmask mask i (x ∷ xs) = do
  k ← get_elem? mask (i % 4)
  rest ← unmask mask (i + 1) xs
  some (bit_xor x k ∷ rest)

-- Skips the head; `[]` where there is no mask.
unfoldable pub take_mask : ByteQueue → ℕ → Option (List ℕ × ByteQueue)
take_mask q offset =
    if ltb 4 offset
    then (do
      q1 ← read_offset q (offset - 4)
      (out, q2) ← read_bytes q1 4 false
      mask ← out
      some (mask, q2))
    else (do q1 ← read_offset q offset; some ([], q1))

unfoldable pub take_payload : ByteQueue → ℕ → ℕ → List ℕ → Option (List ℕ × ByteQueue)
take_payload q n offset mask = if n == 0 then some ([], q) else (do
  (out, q1) ← read_bytes q n false
  bytes ← out
  payload ← (if ltb 4 offset then unmask mask 0 bytes else some bytes)
  some (payload, q1))

-- The frame that follows a head.
unfoldable pub take_frame : ByteQueue → Head → Option (DecodeResult × ByteQueue)
take_frame q head = do
  (mask, q1) ← take_mask q head.offset
  (payload, q2) ← take_payload q1 head.payload_len head.offset mask
  some (DecodeResult.frame (record { payload = payload; flag = head.flag }), q2)

pub decode : ByteQueue → Option (DecodeResult × ByteQueue)
decode q = do
  r ← decode_head q
  elim r [
    | HeadResult.incomplete ↦ some (DecodeResult.incomplete, q)
    | HeadResult.invalid ↦ some (DecodeResult.invalid, q)
    | HeadResult.decoded head ↦ take_frame q head
  ]
