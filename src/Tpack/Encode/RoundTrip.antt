-- ===== src/Tpack/Encode/RoundTrip.antt =====
-- A payload that goes out in one block comes back from the decoder.
use frog_game_framework.Base.{
  ◌%◌, ℕ, ◌+◌, ◌*◌, ◌/◌, ◌^◌, ◌<◌, ◌≡◌, refl, ap, ◌∙◌, bit_or, List, [], ◌∷◌, ◌++◌, some, ltb, ◌==◌,
  arith, true, if◌then◌else◌, length, append-nil, flatten, all_below, all_below_at, ==_iff, Gives,
  Gives_map, All, IsByte, eq→==,
}
use frog_game_framework.Memory.{Memory}
use frog_game_framework.ByteQueue.{ByteQueue}
use frog_game_framework.ByteQueue.View.{IsValid, contents}
use frog_game_framework.Tpack.{DecodeResult, decode}
use frog_game_framework.Tpack.Wire.{parse, outcome}
use frog_game_framework.Tpack.Decode.{decode-Decodes}
use frog_game_framework.Tpack.Encode.{opcode_of, token_byte_of, encode}
use frog_game_framework.Tpack.Encode.Frame.{
  frame_bytes, packet_of, encode_single_lem, parse-frame_bytes,
}

pub opcode_of_lem : (k : ℕ) → k < 8 → opcode_of (k * 16) ≡ k
unfolding opcode_of
opcode_of_lem k h = ground arith

pub token_byte_of_lem : (k : ℕ) → k < 8 → token_byte_of (k * 16) ≡ (if ltb 2 k then 4 else 0)
unfolding token_byte_of
token_byte_of_lem k h = ground arith

final_table : all_below 8 (λ k. bit_or k 0x80 == k + 1 * 128) ≡ true
unfolding all_below
final_table = refl

-- Below 0xffff bytes the encoder sends one final frame.
pub encode_one_block :
    (memory : Memory) (payload : List ℕ) (kind token : ℕ)
    → kind < 8
    → length payload < 0xffff
    → encode memory payload (kind * 16) token
      ≡ some (frame_bytes (kind + 1 * 128) (token_byte_of (kind * 16)) token payload ∷ [])
unfolding encode
encode_one_block memory payload kind token hk small = rw (
  eq→== ((length payload / 0xffff + 1) % 2 ^ 32) 1 (omega arith),
  opcode_of_lem kind hk,
  encode_single_lem memory payload kind (token_byte_of (kind * 16)) token,
  (==_iff _ _).0 (all_below_at 8 _ kind final_table hk),
)

module _ (memory : Memory) (payload rest : List ℕ) (kind token : ℕ) (hk : kind < 8)
    (hw : token < 2 ^ 32) (small : length payload < 0xffff) where
  parsed :
      (blocks : List (List ℕ)) (xs : List ℕ)
      → encode memory payload (kind * 16) token ≡ some blocks
      → xs ≡ flatten blocks ++ rest
      → outcome (parse xs) xs ≡ (DecodeResult.packet (packet_of kind 1 token payload), rest)
  unfolding flatten
  parsed blocks xs sent e =
      ap (λ p. outcome p xs)
        (ap parse (e ∙ ap (λ bs. flatten bs ++ rest) one ∙ ap (λ t. t ++ rest) (append-nil frame))
          ∙ parse-frame_bytes kind 1 token payload rest hk (omega arith) hw
              (token_byte_of (kind * 16)) (token_byte_of_lem kind hk) (omega arith))
    where
      one : blocks ≡ frame_bytes (kind + 1 * 128) (token_byte_of (kind * 16)) token payload ∷ []
      one = cc (sent, encode_one_block memory payload kind token hk small)

      frame : List ℕ
      frame = frame_bytes (kind + 1 * 128) (token_byte_of (kind * 16)) token payload

  -- From a valid queue that holds the blocks of `encode` and then `rest`, `decode` gives back the
  -- payload, the kind with the final mark and the token (0 for a kind that has none), and leaves
  -- `rest`. This is for payloads below 0xffff bytes.
  pub decode-encode :
      {q : ByteQueue} {blocks : List (List ℕ)}
      → encode memory payload (kind * 16) token ≡ some blocks
      → IsValid q
      → All IsByte (contents q)
      → contents q ≡ flatten blocks ++ rest
      → Gives (decode q) (λ r.
        (r.0 ≡ DecodeResult.packet (packet_of kind 1 token payload))
        × (contents r.1 ≡ rest)
        × IsValid r.1)
  decode-encode {q} {blocks} sent v w e = Gives_map (decode q) (decode-Decodes v w) (λ r d. (
    d.answer ∙ ap (λ o. o.0) (parsed blocks (contents q) sent e),
    d.rest ∙ ap (λ o. o.1) (parsed blocks (contents q) sent e),
    d.valid,
  ))
