-- ===== src/Tpack/Tests.antt =====
-- Packets that the tpack codec runs on.
use frog_game_framework.Base.{
  ℕ, List, bit_or, ◌+◌, ◌*◌, ◌≡◌, refl, [], ◌∷◌, none, some, arith, Gives, All, IsByte, flatten,
}
use frog_game_framework.Memory.Zeroed.{zeroed, blank, length-blank}
use frog_game_framework.ByteQueue.{ByteQueue}
use frog_game_framework.ByteQueue.View.{IsValid, contents}
use frog_game_framework.Tpack.{DecodeResult, decode, frame_final}
use frog_game_framework.Tpack.Decode.{Decodes, decode-Decodes}
use frog_game_framework.Tpack.Encode.{encode, token_byte_of, opcode_of}
use frog_game_framework.Tpack.EncodeVec.{encode_vec}
use frog_game_framework.Tpack.EncodeVec.Joined.{encode_vec-encode}
use frog_game_framework.Tpack.Encode.Frame.{frame_bytes, packet_of}
use frog_game_framework.Tpack.Encode.RoundTrip.{encode_one_block, decode-encode}
use frog_game_framework.Tpack.Encode.Limits.{encode_token_fault}

-- A final call with the token 9 and the payload 65, 66, then one byte of the next packet.
abbrev call_queue : ByteQueue
call_queue = record {
  buffer = 0x86 ∷ 2 ∷ 0 ∷ 0 ∷ 0 ∷ 9 ∷ 65 ∷ 66 ∷ 1 ∷ 0 ∷ [];
  capacity = 10;
  read_index = 0;
  write_index = 9;
}

call_queue-IsValid : IsValid call_queue
call_queue-IsValid = omega arith

contents-call_queue : contents call_queue ≡ 0x86 ∷ 2 ∷ 0 ∷ 0 ∷ 0 ∷ 9 ∷ 65 ∷ 66 ∷ 1 ∷ []
unfolding contents
contents-call_queue = refl

call_queue-IsByte : All IsByte (contents call_queue)
call_queue-IsByte = rw contents-call_queue (omega arith)

decode-Decodes_example : Gives (decode call_queue) (Decodes (contents call_queue))
decode-Decodes_example = decode-Decodes call_queue-IsValid call_queue-IsByte

call_sent :
    encode zeroed (65 ∷ 66 ∷ []) (6 * 16) 9
    ≡ some (frame_bytes (6 + 1 * 128) (token_byte_of (6 * 16)) 9 (65 ∷ 66 ∷ []) ∷ [])
call_sent = encode_one_block zeroed (65 ∷ 66 ∷ []) 6 9 (omega arith) (omega arith)

frame_bytes_runs :
    frame_bytes (6 + 1 * 128) (token_byte_of (6 * 16)) 9 (65 ∷ 66 ∷ [])
    ≡ 0x86 ∷ 2 ∷ 0 ∷ 0 ∷ 0 ∷ 9 ∷ 65 ∷ 66 ∷ []
unfolding frame_bytes token_byte_of
frame_bytes_runs = refl

decode-encode_example : Gives (decode call_queue) (λ r.
    (r.0 ≡ DecodeResult.packet (packet_of 6 1 9 (65 ∷ 66 ∷ [])))
    × (contents r.1 ≡ 1 ∷ [])
    × IsValid r.1)
unfolding flatten frame_bytes token_byte_of
decode-encode_example =
    decode-encode zeroed (65 ∷ 66 ∷ []) (1 ∷ []) 6 9 (omega arith) (omega arith) (omega arith)
      call_sent call_queue-IsValid call_queue-IsByte contents-call_queue

encode_token_fault_example : encode zeroed (blank 0xffff) (6 * 16) 9 ≡ none
encode_token_fault_example =
    encode_token_fault zeroed (blank 0xffff) 6 9 (omega arith) (omega arith)
      (omega (arith, length-blank 0xffff)) (omega (arith, length-blank 0xffff))

abbrev two_sources : List (List ℕ)
two_sources = (65 ∷ []) ∷ (66 ∷ []) ∷ []

encode_vec-encode_example :
    (encode_vec zeroed two_sources (6 * 16) 9 ≡ encode zeroed (65 ∷ 66 ∷ []) (6 * 16) 9)
    × (encode_vec zeroed two_sources (6 * 16) 9
        ≡ some (
            frame_bytes
              (bit_or (opcode_of (6 * 16)) frame_final)
              (token_byte_of (6 * 16))
              9
              (65 ∷ 66 ∷ [])
            ∷ []))
unfolding flatten
encode_vec-encode_example = encode_vec-encode zeroed two_sources (6 * 16) 9 (omega arith)
