-- ===== src/WebSocket/Encode/RoundTrip.antt =====
-- What the decoder makes of the encoders' frames: it reads a payload below 126 bytes back, mistakes
-- a longer one, because the encoder writes the high byte of the length first and the decoder reads
-- the low byte first, and refuses the first of several frames of `encode_vec`.
use frog_game_framework.Base.{
  ℕ, ◌-◌, length-take, zero, suc, ◌+◌, ◌*◌, ◌/◌, ◌%◌, ◌^◌, ◌≤◌, ◌<◌, ◌≡◌, ◌≢◌, refl, ap, sym, ◌∙◌,
  bit_or, bit_and, true, List, [], ◌∷◌, ◌++◌, flatten, some, ◌==◌, arith, length, take, drop, inr,
  lt→ltb, le→ltb, Gives, Gives_map, all_below, all_below_at, ==_iff, All, IsByte, append-nil,
  append_assoc, length-append, take-append_left, drop-append_left,
}
use frog_game_framework.Memory.{Memory}
use frog_game_framework.ByteQueue.{ByteQueue}
use frog_game_framework.ByteQueue.View.{contents, IsValid}
use frog_game_framework.Fragments.Gather.{IsSource}
use frog_game_framework.WebSocket.{DecodeResult, opcode_flag, decode, frame_final, frame_mask}
use frog_game_framework.WebSocket.Wire.{Parsed, parse, outcome}
use frog_game_framework.WebSocket.Decode.{decode_frame-Decodes}
use frog_game_framework.WebSocket.Encode.{opcode_of, encode, encode_vec}
use frog_game_framework.WebSocket.Encode.Frame.{frame_bytes}
use frog_game_framework.WebSocket.Encode.Frames.{encode-frames, encode_vec-frames}
use frog_game_framework.WebSocket.Encode.Blocks.{frames}

mask_table : all_below 16 (λ k. bit_and (k * 16) frame_mask == k * 16) ≡ true
unfolding all_below
mask_table = refl

masked_kind : (k : ℕ) → k < 16 → bit_and (k * 16) frame_mask ≡ k * 16
masked_kind k h = (==_iff _ _).0 (all_below_at 16 _ k mask_table h)

final_table : all_below 16 (λ k. bit_or k 0x80 == k + 128) ≡ true
unfolding all_below
final_table = refl

-- The decoder's kind for the encoder's opcode, with and without the final mark.
module _ (k : ℕ) (pos : 0 < k) (hk : k < 6) where
  opcode_small : opcode_of (k * 16) < 16
  unfolding opcode_of
  opcode_small = ground (arith, masked_kind k)

  opcode_flag-opcode_of : opcode_flag (opcode_of (k * 16)) ≡ some (k * 16)
  unfolding opcode_of opcode_flag
  opcode_flag-opcode_of = ground (arith, masked_kind k)

  final_first : bit_or (opcode_of (k * 16)) frame_final ≡ opcode_of (k * 16) + 128
  final_first = (==_iff _ _).0 (all_below_at 16 _ (opcode_of (k * 16)) final_table opcode_small)

  kind_of_final : opcode_flag (bit_or (opcode_of (k * 16)) frame_final % 16) ≡ some (k * 16)
  kind_of_final =
      ap opcode_flag {x = bit_or (opcode_of (k * 16)) frame_final % 16} {y = opcode_of (k * 16)}
        (omega (arith, final_first, opcode_small))
      ∙ opcode_flag-opcode_of

  kind_of_first : opcode_flag (opcode_of (k * 16) % 16) ≡ some (k * 16)
  kind_of_first =
      ap opcode_flag {x = opcode_of (k * 16) % 16} {y = opcode_of (k * 16)}
        (omega (arith, opcode_small))
      ∙ opcode_flag-opcode_of

  final_flag : k * 16 + bit_or (opcode_of (k * 16)) frame_final / 128 * 128 ≡ k * 16 + 128
  final_flag = omega (arith, final_first, opcode_small)

  module _ (payload rest : List ℕ) where
    abbrev frame_and_rest : List ℕ
    frame_and_rest = frame_bytes (bit_or (opcode_of (k * 16)) frame_final) 126 payload ++ rest

    parse-short :
        length payload < 126
        → parse frame_and_rest
          ≡ Parsed.frame (record { payload = payload; flag = k * 16 + 128 }) rest
    parse-short p =
        let n1 : length payload % 256 % 128 ≡ length payload = omega arith in
        rw
          (
            lt→ltb (length payload) 126 p,
            kind_of_final,
            n1,
            lt→ltb (length payload) 126 p,
            le→ltb 127 (length payload % 256) (omega arith),
            le→ltb (length (payload ++ rest)) (length payload)
                (omega (arith, length-append payload rest)),
            take-append_left (length payload) payload rest refl,
            drop-append_left (length payload) payload rest refl,
          )
          (ap (λ f. Parsed.frame (record { payload = payload; flag = f }) rest) final_flag)

    -- The length with its two bytes swapped.
    abbrev swapped : ℕ
    swapped = length payload % 256 * 256 + length payload / 256

    parse-long :
        126 ≤ length payload
        → length payload < 0xffff
        → length (payload ++ rest) < swapped
        → parse frame_and_rest ≡ Parsed.incomplete
    parse-long p q less = rw (
      le→ltb (length payload) 126 p,
      kind_of_final,
      lt→ltb (length (payload ++ rest)) (length payload / 2 ^ 8 % 256 + length payload % 256 * 256)
          (omega arith),
    )

    parse-marked :
        126 ≤ length payload
        → parse (frame_bytes (opcode_of (k * 16)) 0xff payload ++ rest) ≡ Parsed.invalid
    parse-marked p = rw (le→ltb (length payload) 126 p, kind_of_first) refl

-- What `decode` answers, from what the bytes of a queue spell.
decode_of_parse :
    {q : ByteQueue} (xs : List ℕ) {p : Parsed}
    → IsValid q
    → All IsByte (contents q)
    → contents q ≡ xs
    → parse xs ≡ p
    → Gives
        (decode q)
        (λ r. (r.0 ≡ (outcome p xs).0) × (contents r.1 ≡ (outcome p xs).1) × IsValid r.1)
decode_of_parse {q} xs v w e parsed =
    let same = ap parse e ∙ parsed in
    Gives_map (decode q) (decode_frame-Decodes v w) (λ r d. (
      d.answer ∙ (λ i. (outcome (same i) (e i)).0),
      d.rest ∙ (λ i. (outcome (same i) (e i)).1),
      d.valid,
    ))

module _ (memory : Memory) (payload rest : List ℕ) (k : ℕ) (pos : 0 < k) (hk : k < 6)
    {q : ByteQueue} {blocks : List (List ℕ)} (sent : encode memory payload (k * 16) ≡ some blocks)
    (v : IsValid q) (w : All IsByte (contents q)) (e : contents q ≡ flatten blocks ++ rest) where
  one_block : length payload < 0xffff → contents q ≡ frame_and_rest k pos hk payload rest
  unfolding flatten
  one_block small =
      e
      ∙ ap (λ bs. flatten bs ++ rest) blocks_are
      ∙ ap (λ t. t ++ rest)
          (append-nil (frame_bytes (bit_or (opcode_of (k * 16)) frame_final) 126 payload))
    where
      sent_one :
          encode memory payload (k * 16)
          ≡ some (frame_bytes (bit_or (opcode_of (k * 16)) frame_final) 126 payload ∷ [])
      sent_one =
          encode-frames memory payload (k * 16) (omega arith)
          ∙ rw (lt→ltb (length payload) 0xffff small) refl

      blocks_are : blocks ≡ frame_bytes (bit_or (opcode_of (k * 16)) frame_final) 126 payload ∷ []
      blocks_are = cc (sent, sent_one)

  -- For the five kinds (text, binary, close, pong and ping) and a payload below 126 bytes, `decode`
  -- gives from a valid queue that holds the blocks of `encode` and then `rest` the payload and the
  -- kind with the final mark, and leaves `rest`.
  pub decode_frame-encode :
      length payload < 126
      → Gives (decode q) (λ r.
        (r.0 ≡ DecodeResult.frame (record { payload = payload; flag = k * 16 + 128 }))
        × (contents r.1 ≡ rest)
        × IsValid r.1)
  decode_frame-encode small =
      decode_of_parse (frame_and_rest k pos hk payload rest) v w (one_block (omega arith))
        (parse-short k pos hk payload rest small)

  -- For a payload of 126 to 0xfffe bytes, the decoder takes the two bytes of the length in the
  -- other order than `encode`. Where the number that it reads is more than what the queue holds
  -- behind the header, `decode` answers that the frame is incomplete and takes nothing out.
  pub decode_frame-encode_stalls :
      126 ≤ length payload
      → length payload < 0xffff
      → length payload + length rest < length payload % 256 * 256 + length payload / 256
      → Gives
          (decode q)
          (λ r. (r.0 ≡ DecodeResult.incomplete) × (contents r.1 ≡ contents q) × IsValid r.1)
  decode_frame-encode_stalls long small less =
      Gives_map (decode q)
        (decode_of_parse (frame_and_rest k pos hk payload rest) v w (one_block small)
          (parse-long k pos hk payload rest long small (omega (arith, length-append payload rest))))
        (λ r d. (d.0, d.1 ∙ sym (one_block small), d.2))

first_of_frames :
    (left first mark : ℕ) (payload : List ℕ)
    → 0 < left
    → frames left first mark payload
      ≡ frame_bytes first mark (take 0xffff payload)
        ∷ frames (left - 1) 0 mark (drop 0xffff payload)
first_of_frames zero first mark payload h = absurd (omega arith)
first_of_frames (suc left) first mark payload h =
    ap (λ n. frame_bytes first mark (take 0xffff payload) ∷ frames n 0 mark (drop 0xffff payload))
      {x = left} {y = suc left - 1} (omega arith)

-- A queue that starts with a frame whose second byte is 0xff.
refused :
    (k : ℕ) (chunk rest : List ℕ) {q : ByteQueue} {blocks more : List (List ℕ)}
    → 0 < k
    → k < 6
    → 126 ≤ length chunk
    → IsValid q
    → All IsByte (contents q)
    → contents q ≡ flatten blocks ++ rest
    → blocks ≡ frame_bytes (opcode_of (k * 16)) 0xff chunk ∷ more
    → Gives
        (decode q)
        (λ r. (r.0 ≡ DecodeResult.invalid) × (contents r.1 ≡ contents q) × IsValid r.1)
unfolding flatten
refused k chunk rest {q} {blocks} {more} pos hk long v w e is_first =
    let frame = frame_bytes (opcode_of (k * 16)) 0xff chunk in
    let start : contents q ≡ frame ++ (flatten more ++ rest) =
      e ∙ ap (λ bs. flatten bs ++ rest) is_first ∙ append_assoc frame (flatten more) rest in
    Gives_map (decode q)
      (decode_of_parse (frame ++ (flatten more ++ rest)) v w start
        (parse-marked k pos hk chunk (flatten more ++ rest) long))
      (λ r d. (d.0, d.1 ∙ sym start, d.2))

-- Where `encode_vec` makes several frames for one of the five kinds, `decode` refuses the first of
-- them, since its second byte is 0xff. This is for lengths that are no multiple of 0xffff, up to
-- 2^31 bytes.
pub decode_frame-encode_vec :
    (memory : Memory) (srcs : List (List ℕ)) (rest : List ℕ) (k : ℕ) {q : ByteQueue}
    {blocks : List (List ℕ)}
    → 0 < k
    → k < 6
    → All IsSource srcs
    → 0xffff ≤ length (flatten srcs)
    → length (flatten srcs) < 2 ^ 31
    → length (flatten srcs) % 0xffff ≢ 0
    → encode_vec memory srcs (k * 16) ≡ some blocks
    → IsValid q
    → All IsByte (contents q)
    → contents q ≡ flatten blocks ++ rest
    → Gives
        (decode q)
        (λ r. (r.0 ≡ DecodeResult.invalid) × (contents r.1 ≡ contents q) × IsValid r.1)
decode_frame-encode_vec memory srcs rest k {q} {blocks} pos hk sources long small odd sent v w e =
    refused k (take 0xffff payload) rest pos hk (omega (arith, length-take 0xffff payload)) v w e (
      cc (sent, sent_frames_are)
      ∙ first_of_frames (length payload / 0xffff) (opcode_of (k * 16)) 0xff payload (omega arith))
  where
    payload : List ℕ
    payload = flatten srcs

    sent_frames_are :
        encode_vec memory srcs (k * 16)
        ≡ some (frames (length payload / 0xffff) (opcode_of (k * 16)) 0xff payload)
    sent_frames_are =
        encode_vec-frames memory srcs (k * 16) sources small (inr odd)
        ∙ rw (le→ltb (length payload) 0xffff long) refl
