-- ===== src/WebSocket/Tests.antt =====
-- Frames that the web socket codec runs on.
use frog_game_framework.Base.{
  ℕ, subst, lt_cases, lt→ltb, le→ltb, length-take, length-drop, zero, suc, ◌+◌, ◌*◌, ◌/◌, ◌<◌, ◌≤◌,
  ◌≡◌, refl, ap, sym, ◌∙◌, List, [], ◌∷◌, some, arith, Gives, All, IsByte, length, flatten,
  append-nil, inl, inr, take, drop, All-append, All-take, All-drop, length-append,
}
use frog_game_framework.Memory.Zeroed.{zeroed, blank, length-blank, blank-IsByte}
use frog_game_framework.ByteQueue.View.{IsValid, contents, Holds, holds-IsValid, contents_of_holds}
use frog_game_framework.ByteQueue.Loaded.{loaded, loaded-holds}
use frog_game_framework.WebSocket.{DecodeResult, opcode_flag, decode, frame_final}
use frog_game_framework.WebSocket.Wire.{Parsed, parse}
use frog_game_framework.WebSocket.Encode.Frame.{length-header_bytes, header_bytes}
use frog_game_framework.WebSocket.Decode.{Decodes, decode_frame-Decodes}
use frog_game_framework.WebSocket.Encode.{encode, encode_vec, opcode_of}
use frog_game_framework.WebSocket.Encode.Frame.{frame_bytes}
use frog_game_framework.WebSocket.Encode.Frames.{encode-frames, encode_vec-frames}
use frog_game_framework.WebSocket.Encode.Blocks.{frames, sent_frames}
use frog_game_framework.WebSocket.Encode.RoundTrip.{decode_frame-encode, decode_frame-encode_stalls}

-- A final text frame with the mask 1, 2, 3, 4 over the payload 65, 66, and one byte more.
abbrev masked_bytes : List ℕ
masked_bytes = 0x81 ∷ 0x82 ∷ 1 ∷ 2 ∷ 3 ∷ 4 ∷ 64 ∷ 64 ∷ 0x81 ∷ []

abbrev masked_holds : Holds (loaded masked_bytes) masked_bytes
masked_holds = loaded-holds masked_bytes (omega arith) (omega arith)

masked_are : contents (loaded masked_bytes) ≡ masked_bytes
masked_are = contents_of_holds masked_holds

decode_frame-Decodes_example :
    Gives (decode (loaded masked_bytes)) (Decodes (contents (loaded masked_bytes)))
decode_frame-Decodes_example =
    decode_frame-Decodes (holds-IsValid masked_holds) (rw masked_are (omega arith))

-- The frame is unmasked, and the byte behind it stays.
parse_masked :
    parse masked_bytes ≡ Parsed.frame (record { payload = 65 ∷ 66 ∷ []; flag = 0x90 }) (0x81 ∷ [])
unfolding opcode_flag
parse_masked = refl

encode-frames_example :
    encode zeroed (65 ∷ 66 ∷ []) 0x10 ≡ some (sent_frames (opcode_of 0x10) 126 (65 ∷ 66 ∷ []))
encode-frames_example = encode-frames zeroed (65 ∷ 66 ∷ []) 0x10 (omega arith)

abbrev two_sources : List (List ℕ)
two_sources = (65 ∷ []) ∷ [] ∷ (66 ∷ 67 ∷ []) ∷ []

encode_vec-frames_example :
    encode_vec zeroed two_sources 0x10
    ≡ some (sent_frames (opcode_of 0x10) 0xff (flatten two_sources))
unfolding flatten
encode_vec-frames_example =
    encode_vec-frames zeroed two_sources 0x10 (omega arith) (omega arith) (inl (omega arith))

abbrev text_bytes : List ℕ
text_bytes = 0x81 ∷ 2 ∷ 65 ∷ 66 ∷ 0x81 ∷ []

abbrev text_holds : Holds (loaded text_bytes) text_bytes
text_holds = loaded-holds text_bytes (omega arith) (omega arith)

decode_frame-encode_example : Gives (decode (loaded text_bytes)) (λ r.
    (r.0 ≡ DecodeResult.frame (record { payload = 65 ∷ 66 ∷ []; flag = 1 * 16 + 128 }))
    × (contents r.1 ≡ 0x81 ∷ [])
    × IsValid r.1)
unfolding flatten opcode_of
decode_frame-encode_example =
    decode_frame-encode zeroed (65 ∷ 66 ∷ []) (0x81 ∷ []) 1 (omega arith) (omega arith)
      encode-frames_example (holds-IsValid text_holds)
      (rw (contents_of_holds text_holds) (omega arith)) (contents_of_holds text_holds) (omega arith)

-- The bytes of frames, and their number.
frame_bytes-IsByte :
    (first mark : ℕ) (payload : List ℕ)
    → first < 256
    → mark < 256
    → All IsByte payload
    → All IsByte (frame_bytes first mark payload)
frame_bytes-IsByte first mark payload f m w =
    All-append IsByte (header_bytes first mark (length payload)) payload
      (elim (lt_cases (length payload) 126) [
        | inl p ↦ rw (lt→ltb _ _ p) (f, (omega arith, tt))
        | inr p ↦ rw (le→ltb _ _ p) (f, (m, (omega arith, (omega arith, tt))))
      ])
      w

length-frame_bytes :
    (first mark : ℕ) (payload : List ℕ)
    → length payload < length (frame_bytes first mark payload)
      × length (frame_bytes first mark payload) ≤ length payload + 4
length-frame_bytes first mark payload = ground (
  arith,
  length-append (header_bytes first mark (length payload)) payload,
  length-header_bytes first mark (length payload),
)

frames-IsByte :
    (left first mark : ℕ) (payload : List ℕ)
    → first < 256
    → mark < 256
    → All IsByte payload
    → All IsByte (flatten (frames left first mark payload))
unfolding flatten
frames-IsByte zero first mark payload f m w =
    All-append IsByte (frame_bytes frame_final 126 payload) []
      (frame_bytes-IsByte frame_final 126 payload (omega arith) (omega arith) w) tt
frames-IsByte (suc left) first mark payload f m w =
    All-append IsByte (frame_bytes first mark (take 0xffff payload)) _
      (frame_bytes-IsByte first mark (take 0xffff payload) f m (All-take IsByte 0xffff payload w))
      (frames-IsByte left 0 mark (drop 0xffff payload) (omega arith) m
        (All-drop IsByte 0xffff payload w))

length-frames :
    (left first mark : ℕ) (payload : List ℕ)
    → 0 < length (flatten (frames left first mark payload))
      × length (flatten (frames left first mark payload)) ≤ length payload + 4 * left + 4
unfolding flatten
length-frames zero first mark payload = omega (
  arith,
  length-append (frame_bytes frame_final 126 payload) [],
  length-frame_bytes frame_final 126 payload,
)
length-frames (suc left) first mark payload =
    let chunk = take 0xffff payload in
    let one = length-frame_bytes first mark chunk in
    let more = length-frames left 0 mark (drop 0xffff payload) in
    omega (
      arith,
      length-append (frame_bytes first mark chunk)
          (flatten (frames left 0 mark (drop 0xffff payload))),
      one,
      more,
      length-take 0xffff payload,
      length-drop 0xffff payload,
    )

-- 126 zeros: the length bytes are 0 and 126, which are read as 32256.
abbrev long_bytes : List ℕ
long_bytes = flatten (sent_frames (opcode_of 0x10) 126 (blank 126))

long_frame : sent_frames (opcode_of 0x10) 126 (blank 126) ≡ frame_bytes 0x81 126 (blank 126) ∷ []
unfolding opcode_of
long_frame = rw (lt→ltb (length (blank 126)) 0xffff (omega (arith, length-blank 126))) refl

long_bytes_are : long_bytes ≡ frame_bytes 0x81 126 (blank 126)
unfolding flatten
long_bytes_are = ap flatten long_frame ∙ append-nil (frame_bytes 0x81 126 (blank 126))

long_holds : Holds (loaded long_bytes) long_bytes
long_holds = rw long_bytes_are (
    loaded-holds (frame_bytes 0x81 126 (blank 126))
      (omega (arith, length-frame_bytes 0x81 126 (blank 126)))
      (omega (arith, length-blank 126, length-frame_bytes 0x81 126 (blank 126))))

long_are_bytes : All IsByte (contents (loaded long_bytes))
long_are_bytes =
    subst (All IsByte) (sym (contents_of_holds long_holds ∙ long_bytes_are))
      (frame_bytes-IsByte 0x81 126 (blank 126) (omega arith) (omega arith) (blank-IsByte 126))

decode_frame-encode_stalls_example : Gives (decode (loaded long_bytes)) (λ r.
    (r.0 ≡ DecodeResult.incomplete) × (contents r.1 ≡ contents (loaded long_bytes)) × IsValid r.1)
decode_frame-encode_stalls_example =
    decode_frame-encode_stalls zeroed (blank 126) [] 1 (omega arith) (omega arith)
      (encode-frames zeroed (blank 126) 0x10 (omega (arith, length-blank 126)))
      (holds-IsValid long_holds) long_are_bytes
      (contents_of_holds long_holds ∙ sym (append-nil long_bytes)) (omega (arith, length-blank 126))
      (omega (arith, length-blank 126)) (omega (arith, length-blank 126))

-- 0x10000 zeros from one source buffer.
abbrev long_source : List (List ℕ)
long_source = blank 0x10000 ∷ []

long_source_is : flatten long_source ≡ blank 0x10000
unfolding flatten
long_source_is = append-nil (blank 0x10000)

length-long_source : length (flatten long_source) ≡ 0x10000
length-long_source = ap length long_source_is ∙ length-blank 0x10000

abbrev two_frames : List (List ℕ)
two_frames = sent_frames (opcode_of 0x10) 0xff (flatten long_source)

two_frames_are :
    two_frames ≡ frames (length (flatten long_source) / 0xffff) 1 0xff (flatten long_source)
unfolding opcode_of
two_frames_are =
    rw (le→ltb (length (flatten long_source)) 0xffff (omega (arith, length-long_source))) refl

two_frames_hold : Holds (loaded (flatten two_frames)) (flatten two_frames)
two_frames_hold =
    let count = length (flatten long_source) / 0xffff in
    let sizes = length-frames count 1 0xff (flatten long_source) in
    rw two_frames_are (
      loaded-holds (flatten (frames count 1 0xff (flatten long_source))) (omega (arith, sizes))
        (omega (arith, sizes, length-long_source)))

two_frames_are_bytes : All IsByte (contents (loaded (flatten two_frames)))
two_frames_are_bytes =
    subst (All IsByte) (sym (contents_of_holds two_frames_hold ∙ ap flatten two_frames_are)) (
      frames-IsByte (length (flatten long_source) / 0xffff) 1 0xff (flatten long_source)
        (omega arith) (omega arith)
        (subst (All IsByte) (sym long_source_is) (blank-IsByte 0x10000)))
