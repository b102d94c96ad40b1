-- ===== src/WebSocket/Wire.antt =====
-- What a list of bytes starts with, as the decoder of web socket frames understands it: a byte with
-- the kind in its low four bits and the final mark in its top bit; a byte with the mask bit on top
-- of a length below 126, or of 126, and then the length in two bytes, the LOW one first; four bytes
-- of mask where the mask bit is set; the payload.
use frog_game_framework.Base.{
  ℕ, ◌+◌, ◌*◌, ◌/◌, ◌%◌, List, [], ◌∷◌, Option, none, some, bit_xor, ltb, if◌then◌else◌, length,
  take, drop,
}
use frog_game_framework.WebSocket.{Frame, DecodeResult, opcode_flag}

pub data Parsed : Type 0 where
  incomplete : Parsed
  invalid : Parsed
  frame : Frame → List ℕ → Parsed

-- The bytes with a mask of four bytes that is used in turn.
abbrev pub masked_by : ℕ → ℕ → ℕ → ℕ → List ℕ → List ℕ
masked_by a b c d [] = []
masked_by a b c d (x ∷ xs) = bit_xor x a ∷ masked_by b c d a xs

-- The payload of `n` bytes behind the mask that a body starts with.
abbrev pub unmasked : ℕ → List ℕ → List ℕ
unmasked n (a ∷ b ∷ c ∷ d ∷ xs) = masked_by a b c d (take n xs)
unmasked n _ = []

-- Behind the length: the mask and the payload.
abbrev pub parse_body : ℕ → ℕ → ℕ → List ℕ → Parsed
parse_body flag b1 n body =
    if ltb 127 b1
    then (if ltb (length body) (n + 4)
        then Parsed.incomplete
        else Parsed.frame (record { payload = unmasked n body; flag = flag })
            (drop n (drop 4 body)))
    else (if ltb (length body) n
        then Parsed.incomplete
        else Parsed.frame (record { payload = take n body; flag = flag }) (drop n body))

abbrev pub parse_long : ℕ → ℕ → List ℕ → Parsed
parse_long flag b1 (b2 ∷ b3 ∷ body) = parse_body flag b1 (b2 + b3 * 256) body
parse_long flag b1 _ = Parsed.incomplete

abbrev pub parse_kind : ℕ → ℕ → List ℕ → Parsed
parse_kind flag b1 body =
    if ltb (b1 % 128) 126
    then parse_body flag b1 (b1 % 128) body
    else if ltb 126 (b1 % 128)
    then Parsed.invalid
    else parse_long flag b1 body

-- Behind the first byte, where it spells the kind.
abbrev pub parse_opcode : Option ℕ → ℕ → ℕ → List ℕ → Parsed
parse_opcode none b0 b1 body = Parsed.invalid
parse_opcode (some kind) b0 b1 body = parse_kind (kind + b0 / 128 * 128) b1 body

abbrev pub parse : List ℕ → Parsed
parse (b0 ∷ b1 ∷ body) = parse_opcode (opcode_flag (b0 % 16)) b0 b1 body
parse _ = Parsed.incomplete

-- The answer to a reader, and the bytes that stay: a frame is consumed, all else is left.
abbrev pub outcome : Parsed → List ℕ → DecodeResult × List ℕ
outcome Parsed.incomplete xs = (DecodeResult.incomplete, xs)
outcome Parsed.invalid xs = (DecodeResult.invalid, xs)
outcome (Parsed.frame f rest) xs = (DecodeResult.frame f, rest)
