-- ===== src/Tpack/Wire.antt =====
-- The wire format of a packet, as a description of its own: what a list of bytes starts with.
-- A packet is a byte with the kind in its low four bits and the final mark in its top bit, a length
-- of one byte, or of two behind the byte 0xff, a token of four bytes for the kinds from 3 on, and
-- the payload.
use frog_game_framework.Base.{
  ℕ, ◌+◌, ◌*◌, ◌/◌, ◌%◌, ◌^◌, List, ◌∷◌, ltb, if◌then◌else◌, length, take, drop,
}
use frog_game_framework.Tpack.{Packet, DecodeResult}

pub data Parsed : Type 0 where
  incomplete : Parsed
  invalid : Parsed
  frame : Packet → List ℕ → Parsed

-- The number that four bytes stand for, the highest first.
abbrev pub word_of : List ℕ → ℕ
word_of (a ∷ b ∷ c ∷ d ∷ _) = a * 2 ^ 24 + b * 2 ^ 16 + c * 2 ^ 8 + d
word_of _ = 0

-- Behind the length: the token and the payload.
abbrev pub parse_body : ℕ → ℕ → List ℕ → Parsed
parse_body b0 n body =
    let flag = b0 % 16 * 16 + b0 / 128 * 128 in
    if ltb 2 (b0 % 16)
    then (if ltb (length body) (n + 4)
        then Parsed.incomplete
        else Parsed.frame
            (record { payload = take n (drop 4 body); flag = flag; token = word_of body })
            (drop n (drop 4 body)))
    else (if ltb (length body) n
        then Parsed.incomplete
        else Parsed.frame (record { payload = take n body; flag = flag; token = 0 }) (drop n body))

abbrev pub parse_long : ℕ → List ℕ → Parsed
parse_long b0 (b2 ∷ b3 ∷ body) = parse_body b0 (b2 * 256 + b3) body
parse_long b0 _ = Parsed.incomplete

abbrev pub parse : List ℕ → Parsed
parse (b0 ∷ b1 ∷ body) =
    if ltb 7 (b0 % 16)
    then Parsed.invalid
    else if ltb b1 255
    then parse_body b0 b1 body
    else parse_long b0 body
parse _ = Parsed.incomplete

-- The answer to a reader, and the bytes that stay: a packet is consumed, all else is left.
abbrev pub outcome : Parsed → List ℕ → DecodeResult × List ℕ
outcome Parsed.incomplete xs = (DecodeResult.incomplete, xs)
outcome Parsed.invalid xs = (DecodeResult.invalid, xs)
outcome (Parsed.frame p rest) xs = (DecodeResult.packet p, rest)
