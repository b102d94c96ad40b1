-- ===== src/Msgpack/Tests.antt =====
-- Values that the msgpack codec runs on.
use frog_game_framework.Base.{
  ℕ, ◌-◌, ◌^◌, ◌≡◌, refl, ap, ◌∙◌, List, [], ◌∷◌, ◌++◌, some, arith, length, take, Gives,
  length-append, length-take, take-append_le, take_all,
}
use frog_game_framework.Memory.Zeroed.{zeros, length-zeros}
use frog_game_framework.Msgpack.{Decoder}
use frog_game_framework.Msgpack.Decode.{read_integer, read_string}
use frog_game_framework.Msgpack.Kind.{AgreesWith, get_type-AgreesWith}
use frog_game_framework.Msgpack.Skip.{skip_integer, type_of_flag}
use frog_game_framework.Msgpack.Encode.{
  Expander, Encoder, write_integer, write_string, integer_bytes,
}
use frog_game_framework.Msgpack.Encode.Written.{IsValid, Writes, emit-Writes}
use frog_game_framework.Msgpack.Encode.{emit}
use frog_game_framework.Msgpack.Ahead.{Ahead}
use frog_game_framework.Msgpack.SkipRead.{Alike, read_integer-skip_integer}
use frog_game_framework.Msgpack.ReadBack.{
  decoder_of, read_integer-write_integer, read_string-write_string,
}

-- A callback that keeps the buffer and adds zeros.
abbrev padded : List ℕ → ℕ → List ℕ
padded buffer size = take size buffer ++ zeros (size - length buffer)

keeping : Expander
keeping = record {
  expand = λ buffer offset size. padded buffer size;
  length-expand = λ buffer offset size. omega (
    arith,
    length-append (take size buffer) (zeros (size - length buffer)),
    length-take size buffer,
    length-zeros (size - length buffer),
  );
  take-expand = λ buffer offset size inside longer.
      take-append_le offset (take size buffer) (zeros (size - length buffer))
        (omega (arith, length-take size buffer))
      ∙ ap (take offset) (take_all size buffer longer);
}

-- An encoder that has to grow for the values below.
abbrev nearly_full : Encoder
nearly_full = record { buffer = 0xc0 ∷ 0xc0 ∷ 0xc0 ∷ 0 ∷ []; length = 4; offset = 3 }

nearly_full-IsValid : IsValid nearly_full
nearly_full-IsValid = omega arith

read_integer-write_integer_example :
    Gives
      (write_integer keeping nearly_full 70000)
      (λ r. (read_integer (decoder_of r 3) ≡ some (some 70000, decoder_of r r.offset)) × IsValid r)
read_integer-write_integer_example =
    read_integer-write_integer keeping nearly_full-IsValid 70000 (omega arith) (omega arith)

read_string-write_string_example : Gives (write_string keeping nearly_full (104 ∷ 105 ∷ [])) (λ r.
    (read_string (decoder_of r 3) ≡ some (some (104 ∷ 105 ∷ []), decoder_of r r.offset))
    × IsValid r)
read_string-write_string_example =
    read_string-write_string keeping nearly_full-IsValid (104 ∷ 105 ∷ []) (omega arith)
      (omega arith)

emit-Writes_example :
    Gives (emit keeping nearly_full (1 ∷ 2 ∷ [])) (Writes nearly_full (1 ∷ 2 ∷ []))
emit-Writes_example = emit-Writes keeping (1 ∷ 2 ∷ []) nearly_full-IsValid (omega arith)

-- The word of -2 in one byte.
integer_bytes_runs : integer_bytes (2 ^ 64 - 2) ≡ 254 ∷ []
unfolding integer_bytes
integer_bytes_runs = refl

-- A number of two bytes, with one more byte behind it.
abbrev number : Decoder
number = record { buffer = 0xcd ∷ 1 ∷ 2 ∷ 0xc0 ∷ []; length = 4; offset = 0 }

number-Ahead : Ahead number (0xcd ∷ 1 ∷ 2 ∷ 0xc0 ∷ [])
number-Ahead = record { sized = refl; small = omega arith; inside = omega arith; ahead = refl }

read_integer-skip_integer_example : Alike (read_integer number) (skip_integer number)
read_integer-skip_integer_example =
    read_integer-skip_integer (0xcd ∷ 1 ∷ 2 ∷ 0xc0 ∷ []) number-Ahead

get_type-AgreesWith_example : AgreesWith number (type_of_flag 0xcd)
get_type-AgreesWith_example = get_type-AgreesWith number-Ahead (omega arith)
