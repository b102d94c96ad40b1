-- ===== src/Msgpack/Fault.antt =====
-- The one reader that looks for a byte that need not be there.
use frog_game_framework.Base.{◌≡◌, refl, [], ◌∷◌, false, none, some, arith, lt→ltb}
use frog_game_framework.Memory.{add_size}
use frog_game_framework.Msgpack.{Decoder}
use frog_game_framework.Msgpack.Decode.{read_binary, binary_at}
use frog_game_framework.Msgpack.Skip.{skip_binary, skip_binary_at}
use frog_game_framework.Msgpack.Ahead.{Ahead, length-ahead, byte_at_lem, started}

-- Where the flag 0xc4 is the last byte of the buffer, `read_binary` reads behind the end of it,
-- while `skip_binary` answers false.
pub read_binary_fault :
    {d : Decoder} → Ahead d (0xc4 ∷ []) → (read_binary d ≡ none) × (skip_binary d ≡ some (false, d))
unfolding read_binary binary_at skip_binary skip_binary_at
read_binary_fault {d} a =
    let total = length-ahead a in
    let fits = a.small in
    (
      rw (started a (omega arith), byte_at_lem a 0, byte_at_lem a 1) refl,
      rw
          (
            started a (omega arith),
            byte_at_lem a 0,
            lt→ltb d.length (add_size d.offset 2) (omega arith),
          )
          refl,
    )
