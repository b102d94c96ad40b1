-- ===== src/ByteQueue/Loaded.antt =====
-- A queue that holds given bytes, with one byte of free space behind them.
use frog_game_framework.Base.{ℕ, ◌+◌, ◌<◌, refl, List, [], ◌∷◌, ◌++◌, length, length-append, arith}
use frog_game_framework.ByteQueue.{ByteQueue}
use frog_game_framework.ByteQueue.View.{Holds, Shape, limit}

abbrev pub loaded : List ℕ → ByteQueue
loaded xs = record {
  buffer = xs ++ (0 ∷ []);
  capacity = length xs + 1;
  read_index = 0;
  write_index = length xs;
}

pub loaded-holds : (xs : List ℕ) → 0 < length xs → length xs < limit → Holds (loaded xs) xs
loaded-holds xs pos small = record {
  sized = length-append xs (0 ∷ []);
  small = omega arith;
  shape = Shape.linear [] (0 ∷ []) refl refl (omega arith) pos;
}
