-- ===== src/RwSpinLock.antt =====
-- The lock of src/core/include/rwSpinLock_t.h: many readers, one that may upgrade, one writer. Its
-- state is one atomic `int`, `iBits`; every function below is what one atomic operation on it does
-- to the bits and to the thread that calls it. The locking functions repeat such an operation until
-- it succeeds. With fewer than 2^29 threads nothing overflows.
mod Bits
mod Totals
pub mod Exclusion
mod Tests
use frog_game_framework.Base.{
  ℕ, All, ◌≡◌, ◌+◌, ◌-◌, ◌*◌, ◌/◌, bit_and, bit_or, List, ◌∷◌, ◌++◌, ◌==◌, if◌then◌else◌,
}

abbrev pub rw_writer : ℕ
rw_writer = 1

abbrev pub rw_upgraded : ℕ
rw_upgraded = 2

abbrev pub rw_reader : ℕ
rw_reader = 4

-- Where a thread stands: without the lock, with it in one of three modes, or between the two atomic
-- operations of `tryrdlock` that failed, of `wrunlock_rdlock` and of `wrunlock_uplock`.
pub data Phase : Type 0 where
  idle : Phase
  reading : Phase
  upgraded : Phase
  writing : Phase
  retreating : Phase
  downgrading : Phase
  lowering : Phase

-- `atomic_fetch_add(RW_READER)` of `tryrdlock`, and the test of what was there.
unfoldable pub try_rdlock : ℕ → ℕ × Phase
try_rdlock v = (
  v + rw_reader,
  if bit_and v (bit_or rw_writer rw_upgraded) == 0 then Phase.reading else Phase.retreating,
)

-- Its second operation, where the test failed; `rdunlock` does the same.
abbrev pub rdunlock : ℕ → ℕ × Phase
rdunlock v = (v - rw_reader, Phase.idle)

unfoldable pub try_uplock : ℕ → ℕ × Phase
try_uplock v = (
  bit_or v rw_upgraded,
  if bit_and v (bit_or rw_upgraded rw_writer) == 0 then Phase.upgraded else Phase.idle,
)

unfoldable pub try_wrlock : ℕ → ℕ × Phase
try_wrlock v = if v == 0 then (rw_writer, Phase.writing) else (v, Phase.idle)

unfoldable pub try_upunlock_wrlock : ℕ → ℕ × Phase
try_upunlock_wrlock v = if v == rw_upgraded then (rw_writer, Phase.writing) else (v, Phase.upgraded)

-- `& ~(RW_WRITER | RW_UPGRADED)` clears the low two bits.
abbrev pub clear_exclusive : ℕ → ℕ
clear_exclusive v = v / 4 * 4

abbrev pub wrunlock : ℕ → ℕ × Phase
wrunlock v = (clear_exclusive v, Phase.idle)

-- The two operations of `wrunlock_rdlock`.
abbrev pub wrunlock_rdlock_add : ℕ → ℕ × Phase
wrunlock_rdlock_add v = (v + rw_reader, Phase.downgrading)

abbrev pub wrunlock_rdlock_and : ℕ → ℕ × Phase
wrunlock_rdlock_and v = (clear_exclusive v, Phase.reading)

abbrev pub upunlock : ℕ → ℕ × Phase
upunlock v = (v - rw_upgraded, Phase.idle)

abbrev pub upunlock_rdlock : ℕ → ℕ × Phase
upunlock_rdlock v = (v + (rw_reader - rw_upgraded), Phase.reading)

-- The two operations of `wrunlock_uplock`.
abbrev pub wrunlock_uplock_or : ℕ → ℕ × Phase
wrunlock_uplock_or v = (bit_or v rw_upgraded, Phase.lowering)

abbrev pub wrunlock_uplock_add : ℕ → ℕ × Phase
wrunlock_uplock_add v = (v - rw_writer, Phase.upgraded)

-- One atomic operation of a thread: a lock is given back, or exchanged, by a thread that has it.
pub data Move (v : ℕ) : Phase → ℕ × Phase → Type 0 where
  try_read : Move v Phase.idle (try_rdlock v)
  retreat : Move v Phase.retreating (rdunlock v)
  end_read : Move v Phase.reading (rdunlock v)
  try_upgrade : Move v Phase.idle (try_uplock v)
  try_write : Move v Phase.idle (try_wrlock v)
  try_exchange : Move v Phase.upgraded (try_upunlock_wrlock v)
  end_write : Move v Phase.writing (wrunlock v)
  start_downgrade : Move v Phase.writing (wrunlock_rdlock_add v)
  end_downgrade : Move v Phase.downgrading (wrunlock_rdlock_and v)
  end_upgrade : Move v Phase.upgraded (upunlock v)
  upgraded_to_read : Move v Phase.upgraded (upunlock_rdlock v)
  start_lower : Move v Phase.writing (wrunlock_uplock_or v)
  end_lower : Move v Phase.lowering (wrunlock_uplock_add v)

-- The lock and the threads that use it.
pub record System : Type 0 where
  pub bits : ℕ
  pub threads : List Phase

-- Any one thread moves.
pub data Step : System → System → Type 0 where
  step :
      (front back : List Phase) (v : ℕ) (t : Phase) (r : ℕ × Phase)
      → Move v t r
      → Step
          (record { bits = v; threads = front ++ (t ∷ back) })
          (record { bits = r.0; threads = front ++ (r.1 ∷ back) })

abbrev pub IsIdle : Phase → Type 0
IsIdle t = t ≡ Phase.idle

-- What threads that start without the lock can reach, after `rwSpinLock_init`.
pub data Reachable : System → Type 0 where
  start :
      (threads : List Phase)
      → All IsIdle threads
      → Reachable (record { bits = 0; threads = threads })
  later : {a b : System} → Reachable a → Step a b → Reachable b
