-- ===== src/RwSpinLock/Totals.antt =====
-- How many threads are in which phase.
use frog_game_framework.Base.{ℕ, ◌≤◌, ◌≡◌, refl, ap, List, [], ◌∷◌, All, length, total, arith}
use frog_game_framework.RwSpinLock.{Phase, IsIdle}

-- The threads that have added `RW_READER` to the bits.
abbrev pub counted : Phase → ℕ
counted Phase.reading = 1
counted Phase.retreating = 1
counted Phase.downgrading = 1
counted _ = 0

-- The threads that have the lock for reading, for upgrading and for writing.
abbrev pub reads : Phase → ℕ
reads Phase.reading = 1
reads _ = 0

abbrev pub upgrades : Phase → ℕ
upgrades Phase.upgraded = 1
upgrades _ = 0

abbrev pub writes : Phase → ℕ
writes Phase.writing = 1
writes Phase.downgrading = 1
writes Phase.lowering = 1
writes _ = 0

-- The threads that have the lock for writing and have already set the second bit.
abbrev pub lowers : Phase → ℕ
lowers Phase.lowering = 1
lowers _ = 0

pub total-idle :
    (f : Phase → ℕ) (ts : List Phase) → f Phase.idle ≡ 0 → All IsIdle ts → total f ts ≡ 0
unfolding total
total-idle f [] z h = refl
total-idle f (t ∷ ts) z h = omega (arith, ap f h.0, total-idle f ts z h.1)

total-le : (f g : Phase → ℕ) (ts : List Phase) → ((t : Phase) → f t ≤ g t) → total f ts ≤ total g ts
unfolding total
total-le f g [] h = omega arith
total-le f g (t ∷ ts) h = omega (arith, h t, total-le f g ts h)

total_bound : (f : Phase → ℕ) (ts : List Phase) → ((t : Phase) → f t ≤ 1) → total f ts ≤ length ts
unfolding total
total_bound f [] h = omega arith
total_bound f (t ∷ ts) h = omega (arith, h t, total_bound f ts h)

-- Who reads is counted, who lowers writes.
pub reads-counted : (ts : List Phase) → total reads ts ≤ total counted ts
reads-counted ts = total-le reads counted ts pointwise
  where
    pointwise : (t : Phase) → reads t ≤ counted t
    pointwise Phase.idle = omega arith
    pointwise Phase.reading = omega arith
    pointwise Phase.upgraded = omega arith
    pointwise Phase.writing = omega arith
    pointwise Phase.retreating = omega arith
    pointwise Phase.downgrading = omega arith
    pointwise Phase.lowering = omega arith

pub lowers_write : (ts : List Phase) → total lowers ts ≤ total writes ts
lowers_write ts = total-le lowers writes ts pointwise
  where
    pointwise : (t : Phase) → lowers t ≤ writes t
    pointwise Phase.idle = omega arith
    pointwise Phase.reading = omega arith
    pointwise Phase.upgraded = omega arith
    pointwise Phase.writing = omega arith
    pointwise Phase.retreating = omega arith
    pointwise Phase.downgrading = omega arith
    pointwise Phase.lowering = omega arith

pub counted_bound : (ts : List Phase) → total counted ts ≤ length ts
counted_bound ts = total_bound counted ts pointwise
  where
    pointwise : (t : Phase) → counted t ≤ 1
    pointwise Phase.idle = omega arith
    pointwise Phase.reading = omega arith
    pointwise Phase.upgraded = omega arith
    pointwise Phase.writing = omega arith
    pointwise Phase.retreating = omega arith
    pointwise Phase.downgrading = omega arith
    pointwise Phase.lowering = omega arith
