-- ===== src/RwSpinLock/Exclusion.antt =====
-- The invariant of the lock, and the exclusion that follows from it.
use frog_game_framework.Base.{
  ℕ, sym, ◌<◌, length, total, total-append, ◌+◌, ◌*◌, ◌%◌, ◌≤◌, ◌≡◌, ◌⊎◌, inl, inr, refl, List, ◌∷◌,
  ◌++◌, All, arith, eq_cases, eq→==, ne→==,
}
use frog_game_framework.RwSpinLock.{
  Phase, System, Step, step, Move, Reachable, start, later, IsIdle, try_rdlock, try_uplock,
  try_wrlock, try_upunlock_wrlock,
}
use frog_game_framework.RwSpinLock.Bits.{bit_and-low_two, bit_or-second}
use frog_game_framework.RwSpinLock.Totals.{
  counted, reads, upgrades, writes, lowers, total-idle, reads-counted, lowers_write, counted_bound,
}

-- How the bits and the numbers of threads in each phase go together. `second` is the second bit: it
-- may also be left by a `tryuplock` that failed against a writer.
pub record Fits (second v n r u w l : ℕ) : Type 0 where
  pub spelled : v ≡ n * 4 + second * 2 + w
  pub is_bit : second ≤ 1
  pub one : u + w ≤ 1
  pub upgraded_shown : u ≤ second
  pub lowered_shown : l ≤ second
  pub shown : second ≤ u + w
  pub apart : (w ≡ 0) ⊎ (r ≡ 0)

-- The same for a thread `t` and the numbers of the others.
abbrev FitsWith : ℕ → ℕ → Phase → ℕ → ℕ → ℕ → ℕ → ℕ → Type 0
FitsWith second v t n r u w l =
    Fits second v (counted t + n) (reads t + r) (upgrades t + u) (writes t + w) (lowers t + l)

abbrev Fitting : ℕ × Phase → ℕ → ℕ → ℕ → ℕ → ℕ → Type 0
Fitting x n r u w l = (second : ℕ) × FitsWith second x.0 x.1 n r u w l

module _ (n r u w l : ℕ) (rn : r ≤ n) (lw : l ≤ w) (second v : ℕ) where
  after_try_read : FitsWith second v Phase.idle n r u w l → Fitting (try_rdlock v) n r u w l
  unfolding try_rdlock
  after_try_read f = elim (eq_cases (v % 4) 0) [
    | inl e ↦ rw (bit_and-low_two v, eq→== _ _ e) (second, omega (arith, f))
    | inr e ↦ rw (bit_and-low_two v, ne→== _ _ e) (second, omega (arith, f))
  ]

  after_try_upgrade : FitsWith second v Phase.idle n r u w l → Fitting (try_uplock v) n r u w l
  unfolding try_uplock
  after_try_upgrade f = elim (eq_cases (v % 4) 0) [
    | inl e ↦ rw (bit_and-low_two v, eq→== _ _ e, bit_or-second v) (1, omega (arith, f))
    | inr e ↦ rw (bit_and-low_two v, ne→== _ _ e, bit_or-second v) (1, omega (arith, f))
  ]

  after_try_write : FitsWith second v Phase.idle n r u w l → Fitting (try_wrlock v) n r u w l
  unfolding try_wrlock
  after_try_write f = elim (eq_cases v 0) [
    | inl e ↦ rw (eq→== _ _ e) (0, omega (arith, f))
    | inr e ↦ rw (ne→== _ _ e) (second, f)
  ]

  after_try_exchange :
      FitsWith second v Phase.upgraded n r u w l → Fitting (try_upunlock_wrlock v) n r u w l
  unfolding try_upunlock_wrlock
  after_try_exchange f = elim (eq_cases v 2) [
    | inl e ↦ rw (eq→== _ _ e) (0, omega (arith, f))
    | inr e ↦ rw (ne→== _ _ e) (second, f)
  ]

  after-Move :
      (t : Phase) (x : ℕ × Phase) → Move v t x → FitsWith second v t n r u w l → Fitting x n r u w l
  after-Move t x Move.try_read f = after_try_read f
  after-Move t x Move.retreat f = (second, omega (arith, f))
  after-Move t x Move.end_read f = (second, omega (arith, f))
  after-Move t x Move.try_upgrade f = after_try_upgrade f
  after-Move t x Move.try_write f = after_try_write f
  after-Move t x Move.try_exchange f = after_try_exchange f
  after-Move t x Move.end_write f = (0, omega (arith, f))
  after-Move t x Move.start_downgrade f = (second, omega (arith, f))
  after-Move t x Move.end_downgrade f = (0, omega (arith, f))
  after-Move t x Move.end_upgrade f = (0, omega (arith, f))
  after-Move t x Move.upgraded_to_read f = (0, omega (arith, f))
  after-Move t x Move.start_lower f = rw (bit_or-second v) (1, omega (arith, f))
  after-Move t x Move.end_lower f = (1, omega (arith, f))

-- The invariant.
abbrev pub Consistent : System → Type 0
Consistent s =
    (second : ℕ) × Fits second s.bits (total counted s.threads) (total reads s.threads)
      (total upgrades s.threads) (total writes s.threads) (total lowers s.threads)

-- The numbers of the threads other than `t`.
abbrev others : (Phase → ℕ) → List Phase → List Phase → ℕ
others f front back = total f front + total f back

split_off :
    (front back : List Phase) (second v : ℕ) (t : Phase)
    → Fits second v
        (total counted (front ++ (t ∷ back)))
        (total reads (front ++ (t ∷ back)))
        (total upgrades (front ++ (t ∷ back)))
        (total writes (front ++ (t ∷ back)))
        (total lowers (front ++ (t ∷ back)))
    → FitsWith second v t
        (others counted front back)
        (others reads front back)
        (others upgrades front back)
        (others writes front back)
        (others lowers front back)
split_off front back second v t f =
    rw
      (
        sym (total-append counted front t back),
        sym (total-append reads front t back),
        sym (total-append upgrades front t back),
        sym (total-append writes front t back),
        sym (total-append lowers front t back),
      )
      f

put_back :
    (front back : List Phase) (second v : ℕ) (t : Phase)
    → FitsWith second v t
        (others counted front back)
        (others reads front back)
        (others upgrades front back)
        (others writes front back)
        (others lowers front back)
    → Fits second v
        (total counted (front ++ (t ∷ back)))
        (total reads (front ++ (t ∷ back)))
        (total upgrades (front ++ (t ∷ back)))
        (total writes (front ++ (t ∷ back)))
        (total lowers (front ++ (t ∷ back)))
put_back front back second v t f =
    rw
      (
        total-append counted front t back,
        total-append reads front t back,
        total-append upgrades front t back,
        total-append writes front t back,
        total-append lowers front t back,
      )
      f

Step-Consistent : {a b : System} → Step a b → Consistent a → Consistent b
Step-Consistent (step front back v t x m) (second, f) =
    let moved =
      after-Move (others counted front back) (others reads front back) (others upgrades front back)
        (others writes front back) (others lowers front back)
        (omega (arith, reads-counted front, reads-counted back))
        (omega (arith, lowers_write front, lowers_write back)) second v t x m
        (split_off front back second v t f) in
    (moved.0, put_back front back moved.0 x.0 x.1 moved.1)

pub Reachable-Consistent : {s : System} → Reachable s → Consistent s
Reachable-Consistent (start ts h) = (
  0,
  omega (
    arith,
    total-idle counted ts refl h,
    total-idle reads ts refl h,
    total-idle upgrades ts refl h,
    total-idle writes ts refl h,
    total-idle lowers ts refl h,
  ),
)
Reachable-Consistent (later reached move) = Step-Consistent move (Reachable-Consistent reached)

-- Whatever the threads do in whatever order, at most one of them has the lock for writing or for
-- upgrading, and none has it for reading while one has it for writing.
pub Reachable-exclusive :
    {s : System}
    → Reachable s
    → (total upgrades s.threads + total writes s.threads ≤ 1)
      × ((total writes s.threads ≡ 0) ⊎ (total reads s.threads ≡ 0))
Reachable-exclusive reached =
    let invariant = Reachable-Consistent reached in (invariant.1.one, invariant.1.apart)

-- In a state that can be reached and in which no thread has the lock or is about to leave it, all
-- bits are clear: no attempt that failed leaves a trace.
pub Reachable-free : {s : System} → Reachable s → All IsIdle s.threads → s.bits ≡ 0
Reachable-free {s} reached h =
    let invariant = Reachable-Consistent reached in
    omega (
      arith,
      invariant.1,
      total-idle counted s.threads refl h,
      total-idle upgrades s.threads refl h,
      total-idle writes s.threads refl h,
    )

-- In a state that can be reached, the bits stay below 4 times the number of threads, plus 4.
pub Reachable-bound : {s : System} → Reachable s → s.bits < length s.threads * 4 + 4
Reachable-bound {s} reached =
    let invariant = Reachable-Consistent reached in
    omega (arith, invariant.1, counted_bound s.threads)
