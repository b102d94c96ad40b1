-- ===== src/Service/Wakes.antt =====
-- The watcher of a service, as eventWatcher_notify and eventWatcher_reset of
-- src/core/source/eventIO/posix/eventWatcher_t.c leave it.
use frog_game_framework.Base.{
  ℕ, lt_cases, ◌≡◌, ◌≢◌, ◌<◌, ◌≤◌, ◌⊎◌, inl, inr, refl, List, [], arith, eq→==, ne→==,
}
use frog_game_framework.Streams.{Event}
use frog_game_framework.Service.{Point, exchange_status}

-- 0 outside, 1 where the watcher has been reset before that, 2 before the reset.
abbrev pub stage : Point → ℕ
stage Point.outside = 0
stage Point.rechecking = 1
stage Point.notifying = 1
stage _ = 2

-- The watcher, where the service has one: it is not closed, from its reset on it waits or is
-- notified, and where it waits outside, the queue is empty or one of `k` callers will notify it.
pub record Wakes (k at status : ℕ) (es : List Event) : Type 0 where
  pub is_open : 0 < status
  pub is_known : status < 4
  pub is_reset : at < 2 → status < 3
  pub is_called : at ≡ 0 → (status ≡ 2) ⊎ ((0 < k) ⊎ (es ≡ []))

notified_status :
    (status : ℕ)
    → 0 < status
    → status < 4
    → ((status < 3) × (exchange_status 1 2 status ≡ 2))
      ⊎ ((status ≡ 3) × (exchange_status 1 2 status ≡ 3))
notified_status status o h = elim (lt_cases status 3) [
  | inl l ↦ inl (
    l,
    elim (lt_cases status 2) [
      | inl l2 ↦ rw (eq→== status 1 (omega arith)) refl
      | inr g2 ↦ rw (ne→== status 1 (omega arith)) (omega arith)
    ],
  )
  | inr g ↦ inr (omega arith, rw (ne→== status 1 (omega arith)) (omega arith))
]

reset_status :
    (status : ℕ)
    → 0 < status
    → status < 4
    → (0 < exchange_status 3 1 status) × (exchange_status 3 1 status < 3)
reset_status status o h = elim (lt_cases status 3) [
  | inl l ↦ rw (ne→== status 3 (omega arith)) (o, l)
  | inr g ↦ rw (eq→== status 3 (omega arith)) (omega arith, omega arith)
]

-- A notification leaves the watcher notified where it has been reset.
pub Wakes-notified :
    {k : ℕ} (m : ℕ) {at : ℕ} (to : ℕ) {status : ℕ} {es : List Event}
    → (to < 2 → at < 2)
    → Wakes k at status es
    → Wakes m to (exchange_status 1 2 status) es
Wakes-notified m to {status} from w = elim (notified_status status w.is_open w.is_known) [
  | inl r ↦ record {
    is_open = omega (arith, r.1);
    is_known = omega (arith, r.1);
    is_reset = λ b. omega (arith, r.1);
    is_called = λ b. inl r.1;
  }
  | inr r ↦ record {
    is_open = omega (arith, r.1);
    is_known = omega (arith, r.1);
    is_reset = λ b. absurd (omega (arith, w.is_reset (from b), r.0));
    is_called = λ b. absurd (omega (arith, w.is_reset (from (omega (arith, b))), r.0));
  }
]

-- A reset leaves it waiting, or notified.
pub Wakes-reset :
    {k at : ℕ} (to : ℕ) {status : ℕ} {es : List Event}
    → to ≢ 0
    → Wakes k at status es
    → Wakes k to (exchange_status 3 1 status) es
Wakes-reset to {status} inside w =
    let (pos, low) = reset_status status w.is_open w.is_known in
    record {
      is_open = pos;
      is_known = omega (arith, low);
      is_reset = λ b. low;
      is_called = λ z. absurd (inside z);
    }

-- Inside, before the reset.
pub Wakes-inside :
    {k at : ℕ} (to : ℕ) {status : ℕ} {es fs : List Event}
    → 2 ≤ to
    → Wakes k at status es
    → Wakes k to status fs
Wakes-inside to far w = record {
  is_open = w.is_open;
  is_known = w.is_known;
  is_reset = λ b. absurd (omega arith);
  is_called = λ b. absurd (omega (arith, b));
}

pub Wakes-inserted :
    {k m at status : ℕ} {es fs : List Event} → 0 < m → Wakes k at status es → Wakes m at status fs
Wakes-inserted pos w = record {
  is_open = w.is_open;
  is_known = w.is_known;
  is_reset = w.is_reset;
  is_called = λ b. inr (inl pos);
}
