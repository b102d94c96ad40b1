-- ===== src/RwSpinLock/Tests.antt =====
-- Two threads at the lock.
use frog_game_framework.Base.{◌+◌, ◌≤◌, ◌≡◌, ◌⊎◌, refl, total, [], ◌∷◌}
use frog_game_framework.RwSpinLock.{
  Phase, System, Move, step, Reachable, start, later, try_wrlock, try_rdlock, try_uplock, wrunlock,
}
use frog_game_framework.RwSpinLock.Totals.{reads, writes, upgrades}
use frog_game_framework.RwSpinLock.Exclusion.{Reachable-exclusive, Reachable-free}

-- The first thread writes while the second has tried to read and not yet retreated.
abbrev contended : System
contended = record { bits = 5; threads = Phase.writing ∷ Phase.retreating ∷ [] }

contended-Reachable : Reachable contended
unfolding try_wrlock try_rdlock
contended-Reachable =
    later
      (later (start (Phase.idle ∷ Phase.idle ∷ []) (refl, (refl, tt)))
        (step [] (Phase.idle ∷ []) 0 Phase.idle (try_wrlock 0) Move.try_write))
      (step (Phase.writing ∷ []) [] 1 Phase.idle (try_rdlock 1) Move.try_read)

Reachable-exclusive_example :
    (total upgrades contended.threads + total writes contended.threads ≤ 1)
    × ((total writes contended.threads ≡ 0) ⊎ (total reads contended.threads ≡ 0))
Reachable-exclusive_example = Reachable-exclusive contended-Reachable

-- A writer is done while an upgrade failed against it: the second bit is cleared too.
abbrev released : System
released = record { bits = 0; threads = Phase.idle ∷ Phase.idle ∷ [] }

released-Reachable : Reachable released
unfolding try_wrlock try_uplock
released-Reachable =
    later
      (later
        (later (start (Phase.idle ∷ Phase.idle ∷ []) (refl, (refl, tt)))
          (step [] (Phase.idle ∷ []) 0 Phase.idle (try_wrlock 0) Move.try_write))
        (step (Phase.writing ∷ []) [] 1 Phase.idle (try_uplock 1) Move.try_upgrade))
      (step [] (Phase.idle ∷ []) 3 Phase.writing (wrunlock 3) Move.end_write)

Reachable-free_example : released.bits ≡ 0
Reachable-free_example = Reachable-free released-Reachable (refl, (refl, tt))
