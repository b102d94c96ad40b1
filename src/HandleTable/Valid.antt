-- ===== src/HandleTable/Valid.antt =====
-- What holds of a table between two operations.
use frog_game_framework.Base.{
  ℕ, ◌+◌, ◌≡◌, ◌≤◌, ◌<◌, List, [], ◌∷◌, none, some, length, get_elem?, get_elem?_bound, arith,
}
use frog_game_framework.HandleTable.{Slot, Handle, Table, handle_mask}

pub record IsValid (t : Table) : Type 0 where
  pub slot_count : length t.slots ≡ t.capacity
  pub index_count : length t.index ≡ t.capacity
  pub some_slots : 0 < t.capacity
  pub capped : t.capacity ≤ handle_mask
  pub within : t.count ≤ t.capacity
  pub in_range : (j i : ℕ) → j < t.count → get_elem? t.index j ≡ some i → i < t.capacity
  pub distinct :
      (j k i : ℕ)
      → j < t.count
      → k < t.count
      → get_elem? t.index j ≡ some i
      → get_elem? t.index k ≡ some i
      → j ≡ k

-- The index stands on the stack of free slots.
abbrev pub IsFree : Table → ℕ → Type 0
IsFree t i = (j : ℕ) × (j < t.count) × (get_elem? t.index j ≡ some i)

-- The slot has the handle, and cannot be given to another one.
pub record Owns (t : Table) (i : ℕ) (handle : Handle) : Type 0 where
  pub stored : get_elem? t.slots i ≡ some (some handle)
  pub taken : ¬ IsFree t i

-- The number of slots that have a handle.
abbrev pub weight : Slot → ℕ
weight none = 0
weight (some handle) = 1

unfoldable pub occupied : List Slot → ℕ
occupied [] = 0
occupied (slot ∷ slots) = weight slot + occupied slots

-- What holds as well where new slots are cleared: a free slot is NULL, and every slot is free or
-- has a handle.
pub record IsClean (t : Table) : Type 0 where
  pub free_null : (i : ℕ) → IsFree t i → get_elem? t.slots i ≡ some none
  pub conserved : t.count + occupied t.slots ≡ t.capacity

pub Owns-inside :
    (t : Table) (i : ℕ) (handle : Handle) → IsValid t → Owns t i handle → i < t.capacity
Owns-inside t i handle valid o =
    omega (arith, valid, get_elem?_bound t.slots i (some handle) o.stored)
