-- ===== src/HandleTable.antt =====
-- The table of handles of a service centre and of a channel centre
-- (src/service/source/serviceCenter_t.c, src/service/source/channel/channelCenter_t.c): an array of
-- slots, and the indices of free slots in an array that is used as a stack. Both files repeat the
-- code with other names.
--
-- A handle is the address of an object; a slot is a handle or NULL. An int32_t that holds an index or
-- a capacity never exceeds 0xfffff.
pub mod Valid
pub mod Index
mod Pigeonhole
mod Occupied
pub mod Start
pub mod Use
pub mod GiveBack
pub mod Insert
pub mod Find
pub mod Objects
pub mod Example
use mathlib.Core.Option
use frog_game_framework.Base.{
  ℕ, zero, suc, ◌+◌, ◌-◌, ◌*◌, min, ◌==◌, ltb, if◌then◌else◌, List, [], ◌∷◌, Option, none, some,
  ◌>>=◌, ◌≡◌, ◌≤◌, length, get_elem?, set_elem?, bit_and, Bool, true, false,
}

abbrev pub Handle : Type 0
Handle = ℕ

abbrev pub Slot : Type 0
Slot = Option Handle

pub record Table : Type 0 where
  pub slots : List Slot
  pub capacity : ℕ
  pub index : List ℕ
  pub count : ℕ

-- Both arrays come from the host's allocator: a new array has any contents, one that has grown
-- begins with the old ones.
pub record Allocator : Type 0 where
  pub malloc_index : ℕ → List ℕ
  pub malloc_slots : ℕ → List Slot
  pub realloc_slots : List Slot → ℕ → List Slot
  pub length-malloc_index : (n : ℕ) → length (malloc_index n) ≡ n
  pub length-malloc_slots : (n : ℕ) → length (malloc_slots n) ≡ n
  pub length-realloc_slots : (slots : List Slot) (n : ℕ) → length (realloc_slots slots n) ≡ n
  pub realloc_slots-keeps :
      (slots : List Slot) (n i : ℕ) (x : Slot)
      → length slots ≤ n
      → get_elem? slots i ≡ some x
      → get_elem? (realloc_slots slots n) i ≡ some x

-- `bzero` of the slots from `i` on.
unfoldable pub clear_slots : ℕ → ℕ → List Slot → Option (List Slot)
clear_slots zero i slots = some slots
clear_slots (suc n) i slots = set_elem? slots i none >>= clear_slots n (suc i)

-- The loop that numbers the free slots, so that the lowest is on top of the stack.
unfoldable pub fill_index : ℕ → ℕ → ℕ → List ℕ → Option (List ℕ)
fill_index zero i capacity index = some index
fill_index (suc n) i capacity index =
    set_elem? index i (capacity - i - 1) >>= fill_index n (suc i) capacity

abbrev pub first_capacity : ℕ
first_capacity = 64

abbrev pub handle_mask : ℕ
handle_mask = 0xfffff

-- The table of `serviceCenter_init` and `channelCenter_init`.
unfoldable pub make_table : Allocator → Option Table
make_table a = do
  slots ← clear_slots first_capacity 0 (a.malloc_slots first_capacity)
  index ← fill_index first_capacity 0 first_capacity (a.malloc_index first_capacity)
  some (record { slots = slots; capacity = first_capacity; index = index; count = first_capacity })

-- A full table gets twice the slots; `renew` gives the array of the slots in its new size.
unfoldable pub grow : Allocator → (List Slot → ℕ → ℕ → Option (List Slot)) → Table → Option Table
grow a renew t =
    let capacity = min (t.capacity * 2) handle_mask in
    let added = capacity - t.capacity in
    do
      slots ← renew t.slots t.capacity capacity
      index ← fill_index added 0 capacity (a.malloc_index capacity)
      some (record { slots = slots; capacity = capacity; index = index; count = added })

-- The top of the stack of free indices gets the handle.
unfoldable pub take_slot : Table → Handle → Option (ℕ × Table)
take_slot t handle = if t.count == 0 then none else (do
  i ← get_elem? t.index (t.count - 1)
  slots ← set_elem? t.slots i (some handle)
  some (i, record t { slots = slots; count = t.count - 1 }))

-- `serviceCenter_register` and `channelCenter_register` up to the identifier: `some none` where the
-- table is full and may not grow.
unfoldable pub insert :
    Allocator
    → (List Slot → ℕ → ℕ → Option (List Slot))
    → Table
    → Handle
    → Option (Option (ℕ × Table))
insert a renew t handle =
    if t.count == 0
    then if t.capacity == handle_mask
      then some none
      else (do u ← grow a renew t; r ← take_slot u handle; some (some r))
    else (do r ← take_slot t handle; some (some r))

-- The slot that an identifier names: `some none` where the index is not below the capacity. The low
-- bits hold the index and 1; where they are 0 the index is -1, which passes the test, and the read
-- is outside the array.
unfoldable pub find_slot : Table → ℕ → Option (Option (ℕ × Handle))
find_slot t id =
    let low = bit_and id handle_mask in
    if low == 0
    then none
    else if ltb (low - 1) t.capacity
    then Option.map (Option.map (λ handle. (low - 1, handle))) (get_elem? t.slots (low - 1))
    else some none

-- A slot that is given back: it is cleared, and its index goes on the stack.
unfoldable pub give_slot : Table → ℕ → Option Table
give_slot t i = do
  slots ← set_elem? t.slots i none
  index ← set_elem? t.index t.count i
  some (record t { slots = slots; index = index; count = t.count + 1 })
