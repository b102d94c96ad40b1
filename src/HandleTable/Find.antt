-- ===== src/HandleTable/Find.antt =====
-- The slot that an identifier names.
use mathlib.Core.Option
use frog_game_framework.Base.{
  ℕ, ◌+◌, ◌-◌, ◌*◌, ◌/◌, ◌%◌, ◌≡◌, ◌≤◌, ◌<◌, refl, ap, ◌∙◌, none, some, bit_and, bit_and-ones,
  ne→==, lt→ltb, le→ltb, get_elem?, arith,
}
use frog_game_framework.HandleTable.{Table, Handle, find_slot, handle_mask}

bit_and-handle_mask : (id : ℕ) → bit_and id handle_mask ≡ id % 0x100000
bit_and-handle_mask id =
    ap (λ v. bit_and v handle_mask) {x = id} {y = id / 0x100000 * 0x100000 + id % 0x100000}
      (omega arith)
    ∙ bit_and-ones 20 (id / 0x100000) (id % 0x100000) (omega arith)

module _ (t : Table) (id i : ℕ) (low : id % 0x100000 ≡ i + 1) where
  pub find_slot_inside :
      i < t.capacity
      → find_slot t id ≡ Option.map (Option.map (λ handle. (i, handle))) (get_elem? t.slots i)
  unfolding find_slot
  find_slot_inside h =
      let back : i + 1 - 1 ≡ i = omega arith in
      rw (bit_and-handle_mask id, low, ne→== (i + 1) 0 (omega arith), back, lt→ltb i t.capacity h)
        refl

  pub find_slot_beyond : t.capacity ≤ i → find_slot t id ≡ some none
  unfolding find_slot
  find_slot_beyond h =
      let back : i + 1 - 1 ≡ i = omega arith in
      rw (bit_and-handle_mask id, low, ne→== (i + 1) 0 (omega arith), back, le→ltb i t.capacity h)
        refl

  pub find_slot_stored :
      (handle : Handle)
      → i < t.capacity
      → get_elem? t.slots i ≡ some (some handle)
      → find_slot t id ≡ some (some (i, handle))
  find_slot_stored handle h e = find_slot_inside h ∙ rw e refl

  pub find_slot_null : i < t.capacity → get_elem? t.slots i ≡ some none → find_slot t id ≡ some none
  find_slot_null h e = find_slot_inside h ∙ rw e refl

-- An identifier whose low bits are 0 is looked up at the index -1.
pub find_slot_fault : (t : Table) (id : ℕ) → id % 0x100000 ≡ 0 → find_slot t id ≡ none
unfolding find_slot
find_slot_fault t id low = rw (bit_and-handle_mask id, low) refl
