-- ===== src/ByteQueue/WriteChar.antt =====
-- `write_char` appends one byte, unless the write index has been left behind the last byte of the
-- buffer, where it writes out of bounds.
use frog_game_framework.Base.{
  ℕ, ◌+◌, ◌*◌, ◌%◌, ◌^◌, ◌≤◌, ◌<◌, ◌≡◌, sym, subst, ◌⊎◌, inl, inr, List, [], ◌∷◌, some, arith,
  length, Gives, Gives_map, Gives_bind, ◌==◌, if◌then◌else◌, Option, none, ltb, ◌>>=◌, eq→==, ne→==,
  eq_cases, lt_cases, lt→ltb, le→ltb,
}
use frog_game_framework.Memory.{Memory, align_size, add_size, store}
use frog_game_framework.ByteQueue.{
  ByteQueue, get_bytes_writable, first_block, relocate, put, write_char, fill, advance,
  peek_contiguous_bytes_write,
}
use frog_game_framework.ByteQueue.View.{
  Holds, IsValid, contents, limit, IsValid-holds, holds-IsValid,
}
use frog_game_framework.ByteQueue.Space.{get_bytes_writable-holds}
use frog_game_framework.ByteQueue.Fill.{put-holds}
use frog_game_framework.ByteQueue.Copy.{relocate-holds}
use frog_game_framework.ByteQueue.Write.{Appends, Appends-of_holds, first_block-holds, length_none}

-- A queue with a free byte at its write index.
record HasSlot (xs : List ℕ) (q : ByteQueue) : Type 0 where
  holds : Holds q xs
  room : length xs + 1 ≤ q.capacity
  slot : q.write_index < q.capacity

put-one :
    {q : ByteQueue} {xs : List ℕ} (c : ℕ)
    → HasSlot xs q
    → (store q.buffer q.write_index (c ∷ []) >>= λ block. advance (record q { buffer = block }) 1)
      ≡ put q (c ∷ [])
unfolding put fill peek_contiguous_bytes_write get_bytes_writable
put-one {q} {xs} c s = ground (
  arith,
  get_bytes_writable-holds s.holds,
  s.room,
  s.slot,
  s.holds.small,
  (holds-IsValid s.holds).placed,
)

-- A write index at the end of the buffer is in order only where it makes the queue full.
abbrev pub IsWritable : ByteQueue → Type 0
IsWritable q = (q.write_index < q.capacity) ⊎ (q.read_index ≡ 0)

slot_of_writable :
    (q : ByteQueue)
    → IsValid q
    → IsWritable q
    → 1 ≤ get_bytes_writable q
    → q.write_index < q.capacity
unfolding get_bytes_writable
slot_of_writable q v w h = ground arith

module _ (memory : Memory) {q : ByteQueue} (valid : IsValid q) (w : IsWritable q) (c : ℕ) where
  -- `write_char` appends the byte, and grows a full queue.
  pub write_char-append :
      q.capacity * 2 + 512 ≤ limit → Gives (write_char memory q c) (Appends (contents q) (c ∷ []))
  unfolding write_char first_block
  write_char-append small = Gives_bind grown _ _ has_slot (λ q' s.
      subst (λ m. Gives m (Appends xs (c ∷ []))) (sym (put-one c s))
        (Gives_map (put q' (c ∷ [])) (put-holds s.holds (c ∷ []) (omega arith) s.room)
          (λ _ r. Appends-of_holds xs (c ∷ []) r)))
    where
      xs : List ℕ
      xs = contents q

      h : Holds q xs
      h = IsValid-holds valid

      grown : Option ByteQueue
      grown =
          if q.capacity == 0
          then some (first_block memory q 256)
          else (if ltb (get_bytes_writable q) 1
              then relocate memory q (align_size (add_size (q.capacity * 2 % 2 ^ 64) 1))
              else some q)

      bigger : ℕ
      bigger = align_size (add_size (q.capacity * 2 % 2 ^ 64) 1)

      full : get_bytes_writable q < 1 → Gives (relocate memory q bigger) (HasSlot xs)
      full less =
          Gives_map (relocate memory q bigger)
            (relocate-holds memory h bigger (omega (arith, get_bytes_writable-holds h))
              (omega arith))
            (λ q' r. record {
              holds = r.holds;
              room = omega (arith, r.size, get_bytes_writable-holds h);
              slot = omega (arith, r.size, r.after, get_bytes_writable-holds h);
            })

      has_slot : Gives grown (HasSlot xs)
      has_slot = elim (eq_cases q.capacity 0) [
        | inl e ↦ rw (eq→== _ _ e) (record {
          holds = first_block-holds memory h 256 e (omega arith);
          room = omega (arith, length_none memory h e);
          slot = omega (arith, valid.placed);
        })
        | inr e ↦ rw (ne→== _ _ e) (elim (lt_cases (get_bytes_writable q) 1) [
          | inl less ↦ rw (lt→ltb _ _ less) (full less)
          | inr enough ↦ rw (le→ltb _ _ enough) (record {
            holds = h;
            room = omega (arith, get_bytes_writable-holds h);
            slot = slot_of_writable q valid w enough;
          })
        ])
      ]

-- `write_char` on a queue whose write index stands behind the last byte while the front of the
-- buffer is free: the code does not wrap the index first, and stores outside the buffer.
pub write_char_fault :
    (memory : Memory) {q : ByteQueue} (c : ℕ)
    → IsValid q
    → q.write_index ≡ q.capacity
    → 0 < q.read_index
    → q.read_index < q.capacity
    → write_char memory q c ≡ none
unfolding write_char store get_bytes_writable
write_char_fault memory c v e r s = ground (arith, v.sized, v.small)
