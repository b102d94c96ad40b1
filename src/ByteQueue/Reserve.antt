-- ===== src/ByteQueue/Reserve.antt =====
-- `init`, `reset`, `clear` and `reserve` leave valid queues; `write_offset` accounts for bytes that a
-- receive call stored in the free space itself.
use frog_game_framework.Base.{
  ℕ, ◌≤◌, ◌<◌, ◌≡◌, refl, sym, ◌∙◌, inl, inr, List, [], some, arith, length, Gives, Gives_map,
  if◌then◌else◌, ltb, eq→==, ne→==, eq_cases, lt_cases, lt→ltb, le→ltb, le→leb, true,
}
use frog_game_framework.Memory.{Memory}
use frog_game_framework.ByteQueue.{
  ByteQueue, get_bytes_readable, get_bytes_writable, init, reset, reserve, relocate, fill, put,
  write_offset, swap_to_reset, empty,
}
use frog_game_framework.ByteQueue.View.{
  Shape, Holds, IsValid, contents, limit, IsValid-holds, holds-IsValid, contents_of_holds,
}
use frog_game_framework.ByteQueue.Space.{get_bytes_readable-holds, get_bytes_writable-holds}
use frog_game_framework.ByteQueue.Fill.{put-holds}
use frog_game_framework.ByteQueue.Copy.{relocate-holds, holds-nil}
use frog_game_framework.ByteQueue.Write.{Appends, Appends-of_holds}

-- A fresh queue is valid and holds nothing.
pub init-IsValid :
    (memory : Memory) (n : ℕ)
    → n ≤ limit
    → IsValid (init memory n) × (contents (init memory n) ≡ [])
unfolding init contents
init-IsValid memory n small = (
  record {
    sized = elim (eq_cases n 0) [
      | inl e ↦ rw (eq→== _ _ e) (sym e)
      | inr e ↦ rw (ne→== _ _ e) (memory.length-malloc n)
    ];
    small = small;
    placed = inl (refl, refl);
  },
  ground arith,
)

-- `reset` drops all bytes and keeps the buffer.
pub reset-IsValid :
    {q : ByteQueue}
    → IsValid q
    → IsValid (reset q) × (contents (reset q) ≡ []) × ((reset q).capacity ≡ q.capacity)
unfolding reset contents
reset-IsValid v =
    (record { sized = v.sized; small = v.small; placed = inl (refl, refl) }, ground arith, refl)

-- What `reserve` promises: the same bytes in a buffer of the size asked for, or no change where the
-- bytes do not fit it.
abbrev pub Reserves : ByteQueue → ℕ → ByteQueue → Type 0
Reserves q n q' =
    IsValid q'
    × (contents q' ≡ contents q)
    × (q'.capacity ≡ (if ltb n (length (contents q)) then q.capacity else n))

-- `reserve` on a valid queue keeps the bytes and never faults.
pub reserve-Reserves :
    (memory : Memory) {q : ByteQueue} (n : ℕ)
    → IsValid q
    → n ≤ limit
    → Gives (reserve memory q n) (Reserves q n)
unfolding reserve
reserve-Reserves memory {q} n v small =
    rw (get_bytes_readable-holds h) (elim (lt_cases n (length (contents q))) [
      | inl less ↦ rw (lt→ltb _ _ less) (v, refl, kept less)
      | inr room ↦ rw (le→ltb _ _ room) (elim (eq_cases q.read_index q.capacity) [
        | inl e ↦ rw (eq→== _ _ e) (idle e room)
        | inr e ↦ rw (ne→== _ _ e) (
            Gives_map (relocate memory q n) (relocate-holds memory h n room small)
              (λ q' r. (holds-IsValid r.holds, contents_of_holds r.holds, r.size ∙ grown room)))
      ])
    ])
  where
    h : Holds q (contents q)
    h = IsValid-holds v

    size : ℕ
    size = if ltb n (length (contents q)) then q.capacity else n

    kept : n < length (contents q) → q.capacity ≡ size
    kept less = rw (lt→ltb _ _ less)

    grown : length (contents q) ≤ n → n ≡ size
    grown room = rw (le→ltb _ _ room)

    fresh : ByteQueue
    fresh = record {
      buffer = memory.realloc q.buffer n;
      capacity = n;
      read_index = n;
      write_index = 0;
    }

    idle : q.read_index ≡ q.capacity → length (contents q) ≤ n → Reserves q n fresh
    idle e room =
        let held : Holds fresh (contents q) = record {
          sized = memory.length-realloc q.buffer n;
          small = small;
          shape = Shape.idle refl refl (holds-nil h e);
        } in
        (holds-IsValid held, contents_of_holds held, grown room)

-- Where a receive call has stored the bytes `ys` in the free space, in the two parts that
-- `peek_contiguous_bytes_write` gives it, `write_offset` appends them.
pub write_offset-append :
    {q : ByteQueue} (ys block : List ℕ)
    → IsValid q
    → 0 < length ys
    → length ys ≤ get_bytes_writable q
    → fill q ys ≡ some block
    → Gives (write_offset (record q { buffer = block }) (length ys)) (Appends (contents q) ys)
unfolding write_offset put get_bytes_writable
write_offset-append {q} ys block v pos room filled =
    rw (ne→== (length ys) 0 (omega arith), le→leb _ _ room)
      (rw filled at (
        Gives_map (put q ys)
          (put-holds (IsValid-holds v) ys pos
            (omega (arith, get_bytes_writable-holds (IsValid-holds v))))
          (λ _ r. Appends-of_holds (contents q) ys r)))

-- After `swap_to_reset` the other queue is not reset: `empty` says that it is empty, and yet all
-- of its buffer counts as readable.
pub swap_to_reset_readable :
    (q rhs : ByteQueue)
    → q.capacity ≤ limit
    → (empty (swap_to_reset q rhs).1 ≡ true)
      × (get_bytes_readable (swap_to_reset q rhs).1 ≡ q.capacity)
unfolding swap_to_reset empty get_bytes_readable
swap_to_reset_readable q rhs small = (ground arith, ground arith)
