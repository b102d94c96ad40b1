-- ===== src/ByteQueue/Write.antt =====
-- `write`, `write_bytes` and `write_char` append to the readable bytes and keep the queue valid,
-- whatever the layout of the ring and whether or not it has to grow.
use frog_game_framework.Base.{
  ℕ, ◌+◌, ◌*◌, ◌≤◌, ◌<◌, ◌≡◌, refl, inl, inr, ◌++◌, List, arith, length, Gives, Gives_map,
  Gives_bind, Option, ◌>>=◌, eq→==, ne→==, eq_cases, lt_cases, lt→ltb, le→ltb,
}
use frog_game_framework.Memory.{Memory, align_size}
use frog_game_framework.ByteQueue.{
  ByteQueue, get_bytes_writable, first_block, relocate, make_room, make_exact_room, put, write,
  write_bytes,
}
use frog_game_framework.ByteQueue.View.{
  Shape, sized-three, Holds, IsValid, contents, limit, IsValid-holds, holds-IsValid,
  contents_of_holds,
}
use frog_game_framework.ByteQueue.Space.{get_bytes_writable-holds}
use frog_game_framework.ByteQueue.Fill.{put-holds}
use frog_game_framework.ByteQueue.Copy.{relocate-holds}

module _ (memory : Memory) {q : ByteQueue} {xs : List ℕ} (h : Holds q xs) where
  pub first_block-holds : (n : ℕ) → q.capacity ≡ 0 → n ≤ limit → Holds (first_block memory q n) xs
  unfolding first_block
  first_block-holds n e small = record {
    sized = memory.length-malloc n;
    small = small;
    shape = by_shape h.shape;
  }
    where
      by_shape : Shape q xs → Shape (first_block memory q n) xs
      by_shape (Shape.idle r w z) = Shape.idle refl w z
      by_shape (Shape.linear front back eb er ew p) =
          absurd (omega (arith, sized-three q front xs back h.sized eb))
      by_shape (Shape.wrapped later gap first eb ex ew er p) =
          absurd (omega (arith, sized-three q later gap first h.sized eb))

  -- The queue that the copy starts from: the same bytes, and room for `n` more.
  abbrev HasRoom : ℕ → ByteQueue → Type 0
  HasRoom n q' = Holds q' xs × (length xs + n ≤ q'.capacity)

  pub length_none : q.capacity ≡ 0 → length xs ≡ 0
  length_none e = omega (arith, get_bytes_writable-holds h)

  relocate-HasRoom :
      (n m : ℕ) → length xs + n ≤ m → m ≤ limit → Gives (relocate memory q m) (HasRoom n)
  relocate-HasRoom n m room small =
      Gives_map (relocate memory q m) (relocate-holds memory h m (omega arith) small)
        (λ q' r. (r.holds, omega (arith, r.size)))

  make_room-holds :
      (n : ℕ) → q.capacity * 2 + n + 256 ≤ limit → Gives (make_room memory q n) (HasRoom n)
  unfolding make_room first_block
  make_room-holds n small = elim (eq_cases q.capacity 0) [
    | inl e ↦
        rw (eq→== _ _ e)
          (first_block-holds (align_size n) e (omega arith), omega (arith, length_none e))
    | inr e ↦ rw (ne→== _ _ e) (elim (lt_cases (get_bytes_writable q) n) [
      | inl less ↦ rw (lt→ltb _ _ less) (
          relocate-HasRoom n _ (omega (arith, get_bytes_writable-holds h))
            (omega (arith, get_bytes_writable-holds h)))
      | inr enough ↦ rw (le→ltb _ _ enough) (h, omega (arith, get_bytes_writable-holds h))
    ])
  ]

  make_exact_room-holds :
      (n : ℕ) → q.capacity + n ≤ limit → Gives (make_exact_room memory q n) (HasRoom n)
  unfolding make_exact_room first_block
  make_exact_room-holds n small = elim (eq_cases q.capacity 0) [
    | inl e ↦ rw (eq→== _ _ e) (first_block-holds n e (omega arith), omega (arith, length_none e))
    | inr e ↦ rw (ne→== _ _ e) (elim (lt_cases (get_bytes_writable q) n) [
      | inl less ↦ rw (lt→ltb _ _ less) (
          relocate-HasRoom n _ (omega (arith, get_bytes_writable-holds h))
            (omega (arith, get_bytes_writable-holds h)))
      | inr enough ↦ rw (le→ltb _ _ enough) (h, omega (arith, get_bytes_writable-holds h))
    ])
  ]

-- What a write promises: a valid queue with the bytes appended.
abbrev pub Appends : List ℕ → List ℕ → ByteQueue → Type 0
Appends xs ys q' = IsValid q' × (contents q' ≡ xs ++ ys)

pub Appends-of_holds :
    (xs ys : List ℕ) {q : ByteQueue} {n : ℕ}
    → Holds q (xs ++ ys) × (q.capacity ≡ n)
    → Appends xs ys q
Appends-of_holds xs ys (h, _) = (holds-IsValid h, contents_of_holds h)

module _ (memory : Memory) {q : ByteQueue} (ys : List ℕ) (valid : IsValid q)
    (pos : 0 < length ys) where
  put_after :
      (m : Option ByteQueue)
      → Gives m (HasRoom memory (IsValid-holds valid) (length ys))
      → Gives (m >>= λ q'. put q' ys) (Appends (contents q) ys)
  put_after m g =
      Gives_bind m (λ q'. put q' ys) (Appends (contents q) ys) g
        (λ q' r.
          Gives_map (put q' ys) (put-holds r.0 ys pos r.1)
            (λ _ s. Appends-of_holds (contents q) ys s))

  -- `write` on a valid queue faults on no input but the empty one, as long as the capacities stay
  -- within the limit. It keeps the queue valid and appends the bytes to what can be read.
  pub write-append :
      q.capacity * 2 + length ys + 256 ≤ limit → Gives (write memory q ys) (Appends (contents q) ys)
  unfolding write
  write-append small = rw (ne→== (length ys) 0 (omega arith)) (
      put_after (make_room memory q (length ys))
        (make_room-holds memory (IsValid-holds valid) (length ys) small))

  -- `write_bytes` on a valid queue, which grows to the exact size, appends likewise.
  pub write_bytes-append :
      q.capacity + length ys ≤ limit → Gives (write_bytes memory q ys) (Appends (contents q) ys)
  unfolding write_bytes
  write_bytes-append small = rw (ne→== (length ys) 0 (omega arith)) (
      put_after (make_exact_room memory q (length ys))
        (make_exact_room-holds memory (IsValid-holds valid) (length ys) small))
