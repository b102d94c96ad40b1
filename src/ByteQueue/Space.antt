-- ===== src/ByteQueue/Space.antt =====
-- The counts of readable and writable bytes, and where a copy of new bytes ends up.
use frog_game_framework.Base.{
  ℕ, ◌+◌, ◌%◌, ◌^◌, ◌≤◌, ◌<◌, ◌≡◌, refl, ap, sym, ◌∙◌, ◌++◌, List, [], ◌∷◌, some, arith, length,
  length-append, append-nil, Gives, ◌==◌, if◌then◌else◌,
}
use native.Mathlib.Nat.{mod_self, mod-eq_of_lt}
use frog_game_framework.ByteQueue.{
  ByteQueue, get_bytes_readable, get_bytes_writable, advance, fill, put,
}
use frog_game_framework.ByteQueue.View.{Shape, Holds, sized-three, limit}

pub get_bytes_readable-holds :
    {q : ByteQueue} {xs : List ℕ} → Holds q xs → get_bytes_readable q ≡ length xs
unfolding get_bytes_readable
get_bytes_readable-holds {q} {xs} h = readable h.shape
  where
    readable : Shape q xs → get_bytes_readable q ≡ length xs
    readable (Shape.idle r w e) = ground (arith, h.small, ap length e)
    readable (Shape.linear front back eb er ew p) =
        ground (arith, h.small, sized-three q front xs back h.sized eb)
    readable (Shape.wrapped later gap first eb ex ew er p) = ground (
      arith,
      h.small,
      sized-three q later gap first h.sized eb,
      ap length ex,
      length-append first later,
    )

pub get_bytes_writable-holds :
    {q : ByteQueue} {xs : List ℕ} → Holds q xs → get_bytes_writable q + length xs ≡ q.capacity
unfolding get_bytes_writable
get_bytes_writable-holds {q} {xs} h = writable h.shape
  where
    writable : Shape q xs → get_bytes_writable q + length xs ≡ q.capacity
    writable (Shape.idle r w e) = ground (arith, h.small, ap length e)
    writable (Shape.linear front back eb er ew p) =
        ground (arith, h.small, sized-three q front xs back h.sized eb)
    writable (Shape.wrapped later gap first eb ex ew er p) = ground (
      arith,
      h.small,
      sized-three q later gap first h.sized eb,
      ap length ex,
      length-append first later,
    )

-- One stretch that ends where the write index points, modulo the capacity.
pub one_stretch :
    (q : ByteQueue) (front xs back : List ℕ)
    → length q.buffer ≡ q.capacity
    → q.buffer ≡ front ++ (xs ++ back)
    → q.read_index ≡ length front
    → 0 < length xs
    → q.write_index ≡ (length front + length xs) % q.capacity
    → Shape q xs
one_stretch q front xs [] s eb er p ew =
    Shape.wrapped [] front xs (eb ∙ ap (λ t. front ++ t) (append-nil xs)) (sym (append-nil xs))
      (ew ∙ full) (omega arith) p
  where
    full : (length front + length xs) % q.capacity ≡ 0
    full =
        ap (λ k. k % q.capacity) (omega (arith, sized-three q front xs [] s eb))
        ∙ mod_self q.capacity
one_stretch q front xs (b ∷ back) s eb er p ew =
    Shape.linear front (b ∷ back) eb er
      (ew ∙ mod-eq_of_lt (omega (arith, sized-three q front xs (b ∷ back) s eb))) p

advance_lem :
    (q : ByteQueue) (n : ℕ)
    → 0 < q.capacity
    → q.write_index + n < 2 ^ 64
    → advance q n
      ≡ some (record q {
        write_index = (q.write_index + n) % q.capacity;
        read_index = if q.read_index == q.capacity then 0 else q.read_index;
      })
unfolding advance
advance_lem q n c h = ground (arith, mod-eq_of_lt h)

module _ (q : ByteQueue) (ys block : List ℕ) (filled : fill q ys ≡ some block)
    (sized : length block ≡ q.capacity) (small : q.capacity ≤ limit) where
  -- The write lengthens the one stretch.
  pub put_one :
      (front zs back : List ℕ)
      → block ≡ front ++ (zs ++ back)
      → (if q.read_index == q.capacity then 0 else q.read_index) ≡ length front
      → 0 < length zs
      → q.write_index + length ys ≡ length front + length zs
      → Gives (put q ys) (λ q'. Holds q' zs × (q'.capacity ≡ q.capacity))
  unfolding put
  put_one front zs back eb er p ew =
      let total : q.capacity ≡ length front + length zs + length back =
        sized-three (record q { buffer = block }) front zs back sized eb in
      rw (filled, advance_lem (record q { buffer = block }) (length ys) (omega arith) (omega arith))
        (
          record {
            sized = sized;
            small = small;
            shape = one_stretch _ front zs back sized eb er p (ap (λ k. k % q.capacity) ew);
          },
          refl,
        )

  -- The write leaves two stretches.
  pub put_two :
      (zs later gap first : List ℕ)
      → block ≡ later ++ (gap ++ first)
      → zs ≡ first ++ later
      → (q.write_index + length ys) % q.capacity ≡ length later
      → q.write_index ≤ q.capacity
      → length ys ≤ q.capacity
      → q.read_index ≡ length later + length gap
      → 0 < length first
      → Gives (put q ys) (λ q'. Holds q' zs × (q'.capacity ≡ q.capacity))
  unfolding put
  put_two zs later gap first eb ez ew hw hy er p =
      let total : q.capacity ≡ length later + length gap + length first =
        sized-three (record q { buffer = block }) later gap first sized eb in
      rw (filled, advance_lem (record q { buffer = block }) (length ys) (omega arith) (omega arith))
        (
          record {
            sized = sized;
            small = small;
            shape = Shape.wrapped later gap first eb ez ew (ground arith) p;
          },
          refl,
        )
