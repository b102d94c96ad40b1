-- ===== src/ByteQueue/Fill.antt =====
-- `write` and `write_bytes` append to the readable bytes, whatever the layout of the ring.
use frog_game_framework.Base.{
  ℕ, ◌+◌, ◌-◌, ◌%◌, ◌≤◌, ◌<◌, ◌≡◌, refl, ap, sym, ◌∙◌, subst, inl, inr, ◌++◌, List, [], some, arith,
  length, take, drop, length-append, length-take, length-drop, take-append-drop, append_assoc,
  append-nil, lt_cases, Gives, ◌>>=◌,
}
use native.Mathlib.Nat.{mod-eq_of_lt, mod-eq-sub-mod}
use frog_game_framework.Memory.{store, store_at}
use frog_game_framework.ByteQueue.{ByteQueue, fill, put, peek_contiguous_bytes_write}
use frog_game_framework.ByteQueue.View.{Shape, Holds, sized-three, length-three, limit}
use frog_game_framework.ByteQueue.Space.{put_one, put_two}

fill_one :
    (q : ByteQueue) (ys : List ℕ) {n : ℕ}
    → (peek_contiguous_bytes_write q).1 ≡ n
    → length ys ≤ n
    → fill q ys ≡ store q.buffer q.write_index ys
unfolding fill peek_contiguous_bytes_write
fill_one q ys e h = ground arith

fill_two :
    (q : ByteQueue) (ys : List ℕ) {n : ℕ}
    → (peek_contiguous_bytes_write q).1 ≡ n
    → n < length ys
    → fill q ys ≡ (store q.buffer q.write_index (take n ys) >>= λ b. store b 0 (drop n ys))
unfolding fill peek_contiguous_bytes_write
fill_two q ys e h = ground arith

-- The free bytes in one piece from the write index on.
free_of_le :
    (q : ByteQueue)
    → q.capacity ≤ limit
    → q.read_index ≤ q.capacity
    → q.write_index ≤ q.read_index
    → (peek_contiguous_bytes_write q).1 ≡ q.read_index - q.write_index
unfolding peek_contiguous_bytes_write
free_of_le q s r h = ground arith

free_of_lt :
    (q : ByteQueue)
    → q.capacity ≤ limit
    → q.write_index ≤ q.capacity
    → q.read_index < q.write_index
    → (peek_contiguous_bytes_write q).1 ≡ q.capacity - q.write_index
unfolding peek_contiguous_bytes_write
free_of_lt q s r h = ground arith

module _ {q : ByteQueue} {xs : List ℕ} (h : Holds q xs) (ys : List ℕ) (p : 0 < length ys)
    (fits : length xs + length ys ≤ q.capacity) where
  -- An empty queue: the bytes go to the front of the buffer.
  put_idle :
      q.read_index ≡ q.capacity
      → q.write_index ≡ 0
      → xs ≡ []
      → Gives (put q ys) (λ q'. Holds q' (xs ++ ys) × (q'.capacity ≡ q.capacity))
  put_idle r w e =
      subst (λ zs. Gives (put q ys) (λ q'. Holds q' (zs ++ ys) × (q'.capacity ≡ q.capacity)))
        (sym e)
        (put_one q ys (ys ++ back) filled (omega (arith, length-append ys back, old, rest, h.sized))
          h.small [] ys back refl (ground arith) p (omega arith))
    where
      back : List ℕ
      back = drop (length ys) q.buffer

      old : length (take (length ys) q.buffer) ≡ length ys
      old = omega (arith, length-take (length ys) q.buffer, h.sized)

      rest : length back ≡ q.capacity - length ys
      rest = omega (arith, length-drop (length ys) q.buffer, h.sized)

      filled : fill q ys ≡ some (ys ++ back)
      filled =
          fill_one q ys (free_of_le q h.small (omega arith) (omega arith)) (omega arith)
          ∙ store_at [] (take (length ys) q.buffer) back ys
              (sym (take-append-drop (length ys) q.buffer)) w old

  module _ (front back : List ℕ) (eb : q.buffer ≡ front ++ (xs ++ back))
      (er : q.read_index ≡ length front) (ew : q.write_index ≡ length front + length xs)
      (held : 0 < length xs) where
    total : q.capacity ≡ length front + length xs + length back
    total = sized-three q front xs back h.sized eb

    free : (peek_contiguous_bytes_write q).1 ≡ length back
    free = free_of_lt q h.small (omega (arith, total)) (omega arith) ∙ omega (arith, total)

    -- One stretch with enough room behind it.
    put_behind :
        length ys ≤ length back
        → Gives (put q ys) (λ q'. Holds q' (xs ++ ys) × (q'.capacity ≡ q.capacity))
    put_behind room =
        put_one q ys ((front ++ xs) ++ (ys ++ rest)) filled
          (omega (
            arith,
            length-three (front ++ xs) ys rest,
            length-append front xs,
            length-drop (length ys) back,
            total,
          ))
          h.small front (xs ++ ys) rest
          (append_assoc front xs (ys ++ rest)
            ∙ ap (λ t. front ++ t) (sym (append_assoc xs ys rest)))
          (ground (arith, total)) (omega (arith, length-append xs ys))
          (omega (arith, length-append xs ys))
      where
        rest : List ℕ
        rest = drop (length ys) back

        filled : fill q ys ≡ some ((front ++ xs) ++ (ys ++ rest))
        filled =
            fill_one q ys free room
            ∙ store_at (front ++ xs) (take (length ys) back) rest ys
                (eb
                  ∙ sym (append_assoc front xs back)
                  ∙ ap (λ t. (front ++ xs) ++ t) (sym (take-append-drop (length ys) back)))
                (omega (arith, length-append front xs))
                (omega (arith, length-take (length ys) back))

    -- One stretch with too little room behind it: the rest goes to the front.
    put_around :
        length back < length ys
        → Gives (put q ys) (λ q'. Holds q' (xs ++ ys) × (q'.capacity ≡ q.capacity))
    put_around room =
        put_two q ys (late ++ (gap ++ (xs ++ early))) filled
          (omega (
            arith,
            length-three late gap (xs ++ early),
            length-append xs early,
            late_length,
            gap_length,
            early_length,
            total,
          ))
          h.small (xs ++ ys) late gap (xs ++ early) refl
          (ap (λ t. xs ++ t) (sym (take-append-drop (length back) ys))
            ∙ sym (append_assoc xs early late))
          wrap (omega (arith, total)) (omega arith) (omega (arith, late_length, gap_length, total))
          (omega (arith, length-append xs early))
      where
        early : List ℕ
        early = take (length back) ys

        late : List ℕ
        late = drop (length back) ys

        gap : List ℕ
        gap = drop (length late) front

        early_length : length early ≡ length back
        early_length = omega (arith, length-take (length back) ys)

        late_length : length late ≡ length ys - length back
        late_length = omega (arith, length-drop (length back) ys)

        gap_length : length gap ≡ length front - length late
        gap_length = length-drop (length late) front

        wrap : (q.write_index + length ys) % q.capacity ≡ length late
        wrap =
            mod-eq-sub-mod (omega (arith, total))
            ∙ mod-eq_of_lt (omega (arith, total))
            ∙ omega (arith, total, late_length)

        first : store q.buffer q.write_index early ≡ some ((front ++ xs) ++ (early ++ []))
        first =
            store_at (front ++ xs) back [] early
              (eb
                ∙ sym (append_assoc front xs back)
                ∙ ap (λ t. (front ++ xs) ++ t) (sym (append-nil back)))
              (omega (arith, length-append front xs)) (sym early_length)

        second :
            store ((front ++ xs) ++ (early ++ [])) 0 late ≡ some (late ++ (gap ++ (xs ++ early)))
        second =
            store_at [] (take (length late) front) (gap ++ (xs ++ early)) late
              (ap (λ t. (front ++ xs) ++ t) (append-nil early)
                ∙ append_assoc front xs early
                ∙ ap (λ t. t ++ (xs ++ early)) (sym (take-append-drop (length late) front))
                ∙ append_assoc (take (length late) front) gap (xs ++ early))
              refl (omega (arith, length-take (length late) front, late_length, total))

        filled : fill q ys ≡ some (late ++ (gap ++ (xs ++ early)))
        filled = fill_two q ys free room ∙ rw first second

  -- Two stretches: the bytes go into the gap.
  put_between :
      (later gap first : List ℕ)
      → q.buffer ≡ later ++ (gap ++ first)
      → xs ≡ first ++ later
      → q.write_index ≡ length later
      → q.read_index ≡ length later + length gap
      → 0 < length first
      → Gives (put q ys) (λ q'. Holds q' (xs ++ ys) × (q'.capacity ≡ q.capacity))
  put_between later gap first eb ex ew er pos =
      put_two q ys (later ++ (ys ++ (rest ++ first))) filled
        (omega (
          arith,
          length-three later ys (rest ++ first),
          length-append rest first,
          rest_length,
          total,
          room,
        ))
        h.small (xs ++ ys) (later ++ ys) rest first (sym (append_assoc later ys (rest ++ first)))
        (ap (λ t. t ++ ys) ex ∙ append_assoc first later ys)
        (mod-eq_of_lt (omega (arith, total, room)) ∙ omega (arith, length-append later ys))
        (omega (arith, total)) (omega arith)
        (omega (arith, length-append later ys, rest_length, room)) pos
    where
      total : q.capacity ≡ length later + length gap + length first
      total = sized-three q later gap first h.sized eb

      room : length ys ≤ length gap
      room = omega (arith, total, ap length ex, length-append first later)

      rest : List ℕ
      rest = drop (length ys) gap

      rest_length : length rest ≡ length gap - length ys
      rest_length = length-drop (length ys) gap

      filled : fill q ys ≡ some (later ++ (ys ++ (rest ++ first)))
      filled =
          fill_one q ys (free_of_le q h.small (omega (arith, total)) (omega arith))
            (omega (arith, room))
          ∙ store_at later (take (length ys) gap) (rest ++ first) ys
              (eb
                ∙ ap (λ t. later ++ t)
                    (ap (λ t. t ++ first) (sym (take-append-drop (length ys) gap))
                      ∙ append_assoc (take (length ys) gap) rest first))
              ew (omega (arith, length-take (length ys) gap, room))

  -- The copy appends, in whichever layout.
  pub put-holds : Gives (put q ys) (λ q'. Holds q' (xs ++ ys) × (q'.capacity ≡ q.capacity))
  put-holds = by_shape h.shape
    where
      by_shape :
          Shape q xs → Gives (put q ys) (λ q'. Holds q' (xs ++ ys) × (q'.capacity ≡ q.capacity))
      by_shape (Shape.idle r w e) = put_idle r w e
      by_shape (Shape.linear front back eb er ew held) = elim (lt_cases (length back) (length ys)) [
        | inl around ↦ put_around front back eb er ew held around
        | inr behind ↦ put_behind front back eb er ew held behind
      ]
      by_shape (Shape.wrapped later gap first eb ex ew er pos) =
          put_between later gap first eb ex ew er pos
