-- ===== src/ByteQueue/Offset.antt =====
-- Reading: the copy that leaves the buffer, and the move of the read index.
use frog_game_framework.Base.{
  ℕ, ◌+◌, ◌-◌, ◌%◌, ◌^◌, ◌≤◌, ◌<◌, ◌≡◌, refl, ap, sym, ◌∙◌, subst, ◌≢◌, ◌⊎◌, inl, inr, ◌++◌, List,
  [], some, arith, length, Gives, ◌==◌, if◌then◌else◌, Option, none, leb, ◌>>=◌, eq→==, ne→==,
  eq_cases, lt_cases, le→leb, lt→leb, take, drop, length-append, length-take, length-drop,
  take-append-drop, append_assoc, drop_all, take-append_le, take-append_ge, drop-append_le,
  drop-append_ge,
}
use native.Mathlib.Nat.{mod-eq_of_lt, mod-eq-sub-mod}
use frog_game_framework.Memory.{add_size, sub_size, load, load_at}
use frog_game_framework.ByteQueue.{ByteQueue, read_offset, copy_out}
use frog_game_framework.ByteQueue.View.{Shape, sized-three, Holds, holds-IsValid}
use frog_game_framework.ByteQueue.Space.{get_bytes_readable-holds, get_bytes_writable-holds}
use frog_game_framework.ByteQueue.Copy.{Stretches, holds-Stretches, holds-nil}

module _ {q : ByteQueue} {xs : List ℕ} (h : Holds q xs) (n : ℕ) (some_read : 0 < n)
    (enough : n ≤ length xs) where
  not_idle : q.read_index ≢ q.capacity
  not_idle e = absurd (omega (arith, ap length (holds-nil h e)))

  -- What leaves the buffer are the oldest bytes.
  pub copy_out-holds : copy_out q n ≡ some (take n xs)
  unfolding copy_out
  copy_out-holds = rw s.peek (by_stretch (lt_cases (length s.first) n))
    where
      s : Stretches q xs
      s = holds-Stretches h not_idle

      total : length xs ≡ length s.first + length s.later
      total = ap length s.parts ∙ length-append s.first s.later

      rest : ℕ
      rest = sub_size n (length s.first)

      two_parts :
          length s.first < n
          → (load q.buffer q.read_index (length s.first) >>= λ first.
              load q.buffer 0 rest >>= λ later. some (first ++ later))
            ≡ some (take n xs)
      two_parts p =
          let left : rest ≡ n - length s.first =
            omega (arith, total, get_bytes_writable-holds h, h.small) in
          let cut_length : rest ≡ length (take rest s.later) =
            omega (arith, left, length-take rest s.later, total) in
          rw
            (
              load_at s.before s.first s.behind s.at_index s.index refl,
              load_at [] (take rest s.later) (drop rest s.later ++ s.rest)
                  (s.at_front
                    ∙ ap (λ t. t ++ s.rest) (sym (take-append-drop rest s.later))
                    ∙ append_assoc (take rest s.later) (drop rest s.later) s.rest)
                  refl cut_length,
            )
            (ap some
              (sym (ap (take n) s.parts ∙ take-append_ge n rest s.first s.later (omega arith))))

      one_part : n ≤ length s.first → load q.buffer q.read_index n ≡ some (take n xs)
      one_part p =
          load_at s.before (take n s.first) (drop n s.first ++ s.behind)
            (s.at_index
              ∙ ap (λ t. s.before ++ t)
                  (ap (λ t. t ++ s.behind) (sym (take-append-drop n s.first))
                    ∙ append_assoc (take n s.first) (drop n s.first) s.behind))
            s.index (omega (arith, length-take n s.first))
          ∙ ap some (sym (ap (take n) s.parts ∙ take-append_le n s.first s.later p))

      by_stretch :
          (length s.first < n) ⊎ (n ≤ length s.first)
          → (if leb n (length s.first)
              then load q.buffer q.read_index n
              else (load q.buffer q.read_index (length s.first) >>= λ first.
                  load q.buffer 0 rest >>= λ later. some (first ++ later)))
            ≡ some (take n xs)
      by_stretch (inl p) = rw (lt→leb _ _ p) (two_parts p)
      by_stretch (inr p) = rw (le→leb _ _ p) (one_part p)

module _ {q : ByteQueue} {xs : List ℕ} (h : Holds q xs) (n : ℕ) where
  abbrev pub Dropped : ByteQueue → Type 0
  Dropped q' = Holds q' (drop n xs) × (q'.capacity ≡ q.capacity)

  moved : ℕ → ByteQueue
  moved i = record q { read_index = i }

  moved-holds : (i : ℕ) → Shape (moved i) (drop n xs) → Dropped (moved i)
  unfolding moved
  moved-holds i s = (record { sized = h.sized; small = h.small; shape = s }, refl)

  -- The new read index, where bytes are left.
  next_index :
      n < length xs
      → Shape q xs
      → (i : ℕ) × ((q.read_index + n) % q.capacity ≡ i) × Shape (moved i) (drop n xs)
  unfolding moved
  next_index p (Shape.idle r w e) = absurd (omega (arith, ap length e))
  next_index p (Shape.linear front back eb er ew held) =
      let total = sized-three q front xs back h.sized eb in
      (
        q.read_index + n,
        mod-eq_of_lt (omega (arith, total)),
        Shape.linear (front ++ take n xs) back
            (eb
              ∙ ap (λ t. front ++ (t ++ back)) (sym (take-append-drop n xs))
              ∙ ap (λ t. front ++ t) (append_assoc (take n xs) (drop n xs) back)
              ∙ sym (append_assoc front (take n xs) (drop n xs ++ back)))
            (omega (arith, length-append front (take n xs), length-take n xs))
            (omega (arith, length-append front (take n xs), length-take n xs, length-drop n xs))
            (omega (arith, length-drop n xs)),
      )
  next_index p (Shape.wrapped later gap first eb ex ew er pos) = elim (lt_cases n (length first)) [
    | inl inside ↦ (
      q.read_index + n,
      mod-eq_of_lt (omega (arith, total)),
      Shape.wrapped later (gap ++ take n first) (drop n first)
          (eb
            ∙ ap (λ t. later ++ (gap ++ t)) (sym (take-append-drop n first))
            ∙ ap (λ t. later ++ t) (sym (append_assoc gap (take n first) (drop n first))))
          (ap (drop n) ex ∙ drop-append_le n first later (omega arith)) ew
          (omega (arith, length-append gap (take n first), length-take n first))
          (omega (arith, length-drop n first)),
    )
    | inr past ↦ (
      n - length first,
      mod-eq-sub-mod (omega (arith, total))
          ∙ mod-eq_of_lt (omega (arith, total, held))
          ∙ omega (arith, total),
      subst (Shape (moved (n - length first)))
          (sym (ap (drop n) ex ∙ drop-append_ge n (n - length first) first later (omega arith)))
          (Shape.linear (take (n - length first) later) (gap ++ first)
            (eb
              ∙ ap (λ t. t ++ (gap ++ first)) (sym (take-append-drop (n - length first) later))
              ∙ append_assoc (take (n - length first) later) (drop (n - length first) later)
                  (gap ++ first))
            (omega (arith, length-take (n - length first) later, held))
            (omega (
              arith,
              length-take (n - length first) later,
              length-drop (n - length first) later,
              held,
            ))
            (omega (arith, length-drop (n - length first) later, held))),
    )
  ]
    where
      total : q.capacity ≡ length later + length gap + length first
      total = sized-three q later gap first h.sized eb

      held : length xs ≡ length first + length later
      held = ap length ex ∙ length-append first later

  -- Dropping everything empties the queue, and dropping less moves the read index.
  pub read_offset-holds : n ≤ length xs → Gives (read_offset q n) Dropped
  unfolding read_offset moved
  read_offset-holds enough =
      rw (get_bytes_readable-holds h, le→leb _ _ enough) (by_rest (eq_cases (length xs) n))
    where
      step : Option ByteQueue
      step =
          if length xs == n
          then some (record q { read_index = q.capacity; write_index = 0 })
          else ((if q.capacity == 0 then none else some (add_size q.read_index n % q.capacity))
              >>= λ i. some (record q { read_index = i }))

      by_rest : (length xs ≡ n) ⊎ (length xs ≢ n) → Gives step Dropped
      by_rest (inl e) = rw (eq→== _ _ e) (
        record {
          sized = h.sized;
          small = h.small;
          shape = Shape.idle refl refl (drop_all n xs (omega arith));
        },
        refl,
      )
      by_rest (inr e) =
          let held = get_bytes_writable-holds h in
          let (i, ei, s) = next_index (omega arith) h.shape in
          rw
            (
              ne→== _ _ e,
              ne→== q.capacity 0 (omega (arith, held)),
              mod-eq_of_lt {n = q.read_index + n} {m = 2 ^ 64}
                  (omega (arith, held, h.small, read_bound)),
              ei,
            )
            (moved-holds i s)
        where
          read_bound : q.read_index ≤ q.capacity
          read_bound = omega (arith, (holds-IsValid h).placed)
