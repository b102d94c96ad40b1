-- ===== src/ByteQueue/Copy.antt =====
-- The move to a larger block keeps the readable bytes, and brings them to its front.
use frog_game_framework.Base.{
  ℕ, ◌+◌, ◌-◌, ◌≤◌, ◌<◌, ◌≡◌, refl, ap, ap₂, drop-drop, eq-nil_of_length, sym, ◌∙◌, ◌≢◌, ◌⊎◌, inl,
  inr, ◌++◌, List, [], some, arith, length, take, drop, length-append, length-take, length-drop,
  take-append-drop, append_assoc, append-nil, eq_cases, Gives, ◌==◌, if◌then◌else◌, ◌>>=◌, eq→==,
  ne→==,
}
use frog_game_framework.Memory.{Memory, store, load, store_at, load_at, sub_size}
use frog_game_framework.ByteQueue.{ByteQueue, peek_contiguous_bytes_read, copy_readable, relocate}
use frog_game_framework.ByteQueue.View.{Shape, Holds, sized-three, limit}
use frog_game_framework.ByteQueue.Space.{get_bytes_readable-holds, get_bytes_writable-holds}

-- The readable bytes up to the end of the stretch that the read index points into.
stretch_of_lt :
    (q : ByteQueue)
    → q.capacity ≤ limit
    → q.write_index ≤ q.capacity
    → q.read_index < q.write_index
    → peek_contiguous_bytes_read q ≡ (q.read_index, q.write_index - q.read_index)
unfolding peek_contiguous_bytes_read
stretch_of_lt q s w h = ground arith

stretch_of_le :
    (q : ByteQueue)
    → q.capacity ≤ limit
    → q.read_index ≤ q.capacity
    → q.write_index ≤ q.read_index
    → peek_contiguous_bytes_read q ≡ (q.read_index, q.capacity - q.read_index)
unfolding peek_contiguous_bytes_read
stretch_of_le q s r h = ground arith

-- Where a queue that is not empty holds its bytes: a first stretch from the read index on, and what
-- remains at the front of the buffer.
pub record Stretches (q : ByteQueue) (xs : List ℕ) : Type 0 where
  pub first : List ℕ
  pub later : List ℕ
  pub parts : xs ≡ first ++ later
  pub peek : peek_contiguous_bytes_read q ≡ (q.read_index, length first)
  pub before : List ℕ
  pub behind : List ℕ
  pub at_index : q.buffer ≡ before ++ (first ++ behind)
  pub index : q.read_index ≡ length before
  pub rest : List ℕ
  pub at_front : q.buffer ≡ later ++ rest
  pub held : 0 < length first

pub holds-Stretches :
    {q : ByteQueue} {xs : List ℕ} → Holds q xs → q.read_index ≢ q.capacity → Stretches q xs
holds-Stretches {q} {xs} h ne = by_shape h.shape
  where
    by_shape : Shape q xs → Stretches q xs
    by_shape (Shape.idle r w e) = absurd (ne r)
    by_shape (Shape.linear front back eb er ew p) =
        let e = sized-three q front xs back h.sized eb in
        record {
          first = xs;
          later = [];
          parts = sym (append-nil xs);
          peek =
              stretch_of_lt q h.small (omega (arith, e)) (omega arith)
              ∙ ap (λ n. (q.read_index, n)) (omega arith);
          before = front;
          behind = back;
          at_index = eb;
          index = er;
          rest = q.buffer;
          at_front = refl;
          held = p;
        }
    by_shape (Shape.wrapped later gap first eb ex ew er p) =
        let e = sized-three q later gap first h.sized eb in
        record {
          first = first;
          later = later;
          parts = ex;
          peek =
              stretch_of_le q h.small (omega (arith, e)) (omega arith)
              ∙ ap (λ n. (q.read_index, n)) (omega (arith, e));
          before = later ++ gap;
          behind = [];
          at_index =
              eb
              ∙ sym (append_assoc later gap first)
              ∙ ap (λ t. (later ++ gap) ++ t) (sym (append-nil first));
          index = er ∙ sym (length-append later gap);
          rest = gap ++ first;
          at_front = eb;
          held = p;
        }

pub holds-nil : {q : ByteQueue} {xs : List ℕ} → Holds q xs → q.read_index ≡ q.capacity → xs ≡ []
holds-nil {q} {xs} h r = by_shape h.shape
  where
    by_shape : Shape q xs → xs ≡ []
    by_shape (Shape.idle _ w e) = e
    by_shape (Shape.linear front back eb er ew p) =
        absurd (omega (arith, sized-three q front xs back h.sized eb))
    by_shape (Shape.wrapped later gap first eb ex ew er p) =
        absurd (omega (arith, sized-three q later gap first h.sized eb))

module _ {q : ByteQueue} {xs : List ℕ} (h : Holds q xs) (ne : q.read_index ≢ q.capacity)
    (block : List ℕ) (room : length xs ≤ length block) where
  pub copy_readable-holds : copy_readable q block ≡ some (xs ++ drop (length xs) block)
  unfolding copy_readable
  copy_readable-holds = rw (s.peek, here, one, get_bytes_readable-holds h) (ends (eq_cases _ _))
    where
      s : Stretches q xs
      s = holds-Stretches h ne

      rest : List ℕ
      rest = drop (length s.first) block

      total : length xs ≡ length s.first + length s.later
      total = ap length s.parts ∙ length-append s.first s.later

      here : load q.buffer q.read_index (length s.first) ≡ some s.first
      here = load_at s.before s.first s.behind s.at_index s.index refl

      one : store block 0 s.first ≡ some (s.first ++ rest)
      one =
          store_at [] (take (length s.first) block) rest s.first
            (sym (take-append-drop (length s.first) block)) refl
            (omega (arith, length-take (length s.first) block, total))

      front : load q.buffer 0 (sub_size (length xs) (length s.first)) ≡ some s.later
      front =
          load_at [] s.later s.rest s.at_front refl
            (omega (arith, total, get_bytes_writable-holds h, h.small))

      two :
          store (s.first ++ rest) (length s.first) s.later
          ≡ some (s.first ++ (s.later ++ drop (length s.later) rest))
      two =
          store_at s.first (take (length s.later) rest) (drop (length s.later) rest) s.later
            (ap (λ t. s.first ++ t) (sym (take-append-drop (length s.later) rest))) refl
            (omega
              (arith, length-take (length s.later) rest, length-drop (length s.first) block, total))

      joined : s.first ++ (s.later ++ drop (length s.later) rest) ≡ xs ++ drop (length xs) block
      joined =
          sym (append_assoc s.first s.later (drop (length s.later) rest))
          ∙ ap₂ ◌++◌ (sym s.parts)
              (drop-drop (length s.first) (length s.later) (length xs) block total)

      ends :
          (length s.first ≡ length xs) ⊎ (length s.first ≢ length xs)
          → (if length s.first == length xs
              then some (s.first ++ rest)
              else (load q.buffer 0 (sub_size (length xs) (length s.first)) >>= λ t.
                  store (s.first ++ rest) (length s.first) t))
            ≡ some (xs ++ drop (length xs) block)
      ends (inl e) = rw (eq→== _ _ e) (
          ap some (
            ap₂ (λ a n. a ++ drop n block)
              (sym (append-nil s.first)
                ∙ ap (λ t. s.first ++ t) (sym (eq-nil_of_length s.later (omega (arith, total))))
                ∙ sym s.parts)
              e))
      ends (inr e) = rw (ne→== _ _ e, front, two) (ap some joined)

module _ (memory : Memory) {q : ByteQueue} {xs : List ℕ} (h : Holds q xs) (n : ℕ)
    (room : length xs ≤ n) (small : n ≤ limit) where
  -- The bytes stand at the front of the new block, and the write index behind them.
  pub record Relocated (q' : ByteQueue) : Type 0 where
    pub holds : Holds q' xs
    pub size : q'.capacity ≡ n
    pub after : q'.write_index ≡ length xs

  pub relocate-holds : Gives (relocate memory q n) Relocated
  unfolding relocate
  relocate-holds = by_state (eq_cases q.read_index q.capacity)
    where
      held : q.read_index ≢ q.capacity → 0 < length xs
      held e =
          let s = holds-Stretches h e in
          omega (arith, s.held, ap length s.parts, length-append s.first s.later)

      by_state :
          (q.read_index ≡ q.capacity) ⊎ (q.read_index ≢ q.capacity)
          → Gives (relocate memory q n) Relocated
      by_state (inl e) = rw (eq→== _ _ e) (record {
        holds = record {
          sized = memory.length-malloc n;
          small = small;
          shape = Shape.idle refl refl (holds-nil h e);
        };
        size = refl;
        after = ap length (sym (holds-nil h e));
      })
      by_state (inr e) =
          rw
            (
              ne→== _ _ e,
              copy_readable-holds h e (memory.malloc n) (omega (arith, memory.length-malloc n)),
            )
            (record {
              holds = record {
                sized = omega (
                  arith,
                  length-append xs (drop (length xs) (memory.malloc n)),
                  length-drop (length xs) (memory.malloc n),
                  memory.length-malloc n,
                );
                small = small;
                shape =
                    Shape.linear [] (drop (length xs) (memory.malloc n)) refl refl
                      (omega (arith, get_bytes_readable-holds h)) (held e);
              };
              size = refl;
              after = get_bytes_readable-holds h;
            })
