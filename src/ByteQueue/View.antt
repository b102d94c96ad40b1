-- ===== src/ByteQueue/View.antt =====
-- What a byte queue holds, and when its indices are in order.
use frog_game_framework.Base.{
  ℕ, ◌+◌, ◌-◌, ◌^◌, ◌≤◌, ◌<◌, ◌≡◌, ap, subst, sym, ◌∙◌, ◌⊎◌, inl, inr, ◌++◌, List, [], arith, ltb,
  ◌==◌, if◌then◌else◌, length, take, drop, length-append, take-append_left, drop-append_left,
  length-take, length-drop, take-append-drop, append_assoc, lt_cases,
}
use frog_game_framework.ByteQueue.{ByteQueue}

-- The readable bytes, oldest first.
unfoldable pub contents : ByteQueue → List ℕ
contents q =
    if q.read_index == q.capacity
    then []
    else (if ltb q.read_index q.write_index
        then take (q.write_index - q.read_index) (drop q.read_index q.buffer)
        else drop q.read_index q.buffer ++ take q.write_index q.buffer)

-- Capacities at which no `size_t` computation of the queue wraps.
abbrev pub limit : ℕ
limit = 2 ^ 62

pub record IsValid (q : ByteQueue) : Type 0 where
  pub sized : length q.buffer ≡ q.capacity
  pub small : q.capacity ≤ limit
  pub placed :
      (q.read_index ≡ q.capacity) × (q.write_index ≡ 0)
      ⊎ (q.read_index < q.capacity) × (q.write_index ≤ q.capacity)

-- The three ways in which a queue holds `xs`. An empty queue, one stretch, or two stretches with
-- the free space between them.
pub data Shape (q : ByteQueue) (xs : List ℕ) : Type 0 where
  idle : q.read_index ≡ q.capacity → q.write_index ≡ 0 → xs ≡ [] → Shape q xs
  linear :
      (front back : List ℕ)
      → q.buffer ≡ front ++ (xs ++ back)
      → q.read_index ≡ length front
      → q.write_index ≡ length front + length xs
      → 0 < length xs
      → Shape q xs
  wrapped :
      (later gap first : List ℕ)
      → q.buffer ≡ later ++ (gap ++ first)
      → xs ≡ first ++ later
      → q.write_index ≡ length later
      → q.read_index ≡ length later + length gap
      → 0 < length first
      → Shape q xs

pub record Holds (q : ByteQueue) (xs : List ℕ) : Type 0 where
  pub sized : length q.buffer ≡ q.capacity
  pub small : q.capacity ≤ limit
  pub shape : Shape q xs

pub length-three : (a b c : List ℕ) → length (a ++ (b ++ c)) ≡ length a + length b + length c
length-three a b c = omega (arith, length-append a (b ++ c), length-append b c)

pub sized-three :
    (q : ByteQueue) (a b c : List ℕ)
    → length q.buffer ≡ q.capacity
    → q.buffer ≡ a ++ (b ++ c)
    → q.capacity ≡ length a + length b + length c
sized-three q a b c s e = sym s ∙ ap length e ∙ length-three a b c

shape-contents :
    {q : ByteQueue} {xs : List ℕ} → length q.buffer ≡ q.capacity → Shape q xs → contents q ≡ xs
unfolding contents
shape-contents s (idle r w e) = ground arith
shape-contents {q} {xs} s (linear front back eb er ew h) = ground (
  arith,
  ap (drop q.read_index) eb,
  sized-three q front xs back s eb,
  drop-append_left q.read_index front (xs ++ back) er,
  take-append_left (q.write_index - q.read_index) xs back (omega arith),
)
shape-contents {q} {xs} s (wrapped later gap first eb ex ew er h) = ground (
  arith,
  ap (drop q.read_index) eb,
  ap (take q.write_index) eb,
  sized-three q later gap first s eb,
  append_assoc later gap first,
  drop-append_left q.read_index (later ++ gap) first (omega (arith, length-append later gap)),
  take-append_left q.write_index later (gap ++ first) ew,
)

pub contents_of_holds : {q : ByteQueue} {xs : List ℕ} → Holds q xs → contents q ≡ xs
contents_of_holds h = shape-contents h.sized h.shape

pub holds-IsValid : {q : ByteQueue} {xs : List ℕ} → Holds q xs → IsValid q
holds-IsValid {q} {xs} h = record { sized = h.sized; small = h.small; placed = placed h.shape }
  where
    placed :
        Shape q xs
        → (q.read_index ≡ q.capacity) × (q.write_index ≡ 0)
          ⊎ (q.read_index < q.capacity) × (q.write_index ≤ q.capacity)
    placed (idle r w e) = inl (r, w)
    placed (linear front back eb er ew p) =
        let e = sized-three q front xs back h.sized eb in inr (omega (arith, e), omega (arith, e))
    placed (wrapped later gap first eb ex ew er p) =
        let e = sized-three q later gap first h.sized eb in inr (omega (arith, e), omega (arith, e))

-- The block cut at two places.
cut :
    (block : List ℕ) (i n : ℕ)
    → block ≡ take i block ++ (take n (drop i block) ++ drop n (drop i block))
cut block i n =
    sym (take-append-drop i block)
    ∙ ap (λ t. take i block ++ t) (sym (take-append-drop n (drop i block)))

module _ (q : ByteQueue) (sized : length q.buffer ≡ q.capacity) where
  shape_linear :
      q.read_index < q.write_index
      → q.write_index ≤ q.capacity
      → Shape q (take (q.write_index - q.read_index) (drop q.read_index q.buffer))
  shape_linear p h =
      Shape.linear _ _ (cut q.buffer q.read_index (q.write_index - q.read_index))
        (omega (arith, length-take q.read_index q.buffer))
        (omega (arith, length-take q.read_index q.buffer, held)) (omega (arith, held))
    where
      held :
          length (take (q.write_index - q.read_index) (drop q.read_index q.buffer))
          ≡ q.write_index - q.read_index
      held = omega (
        arith,
        length-take (q.write_index - q.read_index) (drop q.read_index q.buffer),
        length-drop q.read_index q.buffer,
      )

  shape_wrapped :
      q.write_index ≤ q.read_index
      → q.read_index < q.capacity
      → Shape q (drop q.read_index q.buffer ++ take q.write_index q.buffer)
  shape_wrapped p h =
      Shape.wrapped (take q.write_index q.buffer) gap first parts
        (ap (λ t. t ++ take q.write_index q.buffer) behind) (sym front_length)
        (omega (arith, front_length, gap_length)) (omega (arith, first_length))
    where
      gap : List ℕ
      gap = take (q.read_index - q.write_index) (drop q.write_index q.buffer)

      first : List ℕ
      first = drop (q.read_index - q.write_index) (drop q.write_index q.buffer)

      parts : q.buffer ≡ take q.write_index q.buffer ++ (gap ++ first)
      parts = cut q.buffer q.write_index (q.read_index - q.write_index)

      front_length : length (take q.write_index q.buffer) ≡ q.write_index
      front_length = omega (arith, length-take q.write_index q.buffer)

      gap_length : length gap ≡ q.read_index - q.write_index
      gap_length = omega (
        arith,
        length-take (q.read_index - q.write_index) (drop q.write_index q.buffer),
        length-drop q.write_index q.buffer,
      )

      first_length : length first ≡ q.capacity - q.read_index
      first_length = omega (
        arith,
        length-drop (q.read_index - q.write_index) (drop q.write_index q.buffer),
        length-drop q.write_index q.buffer,
      )

      behind : drop q.read_index q.buffer ≡ first
      behind =
          ap (drop q.read_index)
            (parts ∙ sym (append_assoc (take q.write_index q.buffer) gap first))
          ∙ drop-append_left q.read_index (take q.write_index q.buffer ++ gap) first (
              omega
                (arith, length-append (take q.write_index q.buffer) gap, front_length, gap_length))

pub IsValid-holds : {q : ByteQueue} → IsValid q → Holds q (contents q)
unfolding contents
IsValid-holds {q} v = record { sized = v.sized; small = v.small; shape = shape v.placed }
  where
    shape :
        (q.read_index ≡ q.capacity) × (q.write_index ≡ 0)
          ⊎ (q.read_index < q.capacity) × (q.write_index ≤ q.capacity)
        → Shape q (contents q)
    shape (inl (r, w)) = Shape.idle r w (ground arith)
    shape (inr (r, w)) = elim (lt_cases q.read_index q.write_index) [
      | inl p ↦ subst (Shape q) (ground arith) (shape_linear q v.sized p w)
      | inr p ↦ subst (Shape q) (ground arith) (shape_wrapped q v.sized p r)
    ]
