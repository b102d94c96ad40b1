-- ===== src/Msgpack/Encode/Written.antt =====
-- What an encoder has written, and that every writer appends to it.
use frog_game_framework.Base.{
  ℕ, zero, suc, ◌+◌, ◌*◌, ◌%◌, ◌^◌, ◌≤◌, ◌<◌, ◌≡◌, refl, ap, sym, ◌∙◌, subst, List, ◌++◌, some,
  arith, length, take, drop, ◌>>=◌, lt_cases, inl, inr, lt→ltb, le→ltb, Gives, Gives_bind,
  Gives_map, Gives_of_eq, length-take, length-drop, take-append-drop, take-append_left,
  take-append_ge,
}
use native.Mathlib.Nat.{pow-suc, mul_assoc}
use frog_game_framework.Memory.{add_size, store, store_at, length-store}
use frog_game_framework.Msgpack.Encode.{Expander, Encoder, grow, append, emit}

-- The bytes written so far.
abbrev pub written : Encoder → List ℕ
written e = take e.offset e.buffer

pub record IsValid (e : Encoder) : Type 0 where
  pub sized : length e.buffer ≡ e.length
  pub pos : 0 < e.length
  pub small : e.length < 2 ^ 64
  pub inside : e.offset ≤ e.length

-- `bytes` are appended, and the encoder stays in order.
pub record Writes (e : Encoder) (bytes : List ℕ) (r : Encoder) : Type 0 where
  pub appended : written r ≡ written e ++ bytes
  pub moved : r.offset ≡ e.offset + length bytes
  pub valid : IsValid r

double_power : (size k : ℕ) → size * 2 * 2 ^ k ≡ size * 2 ^ suc k
double_power size k =
    mul_assoc size 2 (2 ^ k)
    ∙ ap (λ (t : ℕ). size * t) {x = 2 * 2 ^ k} {y = 2 ^ suc k} (omega (arith, pow-suc 2 k))

abbrev Enough : ℕ → ℕ → ℕ → Type 0
Enough needed size r = (needed ≤ r) × (size ≤ r) × (r < 2 ^ 64)

grow_stop : (fuel needed size : ℕ) → needed ≤ size → grow (suc fuel) needed size ≡ some size
unfolding grow
grow_stop fuel needed size h = rw (grow, le→ltb _ _ h) refl

grow_double :
    (fuel needed size : ℕ)
    → size < needed
    → grow (suc fuel) needed size ≡ grow fuel needed (size * 2 % 2 ^ 64)
unfolding grow
grow_double fuel needed size h = rw (grow, lt→ltb _ _ h) refl

-- The loop ends with enough room, if the length is not 0.
grow_lem :
    (fuel needed size : ℕ)
    → 0 < size
    → size < 2 ^ 64
    → needed ≤ 2 ^ 63
    → needed ≤ size * 2 ^ fuel
    → Gives (grow (suc fuel) needed size) (Enough needed size)
grow_lem zero needed size pos small bound enough =
    Gives_of_eq (Enough needed size) (grow_stop 0 needed size (omega arith))
      (omega arith, omega arith, small)
grow_lem (suc fuel) needed size pos small bound enough = elim (lt_cases size needed) [
  | inr p ↦
      Gives_of_eq (Enough needed size) (grow_stop (suc fuel) needed size p) (p, omega arith, small)
  | inl p ↦
      let same : size * 2 % 2 ^ 64 ≡ size * 2 = omega arith in
      subst (λ o. Gives o (Enough needed size))
        (sym (grow_double (suc fuel) needed size p ∙ ap (grow (suc fuel) needed) same))
        (Gives_map (grow (suc fuel) needed (size * 2)) {Q = Enough needed size}
          (grow_lem fuel needed (size * 2) (omega arith) (omega arith) bound
            (omega (arith, double_power size fuel)))
          (λ r g. (g.0, omega (arith, g.1), g.2)))
]

module _ (expander : Expander) {e : Encoder} (v : IsValid e) where
  -- Room for `n` bytes, and nothing else.
  append_lem :
      (n : ℕ)
      → e.offset + n ≤ 2 ^ 63
      → Gives (append expander e n) (λ r.
        IsValid r × (r.offset ≡ e.offset) × (e.offset + n ≤ r.length) × (written r ≡ written e))
  unfolding append
  append_lem n bound =
      let needed : add_size n e.offset ≡ e.offset + n = omega arith in
      rw needed (elim (lt_cases e.length (e.offset + n)) [
        | inr p ↦ rw (le→ltb _ _ p) (v, refl, p, refl)
        | inl p ↦ rw (lt→ltb _ _ p) (
            Gives_bind (grow 64 (e.offset + n) e.length) _ _
              (grow_lem 63 (e.offset + n) e.length v.pos v.small bound (omega (arith, v.pos)))
              (λ size g. (
                record {
                  sized = expander.length-expand e.buffer e.offset size;
                  pos = omega (arith, g.1, v.pos);
                  small = g.2;
                  inside = omega (arith, g.0);
                },
                refl,
                g.0,
                expander.take-expand e.buffer e.offset size (omega (arith, v.sized, v.inside))
                    (omega (arith, v.sized, g.1)),
              )))
      ])

-- The stores behind what is written.
store-written :
    {e : Encoder} (bytes : List ℕ)
    → IsValid e
    → e.offset + length bytes ≤ e.length
    → store e.buffer e.offset bytes
      ≡ some (written e ++ (bytes ++ drop (length bytes) (drop e.offset e.buffer)))
store-written {e} bytes v room =
    let n = length bytes in
    store_at (written e) (take n (drop e.offset e.buffer)) (drop n (drop e.offset e.buffer)) bytes
      (sym (take-append-drop e.offset e.buffer)
        ∙ ap (λ t. written e ++ t) (sym (take-append-drop n (drop e.offset e.buffer))))
      (omega (arith, length-take e.offset e.buffer, v.sized, v.inside))
      (omega (
        arith,
        length-take n (drop e.offset e.buffer),
        length-drop e.offset e.buffer,
        v.sized,
        v.inside,
      ))

-- `emit`, once there is room.
stored :
    (front : List ℕ) (r : Encoder) (bytes : List ℕ)
    → IsValid r
    → written r ≡ front
    → r.offset + length bytes ≤ r.length
    → r.offset + length bytes ≤ 2 ^ 63
    → Gives
        (store r.buffer r.offset bytes >>= λ b.
          some
            (record { buffer = b; length = r.length; offset = add_size r.offset (length bytes) }))
        (λ s. (written s ≡ front ++ bytes) × (s.offset ≡ r.offset + length bytes) × IsValid s)
stored front r bytes v e room bound =
    let n = length bytes in
    let back = drop n (drop r.offset r.buffer) in
    let moved : add_size r.offset n ≡ r.offset + n = omega arith in
    let at_front : r.offset ≡ length (written r) =
      omega (arith, length-take r.offset r.buffer, v.sized, v.inside) in
    rw (store-written bytes v room, moved)
      (
        take-append_ge (r.offset + n) n (written r) (bytes ++ back) (omega (arith, at_front))
            ∙ ap (λ t. written r ++ t) (take-append_left n bytes back refl)
            ∙ ap (λ t. t ++ bytes) e,
        refl,
        record {
          sized = length-store r.buffer r.offset bytes _ (store-written bytes v room) ∙ v.sized;
          pos = v.pos;
          small = v.small;
          inside = room;
        },
      )

-- Every writer goes through `emit`: on an encoder in order it never faults, and appends.
pub emit-Writes :
    (expander : Expander) {e : Encoder} (bytes : List ℕ)
    → IsValid e
    → e.offset + length bytes ≤ 2 ^ 63
    → Gives (emit expander e bytes) (Writes e bytes)
unfolding emit
emit-Writes expander {e} bytes v bound =
    Gives_bind (append expander e (length bytes)) _ (Writes e bytes)
      (append_lem expander v (length bytes) bound)
      (λ r a.
        Gives_map _ {Q = Writes e bytes}
          (stored (written e) r bytes a.0 a.3 (omega (arith, a.1, a.2)) (omega (arith, a.1)))
          (λ s g. record { appended = g.0; moved = omega (arith, g.1, a.1); valid = g.2 }))
