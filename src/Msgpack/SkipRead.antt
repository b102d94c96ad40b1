-- ===== src/Msgpack/SkipRead.antt =====
-- A value is skipped exactly where it is read, and the offset moves in the same way.
use frog_game_framework.Base.{
  ℕ, zero, suc, ◌^◌, ◌≤◌, ◌<◌, ◌≡◌, refl, bit_and, Bool, true, false, List, [], ◌∷◌, Option, none,
  some, arith, length, ◌==◌, if◌then◌else◌, get_elem?, ◌>>=◌, lt_cases, inl, inr, lt→ltb, le→ltb,
  le→leb,
}
use frog_game_framework.Memory.{add_size}
use frog_game_framework.Msgpack.{
  Decoder, byte_at, word2_at, word4_at, word8_at, sign_extend, advance,
}
use frog_game_framework.Msgpack.Decode.{sized, integer_at, answer, read_integer}
use frog_game_framework.Msgpack.Skip.{pass, skip_integer_at, skip_integer}
use frog_game_framework.Msgpack.Ahead.{Ahead, length-ahead, byte_at_lem, started}

-- The reader's result and the skipper's: neither faults, and both answer alike with the same state.
abbrev pub Alike : {A : Type 0} → Option (Option A × Decoder) → Option (Bool × Decoder) → Type 0
Alike none none = ⊥
Alike none (some s) = ⊥
Alike (some r) none = ⊥
Alike (some (none, d)) (some s) = (false ≡ s.0) × (d ≡ s.1)
Alike (some (some a, d)) (some s) = (true ≡ s.0) × (d ≡ s.1)

-- A value that is there.
abbrev Found : Option ℕ → Type 0
Found none = ⊥
Found (some v) = Unit {0}

Found-bind : (m : Option ℕ) (f : ℕ → Option ℕ) → Found m → ((v : ℕ) → Found (f v)) → Found (m >>= f)
Found-bind none f h k = absurd h
Found-bind (some v) f h k = k v

-- The reader's answer for what its switch finds, against the skipper's.
abbrev AlikeAt : Decoder → Option (Option (ℕ × ℕ)) → Option (Bool × Decoder) → Type 0
AlikeAt d m s = Alike (m >>= λ found. some (answer d found)) s

if_alike :
    (d : Decoder) (b : Bool) (r1 r2 : Option (Option (ℕ × ℕ))) (s1 s2 : Option (Bool × Decoder))
    → AlikeAt d r1 s1
    → AlikeAt d r2 s2
    → AlikeAt d (if b then r1 else r2) (if b then s1 else s2)
if_alike d true r1 r2 s1 s2 h k = h
if_alike d false r1 r2 s1 s2 h k = k

get-Found : (ys : List ℕ) (i : ℕ) → i < length ys → Found (get_elem? ys i)
get-Found [] i p = absurd (omega arith)
get-Found (y ∷ ys) zero p = tt
get-Found (y ∷ ys) (suc i) p = get-Found ys i (omega arith)

module _ {d : Decoder} {xs : List ℕ} (a : Ahead d xs) where
  byte-Found : (k : ℕ) → k < length xs → Found (byte_at d k)
  byte-Found k h = rw (byte_at_lem a k) (get-Found xs k h)

  then-Found :
      (k : ℕ) (f : ℕ → Option ℕ)
      → k < length xs
      → ((v : ℕ) → Found (f v))
      → Found (byte_at d k >>= f)
  then-Found k f h g = Found-bind (byte_at d k) f (byte-Found k h) g

  word2-Found : 3 ≤ length xs → Found (word2_at d)
  unfolding word2_at
  word2-Found h = then-Found 1 _ (omega arith) (λ b1. then-Found 2 _ (omega arith) (λ b2. tt))

  word4-Found : 5 ≤ length xs → Found (word4_at d)
  unfolding word4_at
  word4-Found h = then-Found 1 _ (omega arith) (λ b1.
      then-Found 2 _ (omega arith)
        (λ b2. then-Found 3 _ (omega arith) (λ b3. then-Found 4 _ (omega arith) (λ b4. tt))))

  word8-Found : 9 ≤ length xs → Found (word8_at d)
  unfolding word8_at
  word8-Found h = then-Found 1 _ (omega arith) (λ b1. then-Found 2 _ (omega arith) (λ b2.
      then-Found 3 _ (omega arith) (λ b3. then-Found 4 _ (omega arith) (λ b4.
        then-Found 5 _ (omega arith) (λ b5.
          then-Found 6 _ (omega arith) (λ b6.
            then-Found 7 _ (omega arith) (λ b7. then-Found 8 _ (omega arith) (λ b8. tt))))))))

  sized_alike :
      (n : ℕ) (value : Option ℕ)
      → n < 2 ^ 62
      → (n ≤ length xs → Found value)
      → AlikeAt d (sized d n value) (pass d n)
  sized_alike n value small h =
      let total = length-ahead a in
      let fits = a.small in
      elim (lt_cases d.length (add_size d.offset n)) [
        | inl p ↦ rw (lt→ltb _ _ p) (refl, refl)
        | inr p ↦ rw (le→ltb _ _ p) (there value (h (omega arith)))
      ]
    where
      there :
          (o : Option ℕ)
          → Found o
          → AlikeAt d (o >>= λ v. some (some (v, n))) (some (true, advance d n))
      there none f = absurd f
      there (some v) f = (refl, refl)

  signed-Found : (m : Option ℕ) (bits : ℕ) → Found m → Found (m >>= λ v. some (sign_extend bits v))
  signed-Found m bits f = Found-bind m _ f (λ v. tt)

  integer_alike : (flag : ℕ) → AlikeAt d (integer_at d flag) (skip_integer_at d flag)
  unfolding integer_at skip_integer_at
  integer_alike flag =
      if_alike d (flag == 0xcc) _ _ _ _
        (sized_alike 2 _ (omega arith) (λ h. byte-Found 1 (omega arith)))
        (if_alike d (flag == 0xd0) _ _ _ _
          (sized_alike 2 _ (omega arith) (λ h. signed-Found _ 8 (byte-Found 1 (omega arith))))
          (if_alike d (flag == 0xcd) _ _ _ _ (sized_alike 3 _ (omega arith) word2-Found) (
            if_alike d (flag == 0xd1) _ _ _ _
              (sized_alike 3 _ (omega arith) (λ h. signed-Found _ 16 (word2-Found h)))
              (if_alike d (flag == 0xce) _ _ _ _ (sized_alike 5 _ (omega arith) word4-Found) (
                if_alike d (flag == 0xd2) _ _ _ _
                  (sized_alike 5 _ (omega arith) (λ h. signed-Found _ 32 (word4-Found h)))
                  (if_alike d (flag == 0xcf) _ _ _ _ (sized_alike 9 _ (omega arith) word8-Found) (
                    if_alike d (flag == 0xd3) _ _ _ _ (sized_alike 9 _ (omega arith) word8-Found) (
                      if_alike d (bit_and flag 0x80 == 0) _ _ _ _ (refl, refl)
                        (if_alike d (bit_and flag 0xe0 == 0xe0) _ _ _ _ (refl, refl)
                          (refl, refl))))))))))

-- On a decoder in order, `read_integer` and `skip_integer` never fault; they find a value or none
-- alike, and leave the decoder in the same state.
pub read_integer-skip_integer :
    {d : Decoder} (xs : List ℕ) → Ahead d xs → Alike (read_integer d) (skip_integer d)
unfolding read_integer skip_integer
read_integer-skip_integer {d} [] a =
    rw (le→leb d.length d.offset (omega (arith, length-ahead a))) (refl, refl)
read_integer-skip_integer (flag ∷ xs) a =
    rw (started a (omega arith), byte_at_lem a 0) (integer_alike a flag)
