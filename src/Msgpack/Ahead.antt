-- ===== src/Msgpack/Ahead.antt =====
-- The bytes that a decoder has in front of it.
use frog_game_framework.Base.{
  ℕ, zero, suc, ◌+◌, ◌^◌, ◌≤◌, ◌<◌, ◌≡◌, refl, ap, sym, ◌∙◌, List, [], ◌∷◌, some, arith, length,
  take, drop, get_elem?, length-drop, drop-drop, le→leb, lt→leb, false,
}
use frog_game_framework.Memory.{add_size, load}
use frog_game_framework.Msgpack.Decode.{at_end}
use frog_game_framework.Msgpack.{Decoder, byte_at, advance}

-- The decoder is in order, and `xs` is what its buffer holds from the offset on.
pub record Ahead (d : Decoder) (xs : List ℕ) : Type 0 where
  pub sized : length d.buffer ≡ d.length
  pub small : d.length < 2 ^ 63
  pub inside : d.offset ≤ d.length
  pub ahead : drop d.offset d.buffer ≡ xs

get_elem?-drop : (n k : ℕ) (xs : List ℕ) → get_elem? xs (n + k) ≡ get_elem? (drop n xs) k
get_elem?-drop zero k xs = ap (get_elem? xs) {x = 0 + k} {y = k} (omega arith)
get_elem?-drop (suc n) k [] = refl
get_elem?-drop (suc n) k (x ∷ xs) =
    ap (get_elem? (x ∷ xs)) {x = suc n + k} {y = suc (n + k)} (omega arith) ∙ get_elem?-drop n k xs

module _ {d : Decoder} {xs : List ℕ} (a : Ahead d xs) where
  pub length-ahead : d.length ≡ d.offset + length xs
  length-ahead = omega (arith, ap length a.ahead, length-drop d.offset d.buffer, a.sized, a.inside)

  pub byte_at_lem : (k : ℕ) → byte_at d k ≡ get_elem? xs k
  byte_at_lem k = get_elem?-drop d.offset k d.buffer ∙ ap (λ ys. get_elem? ys k) a.ahead

  pub advance-Ahead : (n : ℕ) → n ≤ length xs → Ahead (advance d n) (drop n xs)
  advance-Ahead n h =
      let small = a.small in
      let total = length-ahead in
      let moved : add_size d.offset n ≡ d.offset + n = omega arith in
      record {
        sized = a.sized;
        small = a.small;
        inside = omega arith;
        ahead =
            ap (λ k. drop k d.buffer) moved
            ∙ sym (drop-drop d.offset n (d.offset + n) d.buffer refl)
            ∙ ap (drop n) a.ahead;
      }

  pub load_lem :
      (base n : ℕ)
      → base + n ≤ length xs
      → load d.buffer (d.offset + base) n ≡ some (take n (drop base xs))
  unfolding load
  load_lem base n h =
      let total = length-ahead in
      rw (le→leb (d.offset + base + n) (length d.buffer) (omega (arith, a.sized))) (
        ap (λ t. some (take n t))
          (sym (drop-drop d.offset base (d.offset + base) d.buffer refl) ∙ ap (drop base) a.ahead))

  pub started : 0 < length xs → at_end d ≡ false
  started h = let total = length-ahead in lt→leb d.length d.offset (omega arith)
