-- ===== src/Streams/EventType.antt =====
-- The word with the length and the type of an event, and the kinds of frames, as numbers.
use frog_game_framework.Base.{
  ℕ, ◌+◌, ◌*◌, ◌/◌, ◌%◌, ◌^◌, ◌≡◌, ◌<◌, refl, ◌∙◌, Bool, true, false, ◌&&◌, not, ◌==◌, ==_iff, ltb,
  bit_and, bit_or, bit_or_comm, bit_or_join, all_below, all_below_at, arith,
}

-- The length stands in the low 24 bits.
pub event_word : (n type : ℕ) → n < 2 ^ 24 → bit_or n (type * 2 ^ 24) ≡ n + type * 2 ^ 24
event_word n type h = bit_or_comm n (type * 2 ^ 24) ∙ (bit_or_join 24 type n h ∙ omega arith)

-- The type of a message is that of its kind, on top of that of messages.
unfoldable pub message_type : ℕ → ℕ
message_type flag = flag % 128 / 16 * 16 + 10

type_table : all_below 256 (λ f. bit_or (bit_and f 0x70) 10 == message_type f) ≡ true
unfolding all_below message_type
type_table = refl

pub message_type_lem : (f : ℕ) → f < 256 → bit_or (bit_and f 0x70) 10 ≡ message_type f
message_type_lem f h = (==_iff _ _).0 (all_below_at 256 _ f type_table h)

abbrev same : Bool → Bool → Bool
same true b = b
same false b = not b

same_eq : (a b : Bool) → same a b ≡ true → a ≡ b
same_eq true true e = refl
same_eq true false e = ground (arith, e)
same_eq false true e = ground (arith, e)
same_eq false false e = refl

whole_table :
    all_below 256 (λ f. same (not (bit_and f 0x80 == 0) && not (f == 0x80)) (ltb 128 f)) ≡ true
unfolding all_below
whole_table = refl

-- A byte with the final mark and a kind other than 0.
pub whole_message : (f : ℕ) → f < 256 → (not (bit_and f 0x80 == 0) && not (f == 0x80)) ≡ ltb 128 f
whole_message f h = same_eq _ _ (all_below_at 256 _ f whole_table h)
