-- ===== src/Msgpack/Kind.antt =====
-- The kind that getType answers, against the readers.
use frog_game_framework.Base.{
  ℕ, ◌≡◌, ◌⊎◌, inl, inr, refl, ap, Bool, true, false, List, ◌∷◌, Option, none, some, arith, bit_and,
  ◌==◌, if◌then◌else◌, ◌>>=◌, ==_iff, ◌/◌, ◌*◌, ◌<◌, all_below, all_below_at, bit_and-top,
}
use frog_game_framework.Msgpack.{Decoder}
use frog_game_framework.Msgpack.Decode.{
  answer, integer_at, string_at, binary_at, array_at, map_at, user_pointer_at, read_integer,
  read_boolean, read_string, read_binary, read_array, read_map, read_user_pointer,
}
use frog_game_framework.Msgpack.Skip.{ValueType, fixed_type, type_of_flag, get_type}
use frog_game_framework.Msgpack.Ahead.{Ahead, byte_at_lem, started}

abbrev pub is_integer : ValueType → Bool
is_integer ValueType.integer = true
is_integer _ = false

abbrev pub is_boolean : ValueType → Bool
is_boolean ValueType.boolean = true
is_boolean _ = false

abbrev pub is_string : ValueType → Bool
is_string ValueType.string = true
is_string _ = false

abbrev pub is_binary : ValueType → Bool
is_binary ValueType.binary = true
is_binary _ = false

abbrev pub is_array : ValueType → Bool
is_array ValueType.array = true
is_array _ = false

abbrev pub is_map : ValueType → Bool
is_map ValueType.map = true
is_map _ = false

abbrev pub is_user_pointer : ValueType → Bool
is_user_pointer ValueType.user_pointer = true
is_user_pointer _ = false

three_table : all_below 256 (λ f. bit_and f 0xe0 == f / 32 * 32) ≡ true
unfolding all_below
three_table = refl

four_table : all_below 256 (λ f. bit_and f 0xf0 == f / 16 * 16) ≡ true
unfolding all_below
four_table = refl

bit_and-three : (f : ℕ) → f < 256 → bit_and f 0xe0 ≡ f / 32 * 32
bit_and-three f h = (==_iff _ _).0 (all_below_at 256 _ f three_table h)

bit_and-four : (f : ℕ) → f < 256 → bit_and f 0xf0 ≡ f / 16 * 16
bit_and-four f h = (==_iff _ _).0 (all_below_at 256 _ f four_table h)

-- The switches of the readers, with any results in their cases.
module _ {A : Type 0} (a b c f e : A) (flag : ℕ) (byte : flag < 256) where
  string_switch :
      is_string (type_of_flag flag) ≡ false
      → (if flag == 0xd9
          then a
          else if flag == 0xda
          then b
          else if flag == 0xdb
          then c
          else if bit_and flag 0xe0 == 0xa0
          then f
          else e)
        ≡ e
  unfolding type_of_flag fixed_type
  string_switch h =
      ground (arith, bit_and-top flag byte, bit_and-three flag byte, bit_and-four flag byte)

  boolean_switch :
      is_boolean (type_of_flag flag) ≡ false
      → (if flag == 0xc3 then a else if flag == 0xc2 then b else e) ≡ e
  unfolding type_of_flag fixed_type
  boolean_switch h = ground arith

  binary_switch :
      is_binary (type_of_flag flag) ≡ false
      → (if flag == 0xc4 then a else if flag == 0xc5 then b else if flag == 0xc6 then c else e) ≡ e
  unfolding type_of_flag fixed_type
  binary_switch h = ground arith

  pointer_switch :
      is_user_pointer (type_of_flag flag) ≡ false
      → (if flag == 0xc7 then a else if flag == 0xc8 then b else if flag == 0xc9 then c else e) ≡ e
  unfolding type_of_flag fixed_type
  pointer_switch h = ground arith

  array_switch :
      is_array (type_of_flag flag) ≡ false
      → (if flag == 0xdc
          then a
          else if flag == 0xdd
          then b
          else if bit_and flag 0xf0 == 0x90
          then c
          else e)
        ≡ e
  unfolding type_of_flag fixed_type
  array_switch h =
      ground (arith, bit_and-top flag byte, bit_and-three flag byte, bit_and-four flag byte)

  map_switch :
      is_map (type_of_flag flag) ≡ false
      → (if flag == 0xde
          then a
          else if flag == 0xdf
          then b
          else if bit_and flag 0xf0 == 0x80
          then c
          else e)
        ≡ e
  unfolding type_of_flag fixed_type
  map_switch h =
      ground (arith, bit_and-top flag byte, bit_and-three flag byte, bit_and-four flag byte)

no_integer :
    (d : Decoder) (flag : ℕ)
    → is_integer (type_of_flag flag) ≡ false
    → integer_at d flag ≡ some none
unfolding integer_at type_of_flag fixed_type
no_integer d flag h = ground arith

-- A reader of another kind finds nothing and does not move, or the kind is this one.
abbrev Only : {A : Type 0} → Bool → Decoder → Option (Option A × Decoder) → Type 0
Only b d r = (b ≡ true) ⊎ (r ≡ some (none, d))

only :
    {A : Type 0} (b : Bool) (d : Decoder) (r : Option (Option A × Decoder))
    → (b ≡ false → r ≡ some (none, d))
    → Only b d r
only true d r h = inl refl
only false d r h = inr (h refl)

-- The kind `t` that getType answers, against each reader.
pub record AgreesWith (d : Decoder) (t : ValueType) : Type 0 where
  typed : get_type d ≡ some t
  integers : Only (is_integer t) d (read_integer d)
  booleans : Only (is_boolean t) d (read_boolean d)
  strings : Only (is_string t) d (read_string d)
  binaries : Only (is_binary t) d (read_binary d)
  arrays : Only (is_array t) d (read_array d)
  maps : Only (is_map t) d (read_map d)
  pointers : Only (is_user_pointer t) d (read_user_pointer d)

-- On a decoder in order with a byte in front of it, getType does not fault, and each reader of
-- integers, booleans, strings, binaries, arrays, maps and user pointers but that of the kind which
-- getType answers finds nothing, does not fault and leaves the decoder as it is.
pub get_type-AgreesWith :
    {d : Decoder} {flag : ℕ} {xs : List ℕ}
    → Ahead d (flag ∷ xs)
    → flag < 256
    → AgreesWith d (type_of_flag flag)
unfolding get_type read_integer read_boolean read_string read_binary read_array read_map
    read_user_pointer string_at binary_at array_at map_at user_pointer_at
get_type-AgreesWith {d} {flag} a byte =
    let go = started a (omega arith) in
    let first = byte_at_lem a 0 in
    record {
      typed = rw (go, first) refl;
      integers = only _ d _ (λ h. rw (go, first, no_integer d flag h) refl);
      booleans = only _ d _ (λ h.
          rw (go, first) (boolean_switch _ _ (some (none, d)) (some (none, d)) _ flag byte h));
      strings = only _ d _ (λ h. rw (go, first) (string_switch _ _ _ _ _ flag byte h));
      binaries =
          only _ d _ (λ h. rw (go, first) (binary_switch _ _ _ (some (none, d)) _ flag byte h));
      arrays = only _ d _ (λ h.
          rw (go, first)
            (ap (λ m. m >>= λ found. some (answer d found))
              (array_switch _ _ _ (some none) _ flag byte h)));
      maps = only _ d _ (λ h.
          rw (go, first)
            (ap (λ m. m >>= λ found. some (answer d found))
              (map_switch _ _ _ (some none) _ flag byte h)));
      pointers = only _ d _ (λ h.
          rw (go, first)
            (ap (λ m. m >>= λ found. some (answer d found))
              (pointer_switch _ _ _ (some none) _ flag byte h)));
    }
