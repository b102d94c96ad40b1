-- ===== src/ChannelCenter/Registry.antt =====
-- What holds of the channel centre between two calls, and what a search finds then.
use frog_game_framework.Base.{
  ℕ, ◌+◌, ◌-◌, ◌*◌, ◌%◌, ◌^◌, ◌≡◌, ◌≢◌, ◌≤◌, ◌<◌, inl, inr, refl, sym, ap, subst, ◌∙◌, List, Option,
  none, some, ◌>>=◌, some-injective, bit_and, bit_or, bit_and-high, bit_or-high, bit_or_comm,
  bit_or_above, eq→==, ne→==, get_elem?, get_elem?_inside, lt_cases, eq_cases, arith,
}
use frog_game_framework.HandleTable.{Handle, find_slot}
use frog_game_framework.HandleTable.Find.{find_slot_stored, find_slot_null, find_slot_beyond}
use frog_game_framework.HandleTable.Objects.{Objects}
use frog_game_framework.HandleTable.Valid.{IsValid, IsClean, Owns, Owns-inside}
use frog_game_framework.ChannelCenter.{Channel, ChannelCenter, State, match_id, search_id}

-- The state with a centre.
abbrev pub running : ChannelCenter → Objects Channel → List Handle → State
running c channels released = record { center = some c; channels = channels; released = released }

pub record IsNamed (channels : Objects Channel) (i : ℕ) (p : Handle) : Type 0 where
  pub channel : Channel
  pub lives : channels p ≡ some channel
  pub low : channel.id % 0x100000 ≡ i + 1
  pub top : 0x80000000 ≤ channel.id
  pub word : channel.id < 2 ^ 32

-- The table is valid and clean, and every channel in it lives and has an identifier with the top
-- bit and with its slot in the low bits.
pub record IsRegistry (c : ChannelCenter) (channels : Objects Channel) : Type 0 where
  pub valid : IsValid c.table
  pub clean : IsClean c.table
  pub started : 0 < c.sequence
  pub bounded : c.sequence < 0x7ff
  pub named : (i : ℕ) (p : Handle) → Owns c.table i p → IsNamed channels i p

-- The top bit of a word.
bit_and-top_bit : (id : ℕ) → 0x80000000 ≤ id → id < 2 ^ 32 → bit_and id 0x80000000 ≡ 0x80000000
bit_and-top_bit id low high =
    ap (λ v. bit_and v 0x80000000) {x = id} {y = 1 * 2 ^ 31 + (id - 0x80000000)} (omega arith)
    ∙ bit_and-high 31 1 (id - 0x80000000) 1 (omega arith)

-- The identifier that a new channel gets.
abbrev pub new_id : ℕ → ℕ → ℕ
new_id sequence i = 0x80000000 + (sequence * 0x100000 + (i + 1))

pub joined_id :
    (sequence i : ℕ)
    → sequence < 0x7ff
    → i < 0xfffff
    → bit_or (bit_or (i + 1) 0x80000000) (sequence * 2 ^ 20) ≡ new_id sequence i
joined_id sequence i s h =
    let first : bit_or (i + 1) 0x80000000 ≡ 0x800 * 2 ^ 20 + (i + 1) =
      bit_or_comm (i + 1) 0x80000000
      ∙ (bit_or_above 31 1 0x80000000 (i + 1) refl (omega arith) ∙ omega arith) in
    rw
      (
        first,
        bit_or-high 20 0x800 (i + 1) sequence (omega arith),
        bit_or_above 11 1 0x800 sequence refl (omega arith),
      )
      (omega arith)

module _ (c : ChannelCenter) (channels : Objects Channel) (released : List Handle)
    (r : IsRegistry c channels) where
  -- A registered channel is found by its identifier.
  pub search_registered :
      (i : ℕ) (p : Handle) (o : Owns c.table i p)
      → search_id (running c channels released) (r.named i p o).channel.id ≡ some (some (i, p))
  unfolding search_id match_id
  search_registered i p o =
      let n = r.named i p o in
      rw
        (
          bit_and-top_bit n.channel.id n.top n.word,
          find_slot_stored c.table n.channel.id i n.low p (Owns-inside c.table i p r.valid o)
              o.stored,
          n.lives,
          eq→== n.channel.id n.channel.id refl,
        )
        refl

  pub handle_owned :
      (i : ℕ) (p : Handle) → get_elem? c.table.slots i ≡ some (some p) → Owns c.table i p
  handle_owned i p e = record {
    stored = e;
    taken = λ f. absurd (ground (arith, r.clean.free_null i f));
  }

  -- No registered channel has the identifier.
  abbrev pub IsUnused : ℕ → Type 0
  IsUnused id = (i : ℕ) (p : Handle) (o : Owns c.table i p) → (r.named i p o).channel.id ≢ id

  -- What a search answers: the channel with the identifier, or nothing where no channel has it.
  pub data Finds (id : ℕ) : Type 0 where
    hit :
        (i : ℕ) (p : Handle) (o : Owns c.table i p)
        → (r.named i p o).channel.id ≡ id
        → search_id (running c channels released) id ≡ some (some (i, p))
        → Finds id
    miss : IsUnused id → search_id (running c channels released) id ≡ some none → Finds id

  -- An identifier can only be that of the slot in its low bits.
  IsUnused-but :
      (id i : ℕ)
      → id % 0x100000 ≡ i + 1
      → ((p : Handle) (o : Owns c.table i p) → (r.named i p o).channel.id ≢ id)
      → IsUnused id
  IsUnused-but id i low here j p o e = elim (eq_cases j i) [
    | inl q ↦
        subst (λ k. (x : Owns c.table k p) → (r.named k p x).channel.id ≢ id) (sym q) (here p) o e
    | inr ne ↦ ne (omega (arith, (r.named j p o).low, e))
  ]

  -- Two facts about one slot speak of the same channel.
  same_channel :
      (i : ℕ) (p q : Handle) (o : Owns c.table i p) (x : Owns c.table i q)
      → (r.named i q x).channel.id ≡ (r.named i p o).channel.id
  same_channel i p q o x =
      let same : q ≡ p = some-injective _ _ (some-injective _ _ (sym x.stored ∙ o.stored)) in
      ap (λ y. y.id)
        (some-injective _ _ (sym (r.named i q x).lives ∙ ap channels same ∙ (r.named i p o).lives))

  missing :
      (id : ℕ)
      → bit_and id 0x80000000 ≢ 0
      → IsUnused id
      → (find_slot c.table id >>= match_id channels id) ≡ some none
      → Finds id
  unfolding search_id
  missing id top unused e = miss unused (rw (ne→== (bit_and id 0x80000000) 0 top) e)

  at_slot :
      (id i : ℕ) (x : Option Handle)
      → bit_and id 0x80000000 ≢ 0
      → id % 0x100000 ≡ i + 1
      → i < c.table.capacity
      → get_elem? c.table.slots i ≡ some x
      → Finds id
  unfolding match_id
  at_slot id i none top low h e =
      missing id top (IsUnused-but id i low (λ p o _. absurd (ground (arith, e, o.stored))))
        (rw (find_slot_null c.table id i low h e) refl)
  at_slot id i (some p) top low h e =
      let o = handle_owned i p e in
      let n = r.named i p o in
      elim (eq_cases n.channel.id id) [
        | inl same ↦ hit i p o same (
            subst (λ v. search_id (running c channels released) v ≡ some (some (i, p))) same
              (search_registered i p o))
        | inr other ↦
            missing id top
              (IsUnused-but id i low (λ q x y. other (sym (same_channel i p q o x) ∙ y)))
              (rw (find_slot_stored c.table id i low p h e, n.lives, ne→== n.channel.id id other)
                refl)
      ]

  -- Every identifier whose low bits are not 0 is searched for without a fault.
  pub search_id-Finds : (id : ℕ) → id % 0x100000 ≢ 0 → Finds id
  unfolding search_id match_id
  search_id-Finds id low = elim (eq_cases (bit_and id 0x80000000) 0) [
    | inl e ↦
        miss
          (λ i p o same.
            let n = r.named i p o in
            absurd (
              omega (
                arith,
                bit_and-top_bit n.channel.id n.top n.word,
                e,
                ap (λ v. bit_and v 0x80000000) same,
              )))
          (rw e refl)
    | inr ne ↦ at_index (id % 0x100000 - 1) (omega arith) ne
  ]
    where
      at_index : (i : ℕ) → id % 0x100000 ≡ i + 1 → bit_and id 0x80000000 ≢ 0 → Finds id
      at_index i e ne = elim (lt_cases i c.table.capacity) [
        | inl h ↦
            let (x, s) = get_elem?_inside c.table.slots i (omega (arith, r.valid)) in
            at_slot id i x ne e h s
        | inr h ↦
            missing id ne
              (IsUnused-but id i e
                (λ p o _. absurd (omega (arith, h, Owns-inside c.table i p r.valid o))))
              (rw (find_slot_beyond c.table id i e h) refl)
      ]
