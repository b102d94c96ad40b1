-- ===== src/ChannelCenter/Create.antt =====
-- channelCenter_init, and channelCenter_register as createChannel calls it.
use frog_game_framework.Base.{
  ℕ, ◌-◌, ◌≡◌, ◌≢◌, ◌≤◌, ◌<◌, ◌⊎◌, refl, sym, ap, ◌∙◌, List, length, Option, none, some,
  some-injective, ◌>>=◌, bind_assoc, inl, inr, eq_cases, arith, get_elem?, get_elem?_inside, Gives,
  Gives_bind, Gives_map,
}
use frog_game_framework.HandleTable.{
  Handle, Slot, Table, Allocator, handle_mask, insert, make_table, clear_slots,
}
use frog_game_framework.HandleTable.Index.{clear_slots-Cleared}
use frog_game_framework.HandleTable.Insert.{InsertedAt, InsertedClean, insert-InsertedClean}
use frog_game_framework.HandleTable.Objects.{
  Objects, update, update_same, update_other, update_again,
}
use frog_game_framework.HandleTable.Start.{RenewedNull, make_table-IsValid}
use frog_game_framework.HandleTable.Valid.{IsClean, Owns, Owns-inside}
use frog_game_framework.ChannelCenter.{
  Channel, ChannelCenter, State, add_ref, renew, next_sequence, init, register, registered,
  create_channel,
}
use frog_game_framework.ChannelCenter.Registry.{running, new_id, IsNamed, IsRegistry, joined_id}

renew-RenewedNull :
    (a : Allocator) (slots : List Slot) (old n : ℕ)
    → length slots ≡ old
    → old ≤ n
    → Gives (renew a slots old n) (RenewedNull slots n)
unfolding renew
renew-RenewedNull a slots old n e h =
    Gives_map (clear_slots (n - old) old (a.realloc_slots slots n))
      (clear_slots-Cleared (n - old) old (a.realloc_slots slots n)
        (omega (arith, a.length-realloc_slots slots n)))
      (λ cleared k. record {
        renews = record {
          size = k.same_length ∙ a.length-realloc_slots slots n;
          kept = λ i p.
              let (x, at) = get_elem?_inside slots i p in
              k.before i (omega arith)
              ∙ a.realloc_slots-keeps slots n i x (omega arith) at
              ∙ sym at;
        };
        null = λ i low high. k.null i (omega arith) (omega arith);
      })

-- A channel as `createChannel` leaves it, with its references.
abbrev pub created : ℕ → ℕ → Channel
created id references = record { id = id; ref_count = references; service = none; codec = none }

-- The channel has the slot `slot`, an identifier with the sequence number of the centre, and two
-- references, that of the centre and that of the caller.
pub record CreatedAt (c : ChannelCenter) (channels : Objects Channel) (released : List Handle)
    (p : Handle) (s : State) : Type 0 where
  pub center : ChannelCenter
  pub slot : ℕ
  pub after :
      s ≡ running center (update channels p (some (created (new_id c.sequence slot) 2))) released
  pub registry : IsRegistry center (update channels p (some (created (new_id c.sequence slot) 2)))
  pub next : center.sequence ≡ next_sequence c.sequence
  pub owns : Owns center.table slot p
  pub unused : (q : Handle) → ¬ Owns c.table slot q
  pub others : (j : ℕ) (q : Handle) → Owns c.table j q → Owns center.table j q
  pub origin : (j : ℕ) (q : Handle) → j ≢ slot → Owns center.table j q → Owns c.table j q

-- Without a free slot the channel has the identifier 0.
pub record NotRegistered (c : ChannelCenter) (channels : Objects Channel) (released : List Handle)
    (p : Handle) (s : State) : Type 0 where
  pub full : (c.table.count ≡ 0) × (c.table.capacity ≡ handle_mask)
  pub after : s ≡ running c (update channels p (some (created 0 1))) released
  pub registry : IsRegistry c (update channels p (some (created 0 1)))

abbrev pub Created : ChannelCenter → Objects Channel → List Handle → Handle → State → Type 0
Created c channels released p s =
    NotRegistered c channels released p s ⊎ CreatedAt c channels released p s

next_sequence_range :
    (n : ℕ) → 0 < n → n < 0x7ff → (0 < next_sequence n) × (next_sequence n < 0x7ff)
next_sequence_range n low high = ground arith

module _ (c : ChannelCenter) (channels : Objects Channel) (released : List Handle) (p : Handle)
    (r : IsRegistry c channels) (fresh : channels p ≡ none) where
  -- A channel at a fresh address does not matter to the others.
  kept-IsNamed :
      (y : Channel) (i : ℕ) (q : Handle)
      → Owns c.table i q
      → IsNamed (update channels p (some y)) i q
  kept-IsNamed y i q o =
      let n = r.named i q o in
      record {
        channel = n.channel;
        lives =
            update_other channels p (some y) q (λ e.
              let two : none ≡ some n.channel = sym fresh ∙ ap channels (sym e) ∙ n.lives in
              absurd (ground (arith, two)))
            ∙ n.lives;
        low = n.low;
        top = n.top;
        word = n.word;
      }

  module _ (i : ℕ) (table : Table) (k : InsertedAt c.table p (i, table))
      (clean : IsClean table) where
    abbrev id : ℕ
    id = new_id c.sequence i

    new_center : ChannelCenter
    new_center = record { sequence = next_sequence c.sequence; table = table }

    IsNamed-after :
        (j : ℕ) (q : Handle)
        → Owns table j q
        → IsNamed (update channels p (some (created id 2))) j q
    IsNamed-after j q o = elim (eq_cases j i) [
      | inl e ↦
          let same : q ≡ p =
            some-injective _ _
              (some-injective _ _ (sym o.stored ∙ ap (get_elem? table.slots) e ∙ k.owns.stored)) in
          record {
            channel = created id 2;
            lives =
                ap (update channels p (some (created id 2))) same
                ∙ update_same channels p (some (created id 2));
            low = omega (arith, k.inside, k.valid.capped);
            top = omega arith;
            word = omega (arith, r.bounded, k.inside, k.valid.capped);
          }
      | inr ne ↦ kept-IsNamed (created id 2) j q (k.origin j q ne o)
    ]

    created_slot : CreatedAt c channels released p (
        running
          (record { sequence = next_sequence c.sequence; table = table })
          (update channels p (some (created id 2)))
          released)
    created_slot = record {
      center = record { sequence = next_sequence c.sequence; table = table };
      slot = i;
      after = refl;
      registry = record {
        valid = k.valid;
        clean = clean;
        started = (next_sequence_range c.sequence r.started r.bounded).0;
        bounded = (next_sequence_range c.sequence r.started r.bounded).1;
        named = IsNamed-after;
      };
      next = refl;
      owns = k.owns;
      unused = k.unused;
      others = k.others;
      origin = k.origin;
    }

  -- What follows on the search for a slot, for the object that was put at `p`.
  abbrev assign : Channel → Option (ℕ × Table) → Option State
  assign y found = registered c (running c (update channels p (some y)) released) p found >>= λ s.
      s.1.channels p >>= λ x.
      some (record s.1 { channels = update s.1.channels p (some (record x { id = s.0 })) })

  after_insert :
      (rubbish : ℕ) (found : Option (ℕ × Table))
      → InsertedClean c.table p found
      → Gives (assign (created rubbish 1) found) (Created c channels released p)
  unfolding registered add_ref
  after_insert rubbish none full =
      rw
        (
          update_same channels p (some (created rubbish 1)),
          update_again channels p (some (created rubbish 1)) (some (created 0 1)),
        )
        (inl (record {
          full = full;
          after = refl;
          registry = record {
            valid = r.valid;
            clean = r.clean;
            started = r.started;
            bounded = r.bounded;
            named = kept-IsNamed (created 0 1);
          };
        }))
  after_insert rubbish (some (i, table)) k =
      rw
        (
          update_same channels p (some (created rubbish 1)),
          update_again channels p (some (created rubbish 1)) (some (created rubbish 2)),
          update_same channels p (some (created rubbish 2)),
          joined_id c.sequence i r.bounded (omega (arith, k.0.inside, k.0.valid.capped)),
          update_again channels p (some (created rubbish 2))
              (some (created (new_id c.sequence i) 2)),
        )
        (inr (created_slot i table k.0 k.1))

-- On a registry, a channel that is created at a free address gets an identifier with the sequence
-- number of the centre and a slot that no channel had, or the identifier 0 where the table is full
-- and has its last size; the registry is kept, and so is every other channel.
pub create_channel-Created :
    (a : Allocator) (c : ChannelCenter) (channels : Objects Channel) (released : List Handle)
    (p : Handle) (rubbish : ℕ)
    → IsRegistry c channels
    → channels p ≡ none
    → Gives
        (create_channel a (running c channels released) p rubbish)
        (Created c channels released p)
unfolding create_channel register
create_channel-Created a c channels released p rubbish r fresh =
    rw
      (bind_assoc (insert a (renew a) c.table p)
        (registered c (running c (update channels p (some (created rubbish 1))) released) p) _)
      (Gives_bind (insert a (renew a) c.table p)
        (assign c channels released p r fresh (created rubbish 1)) _
        (insert-InsertedClean a (renew a) c.table p r.valid r.clean (renew-RenewedNull a))
        (after_insert c channels released p r fresh rubbish))

-- The first centre is a registry without channels; a second call changes nothing.
pub init-IsRegistry :
    (a : Allocator) (channels : Objects Channel) (released : List Handle)
    → Gives (init a (record { center = none; channels = channels; released = released })) (λ s.
      (c : ChannelCenter) × (s ≡ running c channels released)
      × IsRegistry c channels
      × ((i : ℕ) (p : Handle) → ¬ Owns c.table i p)
      × (init a s ≡ some s))
unfolding init
init-IsRegistry a channels released =
    Gives_bind (make_table a) _ _ (make_table-IsValid a) (λ t first.
      let empty : (i : ℕ) (p : Handle) → ¬ Owns t i p =
        λ i p o. absurd (ground (arith, first.2 i (Owns-inside t i p first.0 o), o.stored)) in
      (
        record { sequence = 1; table = t },
        refl,
        record {
          valid = first.0;
          clean = first.1;
          started = omega arith;
          bounded = omega arith;
          named = λ i p o. absurd (empty i p o);
        },
        empty,
        refl,
      ))
