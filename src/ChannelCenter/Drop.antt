-- ===== src/ChannelCenter/Drop.antt =====
-- channelCenter_deregister.
use frog_game_framework.Base.{
  ℕ, ◌+◌, ◌-◌, ◌%◌, ◌^◌, ◌≡◌, ◌≢◌, ◌⊎◌, refl, sym, ap, ◌∙◌, List, ◌++◌, Option, none, some,
  some-injective, Bool, true, false, inl, inr, eq_cases, eq→==, ne→==, ◌==◌, if◌then◌else◌, arith,
  Gives, Gives_bind, Gives_map,
}
use frog_game_framework.HandleTable.{Handle, Table, give_slot}
use frog_game_framework.HandleTable.Objects.{Objects, update, update_other}
use frog_game_framework.HandleTable.GiveBack.{Given, give_slot-Given, Given-origin, Given-IsClean}
use frog_game_framework.HandleTable.Valid.{Owns}
use frog_game_framework.ChannelCenter.{
  Channel, ChannelCenter, State, released_service, released_codec, release, drop_slot, deregister,
}
use frog_game_framework.ChannelCenter.Registry.{
  running, IsNamed, IsRegistry, IsUnused, Finds, hit, miss, search_id-Finds,
}

-- A channel with one reference less, and what its last reference releases.
abbrev pub without_ref : Channel → Option Channel
without_ref x =
    if x.ref_count == 1
    then none
    else some (record x { ref_count = (x.ref_count + 2 ^ 32 - 1) % 2 ^ 32 })

abbrev pub released_after : Channel → List Handle → List Handle
released_after x released =
    if x.ref_count == 1
    then released ++ (released_service x.service ++ released_codec x.codec)
    else released

pub release_lem :
    (c : ChannelCenter) (channels : Objects Channel) (released : List Handle) (p : Handle)
    (x : Channel)
    → channels p ≡ some x
    → release (running c channels released) p
      ≡ some (running c (update channels p (without_ref x)) (released_after x released))
unfolding release
release_lem c channels released p x e = elim (eq_cases x.ref_count 1) [
  | inl last ↦ rw (e, eq→== x.ref_count 1 last) refl
  | inr more ↦ rw (e, ne→== x.ref_count 1 more) refl
]

module _ (c : ChannelCenter) (channels : Objects Channel) (released : List Handle)
    (r : IsRegistry c channels) where
  -- What `deregister` makes of the channel in slot `i`: the slot is free and NULL, the channel has
  -- one reference less, and the others stay registered.
  pub record DroppedAt (id i : ℕ) (p : Handle) (o : Owns c.table i p) (s : Bool × State)
      : Type 0 where
    pub same : (r.named i p o).channel.id ≡ id
    pub found : s.0 ≡ true
    pub center : ChannelCenter
    pub given : Given c.table i center.table
    pub sequence : center.sequence ≡ c.sequence
    pub after :
        s.1
        ≡ running center
            (update channels p (without_ref (r.named i p o).channel))
            (released_after (r.named i p o).channel released)
    pub registry : IsRegistry center (update channels p (without_ref (r.named i p o).channel))

  abbrev pub Dropped : ℕ → Bool × State → Type 0
  Dropped id s = (i : ℕ) × (p : Handle) × (o : Owns c.table i p) × DroppedAt id i p o s

  -- No channel has the identifier, and nothing changes.
  abbrev pub NotDropped : ℕ → Bool × State → Type 0
  NotDropped id s = IsUnused c channels released r id × (s ≡ (false, running c channels released))

  abbrev pub Deregistered : ℕ → Bool × State → Type 0
  Deregistered id s = Dropped id s ⊎ NotDropped id s

  module _ (i : ℕ) (p : Handle) (o : Owns c.table i p) where
    abbrev x : Channel
    x = (r.named i p o).channel

    -- Another channel is at another address, since its identifier has other low bits.
    pub other_address : (j : ℕ) (q : Handle) → j ≢ i → Owns c.table j q → q ≢ p
    other_address j q ne y e =
        let same : (r.named j q y).channel.id ≡ (r.named i p o).channel.id =
          ap (λ v. v.id)
            (some-injective _ _
              (sym (r.named j q y).lives ∙ ap channels e ∙ (r.named i p o).lives)) in
        ne (omega (arith, (r.named j q y).low, (r.named i p o).low, same))

    IsNamed-after :
        (table : Table) (g : Given c.table i table) (j : ℕ) (q : Handle)
        → Owns table j q
        → IsNamed (update channels p (without_ref (r.named i p o).channel)) j q
    IsNamed-after table g j q y =
        let (ne, old) = Given-origin j q g y in
        let n = r.named j q old in
        record {
          channel = n.channel;
          lives =
              update_other channels p (without_ref (r.named i p o).channel) q
                (other_address j q ne old)
              ∙ n.lives;
          low = n.low;
          top = n.top;
          word = n.word;
        }

    pub drop_slot-DroppedAt :
        Gives
          (drop_slot (running c channels released) i p)
          (DroppedAt (r.named i p o).channel.id i p o)
    unfolding drop_slot
    drop_slot-DroppedAt =
        let n = r.named i p o in
        rw (release_lem c channels released p n.channel n.lives) (
          Gives_bind (give_slot c.table i) _ (DroppedAt n.channel.id i p o)
            (give_slot-Given c.table i p r.valid o)
            (λ table g. record {
              same = refl;
              found = refl;
              center = record c { table = table };
              given = g;
              sequence = refl;
              after = refl;
              registry = record {
                valid = g.valid;
                clean = Given-IsClean p g o.stored r.clean;
                started = r.started;
                bounded = r.bounded;
                named = IsNamed-after table g;
              };
            }))

  by_Finds :
      (id : ℕ)
      → Finds c channels released r id
      → Gives (deregister (running c channels released) id) (Deregistered id)
  unfolding deregister
  by_Finds id (hit i p o same e) = rw e (
      Gives_map (drop_slot (running c channels released) i p) (drop_slot-DroppedAt i p o) (λ s d.
        inl (
          i,
          p,
          o,
          record {
            same = same;
            found = d.found;
            center = d.center;
            given = d.given;
            sequence = d.sequence;
            after = d.after;
            registry = d.registry;
          },
        )))
  by_Finds id (miss unused e) = rw e (inr (unused, refl))

  -- On a registry, `deregister` of an identifier whose low 20 bits are not 0 never faults: it frees
  -- the slot of the registered channel that has it, gives up one reference and keeps the registry;
  -- where no channel has it, it answers false and changes nothing.
  pub deregister-Deregistered :
      (id : ℕ)
      → id % 0x100000 ≢ 0
      → Gives (deregister (running c channels released) id) (Deregistered id)
  deregister-Deregistered id low = by_Finds id (search_id-Finds c channels released r id low)
