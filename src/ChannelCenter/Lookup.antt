-- ===== src/ChannelCenter/Lookup.antt =====
-- channelCenter_gain.
use frog_game_framework.Base.{
  ℕ, ◌+◌, ◌%◌, ◌^◌, ◌≡◌, ◌≢◌, ◌⊎◌, refl, sym, ap, ◌∙◌, List, none, some, some-injective, inl, inr,
  eq_cases,
}
use frog_game_framework.HandleTable.{Handle}
use frog_game_framework.HandleTable.Objects.{Objects, update, update_same, update_other}
use frog_game_framework.HandleTable.Valid.{Owns}
use frog_game_framework.ChannelCenter.{Channel, ChannelCenter, add_ref, gain}
use frog_game_framework.ChannelCenter.Registry.{
  running, IsNamed, IsRegistry, IsUnused, Finds, hit, miss, search_id-Finds,
}

abbrev pub with_ref : Channel → Channel
with_ref x = record x { ref_count = (x.ref_count + 1) % 2 ^ 32 }

pub add_ref_lem :
    (c : ChannelCenter) (channels : Objects Channel) (released : List Handle) (p : Handle)
    (x : Channel)
    → channels p ≡ some x
    → add_ref (running c channels released) p
      ≡ some (running c (update channels p (some (with_ref x))) released)
unfolding add_ref
add_ref_lem c channels released p x e = rw e refl

-- A channel that changes, but not its identifier, stays registered.
pub changed-IsNamed :
    (channels : Objects Channel) (i : ℕ) (p q : Handle) (x y : Channel)
    → channels q ≡ some x
    → y.id ≡ x.id
    → IsNamed channels i p
    → IsNamed (update channels q (some y)) i p
changed-IsNamed channels i p q x y e same n = elim (eq_cases p q) [
  | inl h ↦
      let own : x.id ≡ n.channel.id =
        ap (λ v. v.id) (some-injective _ _ (sym e ∙ ap channels (sym h) ∙ n.lives)) in
      record {
        channel = y;
        lives = ap (update channels q (some y)) h ∙ update_same channels q (some y);
        low = rw (same, own) n.low;
        top = rw (same, own) n.top;
        word = rw (same, own) n.word;
      }
  | inr ne ↦ record {
    channel = n.channel;
    lives = update_other channels q (some y) p ne ∙ n.lives;
    low = n.low;
    top = n.top;
    word = n.word;
  }
]

module _ (c : ChannelCenter) (channels : Objects Channel) (released : List Handle)
    (r : IsRegistry c channels) where
  -- The channel in slot `i` has the identifier: it is given, with one more reference.
  pub record GainedAt (id i : ℕ) (p : Handle) : Type 0 where
    pub owns : Owns c.table i p
    pub same : (r.named i p owns).channel.id ≡ id
    pub result :
        gain (running c channels released) id
        ≡ some (
          some p,
          running c (update channels p (some (with_ref (r.named i p owns).channel))) released,
        )
    pub registry : IsRegistry c (update channels p (some (with_ref (r.named i p owns).channel)))

  abbrev pub Gained : ℕ → Type 0
  Gained id = (i : ℕ) × (p : Handle) × GainedAt id i p

  -- No channel has the identifier, and NULL is given.
  abbrev pub NotGained : ℕ → Type 0
  NotGained id =
      IsUnused c channels released r id
      × (gain (running c channels released) id ≡ some (none, running c channels released))

  abbrev pub LookedUp : ℕ → Type 0
  LookedUp id = Gained id ⊎ NotGained id

  by_Finds : (id : ℕ) → Finds c channels released r id → LookedUp id
  unfolding gain
  by_Finds id (hit i p o same e) =
      let n = r.named i p o in
      inl (
        i,
        p,
        record {
          owns = o;
          same = same;
          result = rw (e, add_ref_lem c channels released p n.channel n.lives) refl;
          registry = record {
            valid = r.valid;
            clean = r.clean;
            started = r.started;
            bounded = r.bounded;
            named = λ j q x.
                changed-IsNamed channels j q p n.channel (with_ref n.channel) n.lives refl
                  (r.named j q x);
          };
        },
      )
  by_Finds id (miss unused e) = inr (unused, rw e refl)

  -- On a registry, `gain` of an identifier whose low 20 bits are not 0 gives the registered channel
  -- that has it, with one more reference, and keeps the registry; where no channel has it, it gives
  -- NULL and changes nothing.
  pub gain-LookedUp : (id : ℕ) → id % 0x100000 ≢ 0 → LookedUp id
  gain-LookedUp id low = by_Finds id (search_id-Finds c channels released r id low)
