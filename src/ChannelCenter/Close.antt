-- ===== src/ChannelCenter/Close.antt =====
-- eventConnection_onUserFree: the connection of a registered channel has gone.
use frog_game_framework.Base.{
  ℕ, ◌+◌, ◌-◌, ◌%◌, ◌^◌, ◌≡◌, refl, sym, ap, ◌∙◌, subst, List, ◌++◌, Option, none, some, ◌>>=◌,
  ◌==◌, ne→==, if◌then◌else◌, arith, Gives, Gives_bind, Bool,
}
use frog_game_framework.HandleTable.{Handle, Table}
use frog_game_framework.HandleTable.Objects.{
  Objects, update, update_same, update_other, update_again,
}
use frog_game_framework.HandleTable.GiveBack.{Given, Given-origin}
use frog_game_framework.HandleTable.Valid.{Owns}
use frog_game_framework.ChannelCenter.{
  Channel, ChannelCenter, State, released_service, released_codec, release, drop_slot, deregister,
  on_user_free,
}
use frog_game_framework.ChannelCenter.Registry.{running, IsNamed, IsRegistry, search_registered}
use frog_game_framework.ChannelCenter.Drop.{
  without_ref, released_after, release_lem, DroppedAt, other_address, drop_slot-DroppedAt,
}

-- What the last reference to the channel releases.
abbrev pub all_released : Channel → List Handle
all_released x = released_service x.service ++ released_codec x.codec

one_left : (x : Channel) → x.ref_count ≡ 2 → without_ref x ≡ some (record x { ref_count = 1 })
one_left x two =
    ap (λ k. if k == 1 then none else some (record x { ref_count = (k + 2 ^ 32 - 1) % 2 ^ 32 })) two

none_released :
    (x : Channel) (released : List Handle) → x.ref_count ≡ 2 → released_after x released ≡ released
none_released x released two = ap (λ k. if k == 1 then released ++ all_released x else released) two

-- The end of `on_user_free`, where the channel `x` has one reference left.
free_last : State → Handle → Option State
free_last t p = t.channels p >>= λ y.
    release (record t { channels = update t.channels p (some (record y { id = 0 })) }) p

free_last_lem :
    (c : ChannelCenter) (channels : Objects Channel) (released : List Handle) (p : Handle)
    (x : Channel)
    → x.ref_count ≡ 2
    → free_last (running c (update channels p (without_ref x)) (released_after x released)) p
      ≡ some (running c (update channels p none) (released ++ all_released x))
unfolding free_last
free_last_lem c channels released p x two =
    rw
      (
        one_left x two,
        none_released x released two,
        update_same channels p (some (record x { ref_count = 1 })),
      )
      (release_lem c
          (update (update channels p (some (record x { ref_count = 1 }))) p
            (some (record x { ref_count = 1; id = 0 })))
          released p (record x { ref_count = 1; id = 0 }) (update_same _ p _)
        ∙ ap (λ v. some (running c v (released ++ all_released x)))
            (update_again (update channels p (some (record x { ref_count = 1 }))) p _ none
              ∙ update_again channels p _ none))

module _ (c : ChannelCenter) (channels : Objects Channel) (released : List Handle)
    (r : IsRegistry c channels) (i : ℕ) (p : Handle) (o : Owns c.table i p) where
  abbrev x : Channel
  x = (r.named i p o).channel

  -- What `on_user_free` leaves: the slot is free, no channel is at the address, what it held is
  -- released, and the other channels stay registered.
  pub record Freed (t : State) : Type 0 where
    pub center : ChannelCenter
    pub given : Given c.table i center.table
    pub after :
        t
        ≡ running center (update channels p none) (released ++ all_released (r.named i p o).channel)
    pub registry : IsRegistry center (update channels p none)

  still-IsNamed :
      (table : Table) (g : Given c.table i table) (j : ℕ) (q : Handle)
      → Owns table j q
      → IsNamed (update channels p none) j q
  still-IsNamed table g j q y =
      let (ne, old) = Given-origin j q g y in
      let n = r.named j q old in
      record {
        channel = n.channel;
        lives =
            update_other channels p none q (other_address c channels released r i p o j q ne old)
            ∙ n.lives;
        low = n.low;
        top = n.top;
        word = n.word;
      }

  dropped-Freed :
      (r.named i p o).channel.ref_count ≡ 2
      → (s : Bool × State) → DroppedAt c channels released r (r.named i p o).channel.id i p o s
      → Gives (free_last s.1 p) Freed
  dropped-Freed two s d =
      subst (λ v. Gives (free_last v p) Freed) (sym d.after)
        (rw (free_last_lem d.center channels released p (r.named i p o).channel two) (record {
          center = d.center;
          given = d.given;
          after = refl;
          registry = record {
            valid = d.registry.valid;
            clean = d.registry.clean;
            started = d.registry.started;
            bounded = d.registry.bounded;
            named = still-IsNamed d.center.table d.given;
          };
        }))

  -- On a registry, with a registered channel to which only the centre and its connection refer:
  -- eventConnection_onUserFree never faults, frees the slot of the channel and then the channel,
  -- releases its service and its codec stream once each, and keeps the registry of the others.
  pub on_user_free-Freed :
      (r.named i p o).channel.ref_count ≡ 2
      → Gives (on_user_free (running c channels released) p) Freed
  unfolding on_user_free deregister free_last
  on_user_free-Freed two =
      let n = r.named i p o in
      rw
        (
          n.lives,
          ne→== n.channel.id 0 (λ e. omega (arith, e, n.top)),
          search_registered c channels released r i p o,
        )
        (Gives_bind (drop_slot (running c channels released) i p) _ Freed
          (drop_slot-DroppedAt c channels released r i p o) (dropped-Freed two))
