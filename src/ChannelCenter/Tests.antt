-- ===== src/ChannelCenter/Tests.antt =====
-- A centre with the channel 5 in its table, and a centre that was just made.
use frog_game_framework.Base.{
  ℕ, ◌≡◌, ◌<◌, ◌⊎◌, refl, [], none, some, some-injective, ◌==◌, if◌then◌else◌, arith, Gives, ap,
  sym, subst, Gives_at, result_or, some_of_Gives,
}
use frog_game_framework.HandleTable.{Handle}
use frog_game_framework.HandleTable.Example.{
  null_allocator, half_full, half_full-IsValid, half_full-IsClean, half_full-Owns, only_taken,
}
use frog_game_framework.HandleTable.Objects.{Objects}
use frog_game_framework.HandleTable.Valid.{Owns, occupied}
use frog_game_framework.ChannelCenter.Create.{Created, create_channel-Created, init-IsRegistry}
use frog_game_framework.ChannelCenter.Close.{Freed, on_user_free-Freed}
use frog_game_framework.ChannelCenter.Drop.{Deregistered, deregister-Deregistered}
use frog_game_framework.ChannelCenter.GetIds.{listed, get_ids-listed}
use frog_game_framework.ChannelCenter.Held.{set_held, AllCounted}
use frog_game_framework.ChannelCenter.Calls.{create, Reachable, start, later}
use frog_game_framework.ChannelCenter.History.{Reachable-distinct}
use frog_game_framework.ChannelCenter.Lookup.{LookedUp, gain-LookedUp}
use frog_game_framework.ChannelCenter.Registry.{running, IsRegistry}
use frog_game_framework.ChannelCenter.{
  Channel, ChannelCenter, State, init, create_channel, deregister, on_user_free, get_ids,
}

abbrev center : ChannelCenter
center = record { sequence = 2; table = half_full }

abbrev channel : Channel
channel = record { id = 0x80100001; ref_count = 2; service = some 9; codec = none }

abbrev channels : Objects Channel
channels q = if q == 5 then some channel else none

registry : IsRegistry center channels
registry = record {
  valid = half_full-IsValid;
  clean = half_full-IsClean;
  started = omega arith;
  bounded = omega arith;
  named = λ i p o.
      let (at, who) = only_taken i p o in
      rw (at, who)
        (record {
          channel = channel;
          lives = refl;
          low = refl;
          top = omega arith;
          word = omega arith;
        });
}

gain-LookedUp_example : LookedUp center channels [] registry 0x80100001
gain-LookedUp_example = gain-LookedUp center channels [] registry 0x80100001 (λ e. omega arith)

deregister-Deregistered_example :
    Gives
      (deregister (running center channels []) 0x80100001)
      (Deregistered center channels [] registry 0x80100001)
deregister-Deregistered_example =
    deregister-Deregistered center channels [] registry 0x80100001 (λ e. omega arith)

two_references : (registry.named 0 5 half_full-Owns).channel.ref_count ≡ 2
two_references =
    ap (λ x. x.ref_count) (some-injective _ _ (sym (registry.named 0 5 half_full-Owns).lives))

on_user_free-Freed_example :
    Gives
      (on_user_free (running center channels []) 5)
      (Freed center channels [] registry 0 5 half_full-Owns)
on_user_free-Freed_example =
    on_user_free-Freed center channels [] registry 0 5 half_full-Owns two_references

get_ids-listed_example :
    ((center.table.count ≡ center.table.capacity)
      × (get_ids null_allocator (running center channels []) ≡ some (0, none)))
    ⊎ ((center.table.count < center.table.capacity)
        × (get_ids null_allocator (running center channels [])
            ≡ some (occupied center.table.slots, some (listed channels center.table.slots))))
get_ids-listed_example = get_ids-listed null_allocator center channels [] registry

-- A centre that was made and has a first channel.
abbrev no_channels : Objects Channel
no_channels q = none

abbrev empty : State
empty = record { center = none; channels = no_channels; released = [] }

first_state : State
first_state = result_or empty (init null_allocator empty)

-- The channel 5 is created in it.
second_state : State
second_state = result_or empty (create_channel null_allocator first_state 5 0)

made : init null_allocator empty ≡ some first_state
unfolding first_state
made =
    some_of_Gives (init null_allocator empty) _ empty
      (init-IsRegistry null_allocator no_channels [])

created_in : create_channel null_allocator first_state 5 0 ≡ some second_state
unfolding second_state
created_in =
    let f = Gives_at _ made (init-IsRegistry null_allocator no_channels []) in
    let here : Gives (create_channel null_allocator first_state 5 0)
        (Created f.0 no_channels [] 5) =
      subst (λ v. Gives (create_channel null_allocator v 5 0) (Created f.0 no_channels [] 5))
        (sym f.1) (create_channel-Created null_allocator f.0 no_channels [] 5 0 f.2 refl) in
    some_of_Gives (create_channel null_allocator first_state 5 0) _ empty here

second-Reachable : Reachable null_allocator second_state (set_held (λ p. 0) 5 1)
second-Reachable =
    let f = Gives_at _ made (init-IsRegistry null_allocator no_channels []) in
    later (start [] made) (create 5 0 (ap (λ v. v.channels 5) f.1) created_in)

Reachable-distinct_example :
    (c : ChannelCenter) × (second_state.center ≡ some c)
    × IsRegistry c second_state.channels
    × AllCounted c second_state.channels (set_held (λ p. 0) 5 1)
    × ((i j : ℕ) (p q : Handle) (x y : Channel)
        → Owns c.table i p
        → Owns c.table j q
        → second_state.channels p ≡ some x
        → second_state.channels q ≡ some y
        → x.id ≡ y.id
        → (i ≡ j) × (p ≡ q))
Reachable-distinct_example = Reachable-distinct second-Reachable
