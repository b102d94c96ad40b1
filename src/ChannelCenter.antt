-- ===== src/ChannelCenter.antt =====
-- The channel centre: src/service/source/channel/channelCenter_t.c, with createChannel,
-- channel_addref, channel_release, channel_getID and eventConnection_onUserFree of
-- src/service/source/channel/channel_t.c.
--
-- A channel lives at an address; `none` is an address where no channel is, and a call that reads it
-- is a fault. The lock of the centre is held over each function, so that a function is one step. Of
-- a channel, the fields that these functions read are modelled.
pub mod Registry
pub mod Create
pub mod Lookup
pub mod Drop
pub mod Close
pub mod GetIds
pub mod Held
pub mod Calls
pub mod History
mod Tests
use frog_game_framework.Base.{
  ℕ, ◌+◌, ◌-◌, ◌*◌, ◌%◌, ◌^◌, ◌<◌, ltb, ◌==◌, if◌then◌else◌, List, [], ◌∷◌, ◌++◌, Option, none,
  some, ◌>>=◌, Bool, true, false, bit_and, bit_or, set_elem?,
}
use frog_game_framework.HandleTable.{
  Handle, Slot, Table, Allocator, make_table, clear_slots, insert, find_slot, give_slot,
}
use frog_game_framework.HandleTable.Objects.{Objects, update}

-- A codec stream; `has_release` tells whether `fnRelease` is not NULL.
pub record Codec : Type 0 where
  pub address : Handle
  pub has_release : Bool

pub record Channel : Type 0 where
  pub id : ℕ
  pub ref_count : ℕ
  pub service : Option Handle
  pub codec : Option Codec

pub record ChannelCenter : Type 0 where
  pub sequence : ℕ
  pub table : Table

-- `s_pChannelCenter`, the channels, and the services and codec streams that were released so far.
pub record State : Type 0 where
  pub center : Option ChannelCenter
  pub channels : Objects Channel
  pub released : List Handle

-- `channel_addref`: `atomic_fetch_add` on an atomic_int.
unfoldable pub add_ref : State → Handle → Option State
add_ref s p = do
  x ← s.channels p
  some (record s {
    channels = update s.channels p (some (record x { ref_count = (x.ref_count + 1) % 2 ^ 32 }));
  })

-- What the last reference to a channel releases.
abbrev pub released_service : Option Handle → List Handle
released_service none = []
released_service (some service) = service ∷ []

abbrev pub released_codec : Option Codec → List Handle
released_codec none = []
released_codec (some codec) = if codec.has_release then codec.address ∷ [] else []

-- `channel_release`.
unfoldable pub release : State → Handle → Option State
release s p = do
  x ← s.channels p
  some (
      if x.ref_count == 1
      then record s {
        channels = update s.channels p none;
        released = s.released ++ (released_service x.service ++ released_codec x.codec);
      }
      else record s {
        channels =
            update s.channels p
              (some (record x { ref_count = (x.ref_count + 2 ^ 32 - 1) % 2 ^ 32 }));
      })

-- `channel_getID`.
abbrev pub get_id : Objects Channel → Handle → Option ℕ
get_id channels p = channels p >>= λ x. some x.id

-- `channelCenter_init`.
unfoldable pub init : Allocator → State → Option State
init a s = elim s.center [
  | some c ↦ some s
  | none ↦ (do
    table ← make_table a
    some (record s { center = some (record { sequence = 1; table = table }) }))
]

-- `mem_realloc` of the slots, and `bzero` of the new ones.
unfoldable pub renew : Allocator → List Slot → ℕ → ℕ → Option (List Slot)
renew a slots old capacity = clear_slots (capacity - old) old (a.realloc_slots slots capacity)

-- The sequence number after `n`.
abbrev pub next_sequence : ℕ → ℕ
next_sequence n = if n + 1 == 0x7ff then 1 else n + 1

-- `channelCenter_register` after the search for a slot.
unfoldable pub registered : ChannelCenter → State → Handle → Option (ℕ × Table) → Option (ℕ × State)
registered c s p none = some (0, s)
registered c s p (some (i, table)) = do
  t ← add_ref s p
  some (
    bit_or (bit_or (i + 1) 0x80000000) (c.sequence * 2 ^ 20),
    record t { center = some (record { sequence = next_sequence c.sequence; table = table }) },
  )

-- `channelCenter_register`: 0 where there is no centre or no slot.
unfoldable pub register : Allocator → State → Handle → Option (ℕ × State)
register a s p = elim s.center [
  | none ↦ some (0, s)
  | some c ↦ insert a (renew a) c.table p >>= registered c s p
]

-- `createChannel` at the address `p` that mem_malloc gives; `rubbish` is what stands in the field
-- uiID until channelCenter_register has returned.
unfoldable pub create_channel : Allocator → State → Handle → ℕ → Option State
create_channel a s p rubbish =
    let fresh : Channel = record { id = rubbish; ref_count = 1; service = none; codec = none } in
    do
      r ← register a (record s { channels = update s.channels p (some fresh) }) p
      x ← r.1.channels p
      some (record r.1 { channels = update r.1.channels p (some (record x { id = r.0 })) })

-- The channel that a slot names, if it has this identifier.
unfoldable pub match_id : Objects Channel → ℕ → Option (ℕ × Handle) → Option (Option (ℕ × Handle))
match_id channels id none = some none
match_id channels id (some (i, p)) = do
  own ← get_id channels p
  some (if own == id then some (i, p) else none)

-- The search that `channelCenter_deregister` and `channelCenter_gain` begin with.
unfoldable pub search_id : State → ℕ → Option (Option (ℕ × Handle))
search_id s id = if bit_and id 0x80000000 == 0 then some none else elim s.center [
  | none ↦ some none
  | some c ↦ find_slot c.table id >>= match_id s.channels id
]

-- The removal of the channel at slot `i`.
unfoldable pub drop_slot : State → ℕ → Handle → Option (Bool × State)
drop_slot s i p = elim s.center [
  | none ↦ none
  | some c ↦ (do
    t ← release s p
    table ← give_slot c.table i
    some (true, record t { center = some (record c { table = table }) }))
]

-- `channelCenter_deregister`.
unfoldable pub deregister : State → ℕ → Option (Bool × State)
deregister s id =
    search_id s id >>= λ found. elim found [ none ↦ some (false, s) | some x ↦ drop_slot s x.0 x.1 ]

-- `channelCenter_gain`: `none` inside is NULL.
unfoldable pub gain : State → ℕ → Option (Option Handle × State)
gain s id = search_id s id >>= λ found. elim found [
  | none ↦ some (none, s)
  | some x ↦ add_ref s x.1 >>= λ t. some (some x.1, t)
]

-- `eventConnection_onUserFree`: the connection gives up its channel.
unfoldable pub on_user_free : State → Handle → Option State
on_user_free s p = do
  x ← s.channels p
  (if x.id == 0 then release s p else (do
    r ← deregister s x.id
    y ← r.1.channels p
    release (record r.1 { channels = update r.1.channels p (some (record y { id = 0 })) }) p))

-- The loop of `channelCenter_getIds` over the slots, which writes at `i` of the new array.
unfoldable pub get_loop : Objects Channel → List Slot → ℕ → List ℕ → Option (List ℕ)
get_loop channels [] i ids = some ids
get_loop channels (none ∷ slots) i ids = get_loop channels slots i ids
get_loop channels (some p ∷ slots) i ids = do
  id ← get_id channels p
  written ← set_elem? ids i id
  get_loop channels slots (i + 1) written

-- `channelCenter_getIds`: the count, and the array or NULL.
unfoldable pub get_ids : Allocator → State → Option (ℕ × Option (List ℕ))
get_ids a s = elim s.center [
  | none ↦ some (0, none)
  | some c ↦
      let n = c.table.capacity - c.table.count in
      if n == 0
      then some (0, none)
      else get_loop s.channels c.table.slots 0 (a.malloc_index n) >>= λ ids. some (n, some ids)
]

-- The loop of `channelCenter_clear` over the slots.
unfoldable pub clear_loop : List Slot → State → Option State
clear_loop [] s = some s
clear_loop (none ∷ slots) s = clear_loop slots s
clear_loop (some p ∷ slots) s = do
  id ← get_id s.channels p
  r ← deregister s id
  clear_loop slots r.1

-- `channelCenter_clear`: `s_pChannelCenter` is NULL from the start on.
unfoldable pub clear : State → Option State
clear s = elim s.center [
  | none ↦ some s
  | some c ↦ clear_loop c.table.slots (record s { center = none })
]
