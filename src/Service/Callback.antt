-- ===== src/Service/Callback.antt =====
-- service_eventCallback, service_send and service_sendMove of src/service/source/service_t.c.
--
-- The callback of a service and the other components enter with their answers; what the function
-- does to them is the list of its actions, in their order. A pointer in the storage of an event is
-- one number, and 0 is NULL.
pub mod Delivered
pub mod Kinds
pub mod Once
pub mod Received
mod Tests
use frog_game_framework.Base.{
  ℕ, ◌+◌, ◌*◌, ◌/◌, ◌%◌, ◌^◌, ◌==◌, leb, if◌then◌else◌, Bool, true, false, ◌&&◌, ◌||◌, not, List,
  [], ◌∷◌, ◌++◌, Option, none, some, ◌>>=◌, ◌>>◌, assert, length, drop, bit_and, bit_or,
}
use frog_game_framework.HandleTable.{Handle}
use frog_game_framework.Streams.{Event, EventQueue, enqueue}

-- The arguments of `fnCallback`, without pUserData; `none` for the buffer is NULL.
pub record Delivery : Type 0 where
  pub kind : ℕ
  pub source_id : ℕ
  pub token : ℕ
  pub buffer : Option (List ℕ)
  pub size : ℕ

-- `buffers` is the memory that events point to, `new_id` the identifier that createChannel gives.
pub record Environment : Type 0 where
  pub buffers : Handle → Option (List ℕ)
  pub timer_is_running : Handle → Bool
  pub is_connecting : Handle → Bool
  pub new_id : ℕ
  pub answers : Delivery → Bool

pub data Action : Type 0 where
  delivers : Delivery → Action
  frees : Handle → Action
  releases_timer : Handle → Action
  creates_channel : Handle → Action
  closes_channel : Action
  releases_channel : Action
  releases_connection : Handle → Action
  calls_stop : Action
  deregisters : ℕ → Action
  closes_watcher : Action

-- The fields of `service_s` that the event of service_stop reads.
pub record StopFields : Type 0 where
  pub has_user_data : Bool
  pub has_stop : Bool
  pub service_id : ℕ
  pub has_watcher : Bool

-- A pointer at the start of the storage; none is there to read in an empty one.
abbrev pub pointer_at : List ℕ → Option Handle
pointer_at [] = none
pointer_at (p ∷ bytes) = some p

-- A call without a buffer.
abbrev pub bare : ℕ → ℕ → ℕ → Action
bare kind source token =
    Action.delivers
      (record { kind = kind; source_id = source; token = token; buffer = none; size = 0 })

-- The branches that pass the storage on, or a buffer that was moved, which is then freed.
unfoldable pub pass_buffer : Environment → ℕ → Bool → ℕ → Event → Option (List Action)
pass_buffer env kind is_moved n e =
    let delivery : Option (List ℕ) → Delivery =
      λ b. record { kind = kind; source_id = e.source_id; token = e.token; buffer = b; size = n } in
    if is_moved
    then (pointer_at e.storage >>= λ p.
        some (Action.delivers (delivery (env.buffers p)) ∷ Action.frees p ∷ []))
    else some (Action.delivers (delivery (some e.storage)) ∷ [])

-- `DEF_EVENT_MSG`: nothing for a message without a kind.
unfoldable pub pass_message : Environment → ℕ → Bool → ℕ → Event → Option (List Action)
pass_message env kind is_moved n e =
    if kind == 0x70 || kind == 0x60 || kind == 0x20 || kind == 0x10
    then pass_buffer env (bit_or kind 10) is_moved n e
    else if kind == 0x50 || kind == 0x40 || kind == 0x30
    then some (bare (bit_or kind 10) e.source_id e.token ∷ [])
    else some []

-- `DEF_EVENT_RUN_AFTER` and `DEF_EVENT_RUN_EVERY`.
unfoldable pub run_timer : Environment → ℕ → Event → Option (List Action)
run_timer env kind e = pointer_at e.storage >>= λ p. some (
    (if env.timer_is_running p then bare kind e.source_id e.token ∷ [] else [])
    ++ (Action.releases_timer p ∷ []))

-- The channel of a new connection, which is closed again where the callback refuses it.
unfoldable pub offer_channel : Environment → Handle → Delivery → List Action
offer_channel env connection d =
    Action.creates_channel connection
    ∷ Action.delivers d
    ∷ (if env.answers d then [] else Action.closes_channel ∷ Action.releases_channel ∷ [])

-- `DEF_EVENT_ACCEPT`.
unfoldable pub accept_connection : Environment → ℕ → Event → Option (List Action)
accept_connection env n e = pointer_at e.storage >>= λ p. some (
    if p == 0
    then bare 4 0 e.token ∷ []
    else offer_channel env p (record {
      kind = 4;
      source_id = env.new_id;
      token = e.token;
      buffer = if n == 0 then none else some (drop 1 e.storage);
      size = n;
    }))

-- `DEF_EVENT_CONNECT`.
unfoldable pub finish_connect : Environment → Event → Option (List Action)
finish_connect env e = pointer_at e.storage >>= λ p. some (
    if p == 0
    then bare 5 0 e.token ∷ []
    else if env.is_connecting p
    then offer_channel env p
        (record { kind = 5; source_id = env.new_id; token = e.token; buffer = none; size = 0 })
    else Action.releases_connection p ∷ bare 5 0 e.token ∷ [])

-- `DEF_EVENT_DNS`, which does not look at `DEF_EVENT_MOVEBUF`.
unfoldable pub pass_dns : ℕ → Event → List Action
pass_dns n e =
    if n == 0
    then bare 6 e.source_id e.token ∷ []
    else Action.delivers (record {
      kind = 6;
      source_id = e.source_id;
      token = e.token;
      buffer = some e.storage;
      size = n;
    })
      ∷ []

-- `DEF_EVENT_SERVICE_STOP`.
unfoldable pub stop_actions : StopFields → List Action
stop_actions s =
    (if s.has_user_data && s.has_stop then Action.calls_stop ∷ [] else [])
    ++ ((if s.service_id == 0 then [] else Action.deregisters s.service_id ∷ [])
        ++ (if s.has_watcher then Action.closes_watcher ∷ [] else []))

-- The cases other than that of service_stop, for a word with the byte `event` above the length.
unfoldable pub other_actions : Environment → ℕ → ℕ → Event → Option (List Action)
other_actions env event n e =
    let type = bit_and event 0x0f in
    let is_moved = not (bit_and event 0x80 == 0) in
    if type == 10
    then pass_message env (bit_and event 0x70) is_moved n e
    else if type == 8 || type == 9
    then run_timer env type e
    else if type == 7
    then some (bare type e.source_id e.token ∷ [])
    else if type == 4
    then accept_connection env n e
    else if type == 5
    then finish_connect env e
    else if type == 6
    then some (pass_dns n e)
    else if type == 1
    then pass_buffer env type is_moved n e
    else if type == 3 || type == 2
    then some (bare type e.source_id e.token ∷ [])
    else if type == 11
    then pass_buffer env type is_moved n e
    else some []

unfoldable pub callback_parts :
    Environment → StopFields → ℕ → ℕ → Event → Option (Bool × List Action)
callback_parts env s event n e =
    if bit_and event 0x0f == 0
    then some (false, stop_actions s)
    else other_actions env event n e >>= λ actions. some (true, actions)

-- `service_eventCallback`.
unfoldable pub event_callback : Environment → StopFields → Event → Option (Bool × List Action)
event_callback env s e =
    callback_parts env s (e.length_and_type / 2 ^ 24) (e.length_and_type % 2 ^ 24) e

-- `service_send` of `payload`; the flag is shifted in 32 bits.
unfoldable pub send : EventQueue → ℕ → List ℕ → ℕ → ℕ → Option (Bool × EventQueue)
send q source payload flag token =
    assert (leb (length payload) 0xffffff)
    >> some (
        enqueue q (record {
          source_id = source;
          token = token;
          length_and_type = bit_or (length payload) (flag * 2 ^ 24 % 2 ^ 32);
          storage = payload;
        }))

-- `service_sendMove` of the `n` bytes at `p`: the last part is what is freed at once.
unfoldable pub send_move :
    EventQueue → ℕ → Handle → ℕ → ℕ → ℕ → Option (Bool × EventQueue × List Handle)
send_move q source p n flag token =
    assert (leb n 0xffffff)
    >> (let (sent, after) = enqueue q (record {
      source_id = source;
      token = token;
      length_and_type = bit_or n (bit_or 0x80 flag * 2 ^ 24 % 2 ^ 32);
      storage = p ∷ [];
    }) in
        some (sent, after, if sent then [] else p ∷ []))
