-- ===== src/Service/Callback/Received.antt =====
-- From the write function of one side to the callback of the other.
use frog_game_framework.Base.{
  ℕ, ◌+◌, ◌*◌, ◌/◌, ◌%◌, ◌^◌, ◌≡◌, ◌<◌, refl, Bool, true, List, [], ◌∷◌, ◌++◌, flatten, Option,
  none, some, ltb, if◌then◌else◌, length, All, IsByte, arith, Gives, Gives_map,
}
use frog_game_framework.ByteQueue.{ByteQueue}
use frog_game_framework.ByteQueue.View.{IsValid, contents}
use frog_game_framework.Memory.{Memory}
use frog_game_framework.Service.Callback.{
  Environment, Action, StopFields, pass_buffer, pass_message, other_actions, callback_parts,
  event_callback,
}
use frog_game_framework.Streams.{Event, EventQueue}
use frog_game_framework.Streams.Loop.{enqueue_all}
use frog_game_framework.Streams.TpackStream.{receive, write}
use frog_game_framework.Streams.TpackStream.Send.{message_of, receive-write}

pub data MessageKind : Type 0 where
  text sent close pong ping call reply : MessageKind

abbrev pub number : MessageKind → ℕ
number MessageKind.text = 1
number MessageKind.sent = 2
number MessageKind.close = 3
number MessageKind.pong = 4
number MessageKind.ping = 5
number MessageKind.call = 6
number MessageKind.reply = 7

-- What the callback sees of the payload: nothing of that of close, pong and ping.
abbrev pub shown : MessageKind → List ℕ → Option (List ℕ)
shown MessageKind.close payload = none
shown MessageKind.pong payload = none
shown MessageKind.ping payload = none
shown _ payload = some payload

abbrev pub shown_size : Option (List ℕ) → ℕ
shown_size none = 0
shown_size (some payload) = length payload

abbrev pub arrives : ℕ → MessageKind → ℕ → List ℕ → Action
arrives source k token payload = Action.delivers (record {
  kind = number k * 16 + 10;
  source_id = source;
  token = if ltb 2 (number k) then token else 0;
  buffer = shown k payload;
  size = shown_size (shown k payload);
})

number_range : (k : MessageKind) → (0 < number k) × (number k < 8)
number_range MessageKind.text = omega arith
number_range MessageKind.sent = omega arith
number_range MessageKind.close = omega arith
number_range MessageKind.pong = omega arith
number_range MessageKind.ping = omega arith
number_range MessageKind.call = omega arith
number_range MessageKind.reply = omega arith

module _ (env : Environment) (f : StopFields) (source token : ℕ) (payload : List ℕ) where
  parts_arrive :
      (k : MessageKind)
      → callback_parts env f
          (number k * 16 + 10)
          (length payload)
          (message_of source (number k) token payload)
        ≡ some (true, arrives source k token payload ∷ [])
  unfolding callback_parts other_actions pass_message pass_buffer
  parts_arrive MessageKind.text = refl
  parts_arrive MessageKind.sent = refl
  parts_arrive MessageKind.close = refl
  parts_arrive MessageKind.pong = refl
  parts_arrive MessageKind.ping = refl
  parts_arrive MessageKind.call = refl
  parts_arrive MessageKind.reply = refl

  message_arrives :
      (k : MessageKind)
      → length payload < 0xffff
      → event_callback env f (message_of source (number k) token payload)
        ≡ some (true, arrives source k token payload ∷ [])
  unfolding event_callback
  message_arrives k small =
      let word = length payload + (number k * 16 + 10) * 2 ^ 24 in
      let type : word / 2 ^ 24 ≡ number k * 16 + 10 = omega (arith, small) in
      let size : word % 2 ^ 24 ≡ length payload = omega (arith, small) in
      rw (type, size) (parts_arrive k)

  -- What a service has after it has received a message: the event, for which the callback is called
  -- once.
  abbrev pub Arrived : MessageKind → EventQueue → Bool × EventQueue × ByteQueue → Type 0
  Arrived k s r =
      (later : List Event) × (r.1
        ≡ enqueue_all s (message_of source (number k) token payload ∷ later))
      × (event_callback env f (message_of source (number k) token payload)
          ≡ some (true, arrives source k token payload ∷ []))

  -- For each of the seven kinds of messages, tokens of 32 bits and payloads below 0xffff bytes: from
  -- a valid queue that starts with what tpackStream_write sent, a service that runs gets an event
  -- first for which service_eventCallback calls the callback once, with the kind, the token of a
  -- kind that has one, and the payload and its length; close, pong and ping have none.
  pub write-Arrived :
      (memory : Memory) (k : MessageKind) (rest : List ℕ)
      → token < 2 ^ 32
      → length payload < 0xffff
      → (s : EventQueue) (q : ByteQueue) (blocks : List (List ℕ))
      → write memory payload (number k * 16) token ≡ some blocks
      → s.is_running ≡ true
      → IsValid q
      → All IsByte (contents q)
      → contents q ≡ flatten blocks ++ rest
      → Gives (receive source s q) (Arrived k s)
  write-Arrived memory k rest hw small s q blocks given run v w e =
      Gives_map (receive source s q)
        (receive-write memory payload rest (number k) token (number_range k).0 (number_range k).1 hw
          small source s q blocks given run v w e)
        (λ r d. (d.later, d.delivered, message_arrives k small))
