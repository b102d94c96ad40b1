-- ===== src/Service/Callback/Delivered.antt =====
-- What is sent to a service reaches its callback.
use frog_game_framework.Base.{
  ℕ, ◌+◌, ◌*◌, ◌%◌, ◌^◌, ◌≡◌, ◌≤◌, ◌<◌, ◌⊎◌, inl, inr, Bool-cases, Gives, refl, ap, le→leb,
  if◌then◌else◌, Bool, true, false, List, [], ◌∷◌, ◌++◌, some, length, bit_or, arith,
}
use frog_game_framework.HandleTable.{Handle}
use frog_game_framework.Streams.{Event, EventQueue, enqueue}
use frog_game_framework.Service.Callback.{
  Environment, Action, StopFields, pass_message, other_actions, callback_parts, event_callback,
  send, send_move, bare,
}
use frog_game_framework.Service.Callback.Kinds.{
  DataKind, flag_of, flag_small, moved_flag, word_parts, delivery, passes, passes_moved,
}

-- What a call that puts an event in the queue `q` leaves: the event at the end, with these actions.
pub record Queued (q after : EventQueue) (env : Environment) (s : StopFields)
    (actions : List Action) : Type 0 where
  pub event : Event
  pub pending : after.pending ≡ q.pending ++ (event ∷ [])
  pub handled : event_callback env s event ≡ some (true, actions)

module _ (env : Environment) (s : StopFields) (q : EventQueue) (source token : ℕ) where
  -- `send` is refused by a service that does not run, and else delivers the payload.
  abbrev pub Sends : DataKind → List ℕ → Bool × EventQueue → Type 0
  Sends k payload r =
      ((q.is_running ≡ false) × (r ≡ (false, q)))
      ⊎ ((r.0 ≡ true)
          × Queued q r.1 env s
              (Action.delivers (delivery k source token (some payload) (length payload)) ∷ []))

  -- The buffer is freed at once where `send_move` is refused, and else after it was delivered.
  abbrev pub Moves : DataKind → Handle → ℕ → Bool × EventQueue × List Handle → Type 0
  Moves k p n r =
      ((q.is_running ≡ false) × (r ≡ (false, q, p ∷ [])))
      ⊎ ((r.0 ≡ true)
          × ((r.2 ≡ [])
              × Queued q r.1 env s (
                  Action.delivers (delivery k source token (env.buffers p) n)
                  ∷ Action.frees p
                  ∷ [])))

  in_queue :
      (actions : List Action) (e : Event)
      → event_callback env s e ≡ some (true, actions)
      → ((q.is_running ≡ false) × (enqueue q e ≡ (false, q)))
        ⊎ ((after : EventQueue) × (enqueue q e ≡ (true, after)) × Queued q after env s actions)
  unfolding enqueue
  in_queue actions e h =
      let after : EventQueue = record q {
        queue_size = (q.queue_size + 1) % 2 ^ 32;
        pending = q.pending ++ (e ∷ []);
      } in
      elim (Bool-cases q.is_running) [
        | inl on ↦ inr (
          after,
          ap (λ b. if b then (true, after) else (false, q)) on,
          record { event = e; pending = refl; handled = h },
        )
        | inr off ↦ inl (off, ap (λ b. if b then (true, after) else (false, q)) off)
      ]

  -- For each kind of event that carries bytes, and at most 0xffffff bytes, service_send never fails
  -- its assertion: a service that does not run refuses the event, and one that runs gets it at the
  -- end of its queue, from where service_eventCallback passes the bytes, their number, the kind, the
  -- source and the token to the callback.
  pub send-Sends :
      (k : DataKind) (payload : List ℕ)
      → length payload ≤ 0xffffff
      → Gives (send q source payload (flag_of k) token) (Sends k payload)
  unfolding send enqueue event_callback
  send-Sends k payload h =
      let (kind, size) =
        word_parts (length payload) (flag_of k) (omega arith) (omega (arith, flag_small k)) in
      let e : Event = record {
        source_id = source;
        token = token;
        length_and_type = bit_or (length payload) (flag_of k * 2 ^ 24 % 2 ^ 32);
        storage = payload;
      } in
      rw (le→leb _ _ h)
        (elim (in_queue
          (Action.delivers (delivery k source token (some payload) (length payload)) ∷ []) e
          (rw (kind, size) (passes env s (length payload) e k))) [
            | inl (off, same) ↦ inl (off, same)
            | inr (after, same, queued) ↦ rw same (inr (refl, queued))
          ])

  -- For the same kinds and lengths, service_sendMove never fails its assertion, and the buffer is
  -- freed exactly once: at once where the service does not run, and else by service_eventCallback,
  -- after the callback has got it.
  pub send_move-Moves :
      (k : DataKind) (p : Handle) (n : ℕ)
      → n ≤ 0xffffff
      → Gives (send_move q source p n (flag_of k) token) (Moves k p n)
  unfolding send_move event_callback
  send_move-Moves k p n h =
      let (kind, size) =
        word_parts n (bit_or 0x80 (flag_of k)) (omega arith)
          (omega (arith, flag_small k, moved_flag k)) in
      let e : Event = record {
        source_id = source;
        token = token;
        length_and_type = bit_or n (bit_or 0x80 (flag_of k) * 2 ^ 24 % 2 ^ 32);
        storage = p ∷ [];
      } in
      rw (le→leb _ _ h)
        (elim (in_queue
          (Action.delivers (delivery k source token (env.buffers p) n) ∷ Action.frees p ∷ []) e
          (rw (kind, size) (passes_moved env s n e p k refl))) [
            | inl (off, same) ↦ rw same (inl (off, refl))
            | inr (after, same, queued) ↦ rw same (inr (refl, (refl, queued)))
          ])

  -- The kinds of messages that pass no buffer to the callback.
  control_actions :
      (kind n : ℕ) (e : Event)
      → (kind ≡ 0x5a) ⊎ ((kind ≡ 0x4a) ⊎ (kind ≡ 0x3a))
      → callback_parts env s (bit_or 0x80 kind) n e
        ≡ some (true, bare kind e.source_id e.token ∷ [])
  unfolding callback_parts other_actions pass_message
  control_actions kind n e (inl ping) = rw ping refl
  control_actions kind n e (inr (inl pong)) = rw pong refl
  control_actions kind n e (inr (inr close)) = rw close refl

  control_small :
      (kind : ℕ) → (kind ≡ 0x5a) ⊎ ((kind ≡ 0x4a) ⊎ (kind ≡ 0x3a)) → bit_or 0x80 kind < 256
  control_small kind (inl ping) = rw ping (omega arith)
  control_small kind (inr (inl pong)) = rw pong (omega arith)
  control_small kind (inr (inr close)) = rw close (omega arith)

  -- For the messages ping, pong and close, service_sendMove of at most 0xffffff bytes to a service
  -- that runs leaves an event at the end of the queue for which service_eventCallback calls the
  -- callback without a buffer and does nothing else: the buffer is not freed, now or then.
  pub send_move_leak :
      (kind : ℕ) (p : Handle) (n : ℕ)
      → (kind ≡ 0x5a) ⊎ ((kind ≡ 0x4a) ⊎ (kind ≡ 0x3a))
      → n ≤ 0xffffff
      → q.is_running ≡ true
      → Gives
          (send_move q source p n kind token)
          (λ r. (r.2 ≡ []) × Queued q r.1 env s (bare kind source token ∷ []))
  unfolding send_move event_callback
  send_move_leak kind p n control h on =
      let (type, size) =
        word_parts n (bit_or 0x80 kind) (omega arith) (control_small kind control) in
      let e : Event = record {
        source_id = source;
        token = token;
        length_and_type = bit_or n (bit_or 0x80 kind * 2 ^ 24 % 2 ^ 32);
        storage = p ∷ [];
      } in
      rw (le→leb _ _ h)
        (elim (in_queue (bare kind source token ∷ []) e
          (rw (type, size) (control_actions kind n e control))) [
            | inl (off, same) ↦ cc
            | inr (after, same, queued) ↦ rw same (refl, queued)
          ])
