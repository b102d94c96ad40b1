-- ===== src/Service/Callback/Once.antt =====
-- What holds of every event: the callback is called at most once, and the answer is that of the
-- event loop.
use frog_game_framework.Base.{
  ℕ, ◌/◌, ◌%◌, ◌^◌, ◌≡◌, ◌≤◌, refl, ◌==◌, if◌then◌else◌, Bool, true, false, ◌&&◌, ◌||◌, not, List,
  [], ◌∷◌, ◌++◌, Option, some, total, bit_and, bit_or, arith, Gives, Gives_bind, Bool-cases, inl,
  inr,
}
use frog_game_framework.HandleTable.{Handle}
use frog_game_framework.Streams.{Event}
use frog_game_framework.Service.{event_answer}
use frog_game_framework.Service.Callback.{
  Delivery, Environment, Action, StopFields, pass_buffer, pass_message, run_timer, offer_channel,
  accept_connection, finish_connect, pass_dns, stop_actions, other_actions, callback_parts,
  event_callback,
}

-- The calls of the callback, the buffers that are freed, and the objects that come from other
-- components and are given on or released.
abbrev pub calls : Action → ℕ
calls (Action.delivers d) = 1
calls _ = 0

abbrev pub buffers : Action → ℕ
buffers (Action.frees p) = 1
buffers _ = 0

abbrev pub taken : Action → ℕ
taken (Action.releases_timer p) = 1
taken (Action.creates_channel p) = 1
taken (Action.releases_connection p) = 1
taken _ = 0

abbrev pub IsOnce : List Action → Type 0
IsOnce xs = (total calls xs ≤ 1) × ((total buffers xs ≤ total calls xs) × (total taken xs ≤ 1))

Gives_if :
    (b : Bool) (m n : Option (List Action))
    → Gives m IsOnce
    → Gives n IsOnce
    → Gives (if b then m else n) IsOnce
Gives_if true m n g h = g
Gives_if false m n g h = h

either :
    (P : List Action → Type 0) (b : Bool) (xs ys : List Action)
    → P xs
    → P ys
    → P (if b then xs else ys)
either P true xs ys x y = x
either P false xs ys x y = y

stop_actions-IsOnce : (s : StopFields) → IsOnce (stop_actions s)
unfolding stop_actions total
stop_actions-IsOnce s =
    let b : List Action = if s.service_id == 0 then [] else Action.deregisters s.service_id ∷ [] in
    let c : List Action = if s.has_watcher then Action.closes_watcher ∷ [] else [] in
    let small_c : IsOnce c = either IsOnce s.has_watcher _ _ (omega arith) (omega arith) in
    let small_b : IsOnce (b ++ c) =
      either (λ xs. IsOnce (xs ++ c)) (s.service_id == 0) _ _ small_c (omega (arith, small_c)) in
    either (λ xs. IsOnce (xs ++ (b ++ c))) (s.has_user_data && s.has_stop) _ _
      (omega (arith, small_b)) small_b

module _ (env : Environment) (e : Event) (p : Handle) (bytes : List ℕ)
    (h : e.storage ≡ p ∷ bytes) where
  pass_buffer-IsOnce :
      (kind : ℕ) (is_moved : Bool) (n : ℕ) → Gives (pass_buffer env kind is_moved n e) IsOnce
  unfolding pass_buffer total
  pass_buffer-IsOnce kind is_moved n = rw h (Gives_if is_moved _ _ (omega arith) (omega arith))

  pass_message-IsOnce :
      (kind : ℕ) (is_moved : Bool) (n : ℕ) → Gives (pass_message env kind is_moved n e) IsOnce
  unfolding pass_message total
  pass_message-IsOnce kind is_moved n =
      Gives_if (kind == 0x70 || kind == 0x60 || kind == 0x20 || kind == 0x10) _ _
        (pass_buffer-IsOnce (bit_or kind 10) is_moved n)
        (Gives_if (kind == 0x50 || kind == 0x40 || kind == 0x30) _ _ (omega arith) (omega arith))

  run_timer-IsOnce : (kind : ℕ) → Gives (run_timer env kind e) IsOnce
  unfolding run_timer total
  run_timer-IsOnce kind = rw h (
      either (λ xs. IsOnce (xs ++ (Action.releases_timer p ∷ []))) (env.timer_is_running p) _ _
        (omega arith) (omega arith))

  offer_channel-IsOnce : (d : Delivery) → IsOnce (offer_channel env p d)
  unfolding offer_channel total
  offer_channel-IsOnce d =
      either (λ xs. IsOnce (Action.creates_channel p ∷ Action.delivers d ∷ xs)) (env.answers d) _ _
        (omega arith) (omega arith)

  accept_connection-IsOnce : (n : ℕ) → Gives (accept_connection env n e) IsOnce
  unfolding accept_connection total
  accept_connection-IsOnce n =
      rw h (either IsOnce (p == 0) _ _ (omega arith) (offer_channel-IsOnce _))

  finish_connect-IsOnce : Gives (finish_connect env e) IsOnce
  unfolding finish_connect total
  finish_connect-IsOnce = rw h (
      either IsOnce (p == 0) _ _ (omega arith)
        (either IsOnce (env.is_connecting p) _ _ (offer_channel-IsOnce _) (omega arith)))

  pass_dns-IsOnce : (n : ℕ) → IsOnce (pass_dns n e)
  unfolding pass_dns total
  pass_dns-IsOnce n = either IsOnce (n == 0) _ _ (omega arith) (omega arith)

  other_actions-IsOnce : (event n : ℕ) → Gives (other_actions env event n e) IsOnce
  unfolding other_actions total
  other_actions-IsOnce event n =
      let type = bit_and event 0x0f in
      let is_moved = not (bit_and event 0x80 == 0) in
      Gives_if (type == 10) _ _ (pass_message-IsOnce (bit_and event 0x70) is_moved n) (
        Gives_if (type == 8 || type == 9) _ _ (run_timer-IsOnce type) (
          Gives_if (type == 7) _ _ (omega arith) (
            Gives_if (type == 4) _ _ (accept_connection-IsOnce n) (
              Gives_if (type == 5) _ _ finish_connect-IsOnce (
                Gives_if (type == 6) _ _ (pass_dns-IsOnce n) (
                  Gives_if (type == 1) _ _ (pass_buffer-IsOnce type is_moved n) (
                    Gives_if (type == 3 || type == 2) _ _ (omega arith) (
                      Gives_if (type == 11) _ _ (pass_buffer-IsOnce type is_moved n)
                        (omega arith)))))))))

  -- For every event with a pointer to read in its storage, service_eventCallback never faults and
  -- answers what the event loop goes by, false for the event of service_stop only. It calls the
  -- callback at most once, frees no more buffers than it has delivered, and gives on or releases at
  -- most one timer or connection.
  pub event_callback-IsOnce :
      (s : StopFields) → Gives (event_callback env s e) (λ r. (r.0 ≡ event_answer e) × IsOnce r.1)
  unfolding event_callback callback_parts
  event_callback-IsOnce s =
      let event = e.length_and_type / 2 ^ 24 in
      let n = e.length_and_type % 2 ^ 24 in
      elim (Bool-cases (bit_and event 0x0f == 0)) [
        | inl stop ↦ rw stop (refl, stop_actions-IsOnce s)
        | inr other ↦ rw other (
            Gives_bind (other_actions env event n e) (λ actions. some (true, actions)) _
              (other_actions-IsOnce event n) (λ actions once. (refl, once)))
      ]
