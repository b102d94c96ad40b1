-- ===== src/Streams/TpackStream/Receive.antt =====
-- What `receive` of the tpack stream makes of the readable bytes.
use frog_game_framework.Base.{
  ℕ, ◌+◌, ◌-◌, ◌*◌, ◌^◌, ◌≡◌, ◌<◌, refl, sym, ap, subst, ◌∙◌, true, false, Bool-cases, List, [],
  ◌∷◌, Option, none, some, ◌>>=◌, ltb, if◌then◌else◌, length, length-drop, All, All-drop, IsByte,
  arith, inl, inr, Gives, Gives_bind, Gives_map,
}
use frog_game_framework.ByteQueue.{ByteQueue, get_bytes_readable}
use frog_game_framework.ByteQueue.Space.{get_bytes_readable-holds}
use frog_game_framework.ByteQueue.View.{Holds, IsValid, contents, IsValid-holds}
use frog_game_framework.Streams.Loop.{
  Next, Does, Receives, Shrinks, hand_over-Does, receive_loop-Receives,
}
use frog_game_framework.Streams.TpackStream.{
  is_message, message_event, take_message, receive_round, receive,
}
use frog_game_framework.Streams.{Event, EventQueue, Round, hand_over, take_raw}
use frog_game_framework.Streams.Raw.{raw_of, take_raw_lem}
use frog_game_framework.Streams.EventType.{
  event_word, message_type, message_type_lem, whole_message,
}
use frog_game_framework.Tpack.Decode.{holds_answer, continue, Answers}
use frog_game_framework.Tpack.DecodeHead.{decode_head_lem}
use frog_game_framework.Tpack.HeadParse.{FrameHead, Agree, short, bad, both, head_of-parse}
use frog_game_framework.Tpack.Wire.{Parsed, parse}
use frog_game_framework.Tpack.{
  Head, HeadResult, Packet, DecodeResult, take_token, take_payload, take_packet,
}

-- The event that a packet at the front of `xs` is passed on as: a final packet of a kind other than
-- 0 with its payload and token, any other one with all its bytes.
abbrev pub packet_event : ℕ → List ℕ → Packet → List ℕ → Event
packet_event source xs p rest =
    if ltb 128 p.flag
    then record {
      source_id = source;
      token = p.token;
      length_and_type = length p.payload + message_type p.flag * 2 ^ 24;
      storage = p.payload;
    }
    else raw_of source (length xs - length rest) xs

-- The first event of the bytes.
abbrev pub next_of : ℕ → List ℕ → Parsed → Next
next_of source xs Parsed.incomplete = Next.wait
next_of source xs Parsed.invalid = Next.broken
next_of source xs (Parsed.frame p rest) = Next.deliver (packet_event source xs p rest) rest

abbrev pub next : ℕ → List ℕ → Next
next source xs = next_of source xs (parse xs)

-- The event of a message is that of the packet which `take_packet` reads.
abbrev event_of : ℕ → Head → DecodeResult × ByteQueue → Option (Event × ByteQueue)
event_of source head (DecodeResult.packet p, q) =
    some (message_event source head p.token p.payload, q)
event_of source head _ = none

module _ (source : ℕ) (head : Head) where
  by_payload :
      (token : ℕ) (m : Option (List ℕ × ByteQueue))
      → (m >>= λ u. some (message_event source head token u.0, u.1)) ≡ (
          m
          >>= (λ u. some (
            DecodeResult.packet (record { payload = u.0; flag = head.flag; token = token }),
            u.1,
          ))
          >>= event_of source head)
  by_payload token none = refl
  by_payload token (some u) = refl

  by_token :
      (m : Option (ℕ × ByteQueue))
      → (m >>= λ t.
          take_payload t.1 head.payload_len >>= λ u. some (message_event source head t.0 u.0, u.1))
        ≡ (m
            >>= (λ t. take_payload t.1 head.payload_len >>= λ u. some (
              DecodeResult.packet (record { payload = u.0; flag = head.flag; token = t.0 }),
              u.1,
            ))
            >>= event_of source head)
  by_token none = refl
  by_token (some t) = by_payload t.0 (take_payload t.1 head.payload_len)

  take_message_lem :
      (q : ByteQueue) → take_message source q head ≡ (take_packet q head >>= event_of source head)
  unfolding take_message take_packet
  take_message_lem q = by_token (take_token q head.offset)

module _ (source : ℕ) {q : ByteQueue} (xs : List ℕ) (h : Holds q xs) (w : All IsByte xs)
    (head : Head) (p : Packet) (rest : List ℕ) (f : FrameHead xs head p rest) where
  message :
      Gives (take_packet q head) (Answers (Parsed.frame p rest) xs)
      → Gives
          (take_message source q head)
          (λ r. (r.0 ≡ message_event source head p.token p.payload) × Holds r.1 rest)
  message g =
      rw (take_message_lem source head q)
        (Gives_bind (take_packet q head) (event_of source head) _ g (λ r a. rw a.0 (refl, a.1)))

  raw :
      Gives
        (take_raw source q (head.offset + head.payload_len))
        (λ r. (r.0 ≡ raw_of source (length xs - length rest) xs) × Holds r.1 rest)
  raw =
      let n : length xs - length rest ≡ head.offset + head.payload_len =
        omega
          (arith, f.room, ap length f.behind, length-drop (head.offset + head.payload_len) xs) in
      rw n (
        Gives_map (take_raw source q (head.offset + head.payload_len))
          (take_raw_lem source (head.offset + head.payload_len) h f.room
            (omega (arith, f.size, f.small, f.head_small)))
          (λ r t. (t.0, subst (Holds r.1) (sym f.behind) t.1)))

  -- The event of a complete frame.
  event :
      Gives (take_packet q head) (Answers (Parsed.frame p rest) xs)
      → Gives
          (if is_message head.flag
            then take_message source q head
            else take_raw source q (head.offset + head.payload_len))
          (λ r. (r.0 ≡ packet_event source xs p rest) × Holds r.1 rest)
  event g = elim (Bool-cases (ltb 128 p.flag)) [
    | inl whole ↦
        rw (ap is_message f.flag ∙ whole_message p.flag f.byte ∙ whole, whole)
          (Gives_map (take_message source q head) (message g) (λ r t. (t.0 ∙ same, t.1)))
    | inr part ↦ rw (ap is_message f.flag ∙ whole_message p.flag f.byte ∙ part, part) raw
  ]
    where
      same : message_event source head p.token p.payload ≡ record {
        source_id = source;
        token = p.token;
        length_and_type = length p.payload + message_type p.flag * 2 ^ 24;
        storage = p.payload;
      }
      same =
          rw
            (
              f.flag,
              f.size,
              message_type_lem p.flag f.byte,
              event_word (length p.payload) (message_type p.flag) (omega (arith, f.small)),
            )
            refl

-- What a round does with the result of `decode_head`.
module _ (source : ℕ) (s : EventQueue) (q : ByteQueue) (xs : List ℕ) (h : Holds q xs)
    (w : All IsByte xs) where
  abbrev after_head : HeadResult → Option Round
  after_head r = elim r [
    | HeadResult.incomplete ↦ some (Round.returns true s q)
    | HeadResult.invalid ↦ some (Round.returns false s q)
    | HeadResult.decoded head ↦
        (if is_message head.flag
          then take_message source q head
          else take_raw source q (head.offset + head.payload_len))
        >>= λ x. some (hand_over s x.0 x.1)
  ]

  by_head :
      {r : HeadResult} {m : Parsed}
      → Agree xs r m
      → Gives (continue q r) (Answers m xs)
      → Gives (after_head r) (Does (next_of source xs m) s q)
  by_head short g = refl
  by_head bad g = refl
  by_head (both {head} {p} {rest} f) g =
      Gives_bind
        (if is_message head.flag
          then take_message source q head
          else take_raw source q (head.offset + head.payload_len))
        _ _ (event source xs h w head p rest f g)
        (λ r t. rw t.0 (hand_over-Does s q (packet_event source xs p rest) r.1 rest t.1))

  round_fits : Gives (receive_round source s q) (Does (next source xs) s q)
  unfolding receive_round
  round_fits = rw (decode_head_lem xs h w) (by_head (head_of-parse xs w) (holds_answer xs h w))

Agree-Shrinks :
    (source : ℕ) (xs : List ℕ) {r : HeadResult} {m : Parsed}
    → Agree xs r m
    → All IsByte xs
    → Shrinks xs (next_of source xs m)
Agree-Shrinks source xs short w = tt
Agree-Shrinks source xs bad w = tt
Agree-Shrinks source xs (both {head} f) w = (
  subst (All IsByte) (sym f.behind) (All-drop IsByte (head.offset + head.payload_len) xs w),
  omega (
    arith,
    f.started,
    f.room,
    ap length f.behind,
    length-drop (head.offset + head.payload_len) xs,
  ),
)

short_waits : (source : ℕ) (xs : List ℕ) → length xs < 2 → next source xs ≡ Next.wait
short_waits source [] h = refl
short_waits source (x ∷ []) h = refl
short_waits source (x ∷ y ∷ xs) h = absurd (omega arith)

-- On a valid queue of bytes `receive` returns and never faults. It hands the packets of the wire
-- format over in their order, final ones of a kind other than 0 with their payload and token and
-- all others as they are; it answers true and leaves the bytes of an incomplete packet, answers
-- false at bytes that are no packet, and false after the first packet where the service has
-- stopped.
pub receive-Receives :
    (source : ℕ) (s : EventQueue) (q : ByteQueue)
    → IsValid q
    → All IsByte (contents q)
    → Gives (receive source s q) (Receives (next source) s (contents q))
unfolding receive
receive-Receives source s q v w =
    let h = IsValid-holds v in
    receive_loop-Receives (next source) (receive_round source) (round_fits source)
      (λ xs b. Agree-Shrinks source xs (head_of-parse xs b) b) (short_waits source)
      (get_bytes_readable q + 1) s q (contents q) (omega (arith, get_bytes_readable-holds h)) h w
