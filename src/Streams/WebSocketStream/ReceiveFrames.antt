-- ===== src/Streams/WebSocketStream/ReceiveFrames.antt =====
-- What `receive` of the web socket stream makes of the readable bytes.
use frog_game_framework.Base.{
  ℕ, ◌+◌, ◌-◌, ◌*◌, ◌^◌, ◌≡◌, ◌<◌, refl, sym, ap, subst, ◌∙◌, true, false, Bool-cases, List, [],
  ◌∷◌, Option, none, some, ◌>>=◌, ltb, if◌then◌else◌, length, length-drop, All, All-drop, IsByte,
  arith, inl, inr, Gives, Gives_bind, Gives_map,
}
use frog_game_framework.ByteQueue.{ByteQueue, get_bytes_readable}
use frog_game_framework.ByteQueue.Space.{get_bytes_readable-holds}
use frog_game_framework.ByteQueue.View.{Holds, IsValid, contents, IsValid-holds}
use frog_game_framework.Streams.Loop.{
  Next, Does, Receives, Shrinks, hand_over-Does, receive_loop-Receives,
}
use frog_game_framework.Streams.WebSocketStream.{
  is_message, message_event, take_message, receive_round, receive,
}
use frog_game_framework.Streams.{Event, EventQueue, Round, hand_over, take_raw}
use frog_game_framework.Streams.Raw.{raw_of, take_raw_lem}
use frog_game_framework.Streams.EventType.{
  event_word, message_type, message_type_lem, whole_message,
}
use frog_game_framework.WebSocket.Decode.{holds_answer, continue, Answers}
use frog_game_framework.WebSocket.DecodeHead.{decode_head_lem}
use frog_game_framework.WebSocket.HeadParse.{FrameHead, Agree, short, bad, both, head_of-parse}
use frog_game_framework.WebSocket.Wire.{Parsed, parse}
use frog_game_framework.WebSocket.{
  Head, HeadResult, Frame, DecodeResult, take_mask, take_payload, take_frame,
}

-- The event that a frame at the front of `xs` is passed on as: a final frame of a kind other than
-- 0 with its payload, without the mask; any other one with all its bytes.
abbrev pub frame_event : ℕ → List ℕ → Frame → List ℕ → Event
frame_event source xs p rest =
    if ltb 128 p.flag
    then record {
      source_id = source;
      token = 0;
      length_and_type = length p.payload + message_type p.flag * 2 ^ 24;
      storage = p.payload;
    }
    else raw_of source (length xs - length rest) xs

-- The first event of the bytes.
abbrev pub next_of : ℕ → List ℕ → Parsed → Next
next_of source xs Parsed.incomplete = Next.wait
next_of source xs Parsed.invalid = Next.broken
next_of source xs (Parsed.frame p rest) = Next.deliver (frame_event source xs p rest) rest

abbrev pub next : ℕ → List ℕ → Next
next source xs = next_of source xs (parse xs)

-- The event of a message is that of the frame which `take_frame` reads.
abbrev event_of : ℕ → Head → DecodeResult × ByteQueue → Option (Event × ByteQueue)
event_of source head (DecodeResult.frame p, q) = some (message_event source head p.payload, q)
event_of source head _ = none

module _ (source : ℕ) (head : Head) where
  by_payload :
      (m : Option (List ℕ × ByteQueue))
      → (m >>= λ u. some (message_event source head u.0, u.1)) ≡ (
          m
          >>= (λ u. some (DecodeResult.frame (record { payload = u.0; flag = head.flag }), u.1))
          >>= event_of source head)
  by_payload none = refl
  by_payload (some u) = refl

  by_mask :
      (m : Option (List ℕ × ByteQueue))
      → (m >>= λ t. take_payload t.1 head.payload_len head.offset t.0 >>= λ u.
          some (message_event source head u.0, u.1))
        ≡ (m
            >>= (λ t. take_payload t.1 head.payload_len head.offset t.0 >>= λ u.
                some (DecodeResult.frame (record { payload = u.0; flag = head.flag }), u.1))
            >>= event_of source head)
  by_mask none = refl
  by_mask (some t) = by_payload (take_payload t.1 head.payload_len head.offset t.0)

  take_message_lem :
      (q : ByteQueue) → take_message source q head ≡ (take_frame q head >>= event_of source head)
  unfolding take_message take_frame
  take_message_lem q = by_mask (take_mask q head.offset)

module _ (source : ℕ) {q : ByteQueue} (xs : List ℕ) (h : Holds q xs) (w : All IsByte xs)
    (head : Head) (p : Frame) (rest : List ℕ) (f : FrameHead xs head p rest) where
  message :
      Gives (take_frame q head) (Answers (Parsed.frame p rest) xs)
      → Gives
          (take_message source q head)
          (λ r. (r.0 ≡ message_event source head p.payload) × Holds r.1 rest)
  message g =
      rw (take_message_lem source head q)
        (Gives_bind (take_frame q head) (event_of source head) _ g (λ r a. rw a.0 (refl, a.1)))

  raw :
      Gives
        (take_raw source q (head.offset + head.payload_len))
        (λ r. (r.0 ≡ raw_of source (length xs - length rest) xs) × Holds r.1 rest)
  raw =
      let n : length xs - length rest ≡ head.offset + head.payload_len =
        omega
          (arith, f.room, ap length f.behind, length-drop (head.offset + head.payload_len) xs) in
      rw n (
        Gives_map (take_raw source q (head.offset + head.payload_len))
          (take_raw_lem source (head.offset + head.payload_len) h f.room
            (omega (arith, f.size, f.small, f.head_small)))
          (λ r t. (t.0, subst (Holds r.1) (sym f.behind) t.1)))

  -- The event of a complete frame.
  event :
      Gives (take_frame q head) (Answers (Parsed.frame p rest) xs)
      → Gives
          (if is_message head.flag
            then take_message source q head
            else take_raw source q (head.offset + head.payload_len))
          (λ r. (r.0 ≡ frame_event source xs p rest) × Holds r.1 rest)
  event g = elim (Bool-cases (ltb 128 p.flag)) [
    | inl whole ↦
        rw (ap is_message f.flag ∙ whole_message p.flag f.byte ∙ whole, whole)
          (Gives_map (take_message source q head) (message g) (λ r t. (t.0 ∙ same, t.1)))
    | inr part ↦ rw (ap is_message f.flag ∙ whole_message p.flag f.byte ∙ part, part) raw
  ]
    where
      same : message_event source head p.payload ≡ record {
        source_id = source;
        token = 0;
        length_and_type = length p.payload + message_type p.flag * 2 ^ 24;
        storage = p.payload;
      }
      same =
          rw
            (
              f.flag,
              f.size,
              message_type_lem p.flag f.byte,
              event_word (length p.payload) (message_type p.flag) (omega (arith, f.small)),
            )
            refl

-- What a round does with the result of `decode_head`.
module _ (source : ℕ) (s : EventQueue) (q : ByteQueue) (xs : List ℕ) (h : Holds q xs)
    (w : All IsByte xs) where
  abbrev after_head : HeadResult → Option Round
  after_head r = elim r [
    | HeadResult.incomplete ↦ some (Round.returns true s q)
    | HeadResult.invalid ↦ some (Round.returns false s q)
    | HeadResult.decoded head ↦
        (if is_message head.flag
          then take_message source q head
          else take_raw source q (head.offset + head.payload_len))
        >>= λ x. some (hand_over s x.0 x.1)
  ]

  by_head :
      {r : HeadResult} {m : Parsed}
      → Agree xs r m
      → Gives (continue q r) (Answers m xs)
      → Gives (after_head r) (Does (next_of source xs m) s q)
  by_head short g = refl
  by_head bad g = refl
  by_head (both {head} {p} {rest} f) g =
      Gives_bind
        (if is_message head.flag
          then take_message source q head
          else take_raw source q (head.offset + head.payload_len))
        _ _ (event source xs h w head p rest f g)
        (λ r t. rw t.0 (hand_over-Does s q (frame_event source xs p rest) r.1 rest t.1))

  round_fits : Gives (receive_round source s q) (Does (next source xs) s q)
  unfolding receive_round
  round_fits = rw (decode_head_lem xs h w) (by_head (head_of-parse xs w) (holds_answer xs h w))

Agree-Shrinks :
    (source : ℕ) (xs : List ℕ) {r : HeadResult} {m : Parsed}
    → Agree xs r m
    → All IsByte xs
    → Shrinks xs (next_of source xs m)
Agree-Shrinks source xs short w = tt
Agree-Shrinks source xs bad w = tt
Agree-Shrinks source xs (both {head} f) w = (
  subst (All IsByte) (sym f.behind) (All-drop IsByte (head.offset + head.payload_len) xs w),
  omega (
    arith,
    f.started,
    f.room,
    ap length f.behind,
    length-drop (head.offset + head.payload_len) xs,
  ),
)

short_waits : (source : ℕ) (xs : List ℕ) → length xs < 2 → next source xs ≡ Next.wait
short_waits source [] h = refl
short_waits source (x ∷ []) h = refl
short_waits source (x ∷ y ∷ xs) h = absurd (omega arith)

-- On a valid queue of bytes `receive` returns and never faults. It hands the frames over in their
-- order, final ones of a kind other than 0 with their payload without the mask and all others as
-- they are; it answers true and leaves the bytes of an incomplete frame, answers false at bytes that
-- are no frame, and false after the first frame where the service has stopped.
pub receive_frames-Receives :
    (source : ℕ) (s : EventQueue) (q : ByteQueue)
    → IsValid q
    → All IsByte (contents q)
    → Gives (receive source s q) (Receives (next source) s (contents q))
unfolding receive
receive_frames-Receives source s q v w =
    let h = IsValid-holds v in
    receive_loop-Receives (next source) (receive_round source) (round_fits source)
      (λ xs b. Agree-Shrinks source xs (head_of-parse xs b) b) (short_waits source)
      (get_bytes_readable q + 1) s q (contents q) (omega (arith, get_bytes_readable-holds h)) h w
