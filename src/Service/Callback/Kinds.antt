-- ===== src/Service/Callback/Kinds.antt =====
-- The kinds of events that carry bytes, and what the callback gets of them.
use frog_game_framework.Base.{
  ℕ, ◌+◌, ◌*◌, ◌/◌, ◌%◌, ◌^◌, ◌≡◌, ◌<◌, refl, ap, ◌∙◌, true, List, [], ◌∷◌, Option, some, bit_or,
  arith,
}
use frog_game_framework.HandleTable.{Handle}
use frog_game_framework.Streams.{Event}
use frog_game_framework.Streams.EventType.{event_word}
use frog_game_framework.Service.Callback.{
  Delivery, Environment, Action, StopFields, pass_buffer, pass_message, other_actions,
  callback_parts,
}

-- The kinds of events that carry bytes.
pub data DataKind : Type 0 where
  reply call sent text binary command : DataKind

abbrev pub flag_of : DataKind → ℕ
flag_of DataKind.reply = 0x7a
flag_of DataKind.call = 0x6a
flag_of DataKind.sent = 0x2a
flag_of DataKind.text = 0x1a
flag_of DataKind.binary = 1
flag_of DataKind.command = 11

pub flag_small : (k : DataKind) → flag_of k < 128
flag_small DataKind.reply = omega arith
flag_small DataKind.call = omega arith
flag_small DataKind.sent = omega arith
flag_small DataKind.text = omega arith
flag_small DataKind.binary = omega arith
flag_small DataKind.command = omega arith

pub moved_flag : (k : DataKind) → bit_or 0x80 (flag_of k) ≡ 0x80 + flag_of k
moved_flag DataKind.reply = refl
moved_flag DataKind.call = refl
moved_flag DataKind.sent = refl
moved_flag DataKind.text = refl
moved_flag DataKind.binary = refl
moved_flag DataKind.command = refl

-- A word with the length `n` and the byte `t`.
pub word_parts :
    (n t : ℕ)
    → n < 2 ^ 24
    → t < 256
    → (bit_or n (t * 2 ^ 24 % 2 ^ 32) / 2 ^ 24 ≡ t) × (bit_or n (t * 2 ^ 24 % 2 ^ 32) % 2 ^ 24 ≡ n)
word_parts n t h b =
    let e : bit_or n (t * 2 ^ 24 % 2 ^ 32) ≡ n + t * 2 ^ 24 =
      ap (λ v. bit_or n v) {x = t * 2 ^ 24 % 2 ^ 32} {y = t * 2 ^ 24} (omega arith)
      ∙ event_word n t h in
    (omega (arith, e, h), omega (arith, e, h))

abbrev pub delivery : DataKind → ℕ → ℕ → Option (List ℕ) → ℕ → Delivery
delivery k source token buffer n = record {
  kind = flag_of k;
  source_id = source;
  token = token;
  buffer = buffer;
  size = n;
}

module _ (env : Environment) (s : StopFields) (n : ℕ) (e : Event) where
  pub passes :
      (k : DataKind)
      → callback_parts env s (flag_of k) n e
        ≡ some (true, Action.delivers (delivery k e.source_id e.token (some e.storage) n) ∷ [])
  unfolding callback_parts other_actions pass_message pass_buffer
  passes DataKind.reply = refl
  passes DataKind.call = refl
  passes DataKind.sent = refl
  passes DataKind.text = refl
  passes DataKind.binary = refl
  passes DataKind.command = refl

  pub passes_moved :
      (p : Handle) (k : DataKind)
      → e.storage ≡ p ∷ []
      → callback_parts env s (bit_or 0x80 (flag_of k)) n e
        ≡ some (
          true,
          Action.delivers (delivery k e.source_id e.token (env.buffers p) n) ∷ Action.frees p ∷ [],
        )
  unfolding callback_parts other_actions pass_message pass_buffer
  passes_moved p DataKind.reply h = rw h refl
  passes_moved p DataKind.call h = rw h refl
  passes_moved p DataKind.sent h = rw h refl
  passes_moved p DataKind.text h = rw h refl
  passes_moved p DataKind.binary h = rw h refl
  passes_moved p DataKind.command h = rw h refl
