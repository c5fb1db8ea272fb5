-- ===== src/Messages.antt =====
-- `RawMessageStream` and `MessageStream` of rust/mcap/src/read.rs.
--
-- The state of the inner `ChunkFlattener` is the list of what its `next` will return, so every run of
-- the readers below it is covered.
pub mod Laws
use mcap.Prelude.{ℕ, Bool, true, false, Option, none, some, List, [], ◌∷◌, if◌then◌else◌}
use mcap.Error.{Bytes, Result, ok, err, panic, stuck, unknown_channel}
use mcap.Records.{Record, MessageHeader, header, schema, channel, message}
use mcap.Channels
use mcap.Channels.{ChannelAccumulator, Channel, add_schema, add_channel, no_channels}

pub record RawMessage : Type 0 where
  pub header : MessageHeader
  pub body : Bytes

pub record Message : Type 0 where
  pub channel : Channel
  pub sequence : ℕ
  pub log_time : ℕ
  pub publish_time : ℕ
  pub body : Bytes

pub record RawMessageStream : Type 0 where
  pub records : List (Result Record)
  pub done : Bool
  pub channeler : ChannelAccumulator

abbrev pub new : List (Result Record) → RawMessageStream
new records = record { records = records; done = false; channeler = no_channels }

-- What the loop leaves: `n`, the records that are left, and the accumulator.
abbrev pub Looped : Type 0
Looped = Option (Result RawMessage) × List (Result Record) × ChannelAccumulator

-- The loop of `RawMessageStream::next`. `break Some(Err(e))` and `break None` end it.
unfoldable pub next_loop : List (Result Record) → ChannelAccumulator → Looped
next_loop [] acc = (none, [], acc)
next_loop (ok (schema h bytes) ∷ rest) acc = elim (add_schema acc h bytes) [
  | ok acc' ↦ next_loop rest acc'
  | err e ↦ (some (err e), rest, acc)
  | panic ↦ (some panic, rest, acc)
  | stuck ↦ (some stuck, rest, acc)
]
next_loop (ok (channel c) ∷ rest) acc = elim (add_channel acc c) [
  | ok acc' ↦ next_loop rest acc'
  | err e ↦ (some (err e), rest, acc)
  | panic ↦ (some panic, rest, acc)
  | stuck ↦ (some stuck, rest, acc)
]
next_loop (ok (message h bytes) ∷ rest) acc =
    (some (ok (record { header = h; body = bytes })), rest, acc)
next_loop (ok _ ∷ rest) acc = next_loop rest acc
next_loop (err e ∷ rest) acc = (some (err e), rest, acc)
next_loop (panic ∷ rest) acc = (some panic, rest, acc)
next_loop (stuck ∷ rest) acc = (some stuck, rest, acc)

-- `matches!(n, Some(Ok(_)))`
unfoldable pub is_message {ℓ} : {A : Type ℓ} → Option (Result A) → Bool
is_message (some (ok _)) = true
is_message (some (err _)) = false
is_message (some panic) = false
is_message (some stuck) = false
is_message none = false

unfoldable pub finish_next : Looped → Option (Result RawMessage) × RawMessageStream
unfolding is_message
finish_next (n, rest, acc) =
    (n, record { records = rest; done = if is_message n then false else true; channeler = acc })

-- `RawMessageStream::next`
unfoldable pub next_raw : RawMessageStream → Option (Result RawMessage) × RawMessageStream
unfolding finish_next
next_raw s = if s.done then (none, s) else finish_next (next_loop s.records s.channeler)

unfoldable pub with_channel : RawMessage → Option Channel → Result Message
with_channel m none = err (unknown_channel m.header.sequence m.header.channel_id)
with_channel m (some c) = ok (record {
  channel = c;
  sequence = m.header.sequence;
  log_time = m.header.log_time;
  publish_time = m.header.publish_time;
  body = m.body;
})

-- A message must have a channel that was read before.
unfoldable pub resolve :
    Option (Result RawMessage) × RawMessageStream → Option (Result Message) × RawMessageStream
unfolding with_channel
resolve (some (ok m), s) = (some (with_channel m (Channels.get s.channeler m.header.channel_id)), s)
resolve (some (err e), s) = (some (err e), s)
resolve (some panic, s) = (some panic, s)
resolve (some stuck, s) = (some stuck, s)
resolve (none, s) = (none, s)

-- `MessageStream::next`
unfoldable pub next : RawMessageStream → Option (Result Message) × RawMessageStream
unfolding resolve
next s = resolve (next_raw s)
