-- ===== src/Examples/Reading.antt =====
-- The readers: schemas and channels, messages, the footer and the summary.
use mcap.Bytes.{put_le}
use mcap.Write.{op_and_len}
use mcap.Records.Encode.{put_footer}
use mcap.SummaryReader.Pieces.{PieceFits, delivered, receive_all-ending}
use mcap.SummaryReader.{receive_all}
use mcap.Prelude.{All, take, drop}
use mcap.Summary.{footer, magic, footer_size, no_summary}
use mcap.Prelude.{
  ℕ, ◌<◌, ◌≡◌, refl, ap, false, Option, none, some, List, [], ◌∷◌, ◌++◌, arith, length,
}
use mcap.Error.{Bytes, Result, McapError, ok, err, stuck}
use mcap.HashMap
use mcap.HashMap.{bytes_eq, map_eq}
use mcap.Records.{Record, schema, channel, message, data_end}
use mcap.Channels.{
  Schema, Channel, ChannelAccumulator, no_channels, add_schema, add_channel, get, enter_schema,
  enter_channel, find_schema, known_schema,
}
use mcap.Channels.Laws.{
  IsConsistent, IsConsistent-empty, Extends, Holds, add_schema-IsConsistent, add_channel-Extends,
  add_channel-get, add_channel-IsConsistent, add_channel_again,
}
use mcap.Messages
use mcap.Messages.{
  RawMessageStream, next, next_raw, next_loop, finish_next, is_message, resolve, with_channel,
}
use mcap.Messages.Laws.{Resolved, next-Resolved, next-IsConsistent, next_fused}
use mcap.LinearEvents
use mcap.LinearEvents.{LinearReader, LinearReadEvent, record_read}
use mcap.SummaryReader.{SummaryReader, step_in, with_footer, reading_footer}
use mcap.SummaryReader.Footer.{ending, footer-ending}
use mcap.Examples.Values.{
  adding, topic, json, key, text, schema_header, channel_one, message_header, footer_one,
  footer_one-FooterFits,
}

abbrev schema_one : Schema
schema_one = record { id = 1; name = topic; encoding = json; body = text }

abbrev channel_stored : Channel
channel_stored = record {
  id = 7;
  topic = topic;
  schema = some schema_one;
  message_encoding = json;
  metadata = (key, json) ∷ [];
}

abbrev with_schema : ChannelAccumulator
with_schema = record { schemas = (1, schema_one) ∷ []; channels = [] }

abbrev with_both : ChannelAccumulator
with_both = record { schemas = (1, schema_one) ∷ []; channels = (7, channel_stored) ∷ [] }

schema_added : add_schema no_channels schema_header text ≡ ok with_schema
unfolding add_schema enter_schema HashMap.get HashMap.insert
schema_added = refl

channel_added : add_channel with_schema channel_one ≡ ok with_both
unfolding add_channel enter_channel find_schema known_schema HashMap.get HashMap.insert
channel_added = refl

with_schema-IsConsistent : IsConsistent with_schema
with_schema-IsConsistent =
    add_schema-IsConsistent no_channels schema_header text schema_added IsConsistent-empty

add_channel-IsConsistent_example : IsConsistent with_both
add_channel-IsConsistent_example =
    add_channel-IsConsistent with_schema channel_one channel_added with_schema-IsConsistent

with_both-IsConsistent : IsConsistent with_both
with_both-IsConsistent =
    add_channel-IsConsistent with_schema channel_one channel_added with_schema-IsConsistent

add_channel-get_example : (ch : Channel) × (get with_both 7 ≡ some ch) × Holds channel_one ch
add_channel-get_example =
    add_channel-get with_schema channel_one channel_added with_schema-IsConsistent

add_channel_again_example : add_channel with_both channel_one ≡ ok with_both
add_channel_again_example =
    add_channel_again with_schema channel_one channel_added with_schema-IsConsistent

add_channel-Extends_example : Extends with_schema with_both
add_channel-Extends_example = add_channel-Extends with_schema channel_one channel_added

-- A stream that has a schema, a channel, a message and the end of the data.
abbrev records : List (Result Record)
records =
    ok (schema schema_header text)
    ∷ ok (channel channel_one)
    ∷ ok (message message_header text)
    ∷ ok (data_end (record { data_section_crc = 0 }))
    ∷ []

abbrev stream : RawMessageStream
stream = Messages.new records

abbrev message_one : Messages.Message
message_one = record {
  channel = channel_stored;
  sequence = 3;
  log_time = 1000;
  publish_time = 900;
  body = text;
}

first_message : (next stream).0 ≡ some (ok message_one)
unfolding next next_raw next_loop finish_next is_message resolve with_channel get add_schema
    enter_schema add_channel enter_channel find_schema known_schema HashMap.get HashMap.insert
first_message = refl

next-Resolved_example : Resolved (next_raw stream) message_one
next-Resolved_example = next-Resolved stream message_one IsConsistent-empty first_message

next-IsConsistent_example : IsConsistent (next stream).1.channeler
next-IsConsistent_example = next-IsConsistent stream IsConsistent-empty

abbrev broken : RawMessageStream
broken = Messages.new (err McapError.unexpected_eof ∷ ok (message message_header text) ∷ [])

broken_ends : is_message (next_raw broken).0 ≡ false
unfolding is_message next_raw next_loop finish_next
broken_ends = refl

next_fused_example : next (next broken).1 ≡ (none, (next broken).1)
next_fused_example = next_fused broken broken_ends

footer-ending_example : footer (magic ++ ((1 ∷ 2 ∷ 3 ∷ []) ++ ending footer_one)) ≡ ok footer_one
footer-ending_example = footer-ending (1 ∷ 2 ∷ 3 ∷ []) footer_one footer_one-FooterFits

-- An inner reader that has its events already.
abbrev next_of : List LinearReadEvent → Option (Result LinearReadEvent) × List LinearReadEvent
next_of [] = (none, [])
next_of (e ∷ es) = (some (ok e), es)

next_of-fewer :
    (r r' : List LinearReadEvent) (op : ℕ) (bytes : Bytes)
    → next_of r ≡ (some (ok (record_read op bytes)), r')
    → length r' < length r
next_of-fewer [] r' op bytes h =
    absurd (cc (ap (λ (x : Option (Result LinearReadEvent) × List LinearReadEvent). x.0) h))
next_of-fewer (e ∷ es) r' op bytes h =
    omega (arith, ap (λ (x : Option (Result LinearReadEvent) × List LinearReadEvent). length x.1) h)

next_of-answers : (r r' : List LinearReadEvent) → next_of r ≡ (some stuck, r') → ⊥
next_of-answers [] r' h =
    absurd (cc (ap (λ (x : Option (Result LinearReadEvent) × List LinearReadEvent). x.0) h))
next_of-answers (e ∷ es) r' h =
    absurd (cc (ap (λ (x : Option (Result LinearReadEvent) × List LinearReadEvent). x.0) h))

abbrev scripted : LinearReader
scripted = record {
  Reader = List LinearReadEvent;
  new_with_limit = λ _. record_read 0x0f (0 ∷ 0 ∷ 0 ∷ 0 ∷ []) ∷ LinearEvents.read_request 10 ∷ [];
  next_event = next_of;
  notify_read = λ r n. r;
  insert = λ r n. r;
  held = length;
  fewer = next_of-fewer;
  answers = next_of-answers;
}

abbrev loaded : SummaryReader adding.hash scripted
loaded = record {
  pos = 37;
  footer_buf = ending footer_one;
  file_size = some 500;
  state = reading_footer footer_size;
  summary = no_summary;
  summary_present = false;
  at_eof = false;
  options = record { file_size = some 500; record_length_limit = none };
}

-- The footer comes in two reads.
abbrev waiting : SummaryReader adding.hash scripted
waiting = record loaded { pos = 463; footer_buf = []; state = reading_footer 0 }

abbrev pieces : List (ℕ × Bytes)
pieces = (37, take 10 (ending footer_one)) ∷ (27, drop 10 (ending footer_one)) ∷ []

pieces-Fits : All PieceFits pieces
unfolding op_and_len put_footer put_le
pieces-Fits = (omega arith, (omega arith, tt))

pieces-delivered : delivered pieces ≡ ending footer_one
unfolding op_and_len put_footer put_le
pieces-delivered = refl

receive_all-ending_example :
    (s' : SummaryReader adding.hash scripted) × (receive_all adding.hash scripted waiting 0 pieces
      ≡ ok s')
    × (step_in adding.hash scripted s' s'.state ≡ with_footer adding.hash scripted s' footer_one)
receive_all-ending_example =
    receive_all-ending adding.hash scripted waiting footer_one pieces refl pieces-Fits
      pieces-delivered footer_one-FooterFits
