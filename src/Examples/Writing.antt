-- ===== src/Examples/Writing.antt =====
-- The writers: attachments, the registration of schemas and channels, and the statistics.
use mcap.Writer.{SchemaContent}
use mcap.Examples.Values.{same_schema_content, same_schema_content_refl, same_schema_content→eq}
use mcap.Writer.Closing
use mcap.Writer.Closing.{finish_attachment}
use mcap.Prelude.{ℕ, ◌≡◌, refl, true, some, List, [], ◌∷◌, ◌++◌, arith, length}
use mcap.Error.{
  Bytes, ok, err, panic, too_many_schemas, conflicting_schemas, attachment_incomplete,
  attachment_too_large,
}
use mcap.BiMap.{BiMap}
use mcap.BiMap.Entries.{entries, IsOneToOne-new, IsOneToOne-empty}
use mcap.HashMap
use mcap.HashMap.{bytes_eq, bytes_eq_refl, bytes_eq→eq}
use mcap.Registry
use mcap.Registry.{Registry, add, enter, free_id, contains, max_id}
use mcap.Registry.Search.{Found, free_id-Found}
use mcap.Registry.Laws.{IsValid-new}
use mcap.Registry.Add.{Added, add-Added}
use mcap.Registry.Enter.{Entered, enter-Entered}
use mcap.Io.{file, file-IsStream}
use mcap.Records.{AttachmentIndex, attachment}
use mcap.Read.{parse_record}
use mcap.Write.{op_and_len}
use mcap.Write.Attachment.{attach_all}
use mcap.Write.Attachment.RoundTrip.{
  attach_all_incomplete, attach_all_too_large, attach_all-parse_record,
}
use mcap.ChunkSink
use mcap.ChunkSink.{direct, buffered, write_parts}
use mcap.ChunkSink.Laws.{finish-buffered}
use mcap.Writer
use mcap.Writer.{Writer, statistics_of}
use mcap.Writer.Counts.{times}
use mcap.Writer.Failures.{CountedOnly, write_to_known_channel-CountedOnly, finish_attachment-lost}
use mcap.Writer.{write_to_known_channel, emit, attaching}
use mcap.Records.{Record, MessageHeader}
use mcap.Error.{attachment_not_in_progress}
use mcap.Writer.Runs.{
  Command, attaches, adds_schema, writes, writes_known, run, Summarizes, statistics_of-run,
}
use mcap.Examples.Values.{
  schema_contents, channel_contents, adding, topic, json, text, attachment_header,
  attachment_header-AttachmentHeaderFits,
}

abbrev before : Bytes
before = 1 ∷ 2 ∷ 3 ∷ []

attach_all_incomplete_example :
    attach_all adding file before 5 attachment_header true ((9 ∷ 8 ∷ []) ∷ (7 ∷ []) ∷ [])
    ≡ err (attachment_incomplete 3 5)
attach_all_incomplete_example =
    attach_all_incomplete adding file file-IsStream before attachment_header true 5
      ((9 ∷ 8 ∷ []) ∷ (7 ∷ []) ∷ []) (omega arith)

attach_all_too_large_example :
    (excess : ℕ) × (attach_all adding file before 2 attachment_header true
        ((9 ∷ 8 ∷ []) ∷ (7 ∷ []) ∷ [])
      ≡ err (attachment_too_large excess 2))
attach_all_too_large_example =
    attach_all_too_large adding file file-IsStream before attachment_header true 2
      ((9 ∷ 8 ∷ []) ∷ (7 ∷ []) ∷ []) (omega arith)

attach_all-parse_record_example :
    (crc : ℕ) × (body : Bytes) × (index : AttachmentIndex) × (attach_all adding file before 3
        attachment_header true
        ((9 ∷ 8 ∷ []) ∷ (7 ∷ []) ∷ [])
      ≡ ok (before ++ (op_and_len 0x09 (length body) ++ body), index))
    × (parse_record adding.hash 0x09 body ≡ ok (attachment attachment_header (9 ∷ 8 ∷ 7 ∷ []) crc))
    × (index.offset ≡ 3)
    × (index.length ≡ length (op_and_len 0x09 (length body) ++ body))
    × (index.data_size ≡ 3)
attach_all-parse_record_example =
    attach_all-parse_record adding file file-IsStream before attachment_header true
      ((9 ∷ 8 ∷ []) ∷ (7 ∷ []) ∷ []) attachment_header-AttachmentHeaderFits (omega arith)

-- Contents that are told apart by their bytes.
abbrev contents : BiMap Bytes
contents = entries bytes_eq bytes_eq_refl bytes_eq→eq

abbrev no_contents : Registry contents
no_contents = Registry.new contents

add-Added_example :
    Added contents true too_many_schemas no_contents topic
      (add contents true too_many_schemas no_contents topic)
add-Added_example =
    add-Added contents true too_many_schemas no_contents topic (IsValid-new contents)

enter-Entered_example :
    Entered contents
      (conflicting_schemas topic)
      no_contents
      5
      topic
      (enter contents (conflicting_schemas topic) no_contents 5 topic)
enter-Entered_example =
    enter-Entered contents (conflicting_schemas topic) no_contents 5 topic (IsValid-new contents)

-- The id 5 is that of the content "json".
abbrev one_content : Registry contents
one_content = record {
  canonical = (
    (json, 5) ∷ [],
    IsOneToOne-new bytes_eq bytes_eq_refl bytes_eq→eq [] json 5
        (IsOneToOne-empty bytes_eq bytes_eq_refl bytes_eq→eq) refl refl,
  );
  ids = (5, 5) ∷ [];
  next_id = 1;
}

-- The same, once the ids up to the last have been given out or skipped.
abbrev last_left : Registry contents
last_left = record one_content { next_id = max_id }

abbrev two_taken : List (ℕ × ℕ)
two_taken = (1, 1) ∷ (2, 2) ∷ []

free_id-Found_example : Found two_taken 1 (free_id 65536 two_taken 1)
free_id-Found_example = free_id-Found 65536 two_taken 1 (omega arith) (omega arith)

-- A schema, a message that is written with its channel, and a message on a channel that is not known.
abbrev calls : List (Command schema_contents channel_contents true)
calls =
    adds_schema (record { name = topic; encoding = json; body = text })
    ∷ writes (record {
      channel = record {
        id = 7;
        topic = topic;
        schema = some (record { id = 1; name = topic; encoding = json; body = text });
        message_encoding = json;
        metadata = [];
      };
      sequence = 0;
      log_time = 1000;
      publish_time = 900;
      body = text;
    })
    ∷ attaches attachment_header (1 ∷ 2 ∷ [])
    ∷ writes_known (record { channel_id = 8; sequence = 1; log_time = 2000; publish_time = 900 })
        text
    ∷ []

abbrev after_calls : Writer schema_contents channel_contents true
after_calls =
    run schema_contents channel_contents true calls
      (Writer.new schema_contents channel_contents true)

statistics_of-run_example :
    Summarizes
      (statistics_of schema_contents channel_contents true after_calls)
      (times after_calls.emitted)
      (length after_calls.attachments)
statistics_of-run_example = statistics_of-run schema_contents channel_contents true calls

-- A writer that knows the channel 7, with one of four bytes of an attachment.
abbrev half_way : Writer schema_contents channel_contents true
half_way = record (Writer.new schema_contents channel_contents true) {
  channels = record (Registry.new channel_contents) { ids = (7, 7) ∷ [] };
  mode = attaching attachment_header 4 (9 ∷ []);
}

abbrev late_header : MessageHeader
late_header = record { channel_id = 7; sequence = 1; log_time = 2000; publish_time = 900 }

seven_known : contains 7 half_way.channels.ids ≡ true
unfolding contains HashMap.get
seven_known = refl

write_to_known_channel-CountedOnly_example :
    ((write_to_known_channel schema_contents channel_contents true late_header text half_way).0
      ≡ err attachment_not_in_progress)
    × CountedOnly schema_contents channel_contents true half_way
        (write_to_known_channel schema_contents channel_contents true late_header text half_way).1
write_to_known_channel-CountedOnly_example =
    write_to_known_channel-CountedOnly schema_contents channel_contents true late_header text
      half_way attachment_header 4 (9 ∷ []) refl seven_known

finish_attachment-lost_example :
    ((finish_attachment schema_contents channel_contents true half_way).0
      ≡ err (attachment_incomplete 1 4))
    × ((r : Record)
        → (emit schema_contents channel_contents true r
            (finish_attachment schema_contents channel_contents true half_way).1).0
          ≡ panic)
    × ((Closing.finish schema_contents channel_contents true
          (finish_attachment schema_contents channel_contents true half_way).1).0
        ≡ panic)
finish_attachment-lost_example =
    finish_attachment-lost schema_contents channel_contents true half_way attachment_header 4
      (9 ∷ []) refl (omega arith)

-- A buffer that was used before does not show.
finish-buffered_example :
    (ChunkSink.finish file (
        write_parts file
          (ChunkSink.new file before (buffered (5 ∷ [])))
          ((9 ∷ 8 ∷ []) ∷ (7 ∷ []) ∷ []))
      ≡ (before ++ (9 ∷ 8 ∷ 7 ∷ []), buffered (9 ∷ 8 ∷ 7 ∷ [])))
    × (ChunkSink.finish file
          (write_parts file (ChunkSink.new file before direct) ((9 ∷ 8 ∷ []) ∷ (7 ∷ []) ∷ []))
        ≡ (before ++ (9 ∷ 8 ∷ 7 ∷ []), direct))
finish-buffered_example =
    finish-buffered file file-IsStream before (5 ∷ []) (9 ∷ 8 ∷ []) ((7 ∷ []) ∷ [])

abbrev content_one : SchemaContent
content_one = record { name = topic; encoding = json; body = text }

-- The registry with the new content under the id 1.
abbrev with_content : Registry schema_contents
with_content = record {
  canonical = (
    (content_one, 1) ∷ [],
    IsOneToOne-new same_schema_content same_schema_content_refl same_schema_content→eq []
        content_one 1
        (IsOneToOne-empty same_schema_content same_schema_content_refl same_schema_content→eq) refl
        refl,
  );
  ids = (1, 1) ∷ [];
  next_id = 2;
}
