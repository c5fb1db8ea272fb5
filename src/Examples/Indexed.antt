-- ===== src/Examples/Indexed.antt =====
-- The indexed reader: two chunks that overlap in time.
use mcap.Prelude.{true, some, suc, length, ◌≡◌, refl, none, List, [], ◌∷◌, ◌++◌, arith}
use mcap.Error.{Bytes, ok, err, unexpected_eoc}
use mcap.Write.{op_and_len}
use mcap.Records.Encode.{put_message_header}
use mcap.Records.{ChunkIndex, MessageHeader}
use mcap.Summary.{Summary, no_summary}
use mcap.IndexedReader.Events.{Decompress, next_event, insert_chunk_record_data}
use mcap.IndexedReader.Earliest.{IsNext, created, inserted, next_event-IsNext}
use mcap.IndexedReader.{
  IndexedReader, new_with_options, default_options, message_read, ChunkSlot, Filter, MessageIndex,
  by_log_time,
}
use mcap.IndexedReader.Indexing.{slot_at, index_messages}
use mcap.IndexedReader.Found.{found}
use mcap.IndexedReader.Ordered.{Indexes, index_messages-Indexes}
use mcap.Examples.Values.{message_header}

-- Two messages, the second earlier than the first.
abbrev messages : Bytes
messages =
    (op_and_len 0x05 22 ++ put_message_header message_header)
    ++ (op_and_len 0x05 22 ++ put_message_header (record message_header { log_time = 800 }))

abbrev slots : List ChunkSlot
slots =
    record { buf = []; data_start = 50; message_count = 1 }
    ∷ record { buf = messages; data_start = 200; message_count = 0 }
    ∷ []

abbrev entered : List MessageIndex
entered = record { chunk_slot_idx = 0; log_time = 900; offset = 0 } ∷ []

abbrev no_filter : Filter
no_filter = record { start = none; end = none; channel_ids = [] }

-- The one that was there comes between them.
sorts :
    index_messages 1 slots by_log_time no_filter entered 0 none
    ≡ ok (
      2,
      record { chunk_slot_idx = 1; log_time = 800; offset = 31 }
          ∷ record { chunk_slot_idx = 0; log_time = 900; offset = 0 }
          ∷ record { chunk_slot_idx = 1; log_time = 1000; offset = 0 }
          ∷ [],
    )
unfolding index_messages op_and_len mcap.Bytes.put_le put_message_header
    mcap.LinearReader.Options.ok_or mcap.LinearReader.Chunks.split_opcode_length
    mcap.LinearReader.Options.check_len mcap.LinearReader.Moves.from_le
    mcap.LinearReader.Moves.opcode_of mcap.Records.Decode.get_message_header mcap.Bytes.◌>>=◌
    mcap.Bytes.get_le mcap.Bytes.pure mcap.Sorting.sort_by
sorts = refl

index_messages-Indexes_example :
    Indexes slots by_log_time 0 entered
      (found 1 no_filter (suc (length messages)) messages none 0)
      (index_messages 1 slots by_log_time no_filter entered 0 none)
unfolding slot_at
index_messages-Indexes_example =
    index_messages-Indexes slots 1 (record { buf = messages; data_start = 200; message_count = 0 })
      by_log_time no_filter entered 0 none refl (omega arith, tt) (omega arith)

abbrev chunk_one : ChunkIndex
chunk_one = record {
  message_start_time = 800;
  message_end_time = 1000;
  chunk_start_offset = 50;
  chunk_length = 120;
  message_index_offsets = [];
  message_index_length = 0;
  compression = [];
  compressed_size = 62;
  uncompressed_size = 62;
}

abbrev chunk_two : ChunkIndex
chunk_two = record chunk_one {
  message_start_time = 950;
  message_end_time = 2000;
  chunk_start_offset = 500;
}

-- The later chunk is listed first.
abbrev two_chunks : Summary
two_chunks = record no_summary { chunk_indexes = chunk_two ∷ chunk_one ∷ [] }

abbrev no_libraries : Decompress
no_libraries = record {
  zstd = λ bs n. err unexpected_eoc;
  lz4 = λ bs n. err unexpected_eoc;
  mismatch = λ n k. [];
}

abbrev before : IndexedReader
before = record {
  chunk_indexes = chunk_one ∷ chunk_two ∷ [];
  cur_chunk_index = 0;
  chunk_slots = [];
  message_indexes = [];
  cur_message_index = 0;
  order = by_log_time;
  filter = no_filter;
  record_length_limit = none;
}

abbrev after : IndexedReader
after = record before {
  cur_chunk_index = 1;
  chunk_slots = record { buf = messages; data_start = 99; message_count = 2 } ∷ [];
  message_indexes =
      record { chunk_slot_idx = 0; log_time = 800; offset = 31 }
      ∷ record { chunk_slot_idx = 0; log_time = 1000; offset = 0 }
      ∷ [];
}

creates : new_with_options two_chunks default_options ≡ ok before
unfolding new_with_options mcap.IndexedReader.check_offsets mcap.IndexedReader.used_chunks
    mcap.IndexedReader.channel_ids_of mcap.Records.compressed_data_offset
    mcap.IndexedReader.check_sizes mcap.Sorting.sort_by mcap.IndexedReader.chunk_le
    mcap.LinearReader.Options.ok_or mcap.LinearReader.Options.check_len
creates = refl

inserts : insert_chunk_record_data no_libraries before 99 messages ≡ ok after
unfolding insert_chunk_record_data mcap.Records.compressed_data_offset op_and_len mcap.Bytes.put_le
    put_message_header mcap.HashMap.bytes_eq mcap.LinearReader.Options.ok_or
    mcap.LinearReader.Chunks.split_opcode_length mcap.LinearReader.Options.check_len
    mcap.LinearReader.Moves.from_le mcap.LinearReader.Moves.opcode_of
    mcap.Records.Decode.get_message_header mcap.Bytes.◌>>=◌ mcap.Bytes.get_le mcap.Bytes.pure
    mcap.Sorting.sort_by
inserts = refl

abbrev early_header : MessageHeader
early_header = record message_header { log_time = 800 }

yields_early : (next_event true after).0 ≡ some (ok (message_read early_header []))
unfolding next_event op_and_len mcap.Bytes.put_le put_message_header
    mcap.Records.Decode.get_message_header mcap.Bytes.◌>>=◌ mcap.Bytes.get_le mcap.Bytes.pure
yields_early = refl

next_event-IsNext_example : IsNext after early_header []
next_event-IsNext_example =
    next_event-IsNext no_libraries true after early_header []
      (inserted before after 99 messages (created two_chunks default_options before creates)
        inserts)
      yields_early
