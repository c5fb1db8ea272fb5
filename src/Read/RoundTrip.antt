-- ===== src/Read/RoundTrip.antt =====
-- `parse_record` reads back what `write_record` wrote.
use mcap.Prelude.{
  ℕ, ◌+◌, ◌%◌, ◌^◌, ◌<◌, ◌≡◌, refl, ◌++◌, arith, length, length-append, le→ltb_false,
}
use native.Mathlib.Nat.{mod-eq_of_lt}
use mcap.Error.{Bytes, ok}
use mcap.Bytes.{put_le}
use mcap.Bytes.RoundTrip.{get_le-put_le, length-put_le}
use mcap.Records.{
  Record, SchemaHeader, MessageHeader, header, footer, schema, channel, message, chunk,
  message_index, chunk_index, attachment, attachment_index, statistics, metadata, metadata_index,
  summary_offset, data_end, unknown, opcode, serialized_len,
}
use mcap.Records.Encode.{put_schema_header, put_message_header}
use mcap.Records.Fits.{
  HeaderFits, SchemaHeaderFits, ChannelFits, MessageHeaderFits, ChunkIndexFits, AttachmentIndexFits,
  StatisticsFits, MetadataFits, MetadataIndexFits, SummaryOffsetFits, DataEndFits,
}
use mcap.Records.RoundTrip.{
  get_header-put_header, get_schema_header-put_schema_header, get_channel-put_channel,
  get_message_header-put_message_header, get_chunk_index-put_chunk_index,
  get_attachment_index-put_attachment_index, get_statistics-put_statistics,
  get_metadata-put_metadata, get_metadata_index-put_metadata_index,
  get_summary_offset-put_summary_offset, get_data_end-put_data_end,
}
use mcap.Read.{as_io, read_uint, parse_schema, parse_message, parse_record}
use mcap.Read.Slices.{slice_rest, slice_rest_two, slice_whole, read_as-written}
use mcap.Write.{op_and_len, write_record}

-- The records that `write_record` takes, with fields that their bytes can hold. A private record has
-- an opcode that the format does not use.
abbrev pub RecordFits : Record → Type 0
RecordFits (header h) = HeaderFits h
RecordFits (schema h bytes) = SchemaHeaderFits h × (length bytes < 2 ^ 32)
RecordFits (channel c) = ChannelFits c
RecordFits (message h bytes) = MessageHeaderFits h
RecordFits (chunk_index c) = ChunkIndexFits c
RecordFits (attachment_index i) = AttachmentIndexFits i
RecordFits (statistics s) = StatisticsFits s
RecordFits (metadata m) = MetadataFits m
RecordFits (metadata_index i) = MetadataIndexFits i
RecordFits (summary_offset o) = SummaryOffsetFits o
RecordFits (data_end e) = DataEndFits e
RecordFits (unknown op bytes) = 0x0f < op
RecordFits (footer _) = ⊥
RecordFits (chunk _ _) = ⊥
RecordFits (message_index _) = ⊥
RecordFits (attachment _ _ _) = ⊥

parse_schema-written :
    (h : SchemaHeader) (bytes : Bytes)
    → SchemaHeaderFits h
    → length bytes < 2 ^ 32
    → parse_schema (put_schema_header h ++ (put_le 4 (length bytes % 2 ^ 32) ++ bytes))
      ≡ ok (schema h bytes)
unfolding parse_schema read_uint as_io
parse_schema-written h bytes f short =
    rw
      (
        mod-eq_of_lt short,
        (get_schema_header-put_schema_header h f).at _,
        (get_le-put_le 4 (length bytes) short).at bytes,
      )
      (rw
        (
          slice_rest_two (put_schema_header h) (put_le 4 (length bytes)) bytes,
          mod-eq_of_lt short,
          le→ltb_false (length bytes) (length bytes) (omega arith),
        )
        (rw slice_whole))

length-put_message_header : (h : MessageHeader) → length (put_message_header h) ≡ serialized_len h
unfolding put_message_header serialized_len put_le
length-put_message_header h = refl

parse_message-written :
    (h : MessageHeader) (bytes : Bytes)
    → MessageHeaderFits h
    → parse_message (put_message_header h ++ bytes) ≡ ok (message h bytes)
unfolding parse_message
parse_message-written h bytes f =
    rw ((get_message_header-put_message_header h f).at bytes) (rw slice_rest)

module _ (crc32 : Bytes → ℕ) where
  -- The body of the record that is written is parsed to the record.
  abbrev pub IsReadBack : Record → Type 0
  IsReadBack r =
      (body : Bytes) × (write_record r ≡ ok (op_and_len (opcode r) (length body) ++ body))
      × (parse_record crc32 (opcode r) body ≡ ok r)

  parse_unknown :
      (op : ℕ) (body : Bytes) → 0x0f < op → parse_record crc32 op body ≡ ok (unknown op body)
  unfolding parse_record
  parse_unknown op body h = ground arith

  -- For each record that `write_record` takes, with fields that fit the format, `write_record`
  -- gives the opcode, the length of a body and the body, and `parse_record` returns the record
  -- from that opcode and body.
  pub parse_record-write_record : (r : Record) → RecordFits r → IsReadBack r
  unfolding write_record opcode parse_record
  parse_record-write_record (header h) f =
      (_, refl, read_as-written header (get_header-put_header h f))
  parse_record-write_record (schema h bytes) f = (
    put_schema_header h ++ (put_le 4 (length bytes % 2 ^ 32) ++ bytes),
    rw schema_size,
    parse_schema-written h bytes f.0 f.1,
  )
    where
      schema_size :
          length (put_schema_header h) + 4 + length bytes
          ≡ length (put_schema_header h ++ (put_le 4 (length bytes % 2 ^ 32) ++ bytes))
      schema_size = omega (
        arith,
        length-append (put_schema_header h) (put_le 4 (length bytes % 2 ^ 32) ++ bytes),
        length-append (put_le 4 (length bytes % 2 ^ 32)) bytes,
        length-put_le 4 (length bytes % 2 ^ 32),
      )
  parse_record-write_record (channel c) f =
      let (bs, written, d) = get_channel-put_channel c f in
      (bs, rw written, read_as-written channel d)
  parse_record-write_record (message h bytes) f =
      (put_message_header h ++ bytes, rw message_size, parse_message-written h bytes f)
    where
      message_size : serialized_len h + length bytes ≡ length (put_message_header h ++ bytes)
      message_size =
          omega (arith, length-append (put_message_header h) bytes, length-put_message_header h)
  parse_record-write_record (chunk_index c) f =
      let (bs, written, d) = get_chunk_index-put_chunk_index c f in
      (bs, rw written, read_as-written chunk_index d)
  parse_record-write_record (attachment_index i) f =
      (_, refl, read_as-written attachment_index (get_attachment_index-put_attachment_index i f))
  parse_record-write_record (statistics s) f =
      let (bs, written, d) = get_statistics-put_statistics s f in
      (bs, rw written, read_as-written statistics d)
  parse_record-write_record (metadata m) f =
      let (bs, written, d) = get_metadata-put_metadata m f in
      (bs, rw written, read_as-written metadata d)
  parse_record-write_record (metadata_index i) f =
      (_, refl, read_as-written metadata_index (get_metadata_index-put_metadata_index i f))
  parse_record-write_record (summary_offset o) f =
      (_, refl, read_as-written summary_offset (get_summary_offset-put_summary_offset o f))
  parse_record-write_record (data_end e) f =
      (_, refl, read_as-written data_end (get_data_end-put_data_end e f))
  parse_record-write_record (unknown op bytes) f = (bytes, refl, parse_unknown op bytes f)
  parse_record-write_record (footer _) f = elim f [ ]
  parse_record-write_record (chunk _ _) f = elim f [ ]
  parse_record-write_record (message_index _) f = elim f [ ]
  parse_record-write_record (attachment _ _ _) f = elim f [ ]
