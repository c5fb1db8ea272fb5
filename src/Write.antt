-- ===== src/Write.antt =====
-- `op_and_len` and `write_record` of rust/mcap/src/write.rs.
--
-- A writer `W` takes the bytes in order; an I/O error of the sink below it is not modelled here.
pub mod Attachment
use mcap.Prelude.{ℕ, ◌+◌, ◌%◌, ◌^◌, List, [], ◌∷◌, ◌++◌, length}
use mcap.Error.{Bytes, Result, ok, panic, ◌>>=◌}
use mcap.Bytes.{put_le}
use mcap.Records.{
  Record, header, footer, schema, channel, message, chunk, message_index, chunk_index, attachment,
  attachment_index, statistics, metadata, metadata_index, summary_offset, data_end, unknown,
  serialized_len,
}
use mcap.Records.Encode.{
  put_header, put_schema_header, put_channel, put_message_header, put_chunk_index,
  put_attachment_index, put_statistics, put_metadata, put_metadata_index, put_summary_offset,
  put_data_end,
}

unfoldable pub op_and_len : ℕ → ℕ → Bytes
op_and_len op len = op ∷ put_le 8 len

-- the macro `record!`, over a buffer that holds the record
unfoldable pub framed : ℕ → Bytes → Bytes
framed op rec_buf = op_and_len op (length rec_buf) ++ rec_buf

-- The bytes that a record adds to the writer. `panic` is an `unreachable!`, or a failed assertion of
-- the writer of a map.
unfoldable pub write_record : Record → Result Bytes
unfolding framed
write_record (header h) = ok (framed 0x01 (put_header h))
write_record (footer _) = panic
write_record (schema h bytes) =
    let header_buf = put_schema_header h in
    ok (
      op_and_len 0x03 (length header_buf + 4 + length bytes)
      ++ (header_buf ++ (put_le 4 (length bytes % 2 ^ 32) ++ bytes)))
write_record (channel c) = put_channel c >>= λ buf. ok (framed 0x04 buf)
write_record (message h bytes) =
    ok (op_and_len 0x05 (serialized_len h + length bytes) ++ (put_message_header h ++ bytes))
write_record (chunk _ _) = panic
write_record (message_index _) = panic
write_record (chunk_index c) = put_chunk_index c >>= λ buf. ok (framed 0x08 buf)
write_record (attachment _ _ _) = panic
write_record (attachment_index i) = ok (framed 0x0a (put_attachment_index i))
write_record (statistics s) = put_statistics s >>= λ buf. ok (framed 0x0b buf)
write_record (metadata m) = put_metadata m >>= λ buf. ok (framed 0x0c buf)
write_record (metadata_index i) = ok (framed 0x0d (put_metadata_index i))
write_record (summary_offset o) = ok (framed 0x0e (put_summary_offset o))
write_record (data_end e) = ok (framed 0x0f (put_data_end e))
write_record (unknown op bytes) = ok (op_and_len op (length bytes) ++ bytes)
