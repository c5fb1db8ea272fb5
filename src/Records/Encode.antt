-- ===== src/Records/Encode.antt =====
-- The writers that `#[binrw]` derives for the records: the fields in order, little-endian.
-- A record with a map panics where the assertion of the map's writer fails.
use mcap.Prelude.{◌++◌}
use mcap.Error.{Bytes, Result, ok, ◌>>=◌}
use mcap.Bytes.{put_le, put_string}
use mcap.Records.{
  Header, Footer, SchemaHeader, Channel, MessageHeader, ChunkHeader, MessageIndexEntry,
  MessageIndex, ChunkIndex, AttachmentHeader, AttachmentIndex, Statistics, Metadata, MetadataIndex,
  SummaryOffset, DataEnd,
}
use mcap.Records.Maps.{write_vec, write_string_map, write_int_map}

unfoldable pub put_header : Header → Bytes
put_header r = put_string r.profile ++ put_string r.library

unfoldable pub put_footer : Footer → Bytes
put_footer r =
    put_le 8 r.summary_start ++ (put_le 8 r.summary_offset_start ++ put_le 4 r.summary_crc)

unfoldable pub put_schema_header : SchemaHeader → Bytes
put_schema_header r = put_le 2 r.id ++ (put_string r.name ++ put_string r.encoding)

unfoldable pub put_channel : Channel → Result Bytes
put_channel r = write_string_map r.metadata >>= λ metadata. ok (
    put_le 2 r.id
    ++ (put_le 2 r.schema_id
        ++ (put_string r.topic ++ (put_string r.message_encoding ++ metadata))))

unfoldable pub put_message_header : MessageHeader → Bytes
put_message_header r =
    put_le 2 r.channel_id
    ++ (put_le 4 r.sequence ++ (put_le 8 r.log_time ++ put_le 8 r.publish_time))

unfoldable pub put_chunk_header : ChunkHeader → Bytes
put_chunk_header r =
    put_le 8 r.message_start_time
    ++ (put_le 8 r.message_end_time
        ++ (put_le 8 r.uncompressed_size
            ++ (put_le 4 r.uncompressed_crc
                ++ (put_string r.compression ++ put_le 8 r.compressed_size))))

unfoldable pub put_message_index_entry : MessageIndexEntry → Bytes
put_message_index_entry r = put_le 8 r.log_time ++ put_le 8 r.offset

unfoldable pub put_message_index : MessageIndex → Bytes
put_message_index r = put_le 2 r.channel_id ++ write_vec put_message_index_entry r.records

unfoldable pub put_chunk_index : ChunkIndex → Result Bytes
put_chunk_index r = write_int_map 2 8 r.message_index_offsets >>= λ message_index_offsets. ok (
    put_le 8 r.message_start_time
    ++ (put_le 8 r.message_end_time
        ++ (put_le 8 r.chunk_start_offset
            ++ (put_le 8 r.chunk_length
                ++ (message_index_offsets
                    ++ (put_le 8 r.message_index_length
                        ++ (put_string r.compression
                            ++ (put_le 8 r.compressed_size ++ put_le 8 r.uncompressed_size))))))))

unfoldable pub put_attachment_header : AttachmentHeader → Bytes
put_attachment_header r =
    put_le 8 r.log_time
    ++ (put_le 8 r.create_time ++ (put_string r.name ++ put_string r.media_type))

unfoldable pub put_attachment_index : AttachmentIndex → Bytes
put_attachment_index r =
    put_le 8 r.offset
    ++ (put_le 8 r.length
        ++ (put_le 8 r.log_time
            ++ (put_le 8 r.create_time
                ++ (put_le 8 r.data_size ++ (put_string r.name ++ put_string r.media_type)))))

unfoldable pub put_statistics : Statistics → Result Bytes
put_statistics r = write_int_map 2 8 r.channel_message_counts >>= λ channel_message_counts. ok (
    put_le 8 r.message_count
    ++ (put_le 2 r.schema_count
        ++ (put_le 4 r.channel_count
            ++ (put_le 4 r.attachment_count
                ++ (put_le 4 r.metadata_count
                    ++ (put_le 4 r.chunk_count
                        ++ (put_le 8 r.message_start_time
                            ++ (put_le 8 r.message_end_time ++ channel_message_counts))))))))

unfoldable pub put_metadata : Metadata → Result Bytes
put_metadata r = write_string_map r.metadata >>= λ metadata. ok (put_string r.name ++ metadata)

unfoldable pub put_metadata_index : MetadataIndex → Bytes
put_metadata_index r = put_le 8 r.offset ++ (put_le 8 r.length ++ put_string r.name)

unfoldable pub put_summary_offset : SummaryOffset → Bytes
put_summary_offset r =
    put_le 1 r.group_opcode ++ (put_le 8 r.group_start ++ put_le 8 r.group_length)

unfoldable pub put_data_end : DataEnd → Bytes
put_data_end r = put_le 4 r.data_section_crc
