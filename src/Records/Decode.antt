-- ===== src/Records/Decode.antt =====
-- The readers that `#[binrw]` derives for the records: the fields in order, little-endian.
use mcap.Bytes.{Parser, pure, ◌>>=◌, get_le, get_string}
use mcap.Records.{
  Header, Footer, SchemaHeader, Channel, MessageHeader, ChunkHeader, MessageIndexEntry,
  MessageIndex, ChunkIndex, AttachmentHeader, AttachmentIndex, Statistics, Metadata, MetadataIndex,
  SummaryOffset, DataEnd,
}
use mcap.Records.Maps.{parse_vec, parse_string_map, parse_int_map}

unfoldable pub get_header : Parser Header
get_header = do
  profile ← get_string
  library ← get_string
  pure (record { profile = profile; library = library })

unfoldable pub get_footer : Parser Footer
get_footer = do
  summary_start ← get_le 8
  summary_offset_start ← get_le 8
  summary_crc ← get_le 4
  pure (record {
    summary_start = summary_start;
    summary_offset_start = summary_offset_start;
    summary_crc = summary_crc;
  })

unfoldable pub get_schema_header : Parser SchemaHeader
get_schema_header = do
  id ← get_le 2
  name ← get_string
  encoding ← get_string
  pure (record { id = id; name = name; encoding = encoding })

unfoldable pub get_channel : Parser Channel
get_channel = do
  id ← get_le 2
  schema_id ← get_le 2
  topic ← get_string
  message_encoding ← get_string
  metadata ← parse_string_map
  pure (record {
    id = id;
    schema_id = schema_id;
    topic = topic;
    message_encoding = message_encoding;
    metadata = metadata;
  })

unfoldable pub get_message_header : Parser MessageHeader
get_message_header = do
  channel_id ← get_le 2
  sequence ← get_le 4
  log_time ← get_le 8
  publish_time ← get_le 8
  pure (record {
    channel_id = channel_id;
    sequence = sequence;
    log_time = log_time;
    publish_time = publish_time;
  })

unfoldable pub get_chunk_header : Parser ChunkHeader
get_chunk_header = do
  message_start_time ← get_le 8
  message_end_time ← get_le 8
  uncompressed_size ← get_le 8
  uncompressed_crc ← get_le 4
  compression ← get_string
  compressed_size ← get_le 8
  pure (record {
    message_start_time = message_start_time;
    message_end_time = message_end_time;
    uncompressed_size = uncompressed_size;
    uncompressed_crc = uncompressed_crc;
    compression = compression;
    compressed_size = compressed_size;
  })

unfoldable pub get_message_index_entry : Parser MessageIndexEntry
get_message_index_entry = do
  log_time ← get_le 8
  offset ← get_le 8
  pure (record { log_time = log_time; offset = offset })

unfoldable pub get_message_index : Parser MessageIndex
get_message_index = do
  channel_id ← get_le 2
  records ← parse_vec get_message_index_entry
  pure (record { channel_id = channel_id; records = records })

unfoldable pub get_chunk_index : Parser ChunkIndex
get_chunk_index = do
  message_start_time ← get_le 8
  message_end_time ← get_le 8
  chunk_start_offset ← get_le 8
  chunk_length ← get_le 8
  message_index_offsets ← parse_int_map 2 8
  message_index_length ← get_le 8
  compression ← get_string
  compressed_size ← get_le 8
  uncompressed_size ← get_le 8
  pure (record {
    message_start_time = message_start_time;
    message_end_time = message_end_time;
    chunk_start_offset = chunk_start_offset;
    chunk_length = chunk_length;
    message_index_offsets = message_index_offsets;
    message_index_length = message_index_length;
    compression = compression;
    compressed_size = compressed_size;
    uncompressed_size = uncompressed_size;
  })

unfoldable pub get_attachment_header : Parser AttachmentHeader
get_attachment_header = do
  log_time ← get_le 8
  create_time ← get_le 8
  name ← get_string
  media_type ← get_string
  pure (record {
    log_time = log_time;
    create_time = create_time;
    name = name;
    media_type = media_type;
  })

unfoldable pub get_attachment_index : Parser AttachmentIndex
get_attachment_index = do
  offset ← get_le 8
  length ← get_le 8
  log_time ← get_le 8
  create_time ← get_le 8
  data_size ← get_le 8
  name ← get_string
  media_type ← get_string
  pure (record {
    offset = offset;
    length = length;
    log_time = log_time;
    create_time = create_time;
    data_size = data_size;
    name = name;
    media_type = media_type;
  })

unfoldable pub get_statistics : Parser Statistics
get_statistics = do
  message_count ← get_le 8
  schema_count ← get_le 2
  channel_count ← get_le 4
  attachment_count ← get_le 4
  metadata_count ← get_le 4
  chunk_count ← get_le 4
  message_start_time ← get_le 8
  message_end_time ← get_le 8
  channel_message_counts ← parse_int_map 2 8
  pure (record {
    message_count = message_count;
    schema_count = schema_count;
    channel_count = channel_count;
    attachment_count = attachment_count;
    metadata_count = metadata_count;
    chunk_count = chunk_count;
    message_start_time = message_start_time;
    message_end_time = message_end_time;
    channel_message_counts = channel_message_counts;
  })

unfoldable pub get_metadata : Parser Metadata
get_metadata = do
  name ← get_string
  metadata ← parse_string_map
  pure (record { name = name; metadata = metadata })

unfoldable pub get_metadata_index : Parser MetadataIndex
get_metadata_index = do
  offset ← get_le 8
  length ← get_le 8
  name ← get_string
  pure (record { offset = offset; length = length; name = name })

unfoldable pub get_summary_offset : Parser SummaryOffset
get_summary_offset = do
  group_opcode ← get_le 1
  group_start ← get_le 8
  group_length ← get_le 8
  pure (record {
    group_opcode = group_opcode;
    group_start = group_start;
    group_length = group_length;
  })

unfoldable pub get_data_end : Parser DataEnd
get_data_end =
    get_le 4 >>= λ data_section_crc. pure (record { data_section_crc = data_section_crc })
