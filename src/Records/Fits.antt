-- ===== src/Records/Fits.antt =====
-- What the Rust types of the fields guarantee, and that each string, map and vector is short enough
-- for its u32 length.
use mcap.Prelude.{◌*◌, ◌^◌, ◌<◌, All, length}
use mcap.Bytes.RoundTrip.{StringFits}
use mcap.Records.{
  Header, Footer, SchemaHeader, Channel, MessageHeader, ChunkHeader, MessageIndexEntry,
  MessageIndex, ChunkIndex, AttachmentHeader, AttachmentIndex, Statistics, Metadata, MetadataIndex,
  SummaryOffset, DataEnd,
}
use mcap.Records.Maps.Entries.{StringMapFits, IntMapFits}

pub record HeaderFits (r : Header) : Type 0 where
  pub profile : StringFits r.profile
  pub library : StringFits r.library

pub record FooterFits (r : Footer) : Type 0 where
  pub summary_start : r.summary_start < 2 ^ 64
  pub summary_offset_start : r.summary_offset_start < 2 ^ 64
  pub summary_crc : r.summary_crc < 2 ^ 32

pub record SchemaHeaderFits (r : SchemaHeader) : Type 0 where
  pub id : r.id < 2 ^ 16
  pub name : StringFits r.name
  pub encoding : StringFits r.encoding

pub record ChannelFits (r : Channel) : Type 0 where
  pub id : r.id < 2 ^ 16
  pub schema_id : r.schema_id < 2 ^ 16
  pub topic : StringFits r.topic
  pub message_encoding : StringFits r.message_encoding
  pub metadata : StringMapFits r.metadata

pub record MessageHeaderFits (r : MessageHeader) : Type 0 where
  pub channel_id : r.channel_id < 2 ^ 16
  pub sequence : r.sequence < 2 ^ 32
  pub log_time : r.log_time < 2 ^ 64
  pub publish_time : r.publish_time < 2 ^ 64

pub record ChunkHeaderFits (r : ChunkHeader) : Type 0 where
  pub message_start_time : r.message_start_time < 2 ^ 64
  pub message_end_time : r.message_end_time < 2 ^ 64
  pub uncompressed_size : r.uncompressed_size < 2 ^ 64
  pub uncompressed_crc : r.uncompressed_crc < 2 ^ 32
  pub compression : StringFits r.compression
  pub compressed_size : r.compressed_size < 2 ^ 64

pub record MessageIndexEntryFits (r : MessageIndexEntry) : Type 0 where
  pub log_time : r.log_time < 2 ^ 64
  pub offset : r.offset < 2 ^ 64

pub record MessageIndexFits (r : MessageIndex) : Type 0 where
  pub channel_id : r.channel_id < 2 ^ 16
  pub records : All MessageIndexEntryFits r.records
  pub short : length r.records * 16 < 2 ^ 32

pub record ChunkIndexFits (r : ChunkIndex) : Type 0 where
  pub message_start_time : r.message_start_time < 2 ^ 64
  pub message_end_time : r.message_end_time < 2 ^ 64
  pub chunk_start_offset : r.chunk_start_offset < 2 ^ 64
  pub chunk_length : r.chunk_length < 2 ^ 64
  pub message_index_offsets : IntMapFits 2 8 r.message_index_offsets
  pub message_index_length : r.message_index_length < 2 ^ 64
  pub compression : StringFits r.compression
  pub compressed_size : r.compressed_size < 2 ^ 64
  pub uncompressed_size : r.uncompressed_size < 2 ^ 64

pub record AttachmentHeaderFits (r : AttachmentHeader) : Type 0 where
  pub log_time : r.log_time < 2 ^ 64
  pub create_time : r.create_time < 2 ^ 64
  pub name : StringFits r.name
  pub media_type : StringFits r.media_type

pub record AttachmentIndexFits (r : AttachmentIndex) : Type 0 where
  pub offset : r.offset < 2 ^ 64
  pub length : r.length < 2 ^ 64
  pub log_time : r.log_time < 2 ^ 64
  pub create_time : r.create_time < 2 ^ 64
  pub data_size : r.data_size < 2 ^ 64
  pub name : StringFits r.name
  pub media_type : StringFits r.media_type

pub record StatisticsFits (r : Statistics) : Type 0 where
  pub message_count : r.message_count < 2 ^ 64
  pub schema_count : r.schema_count < 2 ^ 16
  pub channel_count : r.channel_count < 2 ^ 32
  pub attachment_count : r.attachment_count < 2 ^ 32
  pub metadata_count : r.metadata_count < 2 ^ 32
  pub chunk_count : r.chunk_count < 2 ^ 32
  pub message_start_time : r.message_start_time < 2 ^ 64
  pub message_end_time : r.message_end_time < 2 ^ 64
  pub channel_message_counts : IntMapFits 2 8 r.channel_message_counts

pub record MetadataFits (r : Metadata) : Type 0 where
  pub name : StringFits r.name
  pub metadata : StringMapFits r.metadata

pub record MetadataIndexFits (r : MetadataIndex) : Type 0 where
  pub offset : r.offset < 2 ^ 64
  pub length : r.length < 2 ^ 64
  pub name : StringFits r.name

pub record SummaryOffsetFits (r : SummaryOffset) : Type 0 where
  pub group_opcode : r.group_opcode < 2 ^ 8
  pub group_start : r.group_start < 2 ^ 64
  pub group_length : r.group_length < 2 ^ 64

pub record DataEndFits (r : DataEnd) : Type 0 where
  pub data_section_crc : r.data_section_crc < 2 ^ 32
