-- ===== src/Records.antt =====
-- The record types of rust/mcap/src/records.rs.
--
-- The integer fields hold natural numbers; the modules below state where a u8, u16, u32 or u64 bounds
-- one. A `BTreeMap` is the list of its entries in the order of its keys.
pub mod Maps
pub mod Encode
pub mod Decode
pub mod Fits
pub mod RoundTrip
pub mod Total
use mcap.Prelude.{ℕ, ◌+◌, ◌^◌, List, length, ltb, if◌then◌else◌}
use mcap.Error.{Bytes, Result, ok, err, bad_chunk_start_offset}

abbrev pub StringMap : Type 0
StringMap = List (Bytes × Bytes)

abbrev pub IntMap : Type 0
IntMap = List (ℕ × ℕ)

pub record Header : Type 0 where
  pub profile : Bytes
  pub library : Bytes

pub record Footer : Type 0 where
  pub summary_start : ℕ
  pub summary_offset_start : ℕ
  pub summary_crc : ℕ

pub record SchemaHeader : Type 0 where
  pub id : ℕ
  pub name : Bytes
  pub encoding : Bytes

pub record Channel : Type 0 where
  pub id : ℕ
  pub schema_id : ℕ
  pub topic : Bytes
  pub message_encoding : Bytes
  pub metadata : StringMap

pub record MessageHeader : Type 0 where
  pub channel_id : ℕ
  pub sequence : ℕ
  pub log_time : ℕ
  pub publish_time : ℕ

pub record ChunkHeader : Type 0 where
  pub message_start_time : ℕ
  pub message_end_time : ℕ
  pub uncompressed_size : ℕ
  pub uncompressed_crc : ℕ
  pub compression : Bytes
  pub compressed_size : ℕ

pub record MessageIndexEntry : Type 0 where
  pub log_time : ℕ
  pub offset : ℕ

pub record MessageIndex : Type 0 where
  pub channel_id : ℕ
  pub records : List MessageIndexEntry

pub record ChunkIndex : Type 0 where
  pub message_start_time : ℕ
  pub message_end_time : ℕ
  pub chunk_start_offset : ℕ
  pub chunk_length : ℕ
  pub message_index_offsets : IntMap
  pub message_index_length : ℕ
  pub compression : Bytes
  pub compressed_size : ℕ
  pub uncompressed_size : ℕ

pub record AttachmentHeader : Type 0 where
  pub log_time : ℕ
  pub create_time : ℕ
  pub name : Bytes
  pub media_type : Bytes

pub record AttachmentIndex : Type 0 where
  pub offset : ℕ
  pub length : ℕ
  pub log_time : ℕ
  pub create_time : ℕ
  pub data_size : ℕ
  pub name : Bytes
  pub media_type : Bytes

pub record Statistics : Type 0 where
  pub message_count : ℕ
  pub schema_count : ℕ
  pub channel_count : ℕ
  pub attachment_count : ℕ
  pub metadata_count : ℕ
  pub chunk_count : ℕ
  pub message_start_time : ℕ
  pub message_end_time : ℕ
  pub channel_message_counts : IntMap

pub record Metadata : Type 0 where
  pub name : Bytes
  pub metadata : StringMap

pub record MetadataIndex : Type 0 where
  pub offset : ℕ
  pub length : ℕ
  pub name : Bytes

pub record SummaryOffset : Type 0 where
  pub group_opcode : ℕ
  pub group_start : ℕ
  pub group_length : ℕ

pub record DataEnd : Type 0 where
  pub data_section_crc : ℕ

-- A `Cow` of bytes is the bytes: `into_owned` changes nothing here.
pub data Record : Type 0 where
  header : Header → Record
  footer : Footer → Record
  schema : SchemaHeader → Bytes → Record
  channel : Channel → Record
  message : MessageHeader → Bytes → Record
  chunk : ChunkHeader → Bytes → Record
  message_index : MessageIndex → Record
  chunk_index : ChunkIndex → Record
  attachment : AttachmentHeader → Bytes → ℕ → Record
  attachment_index : AttachmentIndex → Record
  statistics : Statistics → Record
  metadata : Metadata → Record
  metadata_index : MetadataIndex → Record
  summary_offset : SummaryOffset → Record
  data_end : DataEnd → Record
  unknown : ℕ → Bytes → Record

unfoldable pub opcode : Record → ℕ
opcode (header _) = 0x01
opcode (footer _) = 0x02
opcode (schema _ _) = 0x03
opcode (channel _) = 0x04
opcode (message _ _) = 0x05
opcode (chunk _ _) = 0x06
opcode (message_index _) = 0x07
opcode (chunk_index _) = 0x08
opcode (attachment _ _ _) = 0x09
opcode (attachment_index _) = 0x0a
opcode (statistics _) = 0x0b
opcode (metadata _) = 0x0c
opcode (metadata_index _) = 0x0d
opcode (summary_offset _) = 0x0e
opcode (data_end _) = 0x0f
opcode (unknown op _) = op

-- `into_owned`: the same record, with bytes of its own.
unfoldable pub into_owned : Record → Record
into_owned (header h) = header h
into_owned (footer f) = footer f
into_owned (schema h bytes) = schema h bytes
into_owned (channel c) = channel c
into_owned (message h bytes) = message h bytes
into_owned (chunk h bytes) = chunk h bytes
into_owned (message_index i) = message_index i
into_owned (chunk_index c) = chunk_index c
into_owned (attachment h bytes crc) = attachment h bytes crc
into_owned (attachment_index i) = attachment_index i
into_owned (statistics s) = statistics s
into_owned (metadata m) = metadata m
into_owned (metadata_index i) = metadata_index i
into_owned (summary_offset o) = summary_offset o
into_owned (data_end e) = data_end e
into_owned (unknown op bytes) = unknown op bytes

-- `MessageHeader::serialized_len`
unfoldable pub serialized_len : MessageHeader → ℕ
serialized_len h = 2 + 4 + 8 + 8

-- `ChunkIndex::compressed_data_offset`, with its `checked_add` of u64.
unfoldable pub compressed_data_offset : ChunkIndex → Result ℕ
compressed_data_offset c =
    let n = c.chunk_start_offset + (1 + 8 + 8 + 8 + 8 + 4 + 4 + length c.compression + 8) in
    if ltb n (2 ^ 64) then ok n else err (bad_chunk_start_offset c.chunk_start_offset)
