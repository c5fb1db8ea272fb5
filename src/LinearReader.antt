-- ===== src/LinearReader.antt =====
-- The state of `LinearReader` in rust/mcap/src/sans_io/linear_reader.rs, its options, `check_len` of
-- rust/mcap/src/sans_io.rs, and the operations that its clients call between two events.
--
-- A machine has 64 bits, so `usize::try_from` of a u64 does not fail. `crc32fast` is the parameter
-- `c`, and the decompressors `d`.
pub mod Options
pub mod Decompress
pub mod Moves
pub mod Records
pub mod Header
pub mod Work
pub mod Validating
pub mod Chunks
pub mod Padding
pub mod Event
pub mod Returns
pub mod Stream
pub mod Overlong
use mcap.Prelude.{
  ℕ, ◌-◌, ◌^◌, min, Bool, true, false, ◌&&◌, not, Option, none, some, List, [], ◌∷◌, ltb, ◌==◌,
  if◌then◌else◌,
}
use mcap.Error.{Bytes, Result, ok, err, panic, ◌>>=◌, unsupported_compression}
use mcap.HashMap.{bytes_eq}
use mcap.Io.{Crc32}
use mcap.RwBuf
use mcap.RwBuf.{RwBuf}
use mcap.Decompressor.{Decompressor}
use mcap.LinearReader.Options.{LinearReaderOptions}

module _ (c : Crc32) (d : Decompressor) where
  open c use {Hasher}

  pub data CurrentlyReading : Type 0 where
    start_magic file_record : CurrentlyReading
    chunk_header : ℕ → CurrentlyReading
    footer : ℕ → Option Hasher → CurrentlyReading
    data_end : ℕ → Option ℕ → CurrentlyReading
    validating_chunk_crc chunk_record padding_after_chunk : CurrentlyReading
    end_magic after_end_magic : CurrentlyReading

  pub record ChunkState : Type 0 where
    pub decompressor : Option d.State
    pub uncompressed_data_hasher : Option Hasher
    pub compressed_remaining : ℕ
    pub uncompressed_remaining : ℕ
    pub uncompressed_len : ℕ
    pub padding_after_compressed_data : ℕ
    pub crc : ℕ

  pub record LinearReader : Type 0 where
    pub currently_reading : CurrentlyReading
    pub chunk_state : Option ChunkState
    pub file_data : RwBuf c
    pub decompressed_content : RwBuf c
    pub decompressors : List (Bytes × d.State)
    pub options : LinearReaderOptions
    pub at_eof : Bool

  unfoldable pub new_with_options : LinearReaderOptions → LinearReader
  new_with_options o = record {
    currently_reading = if o.skip_start_magic then file_record else start_magic;
    chunk_state = none;
    file_data = RwBuf.new c o.validate_data_section_crc;
    decompressed_content = RwBuf.new c (o.validate_chunk_crcs && not o.prevalidate_chunk_crcs);
    decompressors = [];
    options = o;
    at_eof = false;
  }

  -- The client writes to the place that `insert` gives it: `received` are these bytes.
  unfoldable pub insert : LinearReader → ℕ → LinearReader
  insert s to_write = record s { file_data = RwBuf.tail_with_size c s.file_data to_write }

  unfoldable pub write_received : LinearReader → Bytes → LinearReader
  write_received s received = record s { file_data = RwBuf.write_tail c s.file_data received }

  -- Its own test for a number above the last inserted length is the one that `mark_written` asserts.
  unfoldable pub notify_read : LinearReader → ℕ → Result LinearReader
  notify_read s written = RwBuf.mark_written c s.file_data written >>= λ b.
      ok (record s { file_data = b; at_eof = if written == 0 then true else s.at_eof })
