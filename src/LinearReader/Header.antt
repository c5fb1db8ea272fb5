-- ===== src/LinearReader/Header.antt =====
-- The state `ChunkHeader` of `next_event`, and `for_chunk`.
use mcap.Prelude.{ℕ, ◌+◌, true, ◌&&◌, not, Option, none, some, List, [], ◌==◌, if◌then◌else◌}
use mcap.Error.{
  Bytes, Result, ok, err, panic, stuck, record_too_large, chunk_too_large, bad_chunk_crc,
  unexpected_eoc,
}
use mcap.Error
use mcap.HashMap.{bytes_eq}
use mcap.Io.{Crc32}
use mcap.RwBuf
use mcap.RwBuf.{RwBuf}
use mcap.Records.{ChunkHeader}
use mcap.Records.Decode.{get_chunk_header}
use mcap.Decompressor.{Decompressor}
use mcap.Step.{Outcome, ◌>>=◌, put, check, check_in}
use mcap.LinearReader.Options.{
  checked_sub, ok_or, default_options, with_skip_end_magic, with_skip_start_magic,
  with_validate_chunk_crcs,
}
use mcap.LinearReader.{
  LinearReader, ChunkState, validating_chunk_crc, chunk_record, new_with_options,
}
use mcap.LinearReader.Decompress.{get_decompressor}
use mcap.LinearReader.Moves.{Move, Event, from_le, load, consume, limited, view}

module _ (c : Crc32) (d : Decompressor) where
  open c use {Hasher, fresh}

  unfoldable pub chunk_of : ChunkHeader → Option d.State → ChunkState c d
  chunk_of header decompressor = record {
    decompressor = decompressor;
    uncompressed_data_hasher = some fresh;
    compressed_remaining = header.compressed_size;
    uncompressed_remaining = header.uncompressed_size;
    uncompressed_len = header.uncompressed_size;
    padding_after_compressed_data = 0;
    crc = header.uncompressed_crc;
  }

  unfoldable pub for_chunk : ChunkHeader → Result (LinearReader c d)
  for_chunk header =
      let options =
        with_validate_chunk_crcs
          (with_skip_start_magic (with_skip_end_magic default_options true) true) true in
      Error.◌>>=◌ (get_decompressor d [] header.compression).0 λ decompressor.
        ok (record (new_with_options c d options) {
          currently_reading = chunk_record;
          chunk_state = some (chunk_of header decompressor);
        })

  -- `get_decompressor(&mut self.decompressors, ..)`
  unfoldable pub got_decompressor :
      LinearReader c d
      → Result (Option d.State) × List (Bytes × d.State)
      → Outcome (LinearReader c d) Event (Option d.State)
  got_decompressor s (r, ds) = check_in (record s { decompressors = ds }) r

  unfoldable pub find_decompressor : Bytes → Move c d (Option d.State)
  find_decompressor name s = got_decompressor s (get_decompressor d s.decompressors name)

  unfoldable pub start_chunk : ChunkHeader → Option d.State → ℕ → Move c d Unit
  start_chunk header decompressor padding s =
      let o = s.options in
      let hashed =
        o.validate_chunk_crcs
        && not o.prevalidate_chunk_crcs
        && not (header.uncompressed_crc == 0) in
      let stored = bytes_eq header.compression [] in
      put
        (record s {
          decompressed_content =
              RwBuf.set_hasher c (RwBuf.clear c s.decompressed_content)
                (if hashed && not stored then some fresh else none);
          currently_reading =
              if o.prevalidate_chunk_crcs && not (header.uncompressed_crc == 0)
              then validating_chunk_crc
              else chunk_record;
          chunk_state = some (record {
            decompressor = decompressor;
            uncompressed_data_hasher = if hashed && stored then some fresh else none;
            compressed_remaining = header.compressed_size;
            uncompressed_len = header.uncompressed_size;
            uncompressed_remaining = header.uncompressed_size;
            padding_after_compressed_data = padding;
            crc = header.uncompressed_crc;
          });
        })
        s

  unfoldable pub read_chunk_header : ℕ → Move c d Unit
  read_chunk_header len = do
    min_header ← load c d 40
    count ← view c d min_header 28 32
    let header_len = 40 + from_le count
    header_buf ← consume c d header_len
    (header, _) ← check (get_chunk_header header_buf)
    decompressor ← find_decompressor header.compression
    chunk_data_len ← check (ok_or (checked_sub len header_len) unexpected_eoc)
    room ← check (ok_or (checked_sub chunk_data_len header.compressed_size) unexpected_eoc)
    padding ← limited c d (chunk_too_large len) room
    start_chunk header decompressor padding
