-- ===== src/LinearReader/Event.antt =====
-- `next_event`: its loop runs the states, on fuel.
use mcap.Prelude.{ℕ, Bool, ◌&&◌, ◌||◌, Option, none, some, ◌==◌, if◌then◌else◌}
use mcap.Error.{err, unexpected_eof}
use mcap.Io.{Crc32}
use mcap.RwBuf
use mcap.Decompressor.{Decompressor}
use mcap.Step.{rounds}
use mcap.LinearReader.{
  LinearReader, CurrentlyReading, ChunkState, start_magic, file_record, chunk_header, footer,
  data_end, validating_chunk_crc, chunk_record, padding_after_chunk, end_magic, after_end_magic,
}
use mcap.LinearReader.Moves.{Move, Event}
use mcap.LinearReader.Records.{
  read_start_magic, read_file_record, read_data_end, read_footer, read_end_magic,
  read_after_end_magic,
}
use mcap.LinearReader.Header.{read_chunk_header}
use mcap.LinearReader.Validating.{validate_chunk_crc}
use mcap.LinearReader.Chunks.{read_chunk_record}
use mcap.LinearReader.Padding.{skip_padding}

module _ (c : Crc32) (d : Decompressor) (checks : Bool) where
  unfoldable pub step_in : CurrentlyReading c d → Move c d Unit
  step_in start_magic = read_start_magic c d checks
  step_in file_record = read_file_record c d checks
  step_in (data_end len calculated) = read_data_end c d checks len calculated
  step_in (footer len hasher) = read_footer c d checks len hasher
  step_in (chunk_header len) = read_chunk_header c d len
  step_in validating_chunk_crc = validate_chunk_crc c d checks
  step_in chunk_record = read_chunk_record c d checks
  step_in padding_after_chunk = skip_padding c d checks
  step_in end_magic = read_end_magic c d checks
  step_in after_end_magic = read_after_end_magic c d checks

  unfoldable pub step : Move c d Unit
  step s = step_in s.currently_reading s

  unfoldable pub is_after_end_magic : CurrentlyReading c d → Bool
  is_after_end_magic after_end_magic = Bool.true
  is_after_end_magic _ = Bool.false

  unfoldable pub is_none : Option (ChunkState c d) → Bool
  is_none none = Bool.true
  is_none (some state) = Bool.false

  -- at the end of the input
  unfoldable pub ended : LinearReader c d → Event
  ended s =
      if (s.options.skip_end_magic || is_after_end_magic s.currently_reading)
        && RwBuf.len c s.file_data == 0
        && RwBuf.len c s.decompressed_content == 0
        && is_none s.chunk_state
      then none
      else some (err unexpected_eof)

  unfoldable pub next_event : ℕ → LinearReader c d → Event × LinearReader c d
  next_event fuel s = if s.at_eof then (ended s, s) else rounds step fuel s
