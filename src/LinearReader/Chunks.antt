-- ===== src/LinearReader/Chunks.antt =====
-- The state `ChunkRecord` of `next_event`.
use mcap.Prelude.{ℕ, Bool, ◌&&◌, Option, none, some, length, take, drop, ltb, ◌==◌, if◌then◌else◌}
use mcap.Error.{
  Bytes, Result, ok, err, panic, stuck, record_too_large, chunk_too_large, bad_chunk_crc,
  unexpected_eoc,
}
use mcap.Error
use mcap.Io.{Crc32, update_hasher}
use mcap.RwBuf
use mcap.RwBuf.{RwBuf}
use mcap.Decompressor.{Decompressor}
use mcap.Step.{◌>>=◌, ◌>>◌, get, put, check}
use mcap.LinearReader.Options.{add_usize, sub_u64, ok_or}
use mcap.LinearReader.{ChunkState, padding_after_chunk}
use mcap.LinearReader.Moves.{
  Move, from_le, opcode_of, length_of, load, consume, with_decompressed, emit, enter,
  set_chunk_state, chunk_state, limited, view,
}
use mcap.LinearReader.Work.{decompress}

-- `split_first_chunk`, twice
unfoldable pub split_opcode_length : Bytes → Option (ℕ × ℕ)
split_opcode_length buf =
    if ltb (length buf) 9 then none else some (opcode_of buf, from_le (take 8 (drop 1 buf)))

module _ (c : Crc32) (d : Decompressor) (checks : Bool) where
  -- a record of a chunk that is not compressed
  unfoldable pub stored_record : ChunkState c d → Move c d Unit
  stored_record state = do
    buf ← load c d 9
    let op = opcode_of buf
    let len = length_of buf
    n ← limited c d (record_too_large op len) len
    total ← check (add_usize checks 9 n)
    bytes ← consume c d total
    body ← view c d bytes 9 (length bytes)
    left ← check (sub_u64 checks state.compressed_remaining total)
    set_chunk_state c d (
        some (record state {
          uncompressed_data_hasher = update_hasher c state.uncompressed_data_hasher bytes;
          compressed_remaining = left;
        }))
    emit c d op body

  unfoldable pub clear_if_empty : Move c d Unit
  clear_if_empty s =
      if RwBuf.len c s.decompressed_content == 0
      then put (record s { decompressed_content = RwBuf.clear c s.decompressed_content }) s
      else put s s

  unfoldable pub finish_compressed : ChunkState c d → Move c d Unit
  finish_compressed state = do
    n ← limited c d (chunk_too_large state.compressed_remaining) state.compressed_remaining
    padding ← check (add_usize checks state.padding_after_compressed_data n)
    set_chunk_state c d
        (some (record state { padding_after_compressed_data = padding; compressed_remaining = 0 }))
    enter c d padding_after_chunk

  -- `decompressed_content.mark_read` and `.consume`
  unfoldable pub mark_decompressed : ℕ → Move c d Unit
  mark_decompressed n s =
      with_decompressed c d s
        (Error.◌>>=◌ (RwBuf.mark_read c s.decompressed_content n) (λ b. ok (tt, b)))

  unfoldable pub consume_decompressed : ℕ → Move c d Bytes
  consume_decompressed n s = with_decompressed c d s (RwBuf.consume c s.decompressed_content n)

  unfoldable pub compressed_record : Move c d Unit
  compressed_record = do
    buf ← decompress c d checks 9
    (op, len) ← check (ok_or (split_opcode_length buf) unexpected_eoc)
    n ← limited c d (record_too_large op len) len
    total ← check (add_usize checks 9 n)
    decompress c d checks total
    mark_decompressed 9
    body ← consume_decompressed n
    emit c d op body

  unfoldable pub record_in : ChunkState c d → Option d.State → Move c d Unit
  record_in state none =
      if state.compressed_remaining == 0 then enter c d padding_after_chunk else stored_record state
  record_in state (some decompressor) = do
    clear_if_empty
    s ← get
    if state.uncompressed_remaining == 0 && RwBuf.len c s.decompressed_content == 0
        then finish_compressed state
        else compressed_record

  unfoldable pub read_chunk_record : Move c d Unit
  read_chunk_record = do state ← chunk_state c d; record_in state state.decompressor
