-- ===== src/LinearReader/Padding.antt =====
-- The state `PaddingAfterChunk` of `next_event`.
use mcap.Prelude.{ℕ, Bool, ◌&&◌, not, Option, none, some, ◌∷◌, ◌==◌, if◌then◌else◌}
use mcap.Error.{err, bad_chunk_crc}
use mcap.Io.{Crc32}
use mcap.RwBuf
use mcap.RwBuf.{RwBuf}
use mcap.Decompressor.{Decompressor}
use mcap.Step.{go_on, ◌>>=◌, ◌>>◌, put, pure, check}
use mcap.LinearReader.{ChunkState, file_record}
use mcap.LinearReader.Moves.{Move, consume, return_early, enter, set_chunk_state, chunk_state}

module _ (c : Crc32) (d : Decompressor) (checks : Bool) where
  open c use {Hasher, finalize}

  unfoldable pub check_chunk_crc : Option Hasher → ℕ → Move c d Unit
  check_chunk_crc none saved = pure tt
  check_chunk_crc (some h) saved =
      let calculated = finalize h in
      if not (saved == 0) && not (saved == calculated)
      then return_early c d (err (bad_chunk_crc saved calculated))
      else pure tt

  -- `decompressors.insert(name, decompressor)`
  unfoldable pub keep_decompressor : d.State → Move c d Unit
  keep_decompressor decompressor s =
      put (record s { decompressors = (d.name decompressor, decompressor) ∷ s.decompressors }) s

  unfoldable pub take_decompressed_hasher : Move c d (Option Hasher)
  take_decompressed_hasher s =
      go_on s.decompressed_content.hasher
        (record s { decompressed_content = RwBuf.set_hasher c s.decompressed_content none })

  unfoldable pub end_chunk : ChunkState c d → Option d.State → Move c d Unit
  end_chunk state (some decompressor) = do
    set_chunk_state c d (some (record state { decompressor = none }))
    fresh_one ← check (d.reset decompressor)
    keep_decompressor fresh_one
    hasher ← take_decompressed_hasher
    check_chunk_crc hasher state.crc
  end_chunk state none = do
    set_chunk_state c d (some (record state { uncompressed_data_hasher = none }))
    check_chunk_crc state.uncompressed_data_hasher state.crc

  unfoldable pub skip_padding : Move c d Unit
  skip_padding = do
    state ← chunk_state c d
    consume c d state.padding_after_compressed_data
    end_chunk state state.decompressor
    set_chunk_state c d none
    enter c d file_record
