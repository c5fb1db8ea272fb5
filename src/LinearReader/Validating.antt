-- ===== src/LinearReader/Validating.antt =====
-- The state `ValidatingChunkCrc` of `next_event`.
use mcap.Prelude.{ℕ, Bool, not, Option, none, some, leb, ◌==◌, if◌then◌else◌}
use mcap.Error.{err, chunk_too_large, bad_chunk_crc}
use mcap.Io.{Crc32}
use mcap.RwBuf
use mcap.RwBuf.{RwBuf}
use mcap.Decompressor.{Decompressor}
use mcap.Step.{◌>>=◌, get, pure}
use mcap.LinearReader.{ChunkState, chunk_record}
use mcap.LinearReader.Moves.{Move, load, return_early, enter, chunk_state, limited}
use mcap.LinearReader.Work.{decompress}

module _ (c : Crc32) (d : Decompressor) (checks : Bool) where
  open c use {hash}

  unfoldable pub prevalidated : ℕ → ℕ → Move c d Unit
  prevalidated calculated saved =
      if not (calculated == saved)
      then return_early c d (err (bad_chunk_crc saved calculated))
      else enter c d chunk_record

  unfoldable pub validate_with : ChunkState c d → Option d.State → Move c d Unit
  validate_with state none = do
    n ← limited c d (chunk_too_large state.compressed_remaining) state.compressed_remaining
    records ← load c d n
    prevalidated (hash records) state.crc
  validate_with state (some decompressor) = do
    n ← limited c d (chunk_too_large state.uncompressed_len) state.uncompressed_len
    s ← get
    if leb n (RwBuf.len c s.decompressed_content)
        then prevalidated (hash (RwBuf.unread c s.decompressed_content)) state.crc
        else (decompress c d checks n >>= λ _. pure tt)

  unfoldable pub validate_chunk_crc : Move c d Unit
  validate_chunk_crc = do state ← chunk_state c d; validate_with state state.decompressor
