-- ===== src/LinearReader/Work.antt =====
-- The macro `decompress!` of `next_event`: what `decompress_inner` does to the fields of the reader.
use mcap.Prelude.{ℕ, Bool, Option, none, some}
use mcap.Error.{Bytes, Result, ok, err, panic, stuck}
use mcap.Io.{Crc32}
use mcap.RwBuf
use mcap.RwBuf.{RwBuf}
use mcap.Decompressor.{Decompressor}
use mcap.LinearEvents.{read_request}
use mcap.Step.{Outcome, leave}
use mcap.LinearReader.{LinearReader, ChunkState}
use mcap.LinearReader.Decompress.{Job, decompress_inner}
use mcap.LinearReader.Moves.{Move, Event, view}

module _ (c : Crc32) (d : Decompressor) (checks : Bool) where
  -- what `decompress_inner` has done to the places that it works on
  unfoldable pub worked : LinearReader c d → ChunkState c d → Job c d checks → LinearReader c d
  worked s state j = record s {
    file_data = j.src_buf;
    decompressed_content = j.dest_buf;
    chunk_state = some (record state {
      decompressor = some j.decompressor;
      compressed_remaining = j.compressed_remaining;
      uncompressed_remaining = j.uncompressed_remaining;
    });
  }

  unfoldable pub decompressed :
      ℕ
      → LinearReader c d
      → ChunkState c d
      → Result (Option ℕ) × Job c d checks
      → Outcome (LinearReader c d) Event Bytes
  decompressed n s state (ok none, j) = view c d (RwBuf.unread c j.dest_buf) 0 n (worked s state j)
  decompressed n s state (ok (some more), j) =
      leave (some (ok (read_request more))) (worked s state j)
  decompressed n s state (err e, j) = leave (some (err e)) (worked s state j)
  decompressed n s state (panic, j) = leave (some panic) (worked s state j)
  decompressed n s state (stuck, j) = leave (some stuck) (worked s state j)

  unfoldable pub decompress_with :
      ℕ → LinearReader c d → ChunkState c d → d.State → Outcome (LinearReader c d) Event Bytes
  decompress_with n s state decompressor = decompressed n s state (
      decompress_inner c d checks n (record {
        decompressor = decompressor;
        src_buf = s.file_data;
        dest_buf = s.decompressed_content;
        compressed_remaining = state.compressed_remaining;
        uncompressed_remaining = state.uncompressed_remaining;
      }))

  unfoldable pub decompress_in :
      ℕ
      → LinearReader c d
      → Option (ChunkState c d)
      → Option d.State
      → Outcome (LinearReader c d) Event Bytes
  decompress_in n s (some state) (some decompressor) = decompress_with n s state decompressor
  decompress_in n s (some state) none = leave (some panic) s
  decompress_in n s none decompressor = leave (some panic) s

  abbrev pub decompressor_of : Option (ChunkState c d) → Option d.State
  decompressor_of none = none
  decompressor_of (some state) = state.decompressor

  -- the macro `decompress!`, with the `state` and `decompressor` that its uses stand below
  unfoldable pub decompress : ℕ → Move c d Bytes
  decompress n s = decompress_in n s s.chunk_state (decompressor_of s.chunk_state)
