-- ===== src/ChunkSink.antt =====
-- `ChunkSink` of rust/mcap/src/chunk_sink.rs: the writer of a chunk, direct or through a buffer.
--
-- The stream below is a `Sink`, which accepts all that is written to it, so `finish` does not fail.
pub mod Laws
use mcap.Prelude.{ℕ, Option, none, some, List, [], ◌∷◌}
use mcap.Error.{Bytes}
use mcap.Cursor
use mcap.Cursor.{Cursor}
use mcap.Io.{Sink}

pub data ChunkMode : Type 0 where
  direct : ChunkMode
  buffered : Bytes → ChunkMode

module _ {W : Type 0} (k : Sink W) where
  pub record ChunkSink : Type 0 where
    pub inner : W
    pub buffer : Option Cursor

  unfoldable pub new : W → ChunkMode → ChunkSink
  new w (buffered _) = record { inner = w; buffer = some (record { bytes = []; position = 0 }) }
  new w direct = record { inner = w; buffer = none }

  unfoldable pub write_to : W → Option Cursor → Bytes → ChunkSink
  write_to w (some c) bs = record { inner = w; buffer = some (Cursor.write c bs) }
  write_to w none bs = record { inner = k.write w bs; buffer = none }

  -- `Write::write`, through `as_mut_write`
  unfoldable pub write : ChunkSink → Bytes → ChunkSink
  unfolding write_to
  write s bs = write_to s.inner s.buffer bs

  -- `Seek::stream_position`, through `as_mut_seek`
  unfoldable pub stream_position : ChunkSink → ℕ
  stream_position s = elim s.buffer [ some c ↦ c.position | none ↦ k.stream_position s.inner ]

  unfoldable pub finish_with : W → Option Cursor → W × ChunkMode
  finish_with w (some c) = (k.write w c.bytes, buffered c.bytes)
  finish_with w none = (w, direct)

  unfoldable pub finish : ChunkSink → W × ChunkMode
  unfolding finish_with
  finish s = finish_with s.inner s.buffer

  -- the writes of a chunk, one after the other
  unfoldable pub write_parts : ChunkSink → List Bytes → ChunkSink
  write_parts s [] = s
  write_parts s (bs ∷ rest) = write_parts (write s bs) rest
