-- ===== src/LinearReader/Returns.antt =====
-- Whether `next_event` returns, and the state that it leaves.
pub mod Jobs
pub mod Rules
pub mod Records
pub mod Header
pub mod Work
pub mod Validating
pub mod Chunks
pub mod Padding
use mcap.Prelude.{
  ℕ, ◌≤◌, ◌≡◌, refl, sym, ap, Bool, true, false, ◌++◌, ◌&&◌, ◌||◌, ◌∙◌, none, arith, length, leb,
  ◌==◌, if◌then◌else◌,
}
use mathlib.Core.Path.{subst}
use mcap.Error.{Bytes, ok}
use mcap.Io.{Crc32}
use mcap.RwBuf
use mcap.RwBuf.Laws
use mcap.Decompressor.{Decompressor}
use mcap.LinearReader.{LinearReader, start_magic, file_record}
use mcap.LinearReader
use mcap.LinearReader.Options.{LinearReaderOptions}
use mcap.LinearReader.Moves.{Event}
use mcap.LinearReader.Event.{is_after_end_magic, is_none}
use mcap.LinearReader.Returns.Rules.{ReaderIsValid, HasChunk, chunk_rank}

module _ (c : Crc32) (d : Decompressor) where
  -- a new reader is in order
  pub new_with_options-IsValid :
      (o : LinearReaderOptions) → ReaderIsValid c d (mcap.LinearReader.new_with_options c d o)
  unfolding mcap.LinearReader.new_with_options
  new_with_options-IsValid o = record {
    file_valid = Laws.new-IsValid c _;
    content_valid = Laws.new-IsValid c _;
    chunk_set = at_start o.skip_start_magic;
  }
    where
      at_start : (b : Bool) → HasChunk c d (if b then file_record else start_magic) none
      at_start true = tt
      at_start false = tt

  -- and so it is after a client has received bytes
  pub receive-IsValid :
      (s : LinearReader c d) (n : ℕ) (got : Bytes)
      → ReaderIsValid c d s
      → length got ≤ n
      → (s' : LinearReader c d) × (mcap.LinearReader.notify_read c d
            (mcap.LinearReader.write_received c d (mcap.LinearReader.insert c d s n) got)
            (length got)
          ≡ ok s')
        × ReaderIsValid c d s'
        × (RwBuf.unread c s'.file_data ≡ RwBuf.unread c s.file_data ++ got)
  unfolding mcap.LinearReader.notify_read mcap.LinearReader.write_received mcap.LinearReader.insert
  receive-IsValid s n got v fits = (
    record s { file_data = received; at_eof = if length got == 0 then true else s.at_eof },
    rw (Laws.mark_written_ok c got k.valid room) refl,
    record { file_valid = g.valid; content_valid = v.content_valid; chunk_set = v.chunk_set },
    g.more ∙ ap (λ (l : Bytes). l ++ got) k.same_unread,
  )
    where
      k : Laws.Keeps c s.file_data (RwBuf.tail_with_size c s.file_data n) n
      k = Laws.tail_with_size-Keeps c n v.file_valid

      room : length got ≤ length (RwBuf.unwritten c (RwBuf.tail_with_size c s.file_data n))
      room = omega (arith, k.place)

      received : RwBuf.RwBuf c
      received = Laws.appended c (RwBuf.tail_with_size c s.file_data n) got

      g : Laws.Grows c (RwBuf.tail_with_size c s.file_data n) received got
      g = Laws.appended-Grows c got k.valid room
