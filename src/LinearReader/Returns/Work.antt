-- ===== src/LinearReader/Returns/Work.antt =====
-- What the macro `decompress!` leaves.
use mcap.Prelude.{ℕ, ◌+◌, ◌^◌, ◌≤◌, ◌<◌, ◌≡◌, refl, sym, false, Option, none, some, arith}
use mathlib.Core.Path.{subst}
use mcap.Error.{Bytes, Result, ok, err, panic, stuck}
use mcap.Io.{Crc32}
use mcap.RwBuf
use mcap.RwBuf.{RwBuf}
use mcap.RwBuf.Laws
use mcap.Decompressor.{Decompressor, IsDecompressor, Progresses}
use mcap.Step.{◌>>=◌, then_step}
use mcap.LinearReader.{
  LinearReader, ChunkState, file_record, validating_chunk_crc, chunk_record, padding_after_chunk,
}
use mcap.LinearReader.Decompress.{Job, decompress_inner}
use mcap.LinearReader.Moves.{Move}
use mcap.LinearReader.Work.{
  worked, decompressed, decompress_with, decompress_in, decompressor_of, decompress,
}
use mcap.LinearReader.Returns.Jobs.{Leaves, Leaves-decompress_inner}
use mcap.LinearReader.Returns.Rules.{ReaderIsValid, Post, leaves, Post-view, HasChunk}

module _ (c : Crc32) (d : Decompressor) (limit : ℕ) where
  pub HasChunk-some :
      (r : mcap.LinearReader.CurrentlyReading c d) (state : ChunkState c d)
      → HasChunk c d r (some state)
  HasChunk-some validating_chunk_crc state = tt
  HasChunk-some chunk_record state = tt
  HasChunk-some padding_after_chunk state = tt
  HasChunk-some _ state = tt

  module _ (h : IsDecompressor d) (p : Progresses d) where
    -- `decompress!` for `n` bytes in a chunk that is compressed.
    pub Post-decompress :
        {B : Type 0} {R : B → LinearReader c d → Type 0} (n : ℕ) (f : Bytes → Move c d B)
        (s : LinearReader c d) (state : ChunkState c d) (dec : d.State)
        → ReaderIsValid c d s
        → s.chunk_state ≡ some state
        → state.decompressor ≡ some dec
        → n + s.decompressed_content.start < 2 ^ 64
        → ((bytes : Bytes) (j : Job c d false)
            → n ≤ RwBuf.len c j.dest_buf
            → RwBuf.len c j.src_buf ≤ RwBuf.len c s.file_data
            → j.dest_buf.start ≡ s.decompressed_content.start
            → ReaderIsValid c d (worked c d false s state j)
            → Post c d R (f bytes (worked c d false s state j)))
        → Post c d R ((decompress c d false n >>= f) s)
    unfolding decompress decompress_in decompress_with decompressed ◌>>=◌ then_step
    Post-decompress {B} {R} n f s state dec v e e' small k = rewritten
      where
        job : Job c d false
        job = record {
          decompressor = dec;
          src_buf = s.file_data;
          dest_buf = s.decompressed_content;
          compressed_remaining = state.compressed_remaining;
          uncompressed_remaining = state.uncompressed_remaining;
        }

        valid :
            {r : Result (Option ℕ)} (j : Job c d false)
            → Leaves c d n job r j
            → ReaderIsValid c d (worked c d false s state j)
        valid j l =
            unfold worked in
            record {
              file_valid = l.src_valid;
              content_valid = l.dest_valid;
              chunk_set = HasChunk-some s.currently_reading _;
            }

        go :
            (r : Result (Option ℕ)) (j : Job c d false)
            → Leaves c d n job r j
            → Post c d R (then_step (decompressed c d false n s state (r, j)) f)
        go (ok none) j l =
            Post-view c d (RwBuf.unread c j.dest_buf) 0 n f (worked c d false s state j)
              (omega arith) (omega (arith, Laws.length-unread c l.dest_valid, l.enough refl))
              λ out. k out j (l.enough refl) l.src_less l.same_start (valid j l)
        go (ok (some more)) j l = leaves _ _ tt (valid j l)
        go (err x) j l = leaves _ _ tt (valid j l)
        go panic j l = absurd l.answers
        go stuck j l = absurd l.answers

        started : Post c d R (then_step (decompress_in c d false n s (some state) (some dec)) f)
        started =
            let r = decompress_inner c d false n job in
            go r.0 r.1 (Leaves-decompress_inner c d h p n job v.file_valid v.content_valid small)

        with_state :
            Post c d R (then_step (decompress_in c d false n s (some state) state.decompressor) f)
        with_state =
            subst
              (λ (o : Option d.State).
                Post c d R (then_step (decompress_in c d false n s (some state) o) f))
              (sym e') started

        rewritten : Post c d R (
            then_step
              (decompress_in c d false n s s.chunk_state (decompressor_of c d false s.chunk_state))
              f)
        rewritten =
            subst
              (λ (o : Option (ChunkState c d)).
                Post c d R
                  (then_step (decompress_in c d false n s o (decompressor_of c d false o)) f))
              (sym e) with_state
