-- ===== src/LinearReader/Returns/Validating.antt =====
-- The rounds of `next_event` that check the CRC of a chunk before its records.
use mcap.Prelude.{
  ℕ, ◌+◌, ◌^◌, ◌≤◌, ◌<◌, ◌≡◌, refl, sym, ap, ◌∙◌, Bool, true, false, not, Option, none, some, arith,
  leb, ◌==◌, if◌then◌else◌, le→leb,
}
use mathlib.Core.Path.{subst}
use mcap.Error.{chunk_too_large}
use mcap.Io.{Crc32}
use mcap.RwBuf
use mcap.RwBuf.{RwBuf}
use mcap.Decompressor.{Decompressor, IsDecompressor, Progresses}
use mcap.Step.{pure}
use mcap.LinearReader.{
  LinearReader, ChunkState, file_record, validating_chunk_crc, chunk_record, padding_after_chunk,
}
use mcap.LinearReader.Decompress.{Job}
use mcap.LinearReader.Moves.{enter, return_early}
use mcap.LinearReader.Work.{worked}
use mcap.LinearReader.Validating.{prevalidated, validate_with, validate_chunk_crc}
use mcap.LinearReader.Returns.Rules.{
  ReaderIsValid, Post, goes, leaves, Post-load, Post-limited, Post-chunk_state, Post-get, Post-if,
  enter-IsValid, IsGood, GoesOn, HasChunk, rank, rounds_left,
}
use mcap.LinearReader.Returns.Work.{Post-decompress}

module _ (c : Crc32) (d : Decompressor) (limit : ℕ) where
  module _ (h : IsDecompressor d) (p : Progresses d) where
    abbrev chunk_rank_of : ChunkState c d → LinearReader c d → ℕ
    chunk_rank_of state s =
        if leb state.uncompressed_len (RwBuf.len c s.decompressed_content) then 5 else 6

    Post-prevalidated :
        (s : LinearReader c d) (state : ChunkState c d) (n calculated saved : ℕ)
        → IsGood c d limit s
        → s.chunk_state ≡ some state
        → RwBuf.len c s.file_data + 4 < n
        → Post c d (GoesOn c d limit n) (prevalidated c d false calculated saved s)
    unfolding prevalidated enter return_early
    Post-prevalidated s state n calculated saved g e lt =
        Post-if c d (not (calculated == saved)) _ _ s (λ _. leaves _ _ tt g.valid)
          λ _. goes tt _ (
            record {
              valid =
                  enter-IsValid c d chunk_record g.valid (
                    subst (λ (o : Option (ChunkState c d)). HasChunk c d chunk_record o) (sym e)
                      tt);
              limit_set = g.limit_set;
              in_memory = g.in_memory;
            },
            lt,
          )

    worked-IsGood :
        (s : LinearReader c d) (state : ChunkState c d) (j : Job c d false)
        → IsGood c d limit s
        → ReaderIsValid c d (worked c d false s state j)
        → j.dest_buf.start ≡ s.decompressed_content.start
        → IsGood c d limit (worked c d false s state j)
    unfolding worked
    worked-IsGood s state j g v e = record {
      valid = v;
      limit_set = g.limit_set;
      in_memory = omega (arith, g.in_memory, e);
    }

    fewer :
        (s : LinearReader c d) (state : ChunkState c d) (j : Job c d false) (n : ℕ)
        → s.currently_reading ≡ validating_chunk_crc
        → leb state.uncompressed_len (RwBuf.len c s.decompressed_content) ≡ false
        → state.uncompressed_len ≤ RwBuf.len c j.dest_buf
        → RwBuf.len c j.src_buf ≤ RwBuf.len c s.file_data
        → RwBuf.len c s.file_data + chunk_rank_of state s ≤ n
        → rounds_left c d (worked c d false s state j) < n
    unfolding worked
    fewer s state j n r t enough less le = omega (arith, less, le, before, now)
      where
        before : chunk_rank_of state s ≡ 6
        before = rw t refl

        state' : ChunkState c d
        state' = record state {
          decompressor = some j.decompressor;
          compressed_remaining = j.compressed_remaining;
          uncompressed_remaining = j.uncompressed_remaining;
        }

        now : rank c d s.currently_reading (some state') (RwBuf.len c j.dest_buf) ≡ 5
        now =
            ap
              (λ (q : mcap.LinearReader.CurrentlyReading c d).
                rank c d q (some state') (RwBuf.len c j.dest_buf))
              r
            ∙ rw (le→leb state.uncompressed_len (RwBuf.len c j.dest_buf) enough) refl

    rank_at_least : (b : Bool) → 5 ≤ (if b then 5 else 6)
    rank_at_least true = omega arith
    rank_at_least false = omega arith

    Post-validate_with :
        (s : LinearReader c d) (state : ChunkState c d) (o : Option d.State) (n : ℕ)
        → IsGood c d limit s
        → limit + 9 < 2 ^ 63
        → s.currently_reading ≡ validating_chunk_crc
        → s.chunk_state ≡ some state
        → state.decompressor ≡ o
        → RwBuf.len c s.file_data + chunk_rank_of state s ≤ n
        → Post c d (GoesOn c d limit n) (validate_with c d false state o s)
    unfolding validate_with
    Post-validate_with s state none n g m r e e' le =
        Post-limited c d (chunk_too_large state.compressed_remaining) state.compressed_remaining
          limit _ s g.valid g.limit_set
          λ _. Post-load c d state.compressed_remaining _ s g.valid λ bytes size enough.
            Post-prevalidated s state n _ _ g e (
              omega (
                arith,
                le,
                rank_at_least (leb state.uncompressed_len (RwBuf.len c s.decompressed_content)),
              ))
    Post-validate_with s state (some dec) n g m r e e' le =
        Post-limited c d (chunk_too_large state.uncompressed_len) state.uncompressed_len limit _ s
          g.valid g.limit_set
          λ short. Post-get c d _ s (
            Post-if c d (leb state.uncompressed_len (RwBuf.len c s.decompressed_content)) _ _ s
              (λ t. Post-prevalidated s state n _ _ g e (
                omega (
                  arith,
                  le,
                  rank_at_least (leb state.uncompressed_len (RwBuf.len c s.decompressed_content)),
                )))
              λ t.
                Post-decompress c d limit h p state.uncompressed_len _ s state dec g.valid e e'
                  (omega (arith, short, m, g.in_memory))
                  λ bytes j enough less start v.
                    unfold pure in
                    goes tt _
                      (worked-IsGood s state j g v start, fewer s state j n r t enough less le))

    pub Post-validate_chunk_crc :
        (s : LinearReader c d) (state : ChunkState c d) (n : ℕ)
        → IsGood c d limit s
        → limit + 9 < 2 ^ 63
        → s.currently_reading ≡ validating_chunk_crc
        → s.chunk_state ≡ some state
        → RwBuf.len c s.file_data + chunk_rank_of state s ≤ n
        → Post c d (GoesOn c d limit n) (validate_chunk_crc c d false s)
    unfolding validate_chunk_crc
    Post-validate_chunk_crc s state n g m r e le =
        Post-chunk_state c d _ s state e
          (Post-validate_with s state state.decompressor n g m r e refl le)
