-- ===== src/LinearReader/Returns/Padding.antt =====
-- The round of `next_event` behind the records of a chunk.
use mcap.Prelude.{false, ℕ, ◌+◌, ◌<◌, ◌≡◌, refl, Option, none, some, List, ◌∷◌, arith}
use mcap.Error.{Bytes}
use mcap.Io.{Crc32}
use mcap.RwBuf
use mcap.RwBuf.{RwBuf}
use mcap.Decompressor.{Decompressor, IsDecompressor}
use mcap.Step.{Outcome, ◌>>=◌, then_step, put, pure}
use mcap.LinearReader.{LinearReader, ChunkState}
use mcap.LinearReader.Moves.{Move, Event, enter, set_chunk_state}
use mcap.LinearReader.Padding.{
  check_chunk_crc, keep_decompressor, take_decompressed_hasher, end_chunk, skip_padding,
}
use mcap.LinearReader.Returns.Rules.{
  ReaderIsValid, Post, goes, leaves, Post-bind, Post-check, Post-consume, Post-chunk_state,
  Post-refused, Post-set_chunk_state, content-IsValid, IsGood, GoesOn,
}
use mcap.LinearReader.Returns.Work.{HasChunk-some}

module _ (c : Crc32) (d : Decompressor) (limit : ℕ) where
  -- the bytes of the file, the options and the cursor in the content are as before
  record Ended (s : LinearReader c d) (s' : LinearReader c d) : Type 0 where
    good : IsGood c d limit s'
    same_file : RwBuf.len c s'.file_data ≡ RwBuf.len c s.file_data

  Post-check_chunk_crc :
      (o : Option c.Hasher) (saved : ℕ) (s : LinearReader c d)
      → ReaderIsValid c d s
      → Post c d (λ u s'. s' ≡ s) (check_chunk_crc c d false o saved s)
  unfolding check_chunk_crc
  Post-check_chunk_crc none saved s v = unfold pure in goes tt s refl
  Post-check_chunk_crc (some x) saved s v = Post-refused c d _ _ s v

  with_chunk :
      {s : LinearReader c d} (state : ChunkState c d)
      → IsGood c d limit s
      → IsGood c d limit (record s { chunk_state = some state })
  with_chunk {s} state g = record {
    valid = record {
      file_valid = g.valid.file_valid;
      content_valid = g.valid.content_valid;
      chunk_set = HasChunk-some c d limit s.currently_reading state;
    };
    limit_set = g.limit_set;
    in_memory = g.in_memory;
  }

  -- the check of the CRC, when the rest is done
  ended :
      {s : LinearReader c d} (s1 : LinearReader c d) (o : Option c.Hasher) (saved : ℕ)
      → IsGood c d limit s1
      → RwBuf.len c s1.file_data ≡ RwBuf.len c s.file_data
      → Post c d (λ u s'. Ended s s') (check_chunk_crc c d false o saved s1)
  ended {s} s1 o saved g e = weaker (Post-check_chunk_crc o saved s1 g.valid)
    where
      weaker :
          {q : Outcome (LinearReader c d) Event (Unit {0})}
          → Post c d (λ u s'. s' ≡ s1) q
          → Post c d (λ u s'. Ended s s') q
      weaker (goes u s' eq) = goes u s' (rw eq (record { good = g; same_file = e }))
      weaker (leaves ev s' a v) = leaves ev s' a v

  others :
      {s : LinearReader c d} (ds : List (Bytes × d.State))
      → IsGood c d limit s
      → IsGood c d limit (record s { decompressors = ds })
  others ds g = record {
    valid = record {
      file_valid = g.valid.file_valid;
      content_valid = g.valid.content_valid;
      chunk_set = g.valid.chunk_set;
    };
    limit_set = g.limit_set;
    in_memory = g.in_memory;
  }

  without_hasher :
      {s : LinearReader c d}
      → IsGood c d limit s
      → IsGood c d limit
          (record s { decompressed_content = RwBuf.set_hasher c s.decompressed_content none })
  unfolding RwBuf.set_hasher
  without_hasher g = record {
    valid = content-IsValid c d g.valid (record {
      ordered = g.valid.content_valid.ordered;
      in_body = g.valid.content_valid.in_body;
    });
    limit_set = g.limit_set;
    in_memory = g.in_memory;
  }

  Post-take_hasher :
      {B : Type 0} {R : B → LinearReader c d → Type 0} (f : Option c.Hasher → Move c d B)
      (s : LinearReader c d)
      → Post c d R (
          f s.decompressed_content.hasher
            (record s { decompressed_content = RwBuf.set_hasher c s.decompressed_content none }))
      → Post c d R ((take_decompressed_hasher c d false >>= f) s)
  unfolding take_decompressed_hasher ◌>>=◌ then_step
  Post-take_hasher f s k = k

  Post-keep_decompressor :
      {B : Type 0} {R : B → LinearReader c d → Type 0} (dec : d.State) (f : Unit {0} → Move c d B)
      (s : LinearReader c d)
      → Post c d R (f tt (record s { decompressors = (d.name dec, dec) ∷ s.decompressors }))
      → Post c d R ((keep_decompressor c d false dec >>= f) s)
  unfolding keep_decompressor ◌>>=◌ then_step put
  Post-keep_decompressor dec f s k = k

  Post-end_chunk :
      (h : IsDecompressor d) (state : ChunkState c d) (o : Option d.State) (s : LinearReader c d)
      → IsGood c d limit s
      → Post c d (λ u s'. Ended s s') (end_chunk c d false state o s)
  unfolding end_chunk
  Post-end_chunk h state none s g =
      Post-set_chunk_state c d _ _ s (ended _ _ state.crc (with_chunk _ g) refl)
  Post-end_chunk h state (some dec) s g = Post-set_chunk_state c d _ _ s (
      Post-check c d (d.reset dec) _ _ (with_chunk _ g).valid (h.reset_answers dec) λ dec' e.
        Post-keep_decompressor dec' _ _ (
          Post-take_hasher _ _
            (ended _ _ state.crc (without_hasher (others _ (with_chunk _ g))) refl)))

  pub Post-skip_padding :
      (h : IsDecompressor d) (s : LinearReader c d) (state : ChunkState c d) (n : ℕ)
      → IsGood c d limit s
      → s.chunk_state ≡ some state
      → RwBuf.len c s.file_data + 2 < n
      → Post c d (GoesOn c d limit n) (skip_padding c d false s)
  unfolding skip_padding enter set_chunk_state
  Post-skip_padding h s state n g e lt = Post-chunk_state c d _ s state e (
      Post-consume c d state.padding_after_compressed_data _ s g.valid λ bytes b size enough rest v.
        Post-bind c d (end_chunk c d false state state.decompressor) _ (record s { file_data = b })
          (Post-end_chunk h state state.decompressor _
            (record { valid = v; limit_set = g.limit_set; in_memory = g.in_memory }))
          λ u s' q. Post-set_chunk_state c d _ _ s' (
            goes tt _ (
              record {
                valid = record {
                  file_valid = q.good.valid.file_valid;
                  content_valid = q.good.valid.content_valid;
                  chunk_set = tt;
                };
                limit_set = q.good.limit_set;
                in_memory = q.good.in_memory;
              },
              omega (arith, q.same_file, rest, lt),
            )))
