-- ===== src/LinearReader/Returns/Chunks.antt =====
-- The rounds of `next_event` that read the records of a chunk.
use mcap.Prelude.{
  ℕ, ◌+◌, ◌-◌, ◌^◌, ◌≤◌, ◌<◌, ◌≡◌, refl, sym, Bool, true, false, ◌&&◌, Option, none, some, [],
  arith, length, take, ltb, ◌==◌, if◌then◌else◌,
}
use mathlib.Core.Path.{subst}
use mcap.Error.{Bytes, ok, record_too_large, chunk_too_large, unexpected_eoc}
use mcap.Io.{Crc32}
use mcap.RwBuf
use mcap.RwBuf.{RwBuf}
use mcap.RwBuf.Laws
use mcap.Decompressor.{Decompressor, IsDecompressor, Progresses, Answers}
use mcap.Step.{◌>>=◌, then_step, put}
use mcap.LinearReader.Options.{add_usize}
use mcap.LinearReader.{LinearReader, ChunkState, padding_after_chunk}
use mcap.LinearReader.Decompress.{Job}
use mcap.LinearReader.Moves.{Move, emit, enter, length_of, with_decompressed}
use mcap.LinearReader.Work.{worked}
use mcap.LinearReader.Chunks.{
  stored_record, clear_if_empty, finish_compressed, split_opcode_length, mark_decompressed,
  consume_decompressed, compressed_record, record_in, read_chunk_record,
}
use mcap.LinearReader.Returns.Jobs.{sub_u64_wraps}
use mcap.LinearReader.Returns.Rules.{
  ReaderIsValid, Post, goes, leaves, Post-check, Post-load, Post-consume, Post-limited, Post-view,
  Post-add, Post-chunk_state, Post-get, Post-if, Post-set_chunk_state, content-IsValid,
  enter-IsValid, IsGood, GoesOn, HasChunk,
}
use mcap.LinearReader.Returns.Header.{Answers-ok_or}
use mcap.LinearReader.Returns.Work.{HasChunk-some, Post-decompress}

module _ (c : Crc32) (d : Decompressor) (limit : ℕ) where
  module _ (h : IsDecompressor d) (p : Progresses d) where
    -- a last check of a record: it is there in full
    Post-stored_record :
        (s : LinearReader c d) (state : ChunkState c d) (n : ℕ)
        → IsGood c d limit s
        → limit + 9 < 2 ^ 63
        → Post c d (GoesOn c d limit n) (stored_record c d false state s)
    unfolding stored_record emit
    Post-stored_record s state n g m = Post-load c d 9 _ s g.valid λ buf size enough.
        Post-limited c d _ (length_of buf) limit _ s g.valid g.limit_set λ short.
          Post-add c d false 9 (length_of buf) _ s (omega (arith, short, m)) (
            Post-consume c d (9 + length_of buf) _ s g.valid λ bytes b size' enough' rest v.
              Post-view c d bytes 9 (length bytes) _ _ (omega (arith, size')) (omega arith) λ body.
                let (left, e) = sub_u64_wraps state.compressed_remaining (9 + length_of buf) in
                Post-check c d _ _ _ v (rw e tt) λ left' e'. Post-set_chunk_state c d _ _ _ (
                  leaves _ _ tt (record {
                    file_valid = v.file_valid;
                    content_valid = v.content_valid;
                    chunk_set = HasChunk-some c d limit s.currently_reading _;
                  })))

    Post-clear_if_empty :
        {B : Type 0} {R : B → LinearReader c d → Type 0} (f : Unit {0} → Move c d B)
        (s : LinearReader c d)
        → IsGood c d limit s
        → ((b : RwBuf c)
            → IsGood c d limit (record s { decompressed_content = b })
            → Post c d R (f tt (record s { decompressed_content = b })))
        → Post c d R ((clear_if_empty c d false >>= f) s)
    unfolding clear_if_empty ◌>>=◌ then_step put RwBuf.clear
    Post-clear_if_empty {B} {R} f s g k = go (RwBuf.len c s.decompressed_content == 0)
      where
        cleared : RwBuf c
        cleared = record s.decompressed_content { body = []; start = 0; end = 0 }

        go :
            (b : Bool)
            → Post c d R (
                then_step
                  (if b then put (record s { decompressed_content = cleared }) s else put s s)
                  f)
        go true = k cleared (record {
          valid =
              content-IsValid c d g.valid (record { ordered = omega arith; in_body = omega arith });
          limit_set = g.limit_set;
          in_memory = omega arith;
        })
        go false = k s.decompressed_content g

    Answers-add : (a b : ℕ) → Answers (add_usize false a b)
    unfolding add_usize
    Answers-add a b = go (ltb (a + b) (2 ^ 64))
      where
        go : (t : Bool) → Answers (if t then ok (a + b) else ok (a + b - 2 ^ 64))
        go true = tt
        go false = tt

    Post-finish_compressed :
        (s : LinearReader c d) (state : ChunkState c d) (n : ℕ)
        → IsGood c d limit s
        → RwBuf.len c s.file_data + 3 < n
        → Post c d (GoesOn c d limit n) (finish_compressed c d false state s)
    unfolding finish_compressed enter
    Post-finish_compressed s state n g lt =
        Post-limited c d (chunk_too_large state.compressed_remaining) state.compressed_remaining
          limit _ s g.valid g.limit_set
          λ short.
            Post-check c d _ _ s g.valid
              (Answers-add state.padding_after_compressed_data state.compressed_remaining)
              λ padding e. Post-set_chunk_state c d _ _ s (
                goes tt _ (
                  record {
                    valid = record {
                      file_valid = g.valid.file_valid;
                      content_valid = g.valid.content_valid;
                      chunk_set = tt;
                    };
                    limit_set = g.limit_set;
                    in_memory = g.in_memory;
                  },
                  lt,
                ))

    Post-mark_decompressed :
        {B : Type 0} {R : B → LinearReader c d → Type 0} (n : ℕ) (f : Unit {0} → Move c d B)
        (s : LinearReader c d)
        → ReaderIsValid c d s
        → n ≤ RwBuf.len c s.decompressed_content
        → ((b : RwBuf c)
            → RwBuf.len c b ≡ RwBuf.len c s.decompressed_content - n
            → ReaderIsValid c d (record s { decompressed_content = b })
            → Post c d R (f tt (record s { decompressed_content = b })))
        → Post c d R ((mark_decompressed c d false n >>= f) s)
    unfolding mark_decompressed ◌>>=◌ then_step with_decompressed
    Post-mark_decompressed n f s v le k = rw (Laws.mark_read_ok c s.decompressed_content n le) (
        k (Laws.after c s.decompressed_content n (Laws.hashed c s.decompressed_content n))
          (Laws.len-after c s.decompressed_content n (Laws.hashed c s.decompressed_content n))
          (content-IsValid c d v
            (Laws.after-IsValid c n (Laws.hashed c s.decompressed_content n) v.content_valid le)))

    Post-consume_decompressed :
        {B : Type 0} {R : B → LinearReader c d → Type 0} (n : ℕ) (f : Bytes → Move c d B)
        (s : LinearReader c d)
        → ReaderIsValid c d s
        → n ≤ RwBuf.len c s.decompressed_content
        → ((bytes : Bytes) (b : RwBuf c)
            → ReaderIsValid c d (record s { decompressed_content = b })
            → Post c d R (f bytes (record s { decompressed_content = b })))
        → Post c d R ((consume_decompressed c d false n >>= f) s)
    unfolding consume_decompressed ◌>>=◌ then_step with_decompressed
    Post-consume_decompressed n f s v le k = rw (Laws.consume_ok c s.decompressed_content n le) (
        k (take n (RwBuf.unread c s.decompressed_content))
          (Laws.after c s.decompressed_content n (Laws.hashed c s.decompressed_content n))
          (content-IsValid c d v
            (Laws.after-IsValid c n (Laws.hashed c s.decompressed_content n) v.content_valid le)))

    header_there :
        (s : LinearReader c d) (state : ChunkState c d) (j : Job c d false) (len : ℕ)
        → 9 + len ≤ RwBuf.len c j.dest_buf
        → 9 ≤ RwBuf.len c (worked c d false s state j).decompressed_content
    unfolding worked
    header_there s state j len h = omega (arith, h)

    body_there :
        (s : LinearReader c d) (state : ChunkState c d) (j : Job c d false) (len left : ℕ)
        → 9 + len ≤ RwBuf.len c j.dest_buf
        → left ≡ RwBuf.len c (worked c d false s state j).decompressed_content - 9
        → len ≤ left
    unfolding worked
    body_there s state j len left h e = omega (arith, h, e)

    Post-compressed_record :
        (s : LinearReader c d) (state : ChunkState c d) (dec : d.State) (n : ℕ)
        → IsGood c d limit s
        → limit + 9 < 2 ^ 63
        → s.chunk_state ≡ some state
        → state.decompressor ≡ some dec
        → Post c d (GoesOn c d limit n) (compressed_record c d false s)
    unfolding compressed_record emit
    Post-compressed_record s state dec n g m e e' =
        Post-decompress c d limit h p 9 _ s state dec g.valid e e' (omega (arith, g.in_memory))
          λ buf j enough less same v.
            Post-check c d _ _ _ v (Answers-ok_or (split_opcode_length buf) unexpected_eoc) λ r q.
              Post-limited c d (record_too_large r.0 r.1) r.1 limit _ _ v (limit_kept j) λ short.
                Post-add c d false 9 r.1 _ _ (omega (arith, short, m)) (
                  Post-decompress c d limit h p (9 + r.1) _ _ _ j.decompressor v (set j) refl
                    (fits j r.1 short same)
                    λ bytes j' enough' less' same' v'.
                      Post-mark_decompressed 9 _ _ v' (header_there _ _ j' r.1 enough') λ b rest w.
                        Post-consume_decompressed r.1 _ _ w (body_there _ _ j' r.1 _ enough' rest)
                          λ body b' w'. leaves _ _ tt w')
      where
        limit_kept :
            (j : Job c d false)
            → (worked c d false s state j).options.record_length_limit ≡ some limit
        limit_kept j = unfold worked in g.limit_set

        chunk_after : Job c d false → ChunkState c d
        chunk_after j = record state {
          decompressor = some j.decompressor;
          compressed_remaining = j.compressed_remaining;
          uncompressed_remaining = j.uncompressed_remaining;
        }

        set : (j : Job c d false) → (worked c d false s state j).chunk_state ≡ some (chunk_after j)
        set j = unfold worked in refl

        fits :
            (j : Job c d false) (len : ℕ)
            → len ≤ limit
            → j.dest_buf.start ≡ s.decompressed_content.start
            → 9 + len + (worked c d false s state j).decompressed_content.start < 2 ^ 64
        fits j len short same = unfold worked in omega (arith, short, same, m, g.in_memory)

    Post-record_in :
        (s : LinearReader c d) (state : ChunkState c d) (o : Option d.State) (n : ℕ)
        → IsGood c d limit s
        → limit + 9 < 2 ^ 63
        → s.chunk_state ≡ some state
        → state.decompressor ≡ o
        → RwBuf.len c s.file_data + 3 < n
        → Post c d (GoesOn c d limit n) (record_in c d false state o s)
    unfolding record_in
    Post-record_in s state none n g m e e' lt =
        Post-if c d (state.compressed_remaining == 0) _ _ s
          (λ _.
            unfold enter in
            goes tt _ (
              record {
                valid = enter-IsValid c d padding_after_chunk g.valid (
                    subst (λ (q : Option (ChunkState c d)). HasChunk c d padding_after_chunk q)
                      (sym e) tt);
                limit_set = g.limit_set;
                in_memory = g.in_memory;
              },
              lt,
            ))
          (λ _. Post-stored_record s state n g m)
    Post-record_in s state (some dec) n g m e e' lt = Post-clear_if_empty _ s g λ b g'.
        Post-get c d _ _ (
          Post-if c d (state.uncompressed_remaining == 0 && RwBuf.len c b == 0) _ _ _
            (λ _. Post-finish_compressed _ state n g' lt)
            (λ _. Post-compressed_record _ state dec n g' m e e'))

    pub Post-read_chunk_record :
        (s : LinearReader c d) (state : ChunkState c d) (n : ℕ)
        → IsGood c d limit s
        → limit + 9 < 2 ^ 63
        → s.chunk_state ≡ some state
        → RwBuf.len c s.file_data + 3 < n
        → Post c d (GoesOn c d limit n) (read_chunk_record c d false s)
    unfolding read_chunk_record
    Post-read_chunk_record s state n g m e lt =
        Post-chunk_state c d _ s state e (Post-record_in s state state.decompressor n g m e refl lt)
