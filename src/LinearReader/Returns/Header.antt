-- ===== src/LinearReader/Returns/Header.antt =====
-- The round of `next_event` that reads the header of a chunk.
use mcap.Prelude.{
  ℕ, ◌+◌, ◌≤◌, ◌<◌, ◌≡◌, refl, Bool, true, false, ◌&&◌, not, Option, none, some, List, [], ◌∷◌,
  arith, leb, ◌==◌, if◌then◌else◌,
}
use mcap.Error.{
  Bytes, Result, ok, err, panic, stuck, record_too_large, chunk_too_large, unexpected_eoc,
  unsupported_compression, McapError,
}
use mcap.Error
use mcap.Io.{Crc32}
use mcap.RwBuf
use mcap.RwBuf.{RwBuf}
use mcap.Records.{ChunkHeader}
use mcap.Records.Decode.{get_chunk_header}
use mcap.Records.Total.{Takes-get_chunk_header}
use mcap.Decompressor.{Decompressor, IsDecompressor, Answers}
use mcap.Step.{◌>>=◌, then_step, put, check_in}
use mcap.LinearReader.Options.{ok_or}
use mcap.LinearReader.{LinearReader, ChunkState, validating_chunk_crc, chunk_record}
use mcap.LinearReader.Decompress.{get_decompressor, get_decompressor_in, created, lookup}
use mcap.LinearReader.Moves.{Move, from_le}
use mcap.LinearReader.Header.{got_decompressor, find_decompressor, start_chunk, read_chunk_header}
use mcap.LinearReader.Returns.Rules.{
  ReaderIsValid, Post, goes, leaves, Post-check, Post-load, Post-consume, Post-limited, Post-view,
  IsGood, GoesOn, HasChunk, rank, Answers-Reads,
}

pub Answers-ok_or : {A : Type 0} (o : Option A) (e : McapError) → Answers (ok_or o e)
unfolding ok_or
Answers-ok_or none e = tt
Answers-ok_or (some a) e = tt

module _ (c : Crc32) (d : Decompressor) (limit : ℕ) where
  module _ (h : IsDecompressor d) where
    Answers-created : (name : Bytes) → Answers (created d name (d.create name))
    unfolding created
    Answers-created [] = tt
    Answers-created (b ∷ name) = go (d.create (b ∷ name)) (h.create_answers (b ∷ name))
      where
        bound : (r : Result d.State) → Answers r → Answers (Error.◌>>=◌ r (λ s. ok (some s)))
        bound (ok s) a = tt
        bound (err e) a = tt
        bound panic a = a
        bound stuck a = a

        go :
            (o : Option (Result d.State))
            → ((r : Result d.State) → o ≡ some r → Answers r)
            → Answers (created d (b ∷ name) o)
        go none k = tt
        go (some r) k = bound r (k r refl)

    Answers-get_decompressor :
        (ds : List (Bytes × d.State)) (name : Bytes) → Answers (get_decompressor d ds name).0
    unfolding get_decompressor get_decompressor_in
    Answers-get_decompressor ds name = go (lookup name ds)
      where
        go : (o : Option d.State) → Answers (get_decompressor_in d ds name o).0
        go none = Answers-created name
        go (some s) = tt

    Post-find_decompressor :
        {B : Type 0} {R : B → LinearReader c d → Type 0} (name : Bytes)
        (f : Option d.State → Move c d B) (s : LinearReader c d)
        → ReaderIsValid c d s
        → ((o : Option d.State) (ds : List (Bytes × d.State))
            → ReaderIsValid c d (record s { decompressors = ds })
            → Post c d R (f o (record s { decompressors = ds })))
        → Post c d R ((find_decompressor c d name >>= f) s)
    unfolding find_decompressor ◌>>=◌ got_decompressor check_in then_step
    Post-find_decompressor {B} {R} name f s v k =
        go (get_decompressor d s.decompressors name) (Answers-get_decompressor s.decompressors name)
      where
        others : (ds : List (Bytes × d.State)) → ReaderIsValid c d (record s { decompressors = ds })
        others ds = record {
          file_valid = v.file_valid;
          content_valid = v.content_valid;
          chunk_set = v.chunk_set;
        }

        go :
            (r : Result (Option d.State) × List (Bytes × d.State))
            → Answers r.0
            → Post c d R (then_step (got_decompressor c d s r) f)
        go (ok o, ds) a = k o ds (others ds)
        go (err e, ds) a = leaves (some (err e)) _ tt (others ds)
        go (panic, ds) a = absurd a
        go (stuck, ds) a = absurd a

  HasChunk-if :
      (b : Bool) (state : ChunkState c d)
      → HasChunk c d (if b then validating_chunk_crc else chunk_record) (some state)
  HasChunk-if true state = tt
  HasChunk-if false state = tt

  rank-if :
      (b : Bool) (state : ChunkState c d) (have : ℕ)
      → rank c d (if b then validating_chunk_crc else chunk_record) (some state) have ≤ 6
  rank-if true state have = go (leb state.uncompressed_len have)
    where
      go : (b : Bool) → (if b then 5 else 6) ≤ 6
      go true = omega arith
      go false = omega arith
  rank-if false state have = omega arith

  Post-start_chunk :
      (header : ChunkHeader) (o : Option d.State) (padding n : ℕ) (s : LinearReader c d)
      → ReaderIsValid c d s
      → s.options.record_length_limit ≡ some limit
      → RwBuf.len c s.file_data + 6 < n
      → Post c d (GoesOn c d limit n) (start_chunk c d header o padding s)
  unfolding start_chunk put RwBuf.set_hasher RwBuf.clear
  Post-start_chunk header o padding n s v l h = goes tt _ (
    record {
      valid = record {
        file_valid = v.file_valid;
        content_valid = record { ordered = omega arith; in_body = omega arith };
        chunk_set =
            HasChunk-if (s.options.prevalidate_chunk_crcs && not (header.uncompressed_crc == 0)) _;
      };
      limit_set = l;
      in_memory = omega arith;
    },
    added _ _ (rank-if (s.options.prevalidate_chunk_crcs && not (header.uncompressed_crc == 0)) _ _)
        h,
  )
    where
      added : (a b : ℕ) → b ≤ 6 → a + 6 < n → a + b < n
      added a b h k = omega arith

  pub Post-read_chunk_header :
      (h : IsDecompressor d) (s : LinearReader c d) (n len : ℕ)
      → IsGood c d limit s
      → RwBuf.len c s.file_data + 6 < n
      → Post c d (GoesOn c d limit n) (read_chunk_header c d len s)
  unfolding read_chunk_header
  Post-read_chunk_header h s n len g lt = Post-load c d 40 _ s g.valid λ min_header size enough.
      Post-view c d min_header 28 32 _ s (omega arith) (omega (arith, size)) λ count.
        Post-consume c d (40 + from_le count) _ s g.valid λ buf b size' enough' rest v.
          Post-check c d (get_chunk_header buf) _ _ v
            (Answers-Reads 40 buf _ (Takes-get_chunk_header.at buf))
            λ r e. Post-find_decompressor h r.0.compression _ _ v λ o ds v'.
              Post-check c d _ _ _ v' (Answers-ok_or _ unexpected_eoc) λ data_len e'.
                Post-check c d _ _ _ v' (Answers-ok_or _ unexpected_eoc) λ room e''.
                  Post-limited c d (chunk_too_large len) room limit _ _ v' g.limit_set
                    λ le. Post-start_chunk r.0 o room n _ v' g.limit_set (omega (arith, rest, lt))
