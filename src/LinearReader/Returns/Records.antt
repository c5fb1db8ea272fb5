-- ===== src/LinearReader/Returns/Records.antt =====
-- The rounds of `next_event` outside the chunks.
use mcap.Prelude.{
  ℕ, ◌+◌, ◌^◌, ◌≤◌, ◌<◌, ◌≡◌, refl, ◌&&◌, not, Bool, true, false, Option, none, some, arith, length,
  ltb, ◌==◌, if◌then◌else◌,
}
use mathlib.Core.Path.{subst}
use mcap.Error.{Bytes, Result, ok}
use mcap.Bytes.Total.{Reads}
use mcap.HashMap.{bytes_eq}
use mcap.Io.{Crc32}
use mcap.RwBuf
use mcap.RwBuf.{RwBuf}
use mcap.Summary.{magic}
use mcap.Records.Decode.{get_footer, get_data_end}
use mcap.Records.Total.{Takes-get_footer, Takes-get_data_end}
use mcap.Decompressor.{Decompressor}
use mcap.Step.{then_step, ◌>>=◌, put, pure}
use mcap.LinearReader.{
  LinearReader, file_record, chunk_header, footer, data_end, end_magic, after_end_magic,
}
use mcap.LinearReader.Moves.{Move, take_hasher, return_early, finish, emit, enter}
use mcap.LinearReader.Records.{
  read_start_magic, chunk_found, data_end_found, footer_found, record_found, framed,
  read_file_record, check_data_crc, restart_hasher, read_data_end, check_summary_crc, read_footer,
  read_end_magic, read_after_end_magic,
}
use mcap.LinearReader.Returns.Rules.{
  ReaderIsValid, Post, goes, leaves, Post-check, Post-load, Post-consume, Post-without,
  Post-mark_read, Post-limited, Post-view, Post-add, Post-enter, Post-checked, Post-refused,
  Post-get, Post-if, Post-test, rank, file-IsValid, enter-IsValid, IsGood, GoesOn, HasChunk,
  Answers-Reads,
}

module _ (c : Crc32) (d : Decompressor) (limit : ℕ) where
  -- Going on in another state, with `b` for the bytes of the file.
  moved :
      {s : LinearReader c d} {b : RwBuf c}
      → IsGood c d limit s
      → ReaderIsValid c d (record s { file_data = b })
      → (state : mcap.LinearReader.CurrentlyReading c d) → HasChunk c d state s.chunk_state
      → IsGood c d limit (record s { file_data = b; currently_reading = state })
  moved g v state h = record {
    valid = enter-IsValid c d state v h;
    limit_set = g.limit_set;
    in_memory = g.in_memory;
  }

  -- after the magic
  Post-entered :
      (s : LinearReader c d) (b : RwBuf c) (n : ℕ) (state : mcap.LinearReader.CurrentlyReading c d)
      → IsGood c d limit s
      → ReaderIsValid c d (record s { file_data = b })
      → HasChunk c d state s.chunk_state
      → RwBuf.len c b + rank c d state s.chunk_state (RwBuf.len c s.decompressed_content) < n
      → Post c d (GoesOn c d limit n) (enter c d state (record s { file_data = b }))
  unfolding enter
  Post-entered s b n state g v h lt = goes tt _ (moved g v state h, lt)

  pub Post-read_start_magic :
      (s : LinearReader c d) (n : ℕ)
      → IsGood c d limit s
      → RwBuf.len c s.file_data + 2 < n
      → Post c d (GoesOn c d limit n) (read_start_magic c d false s)
  unfolding read_start_magic return_early finish
  Post-read_start_magic s n g h = Post-get c d _ s (
      Post-if c d s.options.skip_start_magic _ _ s
        (λ _. Post-entered s s.file_data n file_record g g.valid tt h)
        λ _. Post-consume c d 8 _ s g.valid λ bytes b size enough rest v.
          Post-if c d (bytes_eq bytes magic) _ _ _
            (λ _. Post-entered s b n file_record g v tt (omega (arith, rest)))
            (λ _. leaves _ _ tt v))

  Post-chunk_found :
      (s : LinearReader c d) (n len : ℕ)
      → IsGood c d limit s
      → 9 ≤ RwBuf.len c s.file_data
      → RwBuf.len c s.file_data < n
      → Post c d (GoesOn c d limit n) (chunk_found c d false len s)
  unfolding chunk_found
  Post-chunk_found s n len g h lt =
      Post-mark_read c d 9 _ s g.valid h
        λ b rest v. Post-entered s b n (chunk_header len) g v tt (omega (arith, rest))

  taken :
      {s : LinearReader c d}
      → IsGood c d limit s
      → IsGood c d limit (record s { file_data = RwBuf.set_hasher c s.file_data none })
  unfolding RwBuf.set_hasher
  taken {s} g = record {
    valid =
        file-IsValid c d g.valid
          (record { ordered = g.valid.file_valid.ordered; in_body = g.valid.file_valid.in_body });
    limit_set = g.limit_set;
    in_memory = g.in_memory;
  }

  Post-take_hasher :
      {B : Type 0} {R : B → LinearReader c d → Type 0} (f : Option c.Hasher → Move c d B)
      (s : LinearReader c d)
      → ReaderIsValid c d s
      → ((b : RwBuf c)
          → RwBuf.len c b ≡ RwBuf.len c s.file_data
          → ReaderIsValid c d (record s { file_data = b })
          → Post c d R (f s.file_data.hasher (record s { file_data = b })))
      → Post c d R ((take_hasher c d >>= f) s)
  unfolding ◌>>=◌ then_step take_hasher RwBuf.set_hasher RwBuf.len
  Post-take_hasher f s v k =
      k (record s.file_data { hasher = none }) refl
        (file-IsValid c d v
          (record { ordered = v.file_valid.ordered; in_body = v.file_valid.in_body }))

  -- a reader with other bytes of the file
  with_file :
      {s : LinearReader c d} {b : RwBuf c}
      → IsGood c d limit s
      → ReaderIsValid c d (record s { file_data = b })
      → IsGood c d limit (record s { file_data = b })
  with_file g v = record { valid = v; limit_set = g.limit_set; in_memory = g.in_memory }

  Post-data_end_found :
      (s : LinearReader c d) (n len : ℕ)
      → IsGood c d limit s
      → 9 ≤ RwBuf.len c s.file_data
      → RwBuf.len c s.file_data < n
      → Post c d (GoesOn c d limit n) (data_end_found c d false len s)
  unfolding data_end_found
  Post-data_end_found s n len g h lt = Post-take_hasher _ s g.valid λ b same v.
      Post-mark_read c d 9 _ _ v (omega (arith, same))
        λ b' rest v'. Post-entered s b' n (data_end len _) g v' tt (omega (arith, rest, same))

  Post-footer_found :
      (s : LinearReader c d) (n len : ℕ)
      → IsGood c d limit s
      → 9 ≤ RwBuf.len c s.file_data
      → RwBuf.len c s.file_data < n
      → Post c d (GoesOn c d limit n) (footer_found c d false len s)
  unfolding footer_found
  Post-footer_found s n len g h lt = Post-mark_read c d 9 _ s g.valid h λ b rest v.
      Post-take_hasher _ _ v
        λ b' same v'. Post-entered s b' n (footer len b.hasher) g v' tt (omega (arith, rest, same))

  Post-record_found :
      (s : LinearReader c d) (n op len : ℕ)
      → IsGood c d limit s
      → limit + 9 < 2 ^ 63
      → Post c d (GoesOn c d limit n) (record_found c d false op len s)
  unfolding record_found emit
  Post-record_found s n op len g m = Post-limited c d _ len limit _ s g.valid g.limit_set λ le.
      Post-add c d false 9 len _ s (omega (arith, le, m)) (
        Post-consume c d (9 + len) _ s g.valid λ bytes b size enough rest v.
          Post-view c d bytes 9 (length bytes) _ _ (omega (arith, size)) (omega arith)
            λ out. leaves _ _ tt v)

  Post-framed :
      (s : LinearReader c d) (n op len : ℕ)
      → IsGood c d limit s
      → limit + 9 < 2 ^ 63
      → 9 ≤ RwBuf.len c s.file_data
      → RwBuf.len c s.file_data < n
      → Post c d (GoesOn c d limit n) (framed c d false op len s)
  unfolding framed
  Post-framed s n op len g m h lt =
      Post-test c d (op == 0x06 && not s.options.emit_chunks) _ _
        (λ _. Post-chunk_found s n len g h lt)
        λ _.
          Post-test c d (op == 0x0f) _ _ (λ _. Post-data_end_found s n len g h lt)
            λ _.
              Post-test c d (op == 0x02) _ _ (λ _. Post-footer_found s n len g h lt)
                (λ _. Post-record_found s n op len g m)

  pub Post-read_file_record :
      (s : LinearReader c d) (n : ℕ)
      → IsGood c d limit s
      → limit + 9 < 2 ^ 63
      → RwBuf.len c s.file_data < n
      → Post c d (GoesOn c d limit n) (read_file_record c d false s)
  unfolding read_file_record
  Post-read_file_record s n g m lt =
      Post-load c d 9 _ s g.valid λ buf size enough. Post-framed s n _ _ g m enough lt

  Post-check_data_crc :
      (o : Option ℕ) (saved : ℕ) (s : LinearReader c d)
      → ReaderIsValid c d s
      → Post c d (λ u s'. s' ≡ s) (check_data_crc c d false o saved s)
  unfolding check_data_crc
  Post-check_data_crc none saved s v = unfold pure in goes tt s refl
  Post-check_data_crc (some calculated) saved s v = Post-refused c d _ _ s v

  Post-restart_hasher :
      {B : Type 0} {R : B → LinearReader c d → Type 0} (f : Unit {0} → Move c d B)
      (s : LinearReader c d)
      → ReaderIsValid c d s
      → ((b : RwBuf c)
          → RwBuf.len c b ≡ RwBuf.len c s.file_data
          → ReaderIsValid c d (record s { file_data = b })
          → Post c d R (f tt (record s { file_data = b })))
      → Post c d R ((restart_hasher c d false >>= f) s)
  unfolding ◌>>=◌ then_step restart_hasher put RwBuf.set_hasher RwBuf.len
  Post-restart_hasher {B} {R} f s v k = go s.options.validate_summary_section_crc
    where
      restarted : RwBuf c
      restarted = record s.file_data { hasher = some c.fresh }

      go :
          (b : Bool)
          → Post c d R
              (then_step (if b then put (record s { file_data = restarted }) s else put s s) f)
      go true = k restarted refl (
          file-IsValid c d v
            (record { ordered = v.file_valid.ordered; in_body = v.file_valid.in_body }))
      go false = k s.file_data refl v

  pub Post-read_data_end :
      (s : LinearReader c d) (n len : ℕ) (o : Option ℕ)
      → IsGood c d limit s
      → Post c d (GoesOn c d limit n) (read_data_end c d false len o s)
  unfolding read_data_end emit
  Post-read_data_end s n len o g = Post-limited c d _ len limit _ s g.valid g.limit_set λ le.
      Post-load c d len _ s g.valid λ buf size enough.
        Post-check c d (get_data_end buf) _ s g.valid
          (Answers-Reads 4 buf _ (Takes-get_data_end.at buf))
          λ r e. Post-checked c d _ _ s (Post-check_data_crc o r.0.data_section_crc s g.valid) (
            Post-restart_hasher _ s g.valid λ b same v.
              Post-without c d len _ _ v (omega (arith, same)) λ bytes b' v'.
                Post-enter c d file_record _ _
                  (leaves _ _ tt (enter-IsValid c d file_record v' tt)))

  Post-check_summary_crc :
      (o : Option c.Hasher) (bytes : Bytes) (saved : ℕ) (s : LinearReader c d)
      → 16 ≤ length bytes
      → ReaderIsValid c d s
      → Post c d (λ u s'. s' ≡ s) (check_summary_crc c d false o bytes saved s)
  unfolding check_summary_crc
  Post-check_summary_crc none bytes saved s h v = unfold pure in goes tt s refl
  Post-check_summary_crc (some x) bytes saved s h v =
      Post-view c d bytes 0 16 _ s (omega arith) h λ out. Post-refused c d _ _ s v

  pub Post-read_footer :
      (s : LinearReader c d) (n len : ℕ) (o : Option c.Hasher)
      → IsGood c d limit s
      → Post c d (GoesOn c d limit n) (read_footer c d false len o s)
  unfolding read_footer emit
  Post-read_footer s n len o g = Post-limited c d _ len limit _ s g.valid g.limit_set λ le.
      Post-consume c d len _ s g.valid λ bytes b size enough rest v.
        Post-check c d (get_footer bytes) _ _ v
          (Answers-Reads 20 bytes _ (Takes-get_footer.at bytes))
          λ r e.
            Post-checked c d _ _ _
              (Post-check_summary_crc o bytes r.0.summary_crc _
                (long bytes (get_footer bytes) r e (Takes-get_footer.at bytes)) v)
              (Post-enter c d end_magic _ _ (leaves _ _ tt (enter-IsValid c d end_magic v tt)))
    where
      long :
          (bytes : Bytes) (o : Result (mcap.Records.Footer × Bytes))
          (r : mcap.Records.Footer × Bytes)
          → o ≡ ok r
          → Reads 20 bytes o
          → 16 ≤ length bytes
      long bytes o r e h =
          let k : Reads 20 bytes (ok r) =
            subst (λ (t : Result (mcap.Records.Footer × Bytes)). Reads 20 bytes t) e h in
          omega arith

  pub Post-read_end_magic :
      (s : LinearReader c d) (n : ℕ)
      → IsGood c d limit s
      → RwBuf.len c s.file_data < n
      → Post c d (GoesOn c d limit n) (read_end_magic c d false s)
  unfolding read_end_magic return_early finish
  Post-read_end_magic s n g h = Post-get c d _ s (
      Post-if c d s.options.skip_end_magic _ _ s (λ _. leaves _ _ tt g.valid)
        λ _. Post-consume c d 8 _ s g.valid λ bytes b size enough rest v.
          Post-if c d (bytes_eq bytes magic) _ _ _
            (λ _. Post-entered s b n after_end_magic g v tt (omega (arith, rest)))
            (λ _. leaves _ _ tt v))

  pub Post-read_after_end_magic :
      (s : LinearReader c d) (n : ℕ)
      → IsGood c d limit s
      → Post c d (GoesOn c d limit n) (read_after_end_magic c d false s)
  unfolding read_after_end_magic return_early finish
  Post-read_after_end_magic s n g =
      Post-test c d s.options.check_finishes_after_end_magic _ _
        (λ _.
          Post-test c d (ltb 0 (RwBuf.len c s.file_data)) _ _ (λ _. leaves _ _ tt g.valid)
            (λ _.
              Post-test c d s.at_eof _ _ (λ _. leaves _ _ tt g.valid) (λ _. leaves _ _ tt g.valid)))
        (λ _. leaves _ _ tt g.valid)
