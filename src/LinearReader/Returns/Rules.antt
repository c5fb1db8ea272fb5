-- ===== src/LinearReader/Returns/Rules.antt =====
-- What a step of `next_event` leaves, and a rule for each of the steps that its states share.
use mcap.Prelude.{
  lt→ltb, ℕ, ◌+◌, ◌-◌, ◌^◌, ◌≤◌, ◌<◌, ◌≡◌, refl, sym, Bool, true, false, Option, none, some, arith,
  length, take, ltb, leb, if◌then◌else◌, Bool-cases, inl, inr, length-take, ltb_false→le,
}
use mathlib.Core.Path.{subst}
use mcap.Error.{Bytes, Result, ok, err, panic, stuck, McapError}
use mcap.Bytes.Total.{Reads}
use mcap.Io.{Crc32}
use mcap.RwBuf
use mcap.RwBuf.{RwBuf}
use mcap.RwBuf.Laws
use mcap.RwBuf.Laws.{after, hashed}
use mcap.Read.Slices.{slice_in}
use mcap.Decompressor.{Decompressor, Answers}
use mcap.Step.{pure, get, Outcome, go_on, leave, ◌>>=◌, then_step, check, check_in}
use mcap.LinearReader.Options.{check_len, ok_or, add_usize}
use mcap.LinearReader.{
  LinearReader, CurrentlyReading, ChunkState, start_magic, file_record, chunk_header, footer,
  data_end, validating_chunk_crc, chunk_record, padding_after_chunk, end_magic, after_end_magic,
}
use mcap.LinearReader.Moves.{
  Event, Move, load, consume, consume_without_hashing, mark_read, with_file_data, return_early,
  enter, set_chunk_state, chunk_state, chunk_state_in, limited, view,
}

-- The event is a value, an error or the end: no panic, no endless loop.
abbrev pub Answered : Event → Type 0
Answered none = Unit
Answered (some r) = Answers r

pub Answers-Reads :
    {A : Type 0} (n : ℕ) (bs : Bytes) (r : Result (A × Bytes)) → Reads n bs r → Answers r
Answers-Reads n bs (ok r) h = tt
Answers-Reads n bs (err e) h = tt
Answers-Reads n bs panic h = h
Answers-Reads n bs stuck h = h

module _ (c : Crc32) (d : Decompressor) where
  -- A reader in a chunk has the state of the chunk.
  abbrev pub HasChunk : CurrentlyReading c d → Option (ChunkState c d) → Type 0
  HasChunk validating_chunk_crc none = ⊥
  HasChunk chunk_record none = ⊥
  HasChunk padding_after_chunk none = ⊥
  HasChunk _ _ = Unit

  pub record ReaderIsValid (s : LinearReader c d) : Type 0 where
    pub file_valid : Laws.IsValid c s.file_data
    pub content_valid : Laws.IsValid c s.decompressed_content
    pub chunk_set : HasChunk s.currently_reading s.chunk_state

  -- What a step ends in: it goes on with `Q`, or leaves with an answer.
  pub data Post {A : Type 0} (Q : A → LinearReader c d → Type 0)
      : Outcome (LinearReader c d) Event A → Type 0 where
    goes : (a : A) (s : LinearReader c d) → Q a s → Post Q (go_on a s)
    leaves : (e : Event) (s : LinearReader c d) → Answered e → ReaderIsValid s → Post Q (leave e s)

  module _ {A B : Type 0} {R : B → LinearReader c d → Type 0} where
    pub Post-then :
        {Q : A → LinearReader c d → Type 0} {o : Outcome (LinearReader c d) Event A}
        (f : A → Move c d B)
        → Post Q o
        → ((a : A) (s : LinearReader c d) → Q a s → Post R (f a s))
        → Post R (then_step o f)
    unfolding then_step
    Post-then f (goes a s q) k = k a s q
    Post-then f (leaves e s a v) k = leaves e s a v

    pub Post-bind :
        {Q : A → LinearReader c d → Type 0} (m : Move c d A) (f : A → Move c d B)
        (s : LinearReader c d)
        → Post Q (m s)
        → ((a : A) (s' : LinearReader c d) → Q a s' → Post R (f a s'))
        → Post R ((m >>= f) s)
    unfolding ◌>>=◌
    Post-bind m f s h k = Post-then f h k

    pub Post-check :
        (r : Result A) (f : A → Move c d B) (s : LinearReader c d)
        → ReaderIsValid s
        → Answers r
        → ((a : A) → r ≡ ok a → Post R (f a s))
        → Post R ((check r >>= f) s)
    unfolding ◌>>=◌ then_step check
    Post-check (ok a) f s v h k = k a refl
    Post-check (err e) f s v h k = leaves (some (err e)) s tt v
    Post-check panic f s v h k = absurd h
    Post-check stuck f s v h k = absurd h

  pub file-IsValid :
      {s : LinearReader c d} {b : RwBuf c}
      → ReaderIsValid s
      → Laws.IsValid c b
      → ReaderIsValid (record s { file_data = b })
  file-IsValid v w = record {
    file_valid = w;
    content_valid = v.content_valid;
    chunk_set = v.chunk_set;
  }

  pub content-IsValid :
      {s : LinearReader c d} {b : RwBuf c}
      → ReaderIsValid s
      → Laws.IsValid c b
      → ReaderIsValid (record s { decompressed_content = b })
  content-IsValid v w = record {
    file_valid = v.file_valid;
    content_valid = w;
    chunk_set = v.chunk_set;
  }

  pub enter-IsValid :
      {s : LinearReader c d} (state : CurrentlyReading c d)
      → ReaderIsValid s
      → HasChunk state s.chunk_state
      → ReaderIsValid (record s { currently_reading = state })
  enter-IsValid state v h = record {
    file_valid = v.file_valid;
    content_valid = v.content_valid;
    chunk_set = h;
  }

  -- a last check that refuses with an error
  pub Post-refused :
      (b : Bool) (e : McapError) (s : LinearReader c d)
      → ReaderIsValid s
      → Post (λ u s'. s' ≡ s) ((if b then return_early c d (err e) else pure {A = Unit {0}} tt) s)
  unfolding return_early pure
  Post-refused true e s v = leaves (some (err e)) s tt v
  Post-refused false e s v = goes tt s refl

  module _ {B : Type 0} {R : B → LinearReader c d → Type 0} where
    -- a check before the rest
    pub Post-checked :
        (m : Move c d Unit) (f : Unit {0} → Move c d B) (s : LinearReader c d)
        → Post (λ u s'. s' ≡ s) (m s)
        → Post R (f tt s)
        → Post R ((m >>= f) s)
    Post-checked m f s h k = Post-bind m f s h (λ u s' e. rw e k)

    pub Post-load :
        (n : ℕ) (f : Bytes → Move c d B) (s : LinearReader c d)
        → ReaderIsValid s
        → ((bytes : Bytes) → length bytes ≡ n → n ≤ RwBuf.len c s.file_data → Post R (f bytes s))
        → Post R ((load c d n >>= f) s)
    unfolding ◌>>=◌ then_step load
    Post-load n f s v k = elim (Bool-cases (ltb (RwBuf.len c s.file_data) n)) [
      | inl e ↦ rw e (leaves _ s tt v)
      | inr e ↦ rw e (
          let le : n ≤ RwBuf.len c s.file_data = ltb_false→le (RwBuf.len c s.file_data) n e in
          k (take n (RwBuf.unread c s.file_data))
            (length-take n (RwBuf.unread c s.file_data)
              (omega (arith, Laws.length-unread c v.file_valid)))
            le)
    ]

    pub Post-consume :
        (n : ℕ) (f : Bytes → Move c d B) (s : LinearReader c d)
        → ReaderIsValid s
        → ((bytes : Bytes) (b : RwBuf c)
            → length bytes ≡ n
            → n ≤ RwBuf.len c s.file_data
            → RwBuf.len c b ≡ RwBuf.len c s.file_data - n
            → ReaderIsValid (record s { file_data = b })
            → Post R (f bytes (record s { file_data = b })))
        → Post R ((consume c d n >>= f) s)
    unfolding ◌>>=◌ then_step consume with_file_data
    Post-consume n f s v k = elim (Bool-cases (ltb (RwBuf.len c s.file_data) n)) [
      | inl e ↦ rw e (leaves _ s tt v)
      | inr e ↦ rw e (
          let le : n ≤ RwBuf.len c s.file_data = ltb_false→le (RwBuf.len c s.file_data) n e in
          rw (Laws.consume_ok c s.file_data n le) (
            k (take n (RwBuf.unread c s.file_data)) (after c s.file_data n (hashed c s.file_data n))
              (length-take n (RwBuf.unread c s.file_data)
                (omega (arith, Laws.length-unread c v.file_valid)))
              le (Laws.len-after c s.file_data n (hashed c s.file_data n))
              (file-IsValid v (Laws.after-IsValid c n (hashed c s.file_data n) v.file_valid le))))
    ]

    pub Post-without :
        (n : ℕ) (f : Bytes → Move c d B) (s : LinearReader c d)
        → ReaderIsValid s
        → n ≤ RwBuf.len c s.file_data
        → ((bytes : Bytes) (b : RwBuf c)
            → ReaderIsValid (record s { file_data = b })
            → Post R (f bytes (record s { file_data = b })))
        → Post R ((consume_without_hashing c d n >>= f) s)
    unfolding ◌>>=◌ then_step consume_without_hashing with_file_data
    Post-without n f s v le k = rw (Laws.consume_without_hashing_ok c s.file_data n le) (
        k (take n (RwBuf.unread c s.file_data)) (after c s.file_data n s.file_data.hasher)
          (file-IsValid v (Laws.after-IsValid c n s.file_data.hasher v.file_valid le)))

    pub Post-mark_read :
        (n : ℕ) (f : Unit {0} → Move c d B) (s : LinearReader c d)
        → ReaderIsValid s
        → n ≤ RwBuf.len c s.file_data
        → ((b : RwBuf c)
            → RwBuf.len c b ≡ RwBuf.len c s.file_data - n
            → ReaderIsValid (record s { file_data = b })
            → Post R (f tt (record s { file_data = b })))
        → Post R ((mark_read c d n >>= f) s)
    unfolding ◌>>=◌ then_step mark_read with_file_data
    Post-mark_read n f s v le k = rw (Laws.mark_read_ok c s.file_data n le) (
        k (after c s.file_data n (hashed c s.file_data n))
          (Laws.len-after c s.file_data n (hashed c s.file_data n))
          (file-IsValid v (Laws.after-IsValid c n (hashed c s.file_data n) v.file_valid le)))

    pub Post-limited :
        (e : McapError) (len limit : ℕ) (f : ℕ → Move c d B) (s : LinearReader c d)
        → ReaderIsValid s
        → s.options.record_length_limit ≡ some limit
        → (len ≤ limit → Post R (f len s))
        → Post R ((limited c d e len >>= f) s)
    unfolding ◌>>=◌ then_step limited check_len ok_or check check_in
    Post-limited e len limit f s v o k =
        subst (λ (l : Option ℕ). Post R (then_step (check_in s (ok_or (check_len len l) e)) f))
          (sym o)
          (elim (Bool-cases (ltb limit len)) [
            | inl h ↦ rw h (leaves _ s tt v)
            | inr h ↦ rw h (k (ltb_false→le limit len h))
          ])

    pub Post-view :
        (bytes : Bytes) (start end : ℕ) (f : Bytes → Move c d B) (s : LinearReader c d)
        → start ≤ end
        → end ≤ length bytes
        → ((out : Bytes) → Post R (f out s))
        → Post R ((view c d bytes start end >>= f) s)
    unfolding ◌>>=◌ then_step view check check_in
    Post-view bytes start end f s h h' k = rw (slice_in bytes start end h h') (k _)

    -- below 2^64 an addition is that of ℕ
    pub Post-add :
        (checks : Bool) (a b : ℕ) (f : ℕ → Move c d B) (s : LinearReader c d)
        → a + b < 2 ^ 64
        → Post R (f (a + b) s)
        → Post R ((check (add_usize checks a b) >>= f) s)
    unfolding ◌>>=◌ then_step add_usize check check_in
    Post-add checks a b f s h k = rw (lt→ltb (a + b) (2 ^ 64) h) k

    pub Post-chunk_state :
        (f : ChunkState c d → Move c d B) (s : LinearReader c d) (state : ChunkState c d)
        → s.chunk_state ≡ some state
        → Post R (f state s)
        → Post R ((chunk_state c d >>= f) s)
    unfolding ◌>>=◌ then_step chunk_state chunk_state_in
    Post-chunk_state f s state e k =
        subst (λ (o : Option (ChunkState c d)). Post R (then_step (chunk_state_in c d s o) f))
          (sym e) k

    pub Post-get :
        (f : LinearReader c d → Move c d B) (s : LinearReader c d)
        → Post R (f s s)
        → Post R ((get >>= f) s)
    unfolding ◌>>=◌ then_step get
    Post-get f s k = k

    -- a test between two steps
    pub Post-if :
        (b : Bool) (m m' : Move c d B) (s : LinearReader c d)
        → (b ≡ true → Post R (m s))
        → (b ≡ false → Post R (m' s))
        → Post R ((if b then m else m') s)
    Post-if true m m' s h k = h refl
    Post-if false m m' s h k = k refl

    -- and between what they do
    pub Post-test :
        (b : Bool) (o o' : Outcome (LinearReader c d) Event B)
        → (b ≡ true → Post R o)
        → (b ≡ false → Post R o')
        → Post R (if b then o else o')
    Post-test true o o' h k = h refl
    Post-test false o o' h k = k refl

    pub Post-enter :
        (state : CurrentlyReading c d) (f : Unit {0} → Move c d B) (s : LinearReader c d)
        → Post R (f tt (record s { currently_reading = state }))
        → Post R ((enter c d state >>= f) s)
    unfolding ◌>>=◌ then_step enter
    Post-enter state f s k = k

    pub Post-set_chunk_state :
        (state : Option (ChunkState c d)) (f : Unit {0} → Move c d B) (s : LinearReader c d)
        → Post R (f tt (record s { chunk_state = state }))
        → Post R ((set_chunk_state c d state >>= f) s)
    unfolding ◌>>=◌ then_step set_chunk_state
    Post-set_chunk_state state f s k = k

  -- A build without overflow checks with a limit for records that leaves room for their opcode and
  -- length, and a buffer whose cursor is that of a `Vec`, of fewer than 2^63 bytes.
  pub record IsGood (limit : ℕ) (s : LinearReader c d) : Type 0 where
    pub valid : ReaderIsValid s
    pub limit_set : s.options.record_length_limit ≡ some limit
    pub in_memory : s.decompressed_content.start < 2 ^ 63

  -- How many rounds are left: one for each byte, and those of the state.
  abbrev pub chunk_rank : Option (ChunkState c d) → ℕ → ℕ
  chunk_rank none have = 6
  chunk_rank (some state) have = if leb state.uncompressed_len have then 5 else 6

  abbrev pub rank : CurrentlyReading c d → Option (ChunkState c d) → ℕ → ℕ
  rank start_magic state have = 8
  rank (chunk_header _) state have = 7
  rank validating_chunk_crc state have = chunk_rank state have
  rank chunk_record state have = 4
  rank padding_after_chunk state have = 3
  rank file_record state have = 2
  rank (data_end _ _) state have = 1
  rank (footer _ _) state have = 1
  rank end_magic state have = 1
  rank after_end_magic state have = 0

  abbrev pub rounds_left : LinearReader c d → ℕ
  rounds_left s =
      RwBuf.len c s.file_data
      + rank s.currently_reading s.chunk_state (RwBuf.len c s.decompressed_content)

  -- A round goes on with fewer rounds left.
  abbrev pub GoesOn : ℕ → ℕ → Unit {0} → LinearReader c d → Type 0
  GoesOn limit n u s = IsGood limit s × (rounds_left s < n)
