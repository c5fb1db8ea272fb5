-- ===== src/LinearReader/Overlong.antt =====
-- A record whose length does not fit 64 bits together with that of its opcode and length.
use mcap.Prelude.{
  ℕ, suc, ◌+◌, ◌-◌, ◌^◌, ◌≤◌, ◌<◌, ◌≡◌, refl, sym, ap, ◌∙◌, Bool, true, false, Option, none, some,
  [], ◌++◌, append-nil, arith, length, take, ◌==◌, if◌then◌else◌, length-take, le→ltb_false,
  lt→leb_false,
}
use mathlib.Core.Path.{subst}
use mcap.Error.{Bytes, ok, panic, record_too_large}
use mcap.Io.{Crc32}
use mcap.RwBuf
use mcap.RwBuf.Laws
use mcap.Read.{slice}
use mcap.Write.{op_and_len}
use mcap.SummaryReader.Footer.{length-op_and_len}
use mcap.Decompressor.{Decompressor}
use mcap.Step.{◌>>=◌, then_step, check, check_in, Outcome, go_on, leave, rounds}
use mcap.LinearReader.Options.{check_len, ok_or, add_usize}
use mcap.LinearReader.{LinearReader, CurrentlyReading, file_record}
use mcap.LinearReader.Moves.{Event, Move, consume, with_file_data, limited, view}
use mcap.LinearReader.Records.{record_found, framed, read_file_record}
use mcap.LinearReader.Event.{step_in, step, next_event, ended}
use mcap.LinearReader.Stream.Rules.{Does, goes, leaves, Does-load}
use mcap.LinearReader.Stream.Steps.{opcode_of-op_and_len, length_of-op_and_len}

module _ (c : Crc32) (d : Decompressor) (checks : Bool) where
  -- The step leaves with a panic.
  abbrev Panics : Outcome (LinearReader c d) Event (Unit {0}) → Type 0
  Panics = Does c d (λ u s. ⊥) (λ e s. e ≡ some panic)

  module _ (f : ℕ → Move c d Unit) (s : LinearReader c d) where
    Panics-limited :
        (len op : ℕ)
        → s.options.record_length_limit ≡ none
        → Panics (f len s)
        → Panics ((limited c d (record_too_large op len) len >>= f) s)
    unfolding ◌>>=◌ then_step limited check_len ok_or check check_in
    Panics-limited len op o k =
        subst
          (λ (l : Option ℕ).
            Panics (then_step (check_in s (ok_or (check_len len l) (record_too_large op len))) f))
          (sym o) k

    -- an addition that does not fit panics, or wraps
    Panics-add :
        (a b : ℕ)
        → 2 ^ 64 ≤ a + b
        → Panics (f (a + b - 2 ^ 64) s)
        → Panics ((check (add_usize checks a b) >>= f) s)
    unfolding ◌>>=◌ then_step add_usize check check_in
    Panics-add a b h k = rw (le→ltb_false (a + b) (2 ^ 64) h) (go checks)
      where
        go :
            (t : Bool)
            → Panics (then_step (check_in s (if t then panic else ok (a + b - 2 ^ 64))) f)
        go true = leaves _ s refl
        go false = k

  Panics-consume :
      (n : ℕ) (f : Bytes → Move c d Unit) (s : LinearReader c d)
      → Laws.IsValid c s.file_data
      → n ≤ RwBuf.len c s.file_data
      → ((bytes : Bytes) (s' : LinearReader c d) → length bytes ≡ n → Panics (f bytes s'))
      → Panics ((consume c d n >>= f) s)
  unfolding ◌>>=◌ then_step consume with_file_data
  Panics-consume n f s v le k = rw (le→ltb_false (RwBuf.len c s.file_data) n le) (
      rw (Laws.consume_ok c s.file_data n le) (
        k (take n (RwBuf.unread c s.file_data)) _
          (length-take n (RwBuf.unread c s.file_data) (omega (arith, Laws.length-unread c v, le)))))

  -- where it wraps, the bytes are fewer than the nine that are cut off
  Panics-view :
      (f : Bytes → Move c d Unit) (s : LinearReader c d) (bytes : Bytes)
      → length bytes < 9
      → Panics ((view c d bytes 9 (length bytes) >>= f) s)
  unfolding ◌>>=◌ then_step view check check_in slice
  Panics-view f s bytes h = rw (lt→leb_false 9 (length bytes) h) (leaves _ s refl)

  Panics-record_found :
      (s : LinearReader c d) (op len : ℕ)
      → Laws.IsValid c s.file_data
      → s.options.record_length_limit ≡ none
      → 9 ≤ RwBuf.len c s.file_data
      → len < 2 ^ 64
      → 2 ^ 64 ≤ 9 + len
      → Panics (record_found c d checks op len s)
  unfolding record_found
  Panics-record_found s op len v o enough small big = Panics-limited _ s len op o (
      Panics-add _ s 9 len big (
        Panics-consume (9 + len - 2 ^ 64) _ s v (omega (arith, enough, small))
          λ bytes s' size. Panics-view _ s' bytes (omega (arith, size, small))))

  Panics-framed :
      (s : LinearReader c d) (op len : ℕ)
      → 0x0f < op
      → Panics (record_found c d checks op len s)
      → Panics (framed c d checks op len s)
  unfolding framed
  Panics-framed s op len h k = rw (six op h, fifteen op h, two op h) k
    where
      six : (n : ℕ) → 0x0f < n → (n == 0x06) ≡ false
      six n g = ground (arith, g)

      fifteen : (n : ℕ) → 0x0f < n → (n == 0x0f) ≡ false
      fifteen n g = ground (arith, g)

      two : (n : ℕ) → 0x0f < n → (n == 0x02) ≡ false
      two n g = ground (arith, g)

  Panics-read_file_record :
      (s : LinearReader c d) (op len : ℕ) (rest : Bytes)
      → Laws.IsValid c s.file_data
      → s.options.record_length_limit ≡ none
      → RwBuf.unread c s.file_data ≡ op_and_len op len ++ rest
      → 0x0f < op
      → len < 2 ^ 64
      → 2 ^ 64 ≤ 9 + len
      → Panics (read_file_record c d checks s)
  unfolding read_file_record
  Panics-read_file_record s op len rest v o e other small big =
      Does-load c d 9 _ s [] (op_and_len op len) rest v
        (append-nil (RwBuf.unread c s.file_data) ∙ e) (sym (length-op_and_len op len))
        (λ k pos none_left. absurd (omega (arith, pos, none_left)))
        λ enough.
          rw (opcode_of-op_and_len op len, length_of-op_and_len op len small)
            (Panics-framed s op len other (Panics-record_found s op len v o enough small big))

  panicked :
      (fuel : ℕ) (s : LinearReader c d)
      → Panics (step c d checks s)
      → (rounds (step c d checks) (suc fuel) s).0 ≡ some panic
  unfolding rounds
  panicked fuel s p = go (step c d checks s) p
    where
      go :
          (o : Outcome (LinearReader c d) Event (Unit {0}))
          → Panics o
          → (elim o as (λ _. Event × LinearReader c d) [
            | go_on _ s' ↦ rounds (step c d checks) fuel s'
            | leave e s' ↦ (e, s')
          ]).0
            ≡ some panic
      go o (goes a s' q) = absurd q
      go o (leaves e s' q) = q

  -- Without a record length limit, a record whose length and nine bytes exceed what 64 bits hold
  -- makes `next_event` panic, with and without overflow checks, where its opcode is none that the
  -- format names and the buffer's cursors are in order.
  pub next_event_panics :
      (fuel op len : ℕ) (rest : Bytes) (s : LinearReader c d)
      → Laws.IsValid c s.file_data
      → s.at_eof ≡ false
      → s.currently_reading ≡ file_record
      → s.options.record_length_limit ≡ none
      → RwBuf.unread c s.file_data ≡ op_and_len op len ++ rest
      → 0x0f < op
      → len < 2 ^ 64
      → 2 ^ 64 ≤ 9 + len
      → (next_event c d checks (suc fuel) s).0 ≡ some panic
  unfolding next_event step
  next_event_panics fuel op len rest s v open_still r o e other small big =
      ap
        (λ (b : Bool).
          (if b then (ended c d checks s, s) else rounds (step c d checks) (suc fuel) s).0)
        open_still
      ∙ panicked fuel s (
          subst (λ (q : CurrentlyReading c d). Panics (step_in c d checks q s)) (sym r)
            (unfold step_in in Panics-read_file_record s op len rest v o e other small big))
