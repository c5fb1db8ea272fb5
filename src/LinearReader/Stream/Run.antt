-- ===== src/LinearReader/Stream/Run.antt =====
-- `next_event` over a file of records.
use mcap.Prelude.{
  ℕ, zero, suc, ◌+◌, ◌^◌, ◌≤◌, ◌<◌, ◌≡◌, refl, sym, ap, Bool, false, Option, none, some, [], ◌++◌,
  arith, length, if◌then◌else◌,
}
use mathlib.Core.Path.{subst}
use mcap.Error.{Bytes, ok, record_too_large}
use mcap.Io.{Crc32}
use mcap.RwBuf
use mcap.Records.{Footer}
use mcap.Records.Decode.{get_footer, get_data_end}
use mcap.Summary.{magic}
use mcap.Decompressor.{Decompressor}
use mcap.Step.{put, pure, Outcome, go_on, leave, rounds}
use mcap.LinearReader.{
  LinearReader, CurrentlyReading, start_magic, file_record, chunk_header, footer, data_end,
  validating_chunk_crc, chunk_record, padding_after_chunk, end_magic, after_end_magic,
}
use mcap.LinearReader.Moves.{Event, emit}
use mcap.LinearReader.Records.{
  check_data_crc, restart_hasher, read_data_end, check_summary_crc, read_footer,
}
use mcap.LinearReader.Event.{step_in, step, next_event, ended}
use mcap.LinearReader.Stream.{Framed, Expects, IsReady, Tells, asks, gives}
use mcap.LinearReader.Stream.Rules.{
  goes, leaves, Does-load, Does-consume, Does-without, Does-limited, Does-check, Does-go,
  Does-enter,
}
use mcap.LinearReader.Stream.Steps.{
  step_rank, Round, ready, Round-read_start_magic, Round-read_file_record, Round-read_end_magic,
  Round-read_after_end_magic,
}

module _ (c : Crc32) (d : Decompressor) (limit : ℕ) (last : Bytes) (checks : Bool) where
  not_restarted :
      (s : LinearReader c d)
      → s.options.validate_summary_section_crc ≡ false
      → restart_hasher c d checks s ≡ go_on tt s
  unfolding restart_hasher put
  not_restarted s e =
      ap
        (λ (b : Bool).
          if b
          then go_on tt (record s { file_data = RwBuf.set_hasher c s.file_data (some c.fresh) })
          else go_on tt s)
        e

  unchecked :
      (o : Option ℕ) (saved : ℕ) (s : LinearReader c d)
      → o ≡ none
      → check_data_crc c d checks o saved s ≡ go_on tt s
  unfolding check_data_crc pure
  unchecked none saved s e = refl
  unchecked (some k) saved s e = absurd (cc e)

  unhashed :
      (o : Option c.Hasher) (bytes : Bytes) (saved : ℕ) (s : LinearReader c d)
      → o ≡ none
      → check_summary_crc c d checks o bytes saved s ≡ go_on tt s
  unfolding check_summary_crc pure
  unhashed none bytes saved s e = refl
  unhashed (some k) bytes saved s e = absurd (cc e)

  Round-read_data_end :
      (s : LinearReader c d) (future : Bytes) (out : Framed) (len : ℕ) (o : Option ℕ)
      → IsReady c d limit last future out s
      → Expects c d limit last (data_end len o) (RwBuf.unread c s.file_data ++ future) out
      → Round c d limit last checks 1 future out (read_data_end c d checks len o s)
  unfolding read_data_end emit
  Round-read_data_end s future out len o g (body, rest, out', e, size, none_left, eq, item, ahead) =
      let (r, read) = item.2 refl in
      Does-limited c d (record_too_large 0x0f len) len limit _ s g.limit_set
        (omega (arith, size, item.1))
        (Does-load c d len _ s future body rest g.file_valid e size (λ n pos le. asks n s pos le g)
          λ enough. Does-check c d (get_data_end body) r _ s read (
            Does-go c d _ _ s s tt (unchecked o r.0.data_section_crc s none_left) (
              Does-go c d _ _ s s tt (not_restarted s g.no_summary_crc) (
                Does-without c d len _ s future body rest g.file_valid g.no_hasher e size enough
                  λ b l. Does-enter c d file_record _ _ (
                    leaves _ _ (
                      gives 0x0f body out' _ eq
                        (ready c d limit last checks file_record g l ahead)))))))

  Round-read_footer :
      (s : LinearReader c d) (future : Bytes) (out : Framed) (len : ℕ) (o : Option c.Hasher)
      (r : Footer × Bytes)
      → IsReady c d limit last future out s
      → length last ≤ limit
      → get_footer last ≡ ok r
      → Expects c d limit last (footer len o) (RwBuf.unread c s.file_data ++ future) out
      → Round c d limit last checks 1 future out (read_footer c d checks len o s)
  unfolding read_footer emit
  Round-read_footer s future out len o r g m read (e, size, none_left, eq) =
      Does-limited c d (record_too_large 0x02 len) len limit _ s g.limit_set
        (omega (arith, size, m))
        (Does-consume c d len _ s future last magic g.file_valid g.no_hasher e size
          (λ n pos le. asks n s pos le g)
          λ b l. Does-check c d (get_footer last) r _ _ read (
            Does-go c d _ _ _ _ tt (unhashed o last r.0.summary_crc _ none_left) (
              Does-enter c d end_magic _ _ (
                leaves _ _ (
                  gives 0x02 last [] _ eq
                    (ready c d limit last checks end_magic g l (refl, refl)))))))

  module _ (m : limit + 9 < 2 ^ 64) (l : length last ≤ limit) (r : Footer × Bytes)
      (read : get_footer last ≡ ok r) where
    Round-step_in :
        (q : CurrentlyReading c d) (s : LinearReader c d) (future : Bytes) (out : Framed)
        → s.currently_reading ≡ q
        → IsReady c d limit last future out s
        → Expects c d limit last q (RwBuf.unread c s.file_data ++ future) out
        → Round c d limit last checks
            (step_rank c d limit last checks q)
            future
            out
            (step_in c d checks q s)
    unfolding step_in
    Round-step_in start_magic s future out e g x =
        Round-read_start_magic c d limit last checks s future out g x
    Round-step_in file_record s future out e g x =
        Round-read_file_record c d limit last checks s future out g m l e x
    Round-step_in (data_end len o) s future out e g x = Round-read_data_end s future out len o g x
    Round-step_in (footer len o) s future out e g x =
        Round-read_footer s future out len o r g l read x
    Round-step_in end_magic s future out e g x =
        Round-read_end_magic c d limit last checks s future out g x
    Round-step_in after_end_magic s future out e g x =
        Round-read_after_end_magic c d limit last checks s future out g x.1
    Round-step_in (chunk_header len) s future out e g x = absurd x
    Round-step_in validating_chunk_crc s future out e g x = absurd x
    Round-step_in chunk_record s future out e g x = absurd x
    Round-step_in padding_after_chunk s future out e g x = absurd x

    rounds-Tells :
        (fuel : ℕ) (s : LinearReader c d) (future : Bytes) (out : Framed)
        → IsReady c d limit last future out s
        → step_rank c d limit last checks s.currently_reading < fuel
        → let (e, s') = rounds (step c d checks) fuel s in Tells c d limit last future out e s'
    unfolding rounds step
    rounds-Tells zero s future out g lt = absurd (omega arith)
    rounds-Tells (suc fuel) s future out g lt =
        go _ (Round-step_in s.currently_reading s future out refl g g.ahead)
          (λ s' g' less. rounds-Tells fuel s' future out g' (omega arith))
      where
        go :
            (o : Outcome (LinearReader c d) Event (Unit {0}))
            → Round c d limit last checks
                (step_rank c d limit last checks s.currently_reading)
                future
                out
                o
            → ((s' : LinearReader c d)
                → IsReady c d limit last future out s'
                → step_rank c d limit last checks s'.currently_reading
                  < step_rank c d limit last checks s.currently_reading
                → let (e, s1) = rounds (step c d checks) fuel s' in
                  Tells c d limit last future out e s1)
            → let (e, s1) = elim o as (λ _. Event × LinearReader c d) [
              | go_on _ s' ↦ rounds (step c d checks) fuel s'
              | leave e s' ↦ (e, s')
            ] in
              Tells c d limit last future out e s1
        go o (goes a s' q) ih = ih s' q.0 q.1
        go o (leaves e s' t) ih = t

    at_most : (q : CurrentlyReading c d) → step_rank c d limit last checks q ≤ 3
    at_most start_magic = omega arith
    at_most file_record = omega arith
    at_most (data_end _ _) = omega arith
    at_most (footer _ _) = omega arith
    at_most _ = omega arith

    pub next_event-Tells :
        (fuel : ℕ) (s : LinearReader c d) (future : Bytes) (out : Framed)
        → IsReady c d limit last future out s
        → 4 ≤ fuel
        → let (e, s') = next_event c d checks fuel s in Tells c d limit last future out e s'
    unfolding next_event
    next_event-Tells fuel s future out g lt =
        subst
          (λ (b : Bool).
            let (e, s') =
              (if b then (ended c d checks s, s) else rounds (step c d checks) fuel s) in
            Tells c d limit last future out e s')
          (sym g.not_at_eof)
          (rounds-Tells fuel s future out g (omega (arith, lt, at_most s.currently_reading)))
