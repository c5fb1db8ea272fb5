-- ===== src/SummaryReader.antt =====
-- `SummaryReader` of rust/mcap/src/sans_io/summary_reader.rs.
--
-- `next_event_inner` is `step_in`, one round of its loop, on fuel. A machine has 64 bits, and positions
-- in a file stay below 2^64. The inner `LinearReader` is the parameter `inner`.
pub mod Footer
pub mod Total
pub mod Pieces
use mcap.Prelude.{
  ℕ, zero, suc, ◌+◌, ◌-◌, min, Bool, true, false, ◌&&◌, not, Option, none, some, List, [], ◌∷◌,
  ◌++◌, length, take, drop, ltb, leb, ◌==◌, if◌then◌else◌,
}
use mcap.Error.{Bytes, Result, ok, err, panic, stuck, ◌>>=◌, unexpected_eof, bad_magic, bad_footer}
use mcap.Cursor.{resize}
use mcap.HashMap.{bytes_eq}
use mcap.Records
use mcap.Records.{
  Record, Statistics, AttachmentIndex, MetadataIndex, ChunkIndex, attachment_index, metadata_index,
  statistics, channel, schema, chunk_index, into_owned,
}
use mcap.Records.Decode.{get_footer}
use mcap.Channels
use mcap.Channels.{Schema, Channel, ChannelAccumulator, no_channels}
use mcap.Read.{parse_record, slice}
use mcap.LinearEvents
use mcap.LinearEvents.{LinearReadEvent, LinearReader, record_read}
use mcap.Summary.{
  magic, footer_size, SeekFrom, SummaryReadEvent, Summary, no_summary, SummaryReaderOptions,
  with_file_size, with_record_length_limit, compute_record_length_limit, collect, fill,
  footer_parts, footer, start, before_end, read_request, seek_request,
}

module _ (crc32 : Bytes → ℕ) (inner : LinearReader) where
  open inner use {Reader}

  pub data State : Type 0 where
    seeking_to_footer : State
    reading_footer : ℕ → State
    seeking_to_summary : ℕ → State
    reading_summary : ℕ → Reader → ChannelAccumulator → State

  pub record SummaryReader : Type 0 where
    pub pos : ℕ
    pub footer_buf : Bytes
    pub file_size : Option ℕ
    pub state : State
    pub summary : Summary
    pub summary_present : Bool
    pub at_eof : Bool
    pub options : SummaryReaderOptions

  unfoldable pub new_with_options : SummaryReaderOptions → SummaryReader
  new_with_options o = record {
    pos = 0;
    footer_buf = [];
    file_size = o.file_size;
    state = seeking_to_footer;
    summary = no_summary;
    summary_present = false;
    at_eof = false;
    options = o;
  }

  -- A round of the loop: `continue`, or the value that the call returns.
  pub data Round : Type 0 where
    again : SummaryReader → Round
    done : Result (Option SummaryReadEvent) → SummaryReader → Round

  unfoldable pub seek_footer : SummaryReader → Option ℕ → Round
  seek_footer s none = done (ok (some (seek_request (before_end footer_size)))) s
  seek_footer s (some size) =
      if ltb size (footer_size + 8)
      then done (err unexpected_eof) s
      else if s.pos == (size - footer_size)
      then again (record s { state = reading_footer 0 })
      else done (ok (some (seek_request (start (size - footer_size))))) s

  unfoldable pub with_footer : SummaryReader → Records.Footer → Round
  with_footer s f =
      if f.summary_start == 0
      then done (ok none) s
      else again (record s { summary_present = true; state = seeking_to_summary f.summary_start })

  unfoldable pub footer_checked : SummaryReader → Result (Records.Footer × Bytes) → Round
  unfolding with_footer
  footer_checked s (ok r) = with_footer s r.0
  footer_checked s (err e) = done (err e) s
  footer_checked s panic = done panic s
  footer_checked s stuck = done stuck s

  unfoldable pub check_footer : SummaryReader → Bytes → Bytes → Bytes → Round
  unfolding footer_checked
  check_footer s opcode body end_magic =
      if not (bytes_eq end_magic magic)
      then done (err bad_magic) s
      else if not (bytes_eq opcode (0x02 ∷ []))
      then done (err bad_footer) s
      else footer_checked s (get_footer body)

  unfoldable pub parted_footer : SummaryReader → Result (Bytes × Bytes × Bytes) → Round
  unfolding check_footer
  parted_footer s (ok (opcode, body, end_magic)) = check_footer s opcode body end_magic
  parted_footer s (err e) = done (err e) s
  parted_footer s panic = done panic s
  parted_footer s stuck = done stuck s

  unfoldable pub read_footer : SummaryReader → ℕ → Round
  unfolding parted_footer
  read_footer s loaded =
      if leb footer_size loaded
      then parted_footer s (footer_parts s.footer_buf loaded)
      else if s.at_eof
      then done (err unexpected_eof) s
      else done (ok (some (read_request (footer_size - loaded)))) s

  unfoldable pub seek_summary : SummaryReader → ℕ → Round
  seek_summary s summary_start =
      if s.pos == summary_start
      then again (record s {
        state =
            reading_summary summary_start
              (inner.new_with_limit
                (compute_record_length_limit s.pos s.file_size s.options.record_length_limit))
              no_channels;
      })
      else done (ok (some (seek_request (start summary_start)))) s

  -- `s` has the reader after its event already.
  unfoldable pub collected :
      SummaryReader → ℕ → Reader → Result (ChannelAccumulator × Summary) → Round
  collected s summary_start reader (ok (acc, summary)) =
      again (record s { state = reading_summary summary_start reader acc; summary = summary })
  collected s summary_start reader (err e) = done (err e) s
  collected s summary_start reader panic = done panic s
  collected s summary_start reader stuck = done stuck s

  unfoldable pub on_event :
      SummaryReader → ℕ → ChannelAccumulator → Option (Result LinearReadEvent) → Reader → Round
  unfolding collected
  on_event s summary_start acc (some (ok (record_read op bytes))) reader =
      collected (record s { state = reading_summary summary_start reader acc }) summary_start reader
        (parse_record crc32 op bytes >>= λ r. collect (into_owned r) acc s.summary)
  on_event s summary_start acc (some (ok (LinearEvents.read_request n))) reader =
      done (ok (some (read_request n)))
        (record s { state = reading_summary summary_start reader acc })
  on_event s summary_start acc (some (err e)) reader =
      done (err e) (record s { state = reading_summary summary_start reader acc })
  on_event s summary_start acc (some panic) reader = done panic s
  on_event s summary_start acc (some stuck) reader = done stuck s
  on_event s summary_start acc none reader = done (ok none) (record s {
    state = reading_summary summary_start reader acc;
    summary = record s.summary { schemas = acc.schemas; channels = acc.channels };
  })

  unfoldable pub read_summary :
      SummaryReader → ℕ → ChannelAccumulator → Option (Result LinearReadEvent) × Reader → Round
  unfolding on_event
  read_summary s summary_start acc (e, reader) = on_event s summary_start acc e reader

  unfoldable pub step_in : SummaryReader → State → Round
  unfolding seek_footer read_footer seek_summary read_summary
  step_in s seeking_to_footer = seek_footer s s.file_size
  step_in s (reading_footer loaded) = read_footer s loaded
  step_in s (seeking_to_summary summary_start) = seek_summary s summary_start
  step_in s (reading_summary summary_start reader acc) =
      read_summary s summary_start acc (inner.next_event reader)

  unfoldable pub next_event_inner :
      ℕ → SummaryReader → Result (Option SummaryReadEvent) × SummaryReader
  unfolding step_in
  next_event_inner zero s = (stuck, s)
  next_event_inner (suc fuel) s = elim (step_in s s.state) [
    | again s' ↦ next_event_inner fuel s'
    | done r s' ↦ (r, s')
  ]

  unfoldable pub notify_in : SummaryReader → State → ℕ → Result SummaryReader
  notify_in s (reading_footer loaded) n =
      if leb (loaded + n) (length s.footer_buf)
      then ok (record s { at_eof = n == 0; state = reading_footer (loaded + n); pos = s.pos + n })
      else panic
  notify_in s (reading_summary summary_start reader acc) n = ok (record s {
    at_eof = n == 0;
    state = reading_summary summary_start (inner.notify_read reader n) acc;
    pos = s.pos + n;
  })
  notify_in s seeking_to_footer n = ok (record s { at_eof = n == 0; pos = s.pos + n })
  notify_in s (seeking_to_summary _) n = ok (record s { at_eof = n == 0; pos = s.pos + n })

  unfoldable pub notify_read : SummaryReader → ℕ → Result SummaryReader
  unfolding notify_in
  notify_read s n = notify_in s s.state n

  unfoldable pub size_from : Option ℕ → ℕ → Option ℕ
  size_from (some size) pos = some size
  size_from none pos = some (pos + footer_size)

  -- an unexpected seek
  unfoldable pub reset : SummaryReader → State → SummaryReader
  reset s (reading_footer _) = record s { footer_buf = []; state = seeking_to_footer }
  reset s (reading_summary summary_start _ _) = record s {
    state = seeking_to_summary summary_start;
    summary = no_summary;
  }
  reset s seeking_to_footer = s
  reset s (seeking_to_summary _) = s

  unfoldable pub notify_seeked : SummaryReader → ℕ → SummaryReader
  unfolding size_from reset
  notify_seeked s pos =
      let s1 : SummaryReader = record s { file_size = size_from s.file_size pos } in
      if s.pos == pos then s1 else record (reset s1 s1.state) { at_eof = false; pos = pos }

  unfoldable pub insert_in : SummaryReader → State → ℕ → SummaryReader
  insert_in s (reading_footer loaded) n = record s { footer_buf = resize (loaded + n) s.footer_buf }
  insert_in s (reading_summary summary_start reader acc) n = record s {
    state = reading_summary summary_start (inner.insert reader n) acc;
  }
  insert_in s seeking_to_footer n = record s { footer_buf = resize n s.footer_buf }
  insert_in s (seeking_to_summary _) n = record s { footer_buf = resize n s.footer_buf }

  unfoldable pub insert : SummaryReader → ℕ → SummaryReader
  unfolding insert_in
  insert s n = insert_in s s.state n

  -- What a caller does on a request while the footer is read, from `loaded` on: it takes a buffer of
  -- `n` bytes, reads `got` into it, and reports how many these are.
  unfoldable pub receive : SummaryReader → ℕ → ℕ → Bytes → Result SummaryReader
  unfolding insert notify_read
  receive s loaded n got =
      notify_read (record (insert s n) { footer_buf = fill loaded got (insert s n).footer_buf })
        (length got)

  unfoldable pub receive_all : SummaryReader → ℕ → List (ℕ × Bytes) → Result SummaryReader
  receive_all s loaded [] = ok s
  receive_all s loaded ((n, got) ∷ rest) =
      receive s loaded n got >>= λ s'. receive_all s' (loaded + length got) rest

  unfoldable pub finish : SummaryReader → Option Summary
  finish s = if s.summary_present then some s.summary else none
