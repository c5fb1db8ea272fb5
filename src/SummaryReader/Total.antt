-- ===== src/SummaryReader/Total.antt =====
-- `next_event_inner` returns: its loop ends.
use mcap.Summary.{Summary, compute_record_length_limit}
use mcap.Prelude.{ℕ, ◌+◌, ◌<◌}
use mcap.Error.{Bytes, Result, ok, err, panic, stuck}
use mcap.Records
use mcap.HashMap
use mcap.Channels
use mcap.LinearEvents
use mcap.LinearEvents.{LinearReader}
use mcap.SummaryReader.{
  SummaryReader, State, Round, again, done, seeking_to_footer, reading_footer, seeking_to_summary,
  reading_summary,
}

abbrev pub Ends {ℓ} : {A : Type ℓ} → Result A → Type 0
Ends (ok a) = Unit
Ends (err e) = Unit
Ends panic = Unit
Ends stuck = ⊥

module _ (crc32 : Bytes → ℕ) (inner : LinearReader) where
  open inner use {Reader}

  -- the reader that the summary will be read with
  abbrev held_later : SummaryReader crc32 inner → ℕ
  held_later s = inner.held (
      inner.new_with_limit
        (compute_record_length_limit s.pos s.file_size s.options.record_length_limit))

  -- How many rounds the loop of `next_event_inner` has left at most, this one included.
  abbrev pub rounds : SummaryReader crc32 inner → State crc32 inner → ℕ
  rounds s seeking_to_footer = 4 + held_later s
  rounds s (reading_footer _) = 3 + held_later s
  rounds s (seeking_to_summary _) = 2 + held_later s
  rounds s (reading_summary _ reader _) = 1 + inner.held reader

  abbrev Advances : ℕ → Round crc32 inner → Type 0
  Advances n (again s) = rounds s s.state < n
  Advances n (done r s) = Ends r
