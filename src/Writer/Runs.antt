-- ===== src/Writer/Runs.antt =====
-- Runs of `Writer`: what its statistics say after any calls.
use mcap.Writer.Closing.{
  attach, write_metadata, start_attachment, start_in, put_attachment_bytes, put_in,
  finish_attachment, finish_in,
}
use mcap.Prelude.{
  ℕ, ◌+◌, ◌≡◌, refl, Bool, Option, none, some, ◌⊎◌, inl, inr, List, [], ◌∷◌, arith, length,
  length-append,
}
use mcap.Error.{Bytes, ok}
use mcap.BiMap.{BiMap}
use mcap.Records.{MessageHeader, Statistics}
use mcap.Records.Maps.{nat_order}
use mcap.Writer.{
  emit_in, emit, counted, Mode, open_, attaching, lost, finished, SchemaContent, ChannelContent,
  Message, Writer, new, widen, count_of, count_one, total, emit_if, schema_record, channel_record,
  schema_registered, channel_registered, add_schema, add_channel_unless, add_channel,
  write_to_known_channel, write_own_schema, write_own_channel, content_of, schema_content, write,
  write_private_record, statistics_of, bounds_or_zero,
}
use mcap.Writer
use mcap.Writer.Counts.{times, Spans}
use mcap.Writer.Tallies.{
  Tallies, Tallies-new, Tallies-emit, Tallies-bind, Tallies-add_schema, Tallies-add_channel,
  Tallies-write, Tallies-write_to_known_channel, Tallies-write_private_record,
}
use mcap.Records.{AttachmentHeader, Metadata, metadata}
use mcap.Prelude.{◌-◌, le→ltb_false, eq→==}

-- The statistics of messages with these log times, and of so many attachments.
abbrev pub Summarizes : Statistics → List ℕ → ℕ → Type 0
Summarizes s ts attachments =
    (s.message_count ≡ length ts)
    × ((ts ≡ []) ⊎ Spans (some (s.message_start_time, s.message_end_time)) ts)
    × (s.attachment_count ≡ attachments)

module _ (bs : BiMap SchemaContent) (bc : BiMap ChannelContent) (checks : Bool) where
  Tallies-write_metadata :
      (m : Metadata) (w : Writer bs bc checks)
      → Tallies bs bc checks w
      → Tallies bs bc checks (write_metadata bs bc checks m w).1
  unfolding write_metadata times
  Tallies-write_metadata m w t =
      Tallies-bind bs bc checks (emit bs bc checks (metadata m) w)
        (λ _ w'. (ok (tt {0}), record w' { metadata_count = w'.metadata_count + 1 }))
        (Tallies-emit bs bc checks (metadata m) w refl t)
        (λ _ w' t'. record {
          is_open = t'.is_open;
          counted = t'.counted;
          bounded = t'.bounded;
          attached = t'.attached;
        })

  Tallies-attach_in :
      (mode : Mode) (h : AttachmentHeader) (bytes : Bytes) (w : Writer bs bc checks)
      → w.mode ≡ mode
      → Tallies bs bc checks w
      → Tallies bs bc checks
          (Writer.◌>>=◌ bs bc checks (start_in bs bc checks mode (length bytes) h w) (λ _ w'.
            Writer.◌>>=◌ bs bc checks
              (put_attachment_bytes bs bc checks bytes w')
              (λ _ w''. finish_attachment bs bc checks w''))).1
  unfolding start_in put_attachment_bytes put_in finish_attachment finish_in Writer.◌>>=◌
  Tallies-attach_in open_ h bytes w e t =
      rw
        (
          le→ltb_false (length bytes - 0) (length bytes) (omega arith),
          Writer.◌>>=◌,
          finish_attachment,
          finish_in,
          eq→== (length bytes) (length bytes) refl,
        )
        (record {
          is_open = refl;
          counted = t.counted;
          bounded = t.bounded;
          attached = omega (arith, t.attached, length-append w.attachments ((h, bytes) ∷ []));
        })
  Tallies-attach_in (attaching _ _ _) h bytes w e t = t
  Tallies-attach_in lost h bytes w e t = t
  Tallies-attach_in (finished _) h bytes w e t = t

  Tallies-attach :
      (h : AttachmentHeader) (bytes : Bytes) (w : Writer bs bc checks)
      → Tallies bs bc checks w
      → Tallies bs bc checks (attach bs bc checks h bytes w).1
  unfolding attach start_attachment
  Tallies-attach h bytes w t = Tallies-attach_in w.mode h bytes w refl t

  -- The calls that a program makes of a writer, in any order; it may go on after an error.
  pub data Command : Type 0 where
    adds_schema : SchemaContent → Command
    adds_channel : ChannelContent → Command
    writes : Message → Command
    writes_known : MessageHeader → Bytes → Command
    writes_private : ℕ → Bytes → Command
    writes_metadata : Metadata → Command
    attaches : AttachmentHeader → Bytes → Command

  unfoldable pub run_one : Command → Writer bs bc checks → Writer bs bc checks
  run_one (adds_schema s) w = (add_schema bs bc checks s w).1
  run_one (adds_channel c) w = (add_channel bs bc checks c w).1
  run_one (writes m) w = (write bs bc checks m w).1
  run_one (writes_known h bytes) w = (write_to_known_channel bs bc checks h bytes w).1
  run_one (writes_private op bytes) w = (write_private_record bs bc checks op bytes w).1
  run_one (writes_metadata m) w = (write_metadata bs bc checks m w).1
  run_one (attaches h bytes) w = (attach bs bc checks h bytes w).1

  unfoldable pub run : List Command → Writer bs bc checks → Writer bs bc checks
  unfolding run_one
  run [] w = w
  run (c ∷ cs) w = run cs (run_one c w)

  Tallies-run_one :
      (c : Command) (w : Writer bs bc checks)
      → Tallies bs bc checks w
      → Tallies bs bc checks (run_one c w)
  unfolding run_one
  Tallies-run_one (adds_schema s) w t = Tallies-add_schema bs bc checks s w t
  Tallies-run_one (adds_channel c) w t = Tallies-add_channel bs bc checks c w t
  Tallies-run_one (writes m) w t = Tallies-write bs bc checks m w t
  Tallies-run_one (writes_known h bytes) w t =
      Tallies-write_to_known_channel bs bc checks h bytes w t
  Tallies-run_one (writes_private op bytes) w t =
      Tallies-write_private_record bs bc checks op bytes w t
  Tallies-run_one (writes_metadata m) w t = Tallies-write_metadata m w t
  Tallies-run_one (attaches h bytes) w t = Tallies-attach h bytes w t

  Tallies-run :
      (cs : List Command) (w : Writer bs bc checks)
      → Tallies bs bc checks w
      → Tallies bs bc checks (run cs w)
  unfolding run
  Tallies-run [] w t = t
  Tallies-run (c ∷ cs) w t = Tallies-run cs (run_one c w) (Tallies-run_one c w t)

  -- After any calls of `add_schema`, `add_channel`, `write`, `write_to_known_channel`,
  -- `write_private_record`, `write_metadata` and `attach` on a new writer, failed ones included,
  -- the statistics count the messages and the attachments that were written, and unless there are
  -- no messages their start and end times are the least and the greatest log time of these.
  pub statistics_of-run :
      (cs : List Command)
      → Summarizes
          (statistics_of bs bc checks (run cs (new bs bc checks)))
          (times (run cs (new bs bc checks)).emitted)
          (length (run cs (new bs bc checks)).attachments)
  unfolding statistics_of bounds_or_zero
  statistics_of-run cs = (tallies.counted, go _ tallies.bounded, tallies.attached)
    where
      tallies : Tallies bs bc checks (run cs (new bs bc checks))
      tallies = Tallies-run cs _ (Tallies-new bs bc checks)

      go :
          (o : Option (ℕ × ℕ)) {ts : List ℕ}
          → Spans o ts
          → (ts ≡ []) ⊎ Spans (some ((bounds_or_zero o).0, (bounds_or_zero o).1)) ts
      go none h = inl h
      go (some p) h = inr h
