-- ===== src/Mapped.antt =====
-- The readers over a mapped file of rust/mcap/src/read.rs that drive the linear reader: `LinearReader`,
-- `ChunkReader` and `ChunkFlattener`, and the iterator `InnerReader` that is in each of them.
--
-- The loop of `next` is on fuel, and so is the one of `next_event` that it calls.
pub mod Requests
pub mod ReadBack
use mcap.Prelude.{
  ℕ, zero, suc, min, Bool, true, Option, none, some, List, [], ◌∷◌, length, take, drop,
}
use mcap.Error.{Bytes, Result, ok, err, panic, stuck, ◌>>=◌}
use mcap.Io.{Crc32}
use mcap.Records.{Record, ChunkHeader, into_owned}
use mcap.Read.{parse_record}
use mcap.Decompressor.{Decompressor}
use mcap.LinearEvents.{read_request, record_read}
use mcap.Step.{Step, Outcome, go_on, leave, rounds}
use mcap.LinearReader.Options.{
  default_options, with_record_length_limit, with_skip_end_magic, with_skip_start_magic,
  with_validate_chunk_crcs, with_emit_chunks,
}
use mcap.LinearReader
use mcap.LinearReader.{LinearReader, insert, write_received, notify_read}
use mcap.LinearReader.Moves.{Event}
use mcap.LinearReader.Header.{for_chunk}
use mcap.LinearReader.Event.{next_event}

module _ (c : Crc32) (d : Decompressor) (checks : Bool) where
  pub record InnerReader : Type 0 where
    pub buf : Bytes
    pub reader : LinearReader c d

  -- `LinearReader::new_with_options`
  unfoldable pub linear_reader : Bytes → Bool → InnerReader
  unfolding mcap.LinearReader.new_with_options with_record_length_limit with_skip_end_magic
      with_validate_chunk_crcs with_emit_chunks
  linear_reader buf ignore_end_magic = record {
    buf = buf;
    reader = mcap.LinearReader.new_with_options c d (
        with_emit_chunks
          (with_validate_chunk_crcs
            (with_skip_end_magic (with_record_length_limit default_options (length buf))
              ignore_end_magic)
            true)
          true);
  }

  -- `LinearReader::sans_magic`
  unfoldable pub sans_magic : Bytes → InnerReader
  unfolding mcap.LinearReader.new_with_options with_record_length_limit with_skip_end_magic
      with_skip_start_magic
  sans_magic buf = record {
    buf = buf;
    reader = mcap.LinearReader.new_with_options c d (
        with_skip_start_magic
          (with_skip_end_magic (with_record_length_limit default_options (length buf)) true) true);
  }

  -- `ChunkReader::new`
  unfoldable pub chunk_reader : ChunkHeader → Bytes → Result InnerReader
  chunk_reader header buf =
      for_chunk c d header >>= λ reader. ok (record { buf = buf; reader = reader })

  -- `ChunkFlattener::new_with_options`
  unfoldable pub chunk_flattener : Bytes → Bool → InnerReader
  unfolding mcap.LinearReader.new_with_options with_skip_end_magic with_validate_chunk_crcs
  chunk_flattener buf ignore_end_magic = record {
    buf = buf;
    reader =
        mcap.LinearReader.new_with_options c d
          (with_validate_chunk_crcs (with_skip_end_magic default_options ignore_end_magic) true);
  }

  abbrev pub Item : Type 0
  Item = Option (Result Record)

  -- A request is served with the bytes that are left, as far as they go.
  unfoldable pub served : Bytes → LinearReader c d → ℕ → Result InnerReader
  served buf s need =
      let len = min (length buf) need in
      notify_read c d (write_received c d (insert c d s len) (take len buf)) len >>= λ s'.
      ok (record { buf = drop len buf; reader = s' })

  unfoldable pub on_served : InnerReader → Result InnerReader → Outcome InnerReader Item Unit
  on_served r (ok r') = go_on tt r'
  on_served r (err e) = leave (some (err e)) r
  on_served r panic = leave (some panic) r
  on_served r stuck = leave (some stuck) r

  unfoldable pub on_event : Bytes → Event × LinearReader c d → Outcome InnerReader Item Unit
  unfolding served on_served
  on_event buf (some (ok (read_request need)), s) =
      on_served (record { buf = buf; reader = s }) (served buf s need)
  on_event buf (some (ok (record_read op bytes)), s) =
      leave (some (parse_record c.hash op bytes >>= λ r. ok (into_owned r)))
        (record { buf = buf; reader = s })
  on_event buf (some (err e), s) = leave (some (err e)) (record { buf = buf; reader = s })
  on_event buf (some panic, s) = leave (some panic) (record { buf = buf; reader = s })
  on_event buf (some stuck, s) = leave (some stuck) (record { buf = buf; reader = s })
  on_event buf (none, s) = leave none (record { buf = buf; reader = s })

  unfoldable pub next_round : ℕ → Step InnerReader Item Unit
  unfolding on_event
  next_round event_fuel r = on_event r.buf (next_event c d checks event_fuel r.reader)

  -- `Iterator::next` of `InnerReader`
  unfoldable pub next : ℕ → ℕ → InnerReader → Item × InnerReader
  next event_fuel fuel r = rounds (next_round event_fuel) fuel r

  unfoldable pub collected :
      Item × InnerReader → (InnerReader → List (Result Record)) → List (Result Record)
  collected (none, r) rest = []
  collected (some x, r) rest = x ∷ rest r

  -- What an iterator returns in at most `n` calls, up to its end.
  unfoldable pub collect : ℕ → ℕ → ℕ → InnerReader → List (Result Record)
  unfolding collected
  collect event_fuel fuel zero r = []
  collect event_fuel fuel (suc n) r = collected (next event_fuel fuel r) (collect event_fuel fuel n)
