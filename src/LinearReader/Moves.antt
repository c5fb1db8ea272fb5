-- ===== src/LinearReader/Moves.antt =====
-- The steps that the states of `next_event` share: its macros, and the changes of a field.
use mcap.Prelude.{ℕ, ◌+◌, ◌-◌, ◌*◌, Option, none, some, [], ◌∷◌, take, ltb, if◌then◌else◌}
use mcap.Error.{Bytes, Result, ok, err, panic, stuck, McapError}
use mcap.Error
use mcap.Io.{Crc32}
use mcap.RwBuf
use mcap.RwBuf.{RwBuf}
use mcap.Read.{slice}
use mcap.Decompressor.{Decompressor}
use mcap.LinearEvents.{LinearReadEvent, read_request, record_read}
use mcap.Step.{Outcome, go_on, leave, Step, check}
use mcap.LinearReader.Options.{check_len, ok_or}
use mcap.LinearReader.{LinearReader, CurrentlyReading, ChunkState}

-- `from_le_bytes`
unfoldable pub from_le : Bytes → ℕ
from_le [] = 0
from_le (b ∷ bs) = b + 256 * from_le bs

-- the byte and the number in the nine bytes `opcode_length_buf`
unfoldable pub opcode_of : Bytes → ℕ
opcode_of [] = 0
opcode_of (b ∷ bs) = b

unfoldable pub length_of : Bytes → ℕ
unfolding from_le
length_of [] = 0
length_of (b ∷ bs) = from_le bs

-- what `next_event` returns
abbrev pub Event : Type 0
Event = Option (Result LinearReadEvent)

module _ (c : Crc32) (d : Decompressor) where
  open c use {Hasher}

  abbrev pub Move : Type 0 → Type 0
  Move A = Step (LinearReader c d) Event A

  -- the macro `load!`
  unfoldable pub load : ℕ → Move Bytes
  unfolding RwBuf.len RwBuf.unread
  load n s =
      if ltb (RwBuf.len c s.file_data) n
      then leave (some (ok (read_request (n - RwBuf.len c s.file_data)))) s
      else go_on (take n (RwBuf.unread c s.file_data)) s

  -- a method of `file_data`
  unfoldable pub with_file_data :
      {A : Type 0} → LinearReader c d → Result (A × RwBuf c) → Outcome (LinearReader c d) Event A
  with_file_data s (ok (a, b)) = go_on a (record s { file_data = b })
  with_file_data s (err e) = leave (some (err e)) s
  with_file_data s panic = leave (some panic) s
  with_file_data s stuck = leave (some stuck) s

  -- a method of `decompressed_content`
  unfoldable pub with_decompressed :
      {A : Type 0} → LinearReader c d → Result (A × RwBuf c) → Outcome (LinearReader c d) Event A
  with_decompressed s (ok (a, b)) = go_on a (record s { decompressed_content = b })
  with_decompressed s (err e) = leave (some (err e)) s
  with_decompressed s panic = leave (some panic) s
  with_decompressed s stuck = leave (some stuck) s

  -- the macro `consume!`
  unfoldable pub consume : ℕ → Move Bytes
  unfolding RwBuf.len RwBuf.consume with_file_data
  consume n s =
      if ltb (RwBuf.len c s.file_data) n
      then leave (some (ok (read_request (n - RwBuf.len c s.file_data)))) s
      else with_file_data s (RwBuf.consume c s.file_data n)

  unfoldable pub consume_without_hashing : ℕ → Move Bytes
  unfolding RwBuf.consume_without_hashing with_file_data
  consume_without_hashing n s = with_file_data s (RwBuf.consume_without_hashing c s.file_data n)

  unfoldable pub mark_read : ℕ → Move Unit
  unfolding RwBuf.mark_read with_file_data
  mark_read n s = with_file_data s (Error.◌>>=◌ (RwBuf.mark_read c s.file_data n) (λ b. ok (tt, b)))

  -- `file_data.hasher_mut().take()`
  unfoldable pub take_hasher : Move (Option Hasher)
  unfolding RwBuf.set_hasher
  take_hasher s =
      go_on s.file_data.hasher (record s { file_data = RwBuf.set_hasher c s.file_data none })

  -- an early return with a value
  unfoldable pub return_early : {A : Type 0} → Result LinearReadEvent → Move A
  return_early r s = leave (some r) s

  unfoldable pub finish : {A : Type 0} → Move A
  finish s = leave none s

  -- `return Some(Ok(LinearReadEvent::Record { .. }))`
  unfoldable pub emit : ℕ → Bytes → Move Unit
  emit op bytes s = leave (some (ok (record_read op bytes))) s

  unfoldable pub enter : CurrentlyReading c d → Move Unit
  enter state s = go_on tt (record s { currently_reading = state })

  unfoldable pub set_chunk_state : Option (ChunkState c d) → Move Unit
  set_chunk_state state s = go_on tt (record s { chunk_state = state })

  unfoldable pub chunk_state_in :
      LinearReader c d → Option (ChunkState c d) → Outcome (LinearReader c d) Event (ChunkState c d)
  chunk_state_in s (some state) = go_on state s
  chunk_state_in s none = leave (some panic) s

  -- `chunk_state.as_mut().expect("chunk state should be set")`
  unfoldable pub chunk_state : Move (ChunkState c d)
  unfolding chunk_state_in
  chunk_state s = chunk_state_in s s.chunk_state

  -- `check_len` against the limit of the options, with the error of a length above it
  unfoldable pub limited : McapError → ℕ → Move ℕ
  unfolding check_len ok_or check
  limited e len s = check (ok_or (check_len len s.options.record_length_limit) e) s

  -- `&bytes[start..end]`
  unfoldable pub view : Bytes → ℕ → ℕ → Move Bytes
  unfolding check slice
  view bytes start end = check (slice bytes start end)
