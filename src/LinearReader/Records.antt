-- ===== src/LinearReader/Records.antt =====
-- The states of `next_event` outside the chunks.
use mcap.Prelude.{ℕ, Bool, ◌&&◌, not, Option, none, some, length, ltb, ◌==◌, if◌then◌else◌}
use mcap.Error.{
  Bytes, ok, err, record_too_large, bad_magic, bad_data_crc, bad_summary_crc, bytes_after_end_magic,
}
use mcap.HashMap.{bytes_eq}
use mcap.Io.{Crc32}
use mcap.RwBuf
use mcap.Summary.{magic}
use mcap.Records.Decode.{get_footer, get_data_end}
use mcap.Decompressor.{Decompressor}
use mcap.LinearEvents.{read_request}
use mcap.Step.{◌>>=◌, ◌>>◌, get, put, pure, check}
use mcap.LinearReader.Options.{add_usize}
use mcap.LinearReader.{file_record, chunk_header, footer, data_end, end_magic, after_end_magic}
use mcap.LinearReader.Moves.{
  Move, opcode_of, length_of, load, consume, consume_without_hashing, mark_read, take_hasher,
  return_early, finish, emit, enter, limited, view,
}

module _ (c : Crc32) (d : Decompressor) (checks : Bool) where
  open c use {Hasher, fresh, update, finalize}

  unfoldable pub read_start_magic : Move c d Unit
  read_start_magic = do
    s ← get
    if s.options.skip_start_magic then enter c d file_record else do
      bytes ← consume c d (length magic)
      if bytes_eq bytes magic then enter c d file_record else return_early c d (err bad_magic)

  unfoldable pub chunk_found : ℕ → Move c d Unit
  chunk_found len = do mark_read c d 9; enter c d (chunk_header len)

  unfoldable pub finalized : Option Hasher → Option ℕ
  finalized none = none
  finalized (some h) = some (finalize h)

  unfoldable pub data_end_found : ℕ → Move c d Unit
  data_end_found len = do
    hasher ← take_hasher c d
    mark_read c d 9
    enter c d (data_end len (finalized hasher))

  unfoldable pub footer_found : ℕ → Move c d Unit
  footer_found len = do mark_read c d 9; hasher ← take_hasher c d; enter c d (footer len hasher)

  unfoldable pub record_found : ℕ → ℕ → Move c d Unit
  record_found op len = do
    n ← limited c d (record_too_large op len) len
    total ← check (add_usize checks 9 n)
    bytes ← consume c d total
    body ← view c d bytes 9 (length bytes)
    emit c d op body

  unfoldable pub framed : ℕ → ℕ → Move c d Unit
  framed op len s =
      if op == 0x06 && not s.options.emit_chunks
      then chunk_found len s
      else if op == 0x0f
      then data_end_found len s
      else if op == 0x02
      then footer_found len s
      else record_found op len s

  unfoldable pub read_file_record : Move c d Unit
  read_file_record = do buf ← load c d 9; framed (opcode_of buf) (length_of buf)

  unfoldable pub check_data_crc : Option ℕ → ℕ → Move c d Unit
  check_data_crc none saved = pure tt
  check_data_crc (some calculated) saved =
      if not (saved == 0) && not (calculated == saved)
      then return_early c d (err (bad_data_crc saved calculated))
      else pure tt

  unfoldable pub restart_hasher : Move c d Unit
  restart_hasher s =
      if s.options.validate_summary_section_crc
      then put (record s { file_data = RwBuf.set_hasher c s.file_data (some fresh) }) s
      else put s s

  unfoldable pub read_data_end : ℕ → Option ℕ → Move c d Unit
  read_data_end len calculated = do
    n ← limited c d (record_too_large 0x0f len) len
    buf ← load c d n
    (rec, _) ← check (get_data_end buf)
    check_data_crc calculated rec.data_section_crc
    restart_hasher
    body ← consume_without_hashing c d n
    enter c d file_record
    emit c d 0x0f body

  unfoldable pub check_summary_crc : Option Hasher → Bytes → ℕ → Move c d Unit
  check_summary_crc none bytes saved = pure tt
  check_summary_crc (some h) bytes saved = do
    covered ← view c d bytes 0 16
    let calculated = finalize (update h covered)
    if not (saved == 0) && not (saved == calculated)
        then return_early c d (err (bad_summary_crc saved calculated))
        else pure tt

  unfoldable pub read_footer : ℕ → Option Hasher → Move c d Unit
  read_footer len hasher = do
    n ← limited c d (record_too_large 0x02 len) len
    bytes ← consume c d n
    (rec, _) ← check (get_footer bytes)
    check_summary_crc hasher bytes rec.summary_crc
    enter c d end_magic
    emit c d 0x02 bytes

  unfoldable pub read_end_magic : Move c d Unit
  read_end_magic = do
    s ← get
    if s.options.skip_end_magic then finish c d else do
      bytes ← consume c d (length magic)
      if bytes_eq bytes magic then enter c d after_end_magic else return_early c d (err bad_magic)

  unfoldable pub read_after_end_magic : Move c d Unit
  read_after_end_magic s =
      if s.options.check_finishes_after_end_magic
      then (if ltb 0 (RwBuf.len c s.file_data)
          then return_early c d (err bytes_after_end_magic) s
          else if s.at_eof
          then finish c d s
          else return_early c d (ok (read_request 1)) s)
      else finish c d s
