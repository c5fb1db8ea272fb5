-- ===== src/Read.antt =====
-- `parse_record` of rust/mcap/src/read.rs: one record from its opcode and its body.
--
-- `crc32fast::hash` is the parameter `crc32`.
pub mod Slices
pub mod RoundTrip
pub mod Attachment
pub mod Total
use mcap.Prelude.{
  ℕ, ◌+◌, ◌-◌, ◌%◌, ◌^◌, Bool, true, false, ◌&&◌, List, length, take, drop, ltb, leb, ◌==◌,
  if◌then◌else◌,
}
use mcap.Error.{
  Bytes, Result, ok, err, panic, stuck, ◌>>=◌, io, bad_schema_length, bad_chunk_length,
  bad_attachment_length, bad_attachment_crc,
}
use mcap.Bytes.{Parser, get_le}
use mcap.Records.{
  Record, header, footer, schema, channel, message, chunk, message_index, chunk_index, attachment,
  attachment_index, statistics, metadata, metadata_index, summary_offset, data_end, unknown,
}
use mcap.Records.Decode.{
  get_header, get_footer, get_schema_header, get_channel, get_message_header, get_chunk_header,
  get_message_index, get_chunk_index, get_attachment_header, get_attachment_index, get_statistics,
  get_metadata, get_metadata_index, get_summary_offset, get_data_end,
}

-- byteorder's `read_u32::<LE>` and `read_u64::<LE>`: an end of the input is an I/O error.
unfoldable pub as_io : Result (ℕ × Bytes) → Result (ℕ × Bytes)
as_io (ok r) = ok r
as_io (err e) = err io
as_io panic = panic
as_io stuck = stuck

unfoldable pub read_uint : ℕ → Parser ℕ
read_uint k bs = as_io (get_le k bs)

-- `&bytes[start..end]`
unfoldable pub slice : Bytes → ℕ → ℕ → Result Bytes
slice bs start end =
    if leb start end && leb end (length bs) then ok (take (end - start) (drop start bs)) else panic

-- `usize` subtraction. Where it would wrap, a build without overflow checks goes on to a slice whose
-- end is out of range; either way it panics.
unfoldable pub sub_usize : ℕ → ℕ → Result ℕ
sub_usize a b = if leb b a then ok (a - b) else panic

-- `c.position()` of a cursor over `body` that has `rest` before it
unfoldable pub position : Bytes → Bytes → ℕ
position body rest = length body - length rest

-- the macro `record!`: what follows the record in the body is ignored
unfoldable pub read_as {ℓ} : {A : Type ℓ} → Parser A → (A → Record) → Bytes → Result Record
read_as p wrap body = p body >>= λ r. ok (wrap r.0)

unfoldable pub parse_schema : Bytes → Result Record
parse_schema body = do
  (h, c1) ← get_schema_header body
  (data_len, c2) ← read_uint 4 c1
  rest ← slice body (position body c2) (length body)
  if ltb (length rest % 2 ^ 32) data_len
      then err (bad_schema_length data_len (length rest % 2 ^ 32))
      else (slice rest 0 data_len >>= λ bytes. ok (schema h bytes))

unfoldable pub parse_message : Bytes → Result Record
parse_message body = do
  (h, c1) ← get_message_header body
  rest ← slice body (position body c1) (length body)
  ok (message h rest)

unfoldable pub parse_chunk : Bytes → Result Record
parse_chunk body = do
  (h, c1) ← get_chunk_header body
  rest ← slice body (position body c1) (length body)
  if ltb (length rest) h.compressed_size
      then err (bad_chunk_length h.compressed_size (length rest))
      else (slice rest 0 h.compressed_size >>= λ bytes. ok (chunk h bytes))

module _ (crc32 : Bytes → ℕ) where
  -- A CRC of 0 is not checked.
  unfoldable pub check_crc : ℕ → Bytes → Record → Result Record
  check_crc crc covered r =
      if crc == 0
      then ok r
      else if crc == crc32 covered
      then ok r
      else err (bad_attachment_crc crc (crc32 covered))

  unfoldable pub parse_attachment : Bytes → Result Record
  unfolding check_crc
  parse_attachment body = do
    (h, c1) ← get_attachment_header body
    (data_len, c2) ← read_uint 8 c1
    let header_len = position body c2
    end ← sub_usize (length body) 4
    space ← slice body header_len end
    if ltb (length space) data_len then err (bad_attachment_length data_len (length space)) else do
      bytes ← slice space 0 data_len
      tail ← slice body (header_len + length bytes) (length body)
      (crc, _) ← get_le 4 tail
      covered ← slice body 0 (header_len + length bytes)
      check_crc crc covered (attachment h bytes crc)

  unfoldable pub parse_record : ℕ → Bytes → Result Record
  parse_record op body =
      if op == 0x01
      then read_as get_header header body
      else if op == 0x02
      then read_as get_footer footer body
      else if op == 0x03
      then parse_schema body
      else if op == 0x04
      then read_as get_channel channel body
      else if op == 0x05
      then parse_message body
      else if op == 0x06
      then parse_chunk body
      else if op == 0x07
      then read_as get_message_index message_index body
      else if op == 0x08
      then read_as get_chunk_index chunk_index body
      else if op == 0x09
      then parse_attachment body
      else if op == 0x0a
      then read_as get_attachment_index attachment_index body
      else if op == 0x0b
      then read_as get_statistics statistics body
      else if op == 0x0c
      then read_as get_metadata metadata body
      else if op == 0x0d
      then read_as get_metadata_index metadata_index body
      else if op == 0x0e
      then read_as get_summary_offset summary_offset body
      else if op == 0x0f
      then read_as get_data_end data_end body
      else ok (unknown op body)
