-- ===== src/Write/Attachment.antt =====
-- `AttachmentWriter` of rust/mcap/src/write.rs, over any stream, and the calls of `Writer::attach`.
--
-- The lengths and positions are u64 in the source. None of the subtractions wraps for a valid writer
-- (`IsValid` in the module below), and the length field of the record keeps the low 64 bits.
pub mod RoundTrip
use mcap.Prelude.{
  ℕ, ◌+◌, ◌-◌, Bool, Option, List, [], ◌∷◌, ◌++◌, length, ltb, ◌==◌, not, if◌then◌else◌,
}
use mcap.Error.{Bytes, Result, ok, err, attachment_too_large, attachment_incomplete, ◌>>=◌}
use mcap.Bytes.{put_le}
use mcap.Io
use mcap.Io.{Crc32, Sink, CountingCrcWriter}
use mcap.Records.{AttachmentHeader, AttachmentIndex}
use mcap.Records.Encode.{put_attachment_header}
use mcap.Write.{op_and_len}

module _ (c : Crc32) {W : Type 0} (k : Sink W) where
  pub record AttachmentWriter : Type 0 where
    pub record_offset : ℕ
    pub attachment_offset : ℕ
    pub attachment_length : ℕ
    pub header : AttachmentHeader
    pub writer : CountingCrcWriter c W

  -- `AttachmentWriter::new`
  unfoldable pub new : W → ℕ → AttachmentHeader → Bool → AttachmentWriter
  new writer attachment_length h calculate_crc =
      let header_buf = put_attachment_header h in
      let framed =
        k.write writer (op_and_len 0x09 (length header_buf + 8 + attachment_length + 4)) in
      let w = Io.counting_write c k (Io.new c framed calculate_crc) header_buf in
      let w' = Io.counting_write c k w (put_le 8 attachment_length) in
      record {
        record_offset = k.stream_position writer;
        attachment_offset = Io.position c w';
        attachment_length = attachment_length;
        header = h;
        writer = w';
      }

  -- `AttachmentWriter::put_bytes`. On the error the writer stays as it was.
  unfoldable pub put_bytes : AttachmentWriter → Bytes → Result AttachmentWriter
  put_bytes a bytes =
      let attachment_position = Io.position c a.writer - a.attachment_offset in
      let space = a.attachment_length - attachment_position in
      if ltb space (length bytes)
      then err (attachment_too_large (length bytes - space) a.attachment_length)
      else ok (record a { writer = Io.counting_write c k a.writer bytes })

  -- `AttachmentWriter::finish`
  unfoldable pub finish : AttachmentWriter → Result (W × AttachmentIndex)
  finish a =
      let current = Io.position c a.writer - a.attachment_offset in
      let (w, hasher) = Io.finished c a.writer in
      let w' = k.write w (put_le 4 (Io.checksum c hasher)) in
      if not (a.attachment_length == current)
      then err (attachment_incomplete current a.attachment_length)
      else ok (
        w',
        record {
          offset = a.record_offset;
          length = k.stream_position w' - a.record_offset;
          log_time = a.header.log_time;
          create_time = a.header.create_time;
          data_size = a.attachment_length;
          name = a.header.name;
          media_type = a.header.media_type;
        },
      )

  -- Several calls of `put_attachment_bytes`.
  unfoldable pub put_all : AttachmentWriter → List Bytes → Result AttachmentWriter
  put_all a [] = ok a
  put_all a (bytes ∷ rest) = put_bytes a bytes >>= λ a'. put_all a' rest

  -- A `start_attachment`, the calls that fill it, and `finish_attachment`.
  unfoldable pub attach_all :
      W → ℕ → AttachmentHeader → Bool → List Bytes → Result (W × AttachmentIndex)
  attach_all w attachment_length h calculate_crc parts =
      put_all (new w attachment_length h calculate_crc) parts >>= finish

  -- The part of `Writer::attach` that writes: the length is that of the data.
  unfoldable pub attach : W → AttachmentHeader → Bool → Bytes → Result (W × AttachmentIndex)
  attach w h calculate_crc bytes = attach_all w (length bytes) h calculate_crc (bytes ∷ [])
