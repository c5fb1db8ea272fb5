-- ===== src/Read/Attachment.antt =====
-- `parse_record` on a complete attachment.
use mcap.Prelude.{
  ℕ, ◌+◌, ◌-◌, ◌^◌, ◌<◌, ◌≡◌, sym, ◌⊎◌, inl, inr, [], ◌++◌, append_assoc, append-nil, arith, length,
  length-append, ◌==◌, le→ltb_false, le→leb, eq→==, Bool-cases,
}
use mcap.Error.{Bytes, ok}
use mcap.Bytes.{put_le}
use mcap.Bytes.RoundTrip.{Decodes-self, get_le-put_le, length-put_le}
use mcap.Records.{Record, AttachmentHeader, attachment}
use mcap.Records.Encode.{put_attachment_header}
use mcap.Records.Fits.{AttachmentHeaderFits}
use mcap.Records.RoundTrip.{get_attachment_header-put_attachment_header}
use mcap.Read.{as_io, read_uint, sub_usize, position, check_crc, parse_attachment, parse_record}
use mcap.Read.Slices.{slice_at, slice_whole}

-- The part of the body that the CRC covers, and the whole body.
abbrev pub attachment_front : AttachmentHeader → ℕ → Bytes → Bytes
attachment_front h len bytes = put_attachment_header h ++ (put_le 8 len ++ bytes)

abbrev pub attachment_body : AttachmentHeader → Bytes → ℕ → Bytes
attachment_body h bytes crc = attachment_front h (length bytes) (bytes ++ put_le 4 crc)

module _ (crc32 : Bytes → ℕ) where
  check_crc-passes :
      (crc : ℕ) (covered : Bytes) (r : Record)
      → (crc ≡ 0) ⊎ (crc ≡ crc32 covered)
      → check_crc crc32 crc covered r ≡ ok r
  unfolding check_crc
  check_crc-passes crc covered r (inl e) = rw (eq→== crc 0 e)
  check_crc-passes crc covered r (inr e) = elim (Bool-cases (crc == 0)) [
    | inl z ↦ rw z
    | inr n ↦ rw (n, eq→== crc (crc32 covered) e)
  ]

  pub parse_attachment_body :
      (h : AttachmentHeader) (bytes : Bytes) (crc : ℕ)
      → AttachmentHeaderFits h
      → length bytes < 2 ^ 64
      → crc < 2 ^ 32
      → (crc ≡ 0) ⊎ (crc ≡ crc32 (attachment_front h (length bytes) bytes))
      → parse_record crc32 0x09 (attachment_body h bytes crc) ≡ ok (attachment h bytes crc)
  unfolding parse_record parse_attachment read_uint as_io sub_usize position
  parse_attachment_body h bytes crc f short small sound =
      rw
        (
          (get_attachment_header-put_attachment_header h f).at (len ++ (bytes ++ tail)),
          (get_le-put_le 8 (length bytes) short).at (bytes ++ tail),
          le→leb 4 (length body) (omega (arith, sizes)),
          slice_at body (head ++ len) bytes tail (length body - length (bytes ++ tail))
              (length body - 4) (sym (append_assoc head len (bytes ++ tail))) (omega (arith, sizes))
              (omega (arith, sizes)),
          le→ltb_false (length bytes) (length bytes) (omega arith),
          slice_whole bytes,
          slice_at body ((head ++ len) ++ bytes) tail []
              (length body - length (bytes ++ tail) + length bytes) (length body)
              (simp (append_assoc, append-nil)) (omega (arith, sizes)) (omega (arith, sizes)),
          Decodes-self (get_le-put_le 4 crc small),
          slice_at body [] (head ++ (len ++ bytes)) tail 0
              (length body - length (bytes ++ tail) + length bytes) (simp append_assoc)
              (omega (arith, sizes)) (omega (arith, sizes)),
        )
        (check_crc-passes crc (attachment_front h (length bytes) bytes) (attachment h bytes crc)
          sound)
    where
      head : Bytes
      head = put_attachment_header h

      len : Bytes
      len = put_le 8 (length bytes)

      tail : Bytes
      tail = put_le 4 crc

      body : Bytes
      body = attachment_body h bytes crc

      sizes :
          (length body ≡ length head + 8 + length bytes + 4)
          × (length (bytes ++ tail) ≡ length bytes + 4)
          × (length (head ++ len) ≡ length head + 8)
          × (length ((head ++ len) ++ bytes) ≡ length head + 8 + length bytes)
          × (length (head ++ (len ++ bytes)) ≡ length head + 8 + length bytes)
          × (length tail ≡ 4)
      sizes =
          simp length-append (omega (arith, length-put_le 8 (length bytes), length-put_le 4 crc))
