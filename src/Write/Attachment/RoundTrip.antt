-- ===== src/Write/Attachment/RoundTrip.antt =====
-- What an attachment writer leaves in the stream.
use mcap.Prelude.{
  ℕ, ◌+◌, ◌-◌, ◌^◌, ◌≤◌, ◌<◌, ◌≡◌, refl, sym, ap, ◌∙◌, Bool, true, false, none, some, ◌⊎◌, inl, inr,
  List, [], ◌∷◌, ◌++◌, append_assoc, append-nil, arith, length, length-append, ltb, ◌==◌, not,
  ltb_false→le, le→ltb_false, eq→==, if◌then◌else◌, Bool-cases,
}
use mcap.Error.{Bytes, ok, err, attachment_too_large, attachment_incomplete}
use mcap.Bytes.{put_le}
use mcap.Bytes.RoundTrip.{length-put_le}
use mcap.Io
use mcap.Io.{Crc32, Sink, IsStream, CountingCrcWriter, counting-IsStream}
use mcap.Records.{AttachmentHeader, AttachmentIndex, attachment}
use mcap.Records.Encode.{put_attachment_header}
use mcap.Records.Fits.{AttachmentHeaderFits}
use mcap.Read.{parse_record}
use mcap.Read.Attachment.{attachment_front, attachment_body, parse_attachment_body}
use mcap.Write.{op_and_len}
use mcap.Write.Attachment.{AttachmentWriter, new, put_bytes, finish, put_all, attach_all}

-- The data of all the parts.
abbrev pub joined : List Bytes → Bytes
joined [] = []
joined (bytes ∷ rest) = bytes ++ joined rest

module _ (c : Crc32) {W : Type 0} (k : Sink W) (stream : IsStream k) (w : W) (len : ℕ)
    (h : AttachmentHeader) (crcs : Bool) where
  abbrev frame : Bytes
  frame = op_and_len 0x09 (length (put_attachment_header h) + 8 + len + 4)

  -- The counting writer once it has taken `bytes`.
  abbrev counted : Bytes → CountingCrcWriter c W
  counted bytes = Io.counting_write c k (Io.new c (k.write w frame) crcs) bytes

  -- The attachment writer once it has taken the header and `bytes`.
  abbrev filled : Bytes → AttachmentWriter c k
  filled bytes = record {
    record_offset = k.stream_position w;
    attachment_offset = 0 + length (put_attachment_header h) + length (put_le 8 len);
    attachment_length = len;
    header = h;
    writer = counted (attachment_front h len bytes);
  }

  counted_more : (xs ys : Bytes) → Io.counting_write c k (counted xs) ys ≡ counted (xs ++ ys)
  counted_more xs ys =
      (counting-IsStream c k stream).write_append (Io.new c (k.write w frame) crcs) xs ys

  new-filled : new c k w len h crcs ≡ filled []
  unfolding new Io.position Io.counting_write Io.new
  new-filled =
      ap
        (λ (x : CountingCrcWriter c W). record {
          record_offset = k.stream_position w;
          attachment_offset = 0 + length (put_attachment_header h) + length (put_le 8 len);
          attachment_length = len;
          header = h;
          writer = x;
        })
        (counted_more (put_attachment_header h) (put_le 8 len) ∙ ap counted (rw append-nil))

  -- How many bytes of the attachment were written, as the code works it out.
  position-filled :
      (done : Bytes)
      → Io.position c (counted (attachment_front h len done))
          - (0 + length (put_attachment_header h) + length (put_le 8 len))
        ≡ length done
  unfolding Io.position Io.counting_write Io.new
  position-filled done = omega (
    arith,
    length-append (put_attachment_header h) (put_le 8 len ++ done),
    length-append (put_le 8 len) done,
  )

  front-append :
      (done bytes : Bytes)
      → attachment_front h len done ++ bytes ≡ attachment_front h len (done ++ bytes)
  front-append done bytes = simp append_assoc

  -- A part that does not fit is refused with the number of bytes too many; any other is taken.
  pub put_bytes-filled :
      (done bytes : Bytes)
      → put_bytes c k (filled done) bytes ≡ (
          if ltb (len - length done) (length bytes)
          then err (attachment_too_large (length bytes - (len - length done)) len)
          else ok (filled (done ++ bytes)))
  unfolding put_bytes
  put_bytes-filled done bytes = rw (
    position-filled done,
    counted_more (attachment_front h len done) bytes,
    front-append done bytes,
  )

  put_all-filled :
      (parts : List Bytes) (done : Bytes)
      → length done + length (joined parts) ≤ len
      → put_all c k (filled done) parts ≡ ok (filled (done ++ joined parts))
  unfolding put_all
  put_all-filled [] done fits = rw append-nil
  put_all-filled (bytes ∷ rest) done fits =
      rw
        (
          put_bytes-filled done bytes,
          le→ltb_false (len - length done) (length bytes) (omega (arith, sizes)),
        )
        (put_all-filled rest (done ++ bytes) (omega (arith, sizes))
          ∙ ap (λ (bs : Bytes). ok (filled bs)) (append_assoc done bytes (joined rest)))
    where
      sizes :
          (length (bytes ++ joined rest) ≡ length bytes + length (joined rest))
          × (length (done ++ bytes) ≡ length done + length bytes)
      sizes = (length-append bytes (joined rest), length-append done bytes)

  put_all-too_large :
      (parts : List Bytes) (done : Bytes)
      → length done ≤ len
      → len < length done + length (joined parts)
      → (excess : ℕ) × (put_all c k (filled done) parts ≡ err (attachment_too_large excess len))
  unfolding put_all
  put_all-too_large [] done room over = absurd (omega arith)
  put_all-too_large (bytes ∷ rest) done room over =
      elim (Bool-cases (ltb (len - length done) (length bytes))) [
        | inl e ↦ (length bytes - (len - length done), rw (put_bytes-filled done bytes, e))
        | inr e ↦
            let (excess, more) =
              put_all-too_large rest (done ++ bytes) (omega (arith, sizes, ltb_false→le _ _ e))
                (omega (arith, sizes)) in
            (excess, rw (put_bytes-filled done bytes, e) more)
      ]
    where
      sizes :
          (length (bytes ++ joined rest) ≡ length bytes + length (joined rest))
          × (length (done ++ bytes) ≡ length done + length bytes)
      sizes = (length-append bytes (joined rest), length-append done bytes)

  abbrev crc_of : Bytes → ℕ
  crc_of bytes = if crcs then c.hash (attachment_front h len bytes) else 0

  checksum_start :
      (b : Bool) (bytes : Bytes)
      → Io.checksum c (Io.update_hasher c (if b then some c.fresh else none) bytes)
        ≡ (if b then c.hash bytes else 0)
  unfolding Io.checksum Io.update_hasher
  checksum_start true bytes = sym (c.hash_lem bytes)
  checksum_start false bytes = refl

  checksum-counted :
      (bytes : Bytes) → Io.checksum c (counted bytes).hasher ≡ (if crcs then c.hash bytes else 0)
  unfolding Io.counting_write Io.new
  checksum-counted bytes = checksum_start crcs bytes

  inner-counted : (bytes : Bytes) → (counted bytes).inner ≡ k.write (k.write w frame) bytes
  unfolding Io.counting_write Io.new
  inner-counted bytes = refl

  -- The bytes of the record, and the entry of the index for it.
  abbrev record_bytes : Bytes → Bytes
  record_bytes bytes = frame ++ (attachment_front h len bytes ++ put_le 4 (crc_of bytes))

  abbrev index_of : Bytes → AttachmentIndex
  index_of bytes = record {
    offset = k.stream_position w;
    length = length (record_bytes bytes);
    log_time = h.log_time;
    create_time = h.create_time;
    data_size = len;
    name = h.name;
    media_type = h.media_type;
  }

  written :
      (bytes : Bytes)
      → k.write (k.write (k.write w frame) (attachment_front h len bytes)) (put_le 4 (crc_of bytes))
        ≡ k.write w (record_bytes bytes)
  written bytes =
      rw
        (
          stream.write_append w frame (attachment_front h len bytes),
          stream.write_append w (frame ++ attachment_front h len bytes) (put_le 4 (crc_of bytes)),
        )
        (ap (k.write w)
          (append_assoc frame (attachment_front h len bytes) (put_le 4 (crc_of bytes))))

  index_length :
      (bytes : Bytes)
      → k.stream_position (k.write w (record_bytes bytes)) - k.stream_position w
        ≡ length (record_bytes bytes)
  index_length bytes = omega (arith, stream.position_write w (record_bytes bytes))

  finish-filled :
      (bytes : Bytes)
      → finish c k (filled bytes) ≡ (
          if not (len == length bytes)
          then err (attachment_incomplete (length bytes) len)
          else ok (k.write w (record_bytes bytes), index_of bytes))
  unfolding finish Io.finished
  finish-filled bytes = rw (
    position-filled bytes,
    checksum-counted (attachment_front h len bytes),
    inner-counted (attachment_front h len bytes),
    written bytes,
    index_length bytes,
  )

module _ (c : Crc32) {W : Type 0} (k : Sink W) (stream : IsStream k) (w : W) (h : AttachmentHeader)
    (crcs : Bool) where
  -- Over any stream, an attachment that is given fewer bytes than announced fails with
  -- `AttachmentIncomplete` and both lengths.
  pub attach_all_incomplete :
      (len : ℕ) (parts : List Bytes)
      → length (joined parts) < len
      → attach_all c k w len h crcs parts ≡ err (attachment_incomplete (length (joined parts)) len)
  unfolding attach_all
  attach_all_incomplete len parts few =
      rw
        (
          new-filled c k stream w len h crcs,
          put_all-filled c k stream w len h crcs parts [] (omega arith),
          finish-filled c k stream w len h crcs (joined parts),
        )
        (ground arith)

  -- Over any stream, an attachment that is given more bytes than announced fails with
  -- `AttachmentTooLarge`.
  pub attach_all_too_large :
      (len : ℕ) (parts : List Bytes)
      → len < length (joined parts)
      → (excess : ℕ) × (attach_all c k w len h crcs parts ≡ err (attachment_too_large excess len))
  unfolding attach_all
  attach_all_too_large len parts many =
      let (excess, e) =
        put_all-too_large c k stream w len h crcs parts [] (omega arith) (omega arith) in
      (excess, rw (new-filled c k stream w len h crcs, e))

  -- Over any stream, when an attachment with a fitting header is given as many bytes as were
  -- announced, fewer than 2^64 and in whatever parts, the stream gets one attachment record more,
  -- `parse_record` reads its body as the attachment with the joined parts, and the index names the
  -- position, the length and the data size of that record.
  pub attach_all-parse_record :
      (parts : List Bytes)
      → AttachmentHeaderFits h
      → length (joined parts) < 2 ^ 64
      → (crc : ℕ) × (body : Bytes) × (index : AttachmentIndex) × (attach_all c k w
            (length (joined parts))
            h
            crcs
            parts
          ≡ ok (k.write w (op_and_len 0x09 (length body) ++ body), index))
        × (parse_record c.hash 0x09 body ≡ ok (attachment h (joined parts) crc))
        × (index.offset ≡ k.stream_position w)
        × (index.length ≡ length (op_and_len 0x09 (length body) ++ body))
        × (index.data_size ≡ length (joined parts))
  unfolding attach_all
  attach_all-parse_record parts f short = (
    crc,
    attachment_body h bytes crc,
    index_of c k stream w len h crcs bytes,
    rw
        (
          new-filled c k stream w len h crcs,
          put_all-filled c k stream w len h crcs parts [] (omega arith),
          finish-filled c k stream w len h crcs bytes,
          eq→== len len refl,
        )
        (ap (λ (r : Bytes). ok (k.write w r, index_of c k stream w len h crcs bytes)) whole),
    parse_attachment_body c.hash h bytes crc f short (crc_bound crcs) (crc_sound crcs),
    refl,
    ap length whole,
    refl,
  )
    where
      bytes : Bytes
      bytes = joined parts

      len : ℕ
      len = length bytes

      crc : ℕ
      crc = crc_of c k stream w len h crcs bytes

      crc_bound : (b : Bool) → (if b then c.hash (attachment_front h len bytes) else 0) < 2 ^ 32
      crc_bound true = rw c.hash_lem (c.finalize-lt _)
      crc_bound false = omega arith

      crc_sound :
          (b : Bool)
          → ((if b then c.hash (attachment_front h len bytes) else 0) ≡ 0)
            ⊎ ((if b then c.hash (attachment_front h len bytes) else 0)
                ≡ c.hash (attachment_front h len bytes))
      crc_sound true = inr refl
      crc_sound false = inl refl

      body_size :
          length (put_attachment_header h) + 8 + len + 4 ≡ length (attachment_body h bytes crc)
      body_size = simp length-append (omega (arith, length-put_le 8 len, length-put_le 4 crc))

      whole :
          record_bytes c k stream w len h crcs bytes
          ≡ op_and_len 0x09 (length (attachment_body h bytes crc)) ++ attachment_body h bytes crc
      whole = rw body_size (
          ap (λ (r : Bytes). op_and_len 0x09 (length (attachment_body h bytes crc)) ++ r)
            (simp append_assoc))
