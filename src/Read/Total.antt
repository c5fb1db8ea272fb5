-- ===== src/Read/Total.antt =====
-- `parse_record` returns on every body, but for one panic.
use mcap.Prelude.{
  ℕ, ◌+◌, ◌-◌, ◌≤◌, ◌<◌, ◌≡◌, ◌%◌, ◌^◌, refl, Bool, true, false, arith, length, length-drop,
  length-take, take, drop, ltb, ◌==◌, ltb_false→le, ==→eq, lt→leb_false, le→leb, if◌then◌else◌,
}
use native.Mathlib.Decide.{dec_lt}
use mcap.Error.{Bytes, Result, McapError, ok, err, panic, stuck, ◌>>=◌}
use mcap.Bytes.{Parser, get_le}
use mcap.Bytes.Total.{Reads, Takes, Takes-get_le}
use mcap.Records.{Record, AttachmentHeader}
use mcap.Records.Decode.{get_attachment_header}
use mcap.Records.Total.{
  Takes-get_header, Takes-get_footer, Takes-get_schema_header, Takes-get_channel,
  Takes-get_message_header, Takes-get_chunk_header, Takes-get_message_index, Takes-get_chunk_index,
  Takes-get_attachment_header, Takes-get_attachment_index, Takes-get_statistics, Takes-get_metadata,
  Takes-get_metadata_index, Takes-get_summary_offset, Takes-get_data_end,
}
use mcap.Read.{
  as_io, read_uint, slice, sub_usize, position, read_as, parse_schema, parse_message, parse_chunk,
  check_crc, parse_attachment, parse_record,
}
use mcap.Read.Slices.{slice_in}

-- The call returns a value or an error.
pub data Returns {ℓ} {A : Type ℓ} : Result A → Type ℓ where
  value : (a : A) → Returns (ok a)
  error : (e : McapError) → Returns (err e)

module _ {ℓ κ} {A : Type ℓ} {B : Type κ} where
  Returns-Reads :
      (n : ℕ) (bs : Bytes) (r : Result (A × Bytes)) (f : A × Bytes → Result B)
      → Reads n bs r
      → ((x : A × Bytes) → r ≡ ok x → length x.1 + n ≤ length bs → Returns (f x))
      → Returns (r >>= f)
  Returns-Reads n bs (ok x) f h k = k x refl h
  Returns-Reads n bs (err e) f h k = error e
  Returns-Reads n bs panic f h k = elim h [ ]
  Returns-Reads n bs stuck f h k = elim h [ ]

module _ {ℓ} {A : Type ℓ} where
  Returns-if :
      (b : Bool) (r s : Result A)
      → (b ≡ true → Returns r)
      → (b ≡ false → Returns s)
      → Returns (if b then r else s)
  Returns-if true r s h k = h refl
  Returns-if false r s h k = k refl

length-slice :
    (bs : Bytes) (start end : ℕ)
    → start ≤ end
    → end ≤ length bs
    → length (take (end - start) (drop start bs)) ≡ end - start
length-slice bs start end h k =
    length-take (end - start) (drop start bs) (rw length-drop (omega arith))

module _ {ℓ} {A : Type ℓ} where
  -- A slice within the bytes does not panic.
  Returns-slice :
      (bs : Bytes) (start end : ℕ) (f : Bytes → Result A)
      → start ≤ end
      → end ≤ length bs
      → ((s : Bytes) → length s ≡ end - start → Returns (f s))
      → Returns (slice bs start end >>= f)
  Returns-slice bs start end f h k g =
      rw (slice_in bs start end h k) (g _ (length-slice bs start end h k))

Reads-ok {ℓ} :
    {A : Type ℓ} (n : ℕ) (bs : Bytes) {r : Result (A × Bytes)} {x : A × Bytes}
    → r ≡ ok x
    → Reads n bs r
    → length x.1 + n ≤ length bs
Reads-ok n bs e h = rw e at h

Reads-as_io : (n : ℕ) (bs : Bytes) (r : Result (ℕ × Bytes)) → Reads n bs r → Reads n bs (as_io r)
unfolding as_io
Reads-as_io n bs (ok r) h = h
Reads-as_io n bs (err e) h = tt
Reads-as_io n bs panic h = h
Reads-as_io n bs stuck h = h

Reads-read_uint : (k : ℕ) (bs : Bytes) → Reads k bs (read_uint k bs)
unfolding read_uint
Reads-read_uint k bs = Reads-as_io k bs (get_le k bs) ((Takes-get_le k).at bs)

Returns-read_as {ℓ} :
    {A : Type ℓ} {n : ℕ} {p : Parser A} (wrap : A → Record) (body : Bytes)
    → Takes n p
    → Returns (read_as p wrap body)
unfolding read_as
Returns-read_as {n = n} {p = p} wrap body t =
    Returns-Reads n body (p body) _ (t.at body) (λ x e h. value _)

Returns-parse_schema : (body : Bytes) → Returns (parse_schema body)
unfolding parse_schema position
Returns-parse_schema body = Returns-Reads 10 body _ _ (Takes-get_schema_header.at body) λ x _ hx.
    Returns-Reads 4 x.1 _ _ (Reads-read_uint 4 x.1) λ y _ hy.
      Returns-slice body _ _ _ (omega arith) (omega arith) λ rest hr.
        Returns-if (ltb (length rest % 2 ^ 32) y.0) _ _ (λ _. error _)
          λ e.
            Returns-slice rest 0 y.0 _ (omega arith) (omega (arith, ltb_false→le _ y.0 e))
              (λ s hs. value _)

Returns-parse_message : (body : Bytes) → Returns (parse_message body)
unfolding parse_message position
Returns-parse_message body =
    Returns-Reads 22 body _ _ (Takes-get_message_header.at body)
      λ x _ hx. Returns-slice body _ _ _ (omega arith) (omega arith) (λ rest hr. value _)

Returns-parse_chunk : (body : Bytes) → Returns (parse_chunk body)
unfolding parse_chunk position
Returns-parse_chunk body = Returns-Reads 40 body _ _ (Takes-get_chunk_header.at body) λ x _ hx.
    Returns-slice body _ _ _ (omega arith) (omega arith) λ rest hr.
      Returns-if (ltb (length rest) x.0.compressed_size) _ _ (λ _. error _)
        λ e.
          Returns-slice rest 0 x.0.compressed_size _ (omega arith)
            (omega (arith, ltb_false→le _ _ e)) (λ s hs. value _)

-- An attachment whose header and length are there, but with fewer than the four bytes of a CRC
-- behind them.
abbrev pub IsTruncated : Bytes → Type 0
IsTruncated body =
    (x : AttachmentHeader × Bytes) × (y : ℕ × Bytes) × (get_attachment_header body ≡ ok x)
    × (read_uint 8 x.1 ≡ ok y)
    × (length y.1 < 4)

module _ (crc32 : Bytes → ℕ) where
  Returns-check_crc :
      (crc : ℕ) (covered : Bytes) (r : Record) → Returns (check_crc crc32 crc covered r)
  unfolding check_crc
  Returns-check_crc crc covered r =
      Returns-if (crc == 0) _ _ (λ _. value r)
        (λ _. Returns-if (crc == crc32 covered) _ _ (λ _. value r) (λ _. error _))

  Returns-parse_attachment :
      (body : Bytes) → ¬ (IsTruncated body) → Returns (parse_attachment crc32 body)
  unfolding parse_attachment position sub_usize
  Returns-parse_attachment body whole =
      Returns-Reads 24 body _ _ (Takes-get_attachment_header.at body) λ x ex hx.
        Returns-Reads 8 x.1 _ _ (Reads-read_uint 8 x.1) λ y ey hy. elim (dec_lt (length y.1) 4) [
          | yes short ↦ absurd (whole (x, y, ex, ey, short))
          | no enough ↦ rw (le→leb 4 (length body) (omega arith)) (
              Returns-slice body _ _ _ (omega arith) (omega arith) λ space hs.
                Returns-if (ltb (length space) y.0) _ _ (λ _. error _)
                  λ e.
                    Returns-slice space 0 y.0 _ (omega arith) (omega (arith, ltb_false→le _ _ e))
                      λ bytes hb.
                        Returns-slice body _ _ _ (omega (arith, ltb_false→le _ _ e)) (omega arith)
                          λ tail ht. Returns-Reads 4 tail _ _ ((Takes-get_le 4).at tail) λ z _ hz.
                            Returns-slice body _ _ _ (omega arith)
                              (omega (arith, ltb_false→le _ _ e))
                              λ covered hc. Returns-check_crc z.0 covered _)
        ]

  -- `parse_record` returns a record or an error for every opcode and body, unless the body is an
  -- attachment that ends before the four bytes of its CRC.
  pub parse_record-Returns :
      (op : ℕ) (body : Bytes)
      → ¬ ((op ≡ 0x09) × IsTruncated body)
      → Returns (parse_record crc32 op body)
  unfolding parse_record
  parse_record-Returns op body whole =
      Returns-if (op == 0x01) _ _ (λ _. Returns-read_as _ body Takes-get_header)
        (λ _.
          Returns-if (op == 0x02) _ _ (λ _. Returns-read_as _ body Takes-get_footer)
            (λ _.
              Returns-if (op == 0x03) _ _ (λ _. Returns-parse_schema body)
                (λ _.
                  Returns-if (op == 0x04) _ _ (λ _. Returns-read_as _ body Takes-get_channel)
                    (λ _.
                      Returns-if (op == 0x05) _ _ (λ _. Returns-parse_message body)
                        (λ _.
                          Returns-if (op == 0x06) _ _ (λ _. Returns-parse_chunk body)
                            (λ _.
                              Returns-if (op == 0x07) _ _
                                (λ _. Returns-read_as _ body Takes-get_message_index)
                                (λ _.
                                  Returns-if (op == 0x08) _ _
                                    (λ _. Returns-read_as _ body Takes-get_chunk_index)
                                    (λ _.
                                      Returns-if (op == 0x09) _ _
                                        (λ e.
                                          Returns-parse_attachment body
                                            (λ t. whole (==→eq op 9 e, t)))
                                        (λ _.
                                          Returns-if (op == 0x0a) _ _
                                            (λ _. Returns-read_as _ body Takes-get_attachment_index)
                                            (λ _.
                                              Returns-if (op == 0x0b) _ _
                                                (λ _. Returns-read_as _ body Takes-get_statistics)
                                                (λ _.
                                                  Returns-if (op == 0x0c) _ _
                                                    (λ _. Returns-read_as _ body Takes-get_metadata)
                                                    (λ _.
                                                      Returns-if (op == 0x0d) _ _
                                                        (λ _.
                                                          Returns-read_as _ body
                                                            Takes-get_metadata_index)
                                                        (λ _.
                                                          Returns-if (op == 0x0e) _ _
                                                            (λ _.
                                                            Returns-read_as _ body
                                                            Takes-get_summary_offset)
                                                            (λ _.
                                                            Returns-if (op == 0x0f) _ _
                                                            (λ _.
                                                            Returns-read_as _ body
                                                            Takes-get_data_end)
                                                            (λ _. value _)))))))))))))))

  -- On every attachment body whose header and length field are there, with fewer than four bytes
  -- behind them, `parse_record` panics.
  pub parse_record_panics : (body : Bytes) → IsTruncated body → parse_record crc32 0x09 body ≡ panic
  unfolding parse_record parse_attachment sub_usize slice position
  parse_record_panics body (x, y, ex, ey, short) = rw (
    ex,
    ey,
    le→leb 4 (length body) (omega (arith, sizes)),
    lt→leb_false (length body - length y.1) (length body - 4) (omega (arith, sizes)),
  )
    where
      sizes : (length x.1 + 24 ≤ length body) × (length y.1 + 8 ≤ length x.1)
      sizes = (
        Reads-ok 24 body ex (Takes-get_attachment_header.at body),
        Reads-ok 8 x.1 ey (Reads-read_uint 8 x.1),
      )
