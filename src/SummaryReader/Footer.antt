-- ===== src/SummaryReader/Footer.antt =====
-- Both readers of the footer find the one that the file ends with.
use mcap.Summary.{magic, footer, footer_size, footer_parts}
use mcap.Prelude.{
  ℕ, ◌+◌, ◌-◌, ◌≤◌, ◌≡◌, refl, sym, ap, ◌∙◌, [], ◌∷◌, ◌++◌, append_assoc, append-nil, arith, length,
  length-append, take, drop, drop-append, le→ltb_false,
}
use mcap.Error.{Bytes, ok}
use mcap.Bytes.{put_le}
use mcap.Bytes.RoundTrip.{Decodes-self, length-put_le}
use mcap.HashMap.{bytes_eq_refl}
use mcap.Records
use mcap.Records.Encode.{put_footer}
use mcap.Records.Fits.{FooterFits}
use mcap.Records.RoundTrip.{get_footer-put_footer}
use mcap.Read.{slice}
use mcap.Read.Slices.{slice_at}
use mcap.Write.{op_and_len}
use mcap.LinearEvents.{LinearReader}
use mcap.SummaryReader.{
  SummaryReader, reading_footer, step_in, read_footer, parted_footer, check_footer, footer_checked,
  with_footer,
}

pub length-put_footer : (f : Records.Footer) → length (put_footer f) ≡ 20
unfolding put_footer
length-put_footer f = simp length-append (
    omega (
      arith,
      length-put_le 8 f.summary_start,
      length-put_le 8 f.summary_offset_start,
      length-put_le 4 f.summary_crc,
    ))

pub length-op_and_len : (op len : ℕ) → length (op_and_len op len) ≡ 9
unfolding op_and_len
length-op_and_len op len = omega (arith, length-put_le 8 len)

-- The end of a file, from the footer record on.
abbrev pub ending : Records.Footer → Bytes
ending f = op_and_len 0x02 20 ++ (put_footer f ++ magic)

pub length-ending : (f : Records.Footer) → length (ending f) ≡ footer_size
length-ending f = omega (
  arith,
  length-append (op_and_len 0x02 20) (put_footer f ++ magic),
  length-append (put_footer f) magic,
  length-op_and_len 0x02 20,
  length-put_footer f,
)

footer_at :
    (file front : Bytes) (f : Records.Footer)
    → file ≡ front ++ (put_footer f ++ magic)
    → take 8 file ≡ magic
    → 17 ≤ length front
    → FooterFits f
    → footer file ≡ ok f
unfolding footer
footer_at file front f e m h fits =
    rw (le→ltb_false (length file) 45 (omega (arith, size)), m, at_end, bytes_eq_refl, last_part)
      (rw ((get_footer-put_footer f fits).at magic) refl)
  where
    size : length file ≡ length front + 28
    size = rw e (
        omega (
          arith,
          length-append front (put_footer f ++ magic),
          length-append (put_footer f) magic,
          length-put_footer f,
        ))

    tail : length (put_footer f ++ magic) ≡ 28
    tail = omega (arith, length-append (put_footer f) magic, length-put_footer f)

    before : length file - 8 ≡ length (front ++ put_footer f)
    before = omega (arith, size, length-append front (put_footer f), length-put_footer f)

    at_end : drop (length file - 8) file ≡ magic
    at_end =
        ap (λ (n : ℕ). drop n file) before
        ∙ (rw (e, sym (append_assoc front (put_footer f) magic))
            (drop-append (front ++ put_footer f) magic))

    last_part : slice file (length file - 8 - 20) (length file) ≡ ok (put_footer f ++ magic)
    last_part =
        slice_at file front (put_footer f ++ magic) [] _ _ (rw append-nil e) (omega (arith, size))
          (omega (arith, size, tail))

-- `footer` returns the footer of every file that starts with the magic and ends with the record of
-- a fitting footer and the magic.
pub footer-ending :
    (middle : Bytes) (f : Records.Footer)
    → FooterFits f
    → footer (magic ++ (middle ++ ending f)) ≡ ok f
footer-ending middle f h =
    footer_at _ (magic ++ (middle ++ op_and_len 0x02 20)) f
      (ap (λ (l : Bytes). magic ++ l)
        (sym (append_assoc middle (op_and_len 0x02 20) (put_footer f ++ magic))))
      refl (omega (arith, sizes)) h
  where
    sizes : length (magic ++ (middle ++ op_and_len 0x02 20)) ≡ 8 + length middle + 9
    sizes = omega (arith, length-append middle (op_and_len 0x02 20), length-op_and_len 0x02 20)

op_and_len_first :
    (op len : ℕ) (rest : Bytes) → op_and_len op len ++ rest ≡ op ∷ (put_le 8 len ++ rest)
unfolding op_and_len
op_and_len_first op len rest = refl

footer_parts-ending :
    (buf : Bytes) (f : Records.Footer) (unused : Bytes)
    → buf ≡ ending f ++ unused
    → footer_parts buf footer_size ≡ ok (0x02 ∷ [], put_footer f, magic)
unfolding footer_parts
footer_parts-ending buf f unused e = rw (opcode, body, end_magic) refl
  where
    split : buf ≡ op_and_len 0x02 20 ++ (put_footer f ++ (magic ++ unused))
    split =
        e
        ∙ append_assoc (op_and_len 0x02 20) (put_footer f ++ magic) unused
        ∙ ap (λ (l : Bytes). op_and_len 0x02 20 ++ l) (append_assoc (put_footer f) magic unused)

    opened :
        op_and_len 0x02 20 ++ (put_footer f ++ (magic ++ unused))
        ≡ (0x02 ∷ []) ++ (put_le 8 20 ++ (put_footer f ++ (magic ++ unused)))
    opened = op_and_len_first 0x02 20 (put_footer f ++ (magic ++ unused))

    opcode : slice buf 0 1 ≡ ok (0x02 ∷ [])
    opcode =
        slice_at buf [] (0x02 ∷ []) (put_le 8 20 ++ (put_footer f ++ (magic ++ unused))) 0 1
          (split ∙ opened) refl refl

    body : slice buf 9 29 ≡ ok (put_footer f)
    body =
        slice_at buf (op_and_len 0x02 20) (put_footer f) (magic ++ unused) 9 29 split
          (sym (length-op_and_len 0x02 20))
          (omega (arith, length-op_and_len 0x02 20, length-put_footer f))

    end_magic : slice buf 29 footer_size ≡ ok magic
    end_magic =
        slice_at buf (op_and_len 0x02 20 ++ put_footer f) magic unused 29 37
          (split ∙ sym (append_assoc (op_and_len 0x02 20) (put_footer f) (magic ++ unused)))
          (omega (
            arith,
            length-append (op_and_len 0x02 20) (put_footer f),
            length-op_and_len 0x02 20,
            length-put_footer f,
          ))
          (omega (
            arith,
            length-append (op_and_len 0x02 20) (put_footer f),
            length-op_and_len 0x02 20,
            length-put_footer f,
          ))

module _ (crc32 : Bytes → ℕ) (inner : LinearReader) where
  pub step_in-ending :
      (s : SummaryReader crc32 inner) (f : Records.Footer) (unused : Bytes)
      → FooterFits f
      → s.footer_buf ≡ ending f ++ unused
      → step_in crc32 inner s (reading_footer footer_size) ≡ with_footer crc32 inner s f
  unfolding step_in read_footer parted_footer check_footer footer_checked
  step_in-ending s f unused h e =
      rw
        (
          footer_parts-ending s.footer_buf f unused e,
          parted_footer,
          bytes_eq_refl magic,
          bytes_eq_refl (0x02 ∷ []),
          Decodes-self (get_footer-put_footer f h),
          footer_checked,
        )
        refl
