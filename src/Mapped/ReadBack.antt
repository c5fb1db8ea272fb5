-- ===== src/Mapped/ReadBack.antt =====
-- Reading a mapped file of written records.
use mcap.Prelude.{
  ℕ, suc, ◌+◌, ◌^◌, ◌≤◌, ◌<◌, ◌≡◌, ◌≢◌, refl, sym, ap, ◌∙◌, Bool, false, List, [], ◌∷◌, ◌++◌, arith,
  length, length-append, All,
}
use mathlib.Core.Path.{subst}
use mcap.Error.{Bytes, Result, ok, err, panic, stuck, ◌>>=◌}
use mcap.Io.{Crc32}
use mcap.RwBuf
use mcap.Records.{
  Record, Footer, DataEnd, opcode, into_owned, header, footer, schema, channel, message, chunk,
  message_index, chunk_index, attachment, attachment_index, statistics, metadata, metadata_index,
  summary_offset, data_end, unknown,
}
use mcap.Records.Encode.{put_footer}
use mcap.Records.Decode.{get_data_end}
use mcap.Records.Fits.{FooterFits}
use mcap.Records.RoundTrip.{get_footer-put_footer}
use mcap.Bytes.RoundTrip.{Decodes-self}
use mcap.Read.{parse_record, read_as}
use mcap.Read.Slices.{read_as-written}
use mcap.Read.RoundTrip.{RecordFits, parse_record-write_record, IsReadBack}
use mcap.Summary.{magic}
use mcap.Write.{write_record, op_and_len, framed}
use mcap.Decompressor.{Decompressor}
use mcap.LinearReader.Stream.{Framed, frames, end_of, IsItem}
use mcap.Mapped.{linear_reader, collect}
use mcap.Mapped.Requests.{map, parsed, collect-parsed, IsBefore}

-- The records one after the other, as `write_record` writes them.
unfoldable pub write_records : List Record → Result Bytes
write_records [] = ok []
write_records (r ∷ rs) = write_record r >>= λ bytes. write_records rs >>= λ rest. ok (bytes ++ rest)

-- A file of these bytes and a footer.
abbrev pub file_of : Bytes → Footer → Bytes
file_of bytes f = magic ++ (bytes ++ end_of (put_footer f))

-- A record that `write_record` takes is no footer.
not_footer : (r : Record) → RecordFits r → opcode r ≢ 0x02
unfolding opcode
not_footer (unknown op bytes) f = λ e. omega (arith, f, e)
not_footer (footer _) f = absurd f
not_footer (header _) f = λ e. omega (arith, e)
not_footer (schema _ _) f = λ e. omega (arith, e)
not_footer (channel _) f = λ e. omega (arith, e)
not_footer (message _ _) f = λ e. omega (arith, e)
not_footer (chunk _ _) f = λ e. omega (arith, e)
not_footer (message_index _) f = λ e. omega (arith, e)
not_footer (chunk_index _) f = λ e. omega (arith, e)
not_footer (attachment _ _ _) f = λ e. omega (arith, e)
not_footer (attachment_index _) f = λ e. omega (arith, e)
not_footer (statistics _) f = λ e. omega (arith, e)
not_footer (metadata _) f = λ e. omega (arith, e)
not_footer (metadata_index _) f = λ e. omega (arith, e)
not_footer (summary_offset _) f = λ e. omega (arith, e)
not_footer (data_end _) f = λ e. omega (arith, e)

owned : (r : Record) → into_owned r ≡ r
unfolding into_owned
owned (header _) = refl
owned (footer _) = refl
owned (schema _ _) = refl
owned (channel _) = refl
owned (message _ _) = refl
owned (chunk _ _) = refl
owned (message_index _) = refl
owned (chunk_index _) = refl
owned (attachment _ _ _) = refl
owned (attachment_index _) = refl
owned (statistics _) = refl
owned (metadata _) = refl
owned (metadata_index _) = refl
owned (summary_offset _) = refl
owned (data_end _) = refl
owned (unknown _ _) = refl

module _ (c : Crc32) where
  data_end_read :
      (body : Bytes) (r : Record)
      → parse_record c.hash 0x0f body ≡ ok r
      → (q : DataEnd × Bytes) × (get_data_end body ≡ ok q)
  unfolding parse_record read_as
  data_end_read body r e = go (get_data_end body) refl e
    where
      go :
          (t : Result (DataEnd × Bytes))
          → get_data_end body ≡ t
          → (t >>= λ q. ok (data_end q.0)) ≡ ok r
          → (q : DataEnd × Bytes) × (get_data_end body ≡ ok q)
      go (ok q) h k = (q, h)
      go (err x) h k = absurd (cc k)
      go panic h k = absurd (cc k)
      go stuck h k = absurd (cc k)

  -- The frames of the records, with what makes them be read.
  record Frames (limit : ℕ) (rs : List Record) (bytes : Bytes) : Type 0 where
    items : Framed
    same_bytes : bytes ≡ frames items
    are_items : length bytes ≤ limit → All (IsItem limit) items
    same_records : map (parsed c) items ≡ map ok rs
    same_length : length items ≡ length rs

  one_more :
      (limit : ℕ) (r : Record) (rs : List Record) (rest : Bytes)
      → RecordFits r
      → IsReadBack c.hash r
      → Frames limit rs rest
      → (bytes : Bytes) × (write_record r ≡ ok bytes) × Frames limit (r ∷ rs) (bytes ++ rest)
  one_more limit r rs rest f (body, written, parsed_back) k = (
    framed (opcode r) body,
    unfold framed in written,
    record {
      items = (opcode r, body) ∷ k.items;
      same_bytes = unfold frames in ap (λ (l : Bytes). framed (opcode r) body ++ l) k.same_bytes;
      are_items = λ le. (
        (
          not_footer r f,
          omega (arith, le, longer),
          λ e.
              data_end_read body r
                (subst (λ (op : ℕ). parse_record c.hash op body ≡ ok r) e parsed_back),
        ),
        k.are_items (omega (arith, le, longer)),
      );
      same_records =
          rw (parsed_back, owned r) (ap (λ (l : List (Result Record)). ok r ∷ l) k.same_records);
      same_length = ap suc k.same_length;
    },
  )
    where
      longer : length body + length rest ≤ length (framed (opcode r) body ++ rest)
      longer = omega (arith, length-append (framed (opcode r) body) rest, inner)
        where
          inner : length body ≤ length (framed (opcode r) body)
          inner =
              unfold framed in
              omega (arith, length-append (op_and_len (opcode r) (length body)) body)

  Frames-of :
      (limit : ℕ) (rs : List Record)
      → All RecordFits rs
      → (bytes : Bytes) × (write_records rs ≡ ok bytes) × Frames limit rs bytes
  unfolding write_records
  Frames-of limit [] fits = (
    [],
    refl,
    record {
      items = [];
      same_bytes = unfold frames in refl;
      are_items = λ _. tt;
      same_records = refl;
      same_length = refl;
    },
  )
  Frames-of limit (r ∷ rs) fits =
      let (rest, written, k) = Frames-of limit rs fits.1 in
      let (bytes, one, k') =
        one_more limit r rs rest fits.0 (parse_record-write_record c.hash r fits.0) k in
      (bytes ++ rest, rw (one, written) refl, k')

  Frames-write_records :
      (limit : ℕ) (rs : List Record) (bytes : Bytes)
      → All RecordFits rs
      → write_records rs ≡ ok bytes
      → Frames limit rs bytes
  Frames-write_records limit rs bytes fits e =
      let (bytes', written, k) = Frames-of limit rs fits in
      subst (Frames limit rs) (same bytes' (sym written ∙ e)) k
    where
      same : (bytes' : Bytes) → ok bytes' ≡ ok bytes → bytes' ≡ bytes
      same bytes' q = cc q

  map-append : (xs ys : Framed) → map (parsed c) (xs ++ ys) ≡ map (parsed c) xs ++ map (parsed c) ys
  map-append [] ys = refl
  map-append (x ∷ xs) ys = ap (λ (l : List (Result Record)). parsed c x ∷ l) (map-append xs ys)

  parsed-footer : (f : Footer) → FooterFits f → parsed c (0x02, put_footer f) ≡ ok (footer f)
  unfolding parse_record into_owned
  parsed-footer f fits = rw (read_as-written footer (get_footer-put_footer f fits)) refl

module _ (c : Crc32) (d : Decompressor) (checks : Bool) where
  at_start :
      (f : Footer) (bytes : Bytes) (items : Framed)
      → bytes ≡ frames items
      → All (IsItem (length (file_of bytes f))) items
      → IsBefore c d
          (length (file_of bytes f))
          (put_footer f)
          checks
          (items ++ ((0x02, put_footer f) ∷ []))
          (linear_reader c d checks (file_of bytes f) false)
  unfolding linear_reader mcap.LinearReader.new_with_options RwBuf.new RwBuf.unread
  at_start f bytes items e all = record {
    file_valid = record { ordered = omega arith; in_body = omega arith };
    no_hasher = refl;
    limit_set = refl;
    emits_chunks = refl;
    reads_start = refl;
    reads_end = refl;
    ends_there = refl;
    no_summary_crc = refl;
    not_at_eof = refl;
    ahead = (
      bytes ++ end_of (put_footer f),
      refl,
      record {
        items = items;
        are_items = all;
        bytes = ap (λ (l : Bytes). l ++ end_of (put_footer f)) e;
        records = refl;
      },
    );
  }

  -- A file of the magic, the records that `write_record` writes, a footer and the magic, shorter
  -- than 2^64 - 9 bytes, is read back by `LinearReader` as exactly those records and the footer,
  -- if the fields fit the format; each `next_event` takes at most four rounds for it.
  pub collect-write_records :
      (rs : List Record) (f : Footer) (bytes : Bytes) (event_fuel fuel n : ℕ)
      → All RecordFits rs
      → FooterFits f
      → write_records rs ≡ ok bytes
      → length (file_of bytes f) + 9 < 2 ^ 64
      → 4 ≤ event_fuel
      → length (file_of bytes f) < fuel
      → length rs + 1 < n
      → collect c d checks event_fuel fuel n (linear_reader c d checks (file_of bytes f) false)
        ≡ map ok rs ++ (ok (footer f) ∷ [])
  collect-write_records rs f bytes event_fuel fuel n fits ffits written small four enough calls =
      collect-parsed c d limit (put_footer f) checks small (omega (arith, inside)) (f, [])
        (Decodes-self (get_footer-put_footer f ffits)) event_fuel four n fuel
        (linear_reader c d checks (file_of bytes f) false) (k.items ++ ((0x02, put_footer f) ∷ []))
        (at_start f bytes k.items k.same_bytes (k.are_items (omega (arith, inside))))
        (unfold linear_reader in enough)
        (omega (arith, length-append k.items ((0x02, put_footer f) ∷ []), k.same_length, calls))
      ∙ map-append c k.items ((0x02, put_footer f) ∷ [])
      ∙ (λ i. k.same_records i ++ (parsed-footer c f ffits i ∷ []))
    where
      limit : ℕ
      limit = length (file_of bytes f)

      k : Frames c limit rs bytes
      k = Frames-write_records c limit rs bytes fits written

      inside : length bytes + length (put_footer f) + 8 ≤ length (file_of bytes f)
      inside = omega (
        arith,
        length-append bytes (end_of (put_footer f)),
        length-append (framed 0x02 (put_footer f)) magic,
        framed_size,
      )
        where
          framed_size : length (put_footer f) ≤ length (framed 0x02 (put_footer f))
          framed_size =
              unfold framed in
              omega (arith, length-append (op_and_len 0x02 (length (put_footer f))) (put_footer f))
