-- ===== src/Examples/Linear.antt =====
-- The linear reader, its buffer and a reader over a mapped file, with a decompressor that copies one
-- byte at a time.
use mcap.Prelude.{
  ℕ, zero, suc, ◌+◌, ◌-◌, ◌^◌, ◌≤◌, ◌<◌, ◌≡◌, refl, true, false, some, none, List, [], ◌∷◌, ◌++◌,
  arith, length, max, ◌*◌,
}
use mcap.Error.{Bytes, Result, ok, err, panic, unexpected_eof}
use mcap.RwBuf
use mcap.RwBuf.{RwBuf, len, unread}
use mcap.RwBuf.Laws
use mcap.RwBuf.Queue.{
  receive, consume, clear, Op, queue_run, buf_run, buf_run_refines, length-tail_with_size,
}
use mcap.Records.{Record, footer, message, unknown, serialized_len}
use mcap.Records.Encode.{put_message_header, put_footer}
use mcap.Bytes.{put_le}
use mcap.Write.{op_and_len, framed, write_record}
use mcap.Decompressor.{Decompressor}
use mcap.LinearReader
use mcap.LinearReader.{LinearReader, file_record}
use mcap.LinearReader.Options.{LinearReaderOptions, default_options}
use mcap.LinearReader.Event.{next_event}
use mcap.SummaryReader.Footer.{length-op_and_len}
use mcap.LinearReader.Overlong.{next_event_panics}
use mcap.Mapped.{linear_reader, collect}
use mcap.Mapped.ReadBack.{write_records, file_of, collect-write_records}
use mcap.Examples.Values.{
  adding, text, message_header, message_header-MessageHeaderFits, footer_one, footer_one-FooterFits,
}

abbrev copy : Bytes → ℕ → Result (ℕ × Bytes)
copy [] n = err unexpected_eof
copy (b ∷ bs) zero = err unexpected_eof
copy (b ∷ bs) (suc n) = ok (1, b ∷ [])

abbrev copying : Decompressor
copying = record {
  State = Unit;
  next_read_size = λ s. 1;
  decompress = λ s src n. (copy src n, s);
  reset = λ s. ok s;
  name = λ s. [];
  create = λ name. some (ok tt);
}

abbrev Within : Bytes → ℕ → Result (ℕ × Bytes) → Type 0
Within src n (ok (k, bs)) = (k ≤ length src) × (length bs ≤ n) × (0 < k + length bs)
Within src n _ = Unit

-- A buffer with a byte that is read and two that are not.
abbrev buffer : RwBuf adding
buffer = record { body = 1 ∷ 2 ∷ 3 ∷ 0 ∷ []; start = 1; end = 3; hasher = none }

buffer-IsValid : Laws.IsValid adding buffer
buffer-IsValid = record { ordered = omega arith; in_body = omega arith }

abbrev ops : List Op
ops = consume 1 ∷ receive 2 (4 ∷ 5 ∷ []) ∷ consume 2 ∷ consume 3 ∷ clear ∷ []

buf_run_refines_example : buf_run adding buffer ops ≡ queue_run (2 ∷ 3 ∷ []) ops
unfolding unread
buf_run_refines_example =
    buf_run_refines adding buffer ops buffer-IsValid (tt, (omega arith, (tt, (tt, (tt, tt)))))

length-tail_with_size_example :
    length (RwBuf.tail_with_size adding buffer 10).body
    ≤ max (2 * len adding buffer) (4096 + len adding buffer) + 10
length-tail_with_size_example = length-tail_with_size adding buffer 10 buffer-IsValid

abbrev limited_options : LinearReaderOptions
limited_options = record default_options { record_length_limit = some 1000 }

abbrev fresh_reader : LinearReader adding copying
fresh_reader = mcap.LinearReader.new_with_options adding copying limited_options

abbrev records : List Record
records = unknown 0x20 text ∷ message message_header text ∷ []

abbrev written : Bytes
written =
    (op_and_len 0x20 2 ++ text)
    ++ ((op_and_len 0x05 (serialized_len message_header + 2)
          ++ (put_message_header message_header ++ text))
        ++ [])

records-written : write_records records ≡ ok written
unfolding write_records write_record
records-written = refl

length-file : length (file_of written footer_one) ≤ 100
unfolding op_and_len put_message_header framed put_footer put_le serialized_len
length-file = omega arith

collect-write_records_example :
    collect adding copying true 4 101 4
      (linear_reader adding copying true (file_of written footer_one) false)
    ≡ ok (unknown 0x20 text) ∷ ok (message message_header text) ∷ ok (footer footer_one) ∷ []
collect-write_records_example =
    collect-write_records adding copying true records footer_one written 4 101 4
      (omega arith, (message_header-MessageHeaderFits, tt)) footer_one-FooterFits records-written
      (omega (arith, length-file)) (omega arith) (omega (arith, length-file)) (omega arith)

abbrev overlong : LinearReader adding copying
overlong = record fresh_reader {
  currently_reading = file_record;
  options = default_options;
  file_data = record { body = op_and_len 0x10 (2 ^ 64 - 9); start = 0; end = 9; hasher = none };
}

next_event_panics_example : (next_event adding copying true 2 overlong).0 ≡ some panic
unfolding mcap.LinearReader.new_with_options unread op_and_len put_le
next_event_panics_example =
    next_event_panics adding copying true 1 0x10 (2 ^ 64 - 9) [] overlong
      (record {
        ordered = omega arith;
        in_body = omega (arith, length-op_and_len 0x10 (2 ^ 64 - 9));
      })
      refl refl refl same_bytes (omega arith) (omega arith) (omega arith)
  where
    same_bytes : unread adding overlong.file_data ≡ op_and_len 0x10 (2 ^ 64 - 9) ++ []
    same_bytes = refl
