-- ===== src/Examples/Format.antt =====
-- The format of the records: bytes, strings, maps and whole records.
use mcap.Prelude.{ℕ, ◌<◌, ◌^◌, ◌≡◌, refl, List, [], ◌∷◌, ◌++◌, arith, length}
use mcap.Error.{Bytes, ok, panic}
use mcap.Bytes.{get_string, put_string, put_le, get_le}
use mcap.Bytes.RoundTrip.{Decodes, get_string-put_string, get_le-put_le, length-put_le}
use mcap.Records.{MessageIndex, channel, AttachmentHeader}
use mcap.Records.Encode.{put_message_index, put_attachment_header}
use mcap.Records.Decode.{get_message_index}
use mcap.Records.Fits.{MessageIndexFits, AttachmentHeaderFits}
use mcap.Records.Maps.{
  parse_vec, write_vec, write_all, write_string_map, parse_string_map, write_int_map, parse_int_map,
  int_map_len,
}
use mcap.Records.Maps.RoundTrip.{Codes, parse_vec-write_vec}
use mcap.Records.Maps.Entries.{
  parse_string_map-write_string_map, parse_int_map-write_int_map, IntMapFits,
}
use mcap.Records.RoundTrip.{
  get_message_index-put_message_index, get_attachment_header-put_attachment_header,
}
use mcap.Read.{parse_record, read_uint, as_io}
use mcap.Read.RoundTrip.{IsReadBack, parse_record-write_record}
use mcap.Read.Total.{Returns, IsTruncated, parse_record-Returns, parse_record_panics}
use mcap.Examples.Values.{
  adding, topic, json, key, channel_one, channel_one-ChannelFits, metadata-StringMapFits,
  topic-StringFits, json-StringFits, key-StringFits,
}

parse_record-write_record_example : IsReadBack adding.hash (channel channel_one)
parse_record-write_record_example =
    parse_record-write_record adding.hash (channel channel_one) channel_one-ChannelFits

get_string-put_string_example : Decodes get_string (put_string topic) topic
get_string-put_string_example = get_string-put_string topic topic-StringFits

parse_string_map-write_string_map_example :
    (bs : Bytes) × (write_string_map ((key, json) ∷ []) ≡ ok bs)
    × Decodes parse_string_map bs ((key, json) ∷ [])
parse_string_map-write_string_map_example =
    parse_string_map-write_string_map ((key, json) ∷ []) metadata-StringMapFits

abbrev counts : List (ℕ × ℕ)
counts = (3, 10) ∷ (7, 2) ∷ []

counts-IntMapFits : IntMapFits 2 8 counts
unfolding int_map_len
counts-IntMapFits = record {
  sorted = (tt, ((refl, tt), tt));
  ints = ((omega arith, omega arith), ((omega arith, omega arith), tt));
  short = omega arith;
}

parse_int_map-write_int_map_example :
    (bs : Bytes) × (write_int_map 2 8 counts ≡ ok bs) × Decodes (parse_int_map 2 8) bs counts
parse_int_map-write_int_map_example =
    parse_int_map-write_int_map 2 8 counts (omega arith) counts-IntMapFits

pair-Codes : (v : ℕ) → v < 2 ^ 16 → Codes (get_le 2) (put_le 2) v
pair-Codes v h = (get_le-put_le 2 v h, omega (arith, length-put_le 2 v))

pairs_short : length (write_all (put_le 2) (513 ∷ 9 ∷ [])) < 2 ^ 32
unfolding write_all put_le
pairs_short = omega arith

parse_vec-write_vec_example :
    Decodes (parse_vec (get_le 2)) (write_vec (put_le 2) (513 ∷ 9 ∷ [])) (513 ∷ 9 ∷ [])
parse_vec-write_vec_example =
    parse_vec-write_vec (get_le 2) (put_le 2) (513 ∷ 9 ∷ [])
      (pair-Codes 513 (omega arith), (pair-Codes 9 (omega arith), tt)) pairs_short

abbrev index_one : MessageIndex
index_one = record {
  channel_id = 7;
  records = record { log_time = 5; offset = 0 } ∷ record { log_time = 9; offset = 40 } ∷ [];
}

index_one-Fits : MessageIndexFits index_one
index_one-Fits = record {
  channel_id = omega arith;
  records = (
    record { log_time = omega arith; offset = omega arith },
    (record { log_time = omega arith; offset = omega arith }, tt),
  );
  short = omega arith;
}

get_message_index-put_message_index_example :
    Decodes get_message_index (put_message_index index_one) index_one
get_message_index-put_message_index_example =
    get_message_index-put_message_index index_one index_one-Fits

-- An attachment record that ends after its length field.
abbrev cut_header : AttachmentHeader
cut_header = record { log_time = 1; create_time = 2; name = key; media_type = json }

cut_header-Fits : AttachmentHeaderFits cut_header
cut_header-Fits = record {
  log_time = omega arith;
  create_time = omega arith;
  name = key-StringFits;
  media_type = json-StringFits;
}

abbrev cut : Bytes
cut = put_attachment_header cut_header ++ put_le 8 0

cut-IsTruncated : IsTruncated cut
unfolding read_uint as_io get_le put_le
cut-IsTruncated = (
  (cut_header, put_le 8 0),
  (0, []),
  (get_attachment_header-put_attachment_header cut_header cut_header-Fits).at (put_le 8 0),
  refl,
  omega arith,
)

parse_record_panics_example : parse_record adding.hash 0x09 cut ≡ panic
parse_record_panics_example = parse_record_panics adding.hash cut cut-IsTruncated

parse_record-Returns_example : Returns (parse_record adding.hash 0x03 (1 ∷ 0 ∷ 200 ∷ []))
parse_record-Returns_example =
    parse_record-Returns adding.hash 0x03 (1 ∷ 0 ∷ 200 ∷ []) (λ t. absurd (omega (arith, t.0)))
