-- ===== src/Examples/Values.antt =====
-- The data of the examples, and instances of the interfaces.
use mcap.Prelude.{
  ℕ, ◌+◌, ◌%◌, ◌^◌, ◌≡◌, refl, Bool, true, ◌&&◌, [], ◌∷◌, ◌++◌, append_assoc, arith, ◌==◌, ==→eq,
  eq→==,
}
use mcap.Error.{Bytes}
use mcap.Bytes.{is_utf8}
use mcap.Bytes.RoundTrip.{StringFits}
use mcap.Records
use mcap.Records.{SchemaHeader, MessageHeader, AttachmentHeader, Footer}
use mcap.Records.Fits.{ChannelFits, MessageHeaderFits, AttachmentHeaderFits, FooterFits}
use mcap.Records.Maps.{string_map_len}
use mcap.Records.Maps.Entries.{StringMapFits}
use mcap.Io.{Crc32}
use mcap.BiMap.{BiMap}
use mcap.BiMap.Entries.{entries}
use mcap.HashMap.{bytes_eq, bytes_eq_refl, bytes_eq→eq, map_eq, map_eq_refl, map_eq→eq}
use mcap.Writer.{SchemaContent, ChannelContent}

abbrev pub sum : Bytes → ℕ
sum [] = 0
sum (b ∷ bs) = b + sum bs

-- A checksum that adds up the bytes.
abbrev pub adding : Crc32
adding = record {
  Hasher = Bytes;
  fresh = [];
  update = λ h bs. h ++ bs;
  finalize = λ h. sum h % 2 ^ 32;
  hash = λ bs. sum bs % 2 ^ 32;
  update_append = λ h xs ys. append_assoc h xs ys;
  hash_lem = λ xs. refl;
  finalize-lt = λ h. omega arith;
}

-- "/a"
abbrev pub topic : Bytes
topic = 0x2f ∷ 0x61 ∷ []

-- "json"
abbrev pub json : Bytes
json = 0x6a ∷ 0x73 ∷ 0x6f ∷ 0x6e ∷ []

-- "k"
abbrev pub key : Bytes
key = 0x6b ∷ []

abbrev pub schema_header : SchemaHeader
schema_header = record { id = 1; name = topic; encoding = json }

abbrev pub text : Bytes
text = 0x7b ∷ 0x7d ∷ []

abbrev pub channel_one : Records.Channel
channel_one = record {
  id = 7;
  schema_id = 1;
  topic = topic;
  message_encoding = json;
  metadata = (key, json) ∷ [];
}

abbrev pub message_header : MessageHeader
message_header = record { channel_id = 7; sequence = 3; log_time = 1000; publish_time = 900 }

abbrev pub attachment_header : AttachmentHeader
attachment_header = record { log_time = 5; create_time = 4; name = topic; media_type = json }

abbrev pub footer_one : Footer
footer_one = record { summary_start = 300; summary_offset_start = 400; summary_crc = 77 }

pub topic-StringFits : StringFits topic
unfolding is_utf8
topic-StringFits = record { is_text = refl; short = omega arith }

pub json-StringFits : StringFits json
unfolding is_utf8
json-StringFits = record { is_text = refl; short = omega arith }

pub key-StringFits : StringFits key
unfolding is_utf8
key-StringFits = record { is_text = refl; short = omega arith }

pub metadata-StringMapFits : StringMapFits ((key, json) ∷ [])
unfolding string_map_len
metadata-StringMapFits = record {
  sorted = (tt, tt);
  strings = ((key-StringFits, json-StringFits), tt);
  short = omega arith;
}

pub channel_one-ChannelFits : ChannelFits channel_one
channel_one-ChannelFits = record {
  id = omega arith;
  schema_id = omega arith;
  topic = topic-StringFits;
  message_encoding = json-StringFits;
  metadata = metadata-StringMapFits;
}

pub attachment_header-AttachmentHeaderFits : AttachmentHeaderFits attachment_header
attachment_header-AttachmentHeaderFits = record {
  log_time = omega arith;
  create_time = omega arith;
  name = topic-StringFits;
  media_type = json-StringFits;
}

pub message_header-MessageHeaderFits : MessageHeaderFits message_header
message_header-MessageHeaderFits = record {
  channel_id = omega arith;
  sequence = omega arith;
  log_time = omega arith;
  publish_time = omega arith;
}

pub footer_one-FooterFits : FooterFits footer_one
footer_one-FooterFits = record {
  summary_start = omega arith;
  summary_offset_start = omega arith;
  summary_crc = omega arith;
}

abbrev pub same_schema_content : SchemaContent → SchemaContent → Bool
same_schema_content s t =
    bytes_eq s.name t.name && bytes_eq s.encoding t.encoding && bytes_eq s.body t.body

abbrev pub same_channel_content : ChannelContent → ChannelContent → Bool
same_channel_content c d =
    bytes_eq c.topic d.topic
    && (c.schema_id == d.schema_id)
    && bytes_eq c.message_encoding d.message_encoding
    && map_eq c.metadata d.metadata

pub same_schema_content_refl : (s : SchemaContent) → same_schema_content s s ≡ true
same_schema_content_refl s =
    rw (bytes_eq_refl s.name, bytes_eq_refl s.encoding, bytes_eq_refl s.body) refl

pub same_channel_content_refl : (c : ChannelContent) → same_channel_content c c ≡ true
same_channel_content_refl c =
    rw
      (
        bytes_eq_refl c.topic,
        eq→== c.schema_id c.schema_id refl,
        bytes_eq_refl c.message_encoding,
        map_eq_refl c.metadata,
      )
      refl

pub same_schema_content→eq : (s t : SchemaContent) → same_schema_content s t ≡ true → s ≡ t
same_schema_content→eq s t h i = record {
  name = bytes_eq→eq s.name t.name (ground arith) i;
  encoding = bytes_eq→eq s.encoding t.encoding (ground arith) i;
  body = bytes_eq→eq s.body t.body (ground arith) i;
}

pub same_channel_content→eq : (c d : ChannelContent) → same_channel_content c d ≡ true → c ≡ d
same_channel_content→eq c d h i = record {
  topic = bytes_eq→eq c.topic d.topic (ground arith) i;
  schema_id = ==→eq c.schema_id d.schema_id (ground arith) i;
  message_encoding = bytes_eq→eq c.message_encoding d.message_encoding (ground arith) i;
  metadata = map_eq→eq c.metadata d.metadata (ground arith) i;
}

abbrev pub schema_contents : BiMap SchemaContent
schema_contents = entries same_schema_content same_schema_content_refl same_schema_content→eq

abbrev pub channel_contents : BiMap ChannelContent
channel_contents = entries same_channel_content same_channel_content_refl same_channel_content→eq
