-- ===== src/Records/RoundTrip.antt =====
-- Each record is read back from the bytes that it was written as.
use mcap.Prelude.{◌*◌, ◌^◌, ◌<◌, ◌≡◌, refl, List, [], ◌∷◌, All, arith, length, length-append}
use mcap.Error.{Bytes, ok}
use mcap.Bytes.{put_le}
use mcap.Bytes.RoundTrip.{
  Decodes, Decodes-bind, Decodes-last, get_le-put_le, get_string-put_string, length-put_le,
}
use mcap.Records.{
  Header, Footer, SchemaHeader, Channel, MessageHeader, ChunkHeader, MessageIndexEntry,
  MessageIndex, ChunkIndex, AttachmentHeader, AttachmentIndex, Statistics, Metadata, MetadataIndex,
  SummaryOffset, DataEnd,
}
use mcap.Records.Maps.{write_all}
use mcap.Records.Maps.RoundTrip.{Codes, parse_vec-write_vec}
use mcap.Records.Maps.Entries.{parse_string_map-write_string_map, parse_int_map-write_int_map}
use mcap.Records.Encode.{
  put_header, put_footer, put_schema_header, put_channel, put_message_header, put_chunk_header,
  put_message_index_entry, put_message_index, put_chunk_index, put_attachment_header,
  put_attachment_index, put_statistics, put_metadata, put_metadata_index, put_summary_offset,
  put_data_end,
}
use mcap.Records.Decode.{
  get_header, get_footer, get_schema_header, get_channel, get_message_header, get_chunk_header,
  get_message_index_entry, get_message_index, get_chunk_index, get_attachment_header,
  get_attachment_index, get_statistics, get_metadata, get_metadata_index, get_summary_offset,
  get_data_end,
}
use mcap.Records.Fits.{
  HeaderFits, FooterFits, SchemaHeaderFits, ChannelFits, MessageHeaderFits, ChunkHeaderFits,
  MessageIndexEntryFits, MessageIndexFits, ChunkIndexFits, AttachmentHeaderFits,
  AttachmentIndexFits, StatisticsFits, MetadataFits, MetadataIndexFits, SummaryOffsetFits,
  DataEndFits,
}

pub get_header-put_header : (r : Header) → HeaderFits r → Decodes get_header (put_header r) r
unfolding put_header get_header
get_header-put_header r h =
    Decodes-bind _ (get_string-put_string r.profile h.profile)
      (Decodes-last _ (get_string-put_string r.library h.library))

pub get_footer-put_footer : (r : Footer) → FooterFits r → Decodes get_footer (put_footer r) r
unfolding put_footer get_footer
get_footer-put_footer r h = Decodes-bind _ (get_le-put_le 8 r.summary_start h.summary_start) (
    Decodes-bind _ (get_le-put_le 8 r.summary_offset_start h.summary_offset_start)
      (Decodes-last _ (get_le-put_le 4 r.summary_crc h.summary_crc)))

pub get_schema_header-put_schema_header :
    (r : SchemaHeader) → SchemaHeaderFits r → Decodes get_schema_header (put_schema_header r) r
unfolding put_schema_header get_schema_header
get_schema_header-put_schema_header r h = Decodes-bind _ (get_le-put_le 2 r.id h.id) (
    Decodes-bind _ (get_string-put_string r.name h.name)
      (Decodes-last _ (get_string-put_string r.encoding h.encoding)))

pub get_channel-put_channel :
    (r : Channel)
    → ChannelFits r
    → (bs : Bytes) × (put_channel r ≡ ok bs) × Decodes get_channel bs r
unfolding put_channel get_channel
get_channel-put_channel r h =
    let (bs, written, map_read) = parse_string_map-write_string_map r.metadata h.metadata in
    (
      _,
      rw written,
      Decodes-bind _ (get_le-put_le 2 r.id h.id) (
          Decodes-bind _ (get_le-put_le 2 r.schema_id h.schema_id) (
            Decodes-bind _ (get_string-put_string r.topic h.topic) (
              Decodes-bind _ (get_string-put_string r.message_encoding h.message_encoding)
                (Decodes-last _ map_read)))),
    )

pub get_message_header-put_message_header :
    (r : MessageHeader) → MessageHeaderFits r → Decodes get_message_header (put_message_header r) r
unfolding put_message_header get_message_header
get_message_header-put_message_header r h =
    Decodes-bind _ (get_le-put_le 2 r.channel_id h.channel_id) (
      Decodes-bind _ (get_le-put_le 4 r.sequence h.sequence) (
        Decodes-bind _ (get_le-put_le 8 r.log_time h.log_time)
          (Decodes-last _ (get_le-put_le 8 r.publish_time h.publish_time))))

pub get_chunk_header-put_chunk_header :
    (r : ChunkHeader) → ChunkHeaderFits r → Decodes get_chunk_header (put_chunk_header r) r
unfolding put_chunk_header get_chunk_header
get_chunk_header-put_chunk_header r h =
    Decodes-bind _ (get_le-put_le 8 r.message_start_time h.message_start_time) (
      Decodes-bind _ (get_le-put_le 8 r.message_end_time h.message_end_time) (
        Decodes-bind _ (get_le-put_le 8 r.uncompressed_size h.uncompressed_size) (
          Decodes-bind _ (get_le-put_le 4 r.uncompressed_crc h.uncompressed_crc) (
            Decodes-bind _ (get_string-put_string r.compression h.compression)
              (Decodes-last _ (get_le-put_le 8 r.compressed_size h.compressed_size))))))

pub get_message_index_entry-put_message_index_entry :
    (r : MessageIndexEntry)
    → MessageIndexEntryFits r
    → Decodes get_message_index_entry (put_message_index_entry r) r
unfolding put_message_index_entry get_message_index_entry
get_message_index_entry-put_message_index_entry r h =
    Decodes-bind _ (get_le-put_le 8 r.log_time h.log_time)
      (Decodes-last _ (get_le-put_le 8 r.offset h.offset))

length-entry : (e : MessageIndexEntry) → length (put_message_index_entry e) ≡ 16
unfolding put_message_index_entry
length-entry e = omega (
  arith,
  length-append (put_le 8 e.log_time) (put_le 8 e.offset),
  length-put_le 8 e.log_time,
  length-put_le 8 e.offset,
)

entries_lem :
    (es : List MessageIndexEntry)
    → All MessageIndexEntryFits es
    → All (Codes get_message_index_entry put_message_index_entry) es
entries_lem [] h = tt
entries_lem (e ∷ es) (h, hs) = (
  (get_message_index_entry-put_message_index_entry e h, omega (arith, length-entry e)),
  entries_lem es hs,
)

length-entries :
    (es : List MessageIndexEntry) → length (write_all put_message_index_entry es) ≡ length es * 16
unfolding write_all
length-entries [] = refl
length-entries (e ∷ es) = omega (
  arith,
  length-append (put_message_index_entry e) (write_all put_message_index_entry es),
  length-entry e,
  length-entries es,
)

entries_short :
    (es : List MessageIndexEntry)
    → length es * 16 < 2 ^ 32
    → length (write_all put_message_index_entry es) < 2 ^ 32
entries_short es h = rw length-entries h

-- A message index that fits the format is read back from its bytes, whatever follows them.
pub get_message_index-put_message_index :
    (r : MessageIndex) → MessageIndexFits r → Decodes get_message_index (put_message_index r) r
unfolding put_message_index get_message_index
get_message_index-put_message_index r h =
    Decodes-bind _ (get_le-put_le 2 r.channel_id h.channel_id) (
      Decodes-last _ (
        parse_vec-write_vec _ _ r.records (entries_lem r.records h.records)
          (entries_short r.records h.short)))

pub get_chunk_index-put_chunk_index :
    (r : ChunkIndex)
    → ChunkIndexFits r
    → (bs : Bytes) × (put_chunk_index r ≡ ok bs) × Decodes get_chunk_index bs r
unfolding put_chunk_index get_chunk_index
get_chunk_index-put_chunk_index r h =
    let (bs, written, map_read) =
      parse_int_map-write_int_map 2 8 r.message_index_offsets (omega arith)
        h.message_index_offsets in
    (
      _,
      rw written,
      Decodes-bind _ (get_le-put_le 8 r.message_start_time h.message_start_time) (
          Decodes-bind _ (get_le-put_le 8 r.message_end_time h.message_end_time) (
            Decodes-bind _ (get_le-put_le 8 r.chunk_start_offset h.chunk_start_offset) (
              Decodes-bind _ (get_le-put_le 8 r.chunk_length h.chunk_length) (
                Decodes-bind _ map_read (
                  Decodes-bind _ (get_le-put_le 8 r.message_index_length h.message_index_length) (
                    Decodes-bind _ (get_string-put_string r.compression h.compression) (
                      Decodes-bind _ (get_le-put_le 8 r.compressed_size h.compressed_size) (
                        Decodes-last _
                          (get_le-put_le 8 r.uncompressed_size h.uncompressed_size))))))))),
    )

pub get_attachment_header-put_attachment_header :
    (r : AttachmentHeader)
    → AttachmentHeaderFits r
    → Decodes get_attachment_header (put_attachment_header r) r
unfolding put_attachment_header get_attachment_header
get_attachment_header-put_attachment_header r h =
    Decodes-bind _ (get_le-put_le 8 r.log_time h.log_time) (
      Decodes-bind _ (get_le-put_le 8 r.create_time h.create_time) (
        Decodes-bind _ (get_string-put_string r.name h.name)
          (Decodes-last _ (get_string-put_string r.media_type h.media_type))))

pub get_attachment_index-put_attachment_index :
    (r : AttachmentIndex)
    → AttachmentIndexFits r
    → Decodes get_attachment_index (put_attachment_index r) r
unfolding put_attachment_index get_attachment_index
get_attachment_index-put_attachment_index r h = Decodes-bind _ (get_le-put_le 8 r.offset h.offset) (
    Decodes-bind _ (get_le-put_le 8 r.length h.length) (
      Decodes-bind _ (get_le-put_le 8 r.log_time h.log_time) (
        Decodes-bind _ (get_le-put_le 8 r.create_time h.create_time) (
          Decodes-bind _ (get_le-put_le 8 r.data_size h.data_size) (
            Decodes-bind _ (get_string-put_string r.name h.name)
              (Decodes-last _ (get_string-put_string r.media_type h.media_type)))))))

pub get_statistics-put_statistics :
    (r : Statistics)
    → StatisticsFits r
    → (bs : Bytes) × (put_statistics r ≡ ok bs) × Decodes get_statistics bs r
unfolding put_statistics get_statistics
get_statistics-put_statistics r h =
    let (bs, written, map_read) =
      parse_int_map-write_int_map 2 8 r.channel_message_counts (omega arith)
        h.channel_message_counts in
    (
      _,
      rw written,
      Decodes-bind _ (get_le-put_le 8 r.message_count h.message_count) (
          Decodes-bind _ (get_le-put_le 2 r.schema_count h.schema_count) (
            Decodes-bind _ (get_le-put_le 4 r.channel_count h.channel_count) (
              Decodes-bind _ (get_le-put_le 4 r.attachment_count h.attachment_count) (
                Decodes-bind _ (get_le-put_le 4 r.metadata_count h.metadata_count) (
                  Decodes-bind _ (get_le-put_le 4 r.chunk_count h.chunk_count) (
                    Decodes-bind _ (get_le-put_le 8 r.message_start_time h.message_start_time) (
                      Decodes-bind _ (get_le-put_le 8 r.message_end_time h.message_end_time)
                        (Decodes-last _ map_read)))))))),
    )

pub get_metadata-put_metadata :
    (r : Metadata)
    → MetadataFits r
    → (bs : Bytes) × (put_metadata r ≡ ok bs) × Decodes get_metadata bs r
unfolding put_metadata get_metadata
get_metadata-put_metadata r h =
    let (bs, written, map_read) = parse_string_map-write_string_map r.metadata h.metadata in
    (_, rw written, Decodes-bind _ (get_string-put_string r.name h.name) (Decodes-last _ map_read))

pub get_metadata_index-put_metadata_index :
    (r : MetadataIndex) → MetadataIndexFits r → Decodes get_metadata_index (put_metadata_index r) r
unfolding put_metadata_index get_metadata_index
get_metadata_index-put_metadata_index r h = Decodes-bind _ (get_le-put_le 8 r.offset h.offset) (
    Decodes-bind _ (get_le-put_le 8 r.length h.length)
      (Decodes-last _ (get_string-put_string r.name h.name)))

pub get_summary_offset-put_summary_offset :
    (r : SummaryOffset) → SummaryOffsetFits r → Decodes get_summary_offset (put_summary_offset r) r
unfolding put_summary_offset get_summary_offset
get_summary_offset-put_summary_offset r h =
    Decodes-bind _ (get_le-put_le 1 r.group_opcode h.group_opcode) (
      Decodes-bind _ (get_le-put_le 8 r.group_start h.group_start)
        (Decodes-last _ (get_le-put_le 8 r.group_length h.group_length)))

pub get_data_end-put_data_end :
    (r : DataEnd) → DataEndFits r → Decodes get_data_end (put_data_end r) r
unfolding put_data_end get_data_end
get_data_end-put_data_end r h =
    Decodes-last _ (get_le-put_le 4 r.data_section_crc h.data_section_crc)
