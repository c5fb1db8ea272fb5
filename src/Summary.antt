-- ===== src/Summary.antt =====
-- The data of the summary reader in rust/mcap/src/sans_io/summary_reader.rs, `Summary`, and `footer` of
-- rust/mcap/src/read.rs.
use mcap.Prelude.{
  ℕ, ◌+◌, ◌-◌, min, ◌&&◌, not, Option, none, some, List, [], ◌∷◌, ◌++◌, length, take, drop, ltb,
  if◌then◌else◌,
}
use mcap.Error.{Bytes, Result, ok, err, ◌>>=◌, unexpected_eof, bad_magic}
use mcap.HashMap.{bytes_eq}
use mcap.Records
use mcap.Records.{
  Record, Statistics, AttachmentIndex, MetadataIndex, ChunkIndex, attachment_index, metadata_index,
  statistics, channel, schema, chunk_index, into_owned,
}
use mcap.Records.Decode.{get_footer}
use mcap.Channels
use mcap.Channels.{Schema, Channel, ChannelAccumulator, no_channels}
use mcap.Read.{slice}

-- `MAGIC` of lib.rs
abbrev pub magic : Bytes
magic = 0x89 ∷ 0x4d ∷ 0x43 ∷ 0x41 ∷ 0x50 ∷ 0x30 ∷ 0x0d ∷ 0x0a ∷ []

-- `FOOTER_RECORD_AND_END_MAGIC`
abbrev pub footer_size : ℕ
footer_size = 1 + 8 + 8 + 8 + 4 + 8

pub data SeekFrom : Type 0 where
  start : ℕ → SeekFrom
  -- that many bytes before the end
  before_end : ℕ → SeekFrom

-- `SummaryReadEvent`
pub data SummaryReadEvent : Type 0 where
  read_request : ℕ → SummaryReadEvent
  seek_request : SeekFrom → SummaryReadEvent

-- `Summary` of read.rs
pub record Summary : Type 0 where
  pub stats : Option Statistics
  pub channels : List (ℕ × Channel)
  pub schemas : List (ℕ × Schema)
  pub chunk_indexes : List ChunkIndex
  pub attachment_indexes : List AttachmentIndex
  pub metadata_indexes : List MetadataIndex

abbrev pub no_summary : Summary
no_summary = record {
  stats = none;
  channels = [];
  schemas = [];
  chunk_indexes = [];
  attachment_indexes = [];
  metadata_indexes = [];
}

pub record SummaryReaderOptions : Type 0 where
  pub file_size : Option ℕ
  pub record_length_limit : Option ℕ

unfoldable pub with_file_size : SummaryReaderOptions → ℕ → SummaryReaderOptions
with_file_size o size = record o { file_size = some size }

unfoldable pub with_record_length_limit : SummaryReaderOptions → ℕ → SummaryReaderOptions
with_record_length_limit o limit = record o { record_length_limit = some limit }

-- `usize::try_from` of a u64 never fails here, and `saturating_sub` is the subtraction of ℕ.
unfoldable pub compute_record_length_limit : ℕ → Option ℕ → Option ℕ → Option ℕ
compute_record_length_limit pos (some size) (some limit) = some (min (size - pos) limit)
compute_record_length_limit pos (some size) none = some (size - pos)
compute_record_length_limit pos none (some limit) = some limit
compute_record_length_limit pos none none = none

-- Where a record of the summary section goes; the others are skipped.
unfoldable pub collect :
    Record → ChannelAccumulator → Summary → Result (ChannelAccumulator × Summary)
collect (attachment_index i) acc s =
    ok (acc, record s { attachment_indexes = s.attachment_indexes ++ (i ∷ []) })
collect (metadata_index i) acc s =
    ok (acc, record s { metadata_indexes = s.metadata_indexes ++ (i ∷ []) })
collect (statistics st) acc s = ok (acc, record s { stats = some st })
collect (channel c) acc s = Channels.add_channel acc c >>= λ acc'. ok (acc', s)
collect (schema h bytes) acc s = Channels.add_schema acc h bytes >>= λ acc'. ok (acc', s)
collect (chunk_index i) acc s = ok (acc, record s { chunk_indexes = s.chunk_indexes ++ (i ∷ []) })
collect _ acc s = ok (acc, s)

-- `footer_buf` holds what the caller has written to the buffer of `insert`: here the bytes `got`, from
-- `loaded` on.
unfoldable pub fill : ℕ → Bytes → Bytes → Bytes
fill loaded got buf = take loaded buf ++ (got ++ drop (loaded + length got) buf)

-- The opcode, the body and the end magic in `footer_buf`.
unfoldable pub footer_parts : Bytes → ℕ → Result (Bytes × Bytes × Bytes)
footer_parts buf loaded = do
  opcode ← slice buf 0 1
  body ← slice buf 9 (footer_size - 8)
  end_magic ← slice buf (footer_size - 8) loaded
  ok (opcode, body, end_magic)

-- `footer` of read.rs
unfoldable pub footer : Bytes → Result Records.Footer
footer mcap =
    if ltb (length mcap) (8 + (1 + 8 + 20) + 8)
    then err unexpected_eof
    else if not (bytes_eq (take 8 mcap) magic && bytes_eq (drop (length mcap - 8) mcap) magic)
    then err bad_magic
    else (slice mcap (length mcap - 8 - 20) (length mcap) >>= λ buf. get_footer buf >>= λ r. ok r.0)
