-- ===== src/IndexedReader.antt =====
-- `IndexedReader` of rust/mcap/src/sans_io/indexed_reader.rs: its state, its options, the selection of
-- the chunks, and the slots of decompressed chunks.
--
-- A set or a map is the list of its elements or entries. `sort_by_key` is `sort_by` of Sorting.
pub mod Indexing
pub mod Events
pub mod Topics
pub mod Found
pub mod Ordered
pub mod Invariant
pub mod Insertion
pub mod Earliest
use mcap.Prelude.{
  ℕ, suc, ◌+◌, Bool, true, false, ◌&&◌, ◌||◌, not, Option, none, some, List, [], ◌∷◌, ◌++◌, length,
  ltb, leb, ◌==◌, if◌then◌else◌,
}
use mcap.Error.{Bytes, Result, ok, err, ◌>>=◌, chunk_too_large}
use mcap.HashMap.{bytes_eq}
use mcap.Records.{ChunkIndex, MessageHeader, compressed_data_offset}
use mcap.Channels.{Channel}
use mcap.Summary.{Summary}
use mcap.LinearReader.Options.{check_len, ok_or}
use mcap.Sorting.{lex_le, sort_by}

pub data ReadOrder : Type 0 where
  by_log_time by_reverse_log_time by_file : ReadOrder

pub record MessageIndex : Type 0 where
  pub chunk_slot_idx : ℕ
  pub log_time : ℕ
  pub offset : ℕ

pub data IndexedReadEvent : Type 0 where
  read_chunk_request : ℕ → ℕ → IndexedReadEvent
  message_read : MessageHeader → Bytes → IndexedReadEvent

pub record ChunkSlot : Type 0 where
  pub buf : Bytes
  pub data_start : ℕ
  pub message_count : ℕ

pub record Filter : Type 0 where
  pub start : Option ℕ
  pub end : Option ℕ
  pub channel_ids : List ℕ

pub record IndexedReader : Type 0 where
  pub chunk_indexes : List ChunkIndex
  pub cur_chunk_index : ℕ
  pub chunk_slots : List ChunkSlot
  pub message_indexes : List MessageIndex
  pub cur_message_index : ℕ
  pub order : ReadOrder
  pub filter : Filter
  pub record_length_limit : Option ℕ

pub record IndexedReaderOptions : Type 0 where
  pub start : Option ℕ
  pub end : Option ℕ
  pub order : ReadOrder
  pub include_topics : Option (List Bytes)
  pub record_length_limit : Option ℕ

abbrev pub default_options : IndexedReaderOptions
default_options = record {
  start = none;
  end = none;
  order = by_log_time;
  include_topics = none;
  record_length_limit = none;
}

unfoldable pub with_order : IndexedReaderOptions → ReadOrder → IndexedReaderOptions
with_order o order = record o { order = order }

unfoldable pub include_topics : IndexedReaderOptions → List Bytes → IndexedReaderOptions
include_topics o topics = record o { include_topics = some topics }

unfoldable pub log_time_on_or_after : IndexedReaderOptions → ℕ → IndexedReaderOptions
log_time_on_or_after o start = record o { start = some start }

unfoldable pub log_time_before : IndexedReaderOptions → ℕ → IndexedReaderOptions
log_time_before o end = record o { end = some end }

unfoldable pub with_record_length_limit : IndexedReaderOptions → ℕ → IndexedReaderOptions
with_record_length_limit o limit = record o { record_length_limit = some limit }

-- `BTreeSet::contains`
unfoldable pub has_id : List ℕ → ℕ → Bool
has_id [] id = false
has_id (i ∷ ids) id = i == id || has_id ids id

unfoldable pub has_topic : List Bytes → Bytes → Bool
has_topic [] topic = false
has_topic (t ∷ topics) topic = bytes_eq t topic || has_topic topics topic

-- the ids of the channels with one of the topics
unfoldable pub included : List Bytes → List (ℕ × Channel) → List ℕ
unfolding has_topic
included topics [] = []
included topics ((id, channel) ∷ channels) =
    let rest = included topics channels in
    if has_topic topics channel.topic then id ∷ rest else rest

unfoldable pub channel_ids_of : Option (List Bytes) → List (ℕ × Channel) → List ℕ
unfolding included
channel_ids_of none channels = []
channel_ids_of (some topics) channels = included topics channels

-- `if let Some(start) = start`
unfoldable pub is_before : ℕ → Option ℕ → Bool
is_before t none = false
is_before t (some start) = ltb t start

unfoldable pub is_from : ℕ → Option ℕ → Bool
is_from t none = false
is_from t (some end) = leb end t

unfoldable pub has_some_id : List ℕ → List (ℕ × ℕ) → Bool
unfolding has_id
has_some_id ids [] = false
has_some_id ids ((key, _) ∷ offsets) = has_id ids key || has_some_id ids offsets

unfoldable pub is_empty {ℓ} : {A : Type ℓ} → List A → Bool
is_empty [] = true
is_empty (x ∷ xs) = false

-- the chunks that may hold a message that the filter lets through
unfoldable pub is_used : Filter → ChunkIndex → Bool
unfolding is_before is_from has_some_id is_empty
is_used f c =
    if is_before c.message_end_time f.start
    then false
    else if is_from c.message_start_time f.end
    then false
    else is_empty f.channel_ids
      || is_empty c.message_index_offsets
      || has_some_id f.channel_ids c.message_index_offsets

unfoldable pub used_chunks : Filter → List ChunkIndex → List ChunkIndex
unfolding is_used
used_chunks f [] = []
used_chunks f (c ∷ cs) = let rest = used_chunks f cs in if is_used f c then c ∷ rest else rest

unfoldable pub check_offsets : List ChunkIndex → Result (Unit {0})
check_offsets [] = ok tt
check_offsets (c ∷ cs) = compressed_data_offset c >>= λ _. check_offsets cs

unfoldable pub check_sizes : List ChunkIndex → Option ℕ → Result (Unit {0})
check_sizes [] limit = ok tt
check_sizes (c ∷ cs) limit =
    ok_or (check_len c.compressed_size limit) (chunk_too_large c.compressed_size) >>= λ _.
    ok_or (check_len c.uncompressed_size limit) (chunk_too_large c.compressed_size) >>= λ _.
    check_sizes cs limit

-- the keys by which the chunks are sorted; `Reverse` turns the order around
unfoldable pub chunk_le : ReadOrder → ChunkIndex → ChunkIndex → Bool
unfolding lex_le
chunk_le by_file a b = leb a.chunk_start_offset b.chunk_start_offset
chunk_le by_log_time a b =
    lex_le (a.message_start_time ∷ a.chunk_start_offset ∷ [])
      (b.message_start_time ∷ b.chunk_start_offset ∷ [])
chunk_le by_reverse_log_time a b =
    lex_le (b.message_end_time ∷ b.chunk_start_offset ∷ [])
      (a.message_end_time ∷ a.chunk_start_offset ∷ [])

unfoldable pub new_with_options : Summary → IndexedReaderOptions → Result IndexedReader
new_with_options summary o =
    let filter : Filter = record {
      start = o.start;
      end = o.end;
      channel_ids = channel_ids_of o.include_topics summary.channels;
    } in
    let used = used_chunks filter summary.chunk_indexes in
    let sorted = sort_by (chunk_le o.order) used in
    check_offsets used >>= λ _. check_sizes sorted o.record_length_limit >>= λ _. ok (record {
      chunk_indexes = sorted;
      cur_chunk_index = 0;
      chunk_slots = [];
      message_indexes = [];
      cur_message_index = 0;
      order = o.order;
      filter = filter;
      record_length_limit = o.record_length_limit;
    })

unfoldable pub find_or_make_chunk_slot : List ChunkSlot → ℕ → List ChunkSlot × ℕ
find_or_make_chunk_slot [] data_start =
    (record { buf = []; data_start = data_start; message_count = 0 } ∷ [], 0)
find_or_make_chunk_slot (slot ∷ slots) data_start =
    let (slots', idx) = find_or_make_chunk_slot slots data_start in
    if slot.message_count == 0
    then (record slot { buf = []; data_start = data_start } ∷ slots, 0)
    else (slot ∷ slots', suc idx)
