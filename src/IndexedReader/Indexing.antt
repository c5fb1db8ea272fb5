-- ===== src/IndexedReader/Indexing.antt =====
-- `index_messages`: its loop over the records of a chunk, on fuel, and the sort that it may skip.
use mcap.Prelude.{
  ℕ, zero, suc, ◌+◌, ◌-◌, Bool, true, false, ◌&&◌, ◌||◌, not, Option, none, some, List, [], ◌∷◌,
  ◌++◌, length, take, drop, ltb, leb, ◌==◌, if◌then◌else◌, max,
}
use mcap.Error.{Bytes, Result, ok, err, panic, stuck, ◌>>=◌, record_too_large, unexpected_eoc}
use mcap.Records.{MessageHeader}
use mcap.Records.Decode.{get_message_header}
use mcap.LinearReader.Options.{check_len, ok_or}
use mcap.LinearReader.Chunks.{split_opcode_length}
use mcap.Sorting.{lex_le, sort_by}
use mcap.IndexedReader.{
  ReadOrder, by_file, by_reverse_log_time, MessageIndex, ChunkSlot, Filter, is_before, is_from,
  has_id, is_empty,
}

-- the opcode and the content of the record at `offset`
unfoldable pub record_at : Bytes → ℕ → Option ℕ → Result (ℕ × Bytes)
record_at chunk_data offset limit =
    ok_or (split_opcode_length (drop offset chunk_data)) unexpected_eoc >>= λ h.
    ok_or (check_len h.1 limit) (record_too_large h.0 h.1) >>= λ len.
    (let buf = drop 9 (drop offset chunk_data) in
      if ltb (length buf) len then err unexpected_eoc else ok (h.0, take len buf))

unfoldable pub is_wanted : Filter → MessageHeader → Bool
unfolding is_before is_from has_id is_empty
is_wanted f msg =
    if is_from msg.log_time f.end
    then false
    else if is_before msg.log_time f.start
    then false
    else is_empty f.channel_ids || has_id f.channel_ids msg.channel_id

unfoldable pub is_by_file : ReadOrder → Bool
is_by_file by_file = true
is_by_file _ = false

-- the variables of the loop
pub record Indexing : Type 0 where
  pub offset : ℕ
  pub sorting_required : Bool
  pub latest_timestamp : ℕ
  pub message_indexes : List MessageIndex

unfoldable pub enter_message : ReadOrder → MessageIndex → Indexing → Indexing
unfolding is_by_file
enter_message order m st = record st {
  sorting_required =
      if not st.sorting_required && not (is_by_file order)
      then ltb m.log_time st.latest_timestamp
      else st.sorting_required;
  latest_timestamp = max st.latest_timestamp m.log_time;
  message_indexes = st.message_indexes ++ (m ∷ []);
}

module _ (chunk_slot_idx : ℕ) (order : ReadOrder) (filter : Filter) where
  unfoldable pub index_record : Indexing → ℕ × Bytes → Result Indexing
  unfolding is_wanted enter_message
  index_record st (opcode, bytes) =
      let next_offset = st.offset + 9 + length bytes in
      if not (opcode == 0x05)
      then ok (record st { offset = next_offset })
      else (get_message_header bytes >>= λ msg.
          let m : MessageIndex = record {
            chunk_slot_idx = chunk_slot_idx;
            log_time = msg.0.log_time;
            offset = st.offset;
          } in
          ok (record (if is_wanted filter msg.0 then enter_message order m st else st) {
            offset = next_offset;
          }))

  unfoldable pub index_loop : ℕ → Bytes → Option ℕ → Indexing → Result Indexing
  unfolding record_at index_record
  index_loop zero chunk_data limit st = stuck
  index_loop (suc fuel) chunk_data limit st =
      if ltb st.offset (length chunk_data)
      then (record_at chunk_data st.offset limit >>= λ r.
          index_record st r >>= λ st'. index_loop fuel chunk_data limit st')
      else ok st

unfoldable pub slot_at : List ChunkSlot → ℕ → Option ChunkSlot
slot_at [] i = none
slot_at (s ∷ slots) zero = some s
slot_at (s ∷ slots) (suc i) = slot_at slots i

-- `chunk_slots[i].data_start`, where there is such a slot
unfoldable pub data_start_of : Option ChunkSlot → ℕ
data_start_of none = 0
data_start_of (some slot) = slot.data_start

-- the keys by which the messages are sorted; `Reverse` turns the order around
unfoldable pub message_key : List ChunkSlot → ReadOrder → MessageIndex → List ℕ
unfolding data_start_of slot_at
message_key slots by_file m = data_start_of (slot_at slots m.chunk_slot_idx) ∷ m.offset ∷ []
message_key slots _ m = m.log_time ∷ data_start_of (slot_at slots m.chunk_slot_idx) ∷ m.offset ∷ []

unfoldable pub message_le : List ChunkSlot → ReadOrder → MessageIndex → MessageIndex → Bool
unfolding message_key lex_le
message_le slots by_reverse_log_time a b =
    lex_le (message_key slots by_reverse_log_time b) (message_key slots by_reverse_log_time a)
message_le slots order a b = lex_le (message_key slots order a) (message_key slots order b)

unfoldable pub reverse_onto : List MessageIndex → List MessageIndex → List MessageIndex
reverse_onto [] acc = acc
reverse_onto (m ∷ ms) acc = reverse_onto ms (m ∷ acc)

-- The messages from `start` on, in reverse where the order is.
unfoldable pub turned : ReadOrder → ℕ → List MessageIndex → List MessageIndex
unfolding reverse_onto
turned by_reverse_log_time start ms = take start ms ++ reverse_onto (drop start ms) []
turned _ start ms = ms

unfoldable pub has_slots : List ChunkSlot → List MessageIndex → Bool
has_slots slots [] = true
has_slots slots (m ∷ ms) = ltb m.chunk_slot_idx (length slots) && has_slots slots ms

-- `message_indexes[from..].sort_by_key(..)`; a slot out of range is a panic
unfoldable pub sort_from :
    List ChunkSlot → ReadOrder → ℕ → List MessageIndex → Result (List MessageIndex)
unfolding has_slots message_le
sort_from slots order from ms =
    if leb from (length ms) && has_slots slots (drop from ms)
    then ok (take from ms ++ sort_by (message_le slots order) (drop from ms))
    else panic

unfoldable pub ordered_by :
    List ChunkSlot → ReadOrder → ℕ → ℕ → Indexing → Result (ℕ × List MessageIndex)
unfolding turned sort_from
ordered_by slots order from start st =
    let ms = turned order start st.message_indexes in
    (if st.sorting_required then sort_from slots order from ms else ok ms) >>= λ ms'.
    ok (length ms' - start, ms')

unfoldable pub indexed_in :
    Option ChunkSlot
    → ℕ
    → List ChunkSlot
    → ReadOrder
    → Filter
    → List MessageIndex
    → ℕ
    → Option ℕ
    → Result (ℕ × List MessageIndex)
unfolding index_loop ordered_by
indexed_in none chunk_slot_idx slots order filter message_indexes cur_message_index limit = panic
indexed_in (some slot) chunk_slot_idx slots order filter message_indexes cur_message_index limit =
    index_loop chunk_slot_idx order filter (suc (length slot.buf)) slot.buf limit (record {
      offset = 0;
      sorting_required = not (is_empty message_indexes);
      latest_timestamp = 0;
      message_indexes = message_indexes;
    })
    >>= λ st. ordered_by slots order cur_message_index (length message_indexes) st

-- How many messages were entered, and the indexes with them.
unfoldable pub index_messages :
    ℕ
    → List ChunkSlot
    → ReadOrder
    → Filter
    → List MessageIndex
    → ℕ
    → Option ℕ
    → Result (ℕ × List MessageIndex)
unfolding indexed_in slot_at
index_messages chunk_slot_idx slots order filter message_indexes cur_message_index limit =
    indexed_in (slot_at slots chunk_slot_idx) chunk_slot_idx slots order filter message_indexes
      cur_message_index limit
