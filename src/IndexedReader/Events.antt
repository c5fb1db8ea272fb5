-- ===== src/IndexedReader/Events.antt =====
-- `next_event` and `insert_chunk_record_data` of the indexed reader.
--
-- What a reader holds after `insert_chunk_record_data` has failed is not modelled.
use mcap.Prelude.{
  ℕ, zero, suc, ◌+◌, Bool, true, false, not, Option, none, some, List, [], ◌∷◌, length, take, drop,
  ltb, leb, ◌==◌, if◌then◌else◌,
}
use mcap.Error.{
  Bytes, Result, ok, err, panic, stuck, ◌>>=◌, record_too_large, chunk_too_large, unexpected_eoc,
  unexpected_chunk_data_inserted, decompression_error, unsupported_compression,
}
use mcap.HashMap.{bytes_eq}
use mcap.Records.{ChunkIndex, MessageHeader, compressed_data_offset}
use mcap.Records.Decode.{get_message_header}
use mcap.LinearReader.Options.{check_len, ok_or, sub_u64}
use mcap.LinearReader.Moves.{from_le}
use mcap.IndexedReader.{
  ReadOrder, by_file, by_log_time, by_reverse_log_time, MessageIndex, ChunkSlot, IndexedReadEvent,
  read_chunk_request, message_read, IndexedReader, find_or_make_chunk_slot,
}
use mcap.IndexedReader.Indexing.{slot_at, index_messages}

-- what `next_event` returns
abbrev pub Event : Type 0
Event = Option (Result IndexedReadEvent)

-- `expect("chunk data offset checked in new()")`
unfoldable pub expect_offset : Result ℕ → Result ℕ
expect_offset (ok n) = ok n
expect_offset _ = panic

unfoldable pub requested : ChunkIndex → Option ℕ → Result IndexedReadEvent
requested index none = err (chunk_too_large index.compressed_size)
requested index (some len) =
    expect_offset (compressed_data_offset index) >>= λ offset. ok (read_chunk_request offset len)

unfoldable pub chunk_request : ChunkIndex → Option ℕ → Result IndexedReadEvent
unfolding requested check_len
chunk_request index limit = requested index (check_len index.compressed_size limit)

unfoldable pub chunk_at : List ChunkIndex → ℕ → Option ChunkIndex
chunk_at [] i = none
chunk_at (c ∷ cs) zero = some c
chunk_at (c ∷ cs) (suc i) = chunk_at cs i

unfoldable pub message_at : List MessageIndex → ℕ → Option MessageIndex
message_at [] i = none
message_at (m ∷ ms) zero = some m
message_at (m ∷ ms) (suc i) = message_at ms i

unfoldable pub starts_before : ChunkIndex → Option ChunkSlot → Result Bool
unfolding expect_offset
starts_before c none = panic
starts_before c (some slot) =
    expect_offset (compressed_data_offset c) >>= λ offset. ok (ltb offset slot.data_start)

unfoldable pub yield_chunk_first :
    ReadOrder → List ChunkSlot → ChunkIndex → MessageIndex → Result Bool
unfolding starts_before slot_at
yield_chunk_first by_file slots c m = starts_before c (slot_at slots m.chunk_slot_idx)
yield_chunk_first by_log_time slots c m = ok (ltb c.message_start_time m.log_time)
yield_chunk_first by_reverse_log_time slots c m = ok (ltb m.log_time c.message_end_time)

-- whether the next chunk is to be loaded before the message
unfoldable pub chunk_first : IndexedReader → Option ChunkIndex → MessageIndex → Result Bool
unfolding yield_chunk_first
chunk_first r none m = ok false
chunk_first r (some c) m = yield_chunk_first r.order r.chunk_slots c m

-- The message record at the start of a buffer.
unfoldable pub message_in : Bytes → Option ℕ → Result (MessageHeader × Bytes)
unfolding check_len from_le ok_or
message_in [] limit = err unexpected_eoc
message_in (opcode ∷ buf) limit =
    if not (opcode == 0x05)
    then panic
    else if ltb (length buf) 8
    then err unexpected_eoc
    else (ok_or (check_len (from_le (take 8 buf)) limit)
          (record_too_large opcode (from_le (take 8 buf)))
        >>= λ msg_len.
            let rest = drop 8 buf in
            if ltb (length rest) msg_len
            then err unexpected_eoc
            else get_message_header (take msg_len rest))

unfoldable pub read_message :
    Option ChunkSlot → MessageIndex → Option ℕ → Result (MessageHeader × Bytes)
unfolding message_in
read_message none m limit = panic
read_message (some slot) m limit =
    if ltb (length slot.buf) m.offset then panic else message_in (drop m.offset slot.buf) limit

module _ (checks : Bool) where
  -- `chunk_slots[i].message_count -= 1`
  unfoldable pub count_down : List ChunkSlot → ℕ → Result (List ChunkSlot)
  unfolding sub_u64
  count_down [] i = panic
  count_down (s ∷ slots) zero =
      sub_u64 checks s.message_count 1 >>= λ n. ok (record s { message_count = n } ∷ slots)
  count_down (s ∷ slots) (suc i) = count_down slots i >>= λ slots'. ok (s ∷ slots')

  unfoldable pub yielded :
      IndexedReader → MessageHeader × Bytes → Result (List ChunkSlot) → Event × IndexedReader
  yielded r (header, bytes) (ok slots) = (
    some (ok (message_read header bytes)),
    record r { cur_message_index = suc r.cur_message_index; chunk_slots = slots },
  )
  yielded r msg (err e) = (some (err e), r)
  yielded r msg panic = (some panic, r)
  yielded r msg stuck = (some stuck, r)

  unfoldable pub yield_message :
      IndexedReader → MessageIndex → Result (MessageHeader × Bytes) → Event × IndexedReader
  unfolding yielded count_down
  yield_message r m (ok msg) = yielded r msg (count_down r.chunk_slots m.chunk_slot_idx)
  yield_message r m (err e) = (some (err e), r)
  yield_message r m panic = (some panic, r)
  yield_message r m stuck = (some stuck, r)

  unfoldable pub request : IndexedReader → Option ChunkIndex → Event × IndexedReader
  unfolding chunk_request
  request r none = (none, r)
  request r (some c) = (some (chunk_request c r.record_length_limit), r)

  unfoldable pub message_or_chunk :
      IndexedReader → Option ChunkIndex → MessageIndex → Result Bool → Event × IndexedReader
  unfolding request yield_message read_message slot_at
  message_or_chunk r chunk m (ok true) = request r chunk
  message_or_chunk r chunk m (ok false) =
      yield_message r m
        (read_message (slot_at r.chunk_slots m.chunk_slot_idx) m r.record_length_limit)
  message_or_chunk r chunk m (err e) = (some (err e), r)
  message_or_chunk r chunk m panic = (some panic, r)
  message_or_chunk r chunk m stuck = (some stuck, r)

  unfoldable pub next_event_at :
      IndexedReader → Option MessageIndex → Option ChunkIndex → Event × IndexedReader
  unfolding message_or_chunk chunk_first
  next_event_at r none chunk = request r chunk
  next_event_at r (some m) chunk = message_or_chunk r chunk m (chunk_first r chunk m)

  unfoldable pub next_event : IndexedReader → Event × IndexedReader
  unfolding next_event_at message_at chunk_at
  next_event r =
      next_event_at r (message_at r.message_indexes r.cur_message_index)
        (chunk_at r.chunk_indexes r.cur_chunk_index)

-- the place of the chunk whose data start at `offset`
unfoldable pub find_chunk : List ChunkIndex → ℕ → Result (Option (ℕ × ChunkIndex))
unfolding expect_offset
find_chunk [] offset = ok none
find_chunk (c ∷ cs) offset = expect_offset (compressed_data_offset c) >>= λ start.
    if start == offset then ok (some (0, c)) else (find_chunk cs offset >>= λ found. later found)
  where
    later : Option (ℕ × ChunkIndex) → Result (Option (ℕ × ChunkIndex))
    later none = ok none
    later (some (i, d)) = ok (some (suc i, d))

unfoldable pub without : List ChunkIndex → ℕ → List ChunkIndex
without [] i = []
without (c ∷ cs) zero = cs
without (c ∷ cs) (suc i) = c ∷ without cs i

-- Decompressors of the libraries of zstd and LZ4: the bytes of a whole chunk, of which zstd is given the
-- number at most and LZ4 the number exactly. `mismatch` is the text of the error for another number.
pub record Decompress : Type 0 where
  pub zstd : Bytes → ℕ → Result Bytes
  pub lz4 : Bytes → ℕ → Result Bytes
  pub mismatch : ℕ → ℕ → Bytes

-- "zstd" and "lz4"
abbrev pub zstd_name : Bytes
zstd_name = 0x7a ∷ 0x73 ∷ 0x74 ∷ 0x64 ∷ []

abbrev pub lz4_name : Bytes
lz4_name = 0x6c ∷ 0x7a ∷ 0x34 ∷ []

unfoldable pub set_slot : List ChunkSlot → ℕ → (ChunkSlot → ChunkSlot) → List ChunkSlot
set_slot [] i f = []
set_slot (s ∷ slots) zero f = f s ∷ slots
set_slot (s ∷ slots) (suc i) f = s ∷ set_slot slots i f

-- Message indexes that are exhausted are cleared.
unfoldable pub clear_exhausted : IndexedReader → IndexedReader
clear_exhausted r =
    if leb (length r.message_indexes) r.cur_message_index
    then record r { message_indexes = []; cur_message_index = 0 }
    else r

-- Dead space in front is given back, and the chunk is taken off the list.
unfoldable pub compact : IndexedReader → ℕ → IndexedReader
compact r message_count =
    if ltb message_count r.cur_message_index
    then record r {
      message_indexes = drop r.cur_message_index r.message_indexes;
      cur_message_index = 0;
    }
    else r

unfoldable pub take_chunk : IndexedReader → ℕ → IndexedReader
unfolding without
take_chunk r zero = record r { cur_chunk_index = suc r.cur_chunk_index }
take_chunk r (suc i) = record r {
  chunk_indexes = without r.chunk_indexes (r.cur_chunk_index + suc i);
}

module _ (libraries : Decompress) where
  open libraries use {zstd, lz4, mismatch}

  unfoldable pub decompressed : Bytes → Bytes → ℕ → Result Bytes
  decompressed compression compressed size =
      if bytes_eq compression []
      then if size == length compressed then ok compressed else panic
      else if bytes_eq compression zstd_name
      then (zstd compressed size >>= λ bytes.
          if length bytes == size
          then ok bytes
          else err (decompression_error (mismatch size (length bytes))))
      else if bytes_eq compression lz4_name
      then lz4 compressed size
      else err (unsupported_compression compression)

  unfoldable pub insert_found :
      IndexedReader → ℕ → Bytes → Option (ℕ × ChunkIndex) → Result IndexedReader
  unfolding decompressed set_slot clear_exhausted compact take_chunk find_or_make_chunk_slot
      index_messages
  insert_found r offset compressed none = err unexpected_chunk_data_inserted
  insert_found r offset compressed (some (i, c)) =
      if not (length compressed == c.compressed_size)
      then err unexpected_chunk_data_inserted
      else (let (slots, slot_idx) = find_or_make_chunk_slot r.chunk_slots offset in
          decompressed c.compression compressed c.uncompressed_size >>= λ bytes.
          let filled = set_slot slots slot_idx (λ s. record s { buf = bytes }) in
          let r' = clear_exhausted r in
          index_messages slot_idx filled r.order r.filter r'.message_indexes r'.cur_message_index
            r.record_length_limit
          >>= λ indexed. ok (
              take_chunk
                (compact
                  (record r' {
                    message_indexes = indexed.1;
                    chunk_slots =
                        set_slot filled slot_idx (λ s. record s { message_count = indexed.0 });
                  })
                  indexed.0)
                i))

  unfoldable pub insert_chunk_record_data : IndexedReader → ℕ → Bytes → Result IndexedReader
  unfolding insert_found find_chunk
  insert_chunk_record_data r offset compressed =
      if ltb (length r.chunk_indexes) r.cur_chunk_index
      then panic
      else (find_chunk (drop r.cur_chunk_index r.chunk_indexes) offset >>= λ found.
          insert_found r offset compressed found)
