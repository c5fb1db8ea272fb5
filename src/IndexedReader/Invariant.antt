-- ===== src/IndexedReader/Invariant.antt =====
-- The order in which an indexed reader keeps its messages and chunks: a new one, and `next_event`.
use mcap.Prelude.{
  ℕ, zero, suc, ◌+◌, ◌≤◌, ◌<◌, ◌≡◌, refl, ap, ◌∙◌, Bool, true, false, Option, none, some, List, [],
  ◌∷◌, arith, length, drop, All, drop-drop,
}
use mathlib.Core.Path.{subst}
use mcap.Error.{Bytes, Result, ok, err, panic, stuck, ◌>>=◌, McapError}
use mcap.Records.{ChunkIndex, MessageHeader}
use mcap.Summary.{Summary}
use mcap.Sorting.{
  lex_le_total, lex_le_trans, sort_by, sort_by-IsSorted, IsSorted, IsSorted-drop, IsSorted-weaken,
  All-weaken,
}
use mcap.IndexedReader.{
  ReadOrder, by_file, by_log_time, by_reverse_log_time, MessageIndex, ChunkSlot, IndexedReader,
  IndexedReaderOptions, chunk_le, new_with_options, Filter, used_chunks, channel_ids_of,
  check_offsets, check_sizes,
}
use mcap.IndexedReader.Indexing.{slot_at, data_start_of, message_key, message_le}
use mcap.IndexedReader.Events.{
  next_event, next_event_at, message_or_chunk, request, yield_message, yielded, count_down,
  message_at, chunk_at, set_slot,
}
use mcap.LinearReader.Options.{sub_u64}

-- What is unread and the chunks to come are in order, and the messages are in slots.
pub record IsOrdered (r : IndexedReader) : Type 0 where
  pub unread_sorted :
      IsSorted (message_le r.chunk_slots r.order) (drop r.cur_message_index r.message_indexes)
  pub chunks_sorted : IsSorted (chunk_le r.order) (drop r.cur_chunk_index r.chunk_indexes)
  pub in_slots : All (λ m. m.chunk_slot_idx < length r.chunk_slots) r.message_indexes
  pub inside : r.cur_message_index ≤ length r.message_indexes

-- A reader that is returned is in order.
pub data OrderedIf : Result IndexedReader → Type 0 where
  holds : (r : IndexedReader) → IsOrdered r → OrderedIf (ok r)
  fails : (e : McapError) → OrderedIf (err e)
  panics : OrderedIf panic
  sticks : OrderedIf stuck

chunk_le_total :
    (order : ReadOrder) (a b : ChunkIndex) → chunk_le order a b ≡ false → chunk_le order b a ≡ true
unfolding chunk_le
chunk_le_total by_file a b h = ground arith
chunk_le_total by_log_time a b h =
    lex_le_total (a.message_start_time ∷ a.chunk_start_offset ∷ [])
      (b.message_start_time ∷ b.chunk_start_offset ∷ []) h
chunk_le_total by_reverse_log_time a b h =
    lex_le_total (b.message_end_time ∷ b.chunk_start_offset ∷ [])
      (a.message_end_time ∷ a.chunk_start_offset ∷ []) h

chunk_le_trans :
    (order : ReadOrder) (a b c : ChunkIndex)
    → chunk_le order a b ≡ true
    → chunk_le order b c ≡ true
    → chunk_le order a c ≡ true
unfolding chunk_le
chunk_le_trans by_file a b c h k = ground arith
chunk_le_trans by_log_time a b c h k =
    lex_le_trans (a.message_start_time ∷ a.chunk_start_offset ∷ [])
      (b.message_start_time ∷ b.chunk_start_offset ∷ [])
      (c.message_start_time ∷ c.chunk_start_offset ∷ []) h k
chunk_le_trans by_reverse_log_time a b c h k =
    lex_le_trans (c.message_end_time ∷ c.chunk_start_offset ∷ [])
      (b.message_end_time ∷ b.chunk_start_offset ∷ [])
      (a.message_end_time ∷ a.chunk_start_offset ∷ []) k h

abbrev sorted_reader : List ChunkIndex → ReadOrder → Filter → Option ℕ → IndexedReader
sorted_reader cs order filter limit = record {
  chunk_indexes = sort_by (chunk_le order) cs;
  cur_chunk_index = 0;
  chunk_slots = [];
  message_indexes = [];
  cur_message_index = 0;
  order = order;
  filter = filter;
  record_length_limit = limit;
}

sorted_reader-IsOrdered :
    (cs : List ChunkIndex) (order : ReadOrder) (filter : Filter) (limit : Option ℕ)
    → IsOrdered (sorted_reader cs order filter limit)
sorted_reader-IsOrdered cs order filter limit = record {
  unread_sorted = tt;
  chunks_sorted =
      sort_by-IsSorted (chunk_le order) (chunk_le_total order) (chunk_le_trans order) cs;
  in_slots = tt;
  inside = omega arith;
}

pub new_with_options-OrderedIf :
    (summary : Summary) (o : IndexedReaderOptions) → OrderedIf (new_with_options summary o)
unfolding new_with_options
new_with_options-OrderedIf summary o =
    go (check_offsets used) (check_sizes (sort_by (chunk_le o.order) used) o.record_length_limit)
  where
    filter : Filter
    filter = record {
      start = o.start;
      end = o.end;
      channel_ids = channel_ids_of o.include_topics summary.channels;
    }

    used : List ChunkIndex
    used = used_chunks filter summary.chunk_indexes

    go :
        (x y : Result (Unit {0}))
        → OrderedIf
            (x >>= λ _. y >>= λ _. ok (sorted_reader used o.order filter o.record_length_limit))
    go (ok _) (ok _) = holds _ (sorted_reader-IsOrdered used o.order filter o.record_length_limit)
    go (ok _) (err e) = fails e
    go (ok _) panic = panics
    go (ok _) stuck = sticks
    go (err e) y = fails e
    go panic y = panics
    go stuck y = sticks

-- The same places of chunks.
pub record SameStarts (slots slots' : List ChunkSlot) : Type 0 where
  pub same_length : length slots' ≡ length slots
  pub same_start : (i : ℕ) → data_start_of (slot_at slots' i) ≡ data_start_of (slot_at slots i)

message_le-SameStarts :
    (slots slots' : List ChunkSlot) (order : ReadOrder) (a b : MessageIndex)
    → SameStarts slots slots'
    → message_le slots order a b ≡ true
    → message_le slots' order a b ≡ true
unfolding message_le message_key
message_le-SameStarts slots slots' by_file a b s h =
    rw (s.same_start a.chunk_slot_idx, s.same_start b.chunk_slot_idx) h
message_le-SameStarts slots slots' by_log_time a b s h =
    rw (s.same_start a.chunk_slot_idx, s.same_start b.chunk_slot_idx) h
message_le-SameStarts slots slots' by_reverse_log_time a b s h =
    rw (s.same_start a.chunk_slot_idx, s.same_start b.chunk_slot_idx) h

pub set_slot-SameStarts :
    (slots : List ChunkSlot) (i : ℕ) (f : ChunkSlot → ChunkSlot)
    → ((s : ChunkSlot) → (f s).data_start ≡ s.data_start)
    → SameStarts slots (set_slot slots i f)
unfolding set_slot slot_at data_start_of
set_slot-SameStarts slots i f h = record {
  same_length = len slots i;
  same_start = λ j. start slots i j;
}
  where
    len : (slots : List ChunkSlot) (i : ℕ) → length (set_slot slots i f) ≡ length slots
    len [] i = refl
    len (s ∷ slots) zero = refl
    len (s ∷ slots) (suc i) = ap suc (len slots i)

    start :
        (slots : List ChunkSlot) (i j : ℕ)
        → data_start_of (slot_at (set_slot slots i f) j) ≡ data_start_of (slot_at slots j)
    start [] i j = refl
    start (s ∷ slots) zero zero = h s
    start (s ∷ slots) zero (suc j) = refl
    start (s ∷ slots) (suc i) zero = refl
    start (s ∷ slots) (suc i) (suc j) = start slots i j

data Counts (slots : List ChunkSlot) : Result (List ChunkSlot) → Type 0 where
  counts : (ss : List ChunkSlot) → SameStarts slots ss → Counts slots (ok ss)
  counts_err : (e : McapError) → Counts slots (err e)
  counts_panic : Counts slots panic
  counts_stuck : Counts slots stuck

SameStarts-cons :
    (s s' : ChunkSlot) (ss ss' : List ChunkSlot)
    → s'.data_start ≡ s.data_start
    → SameStarts ss ss'
    → SameStarts (s ∷ ss) (s' ∷ ss')
unfolding slot_at data_start_of
SameStarts-cons s s' ss ss' e h = record { same_length = ap suc h.same_length; same_start = start }
  where
    start : (i : ℕ) → data_start_of (slot_at (s' ∷ ss') i) ≡ data_start_of (slot_at (s ∷ ss) i)
    start zero = e
    start (suc i) = h.same_start i

Counts-count_down :
    (checks : Bool) (slots : List ChunkSlot) (i : ℕ) → Counts slots (count_down checks slots i)
unfolding count_down
Counts-count_down checks [] i = counts_panic
Counts-count_down checks (s ∷ slots) zero = go (sub_u64 checks s.message_count 1)
  where
    go :
        (r : Result ℕ) → Counts (s ∷ slots) (r >>= λ n. ok (record s { message_count = n } ∷ slots))
    go (ok n) = counts _ (
        SameStarts-cons s (record s { message_count = n }) slots slots refl
          (record { same_length = refl; same_start = λ i. refl }))
    go (err e) = counts_err e
    go panic = counts_panic
    go stuck = counts_stuck
Counts-count_down checks (s ∷ slots) (suc i) = go _ (Counts-count_down checks slots i)
  where
    go :
        (r : Result (List ChunkSlot))
        → Counts slots r
        → Counts (s ∷ slots) (r >>= λ slots'. ok (s ∷ slots'))
    go r (counts ss h) = counts _ (SameStarts-cons s s slots ss refl h)
    go r (counts_err e) = counts_err e
    go r counts_panic = counts_panic
    go r counts_stuck = counts_stuck

-- Slots that start at the same places keep the order.
pub SameStarts-IsOrdered :
    (r : IndexedReader) (slots : List ChunkSlot)
    → SameStarts r.chunk_slots slots
    → IsOrdered r
    → IsOrdered (record r { chunk_slots = slots })
SameStarts-IsOrdered r slots s o = record {
  unread_sorted =
      IsSorted-weaken _ _ (λ a b h. message_le-SameStarts r.chunk_slots slots r.order a b s h) _
        o.unread_sorted;
  chunks_sorted = o.chunks_sorted;
  in_slots = All-weaken _ _ r.message_indexes (λ m h. omega (arith, s.same_length)) o.in_slots;
  inside = o.inside;
}

-- The next message is no more unread.
advance-IsOrdered :
    (r : IndexedReader)
    → r.cur_message_index < length r.message_indexes
    → IsOrdered r
    → IsOrdered (record r { cur_message_index = suc r.cur_message_index })
advance-IsOrdered r lt o = record {
  unread_sorted =
      subst (λ (l : List MessageIndex). IsSorted (message_le r.chunk_slots r.order) l)
        (drop-drop r.cur_message_index 1 r.message_indexes
          ∙ ap (λ (n : ℕ). drop n r.message_indexes) next)
        (IsSorted-drop _ 1 (drop r.cur_message_index r.message_indexes) o.unread_sorted);
  chunks_sorted = o.chunks_sorted;
  in_slots = o.in_slots;
  inside = omega arith;
}
  where
    next : r.cur_message_index + 1 ≡ suc r.cur_message_index
    next = omega arith

message_at-lt :
    (ms : List MessageIndex) (i : ℕ) (m : MessageIndex) → message_at ms i ≡ some m → i < length ms
unfolding message_at
message_at-lt [] i m e = absurd (cc e)
message_at-lt (x ∷ ms) zero m e = omega arith
message_at-lt (x ∷ ms) (suc i) m e = omega (arith, message_at-lt ms i m e)

pub next_event-IsOrdered :
    (checks : Bool) (r : IndexedReader) → IsOrdered r → IsOrdered (next_event checks r).1
unfolding next_event next_event_at message_or_chunk yield_message request
next_event-IsOrdered checks r o =
    at (message_at r.message_indexes r.cur_message_index) refl
      (chunk_at r.chunk_indexes r.cur_chunk_index)
  where
    requested : (chunk : Option ChunkIndex) → IsOrdered (request checks r chunk).1
    requested none = o
    requested (some c) = o

    counted :
        (msg : MessageHeader × Bytes) (slots : Result (List ChunkSlot))
        → r.cur_message_index < length r.message_indexes
        → Counts r.chunk_slots slots
        → IsOrdered (yielded checks r msg slots).1
    counted msg slots lt (counts ss h) =
        SameStarts-IsOrdered (record r { cur_message_index = suc r.cur_message_index }) ss h
          (advance-IsOrdered r lt o)
    counted msg slots lt (counts_err e) = o
    counted msg slots lt counts_panic = o
    counted msg slots lt counts_stuck = o

    given :
        (m : MessageIndex) (msg : Result (MessageHeader × Bytes))
        → r.cur_message_index < length r.message_indexes
        → IsOrdered (yield_message checks r m msg).1
    given m (ok msg) lt = counted msg _ lt (Counts-count_down checks r.chunk_slots m.chunk_slot_idx)
    given m (err e) lt = o
    given m panic lt = o
    given m stuck lt = o

    first :
        (chunk : Option ChunkIndex) (m : MessageIndex) (b : Result Bool)
        → r.cur_message_index < length r.message_indexes
        → IsOrdered (message_or_chunk checks r chunk m b).1
    first chunk m (ok true) lt = requested chunk
    first chunk m (ok false) lt = given m _ lt
    first chunk m (err e) lt = o
    first chunk m panic lt = o
    first chunk m stuck lt = o

    at :
        (found : Option MessageIndex)
        → message_at r.message_indexes r.cur_message_index ≡ found
        → (chunk : Option ChunkIndex) → IsOrdered (next_event_at checks r found chunk).1
    at none e chunk = requested chunk
    at (some m) e chunk = first chunk m _ (message_at-lt r.message_indexes r.cur_message_index m e)
