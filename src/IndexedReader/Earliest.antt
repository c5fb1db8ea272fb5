-- ===== src/IndexedReader/Earliest.antt =====
-- The message that `next_event` of the indexed reader yields, among those that are to come.
use mcap.Prelude.{
  ℕ, zero, suc, ◌≤◌, ◌≡◌, refl, sym, ap, Bool, true, false, Option, none, some, List, [], ◌∷◌,
  arith, drop, All, ltb_false→le,
}
use mathlib.Core.Path.{subst}
use mcap.Error.{Bytes, Result, ok, err, panic, stuck, ◌>>=◌}
use mcap.Records.{ChunkIndex, MessageHeader, compressed_data_offset}
use mcap.Summary.{Summary}
use mcap.LinearReader.Options.{check_len}
use mcap.Sorting.{lex_le, IsSorted, All-weaken}
use mcap.IndexedReader.{
  ReadOrder, by_file, by_log_time, by_reverse_log_time, MessageIndex, ChunkSlot, IndexedReader,
  IndexedReaderOptions, message_read, chunk_le, new_with_options,
}
use mcap.IndexedReader.Indexing.{slot_at, data_start_of, message_key, message_le}
use mcap.IndexedReader.Events.{
  Decompress, expect_offset, requested, chunk_request, next_event, next_event_at, message_or_chunk,
  chunk_first, yield_chunk_first, request, yield_message, yielded, message_at, chunk_at,
  insert_chunk_record_data, read_message,
}
use mcap.IndexedReader.Insertion.{insert_chunk_record_data-OrderedIf}
use mcap.IndexedReader.Invariant.{
  IsOrdered, OrderedIf, holds, fails, panics, sticks, new_with_options-OrderedIf,
  next_event-IsOrdered,
}

-- A time that is not behind another one in the order.
abbrev pub NotBehind : ReadOrder → ℕ → ℕ → Type 0
NotBehind by_log_time t u = t ≤ u
NotBehind by_reverse_log_time t u = u ≤ t
NotBehind by_file t u = Unit

-- the time of a chunk that no message of it comes before
abbrev pub bound : ReadOrder → ChunkIndex → ℕ
bound by_reverse_log_time c = c.message_end_time
bound _ c = c.message_start_time

-- The message that is read is in the place of the next one, and none to come is before it.
pub record IsNext (r : IndexedReader) (header : MessageHeader) (bytes : Bytes) : Type 0 where
  pub message : MessageIndex
  pub in_place : message_at r.message_indexes r.cur_message_index ≡ some message
  pub is_read :
      read_message (slot_at r.chunk_slots message.chunk_slot_idx) message r.record_length_limit
      ≡ ok (header, bytes)
  pub no_message_before :
      All
        (λ m. NotBehind r.order message.log_time m.log_time)
        (drop r.cur_message_index r.message_indexes)
  pub no_chunk_before :
      All
        (λ c. NotBehind r.order message.log_time (bound r.order c))
        (drop r.cur_chunk_index r.chunk_indexes)

lex_le-head : (x y : ℕ) (xs ys : List ℕ) → lex_le (x ∷ xs) (y ∷ ys) ≡ true → x ≤ y
unfolding lex_le
lex_le-head x y xs ys h = ground arith

NotBehind-message_le :
    (slots : List ChunkSlot) (order : ReadOrder) (a b : MessageIndex)
    → message_le slots order a b ≡ true
    → NotBehind order a.log_time b.log_time
unfolding message_le message_key
NotBehind-message_le slots by_file a b h = tt
NotBehind-message_le slots by_log_time a b h =
    lex_le-head a.log_time b.log_time
      (data_start_of (slot_at slots a.chunk_slot_idx) ∷ a.offset ∷ [])
      (data_start_of (slot_at slots b.chunk_slot_idx) ∷ b.offset ∷ []) h
NotBehind-message_le slots by_reverse_log_time a b h =
    lex_le-head b.log_time a.log_time
      (data_start_of (slot_at slots b.chunk_slot_idx) ∷ b.offset ∷ [])
      (data_start_of (slot_at slots a.chunk_slot_idx) ∷ a.offset ∷ []) h

NotBehind-chunk_le :
    (order : ReadOrder) (a b : ChunkIndex)
    → chunk_le order a b ≡ true
    → NotBehind order (bound order a) (bound order b)
unfolding chunk_le
NotBehind-chunk_le by_file a b h = tt
NotBehind-chunk_le by_log_time a b h =
    lex_le-head a.message_start_time b.message_start_time (a.chunk_start_offset ∷ [])
      (b.chunk_start_offset ∷ []) h
NotBehind-chunk_le by_reverse_log_time a b h =
    lex_le-head b.message_end_time a.message_end_time (b.chunk_start_offset ∷ [])
      (a.chunk_start_offset ∷ []) h

NotBehind-refl : (order : ReadOrder) (t : ℕ) → NotBehind order t t
NotBehind-refl by_file t = tt
NotBehind-refl by_log_time t = omega arith
NotBehind-refl by_reverse_log_time t = omega arith

NotBehind-trans :
    (order : ReadOrder) (t u v : ℕ)
    → NotBehind order t u
    → NotBehind order u v
    → NotBehind order t v
NotBehind-trans by_file t u v h k = tt
NotBehind-trans by_log_time t u v h k = omega arith
NotBehind-trans by_reverse_log_time t u v h k = omega arith

-- A chunk that is not loaded first has no message before this one.
NotBehind-yield_chunk_first :
    (order : ReadOrder) (slots : List ChunkSlot) (c : ChunkIndex) (m : MessageIndex)
    → yield_chunk_first order slots c m ≡ ok false
    → NotBehind order m.log_time (bound order c)
unfolding yield_chunk_first
NotBehind-yield_chunk_first by_file slots c m e = tt
NotBehind-yield_chunk_first by_log_time slots c m e =
    ltb_false→le c.message_start_time m.log_time (cc e)
NotBehind-yield_chunk_first by_reverse_log_time slots c m e =
    ltb_false→le m.log_time c.message_end_time (cc e)

drop-message_at :
    (ms : List MessageIndex) (i : ℕ) (m : MessageIndex)
    → message_at ms i ≡ some m
    → drop i ms ≡ m ∷ drop (suc i) ms
unfolding message_at
drop-message_at [] i m e = absurd (cc e)
drop-message_at (x ∷ ms) zero m e = ap (λ (y : MessageIndex). y ∷ ms) (cc e)
drop-message_at (x ∷ ms) (suc i) m e = drop-message_at ms i m e

drop-chunk_at :
    (cs : List ChunkIndex) (i : ℕ) (c : ChunkIndex)
    → chunk_at cs i ≡ some c
    → drop i cs ≡ c ∷ drop (suc i) cs
unfolding chunk_at
drop-chunk_at [] i c e = absurd (cc e)
drop-chunk_at (x ∷ cs) zero c e = ap (λ (y : ChunkIndex). y ∷ cs) (cc e)
drop-chunk_at (x ∷ cs) (suc i) c e = drop-chunk_at cs i c e

drop-no_chunk : (cs : List ChunkIndex) (i : ℕ) → chunk_at cs i ≡ none → drop i cs ≡ []
unfolding chunk_at
drop-no_chunk [] zero e = refl
drop-no_chunk [] (suc i) e = refl
drop-no_chunk (x ∷ cs) zero e = absurd (cc e)
drop-no_chunk (x ∷ cs) (suc i) e = drop-no_chunk cs i e

-- A request is no message.
requested-no_message :
    (c : ChunkIndex) (l : Option ℕ) (header : MessageHeader) (bytes : Bytes)
    → requested c l ≡ ok (message_read header bytes)
    → ⊥
unfolding requested expect_offset
requested-no_message c none header bytes e = absurd (cc e)
requested-no_message c (some len) header bytes e = go (compressed_data_offset c) e
  where
    go :
        (x : Result ℕ)
        → (expect_offset x >>= λ offset. ok (mcap.IndexedReader.read_chunk_request offset len))
          ≡ ok (message_read header bytes)
        → ⊥
    go (ok n) e = absurd (cc e)
    go (err x) e = absurd (cc e)
    go panic e = absurd (cc e)
    go stuck e = absurd (cc e)

OrderedAt : Result IndexedReader → Type 0
OrderedAt (ok r) = IsOrdered r
OrderedAt _ = Unit

IsOrdered-OrderedIf :
    (x : Result IndexedReader) (r : IndexedReader) → OrderedIf x → x ≡ ok r → IsOrdered r
unfolding OrderedAt
IsOrdered-OrderedIf x r h e = subst OrderedAt e (at x h)
  where
    at : (x : Result IndexedReader) → OrderedIf x → OrderedAt x
    at x (holds r o) = o
    at x (fails e) = tt
    at x panics = tt
    at x sticks = tt

module _ (libraries : Decompress) (checks : Bool) where
  -- The readers that calls lead to, from a new one on.
  pub data Reaches : IndexedReader → Type 0 where
    created :
        (summary : Summary) (o : IndexedReaderOptions) (r : IndexedReader)
        → new_with_options summary o ≡ ok r
        → Reaches r
    asked : (r : IndexedReader) → Reaches r → Reaches (next_event checks r).1
    inserted :
        (r r' : IndexedReader) (offset : ℕ) (compressed : Bytes)
        → Reaches r
        → insert_chunk_record_data libraries r offset compressed ≡ ok r'
        → Reaches r'

  Reaches-IsOrdered : (r : IndexedReader) → Reaches r → IsOrdered r
  Reaches-IsOrdered q (created summary o r e) =
      IsOrdered-OrderedIf _ r (new_with_options-OrderedIf summary o) e
  Reaches-IsOrdered q (asked r p) = next_event-IsOrdered checks r (Reaches-IsOrdered r p)
  Reaches-IsOrdered q (inserted r r' offset compressed p e) =
      IsOrdered-OrderedIf _ r'
        (insert_chunk_record_data-OrderedIf libraries r offset compressed (Reaches-IsOrdered r p)) e

  module _ (r : IndexedReader) (header : MessageHeader) (bytes : Bytes) where
    request-no_message :
        (chunk : Option ChunkIndex)
        → (request checks r chunk).0 ≡ some (ok (message_read header bytes))
        → ⊥
    unfolding request chunk_request
    request-no_message none e = absurd (cc e)
    request-no_message (some c) e =
        requested-no_message c (check_len c.compressed_size r.record_length_limit) header bytes
          (cc e)

    yielded-same :
        (msg : MessageHeader × Bytes) (slots : Result (List ChunkSlot))
        → (yielded checks r msg slots).0 ≡ some (ok (message_read header bytes))
        → ok msg ≡ ok (header, bytes)
    unfolding yielded
    yielded-same (header', bytes') (ok slots) e = cc e
    yielded-same msg (err x) e = absurd (cc e)
    yielded-same msg panic e = absurd (cc e)
    yielded-same msg stuck e = absurd (cc e)

    yield_message-same :
        (m : MessageIndex) (msg : Result (MessageHeader × Bytes))
        → (yield_message checks r m msg).0 ≡ some (ok (message_read header bytes))
        → msg ≡ ok (header, bytes)
    unfolding yield_message
    yield_message-same m (ok msg) e = yielded-same msg _ e
    yield_message-same m (err x) e = absurd (cc e)
    yield_message-same m panic e = absurd (cc e)
    yield_message-same m stuck e = absurd (cc e)

    -- The message is yielded only if the chunk does not come first.
    message_or_chunk-same :
        (chunk : Option ChunkIndex) (m : MessageIndex) (b : Result Bool)
        → (message_or_chunk checks r chunk m b).0 ≡ some (ok (message_read header bytes))
        → (b ≡ ok false)
          × (read_message (slot_at r.chunk_slots m.chunk_slot_idx) m r.record_length_limit
              ≡ ok (header, bytes))
    unfolding message_or_chunk
    message_or_chunk-same chunk m (ok true) e = absurd (request-no_message chunk e)
    message_or_chunk-same chunk m (ok false) e = (refl, yield_message-same m _ e)
    message_or_chunk-same chunk m (err x) e = absurd (cc e)
    message_or_chunk-same chunk m panic e = absurd (cc e)
    message_or_chunk-same chunk m stuck e = absurd (cc e)

    unread_behind :
        (m : MessageIndex)
        → IsOrdered r
        → message_at r.message_indexes r.cur_message_index ≡ some m
        → All
            (λ x. NotBehind r.order m.log_time x.log_time)
            (drop r.cur_message_index r.message_indexes)
    unread_behind m o e =
        subst (λ (l : List MessageIndex). All (λ x. NotBehind r.order m.log_time x.log_time) l)
          (sym at)
          (
            NotBehind-refl r.order m.log_time,
            All-weaken _ _ (drop (suc r.cur_message_index) r.message_indexes)
                (λ x h. NotBehind-message_le r.chunk_slots r.order m x h) sorted.0,
          )
      where
        at :
            drop r.cur_message_index r.message_indexes
            ≡ m ∷ drop (suc r.cur_message_index) r.message_indexes
        at = drop-message_at r.message_indexes r.cur_message_index m e

        sorted :
            IsSorted
              (message_le r.chunk_slots r.order)
              (m ∷ drop (suc r.cur_message_index) r.message_indexes)
        sorted =
            subst (λ (l : List MessageIndex). IsSorted (message_le r.chunk_slots r.order) l) at
              o.unread_sorted

    chunks_behind :
        (m : MessageIndex) (chunk : Option ChunkIndex)
        → IsOrdered r
        → chunk_at r.chunk_indexes r.cur_chunk_index ≡ chunk
        → chunk_first r chunk m ≡ ok false
        → All
            (λ c. NotBehind r.order m.log_time (bound r.order c))
            (drop r.cur_chunk_index r.chunk_indexes)
    unfolding chunk_first
    chunks_behind m none o at e =
        subst (λ (l : List ChunkIndex). All (λ c. NotBehind r.order m.log_time (bound r.order c)) l)
          (sym (drop-no_chunk r.chunk_indexes r.cur_chunk_index at)) tt
    chunks_behind m (some c) o at e =
        subst (λ (l : List ChunkIndex). All (λ c. NotBehind r.order m.log_time (bound r.order c)) l)
          (sym here)
          (
            first,
            All-weaken _ _ (drop (suc r.cur_chunk_index) r.chunk_indexes)
                (λ x h.
                  NotBehind-trans r.order m.log_time (bound r.order c) (bound r.order x) first
                    (NotBehind-chunk_le r.order c x h))
                sorted.0,
          )
      where
        here :
            drop r.cur_chunk_index r.chunk_indexes
            ≡ c ∷ drop (suc r.cur_chunk_index) r.chunk_indexes
        here = drop-chunk_at r.chunk_indexes r.cur_chunk_index c at

        first : NotBehind r.order m.log_time (bound r.order c)
        first = NotBehind-yield_chunk_first r.order r.chunk_slots c m e

        sorted : IsSorted (chunk_le r.order) (c ∷ drop (suc r.cur_chunk_index) r.chunk_indexes)
        sorted = subst (λ (l : List ChunkIndex). IsSorted (chunk_le r.order) l) here o.chunks_sorted

    next_event_at-IsNext :
        (found : Option MessageIndex)
        → IsOrdered r
        → message_at r.message_indexes r.cur_message_index ≡ found
        → (next_event_at checks r found (chunk_at r.chunk_indexes r.cur_chunk_index)).0
          ≡ some (ok (message_read header bytes))
        → IsNext r header bytes
    unfolding next_event_at
    next_event_at-IsNext none o at e = absurd (request-no_message _ e)
    next_event_at-IsNext (some m) o at e =
        let same = message_or_chunk-same _ m _ e in
        record {
          message = m;
          in_place = at;
          is_read = same.1;
          no_message_before = unread_behind m o at;
          no_chunk_before = chunks_behind m _ o refl same.0;
        }

    -- For every reader that `new_with_options`, `next_event` and successful calls of
    -- `insert_chunk_record_data` lead to: when `next_event` yields a message, it is the one read
    -- at the next index, and in the reader's order by time no unread message has a time before
    -- that index's, nor does any chunk to come have a bound (its start, or its end in reverse)
    -- before it.
    pub next_event-IsNext :
        Reaches r
        → (next_event checks r).0 ≡ some (ok (message_read header bytes))
        → IsNext r header bytes
    unfolding next_event
    next_event-IsNext p e = next_event_at-IsNext _ (Reaches-IsOrdered r p) refl e
