-- ===== src/IndexedReader/Insertion.antt =====
-- The order in which an indexed reader keeps its messages and chunks: the insertion of a chunk.
use mcap.Prelude.{
  ℕ, zero, suc, ◌+◌, ◌≤◌, ◌<◌, ◌≡◌, refl, sym, ap, ◌∙◌, Bool, true, false, not, Option, none, some,
  List, [], ◌∷◌, ◌++◌, arith, length, take, drop, ltb, leb, ◌==◌, if◌then◌else◌, All, length-append,
  length-take, drop-append, drop-drop,
}
use mathlib.Core.Path.{subst}
use mcap.Error.{Bytes, Result, ok, err, panic, stuck, ◌>>=◌, unexpected_chunk_data_inserted}
use mcap.Records.{ChunkIndex}
use mcap.Sorting.{IsSorted, IsSorted-drop, All-weaken, All-drop}
use mcap.IndexedReader.{MessageIndex, ChunkSlot, IndexedReader, chunk_le, find_or_make_chunk_slot}
use mcap.IndexedReader.Indexing.{slot_at, message_le, index_messages}
use mcap.IndexedReader.Events.{
  Decompress, insert_chunk_record_data, insert_found, find_chunk, decompressed, set_slot,
  clear_exhausted, compact, take_chunk, without,
}
use mcap.IndexedReader.Found.{found}
use mcap.IndexedReader.Ordered.{Indexes, refused, indexed, index_messages-Indexes}
use mcap.IndexedReader.Invariant.{
  IsOrdered, OrderedIf, holds, fails, panics, sticks, SameStarts-IsOrdered, set_slot-SameStarts,
}

compact-IsOrdered : (r : IndexedReader) (n : ℕ) → IsOrdered r → IsOrdered (compact r n)
unfolding compact
compact-IsOrdered r n o = go (ltb n r.cur_message_index)
  where
    go :
        (b : Bool)
        → IsOrdered (
            if b
            then record r {
              message_indexes = drop r.cur_message_index r.message_indexes;
              cur_message_index = 0;
            }
            else r)
    go true = record {
      unread_sorted = o.unread_sorted;
      chunks_sorted = o.chunks_sorted;
      in_slots = All-drop _ r.cur_message_index r.message_indexes o.in_slots;
      inside = omega arith;
    }
    go false = o

without-IsSorted :
    (le : ChunkIndex → ChunkIndex → Bool) (n k : ℕ) (cs : List ChunkIndex)
    → n ≤ k
    → IsSorted le (drop n cs)
    → IsSorted le (drop n (without cs k))
unfolding without
without-IsSorted le zero k cs h s = from cs k s
  where
    All-without :
        (P : ChunkIndex → Type 0) (cs : List ChunkIndex) (k : ℕ) → All P cs → All P (without cs k)
    All-without P [] k h = tt
    All-without P (c ∷ cs) zero h = h.1
    All-without P (c ∷ cs) (suc k) h = (h.0, All-without P cs k h.1)

    from : (cs : List ChunkIndex) (k : ℕ) → IsSorted le cs → IsSorted le (without cs k)
    from [] k s = tt
    from (c ∷ cs) zero s = s.1
    from (c ∷ cs) (suc k) s = (All-without _ cs k s.0, from cs k s.1)
without-IsSorted le (suc n) k [] h s = tt
without-IsSorted le (suc n) zero (c ∷ cs) h s = absurd (omega arith)
without-IsSorted le (suc n) (suc k) (c ∷ cs) h s = without-IsSorted le n k cs (omega arith) s

take_chunk-IsOrdered : (r : IndexedReader) (i : ℕ) → IsOrdered r → IsOrdered (take_chunk r i)
unfolding take_chunk
take_chunk-IsOrdered r zero o = record {
  unread_sorted = o.unread_sorted;
  chunks_sorted =
      subst (λ (l : List ChunkIndex). IsSorted (chunk_le r.order) l)
        (drop-drop r.cur_chunk_index 1 r.chunk_indexes
          ∙ ap (λ (n : ℕ). drop n r.chunk_indexes) next)
        (IsSorted-drop _ 1 (drop r.cur_chunk_index r.chunk_indexes) o.chunks_sorted);
  in_slots = o.in_slots;
  inside = o.inside;
}
  where
    next : r.cur_chunk_index + 1 ≡ suc r.cur_chunk_index
    next = omega arith
take_chunk-IsOrdered r (suc i) o = record {
  unread_sorted = o.unread_sorted;
  chunks_sorted =
      without-IsSorted (chunk_le r.order) r.cur_chunk_index (r.cur_chunk_index + suc i)
        r.chunk_indexes (omega arith) o.chunks_sorted;
  in_slots = o.in_slots;
  inside = o.inside;
}

abbrev cleared : IndexedReader → Bool → IndexedReader
cleared r b = if b then record r { message_indexes = []; cur_message_index = 0 } else r

cleared-IsOrdered : (r : IndexedReader) (b : Bool) → IsOrdered r → IsOrdered (cleared r b)
cleared-IsOrdered r true o = record {
  unread_sorted = tt;
  chunks_sorted = o.chunks_sorted;
  in_slots = tt;
  inside = omega arith;
}
cleared-IsOrdered r false o = o

-- The chunk is indexed in its slot.
indexed-OrderedIf :
    (r : IndexedReader) (idx i : ℕ) (slots : List ChunkSlot) (slot : ChunkSlot)
    → IsOrdered r
    → length r.chunk_slots ≤ length slots
    → slot_at slots idx ≡ some slot
    → OrderedIf (
        index_messages idx slots r.order r.filter r.message_indexes r.cur_message_index
          r.record_length_limit
        >>= λ indexed. ok (
            take_chunk
              (compact
                (record r {
                  message_indexes = indexed.1;
                  chunk_slots = set_slot slots idx (λ s. record s { message_count = indexed.0 });
                })
                indexed.0)
              i))
indexed-OrderedIf r idx i slots slot o more at = go _ _ (
    index_messages-Indexes slots idx slot r.order r.filter r.message_indexes r.cur_message_index
      r.record_length_limit at
      (All-weaken _ _ r.message_indexes (λ m h. omega (arith, more)) o.in_slots) o.inside)
  where
    go :
        (f : Result (List MessageIndex)) (g : Result (ℕ × List MessageIndex))
        → Indexes slots r.order r.cur_message_index r.message_indexes f g
        → OrderedIf (
            g >>= λ indexed. ok (
              take_chunk
                (compact
                  (record r {
                    message_indexes = indexed.1;
                    chunk_slots = set_slot slots idx (λ s. record s { message_count = indexed.0 });
                  })
                  indexed.0)
                i))
    go f g (refused e) = fails e
    go f g (indexed ms unread sorted perm there) = holds _ (
        take_chunk-IsOrdered _ i (
          compact-IsOrdered _ (length ms) (
            SameStarts-IsOrdered
              (record r {
                message_indexes = take r.cur_message_index r.message_indexes ++ unread;
                chunk_slots = slots;
              })
              _ (set_slot-SameStarts slots idx _ (λ s. refl))
              (record {
                unread_sorted =
                    subst (λ (l : List MessageIndex). IsSorted (message_le slots r.order) l)
                      (sym (behind unread)) sorted;
                chunks_sorted = o.chunks_sorted;
                in_slots = there;
                inside = omega (
                  arith,
                  o.inside,
                  length-append (take r.cur_message_index r.message_indexes) unread,
                  length-take r.cur_message_index r.message_indexes o.inside,
                );
              }))))
      where
        behind :
            (unread : List MessageIndex)
            → drop r.cur_message_index (take r.cur_message_index r.message_indexes ++ unread)
              ≡ unread
        behind unread =
            ap (λ (n : ℕ). drop n (take r.cur_message_index r.message_indexes ++ unread))
              (sym (length-take r.cur_message_index r.message_indexes o.inside))
            ∙ drop-append (take r.cur_message_index r.message_indexes) unread

slot_at-lt :
    (slots : List ChunkSlot) (i : ℕ)
    → i < length slots
    → (slot : ChunkSlot) × (slot_at slots i ≡ some slot)
unfolding slot_at
slot_at-lt [] i h = absurd (omega arith)
slot_at-lt (s ∷ slots) zero h = (s, refl)
slot_at-lt (s ∷ slots) (suc i) h = slot_at-lt slots i (omega arith)

-- The slot is there, and no slot is lost.
find_or_make_chunk_slot-there :
    (slots : List ChunkSlot) (start : ℕ)
    → let (slots', idx) = find_or_make_chunk_slot slots start in
      (idx < length slots') × (length slots ≤ length slots')
unfolding find_or_make_chunk_slot
find_or_make_chunk_slot-there [] start = (omega arith, omega arith)
find_or_make_chunk_slot-there (s ∷ slots) start =
    go (s.message_count == 0) (find_or_make_chunk_slot slots start)
      (find_or_make_chunk_slot-there slots start)
  where
    go :
        (b : Bool) (x : List ChunkSlot × ℕ)
        → (x.1 < length x.0) × (length slots ≤ length x.0)
        → let y : List ChunkSlot × ℕ =
            if b
            then (record s { buf = []; data_start = start } ∷ slots, 0)
            else (s ∷ x.0, suc x.1) in
          (y.1 < length y.0) × (suc (length slots) ≤ length y.0)
    go true x h = (omega arith, omega arith)
    go false x h = (omega (arith, h.0), omega (arith, h.1))

module _ (libraries : Decompress) where
  insert_found-OrderedIf :
      (r : IndexedReader) (offset : ℕ) (compressed : Bytes) (found : Option (ℕ × ChunkIndex))
      → IsOrdered r
      → OrderedIf (insert_found libraries r offset compressed found)
  unfolding insert_found clear_exhausted
  insert_found-OrderedIf r offset compressed none o = fails _
  insert_found-OrderedIf r offset compressed (some (i, c)) o =
      go (length compressed == c.compressed_size)
        (decompressed libraries c.compression compressed c.uncompressed_size)
    where
      slots : List ChunkSlot
      slots = (find_or_make_chunk_slot r.chunk_slots offset).0

      idx : ℕ
      idx = (find_or_make_chunk_slot r.chunk_slots offset).1

      filled : Bytes → List ChunkSlot
      filled bytes = set_slot slots idx (λ s. record s { buf = bytes })

      inserted : IndexedReader → Bytes → Result IndexedReader
      inserted r' bytes =
          index_messages idx (filled bytes) r.order r.filter r'.message_indexes r'.cur_message_index
            r.record_length_limit
          >>= λ indexed. ok (
              take_chunk
                (compact
                  (record r' {
                    message_indexes = indexed.1;
                    chunk_slots =
                        set_slot (filled bytes) idx (λ s. record s { message_count = indexed.0 });
                  })
                  indexed.0)
                i)

      there : (idx < length slots) × (length r.chunk_slots ≤ length slots)
      there = find_or_make_chunk_slot-there r.chunk_slots offset

      cleared_first : (bytes : Bytes) (b : Bool) → OrderedIf (inserted (cleared r b) bytes)
      cleared_first bytes b =
          let same = set_slot-SameStarts slots idx (λ s. record s { buf = bytes }) (λ s. refl) in
          let at = slot_at-lt (filled bytes) idx (omega (arith, same.same_length, there.0)) in
          at_slot b at.0 at.1 (omega (arith, same.same_length, there.1))
        where
          at_slot :
              (b : Bool) (slot : ChunkSlot)
              → slot_at (filled bytes) idx ≡ some slot
              → length r.chunk_slots ≤ length (filled bytes)
              → OrderedIf (inserted (cleared r b) bytes)
          at_slot true slot at more =
              indexed-OrderedIf (cleared r true) idx i (filled bytes) slot
                (cleared-IsOrdered r true o) more at
          at_slot false slot at more = indexed-OrderedIf r idx i (filled bytes) slot o more at

      then_inserted : (x : Result Bytes) → OrderedIf (x >>= inserted (clear_exhausted r))
      then_inserted (ok bytes) =
          cleared_first bytes (leb (length r.message_indexes) r.cur_message_index)
      then_inserted (err e) = fails e
      then_inserted panic = panics
      then_inserted stuck = sticks

      go :
          (b : Bool) (x : Result Bytes)
          → OrderedIf (
              if not b
              then err unexpected_chunk_data_inserted
              else (x >>= inserted (clear_exhausted r)))
      go true x = then_inserted x
      go false x = fails _

  pub insert_chunk_record_data-OrderedIf :
      (r : IndexedReader) (offset : ℕ) (compressed : Bytes)
      → IsOrdered r
      → OrderedIf (insert_chunk_record_data libraries r offset compressed)
  unfolding insert_chunk_record_data
  insert_chunk_record_data-OrderedIf r offset compressed o =
      go (ltb (length r.chunk_indexes) r.cur_chunk_index)
        (find_chunk (drop r.cur_chunk_index r.chunk_indexes) offset)
    where
      go :
          (b : Bool) (x : Result (Option (ℕ × ChunkIndex)))
          → OrderedIf (
              if b
              then panic
              else (x >>= λ found. insert_found libraries r offset compressed found))
      go true x = panics
      go false (ok found) = insert_found-OrderedIf r offset compressed found o
      go false (err e) = fails e
      go false panic = panics
      go false stuck = sticks
