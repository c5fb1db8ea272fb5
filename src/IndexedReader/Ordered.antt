-- ===== src/IndexedReader/Ordered.antt =====
-- The order of what `index_messages` leaves unread.
use mcap.Prelude.{
  ℕ, zero, suc, ◌+◌, ◌-◌, ◌≤◌, ◌<◌, ◌≡◌, refl, sym, Bool, true, false, not, Option, some, List, [],
  ◌∷◌, ◌++◌, append-nil, arith, length, take, drop, if◌then◌else◌, max, All, length-append,
  length-drop, length-take, take-append, drop-append, take-append_le, drop-append_le, lt→ltb,
  le→leb, All-append,
}
use mathlib.Core.List.{Perm, perm_middle}
use mathlib.Core.List.Perm
use mathlib.Core.Path.{subst}
use mcap.Error.{Result, ok, err, ◌>>=◌, McapError}
use mcap.Sorting.{
  All-take, All-sort_by, lex_le, lex_le_total, lex_le_trans, sort_by, IsSorted, sort_by-IsSorted,
  Perm-sort_by, length-sort_by, All-weaken, All-both, All-drop,
}
use mcap.IndexedReader.{
  ReadOrder, by_file, by_log_time, by_reverse_log_time, MessageIndex, ChunkSlot, Filter, is_empty,
}
use mcap.IndexedReader.Indexing.{
  Indexing, is_by_file, slot_at, data_start_of, message_key, message_le, reverse_onto, turned,
  has_slots, sort_from, ordered_by, indexed_in, index_messages,
}
use mcap.IndexedReader.Found.{found, Ascends, Enters, Loops, fails, ends, index_loop-Loops}

module _ (slots : List ChunkSlot) where
  message_le_total :
      (order : ReadOrder) (a b : MessageIndex)
      → message_le slots order a b ≡ false
      → message_le slots order b a ≡ true
  unfolding message_le
  message_le_total by_file a b h =
      lex_le_total (message_key slots by_file a) (message_key slots by_file b) h
  message_le_total by_log_time a b h =
      lex_le_total (message_key slots by_log_time a) (message_key slots by_log_time b) h
  message_le_total by_reverse_log_time a b h =
      lex_le_total (message_key slots by_reverse_log_time b)
        (message_key slots by_reverse_log_time a) h

  message_le_trans :
      (order : ReadOrder) (a b c : MessageIndex)
      → message_le slots order a b ≡ true
      → message_le slots order b c ≡ true
      → message_le slots order a c ≡ true
  unfolding message_le
  message_le_trans by_file a b c h k =
      lex_le_trans (message_key slots by_file a) (message_key slots by_file b)
        (message_key slots by_file c) h k
  message_le_trans by_log_time a b c h k =
      lex_le_trans (message_key slots by_log_time a) (message_key slots by_log_time b)
        (message_key slots by_log_time c) h k
  message_le_trans by_reverse_log_time a b c h k =
      lex_le_trans (message_key slots by_reverse_log_time c)
        (message_key slots by_reverse_log_time b) (message_key slots by_reverse_log_time a) k h

  -- The new messages, as they are turned.
  unfoldable turned_messages : ReadOrder → List MessageIndex → List MessageIndex
  turned_messages by_reverse_log_time ms = reverse_onto ms []
  turned_messages _ ms = ms

  turned-append :
      (order : ReadOrder) (old ms : List MessageIndex)
      → turned order (length old) (old ++ ms) ≡ old ++ turned_messages order ms
  unfolding turned turned_messages
  turned-append by_file old ms = refl
  turned-append by_log_time old ms = refl
  turned-append by_reverse_log_time old ms =
      λ i. take-append old ms i ++ reverse_onto (drop-append old ms i) []

  Perm-reverse_onto : (ms acc : List MessageIndex) → Perm (reverse_onto ms acc) (ms ++ acc)
  unfolding reverse_onto
  Perm-reverse_onto [] acc = Perm.refl acc
  Perm-reverse_onto (m ∷ ms) acc = Perm.trans (Perm-reverse_onto ms (m ∷ acc)) (perm_middle ms acc)

  Perm-turned_messages :
      (order : ReadOrder) (ms : List MessageIndex) → Perm (turned_messages order ms) ms
  unfolding turned_messages
  Perm-turned_messages by_file ms = Perm.refl ms
  Perm-turned_messages by_log_time ms = Perm.refl ms
  Perm-turned_messages by_reverse_log_time ms =
      subst (λ (l : List MessageIndex). Perm (reverse_onto ms []) l) (append-nil ms)
        (Perm-reverse_onto ms [])

  length-reverse_onto :
      (ms acc : List MessageIndex) → length (reverse_onto ms acc) ≡ length ms + length acc
  unfolding reverse_onto
  length-reverse_onto [] acc = omega arith
  length-reverse_onto (m ∷ ms) acc = omega (arith, length-reverse_onto ms (m ∷ acc))

  length-turned_messages :
      (order : ReadOrder) (ms : List MessageIndex) → length (turned_messages order ms) ≡ length ms
  unfolding turned_messages
  length-turned_messages by_file ms = refl
  length-turned_messages by_log_time ms = refl
  length-turned_messages by_reverse_log_time ms = omega (arith, length-reverse_onto ms [])

  All-reverse_onto :
      (P : MessageIndex → Type 0) (ms acc : List MessageIndex)
      → All P ms
      → All P acc
      → All P (reverse_onto ms acc)
  unfolding reverse_onto
  All-reverse_onto P [] acc h k = k
  All-reverse_onto P (m ∷ ms) acc h k = All-reverse_onto P ms (m ∷ acc) h.1 (h.0, k)

  All-turned_messages :
      (P : MessageIndex → Type 0) (order : ReadOrder) (ms : List MessageIndex)
      → All P ms
      → All P (turned_messages order ms)
  unfolding turned_messages
  All-turned_messages P by_file ms h = h
  All-turned_messages P by_log_time ms h = h
  All-turned_messages P by_reverse_log_time ms h = All-reverse_onto P ms [] h tt

  -- A sorted list in reverse is sorted the other way round.
  IsSorted-reverse_onto :
      (le : MessageIndex → MessageIndex → Bool) (ms acc : List MessageIndex)
      → IsSorted le ms
      → IsSorted (λ a b. le b a) acc
      → All (λ a. All (λ b. le b a ≡ true) acc) ms
      → IsSorted (λ a b. le b a) (reverse_onto ms acc)
  unfolding reverse_onto
  IsSorted-reverse_onto le [] acc h k s = k
  IsSorted-reverse_onto le (m ∷ ms) acc h k s =
      IsSorted-reverse_onto le ms (m ∷ acc) h.1 (s.0, k)
        (All-both (λ a. le m a ≡ true) (λ a. All (λ b. le b a ≡ true) acc) ms h.0 s.1)

  module _ (chunk_slot_idx : ℕ) where
    -- Two messages of a chunk, the first at a lower offset and, if time counts, not later.
    abbrev Precedes : Bool → MessageIndex → MessageIndex → Type 0
    Precedes b x y = (suc x.offset ≤ y.offset) × (b ≡ false → x.log_time ≤ y.log_time)

    later :
        (b : Bool) (t o : ℕ) (ms : List MessageIndex)
        → Ascends b t o ms
        → All (λ x. (o ≤ x.offset) × (b ≡ false → t ≤ x.log_time)) ms
    later b t o [] a = tt
    later b t o (m ∷ ms) a = (
      (a.0, a.1),
      All-weaken _ _ ms (λ x h. (omega (arith, h.0, a.0), λ e. omega (arith, h.1 e)))
          (later b (max t m.log_time) (suc m.offset) ms a.2),
    )

    IsSorted-Ascends :
        (b : Bool) (le : MessageIndex → MessageIndex → Bool)
        → ((x y : MessageIndex)
            → x.chunk_slot_idx ≡ chunk_slot_idx
            → y.chunk_slot_idx ≡ chunk_slot_idx
            → Precedes b x y
            → le x y ≡ true)
        → (t o : ℕ) (ms : List MessageIndex) → All (λ m. m.chunk_slot_idx ≡ chunk_slot_idx) ms
        → Ascends b t o ms
        → IsSorted le ms
    IsSorted-Ascends b le f t o [] s a = tt
    IsSorted-Ascends b le f t o (m ∷ ms) s a = (
      All-weaken _ _ ms (λ y h. f m y s.0 h.0 (h.1.0, λ e. omega (arith, h.1.1 e)))
          (All-both _ _ ms s.1 (later b (max t m.log_time) (suc m.offset) ms a.2)),
      IsSorted-Ascends b le f (max t m.log_time) (suc m.offset) ms s.1 a.2,
    )

    by_file-le :
        (x y : MessageIndex)
        → x.chunk_slot_idx ≡ chunk_slot_idx
        → y.chunk_slot_idx ≡ chunk_slot_idx
        → Precedes true x y
        → message_le slots by_file x y ≡ true
    unfolding message_le message_key lex_le
    by_file-le x y h k p = rw (h, k) (go (data_start_of (slot_at slots chunk_slot_idx)) p.0)
      where
        go :
            (start : ℕ)
            → suc x.offset ≤ y.offset
            → lex_le (start ∷ x.offset ∷ []) (start ∷ y.offset ∷ []) ≡ true
        go start lt = ground arith

    by_log_time-le :
        (x y : MessageIndex)
        → x.chunk_slot_idx ≡ chunk_slot_idx
        → y.chunk_slot_idx ≡ chunk_slot_idx
        → Precedes false x y
        → message_le slots by_log_time x y ≡ true
    unfolding message_le message_key lex_le
    by_log_time-le x y h k p =
        rw (h, k) (go (data_start_of (slot_at slots chunk_slot_idx)) p.0 (p.1 refl))
      where
        go :
            (start : ℕ)
            → suc x.offset ≤ y.offset
            → x.log_time ≤ y.log_time
            → lex_le (x.log_time ∷ start ∷ x.offset ∷ []) (y.log_time ∷ start ∷ y.offset ∷ [])
              ≡ true
        go start lt le = ground arith

    -- The new messages are in order if no sorting is required.
    IsSorted-turned_messages :
        (order : ReadOrder) (t o : ℕ) (ms : List MessageIndex)
        → All (λ m. m.chunk_slot_idx ≡ chunk_slot_idx) ms
        → Ascends (is_by_file order) t o ms
        → IsSorted (message_le slots order) (turned_messages order ms)
    unfolding turned_messages is_by_file message_le message_key
    IsSorted-turned_messages by_file t o ms s a = IsSorted-Ascends true _ by_file-le t o ms s a
    IsSorted-turned_messages by_log_time t o ms s a =
        IsSorted-Ascends false _ by_log_time-le t o ms s a
    IsSorted-turned_messages by_reverse_log_time t o ms s a =
        IsSorted-reverse_onto (message_le slots by_log_time) ms []
          (IsSorted-Ascends false _ by_log_time-le t o ms s a) tt (nothing ms)
      where
        nothing :
            (ms : List MessageIndex)
            → All (λ a. All (λ b. message_le slots by_log_time b a ≡ true) []) ms
        nothing [] = tt
        nothing (m ∷ ms) = (tt, nothing ms)

  has_slots-All :
      (ms : List MessageIndex)
      → All (λ m. m.chunk_slot_idx < length slots) ms
      → has_slots slots ms ≡ true
  unfolding has_slots
  has_slots-All [] h = refl
  has_slots-All (m ∷ ms) h =
      rw (lt→ltb m.chunk_slot_idx (length slots) h.0, has_slots-All ms h.1) refl

  module _ (order : ReadOrder) (cur : ℕ) (old : List MessageIndex) where
    -- The messages of the chunk, and what the indexes are with them: what is unread is sorted.
    pub data Indexes : Result (List MessageIndex) → Result (ℕ × List MessageIndex) → Type 0 where
      refused : (e : McapError) → Indexes (err e) (err e)
      indexed :
          (ms unread : List MessageIndex)
          → IsSorted (message_le slots order) unread
          → Perm unread (drop cur old ++ ms)
          → All (λ m. m.chunk_slot_idx < length slots) (take cur old ++ unread)
          → Indexes (ok ms) (ok (length ms, take cur old ++ unread))

    in_slots :
        (ms : List MessageIndex)
        → All (λ m. m.chunk_slot_idx < length slots) old
        → All (λ m. m.chunk_slot_idx < length slots) ms
        → All (λ m. m.chunk_slot_idx < length slots) (drop cur old ++ turned_messages order ms)
    in_slots ms h k =
        All-append _ (drop cur old) (turned_messages order ms) (All-drop _ cur old h)
          (All-turned_messages _ order ms k)

    Indexes-sort_from :
        (ms : List MessageIndex)
        → cur ≤ length old
        → All (λ m. m.chunk_slot_idx < length slots) old
        → All (λ m. m.chunk_slot_idx < length slots) ms
        → Indexes (ok ms) (
            sort_from slots order cur (old ++ turned_messages order ms) >>= λ ms'.
            ok (length ms' - length old, ms'))
    unfolding sort_from
    Indexes-sort_from ms le h k =
        rw
          (
            drop-append_le cur old new le,
            take-append_le cur old new le,
            le→leb cur (length (old ++ new)) (omega (arith, length-append old new, le)),
            has_slots-All unread (in_slots ms h k),
          )
          (subst (λ (n : ℕ). Indexes (ok ms) (ok (n, take cur old ++ sorted))) (sym count)
            (indexed ms sorted
              (sort_by-IsSorted (message_le slots order) (message_le_total order)
                (message_le_trans order) unread)
              (Perm.trans (Perm-sort_by (message_le slots order) unread)
                (Perm.append_left (drop cur old) (Perm-turned_messages order ms)))
              (All-append _ (take cur old) sorted (All-take _ cur old h)
                (All-sort_by (message_le slots order) _ unread (in_slots ms h k)))))
      where
        new : List MessageIndex
        new = turned_messages order ms

        unread : List MessageIndex
        unread = drop cur old ++ new

        sorted : List MessageIndex
        sorted = sort_by (message_le slots order) unread

        count : length (take cur old ++ sorted) - length old ≡ length ms
        count = omega (
          arith,
          length-append (take cur old) sorted,
          length-take cur old le,
          length-sort_by (message_le slots order) unread,
          length-append (drop cur old) new,
          length-drop cur old,
          length-turned_messages order ms,
          le,
        )

  Indexes-unsorted :
      (order : ReadOrder) (cur : ℕ) (old : List MessageIndex) (idx : ℕ) (ms : List MessageIndex)
      (t o : ℕ)
      → cur ≤ length old
      → old ≡ []
      → All (λ m. m.chunk_slot_idx ≡ idx) ms
      → Ascends (is_by_file order) t o ms
      → All (λ m. m.chunk_slot_idx < length slots) ms
      → Indexes order cur old (ok ms) (
          ok (
            length (old ++ turned_messages order ms) - length old,
            old ++ turned_messages order ms,
          ))
  Indexes-unsorted order cur old idx ms t o le e s a k =
      subst
        (λ (l : List MessageIndex).
          cur ≤ length l
          → Indexes order cur l (ok ms) (
              ok
                (length (l ++ turned_messages order ms) - length l, l ++ turned_messages order ms)))
        (sym e) (base cur) le
    where
      new : List MessageIndex
      new = turned_messages order ms

      count : length new - 0 ≡ length ms
      count = omega (arith, length-turned_messages order ms)

      base : (n : ℕ) → n ≤ 0 → Indexes order n [] (ok ms) (ok (length new - 0, new))
      base zero h =
          subst (λ (n : ℕ). Indexes order 0 [] (ok ms) (ok (n, new))) (sym count)
            (indexed ms new (IsSorted-turned_messages idx order t o ms s a)
              (Perm-turned_messages order ms) (All-turned_messages _ order ms k))
      base (suc n) h = absurd (omega arith)

  slot_at-lt :
      (ss : List ChunkSlot) (i : ℕ) (slot : ChunkSlot) → slot_at ss i ≡ some slot → i < length ss
  unfolding slot_at
  slot_at-lt [] i slot e = absurd (cc e)
  slot_at-lt (s ∷ ss) zero slot e = omega arith
  slot_at-lt (s ∷ ss) (suc i) slot e = omega (arith, slot_at-lt ss i slot e)

  not_empty : (l : List MessageIndex) → not (is_empty l) ≡ false → l ≡ []
  unfolding is_empty
  not_empty [] e = refl
  not_empty (m ∷ l) e = absurd (cc e)

  -- For a chunk in its slot, and indexes of messages in slots, read up to a place among them,
  -- `index_messages` fails with the error that reading the chunk gives, or enters all the messages
  -- of the chunk that the filter lets through: what is unread afterwards is a permutation of these
  -- and of what was unread, in the order of the reader by time, place of the chunk and offset,
  -- whether the code sorts it or not; what was read stays.
  pub index_messages-Indexes :
      (idx : ℕ) (slot : ChunkSlot) (order : ReadOrder) (filter : Filter) (old : List MessageIndex)
      (cur : ℕ) (limit : Option ℕ)
      → slot_at slots idx ≡ some slot
      → All (λ m. m.chunk_slot_idx < length slots) old
      → cur ≤ length old
      → Indexes order cur old
          (found idx filter (suc (length slot.buf)) slot.buf limit 0)
          (index_messages idx slots order filter old cur limit)
  unfolding index_messages indexed_in ordered_by
  index_messages-Indexes idx slot order filter old cur limit at h le = rw at (
      go _ _ (
        index_loop-Loops idx filter order (suc (length slot.buf)) slot.buf limit before
          (omega arith) (omega arith)))
    where
      before : Indexing
      before = record {
        offset = 0;
        sorting_required = not (is_empty old);
        latest_timestamp = 0;
        message_indexes = old;
      }

      there :
          (ms : List MessageIndex)
          → All (λ m. m.chunk_slot_idx ≡ idx) ms
          → All (λ m. m.chunk_slot_idx < length slots) ms
      there ms s = All-weaken _ _ ms (λ m same. omega (arith, same, slot_at-lt slots idx slot at)) s

      sorted_if :
          (b : Bool) (st : Indexing) (ms : List MessageIndex)
          → st.sorting_required ≡ b
          → Enters idx filter order before st ms
          → Indexes order cur old (ok ms) (
              (if b
                then sort_from slots order cur (turned order (length old) st.message_indexes)
                else ok (turned order (length old) st.message_indexes))
              >>= λ ms'. ok (length ms' - length old, ms'))
      sorted_if true st ms e q =
          rw (q.entered, turned-append order old ms)
            (Indexes-sort_from order cur old ms le h (
              All-weaken _ _ ms (λ m same. omega (arith, same, slot_at-lt slots idx slot at))
                q.same_slot))
      sorted_if false st ms e q =
          rw (q.entered, turned-append order old ms)
            (Indexes-unsorted order cur old idx ms 0 0 le (not_empty old (q.still e)) q.same_slot
              (q.ascending e) (there ms q.same_slot))

      go :
          (f : Result (List MessageIndex)) (g : Result Indexing)
          → Loops idx filter order before f g
          → Indexes order cur old f (g >>= λ st. ordered_by slots order cur (length old) st)
      go f g (fails e) = refused e
      go f g (ends ms st q) = sorted_if st.sorting_required st ms refl q
