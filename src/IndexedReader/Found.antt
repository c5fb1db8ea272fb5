-- ===== src/IndexedReader/Found.antt =====
-- The messages of a chunk that a filter lets through, and the loop of `index_messages` that enters them.
use mcap.Prelude.{
  ℕ, zero, suc, ◌+◌, ◌≤◌, ◌<◌, ◌≡◌, refl, sym, ◌∙◌, Bool, true, false, not, ◌&&◌, Option, none,
  some, List, [], ◌∷◌, ◌++◌, append-nil, append_assoc, arith, length, take, drop, ltb, ◌==◌,
  if◌then◌else◌, max, All, length-drop, length-take, inl, inr, Bool-cases, ltb_false→le,
}
use mcap.Error.{
  Bytes, Result, ok, err, panic, stuck, ◌>>=◌, McapError, unexpected_eoc, record_too_large,
}
use mcap.Records.{MessageHeader}
use mcap.Records.Decode.{get_message_header}
use mcap.Bytes.Total.{Reads}
use mcap.Records.Total.{Takes-get_message_header}
use mcap.LinearReader.Options.{check_len, ok_or}
use mcap.LinearReader.Chunks.{split_opcode_length}
use mcap.IndexedReader.{ReadOrder, MessageIndex, Filter}
use mcap.IndexedReader.Indexing.{
  record_at, is_wanted, is_by_file, Indexing, enter_message, index_record, index_loop,
}

-- A record that is read ends inside the chunk.
abbrev pub Within : Bytes → ℕ → Result (ℕ × Bytes) → Type 0
Within chunk_data offset (ok r) = offset + 9 + length r.1 ≤ length chunk_data
Within chunk_data offset (err e) = Unit
Within chunk_data offset panic = ⊥
Within chunk_data offset stuck = ⊥

pub record_at-Within :
    (chunk_data : Bytes) (offset : ℕ) (limit : Option ℕ)
    → Within chunk_data offset (record_at chunk_data offset limit)
unfolding record_at split_opcode_length ok_or
record_at-Within chunk_data offset limit =
    elim (Bool-cases (ltb (length (drop offset chunk_data)) 9)) [
      | inl e ↦ rw e tt
      | inr e ↦ rw e (
          go _ (check_len _ limit) (
            omega (
              arith,
              length-drop offset chunk_data,
              ltb_false→le (length (drop offset chunk_data)) 9 e,
            )))
    ]
  where
    buf : Bytes
    buf = drop 9 (drop offset chunk_data)

    go :
        (h : ℕ × ℕ) (l : Option ℕ)
        → offset + 9 ≤ length chunk_data
        → Within chunk_data offset (
            ok_or l (record_too_large h.0 h.1) >>= λ len.
            if ltb (length buf) len then err unexpected_eoc else ok (h.0, take len buf))
    go h none k = tt
    go h (some len) k = elim (Bool-cases (ltb (length buf) len)) [
      | inl e ↦ rw e tt
      | inr e ↦ rw e (
          omega (
            arith,
            length-take len buf (ltb_false→le (length buf) len e),
            ltb_false→le (length buf) len e,
            length-drop 9 (drop offset chunk_data),
            length-drop offset chunk_data,
          ))
    ]

-- Messages of the chunk at rising offsets, and, where time is what counts, in the order of time.
abbrev pub Ascends : Bool → ℕ → ℕ → List MessageIndex → Type 0
Ascends by_file t o [] = Unit
Ascends by_file t o (m ∷ ms) =
    (o ≤ m.offset)
    × (by_file ≡ false → t ≤ m.log_time)
    × Ascends by_file (max t m.log_time) (suc m.offset) ms

module _ (chunk_slot_idx : ℕ) (filter : Filter) where
  unfoldable pub message_of : ℕ → ℕ × Bytes → Result (List MessageIndex)
  message_of offset (opcode, bytes) =
      if not (opcode == 0x05)
      then ok []
      else (get_message_header bytes >>= λ msg. ok (
          if is_wanted filter msg.0
          then record {
            chunk_slot_idx = chunk_slot_idx;
            log_time = msg.0.log_time;
            offset = offset;
          }
            ∷ []
          else []))

  unfoldable pub found : ℕ → Bytes → Option ℕ → ℕ → Result (List MessageIndex)
  unfolding message_of
  found zero chunk_data limit offset = stuck
  found (suc fuel) chunk_data limit offset =
      if ltb offset (length chunk_data)
      then (record_at chunk_data offset limit >>= λ r. message_of offset r >>= λ ms.
          found fuel chunk_data limit (offset + 9 + length r.1) >>= λ rest. ok (ms ++ rest))
      else ok []

  module _ (order : ReadOrder) where
    -- What the loop does to its variables as it enters these messages.
    pub record Enters (st st' : Indexing) (ms : List MessageIndex) : Type 0 where
      pub entered : st'.message_indexes ≡ st.message_indexes ++ ms
      pub same_slot : All (λ m. m.chunk_slot_idx ≡ chunk_slot_idx) ms
      pub still : st'.sorting_required ≡ false → st.sorting_required ≡ false
      pub ascending :
          st'.sorting_required ≡ false → Ascends (is_by_file order) st.latest_timestamp st.offset ms

    pub data Loops (st : Indexing) : Result (List MessageIndex) → Result Indexing → Type 0 where
      fails : (e : McapError) → Loops st (err e) (err e)
      ends :
          (ms : List MessageIndex) (st' : Indexing) → Enters st st' ms → Loops st (ok ms) (ok st')

    Ascends-lower :
        (b : Bool) (t o o' : ℕ) (ms : List MessageIndex)
        → o ≤ o'
        → Ascends b t o' ms
        → Ascends b t o ms
    Ascends-lower b t o o' [] h a = tt
    Ascends-lower b t o o' (m ∷ ms) h a = (omega (arith, a.0), a.1, a.2)

    Loops-skip :
        (st : Indexing) (n : ℕ) (f : Result (List MessageIndex)) (g : Result Indexing)
        → st.offset ≤ n
        → Loops (record st { offset = n }) f g
        → Loops st (f >>= λ rest. ok ([] ++ rest)) g
    Loops-skip st n f g h (fails e) = fails e
    Loops-skip st n f g h (ends ms st' q) = ends ms st' (record {
      entered = q.entered;
      same_slot = q.same_slot;
      still = q.still;
      ascending = λ e. Ascends-lower (is_by_file order) _ st.offset n ms h (q.ascending e);
    })

    required :
        (s b l : Bool)
        → (if not s && not b then l else s) ≡ false
        → (s ≡ false) × (b ≡ false → l ≡ false)
    required true b l e = absurd (cc e)
    required false true l e = (refl, λ k. absurd (cc k))
    required false false l e = (refl, λ k. e)

    Loops-enter :
        (st : Indexing) (m : MessageIndex) (n : ℕ) (f : Result (List MessageIndex))
        (g : Result Indexing)
        → m.chunk_slot_idx ≡ chunk_slot_idx
        → m.offset ≡ st.offset
        → st.offset < n
        → Loops (record (enter_message order m st) { offset = n }) f g
        → Loops st (f >>= λ rest. ok ((m ∷ []) ++ rest)) g
    unfolding enter_message
    Loops-enter st m n f g same at h (fails e) = fails e
    Loops-enter st m n f g same at h (ends ms st' q) =
        let need = λ (e : st'.sorting_required ≡ false).
          required st.sorting_required (is_by_file order) _ (q.still e) in
        ends (m ∷ ms) st' (record {
          entered = q.entered ∙ append_assoc st.message_indexes (m ∷ []) ms;
          same_slot = (same, q.same_slot);
          still = λ e. (need e).0;
          ascending = λ e. (
            omega (arith, at),
            λ b. ltb_false→le m.log_time st.latest_timestamp ((need e).1 b),
            Ascends-lower (is_by_file order) _ (suc m.offset) n ms (omega (arith, at))
                (q.ascending e),
          );
        })

    pub index_loop-Loops :
        (fuel : ℕ) (chunk_data : Bytes) (limit : Option ℕ) (st : Indexing)
        → st.offset ≤ length chunk_data
        → length chunk_data < fuel + st.offset
        → Loops st
            (found fuel chunk_data limit st.offset)
            (index_loop chunk_slot_idx order filter fuel chunk_data limit st)
    unfolding found index_loop message_of index_record
    index_loop-Loops zero chunk_data limit st h k = absurd (omega arith)
    index_loop-Loops (suc fuel) chunk_data limit st h k =
        elim (Bool-cases (ltb st.offset (length chunk_data))) [
          | inl e ↦ rw e (
              go (record_at chunk_data st.offset limit)
                (record_at-Within chunk_data st.offset limit)
                (λ st' h' k'. index_loop-Loops fuel chunk_data limit st' h' k'))
          | inr e ↦ rw e (
              ends [] st (record {
                entered = sym (append-nil st.message_indexes);
                same_slot = tt;
                still = λ q. q;
                ascending = λ q. tt;
              }))
        ]
      where
        Hypothesis : Type 0
        Hypothesis =
            (st' : Indexing)
            → st'.offset ≤ length chunk_data
            → length chunk_data < fuel + st'.offset
            → Loops st' (found fuel chunk_data limit st'.offset)
                (index_loop chunk_slot_idx order filter fuel chunk_data limit st')

        wanted :
            (b : Bool) (msg : MessageHeader) (n : ℕ)
            → st.offset < n
            → n ≤ length chunk_data
            → Hypothesis
            → let m : MessageIndex = record {
              chunk_slot_idx = chunk_slot_idx;
              log_time = msg.log_time;
              offset = st.offset;
            } in
              Loops st
                (found fuel chunk_data limit n >>= λ rest. ok ((if b then m ∷ [] else []) ++ rest))
                (index_loop chunk_slot_idx order filter fuel chunk_data limit
                  (record (if b then enter_message order m st else st) { offset = n }))
        wanted true msg n lt le ih = Loops-enter st _ n _ _ refl refl lt (ih _ le (omega arith))
        wanted false msg n lt le ih = Loops-skip st n _ _ (omega arith) (ih _ le (omega arith))

        decoded :
            (bytes : Bytes)
            → st.offset + 9 + length bytes ≤ length chunk_data
            → Hypothesis
            → (r : Result (MessageHeader × Bytes)) → Reads 22 bytes r
            → Loops st
                ((r >>= λ msg. ok (
                    if is_wanted filter msg.0
                    then record {
                      chunk_slot_idx = chunk_slot_idx;
                      log_time = msg.0.log_time;
                      offset = st.offset;
                    }
                      ∷ []
                    else []))
                  >>= λ ms. found fuel chunk_data limit (st.offset + 9 + length bytes) >>= λ rest.
                      ok (ms ++ rest))
                ((r >>= λ msg.
                    ok
                      (record (if is_wanted filter msg.0
                        then enter_message order
                            (record {
                              chunk_slot_idx = chunk_slot_idx;
                              log_time = msg.0.log_time;
                              offset = st.offset;
                            })
                            st
                        else st) { offset = st.offset + 9 + length bytes }))
                  >>= λ st'. index_loop chunk_slot_idx order filter fuel chunk_data limit st')
        decoded bytes w ih (ok (msg, rest)) t =
            wanted (is_wanted filter msg) msg _ (omega arith) w ih
        decoded bytes w ih (err e) t = fails e
        decoded bytes w ih panic t = elim t [ ]
        decoded bytes w ih stuck t = elim t [ ]

        go :
            (r : Result (ℕ × Bytes))
            → Within chunk_data st.offset r
            → Hypothesis
            → Loops st
                (r >>= λ r. message_of st.offset r >>= λ ms.
                  found fuel chunk_data limit (st.offset + 9 + length r.1) >>= λ rest.
                  ok (ms ++ rest))
                (r >>= λ r. index_record chunk_slot_idx order filter st r >>= λ st'.
                  index_loop chunk_slot_idx order filter fuel chunk_data limit st')
        go (err e) w ih = fails e
        go panic w ih = elim w [ ]
        go stuck w ih = elim w [ ]
        go (ok (opcode, bytes)) w ih = elim (Bool-cases (opcode == 0x05)) [
          | inl e ↦
              rw e
                (decoded bytes w ih (get_message_header bytes) (Takes-get_message_header.at bytes))
          | inr e ↦ rw e (Loops-skip st _ _ _ (omega arith) (ih _ w (omega arith)))
        ]
