-- ===== src/Mapped/Requests.antt =====
-- `next` over a file of records, with the requests that it serves.
use mcap.Prelude.{
  ℕ, zero, suc, ◌+◌, ◌^◌, ◌≤◌, ◌<◌, ◌≡◌, refl, sym, ap, ◌∙◌, min, Bool, false, none, some, List, [],
  ◌∷◌, ◌++◌, append_assoc, arith, length, take, drop, ◌==◌, length-take, length-drop,
}
use mathlib.Core.Path.{subst}
use mcap.Error.{Bytes, Result, ok, ◌>>=◌}
use mcap.Io.{Crc32}
use mcap.RwBuf
use mcap.RwBuf.Laws
use mcap.Records.{Record, Footer, into_owned}
use mcap.Records.Decode.{get_footer}
use mcap.Read.{parse_record}
use mcap.Decompressor.{Decompressor}
use mcap.LinearEvents.{record_read}
use mcap.Step.{Outcome, go_on, leave, rounds}
use mcap.LinearReader.{LinearReader, insert, write_received, notify_read}
use mcap.LinearReader.Moves.{Event}
use mcap.LinearReader.Stream.{Framed, IsReady, Tells, asks, gives, ends}
use mcap.LinearReader.Stream.Run.{next_event-Tells}
use mcap.Mapped.{
  InnerReader, Item, served, on_served, on_event, next_round, next, collected, collect,
}

-- The front and the rest of some bytes.
take-drop : (n : ℕ) (xs : Bytes) → take n xs ++ drop n xs ≡ xs
take-drop zero xs = refl
take-drop (suc n) [] = refl
take-drop (suc n) (x ∷ xs) = ap (λ (l : Bytes). x ∷ l) (take-drop n xs)

abbrev pub map {ℓ κ} : {A : Type ℓ} {B : Type κ} → (A → B) → List A → List B
map f [] = []
map f (x ∷ xs) = f x ∷ map f xs

-- What a record is read as.
abbrev pub parsed : Crc32 → ℕ × Bytes → Result Record
parsed c (op, body) = parse_record c.hash op body >>= λ r. ok (into_owned r)

module _ (c : Crc32) (d : Decompressor) (limit : ℕ) (last : Bytes) (checks : Bool) where
  -- The reader after it got `n` bytes of what is still to come.
  received : LinearReader c d → Bytes → ℕ → LinearReader c d
  received s buf n = record s {
    file_data = Laws.appended c (RwBuf.tail_with_size c s.file_data n) (take n buf);
  }

  served_ok :
      (s : LinearReader c d) (buf : Bytes) (n : ℕ) (out : Framed)
      → IsReady c d limit last buf out s
      → 0 < n
      → n ≤ length buf
      → served c d checks buf s n ≡ ok (record { buf = drop n buf; reader = received s buf n })
        × IsReady c d limit last (drop n buf) out (received s buf n)
  unfolding served insert write_received notify_read received
  served_ok s buf n out g pos le = (
    rw (whole, marked, not_zero n pos) refl,
    record {
      file_valid = grown.valid;
      no_hasher = grown.same_hasher ∙ kept.same_hasher ∙ g.no_hasher;
      limit_set = g.limit_set;
      emits_chunks = g.emits_chunks;
      reads_start = g.reads_start;
      reads_end = g.reads_end;
      ends_there = g.ends_there;
      no_summary_crc = g.no_summary_crc;
      not_at_eof = g.not_at_eof;
      ahead =
          subst
            (λ (p : Bytes).
              mcap.LinearReader.Stream.Expects c d limit last s.currently_reading p out)
            (sym pending) g.ahead;
    },
  )
    where
      whole : min (length buf) n ≡ n
      whole = omega (arith, le)

      size : length (take n buf) ≡ n
      size = length-take n buf le

      kept : Laws.Keeps c s.file_data (RwBuf.tail_with_size c s.file_data n) n
      kept = Laws.tail_with_size-Keeps c n g.file_valid

      room : length (take n buf) ≤ length (RwBuf.unwritten c (RwBuf.tail_with_size c s.file_data n))
      room = omega (arith, size, kept.place)

      grown :
          Laws.Grows c
            (RwBuf.tail_with_size c s.file_data n)
            (Laws.appended c (RwBuf.tail_with_size c s.file_data n) (take n buf))
            (take n buf)
      grown = Laws.appended-Grows c (take n buf) kept.valid room

      marked :
          RwBuf.mark_written c
            (RwBuf.write_tail c (RwBuf.tail_with_size c s.file_data n) (take n buf))
            n
          ≡ ok (Laws.appended c (RwBuf.tail_with_size c s.file_data n) (take n buf))
      marked =
          ap
            (RwBuf.mark_written c
              (RwBuf.write_tail c (RwBuf.tail_with_size c s.file_data n) (take n buf)))
            (sym size)
          ∙ Laws.mark_written_ok c (take n buf) kept.valid room

      not_zero : (k : ℕ) → 0 < k → (k == 0) ≡ false
      not_zero k h = ground (arith, h)

      pending :
          RwBuf.unread c (Laws.appended c (RwBuf.tail_with_size c s.file_data n) (take n buf))
            ++ drop n buf
          ≡ RwBuf.unread c s.file_data ++ buf
      pending =
          ap (λ (l : Bytes). l ++ drop n buf)
            (grown.more ∙ ap (λ (l : Bytes). l ++ take n buf) kept.same_unread)
          ∙ append_assoc (RwBuf.unread c s.file_data) (take n buf) (drop n buf)
          ∙ ap (λ (l : Bytes). RwBuf.unread c s.file_data ++ l) (take-drop n buf)

  -- an iterator in front of the records `out`
  abbrev pub IsBefore : Framed → InnerReader c d checks → Type 0
  IsBefore out r = IsReady c d limit last r.buf out r.reader

  -- What `next` does in front of `out`: the next record, or the end.
  abbrev pub Yields : Framed → ℕ → Item c d checks × InnerReader c d checks → Type 0
  Yields [] k (x, r) = x ≡ none
  Yields (p ∷ out) k (x, r) = (x ≡ some (parsed c p)) × IsBefore out r × (length r.buf ≤ k)

  module _ (m : limit + 9 < 2 ^ 64) (l : length last ≤ limit) (f : Footer × Bytes)
      (read : get_footer last ≡ ok f) (event_fuel : ℕ) (four : 4 ≤ event_fuel) where
    Yields-le :
        (out : Framed) (k k' : ℕ) (q : Item c d checks × InnerReader c d checks)
        → k ≤ k'
        → Yields out k q
        → Yields out k' q
    Yields-le [] k k' q le y = y
    Yields-le (p ∷ out) k k' q le y = (y.0, y.1, omega (arith, y.2, le))

    Yields-rounds :
        (fuel : ℕ) (r : InnerReader c d checks) (out : Framed)
        → IsBefore out r
        → length r.buf < fuel
        → Yields out (length r.buf) (rounds (next_round c d checks event_fuel) fuel r)
    unfolding rounds next_round on_event on_served
    Yields-rounds zero r out g lt = absurd (omega arith)
    Yields-rounds (suc fuel) r out g lt =
        go _ _
          (next_event-Tells c d limit last checks m l f read event_fuel r.reader r.buf out g four)
          (λ r' g' less. Yields-rounds fuel r' out g' (omega arith))
      where
        more :
            Outcome (InnerReader c d checks) (Item c d checks) (Unit {0})
            → Item c d checks × InnerReader c d checks
        more o = elim o [
          | go_on _ r' ↦ rounds (next_round c d checks event_fuel) fuel r'
          | leave e r' ↦ (e, r')
        ]

        go :
            (e : Event) (s : LinearReader c d)
            → Tells c d limit last r.buf out e s
            → ((r' : InnerReader c d checks)
                → IsBefore out r'
                → length r'.buf < length r.buf
                → Yields out (length r'.buf) (rounds (next_round c d checks event_fuel) fuel r'))
            → Yields out (length r.buf) (more (on_event c d checks r.buf (e, s)))
        go e s (ends _ o) ih =
            subst
              (λ (q : Framed). Yields q (length r.buf) (more (on_event c d checks r.buf (none, s))))
              (sym o) refl
        go e s (gives op body out' _ o ready) ih =
            subst
              (λ (q : Framed).
                Yields q (length r.buf)
                  (more (on_event c d checks r.buf (some (ok (record_read op body)), s))))
              (sym o) (refl, ready, omega arith)
        go e s (asks n _ pos le ready) ih =
            let (e', ready') = served_ok s r.buf n out ready pos le in
            subst
              (λ (q : Result (InnerReader c d checks)).
                Yields out (length r.buf)
                  (more (on_served c d checks (record { buf = r.buf; reader = s }) q)))
              (sym e')
              (Yields-le out (length (drop n r.buf)) (length r.buf) _
                (omega (arith, length-drop n r.buf))
                (ih (record { buf = drop n r.buf; reader = received s r.buf n }) ready'
                  (omega (arith, length-drop n r.buf, pos, le))))

    -- `next` yields the next record, or the end.
    pub Yields-next :
        (fuel : ℕ) (r : InnerReader c d checks) (out : Framed)
        → IsBefore out r
        → length r.buf < fuel
        → Yields out (length r.buf) (next c d checks event_fuel fuel r)
    unfolding next
    Yields-next fuel r out g lt = Yields-rounds fuel r out g lt

    pub collect-parsed :
        (n fuel : ℕ) (r : InnerReader c d checks) (out : Framed)
        → IsBefore out r
        → length r.buf < fuel
        → length out < n
        → collect c d checks event_fuel fuel n r ≡ map (parsed c) out
    unfolding collect
    collect-parsed zero fuel r out g lt enough = absurd (omega arith)
    collect-parsed (suc n) fuel r [] g lt enough = ended _ (Yields-next fuel r [] g lt)
      where
        ended :
            (q : Item c d checks × InnerReader c d checks)
            → q.0 ≡ none
            → collected c d checks q (collect c d checks event_fuel fuel n) ≡ []
        ended q e =
            unfold collected in
            ap
              (λ (x : Item c d checks).
                collected c d checks (x, q.1) (collect c d checks event_fuel fuel n))
              e
    collect-parsed (suc n) fuel r (p ∷ out) g lt enough =
        go _ (Yields-next fuel r (p ∷ out) g lt)
          (λ r' g' le. collect-parsed n fuel r' out g' (omega arith) (omega arith))
      where
        go :
            (q : Item c d checks × InnerReader c d checks)
            → Yields (p ∷ out) (length r.buf) q
            → ((r' : InnerReader c d checks)
                → IsBefore out r'
                → length r'.buf ≤ length r.buf
                → collect c d checks event_fuel fuel n r' ≡ map (parsed c) out)
            → collected c d checks q (collect c d checks event_fuel fuel n)
              ≡ parsed c p ∷ map (parsed c) out
        go (x, r') (e, g', le) ih =
            unfold collected in
            (ap
                (λ (y : Item c d checks).
                  collected c d checks (y, r') (collect c d checks event_fuel fuel n))
                e
              ∙ ap (λ (t : List (Result Record)). parsed c p ∷ t) (ih r' g' le))
