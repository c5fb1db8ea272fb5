-- ===== src/RwBuf/Queue.antt =====
-- `RwBuf` and the queue of the bytes that it holds.
use mcap.Prelude.{
  ℕ, ◌+◌, ◌-◌, ◌≤◌, ◌<◌, ◌≡◌, refl, ap, ◌∙◌, Bool, true, false, Option, List, [], ◌∷◌, ◌++◌, arith,
  length, take, drop, leb, if◌then◌else◌, All, max, ◌*◌, ◌&&◌, ltb, inl, inr, Bool-cases,
  ltb_false→le, le→leb, lt→leb_false,
}
use native.Mathlib.Decide.{dec_lt}
use mcap.Error.{Bytes, Result, ok, panic, ◌>>=◌}
use mcap.Io.{Crc32}
use mcap.RwBuf
use mcap.RwBuf.{RwBuf, len, unread, unwritten}
use mcap.RwBuf.Laws.{
  IsValid, after, hashed, after-IsValid, unread-after, length-unread, consume_ok,
  consume_without_hashing_ok, tail_with_size-Keeps, appended-Grows, mark_written_ok, clear-IsValid,
  length-resize,
}

-- What the reader does with its buffers.
pub data Op : Type 0 where
  -- `insert` of a place for `n` bytes, then `notify_read` of those that were written to it
  receive : ℕ → Bytes → Op
  consume consume_without_hashing : ℕ → Op
  clear : Op

-- The queue: a reader takes what is asked for from the front, and panics where there is less.
unfoldable pub take_front : Bytes → ℕ → Result (Bytes × Bytes)
take_front q n = if leb n (length q) then ok (take n q, drop n q) else panic

unfoldable pub queue_step : Bytes → Op → Result (Bytes × Bytes)
unfolding take_front
queue_step q (receive n got) = ok ([], q ++ got)
queue_step q (consume n) = take_front q n
queue_step q (consume_without_hashing n) = take_front q n
queue_step q clear = ok ([], [])

unfoldable pub queue_run : Bytes → List Op → Result (List Bytes)
unfolding queue_step
queue_run q [] = ok []
queue_run q (op ∷ ops) = queue_step q op >>= λ r. queue_run r.1 ops >>= λ outs. ok (r.0 ∷ outs)

-- No more is written to a place than it has room for.
abbrev pub Fits : Op → Type 0
Fits (receive n got) = length got ≤ n
Fits (consume n) = Unit
Fits (consume_without_hashing n) = Unit
Fits clear = Unit

module _ (c : Crc32) where
  unfoldable pub buf_step : RwBuf c → Op → Result (Bytes × RwBuf c)
  unfolding RwBuf.tail_with_size RwBuf.write_tail RwBuf.mark_written RwBuf.consume
      RwBuf.consume_without_hashing RwBuf.clear
  buf_step b (receive n got) =
      RwBuf.mark_written c (RwBuf.write_tail c (RwBuf.tail_with_size c b n) got) (length got)
      >>= λ b'. ok ([], b')
  buf_step b (consume n) = RwBuf.consume c b n
  buf_step b (consume_without_hashing n) = RwBuf.consume_without_hashing c b n
  buf_step b clear = ok ([], RwBuf.clear c b)

  unfoldable pub buf_run : RwBuf c → List Op → Result (List Bytes)
  unfolding buf_step
  buf_run b [] = ok []
  buf_run b (op ∷ ops) = buf_step b op >>= λ r. buf_run r.1 ops >>= λ outs. ok (r.0 ∷ outs)

  -- A step of the buffer and the same step of the queue of its bytes.
  data Simulates : Result (Bytes × RwBuf c) → Result (Bytes × Bytes) → Type 0 where
    both_panic : Simulates panic panic
    both_ok :
        (out : Bytes) (b : RwBuf c) (q : Bytes)
        → IsValid c b
        → unread c b ≡ q
        → Simulates (ok (out, b)) (ok (out, q))

  Simulates-front :
      (b : RwBuf c) (n : ℕ) (h : Option c.Hasher) (r : Result (Bytes × RwBuf c))
      → IsValid c b
      → (n ≤ len c b → r ≡ ok (take n (unread c b), after c b n h))
      → (len c b < n → r ≡ panic)
      → Simulates r (take_front (unread c b) n)
  unfolding take_front
  Simulates-front b n h r v fits short = rw (length-unread c v) (elim (dec_lt (len c b) n) [
    | yes p ↦ rw (short p, lt→leb_false n (len c b) p) both_panic
    | no p ↦
        let le : n ≤ len c b = omega arith in
        rw (fits le, le→leb n (len c b) le)
          (both_ok _ _ _ (after-IsValid c n h v le) (unread-after c b n h))
  ])

  consume_short : (b : RwBuf c) (n : ℕ) → len c b < n → RwBuf.consume c b n ≡ panic
  unfolding RwBuf.consume RwBuf.mark_read len
  consume_short b n h = rw (lt→leb_false n (b.end - b.start) h) refl

  without_short : (b : RwBuf c) (n : ℕ) → len c b < n → RwBuf.consume_without_hashing c b n ≡ panic
  unfolding RwBuf.consume_without_hashing len
  without_short b n h = rw (lt→leb_false n (b.end - b.start) h) refl

  Simulates-step :
      (b : RwBuf c) (op : Op)
      → IsValid c b
      → Fits op
      → Simulates (buf_step b op) (queue_step (unread c b) op)
  unfolding buf_step queue_step
  Simulates-step b (receive n got) v fits =
      let k = tail_with_size-Keeps c n v in
      let room : length got ≤ length (unwritten c (RwBuf.tail_with_size c b n)) =
        omega (arith, k.place) in
      let g = appended-Grows c got k.valid room in
      rw (mark_written_ok c got k.valid room)
        (both_ok _ _ _ g.valid (g.more ∙ ap (λ (l : Bytes). l ++ got) k.same_unread))
  Simulates-step b (consume n) v fits =
      Simulates-front b n (hashed c b n) _ v (consume_ok c b n) (consume_short b n)
  Simulates-step b (consume_without_hashing n) v fits =
      Simulates-front b n b.hasher _ v (consume_without_hashing_ok c b n) (without_short b n)
  Simulates-step b clear v fits = both_ok _ _ _ (clear-IsValid c b) refl

  Simulates-run :
      (r : Result (Bytes × RwBuf c)) (q : Result (Bytes × Bytes)) (ops : List Op)
      → Simulates r q
      → ((b : RwBuf c) → IsValid c b → buf_run b ops ≡ queue_run (unread c b) ops)
      → (r >>= λ x. buf_run x.1 ops >>= λ outs. ok (x.0 ∷ outs))
        ≡ (q >>= λ x. queue_run x.1 ops >>= λ outs. ok (x.0 ∷ outs))
  Simulates-run r q ops both_panic ih = refl
  Simulates-run r q ops (both_ok out b q' v e) ih =
      ap (λ (t : Result (List Bytes)). t >>= λ outs. ok (out ∷ outs))
        (ih b v ∙ ap (λ (l : Bytes). queue_run l ops) e)

  -- On a buffer with its cursors in order, any receives that fit, consumes and clears return what
  -- the queue of its unread bytes returns, panics at the same places included.
  pub buf_run_refines :
      (b : RwBuf c) (ops : List Op)
      → IsValid c b
      → All Fits ops
      → buf_run b ops ≡ queue_run (unread c b) ops
  unfolding buf_run queue_run
  buf_run_refines b [] v fits = refl
  buf_run_refines b (op ∷ ops) v fits =
      Simulates-run _ _ ops (Simulates-step b op v fits.0)
        (λ b' v'. buf_run_refines b' ops v' fits.1)

  -- What is in front of the cursors is moved away before it exceeds 4096 bytes and what is unread.
  end-compact :
      (b : RwBuf c) → IsValid c b → (RwBuf.compact c b).end ≤ max (2 * len c b) (4096 + len c b)
  unfolding RwBuf.compact len
  end-compact b v = elim (Bool-cases (ltb 4096 b.start && ltb (b.end - b.start) b.start)) [
    | inl e ↦ rw e (omega arith)
    | inr e ↦ rw e (near (ltb 4096 b.start) (ltb (b.end - b.start) b.start) refl refl e)
  ]
    where
      near :
          (p q : Bool)
          → ltb 4096 b.start ≡ p
          → ltb (b.end - b.start) b.start ≡ q
          → (p && q) ≡ false
          → b.end ≤ max (2 * (b.end - b.start)) (4096 + (b.end - b.start))
      near false q hp hq e = omega (arith, ltb_false→le 4096 b.start hp, v.ordered)
      near true false hp hq e = omega (arith, ltb_false→le (b.end - b.start) b.start hq, v.ordered)
      near true true hp hq e = absurd (cc e)

  -- After `tail_with_size` for `n` bytes a buffer whose cursors are in order is at most `n` bytes
  -- longer than the greater of twice its unread bytes and these and 4096.
  pub length-tail_with_size :
      (b : RwBuf c) (n : ℕ)
      → IsValid c b
      → length (RwBuf.tail_with_size c b n).body ≤ max (2 * len c b) (4096 + len c b) + n
  unfolding RwBuf.tail_with_size
  length-tail_with_size b n v =
      omega (
        arith,
        end-compact b v,
        length-resize ((RwBuf.compact c b).end + n) (RwBuf.compact c b).body,
      )
