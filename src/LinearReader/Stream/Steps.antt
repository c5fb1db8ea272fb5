-- ===== src/LinearReader/Stream/Steps.antt =====
-- The rounds of `next_event` over a file of records.
use mcap.Prelude.{
  ℕ, ◌+◌, ◌^◌, ◌≤◌, ◌<◌, ◌≡◌, ◌≢◌, refl, sym, ap, ◌∙◌, Bool, true, false, ◌&&◌, not, none, [], ◌∷◌,
  ◌++◌, append_assoc, arith, length, ◌==◌, Bool-cases, inl, inr, length-append, All, ==→eq, zero,
  suc, ◌/◌, append-nil,
}
use mathlib.Core.Path.{subst}
use native.Mathlib.Nat.{pow-suc}
use mcap.Error.{Bytes}
use mcap.Bytes.{put_le}
use mcap.HashMap.{bytes_eq, bytes_eq_refl}
use mcap.Io.{Crc32}
use mcap.RwBuf
use mcap.RwBuf.{RwBuf}
use mcap.Summary.{magic}
use mcap.Write
use mcap.Write.{op_and_len}
use mcap.SummaryReader.Footer.{length-op_and_len}
use mcap.Decompressor.{Decompressor}
use mcap.Step.{Outcome}
use mcap.LinearReader.{
  LinearReader, CurrentlyReading, start_magic, file_record, footer, data_end, end_magic,
  after_end_magic,
}
use mcap.LinearReader.Moves.{Event, from_le, opcode_of, length_of, enter, emit, finish}
use mcap.LinearReader.Records.{
  read_start_magic, data_end_found, footer_found, record_found, framed, read_file_record,
  read_end_magic, read_after_end_magic, finalized,
}
use mcap.LinearReader.Stream.{
  Framed, frames, end_of, IsItem, Ahead, Expects, IsReady, Tells, asks, gives, ends,
}
use mcap.LinearReader.Stream.Rules.{
  Does, goes, leaves, Left, Does-load, Does-consume, Does-mark_read, Does-limited, Does-add,
  Does-view, Does-if, Does-test, Does-get, Does-take_hasher,
}

from_le-cons : (k v : ℕ) → from_le (put_le k (v / 256)) ≡ v / 256 → from_le (put_le (suc k) v) ≡ v
unfolding from_le put_le
from_le-cons k v ih = rw ih (ground arith)

pub from_le-put_le : (k v : ℕ) → v < 256 ^ k → from_le (put_le k v) ≡ v
from_le-put_le zero v h = unfold from_le put_le in ground arith
from_le-put_le (suc k) v h =
    from_le-cons k v (from_le-put_le k (v / 256) (omega (arith, pow-suc 256 k)))

pub length_of-op_and_len : (op len : ℕ) → len < 2 ^ 64 → length_of (op_and_len op len) ≡ len
unfolding length_of op_and_len
length_of-op_and_len op len h = from_le-put_le 8 len (omega arith)

pub opcode_of-op_and_len : (op len : ℕ) → opcode_of (op_and_len op len) ≡ op
unfolding opcode_of op_and_len
opcode_of-op_and_len op len = refl

module _ (c : Crc32) (d : Decompressor) (limit : ℕ) (last : Bytes) (checks : Bool) where
  abbrev pub step_rank : CurrentlyReading c d → ℕ
  step_rank start_magic = 3
  step_rank file_record = 2
  step_rank (data_end _ _) = 1
  step_rank (footer _ _) = 1
  step_rank end_magic = 1
  step_rank _ = 0

  abbrev pub Advances : ℕ → Bytes → Framed → Unit {0} → LinearReader c d → Type 0
  Advances n future out u s =
      IsReady c d limit last future out s × (step_rank s.currently_reading < n)

  abbrev pub Round : ℕ → Bytes → Framed → Outcome (LinearReader c d) Event (Unit {0}) → Type 0
  Round n future out = Does c d (Advances n future out) (Tells c d limit last future out)

  -- a reader that has read on, in another state
  pub ready :
      {future : Bytes} {out out' : Framed} {s : LinearReader c d} {b : RwBuf c} {rest : Bytes}
      (r : CurrentlyReading c d)
      → IsReady c d limit last future out s
      → Left c d b future rest
      → Expects c d limit last r rest out'
      → IsReady c d limit last future out' (record s { file_data = b; currently_reading = r })
  ready {future} {out} {out'} r g l x = record {
    file_valid = l.valid;
    no_hasher = l.no_hasher;
    limit_set = g.limit_set;
    emits_chunks = g.emits_chunks;
    reads_start = g.reads_start;
    reads_end = g.reads_end;
    ends_there = g.ends_there;
    no_summary_crc = g.no_summary_crc;
    not_at_eof = g.not_at_eof;
    ahead = subst (λ (p : Bytes). Expects c d limit last r p out') (sym l.pending) x;
  }

  -- in the same state, at the start of a record
  IsReady-here :
      {future : Bytes} {out out' : Framed} {s : LinearReader c d} {b : RwBuf c} {rest : Bytes}
      → s.currently_reading ≡ file_record
      → IsReady c d limit last future out s
      → Left c d b future rest
      → Ahead limit last rest out'
      → IsReady c d limit last future out' (record s { file_data = b })
  IsReady-here {future} {out} {out'} {s} {b} {rest} r g l x = record {
    file_valid = l.valid;
    no_hasher = l.no_hasher;
    limit_set = g.limit_set;
    emits_chunks = g.emits_chunks;
    reads_start = g.reads_start;
    reads_end = g.reads_end;
    ends_there = g.ends_there;
    no_summary_crc = g.no_summary_crc;
    not_at_eof = g.not_at_eof;
    ahead =
        subst (λ (p : Bytes). Expects c d limit last s.currently_reading p out') (sym l.pending)
          (subst (λ (q : CurrentlyReading c d). Expects c d limit last q rest out') (sym r) x);
  }

  pub Round-read_start_magic :
      (s : LinearReader c d) (future : Bytes) (out : Framed)
      → IsReady c d limit last future out s
      → Expects c d limit last start_magic (RwBuf.unread c s.file_data ++ future) out
      → Round 3 future out (read_start_magic c d checks s)
  unfolding read_start_magic enter
  Round-read_start_magic s future out g (rest, e, ahead) = Does-get c d _ s (
      Does-if c d s.options.skip_start_magic false _ _ s g.reads_start (
        Does-consume c d 8 _ s future magic rest g.file_valid g.no_hasher e refl
          (λ k pos le. asks k s pos le g)
          λ b l.
            Does-if c d (bytes_eq magic magic) true _ _ _ (bytes_eq_refl magic)
              (goes tt _ (ready file_record g l ahead, omega arith))))

  pub Round-read_end_magic :
      (s : LinearReader c d) (future : Bytes) (out : Framed)
      → IsReady c d limit last future out s
      → Expects c d limit last end_magic (RwBuf.unread c s.file_data ++ future) out
      → Round 1 future out (read_end_magic c d checks s)
  unfolding read_end_magic enter
  Round-read_end_magic s future out g (e, none_left) = Does-get c d _ s (
      Does-if c d s.options.skip_end_magic false _ _ s g.reads_end (
        Does-consume c d 8 _ s future magic [] g.file_valid g.no_hasher (e ∙ sym (append-nil magic))
          refl (λ k pos le. asks k s pos le g)
          λ b l.
            Does-if c d (bytes_eq magic magic) true _ _ _ (bytes_eq_refl magic)
              (goes tt _ (ready after_end_magic g l (refl, none_left), omega arith))))

  pub Round-read_after_end_magic :
      (s : LinearReader c d) (future : Bytes) (out : Framed)
      → IsReady c d limit last future out s
      → out ≡ []
      → Round 0 future out (read_after_end_magic c d checks s)
  unfolding read_after_end_magic finish
  Round-read_after_end_magic s future out g e =
      Does-test c d s.options.check_finishes_after_end_magic false _ _ g.ends_there
        (leaves none s (ends s e))

  -- the record that starts here, with its body and what follows
  Round-record_found :
      (s : LinearReader c d) (n op : ℕ) (body rest future : Bytes) (out out' : Framed)
      → IsReady c d limit last future out s
      → limit + 9 < 2 ^ 64
      → s.currently_reading ≡ file_record
      → RwBuf.unread c s.file_data ++ future ≡ op_and_len op (length body) ++ (body ++ rest)
      → length body ≤ limit
      → out ≡ (op, body) ∷ out'
      → Ahead limit last rest out'
      → Round n future out (record_found c d checks op (length body) s)
  unfolding record_found emit
  Round-record_found s n op body rest future out out' g m r e short o ahead =
      Does-limited c d _ (length body) limit _ s g.limit_set short (
        Does-add c d checks 9 (length body) _ s (omega (arith, m, short)) (
          Does-consume c d (9 + length body) _ s future (op_and_len op (length body) ++ body) rest
            g.file_valid g.no_hasher
            (e ∙ sym (append_assoc (op_and_len op (length body)) body rest))
            (omega (
              arith,
              length-append (op_and_len op (length body)) body,
              length-op_and_len op (length body),
            ))
            (λ k pos le. asks k s pos le g)
            λ b l.
              Does-view c d (op_and_len op (length body)) body 9
                (length (op_and_len op (length body) ++ body)) _ _
                (sym (length-op_and_len op (length body))) refl
                (leaves _ _ (gives op body out' _ o (IsReady-here r g l ahead)))))

  -- The footer, and nothing but the end magic after it.
  Round-footer_found :
      (s : LinearReader c d) (future : Bytes) (out : Framed)
      → IsReady c d limit last future out s
      → RwBuf.unread c s.file_data ++ future ≡ op_and_len 0x02 (length last) ++ (last ++ magic)
      → 9 ≤ RwBuf.len c s.file_data
      → out ≡ (0x02, last) ∷ []
      → Round 2 future out (footer_found c d checks (length last) s)
  unfolding footer_found enter
  Round-footer_found s future out g e enough o =
      Does-mark_read c d 9 _ s future (op_and_len 0x02 (length last)) (last ++ magic) g.file_valid
        g.no_hasher e (sym (length-op_and_len 0x02 (length last))) enough
        λ b l. Does-take_hasher c d _ _ (
          goes tt _ (
            ready (footer (length last) b.hasher) g (set l) (refl, refl, l.no_hasher, o),
            omega arith,
          ))
    where
      set :
          {b : RwBuf c}
          → Left c d b future (last ++ magic)
          → Left c d (record b { hasher = none }) future (last ++ magic)
      set l =
          unfold RwBuf.unread in
          record {
            valid = record { ordered = l.valid.ordered; in_body = l.valid.in_body };
            no_hasher = refl;
            pending = l.pending;
          }

  Round-data_end_found :
      (s : LinearReader c d) (body rest future : Bytes) (out out' : Framed)
      → IsReady c d limit last future out s
      → RwBuf.unread c s.file_data ++ future ≡ op_and_len 0x0f (length body) ++ (body ++ rest)
      → 9 ≤ RwBuf.len c s.file_data
      → IsItem limit (0x0f, body)
      → out ≡ (0x0f, body) ∷ out'
      → Ahead limit last rest out'
      → Round 2 future out (data_end_found c d checks (length body) s)
  unfolding data_end_found enter
  Round-data_end_found s body rest future out out' g e enough item o ahead =
      Does-take_hasher c d _ s (
        Does-mark_read c d 9 _ _ future (op_and_len 0x0f (length body)) (body ++ rest)
          (record { ordered = g.file_valid.ordered; in_body = g.file_valid.in_body }) refl
          (unfold RwBuf.unread in e) (sym (length-op_and_len 0x0f (length body)))
          (unfold RwBuf.len in enough)
          λ b l. goes tt _ (
            ready (data_end (length body) (finalized c d checks s.file_data.hasher)) g l (
              body,
              rest,
              out',
              refl,
              refl,
              ap (finalized c d checks) g.no_hasher ∙ unfold finalized in refl,
              o,
              item,
              ahead,
            ),
            omega arith,
          ))

  not_chunk : (b : Bool) (t : Bool) → t ≡ true → (b && not t) ≡ false
  not_chunk true true e = refl
  not_chunk true false e = cc
  not_chunk false t e = refl

  -- One record other than the footer.
  Round-framed :
      (s : LinearReader c d) (op : ℕ) (body rest future : Bytes) (out out' : Framed)
      → IsReady c d limit last future out s
      → limit + 9 < 2 ^ 64
      → s.currently_reading ≡ file_record
      → RwBuf.unread c s.file_data ++ future ≡ op_and_len op (length body) ++ (body ++ rest)
      → 9 ≤ RwBuf.len c s.file_data
      → IsItem limit (op, body)
      → out ≡ (op, body) ∷ out'
      → Ahead limit last rest out'
      → Round 2 future out (framed c d checks op (length body) s)
  unfolding framed
  Round-framed s op body rest future out out' g m r e enough item o ahead =
      Does-test c d (op == 0x06 && not s.options.emit_chunks) false _ _
        (not_chunk (op == 0x06) s.options.emit_chunks g.emits_chunks)
        (elim (Bool-cases (op == 0x0f)) [
          | inl t ↦ Does-test c d (op == 0x0f) true _ _ t (at_data_end (==→eq op 0x0f t))
          | inr t ↦ Does-test c d (op == 0x0f) false _ _ t (
              Does-test c d (op == 0x02) false _ _ (other op item.0)
                (Round-record_found s 2 op body rest future out out' g m r e item.1 o ahead))
        ])
    where
      other : (k : ℕ) → k ≢ 0x02 → (k == 0x02) ≡ false
      other k h = ground (arith, h)

      at_data_end : op ≡ 0x0f → Round 2 future out (data_end_found c d checks (length body) s)
      at_data_end q =
          Round-data_end_found s body rest future out out' g
            (subst
              (λ (k : ℕ).
                RwBuf.unread c s.file_data ++ future ≡ op_and_len k (length body) ++ (body ++ rest))
              q e)
            enough (subst (λ (k : ℕ). IsItem limit (k, body)) q item)
            (subst (λ (k : ℕ). out ≡ (k, body) ∷ out') q o) ahead

  -- What the nine bytes in front of a record say.
  Round-header :
      (s : LinearReader c d) (op : ℕ) (body rest future : Bytes) (out : Framed)
      → IsReady c d limit last future out s
      → RwBuf.unread c s.file_data ++ future ≡ op_and_len op (length body) ++ (body ++ rest)
      → length body < 2 ^ 64
      → (9 ≤ RwBuf.len c s.file_data → Round 2 future out (framed c d checks op (length body) s))
      → Round 2 future out (read_file_record c d checks s)
  unfolding read_file_record
  Round-header s op body rest future out g e short k =
      Does-load c d 9 _ s future (op_and_len op (length body)) (body ++ rest) g.file_valid e
        (sym (length-op_and_len op (length body))) (λ n pos le. asks n s pos le g)
        λ enough.
          rw (opcode_of-op_and_len op (length body), length_of-op_and_len op (length body) short)
            (k enough)

  pub Round-read_file_record :
      (s : LinearReader c d) (future : Bytes) (out : Framed)
      → IsReady c d limit last future out s
      → limit + 9 < 2 ^ 64
      → length last ≤ limit
      → s.currently_reading ≡ file_record
      → (a : Ahead limit last (RwBuf.unread c s.file_data ++ future) out)
      → Round 2 future out (read_file_record c d checks s)
  Round-read_file_record s future out g m l r a = go a.items a.are_items a.bytes a.records
    where
      at_footer :
          Round 2 future out (footer_found c d checks (length last) s)
          → Round 2 future out (framed c d checks 0x02 (length last) s)
      at_footer k = unfold framed in k

      go :
          (items : Framed)
          → All (IsItem limit) items
          → RwBuf.unread c s.file_data ++ future ≡ frames items ++ end_of last
          → out ≡ items ++ ((0x02, last) ∷ [])
          → Round 2 future out (read_file_record c d checks s)
      go [] all e o =
          let e' : RwBuf.unread c s.file_data ++ future
              ≡ op_and_len 0x02 (length last) ++ (last ++ magic) =
            e
            ∙ unfold frames mcap.Write.framed in
              append_assoc (op_and_len 0x02 (length last)) last magic in
          Round-header s 0x02 last magic future out g e' (omega arith)
            λ enough. at_footer (Round-footer_found s future out g e' enough o)
      go ((op, body) ∷ items) all e o =
          let e' : RwBuf.unread c s.file_data ++ future
              ≡ op_and_len op (length body) ++ (body ++ (frames items ++ end_of last)) =
            e
            ∙ unfold frames mcap.Write.framed in
              (append_assoc (op_and_len op (length body) ++ body) (frames items) (end_of last)
                ∙ append_assoc (op_and_len op (length body)) body (frames items ++ end_of last)) in
          Round-header s op body (frames items ++ end_of last) future out g e'
            (omega (arith, all.0.1, m))
            λ enough.
              Round-framed s op body (frames items ++ end_of last) future out
                (items ++ ((0x02, last) ∷ [])) g m r e' enough all.0 o
                (record { items = items; are_items = all.1; bytes = refl; records = refl })
