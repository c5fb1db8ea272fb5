-- ===== src/LinearReader/Returns/Jobs.antt =====
-- `decompress_inner`: the end of its loop, and the bytes that it leaves.
use mcap.Prelude.{
  ℕ, zero, suc, ◌+◌, ◌-◌, ◌^◌, ◌≤◌, ◌<◌, ◌≡◌, refl, ◌∙◌, min, false, Option, none, arith, length,
  ltb, leb, ◌==◌, Bool-cases, inl, inr, length-take, ==→eq,
}
use mathlib.Core.Path.{subst}
use mcap.Error.{Bytes, Result, ok, err, panic, stuck}
use mcap.Cursor.{resize}
use mcap.Io.{Crc32}
use mcap.RwBuf
use mcap.RwBuf.{RwBuf}
use mcap.RwBuf.Laws
use mcap.RwBuf.Laws.{IsValid}
use mcap.Decompressor.{Decompressor, IsDecompressor, Progresses, Answers}
use mcap.LinearReader.Options.{sub_u64, clamp_to_usize}
use mcap.LinearReader.Decompress.{
  Job, JobRound, decompress_fuel, again, done, advance, advanced, called, src, job_round,
  decompress_loop, reserved, decompress_inner,
}

-- A build without overflow checks wraps: its subtractions succeed.
pub sub_u64_wraps : (a b : ℕ) → (k : ℕ) × (sub_u64 false a b ≡ ok k)
unfolding sub_u64
sub_u64_wraps a b = elim (Bool-cases (leb b a)) [
  | inl e ↦ (a - b, rw e refl)
  | inr e ↦ (2 ^ 64 + a - b, rw e refl)
]

module _ (c : Crc32) (d : Decompressor) where
  -- how much of the input and of the place for the output is left
  abbrev pub unread_len : Job c d false → ℕ
  unread_len j = RwBuf.len c j.src_buf

  abbrev pub room : Job c d false → ℕ
  room j = length (RwBuf.unwritten c j.dest_buf)

  -- Both buffers are in order, and there is place for the `n` bytes that are wanted.
  pub record JobIsValid (n : ℕ) (j : Job c d false) : Type 0 where
    pub src_valid : IsValid c j.src_buf
    pub dest_valid : IsValid c j.dest_buf
    pub wanted : RwBuf.len c j.dest_buf + room j ≡ n

  pub record Goes (n : ℕ) (j j' : Job c d false) : Type 0 where
    pub valid : JobIsValid n j'
    pub less : unread_len j' + room j' < unread_len j + room j
    pub src_less : unread_len j' ≤ unread_len j
    pub same_start : j'.dest_buf.start ≡ j.dest_buf.start

  -- What a call of `decompress_inner` for `n` bytes leaves.
  pub record Leaves (n : ℕ) (j : Job c d false) (r : Result (Option ℕ)) (j' : Job c d false)
      : Type 0 where
    pub src_valid : IsValid c j'.src_buf
    pub dest_valid : IsValid c j'.dest_buf
    pub src_less : unread_len j' ≤ unread_len j
    pub same_start : j'.dest_buf.start ≡ j.dest_buf.start
    pub answers : Answers r
    pub enough : r ≡ ok none → n ≤ RwBuf.len c j'.dest_buf

  data Moves (n : ℕ) (j : Job c d false) : JobRound c d false → Type 0 where
    goes : (j' : Job c d false) → Goes n j j' → Moves n j (again j')
    leaves : (r : Result (Option ℕ)) (j' : Job c d false) → Leaves n j r j' → Moves n j (done r j')

  -- a round that leaves the buffers as they are
  stays :
      {n : ℕ} {j : Job c d false} (s : d.State) (r : Result (Option ℕ))
      → JobIsValid n j
      → Answers r
      → (r ≡ ok none → n ≤ RwBuf.len c j.dest_buf)
      → Moves n j (done r (record j { decompressor = s }))
  stays s r v a h = leaves r _ (record {
    src_valid = v.src_valid;
    dest_valid = v.dest_valid;
    src_less = omega arith;
    same_start = refl;
    answers = a;
    enough = h;
  })

  len-appended :
      (b : RwBuf c) (got : Bytes)
      → IsValid c b
      → RwBuf.len c (Laws.appended c b got) ≡ RwBuf.len c b + length got
  unfolding RwBuf.len
  len-appended b got v = omega (arith, v.ordered)

  -- After a call that consumed `k` bytes and wrote `bs`, one of them more than nothing.
  Moves-advance :
      (n : ℕ) (j : Job c d false) (k : ℕ) (bs : Bytes)
      → JobIsValid n j
      → k ≤ unread_len j
      → length bs ≤ room j
      → 0 < k + length bs
      → Moves n j (advanced c d false j (advance c d false j k bs))
  unfolding advance advanced
  Moves-advance n j k bs v hk hb p =
      let (cr, ce) = sub_u64_wraps j.compressed_remaining k in
      let (ur, ue) = sub_u64_wraps j.uncompressed_remaining (length bs) in
      let g = Laws.appended-Grows c bs v.dest_valid hb in
      rw (Laws.mark_read_ok c j.src_buf k hk, Laws.mark_written_ok c bs v.dest_valid hb, ce, ue)
        (goes _ (record {
          valid = record {
            src_valid = Laws.after-IsValid c k (Laws.hashed c j.src_buf k) v.src_valid hk;
            dest_valid = g.valid;
            wanted = omega (arith, len-appended j.dest_buf bs v.dest_valid, g.less, v.wanted, hb);
          };
          less =
              omega (
                arith,
                Laws.len-after c j.src_buf k (Laws.hashed c j.src_buf k),
                g.less,
                hk,
                hb,
                p,
              );
          src_less = omega (arith, Laws.len-after c j.src_buf k (Laws.hashed c j.src_buf k));
          same_start = refl;
        }))

  length-src : (j : Job c d false) → IsValid c j.src_buf → length (src c d false j) ≤ unread_len j
  unfolding src
  length-src j v = omega (
    arith,
    length-take (min (unread_len j) (clamp_to_usize j.compressed_remaining))
        (RwBuf.unread c j.src_buf) (omega (arith, Laws.length-unread c v)),
  )

  module _ (h : IsDecompressor d) (p : Progresses d) where
    Moves-called :
        (n : ℕ) (j : Job c d false) (r : Result (ℕ × Bytes)) (s : d.State)
        → JobIsValid n j
        → 0 < room j
        → d.decompress j.decompressor (src c d false j) (room j) ≡ (r, s)
        → Moves n j (called c d false j (r, s))
    unfolding called
    Moves-called n j (ok (k, bs)) s v pos e = moved (
        Moves-advance n (record j { decompressor = s }) k bs
          (record { src_valid = v.src_valid; dest_valid = v.dest_valid; wanted = v.wanted })
          (omega (arith, h.consumed_in _ _ _ _ _ _ e, length-src j v.src_valid))
          (h.wrote_in _ _ _ _ _ _ e) (p _ _ _ _ _ _ pos e))
      where
        -- the decompressor is no part of what a round is measured by
        moved : {q : JobRound c d false} → Moves n (record j { decompressor = s }) q → Moves n j q
        moved (goes j' g) = goes j' (record {
          valid = g.valid;
          less = g.less;
          src_less = g.src_less;
          same_start = g.same_start;
        })
        moved (leaves q j' g) = leaves q j' (record {
          src_valid = g.src_valid;
          dest_valid = g.dest_valid;
          src_less = g.src_less;
          same_start = g.same_start;
          answers = g.answers;
          enough = g.enough;
        })
    Moves-called n j (err x) s v pos e = stays s (err x) v tt (λ q. absurd (cc q))
    Moves-called n j panic s v pos e = absurd (
        subst (λ (t : Result (ℕ × Bytes) × d.State). Answers t.0) e
          (h.decompress_answers j.decompressor (src c d false j) (room j)))
    Moves-called n j stuck s v pos e = absurd (
        subst (λ (t : Result (ℕ × Bytes) × d.State). Answers t.0) e
          (h.decompress_answers j.decompressor (src c d false j) (room j)))

    -- A round asks for more, ends, fails, or goes on with less to do.
    Moves-job_round :
        (n : ℕ) (j : Job c d false) → JobIsValid n j → Moves n j (job_round c d false j)
    unfolding job_round
    Moves-job_round n j v =
        elim (Bool-cases (ltb (unread_len j) (d.next_read_size j.decompressor))) [
          | inl e ↦ rw e (stays j.decompressor _ v tt (λ q. absurd (cc q)))
          | inr e ↦ rw e (elim (Bool-cases (room j == 0)) [
            | inl e' ↦
                rw e'
                  (stays j.decompressor _ v tt (λ q. omega (arith, v.wanted, ==→eq (room j) 0 e')))
            | inr e' ↦ rw e' (elim (Bool-cases (j.uncompressed_remaining == 0)) [
              | inl u ↦ rw u (stays j.decompressor _ v tt (λ q. absurd (cc q)))
              | inr u ↦ rw u (
                  let o = d.decompress j.decompressor (src c d false j) (room j) in
                  Moves-called n j o.0 o.1 v (positive (room j) e') refl)
            ])
          ])
        ]
      where
        positive : (m : ℕ) → (m == 0) ≡ false → 0 < m
        positive m e = ground arith

    Leaves-decompress_loop :
        (fuel n : ℕ) (j : Job c d false)
        → JobIsValid n j
        → unread_len j + room j < fuel
        → let (r, j') = decompress_loop c d false fuel j in Leaves n j r j'
    unfolding decompress_loop
    Leaves-decompress_loop zero n j v f = absurd (omega arith)
    Leaves-decompress_loop (suc fuel) n j v f =
        go (job_round c d false j) (Moves-job_round n j v)
          (λ j' v' lt. Leaves-decompress_loop fuel n j' v' lt)
      where
        go :
            (q : JobRound c d false)
            → Moves n j q
            → ((j' : Job c d false)
                → JobIsValid n j'
                → unread_len j' + room j' < fuel
                → let (r, j1) = decompress_loop c d false fuel j' in Leaves n j' r j1)
            → let (r, j1) = elim q as (λ _. Result (Option ℕ) × Job c d false) [
              | again j' ↦ decompress_loop c d false fuel j'
              | done r j' ↦ (r, j')
            ] in
              Leaves n j r j1
        go q (goes j' g) ih =
            let l = ih j' g.valid (omega (arith, g.less, f)) in
            record {
              src_valid = l.src_valid;
              dest_valid = l.dest_valid;
              src_less = omega (arith, l.src_less, g.src_less);
              same_start = l.same_start ∙ g.same_start;
              answers = l.answers;
              enough = l.enough;
            }
        go q (leaves r j' l) ih = l

    -- For `n` bytes, where the cursors stay within 64 bits, from two buffers in order: no panic, no
    -- endless loop, and if no more input is wanted then `n` bytes are there.
    pub Leaves-decompress_inner :
        (n : ℕ) (j : Job c d false)
        → IsValid c j.src_buf
        → IsValid c j.dest_buf
        → n + j.dest_buf.start < 2 ^ 64
        → let (r, j') = decompress_inner c d false n j in Leaves n j r j'
    unfolding decompress_inner reserved RwBuf.len
    Leaves-decompress_inner n j sv dv small = elim (Bool-cases (additional == 0)) [
      | inl e ↦ rw e (record {
        src_valid = sv;
        dest_valid = dv;
        src_less = omega arith;
        same_start = refl;
        answers = tt;
        enough = λ _. omega (arith, ==→eq additional 0 e);
      })
      | inr e ↦ rw e (more (positive additional e))
    ]
      where
        additional : ℕ
        additional = n - RwBuf.len c j.dest_buf

        positive : (m : ℕ) → (m == 0) ≡ false → 0 < m
        positive m e = ground arith

        more :
            0 < additional
            → let (r, j') =
                reserved c d false j additional (RwBuf.reserve_exact c j.dest_buf additional) in
              Leaves n j r j'
        more pos = rw (Laws.reserve_exact_ok c j.dest_buf additional fits) (
            let l =
              Leaves-decompress_loop (decompress_fuel c d false j additional) n
                (record j { dest_buf = resized })
                (record {
                  src_valid = sv;
                  dest_valid = k.valid;
                  wanted = omega (arith, k.place, pos);
                })
                (omega (arith, k.place)) in
            record {
              src_valid = l.src_valid;
              dest_valid = l.dest_valid;
              src_less = l.src_less;
              same_start = l.same_start;
              answers = l.answers;
              enough = l.enough;
            })
          where
            fits : j.dest_buf.end + additional < 2 ^ 64
            fits = omega (arith, small, pos, dv.ordered)

            resized : RwBuf c
            resized = record j.dest_buf {
              body = resize (j.dest_buf.end + additional) j.dest_buf.body;
            }

            k : Laws.Keeps c j.dest_buf resized additional
            k = Laws.reserve_exact-Keeps c additional dv
