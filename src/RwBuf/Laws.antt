-- ===== src/RwBuf/Laws.antt =====
-- What the operations of `RwBuf` do to a buffer with its cursors in order.
use mcap.Prelude.{
  ℕ, zero, suc, ◌+◌, ◌-◌, ◌^◌, ◌≤◌, ◌<◌, ◌≡◌, refl, sym, ap, ◌∙◌, Bool, true, false, ◌&&◌, Option,
  [], ◌∷◌, ◌++◌, arith, length, take, drop, ltb, if◌then◌else◌, length-append, length-drop,
  length-take, drop-drop, drop-take, take-take, take-append_more, drop-append_le, take-append,
  le→leb, lt→ltb,
}
use mcap.Error.{Bytes, ok}
use mcap.Cursor.{resize}
use mcap.Io.{Crc32, update_hasher}
use mcap.Summary.{fill}
use mcap.RwBuf.{
  RwBuf, new, len, unread, unwritten, mark_read, mark_written, reserve_exact, compact,
  tail_with_size, write_tail, clear, consume, consume_without_hashing,
}

pub length-resize : (n : ℕ) (bs : Bytes) → length (resize n bs) ≡ n
unfolding resize
length-resize zero bs = refl
length-resize (suc n) [] = ap suc (length-resize n [])
length-resize (suc n) (b ∷ bs) = ap suc (length-resize n bs)

-- what is in front of the old and the new end stays
pub take-resize : (k n : ℕ) (bs : Bytes) → k ≤ n → k ≤ length bs → take k (resize n bs) ≡ take k bs
unfolding resize
take-resize zero n bs h h' = refl
take-resize (suc k) zero bs h h' = absurd (omega arith)
take-resize (suc k) (suc n) [] h h' = absurd (omega arith)
take-resize (suc k) (suc n) (b ∷ bs) h h' =
    ap (λ (l : Bytes). b ∷ l) (take-resize k n bs (omega arith) (omega arith))

length-fill :
    (loaded : ℕ) (got buf : Bytes)
    → loaded + length got ≤ length buf
    → length (fill loaded got buf) ≡ length buf
unfolding fill
length-fill loaded got buf h = omega (
  arith,
  length-append (take loaded buf) (got ++ drop (loaded + length got) buf),
  length-append got (drop (loaded + length got) buf),
  length-drop (loaded + length got) buf,
  length-take loaded buf (omega arith),
)

take-fill :
    (loaded : ℕ) (got buf : Bytes)
    → loaded ≤ length buf
    → take (loaded + length got) (fill loaded got buf) ≡ take loaded buf ++ got
unfolding fill
take-fill loaded got buf h =
    ap (λ (k : ℕ). take (k + length got) (take loaded buf ++ (got ++ rest))) (sym sizes)
    ∙ take-append_more (length got) (take loaded buf) (got ++ rest)
    ∙ ap (λ (l : Bytes). take loaded buf ++ l) (take-append got rest)
  where
    rest : Bytes
    rest = drop (loaded + length got) buf

    sizes : length (take loaded buf) ≡ loaded
    sizes = length-take loaded buf h

module _ (c : Crc32) where
  pub record IsValid (b : RwBuf c) : Type 0 where
    pub ordered : b.start ≤ b.end
    pub in_body : b.end ≤ length b.body

  pub new-IsValid : (h : Bool) → IsValid (new c h)
  unfolding new
  new-IsValid h = record { ordered = omega arith; in_body = omega arith }

  -- the unread section, from its end
  pub unread-drop : (b : RwBuf c) → unread c b ≡ drop b.start (take b.end b.body)
  unfolding unread
  unread-drop b = sym (drop-take b.start b.end b.body)

  pub length-unread : {b : RwBuf c} → IsValid b → length (unread c b) ≡ len c b
  unfolding unread len
  length-unread {b} v =
      length-take (b.end - b.start) (drop b.start b.body)
        (omega (arith, length-drop b.start b.body, v.ordered, v.in_body))

  -- A buffer with `n` bytes less, and with the hash that is given.
  abbrev pub after : RwBuf c → ℕ → Option c.Hasher → RwBuf c
  after b n h = record b { hasher = h; start = b.start + n }

  abbrev pub hashed : RwBuf c → ℕ → Option c.Hasher
  hashed b n = update_hasher c b.hasher (take n (unread c b))

  pub after-IsValid :
      {b : RwBuf c} (n : ℕ) (h : Option c.Hasher) → IsValid b → n ≤ len c b → IsValid (after b n h)
  unfolding len
  after-IsValid n h v k = record { ordered = omega (arith, v.ordered); in_body = v.in_body }

  pub unread-after :
      (b : RwBuf c) (n : ℕ) (h : Option c.Hasher) → unread c (after b n h) ≡ drop n (unread c b)
  unread-after b n h =
      unread-drop (after b n h)
      ∙ sym (drop-drop b.start n (take b.end b.body))
      ∙ ap (λ (l : Bytes). drop n l) (sym (unread-drop b))

  pub len-after : (b : RwBuf c) (n : ℕ) (h : Option c.Hasher) → len c (after b n h) ≡ len c b - n
  unfolding len
  len-after b n h = omega arith

  pub mark_read_ok :
      (b : RwBuf c) (n : ℕ) → n ≤ len c b → mark_read c b n ≡ ok (after b n (hashed b n))
  unfolding mark_read len
  mark_read_ok b n h = rw (le→leb n (b.end - b.start) h) refl

  front : (b : RwBuf c) (n : ℕ) → n ≤ len c b → take n (drop b.start b.body) ≡ take n (unread c b)
  unfolding unread len
  front b n h = sym (take-take n (b.end - b.start) (drop b.start b.body) h)

  pub consume_ok :
      (b : RwBuf c) (n : ℕ)
      → n ≤ len c b
      → consume c b n ≡ ok (take n (unread c b), after b n (hashed b n))
  unfolding consume
  consume_ok b n h =
      rw (mark_read_ok b n h) (ap (λ (l : Bytes). ok (l, after b n (hashed b n))) (front b n h))

  pub consume_without_hashing_ok :
      (b : RwBuf c) (n : ℕ)
      → n ≤ len c b
      → consume_without_hashing c b n ≡ ok (take n (unread c b), after b n b.hasher)
  unfolding consume_without_hashing
  consume_without_hashing_ok b n h =
      rw (le→leb n (b.end - b.start) (unfold len in h))
        (ap (λ (l : Bytes). ok (l, after b n b.hasher)) (front b n h))

  -- What an operation leaves alone that makes place for `n` bytes.
  pub record Keeps (b b' : RwBuf c) (n : ℕ) : Type 0 where
    pub valid : IsValid b'
    pub same_unread : unread c b' ≡ unread c b
    pub same_hasher : b'.hasher ≡ b.hasher
    pub place : length (unwritten c b') ≡ n

  resized-Keeps :
      {b : RwBuf c} (n : ℕ) → IsValid b → Keeps b (record b { body = resize (b.end + n) b.body }) n
  unfolding unwritten
  resized-Keeps {b} n v = record {
    valid = record {
      ordered = v.ordered;
      in_body = omega (arith, length-resize (b.end + n) b.body);
    };
    same_unread =
        unread-drop (record b { body = resize (b.end + n) b.body })
        ∙ ap (λ (l : Bytes). drop b.start l)
            (take-resize b.end (b.end + n) b.body (omega arith) v.in_body)
        ∙ sym (unread-drop b);
    same_hasher = refl;
    place =
        omega
          (arith, length-drop b.end (resize (b.end + n) b.body), length-resize (b.end + n) b.body);
  }

  pub reserve_exact_ok :
      (b : RwBuf c) (n : ℕ)
      → b.end + n < 2 ^ 64
      → reserve_exact c b n ≡ ok (record b { body = resize (b.end + n) b.body })
  unfolding reserve_exact
  reserve_exact_ok b n h = rw (lt→ltb (b.end + n) (2 ^ 64) h) refl

  pub reserve_exact-Keeps :
      {b : RwBuf c} (n : ℕ) → IsValid b → Keeps b (record b { body = resize (b.end + n) b.body }) n
  reserve_exact-Keeps n v = resized-Keeps n v

  unread-compact :
      {b : RwBuf c}
      → IsValid b
      → IsValid (compact c b)
        × (unread c (compact c b) ≡ unread c b)
        × ((compact c b).hasher ≡ b.hasher)
  unfolding compact len
  unread-compact {b} v = go (ltb 4096 b.start && ltb (b.end - b.start) b.start)
    where
      moved : RwBuf c
      moved = record b {
        body = unread c b ++ drop (b.end - b.start) b.body;
        start = 0;
        end = b.end - b.start;
      }

      size : length (unread c b) ≡ b.end - b.start
      size = length-unread v

      go :
          (t : Bool)
          → IsValid (if t then moved else b)
            × (unread c (if t then moved else b) ≡ unread c b)
            × ((if t then moved else b).hasher ≡ b.hasher)
      go false = (v, refl, refl)
      go true = (
        record {
          ordered = omega arith;
          in_body = omega (arith, size, length-append (unread c b) (drop (b.end - b.start) b.body));
        },
        unread-drop moved
            ∙ ap (λ (k : ℕ). take k (unread c b ++ drop (b.end - b.start) b.body)) (sym size)
            ∙ take-append (unread c b) (drop (b.end - b.start) b.body),
        refl,
      )

  -- `insert` makes place for `n` bytes and keeps what is unread, moved to the front or not.
  pub tail_with_size-Keeps : {b : RwBuf c} (n : ℕ) → IsValid b → Keeps b (tail_with_size c b n) n
  unfolding tail_with_size
  tail_with_size-Keeps n v =
      let (valid, same, hash) = unread-compact v in
      let k = resized-Keeps n valid in
      record {
        valid = k.valid;
        same_unread = k.same_unread ∙ same;
        same_hasher = k.same_hasher ∙ hash;
        place = k.place;
      }

  -- Bytes are written to the place behind the unread section, and the cursor goes over them.
  abbrev pub appended : RwBuf c → Bytes → RwBuf c
  appended b got = record b { body = fill b.end got b.body; end = b.end + length got }

  pub record Grows (b b' : RwBuf c) (got : Bytes) : Type 0 where
    pub valid : IsValid b'
    pub more : unread c b' ≡ unread c b ++ got
    pub same_hasher : b'.hasher ≡ b.hasher
    pub less : length (unwritten c b') ≡ length (unwritten c b) - length got

  pub appended-Grows :
      {b : RwBuf c} (got : Bytes)
      → IsValid b
      → length got ≤ length (unwritten c b)
      → Grows b (appended b got) got
  unfolding unwritten
  appended-Grows {b} got v h = record {
    valid = record { ordered = omega (arith, v.ordered); in_body = omega (arith, size, fits) };
    more =
        unread-drop (appended b got)
        ∙ ap (λ (l : Bytes). drop b.start l) (take-fill b.end got b.body v.in_body)
        ∙ drop-append_le b.start (take b.end b.body) got
            (omega (arith, v.ordered, length-take b.end b.body v.in_body))
        ∙ ap (λ (l : Bytes). l ++ got) (sym (unread-drop b));
    same_hasher = refl;
    less = omega (
      arith,
      length-drop (b.end + length got) (fill b.end got b.body),
      length-drop b.end b.body,
      size,
    );
  }
    where
      fits : b.end + length got ≤ length b.body
      fits = omega (arith, h, length-drop b.end b.body, v.in_body)

      size : length (fill b.end got b.body) ≡ length b.body
      size = length-fill b.end got b.body fits

  pub mark_written_ok :
      {b : RwBuf c} (got : Bytes)
      → IsValid b
      → length got ≤ length (unwritten c b)
      → mark_written c (write_tail c b got) (length got) ≡ ok (appended b got)
  unfolding mark_written write_tail unwritten
  mark_written_ok {b} got v h =
      rw
        (le→leb (length got) (length (drop b.end (fill b.end got b.body))) (
          omega (
            arith,
            h,
            v.in_body,
            length-drop b.end b.body,
            length-drop b.end (fill b.end got b.body),
            length-fill b.end got b.body (omega (arith, h, v.in_body, length-drop b.end b.body)),
          )))
        refl

  pub clear-IsValid : (b : RwBuf c) → IsValid (clear c b)
  unfolding clear
  clear-IsValid b = record { ordered = omega arith; in_body = omega arith }
