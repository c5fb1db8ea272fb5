-- ===== src/SummaryReader/Pieces.antt =====
-- The footer may come in pieces.
use mcap.Prelude.{
  ℕ, zero, suc, ◌+◌, ◌≤◌, ◌≡◌, refl, sym, ap, ◌∙◌, List, [], ◌∷◌, ◌++◌, append_assoc, append-nil,
  arith, length, length-append, length-take, length-drop, take, drop, take-append, le→leb, All,
  ◌==◌,
}
use mcap.Error.{Bytes, Result, ok, ◌>>=◌}
use mcap.Cursor.{resize}
use mcap.Records
use mcap.Records.Fits.{FooterFits}
use mcap.LinearEvents.{LinearReader}
use mcap.Summary.{fill}
use mcap.SummaryReader.{
  SummaryReader, State, reading_footer, insert, insert_in, notify_read, notify_in, receive,
  receive_all, step_in, with_footer,
}
use mcap.SummaryReader.Footer.{ending, length-ending, step_in-ending}

length-resize : (n : ℕ) (bs : Bytes) → length (resize n bs) ≡ n
unfolding resize
length-resize zero bs = refl
length-resize (suc n) [] = omega (arith, length-resize n [])
length-resize (suc n) (b ∷ bs) = omega (arith, length-resize n bs)

take-resize : (k n : ℕ) (bs : Bytes) → k ≤ length bs → k ≤ n → take k (resize n bs) ≡ take k bs
unfolding resize
take-resize zero n bs h g = refl
take-resize (suc k) n [] h g = absurd (omega arith)
take-resize (suc k) zero (b ∷ bs) h g = absurd (omega arith)
take-resize (suc k) (suc n) (b ∷ bs) h g =
    ap (λ (l : Bytes). b ∷ l) (take-resize k n bs (omega arith) (omega arith))

take-drop : (k : ℕ) (bs : Bytes) → take k bs ++ drop k bs ≡ bs
take-drop zero bs = refl
take-drop (suc k) [] = refl
take-drop (suc k) (b ∷ bs) = ap (λ (l : Bytes). b ∷ l) (take-drop k bs)

take_two : (k : ℕ) (a b c : Bytes) → k ≡ length a + length b → take k (a ++ (b ++ c)) ≡ a ++ b
take_two k a b c e =
    ap (λ (m : ℕ). take m (a ++ (b ++ c))) (e ∙ sym (length-append a b))
    ∙ ap (λ (l : Bytes). take (length (a ++ b)) l) (sym (append_assoc a b c))
    ∙ take-append (a ++ b) c

abbrev pub filled : ℕ → ℕ → Bytes → Bytes → Bytes
filled loaded n got buf = fill loaded got (resize (loaded + n) buf)

module _ (loaded n : ℕ) (got buf : Bytes) (room : length got ≤ n)
    (enough : loaded ≤ length buf) where
  front : length (take loaded (resize (loaded + n) buf)) ≡ loaded
  front = length-take loaded (resize (loaded + n) buf) (rw length-resize (omega arith))

  length-filled : length (filled loaded n got buf) ≡ loaded + n
  unfolding fill
  length-filled = omega (
    arith,
    length-append (take loaded (resize (loaded + n) buf))
        (got ++ drop (loaded + length got) (resize (loaded + n) buf)),
    length-append got (drop (loaded + length got) (resize (loaded + n) buf)),
    length-drop (loaded + length got) (resize (loaded + n) buf),
    length-resize (loaded + n) buf,
    front,
  )

  take-filled : take (loaded + length got) (filled loaded n got buf) ≡ take loaded buf ++ got
  unfolding fill
  take-filled =
      take_two (loaded + length got) (take loaded (resize (loaded + n) buf)) got
        (drop (loaded + length got) (resize (loaded + n) buf)) (omega (arith, front))
      ∙ ap (λ (l : Bytes). l ++ got) (take-resize loaded (loaded + n) buf enough (omega arith))

-- Each piece fits the buffer that was asked for it.
abbrev pub PieceFits : ℕ × Bytes → Type 0
PieceFits p = length p.1 ≤ p.0

abbrev pub delivered : List (ℕ × Bytes) → Bytes
delivered [] = []
delivered ((_, got) ∷ rest) = got ++ delivered rest

module _ (crc32 : Bytes → ℕ) (inner : LinearReader) where
  -- The reader has the first bytes of the footer record.
  pub record Holding (s : SummaryReader crc32 inner) (bytes : Bytes) : Type 0 where
    pub state : s.state ≡ reading_footer (length bytes)
    pub buffered : length bytes ≤ length s.footer_buf
    pub first : take (length bytes) s.footer_buf ≡ bytes

  abbrev after : SummaryReader crc32 inner → ℕ → ℕ → Bytes → SummaryReader crc32 inner
  after s loaded n got = record s {
    at_eof = length got == 0;
    footer_buf = filled loaded n got s.footer_buf;
    state = reading_footer (loaded + length got);
    pos = s.pos + length got;
  }

  receive-after :
      (s : SummaryReader crc32 inner) (loaded n : ℕ) (got : Bytes)
      → s.state ≡ reading_footer loaded
      → length got ≤ n
      → loaded ≤ length s.footer_buf
      → receive crc32 inner s loaded n got ≡ ok (after s loaded n got)
  unfolding receive insert notify_read insert_in notify_in
  receive-after s loaded n got e room enough =
      ap
        (λ (x : SummaryReader crc32 inner).
          notify_read crc32 inner (record x { footer_buf = fill loaded got x.footer_buf })
            (length got))
        inserted
      ∙ ap (λ (st : State crc32 inner). notify_in crc32 inner with_bytes st (length got)) e
      ∙ (rw
          (le→leb (loaded + length got) (length (filled loaded n got s.footer_buf))
            (omega (arith, length-filled loaded n got s.footer_buf room enough)))
          refl)
    where
      inserted : insert crc32 inner s n ≡ record s { footer_buf = resize (loaded + n) s.footer_buf }
      inserted = ap (λ (st : State crc32 inner). insert_in crc32 inner s st n) e

      with_bytes : SummaryReader crc32 inner
      with_bytes = record s { footer_buf = filled loaded n got s.footer_buf }

  held :
      (s : SummaryReader crc32 inner) (old : Bytes) (n : ℕ) (got : Bytes)
      → Holding s old
      → length got ≤ n
      → Holding (after s (length old) n got) (old ++ got)
  held s old n got h room = record {
    state = ap (λ (k : ℕ). reading_footer k) (sym (length-append old got));
    buffered = omega (
      arith,
      length-append old got,
      length-filled (length old) n got s.footer_buf room h.buffered,
    );
    first =
        ap (λ (k : ℕ). take k (filled (length old) n got s.footer_buf)) (length-append old got)
        ∙ take-filled (length old) n got s.footer_buf room h.buffered
        ∙ ap (λ (l : Bytes). l ++ got) h.first;
  }

  receive_all-Holding :
      (s : SummaryReader crc32 inner) (old : Bytes) (pieces : List (ℕ × Bytes))
      → Holding s old
      → All PieceFits pieces
      → (s' : SummaryReader crc32 inner) × (receive_all crc32 inner s (length old) pieces ≡ ok s')
        × Holding s' (old ++ delivered pieces)
  unfolding receive_all
  receive_all-Holding s old [] h fits = (s, refl, rw (append-nil old) h)
  receive_all-Holding s old ((n, got) ∷ rest) h fits =
      let next : SummaryReader crc32 inner = after s (length old) n got in
      let (s', e, h') =
        receive_all-Holding next (old ++ got) rest (held s old n got h fits.0) fits.1 in
      (
        s',
        ap
              (λ (r : Result (SummaryReader crc32 inner)).
                r >>= λ x. receive_all crc32 inner x (length old + length got) rest)
              (receive-after s (length old) n got h.state fits.0 h.buffered)
            ∙ ap (λ (k : ℕ). receive_all crc32 inner next k rest) (sym (length-append old got))
            ∙ e,
        rw append_assoc at h',
      )

  -- When the footer record and the end magic are delivered in pieces of any size, each no longer
  -- than the buffer that was asked for it, a reader that waits for the footer takes all the
  -- pieces, and if the footer fits the format the next round goes on with exactly that footer.
  pub receive_all-ending :
      (s : SummaryReader crc32 inner) (f : Records.Footer) (pieces : List (ℕ × Bytes))
      → s.state ≡ reading_footer 0
      → All PieceFits pieces
      → delivered pieces ≡ ending f
      → FooterFits f
      → (s' : SummaryReader crc32 inner) × (receive_all crc32 inner s 0 pieces ≡ ok s')
        × (step_in crc32 inner s' s'.state ≡ with_footer crc32 inner s' f)
  receive_all-ending s f pieces e fits whole fit =
      let (s', received, h) =
        receive_all-Holding s [] pieces (record { state = e; buffered = omega arith; first = refl })
          fits in
      (s', received, stepped s' h)
    where
      split :
          (s' : SummaryReader crc32 inner)
          → Holding s' (delivered pieces)
          → s'.footer_buf ≡ ending f ++ drop (length (delivered pieces)) s'.footer_buf
      split s' h =
          sym (take-drop (length (delivered pieces)) s'.footer_buf)
          ∙ ap (λ (l : Bytes). l ++ drop (length (delivered pieces)) s'.footer_buf)
              (h.first ∙ whole)

      stepped :
          (s' : SummaryReader crc32 inner)
          → Holding s' (delivered pieces)
          → step_in crc32 inner s' s'.state ≡ with_footer crc32 inner s' f
      stepped s' h =
          ap (step_in crc32 inner s')
            (h.state ∙ ap (λ (k : ℕ). reading_footer k) (ap length whole ∙ length-ending f))
          ∙ step_in-ending crc32 inner s' f (drop (length (delivered pieces)) s'.footer_buf) fit
              (split s' h)
