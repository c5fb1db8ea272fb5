-- ===== src/LinearReader/Stream/Rules.antt =====
-- Rules for the steps of a linear reader that knows what is in front of it.
use mcap.Prelude.{
  ℕ, ◌+◌, ◌-◌, ◌^◌, ◌≤◌, ◌<◌, ◌≡◌, refl, sym, ap, ◌∙◌, Bool, Option, none, some, [], ◌++◌, arith,
  length, take, drop, ltb, if◌then◌else◌, Bool-cases, inl, inr, length-append, take-append_le,
  drop-append_le, take-append, drop-append, append-nil, lt→ltb, le→ltb_false, ltb_false→le, ltb→lt,
}
use mathlib.Core.Path.{subst}
use mcap.Error.{Bytes, Result, ok, McapError}
use mcap.Io.{Crc32, update_hasher}
use mcap.RwBuf
use mcap.RwBuf.{RwBuf}
use mcap.RwBuf.Laws
use mcap.RwBuf.Laws.{after, hashed}
use mcap.Read.Slices.{slice_at}
use mcap.Decompressor.{Decompressor}
use mcap.LinearEvents.{read_request}
use mcap.Step.{get, Outcome, go_on, leave, ◌>>=◌, then_step, check, check_in}
use mcap.LinearReader.Options.{check_len, ok_or, add_usize}
use mcap.LinearReader.{LinearReader, CurrentlyReading}
use mcap.LinearReader.Moves.{
  Event, Move, load, consume, consume_without_hashing, mark_read, with_file_data, limited, view,
  take_hasher, enter,
}

-- Bytes that start with `front`, in two parts: the first holds all of it or less.
pub take_front :
    (u future front rest : Bytes)
    → u ++ future ≡ front ++ rest
    → length front ≤ length u
    → take (length front) u ≡ front
take_front u future front rest e h =
    sym (take-append_le (length front) u future h)
    ∙ ap (λ (l : Bytes). take (length front) l) e
    ∙ take-append front rest

pub drop_front :
    (u future front rest : Bytes)
    → u ++ future ≡ front ++ rest
    → length front ≤ length u
    → drop (length front) u ++ future ≡ rest
drop_front u future front rest e h =
    sym (drop-append_le (length front) u future h)
    ∙ ap (λ (l : Bytes). drop (length front) l) e
    ∙ drop-append front rest

-- What is missing of `front` is still to come.
pub missing :
    (u future front rest : Bytes)
    → u ++ future ≡ front ++ rest
    → length front - length u ≤ length future
missing u future front rest e =
    omega (arith, ap length e, length-append u future, length-append front rest)

module _ (c : Crc32) (d : Decompressor) where
  -- A step goes on with `Q`, or leaves with `L`.
  pub data Does {A : Type 0} (Q : A → LinearReader c d → Type 0)
      (L : Event → LinearReader c d → Type 0) : Outcome (LinearReader c d) Event A → Type 0 where
    goes : (a : A) (s : LinearReader c d) → Q a s → Does Q L (go_on a s)
    leaves : (e : Event) (s : LinearReader c d) → L e s → Does Q L (leave e s)

  -- What is left after `front` is read, by whichever way.
  pub record Left (b : RwBuf c) (future rest : Bytes) : Type 0 where
    pub valid : Laws.IsValid c b
    pub no_hasher : b.hasher ≡ none
    pub pending : RwBuf.unread c b ++ future ≡ rest

  pub Left-after :
      (b : RwBuf c) (n : ℕ) (h : Option c.Hasher) (future front rest : Bytes)
      → Laws.IsValid c b
      → RwBuf.unread c b ++ future ≡ front ++ rest
      → n ≡ length front
      → n ≤ RwBuf.len c b
      → h ≡ none
      → Left (after c b n h) future rest
  Left-after b n h future front rest v e size le none_left = record {
    valid = Laws.after-IsValid c n h v le;
    no_hasher = none_left;
    pending =
        ap (λ (l : Bytes). l ++ future)
          (Laws.unread-after c b n h ∙ ap (λ (m : ℕ). drop m (RwBuf.unread c b)) size)
        ∙ drop_front (RwBuf.unread c b) future front rest e
            (omega (arith, Laws.length-unread c v, size, le));
  }

  -- without a hasher nothing is hashed
  pub hashed-none : (b : RwBuf c) (n : ℕ) → b.hasher ≡ none → hashed c b n ≡ none
  hashed-none b n e =
      ap (λ (h : Option c.Hasher). update_hasher c h (take n (RwBuf.unread c b))) e
      ∙ unfold update_hasher in refl

  module _ {B : Type 0} {R : B → LinearReader c d → Type 0}
      {L : Event → LinearReader c d → Type 0} where
    pub Does-load :
        (n : ℕ) (f : Bytes → Move c d B) (s : LinearReader c d) (future front rest : Bytes)
        → Laws.IsValid c s.file_data
        → RwBuf.unread c s.file_data ++ future ≡ front ++ rest
        → n ≡ length front
        → ((k : ℕ) → 0 < k → k ≤ length future → L (some (ok (read_request k))) s)
        → (n ≤ RwBuf.len c s.file_data → Does R L (f front s))
        → Does R L ((load c d n >>= f) s)
    unfolding ◌>>=◌ then_step load
    Does-load n f s future front rest v e size short k =
        elim (Bool-cases (ltb (RwBuf.len c s.file_data) n)) [
          | inl t ↦ rw t (
              leaves _ s (
                short _ (omega (arith, ltb→lt (RwBuf.len c s.file_data) n t)) (
                  omega (
                    arith,
                    Laws.length-unread c v,
                    size,
                    missing (RwBuf.unread c s.file_data) future front rest e,
                  ))))
          | inr t ↦ rw t (
              let le : n ≤ RwBuf.len c s.file_data = ltb_false→le (RwBuf.len c s.file_data) n t in
              subst (λ (l : Bytes). Does R L (f l s)) (sym (loaded le)) (k le))
        ]
      where
        loaded : n ≤ RwBuf.len c s.file_data → take n (RwBuf.unread c s.file_data) ≡ front
        loaded le =
            ap (λ (m : ℕ). take m (RwBuf.unread c s.file_data)) size
            ∙ take_front (RwBuf.unread c s.file_data) future front rest e
                (omega (arith, Laws.length-unread c v, size, le))

    pub Does-consume :
        (n : ℕ) (f : Bytes → Move c d B) (s : LinearReader c d) (future front rest : Bytes)
        → Laws.IsValid c s.file_data
        → s.file_data.hasher ≡ none
        → RwBuf.unread c s.file_data ++ future ≡ front ++ rest
        → n ≡ length front
        → ((k : ℕ) → 0 < k → k ≤ length future → L (some (ok (read_request k))) s)
        → ((b : RwBuf c) → Left b future rest → Does R L (f front (record s { file_data = b })))
        → Does R L ((consume c d n >>= f) s)
    unfolding ◌>>=◌ then_step consume with_file_data
    Does-consume n f s future front rest v h e size short k =
        elim (Bool-cases (ltb (RwBuf.len c s.file_data) n)) [
          | inl t ↦ rw t (
              leaves _ s (
                short _ (omega (arith, ltb→lt (RwBuf.len c s.file_data) n t)) (
                  omega (
                    arith,
                    Laws.length-unread c v,
                    size,
                    missing (RwBuf.unread c s.file_data) future front rest e,
                  ))))
          | inr t ↦ rw t (
              let le : n ≤ RwBuf.len c s.file_data = ltb_false→le (RwBuf.len c s.file_data) n t in
              rw (Laws.consume_ok c s.file_data n le) (
                subst
                  (λ (l : Bytes).
                    Does R L (
                      f l
                        (record s { file_data = after c s.file_data n (hashed c s.file_data n) })))
                  (sym (loaded le))
                  (k _ (
                    Left-after s.file_data n (hashed c s.file_data n) future front rest v e size le
                      (hashed-none s.file_data n h)))))
        ]
      where
        loaded : n ≤ RwBuf.len c s.file_data → take n (RwBuf.unread c s.file_data) ≡ front
        loaded le =
            ap (λ (m : ℕ). take m (RwBuf.unread c s.file_data)) size
            ∙ take_front (RwBuf.unread c s.file_data) future front rest e
                (omega (arith, Laws.length-unread c v, size, le))

    pub Does-without :
        (n : ℕ) (f : Bytes → Move c d B) (s : LinearReader c d) (future front rest : Bytes)
        → Laws.IsValid c s.file_data
        → s.file_data.hasher ≡ none
        → RwBuf.unread c s.file_data ++ future ≡ front ++ rest
        → n ≡ length front
        → n ≤ RwBuf.len c s.file_data
        → ((b : RwBuf c) → Left b future rest → Does R L (f front (record s { file_data = b })))
        → Does R L ((consume_without_hashing c d n >>= f) s)
    unfolding ◌>>=◌ then_step consume_without_hashing with_file_data
    Does-without n f s future front rest v h e size le k =
        rw (Laws.consume_without_hashing_ok c s.file_data n le) (
          subst
            (λ (l : Bytes).
              Does R L (f l (record s { file_data = after c s.file_data n s.file_data.hasher })))
            (sym loaded)
            (k _ (Left-after s.file_data n s.file_data.hasher future front rest v e size le h)))
      where
        loaded : take n (RwBuf.unread c s.file_data) ≡ front
        loaded =
            ap (λ (m : ℕ). take m (RwBuf.unread c s.file_data)) size
            ∙ take_front (RwBuf.unread c s.file_data) future front rest e
                (omega (arith, Laws.length-unread c v, size, le))

    pub Does-mark_read :
        (n : ℕ) (f : Unit {0} → Move c d B) (s : LinearReader c d) (future front rest : Bytes)
        → Laws.IsValid c s.file_data
        → s.file_data.hasher ≡ none
        → RwBuf.unread c s.file_data ++ future ≡ front ++ rest
        → n ≡ length front
        → n ≤ RwBuf.len c s.file_data
        → ((b : RwBuf c) → Left b future rest → Does R L (f tt (record s { file_data = b })))
        → Does R L ((mark_read c d n >>= f) s)
    unfolding ◌>>=◌ then_step mark_read with_file_data
    Does-mark_read n f s future front rest v h e size le k =
        rw (Laws.mark_read_ok c s.file_data n le) (
          k _ (
            Left-after s.file_data n (hashed c s.file_data n) future front rest v e size le
              (hashed-none s.file_data n h)))

    pub Does-limited :
        (x : McapError) (len limit : ℕ) (f : ℕ → Move c d B) (s : LinearReader c d)
        → s.options.record_length_limit ≡ some limit
        → len ≤ limit
        → Does R L (f len s)
        → Does R L ((limited c d x len >>= f) s)
    unfolding ◌>>=◌ then_step limited check_len ok_or check check_in
    Does-limited x len limit f s o le k =
        subst (λ (l : Option ℕ). Does R L (then_step (check_in s (ok_or (check_len len l) x)) f))
          (sym o) (rw (le→ltb_false limit len le) k)

    pub Does-check :
        {A : Type 0} (r : Result A) (a : A) (f : A → Move c d B) (s : LinearReader c d)
        → r ≡ ok a
        → Does R L (f a s)
        → Does R L ((check r >>= f) s)
    unfolding ◌>>=◌ then_step check check_in
    Does-check r a f s e k = rw e k

    pub Does-add :
        (checks : Bool) (a b : ℕ) (f : ℕ → Move c d B) (s : LinearReader c d)
        → a + b < 2 ^ 64
        → Does R L (f (a + b) s)
        → Does R L ((check (add_usize checks a b) >>= f) s)
    unfolding ◌>>=◌ then_step add_usize check check_in
    Does-add checks a b f s h k = rw (lt→ltb (a + b) (2 ^ 64) h) k

    -- the end of some bytes
    pub Does-view :
        (a b : Bytes) (start end : ℕ) (f : Bytes → Move c d B) (s : LinearReader c d)
        → start ≡ length a
        → end ≡ length (a ++ b)
        → Does R L (f b s)
        → Does R L ((view c d (a ++ b) start end >>= f) s)
    unfolding ◌>>=◌ then_step view check check_in
    Does-view a b start end f s hs he k =
        rw
          (slice_at (a ++ b) a b [] start end (ap (λ (l : Bytes). a ++ l) (sym (append-nil b))) hs
            (he ∙ length-append a b))
          k

    pub Does-if :
        (t v : Bool) (m m' : Move c d B) (s : LinearReader c d)
        → t ≡ v
        → Does R L ((if v then m else m') s)
        → Does R L ((if t then m else m') s)
    Does-if t v m m' s e k = rw e k

    pub Does-test :
        (t v : Bool) (o o' : Outcome (LinearReader c d) Event B)
        → t ≡ v
        → Does R L (if v then o else o')
        → Does R L (if t then o else o')
    Does-test t v o o' e k = rw e k

    pub Does-get :
        (f : LinearReader c d → Move c d B) (s : LinearReader c d)
        → Does R L (f s s)
        → Does R L ((get >>= f) s)
    unfolding ◌>>=◌ then_step get
    Does-get f s k = k

    -- a step of which the outcome is known
    pub Does-go :
        {A : Type 0} (m : Move c d A) (f : A → Move c d B) (s s' : LinearReader c d) (a : A)
        → m s ≡ go_on a s'
        → Does R L (f a s')
        → Does R L ((m >>= f) s)
    unfolding ◌>>=◌ then_step
    Does-go m f s s' a e k = rw e k

    pub Does-take_hasher :
        (f : Option c.Hasher → Move c d B) (s : LinearReader c d)
        → Does R L
            (f s.file_data.hasher (record s { file_data = record s.file_data { hasher = none } }))
        → Does R L ((take_hasher c d >>= f) s)
    unfolding ◌>>=◌ then_step take_hasher RwBuf.set_hasher
    Does-take_hasher f s k = k

    pub Does-enter :
        (q : CurrentlyReading c d) (f : Unit {0} → Move c d B) (s : LinearReader c d)
        → Does R L (f tt (record s { currently_reading = q }))
        → Does R L ((enter c d q >>= f) s)
    unfolding ◌>>=◌ then_step enter
    Does-enter q f s k = k
