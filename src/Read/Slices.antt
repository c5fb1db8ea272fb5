-- ===== src/Read/Slices.antt =====
-- Slices of a body at the position of a cursor.
use mcap.Prelude.{
  ℕ, ◌+◌, ◌-◌, ◌≤◌, ◌≡◌, ap, ◌∙◌, [], ◌++◌, append-nil, append_assoc, arith, length, length-append,
  take, drop, take-append, drop-append, le→leb,
}
use mcap.Error.{Bytes, ok}
use mcap.Bytes.{Parser}
use mcap.Bytes.RoundTrip.{Decodes, Decodes-self}
use mcap.Records.{Record}
use mcap.Read.{slice, position, read_as}

pub take_all : (xs : Bytes) → take (length xs) xs ≡ xs
take_all xs = rw append-nil at (take-append xs [])

pub slice_in :
    (bs : Bytes) (start end : ℕ)
    → start ≤ end
    → end ≤ length bs
    → slice bs start end ≡ ok (take (end - start) (drop start bs))
unfolding slice
slice_in bs start end h k = rw (le→leb start end h, le→leb end (length bs) k)

pub position-append : (done rest : Bytes) → position (done ++ rest) rest ≡ length done
unfolding position
position-append done rest = omega (arith, length-append done rest)

-- the part from the cursor on
pub slice_rest :
    (done rest : Bytes)
    → slice (done ++ rest) (position (done ++ rest) rest) (length (done ++ rest)) ≡ ok rest
slice_rest done rest =
    rw
      (
        position-append,
        slice_in (done ++ rest) (length done) (length (done ++ rest)) (omega (arith, sizes))
            (omega arith),
        drop-append,
        left_over,
      )
      (rw take_all)
  where
    sizes : length (done ++ rest) ≡ length done + length rest
    sizes = length-append done rest

    left_over : length (done ++ rest) - length done ≡ length rest
    left_over = omega (arith, sizes)

-- the part before some bytes that follow
pub slice_front : (front rest : Bytes) → slice (front ++ rest) 0 (length front) ≡ ok front
slice_front front rest =
    rw
      (slice_in (front ++ rest) 0 (length front) (omega arith)
        (omega (arith, length-append front rest)))
      (ap ok (rw (whole, take-append)))
  where
    whole : length front - 0 ≡ length front
    whole = omega arith

pub slice_whole : (bs : Bytes) → slice bs 0 (length bs) ≡ ok bs
slice_whole bs = rw append-nil at (slice_front bs [])

pub read_as-written {ℓ} :
    {A : Type ℓ} {p : Parser A} {bs : Bytes} {a : A} (wrap : A → Record)
    → Decodes p bs a
    → read_as p wrap bs ≡ ok (wrap a)
unfolding read_as
read_as-written wrap d = rw (Decodes-self d)

pub slice_rest_two :
    (a b rest : Bytes)
    → slice (a ++ (b ++ rest)) (position (a ++ (b ++ rest)) rest) (length (a ++ (b ++ rest)))
      ≡ ok rest
slice_rest_two a b rest = rw append_assoc at (slice_rest (a ++ b) rest)

-- a part in the middle, its bounds known by equations
pub slice_at :
    (bs a b d : Bytes) (start end : ℕ)
    → bs ≡ a ++ (b ++ d)
    → start ≡ length a
    → end ≡ length a + length b
    → slice bs start end ≡ ok b
slice_at bs a b d start end e hs he =
    slice_in bs start end (omega arith) (omega (arith, sizes))
    ∙ ap ok (rw (e, hs, he, drop-append, width) (take-append b d))
  where
    sizes : length bs ≡ length a + (length b + length d)
    sizes = rw e (omega (arith, length-append a (b ++ d), length-append b d))

    width : length a + length b - length a ≡ length b
    width = omega arith
