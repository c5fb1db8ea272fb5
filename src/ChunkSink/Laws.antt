-- ===== src/ChunkSink/Laws.antt =====
-- A buffered chunk and a direct one come out the same.
use mcap.Prelude.{◌≡◌, refl, ap, none, some, List, [], ◌∷◌, ◌++◌, append-nil, append_assoc, length}
use mcap.Error.{Bytes}
use mcap.Cursor.{write_at_end}
use mcap.Io.{Sink, IsStream}
use mcap.Write.Attachment.RoundTrip.{joined}
use mcap.ChunkSink.{
  direct, buffered, ChunkSink, new, write_to, write, finish_with, finish, write_parts,
}

module _ {W : Type 0} (k : Sink W) (stream : IsStream k) where
  abbrev holding : W → Bytes → ChunkSink k
  holding w bs = record { inner = w; buffer = some (record { bytes = bs; position = length bs }) }

  write_parts-buffered :
      (parts : List Bytes) (w : W) (old : Bytes)
      → write_parts k (holding w old) parts ≡ holding w (old ++ joined parts)
  unfolding write_parts write write_to
  write_parts-buffered [] w old = rw append-nil refl
  write_parts-buffered (bs ∷ rest) w old =
      rw (write_at_end old bs) (rw append_assoc at (write_parts-buffered rest w (old ++ bs)))

  write_parts-direct :
      (parts : List Bytes) (w : W) (bs : Bytes)
      → write_parts k (record { inner = k.write w bs; buffer = none }) parts
        ≡ record { inner = k.write w (bs ++ joined parts); buffer = none }
  unfolding write_parts write write_to
  write_parts-direct [] w bs = rw append-nil refl
  write_parts-direct (cs ∷ rest) w bs =
      rw (stream.write_append w bs cs) (rw append_assoc at (write_parts-direct rest w (bs ++ cs)))

  -- Over any stream, one write or more through the buffer of a `ChunkSink`, whatever the buffer
  -- held before, and the same writes without a buffer leave the same stream at `finish`: the
  -- joined bytes are written once.
  pub finish-buffered :
      (w : W) (old : Bytes) (part : Bytes) (parts : List Bytes)
      → (finish k (write_parts k (new k w (buffered old)) (part ∷ parts))
          ≡ (k.write w (joined (part ∷ parts)), buffered (joined (part ∷ parts))))
        × (finish k (write_parts k (new k w direct) (part ∷ parts))
            ≡ (k.write w (joined (part ∷ parts)), direct))
  unfolding finish finish_with new write_parts write write_to
  finish-buffered w old part parts = (
    ap (finish k) (write_parts-buffered (part ∷ parts) w []),
    ap (finish k) (write_parts-direct parts w part),
  )
