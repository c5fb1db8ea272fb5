-- ===== src/RwBuf.antt =====
-- `RwBuf` of rust/mcap/src/sans_io/linear_reader.rs: a buffer with a cursor for reading, `start`, and
-- one for writing, `end`.
--
-- The subtractions `end - start` and the slices between the cursors are those of cursors in order,
-- `start <= end <= data.len()`, as RwBuf.Laws shows them to be. `crc32fast` is the parameter `c`.
pub mod Laws
pub mod Queue
use mcap.Prelude.{
  ℕ, ◌+◌, ◌-◌, ◌^◌, Bool, ◌&&◌, Option, none, some, [], ◌++◌, length, take, drop, ltb, leb,
  if◌then◌else◌,
}
use mcap.Error.{Bytes, Result, ok, panic, ◌>>=◌}
use mcap.Cursor.{resize}
use mcap.Io.{Crc32, update_hasher}
use mcap.Summary.{fill}

module _ (c : Crc32) where
  open c use {Hasher, fresh}

  pub record RwBuf : Type 0 where
    pub body : Bytes
    pub start : ℕ
    pub end : ℕ
    pub hasher : Option Hasher

  unfoldable pub new : Bool → RwBuf
  new instantiate_hasher = record {
    body = [];
    start = 0;
    end = 0;
    hasher = if instantiate_hasher then some fresh else none;
  }

  -- the length of the unread section
  unfoldable pub len : RwBuf → ℕ
  len b = b.end - b.start

  unfoldable pub unread : RwBuf → Bytes
  unread b = take (b.end - b.start) (drop b.start b.body)

  unfoldable pub unwritten : RwBuf → Bytes
  unwritten b = drop b.end b.body

  unfoldable pub mark_read : RwBuf → ℕ → Result RwBuf
  unfolding unread
  mark_read b n =
      if leb n (b.end - b.start)
      then ok
          (record b { hasher = update_hasher c b.hasher (take n (unread b)); start = b.start + n })
      else panic

  unfoldable pub mark_written : RwBuf → ℕ → Result RwBuf
  unfolding unwritten
  mark_written b n =
      if leb n (length (unwritten b)) then ok (record b { end = b.end + n }) else panic

  -- `checked_add(..).unwrap()` of two `usize`
  unfoldable pub reserve_exact : RwBuf → ℕ → Result RwBuf
  reserve_exact b additional =
      if ltb (b.end + additional) (2 ^ 64)
      then ok (record b { body = resize (b.end + additional) b.body })
      else panic

  -- `data.copy_within(start..end, 0)`
  unfoldable pub compact : RwBuf → RwBuf
  unfolding unread
  compact b =
      if ltb 4096 b.start && ltb (b.end - b.start) b.start
      then record b {
        body = unread b ++ drop (b.end - b.start) b.body;
        start = 0;
        end = b.end - b.start;
      }
      else b

  -- The view that `tail_with_size` returns is what is `unwritten` afterwards.
  unfoldable pub tail_with_size : RwBuf → ℕ → RwBuf
  unfolding compact
  tail_with_size b n = let b' = compact b in record b' { body = resize (b'.end + n) b'.body }

  -- What the holder of a view of the unwritten part does to it: it writes to its front.
  unfoldable pub write_tail : RwBuf → Bytes → RwBuf
  write_tail b got = record b { body = fill b.end got b.body }

  unfoldable pub clear : RwBuf → RwBuf
  clear b = record b { body = []; start = 0; end = 0 }

  unfoldable pub consume : RwBuf → ℕ → Result (Bytes × RwBuf)
  unfolding mark_read
  consume b n = mark_read b n >>= λ b'. ok (take n (drop b.start b.body), b')

  unfoldable pub consume_without_hashing : RwBuf → ℕ → Result (Bytes × RwBuf)
  consume_without_hashing b n =
      if leb n (b.end - b.start)
      then ok (take n (drop b.start b.body), record b { start = b.start + n })
      else panic

  -- `hasher_mut()`, as a place that is written to
  unfoldable pub set_hasher : RwBuf → Option Hasher → RwBuf
  set_hasher b h = record b { hasher = h }
