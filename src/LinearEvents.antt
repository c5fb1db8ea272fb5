-- ===== src/LinearEvents.antt =====
-- What the sans-I/O `LinearReader` (rust/mcap/src/sans_io/linear_reader.rs) offers to its clients: its
-- events and its operations, as an interface.
use mcap.Prelude.{ℕ, ◌<◌, ◌≡◌, Option, some}
use mcap.Error.{Bytes, Result, ok, stuck}

-- `LinearReadEvent`
pub data LinearReadEvent : Type 0 where
  read_request : ℕ → LinearReadEvent
  record_read : ℕ → Bytes → LinearReadEvent

pub record LinearReader : Type 1 where
  pub Reader : Type 0
  -- a reader that expects no magic at the start, with a limit on the length of a record
  pub new_with_limit : Option ℕ → Reader
  pub next_event : Reader → Option (Result LinearReadEvent) × Reader
  pub notify_read : Reader → ℕ → Reader
  pub insert : Reader → ℕ → Reader
  -- Between two inserts a reader holds finitely many records: a bound on those that it can still return.
  pub held : Reader → ℕ
  pub fewer :
      (r r' : Reader) (op : ℕ) (bytes : Bytes)
      → next_event r ≡ (some (ok (record_read op bytes)), r')
      → held r' < held r
  -- and its `next_event` returns
  pub answers : (r r' : Reader) → next_event r ≡ (some stuck, r') → ⊥
