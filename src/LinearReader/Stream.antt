-- ===== src/LinearReader/Stream.antt =====
-- What a linear reader that yields whole chunks has in front of it: the rest of a file of records.
pub mod Rules
pub mod Steps
pub mod Run
use mcap.Prelude.{
  ℕ, ◌+◌, ◌-◌, ◌^◌, ◌≤◌, ◌<◌, ◌≡◌, ◌≢◌, Bool, true, false, Option, none, some, List, [], ◌∷◌, ◌++◌,
  length, All,
}
use mcap.Error.{Bytes, Result, ok}
use mcap.Io.{Crc32}
use mcap.RwBuf
use mcap.RwBuf.Laws
use mcap.Records.{DataEnd, Footer}
use mcap.Records.Decode.{get_footer, get_data_end}
use mcap.Summary.{magic}
use mcap.Write.{framed}
use mcap.Decompressor.{Decompressor}
use mcap.LinearEvents.{read_request, record_read}
use mcap.LinearReader.{
  LinearReader, CurrentlyReading, start_magic, file_record, chunk_header, footer, data_end,
  validating_chunk_crc, chunk_record, padding_after_chunk, end_magic, after_end_magic,
}
use mcap.LinearReader.Moves.{Event}

-- Records as they stand in a file: an opcode and a body for each.
abbrev pub Framed : Type 0
Framed = List (ℕ × Bytes)

unfoldable pub frames : Framed → Bytes
frames [] = []
frames ((op, body) ∷ rs) = framed op body ++ frames rs

-- The footer record and the end magic.
abbrev pub end_of : Bytes → Bytes
end_of body = framed 0x02 body ++ magic

-- A record other than a footer, that the limit lets through. The body of a `DataEnd` is read.
abbrev pub IsItem : ℕ → ℕ × Bytes → Type 0
IsItem limit (op, body) =
    (op ≢ 0x02)
    × (length body ≤ limit)
    × (op ≡ 0x0f → (r : DataEnd × Bytes) × (get_data_end body ≡ ok r))

-- The rest of a file from the start of a record on, and the records that are in it.
pub record Ahead (limit : ℕ) (last : Bytes) (pending : Bytes) (out : Framed) : Type 0 where
  pub items : Framed
  pub are_items : All (IsItem limit) items
  pub bytes : pending ≡ frames items ++ end_of last
  pub records : out ≡ items ++ ((0x02, last) ∷ [])

module _ (c : Crc32) (d : Decompressor) (limit : ℕ) (last : Bytes) where
  -- The rest of a file from within a state on.
  abbrev pub Expects : CurrentlyReading c d → Bytes → Framed → Type 0
  Expects start_magic pending out =
      (rest : Bytes) × (pending ≡ magic ++ rest) × Ahead limit last rest out
  Expects file_record pending out = Ahead limit last pending out
  Expects (data_end len calculated) pending out =
      (body : Bytes) × (rest : Bytes) × (out' : Framed) × (pending ≡ body ++ rest)
      × (len ≡ length body)
      × (calculated ≡ none)
      × (out ≡ (0x0f, body) ∷ out')
      × IsItem limit (0x0f, body)
      × Ahead limit last rest out'
  Expects (footer len hasher) pending out =
      (pending ≡ last ++ magic) × (len ≡ length last) × (hasher ≡ none) × (out ≡ (0x02, last) ∷ [])
  Expects end_magic pending out = (pending ≡ magic) × (out ≡ [])
  Expects after_end_magic pending out = (pending ≡ []) × (out ≡ [])
  Expects _ pending out = ⊥

  -- A reader without CRC checks over whole records, `future` the bytes that it is still to be given.
  pub record IsReady (future : Bytes) (out : Framed) (s : LinearReader c d) : Type 0 where
    pub file_valid : Laws.IsValid c s.file_data
    pub no_hasher : s.file_data.hasher ≡ none
    pub limit_set : s.options.record_length_limit ≡ some limit
    pub emits_chunks : s.options.emit_chunks ≡ true
    pub reads_start : s.options.skip_start_magic ≡ false
    pub reads_end : s.options.skip_end_magic ≡ false
    pub ends_there : s.options.check_finishes_after_end_magic ≡ false
    pub no_summary_crc : s.options.validate_summary_section_crc ≡ false
    pub not_at_eof : s.at_eof ≡ false
    pub ahead : Expects s.currently_reading (RwBuf.unread c s.file_data ++ future) out

  -- What an event says: a request that the rest of the file can serve, the next record, or the end.
  pub data Tells (future : Bytes) (out : Framed) : Event → LinearReader c d → Type 0 where
    asks :
        (n : ℕ) (s : LinearReader c d)
        → 0 < n
        → n ≤ length future
        → IsReady future out s
        → Tells future out (some (ok (read_request n))) s
    gives :
        (op : ℕ) (body : Bytes) (out' : Framed) (s : LinearReader c d)
        → out ≡ (op, body) ∷ out'
        → IsReady future out' s
        → Tells future out (some (ok (record_read op body))) s
    ends : (s : LinearReader c d) → out ≡ [] → Tells future out none s
