-- ===== src/Error.antt =====
-- The error type of rust/mcap/src/lib.rs and the outcome of a fallible call.
--
-- A `String` is the list of its UTF-8 bytes. `binrw::Error` is kept as far as the crate tells its
-- cases apart; the byte positions inside it are not kept, nor what an `io::Error` says.
use mcap.Prelude.{ℕ, List}

abbrev pub Bytes : Type 0
Bytes = List ℕ

-- binrw::Error: the input ended, `String::from_utf8` failed, or "Duplicate keys in map"
pub data BinError : Type 0 where
  eof utf8 duplicate_keys : BinError

pub data McapError : Type 0 where
  attachment_not_in_progress : McapError
  attachment_too_large : ℕ → ℕ → McapError
  attachment_incomplete : ℕ → ℕ → McapError
  bad_magic bad_footer : McapError
  bad_attachment_crc bad_chunk_crc bad_data_crc bad_summary_crc : ℕ → ℕ → McapError
  bad_index : McapError
  bad_attachment_length bad_chunk_length bad_schema_length : ℕ → ℕ → McapError
  private_record_opcode_is_reserved : ℕ → McapError
  conflicting_channels conflicting_schemas : Bytes → McapError
  parse : BinError → McapError
  io invalid_schema_id unexpected_eof unexpected_eoc : McapError
  unknown_channel : ℕ → ℕ → McapError
  unknown_schema : Bytes → ℕ → McapError
  unsupported_compression decompression_error : Bytes → McapError
  chunk_buffer_too_large : ℕ → McapError
  record_too_large : ℕ → ℕ → McapError
  chunk_too_large bad_chunk_start_offset : ℕ → McapError
  too_many_channels too_many_schemas unexpected_chunk_data_inserted : McapError
  attempted_write_after_failure bytes_after_end_magic : McapError

-- `McapResult`, with the ways in which a call fails to return: a panic (a failed assertion, a slice
-- out of range, `unreachable!`), and a loop that used up the fuel of its model.
pub data Result {ℓ} (A : Type ℓ) : Type ℓ where
  ok : A → Result A
  err : McapError → Result A
  panic : Result A
  stuck : Result A

infixl 5 ◌>>=◌
abbrev pub ◌>>=◌ {ℓ κ} : {A : Type ℓ} {B : Type κ} → Result A → (A → Result B) → Result B
ok a >>= f = f a
err e >>= f = err e
panic >>= f = panic
stuck >>= f = stuck
