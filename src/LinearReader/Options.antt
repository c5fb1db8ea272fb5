-- ===== src/LinearReader/Options.antt =====
-- `LinearReaderOptions`, `check_len` and `clamp_to_usize`, and the arithmetic of `usize` and u64.
use mcap.Prelude.{ℕ, ◌+◌, ◌-◌, ◌^◌, min, Bool, false, Option, none, some, ltb, leb, if◌then◌else◌}
use mcap.Error.{Result, ok, err, panic, McapError}

pub record LinearReaderOptions : Type 0 where
  pub skip_start_magic : Bool
  pub skip_end_magic : Bool
  pub check_finishes_after_end_magic : Bool
  pub emit_chunks : Bool
  pub validate_chunk_crcs : Bool
  pub prevalidate_chunk_crcs : Bool
  pub validate_data_section_crc : Bool
  pub validate_summary_section_crc : Bool
  pub record_length_limit : Option ℕ

abbrev pub default_options : LinearReaderOptions
default_options = record {
  skip_start_magic = false;
  skip_end_magic = false;
  check_finishes_after_end_magic = false;
  emit_chunks = false;
  validate_chunk_crcs = false;
  prevalidate_chunk_crcs = false;
  validate_data_section_crc = false;
  validate_summary_section_crc = false;
  record_length_limit = none;
}

unfoldable pub with_skip_start_magic : LinearReaderOptions → Bool → LinearReaderOptions
with_skip_start_magic o b = record o { skip_start_magic = b }

unfoldable pub with_skip_end_magic : LinearReaderOptions → Bool → LinearReaderOptions
with_skip_end_magic o b = record o { skip_end_magic = b }

unfoldable pub with_check_finishes_after_end_magic :
    LinearReaderOptions → Bool → LinearReaderOptions
with_check_finishes_after_end_magic o b = record o { check_finishes_after_end_magic = b }

unfoldable pub with_emit_chunks : LinearReaderOptions → Bool → LinearReaderOptions
with_emit_chunks o b = record o { emit_chunks = b }

unfoldable pub with_validate_chunk_crcs : LinearReaderOptions → Bool → LinearReaderOptions
with_validate_chunk_crcs o b = record o { validate_chunk_crcs = b }

unfoldable pub with_prevalidate_chunk_crcs : LinearReaderOptions → Bool → LinearReaderOptions
with_prevalidate_chunk_crcs o b = record o { prevalidate_chunk_crcs = b }

unfoldable pub with_validate_data_section_crc : LinearReaderOptions → Bool → LinearReaderOptions
with_validate_data_section_crc o b = record o { validate_data_section_crc = b }

unfoldable pub with_validate_summary_section_crc : LinearReaderOptions → Bool → LinearReaderOptions
with_validate_summary_section_crc o b = record o { validate_summary_section_crc = b }

unfoldable pub with_record_length_limit : LinearReaderOptions → ℕ → LinearReaderOptions
with_record_length_limit o limit = record o { record_length_limit = some limit }

unfoldable pub check_len : ℕ → Option ℕ → Option ℕ
check_len len (some limit) = if ltb limit len then none else some len
check_len len none = some len

unfoldable pub clamp_to_usize : ℕ → ℕ
clamp_to_usize len = min len (2 ^ 64 - 1)

-- `Option::ok_or`
unfoldable pub ok_or {ℓ} : {A : Type ℓ} → Option A → McapError → Result A
ok_or (some a) e = ok a
ok_or none e = err e

unfoldable pub checked_sub : ℕ → ℕ → Option ℕ
checked_sub a b = if leb b a then some (a - b) else none

-- An addition or subtraction that leaves the 64 bits panics in a build with overflow checks, and
-- wraps in a build without.
unfoldable pub add_usize : Bool → ℕ → ℕ → Result ℕ
add_usize checks a b =
    if ltb (a + b) (2 ^ 64) then ok (a + b) else if checks then panic else ok (a + b - 2 ^ 64)

unfoldable pub sub_u64 : Bool → ℕ → ℕ → Result ℕ
sub_u64 checks a b = if leb b a then ok (a - b) else if checks then panic else ok (2 ^ 64 + a - b)
