-- ===== src/Io.antt =====
-- The traits `Write` and `Seek` as far as the writer uses them, and rust/mcap/src/io_utils.rs.
--
-- A sink accepts all that is written to it: the I/O errors of the stream below the writer are not
-- modelled. `crc32fast` is the parameter `Crc32`.
use mcap.Prelude.{
  ℕ, ◌+◌, ◌^◌, ◌<◌, ◌≡◌, refl, ap, Bool, Option, none, some, ◌++◌, append_assoc, length,
  length-append, arith, if◌then◌else◌,
}
use mcap.Error.{Bytes}

-- `crc32fast::Hasher`, with what its documentation says: updates add up, `hash` is one update of a
-- fresh hasher, and a checksum is a u32.
pub record Crc32 : Type 1 where
  pub Hasher : Type 0
  pub fresh : Hasher
  pub update : Hasher → Bytes → Hasher
  pub finalize : Hasher → ℕ
  pub hash : Bytes → ℕ
  pub update_append : (h : Hasher) (xs ys : Bytes) → update (update h xs) ys ≡ update h (xs ++ ys)
  pub hash_lem : (xs : Bytes) → hash xs ≡ finalize (update fresh xs)
  pub finalize-lt : (h : Hasher) → finalize h < 2 ^ 32

-- A stream that takes bytes and tells its position.
pub record Sink (W : Type 0) : Type 0 where
  pub write : W → Bytes → W
  pub stream_position : W → ℕ

-- Writes add up, and move the position by what was written.
pub record IsStream {W : Type 0} (k : Sink W) : Type 0 where
  pub write_append : (w : W) (xs ys : Bytes) → k.write (k.write w xs) ys ≡ k.write w (xs ++ ys)
  pub position_write :
      (w : W) (xs : Bytes) → k.stream_position (k.write w xs) ≡ k.stream_position w + length xs

-- A file that is written from its start is the bytes that it holds.
abbrev pub file : Sink Bytes
file = record { write = λ w bs. w ++ bs; stream_position = λ w. length w }

pub file-IsStream : IsStream file
file-IsStream = record {
  write_append = λ w xs ys. append_assoc w xs ys;
  position_write = λ w xs. length-append w xs;
}

module _ (c : Crc32) where
  open c use {Hasher, fresh, update, finalize}

  pub record CountingCrcWriter (W : Type 0) : Type 0 where
    pub inner : W
    pub hasher : Option Hasher
    pub count : ℕ

  unfoldable pub checksum : Option Hasher → ℕ
  checksum none = 0
  checksum (some h) = finalize h

  unfoldable pub update_hasher : Option Hasher → Bytes → Option Hasher
  update_hasher none bs = none
  update_hasher (some h) bs = some (update h bs)

  module _ {W : Type 0} where
    unfoldable pub new : W → Bool → CountingCrcWriter W
    new w calculate_crc = record {
      inner = w;
      hasher = if calculate_crc then some fresh else none;
      count = 0;
    }

    unfoldable pub with_hasher : W → Option Hasher → CountingCrcWriter W
    with_hasher w hasher = record { inner = w; hasher = hasher; count = 0 }

    unfoldable pub position : CountingCrcWriter W → ℕ
    position w = w.count

    unfoldable pub finished : CountingCrcWriter W → W × Option Hasher
    finished w = (w.inner, w.hasher)

    unfoldable pub current_checksum : CountingCrcWriter W → ℕ
    unfolding checksum
    current_checksum w = checksum w.hasher

  -- `Write` and `Seek` for `CountingCrcWriter`
  unfoldable pub counting_write :
      {W : Type 0} → Sink W → CountingCrcWriter W → Bytes → CountingCrcWriter W
  unfolding update_hasher
  counting_write k w bs = record {
    inner = k.write w.inner bs;
    hasher = update_hasher w.hasher bs;
    count = w.count + length bs;
  }

  abbrev pub counting : {W : Type 0} → Sink W → Sink (CountingCrcWriter W)
  counting k = record { write = counting_write k; stream_position = λ w. k.stream_position w.inner }

  pub update_hasher_append :
      (h : Option Hasher) (xs ys : Bytes)
      → update_hasher (update_hasher h xs) ys ≡ update_hasher h (xs ++ ys)
  unfolding update_hasher
  update_hasher_append none xs ys = refl
  update_hasher_append (some h) xs ys = ap some (c.update_append h xs ys)

  count_append : (n : ℕ) (xs ys : Bytes) → n + length xs + length ys ≡ n + length (xs ++ ys)
  count_append n xs ys = omega (arith, length-append xs ys)

  pub counting-IsStream : {W : Type 0} (k : Sink W) → IsStream k → IsStream (counting k)
  unfolding counting_write
  counting-IsStream k s = record {
    write_append = λ w xs ys i. record {
      inner = s.write_append w.inner xs ys i;
      hasher = update_hasher_append w.hasher xs ys i;
      count = count_append w.count xs ys i;
    };
    position_write = λ w xs. s.position_write w.inner xs;
  }
