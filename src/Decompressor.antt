-- ===== src/Decompressor.antt =====
-- The trait `Decompressor` of rust/mcap/src/sans_io/decompressor.rs, as a parameter: its
-- implementations call the libraries of LZ4 and zstd.
use mcap.Prelude.{ℕ, ◌+◌, ◌≤◌, ◌<◌, ◌≡◌, Option, length}
use mcap.Error.{Bytes, Result, ok, err, panic, stuck}

-- `decompress d src n` decompresses from `src` to a place of `n` bytes: how many bytes it consumed,
-- and the bytes that it wrote.
pub record Decompressor : Type 1 where
  pub State : Type 0
  pub next_read_size : State → ℕ
  pub decompress : State → Bytes → ℕ → Result (ℕ × Bytes) × State
  pub reset : State → Result State
  pub name : State → Bytes
  -- a new one of the compression that is named so, where the build has it
  pub create : Bytes → Option (Result State)

-- A call of the libraries returns.
abbrev pub Answers {ℓ} : {A : Type ℓ} → Result A → Type 0
Answers (ok a) = Unit
Answers (err e) = Unit
Answers panic = ⊥
Answers stuck = ⊥

-- What the documentation promises: no more is consumed than there is, and no more is written than
-- there is place for; no call panics.
pub record IsDecompressor (d : Decompressor) : Type 0 where
  pub consumed_in :
      (s s' : d.State) (src : Bytes) (n k : ℕ) (bs : Bytes)
      → d.decompress s src n ≡ (ok (k, bs), s')
      → k ≤ length src
  pub wrote_in :
      (s s' : d.State) (src : Bytes) (n k : ℕ) (bs : Bytes)
      → d.decompress s src n ≡ (ok (k, bs), s')
      → length bs ≤ n
  pub decompress_answers : (s : d.State) (src : Bytes) (n : ℕ) → Answers (d.decompress s src n).0
  pub reset_answers : (s : d.State) → Answers (d.reset s)
  pub create_answers :
      (name : Bytes) (r : Result d.State) → d.create name ≡ Option.some r → Answers r

-- A call that succeeds consumes or writes something.
abbrev pub Progresses : Decompressor → Type 0
Progresses d =
    (s s' : d.State) (src : Bytes) (n k : ℕ) (bs : Bytes)
    → 0 < n
    → d.decompress s src n ≡ (ok (k, bs), s')
    → 0 < k + length bs
