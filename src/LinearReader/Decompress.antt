-- ===== src/LinearReader/Decompress.antt =====
-- `get_decompressor` and `decompress_inner`.
--
-- `decompress_inner` works on five places at once, which are the fields of `Job`. Its loop is on fuel.
use mcap.Prelude.{
  ℕ, zero, suc, ◌+◌, ◌-◌, min, Bool, Option, none, some, List, [], ◌∷◌, length, take, ltb, ◌==◌,
  if◌then◌else◌,
}
use mcap.Error.{
  Bytes, Result, ok, err, panic, stuck, ◌>>=◌, unsupported_compression, unexpected_eoc,
}
use mcap.HashMap.{bytes_eq}
use mcap.Io.{Crc32}
use mcap.RwBuf
use mcap.RwBuf.{RwBuf}
use mcap.Decompressor.{Decompressor}
use mcap.LinearReader.Options.{clamp_to_usize, sub_u64}

-- `HashMap` with names as keys
module _ {V : Type 0} where
  unfoldable pub lookup : Bytes → List (Bytes × V) → Option V
  lookup name [] = none
  lookup name ((k, v) ∷ m) = if bytes_eq k name then some v else lookup name m

  unfoldable pub remove : Bytes → List (Bytes × V) → List (Bytes × V)
  remove name [] = []
  remove name ((k, v) ∷ m) =
      let rest = remove name m in if bytes_eq k name then rest else (k, v) ∷ rest

module _ (d : Decompressor) where
  unfoldable pub created : Bytes → Option (Result d.State) → Result (Option d.State)
  created [] r = ok none
  created (b ∷ name) none = err (unsupported_compression (b ∷ name))
  created (b ∷ name) (some r) = r >>= λ s. ok (some s)

  unfoldable pub get_decompressor_in :
      List (Bytes × d.State)
      → Bytes
      → Option d.State
      → Result (Option d.State) × List (Bytes × d.State)
  unfolding created remove
  get_decompressor_in ds name (some s) = (ok (some s), remove name ds)
  get_decompressor_in ds name none = (created name (d.create name), ds)

  unfoldable pub get_decompressor :
      List (Bytes × d.State) → Bytes → Result (Option d.State) × List (Bytes × d.State)
  unfolding get_decompressor_in lookup
  get_decompressor ds name = get_decompressor_in ds name (lookup name ds)

module _ (c : Crc32) (d : Decompressor) (checks : Bool) where
  pub record Job : Type 0 where
    pub decompressor : d.State
    pub src_buf : RwBuf c
    pub dest_buf : RwBuf c
    pub compressed_remaining : ℕ
    pub uncompressed_remaining : ℕ

  pub data JobRound : Type 0 where
    again : Job → JobRound
    done : Result (Option ℕ) → Job → JobRound

  -- `j` has the decompressor after its call.
  unfoldable pub advance : Job → ℕ → Bytes → Result Job
  advance j consumed wrote = do
    src ← RwBuf.mark_read c j.src_buf consumed
    dest ← RwBuf.mark_written c (RwBuf.write_tail c j.dest_buf wrote) (length wrote)
    compressed ← sub_u64 checks j.compressed_remaining consumed
    uncompressed ← sub_u64 checks j.uncompressed_remaining (length wrote)
    ok (record {
      decompressor = j.decompressor;
      src_buf = src;
      dest_buf = dest;
      compressed_remaining = compressed;
      uncompressed_remaining = uncompressed;
    })

  unfoldable pub advanced : Job → Result Job → JobRound
  advanced j (ok j') = again j'
  advanced j (err e) = done (err e) j
  advanced j panic = done panic j
  advanced j stuck = done stuck j

  unfoldable pub called : Job → Result (ℕ × Bytes) × d.State → JobRound
  unfolding advanced advance
  called j (ok (consumed, wrote), s) =
      let j' : Job = record j { decompressor = s } in advanced j' (advance j' consumed wrote)
  called j (err e, s) = done (err e) (record j { decompressor = s })
  called j (panic, s) = done panic (record j { decompressor = s })
  called j (stuck, s) = done stuck (record j { decompressor = s })

  -- the part of the input that belongs to the chunk
  unfoldable pub src : Job → Bytes
  unfolding clamp_to_usize RwBuf.unread RwBuf.len
  src j =
      take (min (RwBuf.len c j.src_buf) (clamp_to_usize j.compressed_remaining))
        (RwBuf.unread c j.src_buf)

  unfoldable pub job_round : Job → JobRound
  unfolding called src RwBuf.len RwBuf.unwritten
  job_round j =
      let need = d.next_read_size j.decompressor in
      let have = RwBuf.len c j.src_buf in
      let room = length (RwBuf.unwritten c j.dest_buf) in
      if ltb have need
      then done (ok (some (need - have))) j
      else if room == 0
      then done (ok none) j
      else if j.uncompressed_remaining == 0
      then done (err unexpected_eoc) j
      else called j (d.decompress j.decompressor (src j) room)

  unfoldable pub decompress_loop : ℕ → Job → Result (Option ℕ) × Job
  unfolding job_round
  decompress_loop zero j = (stuck, j)
  decompress_loop (suc fuel) j = elim (job_round j) [
    | again j' ↦ decompress_loop fuel j'
    | done r j' ↦ (r, j')
  ]

  -- Each round that goes on consumes or writes a byte.
  abbrev pub decompress_fuel : Job → ℕ → ℕ
  decompress_fuel j additional = suc (RwBuf.len c j.src_buf + additional)

  unfoldable pub reserved : Job → ℕ → Result (RwBuf c) → Result (Option ℕ) × Job
  unfolding decompress_loop
  reserved j additional (ok dest) =
      decompress_loop (decompress_fuel j additional) (record j { dest_buf = dest })
  reserved j additional (err e) = (err e, j)
  reserved j additional panic = (panic, j)
  reserved j additional stuck = (stuck, j)

  unfoldable pub decompress_inner : ℕ → Job → Result (Option ℕ) × Job
  unfolding reserved RwBuf.reserve_exact RwBuf.len
  decompress_inner n j =
      let additional = n - RwBuf.len c j.dest_buf in
      if additional == 0
      then (ok none, j)
      else reserved j additional (RwBuf.reserve_exact c j.dest_buf additional)
