-- ===== src/Records/Maps.antt =====
-- `BTreeMap::insert`, and the length-prefixed sequences of records.rs: `parse_vec`, `write_vec`,
-- `parse_string_map`, `write_string_map`, `parse_int_map`, `write_int_map`.
pub mod RoundTrip
pub mod Entries
pub mod Total
use Prim.Native.Nat.{compare}
use mcap.Prelude.{
  ℕ, zero, suc, ◌+◌, ◌-◌, ◌%◌, ◌^◌, Ordering, true, false, Option, none, some, List, [], ◌∷◌, ◌++◌,
  length, drop, ltb, ◌==◌, if◌then◌else◌,
}
use mcap.Error
use mcap.Error.{Bytes, Result, ok, err, panic, stuck, parse, duplicate_keys}
use mcap.Bytes.{Parser, pure, ◌>>=◌, put_le, get_le, get_string, put_string}

-- The order of the keys, `Ord` in Rust.
pub record KeyOrder {ℓ} (K : Type ℓ) : Type ℓ where
  pub cmp : K → K → Ordering

instance abbrev pub nat_order : KeyOrder ℕ
nat_order = record { cmp = compare }

-- `String` compares by bytes, a proper prefix first.
unfoldable pub compare_bytes : Bytes → Bytes → Ordering
compare_bytes [] [] = Ordering.eq
compare_bytes [] (b ∷ bs) = Ordering.lt
compare_bytes (a ∷ as') [] = Ordering.gt
compare_bytes (a ∷ as') (b ∷ bs) =
    let rest = compare_bytes as' bs in
    elim (compare a b) [
      | Ordering.lt ↦ Ordering.lt
      | Ordering.eq ↦ rest
      | Ordering.gt ↦ Ordering.gt
    ]

instance abbrev pub bytes_order : KeyOrder Bytes
bytes_order = record { cmp = compare_bytes }

module _ {ℓ κ} {K : Type ℓ} {V : Type κ} ⦃o : KeyOrder K⦄ where
  -- `BTreeMap::get`
  unfoldable pub lookup : K → List (K × V) → Option V
  lookup k [] = none
  lookup k ((j, w) ∷ m) =
      let rest = lookup k m in
      elim (o.cmp k j) [ Ordering.lt ↦ none | Ordering.eq ↦ some w | Ordering.gt ↦ rest ]

  -- The map that `BTreeMap::insert` leaves; the value it returns is `lookup k m`.
  unfoldable pub insert : K → V → List (K × V) → List (K × V)
  insert k v [] = (k, v) ∷ []
  insert k v ((j, w) ∷ m) =
      let rest = insert k v m in
      elim (o.cmp k j) [
        | Ordering.lt ↦ (k, v) ∷ (j, w) ∷ m
        | Ordering.eq ↦ (j, v) ∷ m
        | Ordering.gt ↦ (j, w) ∷ rest
      ]

  unfoldable pub insert_found : K → V → List (K × V) → Option V → Parser (List (K × V))
  insert_found k v m none = pure (insert k v m)
  insert_found k v m (some _prev) = λ _. err (parse duplicate_keys)

  -- `if let Some(_prev) = parsed.insert(k, v) { return Err(...) }`
  unfoldable pub insert_new : K → V → List (K × V) → Parser (List (K × V))
  unfolding insert_found
  insert_new k v m = insert_found k v m (lookup k m)

-- `while (reader.stream_position()? - pos) < byte_len`: `total` is what was left at `pos`.
-- A round reads a byte at least, so a round for each byte that is left is enough (`Maps` is used
-- with `suc (length bs)` rounds).
module _ {ℓ} {S : Type ℓ} (step : S → Parser S) (byte_len total : ℕ) where
  unfoldable pub while_bytes : ℕ → S → Parser S
  while_bytes zero s bs = stuck
  while_bytes (suc fuel) s bs = elim (ltb (total - length bs) byte_len) [
    | true ↦ Error.◌>>=◌ (step s bs) (λ r. while_bytes fuel r.0 r.1)
    | false ↦ ok (s, bs)
  ]

module _ {ℓ} {A : Type ℓ} where
  -- The part that the three parsers share: the byte length, then the rounds.
  unfoldable pub parse_sequence : (List A → Parser (List A)) → Parser (List A)
  parse_sequence step =
      get_le 4 >>= λ byte_len bs. while_bytes step byte_len (length bs) (suc (length bs)) [] bs

  unfoldable pub parse_vec : Parser A → Parser (List A)
  parse_vec item = parse_sequence (λ parsed. item >>= λ e. pure (parsed ++ (e ∷ [])))

  -- What the elements are written as, one after the other.
  unfoldable pub write_all : (A → Bytes) → List A → Bytes
  write_all write [] = []
  write_all write (e ∷ es) = write e ++ write_all write es

  -- `write_vec` writes a placeholder for the length, then the elements, seeks back and writes the
  -- length over the placeholder. The writer starts at position 0 here.
  unfoldable pub write_vec : (A → Bytes) → List A → Bytes
  write_vec write v =
      let written = put_le 4 (2 ^ 32 - 1) ++ write_all write v in
      let data_len = length written - 0 - 4 in put_le 4 (data_len % 2 ^ 32) ++ drop 4 written

unfoldable pub parse_string_map : Parser (List (Bytes × Bytes))
parse_string_map =
    parse_sequence (λ parsed. get_string >>= λ k. get_string >>= λ v. insert_new k v parsed)

unfoldable pub write_string_pair : Bytes × Bytes → Bytes
write_string_pair (k, v) = put_string k ++ put_string v

unfoldable pub string_map_len : List (Bytes × Bytes) → ℕ
string_map_len [] = 0
string_map_len ((k, v) ∷ m) = 8 + length k + length v + string_map_len m

-- `panic` is the failure of the closing `assert_eq!` on the stream's position.
unfoldable pub write_string_map : List (Bytes × Bytes) → Result Bytes
write_string_map m =
    let byte_len = string_map_len m in
    let written = write_all write_string_pair m in
    if length written == byte_len then ok (put_le 4 (byte_len % 2 ^ 32) ++ written) else panic

-- The maps of the format go from u16 to u64. `kw` and `vw` are the sizes of key and value in bytes.
unfoldable pub parse_int_map : ℕ → ℕ → Parser (List (ℕ × ℕ))
parse_int_map kw vw =
    parse_sequence (λ parsed. get_le kw >>= λ k. get_le vw >>= λ v. insert_new k v parsed)

unfoldable pub write_int_pair : ℕ → ℕ → ℕ × ℕ → Bytes
write_int_pair kw vw (k, v) = put_le kw k ++ put_le vw v

-- `byte_len += size_of::<K>() + size_of::<V>()` for each entry
unfoldable pub int_map_len : ℕ → ℕ → List (ℕ × ℕ) → ℕ
int_map_len kw vw [] = 0
int_map_len kw vw (_ ∷ m) = kw + vw + int_map_len kw vw m

unfoldable pub write_int_map : ℕ → ℕ → List (ℕ × ℕ) → Result Bytes
write_int_map kw vw m =
    let byte_len = int_map_len kw vw m in
    let written = write_all (write_int_pair kw vw) m in
    if length written == byte_len then ok (put_le 4 (byte_len % 2 ^ 32) ++ written) else panic
