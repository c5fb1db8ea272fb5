-- ===== src/Records/Maps/Entries.antt =====
-- The maps of records.rs: what was written is read back, and the writers' assertions hold.
use mcap.Prelude.{
  ℕ, ◌+◌, ◌%◌, ◌^◌, ◌<◌, ◌≡◌, refl, true, List, [], ◌∷◌, ◌++◌, arith, length, length-append, All,
  ◌==◌,
}
use mcap.Error.{Bytes, ok}
use mcap.Bytes.{◌>>=◌, put_le, get_le, get_string, put_string}
use mcap.Bytes.RoundTrip.{
  Decodes, Decodes-bind, Decodes-checked, get_le-put_le, length-put_le, get_string-put_string,
  StringFits,
}
use mcap.Records.Maps.{
  nat_order, bytes_order, insert_new, parse_string_map, parse_int_map, write_all, write_string_map,
  write_string_pair, string_map_len, write_int_map, write_int_pair, int_map_len,
}
use mcap.Records.Maps.RoundTrip.{Chain, IsSortedFrom, insert_new_above, parse_sequence-write_all}

abbrev pub PairFits : Bytes × Bytes → Type 0
PairFits p = StringFits p.0 × StringFits p.1

-- The maps of strings that the format can hold.
pub record StringMapFits (m : List (Bytes × Bytes)) : Type 0 where
  pub sorted : IsSortedFrom [] m
  pub strings : All PairFits m
  pub short : string_map_len m < 2 ^ 32

length-put_string : (s : Bytes) → length (put_string s) ≡ 4 + length s
unfolding put_string
length-put_string s =
    omega
      (arith, length-append (put_le 4 (length s % 2 ^ 32)) s, length-put_le 4 (length s % 2 ^ 32))

length-write_string_pair :
    (k v : Bytes) → length (write_string_pair (k, v)) ≡ 8 + length k + length v
unfolding write_string_pair
length-write_string_pair k v =
    omega
      (arith, length-append (put_string k) (put_string v), length-put_string k, length-put_string v)

-- The assertion of `write_string_map` holds: it counts the bytes that it writes.
pub string_map_len_lem :
    (m : List (Bytes × Bytes)) → length (write_all write_string_pair m) ≡ string_map_len m
unfolding write_all string_map_len
string_map_len_lem [] = refl
string_map_len_lem ((k, v) ∷ m) = omega (
  arith,
  length-append (write_string_pair (k, v)) (write_all write_string_pair m),
  length-write_string_pair k v,
  string_map_len_lem m,
)

==-refl : (n m : ℕ) → n ≡ m → (n == m) ≡ true
==-refl n m h = ground arith

pub write_string_map-ok :
    (m : List (Bytes × Bytes))
    → write_string_map m
      ≡ ok (
          put_le 4 (length (write_all write_string_pair m) % 2 ^ 32)
          ++ write_all write_string_pair m)
unfolding write_string_map
write_string_map-ok m = rw (==-refl _ _ (string_map_len_lem m), ← string_map_len_lem m)

Chain-string_map :
    (m s : List (Bytes × Bytes))
    → IsSortedFrom s m
    → All PairFits m
    → Chain
        (λ parsed. get_string >>= λ k. get_string >>= λ v. insert_new k v parsed)
        write_string_pair
        s
        m
unfolding write_string_pair
Chain-string_map [] s h k = tt
Chain-string_map ((k, v) ∷ m) s (above, sorted) (fits, more) = (
  Decodes-bind _ (get_string-put_string k fits.0)
      (Decodes-checked _ (get_string-put_string v fits.1) (insert_new_above k v s above)),
  omega (arith, length-write_string_pair k v),
  Chain-string_map m _ sorted more,
)

-- A map of strings that is sorted and fits the format is written without an error, and
-- `parse_string_map` reads it back.
pub parse_string_map-write_string_map :
    (m : List (Bytes × Bytes))
    → StringMapFits m
    → (bs : Bytes) × (write_string_map m ≡ ok bs) × Decodes parse_string_map bs m
unfolding parse_string_map
parse_string_map-write_string_map m h = (
  _,
  write_string_map-ok m,
  parse_sequence-write_all _ write_string_pair m (Chain-string_map m [] h.sorted h.strings)
      (rw string_map_len_lem h.short),
)

module _ (kw vw : ℕ) where
  abbrev pub IntsFit : ℕ × ℕ → Type 0
  IntsFit p = (p.0 < 256 ^ kw) × (p.1 < 256 ^ vw)

  pub record IntMapFits (m : List (ℕ × ℕ)) : Type 0 where
    pub sorted : IsSortedFrom [] m
    pub ints : All IntsFit m
    pub short : int_map_len kw vw m < 2 ^ 32

  length-write_int_pair : (k v : ℕ) → length (write_int_pair kw vw (k, v)) ≡ kw + vw
  unfolding write_int_pair
  length-write_int_pair k v =
      omega
        (arith, length-append (put_le kw k) (put_le vw v), length-put_le kw k, length-put_le vw v)

  -- The assumption of `write_int_map` holds: an integer is written in as many bytes as it has.
  pub int_map_len_lem :
      (m : List (ℕ × ℕ)) → length (write_all (write_int_pair kw vw) m) ≡ int_map_len kw vw m
  unfolding write_all int_map_len
  int_map_len_lem [] = refl
  int_map_len_lem ((k, v) ∷ m) = omega (
    arith,
    length-append (write_int_pair kw vw (k, v)) (write_all (write_int_pair kw vw) m),
    length-write_int_pair k v,
    int_map_len_lem m,
  )

  pub write_int_map-ok :
      (m : List (ℕ × ℕ))
      → write_int_map kw vw m
        ≡ ok (
            put_le 4 (length (write_all (write_int_pair kw vw) m) % 2 ^ 32)
            ++ write_all (write_int_pair kw vw) m)
  unfolding write_int_map
  write_int_map-ok m = rw (==-refl _ _ (int_map_len_lem m), ← int_map_len_lem m)

  Chain-int_map :
      (m s : List (ℕ × ℕ))
      → 0 < kw
      → IsSortedFrom s m
      → All IntsFit m
      → Chain
          (λ parsed. get_le kw >>= λ k. get_le vw >>= λ v. insert_new k v parsed)
          (write_int_pair kw vw)
          s
          m
  unfolding write_int_pair
  Chain-int_map [] s pos h k = tt
  Chain-int_map ((k, v) ∷ m) s pos (above, sorted) (fits, more) = (
    Decodes-bind _ (get_le-put_le kw k fits.0)
        (Decodes-checked _ (get_le-put_le vw v fits.1) (insert_new_above k v s above)),
    omega (arith, length-write_int_pair k v),
    Chain-int_map m _ pos sorted more,
  )

  -- A map of integers that is sorted and fits the format, with keys of one byte at least, is
  -- written without an error, and `parse_int_map` reads it back.
  pub parse_int_map-write_int_map :
      (m : List (ℕ × ℕ))
      → 0 < kw
      → IntMapFits m
      → (bs : Bytes) × (write_int_map kw vw m ≡ ok bs) × Decodes (parse_int_map kw vw) bs m
  unfolding parse_int_map
  parse_int_map-write_int_map m pos h = (
    _,
    write_int_map-ok m,
    parse_sequence-write_all _ (write_int_pair kw vw) m (Chain-int_map m [] pos h.sorted h.ints)
        (rw int_map_len_lem h.short),
  )
