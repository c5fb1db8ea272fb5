-- ===== src/Records/Maps/RoundTrip.antt =====
-- A sequence that was written is read back, and the assertions of the writers hold.
use mcap.Prelude.{
  ℕ, zero, suc, ◌+◌, ◌-◌, ◌%◌, ◌^◌, ◌<◌, ◌≡◌, refl, ◌∙◌, ap, Ordering, true, none, List, [], ◌∷◌,
  ◌++◌, arith, length, length-append, All, ltb, append_assoc, append-nil, lt→ltb, le→ltb_false,
}
use native.Mathlib.Nat.{mod-eq_of_lt}
use mcap.Error.{Bytes, ok}
use mcap.Bytes.{Parser, pure, ◌>>=◌, put_le}
use mcap.Bytes.RoundTrip.{Decodes, Decodes-bind, Decodes-last, get_le-put_le}
use mcap.Records.Maps.{
  KeyOrder, nat_order, bytes_order, lookup, insert, insert_new, while_bytes, parse_sequence,
  parse_vec, write_all, write_vec,
}

module _ {ℓ} {A : Type ℓ} (step : List A → Parser (List A)) (write : A → Bytes) where
  -- The step reads the elements back, one after the other, onto what it has.
  abbrev pub Chain : List A → List A → Type ℓ
  Chain s [] = Unit
  Chain s (x ∷ xs) =
      Decodes (step s) (write x) (s ++ (x ∷ [])) × (0 < length (write x)) × Chain (s ++ (x ∷ [])) xs

  one_round :
      (byte_len total fuel : ℕ) (s s' : List A) (bs bs' : Bytes)
      → ltb (total - length bs) byte_len ≡ true
      → step s bs ≡ ok (s', bs')
      → while_bytes step byte_len total (suc fuel) s bs
        ≡ while_bytes step byte_len total fuel s' bs'
  unfolding while_bytes
  one_round byte_len total fuel s s' bs bs' runs e = rw (runs, while_bytes) (rw e)

  pub while_bytes-write_all :
      (xs s : List A) (rest : Bytes) (byte_len total fuel done : ℕ)
      → Chain s xs
      → total ≡ done + length (write_all write xs ++ rest)
      → byte_len ≡ done + length (write_all write xs)
      → length (write_all write xs) < fuel
      → while_bytes step byte_len total fuel s (write_all write xs ++ rest) ≡ ok (s ++ xs, rest)
  unfolding while_bytes write_all
  while_bytes-write_all xs s rest byte_len total zero done c ht hb hf = absurd (omega arith)
  while_bytes-write_all [] s rest byte_len total (suc fuel) done c ht hb hf =
      rw (le→ltb_false (total - length rest) byte_len (omega arith), while_bytes) (rw append-nil)
  while_bytes-write_all (x ∷ xs) s rest byte_len total (suc fuel) done (d, pos, c) ht hb hf =
      let more : Bytes = write_all write xs ++ rest in
      ap (while_bytes step byte_len total (suc fuel) s) assoc
      ∙ one_round byte_len total fuel s (s ++ (x ∷ [])) (write x ++ more) more
          (lt→ltb _ _ (omega (arith, sizes))) (d.at more)
      ∙ while_bytes-write_all xs (s ++ (x ∷ [])) rest byte_len total fuel (done + length (write x))
          c (omega (arith, sizes)) (omega (arith, sizes)) (omega (arith, sizes))
      ∙ ap (λ (l : List A). ok (l, rest)) (append_assoc s (x ∷ []) xs)
    where
      assoc : write_all write (x ∷ xs) ++ rest ≡ write x ++ (write_all write xs ++ rest)
      assoc = append_assoc (write x) (write_all write xs) rest

      sizes :
          (length (write_all write (x ∷ xs) ++ rest)
            ≡ length (write x ++ (write_all write xs ++ rest)))
          × (length (write x ++ (write_all write xs ++ rest))
              ≡ length (write x) + length (write_all write xs ++ rest))
          × (length (write_all write (x ∷ xs)) ≡ length (write x) + length (write_all write xs))
          × (length (write_all write xs ++ rest) ≡ length (write_all write xs) + length rest)
      sizes = (
        ap length assoc,
        length-append (write x) (write_all write xs ++ rest),
        length-append (write x) (write_all write xs),
        length-append (write_all write xs) rest,
      )

  -- A written sequence whose bytes fit a u32 is read back.
  pub parse_sequence-write_all :
      (xs : List A)
      → Chain [] xs
      → length (write_all write xs) < 2 ^ 32
      → Decodes
          (parse_sequence step)
          (put_le 4 (length (write_all write xs) % 2 ^ 32) ++ write_all write xs)
          xs
  unfolding parse_sequence
  parse_sequence-write_all xs c h = rw (mod-eq_of_lt h) (
      Decodes-bind _ (get_le-put_le 4 (length (write_all write xs)) h) (record {
        at = λ rest.
            while_bytes-write_all xs [] rest _ _ _ 0 c (omega arith) (omega arith)
              (omega (arith, length-append (write_all write xs) rest));
      }))

module _ {ℓ} {A : Type ℓ} (item : Parser A) (write : A → Bytes) where
  abbrev pub Codes : A → Type ℓ
  Codes x = Decodes item (write x) x × (0 < length (write x))

  Chain-vec :
      (xs s : List A)
      → All Codes xs
      → Chain (λ parsed. item >>= λ e. pure (parsed ++ (e ∷ []))) write s xs
  Chain-vec [] s h = tt
  Chain-vec (x ∷ xs) s (h, hs) = (Decodes-last _ h.0, h.1, Chain-vec xs (s ++ (x ∷ [])) hs)

  write_vec_lem :
      (v : List A)
      → write_vec write v ≡ put_le 4 (length (write_all write v) % 2 ^ 32) ++ write_all write v
  unfolding write_vec put_le
  write_vec_lem v =
      ap (λ (n : ℕ). put_le 4 (n % 2 ^ 32) ++ write_all write v)
        (written (length (write_all write v)))
    where
      written : (n : ℕ) → suc (suc (suc (suc n))) - 0 - 4 ≡ n
      written n = omega arith

  -- If each element is read back from what it is written as, some bytes, and the elements take
  -- fewer than 2^32 bytes, `parse_vec` reads back the vector that `write_vec` wrote.
  pub parse_vec-write_vec :
      (v : List A)
      → All Codes v
      → length (write_all write v) < 2 ^ 32
      → Decodes (parse_vec item) (write_vec write v) v
  unfolding parse_vec
  parse_vec-write_vec v h fits =
      rw write_vec_lem (parse_sequence-write_all _ write v (Chain-vec v [] h) fits)

module _ {ℓ κ} {K : Type ℓ} {V : Type κ} ⦃o : KeyOrder K⦄ where
  -- `k` comes after every key of the map.
  abbrev pub IsAbove : K → List (K × V) → Type 0
  IsAbove k [] = Unit
  IsAbove k ((j, _) ∷ m) = (o.cmp k j ≡ Ordering.gt) × IsAbove k m

  -- Each key comes after every key before it.
  abbrev pub IsSortedFrom : List (K × V) → List (K × V) → Type 0
  IsSortedFrom s [] = Unit
  IsSortedFrom s ((k, v) ∷ m) = IsAbove k s × IsSortedFrom (s ++ ((k, v) ∷ [])) m

  lookup_above : (k : K) (m : List (K × V)) → IsAbove k m → lookup k m ≡ none
  unfolding lookup
  lookup_above k [] h = refl
  lookup_above k ((j, w) ∷ m) h = rw (h.0, lookup) (lookup_above k m h.1)

  insert_above :
      (k : K) (v : V) (m : List (K × V)) → IsAbove k m → insert k v m ≡ m ++ ((k, v) ∷ [])
  unfolding insert
  insert_above k v [] h = refl
  insert_above k v ((j, w) ∷ m) h =
      rw (h.0, insert) (ap (λ (l : List (K × V)). (j, w) ∷ l) (insert_above k v m h.1))

  -- A key that comes last is put at the end.
  pub insert_new_above :
      (k : K) (v : V) (m : List (K × V))
      → IsAbove k m
      → insert_new k v m ≡ pure (m ++ ((k, v) ∷ []))
  unfolding insert_new
  insert_new_above k v m h = rw (lookup_above k m h, insert_above k v m h)
