-- ===== src/Records/Maps/Total.antt =====
-- The loops over a length-prefixed sequence end on every input.
use mcap.Prelude.{
  ℕ, zero, suc, ◌+◌, ◌-◌, ◌<◌, Option, none, some, List, [], arith, length, ltb, Bool-cases, inl,
  inr,
}
use mcap.Error.{Bytes}
use mcap.Bytes.{Parser, pure}
use mcap.Bytes.Total.{
  Reads, Reads-le, Reads-then, Takes, Takes-weaken, Takes-bind, Takes-last, Takes-get_le,
  Takes-get_string,
}
use mcap.Records.Maps.{
  KeyOrder, nat_order, bytes_order, lookup, insert_new, insert_found, while_bytes, parse_sequence,
  parse_vec, parse_string_map, parse_int_map,
}

module _ {ℓ} {S : Type ℓ} (step : S → Parser S) (moves : (s : S) → Takes 1 (step s)) where
  pub Reads-while_bytes :
      (byte_len total fuel : ℕ) (s : S) (bs : Bytes)
      → length bs < fuel
      → Reads 0 bs (while_bytes step byte_len total fuel s bs)
  unfolding while_bytes
  Reads-while_bytes byte_len total zero s bs h = absurd (omega arith)
  Reads-while_bytes byte_len total (suc fuel) s bs h =
      elim (Bool-cases (ltb (total - length bs) byte_len)) [
        | inl e ↦
            rw (e, while_bytes)
              (Reads-le 1 0 bs bs _ (omega arith) (
                Reads-then 1 0 bs _ (step s bs) ((moves s).at bs)
                  λ s' rest k. Reads-while_bytes byte_len total fuel s' rest (omega arith)))
        | inr e ↦ rw (e, while_bytes) (omega arith)
      ]

module _ {ℓ} {A : Type ℓ} (step : List A → Parser (List A))
    (moves : (s : List A) → Takes 1 (step s)) where
  pub Takes-parse_sequence : Takes 4 (parse_sequence step)
  unfolding parse_sequence
  Takes-parse_sequence = Takes-bind 4 0 _ (Takes-get_le 4) λ byte_len. record {
    at = λ bs.
        Reads-while_bytes step moves byte_len (length bs) (suc (length bs)) [] bs (omega arith);
  }

module _ {ℓ} {A : Type ℓ} where
  pub Takes-parse_vec : {item : Parser A} (n : ℕ) → Takes (suc n) item → Takes 4 (parse_vec item)
  unfolding parse_vec
  Takes-parse_vec n t =
      Takes-parse_sequence _ λ s. Takes-weaken (suc n) 1 (omega arith) (Takes-last (suc n) _ t)

module _ {ℓ κ} {K : Type ℓ} {V : Type κ} ⦃o : KeyOrder K⦄ where
  insert_new_at :
      (k : K) (v : V) (m : List (K × V)) (found : Option V) (bs : Bytes)
      → Reads 0 bs (insert_found k v m found bs)
  unfolding insert_found pure
  insert_new_at k v m none bs = omega arith
  insert_new_at k v m (some _) bs = tt

  pub Takes-insert_new : (k : K) (v : V) (m : List (K × V)) → Takes 0 (insert_new k v m)
  unfolding insert_new
  Takes-insert_new k v m = record { at = insert_new_at k v m (lookup k m) }

pub Takes-parse_string_map : Takes 4 parse_string_map
unfolding parse_string_map
Takes-parse_string_map = Takes-parse_sequence _ λ m. Takes-weaken 8 1 (omega arith) (
    Takes-bind 4 4 _ Takes-get_string
      λ k. Takes-bind 4 0 _ Takes-get_string (λ v. Takes-insert_new k v m))

pub Takes-parse_int_map : (kw vw : ℕ) → 0 < kw + vw → Takes 4 (parse_int_map kw vw)
unfolding parse_int_map
Takes-parse_int_map kw vw h = Takes-parse_sequence _ λ m.
    Takes-weaken (kw + (vw + 0)) 1 (omega arith) (
      Takes-bind kw (vw + 0) _ (Takes-get_le kw)
        λ k. Takes-bind vw 0 _ (Takes-get_le vw) (λ v. Takes-insert_new k v m))
