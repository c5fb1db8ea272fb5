-- ===== src/Cursor.antt =====
-- `std::io::Cursor<Vec<u8>>` as a writer, and `Vec::resize`.
use mcap.Prelude.{
  ℕ, zero, suc, ◌+◌, ◌≡◌, refl, sym, ap, ◌≤◌, [], ◌∷◌, ◌++◌, append-nil, arith, length,
  length-append, take, drop, max,
}
use mcap.Error.{Bytes}

-- `Vec::resize(n, 0)`
unfoldable pub resize : ℕ → Bytes → Bytes
resize zero bs = []
resize (suc n) [] = 0 ∷ resize n []
resize (suc n) (b ∷ bs) = b ∷ resize n bs

pub record Cursor : Type 0 where
  pub bytes : Bytes
  pub position : ℕ

-- A write starts at the position, after zeros where that lies behind the end, and goes over what is
-- there.
unfoldable pub write : Cursor → Bytes → Cursor
unfolding resize
write c bs = record {
  bytes =
      take c.position (resize (max c.position (length c.bytes)) c.bytes)
      ++ (bs ++ drop (c.position + length bs) c.bytes);
  position = c.position + length bs;
}

pub resize_same : (bs : Bytes) → resize (length bs) bs ≡ bs
unfolding resize
resize_same [] = refl
resize_same (b ∷ bs) = ap (λ (l : Bytes). b ∷ l) (resize_same bs)

take_whole : (bs : Bytes) → take (length bs) bs ≡ bs
take_whole [] = refl
take_whole (b ∷ bs) = ap (λ (l : Bytes). b ∷ l) (take_whole bs)

drop_past : (m : ℕ) (bs : Bytes) → length bs ≤ m → drop m bs ≡ []
drop_past zero [] h = refl
drop_past (suc m) [] h = refl
drop_past zero (b ∷ bs) h = absurd (omega arith)
drop_past (suc m) (b ∷ bs) h = drop_past m bs (omega arith)

max_same : (n : ℕ) → max n n ≡ n
max_same n = omega arith

-- At the end a write appends.
pub write_at_end :
    (old bs : Bytes)
    → write (record { bytes = old; position = length old }) bs
      ≡ record { bytes = old ++ bs; position = length (old ++ bs) }
unfolding write
write_at_end old bs i = record { bytes = appended i; position = sym (length-append old bs) i }
  where
    appended :
        take (length old) (resize (max (length old) (length old)) old)
          ++ (bs ++ drop (length old + length bs) old)
        ≡ old ++ bs
    appended =
        rw
          (
            max_same (length old),
            resize_same old,
            take_whole old,
            drop_past (length old + length bs) old (omega arith),
            append-nil,
          )
          refl
