-- ===== src/HashMap.antt =====
-- `HashMap` with integer keys, as a list of entries; no part of the model looks at their order. And
-- `==` on bytes and on the maps of strings.
use mcap.Prelude.{
  ℕ, ◌≡◌, refl, ap, Bool, true, false, ◌&&◌, Option, none, some, List, [], ◌∷◌, arith, ◌==◌,
  if◌then◌else◌, eq→==, ==→eq, Bool-cases, inl, inr,
}
use mcap.Error.{Bytes}

module _ {ℓ} {V : Type ℓ} where
  unfoldable pub get : ℕ → List (ℕ × V) → Option V
  get k [] = none
  get k ((j, v) ∷ m) = if j == k then some v else get k m

  unfoldable pub insert : ℕ → V → List (ℕ × V) → List (ℕ × V)
  insert k v [] = (k, v) ∷ []
  insert k v ((j, w) ∷ m) = if j == k then (k, v) ∷ m else (j, w) ∷ insert k v m

  pub get-insert :
      (k j : ℕ) (v : V) (m : List (ℕ × V))
      → get j (insert k v m) ≡ (if k == j then some v else get j m)
  unfolding get insert
  get-insert k j v [] = refl
  get-insert k j v ((i, w) ∷ m) = ground (arith, get-insert k j v m)

  -- A new key hides no entry.
  pub get-insert_fresh :
      (k j : ℕ) (w v : V) (m : List (ℕ × V))
      → get k m ≡ none
      → get j m ≡ some v
      → get j (insert k w m) ≡ some v
  get-insert_fresh k j w v m fresh h = rw get-insert (elim (Bool-cases (k == j)) [
    | inl e ↦ absurd (cc (fresh, h, ap (λ (i : ℕ). get i m) (==→eq k j e)))
    | inr e ↦ rw e h
  ])

  pub get-insert_self : (k : ℕ) (v : V) (m : List (ℕ × V)) → get k (insert k v m) ≡ some v
  get-insert_self k v m = rw (get-insert, eq→== k k refl)

unfoldable pub bytes_eq : Bytes → Bytes → Bool
bytes_eq [] [] = true
bytes_eq [] (b ∷ bs) = false
bytes_eq (a ∷ as') [] = false
bytes_eq (a ∷ as') (b ∷ bs) = a == b && bytes_eq as' bs

pub bytes_eq_refl : (bs : Bytes) → bytes_eq bs bs ≡ true
unfolding bytes_eq
bytes_eq_refl [] = refl
bytes_eq_refl (b ∷ bs) = ground (arith, bytes_eq_refl bs)

pub bytes_eq→eq : (as' bs : Bytes) → bytes_eq as' bs ≡ true → as' ≡ bs
unfolding bytes_eq
bytes_eq→eq [] [] h = refl
bytes_eq→eq [] (b ∷ bs) h = cc
bytes_eq→eq (a ∷ as') [] h = cc
bytes_eq→eq (a ∷ as') (b ∷ bs) h = ground (arith, bytes_eq→eq as' bs)

unfoldable pub map_eq : List (Bytes × Bytes) → List (Bytes × Bytes) → Bool
map_eq [] [] = true
map_eq [] (_ ∷ n) = false
map_eq (_ ∷ m) [] = false
map_eq ((j, v) ∷ m) ((k, w) ∷ n) = bytes_eq j k && bytes_eq v w && map_eq m n

pub map_eq_refl : (m : List (Bytes × Bytes)) → map_eq m m ≡ true
unfolding map_eq
map_eq_refl [] = refl
map_eq_refl ((k, v) ∷ m) = ground (arith, bytes_eq_refl k, bytes_eq_refl v, map_eq_refl m)

pub map_eq→eq : (m n : List (Bytes × Bytes)) → map_eq m n ≡ true → m ≡ n
unfolding map_eq
map_eq→eq [] [] h = refl
map_eq→eq [] (_ ∷ n) h = cc
map_eq→eq (_ ∷ m) [] h = cc
map_eq→eq ((j, v) ∷ m) ((k, w) ∷ n) h =
    ground (arith, bytes_eq→eq j k, bytes_eq→eq v w, map_eq→eq m n)
