-- ===== src/Sorting.antt =====
-- Sorting by keys. `sort_by_key` of the standard library is stable, and so is this insertion sort. The
-- tuples that are keys are lists of numbers in their lexicographic order.
use mcap.Prelude.{
  take, ℕ, zero, suc, length, drop, ◌≡◌, refl, ap, ◌∙◌, Bool, true, false, List, [], ◌∷◌, arith,
  ltb, ◌==◌, if◌then◌else◌, All,
}
use mathlib.Core.List.{Perm}
use mathlib.Core.List.Perm

unfoldable pub lex_le : List ℕ → List ℕ → Bool
lex_le [] ys = true
lex_le (x ∷ xs) [] = false
lex_le (x ∷ xs) (y ∷ ys) =
    let rest = lex_le xs ys in if ltb x y then true else if x == y then rest else false

-- Each pair of keys is in one order or the other.
pub lex_le_total : (xs ys : List ℕ) → lex_le xs ys ≡ false → lex_le ys xs ≡ true
unfolding lex_le
lex_le_total [] ys h = absurd (cc h)
lex_le_total (x ∷ xs) [] h = refl
lex_le_total (x ∷ xs) (y ∷ ys) h = go (lex_le xs ys) (lex_le_total xs ys) h
  where
    go :
        (b : Bool)
        → (b ≡ false → lex_le ys xs ≡ true)
        → (if ltb x y then true else if x == y then b else false) ≡ false
        → (if ltb y x then true else if y == x then lex_le ys xs else false) ≡ true
    go b ih e = ground arith

pub lex_le_trans :
    (xs ys zs : List ℕ) → lex_le xs ys ≡ true → lex_le ys zs ≡ true → lex_le xs zs ≡ true
unfolding lex_le
lex_le_trans [] ys zs h k = refl
lex_le_trans (x ∷ xs) [] zs h k = absurd (cc h)
lex_le_trans (x ∷ xs) (y ∷ ys) [] h k = absurd (cc k)
lex_le_trans (x ∷ xs) (y ∷ ys) (z ∷ zs) h k =
    go (lex_le xs ys) (lex_le ys zs) (lex_le_trans xs ys zs) h k
  where
    go :
        (p q : Bool)
        → (p ≡ true → q ≡ true → lex_le xs zs ≡ true)
        → (if ltb x y then true else if x == y then p else false) ≡ true
        → (if ltb y z then true else if y == z then q else false) ≡ true
        → (if ltb x z then true else if x == z then lex_le xs zs else false) ≡ true
    go p q ih e f = ground arith

pub All-weaken {ℓ κ} :
    {A : Type ℓ} (P Q : A → Type κ) (xs : List A) → ((a : A) → P a → Q a) → All P xs → All Q xs
All-weaken P Q [] f h = tt
All-weaken P Q (x ∷ xs) f h = (f x h.0, All-weaken P Q xs f h.1)

pub All-both {ℓ κ} :
    {A : Type ℓ} (P Q : A → Type κ) (xs : List A) → All P xs → All Q xs → All (λ a. P a × Q a) xs
All-both P Q [] h k = tt
All-both P Q (x ∷ xs) h k = ((h.0, k.0), All-both P Q xs h.1 k.1)

pub All-drop {ℓ κ} :
    {A : Type ℓ} (P : A → Type κ) (n : ℕ) (xs : List A) → All P xs → All P (drop n xs)
All-drop P zero xs h = h
All-drop P (suc n) [] h = tt
All-drop P (suc n) (x ∷ xs) h = All-drop P n xs h.1

pub All-take {ℓ κ} :
    {A : Type ℓ} (P : A → Type κ) (n : ℕ) (xs : List A) → All P xs → All P (take n xs)
All-take P zero xs h = tt
All-take P (suc n) [] h = tt
All-take P (suc n) (x ∷ xs) h = (h.0, All-take P n xs h.1)

module _ {ℓ} {A : Type ℓ} (le : A → A → Bool) where
  unfoldable pub insert_by : A → List A → List A
  insert_by a [] = a ∷ []
  insert_by a (b ∷ bs) = let rest = insert_by a bs in if le a b then a ∷ b ∷ bs else b ∷ rest

  unfoldable pub sort_by : List A → List A
  unfolding insert_by
  sort_by [] = []
  sort_by (a ∷ xs) = insert_by a (sort_by xs)

  abbrev pub IsSorted : List A → Type 0
  IsSorted [] = Unit
  IsSorted (a ∷ xs) = All (λ b. le a b ≡ true) xs × IsSorted xs

  pub Perm-insert_by : (a : A) (xs : List A) → Perm (insert_by a xs) (a ∷ xs)
  unfolding insert_by
  Perm-insert_by a [] = Perm.refl (a ∷ [])
  Perm-insert_by a (b ∷ bs) = go (le a b) (Perm-insert_by a bs)
    where
      go :
          (p : Bool)
          → Perm (insert_by a bs) (a ∷ bs)
          → Perm (if p then a ∷ b ∷ bs else b ∷ insert_by a bs) (a ∷ b ∷ bs)
      go true ih = Perm.refl (a ∷ b ∷ bs)
      go false ih = Perm.trans (Perm.cons b ih) (Perm.swap a b bs)

  -- It is a permutation,
  pub Perm-sort_by : (xs : List A) → Perm (sort_by xs) xs
  unfolding sort_by
  Perm-sort_by [] = Perm.refl []
  Perm-sort_by (a ∷ xs) = Perm.trans (Perm-insert_by a (sort_by xs)) (Perm.cons a (Perm-sort_by xs))

  length-insert_by : (a : A) (xs : List A) → length (insert_by a xs) ≡ suc (length xs)
  unfolding insert_by
  length-insert_by a [] = refl
  length-insert_by a (b ∷ bs) = go (le a b) (length-insert_by a bs)
    where
      go :
          (p : Bool)
          → length (insert_by a bs) ≡ suc (length bs)
          → length (if p then a ∷ b ∷ bs else b ∷ insert_by a bs) ≡ suc (suc (length bs))
      go true ih = refl
      go false ih = ap suc ih

  pub length-sort_by : (xs : List A) → length (sort_by xs) ≡ length xs
  unfolding sort_by
  length-sort_by [] = refl
  length-sort_by (a ∷ xs) = length-insert_by a (sort_by xs) ∙ ap suc (length-sort_by xs)

  All-insert_by {κ} :
      (P : A → Type κ) (a : A) (xs : List A) → P a → All P xs → All P (insert_by a xs)
  unfolding insert_by
  All-insert_by P a [] h k = (h, k)
  All-insert_by P a (b ∷ bs) h k = go (le a b) (All-insert_by P a bs h k.1)
    where
      go :
          (p : Bool) → All P (insert_by a bs) → All P (if p then a ∷ b ∷ bs else b ∷ insert_by a bs)
      go true ih = (h, k)
      go false ih = (k.0, ih)

  pub All-sort_by {κ} : (P : A → Type κ) (xs : List A) → All P xs → All P (sort_by xs)
  unfolding sort_by
  All-sort_by P [] h = tt
  All-sort_by P (a ∷ xs) h = All-insert_by P a (sort_by xs) h.0 (All-sort_by P xs h.1)

  pub IsSorted-drop : (n : ℕ) (xs : List A) → IsSorted xs → IsSorted (drop n xs)
  IsSorted-drop zero xs s = s
  IsSorted-drop (suc n) [] s = tt
  IsSorted-drop (suc n) (x ∷ xs) s = IsSorted-drop n xs s.1

  module _ (total : (a b : A) → le a b ≡ false → le b a ≡ true)
      (transitive : (a b c : A) → le a b ≡ true → le b c ≡ true → le a c ≡ true) where
    insert_by-IsSorted : (a : A) (xs : List A) → IsSorted xs → IsSorted (insert_by a xs)
    unfolding insert_by
    insert_by-IsSorted a [] s = (tt, tt)
    insert_by-IsSorted a (b ∷ bs) s = go (le a b) refl (insert_by-IsSorted a bs s.1)
      where
        go :
            (p : Bool)
            → le a b ≡ p
            → IsSorted (insert_by a bs)
            → IsSorted (if p then a ∷ b ∷ bs else b ∷ insert_by a bs)
        go true e ih = ((e, All-weaken _ _ bs (λ c h. transitive a b c e h) s.0), s)
        go false e ih = (All-insert_by (λ c. le b c ≡ true) a bs (total a b e) s.0, ih)

    -- and it is sorted.
    pub sort_by-IsSorted : (xs : List A) → IsSorted (sort_by xs)
    unfolding sort_by
    sort_by-IsSorted [] = tt
    sort_by-IsSorted (a ∷ xs) = insert_by-IsSorted a (sort_by xs) (sort_by-IsSorted xs)

pub IsSorted-weaken {ℓ} :
    {A : Type ℓ} (le le' : A → A → Bool)
    → ((a b : A) → le a b ≡ true → le' a b ≡ true)
    → (xs : List A) → IsSorted le xs
    → IsSorted le' xs
IsSorted-weaken le le' f [] s = tt
IsSorted-weaken le le' f (x ∷ xs) s =
    (All-weaken _ _ xs (λ b h. f x b h) s.0, IsSorted-weaken le le' f xs s.1)
