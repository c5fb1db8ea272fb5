-- ===== src/BiMap.antt =====
-- `bimap::BiHashMap`, a map that is one-to-one, as an interface: its operations and what its
-- documentation says of them. BiMap.Entries has an implementation.
pub mod Entries
use mcap.Prelude.{ℕ, ◌≡◌, refl, Option, none, some, ◌⊎◌, List}

pub record BiMap (L : Type 0) : Type 1 where
  pub Map : Type 0
  pub empty : Map
  pub get_by_left : Map → L → Option ℕ
  pub get_by_right : Map → ℕ → Option L
  -- `none` where the left or the right value is there already
  pub insert_no_overwrite : Map → L → ℕ → Option Map
  pub empty_left : (l : L) → get_by_left empty l ≡ none
  pub right_of_left :
      (m : Map) (l : L) (r : ℕ) → get_by_left m l ≡ some r → get_by_right m r ≡ some l
  pub left_of_right :
      (m : Map) (l : L) (r : ℕ) → get_by_right m r ≡ some l → get_by_left m l ≡ some r
  pub vacant :
      (m : Map) (l : L) (r : ℕ)
      → get_by_left m l ≡ none
      → get_by_right m r ≡ none
      → (m' : Map) × (insert_no_overwrite m l r ≡ some m')
  pub inserted :
      (m m' : Map) (l : L) (r : ℕ) → insert_no_overwrite m l r ≡ some m' → get_by_left m' l ≡ some r
  pub kept :
      (m m' : Map) (l : L) (r : ℕ) (x : L) (v : ℕ)
      → insert_no_overwrite m l r ≡ some m'
      → get_by_left m x ≡ some v
      → get_by_left m' x ≡ some v
  pub origin :
      (m m' : Map) (l : L) (r : ℕ) (x : L) (v : ℕ)
      → insert_no_overwrite m l r ≡ some m'
      → get_by_left m' x ≡ some v
      → ((x ≡ l) × (v ≡ r)) ⊎ (get_by_left m x ≡ some v)
