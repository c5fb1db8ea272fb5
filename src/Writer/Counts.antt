-- ===== src/Writer/Counts.antt =====
-- The counts and the bounds in the statistics are those of the messages that were written.
use mcap.Prelude.{
  ℕ, ◌+◌, ◌≤◌, ◌≡◌, refl, ap, min, max, Option, none, some, ◌⊎◌, inl, inr, List, [], ◌∷◌, ◌++◌,
  arith, All, All-append,
}
use mcap.Records.{IntMap, Record, message}
use mcap.Records.Maps
use mcap.Records.Maps.{nat_order}
use mcap.Writer.{widen, count_of, count_one, total}
use native.Mathlib.Omega.{min_cases, max_cases}

-- The log times of the messages in a list of records.
unfoldable pub times : List Record → List ℕ
times [] = []
times (message h _ ∷ rs) = h.log_time ∷ times rs
times (_ ∷ rs) = times rs

pub times-append : (xs ys : List Record) → times (xs ++ ys) ≡ times xs ++ times ys
unfolding times
times-append [] ys = refl
times-append (message h _ ∷ rs) ys = ap (λ (l : List ℕ). h.log_time ∷ l) (times-append rs ys)
times-append (_ ∷ rs) ys = times-append rs ys

-- One more message is counted once, in whatever map.
pub total-count_one : (k : ℕ) (m : IntMap) → total (count_one k m) ≡ total m + 1
unfolding count_one count_of Maps.insert Maps.insert_found Maps.insert_new Maps.lookup total
total-count_one k [] = refl
total-count_one k ((j, v) ∷ m) = ground (arith, total-count_one k m)

-- `start` and `end` are the least and the greatest of the times.
abbrev pub Has : ℕ → List ℕ → Type 0
Has t [] = ⊥
Has t (x ∷ xs) = (t ≡ x) ⊎ Has t xs

abbrev pub Spans : Option (ℕ × ℕ) → List ℕ → Type 0
Spans none ts = ts ≡ []
Spans (some (start, end)) ts = All (λ t. (start ≤ t) × (t ≤ end)) ts × Has start ts × Has end ts

Has-append : (t : ℕ) (xs ys : List ℕ) → Has t xs ⊎ Has t ys → Has t (xs ++ ys)
Has-append t [] ys (inl h) = elim h [ ]
Has-append t [] ys (inr h) = h
Has-append t (x ∷ xs) ys (inl (inl e)) = inl e
Has-append t (x ∷ xs) ys (inl (inr h)) = inr (Has-append t xs ys (inl h))
Has-append t (x ∷ xs) ys (inr h) = inr (Has-append t xs ys (inr h))

All-wider :
    (a b c d : ℕ) (ts : List ℕ)
    → c ≤ a
    → b ≤ d
    → All (λ t. (a ≤ t) × (t ≤ b)) ts
    → All (λ t. (c ≤ t) × (t ≤ d)) ts
All-wider a b c d [] h k p = tt
All-wider a b c d (t ∷ ts) h k (p, q) = ((omega arith, omega arith), All-wider a b c d ts h k q)

min-Has : (a t : ℕ) (ts : List ℕ) → Has a ts → Has (min a t) (ts ++ (t ∷ []))
min-Has a t ts h =
    min_cases a t _ (λ _ e. rw e (Has-append a ts (t ∷ []) (inl h)))
      (λ _ e. rw e (Has-append t ts (t ∷ []) (inr (inl refl))))

max-Has : (b t : ℕ) (ts : List ℕ) → Has b ts → Has (max b t) (ts ++ (t ∷ []))
max-Has b t ts h =
    max_cases b t _ (λ _ e. rw e (Has-append t ts (t ∷ []) (inr (inl refl))))
      (λ _ e. rw e (Has-append b ts (t ∷ []) (inl h)))

pub Spans-widen :
    (o : Option (ℕ × ℕ)) (ts : List ℕ) (t : ℕ)
    → Spans o ts
    → Spans (some (widen o t)) (ts ++ (t ∷ []))
unfolding widen
Spans-widen none ts t h = rw h (((omega arith, omega arith), tt), inl refl, inl refl)
Spans-widen (some (a, b)) ts t (every, least, greatest) = (
  All-append (λ x. (min a t ≤ x) × (x ≤ max b t)) ts (t ∷ [])
      (All-wider a b (min a t) (max b t) ts (omega arith) (omega arith) every)
      ((omega arith, omega arith), tt),
  min-Has a t ts least,
  max-Has b t ts greatest,
)
