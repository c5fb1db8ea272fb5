-- ===== src/Registry/Search.antt =====
-- The search for a free id ends, and finds the first one.
use mcap.Prelude.{
  ℕ, zero, suc, ◌+◌, ◌≤◌, ◌<◌, ◌≡◌, Bool, true, false, Option, none, some, List, arith, ◌==◌, ==→eq,
  Bool-cases, inl, inr,
}
use mcap.HashMap
use mcap.Registry.{contains, free_id, max_id}

pub contains_fresh : (k : ℕ) (m : List (ℕ × ℕ)) → contains k m ≡ false → HashMap.get k m ≡ none
unfolding contains
contains_fresh k m h = ground arith

-- All the ids from `lo` up to `hi`, without `hi`, are taken.
abbrev pub AllTaken : List (ℕ × ℕ) → ℕ → ℕ → Type 0
AllTaken ids lo hi = (j : ℕ) → lo ≤ j → j < hi → contains j ids ≡ true

-- What the search may answer: the first free id, or that there is none up to the last.
abbrev pub Found : List (ℕ × ℕ) → ℕ → Option (Bool × ℕ) → Type 0
Found ids next none = ⊥
Found ids next (some (true, id)) =
    (contains id ids ≡ false) × (next ≤ id) × (id ≤ max_id) × AllTaken ids next id
Found ids next (some (false, id)) = (id ≡ max_id) × AllTaken ids next (suc max_id)

taken_below :
    (ids : List (ℕ × ℕ)) (next hi : ℕ)
    → contains next ids ≡ true
    → AllTaken ids (next + 1) hi
    → AllTaken ids next hi
taken_below ids next hi here above j lo lt = elim (Bool-cases (j == next)) [
  | inl e ↦ rw (==→eq j next e) here
  | inr e ↦ above j (ground arith) lt
]

Found-below :
    (ids : List (ℕ × ℕ)) (next : ℕ) (o : Option (Bool × ℕ))
    → contains next ids ≡ true
    → Found ids (next + 1) o
    → Found ids next o
Found-below ids next none here f = f
Found-below ids next (some (true, id)) here (free, lo, hi, above) =
    (free, omega arith, hi, taken_below ids next id here above)
Found-below ids next (some (false, id)) here (last, above) =
    (last, taken_below ids next (suc max_id) here above)

-- The search for a free id from an id of 16 bits, with a round for each id that follows, answers:
-- with the first free id from there, or, when all of them are taken, with the last id.
pub free_id-Found :
    (fuel : ℕ) (ids : List (ℕ × ℕ)) (next : ℕ)
    → next ≤ max_id
    → max_id < next + fuel
    → Found ids next (free_id fuel ids next)
unfolding free_id
free_id-Found zero ids next h k = absurd (omega arith)
free_id-Found (suc fuel) ids next h k = elim (Bool-cases (contains next ids)) [
  | inr free ↦ rw free (free, omega arith, h, λ j lo lt. absurd (omega arith))
  | inl here ↦ rw here (elim (Bool-cases (next == max_id)) [
    | inl e ↦ rw e (==→eq next max_id e, λ j lo lt. rw (last j lo lt (==→eq next max_id e)) here)
    | inr e ↦ rw e (
        Found-below ids next (free_id fuel ids (next + 1)) here
          (free_id-Found fuel ids (next + 1) (ground arith) (omega arith)))
  ])
]
  where
    last : (j : ℕ) → next ≤ j → j < suc max_id → next ≡ max_id → j ≡ next
    last j lo lt e = omega arith
