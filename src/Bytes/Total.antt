-- ===== src/Bytes/Total.antt =====
-- The readers of the byte layer return on every input, and how much of it they take.
use mcap.Prelude.{
  ℕ, zero, suc, ◌+◌, ◌*◌, ◌≤◌, Bool, true, false, [], ◌∷◌, arith, length, length-drop, leb,
  Bool-cases, inl, inr, if◌then◌else◌,
}
use mcap.Error.{Bytes, Result, ok, err, panic, stuck, McapError}
use mcap.Bytes.{Parser, pure, ◌>>=◌, get_le, get_bytes, is_utf8, get_string}

-- The outcome is a value after at least `n` bytes of `bs`, or an error: no panic, no endless loop.
abbrev pub Reads {ℓ} : {A : Type ℓ} → ℕ → Bytes → Result (A × Bytes) → Type 0
Reads n bs (ok r) = length r.1 + n ≤ length bs
Reads n bs (err e) = Unit
Reads n bs panic = ⊥
Reads n bs stuck = ⊥

-- What is known of the outcome after fewer bytes, or of a longer input.
pub Reads-le {ℓ} :
    {A : Type ℓ} (m n : ℕ) (bs cs : Bytes) (r : Result (A × Bytes))
    → length bs + n ≤ length cs + m
    → Reads m bs r
    → Reads n cs r
Reads-le m n bs cs (ok r) h k = omega arith
Reads-le m n bs cs (err e) h k = tt
Reads-le m n bs cs panic h k = elim k [ ]
Reads-le m n bs cs stuck h k = elim k [ ]

pub Reads-then {ℓ κ} :
    {A : Type ℓ} {B : Type κ} (m n : ℕ) (bs : Bytes) (f : A → Parser B) (r : Result (A × Bytes))
    → Reads m bs r
    → ((a : A) (rest : Bytes) → length rest + m ≤ length bs → Reads n rest (f a rest))
    → Reads (m + n) bs (mcap.Error.◌>>=◌ r (λ x. f x.0 x.1))
Reads-then m n bs f (ok (a, rest)) h k =
    Reads-le n (m + n) rest bs (f a rest) (omega arith) (k a rest h)
Reads-then m n bs f (err e) h k = tt
Reads-then m n bs f panic h k = elim h [ ]
Reads-then m n bs f stuck h k = elim h [ ]

pub record Takes {ℓ} {A : Type ℓ} (n : ℕ) (p : Parser A) : Type ℓ where
  pub at : (bs : Bytes) → Reads n bs (p bs)

module _ {ℓ} {A : Type ℓ} where
  pub Takes-pure : (a : A) → Takes 0 (pure a)
  unfolding pure
  Takes-pure a = record { at = λ bs. omega arith }

  pub Takes-err : (n : ℕ) (e : McapError) → Takes {A = A} n (λ bs. err e)
  Takes-err n e = record { at = λ bs. tt }

  pub Takes-weaken : (m n : ℕ) {p : Parser A} → n ≤ m → Takes m p → Takes n p
  Takes-weaken m n {p} h t = record { at = λ bs. Reads-le m n bs bs (p bs) (omega arith) (t.at bs) }

  pub Takes-if :
      (b : Bool) {n : ℕ} {p q : Parser A} → Takes n p → Takes n q → Takes n (if b then p else q)
  Takes-if true h k = h
  Takes-if false h k = k

module _ {ℓ κ} {A : Type ℓ} {B : Type κ} where
  pub Takes-bind :
      (m n : ℕ) {p : Parser A} (f : A → Parser B)
      → Takes m p
      → ((a : A) → Takes n (f a))
      → Takes (m + n) (p >>= f)
  unfolding ◌>>=◌
  Takes-bind m n {p} f t k = record {
    at = λ bs. Reads-then m n bs f (p bs) (t.at bs) (λ a rest h. (k a).at rest);
  }

  -- the last field of a structure
  pub Takes-last : (m : ℕ) {p : Parser A} (f : A → B) → Takes m p → Takes m (p >>= λ x. pure (f x))
  Takes-last m f t =
      Takes-weaken (m + 0) m (omega arith) (Takes-bind m 0 _ t (λ a. Takes-pure (f a)))

Reads-get_le_cons :
    (k b : ℕ) (bs : Bytes) (r : Result (ℕ × Bytes))
    → Reads k bs r
    → Reads (suc k) (b ∷ bs) (mcap.Error.◌>>=◌ r (λ x. ok (b + 256 * x.0, x.1)))
Reads-get_le_cons k b bs (ok r) h = omega arith
Reads-get_le_cons k b bs (err e) h = tt
Reads-get_le_cons k b bs panic h = elim h [ ]
Reads-get_le_cons k b bs stuck h = elim h [ ]

Reads-get_le : (k : ℕ) (bs : Bytes) → Reads k bs (get_le k bs)
unfolding get_le
Reads-get_le zero bs = omega arith
Reads-get_le (suc k) [] = tt
Reads-get_le (suc k) (b ∷ bs) = Reads-get_le_cons k b bs (get_le k bs) (Reads-get_le k bs)

pub Takes-get_le : (k : ℕ) → Takes k (get_le k)
Takes-get_le k = record { at = Reads-get_le k }

pub Takes-get_bytes : (n : ℕ) → Takes n (get_bytes n)
unfolding get_bytes
Takes-get_bytes n = record {
  at = λ bs. elim (Bool-cases (leb n (length bs))) [
    | inl e ↦ rw e (rw length-drop (ground arith))
    | inr e ↦ rw e tt
  ];
}

pub Takes-get_string : Takes 4 get_string
unfolding get_string
Takes-get_string = Takes-bind 4 0 _ (Takes-get_le 4) λ n.
    Takes-weaken (n + 0) 0 (omega arith) (
      Takes-bind n 0 _ (Takes-get_bytes n) λ s. Takes-if (is_utf8 s) (Takes-pure s) (Takes-err 0 _))

pub ruleset takes_rules = (Takes-get_le, Takes-get_string, Takes-bind, Takes-last)
