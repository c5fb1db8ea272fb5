-- ===== src/Step.antt =====
-- A computation on a state that can leave the function that it stands in early: the `return` in the
-- macros `load!`, `consume!`, `decompress!` and `check!` of
-- rust/mcap/src/sans_io/linear_reader.rs.
use mcap.Prelude.{ℕ, zero, suc, Option, some}
use mcap.Error.{Result, ok, err, panic, stuck}

-- It goes on with a value, or leaves with what the function returns.
pub data Outcome (S : Type 0) (E : Type 0) (A : Type 0) : Type 0 where
  go_on : A → S → Outcome S E A
  leave : E → S → Outcome S E A

abbrev pub Step : Type 0 → Type 0 → Type 0 → Type 0
Step S E A = S → Outcome S E A

module _ {S E : Type 0} where
  unfoldable pub then_step : {A B : Type 0} → Outcome S E A → (A → Step S E B) → Outcome S E B
  then_step (go_on a s) f = f a s
  then_step (leave e s) f = leave e s

  infixl 5 ◌>>=◌
  unfoldable pub ◌>>=◌ : {A B : Type 0} → Step S E A → (A → Step S E B) → Step S E B
  unfolding then_step
  ◌>>=◌ m f s = then_step (m s) f

  infixl 5 ◌>>◌
  abbrev pub ◌>>◌ : {A B : Type 0} → Step S E A → Step S E B → Step S E B
  m >> k = m >>= λ _. k

  unfoldable pub get : Step S E S
  get s = go_on s s

  unfoldable pub put : S → Step S E Unit
  put s' s = go_on tt s'

  unfoldable pub pure : {A : Type 0} → A → Step S E A
  pure a s = go_on a s

module _ {S B : Type 0} where
  unfoldable pub check_in : {A : Type 0} → S → Result A → Outcome S (Option (Result B)) A
  check_in s (ok a) = go_on a s
  check_in s (err e) = leave (some (err e)) s
  check_in s panic = leave (some panic) s
  check_in s stuck = leave (some stuck) s

  -- the macro `check!`
  unfoldable pub check : {A : Type 0} → Result A → Step S (Option (Result B)) A
  unfolding check_in
  check r s = check_in s r

-- Rounds of a loop until one returns.
module _ {S B : Type 0} where
  unfoldable pub rounds : Step S (Option (Result B)) Unit → ℕ → S → Option (Result B) × S
  rounds step zero s = (some stuck, s)
  rounds step (suc fuel) s = elim (step s) [
    | go_on _ s' ↦ rounds step fuel s'
    | leave e s' ↦ (e, s')
  ]
