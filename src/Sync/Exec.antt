-- ===== src/Sync/Exec.antt =====
-- What an async method does: it changes the state of the pass, and it may fail. What was done before
-- a failure stays done.
use sharerr_rs.Prelude.{Result, err, ok}

abbrev pub Exec {ℓ} : Type ℓ → Type ℓ → Type ℓ → Type ℓ
Exec State Failure Value = State → Result Failure Value × State

module _ {ℓ} {S E A B : Type ℓ} where
  abbrev pub continue : Result E A → (A → Exec S E B) → Exec S E B
  continue (err failure) next after = (err failure, after)
  continue (ok value) next after = next value after

  infixl 10 ◌>>=◌ ◌>>◌
  unfoldable pub ◌>>=◌ : Exec S E A → (A → Exec S E B) → Exec S E B
  ◌>>=◌ first next before = let (outcome, after) = first before in continue outcome next after

  abbrev pub ◌>>◌ : Exec S E A → Exec S E B → Exec S E B
  first >> second = first >>= λ _. second

module _ {ℓ} {S E : Type ℓ} where
  unfoldable pub modify : (S → S) → Exec S E Unit
  modify change before = (ok tt, change before)

module _ {ℓ} {S E A : Type ℓ} where
  -- A result that is looked at instead of passed on.
  unfoldable pub settle : Exec S E A → Exec S E (Result E A)
  settle action before = let (outcome, after) = action before in (ok outcome, after)

  unfoldable pub gets : (S → A) → Exec S E A
  gets read state = (ok (read state), state)

  unfoldable pub lift : Result E A → Exec S E A
  lift outcome state = (outcome, state)

  unfoldable pub raise : E → Exec S E A
  raise failure state = (err failure, state)

  unfoldable pub pure : A → Exec S E A
  pure value state = (ok value, state)
