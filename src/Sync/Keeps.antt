-- ===== src/Sync/Keeps.antt =====
-- What an action leaves true of the state, whether it succeeds or fails: one rule for each way to
-- build an action.
use sharerr_rs.Prelude.{Bool, Result, err, false, if◌then◌else◌, ok, refl, true, ◌≡◌}
use sharerr_rs.Sync.Exec.{Exec, continue, gets, lift, modify, pure, raise, settle, ◌>>=◌}

pub record Keeps {ℓ} {S E A : Type ℓ} (Holds : S → Type ℓ) (action : Exec S E A) : Type ℓ where
  pub at : (before : S) → Holds before → Holds (action before).1

module _ {ℓ} {S E A B : Type ℓ} {Holds : S → Type ℓ} where
  continue-Keeps :
      (outcome : Result E A) (next : A → Exec S E B)
      → ((value : A) → Keeps Holds (next value))
      → (after : S) → Holds after
      → Holds (continue outcome next after).1
  continue-Keeps (err failure) next next_keeps after held = held
  continue-Keeps (ok value) next next_keeps after held = (next_keeps value).at after held

  pub Keeps-bind :
      (first : Exec S E A) (next : A → Exec S E B)
      → Keeps Holds first
      → ((value : A) → Keeps Holds (next value))
      → Keeps Holds (first >>= next)
  unfolding ◌>>=◌
  Keeps-bind first next first_keeps next_keeps = record {
    at = λ before held.
        let (outcome, after) = first before in
        continue-Keeps outcome next next_keeps after (first_keeps.at before held);
  }

module _ {ℓ} {S E : Type ℓ} {Holds : S → Type ℓ} where
  pub Keeps-modify :
      (change : S → S)
      → ((before : S) → Holds before → Holds (change before))
      → Keeps Holds (modify {E = E} change)
  unfolding modify
  Keeps-modify change change_keeps = record { at = change_keeps }

module _ {ℓ} {S E A : Type ℓ} {Holds : S → Type ℓ} where
  pub Keeps-settle : (action : Exec S E A) → Keeps Holds action → Keeps Holds (settle action)
  unfolding settle
  Keeps-settle action keeps = record { at = λ before held. keeps.at before held }

  pub Keeps-gets : (read : S → A) → Keeps Holds (gets {E = E} read)
  unfolding gets
  Keeps-gets read = record { at = λ before held. held }

  pub Keeps-lift : (outcome : Result E A) → Keeps Holds (lift outcome)
  unfolding lift
  Keeps-lift outcome = record { at = λ before held. held }

  pub Keeps-pure : (value : A) → Keeps Holds (pure {E = E} value)
  unfolding pure
  Keeps-pure value = record { at = λ before held. held }

  pub Keeps-raise : (failure : E) → Keeps Holds (raise {A = A} failure)
  unfolding raise
  Keeps-raise failure = record { at = λ before held. held }

  pub Keeps-if :
      (test : Bool) (taken other : Exec S E A)
      → (test ≡ true → Keeps Holds taken)
      → (test ≡ false → Keeps Holds other)
      → Keeps Holds (if test then taken else other)
  Keeps-if false taken other then_keeps else_keeps = else_keeps refl
  Keeps-if true taken other then_keeps else_keeps = then_keeps refl

pub ruleset keeps_rules =
    (Keeps-bind, Keeps-if, Keeps-settle, Keeps-gets, Keeps-lift, Keeps-pure, Keeps-raise)
