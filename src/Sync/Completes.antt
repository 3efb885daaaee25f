-- ===== src/Sync/Completes.antt =====
-- Actions that cannot fail, and what they return.
use sharerr_rs.Prelude.{Bool, Result, false, if◌then◌else◌, ok, refl, subst, sym, true, ◌≡◌}
use sharerr_rs.Sync.Exec.{Exec, continue, gets, pure, settle, ◌>>=◌}

pub record Completes {ℓ} {S E A : Type ℓ} (R : A → Type ℓ) (m : Exec S E A) : Type ℓ where
  pub at : (s : S) → (a : A) × ((m s).0 ≡ ok a) × R a

module _ {ℓ} {S E A : Type ℓ} {R : A → Type ℓ} where
  pub Completes-pure : (a : A) → R a → Completes R (pure {S = S} {E = E} a)
  unfolding pure
  Completes-pure a h = record { at = λ s. (a, refl, h) }

  pub Completes-gets : (f : S → A) → ((s : S) → R (f s)) → Completes R (gets {E = E} f)
  unfolding gets
  Completes-gets f h = record { at = λ s. (f s, refl, h s) }

  pub Completes-if :
      (b : Bool) (m n : Exec S E A)
      → (b ≡ true → Completes R m)
      → (b ≡ false → Completes R n)
      → Completes R (if b then m else n)
  Completes-if true m n cm cn = cm refl
  Completes-if false m n cm cn = cn refl

module _ {ℓ} {S E A : Type ℓ} where
  pub Completes-settle : (m : Exec S E A) → Completes (λ (r : Result E A). Unit {ℓ}) (settle m)
  unfolding settle
  Completes-settle m = record { at = λ s. ((m s).0, refl, tt) }

module _ {ℓ} {S E A B : Type ℓ} {R : B → Type ℓ} where
  continue-ok :
      (r : Result E A) (a : A) (f : A → Exec S E B) (s : S)
      → r ≡ ok a
      → (b : B) × ((f a s).0 ≡ ok b) × R b
      → (b : B) × ((continue r f s).0 ≡ ok b) × R b
  continue-ok r a f s same h = subst (λ r. (b : B) × ((continue r f s).0 ≡ ok b) × R b) (sym same) h

  pub Completes-bind :
      (Q : A → Type ℓ) (m : Exec S E A) (f : A → Exec S E B)
      → Completes Q m
      → ((a : A) → Q a → Completes R (f a))
      → Completes R (m >>= f)
  unfolding ◌>>=◌
  Completes-bind Q m f cm cf = record {
    at = λ s.
        let (a, same, q) = cm.at s in continue-ok (m s).0 a f (m s).1 same ((cf a q).at (m s).1);
  }

module _ {ℓ} {S E A : Type ℓ} {R : A → Type ℓ} where
  pub Completes-mono :
      (Q : A → Type ℓ) {m : Exec S E A} → Completes Q m → ((a : A) → Q a → R a) → Completes R m
  Completes-mono Q cm f = record { at = λ s. let (a, same, q) = cm.at s in (a, same, f a q) }
