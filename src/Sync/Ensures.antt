-- ===== src/Sync/Ensures.antt =====
-- What holds after an action that succeeded.
use sharerr_rs.Prelude.{Result, err, ok}
use sharerr_rs.Sync.Exec.{Exec, continue, pure, ◌>>=◌}
use sharerr_rs.Sync.Keeps.{Keeps}
use sharerr_rs.Sync.Leads.{IfOk}

pub record Ensures {ℓ} {S E A : Type ℓ} (P Q : S → Type ℓ) (m : Exec S E A) : Type ℓ where
  pub after : (s : S) → P s → IfOk (λ a. Q (m s).1) (m s).0

pub IfOk-any {ℓ} : {E A B : Type ℓ} (b : B) (r : Result E A) → IfOk (λ (a : A). B) r
IfOk-any b (ok a) = b
IfOk-any b (err e) = tt

module _ {ℓ} {S E A : Type ℓ} {P : S → Type ℓ} where
  pub Ensures-pure : (a : A) → Ensures P P (pure {E = E} a)
  unfolding pure
  Ensures-pure a = record { after = λ s h. h }

  pub Ensures-Keeps : (m : Exec S E A) → Keeps P m → Ensures P P m
  Ensures-Keeps m k = record { after = λ s h. IfOk-any (k.at s h) (m s).0 }

module _ {ℓ} {S E A B : Type ℓ} {Q R : S → Type ℓ} where
  continue-Ensures :
      (r : Result E A) (f : A → Exec S E B)
      → ((a : A) → Ensures Q R (f a))
      → (s : S) → IfOk (λ a. Q s) r
      → IfOk (λ b. R (continue r f s).1) (continue r f s).0
  continue-Ensures (ok a) f ef s h = (ef a).after s h
  continue-Ensures (err e) f ef s h = tt

module _ {ℓ} {S E A B : Type ℓ} {P Q R : S → Type ℓ} where
  pub Ensures-bind :
      (m : Exec S E A) (f : A → Exec S E B)
      → Ensures P Q m
      → ((a : A) → Ensures Q R (f a))
      → Ensures P R (m >>= f)
  unfolding ◌>>=◌
  Ensures-bind m f em ef = record {
    after = λ s h. let (r, s') = m s in continue-Ensures r f ef s' (em.after s h);
  }
