-- ===== src/Sync/Leads.antt =====
-- A pass reads before it acts: what holds after the reading, and the tables that were read.
use sharerr_rs.Prelude.{Result, err, ok}
use sharerr_rs.Announce.QueryRead.{given}
use sharerr_rs.Sync.Exec.{Exec, continue, ◌>>=◌}
use sharerr_rs.Sync.Keeps.{Keeps}

pub record Leads {ℓ} {S E A : Type ℓ} (P Q : S → Type ℓ) (m : Exec S E A) : Type ℓ where
  pub from : (s : S) → P s → Q (m s).1

abbrev pub IfOk {ℓ} : {E A : Type ℓ} → (A → Type ℓ) → Result E A → Type ℓ
IfOk R (ok a) = R a
IfOk R (err e) = Unit

pub IfOk-mono :
    {E A : Type 0} (P Q : A → Type 0) (r : Result E A) → ((a : A) → P a → Q a) → IfOk P r → IfOk Q r
IfOk-mono P Q (ok a) f h = f a h
IfOk-mono P Q (err failure) f h = h

-- An action that keeps `P` and whose result, if it has one, is as `R` says.
pub record Yields {ℓ} {S E A : Type ℓ} (P : S → Type ℓ) (R : A → Type ℓ) (m : Exec S E A)
    : Type ℓ where
  pub keeps : (s : S) → P s → P (m s).1
  pub gives : (s : S) → P s → IfOk R (m s).0

module _ {ℓ} {S E A B : Type ℓ} {P Q : S → Type ℓ} (mono : (s : S) → P s → Q s) where
  continue-Leads :
      {R : A → Type ℓ} (r : Result E A) (f : A → Exec S E B)
      → ((a : A) → R a → Leads P Q (f a))
      → (s : S) → IfOk R r
      → P s
      → Q (continue r f s).1
  continue-Leads (ok a) f lf s given h = (lf a given).from s h
  continue-Leads (err e) f lf s given h = mono s h

  pub Leads-bind :
      (R : A → Type ℓ) (m : Exec S E A) (f : A → Exec S E B)
      → Yields P R m
      → ((a : A) → R a → Leads P Q (f a))
      → Leads P Q (m >>= f)
  unfolding ◌>>=◌
  Leads-bind R m f y lf = record {
    from = λ s h. let (r, s') = m s in continue-Leads {R = R} r f lf s' (y.gives s h) (y.keeps s h);
  }

module _ {ℓ} {S E B : Type ℓ} {P Q : S → Type ℓ} (mono : (s : S) → P s → Q s) where
  pub Leads-Keeps : (m : Exec S E B) → Keeps Q m → Leads P Q m
  Leads-Keeps m k = record { from = λ s h. k.at s (mono s h) }

any_result {ℓ} : {E A : Type ℓ} (r : Result E A) → IfOk (λ a. Unit) r
any_result (ok a) = tt
any_result (err e) = tt

module _ {ℓ} {S E A : Type ℓ} {P : S → Type ℓ} where
  pub Yields-Keeps : (m : Exec S E A) → Keeps P m → Yields P (λ a. Unit) m
  Yields-Keeps m k = record { keeps = k.at; gives = λ s h. any_result (m s).0 }
