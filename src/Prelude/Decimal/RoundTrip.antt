-- ===== src/Prelude/Decimal/RoundTrip.antt =====
-- A printed number is read back, and is made of digits.
use mathlib.Core.Option
use sharerr_rs.Prelude.{
  All, Bytes, Option, Option-cases, [], ap, arith, inl, inr, none, refl, some, suc, true, zero, ℕ,
  ◌%◌, ◌*◌, ◌+◌, ◌-◌, ◌/◌, ◌∙◌, ◌∷◌, ◌≡◌, ◌≢◌, ◌≤◌,
}
use sharerr_rs.Prelude.Decimal.{
  decimal, decimal_ℤ, digits, is_digit, negate, parse_digits, parse_i64, parse_some, parse_unsigned,
}
use sharerr_rs.Prelude.Int.{IsI64, i64_max, negsuc, pos, ℤ}

parse_digits-digits :
    (most f n : ℕ) (out : Bytes)
    → n ≤ f
    → n ≤ most
    → parse_digits most 0 (digits f n out) ≡ parse_digits most n out
unfolding digits parse_digits
parse_digits-digits most zero n out le fits = ground arith
parse_digits-digits most (suc f) n out le fits =
    ground (arith, parse_digits-digits most f (n / 10) ((b'0' + n % 10) ∷ out))

-- One or more digits.
abbrev pub IsNumeral : Bytes → Type 0
IsNumeral s = (s ≢ []) × All (λ c. is_digit c ≡ true) s

digits-All :
    (f n : ℕ) (out : Bytes)
    → All (λ c. is_digit c ≡ true) out
    → All (λ c. is_digit c ≡ true) (digits f n out)
unfolding digits
digits-All zero n out h = h
digits-All (suc f) n out h = ground (arith, digits-All f (n / 10) ((b'0' + n % 10) ∷ out))

digits-ne-nil : (f n : ℕ) (out : Bytes) → out ≢ [] → digits f n out ≢ []
unfolding digits
digits-ne-nil zero n out h = h
digits-ne-nil (suc f) n out h =
    ground (arith, digits-ne-nil f (n / 10) ((b'0' + n % 10) ∷ out) (λ e. cc e))

decimal-ne-nil : (n : ℕ) → decimal n ≢ []
unfolding decimal digits
decimal-ne-nil zero = λ e. cc e
decimal-ne-nil (suc n) =
    ground (arith, digits-ne-nil n (suc n / 10) ((b'0' + suc n % 10) ∷ []) (λ e. cc e))

pub decimal-IsNumeral : (n : ℕ) → IsNumeral (decimal n)
unfolding decimal
decimal-IsNumeral n = (decimal-ne-nil n, ground (arith, digits-All n n []))

parse_some-parse_digits :
    (most : ℕ) (s : Bytes) → s ≢ [] → parse_some most s ≡ parse_digits most 0 s
unfolding parse_some
parse_some-parse_digits most [] h = absurd (h refl)
parse_some-parse_digits most (c ∷ s) h = refl

parse_digits-decimal : (most n : ℕ) → n ≤ most → parse_digits most 0 (decimal n) ≡ some n
unfolding decimal parse_digits
parse_digits-decimal most n fits = ground (arith, parse_digits-digits most n n [])

pub parse_some-decimal : (most n : ℕ) → n ≤ most → parse_some most (decimal n) ≡ some n
parse_some-decimal most n fits =
    parse_some-parse_digits most (decimal n) (decimal-ne-nil n) ∙ parse_digits-decimal most n fits

parse_unsigned-IsNumeral :
    (most : ℕ) (s : Bytes) → IsNumeral s → parse_unsigned most s ≡ parse_some most s
unfolding parse_unsigned
parse_unsigned-IsNumeral most [] h = ground arith
parse_unsigned-IsNumeral most (c ∷ s) (ne, (digit, h)) = ground arith

parse_i64-IsNumeral :
    (s : Bytes) → IsNumeral s → parse_i64 s ≡ Option.map pos (parse_some i64_max s)
unfolding parse_i64
parse_i64-IsNumeral [] (ne, h) = absurd (ne refl)
parse_i64-IsNumeral (c ∷ s) (ne, (digit, h)) = ground arith

pub parse_unsigned-decimal : (most n : ℕ) → n ≤ most → parse_unsigned most (decimal n) ≡ some n
parse_unsigned-decimal most n fits =
    parse_unsigned-IsNumeral most (decimal n) (decimal-IsNumeral n) ∙ parse_some-decimal most n fits

-- Leading zeros are read over.
pub parse_unsigned-padded :
    (most n : ℕ) → n ≤ most → parse_unsigned most (b'0' ∷ decimal n) ≡ some n
unfolding parse_unsigned parse_some parse_digits
parse_unsigned-padded most n fits = ground (arith, parse_digits-decimal most n)

pub parse_i64-decimal_ℤ : (z : ℤ) → IsI64 z → parse_i64 (decimal_ℤ z) ≡ some z
unfolding decimal_ℤ
parse_i64-decimal_ℤ (pos n) (fits, _) =
    parse_i64-IsNumeral (decimal n) (decimal-IsNumeral n)
    ∙ ap (Option.map pos) (parse_some-decimal i64_max n fits)
parse_i64-decimal_ℤ (negsuc n) (_, fits) =
    unfold parse_i64 in rw (parse_some-decimal (i64_max + 1) (suc n) fits)

-- What is read does not pass the type's largest value.
parse_digits-le :
    (most n : ℕ) (s : Bytes) {r : ℕ} → n ≤ most → parse_digits most n s ≡ some r → r ≤ most
unfolding parse_digits
parse_digits-le most n [] fits h = ground arith
parse_digits-le most n (c ∷ s) {r} fits h =
    ground (arith, parse_digits-le most (n * 10 + (c - b'0')) s {r = r})

parse_some-le : (most : ℕ) (s : Bytes) {r : ℕ} → parse_some most s ≡ some r → r ≤ most
unfolding parse_some
parse_some-le most [] h = cc h
parse_some-le most (c ∷ s) h = parse_digits-le most 0 (c ∷ s) (omega arith) h

-- Where a value is read, it has a property.
abbrev pub IfSome {ℓ κ} : {A : Type ℓ} → (A → Type κ) → Option A → Type κ
IfSome P none = Unit
IfSome P (some a) = P a

parse_some-IfSome : (most : ℕ) (s : Bytes) → IfSome (λ r. r ≤ most) (parse_some most s)
parse_some-IfSome most s = elim (Option-cases (parse_some most s)) [
  | inl e ↦ rw e tt
  | inr (r, e) ↦ rw e (parse_some-le most s e)
]

IfSome-negate :
    (o : Option ℕ) → IfSome (λ r. r ≤ i64_max + 1) o → IfSome IsI64 (Option.map negate o)
IfSome-negate none h = tt
IfSome-negate (some zero) h = omega arith
IfSome-negate (some (suc n)) h = omega arith

IfSome-pos : (o : Option ℕ) → IfSome (λ r. r ≤ i64_max) o → IfSome IsI64 (Option.map pos o)
IfSome-pos none h = tt
IfSome-pos (some n) h = omega arith

pub parse_i64-IfSome : (s : Bytes) → IfSome IsI64 (parse_i64 s)
unfolding parse_i64
parse_i64-IfSome [] = tt
parse_i64-IfSome (c ∷ s) = ground (
  arith,
  IfSome-negate (parse_some (i64_max + 1) s) (parse_some-IfSome (i64_max + 1) s),
  IfSome-pos (parse_some i64_max s) (parse_some-IfSome i64_max s),
  IfSome-pos (parse_some i64_max (c ∷ s)) (parse_some-IfSome i64_max (c ∷ s)),
)

pub parse_unsigned-IfSome : (most : ℕ) (s : Bytes) → IfSome (λ r. r ≤ most) (parse_unsigned most s)
unfolding parse_unsigned
parse_unsigned-IfSome most [] = tt
parse_unsigned-IfSome most (c ∷ s) =
    ground (arith, parse_some-IfSome most s, parse_some-IfSome most (c ∷ s))
