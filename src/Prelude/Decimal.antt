-- ===== src/Prelude/Decimal.antt =====
-- Decimal print and parse of the integer types: `to_string` and `str::parse`.
pub mod RoundTrip
use mathlib.Core.Option
use sharerr_rs.Prelude.{
  Bool, Bytes, Option, [], codes, if◌then◌else◌, leb, list_eq, map, nat_eq, nat_eqb, none, refl,
  some, suc, zero, ℕ, ◌%◌, ◌&&◌, ◌*◌, ◌+◌, ◌-◌, ◌/◌, ◌==◌, ◌∷◌, ◌≡◌,
}
use sharerr_rs.Prelude.Int.{i64_max, negsuc, pos, ℤ}

-- The digits of `n`, in front of `out`. Fuel `n` is enough, since each round divides by ten.
unfoldable pub digits : ℕ → ℕ → Bytes → Bytes
digits zero n out = out
digits (suc f) n out =
    let rest = digits f (n / 10) ((b'0' + n % 10) ∷ out) in if nat_eqb n 0 then out else rest

unfoldable pub decimal : ℕ → Bytes
unfolding digits
decimal n = if nat_eqb n 0 then b'0' ∷ [] else digits n n []

unfoldable pub decimal_ℤ : ℤ → Bytes
unfolding decimal
decimal_ℤ (pos n) = decimal n
decimal_ℤ (negsuc n) = b'-' ∷ decimal (suc n)

abbrev pub is_digit : ℕ → Bool
is_digit c = leb b'0' c && leb c b'9'

-- The number that the digits spell behind `n`, if nothing passes `most`.
unfoldable pub parse_digits : ℕ → ℕ → Bytes → Option ℕ
parse_digits most n [] = some n
parse_digits most n (c ∷ s) =
    let m = n * 10 + (c - b'0') in
    let rest = parse_digits most m s in if is_digit c && leb m most then rest else none

-- Behind the sign there must be a digit.
unfoldable pub parse_some : ℕ → Bytes → Option ℕ
unfolding parse_digits
parse_some most [] = none
parse_some most (c ∷ s) = parse_digits most 0 (c ∷ s)

-- `str::parse` into an unsigned type that holds numbers up to `most`.
unfoldable pub parse_unsigned : ℕ → Bytes → Option ℕ
unfolding parse_some
parse_unsigned most [] = none
parse_unsigned most (c ∷ s) = if c == b'+' then parse_some most s else parse_some most (c ∷ s)

abbrev pub negate : ℕ → ℤ
negate zero = pos 0
negate (suc n) = negsuc n

-- `str::parse::<i64>`
unfoldable pub parse_i64 : Bytes → Option ℤ
unfolding parse_some
parse_i64 [] = none
parse_i64 (c ∷ s) =
    if c == b'-'
    then Option.map negate (parse_some (i64_max + 1) s)
    else Option.map pos (if c == b'+' then parse_some i64_max s else parse_some i64_max (c ∷ s))

signs :
    (parse_i64 (codes "-9223372036854775808") ≡ some (negsuc 9223372036854775807))
    × (parse_i64 (codes "9223372036854775808") ≡ none)
    × (parse_i64 (codes "+7") ≡ some (pos 7))
    × (parse_i64 (codes "-") ≡ none)
    × (decimal_ℤ (negsuc 11) ≡ codes "-12")
unfolding parse_i64 decimal_ℤ
signs = (refl, refl, refl, refl, refl)
