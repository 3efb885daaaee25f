-- ===== src/Totp/Digits.antt =====
-- The digits of the base32 of crates/sharerr/src/totp.rs are read back.
use sharerr_rs.Prelude.{
  Bool, Bool-cases, Bytes, Option, ap, arith, false, get_or, inl, inr, list_eq, nat_eq, nat_eqb_iff,
  none, not, option_eqb, refl, some, suc, true, zero, ℕ, ◌&&◌, ◌<◌, ◌==◌, ◌||◌, ◌∙◌, ◌∷◌, ◌≡◌,
}
use sharerr_rs.Bencode.Decode.{value}
use sharerr_rs.Paths.Resolver.{component_eq}
use sharerr_rs.Totp.Base32.{
  alphabet, decode_from, digit_value, is_whitespace, position, push_digit, push_value,
}

abbrev pub digit_of : ℕ → ℕ
digit_of d = get_or alphabet d 0

unfoldable reads_back : ℕ → Bool
unfolding digit_value
reads_back d =
    not (is_whitespace (digit_of d) || digit_of d == b'=')
    && option_eqb (digit_value (digit_of d)) (some d)

abbrev all_below : ℕ → (ℕ → Bool) → Bool
all_below zero p = true
all_below (suc n) p = p n && all_below n p

and_left : (a b : Bool) → (a && b) ≡ true → a ≡ true
and_left true b h = refl
and_left false b h = h

and_right : (a b : Bool) → (a && b) ≡ true → b ≡ true
and_right true b h = h
and_right false b h = cc h

parts :
    (a : Bool) (o : Option ℕ) (d : ℕ)
    → (not a && option_eqb o (some d)) ≡ true
    → (a ≡ false) × (o ≡ some d)
parts true o d h = cc h
parts false none d h = cc h
parts false (some e) d h = (refl, ap some ((nat_eqb_iff e d).0 h))

all_below_lem : (n : ℕ) (p : ℕ → Bool) (d : ℕ) → all_below n p ≡ true → d < n → p d ≡ true
all_below_lem zero p d h k = absurd (omega (arith, k))
all_below_lem (suc n) p d h k = elim (Bool-cases (d == n)) [
  | inl same ↦ ap p ((nat_eqb_iff d n).0 same) ∙ and_left (p n) (all_below n p) h
  | inr other ↦ all_below_lem n p d (and_right (p n) (all_below n p) h) (ground arith)
]

alphabet_reads_back : all_below 32 reads_back ≡ true
unfolding reads_back digit_value position
alphabet_reads_back = refl

digit_value-digit_of :
    (d : ℕ)
    → d < 32
    → ((is_whitespace (digit_of d) || digit_of d == b'=') ≡ false)
      × (digit_value (digit_of d) ≡ some d)
digit_value-digit_of d h =
    let back = all_below_lem 32 reads_back d alphabet_reads_back h in
    parts (is_whitespace (digit_of d) || digit_of d == b'=') (digit_value (digit_of d)) d
      (unfold reads_back in back)

-- A digit is read as its five bits.
pub decode_from-digit :
    (buffer bits d : ℕ) (text : Bytes)
    → d < 32
    → decode_from buffer bits (digit_of d ∷ text)
      ≡ push_value
          (push_digit buffer bits d).0
          (decode_from (push_digit buffer bits d).1.0 (push_digit buffer bits d).1.1 text)
unfolding decode_from
decode_from-digit buffer bits d text h =
    let (plain, value) = digit_value-digit_of d h in rw (plain, value) refl
