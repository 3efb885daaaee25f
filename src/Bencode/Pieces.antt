-- ===== src/Bencode/Pieces.antt =====
-- The parts of a value that hold no other value: what their writers append is read back.
use sharerr_rs.Prelude.{
  ==-refl, All, All-mono, Bytes, [], append_assoc, arith, drop-append, false, length, length-append,
  list_eq, nat_eq, ok, refl, some, suc, take-append, true, ℕ, ◌++◌, ◌+◌, ◌<◌, ◌==◌, ◌∷◌, ◌≡◌, ◌≤◌,
}
use sharerr_rs.Bencode.Decode.{Parser, byte_string, canonical_i64, integer, split_at}
use sharerr_rs.Bencode.Encode.{write_bytes, write_int}
use sharerr_rs.Bencode.Value.{int, usize_max}
use sharerr_rs.Prelude.Decimal.{decimal, decimal_ℤ, is_digit}
use sharerr_rs.Prelude.Decimal.RoundTrip.{
  decimal-IsNumeral, parse_i64-decimal_ℤ, parse_unsigned-decimal, parse_unsigned-padded,
}
use sharerr_rs.Prelude.Int.{IsI64, negsuc, pos, ℤ}

abbrev pub at : Bytes → ℕ → Parser
at rest o = record { rest = rest; pos = o }

pub split_at-append :
    (b : ℕ) (s rest : Bytes)
    → All (λ c. (c == b) ≡ false) s
    → split_at b (s ++ b ∷ rest) ≡ some (s, rest)
unfolding split_at
split_at-append b [] rest h = ground arith
split_at-append b (c ∷ s) rest (hc, h) = rw (hc, split_at-append b s rest h)

no_colon : (c : ℕ) → is_digit c ≡ true → (c == b':') ≡ false
no_colon c h = ground arith

no_e : (c : ℕ) → is_digit c ≡ true → (c == b'e') ≡ false
no_e c h = ground arith

decimal-no_colon : (n : ℕ) → All (λ c. (c == b':') ≡ false) (decimal n)
decimal-no_colon n = All-mono (decimal n) no_colon (decimal-IsNumeral n).1

decimal_ℤ-no_e : (z : ℤ) → All (λ c. (c == b'e') ≡ false) (decimal_ℤ z)
unfolding decimal_ℤ
decimal_ℤ-no_e (pos n) = All-mono (decimal n) no_e (decimal-IsNumeral n).1
decimal_ℤ-no_e (negsuc n) = (refl, All-mono (decimal (suc n)) no_e (decimal-IsNumeral (suc n)).1)

canonical_i64-decimal_ℤ : (z : ℤ) → IsI64 z → canonical_i64 (decimal_ℤ z) ≡ some z
unfolding canonical_i64
canonical_i64-decimal_ℤ z fits = rw (parse_i64-decimal_ℤ z fits) (rw (==-refl (decimal_ℤ z)))

pub integer-write_int :
    (z : ℤ) (rest : Bytes) (o : ℕ)
    → IsI64 z
    → integer (decimal_ℤ z ++ b'e' ∷ rest) o ≡ ok (int z, at rest (o + length (write_int z)))
unfolding integer write_int
integer-write_int z rest o fits =
    rw (split_at-append b'e' (decimal_ℤ z) rest (decimal_ℤ-no_e z), canonical_i64-decimal_ℤ z fits)
      (ground (arith, length-append (decimal_ℤ z) (b'e' ∷ [])))

pub byte_string-write_bytes :
    (b rest : Bytes) (o : ℕ)
    → o + length (write_bytes b) ≤ usize_max
    → byte_string (at (write_bytes b ++ rest) o) ≡ ok (b, at rest (o + length (write_bytes b)))
unfolding byte_string write_bytes
byte_string-write_bytes b rest o fits =
    let n = length b in
    let shape : ((decimal n ++ b':' ∷ []) ++ b) ++ rest ≡ decimal n ++ b':' ∷ (b ++ rest) =
      simp append_assoc in
    rw
      (
        shape,
        split_at-append b':' (decimal n) (b ++ rest) (decimal-no_colon n),
        parse_unsigned-decimal usize_max n
            (omega (arith, length-append (decimal n ++ b':' ∷ []) b)),
        take-append b rest,
        drop-append b rest,
      )
      (ground (
        arith,
        length-append (decimal n ++ b':' ∷ []) b,
        length-append (decimal n) (b':' ∷ []),
        length-append b rest,
      ))

-- So with a zero in front of the length.
pub byte_string-padded :
    (b rest : Bytes) (o : ℕ)
    → o + length (write_bytes b) < usize_max
    → byte_string (at (b'0' ∷ (write_bytes b ++ rest)) o)
      ≡ ok (b, at rest (o + length (write_bytes b) + 1))
unfolding byte_string write_bytes
byte_string-padded b rest o fits =
    let n = length b in
    let shape : ((decimal n ++ b':' ∷ []) ++ b) ++ rest ≡ decimal n ++ b':' ∷ (b ++ rest) =
      simp append_assoc in
    rw
      (
        shape,
        split_at-append b':' (b'0' ∷ decimal n) (b ++ rest) (refl, decimal-no_colon n),
        parse_unsigned-padded usize_max n (omega (arith, length-append (decimal n ++ b':' ∷ []) b)),
        take-append b rest,
        drop-append b rest,
      )
      (ground (
        arith,
        length-append (decimal n ++ b':' ∷ []) b,
        length-append (decimal n) (b':' ∷ []),
        length-append b rest,
      ))
