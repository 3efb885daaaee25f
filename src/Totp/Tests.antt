-- ===== src/Totp/Tests.antt =====
-- Tests and witnesses: the vectors of RFC 4648, and a stand-in for sha1.
use sharerr_rs.Prelude.{
  All, Bytes, [], arith, codes, filter, none, not, refl, some, ℕ, ◌<◌, ◌∷◌, ◌≡◌,
}
use sharerr_rs.Prelude.Int.{pos, ◌+ℤ◌, ◌-ℤ◌}
use sharerr_rs.Totp.Accepted.{verify_code-IsNear, verify_code-code_for}
use sharerr_rs.Totp.Base32.{
  base32_decode, base32_encode, decode_from, digit_value, encode_from, is_whitespace, position,
  take_digits,
}
use sharerr_rs.Totp.Code.{
  code_for, hmac_sha1, hotp, otpauth_uri, percent_encode, verify_code, zero_padded,
}
use sharerr_rs.Totp.RoundTrip.{base32_decode-base32_encode}
use sharerr_rs.Totp.Window.{IsNear}

abbrev rfc_text : Bytes
rfc_text = codes "foobar"

rfc_encoded : base32_encode rfc_text ≡ codes "MZXW6YTBOI"
unfolding base32_encode encode_from take_digits
rfc_encoded = refl

rfc_decoded : base32_decode (codes "mzxw 6ytb oi======") ≡ some rfc_text
unfolding base32_decode decode_from digit_value position
rfc_decoded = refl

not_base32 : base32_decode (codes "MZ1W") ≡ none
unfolding base32_decode decode_from digit_value position
not_base32 = refl

-- Twenty bytes that depend on the length of the input and on its last byte.
abbrev last_of : Bytes → ℕ
last_of [] = 0
last_of (b ∷ []) = b
last_of (b ∷ c ∷ s) = last_of (c ∷ s)

abbrev stand_in : Bytes → Bytes
stand_in s =
    9 ∷ 8 ∷ 7 ∷ 6 ∷ 5 ∷ last_of s ∷ 4 ∷ 3 ∷ 2 ∷ 1 ∷ 9 ∷ 8 ∷ 7 ∷ 6 ∷ 5 ∷ 4 ∷ 3 ∷ 2 ∷ 1 ∷ 4 ∷ []

abbrev short_key : Bytes
short_key = 222 ∷ 173 ∷ 190 ∷ []

short_key-bytes : All (λ byte. byte < 256) short_key
short_key-bytes = (omega arith, (omega arith, (omega arith, tt)))

shown_code : code_for stand_in short_key 33 ≡ codes "149251"
unfolding code_for hotp hmac_sha1 zero_padded
shown_code = refl

base32_decode-base32_encode_example : base32_decode (base32_encode short_key) ≡ some short_key
base32_decode-base32_encode_example = base32_decode-base32_encode short_key short_key-bytes

-- 1,000 seconds are in step 33.
verify_code-code_for_example :
    (n : ℕ) × (verify_code stand_in
        (base32_encode short_key)
        (code_for stand_in short_key 34)
        (pos 1000)
      ≡ some (pos n))
    × IsNear 1000 (pos n)
    × (code_for stand_in short_key n ≡ code_for stand_in short_key 34)
verify_code-code_for_example =
    verify_code-code_for stand_in short_key 34 1000 short_key-bytes (omega arith) (omega arith)

accepted_now : verify_code stand_in (codes "32W34===") (codes "149 251") (pos 1000) ≡ some (pos 32)
unfolding verify_code code_for hotp hmac_sha1 zero_padded ◌-ℤ◌ ◌+ℤ◌
accepted_now = refl

verify_code-IsNear_example :
    (key : Bytes) × (n : ℕ) × (base32_decode (codes "32W34===") ≡ some key)
    × (pos 32 ≡ pos n)
    × IsNear 1000 (pos n)
    × (code_for stand_in key n ≡ filter (λ c. not (is_whitespace c)) (codes "149 251"))
verify_code-IsNear_example =
    verify_code-IsNear stand_in (codes "32W34===") (codes "149 251") 1000 (pos 32) accepted_now

enrolled :
    otpauth_uri (codes "a b") (codes "MZXW")
    ≡ codes "otpauth://totp/sharerr:a%20b?secret=MZXW&issuer=sharerr"
unfolding otpauth_uri percent_encode
enrolled = refl
