-- ===== src/Totp/Accepted.antt =====
-- `verify` of crates/sharerr/src/totp.rs accepts the codes of the steps near to now, and no others.
use sharerr_rs.Prelude.{
  All, Bool, Bytes, Option, all, ap, arith, false, filter, if◌then◌else◌, length, list_eq,
  list_eqb_iff, nat_eq, none, not, refl, some, true, ℕ, ◌%◌, ◌+◌, ◌/◌, ◌<◌, ◌^◌, ◌∙◌, ◌≡◌, ◌≤◌,
}
use sharerr_rs.Announce.Query.{decoded}
use sharerr_rs.Announce.Swarms.{step}
use sharerr_rs.Bencode.Pieces.{at}
use sharerr_rs.Paths.Resolver.{component_eq}
use sharerr_rs.Prelude.Decimal.{digits}
use sharerr_rs.Prelude.Int.{negsuc, pos, ℤ}
use sharerr_rs.Torrent.Fields.{bind_option}
use sharerr_rs.Totp.Base32.{base32_decode, base32_encode, is_whitespace}
use sharerr_rs.Totp.Code.{
  code_for, code_matches, find, hotp, is_ascii_digit, verify_code, zero_padded,
}
use sharerr_rs.Totp.RoundTrip.{base32_decode-base32_encode}
use sharerr_rs.Totp.Window.{
  IsNear, IsNear-steps, filter-zero_padded, find-some, find_lem, length-zero_padded, near_tried,
  tried_steps, zero_padded-digits,
}

module _ (sha1 : Bytes → Bytes) where
  matching_step :
      (key code : Bytes) (now : ℕ) (step : ℤ)
      → (code_matches sha1 key code step ≡ true) × IsNear now step
      → (n : ℕ) × (step ≡ pos n) × IsNear now (pos n) × (code_for sha1 key n ≡ code)
  matching_step key code now (pos n) (hit, near) =
      (n, refl, near, (list_eqb_iff (code_for sha1 key n) code).0 hit)
  matching_step key code now (negsuc n) (hit, near) = cc hit

  decoded_step :
      (o : Option Bytes) (code : Bytes) (now : ℕ) (step : ℤ)
      → bind_option o (λ key. find (code_matches sha1 key code) (tried_steps now)) ≡ some step
      → (key : Bytes) × (n : ℕ) × (o ≡ some key)
        × (step ≡ pos n)
        × IsNear now (pos n)
        × (code_for sha1 key n ≡ code)
  decoded_step none code now step e = ground arith
  decoded_step (some key) code now step e =
      let found =
        find_lem (code_matches sha1 key code) (IsNear now) (tried_steps now) step (IsNear-steps now)
          e in
      let (n, at, near, code_at) = matching_step key code now step found in
      (key, n, refl, at, near, code_at)

  tested_step :
      (bad : Bool) (o : Option ℤ) (step : ℤ) → (if bad then none else o) ≡ some step → o ≡ some step
  tested_step true o step e = ground arith
  tested_step false o step e = e

  -- A code that is accepted is, but for its spaces, the code of the secret's key at the step that is
  -- answered, which is at most one from the current one.
  pub verify_code-IsNear :
      (secret code : Bytes) (now : ℕ) (step : ℤ)
      → verify_code sha1 secret code (pos now) ≡ some step
      → (key : Bytes) × (n : ℕ) × (base32_decode secret ≡ some key)
        × (step ≡ pos n)
        × IsNear now (pos n)
        × (code_for sha1 key n ≡ filter (λ c. not (is_whitespace c)) code)
  unfolding verify_code
  verify_code-IsNear secret code now step e =
      decoded_step (base32_decode secret) (filter (λ c. not (is_whitespace c)) code) now step
        (tested_step _ _ step e)

  -- A text of six digits is tried at each step.
  verify_code-digits :
      (text key secret : Bytes) (now : ℕ)
      → filter (λ c. not (is_whitespace c)) text ≡ text
      → length text ≡ 6
      → all is_ascii_digit text ≡ true
      → base32_decode secret ≡ some key
      → verify_code sha1 secret text (pos now) ≡ find (code_matches sha1 key text) (tried_steps now)
  unfolding verify_code
  verify_code-digits text key secret now plain size digits decoded =
      rw (plain, size, digits, decoded) refl

  -- The code of a key, at a step that is at most one from the current one, is accepted for the
  -- secret that the key is written as; the step that is answered is near too, and has that code.
  pub verify_code-code_for :
      (key : Bytes) (step now : ℕ)
      → All (λ byte. byte < 256) key
      → step ≤ now / 30 + 1
      → now / 30 ≤ step + 1
      → (n : ℕ) × (verify_code sha1 (base32_encode key) (code_for sha1 key step) (pos now)
          ≡ some (pos n))
        × IsNear now (pos n)
        × (code_for sha1 key n ≡ code_for sha1 key step)
  unfolding code_for
  verify_code-code_for key step now h k l =
      let m = hotp sha1 key step % 10 ^ 6 in
      let text = zero_padded 6 m in
      let (found_step, e) =
        find-some (code_matches sha1 key text) (tried_steps now)
          (near_tried sha1 now step key text k l refl) in
      let (n, at, near, same) = matching_step key text now found_step (
        find_lem (code_matches sha1 key text) (IsNear now) (tried_steps now) found_step
          (IsNear-steps now) e) in
      let tried =
        verify_code-digits text key (base32_encode key) now (filter-zero_padded 6 m)
          (length-zero_padded 6 m) (zero_padded-digits 6 m) (base32_decode-base32_encode key h) in
      (n, tried ∙ (e ∙ ap some at), near, same)
