-- ===== src/Totp/Code.antt =====
-- The codes of crates/sharerr/src/totp.rs. sha1 is a parameter, and so is the clock.
use Prim.Native.Nat.{bit_xor}
use sharerr_rs.Prelude.{
  Bool, Bytes, List, Option, [], all, codes, false, filter, get_or, if◌then◌else◌, leb, length,
  list_eq, ltb, map, nat_eq, none, not, some, suc, zero, ℕ, ◌%◌, ◌&&◌, ◌*◌, ◌++◌, ◌+◌, ◌-◌, ◌/◌,
  ◌==◌, ◌^◌, ◌||◌, ◌∷◌,
}
use sharerr_rs.Announce.Swarms.{step}
use sharerr_rs.Paths.Resolver.{component_eq}
use sharerr_rs.Prelude.Int.{negsuc, pos, ℤ, ◌+ℤ◌, ◌-ℤ◌}
use sharerr_rs.Torrent.Fields.{bind_option}
use sharerr_rs.Totp.Base32.{base32_decode, is_whitespace}

abbrev pub step_secs : ℕ
step_secs = 30

abbrev pub digit_count : ℕ
digit_count = 6

abbrev pub hmac_block : ℕ
hmac_block = 64

-- A key in a block of zeros.
unfoldable pub padded : ℕ → Bytes → Bytes
padded zero key = []
padded (suc n) [] = 0 ∷ padded n []
padded (suc n) (b ∷ key) = b ∷ padded n key

-- `to_be_bytes` of a number of `n` bytes
unfoldable pub counter_bytes : ℕ → ℕ → Bytes
counter_bytes zero counter = []
counter_bytes (suc n) counter = (counter / 2 ^ (8 * n)) % 256 ∷ counter_bytes n counter

-- `{:06}`
unfoldable pub zero_padded : ℕ → ℕ → Bytes
zero_padded zero n = []
zero_padded (suc k) n = (b'0' + (n / 10 ^ k) % 10) ∷ zero_padded k n

-- `div_euclid` by a length that is not zero
abbrev pub div_euclid : ℤ → ℕ → ℤ
div_euclid (pos n) by = pos (n / by)
div_euclid (negsuc n) by = negsuc (n / by)

abbrev pub is_ascii_digit : ℕ → Bool
is_ascii_digit c = leb b'0' c && leb c b'9'

abbrev pub find {ℓ} : {A : Type ℓ} → (A → Bool) → List A → Option A
find p [] = none
find p (x ∷ xs) = if p x then some x else find p xs

module _ (sha1 : Bytes → Bytes) where
  unfoldable pub hmac_sha1 : Bytes → Bytes → Bytes
  unfolding padded
  hmac_sha1 key message =
      let block = padded hmac_block (if ltb hmac_block (length key) then sha1 key else key) in
      let inner = sha1 (map (λ b. bit_xor b 0x36) block ++ message) in
      sha1 (map (λ b. bit_xor b 0x5c) block ++ inner)

  unfoldable pub hotp : Bytes → ℕ → ℕ
  unfolding hmac_sha1 counter_bytes
  hotp key counter =
      let mac = hmac_sha1 key (counter_bytes 8 counter) in
      let offset = get_or mac 19 0 % 16 in
      (get_or mac offset 0 % 128) * 2 ^ 24
      + get_or mac (offset + 1) 0 * 2 ^ 16
      + get_or mac (offset + 2) 0 * 2 ^ 8
      + get_or mac (offset + 3) 0

  unfoldable pub code_for : Bytes → ℕ → Bytes
  unfolding hotp zero_padded
  code_for key counter = zero_padded digit_count (hotp key counter % 10 ^ digit_count)

  -- Whether the code is the step's, for a step that is a `u64`.
  abbrev pub code_matches : Bytes → Bytes → ℤ → Bool
  code_matches key code (pos step) = code_for key step == code
  code_matches key code (negsuc n) = false

  unfoldable pub verify_code : Bytes → Bytes → ℤ → Option ℤ
  unfolding base32_decode code_for
  verify_code secret code now =
      let code' = filter (λ c. not (is_whitespace c)) code in
      if not (length code' == digit_count) || not (all is_ascii_digit code')
      then none
      else bind_option (base32_decode secret) λ key.
        let current' = div_euclid now step_secs in
        find (code_matches key code') ((current' -ℤ pos 1) ∷ current' ∷ (current' +ℤ pos 1) ∷ [])

-- `percent_encode`
abbrev pub is_unreserved : ℕ → Bool
is_unreserved b =
    is_ascii_digit b
    || leb b'A' b && leb b b'Z'
    || leb b'a' b && leb b b'z'
    || b == b'-'
    || b == b'.'
    || b == b'_'
    || b == b'~'

abbrev pub hex_upper : ℕ → ℕ
hex_upper n = if ltb n 10 then b'0' + n else b'A' + (n - 10)

unfoldable pub percent_encode : Bytes → Bytes
percent_encode [] = []
percent_encode (b ∷ text) =
    let rest = percent_encode text in
    if is_unreserved b then b ∷ rest else b'%' ∷ hex_upper (b / 16) ∷ hex_upper (b % 16) ∷ rest

unfoldable pub otpauth_uri : Bytes → Bytes → Bytes
unfolding percent_encode
otpauth_uri username secret =
    codes "otpauth://totp/sharerr:"
    ++ (percent_encode username ++ (codes "?secret=" ++ (secret ++ codes "&issuer=sharerr")))
