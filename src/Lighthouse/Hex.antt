-- ===== src/Lighthouse/Hex.antt =====
-- Key hashes and public keys as ASCII text: `is_hex_32_bytes`, and the two operations of `str` on
-- ASCII case.
use sharerr_rs.Prelude.{
  Bool, Bytes, [], all, arith, if◌then◌else◌, leb, length, list_eq, map, nat_eq, refl, ℕ, ◌&&◌, ◌+◌,
  ◌==◌, ◌||◌, ◌∷◌, ◌≡◌,
}

is_upper : ℕ → Bool
is_upper c = leb b'A' c && leb c b'Z'

-- `u8::to_ascii_lowercase`
lower : ℕ → ℕ
unfolding is_upper
lower c = if is_upper c then c + 32 else c

-- `str::to_ascii_lowercase`
unfoldable pub to_ascii_lowercase : Bytes → Bytes
unfolding lower
to_ascii_lowercase s = map lower s

-- `str::eq_ignore_ascii_case`
unfoldable pub eq_ignore_ascii_case : Bytes → Bytes → Bool
unfolding to_ascii_lowercase
eq_ignore_ascii_case s t = to_ascii_lowercase s == to_ascii_lowercase t

-- `u8::is_ascii_hexdigit`
unfoldable pub is_ascii_hexdigit : ℕ → Bool
is_ascii_hexdigit c =
    leb b'0' c && leb c b'9' || leb b'a' c && leb c b'f' || leb b'A' c && leb c b'F'

unfoldable pub is_hex_32_bytes : Bytes → Bool
unfolding is_ascii_hexdigit
is_hex_32_bytes value = length value == 64 && all is_ascii_hexdigit value

lower_idem : (c : ℕ) → lower (lower c) ≡ lower c
unfolding lower
lower_idem c = ground arith

pub to_ascii_lowercase_idem :
    (s : Bytes) → to_ascii_lowercase (to_ascii_lowercase s) ≡ to_ascii_lowercase s
unfolding to_ascii_lowercase
to_ascii_lowercase_idem [] = refl
to_ascii_lowercase_idem (c ∷ s) = cc (lower_idem c, to_ascii_lowercase_idem s)

hexdigit-lower : (c : ℕ) → is_ascii_hexdigit (lower c) ≡ is_ascii_hexdigit c
unfolding lower is_ascii_hexdigit
hexdigit-lower c = ground arith

all-lower : (s : Bytes) → all is_ascii_hexdigit (map lower s) ≡ all is_ascii_hexdigit s
all-lower [] = refl
all-lower (c ∷ s) = ground (arith, hexdigit-lower c, all-lower s)

length-lower : (s : Bytes) → length (map lower s) ≡ length s
length-lower [] = refl
length-lower (c ∷ s) = omega (arith, length-lower s)

-- The shape test does not depend on case.
pub is_hex_32_bytes-lower : (s : Bytes) → is_hex_32_bytes (to_ascii_lowercase s) ≡ is_hex_32_bytes s
unfolding is_hex_32_bytes to_ascii_lowercase
is_hex_32_bytes-lower s = ground (arith, all-lower s, length-lower s)
