-- ===== src/Totp/Base32.antt =====
-- The base32 of crates/sharerr/src/totp.rs. A text is its code points, and shifts and masks of the
-- 32-bit buffer are division and remainder.
use sharerr_rs.Prelude.{
  Bool, Bytes, Option, [], codes, false, get_or, if◌then◌else◌, leb, length, list_eq, ltb, nat_eq,
  none, some, suc, zero, ℕ, ◌%◌, ◌&&◌, ◌*◌, ◌++◌, ◌+◌, ◌-◌, ◌/◌, ◌==◌, ◌^◌, ◌||◌, ◌∷◌,
}
use sharerr_rs.Paths.Resolver.{component_eq}
use sharerr_rs.Prelude.Decimal.{digits}
use sharerr_rs.Torrent.Fields.{bind_option}

abbrev pub alphabet : Bytes
alphabet = codes "ABCDEFGHIJKLMNOPQRSTUVWXYZ234567"

-- `(buffer << 8) | byte`
abbrev pub push_byte : ℕ → ℕ → ℕ
push_byte buffer byte = (buffer * 2 ^ 8) % 2 ^ 32 + byte

-- The loop that gives digits while there are five bits: the digits, and the bits that are left. Fuel
-- for the bits is enough, since each round takes five.
unfoldable pub take_digits : ℕ → ℕ → ℕ → Bytes × ℕ
take_digits zero buffer bits = ([], bits)
take_digits (suc f) buffer bits =
    let (digits, left) = take_digits f buffer (bits - 5) in
    if leb 5 bits
    then (get_or alphabet ((buffer / 2 ^ (bits - 5)) % 32) 0 ∷ digits, left)
    else ([], bits)

-- The digit of the last bits, padded with zeros.
abbrev pub last_digit : ℕ → ℕ → Bytes
last_digit buffer bits =
    if ltb 0 bits then get_or alphabet ((buffer * 2 ^ (5 - bits)) % 2 ^ 32 % 32) 0 ∷ [] else []

unfoldable pub encode_from : ℕ → ℕ → Bytes → Bytes
unfolding take_digits
encode_from buffer bits [] = last_digit buffer bits
encode_from buffer bits (byte ∷ input) =
    let full' = push_byte buffer byte in
    let (digits, left) = take_digits (bits + 8) full' (bits + 8) in
    digits ++ encode_from (full' % 2 ^ left) left input

unfoldable pub base32_encode : Bytes → Bytes
unfolding encode_from
base32_encode input = encode_from 0 0 input

-- `char::is_whitespace`
abbrev pub is_whitespace : ℕ → Bool
is_whitespace c =
    leb 9 c && leb c 13
    || c == 32
    || c == 0x85
    || c == 0xa0
    || c == 0x1680
    || leb 0x2000 c && leb c 0x200a
    || c == 0x2028
    || c == 0x2029
    || c == 0x202f
    || c == 0x205f
    || c == 0x3000

abbrev pub to_ascii_uppercase : ℕ → ℕ
to_ascii_uppercase c = if leb b'a' c && leb c b'z' then c - 32 else c

-- `position`
unfoldable pub position : ℕ → ℕ → Bytes → Option ℕ
position n c [] = none
position n c (a ∷ rest) = if a == c then some n else position (n + 1) c rest

unfoldable pub digit_value : ℕ → Option ℕ
unfolding position
digit_value c = position 0 (to_ascii_uppercase c) alphabet

abbrev pub push_value : Option ℕ → Option Bytes → Option Bytes
push_value none rest = rest
push_value (some byte) none = none
push_value (some byte) (some rest) = some (byte ∷ rest)

-- One digit's turn: the byte it completes, if any, and the buffer and bits behind it.
abbrev pub push_digit : ℕ → ℕ → ℕ → Option ℕ × (ℕ × ℕ)
push_digit buffer bits digit =
    let more = (buffer * 2 ^ 5) % 2 ^ 32 + digit in
    if leb 8 (bits + 5)
    then (some ((more / 2 ^ (bits + 5 - 8)) % 256), (more % 2 ^ (bits + 5 - 8), bits + 5 - 8))
    else (none, (more, bits + 5))

unfoldable pub decode_from : ℕ → ℕ → Bytes → Option Bytes
unfolding digit_value
decode_from buffer bits [] = some []
decode_from buffer bits (c ∷ text) =
    let skipped = decode_from buffer bits text in
    let read = bind_option (digit_value c) λ digit.
      let (byte, (buffer', bits')) = push_digit buffer bits digit in
      push_value byte (decode_from buffer' bits' text) in
    if is_whitespace c || c == b'=' then skipped else read

unfoldable pub base32_decode : Bytes → Option Bytes
unfolding decode_from
base32_decode text = decode_from 0 0 text

unfoldable pub is_valid_secret : Bytes → Bool
unfolding base32_decode
is_valid_secret secret = elim (base32_decode secret) [ none ↦ false | some key ↦ length key == 20 ]
