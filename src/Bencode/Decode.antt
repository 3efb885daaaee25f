-- ===== src/Bencode/Decode.antt =====
-- `decode` and `Parser`. The parser's state is the unread input with its offset.
use mathlib.Core.Option
use sharerr_rs.Prelude.{
  Bytes, Option, Result, [], drop, err, if◌then◌else◌, length, list_eq, ltb, nat_eq, none, ok, some,
  suc, take, zero, ℕ, ◌*◌, ◌+◌, ◌==◌, ◌||◌, ◌∷◌,
}
use sharerr_rs.Bencode.Value.{
  Entries, Items, Value, bytes, cons, dict, end, insert_entry, int, list, max_depth, nil, usize_max,
}
use sharerr_rs.Prelude.Decimal.{decimal_ℤ, is_digit, parse_i64, parse_unsigned}
use sharerr_rs.Prelude.HashMap.{filter_option}
use sharerr_rs.Prelude.Int.{ℤ}

pub data BencodeError : Type 0 where
  truncated : BencodeError
  unexpected : ℕ → ℕ → BencodeError
  malformed_integer malformed_length key_not_a_string : ℕ → BencodeError
  too_deep trailing_bytes : ℕ → BencodeError
  -- not of the source: the fuel ran out
  out_of_fuel : BencodeError

pub record Parser : Type 0 where
  pub rest : Bytes
  pub pos : ℕ

abbrev pub Parsed : Type 0 → Type 0
Parsed A = Result BencodeError (A × Parser)

infixl 5 ◌>>=◌
abbrev pub ◌>>=◌ :
    {A B : Type 0} → Parsed A → (A × Parser → Result BencodeError B) → Result BencodeError B
ok a >>= f = f a
err e >>= f = err e

-- `iter().position` of a byte, with the slices on both sides of it.
unfoldable pub split_at : ℕ → Bytes → Option (Bytes × Bytes)
split_at b [] = none
split_at b (c ∷ s) =
    let found = split_at b s in
    if c == b then some ([], s) else Option.map (λ parts. (c ∷ parts.0, parts.1)) found

-- `parse::<i64>().ok().filter(|n| n.to_string() == text)`; a text that is no UTF-8 does not parse.
unfoldable pub canonical_i64 : Bytes → Option ℤ
unfolding parse_i64 decimal_ℤ
canonical_i64 text = filter_option (λ n. decimal_ℤ n == text) (parse_i64 text)

abbrev pub or_fail {ℓ κ} :
    {A : Type ℓ} {B : Type κ}
    → Option A
    → BencodeError
    → (A → Result BencodeError B)
    → Result BencodeError B
or_fail none e f = err e
or_fail (some a) e f = f a

-- Behind the `i`.
unfoldable pub integer : Bytes → ℕ → Parsed Value
unfolding split_at canonical_i64
integer rest offset = or_fail (split_at b'e' rest) truncated λ parts.
    or_fail (canonical_i64 parts.0) (malformed_integer offset)
      λ n. ok (int n, record { rest = parts.1; pos = offset + 1 + length parts.0 + 1 })

unfoldable pub byte_string : Parser → Parsed Bytes
unfolding split_at parse_unsigned
byte_string p = or_fail (split_at b':' p.rest) truncated λ parts.
    or_fail (parse_unsigned usize_max parts.0) (malformed_length p.pos) λ len.
      let start = p.pos + length parts.0 + 1 in
      if ltb usize_max (start + len) || ltb (length parts.1) len
      then err truncated
      else ok (take len parts.1, record { rest = drop len parts.1; pos = start + len })

-- One byte read past.
abbrev pub skip : Bytes → ℕ → Parser
skip rest pos = record { rest = rest; pos = pos + 1 }

unfoldable mutual
  unfolding integer byte_string insert_entry

  pub value : ℕ → ℕ → Parser → Parsed Value
  value zero depth p = err out_of_fuel
  value (suc f) depth p = if ltb max_depth depth then err (too_deep max_depth) else elim p.rest [
    | [] ↦ err truncated
    | c ∷ rest ↦
        if c == b'i'
        then integer rest p.pos
        else if is_digit c
        then (byte_string p >>= λ (b, q). ok (bytes b, q))
        else if c == b'l'
        then items f (depth + 1) (skip rest p.pos) >>= (λ (xs, q). ok (list xs, q))
        else if c == b'd'
        then entries f (depth + 1) end (skip rest p.pos) >>= (λ (es, q). ok (dict es, q))
        else err (unexpected c p.pos)
  ]

  -- The items up to the `e`.
  pub items : ℕ → ℕ → Parser → Parsed Items
  items zero depth p = err out_of_fuel
  items (suc f) depth p = elim p.rest [
    | [] ↦ err truncated
    | c ∷ rest ↦
        if c == b'e'
        then ok (nil, skip rest p.pos)
        else (value f depth p >>= λ (v, q). items f depth q >>= λ (xs, q'). ok (cons v xs, q'))
  ]

  -- The entries up to the `e`, each inserted into those before it.
  pub entries : ℕ → ℕ → Entries → Parser → Parsed Entries
  entries zero depth done p = err out_of_fuel
  entries (suc f) depth done p = elim p.rest [
    | [] ↦ err truncated
    | c ∷ rest ↦
        if c == b'e'
        then ok (done, skip rest p.pos)
        else if is_digit c
        then (byte_string p >>= λ (k, q).
            value f depth q >>= λ (v, q'). entries f depth (insert_entry k v done) q')
        else err (key_not_a_string p.pos)
  ]

-- Anything after the value is an error.
unfoldable pub finish : Value → Bytes → Result BencodeError Value
finish v [] = ok v
finish v (c ∷ rest) = err (trailing_bytes (length (c ∷ rest)))

unfoldable pub decode : Bytes → Result BencodeError Value
unfolding value finish
decode input =
    value (2 * length input + 1) 0 (record { rest = input; pos = 0 }) >>= λ (v, p). finish v p.rest
