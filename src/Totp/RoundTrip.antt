-- ===== src/Totp/RoundTrip.antt =====
-- The base32 of crates/sharerr/src/totp.rs is read back: after each byte, the reader holds what the
-- writer has written of it, and the writer has the rest.
use sharerr_rs.Prelude.{
  All, Bytes, Option, [], ap, arith, false, leb, refl, some, true, ℕ, ◌%◌, ◌*◌, ◌+◌, ◌-◌, ◌/◌, ◌<◌,
  ◌^◌, ◌∙◌, ◌∷◌, ◌≡◌,
}
use sharerr_rs.Totp.Base32.{
  base32_decode, base32_encode, decode_from, encode_from, push_byte, push_value, take_digits,
}
use sharerr_rs.Totp.Digits.{decode_from-digit, digit_of}

-- A digit that completes no byte.
keep5 :
    (b bits d b' : ℕ) (text : Bytes)
    → d < 32
    → leb 8 (bits + 5) ≡ false
    → (b * 2 ^ 5) % 2 ^ 32 + d ≡ b'
    → decode_from b bits (digit_of d ∷ text) ≡ decode_from b' (bits + 5) text
keep5 b bits d b' text h small e =
    decode_from-digit b bits d text h ∙ rw small (ap (λ b. decode_from b (bits + 5) text) e)

-- A digit that completes a byte.
give8 :
    (b bits d x b' : ℕ) (text : Bytes)
    → d < 32
    → leb 8 (bits + 5) ≡ true
    → (((b * 2 ^ 5) % 2 ^ 32 + d) / 2 ^ (bits + 5 - 8)) % 256 ≡ x
    → ((b * 2 ^ 5) % 2 ^ 32 + d) % 2 ^ (bits + 5 - 8) ≡ b'
    → decode_from b bits (digit_of d ∷ text)
      ≡ push_value (some x) (decode_from b' (bits + 5 - 8) text)
give8 b bits d x b' text h large e e' =
    decode_from-digit b bits d text h
    ∙ rw large (
        ap
          (λ x.
            push_value (some x)
              (decode_from (((b * 2 ^ 5) % 2 ^ 32 + d) % 2 ^ (bits + 5 - 8)) (bits + 5 - 8) text))
          e
        ∙ ap (λ b. push_value (some x) (decode_from b (bits + 5 - 8) text)) e')

-- `n` bits of the byte `x` are left to write, and the others are read.
abbrev pending : ℕ → ℕ → Bytes → Option Bytes
pending n x ys = decode_from (x / 2 ^ n) (8 - n) (encode_from (x % 2 ^ n) n ys)

encode_rest : (b b' m : ℕ) (ys : Bytes) → b ≡ b' → encode_from b m ys ≡ encode_from b' m ys
encode_rest b b' m ys e = ap (λ b. encode_from b m ys) e

start : (y : ℕ) (ys : Bytes) → y < 256 → decode_from 0 0 (encode_from 0 0 (y ∷ ys)) ≡ pending 3 y ys
unfolding encode_from take_digits
start y ys h =
    keep5 0 0 (push_byte 0 y / 2 ^ 3 % 32) (y / 2 ^ 3) _ (omega arith) refl (omega (arith, h))
    ∙ ap (decode_from (y / 2 ^ 3) 5)
        (encode_rest (push_byte 0 y % 2 ^ 3) (y % 2 ^ 3) 3 ys (omega (arith, h)))

after3 :
    (x y : ℕ) (ys : Bytes)
    → x < 256
    → y < 256
    → pending 3 x (y ∷ ys) ≡ push_value (some x) (pending 1 y ys)
unfolding encode_from take_digits
after3 x y ys h k =
    give8 (x / 2 ^ 3) 5 (push_byte (x % 2 ^ 3) y / 2 ^ 6 % 32) x (y / 2 ^ 6) _ (omega arith) refl
      (omega (arith, h, k)) (omega (arith, h, k))
    ∙ ap (push_value (some x)) (
        keep5 (y / 2 ^ 6) 2 (push_byte (x % 2 ^ 3) y / 2 ^ 1 % 32) (y / 2 ^ 1) _ (omega arith) refl
          (omega (arith, h, k))
        ∙ ap (decode_from (y / 2 ^ 1) 7)
            (encode_rest (push_byte (x % 2 ^ 3) y % 2 ^ 1) (y % 2 ^ 1) 1 ys (omega (arith, h, k))))

after1 :
    (x y : ℕ) (ys : Bytes)
    → x < 256
    → y < 256
    → pending 1 x (y ∷ ys) ≡ push_value (some x) (pending 4 y ys)
unfolding encode_from take_digits
after1 x y ys h k =
    give8 (x / 2 ^ 1) 7 (push_byte (x % 2 ^ 1) y / 2 ^ 4 % 32) x (y / 2 ^ 4) _ (omega arith) refl
      (omega (arith, h, k)) (omega (arith, h, k))
    ∙ ap (λ t. push_value (some x) (decode_from (y / 2 ^ 4) 4 t))
        (encode_rest (push_byte (x % 2 ^ 1) y % 2 ^ 4) (y % 2 ^ 4) 4 ys (omega (arith, h, k)))

after4 :
    (x y : ℕ) (ys : Bytes)
    → x < 256
    → y < 256
    → pending 4 x (y ∷ ys) ≡ push_value (some x) (pending 2 y ys)
unfolding encode_from take_digits
after4 x y ys h k =
    give8 (x / 2 ^ 4) 4 (push_byte (x % 2 ^ 4) y / 2 ^ 7 % 32) x (y / 2 ^ 7) _ (omega arith) refl
      (omega (arith, h, k)) (omega (arith, h, k))
    ∙ ap (push_value (some x)) (
        keep5 (y / 2 ^ 7) 1 (push_byte (x % 2 ^ 4) y / 2 ^ 2 % 32) (y / 2 ^ 2) _ (omega arith) refl
          (omega (arith, h, k))
        ∙ ap (decode_from (y / 2 ^ 2) 6)
            (encode_rest (push_byte (x % 2 ^ 4) y % 2 ^ 2) (y % 2 ^ 2) 2 ys (omega (arith, h, k))))

after2 :
    (x y : ℕ) (ys : Bytes)
    → x < 256
    → y < 256
    → pending 2 x (y ∷ ys)
      ≡ push_value (some x) (push_value (some y) (decode_from 0 0 (encode_from 0 0 ys)))
unfolding encode_from take_digits
after2 x y ys h k =
    give8 (x / 2 ^ 2) 6 (push_byte (x % 2 ^ 2) y / 2 ^ 5 % 32) x (y / 2 ^ 5) _ (omega arith) refl
      (omega (arith, h, k)) (omega (arith, h, k))
    ∙ ap (push_value (some x)) (
        give8 (y / 2 ^ 5) 3 (push_byte (x % 2 ^ 2) y / 2 ^ 0 % 32) y 0 _ (omega arith) refl
          (omega (arith, h, k)) (omega arith)
        ∙ ap (λ t. push_value (some y) (decode_from 0 0 t))
            (encode_rest (push_byte (x % 2 ^ 2) y % 2 ^ 0) 0 0 ys (omega arith)))

-- The last bits are written with zeros behind them, which the reader drops.
end1 : (x : ℕ) → x < 256 → pending 1 x [] ≡ some (x ∷ [])
unfolding encode_from decode_from
end1 x h =
    give8 (x / 2 ^ 1) 7 ((x % 2 ^ 1 * 2 ^ 4) % 2 ^ 32 % 32) x _ [] (omega arith) refl
      (omega (arith, h)) refl

end2 : (x : ℕ) → x < 256 → pending 2 x [] ≡ some (x ∷ [])
unfolding encode_from decode_from
end2 x h =
    give8 (x / 2 ^ 2) 6 ((x % 2 ^ 2 * 2 ^ 3) % 2 ^ 32 % 32) x _ [] (omega arith) refl
      (omega (arith, h)) refl

end3 : (x : ℕ) → x < 256 → pending 3 x [] ≡ some (x ∷ [])
unfolding encode_from decode_from
end3 x h =
    give8 (x / 2 ^ 3) 5 ((x % 2 ^ 3 * 2 ^ 2) % 2 ^ 32 % 32) x _ [] (omega arith) refl
      (omega (arith, h)) refl

end4 : (x : ℕ) → x < 256 → pending 4 x [] ≡ some (x ∷ [])
unfolding encode_from decode_from
end4 x h =
    give8 (x / 2 ^ 4) 4 ((x % 2 ^ 4 * 2 ^ 1) % 2 ^ 32 % 32) x _ [] (omega arith) refl
      (omega (arith, h)) refl

-- From each of the five states the reader reads all that is written.
record ReadsBack (ys : Bytes) : Type 0 where
  from0 : decode_from 0 0 (encode_from 0 0 ys) ≡ some ys
  from1 : (x : ℕ) → x < 256 → pending 1 x ys ≡ some (x ∷ ys)
  from2 : (x : ℕ) → x < 256 → pending 2 x ys ≡ some (x ∷ ys)
  from3 : (x : ℕ) → x < 256 → pending 3 x ys ≡ some (x ∷ ys)
  from4 : (x : ℕ) → x < 256 → pending 4 x ys ≡ some (x ∷ ys)

ReadsBack-All : (ys : Bytes) → All (λ y. y < 256) ys → ReadsBack ys
ReadsBack-All [] h = record {
  from0 = unfold decode_from encode_from in refl;
  from1 = end1;
  from2 = end2;
  from3 = end3;
  from4 = end4;
}
ReadsBack-All (y ∷ ys) (k, h) =
    let w = ReadsBack-All ys h in
    record {
      from0 = start y ys k ∙ w.from3 y k;
      from1 = λ x j. after1 x y ys j k ∙ ap (push_value (some x)) (w.from4 y k);
      from2 =
          λ x j. after2 x y ys j k ∙ ap (λ o. push_value (some x) (push_value (some y) o)) w.from0;
      from3 = λ x j. after3 x y ys j k ∙ ap (push_value (some x)) (w.from1 y k);
      from4 = λ x j. after4 x y ys j k ∙ ap (push_value (some x)) (w.from2 y k);
    }

-- Whatever bytes base32_encode writes, base32_decode reads them back.
pub base32_decode-base32_encode :
    (input : Bytes)
    → All (λ byte. byte < 256) input
    → base32_decode (base32_encode input) ≡ some input
unfolding base32_decode base32_encode
base32_decode-base32_encode input h = (ReadsBack-All input h).from0
