-- ===== src/Torrent/Pieces.antt =====
-- How a content is cut into pieces, and what is made of their hashes.
use native.Mathlib.Nat.{div-eq_of_lt, div-eq-sub-div, zero-lt-suc, suc-mul, zero-mul}
use sharerr_rs.Prelude.{
  All, Bool-cases, Bytes, List, [], ap, arith, drop, drop-append, inl, inr, length, length-append,
  length-drop-le, ltb, refl, suc, sym, take, take-append, zero, ℕ, ◌*◌, ◌++◌, ◌+◌, ◌-◌, ◌/◌, ◌∙◌,
  ◌∷◌, ◌≡◌, ◌≤◌,
}
use sharerr_rs.Torrent.Chunks.{take_and_drop}
use sharerr_rs.Torrent.Hashing.{div_ceil}
use sharerr_rs.Torrent.Hybrid.{concat}
use sharerr_rs.Torrent.Stream.{chunks, chunks_of}
use sharerr_rs.Torrent.Visit.{chunks-cons}

length-drop : (n : ℕ) (xs : Bytes) → length (drop n xs) ≡ length xs - n
length-drop zero xs = omega arith
length-drop (suc n) [] = omega arith
length-drop (suc n) (x ∷ xs) = length-drop n xs ∙ omega arith

-- The rest behind one piece counts one less.
div_ceil-drop :
    (n : ℕ) (xs : Bytes) → (length (drop n xs) + n) / suc n + 1 ≡ (suc (length xs) + n) / suc n
div_ceil-drop n xs =
    let behind = div-eq-sub-div {n = suc (length xs) + n} (zero-lt-suc n) (omega arith) in
    elim (Bool-cases (ltb (length xs) n)) [
      | inl short ↦
          let nothing : length xs - n + n ≡ n = ground arith in
          let all_of : length xs ≡ suc (length xs) + n - suc n = omega arith in
          ap (λ l. (l + n) / suc n + 1) (length-drop n xs)
          ∙ (ap (λ l. l / suc n + 1) nothing
              ∙ (ap (λ q. q + 1) (div-eq_of_lt (omega arith) ∙ sym (div-eq_of_lt (ground arith)))
                  ∙ (ap (λ l. l / suc n + 1) all_of ∙ sym behind)))
      | inr long ↦
          let all_of : length xs - n + n ≡ suc (length xs) + n - suc n = ground arith in
          ap (λ l. (l + n) / suc n + 1) (length-drop n xs)
          ∙ (ap (λ l. l / suc n + 1) all_of ∙ sym behind)
    ]

length-chunks_of :
    (f n : ℕ) (xs : Bytes)
    → length xs ≤ f
    → length (chunks_of f (suc n) xs) ≡ (length xs + n) / suc n
unfolding chunks_of
length-chunks_of zero n [] h = sym (div-eq_of_lt (omega arith))
length-chunks_of zero n (x ∷ xs) h = absurd (omega (arith, h))
length-chunks_of (suc f) n [] h = sym (div-eq_of_lt (omega arith))
length-chunks_of (suc f) n (x ∷ xs) h =
    ap suc (length-chunks_of f n (drop n xs) (omega (arith, h, length-drop-le n xs)))
    ∙ (omega arith ∙ div_ceil-drop n xs)

-- A content has as many pieces as `div_ceil` of the two lengths.
pub length-chunks : (n : ℕ) (xs : Bytes) → 1 ≤ n → length (chunks n xs) ≡ div_ceil (length xs) n
unfolding chunks
length-chunks zero xs h = absurd (omega (arith, h))
length-chunks (suc n) xs h =
    length-chunks_of (length xs) n xs (omega arith)
    ∙ ap (λ l. (length xs + l) / suc n) (omega arith)

concat-chunks_of : (f n : ℕ) (xs : Bytes) → length xs ≤ f → concat (chunks_of f (suc n) xs) ≡ xs
unfolding chunks_of
concat-chunks_of zero n [] h = refl
concat-chunks_of zero n (x ∷ xs) h = absurd (omega (arith, h))
concat-chunks_of (suc f) n [] h = refl
concat-chunks_of (suc f) n (x ∷ xs) h =
    ap (λ rest. x ∷ take n xs ++ rest)
      (concat-chunks_of f n (drop n xs) (omega (arith, h, length-drop-le n xs)))
    ∙ ap (λ t. x ∷ t) (take_and_drop n xs)

pub concat-chunks : (n : ℕ) (xs : Bytes) → 1 ≤ n → concat (chunks n xs) ≡ xs
unfolding chunks
concat-chunks zero xs h = absurd (omega (arith, h))
concat-chunks (suc n) xs h = concat-chunks_of (length xs) n xs (omega arith)

-- Strings of one length are found again in their concatenation.
pub chunks-concat :
    (n : ℕ) (hs : List Bytes) → 1 ≤ n → All (λ h. length h ≡ n) hs → chunks n (concat hs) ≡ hs
chunks-concat zero hs h same = absurd (omega (arith, h))
chunks-concat (suc n) [] h same = unfold chunks chunks_of in refl
chunks-concat (suc n) ([] ∷ hs) h (same, rest) = absurd (omega (arith, same))
chunks-concat (suc n) ((x ∷ b) ∷ hs) h (same, rest) =
    let size : length b ≡ n = omega (arith, same) in
    chunks-cons n x (b ++ concat hs)
    ∙ (ap (λ t. (x ∷ t) ∷ chunks (suc n) (drop n (b ++ concat hs)))
          (ap (λ m. take m (b ++ concat hs)) (sym size) ∙ take-append b (concat hs))
        ∙ ap (λ t. (x ∷ b) ∷ t)
            (ap (chunks (suc n))
                (ap (λ m. drop m (b ++ concat hs)) (sym size) ∙ drop-append b (concat hs))
              ∙ chunks-concat (suc n) hs h rest))

pub length-concat :
    (n : ℕ) (hs : List Bytes) → All (λ h. length h ≡ n) hs → length (concat hs) ≡ length hs * n
length-concat n [] same = sym (zero-mul n)
length-concat n (h ∷ hs) (same, rest) =
    length-append h (concat hs)
    ∙ (ap (λ l. l + length (concat hs)) same
        ∙ (ap (λ l. n + l) (length-concat n hs rest) ∙ sym (suc-mul (length hs) n ∙ omega arith)))
