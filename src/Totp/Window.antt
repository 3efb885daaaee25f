-- ===== src/Totp/Window.antt =====
-- Which codes `verify` of crates/sharerr/src/totp.rs accepts.
use sharerr_rs.Prelude.{
  All, Bool, Bool-cases, Bytes, List, Option, [], all, ap, arith, false, filter, if◌then◌else◌, inl,
  inr, leb, length, list_eq, list_eqb_iff, ltb, nat_eq, nat_eqb_iff, none, not, refl, some, subst,
  suc, sym, true, zero, ℕ, ◌%◌, ◌+◌, ◌-◌, ◌/◌, ◌==◌, ◌^◌, ◌||◌, ◌∙◌, ◌∷◌, ◌≡◌, ◌≤◌,
}
use sharerr_rs.Announce.Swarms.{step}
use sharerr_rs.Gossip.Table.{any}
use sharerr_rs.Paths.Resolver.{component_eq}
use sharerr_rs.Prelude.Int.{negsuc, pos, ℤ, ◌+ℤ◌, ◌-ℤ◌}
use sharerr_rs.Totp.Base32.{is_whitespace}
use sharerr_rs.Totp.Code.{code_for, code_matches, find, is_ascii_digit, zero_padded}

opt_or : {A : Type 0} → A → Option A → A
opt_or a none = a
opt_or a (some b) = b

some_here : {A : Type 0} (a b : A) → some a ≡ some b → a ≡ b
unfolding opt_or
some_here a b h = ap (opt_or a) h

pub find_lem :
    {A : Type 0} (p : A → Bool) (Q : A → Type 0) (xs : List A) (x : A)
    → All Q xs
    → find p xs ≡ some x
    → (p x ≡ true) × Q x
find_lem p Q [] x h e = ground arith
find_lem p Q (y ∷ ys) x (here, h) e = elim (Bool-cases (p y)) [
  | inl hit ↦
      let same : y ≡ x = some_here y x (sym (ap (λ b. if b then some y else find p ys) hit) ∙ e) in
      (subst (λ z. p z ≡ true) same hit, subst Q same here)
  | inr miss ↦ find_lem p Q ys x h (sym (ap (λ b. if b then some y else find p ys) miss) ∙ e)
]

pub find-some :
    {A : Type 0} (p : A → Bool) (xs : List A) → any p xs ≡ true → (x : A) × (find p xs ≡ some x)
find-some p [] h = cc h
find-some p (y ∷ ys) h = elim (Bool-cases (p y)) [
  | inl hit ↦ (y, rw hit refl)
  | inr miss ↦
      let (x, e) = find-some p ys (sym (ap (λ b. b || any p ys) miss) ∙ h) in (x, rw miss e)
]

or_true : (a b : Bool) → (a || (true || b)) ≡ true
or_true true b = refl
or_true false b = refl

or_true' : (a b : Bool) → (a || (b || (true || false))) ≡ true
or_true' true b = refl
or_true' false true = refl
or_true' false false = refl

pub length-zero_padded : (k n : ℕ) → length (zero_padded k n) ≡ k
unfolding zero_padded
length-zero_padded zero n = refl
length-zero_padded (suc k) n = ap suc (length-zero_padded k n)

digit_code :
    (d : ℕ) → (is_ascii_digit (b'0' + d % 10) ≡ true) × (is_whitespace (b'0' + d % 10) ≡ false)
digit_code d = (ground arith, ground arith)

pub zero_padded-digits : (k n : ℕ) → all is_ascii_digit (zero_padded k n) ≡ true
unfolding zero_padded
zero_padded-digits zero n = refl
zero_padded-digits (suc k) n = rw ((digit_code (n / 10 ^ k)).0) (zero_padded-digits k n)

-- A code has no spaces to ignore.
pub filter-zero_padded :
    (k n : ℕ) → filter (λ c. not (is_whitespace c)) (zero_padded k n) ≡ zero_padded k n
unfolding zero_padded
filter-zero_padded zero n = refl
filter-zero_padded (suc k) n =
    rw ((digit_code (n / 10 ^ k)).1)
      (ap (λ t. (b'0' + (n / 10 ^ k) % 10) ∷ t) (filter-zero_padded k n))

abbrev pub tried_steps : ℕ → List ℤ
tried_steps now = (pos (now / 30) -ℤ pos 1) ∷ pos (now / 30) ∷ (pos (now / 30) +ℤ pos 1) ∷ []

-- The steps that are tried at a time: at most one from the current one.
abbrev pub IsNear : ℕ → ℤ → Type 0
IsNear now (pos step) = (step ≤ now / 30 + 1) × (now / 30 ≤ step + 1)
IsNear now (negsuc n) = Unit

IsNear-difference :
    (now a c : ℕ) (b : Bool)
    → leb c a ≡ b
    → a ≤ now / 30 + 1 + c
    → now / 30 + c ≤ a + 1
    → IsNear now (if b then pos (a - c) else negsuc (c - a - 1))
IsNear-difference now a c true h k l = (ground arith, ground arith)
IsNear-difference now a c false h k l = tt

pub IsNear-steps : (now : ℕ) → All (IsNear now) (tried_steps now)
unfolding ◌-ℤ◌ ◌+ℤ◌
IsNear-steps now = (
  IsNear-difference now (now / 30 + 0) 1 (leb 1 (now / 30 + 0)) refl (omega arith) (omega arith),
  (
    (omega arith, omega arith),
    (
      IsNear-difference now (now / 30 + 1) 0 (leb 0 (now / 30 + 1)) refl (omega arith)
          (omega arith),
      tt,
    ),
  ),
)

module _ (sha1 : Bytes → Bytes) where
  -- A step that is near is among those tried.
  pub near_tried :
      (now step : ℕ) (key code : Bytes)
      → step ≤ now / 30 + 1
      → now / 30 ≤ step + 1
      → code_for sha1 key step ≡ code
      → any (code_matches sha1 key code) (tried_steps now) ≡ true
  unfolding ◌-ℤ◌ ◌+ℤ◌
  near_tried now step key code h k e =
      let matches : (code_for sha1 key step == code) ≡ true =
        (list_eqb_iff (code_for sha1 key step) code).1 e in
      elim (Bool-cases (step == now / 30)) [
        | inl same ↦
            let at = (nat_eqb_iff step (now / 30)).0 same in
            let here : (code_for sha1 key (now / 30) == code) ≡ true =
              subst (λ n. (code_for sha1 key n == code) ≡ true) at matches in
            rw here (or_true _ (code_matches sha1 key code (pos (now / 30) +ℤ pos 1) || false))
        | inr other ↦ elim (Bool-cases (ltb step (now / 30))) [
          | inl before' ↦
              let at : step ≡ now / 30 + 0 - 1 = ground arith in
              let later : leb 1 (now / 30 + 0) ≡ true = ground arith in
              let here : (code_for sha1 key (now / 30 + 0 - 1) == code) ≡ true =
                subst (λ n. (code_for sha1 key n == code) ≡ true) at matches in
              rw (later, here) refl
          | inr behind ↦
              let at : step ≡ now / 30 + 1 - 0 = ground arith in
              let later : leb 0 (now / 30 + 1) ≡ true = ground arith in
              let here : (code_for sha1 key (now / 30 + 1 - 0) == code) ≡ true =
                subst (λ n. (code_for sha1 key n == code) ≡ true) at matches in
              rw (later, here) (or_true' _ _)
        ]
      ]
