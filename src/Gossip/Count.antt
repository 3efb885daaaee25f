-- ===== src/Gossip/Count.antt =====
-- How many elements of a list pass a test.
use sharerr_rs.Prelude.{
  Bool, Bool-cases, List, [], ap, arith, false, filter, if◌then◌else◌, inl, inr, length, map, refl,
  sym, true, ℕ, ◌++◌, ◌+◌, ◌||◌, ◌∙◌, ◌∷◌, ◌≡◌, ◌≤◌,
}
use sharerr_rs.Gossip.Table.{any}

abbrev pub one_if : Bool → ℕ
one_if b = if b then 1 else 0

one_if-le : (b c : Bool) → (b ≡ true → c ≡ true) → one_if b ≤ one_if c
one_if-le true true h = omega arith
one_if-le true false h = cc (h refl)
one_if-le false c h = ground arith

module _ {A : Type 0} where
  abbrev pub count : (A → Bool) → List A → ℕ
  count q xs = length (filter q xs)

  pub count-cons :
      (q : A → Bool) (x : A) (xs : List A) → count q (x ∷ xs) ≡ one_if (q x) + count q xs
  count-cons q x xs = elim (Bool-cases (q x)) [
    | inl yes' ↦ rw yes' (omega arith)
    | inr no' ↦ rw no' (omega arith)
  ]

  pub count-append : (q : A → Bool) (xs ys : List A) → count q (xs ++ ys) ≡ count q xs + count q ys
  count-append q [] ys = omega arith
  count-append q (x ∷ xs) ys =
      count-cons q x (xs ++ ys) ∙ (omega (arith, count-append q xs ys, count-cons q x xs))

  -- A change that the test does not see does not count.
  pub count-map :
      (q : A → Bool) (f : A → A) (xs : List A)
      → ((x : A) → q (f x) ≡ q x)
      → count q (map f xs) ≡ count q xs
  count-map q f [] h = refl
  count-map q f (x ∷ xs) h =
      count-cons q (f x) (map f xs)
      ∙ (ap (λ b. one_if b + count q (map f xs)) (h x)
          ∙ (ap (λ n. one_if (q x) + n) (count-map q f xs h) ∙ sym (count-cons q x xs)))

  -- A test behind another passes no more than one that the two imply.
  pub count-filter-le :
      (p q s : A → Bool) (xs : List A)
      → ((x : A) → p x ≡ true → q x ≡ true → s x ≡ true)
      → count p (filter q xs) ≤ count s xs
  count-filter-le p q s [] h = omega arith
  count-filter-le p q s (x ∷ xs) h =
      let rest = count-filter-le p q s xs h in
      elim (Bool-cases (q x)) [
        | inl kept ↦ rw kept (
            omega (
              arith,
              rest,
              count-cons p x (filter q xs),
              count-cons s x xs,
              one_if-le (p x) (s x) (λ here. h x here kept),
            ))
        | inr gone ↦ rw gone (omega (arith, rest, count-cons s x xs))
      ]

  pub count-none : (q : A → Bool) (xs : List A) → any q xs ≡ false → count q xs ≡ 0
  count-none q [] h = refl
  count-none q (x ∷ xs) h = elim (Bool-cases (q x)) [
    | inl hit ↦ cc (h, hit)
    | inr miss ↦ rw miss (count-none q xs (sym (ap (λ b. b || any q xs) miss) ∙ h))
  ]

  pub count-or :
      (p q : A → Bool) (xs : List A) → count (λ x. p x || q x) xs ≤ count p xs + count q xs
  count-or p q [] = omega arith
  count-or p q (x ∷ xs) =
      let rest = count-or p q xs in
      let left = count-cons p x xs in
      let right = count-cons q x xs in
      elim (Bool-cases (p x)) [
        | inl a ↦ rw a (omega (arith, rest, right))
        | inr a ↦ elim (Bool-cases (q x)) [
          | inl b ↦ rw (a, b) (omega (arith, rest))
          | inr b ↦ rw (a, b) rest
        ]
      ]

  pub count-never : (xs : List A) → count (λ x. false) xs ≡ 0
  count-never [] = refl
  count-never (x ∷ xs) = count-never xs
