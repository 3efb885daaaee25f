-- ===== src/Endpoint/History.antt =====
-- What the history of observed bases comes to.
use sharerr_rs.Prelude.{
  Bool, Bool-cases, List, Option, PartialEq, [], ap, arith, false, filter, inl, inr, length,
  length-take-le, list_eq, map, nat_eq, not, refl, subst, suc, sym, take, zero, ℕ, ◌==◌, ◌∙◌, ◌∷◌,
  ◌≡◌, ◌≤◌,
}
use sharerr_rs.Endpoint.State.{
  Inner, ObservedBase, base_of, contains, forget_dynamic, max_dynamic_history, moved_to_front, new,
  observe, observed, set_static,
}

-- A call that changes the endpoint.
pub data Call (Url : Type 0) : Type 0 where
  observes : Url → ℕ → Call Url
  sets_static : Option Url → Call Url
  forgets : Call Url

module _ {Url : Type 0} ⦃e : PartialEq Url⦄ where
  unfoldable pub after : Inner Url → Call Url → Inner Url
  after s (observes base now) = (observe s base now).1
  after s (sets_static static_base) = set_static s static_base
  after s forgets = forget_dynamic s

  unfoldable pub run : Inner Url → List (Call Url) → Inner Url
  unfolding after
  run s [] = s
  run s (c ∷ rest) = run (after s c) rest

  abbrev pub others : Url → List Url → List Url
  others u xs = filter (λ x. not (x == u)) xs

  -- Of a list of observations, newest first, each base where it was seen last.
  unfoldable pub recency : List Url → List Url
  recency [] = []
  recency (u ∷ older) = u ∷ others u (recency older)

  -- What has been observed since the last `forgets`, newest first, in front of `seen`.
  abbrev pub observations : List Url → List (Call Url) → List Url
  observations seen [] = seen
  observations seen (observes base now ∷ rest) = observations (base ∷ seen) rest
  observations seen (sets_static static_base ∷ rest) = observations seen rest
  observations seen (forgets ∷ rest) = observations [] rest

  -- No base stands twice.
  abbrev pub Unique : List Url → Type 0
  Unique [] = Unit
  Unique (x ∷ xs) = (contains x xs ≡ false) × Unique xs

  contains-filter :
      (p : Url → Bool) (u : Url) (xs : List Url)
      → contains u xs ≡ false
      → contains u (filter p xs) ≡ false
  contains-filter p u [] h = refl
  contains-filter p u (x ∷ xs) h = ground (arith, contains-filter p u xs)

  contains-others : (u : Url) (xs : List Url) → contains u (others u xs) ≡ false
  contains-others u [] = refl
  contains-others u (x ∷ xs) = ground (arith, contains-others u xs, e.same_iff x u, e.same_iff u x)

  contains-take :
      (n : ℕ) (u : Url) (xs : List Url) → contains u xs ≡ false → contains u (take n xs) ≡ false
  contains-take zero u xs h = refl
  contains-take (suc n) u [] h = refl
  contains-take (suc n) u (x ∷ xs) h = ground (arith, contains-take n u xs)

  -- A base that is not there is not filtered out.
  others-absent : (u : Url) (xs : List Url) → contains u xs ≡ false → others u xs ≡ xs
  others-absent u [] h = refl
  others-absent u (x ∷ xs) h = ground (arith, others-absent u xs, e.same_iff x u, e.same_iff u x)

  Unique-filter : (p : Url → Bool) (xs : List Url) → Unique xs → Unique (filter p xs)
  Unique-filter p [] h = tt
  Unique-filter p (x ∷ xs) (fresh, h) = elim (Bool-cases (p x)) [
    | inl same ↦ rw same (contains-filter p x xs fresh, Unique-filter p xs h)
    | inr other ↦ rw other (Unique-filter p xs h)
  ]

  pub Unique-take : (n : ℕ) (xs : List Url) → Unique xs → Unique (take n xs)
  Unique-take zero xs h = tt
  Unique-take (suc n) [] h = tt
  Unique-take (suc n) (x ∷ xs) (fresh, h) = (contains-take n x xs fresh, Unique-take n xs h)

  pub recency-Unique : (seen : List Url) → Unique (recency seen)
  unfolding recency
  recency-Unique [] = tt
  recency-Unique (u ∷ older) =
      (contains-others u (recency older), Unique-filter _ (recency older) (recency-Unique older))

  take_idem : (n : ℕ) (xs : List Url) → take n (take n xs) ≡ take n xs
  take_idem zero xs = refl
  take_idem (suc n) [] = refl
  take_idem (suc n) (x ∷ xs) = ap (λ t. x ∷ t) (take_idem n xs)

  take-others_absent :
      (n : ℕ) (u : Url) (xs : List Url)
      → contains u xs ≡ false
      → take n (others u (take n xs)) ≡ take n (others u xs)
  take-others_absent n u xs h =
      rw (others-absent u xs h, others-absent u (take n xs) (contains-take n u xs h))
        (take_idem n xs)

  -- What a bound of the list cuts off is not missed when one base moves to the front.
  take-others :
      (n : ℕ) (u : Url) (xs : List Url)
      → Unique xs
      → take n (others u (take (suc n) xs)) ≡ take n (others u xs)
  take-others zero u xs h = refl
  take-others (suc n) u [] h = refl
  take-others (suc n) u (x ∷ xs) (fresh, h) = elim (Bool-cases (x == u)) [
    | inl same ↦ rw same (
        take-others_absent (suc n) u xs
          (subst (λ y. contains y xs ≡ false) ((e.same_iff x u).0 same) fresh))
    | inr other ↦ rw other (ap (λ t. x ∷ t) (take-others n u xs h))
  ]

  map-others :
      (u : Url) (dynamic : List (ObservedBase Url))
      → map base_of (filter (λ o. not (o.base == u)) dynamic) ≡ others u (map base_of dynamic)
  map-others u [] = refl
  map-others u (o ∷ dynamic) = ground (arith, map-others u dynamic)

  take_short : (n : ℕ) (xs : List Url) → length xs ≤ n → take n xs ≡ xs
  take_short zero [] h = refl
  take_short zero (x ∷ xs) h = absurd (omega (arith, h))
  take_short (suc n) [] h = refl
  take_short (suc n) (x ∷ xs) h = ap (λ t. x ∷ t) (take_short n xs (omega (arith, h)))

  map-take :
      (n : ℕ) (dynamic : List (ObservedBase Url))
      → map base_of (take n dynamic) ≡ take n (map base_of dynamic)
  map-take zero dynamic = refl
  map-take (suc n) [] = refl
  map-take (suc n) (o ∷ dynamic) = ap (λ t. o.base ∷ t) (map-take n dynamic)

  front_again :
      (base : Url) (rest : List Url)
      → contains base rest ≡ false
      → length rest ≤ 3
      → base ∷ rest ≡ take max_dynamic_history (base ∷ others base rest)
  front_again base rest fresh short =
      ap (λ t. base ∷ t)
        (sym (ap (take 3) (others-absent base rest fresh) ∙ take_short 3 rest short))

  -- An observation moves its base to the front, whether or not it stood there.
  map-observed :
      (base : Url) (now : ℕ) (dynamic : List (ObservedBase Url))
      → Unique (map base_of dynamic)
      → length (map base_of dynamic) ≤ max_dynamic_history
      → map base_of (observed base now dynamic).1
        ≡ take max_dynamic_history (base ∷ others base (map base_of dynamic))
  unfolding observed moved_to_front
  map-observed base now [] h short = refl
  map-observed base now (front ∷ rest) (fresh, h) short = elim (Bool-cases (front.base == base)) [
    | inl same ↦ rw same (
        ap (λ u. u ∷ map base_of rest) ((e.same_iff front.base base).0 same)
        ∙ front_again base (map base_of rest)
            (subst (λ u. contains u (map base_of rest) ≡ false)
              ((e.same_iff front.base base).0 same) fresh)
            (omega (arith, short)))
    | inr other ↦ rw other (
        ap (λ t. base ∷ front.base ∷ t)
          (map-take 2 (filter (λ o. not (o.base == base)) rest)
            ∙ ap (take 2) (map-others base rest)))
  ]

  observed-history :
      (base : Url) (now : ℕ) (dynamic : List (ObservedBase Url)) (seen : List Url)
      → map base_of dynamic ≡ take max_dynamic_history (recency seen)
      → map base_of (observed base now dynamic).1 ≡ take max_dynamic_history (recency (base ∷ seen))
  unfolding recency
  observed-history base now dynamic seen h =
      map-observed base now dynamic
        (subst Unique (sym h)
          (Unique-take max_dynamic_history (recency seen) (recency-Unique seen)))
        (subst (λ xs. length xs ≤ max_dynamic_history) (sym h)
          (length-take-le max_dynamic_history (recency seen)))
      ∙ (ap (λ xs. take max_dynamic_history (base ∷ others base xs)) h
          ∙ ap (λ t. base ∷ t) (take-others 3 base (recency seen) (recency-Unique seen)))

  run-history_from :
      (seen : List Url) (s : Inner Url) (calls : List (Call Url))
      → map base_of s.dynamic ≡ take max_dynamic_history (recency seen)
      → map base_of (run s calls).dynamic
        ≡ take max_dynamic_history (recency (observations seen calls))
  unfolding run observe set_static forget_dynamic recency
  run-history_from seen s [] h = h
  run-history_from seen s (observes base now ∷ rest) h =
      run-history_from (base ∷ seen) (after s (observes base now)) rest
        (observed-history base now s.dynamic seen h)
  run-history_from seen s (sets_static static_base ∷ rest) h =
      run-history_from seen (after s (sets_static static_base)) rest h
  run-history_from seen s (forgets ∷ rest) h = run-history_from [] (after s forgets) rest refl

  -- Whatever calls are made, the bases kept are the last four different ones observed since the
  -- last `forget_dynamic`, the latest first.
  pub run-history :
      (static_base : Option Url) (calls : List (Call Url))
      → map base_of (run (new static_base) calls).dynamic
        ≡ take max_dynamic_history (recency (observations [] calls))
  unfolding recency new
  run-history static_base calls = run-history_from [] (new static_base) calls refl
