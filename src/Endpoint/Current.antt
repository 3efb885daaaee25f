-- ===== src/Endpoint/Current.antt =====
-- What is advertised: `current`, `recent`, and what `observe` tells of them.
use mathlib.Core.Option
use sharerr_rs.Prelude.{
  Bool-cases, List, Option, PartialEq, [], ap, arith, false, inl, inr, length, length-append,
  length-take-le, list_eq, map, nat_eq, none, refl, some, subst, sym, true, ℕ, ◌++◌, ◌+◌, ◌==◌, ◌↔◌,
  ◌∷◌, ◌≡◌, ◌≢◌, ◌≤◌, ◌⊎◌,
}
use sharerr_rs.Endpoint.History.{
  Call, Unique, Unique-take, observations, recency, recency-Unique, run, run-history,
}
use sharerr_rs.Endpoint.State.{
  Inner, ObservedBase, base_of, contains, current, first, last_observed, max_dynamic_history,
  moved_to_front, new, observe, observed, or_else, recent, with_static,
}

module _ {Url : Type 0} ⦃e : PartialEq Url⦄ where
  observed_lem :
      (base : Url) (now : ℕ) (dynamic : List (ObservedBase Url))
      → (first (observed base now dynamic).1 ≡ some (record { base = base; observed_at = now }))
        × (((observed base now dynamic).0 ≡ false)
            ↔ (Option.map base_of (first dynamic) ≡ some base))
  unfolding observed moved_to_front
  observed_lem base now [] = ground arith
  observed_lem base now (front ∷ rest) = ground (arith, e.same_iff front.base base)

  -- After an observation its base is the current one, seen now, and the reply is `false` exactly
  -- if it was the one observed last.
  pub observe_lem :
      (s : Inner Url) (base : Url) (now : ℕ)
      → (current (observe s base now).1 ≡ some base)
        × (last_observed (observe s base now).1 ≡ some (record { base = base; observed_at = now }))
        × (((observe s base now).0 ≡ false) ↔ (Option.map base_of (last_observed s) ≡ some base))
  unfolding current last_observed observe observed moved_to_front
  observe_lem s base now =
      let (seen, told) = observed_lem base now s.dynamic in
      (ap (λ o. or_else (Option.map base_of o) s.static_base) seen, seen, told)

  observed_told :
      (base : Url) (now : ℕ) (dynamic : List (ObservedBase Url)) (static_base : Option Url)
      → ((observed base now dynamic).0 ≡ true) ↔ (
          (or_else (Option.map base_of (first dynamic)) static_base ≢ some base)
          ⊎ ((dynamic ≡ []) × (static_base ≡ some base)))
  unfolding observed
  observed_told base now [] none = ground arith
  observed_told base now [] (some u) = (
    (λ _. elim (Bool-cases (u == base)) [
      | inl same ↦ inr (refl, ap some ((e.same_iff u base).0 same))
      | inr other ↦ inl (λ h. ground (arith, e.same_iff u base))
    ]),
    λ _. refl,
  )
  observed_told base now (front ∷ rest) static_base = ground (arith, e.same_iff front.base base)

  -- The reply of `observe` is `true` exactly if the current base was another, or if it was the same
  -- but static, and nothing had been observed.
  pub observe_told_iff :
      (s : Inner Url) (base : Url) (now : ℕ)
      → ((observe s base now).0 ≡ true)
        ↔ ((current s ≢ some base) ⊎ ((s.dynamic ≡ []) × (s.static_base ≡ some base)))
  unfolding current observe observed
  observe_told_iff s base now = observed_told base now s.dynamic s.static_base

  contains-append :
      (u x : Url) (xs : List Url)
      → contains u xs ≡ false
      → (u == x) ≡ false
      → contains u (xs ++ x ∷ []) ≡ false
  contains-append u x [] h other = ground arith
  contains-append u x (y ∷ xs) h other = ground (arith, contains-append u x xs)

  Unique-append :
      (x : Url) (xs : List Url) → Unique xs → contains x xs ≡ false → Unique (xs ++ x ∷ [])
  Unique-append x [] h fresh = (refl, tt)
  Unique-append x (y ∷ xs) (new_one, h) fresh = (
    contains-append y x xs new_one (ground (arith, e.same_iff x y, e.same_iff y x)),
    Unique-append x xs h (ground arith),
  )

  first-with_static :
      (static_base : Option Url) (dynamic : List (ObservedBase Url))
      → first (with_static static_base (map base_of dynamic))
        ≡ or_else (Option.map base_of (first dynamic)) static_base
  first-with_static none [] = refl
  first-with_static none (o ∷ dynamic) = refl
  first-with_static (some u) [] = refl
  first-with_static (some u) (o ∷ dynamic) = ground arith

  with_static_bounds :
      (static_base : Option Url) (bases : List Url)
      → Unique bases
      → length bases ≤ max_dynamic_history
      → Unique (with_static static_base bases)
        × (length (with_static static_base bases) ≤ max_dynamic_history + 1)
  with_static_bounds none bases h short = (h, omega (arith, short))
  with_static_bounds (some u) bases h short = elim (Bool-cases (contains u bases)) [
    | inl there ↦ rw there (h, omega (arith, short))
    | inr absent ↦
        rw absent
          (Unique-append u bases h absent, omega (arith, short, length-append bases (u ∷ [])))
  ]

  first-recent : (s : Inner Url) → first (recent s) ≡ current s
  unfolding recent current
  first-recent s = first-with_static s.static_base s.dynamic

  -- Whatever calls are made, no base is announced twice, at most one more than the history holds is
  -- announced, and the first is the current one.
  pub run-recent :
      (static_base : Option Url) (calls : List (Call Url))
      → Unique (recent (run (new static_base) calls))
        × (length (recent (run (new static_base) calls)) ≤ max_dynamic_history + 1)
        × (first (recent (run (new static_base) calls)) ≡ current (run (new static_base) calls))
  unfolding recent
  run-recent static_base calls =
      let s = run (new static_base) calls in
      let kept = run-history static_base calls in
      let seen = recency (observations [] calls) in
      let (h, short) =
        with_static_bounds s.static_base (map base_of s.dynamic)
          (subst Unique (sym kept)
            (Unique-take max_dynamic_history seen (recency-Unique (observations [] calls))))
          (subst (λ xs. length xs ≤ max_dynamic_history) (sym kept)
            (length-take-le max_dynamic_history seen)) in
      (h, short, first-recent s)
