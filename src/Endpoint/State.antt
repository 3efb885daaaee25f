-- ===== src/Endpoint/State.antt =====
-- crates/sharerr-core/src/endpoint.rs: `AdvertisedEndpoint`. `Url` is a parameter with its equality,
-- and the clock an argument, in seconds.
use mathlib.Core.Option
use sharerr_rs.Prelude.{
  Bool, List, Option, PartialEq, [], false, filter, if◌then◌else◌, list_eq, map, nat_eq, none, not,
  some, take, true, ℕ, ◌++◌, ◌==◌, ◌||◌, ◌∷◌,
}

abbrev pub max_dynamic_history : ℕ
max_dynamic_history = 4

pub record ObservedBase (Url : Type 0) : Type 0 where
  pub base : Url
  pub observed_at : ℕ

pub record Inner (Url : Type 0) : Type 0 where
  pub static_base : Option Url
  -- most recent first
  pub dynamic : List (ObservedBase Url)

abbrev pub base_of : {Url : Type 0} → ObservedBase Url → Url
base_of o = o.base

-- `first().cloned()`
abbrev pub first {ℓ} : {A : Type ℓ} → List A → Option A
first [] = none
first (x ∷ xs) = some x

abbrev pub or_else {ℓ} : {A : Type ℓ} → Option A → Option A → Option A
or_else (some a) other = some a
or_else none other = other

module _ {Url : Type 0} ⦃e : PartialEq Url⦄ where
  unfoldable pub new : Option Url → Inner Url
  new static_base = record { static_base = static_base; dynamic = [] }

  unfoldable pub set_static : Inner Url → Option Url → Inner Url
  set_static s static_base = record s { static_base = static_base }

  unfoldable pub current : Inner Url → Option Url
  current s = or_else (Option.map base_of (first s.dynamic)) s.static_base

  unfoldable pub last_observed : Inner Url → Option (ObservedBase Url)
  last_observed s = first s.dynamic

  -- `retain`, `insert` at the front and `truncate`
  unfoldable pub moved_to_front : Url → ℕ → List (ObservedBase Url) → List (ObservedBase Url)
  moved_to_front base now dynamic =
      take max_dynamic_history
        (record { base = base; observed_at = now } ∷ filter (λ o. not (o.base == base)) dynamic)

  -- The new list, with whether the front is another than before.
  unfoldable pub observed : Url → ℕ → List (ObservedBase Url) → Bool × List (ObservedBase Url)
  unfolding moved_to_front
  observed base now [] = (true, moved_to_front base now [])
  observed base now (front ∷ rest) =
      if front.base == base
      then (false, record front { observed_at = now } ∷ rest)
      else (true, moved_to_front base now (front ∷ rest))

  unfoldable pub observe : Inner Url → Url → ℕ → Bool × Inner Url
  unfolding observed
  observe s base now =
      let (changed, dynamic) = observed base now s.dynamic in
      (changed, record s { dynamic = dynamic })

  unfoldable pub forget_dynamic : Inner Url → Inner Url
  forget_dynamic s = record s { dynamic = [] }

  abbrev pub contains : Url → List Url → Bool
  contains u [] = false
  contains u (x ∷ xs) = u == x || contains u xs

  abbrev pub with_static : Option Url → List Url → List Url
  with_static none bases = bases
  with_static (some static_base) bases =
      if not (contains static_base bases) then bases ++ static_base ∷ [] else bases

  unfoldable pub recent : Inner Url → List Url
  recent s = with_static s.static_base (map base_of s.dynamic)
