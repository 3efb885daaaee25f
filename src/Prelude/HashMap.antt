-- ===== src/Prelude/HashMap.antt =====
-- The standard library's hash map as an association list with distinct keys. The order of the list
-- is one that the map's iterators may take.
use Prim.Native.Nat.{◌+◌, ◌≤◌}
use mathlib.Core.Path.{◌≡◌, refl}
use mathlib.Core.Bool.{Bool}
use mathlib.Core.List.{List, [], ◌∷◌}
use mathlib.Core.Option.{Option, none, some}
use native.Mathlib.Omega.{arith}
use sharerr_rs.Prelude.{
  ==-refl, All, All-mono, PartialEq, false, filter, if◌then◌else◌, length, list_eq, nat_eq, not,
  true, ◌==◌,
}

abbrev pub HashMap {ℓ κ} : Type ℓ → Type κ → Type (ℓ ⊔ κ)
HashMap K V = List (K × V)

abbrev pub is_some {ℓ} : {V : Type ℓ} → Option V → Bool
is_some none = false
is_some (some v) = true

-- `Option::filter`
abbrev pub filter_option {ℓ} : {V : Type ℓ} → (V → Bool) → Option V → Option V
filter_option p none = none
filter_option p (some v) = if p v then some v else none

module _ {ℓ κ} {K : Type ℓ} {V : Type κ} ⦃e : PartialEq K⦄ where
  unfoldable pub get : K → HashMap K V → Option V
  get k [] = none
  get k ((j, v) ∷ m) = if k == j then some v else get k m

  unfoldable pub insert : K → V → HashMap K V → HashMap K V
  insert k v [] = (k, v) ∷ []
  insert k v ((j, w) ∷ m) = if k == j then (k, v) ∷ m else (j, w) ∷ insert k v m

  unfoldable pub remove : K → HashMap K V → HashMap K V
  remove k [] = []
  remove k ((j, w) ∷ m) = let rest = remove k m in if k == j then rest else (j, w) ∷ rest

  unfoldable pub retain : (K → V → Bool) → HashMap K V → HashMap K V
  retain p [] = []
  retain p ((j, w) ∷ m) = let rest = retain p m in if p j w then (j, w) ∷ rest else rest

  -- No key stands twice.
  abbrev pub Distinct : HashMap K V → Type κ
  Distinct [] = Unit
  Distinct ((k, v) ∷ m) = (get k m ≡ none) × Distinct m

  pub get-insert :
      (j k : K) (v : V) (m : HashMap K V)
      → get j (insert k v m) ≡ (if j == k then some v else get j m)
  unfolding get insert
  get-insert j k v [] = refl
  get-insert j k v ((i, w) ∷ m) =
      ground (arith, e.same_iff j k, e.same_iff k i, e.same_iff j i, get-insert j k v m)

  pub get-remove :
      (j k : K) (m : HashMap K V) → get j (remove k m) ≡ (if j == k then none else get j m)
  unfolding get remove
  get-remove j k [] = ground arith
  get-remove j k ((i, w) ∷ m) =
      ground (arith, e.same_iff j k, e.same_iff k i, e.same_iff j i, get-remove j k m)

  -- A missing key stays missing.
  pub get-retain-none :
      (j : K) (p : K → V → Bool) (m : HashMap K V) → get j m ≡ none → get j (retain p m) ≡ none
  unfolding get retain
  get-retain-none j p [] h = refl
  get-retain-none j p ((i, w) ∷ m) h = ground (arith, get-retain-none j p m)

  pub get-retain :
      (j : K) (p : K → V → Bool) (m : HashMap K V)
      → Distinct m
      → get j (retain p m) ≡ filter_option (p j) (get j m)
  unfolding get retain
  get-retain j p [] d = refl
  get-retain j p ((i, w) ∷ m) (h, d) =
      ground (arith, e.same_iff j i, get-retain j p m d, get-retain-none i p m h)

  pub Distinct-insert : (k : K) (v : V) (m : HashMap K V) → Distinct m → Distinct (insert k v m)
  unfolding get insert
  Distinct-insert k v [] d = (refl, tt)
  Distinct-insert k v ((i, w) ∷ m) (h, d) =
      ground (arith, e.same_iff k i, e.same_iff i k, get-insert i k v m, Distinct-insert k v m d)

  pub Distinct-remove : (k : K) (m : HashMap K V) → Distinct m → Distinct (remove k m)
  unfolding get remove
  Distinct-remove k [] d = tt
  Distinct-remove k ((i, w) ∷ m) (h, d) = ground (arith, get-remove i k m, Distinct-remove k m d)

  pub Distinct-retain : (p : K → V → Bool) (m : HashMap K V) → Distinct m → Distinct (retain p m)
  unfolding retain
  Distinct-retain p [] d = tt
  Distinct-retain p ((i, w) ∷ m) (h, d) =
      ground (arith, get-retain-none i p m h, Distinct-retain p m d)

  pub length-retain-le : (p : K → V → Bool) (m : HashMap K V) → length (retain p m) ≤ length m
  unfolding retain
  length-retain-le p [] = omega arith
  length-retain-le p ((i, w) ∷ m) = ground (arith, length-retain-le p m)

  pub length-insert_new :
      (k : K) (v : V) (m : HashMap K V) → get k m ≡ none → length (insert k v m) ≡ length m + 1
  unfolding get insert
  length-insert_new k v [] h = omega arith
  length-insert_new k v ((i, w) ∷ m) h = ground (arith, length-insert_new k v m)

  pub length-insert_old :
      (k : K) (v w : V) (m : HashMap K V) → get k m ≡ some w → length (insert k v m) ≡ length m
  unfolding get insert
  length-insert_old k v w [] h = cc h
  length-insert_old k v w ((i, u) ∷ m) h = ground (arith, length-insert_old k v w m)

  pub length-insert-le : (k : K) (v : V) (m : HashMap K V) → length (insert k v m) ≤ length m + 1
  unfolding insert
  length-insert-le k v [] = omega arith
  length-insert-le k v ((i, w) ∷ m) = ground (arith, length-insert-le k v m)

module _ {ℓ κ} {K : Type ℓ} {V : Type κ} ⦃e : PartialEq K⦄ where
  -- Each entry is what its key finds.
  pub Distinct-All : (m : HashMap K V) → Distinct m → All (λ entry. get entry.0 m ≡ some entry.1) m
  unfolding get
  Distinct-All [] d = tt
  Distinct-All ((k, v) ∷ m) (h, d) = (
    rw ==-refl,
    All-mono m (λ entry found. ground (arith, e.same_iff entry.0 k)) (Distinct-All m d),
  )

  -- Leaving out one key leaves out one entry, if the key is there.
  pub length-filter_key :
      (k : K) (m : HashMap K V)
      → Distinct m
      → length (filter (λ entry. not (entry.0 == k)) m) + (if is_some (get k m) then 1 else 0)
        ≡ length m
  unfolding get
  length-filter_key k [] d = omega arith
  length-filter_key k ((j, v) ∷ m) (h, d) =
      ground (arith, e.same_iff j k, e.same_iff k j, length-filter_key k m d)
