-- ===== src/Sync/Member.antt =====
-- What stands in a list, and what a map finds.
use sharerr_rs.Prelude.{
  Bool, Bool-cases, List, Member, PartialEq, [], ap, arith, filter, if◌then◌else◌, inl, inr,
  list_eq, nat_eq, some, subst, sym, true, ◌++◌, ◌==◌, ◌∙◌, ◌∷◌, ◌≡◌, ◌⊎◌,
}
use sharerr_rs.Paths.Resolver.{component_eq}
use sharerr_rs.Prelude.HashMap.{HashMap, get}
use sharerr_rs.Sync.Item.{int_eq, key_eq, source_eq}

module _ {A : Type 0} where
  pub Member-filter :
      (p : A → Bool) (x : A) (xs : List A) → Member x (filter p xs) → Member x xs × (p x ≡ true)
  Member-filter p x [] h = absurd h
  Member-filter p x (y ∷ ys) h = elim (Bool-cases (p y)) [
    | inl passes ↦
        elim (subst (λ (b : Bool). Member x (if b then y ∷ filter p ys else filter p ys)) passes
          h) [
            | inl same ↦ (inl same, ap p same ∙ passes)
            | inr later ↦ let (found, t) = Member-filter p x ys later in (inr found, t)
          ]
    | inr fails ↦
        let (found, t) =
          Member-filter p x ys
            (subst (λ (b : Bool). Member x (if b then y ∷ filter p ys else filter p ys)) fails h) in
        (inr found, t)
  ]

  pub Member-append : (x : A) (xs ys : List A) → Member x xs ⊎ Member x ys → Member x (xs ++ ys)
  Member-append x [] ys (inl h) = absurd h
  Member-append x [] ys (inr h) = h
  Member-append x (z ∷ zs) ys (inl (inl same)) = inl same
  Member-append x (z ∷ zs) ys (inl (inr h)) = inr (Member-append x zs ys (inl h))
  Member-append x (z ∷ zs) ys (inr h) = inr (Member-append x zs ys (inr h))

  pub append-Member : (x : A) (xs ys : List A) → Member x (xs ++ ys) → Member x xs ⊎ Member x ys
  append-Member x [] ys h = inr h
  append-Member x (z ∷ zs) ys (inl same) = inl (inl same)
  append-Member x (z ∷ zs) ys (inr h) = elim (append-Member x zs ys h) [
    | inl before ↦ inl (inr before)
    | inr behind ↦ inr behind
  ]

  pub filter-Member :
      (p : A → Bool) (x : A) (xs : List A) → Member x xs → p x ≡ true → Member x (filter p xs)
  filter-Member p x [] h passes = absurd h
  filter-Member p x (y ∷ ys) (inl same) passes = rw (ap p (sym same) ∙ passes) (inl same)
  filter-Member p x (y ∷ ys) (inr later) passes = elim (Bool-cases (p y)) [
    | inl stays ↦ rw stays (inr (filter-Member p x ys later passes))
    | inr goes ↦ rw goes (filter-Member p x ys later passes)
  ]

module _ {K V : Type 0} ⦃e : PartialEq K⦄ where
  pub get-Member : (k : K) (v : V) (m : HashMap K V) → get k m ≡ some v → Member (k, v) m
  unfolding get
  get-Member k v [] h = ground arith
  get-Member k v ((j, w) ∷ m) h = elim (Bool-cases (k == j)) [
    | inl same ↦ inl (
        cc (
          (e.same_iff k j).0 same,
          subst (λ (b : Bool). (if b then some w else get k m) ≡ some v) same h,
        ))
    | inr other ↦
        inr (
          get-Member k v m (subst (λ (b : Bool). (if b then some w else get k m) ≡ some v) other h))
  ]
