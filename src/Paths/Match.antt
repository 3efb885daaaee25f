-- ===== src/Paths/Match.antt =====
-- Which rule is chosen.
use mathlib.Core.Option
use sharerr_rs.Prelude.{
  ==-refl, All, All-mono, Bool, Bool-cases, List, Option, Option-cases, [], ap, arith, false,
  if◌then◌else◌, inl, inr, length, list_eq, ltb, nat_eq, none, refl, some, subst, sym, true, ◌++◌,
  ◌∷◌, ◌≡◌, ◌≢◌, ◌≤◌, ◌⊎◌,
}
use sharerr_rs.Paths.Resolver.{
  Candidate, FilePath, PathMapping, candidates, component_eq, component_eqb_iff, later_max,
  max_by_specificity, most_specific_match, strip_prefix, without_key,
}

abbrev pub In : PathMapping → List PathMapping → Type 0
In m [] = ⊥
In m (n ∷ maps) = (m ≡ n) ⊎ In m maps

pub strip_prefix-append :
    (prefix rest : FilePath) → strip_prefix (prefix ++ rest) prefix ≡ some rest
unfolding strip_prefix
strip_prefix-append [] [] = refl
strip_prefix-append [] (c ∷ rest) = refl
strip_prefix-append (c ∷ prefix) rest = rw (==-refl c) (strip_prefix-append prefix rest)

pub append-strip_prefix :
    (path prefix rest : FilePath) → strip_prefix path prefix ≡ some rest → prefix ++ rest ≡ path
unfolding strip_prefix
append-strip_prefix path [] rest h = ground arith
append-strip_prefix [] (c ∷ prefix) rest h = ground arith
append-strip_prefix (p ∷ path) (c ∷ prefix) rest h =
    ground (arith, component_eqb_iff p c, append-strip_prefix path prefix rest)

pub strip_prefix_hit :
    (path prefix rest : FilePath) → prefix ++ rest ≡ path → strip_prefix path prefix ≡ some rest
strip_prefix_hit path prefix rest h =
    subst (λ t. strip_prefix t prefix ≡ some rest) h (strip_prefix-append prefix rest)

later_max_lem :
    (c best : Candidate) (b : Bool)
    → ltb best.0 c.0 ≡ b
    → later_max c (some best) ≡ (if b then c else best)
later_max_lem c best b h = ap (λ t. if t then c else best) h

module _ (f : PathMapping → FilePath) (path : FilePath) where
  -- What the fold over the rules has found.
  abbrev Found : List PathMapping → Option Candidate → Type 0
  Found maps none = All (λ m. strip_prefix path (f m) ≡ none) maps
  Found maps (some (n, m, rest)) =
      In m maps
      × (n ≡ length (f m))
      × (strip_prefix path (f m) ≡ some rest)
      × All (λ m'. (strip_prefix path (f m') ≡ none) ⊎ (length (f m') ≤ n)) maps

  Found-skip :
      (m : PathMapping) (maps : List PathMapping) (best : Option Candidate)
      → strip_prefix path (f m) ≡ none
      → Found maps best
      → Found (m ∷ maps) best
  Found-skip m maps none miss h = (miss, h)
  Found-skip m maps (some (n, k, rest)) miss (there, size, hit, bound) =
      (inr there, size, hit, (inl miss, bound))

  Found-later_max :
      (m : PathMapping) (maps : List PathMapping) (left : FilePath) (best : Option Candidate)
      → strip_prefix path (f m) ≡ some left
      → Found maps best
      → Found (m ∷ maps) (some (later_max (length (f m), m, left) best))
  Found-later_max m maps left none hit h =
      (inl refl, refl, hit, (inr (omega arith), All-mono maps (λ k miss. inl miss) h))
  Found-later_max m maps left (some (n, k, rest)) hit (there, size, found, bound) =
      elim (Bool-cases (ltb n (length (f m)))) [
        | inl more ↦
            subst (λ c. Found (m ∷ maps) (some c))
              (sym (later_max_lem (length (f m), m, left) (n, k, rest) true more))
              (
                inl refl,
                refl,
                hit,
                (inr (omega arith), All-mono maps (λ j fits. ground arith) bound),
              )
        | inr less ↦
            subst (λ c. Found (m ∷ maps) (some c))
              (sym (later_max_lem (length (f m), m, left) (n, k, rest) false less))
              (inr there, size, found, (inr (ground arith), bound))
      ]

  candidates-Found :
      (maps : List PathMapping) → Found maps (max_by_specificity (candidates maps f path))
  unfolding candidates max_by_specificity
  candidates-Found [] = tt
  candidates-Found (m ∷ maps) = elim (Option-cases (strip_prefix path (f m))) [
    | inl miss ↦ rw miss (Found-skip m maps _ miss (candidates-Found maps))
    | inr (left, hit) ↦ rw hit (Found-later_max m maps left _ hit (candidates-Found maps))
  ]

  -- A rule that the path begins with, the longest such, with the rest of the path; or no rule has a
  -- prefix that the path begins with.
  abbrev pub Chosen : List PathMapping → Option (PathMapping × FilePath) → Type 0
  Chosen maps none = All (λ m. (r : FilePath) → f m ++ r ≢ path) maps
  Chosen maps (some (m, rest)) =
      In m maps
      × (f m ++ rest ≡ path)
      × All (λ m'. (r : FilePath) → f m' ++ r ≡ path → length (f m') ≤ length (f m)) maps

  Chosen-Found :
      (maps : List PathMapping) (best : Option Candidate)
      → Found maps best
      → Chosen maps (Option.map without_key best)
  Chosen-Found maps none h =
      All-mono maps (λ m miss r same. ground (arith, strip_prefix_hit path (f m) r same)) h
  Chosen-Found maps (some (n, m, rest)) (there, size, hit, bound) = (
    there,
    append-strip_prefix path (f m) rest hit,
    All-mono maps (λ k fits r same. ground (arith, strip_prefix_hit path (f k) r same)) bound,
  )

  -- The rule chosen is one of the rules whose prefix the path begins with, and none of those has a
  -- longer prefix; the prefix and what is left make up the path. No rule is chosen exactly if the
  -- path begins with no rule's prefix.
  pub most_specific_match-Chosen :
      (maps : List PathMapping) → Chosen maps (most_specific_match maps f path)
  unfolding most_specific_match
  most_specific_match-Chosen maps =
      Chosen-Found maps (max_by_specificity (candidates maps f path)) (candidates-Found maps)
