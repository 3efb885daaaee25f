-- ===== src/Paths/Tests.antt =====
-- Paths resolved, and the theorems at concrete rules.
use sharerr_rs.Prelude.{
  List, String, [], codes, false, inl, inr, map, refl, some, true, ◌++◌, ◌∷◌, ◌≡◌,
}
use sharerr_rs.Paths.Match.{Chosen, most_specific_match-Chosen}
use sharerr_rs.Paths.Resolver.{
  FilePath, PathMapping, is_absolute, most_specific_match, named, resolve, resolve_sharerr,
  root_dir,
}
use sharerr_rs.Paths.Views.{IsAlone, qbit_of, resolve-resolve_sharerr, sharerr_of}

abbrev rooted : List String → FilePath
rooted names = root_dir ∷ map (λ name. named (codes name)) names

-- A rule for a share, and one for a share inside of it.
abbrev shows : PathMapping
shows = record {
  arr = rooted ("tv" ∷ []);
  sharerr = rooted ("media" ∷ []);
  qbit = some (rooted ("dl" ∷ []));
}

abbrev anime : PathMapping
anime = record {
  arr = rooted ("anime" ∷ []);
  sharerr = rooted ("media" ∷ "anime" ∷ []);
  qbit = some (rooted ("other" ∷ []));
}

abbrev both : List PathMapping
both = shows ∷ anime ∷ []

longest_wins :
    most_specific_match both (λ m. m.sharerr) (rooted ("media" ∷ "anime" ∷ "x" ∷ []))
    ≡ some (anime, named (codes "x") ∷ [])
unfolding most_specific_match
longest_wins = refl

-- Without `IsAlone` the two views of one file differ.
nested_rules_disagree :
    (qbit_of (resolve both (rooted ("tv" ∷ "anime" ∷ "x" ∷ [])))
      ≡ some (rooted ("dl" ∷ "anime" ∷ "x" ∷ [])))
    × (sharerr_of (resolve both (rooted ("tv" ∷ "anime" ∷ "x" ∷ [])))
        ≡ some (rooted ("media" ∷ "anime" ∷ "x" ∷ [])))
    × (qbit_of (resolve_sharerr both (rooted ("media" ∷ "anime" ∷ "x" ∷ [])))
        ≡ some (rooted ("other" ∷ "x" ∷ [])))
unfolding resolve resolve_sharerr
nested_rules_disagree = (refl, refl, refl)

most_specific_match-Chosen_example :
    Chosen
      (λ m. m.sharerr)
      (rooted ("media" ∷ "x" ∷ []))
      both
      (most_specific_match both (λ m. m.sharerr) (rooted ("media" ∷ "x" ∷ [])))
most_specific_match-Chosen_example =
    most_specific_match-Chosen (λ m. m.sharerr) (rooted ("media" ∷ "x" ∷ [])) both

shows_chosen :
    most_specific_match both (λ m. m.arr) (rooted ("tv" ∷ "x" ∷ []))
    ≡ some (shows, named (codes "x") ∷ [])
unfolding most_specific_match
shows_chosen = refl

shows_IsAlone : IsAlone both shows (named (codes "x") ∷ [])
shows_IsAlone = (inl refl, (inr (λ r h. cc h), tt))

rooted_absolute : is_absolute (rooted ("tv" ∷ "x" ∷ [])) ≡ true
unfolding is_absolute
rooted_absolute = refl

named_relative : is_absolute (named (codes "x") ∷ []) ≡ false
unfolding is_absolute
named_relative = refl

shows_absolute : is_absolute shows.sharerr ≡ true
unfolding is_absolute
shows_absolute = refl

resolve-resolve_sharerr_example :
    (sharerr_of (resolve both (rooted ("tv" ∷ "x" ∷ [])))
      ≡ some (shows.sharerr ++ named (codes "x") ∷ []))
    × (qbit_of (resolve_sharerr both (shows.sharerr ++ named (codes "x") ∷ []))
        ≡ qbit_of (resolve both (rooted ("tv" ∷ "x" ∷ []))))
resolve-resolve_sharerr_example =
    resolve-resolve_sharerr both shows (named (codes "x") ∷ []) (rooted ("tv" ∷ "x" ∷ []))
      rooted_absolute shows_chosen named_relative shows_absolute shows_IsAlone
