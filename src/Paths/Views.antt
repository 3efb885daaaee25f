-- ===== src/Paths/Views.antt =====
-- The views of one file agree, by whichever way it was found.
use mathlib.Core.Option
use sharerr_rs.Prelude.{
  All, List, Option, Result, [], ap, arith, err, false, inl, inr, none, ok, refl, some, subst, sym,
  true, ◌++◌, ◌∙◌, ◌∷◌, ◌≡◌, ◌≢◌, ◌⊎◌,
}
use sharerr_rs.Paths.Match.{
  Chosen, In, most_specific_match-Chosen, strip_prefix-append, strip_prefix_hit,
}
use sharerr_rs.Paths.Resolver.{
  FilePath, PathError, PathMapping, ResolvedPaths, is_absolute, join, mapped_views,
  most_specific_match, qbit_view, resolve, resolve_sharerr, unwrap_or,
}
use sharerr_rs.Prelude.HashMap.{is_some}

abbrev pub qbit_of : Result PathError ResolvedPaths → Option FilePath
qbit_of (ok views) = some views.qbit
qbit_of (err e) = none

abbrev pub sharerr_of : Result PathError ResolvedPaths → Option FilePath
sharerr_of (ok views) = some views.sharerr
sharerr_of (err e) = none

All-In :
    (P : PathMapping → Type 0) (m : PathMapping) (maps : List PathMapping)
    → In m maps
    → All P maps
    → P m
All-In P m [] there h = absurd there
All-In P m (n ∷ maps) (inl same) (here, h) = subst P (sym same) here
All-In P m (n ∷ maps) (inr there) (here, h) = All-In P m maps there h

append_cancel : (prefix a b : FilePath) → prefix ++ a ≡ prefix ++ b → a ≡ b
append_cancel prefix a b h =
    ground (arith, strip_prefix_hit (prefix ++ b) prefix a h, strip_prefix-append prefix b)

is_absolute-append : (p q : FilePath) → is_absolute p ≡ true → is_absolute (p ++ q) ≡ true
unfolding is_absolute
is_absolute-append [] q h = ground arith
is_absolute-append (c ∷ p) q h = h

resolve_matched :
    (maps : List PathMapping) (path : FilePath) (o : Option (PathMapping × FilePath))
    → is_absolute path ≡ true
    → most_specific_match maps (λ m. m.arr) path ≡ o
    → resolve maps path ≡ ok (mapped_views path o)
unfolding resolve
resolve_matched maps path o absolute h = rw absolute (ap (λ t. ok (mapped_views path t)) h)

resolve_sharerr_matched :
    (maps : List PathMapping) (path : FilePath) (o : Option (PathMapping × FilePath))
    → is_absolute path ≡ true
    → most_specific_match maps (λ m. m.sharerr) path ≡ o
    → resolve_sharerr maps path
      ≡ ok (record {
        arr = path;
        sharerr = path;
        qbit = unwrap_or (qbit_view o) path;
        mapping_applied = is_some (qbit_view o);
      })
unfolding resolve_sharerr
resolve_sharerr_matched maps path o absolute h = rw absolute (
    ap
      (λ t. ok (record {
        arr = path;
        sharerr = path;
        qbit = unwrap_or (qbit_view t) path;
        mapping_applied = is_some (qbit_view t);
      }))
      h)

join_relative : (p q : FilePath) → is_absolute q ≡ false → join p q ≡ p ++ q
unfolding join
join_relative p q h = rw h refl

-- With a rule or with its `sharerr` prefix in place of a missing `qbit`, the path is the same.
qbit_view_lem :
    (m : PathMapping) (rest path : FilePath) (qbit : Option FilePath)
    → path ≡ join m.sharerr rest
    → unwrap_or (Option.map (λ prefix. join prefix rest) qbit) path
      ≡ join (unwrap_or qbit m.sharerr) rest
qbit_view_lem m rest path none h = h
qbit_view_lem m rest path (some prefix) h = refl

module _ (maps : List PathMapping) (m : PathMapping) (rest : FilePath) where
  -- No other rule's `sharerr` prefix begins the file's path.
  abbrev pub IsAlone : Type 0
  IsAlone = All (λ k. (k ≡ m) ⊎ ((r : FilePath) → k.sharerr ++ r ≢ m.sharerr ++ rest)) maps

  Chosen-alone :
      (o : Option (PathMapping × FilePath))
      → In m maps
      → IsAlone
      → Chosen (λ k. k.sharerr) (m.sharerr ++ rest) maps o
      → o ≡ some (m, rest)
  Chosen-alone none there alone h = absurd (All-In _ m maps there h rest refl)
  Chosen-alone (some (k, left)) there alone (here, made, longest) =
      elim (All-In _ k maps here alone) [
        | inl same ↦
            ap (λ t. some (t, left)) same
            ∙ ap (λ t. some (m, t))
                (append_cancel m.sharerr left rest
                  (subst (λ t. t.sharerr ++ left ≡ m.sharerr ++ rest) same made))
        | inr other ↦ absurd (other left made)
      ]

  sharerr_match :
      In m maps
      → IsAlone
      → most_specific_match maps (λ k. k.sharerr) (m.sharerr ++ rest) ≡ some (m, rest)
  sharerr_match there alone =
      Chosen-alone (most_specific_match maps (λ k. k.sharerr) (m.sharerr ++ rest)) there alone
        (most_specific_match-Chosen (λ k. k.sharerr) (m.sharerr ++ rest) maps)

  -- A file that a rule maps has one path for qBittorrent, whether its path was reported by an *arr
  -- app or found by scanning: if what the rule leaves is relative, its `sharerr` prefix is absolute,
  -- and no other rule's `sharerr` prefix begins the path.
  pub resolve-resolve_sharerr :
      (path : FilePath)
      → is_absolute path ≡ true
      → most_specific_match maps (λ k. k.arr) path ≡ some (m, rest)
      → is_absolute rest ≡ false
      → is_absolute m.sharerr ≡ true
      → IsAlone
      → (sharerr_of (resolve maps path) ≡ some (m.sharerr ++ rest))
        × (qbit_of (resolve_sharerr maps (m.sharerr ++ rest)) ≡ qbit_of (resolve maps path))
  unfolding mapped_views qbit_view
  resolve-resolve_sharerr path absolute chosen relative base alone =
      let joined = join_relative m.sharerr rest relative in
      let there =
        (subst (Chosen (λ k. k.arr) path maps) chosen
          (most_specific_match-Chosen (λ k. k.arr) path maps)).0 in
      let reported = resolve_matched maps path (some (m, rest)) absolute chosen in
      let scanned =
        resolve_sharerr_matched maps (m.sharerr ++ rest) (some (m, rest))
          (is_absolute-append m.sharerr rest base) (sharerr_match there alone) in
      (
        ap sharerr_of reported ∙ ap some joined,
        ap qbit_of scanned
            ∙ (ap some (qbit_view_lem m rest (m.sharerr ++ rest) m.qbit (sym joined))
                ∙ sym (ap qbit_of reported)),
      )
