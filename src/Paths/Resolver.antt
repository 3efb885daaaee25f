-- ===== src/Paths/Resolver.antt =====
-- `PathResolver`. A path is the list of its components, which is what the standard library compares
-- paths by; `PathMapping` is of config.rs and `MediaSource` of model.rs.
use mathlib.Core.Option
use sharerr_rs.Prelude.{
  Bool, Bytes, List, Option, PartialEq, Result, [], arith, err, false, if◌then◌else◌, length,
  list_eq, list_eqb_iff, ltb, nat_eq, none, not, ok, some, true, ℕ, ◌++◌, ◌==◌, ◌↔◌, ◌∷◌, ◌≡◌,
}
use sharerr_rs.Prelude.HashMap.{is_some}

-- The root, or a name; `.` and `..` are names.
pub data Component : Type 0 where
  root_dir : Component
  named : Bytes → Component

abbrev pub FilePath : Type 0
FilePath = List Component

abbrev pub component_eqb : Component → Component → Bool
component_eqb root_dir root_dir = true
component_eqb root_dir (named b) = false
component_eqb (named a) root_dir = false
component_eqb (named a) (named b) = a == b

pub component_eqb_iff : (a b : Component) → (component_eqb a b ≡ true) ↔ (a ≡ b)
component_eqb_iff root_dir root_dir = ground arith
component_eqb_iff root_dir (named b) = ground arith
component_eqb_iff (named a) root_dir = ground arith
component_eqb_iff (named a) (named b) = ground (arith, list_eqb_iff a b)

instance abbrev pub component_eq : PartialEq Component
component_eq = record { same_iff = component_eqb_iff; same = component_eqb }

unfoldable pub is_absolute : FilePath → Bool
is_absolute [] = false
is_absolute (c ∷ p) = c == root_dir

-- `Path::join`: an absolute second path replaces the first.
unfoldable pub join : FilePath → FilePath → FilePath
unfolding is_absolute
join p q = if is_absolute q then q else p ++ q

unfoldable pub strip_prefix : FilePath → FilePath → Option FilePath
strip_prefix path [] = some path
strip_prefix [] (c ∷ prefix) = none
strip_prefix (p ∷ path) (c ∷ prefix) =
    let rest = strip_prefix path prefix in if p == c then rest else none

pub data MediaSource : Type 0 where
  sonarr radarr lidarr readarr whisparr directory : MediaSource

pub record PathMapping : Type 0 where
  pub arr : FilePath
  pub sharerr : FilePath
  pub qbit : Option FilePath

pub data PathError : Type 0 where
  not_absolute : FilePath → PathError

pub record ResolvedPaths : Type 0 where
  pub arr : FilePath
  pub sharerr : FilePath
  pub qbit : FilePath
  pub mapping_applied : Bool

abbrev pub Candidate : Type 0
Candidate = ℕ × PathMapping × FilePath

abbrev pub with_candidate : PathMapping → ℕ → Option FilePath → List Candidate → List Candidate
with_candidate m specificity none rest = rest
with_candidate m specificity (some left) rest = (specificity, m, left) ∷ rest

-- The `filter_map`.
unfoldable pub candidates : List PathMapping → (PathMapping → FilePath) → FilePath → List Candidate
unfolding strip_prefix
candidates [] prefix_of path = []
candidates (m ∷ maps) prefix_of path =
    with_candidate m (length (prefix_of m)) (strip_prefix path (prefix_of m))
      (candidates maps prefix_of path)

abbrev pub later_max : Candidate → Option Candidate → Candidate
later_max c none = c
later_max c (some best) = if ltb best.0 c.0 then c else best

-- `max_by_key`, which of several maxima returns the last.
unfoldable pub max_by_specificity : List Candidate → Option Candidate
max_by_specificity [] = none
max_by_specificity (c ∷ rest) = some (later_max c (max_by_specificity rest))

abbrev pub without_key : Candidate → PathMapping × FilePath
without_key (specificity, m, rest) = (m, rest)

unfoldable pub most_specific_match :
    List PathMapping → (PathMapping → FilePath) → FilePath → Option (PathMapping × FilePath)
unfolding candidates max_by_specificity
most_specific_match maps prefix_of path =
    Option.map without_key (max_by_specificity (candidates maps prefix_of path))

abbrev pub unwrap_or {ℓ} : {A : Type ℓ} → Option A → A → A
unwrap_or none d = d
unwrap_or (some a) d = a

-- The match of `resolve`.
unfoldable pub mapped_views : FilePath → Option (PathMapping × FilePath) → ResolvedPaths
unfolding join
mapped_views arr_path none = record {
  arr = arr_path;
  sharerr = arr_path;
  qbit = arr_path;
  mapping_applied = false;
}
mapped_views arr_path (some (m, rest)) = record {
  arr = arr_path;
  sharerr = join m.sharerr rest;
  qbit = join (unwrap_or m.qbit m.sharerr) rest;
  mapping_applied = true;
}

unfoldable pub resolve : List PathMapping → FilePath → Result PathError ResolvedPaths
unfolding is_absolute most_specific_match mapped_views
resolve maps arr_path =
    if not (is_absolute arr_path)
    then err (not_absolute arr_path)
    else ok (mapped_views arr_path (most_specific_match maps (λ m. m.arr) arr_path))

-- `and_then(|(map, rest)| map.qbit.as_ref().map(|prefix| prefix.join(&rest)))`
unfoldable pub qbit_view : Option (PathMapping × FilePath) → Option FilePath
unfolding join
qbit_view none = none
qbit_view (some (m, rest)) = Option.map (λ prefix. join prefix rest) m.qbit

unfoldable pub resolve_sharerr : List PathMapping → FilePath → Result PathError ResolvedPaths
unfolding is_absolute most_specific_match qbit_view
resolve_sharerr maps path =
    if not (is_absolute path)
    then err (not_absolute path)
    else (let mapped = qbit_view (most_specific_match maps (λ m. m.sharerr) path) in
        ok (record {
          arr = path;
          sharerr = path;
          qbit = unwrap_or mapped path;
          mapping_applied = is_some mapped;
        }))

unfoldable pub resolve_for :
    List PathMapping → MediaSource → FilePath → Result PathError ResolvedPaths
unfolding resolve resolve_sharerr
resolve_for maps directory path = resolve_sharerr maps path
resolve_for maps _ path = resolve maps path
