-- ===== src/Bencode/Value.antt =====
-- `Value`, with a dictionary as its entries in the order of a `BTreeMap`.
use sharerr_rs.Prelude.{
  Bool, Bytes, Option, [], false, if◌then◌else◌, length, list_eq, ltb, nat_eq, none, some, true, ℕ,
  ◌&&◌, ◌+◌, ◌-◌, ◌==◌, ◌^◌, ◌||◌, ◌∷◌, ◌≡◌, ◌≤◌,
}
use sharerr_rs.Paths.Resolver.{component_eq}
use sharerr_rs.Prelude.HashMap.{filter_option}
use sharerr_rs.Prelude.Int.{IsI64, ℤ}
use sharerr_rs.Prelude.Utf8.{is_utf8}

mutual
  pub data Value : Type 0 where
    int : ℤ → Value
    bytes : Bytes → Value
    list : Items → Value
    dict : Entries → Value

  pub data Items : Type 0 where
    nil : Items
    cons : Value → Items → Items

  pub data Entries : Type 0 where
    end : Entries
    entry : Bytes → Value → Entries → Entries

-- The order of raw bytes: a proper prefix comes first.
unfoldable pub lex_ltb : Bytes → Bytes → Bool
lex_ltb [] [] = false
lex_ltb [] (c ∷ t) = true
lex_ltb (b ∷ s) [] = false
lex_ltb (b ∷ s) (c ∷ t) = ltb b c || b == c && lex_ltb s t

-- `BTreeMap::insert`
unfoldable pub insert_entry : Bytes → Value → Entries → Entries
unfolding lex_ltb
insert_entry k v end = entry k v end
insert_entry k v (entry j w es) =
    let rest = insert_entry k v es in
    if k == j
    then entry k v es
    else if lex_ltb k j
    then entry k v (entry j w es)
    else entry j w rest

-- `BTreeMap::get`
unfoldable pub get_entry : Bytes → Entries → Option Value
get_entry k end = none
get_entry k (entry j w es) = if k == j then some w else get_entry k es

-- `as_int`, `as_bytes`, `as_list` and `as_dict`
unfoldable pub as_int : Value → Option ℤ
as_int (int n) = some n
as_int v = none

unfoldable pub as_bytes : Value → Option Bytes
as_bytes (bytes b) = some b
as_bytes v = none

unfoldable pub as_str : Value → Option Bytes
unfolding is_utf8 as_bytes
as_str v = filter_option is_utf8 (as_bytes v)

unfoldable pub as_list : Value → Option Items
as_list (list xs) = some xs
as_list v = none

unfoldable pub as_dict : Value → Option Entries
as_dict (dict es) = some es
as_dict v = none

-- `BTreeMap::remove`, without the value.
unfoldable pub remove_entry : Bytes → Entries → Entries
remove_entry k end = end
remove_entry k (entry j w es) =
    let rest = remove_entry k es in if k == j then es else entry j w rest

-- Every key of the entries comes after `k`.
abbrev pub Above : Bytes → Entries → Type 0
Above k end = Unit
Above k (entry j w es) = (lex_ltb k j ≡ true) × Above k es

abbrev pub max_depth : ℕ
max_depth = 32

abbrev pub usize_max : ℕ
usize_max = 2 ^ 64 - 1

-- What a value in memory fits, `depth` levels down: the depth that is parsed, integers of 64 bits,
-- lengths that a `usize` holds, and keys in ascending order.
unfoldable mutual
  pub Fits : ℕ → Value → Type 0
  Fits depth (int n) = (depth ≤ max_depth) × IsI64 n
  Fits depth (bytes b) = (depth ≤ max_depth) × (length b ≤ usize_max)
  Fits depth (list xs) = (depth ≤ max_depth) × FitItems (depth + 1) xs
  Fits depth (dict es) = (depth ≤ max_depth) × FitEntries (depth + 1) es

  pub FitItems : ℕ → Items → Type 0
  FitItems depth nil = Unit
  FitItems depth (cons v xs) = Fits depth v × FitItems depth xs

  pub FitEntries : ℕ → Entries → Type 0
  FitEntries depth end = Unit
  FitEntries depth (entry k v es) =
      (length k ≤ usize_max) × Fits depth v × Above k es × FitEntries depth es
