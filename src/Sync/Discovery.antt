-- ===== src/Sync/Discovery.antt =====
-- crates/sharerr/src/sync/mod.rs: what the sources answer, and the tables that a pass makes of what
-- it reads.
use mathlib.Core.Option
use sharerr_rs.Prelude.{
  Bool, Bytes, List, Option, [], false, if◌then◌else◌, list_eq, map, nat_eq, none, not, some, true,
  ℕ, ◌&&◌, ◌++◌, ◌+◌, ◌==◌, ◌||◌, ◌∷◌,
}
use sharerr_rs.Announce.Swarms.{live}
use sharerr_rs.Lighthouse.Hex.{to_ascii_lowercase}
use sharerr_rs.Paths.Resolver.{MediaSource, component_eq, directory}
use sharerr_rs.Prelude.HashMap.{HashMap, insert}
use sharerr_rs.Prelude.Int.{ℤ}
use sharerr_rs.Sync.Item.{
  Discovered, Key, ShareState, SharedItem, Types, failed, int_eq, item_key, key_eq, pending,
  seeding, source_eq, unshared,
}
use sharerr_rs.Sync.World.{Row, TorrentSummary}

pub record SourceScan (T : Types) : Type 0 where
  pub items : List (Discovered T)
  pub complete : Bool
  pub audience : List (ℤ × List Bytes)

pub record Discovery (T : Types) : Type 0 where
  pub items : List (Discovered T)
  pub scanned : List MediaSource
  pub withdrawable : List MediaSource
  pub audiences : List (MediaSource × List (ℤ × List Bytes))
  pub failures : ℕ
  pub library_unreadable : Bool

abbrev pub contains_source : MediaSource → List MediaSource → Bool
contains_source source [] = false
contains_source source (s ∷ sources) = source == s || contains_source source sources

abbrev pub contains_key : Key → List Key → Bool
contains_key k [] = false
contains_key k (j ∷ keys) = k == j || contains_key k keys

-- Whether a source is the scanner of the directories.
abbrev is_directory : MediaSource → Bool
is_directory source = source == directory

abbrev pub is_withdrawn_from : ShareState → Bool
is_withdrawn_from pending = true
is_withdrawn_from seeding = true
is_withdrawn_from unshared = false
is_withdrawn_from failed = true

module _ {T : Types} where
  abbrev no_discovery : Discovery T
  no_discovery = record {
    items = [];
    scanned = [];
    withdrawable = [];
    audiences = [];
    failures = 0;
    library_unreadable = false;
  }

  unfoldable pub add_scan : MediaSource → Option (SourceScan T) → Discovery T → Discovery T
  add_scan kind none d = record d {
    failures = d.failures + 1;
    library_unreadable = is_directory kind || d.library_unreadable;
  }
  add_scan kind (some scan) d = record d {
    items = d.items ++ scan.items;
    scanned = kind ∷ d.scanned;
    withdrawable = if scan.complete then kind ∷ d.withdrawable else d.withdrawable;
    audiences = d.audiences ++ (kind, scan.audience) ∷ [];
    library_unreadable = is_directory kind && not scan.complete || d.library_unreadable;
  }

  unfoldable pub add_scans : List (MediaSource × Option (SourceScan T)) → Discovery T → Discovery T
  unfolding add_scan
  add_scans [] d = d
  add_scans ((kind, scan) ∷ scans) d = add_scans scans (add_scan kind scan d)

  -- The scans are what the sources answer, in their order.
  unfoldable pub discover : List (MediaSource × Option (SourceScan T)) → Discovery T
  unfolding add_scans
  discover scans = add_scans scans no_discovery

  unfoldable pub add_live :
      List (TorrentSummary T) → HashMap Bytes (TorrentSummary T) → HashMap Bytes (TorrentSummary T)
  unfolding to_ascii_lowercase
  add_live [] live = live
  add_live (t ∷ torrents) live = add_live torrents (insert (to_ascii_lowercase t.hash) t live)

  unfoldable pub known_item : Row T → SharedItem T
  unfolding to_ascii_lowercase
  known_item row = record row.item { info_hash = Option.map to_ascii_lowercase row.item.info_hash }

  abbrev known_entry : Key × Row T → Key × SharedItem T
  known_entry (k, row) = (k, known_item row)

  unfoldable pub known_items : HashMap Key (Row T) → HashMap Key (SharedItem T)
  unfolding known_item
  known_items rows = map known_entry rows

  abbrev pub column : {A : Type 0} → (Row T → Option A) → HashMap Key (Row T) → HashMap Key A
  column f [] = []
  column f ((k, row) ∷ rows) =
      let rest = column f rows in elim (f row) [ none ↦ rest | some a ↦ (k, a) ∷ rest ]

  -- The items that `withdraw_untagged` takes.
  unfoldable pub is_withdrawn : List Key → List MediaSource → Key × SharedItem T → Bool
  is_withdrawn tagged withdrawable (k, item) =
      contains_source item.source withdrawable
      && not (contains_key (item_key item) tagged)
      && is_withdrawn_from item.state
