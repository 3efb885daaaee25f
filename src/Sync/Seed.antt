-- ===== src/Sync/Seed.antt =====
-- `Seeder::seed` of crates/sharerr/src/sync/seed.rs.
use sharerr_rs.Torrent.Fields
use sharerr_rs.Prelude.{
  Bool, Bytes, List, Option, PartialEq, Result, [], codes, err, false, if◌then◌else◌, list_eq,
  nat_eq, none, ok, or_err, some, true, ◌++◌, ◌||◌, ◌∷◌,
}
use sharerr_rs.Announce.Query.{hash}
use sharerr_rs.Endpoint.AnnounceList.{AnnounceSet}
use sharerr_rs.Lighthouse.Hex.{eq_ignore_ascii_case}
use sharerr_rs.Paths.Resolver.{FilePath, ResolvedPaths, component_eq}
use sharerr_rs.Prelude.HashMap.{is_some}
use sharerr_rs.Prelude.Int.{ℤ}
use sharerr_rs.Sync.Cached.{adopt, find_existing, parent, with_upstream}
use sharerr_rs.Sync.Exec.{lift, pure, ◌>>=◌, ◌>>◌}
use sharerr_rs.Sync.Friends.{Handed, build_torrent, fetch_from_friends}
use sharerr_rs.Sync.Item.{
  CatalogEntry, Failure, ItemOrigin, Types, int_eq, key_eq, no_parent, source_eq,
}
use sharerr_rs.Sync.Refresh.{reuse_cached}
use sharerr_rs.Sync.Store.{ask_client}
use sharerr_rs.Sync.World.{AddRequest, Env, Sync, TorrentSummary, added}
use sharerr_rs.Torrent.Factory.{built}
use sharerr_rs.Torrent.Fields.{is_private, is_single_file, name}
use sharerr_rs.Torrent.Metainfo.{MetainfoError, Torrent, read_from_bytes}

pub record FriendTorrents : Type 0 where
  pub matches : List (ℤ × CatalogEntry)
  pub joined : Option ItemOrigin

pub record AddedTorrent : Type 0 where
  -- the field `private`
  pub private_flag : Bool
  pub info_hash_v2 : Option Bytes

pub data SeedOutcome : Type 0 where
  seed_reused : Bytes → List Bytes → SeedOutcome
  seed_added : Bytes → AddedTorrent → SeedOutcome
  seed_joined : Bytes → ItemOrigin → Option AddedTorrent → SeedOutcome

abbrev pub outcome_hash : SeedOutcome → Bytes
outcome_hash (seed_reused hash upstream) = hash
outcome_hash (seed_added hash made) = hash
outcome_hash (seed_joined hash origin made) = hash

-- The parts of a torrent that are handed over with it.
pub record HandedTorrent : Type 0 where
  pub made : AddedTorrent
  pub root_folder : Option Bytes

module _ {T : Types} where
  abbrev holds : List (TorrentSummary T) → Bytes → Bool
  holds [] hash = false
  holds (torrent ∷ torrents) hash = eq_ignore_ascii_case torrent.hash hash || holds torrents hash

  -- A friend's torrent that the client already holds.
  unfoldable pub find_held :
      List (TorrentSummary T) → List (ℤ × CatalogEntry) → Option (ℤ × CatalogEntry)
  unfolding eq_ignore_ascii_case
  find_held torrents [] = none
  find_held torrents ((peer_id, offer) ∷ matches) =
      let rest = find_held torrents matches in
      if holds torrents offer.info_hash then some (peer_id, offer) else rest

module _ {T : Types} {Url : Type 0} ⦃e : PartialEq Url⦄ (env : Env T Url) where
  -- An unparseable one is taken as private.
  unfoldable pub parse_handed : Result MetainfoError Torrent → HandedTorrent
  unfolding Fields.info_hash_v2 Fields.is_single_file Fields.name
  parse_handed (err e) = record {
    made = record { private_flag = true; info_hash_v2 = none };
    root_folder = none;
  }
  parse_handed (ok t) = record {
    made = record {
      private_flag = Fields.is_private t;
      info_hash_v2 = Fields.info_hash_v2 env.sha1 env.sha256 env.hex_encode t;
    };
    root_folder = if Fields.is_single_file t then none else Fields.name t;
  }

  unfoldable pub save_path_of : FilePath → Option Bytes → Result Failure FilePath
  unfolding parent
  save_path_of path root_folder = or_err (parent path) (no_parent path) λ dir.
      if is_some root_folder
      then or_err (parent dir) (no_parent path) (λ above. ok above)
      else ok dir

  unfoldable pub add_request : Bytes → Bytes → FilePath → Option Bytes → AddRequest T
  add_request hash torrent save_path root_folder = record {
    torrent = torrent;
    info_hash = hash;
    filename = hash ++ codes ".torrent";
    save_path = save_path;
    category = env.settings.category;
    tags = env.settings.tag;
    skip_checking = env.settings.skip_checking;
    root_folder = root_folder;
    limits = record {
      upload_limit_kib = env.settings.upload_limit_kib;
      ratio_limit = env.settings.ratio_limit;
    };
  }

  abbrev handed_outcome : Bytes → AddedTorrent → Option ItemOrigin → SeedOutcome
  handed_outcome hash made none = seed_added hash made
  handed_outcome hash made (some origin) = seed_joined hash origin (some made)

  unfoldable pub hand_over : FilePath → Bytes → Bytes → Option ItemOrigin → Sync T Url SeedOutcome
  unfolding parse_handed save_path_of add_request ask_client read_from_bytes
  hand_over path hash torrent joined = do
    let parsed = parse_handed (read_from_bytes torrent)
    save_path ← lift (save_path_of path parsed.root_folder)
    ask_client env (added (add_request hash torrent save_path parsed.root_folder))
    pure (handed_outcome hash parsed.made joined)

  unfoldable pub join_or_build :
      ResolvedPaths → AnnounceSet Url → Option T.Media → Option Handed → Sync T Url SeedOutcome
  unfolding build_torrent hand_over
  join_or_build paths set media (some (hash, torrent, origin)) =
      hand_over paths.qbit hash torrent (some origin)
  join_or_build paths set media none = do
    built ← build_torrent env paths set media
    hand_over paths.qbit built.info_hash built.encoded none

  unfoldable pub obtain :
      ResolvedPaths
      → AnnounceSet Url
      → Option T.Media
      → FriendTorrents
      → Option (Bytes × Bytes)
      → Sync T Url SeedOutcome
  unfolding with_upstream fetch_from_friends join_or_build hand_over
  obtain paths set media friends none = do
    fetched ← fetch_from_friends env paths set friends.matches
    join_or_build paths set media fetched
  obtain paths set media friends (some (hash, torrent)) = elim friends.joined [
    | none ↦ hand_over paths.qbit hash torrent none
    | some origin ↦ do
      handed ← lift (with_upstream env torrent set origin.upstream)
      hand_over paths.qbit hash handed (some origin)
  ]

  unfoldable pub seed_missing :
      ResolvedPaths
      → AnnounceSet Url
      → Option Bytes
      → Option T.Media
      → FriendTorrents
      → Option (ℤ × CatalogEntry)
      → Sync T Url SeedOutcome
  unfolding adopt reuse_cached obtain
  seed_missing paths set known media friends (some (peer_id, offer)) = do
    upstream ← adopt env offer.info_hash set
    pure (seed_joined offer.info_hash (record { peer_id = some peer_id; upstream = upstream }) none)
  seed_missing paths set known media friends none = do
    cached ← reuse_cached env known set paths.sharerr
    obtain paths set media friends cached

  unfoldable pub seed_found :
      ResolvedPaths
      → AnnounceSet Url
      → List (TorrentSummary T)
      → Option Bytes
      → Option T.Media
      → FriendTorrents
      → Option Bytes
      → Sync T Url SeedOutcome
  unfolding adopt find_held seed_missing
  seed_found paths set torrents known media friends (some existing) = do
    upstream ← adopt env existing set
    pure (seed_reused existing upstream)
  seed_found paths set torrents known media friends none =
      seed_missing paths set known media friends (find_held torrents friends.matches)

  unfoldable pub seed :
      ResolvedPaths
      → AnnounceSet Url
      → List (TorrentSummary T)
      → Option Bytes
      → Option T.Media
      → FriendTorrents
      → Sync T Url SeedOutcome
  unfolding find_existing seed_found
  seed paths set torrents known media friends = do
    existing ← find_existing env torrents paths.qbit
    seed_found paths set torrents known media friends existing
