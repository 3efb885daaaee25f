-- ===== src/Sync/World.antt =====
-- What a pass acts on: the torrent client, the rows of the store (crates/sharerr-store/src/db.rs and
-- catalog.rs), the `.torrent` cache and what the syncer remembers, with the calls that change them.
-- The client is the trait `TorrentClient` of crates/sharerr-client/src/lib.rs. An access to the
-- database or to the disk may fail: the n-th one does if `refuses n`.
use sharerr_rs.Prelude.{Bool, Bytes, List, Option, list_eq, nat_eq, ℕ}
use sharerr_rs.Endpoint.AnnounceList.{AnnounceSet}
use sharerr_rs.Paths.Resolver.{FilePath, MediaSource, PathMapping, component_eq}
use sharerr_rs.Prelude.HashMap.{HashMap}
use sharerr_rs.Prelude.Int.{ℤ}
use sharerr_rs.Sync.Exec.{Exec}
use sharerr_rs.Sync.Item.{
  CatalogEntry, Discovered, Failure, FileStamp, ItemOrigin, Key, SharedItem, Types, int_eq, key_eq,
  source_eq,
}
use sharerr_rs.Torrent.Hashing.{Files}

pub record TorrentSummary (T : Types) : Type 0 where
  pub hash : Bytes
  pub save_path : FilePath
  pub content_path : FilePath
  pub is_stopped : Bool
  pub ratio : Option T.Float
  pub ratio_limit : Option T.Float
  pub upload_limit_kib : Option ℕ

pub record SeedingLimits (T : Types) : Type 0 where
  pub upload_limit_kib : Option ℕ
  pub ratio_limit : Option T.Float

pub record AddRequest (T : Types) : Type 0 where
  pub torrent : Bytes
  pub info_hash : Bytes
  pub filename : Bytes
  pub save_path : FilePath
  pub category : Bytes
  pub tags : Bytes
  pub skip_checking : Bool
  pub root_folder : Option Bytes
  pub limits : SeedingLimits T

-- The requests that change the client, as they are sent.
pub data ClientCall (T : Types) (Url : Type 0) : Type 0 where
  added : AddRequest T → ClientCall T Url
  removed : Bytes → ClientCall T Url
  trackers_set trackers_added : Bytes → List Url → ClientCall T Url
  limits_applied : Bytes → SeedingLimits T → ClientCall T Url

-- The client: what it is asked, and how each call changes it and whether the call succeeds.
pub record TorrentClient (T : Types) (Url : Type 0) : Type 0 where
  pub list : T.Client → Option (List (TorrentSummary T))
  pub files : T.Client → Bytes → Option (List FilePath)
  pub export : T.Client → Bytes → Option (Option Bytes)
  pub hybrid_torrents : Bool
  pub perform : ClientCall T Url → T.Client → Bool × T.Client

-- One row of `shared_items`.
pub record Row (T : Types) : Type 0 where
  pub item : SharedItem T
  pub info_hash_v2 : Option Bytes
  pub stamp : Option FileStamp
  pub share_until : Option ℤ

pub record World (T : Types) (Url : Type 0) : Type 0 where
  pub client : T.Client
  -- the requests so far, the latest first, each with whether it succeeded
  pub calls : List (ClientCall T Url × Bool)
  pub rows : HashMap Key (Row T)
  -- the table `item_origin`
  pub origins : HashMap Key ItemOrigin
  pub audiences : HashMap MediaSource (List (ℤ × List Bytes))
  -- the `.torrent` files of `torrent_dir`, by info hash
  pub cache : HashMap Bytes Bytes
  -- `Seeder::confirmed`
  pub confirmed : HashMap Bytes (AnnounceSet Url)
  -- `LimitsMemo`
  pub applied : List Bytes
  pub cap : Option (Option ℕ)
  pub accesses : ℕ

-- `[seeding]` and what else of the configuration a pass reads.
pub record Settings (T : Types) : Type 0 where
  pub category : Bytes
  pub tag : Bytes
  pub skip_checking : Bool
  -- the field `private`
  pub private_flag : Bool
  pub hybrid : Bool
  pub upload_limit_kib : Option ℕ
  pub ratio_limit : Option T.Float
  pub quiet_hours : Option (ℕ × ℕ)
  pub quiet_upload_limit_kib : Option ℕ
  pub sidecar_roots : List FilePath
  pub path_map : List PathMapping

-- What a pass runs in: the client, the disk, the crates it calls and the parts of the program that
-- are modelled elsewhere or not at all.
pub record Env (T : Types) (Url : Type 0) : Type 0 where
  pub qbit : TorrentClient T Url
  pub refuses : ℕ → Bool
  -- what a failed write of some bytes leaves in the file, by the accesses so far: the file as it was,
  -- or some other content
  pub torn : ℕ → Bytes → Option Bytes
  pub settings : Settings T
  pub disk : Files FilePath
  -- `FileStamp::of` the metadata of a file
  pub stamp_of : FilePath → Option FileStamp
  pub sha1 : Bytes → Bytes
  pub sha256 : Bytes → Bytes
  pub hex_encode : Bytes → Bytes
  pub as_str : Url → Bytes
  pub parse_url : Bytes → Option Url
  -- `token_from_announce_url`'s segments
  pub path_segments : Url → Option (List Bytes)
  pub now_epoch : ℤ
  -- minutes past local midnight
  pub clock : ℕ
  -- whether two floats are less than a thousandth apart
  pub near : T.Float → T.Float → Bool
  pub subtitles_beside : FilePath → List Bytes
  -- `sharerr_probe::probe`
  pub probe : FilePath → Option T.Media
  -- `title::resolve`
  pub release_title : Discovered T → Bytes
  -- `describe`, the comment of a torrent
  pub describe : Option T.Media → Option Bytes
  pub catalog_matches : T.Spec → T.Ids → ℕ → Option (List (ℤ × CatalogEntry))
  -- the answer to a download: the length it declares, and the body unless its reading fails
  pub download : Bytes → Option (Option ℕ × Option Bytes)

abbrev pub Sync : Types → Type 0 → Type 0 → Type 0
Sync T Url A = Exec (World T Url) Failure A
