-- ===== src/Sync/Friends.antt =====
-- crates/sharerr/src/sync/seed.rs: a friend's torrent of a file, and the building of one.
use sharerr_rs.Torrent.Fields
use sharerr_rs.Prelude.{
  Bool, Bytes, List, Option, PartialEq, Result, [], err, false, if◌then◌else◌, leb, length, list_eq,
  nat_eq, none, not, ok, option_eqb, or_err, some, ℕ, ◌&&◌, ◌*◌, ◌||◌, ◌∷◌,
}
use sharerr_rs.Announce.Query.{declared, hash}
use sharerr_rs.Endpoint.AnnounceList.{AnnounceSet}
use sharerr_rs.Lighthouse.Hex.{eq_ignore_ascii_case}
use sharerr_rs.Paths.Resolver.{FilePath, ResolvedPaths, component_eq}
use sharerr_rs.Prelude.HashMap.{is_some}
use sharerr_rs.Prelude.Int.{ℤ}
use sharerr_rs.Sync.Cached.{
  file_name_of, foreign_tiers, or_unparsed, parent, starts_with, with_upstream,
}
use sharerr_rs.Sync.Exec.{lift, pure, raise, settle, ◌>>=◌, ◌>>◌}
use sharerr_rs.Sync.Item.{
  CatalogEntry, Failure, ItemOrigin, Types, int_eq, key_eq, not_built, not_fetched,
  not_that_torrent, past_the_cap, source_eq,
}
use sharerr_rs.Sync.Store.{write_torrent_file}
use sharerr_rs.Sync.World.{Env, Sync}
use sharerr_rs.Torrent.Factory.{BuiltTorrent, built, create, create_with_sidecars}
use sharerr_rs.Torrent.Fields.{bind_option, info_hash, info_hash_v2, is_single_file, name}
use sharerr_rs.Torrent.Hashing.{BuildError, verify_single_file}
use sharerr_rs.Torrent.Metainfo.{Torrent, read_from_bytes}
use sharerr_rs.Torrent.Rewrite.{rewrite_announce}

abbrev pub max_friend_torrent_bytes : ℕ
max_friend_torrent_bytes = 16 * 1024 * 1024

-- What the client is handed: the hash, the `.torrent`, and whose it is.
abbrev pub Handed : Type 0
Handed = Bytes × Bytes × ItemOrigin

abbrev pub or_not_built : {A : Type 0} → Result (BuildError FilePath) A → Result Failure A
or_not_built (ok a) = ok a
or_not_built (err e) = err (not_built e)

abbrev declared_past : Option ℕ → Bool
declared_past none = false
declared_past (some n) = not (leb n max_friend_torrent_bytes)

abbrev same_name : Option Bytes → Option Bytes → Bool
same_name a b = option_eqb a b

module _ {T : Types} {Url : Type 0} ⦃e : PartialEq Url⦄ (env : Env T Url) where
  unfoldable pub read_download : Option (Option ℕ × Option Bytes) → Result Failure Bytes
  read_download none = err not_fetched
  read_download (some (declared, body)) =
      if declared_past declared
      then err past_the_cap
      else or_err body not_fetched λ torrent.
        if leb (length torrent) max_friend_torrent_bytes then ok torrent else err past_the_cap

  -- Whether the client would look for this file, under this name and this hash.
  unfoldable pub is_usable : ResolvedPaths → Torrent → Bool
  unfolding Fields.is_single_file Fields.name Fields.info_hash_v2 file_name_of
  is_usable paths t =
      Fields.is_single_file t
      && same_name (Fields.name t) (file_name_of paths.qbit)
      && (not (is_some (Fields.info_hash_v2 env.sha1 env.sha256 env.hex_encode t))
          || env.qbit.hybrid_torrents)

  unfoldable pub keep_friends :
      AnnounceSet Url → ℤ → Bytes → Torrent → Bytes → Sync T Url (Option Handed)
  unfolding rewrite_announce write_torrent_file foreign_tiers with_upstream
  keep_friends set peer_id torrent t hash = do
    cached ← lift (or_unparsed (rewrite_announce env.as_str env.parse_url torrent set))
    write_torrent_file env hash cached
    let upstream = foreign_tiers env t set
    handed ← lift (with_upstream env torrent set upstream)
    pure (some (hash, handed, record { peer_id = some peer_id; upstream = upstream }))

  unfoldable pub check_friends :
      ResolvedPaths → AnnounceSet Url → ℤ → Bytes → Torrent → Bytes → Sync T Url (Option Handed)
  unfolding verify_single_file keep_friends
  check_friends paths set peer_id torrent t hash = do
    verified ← lift (or_not_built (verify_single_file env.disk env.sha1 paths.sharerr t))
    if verified then keep_friends set peer_id torrent t hash else pure none

  unfoldable pub fetch_from_friend :
      ResolvedPaths → AnnounceSet Url → ℤ → CatalogEntry → Sync T Url (Option Handed)
  unfolding read_download read_from_bytes Fields.info_hash eq_ignore_ascii_case is_usable
      check_friends
  fetch_from_friend paths set peer_id offer = do
    torrent ← lift (read_download (env.download offer.download_url))
    t ← lift (or_unparsed (read_from_bytes torrent))
    let hash = Fields.info_hash env.sha1 env.sha256 env.hex_encode t
    if not (eq_ignore_ascii_case hash offer.info_hash)
        then raise (not_that_torrent hash)
        else if is_usable paths t
        then check_friends paths set peer_id torrent t hash
        else pure none

  -- A refusal, and a failure too, goes on to the next.
  unfoldable pub fetch_from_friends :
      ResolvedPaths → AnnounceSet Url → List (ℤ × CatalogEntry) → Sync T Url (Option Handed)
  unfolding fetch_from_friend
  fetch_from_friends paths set [] = pure none
  fetch_from_friends paths set ((peer_id, offer) ∷ matches) = do
    fetched ← settle (fetch_from_friend paths set peer_id offer)
    elim fetched [
      | ok (some handed) ↦ pure (some handed)
      | ok none ↦ fetch_from_friends paths set matches
      | err e ↦ fetch_from_friends paths set matches
    ]

  abbrev any_root : List FilePath → FilePath → Bool
  any_root [] path = false
  any_root (root ∷ roots) path = starts_with path root || any_root roots path

  abbrev root_name_of : FilePath → Option Bytes
  root_name_of path = Fields.bind_option (parent path) file_name_of

  unfoldable pub sidecars_of : FilePath → Option Bytes → List Bytes
  unfolding starts_with
  sidecars_of path root_name =
      if any_root env.settings.sidecar_roots path && is_some root_name
      then env.subtitles_beside path
      else []

  unfoldable pub build_with :
      FilePath
      → AnnounceSet Url
      → Option T.Media
      → Option Bytes
      → List Bytes
      → Result (BuildError FilePath) BuiltTorrent
  unfolding create create_with_sidecars
  build_with path set media (some root_name) (sidecar ∷ sidecars) =
      create_with_sidecars env.disk env.sha1 env.sha256 env.hex_encode env.as_str env.parse_url path
        (sidecar ∷ sidecars) root_name set (env.describe media) env.settings.private_flag
  build_with path set media root_name sidecars =
      create env.disk env.sha1 env.sha256 env.hex_encode env.as_str env.parse_url path set
        (env.describe media) env.settings.private_flag
        (env.settings.hybrid && env.qbit.hybrid_torrents)

  -- A torrent that cannot be cached is handed over all the same. `build` of the seeder.
  unfoldable pub build_torrent :
      ResolvedPaths → AnnounceSet Url → Option T.Media → Sync T Url BuiltTorrent
  unfolding file_name_of parent sidecars_of build_with write_torrent_file
  build_torrent paths set media = do
    let root_name = root_name_of paths.qbit
    built ← lift (
        or_not_built
          (build_with paths.sharerr set media root_name (sidecars_of paths.sharerr root_name)))
    settle (write_torrent_file env built.info_hash built.encoded)
    pure built
