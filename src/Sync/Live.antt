-- ===== src/Sync/Live.antt =====
-- crates/sharerr/src/sync/mod.rs: what the pass does with an item that is seeding.
use mathlib.Core.Option
use sharerr_rs.Prelude.{
  Bool, Bytes, List, Option, PartialEq, Result, [], err, false, if◌then◌else◌, list_eq, nat_eq,
  none, ok, some, true, ◌&&◌, ◌++◌, ◌∷◌,
}
use sharerr_rs.Announce.Query.{hash}
use sharerr_rs.Announce.WireValue.{answer}
use sharerr_rs.Endpoint.AnnounceList.{AnnounceSet}
use sharerr_rs.Lighthouse.State.{report}
use sharerr_rs.Paths.Resolver.{
  FilePath, MediaSource, ResolvedPaths, component_eq, resolve_for, unwrap_or,
}
use sharerr_rs.Prelude.HashMap.{HashMap, get}
use sharerr_rs.Sync.Exec.{pure, settle, ◌>>=◌, ◌>>◌}
use sharerr_rs.Sync.Item.{
  Discovered, Failure, FileStamp, ItemOrigin, Key, ShareState, SharedItem, Types, discovered_key,
  failed, int_eq, item_key, key_eq, pending, seeding, source_eq, stamp_eqb, unresolved, unshared,
}
use sharerr_rs.Sync.Refresh.{
  AnnounceRefresh, no_cached_torrent, refresh_announce, refresh_current, refresh_updated,
  seeder_recover_upstream,
}
use sharerr_rs.Sync.Report.{Flagged, SyncReport, reconcile_limits}
use sharerr_rs.Sync.Store.{confirm_seeding, set_file_stamp, set_item_origin, set_ratio}
use sharerr_rs.Sync.World.{Env, Sync, TorrentSummary}
use sharerr_rs.Torrent.Factory.{built}

pub record PassContext (T : Types) (Url : Type 0) : Type 0 where
  pub announces : AnnounceSet Url
  pub token_fp : Option Bytes
  pub live : HashMap Bytes (TorrentSummary T)
  pub torrents : List (TorrentSummary T)
  pub origins : HashMap Key ItemOrigin
  pub dry_run : Bool

abbrev pub is_seeding : ShareState → Bool
is_seeding pending = false
is_seeding seeding = true
is_seeding unshared = false
is_seeding failed = false

abbrev pub flag_stopped : Flagged → SyncReport → SyncReport
flag_stopped flagged report = record report { stopped = report.stopped ++ flagged ∷ [] }

abbrev pub flag_removed : Flagged → SyncReport → SyncReport
flag_removed flagged report = record report { removed = report.removed ++ flagged ∷ [] }

abbrev pub flag_changed : Flagged → SyncReport → SyncReport
flag_changed flagged report = record report { changed = report.changed ++ flagged ∷ [] }

module _ {T : Types} where
  abbrev pub with_hash : Bytes → TorrentSummary T → Bytes × TorrentSummary T
  with_hash hash reported = (hash, reported)

  abbrev pub with_known :
      SharedItem T → Bytes × TorrentSummary T → SharedItem T × Bytes × TorrentSummary T
  with_known known (hash, reported) = (known, hash, reported)

  -- The summary of a known item that is seeding and that the client reports.
  abbrev pub live_hash :
      HashMap Bytes (TorrentSummary T) → Option Bytes → Option (Bytes × TorrentSummary T)
  live_hash live none = none
  live_hash live (some hash) = Option.map (with_hash hash) (get hash live)

  abbrev pub live_item :
      HashMap Bytes (TorrentSummary T)
      → Option (SharedItem T)
      → Option (SharedItem T × Bytes × TorrentSummary T)
  live_item live none = none
  live_item live (some known) =
      if is_seeding known.state
      then Option.map (with_known known) (live_hash live known.info_hash)
      else none

module _ {T : Types} {Url : Type 0} ⦃e : PartialEq Url⦄ (env : Env T Url) where
  abbrev pub resolved : MediaSource → FilePath → Result Failure ResolvedPaths
  resolved source path = elim (resolve_for env.settings.path_map source path) [
    | ok paths ↦ ok paths
    | err e ↦ err (unresolved e)
  ]

  -- `watch` of a file that is there to be read.
  unfoldable pub watch_stamp :
      Key → Flagged → Bool → FileStamp → Option FileStamp → SyncReport → Sync T Url SyncReport
  unfolding set_file_stamp
  watch_stamp k flagged dry_run now (some built) report =
      pure (if stamp_eqb built now then report else flag_changed flagged report)
  watch_stamp k flagged true now none report = pure report
  watch_stamp k flagged false now none report = do
    settle (set_file_stamp env k (some now))
    pure report

  unfoldable pub watch_file :
      Discovered T
      → Flagged
      → Bool
      → Option FileStamp
      → Result Failure ResolvedPaths
      → SyncReport
      → Sync T Url SyncReport
  unfolding watch_stamp
  watch_file item flagged dry_run built (err e) report = pure report
  watch_file item flagged dry_run built (ok paths) report = elim (env.stamp_of paths.sharerr) [
    | none ↦ pure report
    | some now ↦ watch_stamp (discovered_key item) flagged dry_run now built report
  ]

  unfoldable pub watch_hash :
      Discovered T
      → SharedItem T
      → Bytes
      → PassContext T Url
      → HashMap Key FileStamp
      → SyncReport
      → Sync T Url SyncReport
  unfolding watch_file resolve_for
  watch_hash item known hash pass stamps report =
      let flagged : Flagged = record { hash = hash; title = known.release_title } in
      elim (get hash pass.live) [
        | none ↦ pure (flag_removed flagged report)
        | some torrent ↦
            watch_file item flagged pass.dry_run (get (item_key known) stamps)
              (resolved item.source item.arr_path)
              (if torrent.is_stopped then flag_stopped flagged report else report)
      ]

  unfoldable pub watch :
      Discovered T
      → Option (SharedItem T)
      → PassContext T Url
      → HashMap Key FileStamp
      → SyncReport
      → Sync T Url SyncReport
  unfolding watch_hash
  watch item none pass stamps report = pure report
  watch item (some known) pass stamps report = elim known.info_hash [
    | none ↦ pure report
    | some hash ↦
        if is_seeding known.state && known.created_by_sharerr
        then watch_hash item known hash pass stamps report
        else pure report
  ]

  unfoldable pub recover_upstream : Discovered T → Bytes → AnnounceSet Url → Sync T Url (List Bytes)
  unfolding seeder_recover_upstream set_item_origin
  recover_upstream item hash set = do
    answer ← settle (seeder_recover_upstream env hash set)
    elim answer [
      | err e ↦ pure []
      | ok upstream ↦ do
        let urls = unwrap_or upstream []
        settle (
            set_item_origin env (discovered_key item)
              (some (record { peer_id = none; upstream = urls })))
        pure urls
    ]

  unfoldable pub upstream_for :
      Discovered T → SharedItem T → Bytes → PassContext T Url → Sync T Url (List Bytes)
  unfolding recover_upstream
  upstream_for item known hash pass = elim (get (discovered_key item) pass.origins) [
    | some origin ↦ pure origin.upstream
    | none ↦ if known.created_by_sharerr then pure [] else recover_upstream item hash pass.announces
  ]

  abbrev limit_now : Result Failure Bool → Option T.Float → Option T.Float
  limit_now (ok true) reported = elim env.settings.ratio_limit [
    | none ↦ reported
    | some limit ↦ some limit
  ]
  limit_now (ok false) reported = reported
  limit_now (err e) reported = reported

  -- The limit that the store is to record.
  unfoldable pub limits_for : SharedItem T → Bytes → TorrentSummary T → Sync T Url (Option T.Float)
  unfolding reconcile_limits
  limits_for known hash reported =
      if known.created_by_sharerr
      then (do
        sent ← settle (reconcile_limits env hash reported)
        pure (limit_now sent reported.ratio_limit))
      else pure reported.ratio_limit

  unfoldable pub record_refresh :
      Key
      → Option Bytes
      → Option T.Float
      → Option T.Float
      → Result Failure AnnounceRefresh
      → Sync T Url Unit
  unfolding confirm_seeding set_ratio
  record_refresh k token_fp ratio ratio_limit (ok refresh_current) =
      confirm_seeding env k token_fp ratio ratio_limit
  record_refresh k token_fp ratio ratio_limit (ok refresh_updated) =
      confirm_seeding env k token_fp ratio ratio_limit
  record_refresh k token_fp ratio ratio_limit (ok no_cached_torrent) =
      set_ratio env k ratio ratio_limit
  record_refresh k token_fp ratio ratio_limit (err e) = set_ratio env k ratio ratio_limit

  unfoldable pub confirm_live :
      Discovered T → SharedItem T → Bytes → TorrentSummary T → PassContext T Url → Sync T Url Unit
  unfolding upstream_for limits_for refresh_announce record_refresh
  confirm_live item known hash reported pass = do
    upstream ← upstream_for item known hash pass
    ratio_limit ← limits_for known hash reported
    refreshed ← settle (refresh_announce env hash pass.announces upstream)
    settle (record_refresh (discovered_key item) pass.token_fp reported.ratio ratio_limit refreshed)
    pure tt
