-- ===== src/Sync/Reconcile.antt =====
-- crates/sharerr/src/sync/mod.rs: one pass over the libraries.
use mathlib.Core.Option
use sharerr_rs.Prelude.{
  Bool, Bytes, List, Option, PartialEq, Result, [], err, false, filter, if◌then◌else◌, length,
  list_eq, map, nat_eq, none, ok, some, take, true, ℕ, ◌+◌, ◌∷◌,
}
use sharerr_rs.Announce.Swarms.{step}
use sharerr_rs.Announce.WireValue.{answer}
use sharerr_rs.Bencode.Decode.{items}
use sharerr_rs.Endpoint.AnnounceList.{AnnounceSet}
use sharerr_rs.Endpoint.Token.{of_segments, token_of_segments}
use sharerr_rs.Lighthouse.State.{report}
use sharerr_rs.Paths.Resolver.{MediaSource, component_eq}
use sharerr_rs.Prelude.HashMap.{HashMap, get}
use sharerr_rs.Prelude.Int.{leb_ℤ, ℤ}
use sharerr_rs.Sync.Discovery.{
  Discovery, SourceScan, add_live, column, discover, is_withdrawn, known_items,
}
use sharerr_rs.Sync.Exec.{gets, lift, pure, raise, settle, ◌>>=◌, ◌>>◌}
use sharerr_rs.Sync.Item.{
  Discovered, Failure, FileStamp, ItemOrigin, Key, ShareState, SharedItem, Types, client_failed,
  discovered_key, failed, int_eq, key_eq, no_source_scanned, pending, seeding, source_eq,
  tracker_not_ready, unshared,
}
use sharerr_rs.Sync.Live.{PassContext, watch}
use sharerr_rs.Sync.Pass.{share, unshare_one}
use sharerr_rs.Sync.Report.{Step, SyncReport, counted, default_report, track_cap_in_force}
use sharerr_rs.Sync.Store.{or_failure, read_rows, replace_audience, set_state}
use sharerr_rs.Sync.World.{Env, Row, Sync, TorrentSummary}
use sharerr_rs.Torrent.Stream.{is_nil}

abbrev pub is_unshared : ShareState → Bool
is_unshared unshared = true
is_unshared pending = false
is_unshared seeding = false
is_unshared failed = false

abbrev pub has_ended : ℤ → Option ℤ → Bool
has_ended now none = false
has_ended now (some until) = leb_ℤ until now

abbrev pub ended_of : Result Failure (Unit {0}) → ℕ
ended_of (ok u) = 1
ended_of (err e) = 0

module _ {T : Types} where
  abbrev pub start_report : Discovery T → SyncReport
  start_report discovery = record default_report {
    discovered = length discovery.items;
    sources_failed = discovery.failures;
    library_unreadable = discovery.library_unreadable;
  }

module _ {T : Types} {Url : Type 0} ⦃e : PartialEq Url⦄ (env : Env T Url) where
  -- `token_fingerprint`
  unfoldable pub token_fingerprint : AnnounceSet Url → Option Bytes
  unfolding token_of_segments
  token_fingerprint set =
      Option.map (λ token. take 12 (env.hex_encode (env.sha256 token)))
        (of_segments (env.path_segments set.primary))

  unfoldable pub unshare_counted : Bool → SharedItem T → Sync T Url ℕ
  unfolding unshare_one
  unshare_counted true item = pure 1
  unshare_counted false item = do outcome ← settle (unshare_one env item); pure (ended_of outcome)

  -- An item whose share ended on its date.
  unfoldable pub end_share :
      PassContext T Url → Option (SharedItem T) → SyncReport → Sync T Url SyncReport
  unfolding unshare_counted
  end_share pass none report = pure report
  end_share pass (some known) report = if is_unshared known.state then pure report else (do
    n ← unshare_counted pass.dry_run known
    pure (record report { ended = report.ended + n }))

  unfoldable pub note_failed : Key → Failure → Bool → Sync T Url Unit
  unfolding set_state
  note_failed k failure true = pure tt
  note_failed k failure false = do settle (set_state env k failed (some failure)); pure tt

  unfoldable pub share_counted :
      Discovered T → PassContext T Url → Result Failure Step → SyncReport → Sync T Url SyncReport
  unfolding note_failed
  share_counted item pass (ok step) report = pure (counted step report)
  share_counted item pass (err failure) report = do
    note_failed (discovered_key item) failure pass.dry_run
    pure (record report { failed = report.failed + 1 })

  unfoldable pub pass_item :
      PassContext T Url
      → HashMap Key (SharedItem T)
      → HashMap Key FileStamp
      → HashMap Key ℤ
      → Discovered T
      → SyncReport
      → Sync T Url SyncReport
  unfolding end_share watch share share_counted
  pass_item pass known stamps ends item report =
      let before = get (discovered_key item) known in
      if has_ended env.now_epoch (get (discovered_key item) ends)
      then end_share pass before report
      else (do
        watched ← watch env item before pass stamps report
        outcome ← settle (share env item pass before)
        share_counted item pass outcome watched)

  unfoldable pub pass_items :
      PassContext T Url
      → HashMap Key (SharedItem T)
      → HashMap Key FileStamp
      → HashMap Key ℤ
      → List (Discovered T)
      → SyncReport
      → Sync T Url SyncReport
  unfolding pass_item
  pass_items pass known stamps ends [] report = pure report
  pass_items pass known stamps ends (item ∷ items) report = do
    next ← pass_item pass known stamps ends item report
    pass_items pass known stamps ends items next

  unfoldable pub withdraw_all : Bool → List (Key × SharedItem T) → Sync T Url ℕ
  unfolding unshare_counted
  withdraw_all dry_run [] = pure 0
  withdraw_all dry_run ((k, item) ∷ stale_items) = do
    n ← unshare_counted dry_run item
    more ← withdraw_all dry_run stale_items
    pure (n + more)

  unfoldable pub withdraw_untagged :
      HashMap Key (SharedItem T) → List Key → List MediaSource → Bool → Sync T Url ℕ
  unfolding is_withdrawn withdraw_all
  withdraw_untagged known tagged withdrawable dry_run =
      withdraw_all dry_run (filter (is_withdrawn tagged withdrawable) known)

  unfoldable pub record_audiences : List (MediaSource × List (ℤ × List Bytes)) → Sync T Url Unit
  unfolding replace_audience
  record_audiences [] = pure tt
  record_audiences ((kind, audience) ∷ audiences) = do
    replace_audience env kind audience
    record_audiences audiences

  abbrev stamps_or_none : Result Failure (HashMap Key FileStamp) → HashMap Key FileStamp
  stamps_or_none (ok stamps) = stamps
  stamps_or_none (err e) = []

  unfoldable pub reconcile_known :
      PassContext T Url
      → Discovery T
      → HashMap Key (SharedItem T)
      → HashMap Key FileStamp
      → HashMap Key ℤ
      → Sync T Url SyncReport
  unfolding pass_items withdraw_untagged
  reconcile_known pass discovery known stamps ends = do
    report ← pass_items pass known stamps ends discovery.items (start_report discovery)
    n ←
        withdraw_untagged known (map discovered_key discovery.items) discovery.withdrawable
          pass.dry_run
    pure (record report { unshared = n })

  -- `announces` is what the tracker answers, and `torrents` what the client lists.
  unfoldable pub reconcile_scanned :
      Bool
      → AnnounceSet Url
      → Discovery T
      → Option (List (TorrentSummary T))
      → Result Failure (HashMap Key (Row T))
      → HashMap Key FileStamp
      → HashMap Key ℤ
      → HashMap Key ItemOrigin
      → Sync T Url SyncReport
  unfolding record_audiences add_live known_items token_fingerprint reconcile_known
  reconcile_scanned dry_run announces discovery answer rows stamps ends origins = do
    (if dry_run then pure tt else record_audiences discovery.audiences)
    torrents ← or_failure env answer client_failed
    known ← lift rows
    reconcile_known
        (record {
          announces = announces;
          token_fp = token_fingerprint announces;
          live = add_live torrents [];
          torrents = torrents;
          origins = origins;
          dry_run = dry_run;
        })
        discovery (known_items known) stamps ends

  unfoldable pub reconcile :
      Bool
      → Option (AnnounceSet Url)
      → List (MediaSource × Option (SourceScan T))
      → Sync T Url SyncReport
  unfolding track_cap_in_force discover read_rows reconcile_scanned
  reconcile dry_run ready scans = do
    (if dry_run then pure tt else track_cap_in_force env)
    announces ← or_failure env ready tracker_not_ready
    let discovery = discover scans
    torrents ← gets λ w. env.qbit.list w.client
    rows ← settle (read_rows env λ w. w.rows)
    stamps ← settle (read_rows env λ w. column (λ row. row.stamp) w.rows)
    ends ← settle (read_rows env λ w. column (λ row. row.share_until) w.rows)
    origins ← settle (read_rows env λ w. w.origins)
    (if is_nil discovery.scanned then raise no_source_scanned else pure tt)
    ends ← lift ends
    origins ← lift origins
    reconcile_scanned dry_run announces discovery torrents rows (stamps_or_none stamps) ends origins
