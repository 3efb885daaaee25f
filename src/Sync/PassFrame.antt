-- ===== src/Sync/PassFrame.antt =====
-- What the pass does with one item, within a frame: it writes the rows of that item alone.
use sharerr_rs.Prelude.{
  Bool, Bytes, List, Option, Option-cases, PartialEq, Result, err, false, inl, inr, list_eq, nat_eq,
  none, ok, some, true, ◌≡◌,
}
use sharerr_rs.Announce.Query.{hash}
use sharerr_rs.Endpoint.AnnounceList.{AnnounceSet}
use sharerr_rs.Lighthouse.State.{report}
use sharerr_rs.Paths.Resolver.{ResolvedPaths, component_eq}
use sharerr_rs.Prelude.HashMap.{HashMap, get}
use sharerr_rs.Sync.Frame.{Frame, reconcile_limits-Keeps, set_item_origin-Keeps, update_item-Keeps}
use sharerr_rs.Sync.Item.{
  Discovered, Failure, FileStamp, Key, SharedItem, Types, discovered_key, int_eq, key_eq, source_eq,
}
use sharerr_rs.Sync.Keeps.{Keeps, Keeps-bind, Keeps-if, Keeps-pure, Keeps-settle, keeps_rules}
use sharerr_rs.Sync.Live.{
  PassContext, confirm_live, limits_for, record_refresh, recover_upstream, upstream_for, watch,
  watch_file, watch_hash, watch_stamp,
}
use sharerr_rs.Sync.Pass.{record_seeding, write_v2_hash}
use sharerr_rs.Sync.Refresh.{AnnounceRefresh, no_cached_torrent, refresh_current, refresh_updated}
use sharerr_rs.Sync.Report.{Flagged, SyncReport}
use sharerr_rs.Sync.Seed.{SeedOutcome}
use sharerr_rs.Sync.SeedFrame.{refresh_announce-Keeps, seeder_recover_upstream-Keeps}
use sharerr_rs.Sync.Store.{
  confirm_seeding, set_file_stamp, set_info_hash_v2, set_ratio, set_seeding,
}
use sharerr_rs.Sync.World.{
  ClientCall, Env, SeedingLimits, TorrentSummary, World, limits_applied, trackers_set,
}
use sharerr_rs.Torrent.Factory.{built}

module _ {T : Types} {Url : Type 0} ⦃e : PartialEq Url⦄ {May : ClientCall T Url → Type 0}
    {Mine : Key → Type 0} {P : World T Url → Type 0} (env : Env T Url)
    (frame : Frame May Mine P) where
  watch_stamp-Keeps :
      (k : Key) (flagged : Flagged) (dry_run : Bool) (now : FileStamp) (built : Option FileStamp)
      (report : SyncReport)
      → Mine k
      → Keeps P (watch_stamp env k flagged dry_run now built report)
  unfolding watch_stamp set_file_stamp
  watch_stamp-Keeps k flagged dry_run now (some built) report mine = search keeps_rules
  watch_stamp-Keeps k flagged true now none report mine = search keeps_rules
  watch_stamp-Keeps k flagged false now none report mine = search (keeps_rules, update_item-Keeps)

  watch_file-Keeps :
      (item : Discovered T) (flagged : Flagged) (dry_run : Bool) (built : Option FileStamp)
      (paths : Result Failure ResolvedPaths) (report : SyncReport)
      → Mine (discovered_key item)
      → Keeps P (watch_file env item flagged dry_run built paths report)
  unfolding watch_file
  watch_file-Keeps item flagged dry_run built (err failure) report mine = search keeps_rules
  watch_file-Keeps item flagged dry_run built (ok paths) report mine =
      elim (Option-cases (env.stamp_of paths.sharerr)) [
        | inl missing_file ↦ rw (watch_file, missing_file) (search keeps_rules)
        | inr (now, there) ↦ rw (watch_file, there) (search watch_stamp-Keeps)
      ]

  watch_hash-Keeps :
      (item : Discovered T) (known : SharedItem T) (hash : Bytes) (pass : PassContext T Url)
      (stamps : HashMap Key FileStamp) (report : SyncReport)
      → Mine (discovered_key item)
      → Keeps P (watch_hash env item known hash pass stamps report)
  unfolding watch_hash
  watch_hash-Keeps item known hash pass stamps report mine =
      elim (Option-cases (get hash pass.live)) [
        | inl gone ↦ rw (watch_hash, gone) (search keeps_rules)
        | inr (torrent, there) ↦ rw (watch_hash, there) (search watch_file-Keeps)
      ]

  pub watch-Keeps :
      (item : Discovered T) (known : Option (SharedItem T)) (pass : PassContext T Url)
      (stamps : HashMap Key FileStamp) (report : SyncReport)
      → Mine (discovered_key item)
      → Keeps P (watch env item known pass stamps report)
  unfolding watch
  watch-Keeps item none pass stamps report mine = search keeps_rules
  watch-Keeps item (some known) pass stamps report mine = elim (Option-cases known.info_hash) [
    | inl no_hash ↦ rw no_hash (search keeps_rules)
    | inr (hash, there) ↦ rw there (search (keeps_rules, watch_hash-Keeps))
  ]

  write_v2_hash-Keeps : (k : Key) (v2 : Option Bytes) → Mine k → Keeps P (write_v2_hash env k v2)
  unfolding write_v2_hash set_info_hash_v2
  write_v2_hash-Keeps k none mine = search keeps_rules
  write_v2_hash-Keeps k (some v2) mine = search update_item-Keeps

  pub record_seeding-Keeps :
      (k : Key) (token_fp : Option Bytes) (stamp : Option FileStamp) (outcome : SeedOutcome)
      → Mine k
      → Keeps P (record_seeding env k token_fp stamp outcome)
  unfolding record_seeding set_seeding set_file_stamp
  record_seeding-Keeps k token_fp stamp outcome mine =
      search (keeps_rules, update_item-Keeps, write_v2_hash-Keeps, set_item_origin-Keeps) depth 12

  recover_upstream-Keeps :
      (item : Discovered T) (hash : Bytes) (set : AnnounceSet Url)
      → Mine (discovered_key item)
      → Keeps P (recover_upstream env item hash set)
  unfolding recover_upstream
  recover_upstream-Keeps item hash set mine =
      Keeps-bind _ _ (Keeps-settle _ (seeder_recover_upstream-Keeps env frame hash set)) (elim [
        | err failure ↦ Keeps-pure _
        | ok upstream ↦ search (keeps_rules, set_item_origin-Keeps)
      ])

  upstream_for-Keeps :
      (item : Discovered T) (known : SharedItem T) (hash : Bytes) (pass : PassContext T Url)
      → Mine (discovered_key item)
      → Keeps P (upstream_for env item known hash pass)
  unfolding upstream_for
  upstream_for-Keeps item known hash pass mine =
      elim (Option-cases (get (discovered_key item) pass.origins)) [
        | inl no_origin ↦
            rw (upstream_for, no_origin) (search (keeps_rules, recover_upstream-Keeps))
        | inr (origin, there) ↦ rw (upstream_for, there) (search keeps_rules)
      ]

  -- The limits are those of a torrent that sharerr made.
  limits_for-Keeps :
      (known : SharedItem T) (hash : Bytes) (reported : TorrentSummary T)
      → (known.created_by_sharerr ≡ true
          → (limits : SeedingLimits T) → May (limits_applied hash limits))
      → Keeps P (limits_for env known hash reported)
  unfolding limits_for
  limits_for-Keeps known hash reported may =
      Keeps-if known.created_by_sharerr _ _
        (λ own.
          Keeps-bind _ _ (Keeps-settle _ (reconcile_limits-Keeps env frame hash reported (may own)))
            λ sent. Keeps-pure _)
        (λ other. Keeps-pure _)

  record_refresh-Keeps :
      (k : Key) (token_fp : Option Bytes) (ratio ratio_limit : Option T.Float)
      (refreshed : Result Failure AnnounceRefresh)
      → Mine k
      → Keeps P (record_refresh env k token_fp ratio ratio_limit refreshed)
  unfolding record_refresh confirm_seeding set_ratio
  record_refresh-Keeps k token_fp ratio ratio_limit (ok refresh_current) mine =
      search update_item-Keeps
  record_refresh-Keeps k token_fp ratio ratio_limit (ok refresh_updated) mine =
      search update_item-Keeps
  record_refresh-Keeps k token_fp ratio ratio_limit (ok no_cached_torrent) mine =
      search update_item-Keeps
  record_refresh-Keeps k token_fp ratio ratio_limit (err failure) mine = search update_item-Keeps

  pub confirm_live-Keeps :
      (item : Discovered T) (known : SharedItem T) (hash : Bytes) (reported : TorrentSummary T)
      (pass : PassContext T Url)
      → Mine (discovered_key item)
      → (known.created_by_sharerr ≡ true
          → (limits : SeedingLimits T) → May (limits_applied hash limits))
      → ((urls : List Url) → May (trackers_set hash urls))
      → Keeps P (confirm_live env item known hash reported pass)
  unfolding confirm_live
  confirm_live-Keeps item known hash reported pass mine limits trackers =
      Keeps-bind _ _ (upstream_for-Keeps item known hash pass mine) λ upstream.
        Keeps-bind _ _ (limits_for-Keeps known hash reported limits) λ limit.
          Keeps-bind _ _
            (Keeps-settle _
              (refresh_announce-Keeps env frame hash pass.announces upstream trackers))
            λ refreshed. search (keeps_rules, record_refresh-Keeps)
