-- ===== src/Sync/DryRun.antt =====
-- A dry run changes nothing.
use sharerr_rs.Prelude.{
  Bytes, List, Option, Option-cases, PartialEq, Result, [], err, inl, inr, list_eq, nat_eq, none,
  not, ok, refl, some, true, ◌&&◌, ◌∷◌, ◌≡◌,
}
use sharerr_rs.Announce.Query.{hash}
use sharerr_rs.Announce.Swarms.{live, step}
use sharerr_rs.Announce.WireValue.{answer}
use sharerr_rs.Bencode.Decode.{items}
use sharerr_rs.Endpoint.AnnounceList.{AnnounceSet}
use sharerr_rs.Lighthouse.State.{new, report}
use sharerr_rs.Paths.Resolver.{MediaSource, ResolvedPaths, component_eq}
use sharerr_rs.Prelude.HashMap.{HashMap, get, is_some}
use sharerr_rs.Prelude.Int.{ℤ}
use sharerr_rs.Sync.Discovery.{Discovery, SourceScan}
use sharerr_rs.Sync.Frame.{or_failure-Keeps}
use sharerr_rs.Sync.Item.{
  Discovered, Failure, FileStamp, ItemOrigin, Key, SharedItem, Types, client_failed, discovered_key,
  int_eq, key_eq, source_eq,
}
use sharerr_rs.Sync.Keeps.{
  Keeps, Keeps-bind, Keeps-gets, Keeps-if, Keeps-lift, Keeps-pure, Keeps-raise, Keeps-settle,
  keeps_rules,
}
use sharerr_rs.Sync.Live.{
  PassContext, is_seeding, live_item, watch, watch_file, watch_hash, watch_stamp,
}
use sharerr_rs.Sync.Pass.{probed, share, share_new, share_resolved}
use sharerr_rs.Sync.Reconcile.{
  end_share, has_ended, is_unshared, note_failed, pass_item, pass_items, reconcile, reconcile_known,
  reconcile_scanned, share_counted, unshare_counted, withdraw_all, withdraw_untagged,
}
use sharerr_rs.Sync.Report.{Flagged, Step, SyncReport, step_added, step_unchanged}
use sharerr_rs.Sync.Store.{access, read_rows, tick}
use sharerr_rs.Sync.World.{Env, Row, Sync, TorrentSummary, World}
use sharerr_rs.Torrent.Factory.{built}
use sharerr_rs.Torrent.Stream.{read}

module _ {T : Types} {Url : Type 0} where
  -- The world but for the count of the accesses, which are reads in a dry run.
  abbrev pub but_accesses : World T Url → World T Url
  but_accesses w = record w { accesses = 0 }

  abbrev IsUntouched : World T Url → World T Url → Type 0
  IsUntouched before w = but_accesses w ≡ but_accesses before

  read_rows-IsUntouched :
      {A : Type 0} (env : Env T Url) (before : World T Url) (f : World T Url → A)
      → Keeps (IsUntouched before) (read_rows env f)
  unfolding read_rows
  read_rows-IsUntouched env before f =
      Keeps-bind _ _ (unfold access tick in record { at = λ w h. h }) λ _. Keeps-gets f

module _ {T : Types} {Url : Type 0} ⦃e : PartialEq Url⦄ (env : Env T Url)
    (before : World T Url) where
  abbrev Idle : {A : Type 0} → Sync T Url A → Type 0
  Idle m = Keeps (IsUntouched before) m

  unshare_counted-Idle : (item : SharedItem T) → Idle (unshare_counted env true item)
  unfolding unshare_counted
  unshare_counted-Idle item = Keeps-pure 1

  withdraw_all-Idle :
      (stale_items : List (Key × SharedItem T)) → Idle (withdraw_all env true stale_items)
  unfolding withdraw_all
  withdraw_all-Idle [] = Keeps-pure 0
  withdraw_all-Idle ((k, item) ∷ stale_items) =
      Keeps-bind _ _ (unshare_counted-Idle item)
        λ n. Keeps-bind _ _ (withdraw_all-Idle stale_items) λ more. Keeps-pure _

  module _ (pass : PassContext T Url) (dry : pass.dry_run ≡ true) where
    end_share-Idle :
        (item : Option (SharedItem T)) (report : SyncReport) → Idle (end_share env pass item report)
    unfolding end_share
    end_share-Idle none report = Keeps-pure report
    end_share-Idle (some item) report =
        Keeps-if (is_unshared item.state) _ _ (λ _. Keeps-pure report)
          λ _. Keeps-bind _ _ (rw dry (unshare_counted-Idle item)) λ n. Keeps-pure _

    watch_stamp-Idle :
        (k : Key) (flagged : Flagged) (now : FileStamp) (built : Option FileStamp)
        (report : SyncReport)
        → Idle (watch_stamp env k flagged true now built report)
    unfolding watch_stamp
    watch_stamp-Idle k flagged now none report = Keeps-pure report
    watch_stamp-Idle k flagged now (some stamp) report = Keeps-pure _

    watch_file-Idle :
        (item : Discovered T) (flagged : Flagged) (built : Option FileStamp)
        (paths : Result Failure ResolvedPaths) (report : SyncReport)
        → Idle (watch_file env item flagged true built paths report)
    unfolding watch_file
    watch_file-Idle item flagged built (err failure) report = Keeps-pure report
    watch_file-Idle item flagged built (ok paths) report =
        elim (Option-cases (env.stamp_of paths.sharerr)) [
          | inl missing_file ↦ rw (watch_file, missing_file) (Keeps-pure report)
          | inr (now, there) ↦
              rw (watch_file, there)
                (watch_stamp-Idle (discovered_key item) flagged now built report)
        ]

    watch_hash-Idle :
        (item : Discovered T) (known : SharedItem T) (hash : Bytes) (stamps : HashMap Key FileStamp)
        (report : SyncReport)
        → Idle (watch_hash env item known hash pass stamps report)
    unfolding watch_hash
    watch_hash-Idle item known hash stamps report = elim (Option-cases (get hash pass.live)) [
      | inl gone ↦ rw (watch_hash, gone) (Keeps-pure _)
      | inr (torrent, there) ↦ rw (watch_hash, there, dry) (watch_file-Idle item _ _ _ _)
    ]

    watch-Idle :
        (item : Discovered T) (known : Option (SharedItem T)) (stamps : HashMap Key FileStamp)
        (report : SyncReport)
        → Idle (watch env item known pass stamps report)
    unfolding watch
    watch-Idle item none stamps report = Keeps-pure report
    watch-Idle item (some known) stamps report = elim (Option-cases known.info_hash) [
      | inl no_hash ↦ rw (watch, no_hash) (Keeps-pure report)
      | inr (hash, there) ↦
          rw (watch, there)
            (Keeps-if (is_seeding known.state && known.created_by_sharerr) _ _
              (λ _. watch_hash-Idle item known hash stamps report) λ _. Keeps-pure report)
    ]

    share_resolved-Idle :
        (item : Discovered T) (known : Option (SharedItem T)) (paths : ResolvedPaths)
        → Idle (share_resolved env item pass known paths)
    unfolding share_resolved
    share_resolved-Idle item known paths =
        Keeps-if (not (is_some (env.disk.metadata paths.sharerr))) _ _ (λ _. Keeps-raise _)
          λ _. rw dry (Keeps-pure step_added)

    share-Idle :
        (item : Discovered T) (known : Option (SharedItem T)) → Idle (share env item pass known)
    unfolding share share_new
    share-Idle item known = elim (Option-cases (live_item pass.live known)) [
      | inr ((seen, hash, reported), live) ↦
          rw (share, live) (Keeps-bind _ _ (rw dry (Keeps-pure tt)) λ _. Keeps-pure step_unchanged)
      | inl new ↦
          rw (share, new)
            (Keeps-bind _ _ (rw dry (Keeps-pure tt)) λ _.
              Keeps-bind _ _ (Keeps-lift _)
                λ paths. share_resolved-Idle (probed env item) known paths)
    ]

    share_counted-Idle :
        (item : Discovered T) (outcome : Result Failure Step) (report : SyncReport)
        → Idle (share_counted env item pass outcome report)
    unfolding share_counted note_failed
    share_counted-Idle item (ok step) report = Keeps-pure _
    share_counted-Idle item (err failure) report =
        Keeps-bind _ _ (rw dry (Keeps-pure tt)) λ _. Keeps-pure _

    pass_items-Idle :
        (known : HashMap Key (SharedItem T)) (stamps : HashMap Key FileStamp) (ends : HashMap Key ℤ)
        (items : List (Discovered T)) (report : SyncReport)
        → Idle (pass_items env pass known stamps ends items report)
    unfolding pass_items pass_item
    pass_items-Idle known stamps ends [] report = Keeps-pure report
    pass_items-Idle known stamps ends (item ∷ items) report =
        Keeps-bind _ _
          (Keeps-if (has_ended env.now_epoch (get (discovered_key item) ends)) _ _
            (λ _. end_share-Idle _ report)
            λ _. Keeps-bind _ _ (watch-Idle item _ stamps report) λ watched.
              Keeps-bind _ _ (Keeps-settle _ (share-Idle item _))
                λ outcome. share_counted-Idle item outcome watched)
          λ next. pass_items-Idle known stamps ends items next

    reconcile_known-Idle :
        (discovery : Discovery T) (known : HashMap Key (SharedItem T))
        (stamps : HashMap Key FileStamp) (ends : HashMap Key ℤ)
        → Idle (reconcile_known env pass discovery known stamps ends)
    unfolding reconcile_known withdraw_untagged
    reconcile_known-Idle discovery known stamps ends =
        Keeps-bind _ _ (pass_items-Idle known stamps ends discovery.items _)
          λ report. Keeps-bind _ _ (rw dry (withdraw_all-Idle _)) λ n. Keeps-pure _

  reconcile_scanned-Idle :
      (set : AnnounceSet Url) (discovery : Discovery T) (answer : Option (List (TorrentSummary T)))
      (read : Result Failure (HashMap Key (Row T))) (stamps : HashMap Key FileStamp)
      (ends : HashMap Key ℤ) (origins : HashMap Key ItemOrigin)
      → Idle (reconcile_scanned env true set discovery answer read stamps ends origins)
  unfolding reconcile_scanned
  reconcile_scanned-Idle set discovery answer read stamps ends origins =
      Keeps-bind _ _ (Keeps-pure tt) λ _.
        Keeps-bind _ _ (or_failure-Keeps env answer client_failed) λ torrents.
          Keeps-bind _ _ (Keeps-lift read)
            λ known. reconcile_known-Idle _ refl discovery _ stamps ends

  reconcile-Idle :
      (ready : Option (AnnounceSet Url)) (scans : List (MediaSource × Option (SourceScan T)))
      → Idle (reconcile env true ready scans)
  unfolding reconcile
  reconcile-Idle ready scans =
      search (keeps_rules, or_failure-Keeps, read_rows-IsUntouched, reconcile_scanned-Idle) depth 20

-- A dry run leaves the client, the requests made of it, the rows, the origins, the audiences, the
-- cache, and what the syncer remembers as they were, whatever it answers or fails with.
pub but_accesses-reconcile :
    {T : Types} {Url : Type 0} ⦃e : PartialEq Url⦄ (env : Env T Url)
    (ready : Option (AnnounceSet Url)) (scans : List (MediaSource × Option (SourceScan T)))
    (w : World T Url)
    → but_accesses (reconcile env true ready scans w).1 ≡ but_accesses w
but_accesses-reconcile env ready scans w = (reconcile-Idle env w ready scans).at w refl
