-- ===== src/Sync/Counts.antt =====
-- What each part of a pass counts in its report.
use sharerr_rs.Prelude.{
  Bool, Bytes, Option, Option-cases, PartialEq, Result, arith, err, false, if◌then◌else◌, inl, inr,
  list_eq, nat_eq, none, ok, refl, some, true, ℕ, ◌&&◌, ◌+◌, ◌∙◌, ◌≡◌, ◌≤◌,
}
use sharerr_rs.Announce.Query.{hash}
use sharerr_rs.Announce.Swarms.{step}
use sharerr_rs.Lighthouse.State.{new, report}
use sharerr_rs.Paths.Resolver.{ResolvedPaths, component_eq}
use sharerr_rs.Prelude.HashMap.{HashMap, get}
use sharerr_rs.Sync.Completes.{
  Completes, Completes-bind, Completes-if, Completes-mono, Completes-pure, Completes-settle,
}
use sharerr_rs.Sync.Item.{
  Discovered, Failure, FileStamp, Key, SharedItem, Types, discovered_key, int_eq, key_eq, source_eq,
  stamp_eqb,
}
use sharerr_rs.Sync.Live.{
  PassContext, flag_changed, flag_stopped, is_seeding, watch, watch_file, watch_hash, watch_stamp,
}
use sharerr_rs.Sync.Reconcile.{
  end_share, ended_of, is_unshared, note_failed, share_counted, unshare_counted,
}
use sharerr_rs.Sync.Report.{
  Flagged, Step, SyncReport, counted, step_added, step_reused, step_unchanged,
}
use sharerr_rs.Sync.World.{Env}
use sharerr_rs.Torrent.Factory.{built}

abbrev pub shared_count : SyncReport → ℕ
shared_count report = report.added + report.reused + report.unchanged + report.failed

-- The counts of a report that no flag changes.
abbrev pub SameCounts : SyncReport → SyncReport → Type 0
SameCounts old new =
    (shared_count new ≡ shared_count old)
    × (new.ended ≡ old.ended)
    × (new.discovered ≡ old.discovered)

same_counts : (report : SyncReport) → SameCounts report report
same_counts report = (refl, refl, refl)

flag_counts :
    (b : Bool) (f : SyncReport → SyncReport) (report : SyncReport)
    → SameCounts report (f report)
    → SameCounts report (if b then report else f report)
flag_counts true f report h = same_counts report
flag_counts false f report h = h

flag_counts' :
    (b : Bool) (f : SyncReport → SyncReport) (report : SyncReport)
    → SameCounts report (f report)
    → SameCounts report (if b then f report else report)
flag_counts' true f report h = h
flag_counts' false f report h = same_counts report

-- One more item shared or failed, or a share ended at most.
abbrev pub OneMore : SyncReport → SyncReport → Type 0
OneMore old new =
    (shared_count new ≡ shared_count old + 1)
    × (new.ended ≡ old.ended)
    × (new.discovered ≡ old.discovered)

abbrev pub OneEnded : SyncReport → SyncReport → Type 0
OneEnded old new =
    (shared_count new ≡ shared_count old)
    × (new.ended ≤ old.ended + 1)
    × (new.discovered ≡ old.discovered)

counted-OneMore : (step : Step) (report : SyncReport) → OneMore report (counted step report)
counted-OneMore step_added report = (omega arith, refl, refl)
counted-OneMore step_reused report = (omega arith, refl, refl)
counted-OneMore step_unchanged report = (omega arith, refl, refl)

module _ {T : Types} {Url : Type 0} ⦃e : PartialEq Url⦄ (env : Env T Url) where
  watch_stamp-SameCounts :
      (k : Key) (flagged : Flagged) (dry_run : Bool) (now : FileStamp) (built : Option FileStamp)
      (report : SyncReport)
      → Completes (SameCounts report) (watch_stamp env k flagged dry_run now built report)
  unfolding watch_stamp
  watch_stamp-SameCounts k flagged dry_run now (some stamp) report =
      Completes-pure _
        (flag_counts (stamp_eqb stamp now) (flag_changed flagged) report (refl, refl, refl))
  watch_stamp-SameCounts k flagged true now none report = Completes-pure report (same_counts report)
  watch_stamp-SameCounts k flagged false now none report =
      Completes-bind _ _ _ (Completes-settle _) λ _ _. Completes-pure report (same_counts report)

  watch_file-SameCounts :
      (item : Discovered T) (flagged : Flagged) (dry_run : Bool) (built : Option FileStamp)
      (paths : Result Failure ResolvedPaths) (report : SyncReport)
      → Completes (SameCounts report) (watch_file env item flagged dry_run built paths report)
  unfolding watch_file
  watch_file-SameCounts item flagged dry_run built (err failure) report =
      Completes-pure report (same_counts report)
  watch_file-SameCounts item flagged dry_run built (ok paths) report =
      elim (Option-cases (env.stamp_of paths.sharerr)) [
        | inl missing_file ↦
            rw (watch_file, missing_file) (Completes-pure report (same_counts report))
        | inr (now, there) ↦
            rw (watch_file, there)
              (watch_stamp-SameCounts (discovered_key item) flagged dry_run now built report)
      ]

  trans_counts : (a b c : SyncReport) → SameCounts a b → SameCounts b c → SameCounts a c
  trans_counts a b c (p, q, r) (p', q', r') = (p' ∙ p, q' ∙ q, r' ∙ r)

  watch_hash-SameCounts :
      (item : Discovered T) (known : SharedItem T) (hash : Bytes) (pass : PassContext T Url)
      (stamps : HashMap Key FileStamp) (report : SyncReport)
      → Completes (SameCounts report) (watch_hash env item known hash pass stamps report)
  unfolding watch_hash
  watch_hash-SameCounts item known hash pass stamps report =
      elim (Option-cases (get hash pass.live)) [
        | inl gone ↦ rw (watch_hash, gone) (Completes-pure _ (refl, refl, refl))
        | inr (torrent, there) ↦
            let flagged : Flagged = record { hash = hash; title = known.release_title } in
            let noted = if torrent.is_stopped then flag_stopped flagged report else report in
            rw (watch_hash, there)
              (Completes-mono (SameCounts noted)
                (watch_file-SameCounts item flagged pass.dry_run _ _ noted)
                (λ next. trans_counts report noted next (
                  flag_counts' torrent.is_stopped (flag_stopped flagged) report
                    (refl, refl, refl))))
      ]

  pub watch-SameCounts :
      (item : Discovered T) (known : Option (SharedItem T)) (pass : PassContext T Url)
      (stamps : HashMap Key FileStamp) (report : SyncReport)
      → Completes (SameCounts report) (watch env item known pass stamps report)
  unfolding watch
  watch-SameCounts item none pass stamps report = Completes-pure report (same_counts report)
  watch-SameCounts item (some known) pass stamps report = elim (Option-cases known.info_hash) [
    | inl no_hash ↦ rw (watch, no_hash) (Completes-pure report (same_counts report))
    | inr (hash, there) ↦
        rw (watch, there)
          (Completes-if (is_seeding known.state && known.created_by_sharerr) _ _
            (λ _. watch_hash-SameCounts item known hash pass stamps report)
            λ _. Completes-pure report (same_counts report))
  ]

  ended_of-le : (r : Result Failure (Unit {0})) → ended_of r ≤ 1
  ended_of-le (ok u) = omega arith
  ended_of-le (err failure) = omega arith

  note_failed-Completes :
      (k : Key) (failure : Failure) (dry_run : Bool)
      → Completes (λ (u : Unit {0}). Unit) (note_failed env k failure dry_run)
  unfolding note_failed
  note_failed-Completes k failure true = Completes-pure tt tt
  note_failed-Completes k failure false =
      Completes-bind _ _ _ (Completes-settle _) λ _ _. Completes-pure tt tt

  pub unshare_counted-le :
      (dry_run : Bool) (item : SharedItem T)
      → Completes (λ n. n ≤ 1) (unshare_counted env dry_run item)
  unfolding unshare_counted
  unshare_counted-le true item = Completes-pure 1 (omega arith)
  unshare_counted-le false item =
      Completes-bind _ _ _ (Completes-settle _) λ r _. Completes-pure _ (ended_of-le r)

  pub end_share-OneEnded :
      (pass : PassContext T Url) (item : Option (SharedItem T)) (report : SyncReport)
      → Completes (OneEnded report) (end_share env pass item report)
  unfolding end_share
  end_share-OneEnded pass none report = Completes-pure report (refl, omega arith, refl)
  end_share-OneEnded pass (some item) report =
      Completes-if (is_unshared item.state) _ _
        (λ _. Completes-pure report (refl, omega arith, refl))
        λ _.
          Completes-bind _ _ _ (unshare_counted-le pass.dry_run item)
            λ n small. Completes-pure _ (refl, omega arith, refl)

  pub share_counted-OneMore :
      (item : Discovered T) (pass : PassContext T Url) (outcome : Result Failure Step)
      (report : SyncReport)
      → Completes (OneMore report) (share_counted env item pass outcome report)
  unfolding share_counted
  share_counted-OneMore item pass (ok step) report = Completes-pure _ (counted-OneMore step report)
  share_counted-OneMore item pass (err failure) report =
      Completes-bind (λ _. Unit) _ _
        (note_failed-Completes (discovered_key item) failure pass.dry_run)
        λ _ _. Completes-pure _ (omega arith, refl, refl)
