-- ===== src/Sync/Tests.antt =====
-- Runs of the pass on a small library.
use sharerr_rs.Prelude.{[], codes, false, list_eq, nat_eq, none, ok, refl, some, true, ◌∷◌, ◌≡◌}
use sharerr_rs.Endpoint.AnnounceList.{tiers}
use sharerr_rs.Paths.Resolver.{component_eq, radarr}
use sharerr_rs.Prelude.HashMap.{get}
use sharerr_rs.Prelude.Int.{pos}
use sharerr_rs.Sync.Adopted.{AddsTrackers, OthersKept, Since, seed-AddsTrackers, share-OthersKept}
use sharerr_rs.Sync.Cached.{adopt, find_direct, find_existing, matches_content_path}
use sharerr_rs.Sync.Discovery.{column, discover, known_items}
use sharerr_rs.Sync.DryRun.{but_accesses, but_accesses-reconcile}
use sharerr_rs.Sync.Exec.{gets, lift, modify, pure, raise, settle, ◌>>=◌}
use sharerr_rs.Sync.Filed.{FiledExport, adopt-FiledExport}
use sharerr_rs.Sync.Item.{int_eq, key_eq, source_eq}
use sharerr_rs.Sync.Leads.{IfOk}
use sharerr_rs.Sync.Pass.{record_seeding, share}
use sharerr_rs.Sync.Reconcile.{reconcile, reconcile_known}
use sharerr_rs.Sync.Recorded.{RecordedAs, record_seeding-RecordedAs}
use sharerr_rs.Sync.Refresh.{refresh_announce, refresh_updated}
use sharerr_rs.Sync.Removals.{reconcile-AllCalls}
use sharerr_rs.Sync.Report.{SyncReport}
use sharerr_rs.Sync.Safety.{AllCalls}
use sharerr_rs.Sync.Samples.{
  built_outcome, calm, exporting, film_paths, home, house, listed_film, no_friends, one_cached,
  one_scan, seeding_row, theirs, two_rows,
}
use sharerr_rs.Sync.Scanned.{DueCall}
use sharerr_rs.Sync.Seed.{seed}
use sharerr_rs.Sync.Tally.{IsTallied, reconcile_known-IsTallied}
use sharerr_rs.Sync.World.{removed, trackers_added}

-- Of the two torrents that are no longer listed, the one that sharerr made goes.
own_removed :
    (reconcile house false (some home) one_scan two_rows).1.calls
    ≡ (removed (codes "ab"), true) ∷ []
unfolding reconcile ◌>>=◌ modify pure gets settle lift get raise
own_removed = refl

reconcile-AllCalls_example :
    AllCalls
      (DueCall
        (pos 1000)
        (known_items two_rows.rows)
        (column (λ row. row.share_until) two_rows.rows)
        one_scan)
      (reconcile house false (some home) one_scan two_rows).1
reconcile-AllCalls_example = reconcile-AllCalls house false (some home) one_scan two_rows refl

but_accesses-reconcile_example :
    but_accesses (reconcile house true (some home) one_scan two_rows).1 ≡ but_accesses two_rows
but_accesses-reconcile_example = but_accesses-reconcile house (some home) one_scan two_rows

reconcile_known-IsTallied_example :
    (report : SyncReport) × ((reconcile_known house calm
        (discover one_scan)
        (known_items two_rows.rows)
        []
        []
        two_rows).0
      ≡ ok report)
    × IsTallied (pos 1000) (discover one_scan) [] (known_items two_rows.rows) report
reconcile_known-IsTallied_example =
    reconcile_known-IsTallied house calm (discover one_scan) (known_items two_rows.rows) [] []
      two_rows

seed-AddsTrackers_example :
    Since
      (AddsTrackers (codes "cd") home)
      []
      (seed house film_paths home (theirs ∷ []) none none no_friends two_rows).1
seed-AddsTrackers_example =
    seed-AddsTrackers house film_paths home (theirs ∷ []) none none no_friends (codes "cd") two_rows
      (unfold find_existing find_direct matches_content_path gets in refl)

share-OthersKept_example :
    OthersKept (radarr, pos 1) two_rows (share house listed_film calm none two_rows).1
share-OthersKept_example = share-OthersKept house listed_film calm none two_rows

adopt-FiledExport_example :
    let (r, w') = adopt exporting (codes "d4:name1:ae") home two_rows in
    let client =
      (exporting.qbit.perform
        (trackers_added (codes "d4:name1:ae") (tiers home))
        two_rows.client).1 in
    IfOk
      (λ answer.
        FiledExport exporting
          (codes "d4:name1:ae")
          home
          (exporting.qbit.export client (codes "d4:name1:ae"))
          answer
          w')
      r
adopt-FiledExport_example =
    adopt-FiledExport exporting (codes "d4:name1:ae") home two_rows (unfold get in refl)

record_seeding-RecordedAs_example :
    let (r, w') = record_seeding house (radarr, pos 3) none none built_outcome two_rows in
    IfOk (λ step. RecordedAs (radarr, pos 3) built_outcome (seeding_row 3 false) w') r
record_seeding-RecordedAs_example =
    record_seeding-RecordedAs house (radarr, pos 3) none none built_outcome (seeding_row 3 false)
      two_rows (unfold get in refl)

-- Refreshing and adopting go through.
refresh_runs : (refresh_announce house (codes "ab") home [] one_cached).0 ≡ ok refresh_updated
unfolding refresh_announce ◌>>=◌ gets pure lift modify get settle
refresh_runs = refl

adopt_runs : (adopt exporting (codes "d4:name1:ae") home two_rows).0 ≡ ok []
unfolding adopt ◌>>=◌ gets pure lift modify get settle
adopt_runs = refl
