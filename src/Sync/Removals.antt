-- ===== src/Sync/Removals.antt =====
-- The first property of a pass: what it removes from the client is its own.
use sharerr_rs.Prelude.{
  All, Bool, Bytes, List, Option, PartialEq, Result, [], list_eq, map, nat_eq, refl, subst, sym,
  ◌∷◌, ◌≡◌,
}
use sharerr_rs.Announce.Query.{hash}
use sharerr_rs.Announce.WireValue.{answer}
use sharerr_rs.Endpoint.AnnounceList.{AnnounceSet}
use sharerr_rs.Paths.Resolver.{MediaSource, component_eq}
use sharerr_rs.Prelude.HashMap.{HashMap}
use sharerr_rs.Prelude.Int.{ℤ}
use sharerr_rs.Sync.Discovery.{Discovery, SourceScan, column, discover, known_items}
use sharerr_rs.Sync.Exec.{lift}
use sharerr_rs.Sync.Frame.{or_failure-Keeps}
use sharerr_rs.Sync.Item.{
  Failure, FileStamp, ItemOrigin, Key, SharedItem, Types, client_failed, discovered_key, int_eq,
  key_eq, source_eq, tracker_not_ready,
}
use sharerr_rs.Sync.Keeps.{
  Keeps, Keeps-bind, Keeps-gets, Keeps-if, Keeps-lift, Keeps-pure, Keeps-raise, Keeps-settle,
}
use sharerr_rs.Sync.Leads.{IfOk, Leads, Leads-Keeps, Leads-bind, Yields, Yields-Keeps}
use sharerr_rs.Sync.Live.{PassContext}
use sharerr_rs.Sync.Reconcile.{reconcile, reconcile_known, reconcile_scanned, record_audiences}
use sharerr_rs.Sync.ReconcileFrame.{reconcile_known-Keeps}
use sharerr_rs.Sync.Safety.{
  AllCalls, AllCalls-Frame, IsFresh, PassMay, read_rows-Keeps-IsFresh, read_rows-Yields,
  replace_audience-Keeps-IsFresh, track_cap-Keeps-IsFresh,
}
use sharerr_rs.Sync.Scanned.{DueCall, IsOwnRemoval-IsDue, Scans}
use sharerr_rs.Sync.Store.{or_failure}
use sharerr_rs.Sync.World.{
  ClientCall, Env, Row, TorrentSummary, World, added, limits_applied, removed, trackers_added,
  trackers_set,
}
use sharerr_rs.Torrent.Stream.{is_nil, read}

module _ {T : Types} {Url : Type 0} ⦃e : PartialEq Url⦄ (env : Env T Url)
    (rows : HashMap Key (Row T)) where
  record_audiences-Keeps-IsFresh :
      (audiences : List (MediaSource × List (ℤ × List Bytes)))
      → Keeps (IsFresh rows) (record_audiences env audiences)
  unfolding record_audiences
  record_audiences-Keeps-IsFresh [] = Keeps-pure tt
  record_audiences-Keeps-IsFresh ((source, audience) ∷ audiences) =
      Keeps-bind _ _ (replace_audience-Keeps-IsFresh env rows source audience)
        λ _. record_audiences-Keeps-IsFresh audiences

  or_failure-Keeps-IsFresh :
      {A : Type 0} (o : Option A) (failure : Failure)
      → Keeps (IsFresh rows) (or_failure env o failure)
  or_failure-Keeps-IsFresh o failure = or_failure-Keeps env o failure

  lift-Yields :
      {A : Type 0} (a : A) (r : Result Failure A)
      → IfOk (λ b. b ≡ a) r
      → Yields (IsFresh {Url = Url} rows) (λ b. b ≡ a) (lift r)
  unfolding lift
  lift-Yields a r h = record { keeps = λ w k. k; gives = λ w k. h }

  abbrev May : Discovery T → ClientCall T Url → Type 0
  May discovery =
      PassMay env.now_epoch (known_items rows) (column (λ row. row.share_until) rows) discovery

  fresh_calls :
      (discovery : Discovery T) (w : World T Url) → IsFresh rows w → AllCalls (May discovery) w
  fresh_calls discovery w (same, none_yet) = subst (All _) (sym none_yet) tt

  reconcile_known-Leads :
      (pass : PassContext T Url) (discovery : Discovery T) (stamps : HashMap Key FileStamp)
      (known : HashMap Key (Row T)) (ends : HashMap Key ℤ)
      → known ≡ rows
      → ends ≡ column (λ row. row.share_until) rows
      → Leads
          (IsFresh rows)
          (AllCalls (May discovery))
          (reconcile_known env pass discovery (known_items known) stamps ends)
  reconcile_known-Leads pass discovery stamps known ends same same_ends =
      rw (same, same_ends)
        (Leads-Keeps (fresh_calls discovery) _ (
          reconcile_known-Keeps env (AllCalls-Frame (May discovery)) (known_items rows)
            (column (λ row. row.share_until) rows) (map discovered_key discovery.items)
            discovery.withdrawable (λ hash removal. removal) (λ hash limits own. own) (λ r. tt)
            (λ hash urls. tt) (λ hash urls. tt) pass discovery stamps refl refl))

  reconcile_scanned-Leads :
      (dry_run : Bool) (set : AnnounceSet Url) (discovery : Discovery T)
      (answer : Option (List (TorrentSummary T))) (read : Result Failure (HashMap Key (Row T)))
      (stamps : HashMap Key FileStamp) (ends : HashMap Key ℤ) (origins : HashMap Key ItemOrigin)
      → IfOk (λ known. known ≡ rows) read
      → ends ≡ column (λ row. row.share_until) rows
      → Leads
          (IsFresh rows)
          (AllCalls (May discovery))
          (reconcile_scanned env dry_run set discovery answer read stamps ends origins)
  unfolding reconcile_scanned
  reconcile_scanned-Leads dry_run set discovery answer read stamps ends origins same same_ends =
      let mono = fresh_calls discovery in
      Leads-bind mono (λ _. Unit) _ _
        (Yields-Keeps _ (
          Keeps-if dry_run _ _ (λ dry. Keeps-pure tt)
            λ wet. record_audiences-Keeps-IsFresh discovery.audiences))
        λ _ _.
          Leads-bind mono (λ _. Unit) _ _
            (Yields-Keeps _ (or_failure-Keeps-IsFresh answer client_failed))
            λ torrents _.
              Leads-bind mono (λ known. known ≡ rows) _ _ (lift-Yields rows read same)
                λ known this. reconcile_known-Leads _ discovery stamps known ends this same_ends

  reconcile-Leads :
      (dry_run : Bool) (ready : Option (AnnounceSet Url))
      (scans : List (MediaSource × Option (SourceScan T)))
      → Leads (IsFresh rows) (AllCalls (May (discover scans))) (reconcile env dry_run ready scans)
  unfolding reconcile
  reconcile-Leads dry_run ready scans =
      let mono = fresh_calls (discover scans) in
      Leads-bind mono (λ _. Unit) _ _
        (Yields-Keeps _
          (Keeps-if dry_run _ _ (λ dry. Keeps-pure tt) λ wet. track_cap-Keeps-IsFresh env rows))
        λ _ _.
          Leads-bind mono (λ _. Unit) _ _
            (Yields-Keeps _ (or_failure-Keeps-IsFresh ready tracker_not_ready))
            λ set _.
              Leads-bind mono (λ _. Unit) _ _ (Yields-Keeps _ (Keeps-gets _))
                λ torrents _.
                  Leads-bind mono (IfOk λ known. known ≡ rows) _ _
                    (read_rows-Yields env rows λ table. table)
                    λ read same.
                      Leads-bind mono (λ _. Unit) _ _
                        (Yields-Keeps _ (Keeps-settle _ (read_rows-Keeps-IsFresh env rows _)))
                        λ stamps _.
                          Leads-bind mono (IfOk λ ends. ends ≡ column (λ row. row.share_until) rows)
                            _ _ (read_rows-Yields env rows (column λ row. row.share_until))
                            λ ends same_ends.
                              Leads-bind mono (λ _. Unit) _ _
                                (Yields-Keeps _
                                  (Keeps-settle _ (read_rows-Keeps-IsFresh env rows _)))
                                λ origins _.
                                  Leads-bind mono (λ _. Unit) _ _
                                    (Yields-Keeps _ (
                                      Keeps-if (is_nil (discover scans).scanned) _ _
                                        (λ empty. Keeps-raise _) λ some_scanned. Keeps-pure tt))
                                    λ _ _.
                                      Leads-bind mono
                                        (λ read_ends.
                                          read_ends ≡ column (λ row. row.share_until) rows)
                                        _ _ (lift-Yields _ ends same_ends)
                                        λ read_ends this.
                                          Leads-bind mono (λ _. Unit) _ _
                                            (Yields-Keeps _ (Keeps-lift origins))
                                            λ read_origins _.
                                              reconcile_scanned-Leads dry_run set (discover scans)
                                                torrents read _ read_ends read_origins same this

PassMay-DueCall :
    {T : Types} {Url : Type 0} (now : ℤ) (known : HashMap Key (SharedItem T)) (ends : HashMap Key ℤ)
    (scans : Scans T) (call : ClientCall T Url)
    → PassMay now known ends (discover scans) call
    → DueCall now known ends scans call
PassMay-DueCall now known ends scans (removed hash) may =
    IsOwnRemoval-IsDue now known ends scans hash may
PassMay-DueCall now known ends scans (limits_applied hash limits) may = may
PassMay-DueCall now known ends scans (added r) may = may
PassMay-DueCall now known ends scans (trackers_set hash urls) may = may
PassMay-DueCall now known ends scans (trackers_added hash urls) may = may

All-mono :
    {A : Type 0} (P Q : A → Type 0) (xs : List A) → ((x : A) → P x → Q x) → All P xs → All Q xs
All-mono P Q [] f h = h
All-mono P Q (x ∷ xs) f (p, h) = (f x p, All-mono P Q xs f h)

-- A pass that starts with no requests made, whatever fails on the way, removes from the client only
-- the torrents that sharerr made for an item it knew when the pass began, and of these only where the
-- item's share ended on its date, or where its source answered with a complete scan, no scan lists the
-- item, and it was not unshared already; and it sets limits only on torrents that sharerr made for an
-- item it knew.
pub reconcile-AllCalls :
    {T : Types} {Url : Type 0} ⦃e : PartialEq Url⦄ (env : Env T Url) (dry_run : Bool)
    (ready : Option (AnnounceSet Url)) (scans : Scans T) (w : World T Url)
    → w.calls ≡ []
    → AllCalls
        (DueCall env.now_epoch (known_items w.rows) (column (λ row. row.share_until) w.rows) scans)
        (reconcile env dry_run ready scans w).1
reconcile-AllCalls env dry_run ready scans w fresh =
    All-mono _ _ (reconcile env dry_run ready scans w).1.calls
      (λ entry may. PassMay-DueCall _ _ _ scans entry.0 may)
      ((reconcile-Leads env w.rows dry_run ready scans).from w (refl, fresh))
