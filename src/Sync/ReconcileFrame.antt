-- ===== src/Sync/ReconcileFrame.antt =====
-- A whole pass within a frame: what it may remove from the client, and whose limits it may set.
use sharerr_rs.Prelude.{
  Bool, Bytes, List, Member, Option, PartialEq, Result, [], err, false, inl, inr, list_eq, map,
  nat_eq, none, ok, refl, some, true, ◌∷◌, ◌≡◌, ◌⊎◌,
}
use sharerr_rs.Announce.Swarms.{step}
use sharerr_rs.Bencode.Decode.{items}
use sharerr_rs.Lighthouse.State.{report}
use sharerr_rs.Paths.Resolver.{MediaSource, component_eq}
use sharerr_rs.Prelude.HashMap.{HashMap, get}
use sharerr_rs.Prelude.Int.{ℤ}
use sharerr_rs.Sync.Discovery.{Discovery, is_withdrawn}
use sharerr_rs.Sync.Frame.{Frame, set_state-Keeps}
use sharerr_rs.Sync.Item.{
  Discovered, Failure, FileStamp, Key, SharedItem, Types, discovered_key, failed, int_eq, key_eq,
  source_eq,
}
use sharerr_rs.Sync.Keeps.{Keeps, Keeps-bind, Keeps-if, Keeps-pure, Keeps-settle}
use sharerr_rs.Sync.Live.{PassContext}
use sharerr_rs.Sync.Member.{Member-filter, get-Member}
use sharerr_rs.Sync.Own.{IsOwn, IsOwnRemoval, live_item-filed}
use sharerr_rs.Sync.PassFrame.{watch-Keeps}
use sharerr_rs.Sync.Reconcile.{
  end_share, has_ended, is_unshared, note_failed, pass_item, pass_items, reconcile_known,
  share_counted, unshare_counted, withdraw_all, withdraw_untagged,
}
use sharerr_rs.Sync.Report.{Step, SyncReport}
use sharerr_rs.Sync.ShareFrame.{share-Keeps, unshare_one-Keeps}
use sharerr_rs.Sync.World.{
  AddRequest, ClientCall, Env, SeedingLimits, World, added, limits_applied, removed, trackers_added,
  trackers_set,
}

module _ {T : Types} {Url : Type 0} ⦃e : PartialEq Url⦄ {May : ClientCall T Url → Type 0}
    {P : World T Url → Type 0} (env : Env T Url) (frame : Frame May (λ k. Unit) P)
    (known : HashMap Key (SharedItem T)) (ends : HashMap Key ℤ) (tagged : List Key)
    (withdrawable : List MediaSource) where
  abbrev MayRemove : Type 0
  MayRemove =
      (hash : Bytes)
      → IsOwnRemoval env.now_epoch known ends tagged withdrawable hash
      → May (removed hash)

  unshare_counted-Keeps :
      (k : Key) (item : SharedItem T) (dry_run : Bool)
      → MayRemove
      → Member (k, item) known
      → (has_ended env.now_epoch (get k ends) ≡ true)
        ⊎ (is_withdrawn tagged withdrawable (k, item) ≡ true)
      → Keeps P (unshare_counted env dry_run item)
  unfolding unshare_counted
  unshare_counted-Keeps k item true may stands reason = Keeps-pure 1
  unshare_counted-Keeps k item false may stands reason =
      Keeps-bind _ _
        (Keeps-settle _ (
          unshare_one-Keeps env frame item
            (λ hash filed own. may hash (record {
              key = k;
              item = item;
              stands = stands;
              filed = filed;
              own = own;
              reason = reason;
            }))
            tt))
        λ outcome. Keeps-pure _

  end_share-Keeps :
      (pass : PassContext T Url) (k : Key) (before : Option (SharedItem T)) (report : SyncReport)
      → MayRemove
      → get k known ≡ before
      → has_ended env.now_epoch (get k ends) ≡ true
      → Keeps P (end_share env pass before report)
  unfolding end_share
  end_share-Keeps pass k none report may found ended = Keeps-pure report
  end_share-Keeps pass k (some item) report may found ended =
      Keeps-if (is_unshared item.state) _ _ (λ _. Keeps-pure report)
        λ _.
          Keeps-bind _ _
            (unshare_counted-Keeps k item pass.dry_run may (get-Member k item known found)
              (inl ended))
            λ n. Keeps-pure _

  note_failed-Keeps :
      (k : Key) (failure : Failure) (dry_run : Bool) → Keeps P (note_failed env k failure dry_run)
  unfolding note_failed
  note_failed-Keeps k failure true = Keeps-pure tt
  note_failed-Keeps k failure false =
      Keeps-bind _ _ (Keeps-settle _ (set_state-Keeps env frame k failed (some failure) tt))
        λ _. Keeps-pure tt

  share_counted-Keeps :
      (item : Discovered T) (pass : PassContext T Url) (outcome : Result Failure Step)
      (report : SyncReport)
      → Keeps P (share_counted env item pass outcome report)
  unfolding share_counted
  share_counted-Keeps item pass (ok step) report = Keeps-pure _
  share_counted-Keeps item pass (err failure) report =
      Keeps-bind _ _ (note_failed-Keeps (discovered_key item) failure pass.dry_run)
        λ _. Keeps-pure _

  withdraw_all-Keeps :
      (dry_run : Bool) (stale_items : List (Key × SharedItem T))
      → MayRemove
      → ((entry : Key × SharedItem T)
          → Member entry stale_items
          → Member entry known × (is_withdrawn tagged withdrawable entry ≡ true))
      → Keeps P (withdraw_all env dry_run stale_items)
  unfolding withdraw_all
  withdraw_all-Keeps dry_run [] may all_stale = Keeps-pure 0
  withdraw_all-Keeps dry_run ((k, item) ∷ stale_items) may all_stale =
      let (stands, is) = all_stale (k, item) (inl refl) in
      Keeps-bind _ _ (unshare_counted-Keeps k item dry_run may stands (inr is)) λ n.
        Keeps-bind _ _
          (withdraw_all-Keeps dry_run stale_items may λ entry later. all_stale entry (inr later))
          λ more. Keeps-pure _

  withdraw_untagged-Keeps :
      (dry_run : Bool)
      → MayRemove
      → Keeps P (withdraw_untagged env known tagged withdrawable dry_run)
  unfolding withdraw_untagged
  withdraw_untagged-Keeps dry_run may =
      withdraw_all-Keeps dry_run _ may
        λ entry. Member-filter (is_withdrawn tagged withdrawable) entry known

  module _ (removing : MayRemove)
      (limiting : (hash : Bytes) (limits : SeedingLimits T)
        → IsOwn known hash
        → May (limits_applied hash limits))
      (adding : (r : AddRequest T) → May (added r))
      (trackers : (hash : Bytes) (urls : List Url) → May (trackers_added hash urls))
      (setting : (hash : Bytes) (urls : List Url) → May (trackers_set hash urls)) where
    pass_item-Keeps :
        (pass : PassContext T Url) (stamps : HashMap Key FileStamp) (item : Discovered T)
        (report : SyncReport)
        → Keeps P (pass_item env pass known stamps ends item report)
    unfolding pass_item
    pass_item-Keeps pass stamps item report =
        let k = discovered_key item in
        Keeps-if (has_ended env.now_epoch (get k ends)) _ _
          (λ ended. end_share-Keeps pass k (get k known) report removing refl ended)
          λ lasts.
            Keeps-bind _ _ (watch-Keeps env frame item (get k known) pass stamps report tt)
              λ watched.
                Keeps-bind _ _
                  (Keeps-settle _ (
                    share-Keeps env frame adding trackers item pass (get k known) tt
                      (λ seen hash reported live own limits.
                        let (before, filed) =
                          live_item-filed pass.live (get k known) seen hash reported live in
                        limiting hash limits (record {
                          key = k;
                          item = seen;
                          stands = get-Member k seen known before;
                          filed = filed;
                          own = own;
                        }))
                      setting))
                  λ outcome. share_counted-Keeps item pass outcome watched

    pass_items-Keeps :
        (pass : PassContext T Url) (stamps : HashMap Key FileStamp) (items : List (Discovered T))
        (report : SyncReport)
        → Keeps P (pass_items env pass known stamps ends items report)
    unfolding pass_items
    pass_items-Keeps pass stamps [] report = Keeps-pure report
    pass_items-Keeps pass stamps (item ∷ items) report =
        Keeps-bind _ _ (pass_item-Keeps pass stamps item report)
          λ next. pass_items-Keeps pass stamps items next

    pub reconcile_known-Keeps :
        (pass : PassContext T Url) (discovery : Discovery T) (stamps : HashMap Key FileStamp)
        → map discovered_key discovery.items ≡ tagged
        → discovery.withdrawable ≡ withdrawable
        → Keeps P (reconcile_known env pass discovery known stamps ends)
    unfolding reconcile_known
    reconcile_known-Keeps pass discovery stamps keys sources =
        Keeps-bind _ _ (pass_items-Keeps pass stamps discovery.items _) λ report.
          Keeps-bind _ _ (rw (keys, sources) (withdraw_untagged-Keeps pass.dry_run removing))
            λ n. Keeps-pure _
