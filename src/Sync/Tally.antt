-- ===== src/Sync/Tally.antt =====
-- A pass that has read what it needs always completes, and its report accounts for every item.
use sharerr_rs.Prelude.{
  Bool, Bool-cases, List, PartialEq, [], arith, filter, inl, inr, length, list_eq, map, nat_eq, not,
  ok, refl, ◌+◌, ◌∙◌, ◌∷◌, ◌≡◌, ◌≤◌,
}
use sharerr_rs.Bencode.Decode.{items}
use sharerr_rs.Lighthouse.State.{new, report}
use sharerr_rs.Paths.Resolver.{component_eq}
use sharerr_rs.Prelude.HashMap.{HashMap, get}
use sharerr_rs.Prelude.Int.{ℤ}
use sharerr_rs.Sync.Completes.{
  Completes, Completes-bind, Completes-if, Completes-mono, Completes-pure, Completes-settle,
}
use sharerr_rs.Sync.Counts.{
  OneEnded, OneMore, SameCounts, end_share-OneEnded, share_counted-OneMore, shared_count,
  unshare_counted-le, watch-SameCounts,
}
use sharerr_rs.Sync.Discovery.{Discovery, is_withdrawn}
use sharerr_rs.Sync.Item.{
  Discovered, FileStamp, Key, SharedItem, Types, discovered_key, int_eq, key_eq, source_eq,
}
use sharerr_rs.Sync.Live.{PassContext}
use sharerr_rs.Sync.Reconcile.{
  has_ended, pass_item, pass_items, reconcile_known, start_report, withdraw_all, withdraw_untagged,
}
use sharerr_rs.Sync.Report.{SyncReport}
use sharerr_rs.Sync.World.{Env, World}

length-filter_cons :
    {A : Type 0} (p : A → Bool) (x : A) (xs : List A)
    → length (filter p (x ∷ xs)) ≡ length (filter p (x ∷ [])) + length (filter p xs)
length-filter_cons p x xs = elim (Bool-cases (p x)) [
  | inl passes ↦ rw passes (omega arith)
  | inr fails ↦ rw fails (omega arith)
]

module _ {T : Types} {Url : Type 0} ⦃e : PartialEq Url⦄ (env : Env T Url) where
  abbrev lasts : HashMap Key ℤ → Discovered T → Bool
  lasts ends item = not (has_ended env.now_epoch (get (discovered_key item) ends))

  abbrev ends_now : HashMap Key ℤ → Discovered T → Bool
  ends_now ends item = has_ended env.now_epoch (get (discovered_key item) ends)

  -- What some items add to a report.
  abbrev Accounts : HashMap Key ℤ → List (Discovered T) → SyncReport → SyncReport → Type 0
  Accounts ends items old new =
      (shared_count new ≡ shared_count old + length (filter (lasts ends) items))
      × (new.ended ≤ old.ended + length (filter (ends_now ends) items))
      × (new.discovered ≡ old.discovered)

  pass_item-Accounts :
      (pass : PassContext T Url) (known : HashMap Key (SharedItem T))
      (stamps : HashMap Key FileStamp) (ends : HashMap Key ℤ) (item : Discovered T)
      (report : SyncReport)
      → Completes
          (Accounts ends (item ∷ []) report)
          (pass_item env pass known stamps ends item report)
  unfolding pass_item
  pass_item-Accounts pass known stamps ends item report =
      Completes-if (ends_now ends item) _ _
        (λ ended.
          Completes-mono (OneEnded report)
            (end_share-OneEnded env pass (get (discovered_key item) known) report)
            λ new (same, more, found_same). rw ended (omega arith, more, found_same))
        λ going.
          Completes-bind (SameCounts report) _ _
            (watch-SameCounts env item (get (discovered_key item) known) pass stamps report)
            λ watched (shared_same, ended_same, found_same).
              Completes-bind (λ _. Unit) _ _ (Completes-settle _)
                λ outcome _.
                  Completes-mono (OneMore watched)
                    (share_counted-OneMore env item pass outcome watched)
                    λ new (more, ended_too, found_too).
                      rw going (omega arith, omega arith, found_too ∙ found_same)

  pass_items-Accounts :
      (pass : PassContext T Url) (known : HashMap Key (SharedItem T))
      (stamps : HashMap Key FileStamp) (ends : HashMap Key ℤ) (items : List (Discovered T))
      (report : SyncReport)
      → Completes (Accounts ends items report) (pass_items env pass known stamps ends items report)
  unfolding pass_items
  pass_items-Accounts pass known stamps ends [] report =
      Completes-pure report (omega arith, omega arith, refl)
  pass_items-Accounts pass known stamps ends (item ∷ items) report =
      Completes-bind (Accounts ends (item ∷ []) report) _ _
        (pass_item-Accounts pass known stamps ends item report)
        λ next (a, b, c).
          Completes-mono (Accounts ends items next)
            (pass_items-Accounts pass known stamps ends items next)
            λ new (a', b', c').
              let shares = length-filter_cons (lasts ends) item items in
              let stops = length-filter_cons (ends_now ends) item items in
              (omega (arith, shares), omega (arith, stops), c' ∙ c)

  withdraw_all-Completes :
      (dry_run : Bool) (stale_items : List (Key × SharedItem T))
      → Completes (λ n. n ≤ length stale_items) (withdraw_all env dry_run stale_items)
  unfolding withdraw_all
  withdraw_all-Completes dry_run [] = Completes-pure 0 (omega arith)
  withdraw_all-Completes dry_run ((k, item) ∷ stale_items) =
      Completes-bind (λ n. n ≤ 1) _ _ (unshare_counted-le env dry_run item)
        λ n small.
          Completes-bind (λ m. m ≤ length stale_items) _ _
            (withdraw_all-Completes dry_run stale_items) λ more few. Completes-pure _ (omega arith)

-- What the report of a pass says of what it did.
pub record IsTallied {T : Types} (now : ℤ) (discovery : Discovery T) (ends : HashMap Key ℤ)
    (known : HashMap Key (SharedItem T)) (report : SyncReport) : Type 0 where
  pub all_found : report.discovered ≡ length discovery.items
  pub each_once :
      shared_count report
      ≡ length (
          filter
            (λ (item : Discovered T). not (has_ended now (get (discovered_key item) ends)))
            discovery.items)
  pub some_ended :
      report.ended
      ≤ length (
          filter
            (λ (item : Discovered T). has_ended now (get (discovered_key item) ends))
            discovery.items)
  pub some_withdrawn :
      report.unshared
      ≤ length
          (filter (is_withdrawn (map discovered_key discovery.items) discovery.withdrawable) known)

-- Once the tables are read, a pass always completes, whatever the client, the disk and the database
-- refuse. In its report, each discovered item whose share has not ended is counted exactly once, as
-- added, reused, unchanged or failed; the shares ended are at most the items whose date passed, and
-- those withdrawn at most the known items that are stale.
pub reconcile_known-IsTallied :
    {T : Types} {Url : Type 0} ⦃e : PartialEq Url⦄ (env : Env T Url) (pass : PassContext T Url)
    (discovery : Discovery T) (known : HashMap Key (SharedItem T)) (stamps : HashMap Key FileStamp)
    (ends : HashMap Key ℤ) (w : World T Url)
    → (report : SyncReport) × ((reconcile_known env pass discovery known stamps ends w).0
        ≡ ok report)
      × IsTallied env.now_epoch discovery ends known report
unfolding reconcile_known withdraw_untagged
reconcile_known-IsTallied env pass discovery known stamps ends w =
    (Completes-bind (Accounts env ends discovery.items (start_report discovery)) _ _
        (pass_items-Accounts env pass known stamps ends discovery.items (start_report discovery))
        λ report (a, b, c).
          Completes-bind
            (λ n.
              n
              ≤ length (
                  filter (is_withdrawn (map discovered_key discovery.items) discovery.withdrawable)
                    known))
            _ _ (withdraw_all-Completes env pass.dry_run _)
            λ n few. Completes-pure _ (record {
              all_found = c;
              each_once = omega (arith, a);
              some_ended = omega (arith, b);
              some_withdrawn = few;
            })).at
      w
