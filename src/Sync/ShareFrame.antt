-- ===== src/Sync/ShareFrame.antt =====
-- Sharing and unsharing an item, within a frame.
use sharerr_rs.Prelude.{
  Bytes, List, Option, Option-cases, PartialEq, Result, err, inl, inr, none, ok, refl, some, subst,
  sym, true, ◌≡◌, ◌⊎◌,
}
use sharerr_rs.Announce.Query.{hash}
use sharerr_rs.Announce.Swarms.{live}
use sharerr_rs.Endpoint.State.{new}
use sharerr_rs.Paths.Resolver.{ResolvedPaths}
use sharerr_rs.Sync.Frame.{
  Frame, ask_client-Keeps, set_item_origin-Keeps, set_state-Keeps, update_item-Keeps, upsert-Keeps,
}
use sharerr_rs.Sync.Item.{
  Discovered, Failure, Key, SharedItem, Types, discovered_key, into_shared_item, item_key, unshared,
}
use sharerr_rs.Sync.JoinFrame.{seed-Keeps}
use sharerr_rs.Sync.Keeps.{
  Keeps, Keeps-bind, Keeps-if, Keeps-lift, Keeps-pure, Keeps-settle, keeps_rules,
}
use sharerr_rs.Sync.Live.{PassContext, live_item, resolved}
use sharerr_rs.Sync.Pass.{
  prepare_rebuild, probed, remove_own, share, share_file, share_new, share_resolved, unshare_one,
}
use sharerr_rs.Sync.PassFrame.{confirm_live-Keeps, record_seeding-Keeps}
use sharerr_rs.Sync.Report.{step_unchanged}
use sharerr_rs.Sync.Store.{reset_for_rebuild}
use sharerr_rs.Sync.World.{
  AddRequest, ClientCall, Env, SeedingLimits, TorrentSummary, World, added, limits_applied, removed,
  trackers_added, trackers_set,
}

pub result_cases :
    {A : Type 0} (r : Result Failure A)
    → ((a : A) × (r ≡ ok a)) ⊎ ((failure : Failure) × (r ≡ err failure))
result_cases (ok a) = inl (a, refl)
result_cases (err failure) = inr (failure, refl)

module _ {T : Types} {Url : Type 0} ⦃e : PartialEq Url⦄ {May : ClientCall T Url → Type 0}
    {Mine : Key → Type 0} {P : World T Url → Type 0} (env : Env T Url)
    (frame : Frame May Mine P) where
  remove_own-Keeps :
      (item : SharedItem T)
      → ((hash : Bytes)
          → item.info_hash ≡ some hash
          → item.created_by_sharerr ≡ true
          → May (removed hash))
      → Keeps P (remove_own env item)
  unfolding remove_own
  remove_own-Keeps item may = elim (Option-cases item.info_hash) [
    | inl no_hash ↦ rw (remove_own, no_hash) (Keeps-pure tt)
    | inr (hash, there) ↦
        rw (remove_own, there)
          (Keeps-if item.created_by_sharerr _ _
            (λ own.
              Keeps-bind _ _
                (Keeps-settle _ (ask_client-Keeps env frame (removed hash) (may hash there own)))
                λ _. Keeps-pure tt)
            (λ other. Keeps-pure tt))
  ]

  pub unshare_one-Keeps :
      (item : SharedItem T)
      → ((hash : Bytes)
          → item.info_hash ≡ some hash
          → item.created_by_sharerr ≡ true
          → May (removed hash))
      → Mine (item_key item)
      → Keeps P (unshare_one env item)
  unfolding unshare_one
  unshare_one-Keeps item may mine =
      Keeps-bind _ _ (remove_own-Keeps item may)
        λ _. set_state-Keeps env frame (item_key item) unshared none mine

  pub prepare_rebuild-Keeps :
      (item : SharedItem T)
      → ((hash : Bytes)
          → item.info_hash ≡ some hash
          → item.created_by_sharerr ≡ true
          → May (removed hash))
      → Mine (item_key item)
      → Keeps P (prepare_rebuild env item)
  unfolding prepare_rebuild reset_for_rebuild
  prepare_rebuild-Keeps item may mine = Keeps-bind _ _ (remove_own-Keeps item may) λ _.
      Keeps-bind _ _ (update_item-Keeps env frame (item_key item) _ mine)
        λ _. set_item_origin-Keeps env frame (item_key item) none mine

  module _ (adding : (r : AddRequest T) → May (added r))
      (trackers : (hash : Bytes) (urls : List Url) → May (trackers_added hash urls)) where
    share_file-Keeps :
        (item : Discovered T) (pass : PassContext T Url) (known : Option (SharedItem T))
        (paths : ResolvedPaths)
        → Mine (discovered_key item)
        → Keeps P (share_file env item pass known paths)
    unfolding share_file
    share_file-Keeps item pass known paths mine =
        Keeps-bind _ _
          (seed-Keeps env frame trackers paths pass.announces pass.torrents _ _ _ adding)
          λ outcome. record_seeding-Keeps env frame (discovered_key item) _ _ outcome mine

    share_resolved-Keeps :
        (item : Discovered T) (pass : PassContext T Url) (known : Option (SharedItem T))
        (paths : ResolvedPaths)
        → Mine (discovered_key item)
        → Keeps P (share_resolved env item pass known paths)
    unfolding share_resolved
    share_resolved-Keeps item pass known paths mine = search (keeps_rules, share_file-Keeps)

    share_new-Keeps :
        (item : Discovered T) (pass : PassContext T Url) (known : Option (SharedItem T))
        → Mine (discovered_key item)
        → Keeps P (share_new env item pass known)
    unfolding share_new into_shared_item
    share_new-Keeps item pass known mine =
        Keeps-bind _ _
          (Keeps-if pass.dry_run _ _ (λ dry. Keeps-pure tt) λ wet. upsert-Keeps env frame _ mine)
          λ _.
            Keeps-bind _ _ (Keeps-lift _) λ paths. share_resolved-Keeps item pass known paths mine

    -- A probe changes no key.
    probed-key : (item : Discovered T) → discovered_key (probed env item) ≡ discovered_key item
    unfolding probed
    probed-key item = elim (Option-cases item.media) [
      | inr (media, there) ↦ rw (probed, there) refl
      | inl unknown ↦ elim (result_cases (resolved env item.source item.arr_path)) [
        | inl (paths, resolves) ↦ rw (probed, unknown, resolves) refl
        | inr (failure, refuses) ↦ rw (probed, unknown, refuses) refl
      ]
    ]

    pub share-Keeps :
        (item : Discovered T) (pass : PassContext T Url) (known : Option (SharedItem T))
        → Mine (discovered_key item)
        → ((seen : SharedItem T) (hash : Bytes) (reported : TorrentSummary T)
            → live_item pass.live known ≡ some (seen, hash, reported)
            → seen.created_by_sharerr ≡ true
            → (limits : SeedingLimits T) → May (limits_applied hash limits))
        → ((hash : Bytes) (urls : List Url) → May (trackers_set hash urls))
        → Keeps P (share env item pass known)
    unfolding share
    share-Keeps item pass known mine limits setting =
        elim (Option-cases (live_item pass.live known)) [
          | inl new ↦
              rw (share, new)
                (share_new-Keeps (probed env item) pass known
                  (subst Mine (sym (probed-key item)) mine))
          | inr ((seen, hash, reported), live) ↦
              rw (share, live)
                (Keeps-bind _ _
                  (Keeps-if pass.dry_run _ _ (λ dry. Keeps-pure tt)
                    λ wet.
                      confirm_live-Keeps env frame item seen hash reported pass mine
                        (limits seen hash reported live) (setting hash))
                  λ _. Keeps-pure step_unchanged)
        ]
