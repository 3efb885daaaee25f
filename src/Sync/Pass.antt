-- ===== src/Sync/Pass.antt =====
-- crates/sharerr/src/sync/mod.rs: what the pass does with one item.
use mathlib.Core.Option
use sharerr_rs.Torrent.Fields
use sharerr_rs.Prelude.{
  Bytes, List, Option, PartialEq, [], err, if◌then◌else◌, list_eq, nat_eq, none, not, ok, some,
}
use sharerr_rs.Announce.Query.{hash}
use sharerr_rs.Paths.Resolver.{ResolvedPaths, component_eq, resolve_for, unwrap_or}
use sharerr_rs.Prelude.HashMap.{get, is_some}
use sharerr_rs.Prelude.Int.{ℤ}
use sharerr_rs.Sync.Exec.{lift, pure, raise, settle, ◌>>=◌, ◌>>◌}
use sharerr_rs.Sync.Item.{
  CatalogEntry, Discovered, FileStamp, ItemOrigin, Key, SharedItem, Types, discovered_key,
  does_not_exist, int_eq, into_shared_item, item_key, key_eq, source_eq, unshared,
}
use sharerr_rs.Sync.Live.{PassContext, confirm_live, live_item, resolved}
use sharerr_rs.Sync.Report.{Step, step_added, step_reused, step_unchanged}
use sharerr_rs.Sync.Seed.{
  AddedTorrent, FriendTorrents, SeedOutcome, outcome_hash, seed, seed_added, seed_joined,
  seed_reused,
}
use sharerr_rs.Sync.Store.{
  ask_client, reset_for_rebuild, set_file_stamp, set_info_hash_v2, set_item_origin, set_seeding,
  set_state, upsert,
}
use sharerr_rs.Sync.World.{Env, Sync, removed}
use sharerr_rs.Torrent.Fields.{bind_option, info_hash, info_hash_v2}

abbrev pub step_of : SeedOutcome → Step
step_of (seed_added hash made) = step_added
step_of (seed_reused hash upstream) = step_reused
step_of (seed_joined hash origin made) = step_reused

-- What sharerr handed to the client itself.
abbrev pub made_of : SeedOutcome → Option AddedTorrent
made_of (seed_added hash made) = some made
made_of (seed_reused hash upstream) = none
made_of (seed_joined hash origin made) = made

abbrev pub origin_of : SeedOutcome → Option ItemOrigin
origin_of (seed_added hash made) = none
origin_of (seed_reused hash upstream) = some (record { peer_id = none; upstream = upstream })
origin_of (seed_joined hash origin made) = some origin

module _ {T : Types} {Url : Type 0} ⦃e : PartialEq Url⦄ (env : Env T Url) where
  -- The item, with what its file says of itself when the source did not.
  unfoldable pub probed : Discovered T → Discovered T
  unfolding resolve_for
  probed item = elim item.media [
    | some media ↦ item
    | none ↦ elim (resolved env item.source item.arr_path) [
      | err e ↦ item
      | ok paths ↦ record item { media = env.probe paths.sharerr }
    ]
  ]

  unfoldable pub write_v2_hash : Key → Option Bytes → Sync T Url Unit
  unfolding set_info_hash_v2
  write_v2_hash k none = pure tt
  write_v2_hash k (some v2) = set_info_hash_v2 env k v2

  -- The end of `share`: the row of what is now seeding.
  unfoldable pub record_seeding :
      Key → Option Bytes → Option FileStamp → SeedOutcome → Sync T Url Step
  unfolding set_seeding write_v2_hash set_item_origin set_file_stamp
  record_seeding k token_fp stamp outcome = do
    let made = made_of outcome
    set_seeding env k (outcome_hash outcome) token_fp (is_some made)
        (Option.map (λ m. m.private_flag) made)
    write_v2_hash k (Fields.bind_option made (λ m. m.info_hash_v2))
    set_item_origin env k (origin_of outcome)
    settle (set_file_stamp env k (Fields.bind_option made (λ m. stamp)))
    pure (step_of outcome)

  abbrev matches_of : Discovered T → List (ℤ × CatalogEntry)
  matches_of item = unwrap_or (env.catalog_matches item.spec item.ids item.size) []

  unfoldable pub share_file :
      Discovered T → PassContext T Url → Option (SharedItem T) → ResolvedPaths → Sync T Url Step
  unfolding seed record_seeding
  share_file item pass known paths = do
    let stamp = env.stamp_of paths.sharerr
    let friends : FriendTorrents = record {
      matches = matches_of item;
      joined = get (discovered_key item) pass.origins;
    }
    outcome ←
        seed env paths pass.announces pass.torrents (Fields.bind_option known (λ k. k.info_hash))
          item.media friends
    record_seeding (discovered_key item) pass.token_fp stamp outcome

  unfoldable pub share_resolved :
      Discovered T → PassContext T Url → Option (SharedItem T) → ResolvedPaths → Sync T Url Step
  unfolding share_file
  share_resolved item pass known paths =
      if not (is_some (env.disk.metadata paths.sharerr))
      then raise (does_not_exist paths.sharerr)
      else if pass.dry_run
      then pure step_added
      else share_file item pass known paths

  -- The row stands before anything can fail.
  unfoldable pub share_new :
      Discovered T → PassContext T Url → Option (SharedItem T) → Sync T Url Step
  unfolding into_shared_item upsert share_resolved resolve_for
  share_new item pass known = do
    let record_item = upsert env (into_shared_item item (env.release_title item))
    if pass.dry_run then pure tt else record_item
    paths ← lift (resolved env item.source item.arr_path)
    share_resolved item pass known paths

  unfoldable pub share : Discovered T → PassContext T Url → Option (SharedItem T) → Sync T Url Step
  unfolding confirm_live probed share_new
  share item pass known = elim (live_item pass.live known) [
    | some (seen, hash, reported) ↦ do
      (if pass.dry_run then pure tt else confirm_live env item seen hash reported pass)
      pure step_unchanged
    | none ↦ share_new (probed item) pass known
  ]

  unfoldable pub remove_own : SharedItem T → Sync T Url Unit
  unfolding ask_client
  remove_own item = elim item.info_hash [
    | none ↦ pure tt
    | some hash ↦
        if item.created_by_sharerr
        then (do settle (ask_client env (removed hash)); pure tt)
        else pure tt
  ]

  unfoldable pub unshare_one : SharedItem T → Sync T Url Unit
  unfolding remove_own set_state
  unshare_one item = do remove_own item; set_state env (item_key item) unshared none

  unfoldable pub prepare_rebuild : SharedItem T → Sync T Url Unit
  unfolding remove_own reset_for_rebuild
  prepare_rebuild item = do remove_own item; reset_for_rebuild env (item_key item)
