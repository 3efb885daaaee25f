-- ===== src/Sync/Refresh.antt =====
-- crates/sharerr/src/sync/seed.rs: bringing the announce URLs of a torrent up to date, and using a
-- cached `.torrent` again.
use sharerr_rs.Torrent.Fields
use sharerr_rs.Prelude.{
  Bool, Bytes, List, Option, PartialEq, Result, [], err, false, filter, if◌then◌else◌, list_eq,
  nat_eq, none, not, ok, some, true, ℕ, ◌++◌, ◌==◌, ◌∷◌,
}
use sharerr_rs.Announce.Query.{hash}
use sharerr_rs.Announce.WireValue.{answer}
use sharerr_rs.Endpoint.AnnounceList.{AnnounceSet, tiers}
use sharerr_rs.Paths.Resolver.{FilePath, component_eq}
use sharerr_rs.Prelude.HashMap.{get, insert}
use sharerr_rs.Sync.Cached.{
  all_tiers, content_size, foreign_tiers, member_of, or_unparsed, retarget, torrent_of,
}
use sharerr_rs.Sync.Exec.{gets, lift, modify, pure, settle, ◌>>=◌, ◌>>◌}
use sharerr_rs.Sync.Item.{Failure, Types, client_failed, int_eq, key_eq, source_eq}
use sharerr_rs.Sync.Store.{ask_client, or_failure, read_cached, write_torrent_file}
use sharerr_rs.Sync.World.{Env, Sync, World, trackers_set}
use sharerr_rs.Torrent.Fields.{announce_tiers, content_length, file_paths}
use sharerr_rs.Torrent.Metainfo.{MetainfoError, Torrent, read_from_bytes}
use sharerr_rs.Torrent.Rewrite.{Retargeted, unchanged, updated_to}

pub data AnnounceRefresh : Type 0 where
  refresh_current refresh_updated no_cached_torrent : AnnounceRefresh

module _ {T : Types} {Url : Type 0} where
  unfoldable pub confirm_set : Bytes → AnnounceSet Url → World T Url → World T Url
  confirm_set hash set w = record w { confirmed = insert hash set w.confirmed }

module _ {Url : Type 0} ⦃e : PartialEq Url⦄ where
  abbrev pub same_set : AnnounceSet Url → Option (AnnounceSet Url) → Bool
  same_set set none = false
  same_set set (some confirmed) = tiers confirmed == tiers set

module _ {T : Types} {Url : Type 0} ⦃e : PartialEq Url⦄ where
  -- `is_confirmed` and `mark_confirmed`, of a lock that is never poisoned here.
  unfoldable pub is_confirmed : Bytes → AnnounceSet Url → World T Url → Bool
  is_confirmed hash set w = same_set set (get hash w.confirmed)

module _ {T : Types} {Url : Type 0} ⦃e : PartialEq Url⦄ (env : Env T Url) where
  unfoldable pub mark_confirmed : Bytes → AnnounceSet Url → Sync T Url Unit
  unfolding confirm_set
  mark_confirmed hash set = modify (confirm_set hash set)

  -- `filter_map` of the parsing
  abbrev pub parsed_urls : List Bytes → List Url
  parsed_urls [] = []
  parsed_urls (url ∷ urls) =
      let rest = parsed_urls urls in elim (env.parse_url url) [ none ↦ rest | some u ↦ u ∷ rest ]

  -- The client is told before the cache is written.
  unfoldable pub refresh_outcome :
      Bytes → AnnounceSet Url → List Bytes → Retargeted → Sync T Url AnnounceRefresh
  unfolding mark_confirmed ask_client write_torrent_file
  refresh_outcome hash set upstream (unchanged t) = do mark_confirmed hash set; pure refresh_current
  refresh_outcome hash set upstream (updated_to previous t rewritten) = do
    ask_client env (trackers_set hash (tiers set ++ parsed_urls upstream))
    write_torrent_file env hash rewritten
    mark_confirmed hash set
    pure refresh_updated

  unfoldable pub refresh_cached :
      Bytes → AnnounceSet Url → List Bytes → Option Bytes → Sync T Url AnnounceRefresh
  unfolding retarget refresh_outcome
  refresh_cached hash set upstream none = pure no_cached_torrent
  refresh_cached hash set upstream (some torrent) = do
    outcome ← lift (retarget env torrent set)
    refresh_outcome hash set upstream outcome

  unfoldable pub refresh_unconfirmed :
      Bytes → AnnounceSet Url → List Bytes → Sync T Url AnnounceRefresh
  unfolding read_cached refresh_cached
  refresh_unconfirmed hash set upstream = do
    cached ← read_cached env hash
    refresh_cached hash set upstream cached

  unfoldable pub refresh_announce :
      Bytes → AnnounceSet Url → List Bytes → Sync T Url AnnounceRefresh
  unfolding is_confirmed refresh_unconfirmed
  refresh_announce hash set upstream = do
    confirmed ← gets (is_confirmed hash set)
    if confirmed then pure refresh_current else refresh_unconfirmed hash set upstream

  abbrev tiers_or_none : Result MetainfoError Torrent → List Bytes
  tiers_or_none (ok t) = all_tiers t
  tiers_or_none (err e) = []

  abbrev cached_tiers : Option Bytes → List Bytes
  cached_tiers none = []
  cached_tiers (some torrent) = tiers_or_none (read_from_bytes torrent)

  unfoldable pub recover_exported :
      Bytes → AnnounceSet Url → Option Bytes → Sync T Url (Option (List Bytes))
  unfolding read_from_bytes read_cached foreign_tiers Fields.announce_tiers
  recover_exported hash set none = pure none
  recover_exported hash set (some exported) = do
    t ← lift (or_unparsed (read_from_bytes exported))
    cached ← read_cached env hash
    pure
        (some (filter (λ url. not (member_of url (cached_tiers cached))) (foreign_tiers env t set)))

  -- `Seeder::recover_upstream`
  unfoldable pub seeder_recover_upstream :
      Bytes → AnnounceSet Url → Sync T Url (Option (List Bytes))
  unfolding recover_exported
  seeder_recover_upstream hash set = do
    answer ← gets λ w. env.qbit.export w.client hash
    exported ← or_failure env answer client_failed
    recover_exported hash set exported

  abbrev other_size : Option ℕ → ℕ → Bool
  other_size none cached_length = true
  other_size (some on_disk) cached_length = not (on_disk == cached_length)

  unfoldable pub cached_size_is_stale : FilePath → List Bytes → ℕ → Bool
  unfolding content_size
  cached_size_is_stale path files cached_length =
      other_size (content_size env path files) cached_length

  -- A write that fails leaves the file as it was, and the rewritten torrent is used all the same.
  unfoldable pub reuse_outcome : Bytes → Bytes → Retargeted → Sync T Url (Option (Bytes × Bytes))
  unfolding write_torrent_file
  reuse_outcome hash torrent (unchanged t) = pure (some (hash, torrent))
  reuse_outcome hash torrent (updated_to previous t rewritten) = do
    settle (write_torrent_file env hash rewritten)
    pure (some (hash, rewritten))

  unfoldable pub reuse_parsed :
      Bytes → Bytes → FilePath → Result Failure Retargeted → Sync T Url (Option (Bytes × Bytes))
  unfolding cached_size_is_stale reuse_outcome Fields.file_paths Fields.content_length
  reuse_parsed hash torrent path (err e) = pure none
  reuse_parsed hash torrent path (ok outcome) =
      let t = torrent_of outcome in
      if cached_size_is_stale path (Fields.file_paths t) (Fields.content_length t)
      then pure none
      else reuse_outcome hash torrent outcome

  unfoldable pub reuse_read :
      Bytes
      → AnnounceSet Url
      → FilePath
      → Result Failure (Option Bytes)
      → Sync T Url (Option (Bytes × Bytes))
  unfolding retarget reuse_parsed
  reuse_read hash set path (err e) = pure none
  reuse_read hash set path (ok none) = pure none
  reuse_read hash set path (ok (some torrent)) =
      reuse_parsed hash torrent path (retarget env torrent set)

  unfoldable pub reuse_cached :
      Option Bytes → AnnounceSet Url → FilePath → Sync T Url (Option (Bytes × Bytes))
  unfolding read_cached reuse_read
  reuse_cached none set path = pure none
  reuse_cached (some hash) set path = do
    cached ← settle (read_cached env hash)
    reuse_read hash set path cached
