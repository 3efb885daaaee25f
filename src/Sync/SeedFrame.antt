-- ===== src/Sync/SeedFrame.antt =====
-- `Seeder` within a frame: seeding writes no row, and asks the client to add trackers or a torrent.
use sharerr_rs.Prelude.{
  Bytes, List, Option, PartialEq, Result, err, list_eq, nat_eq, none, ok, some,
}
use sharerr_rs.Announce.Query.{hash}
use sharerr_rs.Endpoint.AnnounceList.{AnnounceSet, tiers}
use sharerr_rs.Paths.Resolver.{FilePath, component_eq}
use sharerr_rs.Sync.Cached.{
  adopt, adopt_bytes, adopt_cached, adopt_export, adopt_exported, file_adopted,
}
use sharerr_rs.Sync.Frame.{
  Frame, ask_client-Keeps, mark_confirmed-Keeps, or_failure-Keeps, read_cached-Keeps,
  write_torrent_file-Keeps,
}
use sharerr_rs.Sync.Item.{Failure, Key, Types, int_eq, key_eq, source_eq}
use sharerr_rs.Sync.Keeps.{Keeps, keeps_rules}
use sharerr_rs.Sync.Refresh.{
  recover_exported, refresh_announce, refresh_cached, refresh_outcome, refresh_unconfirmed,
  reuse_cached, reuse_outcome, reuse_parsed, reuse_read, seeder_recover_upstream,
}
use sharerr_rs.Sync.World.{ClientCall, Env, World, trackers_added, trackers_set}
use sharerr_rs.Torrent.Rewrite.{Retargeted, unchanged, updated_to}

module _ {T : Types} {Url : Type 0} ⦃e : PartialEq Url⦄ {May : ClientCall T Url → Type 0}
    {Mine : Key → Type 0} {P : World T Url → Type 0} (env : Env T Url)
    (frame : Frame May Mine P) where
  file_adopted-Keeps :
      (hash actual torrent : Bytes) (upstream : List Bytes)
      → Keeps P (file_adopted env hash actual torrent upstream)
  unfolding file_adopted
  file_adopted-Keeps hash actual torrent upstream = search (keeps_rules, write_torrent_file-Keeps)

  adopt_cached-Keeps :
      (hash : Bytes) (outcome : Retargeted) → Keeps P (adopt_cached env hash outcome)
  unfolding adopt_cached
  adopt_cached-Keeps hash (unchanged t) = search keeps_rules
  adopt_cached-Keeps hash (updated_to previous t rewritten) = search file_adopted-Keeps

  adopt_exported-Keeps :
      (hash exported : Bytes) (upstream : List Bytes) (outcome : Retargeted)
      → Keeps P (adopt_exported env hash exported upstream outcome)
  unfolding adopt_exported
  adopt_exported-Keeps hash exported upstream (unchanged t) = search file_adopted-Keeps
  adopt_exported-Keeps hash exported upstream (updated_to previous t rewritten) =
      search file_adopted-Keeps

  adopt_export-Keeps : (hash : Bytes) (set : AnnounceSet Url) → Keeps P (adopt_export env hash set)
  unfolding adopt_export
  adopt_export-Keeps hash set = search (keeps_rules, or_failure-Keeps, adopt_exported-Keeps)

  adopt_bytes-Keeps :
      (hash : Bytes) (set : AnnounceSet Url) (cached : Option Bytes)
      → Keeps P (adopt_bytes env hash set cached)
  unfolding adopt_bytes
  adopt_bytes-Keeps hash set none = search adopt_export-Keeps
  adopt_bytes-Keeps hash set (some torrent) = search (keeps_rules, adopt_cached-Keeps)

  pub adopt-Keeps :
      (hash : Bytes) (set : AnnounceSet Url)
      → May (trackers_added hash (tiers set))
      → Keeps P (adopt env hash set)
  unfolding adopt
  adopt-Keeps hash set may =
      search (keeps_rules, ask_client-Keeps, read_cached-Keeps, adopt_bytes-Keeps)

  refresh_outcome-Keeps :
      (hash : Bytes) (set : AnnounceSet Url) (upstream : List Bytes) (outcome : Retargeted)
      → ((urls : List Url) → May (trackers_set hash urls))
      → Keeps P (refresh_outcome env hash set upstream outcome)
  unfolding refresh_outcome
  refresh_outcome-Keeps hash set upstream (unchanged t) may =
      search (keeps_rules, mark_confirmed-Keeps)
  refresh_outcome-Keeps hash set upstream (updated_to previous t rewritten) may =
      search (keeps_rules, ask_client-Keeps, write_torrent_file-Keeps, mark_confirmed-Keeps)

  refresh_cached-Keeps :
      (hash : Bytes) (set : AnnounceSet Url) (upstream : List Bytes) (cached : Option Bytes)
      → ((urls : List Url) → May (trackers_set hash urls))
      → Keeps P (refresh_cached env hash set upstream cached)
  unfolding refresh_cached
  refresh_cached-Keeps hash set upstream none may = search keeps_rules
  refresh_cached-Keeps hash set upstream (some torrent) may =
      search (keeps_rules, refresh_outcome-Keeps)

  pub refresh_announce-Keeps :
      (hash : Bytes) (set : AnnounceSet Url) (upstream : List Bytes)
      → ((urls : List Url) → May (trackers_set hash urls))
      → Keeps P (refresh_announce env hash set upstream)
  unfolding refresh_announce refresh_unconfirmed
  refresh_announce-Keeps hash set upstream may =
      search (keeps_rules, read_cached-Keeps, refresh_cached-Keeps)

  recover_exported-Keeps :
      (hash : Bytes) (set : AnnounceSet Url) (exported : Option Bytes)
      → Keeps P (recover_exported env hash set exported)
  unfolding recover_exported
  recover_exported-Keeps hash set none = search keeps_rules
  recover_exported-Keeps hash set (some exported) = search (keeps_rules, read_cached-Keeps)

  pub seeder_recover_upstream-Keeps :
      (hash : Bytes) (set : AnnounceSet Url) → Keeps P (seeder_recover_upstream env hash set)
  unfolding seeder_recover_upstream
  seeder_recover_upstream-Keeps hash set =
      search (keeps_rules, or_failure-Keeps, recover_exported-Keeps)

  reuse_outcome-Keeps :
      (hash torrent : Bytes) (outcome : Retargeted)
      → Keeps P (reuse_outcome env hash torrent outcome)
  unfolding reuse_outcome
  reuse_outcome-Keeps hash torrent (unchanged t) = search keeps_rules
  reuse_outcome-Keeps hash torrent (updated_to previous t rewritten) =
      search (keeps_rules, write_torrent_file-Keeps)

  reuse_parsed-Keeps :
      (hash torrent : Bytes) (path : FilePath) (outcome : Result Failure Retargeted)
      → Keeps P (reuse_parsed env hash torrent path outcome)
  unfolding reuse_parsed
  reuse_parsed-Keeps hash torrent path (err failure) = search keeps_rules
  reuse_parsed-Keeps hash torrent path (ok outcome) = search (keeps_rules, reuse_outcome-Keeps)

  reuse_read-Keeps :
      (hash : Bytes) (set : AnnounceSet Url) (path : FilePath)
      (cached : Result Failure (Option Bytes))
      → Keeps P (reuse_read env hash set path cached)
  unfolding reuse_read
  reuse_read-Keeps hash set path (err failure) = search keeps_rules
  reuse_read-Keeps hash set path (ok none) = search keeps_rules
  reuse_read-Keeps hash set path (ok (some torrent)) = search reuse_parsed-Keeps

  pub reuse_cached-Keeps :
      (known : Option Bytes) (set : AnnounceSet Url) (path : FilePath)
      → Keeps P (reuse_cached env known set path)
  unfolding reuse_cached
  reuse_cached-Keeps none set path = search keeps_rules
  reuse_cached-Keeps (some hash) set path =
      search (keeps_rules, read_cached-Keeps, reuse_read-Keeps)
