-- ===== src/Sync/Cached.antt =====
-- crates/sharerr/src/sync/seed.rs: the search for a torrent that covers a file, and what is done
-- with the `.torrent` that is cached or exported for it.
use mathlib.Core.Option
use sharerr_rs.Torrent.Fields
use sharerr_rs.Prelude.{
  Bool, Bytes, List, Option, PartialEq, Result, [], and_then, codes, err, false, filter,
  if◌then◌else◌, length, list_eq, ltb, map, nat_eq, none, not, ok, some, ℕ, ◌&&◌, ◌++◌, ◌==◌, ◌||◌,
  ◌∷◌,
}
use sharerr_rs.Announce.Query.{hash}
use sharerr_rs.Announce.WireValue.{answer}
use sharerr_rs.Endpoint.AnnounceList.{AnnounceSet, tiers}
use sharerr_rs.Gossip.Tally.{total}
use sharerr_rs.Lighthouse.Hex.{eq_ignore_ascii_case}
use sharerr_rs.Paths.Resolver.{FilePath, component_eq, join, named, root_dir, strip_prefix}
use sharerr_rs.Prelude.HashMap.{is_some}
use sharerr_rs.Prelude.Utf8.{is_utf8}
use sharerr_rs.Sync.Exec.{gets, lift, pure, raise, ◌>>=◌, ◌>>◌}
use sharerr_rs.Sync.Item.{
  Failure, Types, cannot_export, client_failed, int_eq, key_eq, not_that_torrent, source_eq,
  unparsed,
}
use sharerr_rs.Sync.Store.{ask_client, or_failure, read_cached, write_torrent_file}
use sharerr_rs.Sync.World.{Env, Sync, TorrentSummary, trackers_added}
use sharerr_rs.Torrent.Factory.{saturating_sum}
use sharerr_rs.Torrent.Fields.{announce_tiers, bind_option, info_hash, name}
use sharerr_rs.Torrent.Metainfo.{MetainfoError, Torrent, encode_torrent, read_from_bytes}
use sharerr_rs.Torrent.Rewrite.{Retargeted, retarget_announce, unchanged, updated_to}
use sharerr_rs.Torrent.Stream.{is_nil}

unfoldable pub parent : FilePath → Option FilePath
parent [] = none
parent (root_dir ∷ []) = none
parent (named b ∷ []) = some []
parent (c ∷ d ∷ path) = Option.map (λ rest. c ∷ rest) (parent (d ∷ path))

-- `Path::file_name`, as a text
unfoldable pub file_name_of : FilePath → Option Bytes
unfolding is_utf8
file_name_of [] = none
file_name_of (root_dir ∷ []) = none
file_name_of (named b ∷ []) = if b == codes ".." || not (is_utf8 b) then none else some b
file_name_of (c ∷ d ∷ path) = file_name_of (d ∷ path)

unfoldable pub starts_with : FilePath → FilePath → Bool
unfolding strip_prefix
starts_with path prefix = is_some (strip_prefix path prefix)

unfoldable pub contains_file : FilePath → List FilePath → FilePath → Bool
unfolding join
contains_file save_path [] target = false
contains_file save_path (file ∷ files) target =
    join save_path file == target || contains_file save_path files target

module _ {T : Types} where
  unfoldable pub matches_content_path : TorrentSummary T → FilePath → Bool
  matches_content_path torrent target = torrent.content_path == target

  unfoldable pub could_contain : TorrentSummary T → FilePath → Bool
  unfolding starts_with
  could_contain torrent target =
      not (is_nil torrent.save_path) && starts_with target torrent.save_path

  -- The first pass of `find_existing`.
  unfoldable pub find_direct : List (TorrentSummary T) → FilePath → Option Bytes
  unfolding matches_content_path
  find_direct [] target = none
  find_direct (torrent ∷ torrents) target =
      let rest = find_direct torrents target in
      if matches_content_path torrent target then some torrent.hash else rest

module _ {T : Types} {Url : Type 0} (env : Env T Url) where
  unfoldable pub lists_file : T.Client → TorrentSummary T → FilePath → Bool
  unfolding contains_file
  lists_file state torrent target = elim (env.qbit.files state torrent.hash) [
    | none ↦ false
    | some files ↦ contains_file torrent.save_path files target
  ]

  -- Its second pass.
  unfoldable pub find_listed : T.Client → List (TorrentSummary T) → FilePath → Option Bytes
  unfolding could_contain lists_file
  find_listed state [] target = none
  find_listed state (torrent ∷ torrents) target =
      let rest = find_listed state torrents target in
      if could_contain torrent target && lists_file state torrent target
      then some torrent.hash
      else rest

  unfoldable pub find_existing : List (TorrentSummary T) → FilePath → Sync T Url (Option Bytes)
  unfolding find_direct find_listed
  find_existing torrents target = gets λ w. elim (find_direct torrents target) [
    | some hash ↦ some hash
    | none ↦ find_listed w.client torrents target
  ]

abbrev pub or_unparsed : {A : Type 0} → Result MetainfoError A → Result Failure A
or_unparsed (ok a) = ok a
or_unparsed (err e) = err (unparsed e)

abbrev pub torrent_of : Retargeted → Torrent
torrent_of (unchanged t) = t
torrent_of (updated_to previous t rewritten) = t

-- `contains` of a list of urls
abbrev pub member_of : Bytes → List Bytes → Bool
member_of url [] = false
member_of url (u ∷ urls) = url == u || member_of url urls

abbrev pub concat_tiers : List (List Bytes) → List Bytes
concat_tiers [] = []
concat_tiers (tier ∷ tiers) = tier ++ concat_tiers tiers

abbrev pub all_tiers : Torrent → List Bytes
all_tiers t = concat_tiers (Fields.announce_tiers t)

module _ {T : Types} {Url : Type 0} ⦃e : PartialEq Url⦄ (env : Env T Url) where
  unfoldable pub foreign_tiers : Torrent → AnnounceSet Url → List Bytes
  unfolding Fields.announce_tiers
  foreign_tiers t set =
      filter (λ url. not (member_of url (map env.as_str (tiers set)))) (all_tiers t)

  -- The client's own copy: our tiers, then the others, each alone.
  unfoldable pub with_upstream : Bytes → AnnounceSet Url → List Bytes → Result Failure Bytes
  unfolding read_from_bytes encode_torrent
  with_upstream torrent set upstream = and_then (or_unparsed (read_from_bytes torrent)) λ t.
      let listed = map (λ url. env.as_str url ∷ []) (tiers set) ++ map (λ url. url ∷ []) upstream in
      ok (
        encode_torrent (record t {
          announce = some (env.as_str set.primary);
          announce_list = if ltb 1 (length listed) then some listed else none;
        }))

  unfoldable pub retarget : Bytes → AnnounceSet Url → Result Failure Retargeted
  unfolding retarget_announce
  retarget torrent set = or_unparsed (retarget_announce env.as_str env.parse_url torrent set)

  abbrev pub hash_of : Torrent → Bytes
  hash_of t = Fields.info_hash env.sha1 env.sha256 env.hex_encode t

  -- The end of `adopt`: what is filed under a hash has that hash.
  unfoldable pub file_adopted : Bytes → Bytes → Bytes → List Bytes → Sync T Url (List Bytes)
  unfolding write_torrent_file eq_ignore_ascii_case
  file_adopted hash actual torrent upstream =
      if eq_ignore_ascii_case actual hash
      then (do write_torrent_file env hash torrent; pure upstream)
      else raise (not_that_torrent actual)

  unfoldable pub adopt_cached : Bytes → Retargeted → Sync T Url (List Bytes)
  unfolding file_adopted Fields.info_hash
  adopt_cached hash (unchanged t) = pure []
  adopt_cached hash (updated_to previous t rewritten) = file_adopted hash (hash_of t) rewritten []

  abbrev pub upstream_of : Result MetainfoError Torrent → AnnounceSet Url → List Bytes
  upstream_of (ok t) set = foreign_tiers t set
  upstream_of (err e) set = []

  unfoldable pub adopt_exported : Bytes → Bytes → List Bytes → Retargeted → Sync T Url (List Bytes)
  unfolding file_adopted Fields.info_hash
  adopt_exported hash exported upstream (unchanged t) =
      file_adopted hash (hash_of t) exported upstream
  adopt_exported hash exported upstream (updated_to previous t rewritten) =
      file_adopted hash (hash_of t) rewritten upstream

  unfoldable pub adopt_export : Bytes → AnnounceSet Url → Sync T Url (List Bytes)
  unfolding retarget foreign_tiers adopt_exported read_from_bytes
  adopt_export hash set = do
    answer ← gets λ w. env.qbit.export w.client hash
    held ← or_failure env answer client_failed
    exported ← or_failure env held (cannot_export hash)
    outcome ← lift (retarget exported set)
    adopt_exported hash exported (upstream_of (read_from_bytes exported) set) outcome

  unfoldable pub adopt_bytes : Bytes → AnnounceSet Url → Option Bytes → Sync T Url (List Bytes)
  unfolding retarget adopt_cached adopt_export
  adopt_bytes hash set none = adopt_export hash set
  adopt_bytes hash set (some torrent) = do
    outcome ← lift (retarget torrent set)
    adopt_cached hash outcome

  unfoldable pub adopt : Bytes → AnnounceSet Url → Sync T Url (List Bytes)
  unfolding ask_client read_cached adopt_bytes
  adopt hash set = do
    ask_client env (trackers_added hash (tiers set))
    cached ← read_cached env hash
    adopt_bytes hash set cached

  -- The loop over a torrent's files.
  unfoldable pub sum_sizes : FilePath → List Bytes → ℕ → Option ℕ
  sum_sizes path [] total = some total
  sum_sizes path (name ∷ names) total =
      Fields.bind_option (env.disk.metadata (env.disk.beside path name))
        λ (is_file, size). sum_sizes path names (saturating_sum total size)

  unfoldable pub content_size : FilePath → List Bytes → Option ℕ
  unfolding sum_sizes
  content_size path [] = Option.map (λ (is_file, size). size) (env.disk.metadata path)
  content_size path (name ∷ names) = sum_sizes path (name ∷ names) 0
