-- ===== src/Sync/JoinFrame.antt =====
-- The rest of `Seeder` within a frame: friends' torrents, building, and `seed`.
use sharerr_rs.Prelude.{
  Bytes, List, Option, Option-cases, PartialEq, [], err, inl, inr, list_eq, nat_eq, none, ok, some,
  ◌∷◌,
}
use sharerr_rs.Announce.Query.{hash}
use sharerr_rs.Endpoint.AnnounceList.{AnnounceSet, tiers}
use sharerr_rs.Paths.Resolver.{FilePath, ResolvedPaths, component_eq}
use sharerr_rs.Prelude.Int.{ℤ}
use sharerr_rs.Sync.Cached.{find_existing}
use sharerr_rs.Sync.Frame.{Frame, ask_client-Keeps, write_torrent_file-Keeps}
use sharerr_rs.Sync.Friends.{
  Handed, build_torrent, check_friends, fetch_from_friend, fetch_from_friends, keep_friends,
}
use sharerr_rs.Sync.Item.{CatalogEntry, ItemOrigin, Key, Types, int_eq, key_eq, source_eq}
use sharerr_rs.Sync.Keeps.{Keeps, Keeps-bind, Keeps-gets, Keeps-pure, Keeps-settle, keeps_rules}
use sharerr_rs.Sync.Seed.{
  FriendTorrents, hand_over, join_or_build, obtain, seed, seed_found, seed_missing,
}
use sharerr_rs.Sync.SeedFrame.{adopt-Keeps, reuse_cached-Keeps}
use sharerr_rs.Sync.World.{
  AddRequest, ClientCall, Env, TorrentSummary, World, added, trackers_added,
}
use sharerr_rs.Torrent.Metainfo.{Torrent}

module _ {T : Types} {Url : Type 0} ⦃e : PartialEq Url⦄ {May : ClientCall T Url → Type 0}
    {Mine : Key → Type 0} {P : World T Url → Type 0} (env : Env T Url)
    (frame : Frame May Mine P) where
  keep_friends-Keeps :
      (set : AnnounceSet Url) (peer_id : ℤ) (torrent : Bytes) (t : Torrent) (hash : Bytes)
      → Keeps P (keep_friends env set peer_id torrent t hash)
  unfolding keep_friends
  keep_friends-Keeps set peer_id torrent t hash = search (keeps_rules, write_torrent_file-Keeps)

  check_friends-Keeps :
      (paths : ResolvedPaths) (set : AnnounceSet Url) (peer_id : ℤ) (torrent : Bytes) (t : Torrent)
      (hash : Bytes)
      → Keeps P (check_friends env paths set peer_id torrent t hash)
  unfolding check_friends
  check_friends-Keeps paths set peer_id torrent t hash = search (keeps_rules, keep_friends-Keeps)

  fetch_from_friend-Keeps :
      (paths : ResolvedPaths) (set : AnnounceSet Url) (peer_id : ℤ) (offer : CatalogEntry)
      → Keeps P (fetch_from_friend env paths set peer_id offer)
  unfolding fetch_from_friend
  fetch_from_friend-Keeps paths set peer_id offer = search (keeps_rules, check_friends-Keeps)

  fetch_from_friends-Keeps :
      (paths : ResolvedPaths) (set : AnnounceSet Url) (matches : List (ℤ × CatalogEntry))
      → Keeps P (fetch_from_friends env paths set matches)
  unfolding fetch_from_friends
  fetch_from_friends-Keeps paths set [] = search keeps_rules
  fetch_from_friends-Keeps paths set ((peer_id, offer) ∷ matches) =
      Keeps-bind _ _ (Keeps-settle _ (fetch_from_friend-Keeps paths set peer_id offer)) (elim [
        | (ok (some handed)) ↦ Keeps-pure _
        | (ok none) ↦ fetch_from_friends-Keeps paths set matches
        | (err failure) ↦ fetch_from_friends-Keeps paths set matches
      ])

  build_torrent-Keeps :
      (paths : ResolvedPaths) (set : AnnounceSet Url) (media : Option T.Media)
      → Keeps P (build_torrent env paths set media)
  unfolding build_torrent
  build_torrent-Keeps paths set media = search (keeps_rules, write_torrent_file-Keeps)

  hand_over-Keeps :
      (path : FilePath) (hash torrent : Bytes) (joined : Option ItemOrigin)
      → ((r : AddRequest T) → May (added r))
      → Keeps P (hand_over env path hash torrent joined)
  unfolding hand_over
  hand_over-Keeps path hash torrent joined may = search (keeps_rules, ask_client-Keeps)

  join_or_build-Keeps :
      (paths : ResolvedPaths) (set : AnnounceSet Url) (media : Option T.Media)
      (handed : Option Handed)
      → ((r : AddRequest T) → May (added r))
      → Keeps P (join_or_build env paths set media handed)
  unfolding join_or_build
  join_or_build-Keeps paths set media none may =
      search (keeps_rules, build_torrent-Keeps, hand_over-Keeps)
  join_or_build-Keeps paths set media (some (hash, torrent, origin)) may = search hand_over-Keeps

  obtain-Keeps :
      (paths : ResolvedPaths) (set : AnnounceSet Url) (media : Option T.Media)
      (friends : FriendTorrents) (cached : Option (Bytes × Bytes))
      → ((r : AddRequest T) → May (added r))
      → Keeps P (obtain env paths set media friends cached)
  unfolding obtain
  obtain-Keeps paths set media friends none may =
      search (keeps_rules, fetch_from_friends-Keeps, join_or_build-Keeps)
  obtain-Keeps paths set media friends (some (hash, torrent)) may =
      elim (Option-cases friends.joined) [
        | inl alone ↦ rw alone (search hand_over-Keeps)
        | inr (origin, joined) ↦ rw joined (search (keeps_rules, hand_over-Keeps))
      ]

  -- A torrent that covers the file is only added to.
  pub seed_found-Keeps :
      (paths : ResolvedPaths) (set : AnnounceSet Url) (torrents : List (TorrentSummary T))
      (known : Option Bytes) (media : Option T.Media) (friends : FriendTorrents) (hash : Bytes)
      → May (trackers_added hash (tiers set))
      → Keeps P (seed_found env paths set torrents known media friends (some hash))
  unfolding seed_found
  seed_found-Keeps paths set torrents known media friends hash may =
      Keeps-bind _ _ (adopt-Keeps env frame hash set may) λ _. Keeps-pure _

  module _ (trackers : (hash : Bytes) (urls : List Url) → May (trackers_added hash urls)) where
    seed_missing-Keeps :
        (paths : ResolvedPaths) (set : AnnounceSet Url) (known : Option Bytes)
        (media : Option T.Media) (friends : FriendTorrents) (held : Option (ℤ × CatalogEntry))
        → ((r : AddRequest T) → May (added r))
        → Keeps P (seed_missing env paths set known media friends held)
    unfolding seed_missing
    seed_missing-Keeps paths set known media friends none may =
        search (keeps_rules, reuse_cached-Keeps, obtain-Keeps)
    seed_missing-Keeps paths set known media friends (some (peer_id, offer)) may =
        Keeps-bind _ _
          (adopt-Keeps env frame offer.info_hash set (trackers offer.info_hash (tiers set)))
          λ _. Keeps-pure _

    pub seed-Keeps :
        (paths : ResolvedPaths) (set : AnnounceSet Url) (torrents : List (TorrentSummary T))
        (known : Option Bytes) (media : Option T.Media) (friends : FriendTorrents)
        → ((r : AddRequest T) → May (added r))
        → Keeps P (seed env paths set torrents known media friends)
    unfolding seed find_existing seed_found
    seed-Keeps paths set torrents known media friends may = Keeps-bind _ _ (Keeps-gets _) (elim [
      | none ↦ search seed_missing-Keeps
      | (some hash) ↦
          seed_found-Keeps paths set torrents known media friends hash (trackers hash (tiers set))
    ])
