-- ===== src/Announce/Answer.antt =====
-- What the answer to an announce tells the client.
use sharerr_rs.Prelude.{
  ==-refl, All, All-filter_test, All-map, All-mono, All-take, Option-cases, [], ap, arith,
  filter-All, foldl, if◌then◌else◌, inl, inr, length, length-map, length-take, list_eq,
  list_eqb_iff, min, nat_eq, not, refl, some, true, ℕ, ◌+◌, ◌-◌, ◌==◌, ◌∷◌, ◌≡◌, ◌≢◌,
}
use sharerr_rs.Announce.Address.{AnnounceRequest, Event, InfoHash, PeerId, SocketAddr}
use sharerr_rs.Announce.Peers.{
  IsTidy, get-swept, get-updated, peer_at, renewed, renewed-Distinct, swarm_of-Distinct,
  swarm_of-put_back,
}
use sharerr_rs.Announce.Swarms.{
  Peer, Swarm, Swarms, announce, count_peer, is_live, is_stopped, live, peer_of, scrape, swarm_of,
  swept, tally,
}
use sharerr_rs.Prelude.HashMap.{Distinct-All, get, length-filter_key}

-- An address of the torrent that a client may be told: that of another peer, inside its TTL.
abbrev pub IsOffer : Swarms → AnnounceRequest → ℕ → SocketAddr → Type 0
IsOffer s r now addr =
    (id : PeerId) × (p : Peer) × (peer_at s r.info_hash id ≡ some p)
    × (id ≢ r.peer_id)
    × (is_live now p ≡ true)
    × (addr ≡ p.addr)

-- How many peers the announcing client counts for.
abbrev pub own_count : Event → ℕ
own_count e = if is_stopped e then 0 else 1

foldl-count_peer :
    (complete incomplete : ℕ) (entries : Swarm)
    → (foldl count_peer (complete, incomplete) entries).0
        + (foldl count_peer (complete, incomplete) entries).1
      ≡ complete + incomplete + length entries
unfolding count_peer
foldl-count_peer complete incomplete [] = omega arith
foldl-count_peer complete incomplete ((id, p) ∷ entries) = ground (
  arith,
  foldl-count_peer (complete + 1) incomplete entries,
  foldl-count_peer complete (incomplete + 1) entries,
)

-- A tally counts every live peer once.
pub tally-live :
    (swarm : Swarm) (now : ℕ) → (tally swarm now).0 + (tally swarm now).1 ≡ length (live swarm now)
unfolding tally
tally-live swarm now = omega (arith, foldl-count_peer 0 0 (live swarm now))

scrape-swarm_of :
    (s : Swarms) (hash : InfoHash) (now : ℕ) → scrape s hash now ≡ tally (swarm_of hash s) now
unfolding scrape swarm_of
scrape-swarm_of s hash now = elim (Option-cases (get hash s)) [
  | inl e ↦ rw (e, scrape) (unfold tally in refl)
  | inr (swarm, e) ↦ rw (e, scrape) refl
]

module _ (s : Swarms) (r : AnnounceRequest) (addr : SocketAddr) (now : ℕ) (w : IsTidy s) where
  found_live :
      (entry : PeerId × Peer)
      → get entry.0 (renewed s r addr now) ≡ some entry.1
      → is_live now entry.1 ≡ true
  unfolding peer_of is_live
  found_live (id, p) h = ground (
    arith,
    get-updated r addr now (swept (swarm_of r.info_hash s) now) id,
    get-swept (swarm_of r.info_hash s) now id (swarm_of-Distinct r.info_hash s w),
    Option-cases (get id (swarm_of r.info_hash s)),
  )

  All-found :
      All (λ entry. get entry.0 (renewed s r addr now) ≡ some entry.1) (renewed s r addr now)
  All-found = Distinct-All (renewed s r addr now) (renewed-Distinct s r addr now w)

  live-renewed : live (renewed s r addr now) now ≡ renewed s r addr now
  unfolding live
  live-renewed =
      filter-All _ (renewed s r addr now) (All-mono (renewed s r addr now) found_live All-found)

  -- A peer that stays is one that stood before, inside its TTL.
  found-IsOffer :
      (entry : PeerId × Peer)
      → (get entry.0 (renewed s r addr now) ≡ some entry.1) × (not (entry.0 == r.peer_id) ≡ true)
      → IsOffer s r now entry.1.addr
  unfolding peer_at
  found-IsOffer (id, p) (h, other) = (
    id,
    p,
    ground (
      arith,
      get-updated r addr now (swept (swarm_of r.info_hash s) now) id,
      get-swept (swarm_of r.info_hash s) now id (swarm_of-Distinct r.info_hash s w),
      Option-cases (get id (swarm_of r.info_hash s)),
    ),
    λ e. ground (arith, list_eqb_iff id r.peer_id),
    found_live (id, p) h,
    refl,
  )

  -- Every address in the answer is that of another peer of the same torrent, as it was last heard
  -- of, inside its TTL.
  pub announce-IsOffer : All (IsOffer s r now) (announce s r addr now).0.peers
  unfolding announce
  announce-IsOffer = All-map _ _ _ (
      All-take _ r.numwant _
        (All-mono _ found-IsOffer (All-filter_test _ _ (renewed s r addr now) All-found)))

  -- The counts of the answer are those of a scrape of the torrent at the same time.
  pub scrape-announce :
      scrape (announce s r addr now).1 r.info_hash now
      ≡ ((announce s r addr now).0.complete, (announce s r addr now).0.incomplete)
  unfolding announce
  scrape-announce = rw (scrape-swarm_of, swarm_of-put_back, ==-refl) refl

  -- A seeder or a leecher for each peer of the torrent.
  counted :
      (announce s r addr now).0.complete + (announce s r addr now).0.incomplete
      ≡ length (renewed s r addr now)
  unfolding announce
  counted = rw tally-live (ap length live-renewed)

  -- The answer names as many peers as the client asks for, as far as the torrent has others: the
  -- seeders and leechers that it counts, less the client itself unless it stopped.
  pub length-announce :
      length (announce s r addr now).0.peers
      ≡ min r.numwant (
          (announce s r addr now).0.complete
          + (announce s r addr now).0.incomplete
          - own_count r.event)
  unfolding announce
  length-announce =
      rw (length-map, length-take)
        (ground (
          arith,
          counted,
          length-filter_key r.peer_id (renewed s r addr now) (renewed-Distinct s r addr now w),
          get-updated r addr now (swept (swarm_of r.info_hash s) now) r.peer_id,
          list_eqb_iff r.peer_id r.peer_id,
        ))
