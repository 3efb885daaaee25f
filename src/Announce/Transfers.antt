-- ===== src/Announce/Transfers.antt =====
-- What a client's announces add up to.
use sharerr_rs.Prelude.{
  Bool, Bool-cases, List, [], arith, false, if◌then◌else◌, inl, inr, list_eq, list_eqb_iff, nat_eq,
  some, true, ℕ, ◌&&◌, ◌+◌, ◌-◌, ◌<◌, ◌==◌, ◌∷◌, ◌≡◌, ◌≤◌,
}
use sharerr_rs.Announce.Address.{AnnounceRequest, InfoHash, PeerId, SocketAddr}
use sharerr_rs.Announce.Peers.{
  IsTidy, announce-IsTidy, get-swept, peer_at, peer_at-announce, swarm_of-Distinct,
}
use sharerr_rs.Announce.Swarms.{
  Peer, Swarms, Transfer, announce, is_live, is_stopped, peer_of, peer_ttl, since,
}

-- The sum of the uploads, and of the downloads, of a list of transfers.
abbrev pub total_uploaded : List Transfer → ℕ
total_uploaded [] = 0
total_uploaded (t ∷ ts) = t.uploaded + total_uploaded ts

abbrev pub total_downloaded : List Transfer → ℕ
total_downloaded [] = 0
total_downloaded (t ∷ ts) = t.downloaded + total_downloaded ts

-- An announce as it arrives, with the address recorded and the clock.
pub record Heard : Type 0 where
  pub request : AnnounceRequest
  pub addr : SocketAddr
  pub now : ℕ

unfoldable pub hear : Swarms → Heard → Swarms
hear s h = (announce s h.request h.addr h.now).1

unfoldable pub hear_all : Swarms → List Heard → Swarms
hear_all s [] = s
hear_all s (h ∷ rest) = hear_all (hear s h) rest

-- A known peer is accounted the growth since it was last heard.
transferred_known :
    (s : Swarms) (r : AnnounceRequest) (addr : SocketAddr) (now : ℕ) (p : Peer)
    → IsTidy s
    → peer_at s r.info_hash r.peer_id ≡ some p
    → is_live now p ≡ true
    → (announce s r addr now).0.transferred
      ≡ since (p.uploaded, p.downloaded) (r.uploaded, r.downloaded)
unfolding announce peer_at
transferred_known s r addr now p w known alive =
    rw (get-swept _ now r.peer_id (swarm_of-Distinct r.info_hash s w), known) (rw alive)

module _ (hash : InfoHash) (id : PeerId) where
  abbrev pub is_from : Heard → Bool
  is_from h = h.request.info_hash == hash && h.request.peer_id == id

  -- What the tracker accounts to the peer, over the announces of everybody.
  unfoldable pub accounted : Swarms → List Heard → List Transfer
  unfolding hear
  accounted s [] = []
  accounted s (h ∷ rest) =
      let later = accounted (hear s h) rest in
      if is_from h then (announce s h.request h.addr h.now).0.transferred ∷ later else later

  -- The announces of the peer never stop, never count backwards, and come inside its TTL, from
  -- counters and a last sighting on; those of others are arbitrary.
  abbrev pub Steady : ℕ → ℕ → ℕ → List Heard → Type 0
  Steady uploaded downloaded seen [] = Unit
  Steady uploaded downloaded seen (h ∷ rest) =
      (h.now - seen < peer_ttl)
      × (if is_from h
          then ((uploaded ≤ h.request.uploaded)
              × (downloaded ≤ h.request.downloaded)
              × (is_stopped h.request.event ≡ false)
              × Steady h.request.uploaded h.request.downloaded h.now rest)
          else Steady uploaded downloaded seen rest)

  -- The counters that the peer announced last.
  abbrev pub last_uploaded : ℕ → List Heard → ℕ
  last_uploaded uploaded [] = uploaded
  last_uploaded uploaded (h ∷ rest) =
      last_uploaded (if is_from h then h.request.uploaded else uploaded) rest

  abbrev pub last_downloaded : ℕ → List Heard → ℕ
  last_downloaded downloaded [] = downloaded
  last_downloaded downloaded (h ∷ rest) =
      last_downloaded (if is_from h then h.request.downloaded else downloaded) rest

  hear-IsTidy : (s : Swarms) (h : Heard) → IsTidy s → IsTidy (hear s h)
  unfolding hear
  hear-IsTidy s h w = announce-IsTidy s h.request h.addr h.now w

  -- Another's announce leaves a live peer as it stands.
  peer_at-hear_other :
      (s : Swarms) (h : Heard) (p : Peer)
      → IsTidy s
      → peer_at s hash id ≡ some p
      → is_live h.now p ≡ true
      → is_from h ≡ false
      → peer_at (hear s h) hash id ≡ some p
  unfolding hear
  peer_at-hear_other s h p w known alive other = ground (
    arith,
    peer_at-announce s h.request h.addr h.now hash id w,
    list_eqb_iff h.request.info_hash hash,
    list_eqb_iff hash h.request.info_hash,
    list_eqb_iff h.request.peer_id id,
    list_eqb_iff id h.request.peer_id,
  )

  -- What the peer's own announce does.
  hear_own :
      (s : Swarms) (h : Heard) (p : Peer)
      → IsTidy s
      → peer_at s hash id ≡ some p
      → is_live h.now p ≡ true
      → is_from h ≡ true
      → is_stopped h.request.event ≡ false
      → (peer_at (hear s h) hash id ≡ some (peer_of h.request h.addr h.now))
        × ((announce s h.request h.addr h.now).0.transferred
            ≡ since (p.uploaded, p.downloaded) (h.request.uploaded, h.request.downloaded))
  unfolding hear
  hear_own s h p w known alive own goes_on = ground (
    arith,
    peer_at-announce s h.request h.addr h.now hash id w,
    transferred_known s h.request h.addr h.now p w,
    list_eqb_iff h.request.info_hash hash,
    list_eqb_iff hash h.request.info_hash,
    list_eqb_iff h.request.peer_id id,
    list_eqb_iff id h.request.peer_id,
  )

  -- Over announces, its own and others', in which a known peer does not stop, sets no counter back
  -- and is heard of again within `peer_ttl` of each of its announces, at every announce of anybody,
  -- the bytes accounted to it add up to the growth of its counters: between these, nothing is counted
  -- twice or lost.
  pub accounted_total :
      (s : Swarms) (heard : List Heard) (p : Peer)
      → IsTidy s
      → peer_at s hash id ≡ some p
      → Steady p.uploaded p.downloaded p.last_seen heard
      → (p.uploaded + total_uploaded (accounted s heard) ≡ last_uploaded p.uploaded heard)
        × (p.downloaded + total_downloaded (accounted s heard) ≡ last_downloaded p.downloaded heard)
  unfolding accounted since peer_of
  accounted_total s [] p w known steady = omega arith
  accounted_total s (h ∷ rest) p w known (soon, steady) =
      let alive : is_live h.now p ≡ true = unfold is_live in ground arith in
      elim (Bool-cases (is_from h)) [
        | inl own ↦ ground (
          arith,
          hear_own s h p w known alive own,
          accounted_total (hear s h) rest (peer_of h.request h.addr h.now) (hear-IsTidy s h w),
        )
        | inr other ↦ ground (
          arith,
          peer_at-hear_other s h p w known alive other,
          accounted_total (hear s h) rest p (hear-IsTidy s h w),
        )
      ]
