-- ===== src/Announce/Peers.antt =====
-- The tracker as a map from a torrent and a peer to what was last heard of it.
use sharerr_rs.Prelude.{
  Option, Option-cases, [], arith, if◌then◌else◌, inl, inr, list_eq, list_eqb_iff, nat_eq, none,
  some, ℕ, ◌==◌, ◌∷◌, ◌≡◌, ◌≢◌,
}
use sharerr_rs.Announce.Address.{AnnounceRequest, InfoHash, PeerId, SocketAddr}
use sharerr_rs.Announce.Swarms.{
  Peer, Swarm, Swarms, announce, is_live, is_stopped, peer_of, put_back, swarm_of, swept, updated,
}
use sharerr_rs.Prelude.HashMap.{
  Distinct, Distinct-insert, Distinct-remove, Distinct-retain, filter_option, get, get-insert,
  get-remove, get-retain,
}

-- What stands for a peer of a torrent.
unfoldable pub peer_at : Swarms → InfoHash → PeerId → Option Peer
unfolding swarm_of
peer_at s hash id = get id (swarm_of hash s)

-- Distinct keys throughout, and no empty swarm.
pub record IsOrderly (swarm : Swarm) : Type 0 where
  pub distinct : Distinct swarm
  pub inhabited : swarm ≢ []

pub record IsTidy (s : Swarms) : Type 0 where
  pub distinct : Distinct s
  pub orderly : (hash : InfoHash) (swarm : Swarm) → get hash s ≡ some swarm → IsOrderly swarm

pub swarm_of-Distinct : (hash : InfoHash) (s : Swarms) → IsTidy s → Distinct (swarm_of hash s)
unfolding swarm_of
swarm_of-Distinct hash s w = elim (Option-cases (get hash s)) [
  | inl e ↦ rw e tt
  | inr (swarm, e) ↦ rw e (w.orderly hash swarm e).distinct
]

updated-Distinct :
    (r : AnnounceRequest) (addr : SocketAddr) (now : ℕ) (swarm : Swarm)
    → Distinct swarm
    → Distinct (updated r addr now swarm)
unfolding updated
updated-Distinct r addr now swarm d = ground (
  arith,
  Distinct-insert r.peer_id (peer_of r addr now) swarm d,
  Distinct-remove r.peer_id swarm d,
)

swept-Distinct : (swarm : Swarm) (now : ℕ) → Distinct swarm → Distinct (swept swarm now)
unfolding swept
swept-Distinct swarm now d = Distinct-retain _ swarm d

-- The swarm of an announce as it is put back.
abbrev pub renewed : Swarms → AnnounceRequest → SocketAddr → ℕ → Swarm
renewed s r addr now = updated r addr now (swept (swarm_of r.info_hash s) now)

pub renewed-Distinct :
    (s : Swarms) (r : AnnounceRequest) (addr : SocketAddr) (now : ℕ)
    → IsTidy s
    → Distinct (renewed s r addr now)
renewed-Distinct s r addr now w =
    updated-Distinct r addr now (swept (swarm_of r.info_hash s) now)
      (swept-Distinct (swarm_of r.info_hash s) now (swarm_of-Distinct r.info_hash s w))

pub swarm_of-put_back :
    (j hash : InfoHash) (swarm : Swarm) (s : Swarms)
    → swarm_of j (put_back hash swarm s) ≡ (if j == hash then swarm else swarm_of j s)
unfolding swarm_of put_back
swarm_of-put_back j hash [] s = ground (arith, get-remove j hash s)
swarm_of-put_back j hash (entry ∷ swarm) s = ground (arith, get-insert j hash (entry ∷ swarm) s)

IsTidy-put_back :
    (hash : InfoHash) (swarm : Swarm) (s : Swarms)
    → Distinct swarm
    → IsTidy s
    → IsTidy (put_back hash swarm s)
unfolding put_back
IsTidy-put_back hash [] s d w = record {
  distinct = Distinct-remove hash s w.distinct;
  orderly = λ j swarm h. ground (arith, get-remove j hash s, w.orderly j swarm);
}
IsTidy-put_back hash (entry ∷ rest) s d w =
    let full : IsOrderly (entry ∷ rest) = record { distinct = d; inhabited = λ e. cc e } in
    record {
      distinct = Distinct-insert hash (entry ∷ rest) s w.distinct;
      orderly =
          λ j swarm h. ground (arith, get-insert j hash (entry ∷ rest) s, w.orderly j swarm, full);
    }

-- An announce keeps the tracker tidy: no key twice, and no empty swarm.
pub announce-IsTidy :
    (s : Swarms) (r : AnnounceRequest) (addr : SocketAddr) (now : ℕ)
    → IsTidy s
    → IsTidy (announce s r addr now).1
unfolding announce
announce-IsTidy s r addr now w =
    IsTidy-put_back r.info_hash (renewed s r addr now) s (renewed-Distinct s r addr now w) w

pub get-updated :
    (r : AnnounceRequest) (addr : SocketAddr) (now : ℕ) (swarm : Swarm) (id : PeerId)
    → get id (updated r addr now swarm) ≡ (
        if id == r.peer_id
        then (if is_stopped r.event then none else some (peer_of r addr now))
        else get id swarm)
unfolding updated
get-updated r addr now swarm id =
    ground
      (arith, get-insert id r.peer_id (peer_of r addr now) swarm, get-remove id r.peer_id swarm)

pub get-swept :
    (swarm : Swarm) (now : ℕ) (id : PeerId)
    → Distinct swarm
    → get id (swept swarm now) ≡ filter_option (is_live now) (get id swarm)
unfolding swept
get-swept swarm now id d = get-retain id _ swarm d

-- What an announce does to every peer of every torrent: the announcing peer is recorded as it
-- announced itself, or removed if it stopped; another peer of the same torrent is forgotten exactly
-- if it is past its TTL; and no other torrent is touched.
pub peer_at-announce :
    (s : Swarms) (r : AnnounceRequest) (addr : SocketAddr) (now : ℕ) (hash : InfoHash) (id : PeerId)
    → IsTidy s
    → peer_at (announce s r addr now).1 hash id ≡ (
        if hash == r.info_hash
        then (if id == r.peer_id
            then (if is_stopped r.event then none else some (peer_of r addr now))
            else filter_option (is_live now) (peer_at s hash id))
        else peer_at s hash id)
unfolding peer_at announce
peer_at-announce s r addr now hash id w = ground (
  arith,
  swarm_of-put_back hash r.info_hash (renewed s r addr now) s,
  get-updated r addr now (swept (swarm_of r.info_hash s) now) id,
  get-swept (swarm_of r.info_hash s) now id (swarm_of-Distinct r.info_hash s w),
  list_eqb_iff hash r.info_hash,
)
