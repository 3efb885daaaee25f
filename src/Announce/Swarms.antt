-- ===== src/Announce/Swarms.antt =====
-- `Peer`, `Swarms`, `announce`, and the views of a swarm. The clock is an argument, in nanoseconds.
use sharerr_rs.Prelude.{
  Bool, List, Option, [], false, filter, foldl, if◌then◌else◌, list_eq, ltb, map, nat_eq, none, not,
  some, take, true, ℕ, ◌&&◌, ◌*◌, ◌+◌, ◌-◌, ◌==◌, ◌∷◌,
}
use sharerr_rs.Announce.Address.{
  AnnounceRequest, Event, InfoHash, PeerId, SocketAddr, completed, periodic, started, stopped,
}
use sharerr_rs.Prelude.HashMap.{HashMap, get, insert, remove, retain}

abbrev pub interval_secs : ℕ
interval_secs = 1800

abbrev pub min_interval_secs : ℕ
min_interval_secs = 900

-- `PEER_TTL`, in nanoseconds
abbrev pub peer_ttl : ℕ
peer_ttl = (interval_secs * 2 + 60) * 1000000000

abbrev pub max_numwant : ℕ
max_numwant = 50

pub record Peer : Type 0 where
  pub addr : SocketAddr
  pub left : ℕ
  pub uploaded : ℕ
  pub downloaded : ℕ
  pub last_seen : ℕ

-- `duration_since` saturates at zero, as `-` does.
unfoldable pub is_live : ℕ → Peer → Bool
is_live now p = ltb (now - p.last_seen) peer_ttl

abbrev pub Swarm : Type 0
Swarm = HashMap PeerId Peer

abbrev pub Swarms : Type 0
Swarms = HashMap InfoHash Swarm

unfoldable pub live : Swarm → ℕ → Swarm
unfolding is_live
live swarm now = filter (λ entry. is_live now entry.1) swarm

unfoldable pub count_peer : ℕ × ℕ → PeerId × Peer → ℕ × ℕ
count_peer (complete, incomplete) (id, p) =
    if p.left == 0 then (complete + 1, incomplete) else (complete, incomplete + 1)

-- `(complete, incomplete)`
unfoldable pub tally : Swarm → ℕ → ℕ × ℕ
unfolding live count_peer
tally swarm now = foldl count_peer (0, 0) (live swarm now)

pub record Transfer : Type 0 where
  pub uploaded : ℕ
  pub downloaded : ℕ

unfoldable pub is_empty : Transfer → Bool
is_empty t = t.uploaded == 0 && t.downloaded == 0

-- `now.checked_sub(before).unwrap_or(now)`
unfoldable pub step : ℕ → ℕ → ℕ
step before now = if ltb now before then now else now - before

unfoldable pub since : ℕ × ℕ → ℕ × ℕ → Transfer
unfolding step
since previous current = record {
  uploaded = step previous.0 current.0;
  downloaded = step previous.1 current.1;
}

pub record AnnounceResponse : Type 0 where
  pub peers : List SocketAddr
  pub complete : ℕ
  pub incomplete : ℕ
  pub transferred : Transfer

abbrev pub is_stopped : Event → Bool
is_stopped stopped = true
is_stopped started = false
is_stopped completed = false
is_stopped periodic = false

unfoldable pub peer_of : AnnounceRequest → SocketAddr → ℕ → Peer
peer_of r addr now = record {
  addr = addr;
  left = r.left;
  uploaded = r.uploaded;
  downloaded = r.downloaded;
  last_seen = now;
}

-- `map_or(Transfer::default(), …)` over the peer's entry
unfoldable pub transfer_since : Option Peer → AnnounceRequest → Transfer
unfolding since
transfer_since none r = record { uploaded = 0; downloaded = 0 }
transfer_since (some previous) r =
    since (previous.uploaded, previous.downloaded) (r.uploaded, r.downloaded)

abbrev pub unwrap_or_default : Option Swarm → Swarm
unwrap_or_default none = []
unwrap_or_default (some swarm) = swarm

-- `entry(info_hash).or_default()`
unfoldable pub swarm_of : InfoHash → Swarms → Swarm
swarm_of hash s = unwrap_or_default (get hash s)

-- The sweep.
unfoldable pub swept : Swarm → ℕ → Swarm
unfolding is_live
swept swarm now = retain (λ id p. is_live now p) swarm

-- The swarm after the sweep, the write and the removal.
unfoldable pub updated : AnnounceRequest → SocketAddr → ℕ → Swarm → Swarm
unfolding peer_of
updated r addr now swarm =
    if is_stopped r.event
    then remove r.peer_id swarm
    else insert r.peer_id (peer_of r addr now) swarm

-- An empty swarm does not linger.
unfoldable pub put_back : InfoHash → Swarm → Swarms → Swarms
put_back hash [] s = remove hash s
put_back hash (entry ∷ swarm) s = insert hash (entry ∷ swarm) s

unfoldable pub announce : Swarms → AnnounceRequest → SocketAddr → ℕ → AnnounceResponse × Swarms
unfolding swarm_of swept updated transfer_since tally put_back
announce s r addr now =
    let old = swept (swarm_of r.info_hash s) now in
    let swarm = updated r addr now old in
    let (complete, incomplete) = tally swarm now in
    (
      record {
        peers =
            map (λ entry. entry.1.addr)
              (take r.numwant (filter (λ entry. not (entry.0 == r.peer_id)) swarm));
        complete = complete;
        incomplete = incomplete;
        transferred = transfer_since (get r.peer_id old) r;
      },
      put_back r.info_hash swarm s,
    )

unfoldable pub scrape : Swarms → InfoHash → ℕ → ℕ × ℕ
unfolding tally
scrape s hash now = elim (get hash s) [ none ↦ (0, 0) | some swarm ↦ tally swarm now ]
