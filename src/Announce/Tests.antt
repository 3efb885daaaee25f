-- ===== src/Announce/Tests.antt =====
-- Runs of the tracker, and its theorems at concrete inputs.
use sharerr_rs.Prelude.{
  All, List, String, [], arith, codes, list_eq, nat_eq, refl, some, true, ℕ, ◌+◌, ◌∷◌, ◌≡◌,
}
use sharerr_rs.Announce.Address.{
  AnnounceRequest, Event, InfoHash, SocketAddr, periodic, started, v4,
}
use sharerr_rs.Announce.Answer.{IsOffer, announce-IsOffer}
use sharerr_rs.Announce.Peers.{IsTidy, announce-IsTidy, peer_at, peer_at-announce}
use sharerr_rs.Announce.Swarms.{Peer, Swarms, announce, is_live}
use sharerr_rs.Announce.Transfers.{
  Heard, accounted, accounted_total, total_downloaded, total_uploaded,
}
use sharerr_rs.Paths.Resolver.{component_eq}
use sharerr_rs.Prelude.HashMap.{filter_option, get, insert, retain}
use sharerr_rs.Sync.Item.{int_eq, key_eq, source_eq}
use sharerr_rs.Torrent.Fields.{name}

abbrev hash_one : InfoHash
hash_one = codes "aaaaaaaaaaaaaaaaaaaa"

abbrev address : ℕ → SocketAddr
address d = record { ip = v4 203 0 113 d; port = 6881 }

-- An announce by the client `name` that still has `left` bytes to get.
abbrev said : String → Event → ℕ → ℕ → AnnounceRequest
said name event left uploaded = record {
  info_hash = hash_one;
  peer_id = codes name;
  port = 6881;
  left = left;
  uploaded = uploaded;
  downloaded = 0;
  event = event;
  compact = true;
  numwant = 50;
  declared_ip = some (v4 192 168 0 9);
}

abbrev empty : Swarms
empty = []

empty-IsTidy : IsTidy empty
unfolding get
empty-IsTidy = record { distinct = tt; orderly = λ hash swarm h. cc h }

abbrev hour : ℕ
hour = 3600000000000

-- A seeder is heard, and a leecher an hour later.
abbrev one : Swarms
one = (announce empty (said "seed" started 0 100) (address 1) hour).1

one-IsTidy : IsTidy one
one-IsTidy = announce-IsTidy empty (said "seed" started 0 100) (address 1) hour empty-IsTidy

leecher_is_told :
    (announce one (said "leech" started 7 0) (address 2) (hour + hour)).0.peers ≡ address 1 ∷ []
unfolding announce get insert retain
leecher_is_told = refl

peer_at-announce_example :
    peer_at
      (announce one (said "leech" started 7 0) (address 2) (hour + hour)).1
      hash_one
      (codes "seed")
    ≡ filter_option (is_live (hour + hour)) (peer_at one hash_one (codes "seed"))
peer_at-announce_example =
    peer_at-announce one (said "leech" started 7 0) (address 2) (hour + hour) hash_one
      (codes "seed") one-IsTidy

announce-IsOffer_example :
    All
      (IsOffer one (said "leech" started 7 0) (hour + hour))
      (announce one (said "leech" started 7 0) (address 2) (hour + hour)).0.peers
announce-IsOffer_example =
    announce-IsOffer one (said "leech" started 7 0) (address 2) (hour + hour) one-IsTidy

abbrev seed_at_first : Peer
seed_at_first = record {
  addr = address 1;
  left = 0;
  uploaded = 100;
  downloaded = 0;
  last_seen = hour;
}

seed_known : peer_at one hash_one (codes "seed") ≡ some seed_at_first
unfolding peer_at announce get insert retain
seed_known = refl

abbrev chatter : List Heard
chatter =
    record { request = said "leech" started 7 0; addr = address 2; now = hour + 5 }
    ∷ record { request = said "seed" periodic 0 350; addr = address 1; now = hour + hour }
    ∷ record { request = said "seed" periodic 0 360; addr = address 1; now = hour + hour + hour }
    ∷ []

accounted_total_example :
    (100 + total_uploaded (accounted hash_one (codes "seed") one chatter) ≡ 360)
    × (0 + total_downloaded (accounted hash_one (codes "seed") one chatter) ≡ 0)
accounted_total_example =
    accounted_total hash_one (codes "seed") one chatter seed_at_first one-IsTidy seed_known
      (ground arith)
