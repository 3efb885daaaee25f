-- ===== src/Announce/Views.antt =====
-- `stats`, `snapshots`, `snapshot` and `counts` of `Swarms`.
use sharerr_rs.Prelude.{
  All, List, Option, [], arith, filter, foldl, if◌then◌else◌, length, length-map, list_eq, ltb, map,
  nat_eq, none, not, refl, some, sym, ℕ, ◌&&◌, ◌+◌, ◌<◌, ◌==◌, ◌∙◌, ◌∷◌, ◌≡◌,
}
use sharerr_rs.Announce.Address.{InfoHash, SocketAddr}
use sharerr_rs.Announce.Answer.{tally-live}
use sharerr_rs.Announce.Swarms.{Swarm, Swarms, live, tally}
use sharerr_rs.Prelude.HashMap.{HashMap, get}

pub record SwarmStats : Type 0 where
  pub swarms : ℕ
  pub peers : ℕ
  pub seeders : ℕ

pub record SwarmView : Type 0 where
  pub info_hash : InfoHash
  pub peers : List SocketAddr
  pub complete : ℕ
  pub incomplete : ℕ

-- A round of the loop of `stats`.
unfoldable pub add_swarm : ℕ → SwarmStats → InfoHash × Swarm → SwarmStats
unfolding tally
add_swarm now stats (hash, swarm) =
    let (seeders, leechers) = tally swarm now in
    if ltb 0 (seeders + leechers)
    then record {
      swarms = stats.swarms + 1;
      peers = stats.peers + (seeders + leechers);
      seeders = stats.seeders + seeders;
    }
    else stats

unfoldable pub stats : Swarms → ℕ → SwarmStats
unfolding add_swarm
stats s now = foldl (add_swarm now) (record { swarms = 0; peers = 0; seeders = 0 }) s

-- A view of the live peers, if there are any.
unfoldable pub view_from : InfoHash → List SocketAddr → ℕ × ℕ → Option SwarmView
view_from hash [] counted = none
view_from hash (addr ∷ addrs) (complete, incomplete) = some (record {
  info_hash = hash;
  peers = addr ∷ addrs;
  complete = complete;
  incomplete = incomplete;
})

-- The view of one swarm.
unfoldable pub view_of : ℕ → InfoHash → Swarm → Option SwarmView
unfolding view_from live tally
view_of now hash swarm =
    view_from hash (map (λ entry. entry.1.addr) (live swarm now)) (tally swarm now)

abbrev pub push_some {ℓ} : {A : Type ℓ} → Option A → List A → List A
push_some none rest = rest
push_some (some a) rest = a ∷ rest

unfoldable pub snapshots : Swarms → ℕ → List SwarmView
unfolding view_of
snapshots [] now = []
snapshots ((hash, swarm) ∷ s) now = push_some (view_of now hash swarm) (snapshots s now)

unfoldable pub snapshot : Swarms → InfoHash → ℕ → Option SwarmView
unfolding view_of
snapshot s hash now = elim (get hash s) [ none ↦ none | some swarm ↦ view_of now hash swarm ]

unfoldable pub counts : Swarms → ℕ → HashMap InfoHash (ℕ × ℕ)
unfolding tally
counts s now =
    filter (λ entry. not (entry.1.0 == 0 && entry.1.1 == 0))
      (map (λ entry. (entry.0, tally entry.1 now)) s)

-- What the totals of the views are.
abbrev pub view_peers : List SwarmView → ℕ
view_peers [] = 0
view_peers (v ∷ vs) = length v.peers + view_peers vs

abbrev pub view_seeders : List SwarmView → ℕ
view_seeders [] = 0
view_seeders (v ∷ vs) = v.complete + view_seeders vs

-- What `view_from` gives of as many peers as are counted.
abbrev ViewFits : InfoHash → ℕ × ℕ → Option SwarmView → Type 0
ViewFits hash counted none = counted ≡ (0, 0)
ViewFits hash counted (some v) =
    (v.info_hash ≡ hash)
    × (length v.peers ≡ v.complete + v.incomplete)
    × (0 < length v.peers)
    × (counted ≡ (v.complete, v.incomplete))

view_from-ViewFits :
    (hash : InfoHash) (peers : List SocketAddr) (counted : ℕ × ℕ)
    → counted.0 + counted.1 ≡ length peers
    → ViewFits hash counted (view_from hash peers counted)
unfolding view_from
view_from-ViewFits hash [] (c, i) h = ground arith
view_from-ViewFits hash (addr ∷ addrs) (c, i) h = ground arith

view_of-ViewFits :
    (now : ℕ) (hash : InfoHash) (swarm : Swarm)
    → ViewFits hash (tally swarm now) (view_of now hash swarm)
unfolding view_of
view_of-ViewFits now hash swarm =
    view_from-ViewFits hash (map (λ entry. entry.1.addr) (live swarm now)) (tally swarm now)
      (tally-live swarm now ∙ sym (length-map _ (live swarm now)))

stats_from :
    (s : Swarms) (now : ℕ) (acc : SwarmStats)
    → foldl (add_swarm now) acc s ≡ record {
      swarms = acc.swarms + length (snapshots s now);
      peers = acc.peers + view_peers (snapshots s now);
      seeders = acc.seeders + view_seeders (snapshots s now);
    }
unfolding add_swarm snapshots
stats_from [] now acc = ground arith
stats_from ((hash, swarm) ∷ s) now acc =
    ground
      (arith, view_of-ViewFits now hash swarm, stats_from s now (add_swarm now acc (hash, swarm)))

-- The totals of the status page are those of the swarms listed one by one: their number, their
-- peers' addresses and their seeders.
pub stats-snapshots :
    (s : Swarms) (now : ℕ)
    → stats s now ≡ record {
      swarms = length (snapshots s now);
      peers = view_peers (snapshots s now);
      seeders = view_seeders (snapshots s now);
    }
unfolding stats
stats-snapshots s now =
    ground (arith, stats_from s now (record { swarms = 0; peers = 0; seeders = 0 }))

-- The counts name the same torrents as the list of swarms, with the same numbers, and each view
-- lists one address for each peer that it counts, and at least one.
pub counts-snapshots :
    (s : Swarms) (now : ℕ)
    → (counts s now ≡ map (λ v. (v.info_hash, (v.complete, v.incomplete))) (snapshots s now))
      × All
          (λ v. (length v.peers ≡ v.complete + v.incomplete) × (0 < length v.peers))
          (snapshots s now)
unfolding counts snapshots
counts-snapshots [] now = (refl, tt)
counts-snapshots ((hash, swarm) ∷ s) now =
    ground (arith, view_of-ViewFits now hash swarm, counts-snapshots s now)
