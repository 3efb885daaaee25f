-- ===== src/Announce/WireFits.antt =====
-- The dictionary of an answer is within the decoder's reach.
use sharerr_rs.Prelude.{
  All, All-append, All-filter, Bool, Bool-cases, Bytes, List, [], arith, codes, false, filter, inl,
  inr, length, length-filter-le, ltb, refl, true, ◌&&◌, ◌++◌, ◌<◌, ◌∷◌, ◌≡◌, ◌≤◌,
}
use sharerr_rs.Announce.Address.{IpAddr, SocketAddr}
use sharerr_rs.Announce.Swarms.{AnnounceResponse, max_numwant}
use sharerr_rs.Announce.Wire.{is_ipv4, is_ipv6, pack_all}
use sharerr_rs.Announce.WireValue.{
  answer, length-pack_all-filter, length-pack_all_v6, peer_values, peers6_entry, peers_value,
}
use sharerr_rs.Bencode.Value.{Above, FitEntries, FitItems, Fits, lex_ltb}
use sharerr_rs.Prelude.Int.{i64_max}

peers6-Above :
    (k : Bytes) (compact : Bool) (peers : List SocketAddr)
    → lex_ltb k (codes "peers6") ≡ true
    → Above k (peers6_entry compact peers)
unfolding peers6_entry
peers6-Above k compact peers h =
    elim (Bool-cases (compact && ltb 0 (length (filter is_ipv6 peers)))) [
      | inl some_v6 ↦ rw some_v6 (h, tt)
      | inr no_v6 ↦ rw no_v6 tt
    ]

peers6-FitEntries :
    (compact : Bool) (peers : List SocketAddr)
    → length peers ≤ max_numwant
    → FitEntries 1 (peers6_entry compact peers)
unfolding peers6_entry Fits pack_all
peers6-FitEntries compact peers few =
    elim (Bool-cases (compact && ltb 0 (length (filter is_ipv6 peers)))) [
      | inl some_v6 ↦ rw some_v6 (
        omega arith,
        (omega arith, omega (arith, length-pack_all_v6 peers, length-filter-le is_ipv6 peers)),
        tt,
        tt,
      )
      | inr no_v6 ↦ rw no_v6 tt
    ]

module _ (to_string : IpAddr → Bytes) where
  -- The longest text of an address has 45 bytes.
  abbrev pub IsShort : Type 0
  IsShort = (ip : IpAddr) → length (to_string ip) ≤ 45

  peer_values-FitItems :
      (peers : List SocketAddr)
      → IsShort
      → All (λ addr. addr.port < 65536) peers
      → FitItems 2 (peer_values to_string peers)
  unfolding Fits lex_ltb
  peer_values-FitItems [] short h = tt
  peer_values-FitItems (addr ∷ rest) short (port, h) = (
    (
      omega arith,
      (
        omega arith,
        (omega arith, omega (arith, short addr.ip)),
        (refl, tt),
        (omega arith, (omega arith, omega arith), tt, tt),
      ),
    ),
    peer_values-FitItems rest short h,
  )

  peers_value-Fits :
      (compact : Bool) (peers : List SocketAddr)
      → IsShort
      → length peers ≤ max_numwant
      → All (λ addr. addr.port < 65536) peers
      → Fits 1 (peers_value to_string compact peers)
  unfolding Fits pack_all
  peers_value-Fits true peers short few ports =
      (omega arith, omega (arith, length-pack_all-filter peers, length-filter-le is_ipv4 peers))
  peers_value-Fits false peers short few ports = (
    omega arith,
    peer_values-FitItems (filter is_ipv4 peers ++ filter is_ipv6 peers) short (
        All-append (λ addr. addr.port < 65536) (filter is_ipv4 peers) (filter is_ipv6 peers)
          (All-filter (λ addr. addr.port < 65536) is_ipv4 peers ports)
          (All-filter (λ addr. addr.port < 65536) is_ipv6 peers ports)),
  )

  pub answer-Fits :
      (r : AnnounceResponse) (compact : Bool)
      → IsShort
      → r.complete ≤ i64_max
      → r.incomplete ≤ i64_max
      → length r.peers ≤ max_numwant
      → All (λ addr. addr.port < 65536) r.peers
      → Fits 0 (answer to_string r compact)
  unfolding Fits lex_ltb
  answer-Fits r compact short c i few ports =
      let above : (k : Bytes)
          → lex_ltb k (codes "peers6") ≡ true
          → Above k (peers6_entry compact r.peers) =
        λ k h. peers6-Above k compact r.peers h in
      (
        omega arith,
        (
          omega arith,
          (omega arith, (omega arith, omega arith)),
          (refl, (refl, (refl, (refl, above (codes "complete") refl)))),
          (
            omega arith,
            (omega arith, (omega arith, omega arith)),
            (refl, (refl, (refl, above (codes "incomplete") refl))),
            (
              omega arith,
              (omega arith, (omega arith, omega arith)),
              (refl, (refl, above (codes "interval") refl)),
              (
                omega arith,
                (omega arith, (omega arith, omega arith)),
                (refl, above (codes "min interval") refl),
                (
                  omega arith,
                  peers_value-Fits compact r.peers short few ports,
                  above (codes "peers") refl,
                  peers6-FitEntries compact r.peers few,
                ),
              ),
            ),
          ),
        ),
      )
