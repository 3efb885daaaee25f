-- ===== src/Announce/WireValue.antt =====
-- The dictionary that an answer is.
use sharerr_rs.Prelude.{
  Bool, Bool-cases, Bytes, List, [], ap, append-nil, append_assoc, arith, codes, false, filter,
  if◌then◌else◌, inl, inr, length, length-append, ltb, refl, sym, true, ℕ, ◌&&◌, ◌*◌, ◌++◌, ◌+◌,
  ◌-◌, ◌∙◌, ◌∷◌, ◌≡◌, ◌≤◌,
}
use sharerr_rs.Announce.Address.{IpAddr, SocketAddr, v4, v6}
use sharerr_rs.Announce.Swarms.{AnnounceResponse, interval_secs, min_interval_secs}
use sharerr_rs.Announce.Wire.{
  as_i64, is_ipv4, is_ipv6, octets, pack_all, pack_compact, put_int, put_peers, put_peers6,
  to_bencode, write_peer, write_peers,
}
use sharerr_rs.Bencode.Encode.{encode, write, write_bytes, write_entries, write_items, write_len}
use sharerr_rs.Bencode.Value.{Entries, Items, Value, bytes, cons, dict, end, entry, int, list, nil}
use sharerr_rs.Prelude.Int.{i64_max, pos, ℤ}

-- The entries of one answer, in the order of their keys.
unfoldable pub peers6_entry : Bool → List SocketAddr → Entries
unfolding pack_all
peers6_entry compact peers =
    if compact && ltb 0 (length (filter is_ipv6 peers))
    then entry (codes "peers6") (bytes (pack_all (filter is_ipv6 peers))) end
    else end

module _ (to_string : IpAddr → Bytes) where
  abbrev pub peer_value : SocketAddr → Value
  peer_value addr = dict (
      entry (codes "ip") (bytes (to_string addr.ip))
        (entry (codes "port") (int (pos addr.port)) end))

  abbrev pub peer_values : List SocketAddr → Items
  peer_values [] = nil
  peer_values (addr ∷ rest) = cons (peer_value addr) (peer_values rest)

  abbrev pub peers_value : Bool → List SocketAddr → Value
  peers_value true peers = bytes (pack_all (filter is_ipv4 peers))
  peers_value false peers = list (peer_values (filter is_ipv4 peers ++ filter is_ipv6 peers))

  abbrev pub answer : AnnounceResponse → Bool → Value
  answer r compact = dict (
      entry (codes "complete") (int (pos r.complete)) (
        entry (codes "incomplete") (int (pos r.incomplete)) (
          entry (codes "interval") (int (pos interval_secs)) (
            entry (codes "min interval") (int (pos min_interval_secs)) (
              entry (codes "peers") (peers_value compact r.peers)
                (peers6_entry compact r.peers))))))

as_i64_small : (n : ℕ) → n ≤ i64_max → as_i64 n ≡ pos n
unfolding as_i64
as_i64_small n h = ground arith

length-pack_ip :
    (ip : IpAddr) (port : ℕ)
    → length (pack_compact (record { ip = ip; port = port }))
      ≡ (if is_ipv6 (record { ip = ip; port = port }) then 18 else 6)
unfolding pack_compact octets
length-pack_ip (v4 a b c d) port = refl
length-pack_ip (v6 a b c d e f g h) port = refl

length-pack_compact :
    (addr : SocketAddr) → length (pack_compact addr) ≡ (if is_ipv6 addr then 18 else 6)
length-pack_compact addr = length-pack_ip addr.ip addr.port

length-filter_families :
    (peers : List SocketAddr)
    → length (filter is_ipv4 peers) + length (filter is_ipv6 peers) ≡ length peers
length-filter_families [] = refl
length-filter_families (addr ∷ rest) = ground (arith, length-filter_families rest)

pub length-pack_all-filter :
    (peers : List SocketAddr)
    → length (pack_all (filter is_ipv4 peers)) ≡ length (filter is_ipv4 peers) * 6
unfolding pack_all
length-pack_all-filter [] = refl
length-pack_all-filter (addr ∷ rest) = ground (
  arith,
  length-pack_compact addr,
  length-append (pack_compact addr) (pack_all (filter is_ipv4 rest)),
  length-pack_all-filter rest,
)

-- The packed peers are as long as their prefix says.
length-pack_all_v4 :
    (peers : List SocketAddr)
    → length (pack_all (filter is_ipv4 peers)) ≡ (length peers - length (filter is_ipv6 peers)) * 6
unfolding pack_all
length-pack_all_v4 peers = omega (arith, length-pack_all-filter peers, length-filter_families peers)

pub length-pack_all_v6 :
    (peers : List SocketAddr)
    → length (pack_all (filter is_ipv6 peers)) ≡ length (filter is_ipv6 peers) * 18
unfolding pack_all
length-pack_all_v6 [] = refl
length-pack_all_v6 (addr ∷ rest) = ground (
  arith,
  length-pack_compact addr,
  length-append (pack_compact addr) (pack_all (filter is_ipv6 rest)),
  length-pack_all_v6 rest,
)

module _ (to_string : IpAddr → Bytes) where
  write_peer-write :
      (addr : SocketAddr) → write_peer to_string addr ≡ write (peer_value to_string addr)
  unfolding write_peer write
  write_peer-write addr = simp append_assoc

  write_peers-write_items :
      (peers : List SocketAddr)
      → write_peers to_string peers ≡ write_items (peer_values to_string peers)
  unfolding write_peers write
  write_peers-write_items [] = refl
  write_peers-write_items (addr ∷ rest) =
      ap (λ t. t ++ write_peers to_string rest) (write_peer-write addr)
      ∙ ap (λ t. write (peer_value to_string addr) ++ t) (write_peers-write_items rest)

  put_peers-write :
      (compact : Bool) (peers : List SocketAddr)
      → put_peers to_string compact peers ≡ write (peers_value to_string compact peers)
  unfolding put_peers write
  put_peers-write true peers =
      ap (λ n. write_len n ++ pack_all (filter is_ipv4 peers)) (sym (length-pack_all_v4 peers))
  put_peers-write false peers =
      ap (λ t. b'l' ∷ t ++ b'e' ∷ [])
        (write_peers-write_items (filter is_ipv4 peers ++ filter is_ipv6 peers))

  put_peers6-write :
      (compact : Bool) (peers : List SocketAddr)
      → put_peers6 to_string compact peers ≡ write_entries (peers6_entry compact peers)
  unfolding put_peers6 peers6_entry write
  put_peers6-write compact peers =
      let packed = pack_all (filter is_ipv6 peers) in
      elim (Bool-cases (compact && ltb 0 (length (filter is_ipv6 peers)))) [
        | inl some_v6 ↦ rw some_v6 (
            ap (λ n. write_bytes (codes "peers6") ++ write_len n ++ packed)
              (sym (length-pack_all_v6 peers))
            ∙ ap (λ t. write_bytes (codes "peers6") ++ t) (sym (append-nil (write_bytes packed))))
        | inr no_v6 ↦ rw no_v6 refl
      ]

  -- The answer with its counts and its peers.
  framed : ℤ → ℤ → Bytes → Bytes
  framed complete incomplete peers =
      b'd' ∷ put_int (codes "complete") complete
      ++ put_int (codes "incomplete") incomplete
      ++ put_int (codes "interval") (pos interval_secs)
      ++ put_int (codes "min interval") (pos min_interval_secs)
      ++ write_bytes (codes "peers")
      ++ peers

  framed-encode :
      (complete incomplete : ℕ) (peers : Value) (es : Entries)
      → framed (pos complete) (pos incomplete) (write peers ++ write_entries es ++ b'e' ∷ [])
        ≡ write (
            dict (
              entry (codes "complete") (int (pos complete)) (
                entry (codes "incomplete") (int (pos incomplete)) (
                  entry (codes "interval") (int (pos interval_secs)) (
                    entry
                      (codes "min interval")
                      (int (pos min_interval_secs))
                      (entry (codes "peers") peers es))))))
  unfolding framed put_int write
  framed-encode complete incomplete peers es = simp append_assoc

  to_bencode-framed :
      (r : AnnounceResponse) (compact : Bool)
      → to_bencode to_string r compact
        ≡ framed (as_i64 r.complete) (as_i64 r.incomplete) (
            put_peers to_string compact r.peers
            ++ put_peers6 to_string compact r.peers
            ++ b'e' ∷ [])
  unfolding to_bencode framed
  to_bencode-framed r compact = simp append_assoc

  pub to_bencode-encode :
      (r : AnnounceResponse) (compact : Bool)
      → r.complete ≤ i64_max
      → r.incomplete ≤ i64_max
      → to_bencode to_string r compact ≡ encode (answer to_string r compact)
  unfolding encode
  to_bencode-encode r compact c i =
      let v = put_peers to_string compact r.peers in
      let v6s = put_peers6 to_string compact r.peers in
      let value = peers_value to_string compact r.peers in
      let framed' = framed (pos r.complete) (pos r.incomplete) in
      to_bencode-framed r compact
      ∙ (ap (λ n. framed n (as_i64 r.incomplete) (v ++ v6s ++ b'e' ∷ []))
            (as_i64_small r.complete c)
          ∙ (ap (λ n. framed (pos r.complete) n (v ++ v6s ++ b'e' ∷ []))
                (as_i64_small r.incomplete i)
              ∙ (ap (λ t. framed' (t ++ v6s ++ b'e' ∷ [])) (put_peers-write compact r.peers)
                  ∙ (ap (λ t. framed' (write value ++ t ++ b'e' ∷ []))
                        (put_peers6-write compact r.peers)
                      ∙ framed-encode r.complete r.incomplete value
                          (peers6_entry compact r.peers)))))
