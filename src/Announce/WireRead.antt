-- ===== src/Announce/WireRead.antt =====
-- What a client reads of an answer: the bencoded bytes are those of one canonical dictionary.
use sharerr_rs.Prelude.{
  All, All-filter_passed, Bool, Bool-cases, Bytes, List, [], ap, arith, codes, false, filter, inl,
  inr, length, ltb, ok, refl, some, subst, true, ℕ, ◌%◌, ◌*◌, ◌++◌, ◌+◌, ◌/◌, ◌<◌, ◌∙◌, ◌∷◌, ◌≡◌,
  ◌≤◌,
}
use sharerr_rs.Announce.Address.{IpAddr, SocketAddr, v4, v6}
use sharerr_rs.Announce.Swarms.{AnnounceResponse, max_numwant}
use sharerr_rs.Announce.Wire.{is_ipv4, is_ipv6, octets, pack_all, to_be_bytes, to_bencode}
use sharerr_rs.Announce.WireFits.{IsShort, answer-Fits}
use sharerr_rs.Announce.WireValue.{answer, peers6_entry, to_bencode-encode}
use sharerr_rs.Bencode.Decode.{decode}
use sharerr_rs.Bencode.RoundTrip.{decode-encode}
use sharerr_rs.Bencode.Value.{Entries, Value, bytes, dict, get_entry, usize_max}
use sharerr_rs.Prelude.Int.{i64_max}

-- BEP 23's reading of `peers`: six bytes a peer.
unfoldable pub unpack_v4 : Bytes → List SocketAddr
unpack_v4 (a ∷ b ∷ c ∷ d ∷ p ∷ q ∷ rest) =
    (record { ip = v4 a b c d; port = p * 256 + q }) ∷ unpack_v4 rest
unpack_v4 short = []

-- BEP 7's reading of `peers6`: eighteen bytes a peer.
unfoldable pub unpack_v6 : Bytes → List SocketAddr
unpack_v6 (a ∷ a' ∷ b ∷ b' ∷ c ∷ c' ∷ d ∷ d' ∷ e ∷ e' ∷ f ∷ f' ∷ g ∷ g' ∷ h ∷ h' ∷ p ∷ q ∷ rest) =
    (record {
      ip =
          v6 (a * 256 + a') (b * 256 + b') (c * 256 + c') (d * 256 + d') (e * 256 + e')
            (f * 256 + f') (g * 256 + g') (h * 256 + h');
      port = p * 256 + q;
    })
    ∷ unpack_v6 rest
unpack_v6 short = []

be_bytes : (n : ℕ) → n / 256 * 256 + n % 256 ≡ n
be_bytes n = omega arith

unpack_v4-octets :
    (ip : IpAddr) (port : ℕ) (rest : Bytes)
    → is_ipv4 (record { ip = ip; port = port }) ≡ true
    → unpack_v4 ((octets ip ++ to_be_bytes port) ++ rest)
      ≡ record { ip = ip; port = port } ∷ unpack_v4 rest
unfolding unpack_v4 octets
unpack_v4-octets (v4 a b c d) port rest h = simp be_bytes
unpack_v4-octets (v6 a b c d e f g h) port rest eq = ground arith

unpack_v6-octets :
    (ip : IpAddr) (port : ℕ) (rest : Bytes)
    → is_ipv6 (record { ip = ip; port = port }) ≡ true
    → unpack_v6 ((octets ip ++ to_be_bytes port) ++ rest)
      ≡ record { ip = ip; port = port } ∷ unpack_v6 rest
unfolding unpack_v6 octets
unpack_v6-octets (v4 a b c d) port rest eq = ground arith
unpack_v6-octets (v6 a b c d e f g h) port rest eq = simp be_bytes

-- Either family of the peers is read back in its order.
pub unpack_v4-pack_all :
    (peers : List SocketAddr)
    → All (λ addr. is_ipv4 addr ≡ true) peers
    → unpack_v4 (pack_all peers) ≡ peers
unfolding unpack_v4 pack_all
unpack_v4-pack_all [] h = refl
unpack_v4-pack_all (addr ∷ rest) (v, h) =
    unpack_v4-octets addr.ip addr.port (pack_all rest) v
    ∙ ap (λ t. addr ∷ t) (unpack_v4-pack_all rest h)

pub unpack_v6-pack_all :
    (peers : List SocketAddr)
    → All (λ addr. is_ipv6 addr ≡ true) peers
    → unpack_v6 (pack_all peers) ≡ peers
unfolding unpack_v6 pack_all
unpack_v6-pack_all [] h = refl
unpack_v6-pack_all (addr ∷ rest) (v, h) =
    unpack_v6-octets addr.ip addr.port (pack_all rest) v
    ∙ ap (λ t. addr ∷ t) (unpack_v6-pack_all rest h)

-- What a client reads of `peers` and `peers6` in a dictionary.
abbrev pub packed_under : Bytes → Entries → Bytes
packed_under key es = elim (get_entry key es) [ some (bytes b) ↦ b | _ ↦ [] ]

unfoldable pub read_peers : Value → List SocketAddr
unfolding unpack_v4 unpack_v6
read_peers (dict es) =
    unpack_v4 (packed_under (codes "peers") es) ++ unpack_v6 (packed_under (codes "peers6") es)
read_peers v = []

pack_all-empty : (peers : List SocketAddr) → ltb 0 (length peers) ≡ false → pack_all peers ≡ []
unfolding pack_all
pack_all-empty [] h = refl
pack_all-empty (addr ∷ rest) h = ground arith

packed_under-peers6_entry :
    (peers : List SocketAddr)
    → packed_under (codes "peers6") (peers6_entry true peers) ≡ pack_all (filter is_ipv6 peers)
unfolding peers6_entry get_entry pack_all
packed_under-peers6_entry peers = elim (Bool-cases (ltb 0 (length (filter is_ipv6 peers)))) [
  | inl some_v6 ↦ rw some_v6 refl
  | inr no_v6 ↦ rw (pack_all-empty (filter is_ipv6 peers) no_v6, no_v6) refl
]

module _ (to_string : IpAddr → Bytes) where
  read_peers-answer :
      (r : AnnounceResponse)
      → read_peers (answer to_string r true) ≡ filter is_ipv4 r.peers ++ filter is_ipv6 r.peers
  unfolding read_peers get_entry
  read_peers-answer r =
      ap (λ t. unpack_v4 (pack_all (filter is_ipv4 r.peers)) ++ unpack_v6 t)
        (packed_under-peers6_entry r.peers)
      ∙ (ap (λ t. t ++ unpack_v6 (pack_all (filter is_ipv6 r.peers)))
            (unpack_v4-pack_all (filter is_ipv4 r.peers) (All-filter_passed is_ipv4 r.peers))
          ∙ ap (λ t. filter is_ipv4 r.peers ++ t)
              (unpack_v6-pack_all (filter is_ipv6 r.peers) (All-filter_passed is_ipv6 r.peers)))

  -- An answer of at most `max_numwant` peers is decoded to its dictionary, whose keys ascend, and of
  -- the compact form a client unpacks every peer: those of IPv4, then those of IPv6, in order. The
  -- counts fit 63 bits, ports 16, and the text of an address has at most 45 bytes.
  pub decode-to_bencode :
      (r : AnnounceResponse) (compact : Bool)
      → IsShort to_string
      → r.complete ≤ i64_max
      → r.incomplete ≤ i64_max
      → length r.peers ≤ max_numwant
      → All (λ addr. addr.port < 65536) r.peers
      → length (to_bencode to_string r compact) ≤ usize_max
      → (decode (to_bencode to_string r compact) ≡ ok (answer to_string r compact))
        × (read_peers (answer to_string r true) ≡ filter is_ipv4 r.peers ++ filter is_ipv6 r.peers)
  decode-to_bencode r compact short c i few ports room =
      let same = to_bencode-encode to_string r compact c i in
      (
        ap decode same
            ∙ decode-encode (answer to_string r compact)
                (answer-Fits to_string r compact short c i few ports)
                (subst (λ t. length t ≤ usize_max) same room),
        read_peers-answer r,
      )
