-- ===== src/Announce/WireTests.antt =====
-- Answers written out, and the theorems on them at concrete inputs.
use sharerr_rs.Prelude.{
  Bytes, List, [], arith, codes, false, filter, length, length-take-le, list_eq, nat_eq, ok, refl,
  take, true, ℕ, ◌++◌, ◌∷◌, ◌≡◌, ◌≤◌,
}
use sharerr_rs.Announce.Address.{InfoHash, IpAddr, v4, v6}
use sharerr_rs.Announce.Swarms.{AnnounceResponse}
use sharerr_rs.Announce.Wire.{failure_bencode, is_ipv4, is_ipv6, scrape_bencode, to_bencode}
use sharerr_rs.Announce.WireFits.{IsShort}
use sharerr_rs.Announce.WireRead.{decode-to_bencode, read_peers}
use sharerr_rs.Announce.WireValue.{answer, peers6_entry}
use sharerr_rs.Bencode.Decode.{decode}
use sharerr_rs.Bencode.Value.{get_entry, usize_max}
use sharerr_rs.Paths.Resolver.{component_eq}
use sharerr_rs.Prelude.Decimal.{decimal}
use sharerr_rs.Sync.Item.{int_eq, key_eq, source_eq}

-- The text of an IPv4 address; one text stands for those of IPv6.
abbrev dotted : IpAddr → Bytes
dotted (v4 a b c d) =
    take 45 (decimal a ++ b'.' ∷ decimal b ++ b'.' ∷ decimal c ++ b'.' ∷ decimal d)
dotted (v6 a b c d e f g h) = codes "2001:db8::1"

dotted-IsShort : IsShort dotted
unfolding decimal
dotted-IsShort (v4 a b c d) =
    length-take-le 45 (decimal a ++ b'.' ∷ decimal b ++ b'.' ∷ decimal c ++ b'.' ∷ decimal d)
dotted-IsShort (v6 a b c d e f g h) = omega arith

abbrev told : AnnounceResponse
told = record {
  peers =
      (record { ip = v4 203 0 113 7; port = 6881 })
      ∷ (record { ip = v6 8193 3512 0 0 0 0 0 1; port = 51413 })
      ∷ [];
  complete = 1;
  incomplete = 1;
  transferred = record { uploaded = 0; downloaded = 0 };
}

told_plain :
    to_bencode dotted told false
    ≡ codes
        "d8:completei1e10:incompletei1e8:intervali1800e12:min intervali900e5:peersld2:ip11:203.0.113.74:porti6881eed2:ip11:2001:db8::14:porti51413eeee"
unfolding to_bencode
told_plain = refl

told_read : read_peers (answer dotted told true) ≡ told.peers
unfolding read_peers get_entry peers6_entry
told_read = refl

told_room : length (to_bencode dotted told true) ≤ usize_max
unfolding to_bencode
told_room = omega arith

decode-to_bencode_example :
    (decode (to_bencode dotted told true) ≡ ok (answer dotted told true))
    × (read_peers (answer dotted told true)
        ≡ filter is_ipv4 told.peers ++ filter is_ipv6 told.peers)
decode-to_bencode_example =
    decode-to_bencode dotted told true dotted-IsShort (omega arith) (omega arith) (omega arith)
      (omega arith, (omega arith, tt)) told_room

abbrev scraped : List (InfoHash × ℕ × ℕ)
scraped = (codes "bb", 2, 1) ∷ (codes "aa", 1, 0) ∷ []

scraped_room : length (scrape_bencode scraped) ≤ usize_max
unfolding scrape_bencode
scraped_room = omega arith

refusal_room : length (failure_bencode (codes "no")) ≤ usize_max
unfolding failure_bencode
refusal_room = omega arith
