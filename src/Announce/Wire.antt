-- ===== src/Announce/Wire.antt =====
-- The bencoded answers: `to_bencode`, `failure_bencode`, `scrape_bencode` and `pack_compact`.
-- A writer is what it appends. The text of an address (its `Display`) is a parameter.
use sharerr_rs.Prelude.{
  Bool, Bytes, List, [], codes, false, filter, if◌then◌else◌, leb, length, ltb, not, true, ℕ, ◌%◌,
  ◌&&◌, ◌*◌, ◌++◌, ◌-◌, ◌/◌, ◌^◌, ◌∷◌,
}
use sharerr_rs.Announce.Address.{InfoHash, IpAddr, SocketAddr, v4, v6}
use sharerr_rs.Announce.Swarms.{AnnounceResponse, interval_secs, min_interval_secs}
use sharerr_rs.Bencode.Decode.{value}
use sharerr_rs.Bencode.Encode.{encode, write_bytes, write_int, write_len}
use sharerr_rs.Bencode.Value.{Entries, Value, bytes, dict, end, entry, insert_entry, int}
use sharerr_rs.Prelude.Int.{i64_max, negsuc, pos, ℤ}

abbrev pub is_ipv6 : SocketAddr → Bool
is_ipv6 addr = elim addr.ip [ v4 a b c d ↦ false | v6 a b c d e f g h ↦ true ]

abbrev pub is_ipv4 : SocketAddr → Bool
is_ipv4 addr = not (is_ipv6 addr)

abbrev pub to_be_bytes : ℕ → Bytes
to_be_bytes n = n / 256 ∷ n % 256 ∷ []

unfoldable pub octets : IpAddr → Bytes
octets (v4 a b c d) = a ∷ b ∷ c ∷ d ∷ []
octets (v6 a b c d e f g h) =
    to_be_bytes a
    ++ to_be_bytes b
    ++ to_be_bytes c
    ++ to_be_bytes d
    ++ to_be_bytes e
    ++ to_be_bytes f
    ++ to_be_bytes g
    ++ to_be_bytes h

unfoldable pub pack_compact : SocketAddr → Bytes
unfolding octets
pack_compact addr = octets addr.ip ++ to_be_bytes addr.port

-- `for_each(|addr| pack_compact(&mut out, addr))`
unfoldable pub pack_all : List SocketAddr → Bytes
unfolding pack_compact
pack_all [] = []
pack_all (addr ∷ rest) = pack_compact addr ++ pack_all rest

-- `as i64`
unfoldable pub as_i64 : ℕ → ℤ
as_i64 n = if leb n i64_max then pos n else negsuc (2 ^ 64 - 1 - n)

unfoldable pub put_int : Bytes → ℤ → Bytes
unfolding write_bytes write_int
put_int key value = write_bytes key ++ write_int value

module _ (to_string : IpAddr → Bytes) where
  unfoldable pub write_peer : SocketAddr → Bytes
  unfolding write_bytes write_int
  write_peer addr =
      b'd' ∷ write_bytes (codes "ip")
      ++ write_bytes (to_string addr.ip)
      ++ write_bytes (codes "port")
      ++ write_int (pos addr.port)
      ++ b'e' ∷ []

  unfoldable pub write_peers : List SocketAddr → Bytes
  unfolding write_peer
  write_peers [] = []
  write_peers (addr ∷ rest) = write_peer addr ++ write_peers rest

  -- The value of `peers`.
  unfoldable pub put_peers : Bool → List SocketAddr → Bytes
  unfolding write_len pack_all write_peers
  put_peers true peers =
      let v6_count = length (filter is_ipv6 peers) in
      write_len ((length peers - v6_count) * 6) ++ pack_all (filter is_ipv4 peers)
  put_peers false peers =
      b'l' ∷ write_peers (filter is_ipv4 peers ++ filter is_ipv6 peers) ++ b'e' ∷ []

  unfoldable pub put_peers6 : Bool → List SocketAddr → Bytes
  unfolding write_bytes write_len pack_all
  put_peers6 compact peers =
      let v6_count = length (filter is_ipv6 peers) in
      if compact && ltb 0 v6_count
      then write_bytes (codes "peers6")
        ++ write_len (v6_count * 18)
        ++ pack_all (filter is_ipv6 peers)
      else []

  unfoldable pub to_bencode : AnnounceResponse → Bool → Bytes
  unfolding put_int put_peers put_peers6 as_i64
  to_bencode r compact =
      b'd' ∷ put_int (codes "complete") (as_i64 r.complete)
      ++ put_int (codes "incomplete") (as_i64 r.incomplete)
      ++ put_int (codes "interval") (pos interval_secs)
      ++ put_int (codes "min interval") (pos min_interval_secs)
      ++ write_bytes (codes "peers")
      ++ put_peers compact r.peers
      ++ put_peers6 compact r.peers
      ++ b'e' ∷ []

unfoldable pub failure_bencode : Bytes → Bytes
unfolding encode
failure_bencode reason = encode (dict (entry (codes "failure reason") (bytes reason) end))

-- The `files` dictionary, collected from its entries.
unfoldable pub scrape_stats : ℕ → ℕ → Value
unfolding as_i64
scrape_stats complete incomplete = dict (
    entry (codes "complete") (int (as_i64 complete)) (
      entry (codes "downloaded") (int (as_i64 complete))
        (entry (codes "incomplete") (int (as_i64 incomplete)) end)))

unfoldable pub scrape_files : Entries → List (InfoHash × ℕ × ℕ) → Entries
unfolding insert_entry scrape_stats
scrape_files done [] = done
scrape_files done ((hash, complete, incomplete) ∷ rest) =
    scrape_files (insert_entry hash (scrape_stats complete incomplete) done) rest

unfoldable pub scrape_bencode : List (InfoHash × ℕ × ℕ) → Bytes
unfolding encode scrape_files
scrape_bencode files = encode (dict (entry (codes "files") (dict (scrape_files end files)) end))
