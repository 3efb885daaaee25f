-- ===== src/Announce/Address.antt =====
-- Network addresses, `is_private_ip` of crates/sharerr-core/src/endpoint.rs, and
-- `AnnounceRequest` with `resolve_addr`.
use Prim.Native.Nat.{bit_and}
use sharerr_rs.Prelude.{
  Bool, Bytes, Option, Option-cases, arith, false, if◌then◌else◌, inl, inr, leb, list_eq, nat_eq,
  none, refl, some, ℕ, ◌%◌, ◌&&◌, ◌/◌, ◌==◌, ◌||◌, ◌≡◌,
}

-- Four octets, or eight segments of 16 bits.
pub data IpAddr : Type 0 where
  v4 : ℕ → ℕ → ℕ → ℕ → IpAddr
  v6 : ℕ → ℕ → ℕ → ℕ → ℕ → ℕ → ℕ → ℕ → IpAddr

pub record SocketAddr : Type 0 where
  pub ip : IpAddr
  pub port : ℕ

-- `Ipv4Addr::is_private`, `is_loopback` and `is_link_local`
is_local_v4 : ℕ → ℕ → Bool
is_local_v4 a b =
    (a == 10 || a == 172 && leb 16 b && leb b 31 || a == 192 && b == 168)
    || a == 127
    || a == 169 && b == 254

is_loopback_v6 : ℕ → ℕ → ℕ → ℕ → ℕ → ℕ → ℕ → ℕ → Bool
is_loopback_v6 a b c d e f g h =
    a == 0 && b == 0 && c == 0 && d == 0 && e == 0 && f == 0 && g == 0 && h == 1

unfoldable pub is_private_ip : IpAddr → Bool
unfolding is_local_v4 is_loopback_v6
is_private_ip (v4 a b c d) = is_local_v4 a b
is_private_ip (v6 a b c d e f g h) = is_loopback_v6 a b c d e f g h || bit_and a 0xfe00 == 0xfc00

-- `IpAddr::to_canonical`: an IPv4-mapped address is that IPv4 address.
unfoldable pub to_canonical : IpAddr → IpAddr
to_canonical (v4 a b c d) = v4 a b c d
to_canonical (v6 a b c d e f g h) =
    if a == 0 && b == 0 && c == 0 && d == 0 && e == 0 && f == 0xffff
    then v4 (g / 256) (g % 256) (h / 256) (h % 256)
    else v6 a b c d e f g h

pub data Event : Type 0 where
  started stopped completed periodic : Event

abbrev pub InfoHash : Type 0
InfoHash = Bytes

abbrev pub PeerId : Type 0
PeerId = Bytes

pub record AnnounceRequest : Type 0 where
  pub info_hash : InfoHash
  pub peer_id : PeerId
  pub port : ℕ
  pub left : ℕ
  pub uploaded : ℕ
  pub downloaded : ℕ
  pub event : Event
  pub compact : Bool
  pub numwant : ℕ
  pub declared_ip : Option IpAddr

-- `match self.declared_ip.map(|ip| ip.to_canonical())`, behind the canonical remote address
unfoldable pub chosen_ip : Option IpAddr → IpAddr → IpAddr
unfolding is_private_ip to_canonical
chosen_ip none remote = remote
chosen_ip (some declared) remote = if is_private_ip remote then to_canonical declared else remote

unfoldable pub resolve_addr : AnnounceRequest → IpAddr → SocketAddr
unfolding chosen_ip to_canonical
resolve_addr r remote = record { ip = chosen_ip r.declared_ip (to_canonical remote); port = r.port }

to_canonical_idem : (ip : IpAddr) → to_canonical (to_canonical ip) ≡ to_canonical ip
unfolding to_canonical
to_canonical_idem (v4 a b c d) = refl
to_canonical_idem (v6 a b c d e f g h) = ground arith

-- Whatever address a client declares, a peer that reaches the tracker from a public address is
-- recorded at that address, in canonical form, and under its own port.
pub resolve_addr_public :
    (r : AnnounceRequest) (remote : IpAddr)
    → is_private_ip (to_canonical remote) ≡ false
    → resolve_addr r remote ≡ record { ip = to_canonical remote; port = r.port }
unfolding resolve_addr
resolve_addr_public r remote h = ground arith

-- No peer is recorded at an IPv4-mapped IPv6 address, declared or not.
pub resolve_addr_canonical :
    (r : AnnounceRequest) (remote : IpAddr)
    → to_canonical (resolve_addr r remote).ip ≡ (resolve_addr r remote).ip
unfolding resolve_addr chosen_ip
resolve_addr_canonical r remote = elim (Option-cases r.declared_ip) [
  | inl e ↦ rw (e, chosen_ip) (to_canonical_idem remote)
  | inr (ip, e) ↦ rw (e, chosen_ip) (ground (arith, to_canonical_idem remote, to_canonical_idem ip))
]
