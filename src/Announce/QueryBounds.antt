-- ===== src/Announce/QueryBounds.antt =====
-- What a parsed announce keeps to.
use sharerr_rs.Prelude.{
  Bool-cases, Bytes, Option, Result, and_then, arith, codes, err, if◌then◌else◌, inl, inr, length,
  list_eq, ltb, nat_eq, nat_eqb_iff, none, ok, some, ℕ, ◌<◌, ◌==◌, ◌≡◌, ◌≢◌, ◌≤◌,
}
use sharerr_rs.Announce.Address.{AnnounceRequest, IpAddr}
use sharerr_rs.Announce.Query.{
  AnnounceError, Params, bad_length, bad_token, hash, hash_len, missing, not_a_number, number,
  number_of, or_not_a_number, parse, parse_query, port_of, required, u64_max, unknown_torrent,
}
use sharerr_rs.Announce.Swarms.{max_numwant}
use sharerr_rs.Paths.Resolver.{component_eq}
use sharerr_rs.Prelude.Decimal.{parse_unsigned}
use sharerr_rs.Prelude.Decimal.RoundTrip.{IfSome, parse_unsigned-IfSome}
use sharerr_rs.Prelude.HashMap.{get}

-- A result has the property, or it is a refusal of the query itself.
abbrev pub Sound : {A : Type 0} → (A → Type 0) → Result AnnounceError A → Type 0
Sound P (ok a) = P a
Sound P (err e) = (e ≢ unknown_torrent) × (e ≢ bad_token)

Sound-and_then :
    {A B : Type 0} (P : A → Type 0) (Q : B → Type 0) (m : Result AnnounceError A)
    (f : A → Result AnnounceError B)
    → Sound P m
    → ((a : A) → P a → Sound Q (f a))
    → Sound Q (and_then m f)
Sound-and_then P Q (ok a) f h k = k a h
Sound-and_then P Q (err e) f h k = h

or_not_a_number-Sound :
    (key : Bytes) (o : Option ℕ)
    → IfSome (λ n. n ≤ u64_max) o
    → Sound (λ n. n ≤ u64_max) (or_not_a_number key o)
or_not_a_number-Sound key none h = ((λ e. cc e), (λ e. cc e))
or_not_a_number-Sound key (some n) h = h

number_of-Sound :
    (key : Bytes) (default : ℕ) (raw : Option Bytes)
    → default ≤ u64_max
    → Sound (λ n. n ≤ u64_max) (number_of key default raw)
unfolding number_of
number_of-Sound key default none h = h
number_of-Sound key default (some raw) h =
    or_not_a_number-Sound key (parse_unsigned u64_max raw) (parse_unsigned-IfSome u64_max raw)

number-Sound :
    (params : Params) (key : Bytes) (default : ℕ)
    → default ≤ u64_max
    → Sound (λ n. n ≤ u64_max) (number params key default)
unfolding number
number-Sound params key default h = number_of-Sound key default (get key params) h

required-Sound : (key : Bytes) (raw : Option Bytes) → Sound (λ _. Unit {0}) (required key raw)
required-Sound key none = ((λ h. cc h), (λ h. cc h))
required-Sound key (some raw) = tt

long_hash-Sound :
    (key raw : Bytes)
    → Sound
        (λ raw. length raw ≡ hash_len)
        (if length raw == hash_len then ok raw else err (bad_length key (length raw)))
long_hash-Sound key raw = elim (Bool-cases (length raw == hash_len)) [
  | inl same ↦ rw same ((nat_eqb_iff (length raw) hash_len).0 same)
  | inr other ↦ rw other ((λ e. cc e), (λ e. cc e))
]

port_range-Sound :
    (n : ℕ)
    → Sound
        (λ n. (0 < n) × (n ≤ 65535))
        (if ltb 65535 n
          then err (not_a_number (codes "port"))
          else if n == 0
          then err (missing (codes "port"))
          else ok n)
port_range-Sound n = elim (Bool-cases (ltb 65535 n)) [
  | inl big ↦ rw big ((λ e. cc e), (λ e. cc e))
  | inr fits ↦ elim (Bool-cases (n == 0)) [
    | inl absent ↦ rw (fits, absent) ((λ e. cc e), (λ e. cc e))
    | inr there ↦ rw (fits, there) (ground arith, ground arith)
  ]
]

hash-Sound :
    (params : Params) (key : Bytes) → Sound (λ raw. length raw ≡ hash_len) (hash params key)
unfolding hash
hash-Sound params key =
    Sound-and_then (λ _. Unit {0}) (λ raw. length raw ≡ hash_len) (required key (get key params)) _
      (required-Sound key (get key params)) (λ raw _. long_hash-Sound key raw)

port_of-Sound : (params : Params) → Sound (λ n. (0 < n) × (n ≤ 65535)) (port_of params)
unfolding port_of
port_of-Sound params =
    Sound-and_then (λ n. n ≤ u64_max) (λ n. (0 < n) × (n ≤ 65535)) (number params (codes "port") 0)
      _ (number-Sound params (codes "port") 0 (omega arith)) (λ n _. port_range-Sound n)

abbrev pub IsRequest : AnnounceRequest → Type 0
IsRequest r =
    (0 < r.port)
    × (r.port ≤ 65535)
    × (length r.info_hash ≡ hash_len)
    × (length r.peer_id ≡ hash_len)
    × (r.left ≤ u64_max)
    × (r.uploaded ≤ u64_max)
    × (r.downloaded ≤ u64_max)
    × (r.numwant ≤ max_numwant)

-- Of any query, the parser refuses it for its own reasons, or the port is one to connect to, both
-- hashes have 20 bytes, the counters fit 64 bits, and at most `max_numwant` peers are asked for.
pub parse-Sound :
    (percent_decode : Bytes → Bytes) (parse_ip : Bytes → Option IpAddr) (query : Bytes)
    → Sound IsRequest (parse percent_decode parse_ip query)
unfolding parse
parse-Sound percent_decode parse_ip query =
    let params = parse_query percent_decode query in
    Sound-and_then (λ n. (0 < n) × (n ≤ 65535)) IsRequest (port_of params) _ (port_of-Sound params)
      λ port p.
        Sound-and_then (λ raw. length raw ≡ hash_len) IsRequest (hash params (codes "info_hash")) _
          (hash-Sound params (codes "info_hash"))
          λ info_hash i.
            Sound-and_then (λ raw. length raw ≡ hash_len) IsRequest (hash params (codes "peer_id"))
              _ (hash-Sound params (codes "peer_id"))
              λ peer_id q.
                Sound-and_then (λ n. n ≤ u64_max) IsRequest (number params (codes "left") 0) _
                  (number-Sound params (codes "left") 0 (omega arith))
                  λ left l.
                    Sound-and_then (λ n. n ≤ u64_max) IsRequest (number params (codes "uploaded") 0)
                      _ (number-Sound params (codes "uploaded") 0 (omega arith))
                      λ uploaded u.
                        Sound-and_then (λ n. n ≤ u64_max) IsRequest
                          (number params (codes "downloaded") 0) _
                          (number-Sound params (codes "downloaded") 0 (omega arith))
                          λ downloaded d.
                            Sound-and_then (λ n. n ≤ u64_max) IsRequest
                              (number params (codes "numwant") max_numwant) _
                              (number-Sound params (codes "numwant") max_numwant (omega arith))
                              λ numwant w. (p.0, p.1, i, q, l, u, d, omega arith)
