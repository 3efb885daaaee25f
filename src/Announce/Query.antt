-- ===== src/Announce/Query.antt =====
-- `parse_query` and `AnnounceRequest::parse`. The percent_encoding crate's `percent_decode` and the
-- reading of an address from text are parameters.
use sharerr_rs.Prelude.{
  Bool, Bytes, List, Option, Result, [], and_then, codes, err, false, foldl, if◌then◌else◌, length,
  list_eq, ltb, map, min, nat_eq, none, not, ok, some, true, ℕ, ◌-◌, ◌==◌, ◌^◌, ◌||◌, ◌∷◌,
}
use sharerr_rs.Announce.Address.{
  AnnounceRequest, Event, IpAddr, completed, periodic, started, stopped,
}
use sharerr_rs.Announce.Swarms.{max_numwant}
use sharerr_rs.Bencode.Decode.{split_at, value}
use sharerr_rs.Paths.Resolver.{component_eq}
use sharerr_rs.Prelude.Decimal.{parse_unsigned}
use sharerr_rs.Prelude.HashMap.{HashMap, get, insert}
use sharerr_rs.Prelude.Utf8.{is_utf8}

abbrev pub hash_len : ℕ
hash_len = 20

abbrev pub u64_max : ℕ
u64_max = 2 ^ 64 - 1

pub data AnnounceError : Type 0 where
  missing : Bytes → AnnounceError
  bad_length : Bytes → ℕ → AnnounceError
  not_a_number : Bytes → AnnounceError
  unknown_torrent bad_token : AnnounceError

abbrev pub onto_first : ℕ → List Bytes → List Bytes
onto_first c [] = (c ∷ []) ∷ []
onto_first c (piece ∷ pieces) = (c ∷ piece) ∷ pieces

-- `slice::split`
unfoldable pub split_on : ℕ → Bytes → List Bytes
split_on b [] = [] ∷ []
split_on b (c ∷ s) =
    let pieces = split_on b s in if c == b then [] ∷ pieces else onto_first c pieces

abbrev pub key_and_value : Bytes → Option (Bytes × Bytes) → Bytes × Bytes
key_and_value pair none = (pair, [])
key_and_value pair (some parts) = parts

abbrev pub has_plus : Bytes → Bool
has_plus [] = false
has_plus (c ∷ s) = c == b'+' || has_plus s

abbrev pub Params : Type 0
Params = HashMap Bytes Bytes

-- `get` of `AnnounceRequest::parse`
abbrev pub required : Bytes → Option Bytes → Result AnnounceError Bytes
required key none = err (missing key)
required key (some raw) = ok raw

unfoldable pub hash : Params → Bytes → Result AnnounceError Bytes
hash params key =
    and_then (required key (get key params))
      λ raw. if length raw == hash_len then ok raw else err (bad_length key (length raw))

abbrev pub or_not_a_number : Bytes → Option ℕ → Result AnnounceError ℕ
or_not_a_number key none = err (not_a_number key)
or_not_a_number key (some n) = ok n

unfoldable pub number_of : Bytes → ℕ → Option Bytes → Result AnnounceError ℕ
unfolding parse_unsigned
number_of key default none = ok default
number_of key default (some raw) = or_not_a_number key (parse_unsigned u64_max raw)

unfoldable pub number : Params → Bytes → ℕ → Result AnnounceError ℕ
unfolding number_of
number params key default = number_of key default (get key params)

-- `u16::try_from`
unfoldable pub port_of : Params → Result AnnounceError ℕ
unfolding number
port_of params = and_then (number params (codes "port") 0) λ n.
    if ltb 65535 n
    then err (not_a_number (codes "port"))
    else if n == 0
    then err (missing (codes "port"))
    else ok n

unfoldable pub parse_event : Option Bytes → Event
parse_event none = periodic
parse_event (some raw) =
    if raw == codes "started"
    then started
    else if raw == codes "stopped"
    then stopped
    else if raw == codes "completed"
    then completed
    else periodic

-- `is_none_or(|v| v != b"0")`
abbrev pub is_compact : Option Bytes → Bool
is_compact none = true
is_compact (some raw) = not (raw == codes "0")

module _ (percent_decode : Bytes → Bytes) where
  -- The source's `percent_decode`, around the crate's.
  unfoldable pub decoded : Bytes → Bytes
  decoded raw =
      if has_plus raw
      then percent_decode (map (λ c. if c == b'+' then b' ' else c) raw)
      else percent_decode raw

  unfoldable pub insert_pair : Params → Bytes → Params
  unfolding decoded is_utf8 split_at
  insert_pair params [] = params
  insert_pair params (c ∷ s) =
      let (key, value) = key_and_value (c ∷ s) (split_at b'=' (c ∷ s)) in
      if is_utf8 key then insert key (decoded value) params else params

  unfoldable pub parse_query : Bytes → Params
  unfolding insert_pair split_on
  parse_query query = foldl insert_pair [] (split_on b'&' query)

  module _ (parse_ip : Bytes → Option IpAddr) where
    abbrev pub declared : Option Bytes → Option IpAddr
    declared none = none
    declared (some raw) = parse_ip raw

    unfoldable pub parse : Bytes → Result AnnounceError AnnounceRequest
    unfolding parse_query port_of hash number parse_event
    parse query =
        let params = parse_query query in
        and_then (port_of params) λ port. and_then (hash params (codes "info_hash")) λ info_hash.
          and_then (hash params (codes "peer_id")) λ peer_id.
            and_then (number params (codes "left") 0) λ left.
              and_then (number params (codes "uploaded") 0) λ uploaded.
                and_then (number params (codes "downloaded") 0) λ downloaded.
                  and_then (number params (codes "numwant") max_numwant) λ numwant. ok (record {
                    info_hash = info_hash;
                    peer_id = peer_id;
                    port = port;
                    left = left;
                    uploaded = uploaded;
                    downloaded = downloaded;
                    event = parse_event (get (codes "event") params);
                    compact = is_compact (get (codes "compact") params);
                    numwant = min numwant max_numwant;
                    declared_ip = declared (get (codes "ip") params);
                  })
