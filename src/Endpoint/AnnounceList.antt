-- ===== src/Endpoint/AnnounceList.antt =====
-- crates/sharerr-torrent/src/tracker.rs: the announce list of a torrent, over the bases of the
-- endpoint. The url crate's `as_str` and `parse` are parameters.
use sharerr_rs.Prelude.{
  Bytes, List, Option, PartialEq, Result, [], codes, err, if◌then◌else◌, leb, length, list_eq, map,
  nat_eq, none, ok, some, ℕ, ◌++◌, ◌==◌, ◌∷◌,
}
use sharerr_rs.Endpoint.State.{Inner, recent}
use sharerr_rs.Paths.Resolver.{component_eq}

-- Of `TorrentError`, the two that are raised here; the rest are raised where a torrent is built.
pub data TorrentError (Url : Type 0) : Type 0 where
  no_advertised_host : TorrentError Url
  announce_url_invalid : Url → TorrentError Url

-- `AnnounceSet`
pub record AnnounceSet (Url : Type 0) : Type 0 where
  pub primary : Url
  pub fallbacks : List Url

abbrev pub tiers : {Url : Type 0} → AnnounceSet Url → List Url
tiers set = set.primary ∷ set.fallbacks

-- `trim_end_matches('/')`
abbrev pub without_slashes : ℕ → Bytes → Bytes
without_slashes c [] = if c == b'/' then [] else c ∷ []
without_slashes c (d ∷ s) = c ∷ d ∷ s

unfoldable pub trim_end_slashes : Bytes → Bytes
trim_end_slashes [] = []
trim_end_slashes (c ∷ s) = without_slashes c (trim_end_slashes s)

abbrev pub with_token : Bytes → Option Bytes → Bytes
with_token joined none = joined
with_token joined (some token) = joined ++ b'/' ∷ token

abbrev pub from_tiers : {Url : Type 0} → List Url → Result (TorrentError Url) (AnnounceSet Url)
from_tiers [] = err no_advertised_host
from_tiers (u ∷ us) = ok (record { primary = u; fallbacks = us })

-- `ok_or_else` behind `Url::parse`
abbrev pub or_invalid : {Url : Type 0} → Url → Option Url → Result (TorrentError Url) Url
or_invalid base none = err (announce_url_invalid base)
or_invalid base (some u) = ok u

-- One step of `collect` into a `Result`.
abbrev pub onto :
    {Url : Type 0}
    → Result (TorrentError Url) Url
    → Result (TorrentError Url) (List Url)
    → Result (TorrentError Url) (List Url)
onto (err e) rest = err e
onto (ok u) (err e) = err e
onto (ok u) (ok us) = ok (u ∷ us)

abbrev pub into_set :
    {Url : Type 0}
    → Result (TorrentError Url) (List Url)
    → Result (TorrentError Url) (AnnounceSet Url)
into_set (err e) = err e
into_set (ok us) = from_tiers us

module _ {Url : Type 0} ⦃e : PartialEq Url⦄ (as_str : Url → Bytes)
    (parse_url : Bytes → Option Url) where
  unfoldable pub base_string : Url → Bytes
  unfolding trim_end_slashes
  base_string base = trim_end_slashes (as_str base)

  unfoldable pub join_path : Url → Bytes → Bytes
  unfolding base_string
  join_path base path = base_string base ++ path

  unfoldable pub announce_url : Url → Option Bytes → Result (TorrentError Url) Url
  unfolding join_path
  announce_url base token =
      or_invalid base (parse_url (with_token (join_path base (codes "/announce")) token))

  unfoldable pub announce_urls : List Url → Option Bytes → Result (TorrentError Url) (List Url)
  unfolding announce_url
  announce_urls [] token = ok []
  announce_urls (base ∷ bases) token = onto (announce_url base token) (announce_urls bases token)

  unfoldable pub announce_set_for :
      Inner Url → Option Bytes → Result (TorrentError Url) (AnnounceSet Url)
  unfolding announce_urls recent
  announce_set_for s token = into_set (announce_urls (recent s) token)

  unfoldable pub tier_list : AnnounceSet Url → Option (List (List Bytes))
  tier_list set =
      if leb (length (tiers set)) 1 then none else some (map (λ u. as_str u ∷ []) (tiers set))
