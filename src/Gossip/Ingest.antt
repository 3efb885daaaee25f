-- ===== src/Gossip/Ingest.antt =====
-- `ingest` of crates/sharerr/src/gossip.rs, over the store's calls that it makes. The clock, the
-- retention limit and serde_json are arguments; `verify` is the lighthouse's. The database does not
-- fail.
use sharerr_rs.Prelude.{
  Bool, Bytes, List, Option, [], false, if◌then◌else◌, list_eq, nat_eq, none, not, some, take, true,
  ℕ, ◌+◌, ◌==◌, ◌||◌, ◌∷◌,
}
use sharerr_rs.Bencode.Pieces.{at}
use sharerr_rs.Gossip.Table.{
  EndpointTable, ObservedVia, direct, gossip, parse_kind, record_peer_endpoint,
}
use sharerr_rs.Lighthouse.Record.{Crates, EndpointRecord, RecordEndpoint, verify}
use sharerr_rs.Lighthouse.State.{is_ok, max_future_skew_secs}
use sharerr_rs.Paths.Resolver.{component_eq}
use sharerr_rs.Prelude.HashMap.{HashMap, get, insert, is_some}
use sharerr_rs.Prelude.Int.{leb_ℤ, ltb_ℤ, pos, saturating_add, ℤ}
use sharerr_rs.Torrent.Fields.{bind_option}

-- A row of `peers`, but for the columns that gossip does not touch.
pub record PeerRow : Type 0 where
  pub revoked_at : Option ℤ
  pub pubkey : Option Bytes
  pub gossip_record : Option Bytes

-- The two tables: peers by their ids, and endpoints.
pub record Store : Type 0 where
  pub peers : HashMap ℕ PeerRow
  pub endpoints : EndpointTable

abbrev pub is_revoked : PeerRow → Bool
is_revoked p = is_some p.revoked_at

-- The `UPDATE` of `bind_peer_pubkey`, of the row of the peer.
abbrev pub binds : Bytes → Option Bytes → Bool
binds pubkey none = true
binds pubkey (some bound) = bound == pubkey

unfoldable pub bind_row : ℕ → Bytes → Option PeerRow → Store → Bool × Store
bind_row id pubkey none s = (false, s)
bind_row id pubkey (some p) s =
    if binds pubkey p.pubkey
    then (true, record s { peers = insert id (record p { pubkey = some pubkey }) s.peers })
    else (false, s)

unfoldable pub bind_peer_pubkey : ℕ → Bytes → Store → Bool × Store
unfolding bind_row
bind_peer_pubkey id pubkey s = bind_row id pubkey (get id s.peers) s

unfoldable pub set_row : ℕ → Bytes → Option PeerRow → Store → Store
set_row id raw none s = s
set_row id raw (some p) s = record s {
  peers = insert id (record p { gossip_record = some raw }) s.peers;
}

unfoldable pub set_peer_gossip_record : ℕ → Bytes → Store → Store
unfolding set_row
set_peer_gossip_record id raw s = set_row id raw (get id s.peers) s

-- `peer_gossip_records`, as the entry of one peer in the map.
abbrev pub record_of : Option PeerRow → Option Bytes
record_of none = none
record_of (some p) = p.gossip_record

-- `record_endpoints`
unfoldable pub record_endpoints :
    ℕ → ℤ → ℕ → List RecordEndpoint → ObservedVia → EndpointTable → EndpointTable
unfolding parse_kind record_peer_endpoint
record_endpoints limit now peer [] via t = t
record_endpoints limit now peer (endpoint ∷ endpoints) via t =
    record_endpoints limit now peer endpoints via (elim (parse_kind endpoint.kind) [
      | none ↦ t
      | some kind ↦
          record_peer_endpoint limit now peer kind endpoint.addr (some endpoint.observed_at) via t
    ])

pub record IngestSummary : Type 0 where
  pub accepted : ℕ
  pub invalid : ℕ
  pub unknown : ℕ
  pub stale : ℕ

abbrev pub empty_summary : IngestSummary
empty_summary = record { accepted = 0; invalid = 0; unknown = 0; stale = 0 }

-- The peers by their pubkeys, of the peers that have one.
unfoldable pub index_peer :
    ℕ → PeerRow → Option Bytes → HashMap Bytes (ℕ × PeerRow) → HashMap Bytes (ℕ × PeerRow)
index_peer id p none m = m
index_peer id p (some pubkey) m = insert pubkey (id, p) m

unfoldable pub by_pubkey :
    HashMap ℕ PeerRow → HashMap Bytes (ℕ × PeerRow) → HashMap Bytes (ℕ × PeerRow)
unfolding index_peer
by_pubkey [] m = m
by_pubkey ((id, p) ∷ peers) m = by_pubkey peers (index_peer id p p.pubkey m)

abbrev pub max_batch : ℕ
max_batch = 64

-- What the loop changes: the store, the times of the stored records, and the summary.
pub record Progress : Type 0 where
  pub store : Store
  pub stored_signed_at : HashMap ℕ ℤ
  pub summary : IngestSummary

abbrev pub is_unbound : Option PeerRow → Bool
is_unbound none = false
is_unbound (some p) = not (is_some p.pubkey)

-- Whom a record is about, when its pubkey is bound to nobody: the presenter, on first use.
abbrev pub first_use : ℕ → Bool × Store → Option ℕ × Store
first_use presenter (true, s) = (some presenter, s)
first_use presenter (false, s) = (none, s)

unfoldable pub subject_of :
    HashMap ℕ PeerRow → ℕ → Bytes → Option (ℕ × PeerRow) → Store → Option ℕ × Store
unfolding bind_peer_pubkey
subject_of peers presenter pubkey (some (id, p)) s =
    if is_revoked p then (none, s) else (some id, s)
subject_of peers presenter pubkey none s =
    let bound = first_use presenter (bind_peer_pubkey presenter pubkey s) in
    if is_unbound (get presenter peers) then bound else (none, s)

abbrev pub is_stale : Option ℤ → ℤ → Bool
is_stale none signed_at = false
is_stale (some stored) signed_at = leb_ℤ signed_at stored

abbrev pub via_of : ℕ → ℕ → ObservedVia
via_of subject presenter = if subject == presenter then direct else gossip

module _ (crates : Crates) (to_json : EndpointRecord → Option Bytes) (limit : ℕ) (now : ℤ)
    (peers : HashMap ℕ PeerRow) (presenter : ℕ) where
  -- Storing the record, if it can be serialised.
  unfoldable pub store_record : Option Bytes → ℕ → EndpointRecord → Progress → Progress
  unfolding set_peer_gossip_record
  store_record none subject r g = g
  store_record (some raw) subject r g = record g {
    store = set_peer_gossip_record subject raw g.store;
    stored_signed_at = insert subject r.signed_at g.stored_signed_at;
  }

  unfoldable pub accept_record : ℕ → EndpointRecord → Progress → Progress
  unfolding record_endpoints store_record
  accept_record subject r g =
      let seen = record g.store {
        endpoints =
            record_endpoints limit now subject r.endpoints (via_of subject presenter)
              g.store.endpoints;
      } in
      let stored = store_record (to_json r) subject r (record g { store = seen }) in
      record stored { summary = record g.summary { accepted = g.summary.accepted + 1 } }

  unfoldable pub about : Option ℕ × Store → EndpointRecord → Progress → Progress
  unfolding accept_record
  about (none, s) r g = record g {
    store = s;
    summary = record g.summary { unknown = g.summary.unknown + 1 };
  }
  about (some subject, s) r g =
      if is_stale (get subject g.stored_signed_at) r.signed_at
      then record g { store = s; summary = record g.summary { stale = g.summary.stale + 1 } }
      else accept_record subject r (record g { store = s })

  -- One turn of the loop.
  unfoldable pub ingest_record : EndpointRecord → Progress → Progress
  unfolding verify subject_of about by_pubkey saturating_add
  ingest_record r g =
      if not (is_ok (verify crates r))
        || ltb_ℤ (saturating_add now (pos max_future_skew_secs)) r.signed_at
      then record g { summary = record g.summary { invalid = g.summary.invalid + 1 } }
      else about (subject_of peers presenter r.pubkey (get r.pubkey (by_pubkey peers [])) g.store) r
          g

  unfoldable pub ingest_records : List EndpointRecord → Progress → Progress
  unfolding ingest_record
  ingest_records [] g = g
  ingest_records (r ∷ rs) g = ingest_records rs (ingest_record r g)

-- The stored times, of the records that can be read.
abbrev pub push_time : ℕ → Option ℤ → HashMap ℕ ℤ → HashMap ℕ ℤ
push_time id none m = m
push_time id (some at) m = (id, at) ∷ m

unfoldable pub signed_times : (Bytes → Option ℤ) → HashMap ℕ PeerRow → HashMap ℕ ℤ
signed_times signed_at_of [] = []
signed_times signed_at_of ((id, p) ∷ peers) =
    push_time id (bind_option p.gossip_record signed_at_of) (signed_times signed_at_of peers)

unfoldable pub ingest :
    Crates
    → (EndpointRecord → Option Bytes)
    → (Bytes → Option ℤ)
    → ℕ
    → ℤ
    → ℕ
    → List EndpointRecord
    → Store
    → Progress
unfolding ingest_records signed_times
ingest crates to_json signed_at_of limit now presenter records s =
    ingest_records crates to_json limit now s.peers presenter (take max_batch records) (record {
      store = s;
      stored_signed_at = signed_times signed_at_of s.peers;
      summary = empty_summary;
    })
