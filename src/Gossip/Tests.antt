-- ===== src/Gossip/Tests.antt =====
-- Tests and witnesses. In the toy cryptography, a signature is valid if it repeats the pubkey, and
-- the text of a record is its time and its pubkey.
use sharerr_rs.Prelude.{
  Bytes, List, Option, String, [], ap, arith, codes, list_eq, list_eqb, map, nat_eq, none, refl,
  some, sym, ℕ, ◌∷◌, ◌≡◌,
}
use sharerr_rs.Bencode.Pieces.{at}
use sharerr_rs.Gossip.Batch.{ingest-Trusted}
use sharerr_rs.Gossip.Bounded.{IsBounded, IsTable}
use sharerr_rs.Gossip.Ingest.{PeerRow, Store, bind_row, ingest, ingest_record, ingest_records}
use sharerr_rs.Gossip.Recorded.{Sighting, no_rows, recorded, recorded-IsBounded}
use sharerr_rs.Gossip.Table.{api, direct, peer_endpoints_for, record_peer_endpoint, written_row}
use sharerr_rs.Gossip.Trust.{Both, Trusted}
use sharerr_rs.Lighthouse.Record.{Crates, EndpointRecord, verify}
use sharerr_rs.Paths.Resolver.{component_eq}
use sharerr_rs.Prelude.HashMap.{Distinct, get, insert}
use sharerr_rs.Prelude.Int.{negsuc, pos, ℤ}
use sharerr_rs.Sync.Item.{int_eq, key_eq, source_eq}
use sharerr_rs.Torrent.Fields.{bind_option}

abbrev repeating : Crates
repeating = record {
  VerifyingKey = Bytes;
  hex_decode = λ n s. some s;
  hex_encode = λ s. s;
  key_from_bytes = λ s. some s;
  verify_signature = λ key bytes signature. list_eqb signature key;
  signable_json = λ pubkey endpoints signed_at. some pubkey;
  sha256 = λ s. s;
}

abbrev time_json : ℤ → Bytes → Option Bytes
time_json (pos n) pubkey = some (n ∷ pubkey)
time_json (negsuc n) pubkey = none

abbrev to_text : EndpointRecord → Option Bytes
to_text r = time_json r.signed_at r.pubkey

abbrev time_of : Bytes → Option ℤ
time_of [] = none
time_of (n ∷ s) = some (pos n)

time_of-time_json :
    (at : ℤ) (pubkey raw : Bytes) → time_json at pubkey ≡ some raw → time_of raw ≡ some at
time_of-time_json (pos n) pubkey raw h = ap (λ o. bind_option o time_of) (sym h)
time_of-time_json (negsuc n) pubkey raw h = ground arith

abbrev message_of : String → ℕ → EndpointRecord
message_of sender at = record {
  pubkey = codes sender;
  endpoints = record { kind = codes "api"; addr = codes "a:1"; observed_at = pos at } ∷ [];
  signed_at = pos at;
  signature = codes sender;
}

abbrev peer_with : Option Bytes → PeerRow
peer_with pubkey = record { revoked_at = none; pubkey = pubkey; gossip_record = none }

abbrev friends : Store
friends = record {
  peers = (1, peer_with none) ∷ (2, peer_with (some (codes "bob"))) ∷ [];
  endpoints = no_rows;
}

-- Ann presents her own record, one of Bob, an older one of Bob, and one of a stranger.
abbrev batch : List EndpointRecord
batch = message_of "ann" 100 ∷ message_of "bob" 90 ∷ message_of "bob" 80 ∷ message_of "eve" 100 ∷ []

batch_summary :
    (ingest repeating to_text time_of 3 (pos 100) 1 batch friends).summary
    ≡ record { accepted = 2; invalid = 0; unknown = 1; stale = 1 }
unfolding ingest ingest_records ingest_record verify get bind_row insert
batch_summary = refl

batch_keys :
    map
      (λ row. row.addr)
      (ingest repeating to_text time_of 3 (pos 100) 1 batch friends).store.endpoints.rows
    ≡ codes "a:1" ∷ codes "a:1" ∷ []
unfolding ingest ingest_records ingest_record verify get bind_row insert
batch_keys = refl

friends-Distinct : Distinct friends.peers
unfolding get
friends-Distinct = (refl, (refl, tt))

ingest-Trusted_example :
    Both
      (Trusted repeating to_text time_of (pos 100))
      (get 1 friends.peers)
      (get 1 (ingest repeating to_text time_of 3 (pos 100) 1 batch friends).store.peers)
ingest-Trusted_example =
    ingest-Trusted repeating to_text time_of 3 (pos 100) 1 batch friends friends-Distinct
      (λ r raw h. time_of-time_json r.signed_at r.pubkey raw h) 1

abbrev seen_at : ℕ → String → Sighting
seen_at at addr = record {
  now = pos 1000;
  peer = 7;
  kind = api;
  addr = codes addr;
  observed_at = some (pos at);
  via = direct;
}

abbrev sightings : List Sighting
sightings = seen_at 10 "a" ∷ seen_at 20 "b" ∷ seen_at 5 "a" ∷ seen_at 30 "c" ∷ seen_at 9000 "b" ∷ []

-- The address seen first is gone, and a time from the future is cut.
last_two :
    map {B = Bytes × ℤ} (λ row. (row.addr, row.observed_at)) (recorded 2 sightings no_rows).rows
    ≡ (codes "b", pos 1300) ∷ (codes "c", pos 30) ∷ []
unfolding record_peer_endpoint written_row
last_two = refl

shown :
    peer_endpoints_for (7 ∷ []) (recorded 2 sightings no_rows) 7
    ≡ some (
        record { kind = api; addr = codes "b"; observed_at = pos 1300; via = direct }
        ∷ record { kind = api; addr = codes "c"; observed_at = pos 30; via = direct }
        ∷ [])
unfolding record_peer_endpoint written_row peer_endpoints_for
shown = refl

recorded-IsBounded_example :
    IsTable (recorded 2 sightings no_rows) × IsBounded 2 (recorded 2 sightings no_rows)
recorded-IsBounded_example = recorded-IsBounded 2 sightings
