-- ===== src/Lighthouse/Privacy.antt =====
-- What a lookup tells: the reported record, or a decoy.
use sharerr_rs.Prelude.{
  Bytes, Option-cases, arith, list_eq, nat_eq, none, ok, ℕ, ◌+◌, ◌<◌, ◌↔◌, ◌≡◌, ◌≢◌, ◌≤◌,
}
use sharerr_rs.Lighthouse.Hex.{is_hex_32_bytes-lower, to_ascii_lowercase}
use sharerr_rs.Lighthouse.Lookup.{Server, decoy, decoy_port, lookup, lookup_handler, octet}
use sharerr_rs.Lighthouse.Record.{EndpointRecord}
use sharerr_rs.Lighthouse.Report.{report_accepted}
use sharerr_rs.Lighthouse.State.{Records, accepted, report}
use sharerr_rs.Prelude.HashMap.{get}
use sharerr_rs.Prelude.Int.{◌-ℤ◌}

module _ (server : Server) where
  open server use {crates, to_lowercase}

  -- After an accepted report, the handler answers every spelling of the key hash with exactly the
  -- reported record, at any later clock.
  pub lookup-report :
      (s : Records) (key_hash raw : Bytes) (r : EndpointRecord) (now later : ℕ)
      → (report crates s key_hash r now).0 ≡ ok accepted
      → to_lowercase raw ≡ to_ascii_lowercase key_hash
      → lookup_handler server (report crates s key_hash r now).1 raw later ≡ r
  unfolding lookup_handler
  lookup-report s key_hash raw r now later h e =
      rw e
        (ground (arith, report_accepted crates s key_hash r now h, is_hex_32_bytes-lower key_hash))

  decoy_moves :
      (key : Bytes) (now d : ℕ)
      → 0 < d
      → (decoy server key (now + d)).signed_at ≢ (decoy server key now).signed_at
  unfolding decoy ◌-ℤ◌
  decoy_moves key now d h = ground arith

  -- Two lookups of a key hash some seconds apart give the same record exactly when the key hash is
  -- in the table: a decoy's `signed_at` moves with the clock, a stored record's does not.
  pub lookup_steady_iff :
      (s : Records) (key : Bytes) (now d : ℕ)
      → 0 < d
      → (lookup server s key (now + d) ≡ lookup server s key now) ↔ (get key s.table ≢ none)
  unfolding lookup
  lookup_steady_iff s key now d h =
      ground (arith, decoy_moves key now d h, Option-cases (get key s.table))

-- A decoy's address is a plausible one: its first octet is none of 0, 10, 127 and 255 and is a
-- byte, and its port is at least 1024 and below 65535, so the sum does not overflow a `u16`.
pub decoy_plausible :
    (first hi lo : ℕ)
    → first < 256
    → (octet first ≢ 0)
      × (octet first ≢ 10)
      × (octet first ≢ 127)
      × (octet first ≢ 255)
      × (octet first < 256)
      × (1024 ≤ decoy_port hi lo)
      × (decoy_port hi lo < 65535)
unfolding octet decoy_port
decoy_plausible first hi lo h = ground arith
