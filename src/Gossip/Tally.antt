-- ===== src/Gossip/Tally.antt =====
-- `ingest` of crates/sharerr/src/gossip.rs counts each record once.
use sharerr_rs.Prelude.{
  Bool-cases, Bytes, List, Option, [], arith, inl, inr, length, length-take, list_eq, min, nat_eq,
  none, not, some, take, ℕ, ◌+◌, ◌||◌, ◌∙◌, ◌∷◌, ◌≡◌,
}
use sharerr_rs.Gossip.Ingest.{
  IngestSummary, PeerRow, Progress, Store, about, accept_record, by_pubkey, empty_summary, ingest,
  ingest_record, ingest_records, is_stale, max_batch, signed_times, subject_of,
}
use sharerr_rs.Lighthouse.Record.{Crates, EndpointRecord, verify}
use sharerr_rs.Lighthouse.State.{is_ok, max_future_skew_secs}
use sharerr_rs.Paths.Resolver.{component_eq}
use sharerr_rs.Prelude.HashMap.{HashMap, get}
use sharerr_rs.Prelude.Int.{ltb_ℤ, pos, saturating_add, ℤ}

abbrev pub total : IngestSummary → ℕ
total n = n.accepted + n.invalid + n.unknown + n.stale

module _ (crates : Crates) (to_json : EndpointRecord → Option Bytes) (limit : ℕ) (now : ℤ)
    (peers : HashMap ℕ PeerRow) (presenter : ℕ) where
  total-about :
      (r : EndpointRecord) (out : Option ℕ × Store) (g : Progress)
      → total (about crates to_json limit now peers presenter out r g).summary ≡ total g.summary + 1
  unfolding about accept_record
  total-about r (none, s) g = omega arith
  total-about r (some subject, s) g =
      elim (Bool-cases (is_stale (get subject g.stored_signed_at) r.signed_at)) [
        | inl too_old ↦ rw too_old (omega arith)
        | inr fresh ↦ rw fresh (omega arith)
      ]

  total-ingest_record :
      (r : EndpointRecord) (g : Progress)
      → total (ingest_record crates to_json limit now peers presenter r g).summary
        ≡ total g.summary + 1
  unfolding ingest_record
  total-ingest_record r g =
      elim (Bool-cases (
        not (is_ok (verify crates r))
        || ltb_ℤ (saturating_add now (pos max_future_skew_secs)) r.signed_at)) [
          | inl bad ↦ rw bad (omega arith)
          | inr good ↦ rw good (
              total-about r
                (subject_of peers presenter r.pubkey (get r.pubkey (by_pubkey peers [])) g.store) g)
        ]

  total-ingest_records :
      (rs : List EndpointRecord) (g : Progress)
      → total (ingest_records crates to_json limit now peers presenter rs g).summary
        ≡ total g.summary + length rs
  unfolding ingest_records
  total-ingest_records [] g = omega arith
  total-ingest_records (r ∷ rs) g =
      let g' = ingest_record crates to_json limit now peers presenter r g in
      total-ingest_records rs g' ∙ omega (arith, total-ingest_record r g)

-- Of a batch, each of the first 64 records is counted as accepted, invalid, unknown or stale, once,
-- and no other record is.
pub total-ingest :
    (crates : Crates) (to_json : EndpointRecord → Option Bytes) (signed_at_of : Bytes → Option ℤ)
    (limit : ℕ) (now : ℤ) (presenter : ℕ) (records : List EndpointRecord) (s : Store)
    → total (ingest crates to_json signed_at_of limit now presenter records s).summary
      ≡ min 64 (length records)
unfolding ingest
total-ingest crates to_json signed_at_of limit now presenter records s =
    let start : Progress = record {
      store = s;
      stored_signed_at = signed_times signed_at_of s.peers;
      summary = empty_summary;
    } in
    let counted = total-ingest_records crates to_json limit now s.peers presenter in
    omega (arith, counted (take max_batch records) start, length-take max_batch records)
