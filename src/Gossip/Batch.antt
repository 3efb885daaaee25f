-- ===== src/Gossip/Batch.antt =====
-- What `ingest` of crates/sharerr/src/gossip.rs makes of a whole batch.
use sharerr_rs.Prelude.{
  Bool-cases, Bytes, List, Option, [], ap, arith, false, if◌then◌else◌, inl, inr, list_eq, nat_eq,
  nat_eqb_iff, none, refl, some, sym, take, true, ℕ, ◌==◌, ◌∙◌, ◌∷◌, ◌≡◌,
}
use sharerr_rs.Bencode.Pieces.{at}
use sharerr_rs.Gossip.Ingest.{
  PeerRow, Progress, Store, about, accept_record, by_pubkey, ingest, ingest_record, ingest_records,
  is_stale, max_batch, push_time, set_peer_gossip_record, signed_times, store_record,
}
use sharerr_rs.Gossip.Ingested.{Follows, set_row-Follows, subject_of-IsSubject}
use sharerr_rs.Gossip.Trust.{Both, Both-same, Trusted, signed_time}
use sharerr_rs.Gossip.Trusted.{IsSubject, some_eq}
use sharerr_rs.Lighthouse.Record.{Crates, EndpointRecord, verify}
use sharerr_rs.Lighthouse.State.{is_ok, max_future_skew_secs}
use sharerr_rs.Paths.Resolver.{component_eq}
use sharerr_rs.Prelude.HashMap.{Distinct, HashMap, get}
use sharerr_rs.Prelude.Int.{ltb_ℤ, pos, saturating_add, ℤ}

push_time-other :
    (i id : ℕ) (o : Option ℤ) (m : HashMap ℕ ℤ)
    → (i == id) ≡ false
    → get i (push_time id o m) ≡ get i m
unfolding get
push_time-other i id none m h = refl
push_time-other i id (some at) m h = rw h refl

push_time-same :
    (i id : ℕ) (o : Option ℤ) (m : HashMap ℕ ℤ)
    → (i == id) ≡ true
    → get i m ≡ none
    → get i (push_time id o m) ≡ o
unfolding get
push_time-same i id none m h rest = rest
push_time-same i id (some at) m h rest = rw h refl

module _ (signed_at_of : Bytes → Option ℤ) where
  signed_times-missing :
      (i : ℕ) (ps : HashMap ℕ PeerRow)
      → get i ps ≡ none
      → get i (signed_times signed_at_of ps) ≡ none
  unfolding get signed_times
  signed_times-missing i [] h = refl
  signed_times-missing i ((id, p) ∷ ps) h = elim (Bool-cases (i == id)) [
    | inl same ↦ cc (sym (ap (λ b. if b then some p else get i ps) same) ∙ h)
    | inr other ↦
        push_time-other i id (signed_time signed_at_of p) (signed_times signed_at_of ps) other
        ∙ signed_times-missing i ps (sym (ap (λ b. if b then some p else get i ps) other) ∙ h)
  ]

  -- At the start the times are those of the stored records.
  get-signed_times :
      (i : ℕ) (p : PeerRow) (ps : HashMap ℕ PeerRow)
      → Distinct ps
      → get i ps ≡ some p
      → get i (signed_times signed_at_of ps) ≡ signed_time signed_at_of p
  unfolding get signed_times
  get-signed_times i p [] d h = ground arith
  get-signed_times i p ((id, q) ∷ ps) (apart, d) h = elim (Bool-cases (i == id)) [
    | inl same ↦
        push_time-same i id (signed_time signed_at_of q) (signed_times signed_at_of ps) same
          (signed_times-missing i ps (ap (λ j. get j ps) ((nat_eqb_iff i id).0 same) ∙ apart))
        ∙ ap (signed_time signed_at_of)
            (some_eq q p (sym (ap (λ b. if b then some q else get i ps) same) ∙ h))
    | inr other ↦
        push_time-other i id (signed_time signed_at_of q) (signed_times signed_at_of ps) other
        ∙ get-signed_times i p ps d (sym (ap (λ b. if b then some q else get i ps) other) ∙ h)
  ]

module _ (crates : Crates) (to_json : EndpointRecord → Option Bytes)
    (signed_at_of : Bytes → Option ℤ) (limit : ℕ) (now : ℤ) (peers : HashMap ℕ PeerRow)
    (presenter : ℕ) (d : Distinct peers)
    (reads : (r : EndpointRecord) (raw : Bytes)
      → to_json r ≡ some raw
      → signed_at_of raw ≡ some r.signed_at) where
  abbrev GoesOn : Progress → Type 0
  GoesOn g = Follows crates to_json signed_at_of now peers d g.store.peers g.stored_signed_at

  store_record-GoesOn :
      (r : EndpointRecord) (subject : ℕ) (o : Option Bytes) (g : Progress)
      → is_ok (verify crates r) ≡ true
      → ltb_ℤ (saturating_add now (pos max_future_skew_secs)) r.signed_at ≡ false
      → to_json r ≡ o
      → GoesOn g
      → is_stale (get subject g.stored_signed_at) r.signed_at ≡ false
      → ((p : PeerRow) → get subject g.store.peers ≡ some p → p.pubkey ≡ some r.pubkey)
      → GoesOn (store_record crates to_json limit now peers presenter o subject r g)
  unfolding store_record set_peer_gossip_record
  store_record-GoesOn r subject none g verified timely e w fresh signer = w
  store_record-GoesOn r subject (some raw) g verified timely e w fresh signer =
      set_row-Follows crates to_json signed_at_of now peers d reads r verified timely subject raw
        (get subject g.store.peers) g.store g.stored_signed_at refl w e fresh signer

  about-GoesOn :
      (r : EndpointRecord) (out : Option ℕ × Store) (g : Progress)
      → is_ok (verify crates r) ≡ true
      → ltb_ℤ (saturating_add now (pos max_future_skew_secs)) r.signed_at ≡ false
      → IsSubject crates to_json signed_at_of now peers g.stored_signed_at r.pubkey out
      → GoesOn (about crates to_json limit now peers presenter out r g)
  unfolding about accept_record
  about-GoesOn r (none, s) g verified timely w = w
  about-GoesOn r (some subject, s) g verified timely (w, signer) =
      elim (Bool-cases (is_stale (get subject g.stored_signed_at) r.signed_at)) [
        | inl too_old ↦ rw too_old w
        | inr fresh ↦
            rw fresh
              (store_record-GoesOn r subject (to_json r) _ verified timely refl w fresh signer)
      ]

  ingest_record-GoesOn :
      (r : EndpointRecord) (g : Progress)
      → GoesOn g
      → GoesOn (ingest_record crates to_json limit now peers presenter r g)
  unfolding ingest_record
  ingest_record-GoesOn r g w = elim (Bool-cases (is_ok (verify crates r))) [
    | inr bad ↦ rw bad w
    | inl verified ↦
        elim (Bool-cases (ltb_ℤ (saturating_add now (pos max_future_skew_secs)) r.signed_at)) [
          | inl early ↦ rw (verified, early) w
          | inr timely ↦
              rw (verified, timely)
                (about-GoesOn r _ g verified timely (
                  subject_of-IsSubject crates to_json signed_at_of now peers d presenter r.pubkey
                    (get r.pubkey (by_pubkey peers [])) g.store g.stored_signed_at refl w))
        ]
  ]

  ingest_records-GoesOn :
      (rs : List EndpointRecord) (g : Progress)
      → GoesOn g
      → GoesOn (ingest_records crates to_json limit now peers presenter rs g)
  unfolding ingest_records
  ingest_records-GoesOn [] g w = w
  ingest_records-GoesOn (r ∷ rs) g w = ingest_records-GoesOn rs _ (ingest_record-GoesOn r g w)

-- Whatever batch is presented and whoever presents it, peers are neither added nor removed. Of each
-- peer, a bound pubkey and a revocation stay as they are; and the stored record is the same, or a
-- message that verifies, is signed by the pubkey that the peer has, is not from the future, and is
-- newer than the one before. Peers have distinct ids, and serde_json reads the time of a record that
-- it wrote.
pub ingest-Trusted :
    (crates : Crates) (to_json : EndpointRecord → Option Bytes) (signed_at_of : Bytes → Option ℤ)
    (limit : ℕ) (now : ℤ) (presenter : ℕ) (records : List EndpointRecord) (s : Store)
    → Distinct s.peers
    → ((r : EndpointRecord) (raw : Bytes)
        → to_json r ≡ some raw
        → signed_at_of raw ≡ some r.signed_at)
    → (i : ℕ)
    → Both
        (Trusted crates to_json signed_at_of now)
        (get i s.peers)
        (get i (ingest crates to_json signed_at_of limit now presenter records s).store.peers)
unfolding ingest
ingest-Trusted crates to_json signed_at_of limit now presenter records s d reads i =
    (ingest_records-GoesOn crates to_json signed_at_of limit now s.peers presenter d reads
        (take max_batch records) _
        (record {
          trusted = λ i. Both-same crates to_json signed_at_of now (get i s.peers);
          timed = λ i p here. get-signed_times signed_at_of i p s.peers d here;
        })).trusted
      i
