-- ===== src/Gossip/Ingested.antt =====
-- A whole batch of `ingest`, of crates/sharerr/src/gossip.rs, record by record.
use sharerr_rs.Prelude.{
  ==-refl, Bool-cases, Bytes, Option, [], ap, arith, false, if◌then◌else◌, inl, inr, list_eq,
  nat_eq, nat_eqb_iff, none, refl, some, subst, sym, true, ℕ, ◌==◌, ◌∙◌, ◌≡◌, ◌⊎◌,
}
use sharerr_rs.Bencode.Pieces.{at}
use sharerr_rs.Gossip.Index.{get-by_pubkey}
use sharerr_rs.Gossip.Ingest.{
  PeerRow, Store, bind_peer_pubkey, bind_row, binds, by_pubkey, is_revoked, is_stale, is_unbound,
  set_row, subject_of,
}
use sharerr_rs.Gossip.Trust.{IsNewer, Trusted, Trusted-stored, signed_time}
use sharerr_rs.Gossip.Trusted.{
  Both-some, IsFollowed, IsSubject, bound-IsFollowed, replaced-Trusted, some_eq,
}
use sharerr_rs.Lighthouse.Record.{Crates, EndpointRecord, verify}
use sharerr_rs.Lighthouse.State.{is_ok, max_future_skew_secs}
use sharerr_rs.Paths.Resolver.{component_eq}
use sharerr_rs.Prelude.HashMap.{Distinct, HashMap, get, get-insert, insert}
use sharerr_rs.Prelude.Int.{ltb_ℤ, pos, saturating_add, ℤ}

bind_row-cases :
    (id : ℕ) (pubkey : Bytes) (o : Option PeerRow) (s : Store)
    → (bind_row id pubkey o s ≡ (false, s))
      ⊎ ((q : PeerRow) × (o ≡ some q)
          × (binds pubkey q.pubkey ≡ true)
          × (bind_row id pubkey o s
              ≡ (true, record s { peers = insert id (record q { pubkey = some pubkey }) s.peers })))
unfolding bind_row
bind_row-cases id pubkey none s = inl refl
bind_row-cases id pubkey (some q) s = elim (Bool-cases (binds pubkey q.pubkey)) [
  | inl can ↦ rw can (inr (q, refl, can, refl))
  | inr cannot ↦ rw cannot (inl refl)
]

IsNewer-of_stale : (o : Option ℤ) (at : ℤ) → is_stale o at ≡ false → IsNewer o at
IsNewer-of_stale none at h = tt
IsNewer-of_stale (some stored) at h = ground arith

module _ (crates : Crates) (to_json : EndpointRecord → Option Bytes)
    (signed_at_of : Bytes → Option ℤ) (now : ℤ) (peers : HashMap ℕ PeerRow)
    (d : Distinct peers) where
  abbrev pub Follows : HashMap ℕ PeerRow → HashMap ℕ ℤ → Type 0
  Follows m times = IsFollowed crates to_json signed_at_of now peers m times

  -- Of a peer that was found, the row still has the pubkey.
  still_bound :
      (m : HashMap ℕ PeerRow) (times : HashMap ℕ ℤ) (id : ℕ) (p q : PeerRow) (pubkey : Bytes)
      → Follows m times
      → p.pubkey ≡ some pubkey
      → get id peers ≡ some p
      → get id m ≡ some q
      → q.pubkey ≡ some pubkey
  still_bound m times id p q pubkey w bound e e' =
      let t =
        Both-some (Trusted crates to_json signed_at_of now) (get id peers) (get id m) p q e e'
          (w.trusted id) in
      elim (t.0.1) [ inl unbound ↦ cc (unbound, bound) | inr same ↦ same ∙ bound ]

  pub subject_of-IsSubject :
      (presenter : ℕ) (pubkey : Bytes) (o : Option (ℕ × PeerRow)) (s : Store) (times : HashMap ℕ ℤ)
      → get pubkey (by_pubkey peers []) ≡ o
      → Follows s.peers times
      → IsSubject crates to_json signed_at_of now peers times pubkey
          (subject_of peers presenter pubkey o s)
  unfolding subject_of bind_peer_pubkey
  subject_of-IsSubject presenter pubkey (some (id, p)) s times e w =
      let (bound, here) = get-by_pubkey peers pubkey id p d e in
      elim (Bool-cases (is_revoked p)) [
        | inl revoked ↦ rw revoked w
        | inr active ↦
            rw active (w, λ q found_q. still_bound s.peers times id p q pubkey w bound here found_q)
      ]
  subject_of-IsSubject presenter pubkey none s times e w =
      elim (Bool-cases (is_unbound (get presenter peers))) [
        | inr bound ↦ rw bound w
        | inl unbound ↦ elim (bind_row-cases presenter pubkey (get presenter s.peers) s) [
          | inl refused ↦ rw (unbound, refused) w
          | inr (q, here, can, done) ↦
              let q' : PeerRow = record q { pubkey = some pubkey } in
              rw (unbound, done)
                (
                  bound-IsFollowed crates to_json signed_at_of now peers presenter s.peers times
                      pubkey q w unbound here can,
                  λ p found_p. sym (
                      ap (λ p. p.pubkey)
                        (some_eq q' p (
                          sym (
                            ap (λ b. if b then some q' else get presenter s.peers)
                              (==-refl presenter))
                          ∙ (sym (get-insert presenter presenter q' s.peers) ∙ found_p)))),
                )
        ]
      ]

  module _
      (reads : (r : EndpointRecord) (raw : Bytes)
        → to_json r ≡ some raw
        → signed_at_of raw ≡ some r.signed_at)
      (r : EndpointRecord) (verified : is_ok (verify crates r) ≡ true)
      (timely : ltb_ℤ (saturating_add now (pos max_future_skew_secs)) r.signed_at ≡ false) where
    pub set_row-Follows :
        (id : ℕ) (raw : Bytes) (o : Option PeerRow) (s : Store) (times : HashMap ℕ ℤ)
        → get id s.peers ≡ o
        → Follows s.peers times
        → to_json r ≡ some raw
        → is_stale (get id times) r.signed_at ≡ false
        → ((p : PeerRow) → get id s.peers ≡ some p → p.pubkey ≡ some r.pubkey)
        → Follows (set_row id raw o s).peers (insert id r.signed_at times)
    unfolding set_row
    set_row-Follows id raw none s times e w written fresh signer = record {
      trusted = w.trusted;
      timed = λ i p here. get-insert i id r.signed_at times ∙ elim (Bool-cases (i == id)) [
        | inl same ↦ cc (sym here ∙ (ap (λ i. get i s.peers) ((nat_eqb_iff i id).0 same) ∙ e))
        | inr other ↦ rw other (w.timed i p here)
      ];
    }
    set_row-Follows id raw (some q) s times e w written fresh signer =
        let q' : PeerRow = record q { gossip_record = some raw } in
        record {
          trusted =
              replaced-Trusted crates to_json signed_at_of now peers s.peers id q q' w.trusted e
                λ p here t.
                  Trusted-stored crates to_json signed_at_of now reads p q r raw t written verified
                    timely (signer q e)
                    (subst (λ o. IsNewer o r.signed_at) (w.timed id q e)
                      (IsNewer-of_stale (get id times) r.signed_at fresh));
          timed = λ i p found_p.
              let found_p' = sym (get-insert i id q' s.peers) ∙ found_p in
              get-insert i id r.signed_at times ∙ elim (Bool-cases (i == id)) [
                | inl same ↦ rw same (
                    sym (reads r raw written)
                    ∙ ap (signed_time signed_at_of) (
                        some_eq q' p
                          (sym (ap (λ b. if b then some q' else get i s.peers) same) ∙ found_p')))
                | inr other ↦ rw other (
                    w.timed i p
                      (sym (ap (λ b. if b then some q' else get i s.peers) other) ∙ found_p'))
              ];
        }
