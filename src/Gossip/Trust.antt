-- ===== src/Gossip/Trust.antt =====
-- What a batch of gossip records can change of a peer: the relation that a turn of `ingest`, of
-- crates/sharerr/src/gossip.rs, keeps to the peers as they were.
use sharerr_rs.Prelude.{
  Bytes, Option, ap, arith, false, inl, inr, list_eq, list_eqb_iff, nat_eq, none, refl, some, subst,
  sym, true, ◌==◌, ◌∙◌, ◌≡◌, ◌⊎◌,
}
use sharerr_rs.Bencode.Pieces.{at}
use sharerr_rs.Gossip.Ingest.{PeerRow, binds}
use sharerr_rs.Lighthouse.Record.{Crates, EndpointRecord, verify}
use sharerr_rs.Lighthouse.State.{is_ok, max_future_skew_secs}
use sharerr_rs.Paths.Resolver.{component_eq}
use sharerr_rs.Prelude.Int.{ltb_ℤ, pos, saturating_add, ℤ, ◌<ℤ◌}
use sharerr_rs.Torrent.Fields.{bind_option}

-- A stored time that another comes after.
abbrev pub IsNewer : Option ℤ → ℤ → Type 0
IsNewer none at = Unit
IsNewer (some stored) at = stored <ℤ at

-- Peers before and behind, present or not.
abbrev pub Both : {A : Type 0} → (A → A → Type 0) → Option A → Option A → Type 0
Both R none none = Unit
Both R none (some b) = ⊥
Both R (some a) none = ⊥
Both R (some a) (some b) = R a b

abbrev pub signed_time : (Bytes → Option ℤ) → PeerRow → Option ℤ
signed_time signed_at_of p = bind_option p.gossip_record signed_at_of

-- A pubkey stays once it is bound, and a revocation stays as it is.
abbrev pub KeepsKey : PeerRow → PeerRow → Type 0
KeepsKey p p' = (p'.revoked_at ≡ p.revoked_at) × ((p.pubkey ≡ none) ⊎ (p'.pubkey ≡ p.pubkey))

module _ (crates : Crates) (to_json : EndpointRecord → Option Bytes)
    (signed_at_of : Bytes → Option ℤ) (now : ℤ) where
  -- A message that is stored for a peer is signed by the pubkey bound to it, not from the future,
  -- and newer than what was stored.
  pub record Vouched (p p' : PeerRow) : Type 0 where
    pub message : EndpointRecord
    pub raw : Bytes
    pub written : to_json message ≡ some raw
    pub kept : p'.gossip_record ≡ some raw
    pub verified : is_ok (verify crates message) ≡ true
    pub signer : p'.pubkey ≡ some message.pubkey
    pub timely : ltb_ℤ (saturating_add now (pos max_future_skew_secs)) message.signed_at ≡ false
    pub newer_than : IsNewer (signed_time signed_at_of p) message.signed_at

  abbrev pub Trusted : PeerRow → PeerRow → Type 0
  Trusted p p' = KeepsKey p p' × ((p'.gossip_record ≡ p.gossip_record) ⊎ Vouched p p')

  Trusted-same : (p : PeerRow) → Trusted p p
  Trusted-same p = ((refl, inr refl), inl refl)

  pub Both-same : (o : Option PeerRow) → Both Trusted o o
  Both-same none = tt
  Both-same (some p) = Trusted-same p

  -- Binding a pubkey to a peer that had none before, and has none or that one now.
  pub Trusted-bound :
      (p p' : PeerRow) (pubkey : Bytes)
      → p.pubkey ≡ none
      → binds pubkey p'.pubkey ≡ true
      → Trusted p p'
      → Trusted p (record p' { pubkey = some pubkey })
  Trusted-bound p p' pubkey unbound can ((revoked, key), inl same) =
      ((revoked, inl unbound), inl same)
  Trusted-bound p p' pubkey unbound can ((revoked, key), inr v) = (
    (revoked, inl unbound),
    inr (record {
      message = v.message;
      raw = v.raw;
      written = v.written;
      kept = v.kept;
      verified = v.verified;
      signer =
          let can' : (v.message.pubkey == pubkey) ≡ true = sym (ap (binds pubkey) v.signer) ∙ can in
          ap some (sym ((list_eqb_iff v.message.pubkey pubkey).0 can'));
      timely = v.timely;
      newer_than = v.newer_than;
    }),
  )

  module _
      (reads : (r : EndpointRecord) (raw : Bytes)
        → to_json r ≡ some raw
        → signed_at_of raw ≡ some r.signed_at) where
    IsNewer-trans : (o : Option ℤ) (a b : ℤ) → IsNewer o a → a <ℤ b → IsNewer o b
    IsNewer-trans none a b h k = tt
    IsNewer-trans (some c) a b h k = omega (arith, h, k)

    Vouched-time :
        (p p' : PeerRow) (v : Vouched p p') → signed_time signed_at_of p' ≡ some v.message.signed_at
    Vouched-time p p' v =
        ap (λ o. bind_option o signed_at_of) v.kept ∙ reads v.message v.raw v.written

    -- What is newer than the present record is newer than the first.
    Trusted-IsNewer :
        (p p' : PeerRow) (at : ℤ)
        → Trusted p p'
        → IsNewer (signed_time signed_at_of p') at
        → IsNewer (signed_time signed_at_of p) at
    Trusted-IsNewer p p' at (key, inl same) h =
        subst (λ o. IsNewer (bind_option o signed_at_of) at) same h
    Trusted-IsNewer p p' at (key, inr v) h =
        IsNewer-trans (signed_time signed_at_of p) v.message.signed_at at v.newer_than
          (subst (λ o. IsNewer o at) (Vouched-time p p' v) h)

    pub Trusted-stored :
        (p p' : PeerRow) (r : EndpointRecord) (raw : Bytes)
        → Trusted p p'
        → to_json r ≡ some raw
        → is_ok (verify crates r) ≡ true
        → ltb_ℤ (saturating_add now (pos max_future_skew_secs)) r.signed_at ≡ false
        → p'.pubkey ≡ some r.pubkey
        → IsNewer (signed_time signed_at_of p') r.signed_at
        → Trusted p (record p' { gossip_record = some raw })
    Trusted-stored p p' r raw t written verified timely signer h = (
      t.0,
      inr (record {
        message = r;
        raw = raw;
        written = written;
        kept = refl;
        verified = verified;
        signer = signer;
        timely = timely;
        newer_than = Trusted-IsNewer p p' r.signed_at t h;
      }),
    )
