-- ===== src/Gossip/Trusted.antt =====
-- `ingest` of crates/sharerr/src/gossip.rs changes a peer only as its own signature allows.
use sharerr_rs.Prelude.{
  Bool-cases, Bytes, Option, Option-cases, ap, arith, if◌then◌else◌, inl, inr, list_eq, nat_eq,
  nat_eqb_iff, none, not, refl, some, subst, sym, true, ℕ, ◌==◌, ◌∙◌, ◌≡◌,
}
use sharerr_rs.Gossip.Ingest.{PeerRow, Store, binds, is_unbound}
use sharerr_rs.Gossip.Trust.{Both, Trusted, Trusted-bound, signed_time}
use sharerr_rs.Lighthouse.Record.{Crates, EndpointRecord}
use sharerr_rs.Paths.Resolver.{component_eq}
use sharerr_rs.Prelude.HashMap.{HashMap, get, get-insert, insert, is_some}
use sharerr_rs.Prelude.Int.{ℤ}

value_or : PeerRow → Option PeerRow → PeerRow
value_or p none = p
value_or p (some q) = q

pub some_eq : (p q : PeerRow) → some p ≡ some q → p ≡ q
unfolding value_or
some_eq p q h = ap (value_or p) h

Both-replace :
    (R : PeerRow → PeerRow → Type 0) (o o' : Option PeerRow) (q q' : PeerRow)
    → o' ≡ some q
    → Both R o o'
    → ((p : PeerRow) → o ≡ some p → R p q → R p q')
    → Both R o (some q')
Both-replace R none none q q' e h f = ground arith
Both-replace R none (some r) q q' e h f = h
Both-replace R (some p) none q q' e h f = absurd h
Both-replace R (some p) (some r) q q' e h f = f p refl (subst (R p) (some_eq r q e) h)

pub Both-some :
    (R : PeerRow → PeerRow → Type 0) (o o' : Option PeerRow) (p q : PeerRow)
    → o ≡ some p
    → o' ≡ some q
    → Both R o o'
    → R p q
Both-some R o o' p q e e' h = subst (λ o. Both R o (some q)) e (subst (Both R o) e' h)

no_pubkey : (p : PeerRow) → is_unbound (some p) ≡ true → p.pubkey ≡ none
no_pubkey p h = elim (Option-cases p.pubkey) [
  | inl missing' ↦ missing'
  | inr (pubkey, bound) ↦ cc (sym (ap (λ o. not (is_some o)) bound) ∙ h)
]

module _ (crates : Crates) (to_json : EndpointRecord → Option Bytes)
    (signed_at_of : Bytes → Option ℤ) (now : ℤ) (peers : HashMap ℕ PeerRow) where
  abbrev pub Kept : Option PeerRow → Option PeerRow → Type 0
  Kept o o' = Both (Trusted crates to_json signed_at_of now) o o'

  -- The peers of the store come from those at the start, and the times are those of their records.
  pub record IsFollowed (m : HashMap ℕ PeerRow) (times : HashMap ℕ ℤ) : Type 0 where
    pub trusted : (i : ℕ) → Kept (get i peers) (get i m)
    pub timed : (i : ℕ) (p : PeerRow) → get i m ≡ some p → get i times ≡ signed_time signed_at_of p

  -- One row is replaced, by a peer that is as trusted.
  pub replaced-Trusted :
      (m : HashMap ℕ PeerRow) (id : ℕ) (q q' : PeerRow)
      → ((i : ℕ) → Kept (get i peers) (get i m))
      → get id m ≡ some q
      → ((p : PeerRow)
          → get id peers ≡ some p
          → Trusted crates to_json signed_at_of now p q
          → Trusted crates to_json signed_at_of now p q')
      → (i : ℕ) → Kept (get i peers) (get i (insert id q' m))
  replaced-Trusted m id q q' h e f i =
      subst (Kept (get i peers)) (sym (get-insert i id q' m)) (elim (Bool-cases (i == id)) [
        | inl same ↦
            let e' = (nat_eqb_iff i id).0 same in
            rw same (
              subst (λ i. Kept (get i peers) (some q')) (sym e')
                (Both-replace (Trusted crates to_json signed_at_of now) (get id peers) (get id m) q
                  q' e (h id) f))
        | inr other ↦ rw other (h i)
      ])

  -- What holds when a record's subject is known: the row has the record's pubkey.
  abbrev pub IsSubject : HashMap ℕ ℤ → Bytes → Option ℕ × Store → Type 0
  IsSubject times pubkey (none, s) = IsFollowed s.peers times
  IsSubject times pubkey (some id, s) =
      IsFollowed s.peers times × ((p : PeerRow) → get id s.peers ≡ some p → p.pubkey ≡ some pubkey)

  pub bound-IsFollowed :
      (presenter : ℕ) (m : HashMap ℕ PeerRow) (times : HashMap ℕ ℤ) (pubkey : Bytes) (q : PeerRow)
      → IsFollowed m times
      → is_unbound (get presenter peers) ≡ true
      → get presenter m ≡ some q
      → binds pubkey q.pubkey ≡ true
      → IsFollowed (insert presenter (record q { pubkey = some pubkey }) m) times
  bound-IsFollowed presenter m times pubkey q w unbound e can =
      let q' : PeerRow = record q { pubkey = some pubkey } in
      record {
        trusted = replaced-Trusted m presenter q q' w.trusted e λ p here t.
            Trusted-bound crates to_json signed_at_of now p q pubkey
              (no_pubkey p (sym (ap is_unbound here) ∙ unbound)) can t;
        timed = λ i p found_p.
            let found_p' = sym (get-insert i presenter q' m) ∙ found_p in
            elim (Bool-cases (i == presenter)) [
              | inl same ↦
                  let at = (nat_eqb_iff i presenter).0 same in
                  let is_q : q' ≡ p =
                    some_eq q' p (sym (ap (λ b. if b then some q' else get i m) same) ∙ found_p') in
                  w.timed i q (ap (λ i. get i m) at ∙ e) ∙ ap (signed_time signed_at_of) is_q
              | inr other ↦
                  w.timed i p (sym (ap (λ b. if b then some q' else get i m) other) ∙ found_p')
            ];
      }
