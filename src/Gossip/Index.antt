-- ===== src/Gossip/Index.antt =====
-- Whom `ingest` of crates/sharerr/src/gossip.rs finds by a pubkey.
use sharerr_rs.Prelude.{
  All, Bool-cases, Bytes, Option, PartialEq, [], ap, arith, inl, inr, list_eq, nat_eq, none, refl,
  some, subst, sym, ℕ, ◌==◌, ◌∷◌, ◌≡◌,
}
use sharerr_rs.Gossip.Ingest.{PeerRow, by_pubkey, index_peer}
use sharerr_rs.Gossip.Trust.{Both}
use sharerr_rs.Paths.Resolver.{component_eq}
use sharerr_rs.Prelude.HashMap.{Distinct, Distinct-All, HashMap, get, insert}

module _ {K V : Type 0} ⦃e : PartialEq K⦄ (P : K × V → Type 0) where
  All-insert : (k : K) (v : V) (m : HashMap K V) → P (k, v) → All P m → All P (insert k v m)
  unfolding insert
  All-insert k v [] h hs = (h, tt)
  All-insert k v ((j, w) ∷ m) h (here, hs) = elim (Bool-cases (k == j)) [
    | inl same ↦ rw same (h, hs)
    | inr other ↦ rw other (here, All-insert k v m h hs)
  ]

  -- What is found stands in the map.
  All-get : (k : K) (m : HashMap K V) → All P m → Both (λ v w. P (k, v)) (get k m) (get k m)
  unfolding get
  All-get k [] h = tt
  All-get k ((j, w) ∷ m) (here, hs) = elim (Bool-cases (k == j)) [
    | inl same ↦ rw same (subst (λ i. P (i, w)) (sym ((e.same_iff k j).0 same)) here)
    | inr other ↦ rw other (All-get k m hs)
  ]

-- A peer of the list, with the pubkey that it is found by.
abbrev IsIndexed : HashMap ℕ PeerRow → Bytes × (ℕ × PeerRow) → Type 0
IsIndexed peers (pubkey, (id, p)) = (p.pubkey ≡ some pubkey) × (get id peers ≡ some p)

index_peer-IsIndexed :
    (peers : HashMap ℕ PeerRow) (id : ℕ) (p : PeerRow) (o : Option Bytes)
    (m : HashMap Bytes (ℕ × PeerRow))
    → p.pubkey ≡ o
    → get id peers ≡ some p
    → All (IsIndexed peers) m
    → All (IsIndexed peers) (index_peer id p o m)
unfolding index_peer
index_peer-IsIndexed peers id p none m e h hs = hs
index_peer-IsIndexed peers id p (some pubkey) m e h hs =
    All-insert (IsIndexed peers) pubkey (id, p) m (e, h) hs

by_pubkey-IsIndexed :
    (peers ps : HashMap ℕ PeerRow) (m : HashMap Bytes (ℕ × PeerRow))
    → All (λ entry. get entry.0 peers ≡ some entry.1) ps
    → All (IsIndexed peers) m
    → All (IsIndexed peers) (by_pubkey ps m)
unfolding by_pubkey
by_pubkey-IsIndexed peers [] m h hs = hs
by_pubkey-IsIndexed peers ((id, p) ∷ ps) m (here, h) hs =
    by_pubkey-IsIndexed peers ps (index_peer id p p.pubkey m) h
      (index_peer-IsIndexed peers id p p.pubkey m refl here hs)

unwrap_or_entry : ℕ × PeerRow → Option (ℕ × PeerRow) → ℕ × PeerRow
unwrap_or_entry v none = v
unwrap_or_entry v (some w) = w

found-IsIndexed :
    (peers : HashMap ℕ PeerRow) (pubkey : Bytes) (id : ℕ) (p : PeerRow) (o : Option (ℕ × PeerRow))
    → Both (λ v w. IsIndexed peers (pubkey, v)) o o
    → o ≡ some (id, p)
    → IsIndexed peers (pubkey, (id, p))
unfolding unwrap_or_entry
found-IsIndexed peers pubkey id p none h e = ground arith
found-IsIndexed peers pubkey id p (some v) h e =
    subst (λ v. IsIndexed peers (pubkey, v)) (ap (unwrap_or_entry v) e) h

-- A peer that is found by a pubkey is of the list and has that pubkey.
pub get-by_pubkey :
    (peers : HashMap ℕ PeerRow) (pubkey : Bytes) (id : ℕ) (p : PeerRow)
    → Distinct peers
    → get pubkey (by_pubkey peers []) ≡ some (id, p)
    → (p.pubkey ≡ some pubkey) × (get id peers ≡ some p)
get-by_pubkey peers pubkey id p d e =
    found-IsIndexed peers pubkey id p (get pubkey (by_pubkey peers []))
      (All-get (IsIndexed peers) pubkey (by_pubkey peers [])
        (by_pubkey-IsIndexed peers peers [] (Distinct-All peers d) tt))
      e
