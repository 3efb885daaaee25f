-- ===== src/Sync/Own.antt =====
-- What is sharerr's own among the items that a pass knows.
use mathlib.Core.Option
use sharerr_rs.Prelude.{
  Bool, Bool-cases, Bytes, List, Member, Option, ap, arith, if◌then◌else◌, inl, inr, list_eq,
  nat_eq, none, some, subst, sym, true, ◌∙◌, ◌≡◌, ◌⊎◌,
}
use sharerr_rs.Announce.Query.{hash}
use sharerr_rs.Announce.Swarms.{live}
use sharerr_rs.Paths.Resolver.{MediaSource, component_eq}
use sharerr_rs.Prelude.HashMap.{HashMap, get}
use sharerr_rs.Prelude.Int.{ℤ}
use sharerr_rs.Sync.Discovery.{is_withdrawn}
use sharerr_rs.Sync.Item.{Key, SharedItem, Types, int_eq, key_eq, source_eq}
use sharerr_rs.Sync.Live.{is_seeding, live_hash, live_item, with_hash, with_known}
use sharerr_rs.Sync.Reconcile.{has_ended}
use sharerr_rs.Sync.World.{TorrentSummary}

-- A removal of a torrent that sharerr made for a known item, whose share ended on its date or which
-- a completely scanned source no longer lists.
pub record IsOwnRemoval {T : Types} (now : ℤ) (known : HashMap Key (SharedItem T))
    (ends : HashMap Key ℤ) (tagged : List Key) (withdrawable : List MediaSource) (hash : Bytes)
    : Type 0 where
  pub key : Key
  pub item : SharedItem T
  pub stands : Member (key, item) known
  pub filed : item.info_hash ≡ some hash
  pub own : item.created_by_sharerr ≡ true
  pub reason :
      (has_ended now (get key ends) ≡ true) ⊎ (is_withdrawn tagged withdrawable (key, item) ≡ true)

-- A torrent that sharerr made for a known item.
pub record IsOwn {T : Types} (known : HashMap Key (SharedItem T)) (hash : Bytes) : Type 0 where
  pub key : Key
  pub item : SharedItem T
  pub stands : Member (key, item) known
  pub filed : item.info_hash ≡ some hash
  pub own : item.created_by_sharerr ≡ true

module _ {T : Types} where
  hash_found :
      (b hash : Bytes) (found : Option (TorrentSummary T)) (reported : TorrentSummary T)
      → Option.map (with_hash b) found ≡ some (hash, reported)
      → b ≡ hash
  hash_found b hash none reported h = ground arith
  hash_found b hash (some r) reported h = ground arith

  live_hash-filed :
      (live : HashMap Bytes (TorrentSummary T)) (o : Option Bytes) (hash : Bytes)
      (reported : TorrentSummary T)
      → live_hash live o ≡ some (hash, reported)
      → o ≡ some hash
  live_hash-filed live none hash reported h = ground arith
  live_hash-filed live (some b) hash reported h =
      ap (λ x. some x) (hash_found b hash (get b live) reported h)

  live_found :
      (known seen : SharedItem T) (hash : Bytes) (found : Option (Bytes × TorrentSummary T))
      (reported : TorrentSummary T)
      → Option.map (with_known known) found ≡ some (seen, hash, reported)
      → (known ≡ seen) × (found ≡ some (hash, reported))
  live_found known seen hash none reported h = ground arith
  live_found known seen hash (some (b, r)) reported h = ground arith

  -- What is live is what was looked up, under its recorded hash.
  pub live_item-filed :
      (live : HashMap Bytes (TorrentSummary T)) (before : Option (SharedItem T))
      (seen : SharedItem T) (hash : Bytes) (reported : TorrentSummary T)
      → live_item live before ≡ some (seen, hash, reported)
      → (before ≡ some seen) × (seen.info_hash ≡ some hash)
  live_item-filed live none seen hash reported h = ground arith
  live_item-filed live (some item) seen hash reported h =
      elim (Bool-cases (is_seeding item.state)) [
        | inr idle ↦ ground arith
        | inl active ↦
            let found =
              Option.map (λ (hash, reported). (item, hash, reported))
                (live_hash live item.info_hash) in
            let (same, there) = live_found item seen hash (live_hash live item.info_hash) reported (
              subst (λ (b : Bool). (if b then found else none) ≡ some (seen, hash, reported)) active
                h) in
            (
              ap (λ x. some x) same,
              ap (λ (x : SharedItem T). x.info_hash) (sym same)
                  ∙ live_hash-filed live item.info_hash hash reported there,
            )
      ]
