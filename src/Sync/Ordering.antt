-- ===== src/Sync/Ordering.antt =====
-- A refresh of announce URLs tells the client before it writes the cache.
use sharerr_rs.Prelude.{
  ==-refl, Bytes, List, Option, PartialEq, Result, err, false, list_eq, nat_eq, none, ok, refl,
  some, true, ◌++◌, ◌==◌, ◌∙◌, ◌∷◌, ◌≡◌, ◌⊎◌,
}
use sharerr_rs.Announce.Query.{hash}
use sharerr_rs.Endpoint.AnnounceList.{AnnounceSet, tiers}
use sharerr_rs.Paths.Resolver.{component_eq}
use sharerr_rs.Prelude.HashMap.{HashMap, get, get-insert, insert}
use sharerr_rs.Sync.Cached.{retarget}
use sharerr_rs.Sync.Item.{Failure, Types, int_eq, key_eq, source_eq}
use sharerr_rs.Sync.Refresh.{
  AnnounceRefresh, is_confirmed, no_cached_torrent, parsed_urls, refresh_current, refresh_updated,
}
use sharerr_rs.Sync.World.{Env, World, trackers_set}
use sharerr_rs.Torrent.Metainfo.{Torrent}
use sharerr_rs.Torrent.Rewrite.{updated_to}

pub get-insert_self :
    {K V : Type 0} ⦃e : PartialEq K⦄ (k : K) (v : V) (m : HashMap K V)
    → get k (insert k v m) ≡ some v
get-insert_self k v m = get-insert k k v m ∙ rw (==-refl k) refl

module _ {T : Types} {Url : Type 0} ⦃e : PartialEq Url⦄ (env : Env T Url) (hash : Bytes)
    (set : AnnounceSet Url) (upstream : List Bytes) where
  -- What a refresh leaves, by its answer.
  abbrev pub RefreshEnd : World T Url → World T Url → Result Failure AnnounceRefresh → Type 0
  RefreshEnd before w (err failure) =
      (w.confirmed ≡ before.confirmed)
      × ((w.cache ≡ before.cache)
          ⊎ ((w.calls
                ≡ (trackers_set hash (tiers set ++ parsed_urls env upstream), true) ∷ before.calls)
              × ((j : Bytes) → (j == hash) ≡ false → get j w.cache ≡ get j before.cache)))
  RefreshEnd before w (ok refresh_current) =
      (w.cache ≡ before.cache) × (w.calls ≡ before.calls) × (is_confirmed hash set w ≡ true)
  RefreshEnd before w (ok no_cached_torrent) =
      (w.cache ≡ before.cache)
      × (w.confirmed ≡ before.confirmed)
      × (w.calls ≡ before.calls)
      × (get hash before.cache ≡ none)
  RefreshEnd before w (ok refresh_updated) =
      (w.calls ≡ (trackers_set hash (tiers set ++ parsed_urls env upstream), true) ∷ before.calls)
      × (is_confirmed hash set w ≡ true)
      × ((cached : Bytes) × (previous : Option Bytes) × (t : Torrent) × (rewritten : Bytes) × (get
              hash before.cache
            ≡ some cached)
          × (retarget env cached set ≡ ok (updated_to previous t rewritten))
          × (get hash w.cache ≡ some rewritten))
