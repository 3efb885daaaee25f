-- ===== src/Sync/Adopted.antt =====
-- A torrent that was in the client already, and an item's own rows.
use sharerr_rs.Prelude.{
  All, Bool, Bytes, List, Option, Option-cases, PartialEq, [], ap, false, if◌then◌else◌, inl, inr,
  list_eq, nat_eq, none, ok, refl, some, subst, sym, ◌++◌, ◌==◌, ◌∙◌, ◌∷◌, ◌≡◌,
}
use sharerr_rs.Announce.Query.{hash}
use sharerr_rs.Endpoint.AnnounceList.{AnnounceSet, tiers}
use sharerr_rs.Lighthouse.State.{new}
use sharerr_rs.Paths.Resolver.{ResolvedPaths, component_eq}
use sharerr_rs.Prelude.HashMap.{get, get-insert, get-remove}
use sharerr_rs.Sync.Cached.{find_existing}
use sharerr_rs.Sync.Exec.{◌>>=◌}
use sharerr_rs.Sync.Frame.{Frame}
use sharerr_rs.Sync.Item.{
  Discovered, ItemOrigin, Key, SharedItem, Types, discovered_key, int_eq, item_key, key_eq,
  source_eq,
}
use sharerr_rs.Sync.JoinFrame.{seed_found-Keeps}
use sharerr_rs.Sync.Live.{PassContext}
use sharerr_rs.Sync.Pass.{share}
use sharerr_rs.Sync.Refresh.{confirm_set}
use sharerr_rs.Sync.Report.{note_applied, note_cap}
use sharerr_rs.Sync.Seed.{FriendTorrents, seed}
use sharerr_rs.Sync.ShareFrame.{share-Keeps}
use sharerr_rs.Sync.Store.{
  logged, put_audience, put_cached, put_item, put_origin, tick, updated_row, upserted,
}
use sharerr_rs.Sync.World.{
  ClientCall, Env, Row, TorrentSummary, World, added, limits_applied, removed, trackers_added,
  trackers_set,
}

-- The one request that adopting makes.
abbrev pub AddsTrackers :
    {T : Types} {Url : Type 0} → Bytes → AnnounceSet Url → ClientCall T Url → Type 0
AddsTrackers existing set (trackers_added hash urls) = (hash ≡ existing) × (urls ≡ tiers set)
AddsTrackers existing set (added r) = ⊥
AddsTrackers existing set (removed hash) = ⊥
AddsTrackers existing set (trackers_set hash urls) = ⊥
AddsTrackers existing set (limits_applied hash limits) = ⊥

-- The requests since some earlier ones.
abbrev pub Since :
    {T : Types} {Url : Type 0}
    → (ClientCall T Url → Type 0)
    → List (ClientCall T Url × Bool)
    → World T Url
    → Type 0
Since {T = T} {Url = Url} May old w =
    (new : List (ClientCall T Url × Bool)) × (w.calls ≡ new ++ old) × All (λ entry. May entry.0) new

module _ {T : Types} {Url : Type 0} where
  put_origin-Since :
      (May : ClientCall T Url → Type 0) (old : List (ClientCall T Url × Bool)) (k : Key)
      (origin : Option ItemOrigin) (w : World T Url)
      → Since May old w
      → Since May old (put_origin k origin w)
  unfolding put_origin
  put_origin-Since May old k none w h = h
  put_origin-Since May old k (some origin) w h = h

  pub Since-Frame :
      (May : ClientCall T Url → Type 0) (old : List (ClientCall T Url × Bool))
      → Frame May (λ k. Unit) (Since May old)
  unfolding tick logged put_cached confirm_set updated_row put_item put_audience note_cap
      note_applied
  Since-Frame May old = record {
    ticks = λ w h. h;
    requests = λ call answer w may (new, same, all_may).
        ((call, answer.0) ∷ new, ap (λ calls. (call, answer.0) ∷ calls) same, (may, all_may));
    caches = λ hash torrent w h. h;
    confirms = λ hash set w h. h;
    updates = λ k f w mine h. h;
    items = λ item w mine h. h;
    origins = λ k origin w mine h. put_origin-Since May old k origin w h;
    audiences = λ source audience w h. h;
    caps = λ cap w h. h;
    limits = λ hash w h. h;
  }

-- Where the client already has a torrent that covers the file, seeding it asks the client for nothing
-- but to add exactly the tiers of sharerr's announce set to that torrent: it is not removed, limited, replaced or added again.
pub seed-AddsTrackers :
    {T : Types} {Url : Type 0} ⦃e : PartialEq Url⦄ (env : Env T Url) (paths : ResolvedPaths)
    (set : AnnounceSet Url) (torrents : List (TorrentSummary T)) (known : Option Bytes)
    (media : Option T.Media) (friends : FriendTorrents) (existing : Bytes) (w : World T Url)
    → find_existing env torrents paths.qbit w ≡ (ok (some existing), w)
    → Since
        (AddsTrackers existing set)
        w.calls
        (seed env paths set torrents known media friends w).1
unfolding seed ◌>>=◌
seed-AddsTrackers env paths set torrents known media friends existing w found = rw found (
    (seed_found-Keeps env (Since-Frame (AddsTrackers existing set) w.calls) paths set torrents known
        media friends existing (refl, refl)).at
      w ([], refl, tt))

-- The rows of every other item.
abbrev pub OthersKept : {T : Types} {Url : Type 0} → Key → World T Url → World T Url → Type 0
OthersKept k before w =
    (j : Key)
    → (j == k) ≡ false
    → (get j w.rows ≡ get j before.rows) × (get j w.origins ≡ get j before.origins)

module _ {T : Types} {Url : Type 0} (k : Key) (before : World T Url) where
  updated_row-OthersKept :
      (j : Key) (f : Row T → Row T) (w : World T Url)
      → j ≡ k
      → OthersKept k before w
      → OthersKept k before (updated_row j f w)
  unfolding updated_row
  updated_row-OthersKept j f w mine h i other = elim (Option-cases (get j w.rows)) [
    | inl gone ↦ rw gone (h i other)
    | inr (row, there) ↦
        rw there (get-insert i j (f row) w.rows ∙ rw (mine, other) (h i other).0, (h i other).1)
  ]

  put_item-OthersKept :
      (item : SharedItem T) (w : World T Url)
      → item_key item ≡ k
      → OthersKept k before w
      → OthersKept k before (put_item (item_key item) item w)
  unfolding put_item
  put_item-OthersKept item w mine h i other =
      let other' = subst (λ (j : Key). (i == j) ≡ false) (sym mine) other in
      (
        get-insert i (item_key item) _ w.rows
            ∙ ap
                (λ (b : Bool).
                  if b then some (upserted item (get (item_key item) w.rows)) else get i w.rows)
                other'
            ∙ (h i other).0,
        (h i other).1,
      )

  put_origin-OthersKept :
      (j : Key) (origin : Option ItemOrigin) (w : World T Url)
      → j ≡ k
      → OthersKept k before w
      → OthersKept k before (put_origin j origin w)
  unfolding put_origin
  put_origin-OthersKept j none w mine h i other =
      ((h i other).0, get-remove i j w.origins ∙ rw (mine, other) (h i other).1)
  put_origin-OthersKept j (some origin) w mine h i other =
      ((h i other).0, get-insert i j _ w.origins ∙ rw (mine, other) (h i other).1)

  OthersKept-Frame : Frame (λ (call : ClientCall T Url). Unit) (λ j. j ≡ k) (OthersKept k before)
  unfolding tick logged put_cached confirm_set put_audience note_cap note_applied
  OthersKept-Frame = record {
    ticks = λ w h. h;
    requests = λ call answer w may h. h;
    caches = λ hash torrent w h. h;
    confirms = λ hash set w h. h;
    updates = updated_row-OthersKept;
    items = put_item-OthersKept;
    origins = put_origin-OthersKept;
    audiences = λ source audience w h. h;
    caps = λ cap w h. h;
    limits = λ hash w h. h;
  }

-- Sharing an item, whether it succeeds or fails, leaves the row and the origin of every other item as
-- they were.
pub share-OthersKept :
    {T : Types} {Url : Type 0} ⦃e : PartialEq Url⦄ (env : Env T Url) (item : Discovered T)
    (pass : PassContext T Url) (known : Option (SharedItem T)) (w : World T Url)
    → OthersKept (discovered_key item) w (share env item pass known w).1
share-OthersKept env item pass known w =
    (share-Keeps env (OthersKept-Frame (discovered_key item) w) (λ r. tt) (λ hash urls. tt) item
        pass known refl (λ seen hash reported live own limits. tt) (λ hash urls. tt)).at
      w (λ j other. (refl, refl))
