-- ===== src/Sync/Frame.antt =====
-- What a sync action may do, as the rules that a property of the state has to be closed under: which
-- requests it makes of the client, and which items' rows it writes.
use sharerr_rs.Prelude.{
  Bool, Bytes, List, Option, PartialEq, Result, err, list_eq, nat_eq, none, ok, some, ℕ,
}
use sharerr_rs.Announce.Query.{hash}
use sharerr_rs.Endpoint.AnnounceList.{AnnounceSet}
use sharerr_rs.Paths.Resolver.{MediaSource, component_eq}
use sharerr_rs.Prelude.Int.{ℤ}
use sharerr_rs.Sync.Exec.{modify}
use sharerr_rs.Sync.Item.{
  Failure, ItemOrigin, Key, ShareState, SharedItem, Types, int_eq, item_key, key_eq, source_eq,
}
use sharerr_rs.Sync.Keeps.{
  Keeps, Keeps-bind, Keeps-modify, Keeps-pure, Keeps-raise, Keeps-settle, keeps_rules,
}
use sharerr_rs.Sync.Refresh.{confirm_set, mark_confirmed}
use sharerr_rs.Sync.Report.{apply_goal, note_applied, note_cap, reconcile_limits}
use sharerr_rs.Sync.Store.{
  access, ask_client, end_write, left_cached, logged, or_failure, put_audience, put_cached,
  put_item, put_origin, read_cached, read_rows, replace_audience, set_item_origin, set_limits,
  set_state, tick, torn_cached, update_item, updated_row, upsert, write_torrent_file,
}
use sharerr_rs.Sync.World.{
  ClientCall, Env, Row, SeedingLimits, TorrentSummary, World, limits_applied,
}

module _ {T : Types} {Url : Type 0} where
  pub record Frame (May : ClientCall T Url → Type 0) (Mine : Key → Type 0)
      (P : World T Url → Type 0) : Type 0 where
    pub ticks : (w : World T Url) → P w → P (tick w)
    pub requests :
        (call : ClientCall T Url) (answer : Bool × T.Client) (w : World T Url)
        → May call
        → P w
        → P (logged call answer w)
    pub caches : (hash torrent : Bytes) (w : World T Url) → P w → P (put_cached hash torrent w)
    pub confirms :
        (hash : Bytes) (set : AnnounceSet Url) (w : World T Url) → P w → P (confirm_set hash set w)
    pub updates :
        (k : Key) (f : Row T → Row T) (w : World T Url) → Mine k → P w → P (updated_row k f w)
    pub items :
        (item : SharedItem T) (w : World T Url)
        → Mine (item_key item)
        → P w
        → P (put_item (item_key item) item w)
    pub origins :
        (k : Key) (origin : Option ItemOrigin) (w : World T Url)
        → Mine k
        → P w
        → P (put_origin k origin w)
    pub audiences :
        (source : MediaSource) (audience : List (ℤ × List Bytes)) (w : World T Url)
        → P w
        → P (put_audience source audience w)
    pub caps : (cap : Option ℕ) (w : World T Url) → P w → P (note_cap cap w)
    pub limits : (hash : Bytes) (w : World T Url) → P w → P (note_applied hash w)

  module _ {A : Type 0} {P : World T Url → Type 0} (env : Env T Url) where
    pub or_failure-Keeps : (o : Option A) (failure : Failure) → Keeps P (or_failure env o failure)
    or_failure-Keeps none failure = Keeps-raise failure
    or_failure-Keeps (some a) failure = Keeps-pure a

  module _ {May : ClientCall T Url → Type 0} {Mine : Key → Type 0} {P : World T Url → Type 0}
      (env : Env T Url) (frame : Frame May Mine P) where
    pub ask_client-Keeps : (call : ClientCall T Url) → May call → Keeps P (ask_client env call)
    unfolding ask_client
    ask_client-Keeps call may = record { at = λ w h. frame.requests call _ w may h }

    pub access-Keeps : Keeps P (access env)
    unfolding access
    access-Keeps = record { at = λ w h. frame.ticks w h }

    pub set_limits-Keeps :
        (hash : Bytes) (limits : SeedingLimits T)
        → May (limits_applied hash limits)
        → Keeps P (set_limits env hash limits)
    unfolding set_limits
    set_limits-Keeps hash limits may = search (keeps_rules, ask_client-Keeps)

    pub read_rows-Keeps : {A : Type 0} (f : World T Url → A) → Keeps P (read_rows env f)
    unfolding read_rows
    read_rows-Keeps f = search (keeps_rules, access-Keeps)

    pub read_cached-Keeps : (hash : Bytes) → Keeps P (read_cached env hash)
    unfolding read_cached
    read_cached-Keeps hash = search (keeps_rules, access-Keeps)

    left_cached-Keeps :
        (hash : Bytes) (left : Option Bytes) (w : World T Url)
        → P w
        → P (left_cached env hash left w)
    left_cached-Keeps hash none w h = h
    left_cached-Keeps hash (some left) w h = frame.caches hash left w h

    end_write-Keeps :
        (hash torrent : Bytes) (outcome : Result Failure (Unit {0}))
        → Keeps P (end_write env hash torrent outcome)
    unfolding end_write torn_cached
    end_write-Keeps hash torrent (ok done) = Keeps-modify _ (frame.caches hash torrent)
    end_write-Keeps hash torrent (err failure) =
        Keeps-bind _ _
          (Keeps-modify _ λ w h. left_cached-Keeps hash (env.torn w.accesses torrent) w h)
          λ _. Keeps-raise failure

    pub write_torrent_file-Keeps :
        (hash torrent : Bytes) → Keeps P (write_torrent_file env hash torrent)
    unfolding write_torrent_file
    write_torrent_file-Keeps hash torrent =
        Keeps-bind _ _ (Keeps-settle _ access-Keeps) (end_write-Keeps hash torrent)

    pub mark_confirmed-Keeps :
        ⦃e : PartialEq Url⦄ (hash : Bytes) (set : AnnounceSet Url)
        → Keeps P (mark_confirmed env hash set)
    unfolding mark_confirmed
    mark_confirmed-Keeps hash set = Keeps-modify _ (frame.confirms hash set)

    pub update_item-Keeps : (k : Key) (f : Row T → Row T) → Mine k → Keeps P (update_item env k f)
    unfolding update_item
    update_item-Keeps k f mine =
        Keeps-bind _ _ access-Keeps λ _. Keeps-modify _ λ w. frame.updates k f w mine

    pub set_state-Keeps :
        (k : Key) (state : ShareState) (failure : Option Failure)
        → Mine k
        → Keeps P (set_state env k state failure)
    unfolding set_state
    set_state-Keeps k state failure mine = update_item-Keeps k _ mine

    pub upsert-Keeps : (item : SharedItem T) → Mine (item_key item) → Keeps P (upsert env item)
    unfolding upsert
    upsert-Keeps item mine =
        Keeps-bind _ _ access-Keeps λ _. Keeps-modify _ λ w. frame.items item w mine

    pub set_item_origin-Keeps :
        (k : Key) (origin : Option ItemOrigin) → Mine k → Keeps P (set_item_origin env k origin)
    unfolding set_item_origin
    set_item_origin-Keeps k origin mine =
        Keeps-bind _ _ access-Keeps λ _. Keeps-modify _ λ w. frame.origins k origin w mine

    pub replace_audience-Keeps :
        (source : MediaSource) (audience : List (ℤ × List Bytes))
        → Keeps P (replace_audience env source audience)
    unfolding replace_audience
    replace_audience-Keeps source audience =
        Keeps-bind _ _ access-Keeps λ _. Keeps-modify _ (frame.audiences source audience)

    modify-note_applied-Keeps :
        (hash : Bytes) → Keeps P (modify {E = Failure} (note_applied {T = T} {Url = Url} hash))
    modify-note_applied-Keeps hash = Keeps-modify _ (frame.limits hash)

    apply_goal-Keeps :
        (hash : Bytes) (reported : TorrentSummary T)
        → ((limits : SeedingLimits T) → May (limits_applied hash limits))
        → Keeps P (apply_goal env hash reported)
    unfolding apply_goal
    apply_goal-Keeps hash reported may =
        search (keeps_rules, set_limits-Keeps, modify-note_applied-Keeps)

    pub reconcile_limits-Keeps :
        (hash : Bytes) (reported : TorrentSummary T)
        → ((limits : SeedingLimits T) → May (limits_applied hash limits))
        → Keeps P (reconcile_limits env hash reported)
    unfolding reconcile_limits
    reconcile_limits-Keeps hash reported may = search (keeps_rules, apply_goal-Keeps)

pub ruleset frame_rules = (
  keeps_rules, or_failure-Keeps, ask_client-Keeps, read_cached-Keeps, write_torrent_file-Keeps,
  mark_confirmed-Keeps, update_item-Keeps, set_state-Keeps, upsert-Keeps, set_item_origin-Keeps,
)
