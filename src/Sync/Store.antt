-- ===== src/Sync/Store.antt =====
-- The calls that change what a pass acts on: the requests to the client, and the queries of
-- crates/sharerr-store/src/db.rs and catalog.rs that the pass makes. An update of a row that is not
-- there changes nothing.
use mathlib.Core.Option
use sharerr_rs.Prelude.{
  Bool, Bytes, List, Option, Result, err, false, if◌then◌else◌, list_eq, nat_eq, none, not, ok,
  option_eqb, some, suc, true, ◌&&◌, ◌∷◌,
}
use sharerr_rs.Announce.Query.{hash}
use sharerr_rs.Paths.Resolver.{MediaSource, component_eq, unwrap_or}
use sharerr_rs.Prelude.HashMap.{HashMap, get, insert, is_some, remove}
use sharerr_rs.Prelude.Int.{ℤ}
use sharerr_rs.Sync.Exec.{gets, modify, pure, raise, settle, ◌>>=◌, ◌>>◌}
use sharerr_rs.Sync.Item.{
  Failure, FileStamp, ItemOrigin, Key, ShareState, SharedItem, Types, client_failed, int_eq,
  io_failed, item_key, key_eq, pending, seeding, source_eq,
}
use sharerr_rs.Sync.World.{ClientCall, Env, Row, SeedingLimits, Sync, World, limits_applied}
use sharerr_rs.Torrent.Stream.{is_nil}

-- `COALESCE`
abbrev coalesce : {A : Type 0} → Option A → Option A → Option A
coalesce none old = old
coalesce (some a) old = some a

module _ {T : Types} where
  unfoldable pub limits_is_empty : SeedingLimits T → Bool
  limits_is_empty limits = not (is_some limits.upload_limit_kib) && not (is_some limits.ratio_limit)

  -- The row that `upsert` leaves.
  unfoldable pub upserted : SharedItem T → Option (Row T) → Row T
  upserted item none = record { item = item; info_hash_v2 = none; stamp = none; share_until = none }
  upserted item (some row) = record row {
    item = record item {
      info_hash = coalesce item.info_hash row.item.info_hash;
      announce_token_fp = coalesce item.announce_token_fp row.item.announce_token_fp;
      created_by_sharerr = row.item.created_by_sharerr;
      media = coalesce item.media row.item.media;
      achieved_ratio = coalesce item.achieved_ratio row.item.achieved_ratio;
      ratio_limit_reported = coalesce item.ratio_limit_reported row.item.ratio_limit_reported;
      is_private = row.item.is_private;
    };
  }

-- The origin that stays: without trackers of its own, one of the same friend keeps the old ones.
unfoldable pub merged_origin : ItemOrigin → Option ItemOrigin → ItemOrigin
merged_origin origin none = origin
merged_origin origin (some old) =
    if is_nil origin.upstream && option_eqb old.peer_id origin.peer_id
    then record origin { upstream = old.upstream }
    else origin

abbrev put_row : {V : Type 0} → Key → Option V → HashMap Key V → HashMap Key V
put_row k none rows = rows
put_row k (some row) rows = insert k row rows

module _ {T : Types} {Url : Type 0} where
  unfoldable pub logged : ClientCall T Url → Bool × T.Client → World T Url → World T Url
  logged call (success, next) w = record w { client = next; calls = (call, success) ∷ w.calls }

  unfoldable pub tick : World T Url → World T Url
  tick w = record w { accesses = suc w.accesses }

  unfoldable pub put_cached : Bytes → Bytes → World T Url → World T Url
  put_cached hash torrent w = record w { cache = insert hash torrent w.cache }

  -- `UPDATE … WHERE source = ? AND file_id = ?`
  unfoldable pub updated_row : Key → (Row T → Row T) → World T Url → World T Url
  updated_row k f w = record w { rows = put_row k (Option.map f (get k w.rows)) w.rows }

  unfoldable pub put_item : Key → SharedItem T → World T Url → World T Url
  unfolding upserted
  put_item k item w = record w { rows = insert k (upserted item (get k w.rows)) w.rows }

  unfoldable pub put_origin : Key → Option ItemOrigin → World T Url → World T Url
  unfolding merged_origin
  put_origin k none w = record w { origins = remove k w.origins }
  put_origin k (some origin) w = record w {
    origins = insert k (merged_origin origin (get k w.origins)) w.origins;
  }

  unfoldable pub put_audience : MediaSource → List (ℤ × List Bytes) → World T Url → World T Url
  put_audience source audience w = record w { audiences = insert source audience w.audiences }

module _ {T : Types} {Url : Type 0} (env : Env T Url) where
  abbrev pub or_failure : {A : Type 0} → Option A → Failure → Sync T Url A
  or_failure none e = raise e
  or_failure (some a) e = pure a

  unfoldable pub ask_client : ClientCall T Url → Sync T Url Unit
  unfolding logged
  ask_client call w =
      let answer = env.qbit.perform call w.client in
      (if answer.0 then ok tt else err client_failed, logged call answer w)

  unfoldable pub set_limits : Bytes → SeedingLimits T → Sync T Url Unit
  unfolding limits_is_empty ask_client
  set_limits hash limits =
      if limits_is_empty limits then pure tt else ask_client (limits_applied hash limits)

  unfoldable pub access : Sync T Url Unit
  unfolding tick
  access w = (if env.refuses w.accesses then err io_failed else ok tt, tick w)

  unfoldable pub read_rows : {A : Type 0} → (World T Url → A) → Sync T Url A
  unfolding access
  read_rows f = do access; gets f

  unfoldable pub read_cached : Bytes → Sync T Url (Option Bytes)
  unfolding access
  read_cached hash = do access; gets λ w. get hash w.cache

  -- What a write that fails leaves: the file is truncated before it is written.
  abbrev pub left_cached : Bytes → Option Bytes → World T Url → World T Url
  left_cached hash none w = w
  left_cached hash (some left) w = put_cached hash left w

  unfoldable pub torn_cached : Bytes → Bytes → World T Url → World T Url
  unfolding put_cached
  torn_cached hash torrent w = left_cached hash (env.torn w.accesses torrent) w

  unfoldable pub end_write : Bytes → Bytes → Result Failure (Unit {0}) → Sync T Url Unit
  unfolding put_cached torn_cached
  end_write hash torrent (ok done) = modify (put_cached hash torrent)
  end_write hash torrent (err failure) = do modify (torn_cached hash torrent); raise failure

  unfoldable pub write_torrent_file : Bytes → Bytes → Sync T Url Unit
  unfolding access end_write
  write_torrent_file hash torrent = do outcome ← settle access; end_write hash torrent outcome

  unfoldable pub update_item : Key → (Row T → Row T) → Sync T Url Unit
  unfolding access updated_row
  update_item k f = do access; modify (updated_row k f)

  unfoldable pub set_state : Key → ShareState → Option Failure → Sync T Url Unit
  unfolding update_item
  set_state k state last_error =
      update_item k
        λ row. record row { item = record row.item { state = state; last_error = last_error } }

  unfoldable pub set_seeding : Key → Bytes → Option Bytes → Bool → Option Bool → Sync T Url Unit
  unfolding update_item
  set_seeding k info_hash token_fp created private_flag = update_item k λ row. record row {
    info_hash_v2 = none;
    item = record row.item {
      info_hash = some info_hash;
      announce_token_fp = token_fp;
      created_by_sharerr = created;
      is_private = unwrap_or private_flag row.item.is_private;
      state = seeding;
      last_error = none;
    };
  }

  unfoldable pub confirm_seeding :
      Key → Option Bytes → Option T.Float → Option T.Float → Sync T Url Unit
  unfolding update_item
  confirm_seeding k token_fp ratio ratio_limit = update_item k λ row. record row {
    item = record row.item {
      announce_token_fp = token_fp;
      achieved_ratio = ratio;
      ratio_limit_reported = ratio_limit;
    };
  }

  unfoldable pub set_ratio : Key → Option T.Float → Option T.Float → Sync T Url Unit
  unfolding update_item
  set_ratio k ratio ratio_limit = update_item k λ row. record row {
    item = record row.item { achieved_ratio = ratio; ratio_limit_reported = ratio_limit };
  }

  unfoldable pub set_file_stamp : Key → Option FileStamp → Sync T Url Unit
  unfolding update_item
  set_file_stamp k stamp = update_item k λ row. record row { stamp = stamp }

  unfoldable pub set_info_hash_v2 : Key → Bytes → Sync T Url Unit
  unfolding update_item
  set_info_hash_v2 k hash = update_item k λ row. record row { info_hash_v2 = some hash }

  unfoldable pub upsert : SharedItem T → Sync T Url Unit
  unfolding access put_item
  upsert item = do access; modify (put_item (item_key item) item)

  unfoldable pub set_item_origin : Key → Option ItemOrigin → Sync T Url Unit
  unfolding access put_origin
  set_item_origin k origin = do access; modify (put_origin k origin)

  unfoldable pub reset_for_rebuild : Key → Sync T Url Unit
  unfolding update_item set_item_origin
  reset_for_rebuild k = do
    update_item k λ row. record row {
      info_hash_v2 = none;
      item = record row.item {
        info_hash = none;
        announce_token_fp = none;
        created_by_sharerr = false;
        is_private = true;
        state = pending;
        last_error = none;
      };
    }
    set_item_origin k none

  unfoldable pub replace_audience : MediaSource → List (ℤ × List Bytes) → Sync T Url Unit
  unfolding access put_audience
  replace_audience source audience = do access; modify (put_audience source audience)
