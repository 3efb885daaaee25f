-- ===== src/Sync/Recorded.antt =====
-- The row of an item that has been shared.
use mathlib.Core.Option
use sharerr_rs.Torrent.Fields
use sharerr_rs.Prelude.{
  Bytes, Option, PartialEq, ap, false, list_eq, nat_eq, none, refl, some, true, ◌≡◌,
}
use sharerr_rs.Announce.Query.{hash}
use sharerr_rs.Announce.Swarms.{step}
use sharerr_rs.Paths.Resolver.{component_eq, unwrap_or}
use sharerr_rs.Prelude.HashMap.{get, is_some}
use sharerr_rs.Sync.Ensures.{Ensures, Ensures-Keeps, Ensures-bind, Ensures-pure}
use sharerr_rs.Sync.Exec.{modify}
use sharerr_rs.Sync.Item.{FileStamp, ItemOrigin, Key, Types, int_eq, key_eq, seeding, source_eq}
use sharerr_rs.Sync.Keeps.{Keeps, Keeps-bind, Keeps-modify, Keeps-settle}
use sharerr_rs.Sync.Leads.{IfOk, IfOk-mono}
use sharerr_rs.Sync.Ordering.{get-insert_self}
use sharerr_rs.Sync.Pass.{made_of, origin_of, record_seeding, write_v2_hash}
use sharerr_rs.Sync.Seed.{
  AddedTorrent, SeedOutcome, outcome_hash, seed_added, seed_joined, seed_reused,
}
use sharerr_rs.Sync.Store.{
  access, put_origin, set_file_stamp, set_info_hash_v2, set_item_origin, set_seeding, tick,
  update_item, updated_row,
}
use sharerr_rs.Sync.World.{Env, Row, World}
use sharerr_rs.Torrent.Fields.{bind_option, info_hash, info_hash_v2, is_private}

-- What the row says of whose the torrent is, by how `seed` ended: a torrent that was handed to the
-- client, built here or a friend's, is sharerr's own, with the privacy and the second hash of what was
-- handed over; one that the client had already is not.
abbrev pub OwnedAs : {T : Types} → SeedOutcome → Row T → Row T → Type 0
OwnedAs (seed_added hash handed) old row =
    (row.item.info_hash ≡ some hash)
    × (row.item.created_by_sharerr ≡ true)
    × (row.item.is_private ≡ handed.private_flag)
    × (row.info_hash_v2 ≡ handed.info_hash_v2)
OwnedAs (seed_joined hash origin (some handed)) old row =
    (row.item.info_hash ≡ some hash)
    × (row.item.created_by_sharerr ≡ true)
    × (row.item.is_private ≡ handed.private_flag)
    × (row.info_hash_v2 ≡ handed.info_hash_v2)
OwnedAs (seed_reused hash upstream) old row =
    (row.item.info_hash ≡ some hash)
    × (row.item.created_by_sharerr ≡ false)
    × (row.item.is_private ≡ old.item.is_private)
    × (row.info_hash_v2 ≡ none)
OwnedAs (seed_joined hash origin none) old row =
    (row.item.info_hash ≡ some hash)
    × (row.item.created_by_sharerr ≡ false)
    × (row.item.is_private ≡ old.item.is_private)
    × (row.info_hash_v2 ≡ none)

-- What the row says of the torrent that is seeding, in terms of the code's own table.
pub record IsRecorded {T : Types} (outcome : SeedOutcome) (old row : Row T) : Type 0 where
  pub filed : row.item.info_hash ≡ some (outcome_hash outcome)
  pub active : row.item.state ≡ seeding
  pub no_error : row.item.last_error ≡ none
  pub ownership : row.item.created_by_sharerr ≡ is_some (made_of outcome)
  pub privacy :
      row.item.is_private
      ≡ unwrap_or (Option.map (λ m. m.private_flag) (made_of outcome)) old.item.is_private
  pub same_date : row.share_until ≡ old.share_until

module _ {T : Types} {Url : Type 0} (env : Env T Url) (k : Key) where
  abbrev Holds : (Row T → Type 0) → World T Url → Type 0
  Holds Q w = (row : Row T) × (get k w.rows ≡ some row) × Q row

  updated_row-Holds :
      (Q R : Row T → Type 0) (f : Row T → Row T) (w : World T Url)
      → ((row : Row T) → Q row → R (f row))
      → Holds Q w
      → Holds R (updated_row k f w)
  unfolding updated_row
  updated_row-Holds Q R f w step (row, there, q) =
      rw there (f row, get-insert_self k (f row) w.rows, step row q)

  access-Holds : (Q : Row T → Type 0) → Keeps (Holds Q) (access env)
  unfolding access tick
  access-Holds Q = record { at = λ w h. h }

  update_item-Ensures :
      (Q R : Row T → Type 0) (f : Row T → Row T)
      → ((row : Row T) → Q row → R (f row))
      → Ensures (Holds Q) (Holds R) (update_item env k f)
  unfolding update_item modify
  update_item-Ensures Q R f step =
      Ensures-bind _ _ (Ensures-Keeps _ (access-Holds Q))
        λ _. record { after = λ w h. updated_row-Holds Q R f w step h }

  update_item-Holds :
      (Q : Row T → Type 0) (f : Row T → Row T)
      → ((row : Row T) → Q row → Q (f row))
      → Keeps (Holds Q) (update_item env k f)
  unfolding update_item
  update_item-Holds Q f step =
      Keeps-bind _ _ (access-Holds Q) λ _. Keeps-modify _ λ w h. updated_row-Holds Q Q f w step h

  put_origin-Holds :
      (Q : Row T → Type 0) (origin : Option ItemOrigin) (w : World T Url)
      → Holds Q w
      → Holds Q (put_origin k origin w)
  unfolding put_origin
  put_origin-Holds Q none w h = h
  put_origin-Holds Q (some origin) w h = h

  set_item_origin-Holds :
      (Q : Row T → Type 0) (origin : Option ItemOrigin)
      → Keeps (Holds Q) (set_item_origin env k origin)
  unfolding set_item_origin
  set_item_origin-Holds Q origin =
      Keeps-bind _ _ (access-Holds Q) λ _. Keeps-modify _ λ w h. put_origin-Holds Q origin w h

module _ {T : Types} {Url : Type 0} ⦃e : PartialEq Url⦄ (env : Env T Url) (k : Key)
    (outcome : SeedOutcome) (old : Row T) where
  abbrev Seeded : Option Bytes → Row T → Type 0
  Seeded v2 row = IsRecorded outcome old row × (row.info_hash_v2 ≡ v2)

  write_v2_hash-Ensures :
      (v2 : Option Bytes)
      → Ensures (Holds env k (Seeded none)) (Holds env k (Seeded v2)) (write_v2_hash env k v2)
  unfolding write_v2_hash set_info_hash_v2
  write_v2_hash-Ensures none = Ensures-pure tt
  write_v2_hash-Ensures (some v2) =
      update_item-Ensures env k (Seeded none) (Seeded (some v2)) _ λ row (r, none_yet). (
        record {
          filed = r.filed;
          active = r.active;
          no_error = r.no_error;
          ownership = r.ownership;
          privacy = r.privacy;
          same_date = r.same_date;
        },
        refl,
      )

  record_seeding-Ensures :
      (token_fp : Option Bytes) (stamp : Option FileStamp)
      → Ensures
          (Holds env k (λ row. row ≡ old))
          (Holds env k (Seeded (Fields.bind_option (made_of outcome) (λ m. m.info_hash_v2))))
          (record_seeding env k token_fp stamp outcome)
  unfolding record_seeding set_seeding set_file_stamp
  record_seeding-Ensures token_fp stamp =
      let v2 = Fields.bind_option (made_of outcome) (λ (m : AddedTorrent). m.info_hash_v2) in
      Ensures-bind _ _
        (update_item-Ensures env k (λ row. row ≡ old) (Seeded none) _
          λ row same. (
            record {
              filed = refl;
              active = refl;
              no_error = refl;
              ownership = refl;
              privacy =
                  ap
                    (λ (r : Row T).
                      unwrap_or
                        (Option.map (λ (m : AddedTorrent). m.private_flag) (made_of outcome))
                        r.item.is_private)
                    same;
              same_date = ap (λ (r : Row T). r.share_until) same;
            },
            refl,
          ))
        λ _. Ensures-bind _ _ (write_v2_hash-Ensures v2) λ _.
          Ensures-bind _ _
            (Ensures-Keeps _ (set_item_origin-Holds env k (Seeded v2) (origin_of outcome)))
            λ _.
              Ensures-bind _ _
                (Ensures-Keeps _ (
                  Keeps-settle _ (
                    update_item-Holds env k (Seeded v2) _ λ row (r, same). (
                      record {
                        filed = r.filed;
                        active = r.active;
                        no_error = r.no_error;
                        ownership = r.ownership;
                        privacy = r.privacy;
                        same_date = r.same_date;
                      },
                      same,
                    ))))
                λ _. Ensures-pure _

IsRecorded-OwnedAs :
    {T : Types} (outcome : SeedOutcome) (old row : Row T)
    → IsRecorded outcome old row
    → row.info_hash_v2 ≡ Fields.bind_option (made_of outcome) (λ m. m.info_hash_v2)
    → OwnedAs outcome old row
IsRecorded-OwnedAs (seed_added hash handed) old row r second =
    (r.filed, r.ownership, r.privacy, second)
IsRecorded-OwnedAs (seed_reused hash upstream) old row r second =
    (r.filed, r.ownership, r.privacy, second)
IsRecorded-OwnedAs (seed_joined hash origin none) old row r second =
    (r.filed, r.ownership, r.privacy, second)
IsRecorded-OwnedAs (seed_joined hash origin (some handed)) old row r second =
    (r.filed, r.ownership, r.privacy, second)

-- What the row of an item holds once `record_seeding` succeeds.
abbrev pub RecordedAs :
    {T : Types} {Url : Type 0} → Key → SeedOutcome → Row T → World T Url → Type 0
RecordedAs k outcome old w =
    (row : Row _) × (get k w.rows ≡ some row)
    × OwnedAs outcome old row
    × (row.item.state ≡ seeding)
    × (row.item.last_error ≡ none)
    × (row.share_until ≡ old.share_until)

-- Where an item has a row and recording what `seed` came to succeeds, the row is left seeding under
-- the outcome's info hash, without an error and with its end date. A torrent that was handed to the
-- client, built here or fetched of a friend, is recorded as sharerr's own with its privacy and its
-- second hash; one that the client had, reused or a friend's, is not: its privacy stays as it was and
-- the second hash is cleared.
pub record_seeding-RecordedAs :
    {T : Types} {Url : Type 0} ⦃e : PartialEq Url⦄ (env : Env T Url) (k : Key)
    (token_fp : Option Bytes) (stamp : Option FileStamp) (outcome : SeedOutcome) (old : Row T)
    (w : World T Url)
    → get k w.rows ≡ some old
    → let (r, w') = record_seeding env k token_fp stamp outcome w in
      IfOk (λ step. RecordedAs k outcome old w') r
record_seeding-RecordedAs env k token_fp stamp outcome old w there =
    IfOk-mono _ _ (record_seeding env k token_fp stamp outcome w).0
      (λ step (row, stands, (r, second)). (
        row,
        stands,
        IsRecorded-OwnedAs outcome old row r second,
        r.active,
        r.no_error,
        r.same_date,
      ))
      ((record_seeding-Ensures env k outcome old token_fp stamp).after w (old, there, refl))
