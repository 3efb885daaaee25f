-- ===== src/Sync/Item.antt =====
-- crates/sharerr-core/src/model.rs and crates/sharerr-store: what is shared, as the pass and the
-- store hold it. The descriptions of the media and of the works, and floating-point numbers, are
-- parameters: nothing here looks into them.
use sharerr_rs.Prelude.{
  Bool, Bytes, List, Option, PartialEq, ap, arith, false, if◌then◌else◌, list_eq, nat_eq,
  nat_eqb_iff, none, option_eqb, refl, sym, true, ℕ, ◌&&◌, ◌==◌, ◌↔◌, ◌∙◌, ◌≡◌,
}
use sharerr_rs.Paths.Resolver.{
  FilePath, MediaSource, PathError, component_eq, directory, lidarr, radarr, readarr, sonarr,
  whisparr,
}
use sharerr_rs.Prelude.Int.{negsuc, pos, ℤ}
use sharerr_rs.Torrent.Hashing.{BuildError}
use sharerr_rs.Torrent.Metainfo.{MetainfoError}

pub record Types : Type 1 where
  -- `f64`
  pub Float : Type 0
  -- `MediaSpec`, `ExternalIds`, `MediaMeta` and `SceneMeta`
  pub Spec : Type 0
  pub Ids : Type 0
  pub Media : Type 0
  pub Scene : Type 0
  -- the state of the torrent client
  pub Client : Type 0

-- A source and a file's number in it.
abbrev pub Key : Type 0
Key = MediaSource × ℤ

abbrev pub source_number : MediaSource → ℕ
source_number sonarr = 0
source_number radarr = 1
source_number lidarr = 2
source_number readarr = 3
source_number whisparr = 4
source_number directory = 5

abbrev pub source_eqb : MediaSource → MediaSource → Bool
source_eqb a b = source_number a == source_number b

source_of : ℕ → MediaSource
source_of n =
    if n == 0
    then sonarr
    else if n == 1
    then radarr
    else if n == 2
    then lidarr
    else if n == 3
    then readarr
    else if n == 4
    then whisparr
    else directory

source_of-source_number : (a : MediaSource) → source_of (source_number a) ≡ a
unfolding source_of
source_of-source_number sonarr = refl
source_of-source_number radarr = refl
source_of-source_number lidarr = refl
source_of-source_number readarr = refl
source_of-source_number whisparr = refl
source_of-source_number directory = refl

pub source_eqb_iff : (a b : MediaSource) → (source_eqb a b ≡ true) ↔ (a ≡ b)
source_eqb_iff a b = (
  λ same.
      sym (source_of-source_number a)
      ∙ ap source_of ((nat_eqb_iff (source_number a) (source_number b)).0 same)
      ∙ source_of-source_number b,
  λ same. (nat_eqb_iff (source_number a) (source_number b)).1 (ap source_number same),
)

instance abbrev pub source_eq : PartialEq MediaSource
source_eq = record { same_iff = source_eqb_iff; same = source_eqb }

abbrev pub int_eqb : ℤ → ℤ → Bool
int_eqb (pos m) (pos n) = m == n
int_eqb (pos m) (negsuc n) = false
int_eqb (negsuc m) (pos n) = false
int_eqb (negsuc m) (negsuc n) = m == n

pub int_eqb_iff : (a b : ℤ) → (int_eqb a b ≡ true) ↔ (a ≡ b)
int_eqb_iff (pos m) (pos n) = ground (arith, nat_eqb_iff m n)
int_eqb_iff (pos m) (negsuc n) = ground arith
int_eqb_iff (negsuc m) (pos n) = ground arith
int_eqb_iff (negsuc m) (negsuc n) = ground (arith, nat_eqb_iff m n)

instance abbrev pub int_eq : PartialEq ℤ
int_eq = record { same_iff = int_eqb_iff; same = int_eqb }

abbrev pub key_eqb : Key → Key → Bool
key_eqb (s, m) (t, n) = s == t && m == n

pub key_eqb_iff : (j k : Key) → (key_eqb j k ≡ true) ↔ (j ≡ k)
key_eqb_iff (s, m) (t, n) = ground (arith, source_eqb_iff s t, int_eqb_iff m n)

instance abbrev pub key_eq : PartialEq Key
key_eq = record { same_iff = key_eqb_iff; same = key_eqb }

pub data ShareState : Type 0 where
  pending seeding unshared failed : ShareState

-- Why an item or a pass fails. Only the kind of the failure is kept of the text that the source
-- builds of it.
pub data Failure : Type 0 where
  -- the database or the disk
  io_failed : Failure
  unresolved : PathError → Failure
  does_not_exist : FilePath → Failure
  client_failed : Failure
  cannot_export : Bytes → Failure
  unparsed : MetainfoError → Failure
  not_that_torrent : Bytes → Failure
  past_the_cap : Failure
  not_fetched : Failure
  no_parent : FilePath → Failure
  not_built : BuildError FilePath → Failure
  tracker_not_ready : Failure
  no_source_scanned : Failure

-- Without `id` and `created_at`, which the store assigns.
pub record SharedItem (T : Types) : Type 0 where
  pub source : MediaSource
  pub source_id : ℤ
  pub file_id : ℤ
  pub spec : T.Spec
  pub release_title : Bytes
  pub arr_path : FilePath
  pub size : ℕ
  pub ids : T.Ids
  pub info_hash : Option Bytes
  pub announce_token_fp : Option Bytes
  pub created_by_sharerr : Bool
  pub state : ShareState
  pub last_error : Option Failure
  pub media : Option T.Media
  pub achieved_ratio : Option T.Float
  pub ratio_limit_reported : Option T.Float
  -- the field `private`
  pub is_private : Bool

pub record Discovered (T : Types) : Type 0 where
  pub source : MediaSource
  pub source_id : ℤ
  pub file_id : ℤ
  pub spec : T.Spec
  pub arr_path : FilePath
  pub size : ℕ
  pub ids : T.Ids
  pub scene_name : Option Bytes
  pub original_path : Option FilePath
  pub media : Option T.Media
  pub scene : Option T.Scene

pub record FileStamp : Type 0 where
  pub inode : Option ℕ
  pub mtime_ns : ℤ

pub record ItemOrigin : Type 0 where
  pub peer_id : Option ℤ
  pub upstream : List Bytes

-- The part of an entry that seeding reads.
pub record CatalogEntry : Type 0 where
  pub info_hash : Bytes
  pub download_url : Bytes

module _ {T : Types} where
  abbrev pub item_key : SharedItem T → Key
  item_key item = (item.source, item.file_id)

  abbrev pub discovered_key : Discovered T → Key
  discovered_key item = (item.source, item.file_id)

  unfoldable pub into_shared_item : Discovered T → Bytes → SharedItem T
  into_shared_item item release_title = record {
    source = item.source;
    source_id = item.source_id;
    file_id = item.file_id;
    spec = item.spec;
    release_title = release_title;
    arr_path = item.arr_path;
    size = item.size;
    ids = item.ids;
    info_hash = none;
    announce_token_fp = none;
    created_by_sharerr = false;
    state = pending;
    last_error = none;
    media = item.media;
    achieved_ratio = none;
    ratio_limit_reported = none;
    is_private = true;
  }

abbrev pub stamp_eqb : FileStamp → FileStamp → Bool
stamp_eqb a b = option_eqb a.inode b.inode && a.mtime_ns == b.mtime_ns
