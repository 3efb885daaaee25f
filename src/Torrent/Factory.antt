-- ===== src/Torrent/Factory.antt =====
-- `TorrentFactory` of crates/sharerr-torrent/src/factory.rs. The file system, sha1, sha256, hex and
-- the url crate are parameters. The comment that `describe` makes of the media is an argument.
use mathlib.Core.Option
use sharerr_rs.Torrent.Fields
use sharerr_rs.Prelude.{
  Bool, Bytes, List, Option, PartialEq, Result, [], and_then, codes, err, false, list_eq, map, min,
  nat_eq, none, ok, or_err, some, true, ℕ, ◌+◌, ◌-◌, ◌^◌, ◌∷◌,
}
use sharerr_rs.Bencode.Decode.{entries}
use sharerr_rs.Bencode.Value.{
  Entries, Items, Value, bytes, cons, dict, end, entry, insert_entry, int, list, nil,
}
use sharerr_rs.Endpoint.AnnounceList.{AnnounceSet, tier_list}
use sharerr_rs.Paths.Resolver.{component_eq}
use sharerr_rs.Prelude.Int.{i64_max, pos}
use sharerr_rs.Torrent.Fields.{name, pieces}
use sharerr_rs.Torrent.Hashing.{
  BuildError, Files, hash_pieces, no_file_name, not_a_file, piece_length_for, unreadable,
}
use sharerr_rs.Torrent.Hybrid.{V2Hashes, hash_pieces_hybrid}
use sharerr_rs.Torrent.Metainfo.{Torrent, encode_torrent}

-- `u64::try_into` an `i64`, at most its greatest.
unfoldable pub int_of : ℕ → Value
int_of n = int (pos (min n i64_max))

abbrev pub insert_when : Bool → Bytes → Value → Entries → Entries
insert_when false key v es = es
insert_when true key v es = insert_entry key v es

unfoldable pub insert_any : Bytes → Option Value → Entries → Entries
unfolding insert_entry
insert_any key none es = es
insert_any key (some v) es = insert_entry key v es

unfoldable pub base_info : Bytes → ℕ → Bytes → Bool → Entries
unfolding insert_entry int_of
base_info file_name size hashes private_flag =
    insert_when private_flag (codes "private") (int (pos 1)) (
      insert_entry (codes "pieces") (bytes hashes) (
        insert_entry (codes "piece length") (int_of size)
          (insert_entry (codes "name") (bytes file_name) end)))

-- The layers entry, for a file with a root and a layer.
abbrev pub layers_of : Option Bytes → Option Bytes → Entries
layers_of (some root) (some layer) = entry root (bytes layer) end
layers_of (some root) none = end
layers_of none layer = end

-- `write_into`: the v2 keys in the info dictionary, and the layers beside it.
unfoldable pub write_into : V2Hashes → Bytes → ℕ → Entries × Entries → Entries × Entries
unfolding insert_entry int_of insert_any
write_into v2 file_name size (info, extra) =
    let file =
      insert_any (codes "pieces root") (Option.map bytes v2.root)
        (insert_entry (codes "length") (int_of size) end) in
    let tree = insert_entry file_name (dict (insert_entry [] (dict file) end)) end in
    (
      insert_entry (codes "file tree") (dict tree)
          (insert_entry (codes "meta version") (int (pos 2)) info),
      insert_entry (codes "piece layers") (dict (layers_of v2.root v2.layer)) extra,
    )

unfoldable pub write_v2 : Option V2Hashes → Bytes → ℕ → Entries × Entries → Entries × Entries
unfolding write_into
write_v2 none file_name size fields = fields
write_v2 (some v2) file_name size fields = write_into v2 file_name size fields

-- `file_entry`
unfoldable pub file_entry : Bytes → ℕ → Value
unfolding insert_entry int_of
file_entry file_name size = dict (
    insert_entry (codes "path") (list (cons (bytes file_name) nil))
      (insert_entry (codes "length") (int_of size) end))

pub record BuiltTorrent : Type 0 where
  pub info_hash : Bytes
  pub info_hash_v2 : Option Bytes
  -- the field `data`
  pub encoded : Bytes
  pub size : ℕ

-- A sum of file sizes, which is a `u64`.
abbrev pub saturating_sum : ℕ → ℕ → ℕ
saturating_sum a b = min (a + b) (2 ^ 64 - 1)

-- The dictionaries that `create` makes of the hashes.
unfoldable pub single_fields : Bytes → ℕ → Bool → Bytes × Option V2Hashes → Entries × Entries
unfolding base_info write_v2 piece_length_for insert_entry int_of
single_fields file_name size private_flag (hashes, v2) = write_v2 v2 file_name size (
  insert_entry (codes "length") (int_of size)
      (base_info file_name (piece_length_for size) hashes private_flag),
  end,
)

module _ {Url : Type 0} ⦃e : PartialEq Url⦄ (as_str : Url → Bytes)
    (parse_url : Bytes → Option Url) where
  unfoldable pub finished : AnnounceSet Url → Entries × Entries → Option Bytes → Torrent
  unfolding tier_list insert_any
  finished announces (info, extra) comment = record {
    announce = some (as_str announces.primary);
    announce_list = tier_list as_str parse_url announces;
    info = info;
    extra = insert_any (codes "comment") (Option.map bytes comment) extra;
  }

module _ (sha1 sha256 hex_encode : Bytes → Bytes) where
  unfoldable pub built : Torrent → ℕ → BuiltTorrent
  unfolding encode_torrent Fields.info_hash Fields.info_hash_v2
  built torrent size = record {
    info_hash = Fields.info_hash sha1 sha256 hex_encode torrent;
    info_hash_v2 = Fields.info_hash_v2 sha1 sha256 hex_encode torrent;
    encoded = encode_torrent torrent;
    size = size;
  }

module _ {PathBuf : Type 0} (fs : Files PathBuf) where
  unfoldable pub source_name : PathBuf → Bool → ℕ → Result (BuildError PathBuf) (ℕ × Bytes)
  source_name path false size = err (not_a_file path)
  source_name path true size =
      or_err (fs.file_name path) (no_file_name path) λ file_name. ok (size, file_name)

  unfoldable pub source_file : PathBuf → Result (BuildError PathBuf) (ℕ × Bytes)
  unfolding source_name
  source_file path =
      or_err (fs.metadata path) (unreadable path) λ (is_file, size). source_name path is_file size

  -- The loop over the sidecars: the size of them all, and an entry for each.
  unfoldable pub add_sidecars : PathBuf → List Bytes → ℕ → Result (BuildError PathBuf) (ℕ × Items)
  unfolding file_entry
  add_sidecars path [] size = ok (size, nil)
  add_sidecars path (sidecar ∷ sidecars) size =
      let other = fs.beside path sidecar in
      or_err (fs.metadata other) (unreadable other) λ (is_file, more).
        and_then (add_sidecars path sidecars (saturating_sum size more))
          λ (total, entries). ok (total, cons (file_entry sidecar more) entries)

  module _ (sha1 sha256 hex_encode : Bytes → Bytes) {Url : Type 0} ⦃e : PartialEq Url⦄
      (as_str : Url → Bytes) (parse_url : Bytes → Option Url) where
    unfoldable pub finish : AnnounceSet Url → Entries × Entries → Option Bytes → ℕ → BuiltTorrent
    unfolding finished built
    finish announces fields comment size =
        built sha1 sha256 hex_encode (finished as_str parse_url announces fields comment) size

    unfoldable pub hash_file :
        Bool → PathBuf → ℕ → Result (BuildError PathBuf) (Bytes × Option V2Hashes)
    unfolding hash_pieces hash_pieces_hybrid
    hash_file true path chunk =
        and_then (hash_pieces_hybrid sha1 sha256 fs path chunk) λ (hashes, v2). ok (hashes, some v2)
    hash_file false path chunk =
        and_then (hash_pieces fs sha1 path [] chunk) λ hashes. ok (hashes, none)

    unfoldable pub create :
        PathBuf
        → AnnounceSet Url
        → Option Bytes
        → Bool
        → Bool
        → Result (BuildError PathBuf) BuiltTorrent
    unfolding source_file hash_file single_fields finish piece_length_for
    create path announces comment private_flag hybrid =
        and_then (source_file path) λ (size, file_name).
          and_then (hash_file hybrid path (piece_length_for size)) λ hashed.
            ok (finish announces (single_fields file_name size private_flag hashed) comment size)

    unfoldable pub create_with_sidecars :
        PathBuf
        → List Bytes
        → Bytes
        → AnnounceSet Url
        → Option Bytes
        → Bool
        → Result (BuildError PathBuf) BuiltTorrent
    unfolding source_file add_sidecars file_entry base_info hash_pieces finish piece_length_for
        insert_entry
    create_with_sidecars path sidecars root_name announces comment private_flag =
        and_then (source_file path) λ (first_size, file_name).
          and_then (add_sidecars path sidecars first_size) λ (size, entries).
            let others = map (fs.beside path) sidecars in
            and_then (hash_pieces fs sha1 path others (piece_length_for size)) λ hashes. ok (
              finish announces
                (
                  insert_entry (codes "files")
                      (list (cons (file_entry file_name first_size) entries))
                      (base_info root_name (piece_length_for size) hashes private_flag),
                  end,
                )
                comment size)
