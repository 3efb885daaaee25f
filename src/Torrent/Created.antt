-- ===== src/Torrent/Created.antt =====
-- A torrent that `create` of crates/sharerr-torrent/src/factory.rs builds over a file is read back,
-- and the file verifies against it.
use mathlib.Core.Option
use sharerr_rs.Prelude.{
  ==-refl, All, Bool, Bytes, Option, PartialEq, ap, arith, codes, false, length, list_eq, nat_eq,
  none, ok, refl, some, subst, sym, true, ℕ, ◌∙◌, ◌≡◌, ◌≤◌,
}
use sharerr_rs.Bencode.Value.{Entries, Fits, bytes, dict, end, get_entry, insert_entry, usize_max}
use sharerr_rs.Endpoint.AnnounceList.{AnnounceSet, tiers}
use sharerr_rs.Paths.Resolver.{component_eq}
use sharerr_rs.Prelude.Int.{i64_max}
use sharerr_rs.Torrent.Factory.{
  BuiltTorrent, built, create, finish, finished, hash_file, insert_any, single_fields, source_file,
  source_name, write_v2,
}
use sharerr_rs.Torrent.Hashing.{Files, piece_length_for, verify_single_file}
use sharerr_rs.Torrent.Metainfo.{Torrent, encode_torrent, read_from_bytes}
use sharerr_rs.Torrent.PlainInfo.{
  piece_length_for_bounds, plain_info, plain_info-Fits, plain_info-Holds,
}
use sharerr_rs.Torrent.Reread.{AllSome, read_from_bytes-encode_torrent}
use sharerr_rs.Torrent.Retarget.{IsUrl, top_of-Fits, with_announce-IsTorrent}
use sharerr_rs.Torrent.Rewrite.{WasRead, with_announce}
use sharerr_rs.Torrent.Stream.{IsFile, Stream, contents}
use sharerr_rs.Torrent.Verified.{verify_single_file_lem}
use sharerr_rs.Torrent.Verify.{hash_pieces-contents, piece_hashes_of}

module _ {Url : Type 0} ⦃e : PartialEq Url⦄ (as_str : Url → Bytes) (parse_url : Bytes → Option Url)
    (announces : AnnounceSet Url) (urls : All (λ u. IsUrl (as_str u)) (tiers announces)) where
  -- The torrent that `create` writes, not a hybrid one.
  abbrev plain_torrent : Bytes → ℕ → Bool → Bytes → Option Bytes → Torrent
  plain_torrent file_name size private_flag hashes comment =
      finished as_str parse_url announces (single_fields file_name size private_flag (hashes, none))
        comment

  without_announce : Entries → Option Bytes → Torrent
  unfolding insert_any
  without_announce info comment = record {
    announce = none;
    announce_list = none;
    info = info;
    extra = insert_any (codes "comment") (Option.map bytes comment) end;
  }

  without_announce-WasRead :
      (info : Entries) (comment : Option Bytes)
      → Fits 1 (dict info)
      → AllSome (λ c. length c ≤ usize_max) comment
      → WasRead (without_announce info comment)
  unfolding without_announce insert_any insert_entry get_entry Fits
  without_announce-WasRead info none fits short = record {
    info_fits = fits;
    extra_fits = tt;
    no_info = refl;
    no_announce = refl;
    no_list = refl;
  }
  without_announce-WasRead info (some c) fits short = record {
    info_fits = fits;
    extra_fits = (omega arith, (omega arith, short), tt, tt);
    no_info = refl;
    no_announce = refl;
    no_list = refl;
  }

  plain_torrent-with_announce :
      (file_name : Bytes) (size : ℕ) (private_flag : Bool) (hashes : Bytes) (comment : Option Bytes)
      → plain_torrent file_name size private_flag hashes comment
        ≡ with_announce as_str parse_url announces
            (without_announce (plain_info file_name size private_flag hashes) comment)
  unfolding finished with_announce without_announce plain_info single_fields write_v2
  plain_torrent-with_announce file_name size private_flag hashes comment = refl

  plain_torrent-read :
      (file_name : Bytes) (size : ℕ) (private_flag : Bool) (hashes : Bytes) (comment : Option Bytes)
      → length file_name ≤ usize_max
      → length hashes ≤ usize_max
      → AllSome (λ c. length c ≤ usize_max) comment
      → length (encode_torrent (plain_torrent file_name size private_flag hashes comment))
        ≤ usize_max
      → read_from_bytes (encode_torrent (plain_torrent file_name size private_flag hashes comment))
        ≡ ok (plain_torrent file_name size private_flag hashes comment)
  plain_torrent-read file_name size private_flag hashes comment h k short room =
      let t = without_announce (plain_info file_name size private_flag hashes) comment in
      let same = plain_torrent-with_announce file_name size private_flag hashes comment in
      let w =
        without_announce-WasRead _ comment (plain_info-Fits file_name size private_flag hashes h k)
          short in
      ap (λ t. read_from_bytes (encode_torrent t)) same
      ∙ (read_from_bytes-encode_torrent (with_announce as_str parse_url announces t)
            (with_announce-IsTorrent as_str parse_url announces urls t w)
            (top_of-Fits as_str parse_url announces urls t w)
            (subst (λ t. length (encode_torrent t) ≤ usize_max) same room)
          ∙ ap (λ t. ok t) (sym same))

  module _ (sha1 sha256 hex_encode : Bytes → Bytes)
      (size_of_hash : (b : Bytes) → length (sha1 b) ≡ 20) {PathBuf : Type 0} (fs : Files PathBuf)
      (path : PathBuf) (s : Stream) (opens : fs.open_file path ≡ some s) (file : IsFile s) where
    abbrev torrent_over : Bytes → Bool → Option Bytes → Torrent
    torrent_over file_name private_flag comment =
        plain_torrent file_name (length (contents s)) private_flag
          (piece_hashes_of sha1 (piece_length_for (length (contents s))) (contents s)) comment

    create-torrent_over :
        (file_name : Bytes) (private_flag : Bool) (comment : Option Bytes)
        → fs.metadata path ≡ some (true, length (contents s))
        → fs.file_name path ≡ some file_name
        → create fs sha1 sha256 hex_encode as_str parse_url path announces comment private_flag
            false
          ≡ ok (
              built sha1 sha256 hex_encode
                (torrent_over file_name private_flag comment)
                (length (contents s)))
    unfolding create source_file source_name hash_file finish
    create-torrent_over file_name private_flag comment meta has_name =
        let size = length (contents s) in
        rw
          (
            meta,
            has_name,
            hash_pieces-contents sha1 size_of_hash fs path s opens file (piece_length_for size)
                (piece_length_for_bounds size).0,
          )
          refl

    torrent_over-verify :
        (file_name : Bytes) (private_flag : Bool) (comment : Option Bytes)
        → fs.metadata path ≡ some (true, length (contents s))
        → length (contents s) ≤ i64_max
        → verify_single_file fs sha1 path (torrent_over file_name private_flag comment) ≡ ok true
    torrent_over-verify file_name private_flag comment meta h =
        let size = length (contents s) in
        let hashes = piece_hashes_of sha1 (piece_length_for size) (contents s) in
        let t = torrent_over file_name private_flag comment in
        let holds =
          plain_info-Holds t file_name size private_flag hashes (unfold plain_info finished in refl)
            h in
        verify_single_file_lem sha1 size_of_hash fs path s opens file t (piece_length_for size)
          hashes meta (piece_length_for_bounds size).0 holds.chunk holds.hashed holds.one_file
        ∙ rw (holds.sized, ==-refl size, ==-refl hashes) refl

    -- Over a file of the file system, `create` without a hybrid ends without an error; the bytes that
    -- it made are read as a torrent, and the file verifies against that torrent. Assumed: sha1 gives 20 bytes, the URLs are text, the
    -- size is an `i64`, and the name, the comment, the hashes and the result are of lengths that a
    -- `usize` holds.
    pub verify_single_file-create :
        (file_name : Bytes) (private_flag : Bool) (comment : Option Bytes)
        → fs.metadata path ≡ some (true, length (contents s))
        → fs.file_name path ≡ some file_name
        → length (contents s) ≤ i64_max
        → length file_name ≤ usize_max
        → length (piece_hashes_of sha1 (piece_length_for (length (contents s))) (contents s))
          ≤ usize_max
        → AllSome (λ c. length c ≤ usize_max) comment
        → length (encode_torrent (torrent_over file_name private_flag comment)) ≤ usize_max
        → (made : BuiltTorrent) × (t : Torrent) × (create fs sha1 sha256 hex_encode as_str parse_url
              path announces comment private_flag false
            ≡ ok made)
          × (read_from_bytes made.encoded ≡ ok t)
          × (verify_single_file fs sha1 path t ≡ ok true)
    unfolding built
    verify_single_file-create file_name private_flag comment meta has_name h short few short' room =
        let size = length (contents s) in
        let t = torrent_over file_name private_flag comment in
        (
          built sha1 sha256 hex_encode t size,
          t,
          create-torrent_over file_name private_flag comment meta has_name,
          plain_torrent-read file_name size private_flag
              (piece_hashes_of sha1 (piece_length_for size) (contents s)) comment short few short'
              room,
          torrent_over-verify file_name private_flag comment meta h,
        )
