-- ===== src/Torrent/Tests.antt =====
-- Tests and witnesses: the torrent of the source's own tests, and a file of one name and few bytes.
use sharerr_rs.Prelude.{
  All, Bool, Bytes, List, [], and_then, arith, codes, false, length, list_eq, nat_eq, none, ok,
  refl, some, true, ℕ, ◌&&◌, ◌++◌, ◌+◌, ◌==◌, ◌∷◌, ◌≡◌,
}
use sharerr_rs.Bencode.Decode.{decode}
use sharerr_rs.Bencode.Value.{
  Entries, Fits, as_bytes, as_int, bytes, dict, end, entry, get_entry, insert_entry, int, lex_ltb,
}
use sharerr_rs.Endpoint.AnnounceList.{AnnounceSet, tiers}
use sharerr_rs.Paths.Resolver.{component_eq}
use sharerr_rs.Prelude.Int.{pos, ◌+ℤ◌}
use sharerr_rs.Prelude.Utf8.{is_utf8}
use sharerr_rs.Torrent.Announced.{insert_opt, top_of}
use sharerr_rs.Torrent.Created.{verify_single_file-create}
use sharerr_rs.Torrent.Factory.{BuiltTorrent, create, finished, single_fields}
use sharerr_rs.Torrent.Fields.{
  content_length, info_field, is_private, is_single_file, piece_length, pieces, total_length,
}
use sharerr_rs.Torrent.Hashing.{Files, piece_length_for, verify_single_file}
use sharerr_rs.Torrent.Metainfo.{Torrent, encode_torrent, read_from_bytes, read_value}
use sharerr_rs.Torrent.PieceLength.{IsRung, piece_length_for_least}
use sharerr_rs.Torrent.Reread.{IsTorrent, read_from_bytes-encode_torrent}
use sharerr_rs.Torrent.Retarget.{IsUrl, rewrite_announce-read, IsRetargeted}
use sharerr_rs.Torrent.Rewrite.{rewrite_announce, with_announce}
use sharerr_rs.Torrent.Stream.{
  Stream, chunks, contents, fill, pieces_loop, read, visit, visit_pieces,
}
use sharerr_rs.Torrent.Verified.{verify_single_file_lem}
use sharerr_rs.Torrent.Verify.{piece_hashes_of}
use sharerr_rs.Torrent.Visit.{visit_pieces-visit}

-- `MINIMAL`
abbrev minimal : Bytes
minimal =
    codes
      "d8:announce17:http://t/announce4:infod6:lengthi3e4:name5:a.mkv12:piece lengthi16384e6:pieces20:00000000000000000000ee"

abbrev minimal_info : Entries
minimal_info = entry (codes "length") (int (pos 3)) (
    entry (codes "name") (bytes (codes "a.mkv")) (
      entry (codes "piece length") (int (pos 16384))
        (entry (codes "pieces") (bytes (codes "00000000000000000000")) end)))

abbrev minimal_torrent : Torrent
minimal_torrent = record {
  announce = some (codes "http://t/announce");
  announce_list = none;
  info = minimal_info;
  extra = end;
}

minimal_read : read_from_bytes minimal ≡ ok minimal_torrent
unfolding read_from_bytes decode read_value
minimal_read = refl

minimal_written : encode_torrent minimal_torrent ≡ minimal
unfolding encode_torrent
minimal_written = refl

minimal_fields :
    (total_length minimal_torrent ≡ some (pos 3))
    × (is_single_file minimal_torrent ≡ true)
    × (is_private minimal_torrent ≡ false)
unfolding total_length is_single_file is_private
minimal_fields = (refl, refl, refl)

-- "d4:infod5:filesl…": the lengths of two files are summed.
abbrev multi : Bytes
multi =
    codes
      "d4:infod5:filesld6:lengthi5e4:pathl1:aeed6:lengthi7e4:pathl1:beee4:name1:d12:piece lengthi16384e6:pieces20:00000000000000000000ee"

multi_total : and_then (read_from_bytes multi) (λ t. ok (total_length t)) ≡ ok (some (pos 12))
unfolding read_from_bytes decode read_value total_length ◌+ℤ◌
multi_total = refl

minimal_torrent-IsTorrent : IsTorrent minimal_torrent
unfolding get_entry is_utf8
minimal_torrent-IsTorrent = record {
  announce_text = refl;
  tiers_text = tt;
  no_info = refl;
  no_announce = refl;
  no_list = refl;
}

minimal_top-Fits : Fits 0 (dict (top_of minimal_torrent))
unfolding top_of Fits insert_opt insert_entry lex_ltb
minimal_top-Fits = (
  omega arith,
  (
    omega arith,
    (omega arith, omega arith),
    (refl, tt),
    (
      omega arith,
      (
        omega arith,
        (
          omega arith,
          (omega arith, (omega arith, omega arith)),
          (refl, (refl, (refl, tt))),
          (
            omega arith,
            (omega arith, omega arith),
            (refl, (refl, tt)),
            (
              omega arith,
              (omega arith, (omega arith, omega arith)),
              (refl, tt),
              (omega arith, (omega arith, omega arith), tt, tt),
            ),
          ),
        ),
      ),
      tt,
      tt,
    ),
  ),
)

read_from_bytes-encode_torrent_example :
    read_from_bytes (encode_torrent minimal_torrent) ≡ ok minimal_torrent
read_from_bytes-encode_torrent_example =
    read_from_bytes-encode_torrent minimal_torrent minimal_torrent-IsTorrent minimal_top-Fits
      (unfold encode_torrent in omega arith)

abbrev own_set : AnnounceSet Bytes
own_set = record {
  primary = codes "http://new/announce";
  fallbacks = codes "http://t/announce" ∷ [];
}

own_set-IsUrl : All (λ u. IsUrl u) (tiers own_set)
unfolding is_utf8
own_set-IsUrl = ((refl, omega arith), ((refl, omega arith), tt))

rewrite_announce-read_example :
    (t' : Torrent) × (and_then (rewrite_announce (λ u. u) some minimal own_set) read_from_bytes
      ≡ ok t')
    × IsRetargeted (λ u. u) some own_set minimal_torrent t'
rewrite_announce-read_example =
    rewrite_announce-read (λ u. u) some own_set own_set-IsUrl minimal minimal_torrent minimal_read
      (unfold encode_torrent with_announce in omega arith)

-- A file of five bytes whose reads come short.
abbrev film : Stream
film = some (1 ∷ 2 ∷ 3 ∷ []) ∷ some (4 ∷ 5 ∷ []) ∷ []

abbrev collect : List Bytes → Bytes → Bool × List Bytes
collect seen piece = (true, seen ++ piece ∷ [])

visit_pieces-visit_example :
    visit_pieces collect 2 film [] ≡ some (visit collect (chunks 2 (contents film)) [])
visit_pieces-visit_example = visit_pieces-visit collect 2 film [] (omega arith) tt

collected : visit_pieces collect 2 film [] ≡ some ((1 ∷ 2 ∷ []) ∷ (3 ∷ 4 ∷ []) ∷ (5 ∷ []) ∷ [])
unfolding visit_pieces pieces_loop fill read
collected = refl

-- A read that fails ends the visit.
broken : visit_pieces collect 2 (some (1 ∷ 2 ∷ 3 ∷ []) ∷ none ∷ []) [] ≡ none
unfolding visit_pieces pieces_loop fill read
broken = refl

-- A hash of 20 bytes that tells contents of other lengths or sums apart.
abbrev sum_of : Bytes → ℕ
sum_of [] = 0
sum_of (c ∷ s) = c + sum_of s

abbrev short_hash : Bytes → Bytes
short_hash s =
    length s ∷ sum_of s ∷ 0 ∷ 0 ∷ 0 ∷ 0 ∷ 0 ∷ 0 ∷ 0 ∷ 0 ∷ 0 ∷ 0 ∷ 0 ∷ 0 ∷ 0 ∷ 0 ∷ 0 ∷ 0 ∷ 0 ∷ 0 ∷ []

length-short_hash : (s : Bytes) → length (short_hash s) ≡ 20
length-short_hash s = refl

abbrev disk : Files ℕ
disk = record {
  metadata = λ path. some (true, length (contents film));
  file_name = λ path. some (codes "a.mkv");
  beside = λ path sidecar. path;
  open_file = λ path. some film;
}

abbrev film_hashes : Bytes
film_hashes = short_hash (1 ∷ 2 ∷ 3 ∷ 4 ∷ []) ++ short_hash (5 ∷ [])

abbrev film_torrent : Torrent
film_torrent = record {
  announce = none;
  announce_list = none;
  info =
      entry (codes "length") (int (pos 5)) (
        entry (codes "piece length") (int (pos 4))
          (entry (codes "pieces") (bytes film_hashes) end));
  extra = end;
}

verify_single_file_lem_example :
    verify_single_file disk short_hash 0 film_torrent
    ≡ ok (
        length (contents film) == content_length film_torrent
        && film_hashes == piece_hashes_of short_hash 4 (contents film))
verify_single_file_lem_example =
    verify_single_file_lem short_hash length-short_hash disk 0 film refl tt film_torrent 4
      film_hashes refl (omega arith) (unfold piece_length info_field get_entry as_int in refl)
      (unfold pieces info_field get_entry as_bytes in refl)
      (unfold is_single_file info_field get_entry in refl)

film_verified : verify_single_file disk short_hash 0 film_torrent ≡ ok true
unfolding verify_single_file
film_verified = refl

piece_length_for_least_example : IsRung 600000000 (piece_length_for 600000000)
piece_length_for_least_example = piece_length_for_least 600000000

verify_single_file-create_example :
    (made : BuiltTorrent) × (t : Torrent) × (create disk short_hash short_hash
        (λ h. h)
        (λ u. u)
        some
        0
        own_set
        (some (codes "1080p"))
        true
        false
      ≡ ok made)
    × (read_from_bytes made.encoded ≡ ok t)
    × (verify_single_file disk short_hash 0 t ≡ ok true)
verify_single_file-create_example =
    verify_single_file-create (λ u. u) some own_set own_set-IsUrl short_hash short_hash (λ h. h)
      length-short_hash disk 0 film refl tt (codes "a.mkv") true (some (codes "1080p")) refl refl
      (omega arith) (omega arith) (unfold piece_hashes_of piece_length_for in omega arith)
      (omega arith) (unfold encode_torrent finished single_fields piece_hashes_of in omega arith)
