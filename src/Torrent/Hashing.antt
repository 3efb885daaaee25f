-- ===== src/Torrent/Hashing.antt =====
-- crates/sharerr-torrent/src/factory.rs: the pieces of the files on disk. The file system is a
-- parameter, and so is sha1.
use sharerr_rs.Prelude.{
  Bool, Bytes, List, Option, Result, [], and_then, false, if◌then◌else◌, leb, length, list_eq,
  nat_eq, none, not, ok, or_err, some, true, ℕ, ◌%◌, ◌&&◌, ◌*◌, ◌++◌, ◌+◌, ◌-◌, ◌/◌, ◌==◌, ◌||◌,
  ◌∷◌,
}
use sharerr_rs.Announce.Query.{hash}
use sharerr_rs.Endpoint.History.{others}
use sharerr_rs.Paths.Resolver.{component_eq}
use sharerr_rs.Torrent.Fields.{content_length, is_single_file, piece_length, pieces}
use sharerr_rs.Torrent.Metainfo.{Torrent}
use sharerr_rs.Torrent.Stream.{Stream, chain, chunks, is_nil, visit_pieces}

-- What the factory asks of the file system: whether a path is a file and how long it is, its name,
-- the path beside it of another name, and its reads once opened.
pub record Files (PathBuf : Type 0) : Type 0 where
  pub metadata : PathBuf → Option (Bool × ℕ)
  pub file_name : PathBuf → Option Bytes
  pub beside : PathBuf → Bytes → PathBuf
  pub open_file : PathBuf → Option Stream

-- The errors of `TorrentError` that a build raises, without their source.
pub data BuildError (PathBuf : Type 0) : Type 0 where
  unreadable not_a_file no_file_name build : PathBuf → BuildError PathBuf

abbrev pub kib : ℕ
kib = 1024

abbrev pub mib : ℕ
mib = 1024 * kib

unfoldable pub piece_length_for : ℕ → ℕ
piece_length_for size =
    if leb size (512 * mib)
    then 256 * kib
    else if leb size (1024 * mib)
    then 512 * kib
    else if leb size (2048 * mib)
    then mib
    else if leb size (4096 * mib)
    then 2 * mib
    else if leb size (8192 * mib)
    then 4 * mib
    else if leb size (16384 * mib)
    then 8 * mib
    else 16 * mib

-- `div_ceil`, by a length that is not zero
abbrev pub div_ceil : ℕ → ℕ → ℕ
div_ceil n by = (n + (by - 1)) / by

module _ (sha1 : Bytes → Bytes) where
  unfoldable pub push_hash : Bytes → Bytes → Bool × Bytes
  push_hash pieces piece = (true, pieces ++ sha1 piece)

  -- The state of the comparison: the hashes still expected, and whether the last piece matched.
  unfoldable pub match_hash : List Bytes × Bool → Bytes → Bool × (List Bytes × Bool)
  match_hash ([], matched) piece = (false, ([], false))
  match_hash (hash ∷ expected, matched) piece = (hash == sha1 piece, (expected, hash == sha1 piece))

abbrev pub all_matched : List Bytes × Bool → Bool
all_matched (expected, matched) = matched && is_nil expected

module _ {PathBuf : Type 0} (fs : Files PathBuf) where
  unfoldable pub open_others : List PathBuf → Stream → Result (BuildError PathBuf) Stream
  open_others [] stream = ok stream
  open_others (other ∷ others) stream =
      or_err (fs.open_file other) (build other) λ file. open_others others (chain stream file)

  -- All the files as one stream.
  unfoldable pub open_stream : PathBuf → List PathBuf → Result (BuildError PathBuf) Stream
  unfolding open_others
  open_stream path others =
      or_err (fs.open_file path) (build path) λ stream. open_others others stream

  unfoldable pub for_each_piece :
      {S : Type 0}
      → PathBuf
      → List PathBuf
      → ℕ
      → (S → Bytes → Bool × S)
      → S
      → Result (BuildError PathBuf) S
  unfolding open_stream visit_pieces
  for_each_piece path others piece_length on_piece state =
      and_then (open_stream path others) λ stream.
        or_err (visit_pieces on_piece piece_length stream state) (build path) λ state'. ok state'

  module _ (sha1 : Bytes → Bytes) where
    unfoldable pub hash_pieces : PathBuf → List PathBuf → ℕ → Result (BuildError PathBuf) Bytes
    unfolding for_each_piece push_hash
    hash_pieces path others piece_length =
        for_each_piece path others piece_length (push_hash sha1) []

    -- `verify_single_file` behind its tests.
    unfoldable pub verify_pieces : PathBuf → ℕ → Bytes → Result (BuildError PathBuf) Bool
    unfolding for_each_piece match_hash chunks
    verify_pieces path piece_length expected =
        and_then (for_each_piece path [] piece_length (match_hash sha1) (chunks 20 expected, true))
          λ state. ok (all_matched state)

    unfoldable pub verify_size : PathBuf → Torrent → ℕ → Bytes → Result (BuildError PathBuf) Bool
    unfolding verify_pieces content_length
    verify_size path torrent piece_length expected =
        or_err (fs.metadata path) (unreadable path) λ (is_file, size).
          if not (size == content_length torrent)
            || not (div_ceil size piece_length == length expected / 20)
          then ok false
          else verify_pieces path piece_length expected

    unfoldable pub verify_fields :
        PathBuf → Torrent → Option ℕ → Option Bytes → Result (BuildError PathBuf) Bool
    unfolding verify_size is_single_file
    verify_fields path torrent none expected = ok false
    verify_fields path torrent (some piece_length) none = ok false
    verify_fields path torrent (some piece_length) (some expected) =
        if not (is_single_file torrent) || piece_length == 0 || not (length expected % 20 == 0)
        then ok false
        else verify_size path torrent piece_length expected

    unfoldable pub verify_single_file : PathBuf → Torrent → Result (BuildError PathBuf) Bool
    unfolding verify_fields piece_length pieces
    verify_single_file path torrent =
        verify_fields path torrent (piece_length torrent) (pieces torrent)
