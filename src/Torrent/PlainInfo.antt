-- ===== src/Torrent/PlainInfo.antt =====
-- The info dictionary that `create` of crates/sharerr-torrent/src/factory.rs makes, when no hybrid is
-- asked for: what it holds, and that it can be written.
use native.Mathlib.Nat.{min-eq_left}
use sharerr_rs.Prelude.{
  Bool, Bytes, arith, false, length, list_eq, ltb, min, nat_eq, none, refl, some, true, ℕ, ◌≡◌, ◌≤◌,
}
use sharerr_rs.Bencode.Value.{
  Entries, Fits, as_bytes, as_int, dict, get_entry, insert_entry, lex_ltb, usize_max,
}
use sharerr_rs.Paths.Resolver.{component_eq}
use sharerr_rs.Prelude.Int.{i64_max}
use sharerr_rs.Torrent.Factory.{base_info, int_of, single_fields, write_v2}
use sharerr_rs.Torrent.Fields.{
  content_length, info_field, is_single_file, piece_length, pieces, total_length,
}
use sharerr_rs.Torrent.Hashing.{piece_length_for}
use sharerr_rs.Torrent.Metainfo.{Torrent}

pub piece_length_for_bounds :
    (size : ℕ) → (1 ≤ piece_length_for size) × (piece_length_for size ≤ i64_max)
unfolding piece_length_for
piece_length_for_bounds size = (ground arith, ground arith)

unfoldable pub plain_info : Bytes → ℕ → Bool → Bytes → Entries
unfolding single_fields
plain_info file_name size private_flag hashes =
    (single_fields file_name size private_flag (hashes, none)).0

pub plain_info-Fits :
    (file_name : Bytes) (size : ℕ) (private_flag : Bool) (hashes : Bytes)
    → length file_name ≤ usize_max
    → length hashes ≤ usize_max
    → Fits 1 (dict (plain_info file_name size private_flag hashes))
unfolding plain_info single_fields base_info insert_entry lex_ltb int_of Fits write_v2
plain_info-Fits file_name size true hashes h k = (
  omega arith,
  (
    omega arith,
    (omega arith, (omega arith, omega arith)),
    (refl, (refl, (refl, (refl, tt)))),
    (
      omega arith,
      (omega arith, h),
      (refl, (refl, (refl, tt))),
      (
        omega arith,
        (omega arith, (omega arith, omega arith)),
        (refl, (refl, tt)),
        (
          omega arith,
          (omega arith, k),
          (refl, tt),
          (omega arith, (omega arith, (omega arith, omega arith)), tt, tt),
        ),
      ),
    ),
  ),
)
plain_info-Fits file_name size false hashes h k = (
  omega arith,
  (
    omega arith,
    (omega arith, (omega arith, omega arith)),
    (refl, (refl, (refl, tt))),
    (
      omega arith,
      (omega arith, h),
      (refl, (refl, tt)),
      (
        omega arith,
        (omega arith, (omega arith, omega arith)),
        (refl, tt),
        (omega arith, (omega arith, k), tt, tt),
      ),
    ),
  ),
)

-- What the accessors find.
pub record Holds (t : Torrent) (size : ℕ) (hashes : Bytes) : Type 0 where
  pub chunk : piece_length t ≡ some (piece_length_for size)
  pub hashed : pieces t ≡ some hashes
  pub one_file : is_single_file t ≡ true
  pub sized : content_length t ≡ size

min_most : (n : ℕ) → n ≤ i64_max → min n i64_max ≡ n
min_most n h = min-eq_left h

pub plain_info-Holds :
    (t : Torrent) (file_name : Bytes) (size : ℕ) (private_flag : Bool) (hashes : Bytes)
    → t.info ≡ plain_info file_name size private_flag hashes
    → size ≤ i64_max
    → Holds t size hashes
unfolding plain_info single_fields base_info insert_entry lex_ltb int_of get_entry info_field
    piece_length pieces is_single_file content_length total_length as_int as_bytes write_v2
plain_info-Holds t file_name size true hashes e h =
    let (least, most) = piece_length_for_bounds size in
    let positive : ltb 0 (piece_length_for size) ≡ true = ground arith in
    record {
      chunk = rw (e, min_most (piece_length_for size) most, positive) refl;
      hashed = rw e refl;
      one_file = rw e refl;
      sized = rw (e, min_most size h) refl;
    }
plain_info-Holds t file_name size false hashes e h =
    let (least, most) = piece_length_for_bounds size in
    let positive : ltb 0 (piece_length_for size) ≡ true = ground arith in
    record {
      chunk = rw (e, min_most (piece_length_for size) most, positive) refl;
      hashed = rw e refl;
      one_file = rw e refl;
      sized = rw (e, min_most size h) refl;
    }
