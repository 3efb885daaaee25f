-- ===== src/Torrent/Hybrid.antt =====
-- crates/sharerr-torrent/src/factory.rs: the hashes of a hybrid torrent. sha1 and sha256 are
-- parameters; a hash is its bytes.
use Prim.Native.Nat.{max}
use sharerr_rs.Prelude.{
  Bool, Bytes, List, Option, Result, [], and_then, if◌then◌else◌, leb, length, ltb, map, none, ok,
  some, suc, true, zero, ℕ, ◌*◌, ◌++◌, ◌/◌, ◌∷◌,
}
use sharerr_rs.Announce.Query.{hash}
use sharerr_rs.Torrent.Fields.{piece_length}
use sharerr_rs.Torrent.Hashing.{BuildError, Files, for_each_piece}
use sharerr_rs.Torrent.Stream.{chunks, is_nil}

abbrev pub v2_block : ℕ
v2_block = 16 * 1024

pub record V2Hashes : Type 0 where
  pub root : Option Bytes
  pub layer : Option Bytes

-- `usize::next_power_of_two`. Fuel `n` is enough, since each round doubles.
unfoldable pub double_up_to : ℕ → ℕ → ℕ → ℕ
double_up_to zero n p = p
double_up_to (suc f) n p = let more = double_up_to f n (2 * p) in if leb n p then p else more

unfoldable pub next_power_of_two : ℕ → ℕ
unfolding double_up_to
next_power_of_two n = double_up_to n n 1

-- `resize`
unfoldable pub resize : ℕ → Bytes → List Bytes → List Bytes
resize zero pad leaves = []
resize (suc n) pad [] = pad ∷ resize n pad []
resize (suc n) pad (leaf ∷ leaves) = leaf ∷ resize n pad leaves

abbrev pub concat : List Bytes → Bytes
concat [] = []
concat (b ∷ bs) = b ++ concat bs

-- A hash of zeros.
unfoldable pub zeros : ℕ → Bytes
zeros zero = []
zeros (suc n) = 0 ∷ zeros n

abbrev pub first_of : List Bytes → Bytes
first_of [] = []
first_of (leaf ∷ leaves) = leaf

module _ (sha256 : Bytes → Bytes) where
  -- One layer of the tree from the one below: `chunks(2)` and the hash of each.
  unfoldable pub pair_up : List Bytes → List Bytes
  pair_up [] = []
  pair_up (a ∷ []) = sha256 (a ++ a) ∷ []
  pair_up (a ∷ b ∷ layer) = sha256 (a ++ b) ∷ pair_up layer

  -- The loop, on fuel: every layer but the last is at least one shorter.
  unfoldable pub reduce : ℕ → List Bytes → Bytes
  unfolding pair_up
  reduce zero layer = first_of layer
  reduce (suc f) layer =
      let root = reduce f (pair_up layer) in if ltb 1 (length layer) then root else first_of layer

  unfoldable pub merkle_root : List Bytes → ℕ → Bytes → Bytes
  unfolding reduce resize
  merkle_root leaves width pad = reduce (max 1 width) (resize (max 1 width) pad leaves)

-- What the hashing of the pieces has so far.
pub record Hashed : Type 0 where
  pub pieces : Bytes
  pub piece_hashes : List Bytes
  pub first_piece_leaves : List Bytes

module _ (sha1 sha256 : Bytes → Bytes) where
  unfoldable pub hash_both : ℕ → Hashed → Bytes → Bool × Hashed
  unfolding merkle_root chunks zeros
  hash_both blocks_per_piece state piece =
      let leaves = map sha256 (chunks v2_block piece) in
      (
        true,
        record {
          pieces = state.pieces ++ sha1 piece;
          piece_hashes =
              state.piece_hashes ++ merkle_root sha256 leaves blocks_per_piece (zeros 32) ∷ [];
          first_piece_leaves =
              if is_nil state.piece_hashes then leaves else state.first_piece_leaves;
        },
      )

  unfoldable pub v2_of : ℕ → List Bytes → List Bytes → V2Hashes
  unfolding merkle_root next_power_of_two zeros
  v2_of blocks_per_piece leaves [] = record { root = none; layer = none }
  v2_of blocks_per_piece leaves (hash ∷ []) = record {
    root = some (merkle_root sha256 leaves (next_power_of_two (length leaves)) (zeros 32));
    layer = none;
  }
  v2_of blocks_per_piece leaves (hash ∷ next ∷ hashes) =
      let zero_piece = merkle_root sha256 [] blocks_per_piece (zeros 32) in
      let piece_hashes = hash ∷ next ∷ hashes in
      record {
        root =
            some (
              merkle_root sha256 piece_hashes (next_power_of_two (length piece_hashes)) zero_piece);
        layer = some (concat piece_hashes);
      }

  unfoldable pub hash_pieces_hybrid :
      {PathBuf : Type 0}
      → Files PathBuf
      → PathBuf
      → ℕ
      → Result (BuildError PathBuf) (Bytes × V2Hashes)
  unfolding for_each_piece hash_both v2_of
  hash_pieces_hybrid fs path piece_length =
      let blocks_per_piece = max 1 (piece_length / v2_block) in
      and_then
        (for_each_piece fs path [] piece_length (hash_both blocks_per_piece)
          (record { pieces = []; piece_hashes = []; first_piece_leaves = [] }))
        λ state.
          ok (state.pieces, v2_of blocks_per_piece state.first_piece_leaves state.piece_hashes)
