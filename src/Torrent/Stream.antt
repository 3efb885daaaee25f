-- ===== src/Torrent/Stream.antt =====
-- `for_each_piece` of crates/sharerr-torrent/src/factory.rs. An open file is what its reads give, as
-- short as they come: a read ends where the next entry begins, and `none` is a read that fails.
use mathlib.Core.Option
use sharerr_rs.Prelude.{
  Bool, Bytes, List, Option, [], drop, false, if◌then◌else◌, length, list_eq, ltb, nat_eq, none,
  not, some, suc, take, true, zero, ℕ, ◌++◌, ◌+◌, ◌-◌, ◌==◌, ◌||◌, ◌∷◌,
}
use sharerr_rs.Paths.Resolver.{component_eq}
use sharerr_rs.Torrent.Fields.{bind_option}

abbrev pub Stream : Type 0
Stream = List (Option Bytes)

abbrev pub unread : Bytes → Stream → Stream
unread [] s = s
unread (c ∷ left) s = some (c ∷ left) ∷ s

-- `Read::read` into a buffer of `n` bytes.
unfoldable pub read : ℕ → Stream → Option (Bytes × Stream)
read n [] = some ([], [])
read n (none ∷ s) = none
read n (some c ∷ s) = some (take n c, unread (drop n c) s)

abbrev pub append_read : Bytes → Bytes × Stream → Bytes × Stream
append_read got (more, s) = (got ++ more, s)

abbrev pub is_nil {ℓ} : {A : Type ℓ} → List A → Bool
is_nil [] = true
is_nil (x ∷ xs) = false

-- The inner loop: reads until the buffer is full or the file ends. Every read gives a byte, so the
-- room in the buffer is fuel enough.
unfoldable pub fill : ℕ → ℕ → Stream → Option (Bytes × Stream)
unfolding read
fill zero room s = some ([], s)
fill (suc f) room s =
    if room == 0
    then some ([], s)
    else bind_option (read room s) λ (got, s').
      if is_nil got
      then some ([], s')
      else Option.map (append_read got) (fill f (room - length got) s')

module _ {S : Type 0} (on_piece : S → Bytes → Bool × S) where
  abbrev pub go_on : ℕ → Bytes → Bool × S → Option S → Option S
  go_on chunk piece (wanted, state) rest =
      if not wanted || ltb (length piece) chunk then some state else rest

  -- The outer loop, on fuel: every turn but the last takes a byte.
  unfoldable pub pieces_loop : ℕ → ℕ → Stream → S → Option S
  unfolding fill
  pieces_loop zero chunk s state = none
  pieces_loop (suc f) chunk s state = bind_option (fill chunk chunk s) λ (piece, s').
      if is_nil piece
      then some state
      else go_on chunk piece (on_piece state piece)
          (pieces_loop f chunk s' (on_piece state piece).1)

  -- `slice::chunks`, and the visit of each until one is not wanted.
  unfoldable pub visit : List Bytes → S → S
  visit [] state = state
  visit (piece ∷ rest) state =
      let (wanted, state') = on_piece state piece in
      let later = visit rest state' in if wanted then later else state'

unfoldable pub chunks_of : ℕ → ℕ → Bytes → List Bytes
chunks_of zero n s = []
chunks_of (suc f) n [] = []
chunks_of (suc f) n (c ∷ s) = take n (c ∷ s) ∷ chunks_of f n (drop n (c ∷ s))

unfoldable pub chunks : ℕ → Bytes → List Bytes
unfolding chunks_of
chunks n s = chunks_of (length s) n s

-- All the bytes of a file, if its reads do not fail.
abbrev pub contents : Stream → Bytes
contents [] = []
contents (none ∷ s) = []
contents (some c ∷ s) = c ++ contents s

-- `Read::chain`: at the end of the first file, the second.
abbrev pub chain : Stream → Stream → Stream
chain [] t = t
chain (none ∷ s) t = none ∷ chain s t
chain (some [] ∷ s) t = t
chain (some (c ∷ left) ∷ s) t = some (c ∷ left) ∷ chain s t

-- No read fails, and a read is empty at the end of the file only.
abbrev pub IsFile : Stream → Type 0
IsFile [] = Unit
IsFile (none ∷ s) = ⊥
IsFile (some [] ∷ s) = ⊥
IsFile (some (c ∷ left) ∷ s) = IsFile s

-- The loops over the open stream.
unfoldable pub visit_pieces : {S : Type 0} → (S → Bytes → Bool × S) → ℕ → Stream → S → Option S
unfolding pieces_loop
visit_pieces on_piece chunk s state = pieces_loop on_piece (length (contents s) + 1) chunk s state
