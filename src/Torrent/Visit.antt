-- ===== src/Torrent/Visit.antt =====
-- `for_each_piece` of crates/sharerr-torrent/src/factory.rs visits the file's content cut into
-- pieces, however short its reads come.
use sharerr_rs.Prelude.{
  Bool, Bool-cases, Bytes, List, Option, [], ap, arith, drop, false, if◌then◌else◌, inl, inr,
  length, length-drop-le, ltb, refl, some, suc, sym, take, true, zero, ℕ, ◌+◌, ◌<◌, ◌∙◌, ◌∷◌, ◌≡◌,
  ◌≤◌,
}
use sharerr_rs.Torrent.Chunks.{fill-Filled}
use sharerr_rs.Torrent.Stream.{
  IsFile, Stream, chunks, chunks_of, contents, go_on, is_nil, pieces_loop, visit, visit_pieces,
}

chunks_of-nil : (f n : ℕ) → chunks_of f n [] ≡ []
unfolding chunks_of
chunks_of-nil zero n = refl
chunks_of-nil (suc f) n = refl

-- Fuel for the length is enough, and more changes nothing.
pub chunks_of_more :
    (f g n : ℕ) (xs : Bytes)
    → length xs ≤ f
    → length xs ≤ g
    → chunks_of f (suc n) xs ≡ chunks_of g (suc n) xs
unfolding chunks_of
chunks_of_more f g n [] h k = chunks_of-nil f (suc n) ∙ sym (chunks_of-nil g (suc n))
chunks_of_more zero g n (x ∷ xs) h k = absurd (omega (arith, h))
chunks_of_more (suc f) zero n (x ∷ xs) h k = absurd (omega (arith, k))
chunks_of_more (suc f) (suc g) n (x ∷ xs) h k =
    ap (λ rest. (x ∷ take n xs) ∷ rest)
      (chunks_of_more f g n (drop n xs) (omega (arith, h, length-drop-le n xs))
        (omega (arith, k, length-drop-le n xs)))

drop_short : (n : ℕ) (xs : Bytes) → length (take n xs) < n → drop n xs ≡ []
drop_short zero xs h = absurd (omega (arith, h))
drop_short (suc n) [] h = refl
drop_short (suc n) (x ∷ xs) h = drop_short n xs (omega (arith, h))

pub chunks-cons :
    (n x : ℕ) (xs : Bytes) → chunks (suc n) (x ∷ xs) ≡ (x ∷ take n xs) ∷ chunks (suc n) (drop n xs)
unfolding chunks chunks_of
chunks-cons n x xs =
    ap (λ rest. (x ∷ take n xs) ∷ rest)
      (chunks_of_more (length xs) (length (drop n xs)) n (drop n xs) (length-drop-le n xs)
        (omega arith))

length-drop-suc :
    (n : ℕ) (xs : Bytes) → is_nil xs ≡ false → length (drop (suc n) xs) + 1 ≤ length xs
length-drop-suc n [] h = cc h
length-drop-suc n (x ∷ xs) h = omega (arith, length-drop-le n xs)

module _ {S : Type 0} (on_piece : S → Bytes → Bool × S) (n : ℕ) where
  go_on-visit :
      (out : Bool × S) (piece : Bytes) (left : List Bytes) (later : Option S)
      → later ≡ some (visit on_piece left out.1)
      → (length piece < suc n → left ≡ [])
      → go_on on_piece (suc n) piece out later
        ≡ some (if out.0 then visit on_piece left out.1 else out.1)
  unfolding visit
  go_on-visit (false, state) piece left later h end_of = refl
  go_on-visit (true, state) piece left later h end_of =
      elim (Bool-cases (ltb (length piece) (suc n))) [
        | inl last ↦ rw last (ap (λ l. some (visit on_piece l state)) (sym (end_of (ground arith))))
        | inr whole ↦ rw whole h
      ]

  loop_step :
      (c : Bytes) (state : S) (later : Option S)
      → (is_nil c ≡ false
          → later
            ≡ some (
                visit on_piece
                  (chunks (suc n) (drop (suc n) c))
                  (on_piece state (take (suc n) c)).1))
      → (if is_nil (take (suc n) c)
          then some state
          else go_on on_piece (suc n) (take (suc n) c) (on_piece state (take (suc n) c)) later)
        ≡ some (visit on_piece (chunks (suc n) c) state)
  unfolding visit
  loop_step [] state later h = unfold chunks in refl
  loop_step (x ∷ xs) state later h =
      go_on-visit (on_piece state (x ∷ take n xs)) (x ∷ take n xs) (chunks (suc n) (drop n xs))
        later (h refl)
        (λ short. ap (chunks (suc n)) (drop_short (suc n) (x ∷ xs) short) ∙ (unfold chunks in refl))
      ∙ ap (λ l. some (visit on_piece l state)) (sym (chunks-cons n x xs))

  pieces_loop-visit :
      (f : ℕ) (s : Stream) (state : S)
      → IsFile s
      → length (contents s) + 1 ≤ f
      → pieces_loop on_piece f (suc n) s state
        ≡ some (visit on_piece (chunks (suc n) (contents s)) state)
  unfolding pieces_loop
  pieces_loop-visit zero s state h enough = absurd (omega (arith, enough))
  pieces_loop-visit (suc f) s state h enough =
      let (s', e, left, file) = fill-Filled (suc n) (suc n) s h (omega arith) in
      let piece = take (suc n) (contents s) in
      rw e (
        loop_step (contents s) state _ (λ more.
          pieces_loop-visit f s' (on_piece state piece).1 file
            (omega (arith, enough, ap length left, length-drop-suc n (contents s) more))
          ∙ ap (λ c. some (visit on_piece (chunks (suc n) c) (on_piece state piece).1)) left))

-- Over a file none of whose reads fails, for a piece length of at least 1, the reading ends, and
-- it gives the state that visiting the pieces of the file's content in turn gives, up to the first
-- the visit turns down. How short the reads come does not show.
pub visit_pieces-visit :
    {S : Type 0} (on_piece : S → Bytes → Bool × S) (chunk : ℕ) (s : Stream) (state : S)
    → 1 ≤ chunk
    → IsFile s
    → visit_pieces on_piece chunk s state ≡ some (visit on_piece (chunks chunk (contents s)) state)
unfolding visit_pieces
visit_pieces-visit on_piece zero s state h file = absurd (omega (arith, h))
visit_pieces-visit on_piece (suc n) s state h file =
    pieces_loop-visit on_piece n (length (contents s) + 1) s state file (omega arith)
