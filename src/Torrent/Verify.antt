-- ===== src/Torrent/Verify.antt =====
-- crates/sharerr-torrent/src/factory.rs: the hashes of a file on disk are those of its content.
use sharerr_rs.Prelude.{
  All, Bool, Bool-cases, Bytes, List, [], and_then, ap, append-nil, append_assoc, arith, false, inl,
  inr, length, length-map, list_eq, list_eqb_iff, map, nat_eq, ok, refl, some, sym, true, ℕ, ◌*◌,
  ◌++◌, ◌==◌, ◌∙◌, ◌∷◌, ◌≡◌, ◌≤◌,
}
use sharerr_rs.Paths.Resolver.{component_eq}
use sharerr_rs.Torrent.Hashing.{
  Files, all_matched, div_ceil, for_each_piece, hash_pieces, match_hash, open_others, open_stream,
  push_hash, verify_pieces,
}
use sharerr_rs.Torrent.Hybrid.{concat}
use sharerr_rs.Torrent.Pieces.{chunks-concat, concat-chunks, length-chunks, length-concat}
use sharerr_rs.Torrent.Stream.{IsFile, Stream, chunks, contents, visit}
use sharerr_rs.Torrent.Visit.{visit_pieces-visit}

same_tests : (a b : Bool) → (a ≡ true → b ≡ true) → (b ≡ true → a ≡ true) → a ≡ b
same_tests true true f g = refl
same_tests true false f g = sym (f refl)
same_tests false true f g = g refl
same_tests false false f g = refl

module _ (sha1 : Bytes → Bytes) where
  match_hash-all :
      (cs expected : List Bytes)
      → all_matched (visit (match_hash sha1) cs (expected, true)) ≡ (expected == map sha1 cs)
  unfolding visit match_hash
  match_hash-all [] [] = refl
  match_hash-all [] (h ∷ hs) = refl
  match_hash-all (c ∷ cs) [] = refl
  match_hash-all (c ∷ cs) (h ∷ hs) = elim (Bool-cases (h == sha1 c)) [
    | inl same ↦ rw same (match_hash-all cs hs)
    | inr other ↦ rw other refl
  ]

  push_hash-all :
      (cs : List Bytes) (acc : Bytes) → visit (push_hash sha1) cs acc ≡ acc ++ concat (map sha1 cs)
  unfolding visit push_hash
  push_hash-all [] acc = sym (append-nil acc)
  push_hash-all (c ∷ cs) acc =
      push_hash-all cs (acc ++ sha1 c) ∙ append_assoc acc (sha1 c) (concat (map sha1 cs))

  -- The hashes of a content, in a row.
  unfoldable pub piece_hashes_of : ℕ → Bytes → Bytes
  unfolding chunks
  piece_hashes_of n content = concat (map sha1 (chunks n content))

  module _ (size_of_hash : (b : Bytes) → length (sha1 b) ≡ 20) where
    All-sha1 : (cs : List Bytes) → All (λ h. length h ≡ 20) (map sha1 cs)
    All-sha1 [] = tt
    All-sha1 (c ∷ cs) = (size_of_hash c, All-sha1 cs)

    pub length-piece_hashes_of :
        (n : ℕ) (content : Bytes)
        → 1 ≤ n
        → length (piece_hashes_of n content) ≡ div_ceil (length content) n * 20
    unfolding piece_hashes_of
    length-piece_hashes_of n content h =
        length-concat 20 (map sha1 (chunks n content)) (All-sha1 (chunks n content))
        ∙ ap (λ l. l * 20) (length-map sha1 (chunks n content) ∙ length-chunks n content h)

    chunks_eq :
        (n : ℕ) (content expected : Bytes)
        → (chunks 20 expected == map sha1 (chunks n content))
          ≡ (expected == piece_hashes_of n content)
    unfolding piece_hashes_of
    chunks_eq n content expected =
        let hs = map sha1 (chunks n content) in
        same_tests _ _
          (λ same. (list_eqb_iff expected (concat hs)).1 (
            sym (concat-chunks 20 expected (omega arith))
            ∙ ap concat ((list_eqb_iff (chunks 20 expected) hs).0 same)))
          (λ same. (list_eqb_iff (chunks 20 expected) hs).1 (
            ap (chunks 20) ((list_eqb_iff expected (concat hs)).0 same)
            ∙ chunks-concat 20 hs (omega arith) (All-sha1 (chunks n content))))

    module _ {PathBuf : Type 0} (fs : Files PathBuf) (path : PathBuf) (s : Stream)
        (opens : fs.open_file path ≡ some s) (file : IsFile s) where
      for_each_piece-visit :
          {S : Type 0} (on_piece : S → Bytes → Bool × S) (n : ℕ) (state : S)
          → 1 ≤ n
          → for_each_piece fs path [] n on_piece state
            ≡ ok (visit on_piece (chunks n (contents s)) state)
      unfolding for_each_piece open_stream open_others
      for_each_piece-visit on_piece n state h =
          rw (opens, visit_pieces-visit on_piece n s state h file) refl

      pub hash_pieces-contents :
          (n : ℕ) → 1 ≤ n → hash_pieces fs sha1 path [] n ≡ ok (piece_hashes_of n (contents s))
      unfolding hash_pieces piece_hashes_of
      hash_pieces-contents n h =
          for_each_piece-visit (push_hash sha1) n [] h
          ∙ ap (λ b. ok b) (push_hash-all (chunks n (contents s)) [])

      pub verify_pieces-contents :
          (n : ℕ) (expected : Bytes)
          → 1 ≤ n
          → verify_pieces fs sha1 path n expected ≡ ok (expected == piece_hashes_of n (contents s))
      unfolding verify_pieces
      verify_pieces-contents n expected h =
          ap (λ r. and_then r (λ state. ok (all_matched state)))
            (for_each_piece-visit (match_hash sha1) n (chunks 20 expected, true) h)
          ∙ ap (λ b. ok b)
              (match_hash-all (chunks n (contents s)) (chunks 20 expected)
                ∙ chunks_eq n (contents s) expected)
