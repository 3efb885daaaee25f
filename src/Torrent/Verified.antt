-- ===== src/Torrent/Verified.antt =====
-- `verify_single_file` of crates/sharerr-torrent/src/factory.rs answers whether the file is the one
-- that the torrent describes.
use native.Mathlib.Nat.{mul-div_cancel, mul-mod_left}
use sharerr_rs.Prelude.{
  Bool, Bool-cases, Bytes, ap, arith, false, inl, inr, length, list_eq, list_eqb_iff, nat_eq,
  nat_eqb_iff, ok, refl, some, suc, sym, true, zero, ℕ, ◌%◌, ◌&&◌, ◌*◌, ◌/◌, ◌==◌, ◌∙◌, ◌≡◌, ◌≢◌,
  ◌≤◌,
}
use sharerr_rs.Paths.Resolver.{component_eq}
use sharerr_rs.Torrent.Fields.{content_length, is_single_file, piece_length, pieces}
use sharerr_rs.Torrent.Hashing.{Files, div_ceil, verify_fields, verify_single_file, verify_size}
use sharerr_rs.Torrent.Metainfo.{Torrent}
use sharerr_rs.Torrent.Stream.{IsFile, Stream, contents}
use sharerr_rs.Torrent.Verify.{length-piece_hashes_of, piece_hashes_of, verify_pieces-contents}

==-false : (xs ys : Bytes) → xs ≢ ys → (xs == ys) ≡ false
==-false xs ys h = elim (Bool-cases (xs == ys)) [
  | inl same ↦ absurd (h ((list_eqb_iff xs ys).0 same))
  | inr other ↦ other
]

and_false : (b : Bool) → (b && false) ≡ false
and_false true = refl
and_false false = refl

module _ (sha1 : Bytes → Bytes) (size_of_hash : (b : Bytes) → length (sha1 b) ≡ 20)
    {PathBuf : Type 0} (fs : Files PathBuf) (path : PathBuf) (s : Stream)
    (opens : fs.open_file path ≡ some s) (file : IsFile s) where
  other_length :
      (n : ℕ) (expected : Bytes)
      → 1 ≤ n
      → (length expected ≡ div_ceil (length (contents s)) n * 20 → ⊥)
      → (expected == piece_hashes_of sha1 n (contents s)) ≡ false
  other_length n expected h other =
      ==-false expected (piece_hashes_of sha1 n (contents s))
        (λ same. other (ap length same ∙ length-piece_hashes_of sha1 size_of_hash n (contents s) h))

  -- A string that is no whole number of hashes, or not as many as the file has pieces.
  odd_length :
      (n : ℕ) (expected : Bytes)
      → 1 ≤ n
      → (length expected % 20 == 0) ≡ false
      → (expected == piece_hashes_of sha1 n (contents s)) ≡ false
  odd_length n expected h odd = other_length n expected h λ same.
      let even : (length expected % 20 == 0) ≡ true =
        ap (λ l. l % 20 == 0) same
        ∙ ap (λ l. l == 0) (mul-mod_left (div_ceil (length (contents s)) n) 20) in
      cc (even, odd)

  wrong_count :
      (n : ℕ) (expected : Bytes)
      → 1 ≤ n
      → (div_ceil (length (contents s)) n == length expected / 20) ≡ false
      → (expected == piece_hashes_of sha1 n (contents s)) ≡ false
  wrong_count n expected h wrong = other_length n expected h λ same.
      let count = div_ceil (length (contents s)) n in
      let right : (count == length expected / 20) ≡ true =
        (nat_eqb_iff count (length expected / 20)).1
          (sym (ap (λ l. l / 20) same ∙ mul-div_cancel count (omega arith))) in
      cc (right, wrong)

  verify_size-contents :
      (t : Torrent) (n : ℕ) (expected : Bytes)
      → fs.metadata path ≡ some (true, length (contents s))
      → 1 ≤ n
      → verify_size fs sha1 path t n expected
        ≡ ok (
            length (contents s) == content_length t
            && expected == piece_hashes_of sha1 n (contents s))
  unfolding verify_size
  verify_size-contents t n expected meta h =
      elim (Bool-cases (length (contents s) == content_length t)) [
        | inr other ↦ rw (meta, other) refl
        | inl same ↦ elim (Bool-cases (div_ceil (length (contents s)) n == length expected / 20)) [
          | inr wrong ↦
              rw (meta, same, wrong) (ap (λ b. ok b) (sym (wrong_count n expected h wrong)))
          | inl right ↦
              rw (meta, same, right)
                (verify_pieces-contents sha1 size_of_hash fs path s opens file n expected h)
        ]
      ]

  -- On a file of the file system, and a single-file torrent that has its hashes and a piece length:
  -- `verify_single_file` ends without an error, and says whether the file is as long as the torrent
  -- says, and the torrent's hashes are those of the file's content in pieces of that length. It is
  -- assumed of sha1 that its hashes are 20 bytes.
  pub verify_single_file_lem :
      (t : Torrent) (n : ℕ) (expected : Bytes)
      → fs.metadata path ≡ some (true, length (contents s))
      → 1 ≤ n
      → piece_length t ≡ some n
      → pieces t ≡ some expected
      → is_single_file t ≡ true
      → verify_single_file fs sha1 path t
        ≡ ok (
            length (contents s) == content_length t
            && expected == piece_hashes_of sha1 n (contents s))
  unfolding verify_single_file verify_fields
  verify_single_file_lem t zero expected meta h size hashes single = absurd (omega (arith, h))
  verify_single_file_lem t (suc n) expected meta h size hashes single =
      let positive : (suc n == 0) ≡ false = ground arith in
      elim (Bool-cases (length expected % 20 == 0)) [
        | inr odd ↦
            rw (size, hashes, single, positive, odd)
              (ap (λ b. ok b)
                (sym (
                  ap (λ b. length (contents s) == content_length t && b)
                    (odd_length (suc n) expected h odd)
                  ∙ and_false (length (contents s) == content_length t))))
        | inl even ↦
            rw (size, hashes, single, positive, even)
              (verify_size-contents t (suc n) expected meta h)
      ]
