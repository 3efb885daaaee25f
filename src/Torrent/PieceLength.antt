-- ===== src/Torrent/PieceLength.antt =====
-- `piece_length_for` of crates/sharerr-torrent/src/factory.rs: the length that keeps the piece count
-- in the low thousands.
use sharerr_rs.Prelude.{
  Bool-cases, arith, inl, inr, leb, refl, ℕ, ◌*◌, ◌-◌, ◌<◌, ◌^◌, ◌≡◌, ◌≤◌, ◌⊎◌,
}
use sharerr_rs.Torrent.Hashing.{div_ceil, mib, piece_length_for}

-- The least power of two from 2^18 on that cuts `size` into at most 2,048 pieces, or else 2^24.
abbrev pub IsRung : ℕ → ℕ → Type 0
IsRung size chosen =
    (k : ℕ) × (chosen ≡ 2 ^ k)
    × (18 ≤ k)
    × (k ≤ 24)
    × ((k ≡ 24) ⊎ (div_ceil size (2 ^ k) ≤ 2048))
    × ((k ≡ 18) ⊎ (2048 < div_ceil size (2 ^ (k - 1))))

-- The chosen length is the least power of two from 256 KiB on with which the file has at most 2,048
-- pieces, or 16 MiB where none up to there is enough.
pub piece_length_for_least : (size : ℕ) → IsRung size (piece_length_for size)
unfolding piece_length_for
piece_length_for_least size = elim (Bool-cases (leb size (512 * mib))) [
  | inl a ↦ rw a (18, refl, omega arith, omega arith, inr (ground arith), inl refl)
  | inr a ↦ elim (Bool-cases (leb size (1024 * mib))) [
    | inl b ↦ rw (a, b) (19, refl, omega arith, omega arith, inr (ground arith), inr (ground arith))
    | inr b ↦ elim (Bool-cases (leb size (2048 * mib))) [
      | inl c ↦
          rw (a, b, c) (20, refl, omega arith, omega arith, inr (ground arith), inr (ground arith))
      | inr c ↦ elim (Bool-cases (leb size (4096 * mib))) [
        | inl d ↦
            rw (a, b, c, d)
              (21, refl, omega arith, omega arith, inr (ground arith), inr (ground arith))
        | inr d ↦ elim (Bool-cases (leb size (8192 * mib))) [
          | inl e ↦
              rw (a, b, c, d, e)
                (22, refl, omega arith, omega arith, inr (ground arith), inr (ground arith))
          | inr e ↦ elim (Bool-cases (leb size (16384 * mib))) [
            | inl f ↦
                rw (a, b, c, d, e, f)
                  (23, refl, omega arith, omega arith, inr (ground arith), inr (ground arith))
            | inr f ↦
                rw (a, b, c, d, e, f)
                  (24, refl, omega arith, omega arith, inl refl, inr (ground arith))
          ]
        ]
      ]
    ]
  ]
]
