-- ===== src/Torrent/Chunks.antt =====
-- However short its reads are, a buffer is filled with what a file has left.
use mathlib.Core.Option
use sharerr_rs.Prelude.{
  Bool-cases, Bytes, Option, [], ap, append_assoc, arith, drop, false, if◌then◌else◌, inl, inr,
  length, length-take-le, list_eq, nat_eq, nat_eqb_iff, none, refl, some, subst, suc, sym, take,
  zero, ℕ, ◌++◌, ◌-◌, ◌==◌, ◌∙◌, ◌∷◌, ◌≡◌, ◌≤◌, ◌⊎◌,
}
use sharerr_rs.Paths.Resolver.{component_eq}
use sharerr_rs.Torrent.Stream.{IsFile, Stream, append_read, contents, fill, is_nil, read, unread}

drop-append_le : (n : ℕ) (xs ys : Bytes) → n ≤ length xs → drop n (xs ++ ys) ≡ drop n xs ++ ys
drop-append_le zero xs ys h = refl
drop-append_le (suc n) [] ys h = absurd (omega (arith, h))
drop-append_le (suc n) (x ∷ xs) ys h = drop-append_le n xs ys (omega (arith, h))

take-append_le : (n : ℕ) (xs ys : Bytes) → n ≤ length xs → take n (xs ++ ys) ≡ take n xs
take-append_le zero xs ys h = refl
take-append_le (suc n) [] ys h = absurd (omega (arith, h))
take-append_le (suc n) (x ∷ xs) ys h = ap (λ t. x ∷ t) (take-append_le n xs ys (omega (arith, h)))

-- Past the first part, what is left to take is of the second.
take-append_past :
    (n : ℕ) (xs ys : Bytes) → length xs ≤ n → take n (xs ++ ys) ≡ xs ++ take (n - length xs) ys
take-append_past n [] ys h = ap (λ m. take m ys) (omega arith)
take-append_past zero (x ∷ xs) ys h = absurd (omega (arith, h))
take-append_past (suc n) (x ∷ xs) ys h =
    ap (λ t. x ∷ t) (take-append_past n xs ys (omega (arith, h)))
    ∙ ap (λ m. x ∷ xs ++ take m ys) (omega arith)

drop-append_past :
    (n : ℕ) (xs ys : Bytes) → length xs ≤ n → drop n (xs ++ ys) ≡ drop (n - length xs) ys
drop-append_past n [] ys h = ap (λ m. drop m ys) (omega arith)
drop-append_past zero (x ∷ xs) ys h = absurd (omega (arith, h))
drop-append_past (suc n) (x ∷ xs) ys h =
    drop-append_past n xs ys (omega (arith, h)) ∙ ap (λ m. drop m ys) (omega arith)

take-nil : (n : ℕ) → take {A = ℕ} n [] ≡ []
take-nil zero = refl
take-nil (suc n) = refl

drop-nil : (n : ℕ) → drop {A = ℕ} n [] ≡ []
drop-nil zero = refl
drop-nil (suc n) = refl

pub take_and_drop : (n : ℕ) (xs : Bytes) → take n xs ++ drop n xs ≡ xs
take_and_drop zero xs = refl
take_and_drop (suc n) [] = refl
take_and_drop (suc n) (x ∷ xs) = ap (λ t. x ∷ t) (take_and_drop n xs)

contents-unread : (left : Bytes) (s : Stream) → contents (unread left s) ≡ left ++ contents s
contents-unread [] s = refl
contents-unread (c ∷ left) s = refl

unread-IsFile : (left : Bytes) (s : Stream) → IsFile s → IsFile (unread left s)
unread-IsFile [] s h = h
unread-IsFile (c ∷ left) s h = h

-- What a read into a buffer with room takes off a file.
abbrev Taken : ℕ → Stream → Bytes → Stream → Type 0
Taken room s got s' =
    (got ++ contents s' ≡ contents s)
    × (length got ≤ room)
    × IsFile s'
    × ((is_nil got ≡ false) ⊎ (contents s ≡ []))

read-Taken :
    (room : ℕ) (s : Stream)
    → IsFile s
    → (room == 0) ≡ false
    → (got : Bytes) × (s' : Stream) × (read room s ≡ some (got, s')) × Taken room s got s'
unfolding read
read-Taken room [] h some_room = ([], [], refl, (refl, omega arith, tt, inr refl))
read-Taken room (none ∷ s) h some_room = absurd h
read-Taken room (some [] ∷ s) h some_room = absurd h
read-Taken zero (some (c ∷ left) ∷ s) h some_room = cc some_room
read-Taken (suc n) (some (c ∷ left) ∷ s) h some_room = (
  c ∷ take n left,
  unread (drop n left) s,
  refl,
  (
    ap (λ t. c ∷ take n left ++ t) (contents-unread (drop n left) s)
        ∙ ap (λ t. c ∷ t)
            (sym (append_assoc (take n left) (drop n left) (contents s))
              ∙ ap (λ t. t ++ contents s) (take_and_drop n left)),
    omega (arith, length-take-le n left),
    unread-IsFile (drop n left) s h,
    inl refl,
  ),
)

-- A buffer of `room` bytes filled from a file.
abbrev pub Filled : ℕ → Stream → Option (Bytes × Stream) → Type 0
Filled room s out =
    (s' : Stream) × (out ≡ some (take room (contents s), s'))
    × (contents s' ≡ drop room (contents s))
    × IsFile s'

pub is_nil-length : (xs : Bytes) → is_nil xs ≡ false → 1 ≤ length xs
is_nil-length [] h = cc h
is_nil-length (x ∷ xs) h = omega arith

Filled-full : (room : ℕ) (s : Stream) → IsFile s → room ≡ 0 → Filled room s (some ([], s))
Filled-full room s h no_room =
    subst (λ r. Filled r s (some ([], s))) (sym no_room) (s, refl, refl, h)

-- A read, and then the rest of the room.
Filled-read :
    (room : ℕ) (s : Stream) (got : Bytes) (s' : Stream) (out : Option (Bytes × Stream))
    → Taken room s got s'
    → (is_nil got ≡ false → Filled (room - length got) s' out)
    → Filled room s (if is_nil got then some ([], s') else Option.map (append_read got) out)
Filled-read room s [] s' out (made, fits, file, inl some_got) later = cc some_got
Filled-read room s [] s' out (made, fits, file, inr empty) later = (
  s',
  ap (λ t. some (t, s')) (sym (ap (take room) empty ∙ take-nil room)),
  made ∙ (empty ∙ sym (ap (drop room) empty ∙ drop-nil room)),
  file,
)
Filled-read room s (c ∷ got) s' out (made, fits, file, some_got) later =
    let (s'', filled, left, file') = later refl in
    (
      s'',
      ap (Option.map (append_read (c ∷ got))) filled
          ∙ ap (λ t. some (t, s''))
              (sym
                (ap (take room) (sym made) ∙ take-append_past room (c ∷ got) (contents s') fits)),
      left ∙ sym (ap (drop room) (sym made) ∙ drop-append_past room (c ∷ got) (contents s') fits),
      file',
    )

pub fill-Filled : (f room : ℕ) (s : Stream) → IsFile s → room ≤ f → Filled room s (fill f room s)
unfolding fill
fill-Filled zero room s h enough = Filled-full room s h (omega arith)
fill-Filled (suc f) room s h enough = elim (Bool-cases (room == 0)) [
  | inl no_room ↦ rw no_room (Filled-full room s h ((nat_eqb_iff room 0).0 no_room))
  | inr some_room ↦
      let (got, s', e, taken) = read-Taken room s h some_room in
      rw (some_room, e)
        (Filled-read room s got s' (fill f (room - length got) s') taken (λ some_got.
          fill-Filled f (room - length got) s' taken.2
            (omega (arith, enough, is_nil-length got some_got))))
]
