-- ===== src/Bencode/RoundTrip.antt =====
-- What is encoded is decoded to itself.
use sharerr_rs.Prelude.{
  Bool, Bytes, [], append-nil, append_assoc, arith, length, length-append, list_eq, nat_eq, not, ok,
  refl, subst, suc, true, zero, ℕ, ◌*◌, ◌++◌, ◌+◌, ◌<◌, ◌==◌, ◌∙◌, ◌∷◌, ◌≡◌, ◌≤◌,
}
use sharerr_rs.Bencode.Decode.{Parsed, byte_string, decode, entries, items, value, ◌>>=◌}
use sharerr_rs.Bencode.Encode.{encode, write, write_bytes, write_entries, write_int, write_items}
use sharerr_rs.Bencode.Order.{
  Precede, Precede-append_entries, Precede-end, append_entries, append_entries-end,
  append_entries_assoc, insert_entry-append_entries,
}
use sharerr_rs.Bencode.Pieces.{at, byte_string-write_bytes, integer-write_int}
use sharerr_rs.Bencode.Value.{
  Entries, FitEntries, FitItems, Fits, Items, Value, bytes, cons, dict, end, entry, insert_entry,
  int, list, max_depth, nil, usize_max,
}
use sharerr_rs.Prelude.Decimal.{decimal, is_digit}
use sharerr_rs.Prelude.Decimal.RoundTrip.{IsNumeral, decimal-IsNumeral}

-- The first byte passes a test.
abbrev pub Starts : (ℕ → Bool) → Bytes → Type 0
Starts test [] = ⊥
Starts test (c ∷ s) = test c ≡ true

abbrev opens : ℕ → Bool
opens c = not (c == b'e')

Starts-IsNumeral : (s rest : Bytes) → IsNumeral s → Starts is_digit (s ++ rest)
Starts-IsNumeral [] rest (ne, h) = absurd (ne refl)
Starts-IsNumeral (c ∷ s) rest (ne, (digit, h)) = digit

Starts-opens : (s : Bytes) → Starts is_digit s → Starts opens s
Starts-opens [] h = h
Starts-opens (c ∷ s) h = ground arith

pub Starts-write_bytes : (b rest : Bytes) → Starts is_digit (write_bytes b ++ rest)
unfolding write_bytes
Starts-write_bytes b rest =
    rw (append_assoc, append_assoc)
      (Starts-IsNumeral (decimal (length b)) _ (decimal-IsNumeral (length b)))

-- No value begins with the byte that closes a list or dictionary.
Starts-write : (v : Value) (rest : Bytes) → Starts opens (write v ++ rest)
unfolding write write_int
Starts-write (int n) rest = refl
Starts-write (bytes b) rest = Starts-opens (write_bytes b ++ rest) (Starts-write_bytes b rest)
Starts-write (list xs) rest = refl
Starts-write (dict es) rest = refl

-- The rounds of the two loops, and the branch of `value` for a string.
items_step :
    (f depth o : ℕ) (s : Bytes)
    → Starts opens s
    → items (suc f) depth (at s o)
      ≡ (value f depth (at s o) >>= λ (v, q). items f depth q >>= λ (xs, q'). ok (cons v xs, q'))
unfolding items
items_step f depth o [] h = absurd h
items_step f depth o (c ∷ s) h = ground arith

entries_step :
    (f depth o : ℕ) (s : Bytes) (done : Entries)
    → Starts is_digit s
    → entries (suc f) depth done (at s o) ≡ (
        byte_string (at s o) >>= λ (k, q).
        value f depth q >>= λ (v, q'). entries f depth (insert_entry k v done) q')
unfolding entries
entries_step f depth o [] done h = absurd h
entries_step f depth o (c ∷ s) done h = ground arith

pub bytes_step :
    (f depth o : ℕ) (s : Bytes)
    → Starts is_digit s
    → depth ≤ max_depth
    → value (suc f) depth (at s o) ≡ (byte_string (at s o) >>= λ (b, q). ok (bytes b, q))
unfolding value
bytes_step f depth o [] h fits = absurd h
bytes_step f depth o (c ∷ s) h fits = ground arith

-- What is left to read after a part of `n` bytes.
abbrev past : {A : Type 0} → A → Bytes → ℕ → ℕ → Parsed A
past a rest o n = ok (a, at rest (o + n))

Starts-pos : (test : ℕ → Bool) (s : Bytes) → Starts test s → 0 < length s
Starts-pos test [] h = absurd h
Starts-pos test (c ∷ s) h = omega arith

write-pos : (v : Value) → 0 < length (write v)
write-pos v =
    Starts-pos opens (write v) (subst (Starts opens) (append-nil (write v)) (Starts-write v []))

write_bytes-pos : (b : Bytes) → 0 < length (write_bytes b)
write_bytes-pos b =
    Starts-pos is_digit (write_bytes b)
      (subst (Starts is_digit) (append-nil (write_bytes b)) (Starts-write_bytes b []))

mutual
  unfolding write Fits value items entries append_entries write_int

  value-write :
      (v : Value) (f depth o : ℕ) (rest : Bytes)
      → Fits depth v
      → length (write v) ≤ f
      → o + length (write v) ≤ usize_max
      → value f depth (at (write v ++ rest) o) ≡ past v rest o (length (write v))
  value-write (int n) zero depth o rest h le room = absurd (omega arith)
  value-write (int n) (suc f) depth o rest (deep, fits) le room =
      rw append_assoc (ground (arith, integer-write_int n rest o fits))
  value-write (bytes b) zero depth o rest h le room = absurd (omega (arith, write_bytes-pos b))
  value-write (bytes b) (suc f) depth o rest (deep, fits) le room =
      bytes_step f depth o (write_bytes b ++ rest) (Starts-write_bytes b rest) deep
      ∙ (rw (byte_string-write_bytes b rest o room) refl)
  value-write (list xs) zero depth o rest h le room = absurd (omega arith)
  value-write (list xs) (suc f) depth o rest (deep, fits) le room = rw append_assoc (
      ground (
        arith,
        items-write xs f (depth + 1) (o + 1) rest fits,
        length-append (write_items xs) (b'e' ∷ []),
      ))
  value-write (dict es) zero depth o rest h le room = absurd (omega arith)
  value-write (dict es) (suc f) depth o rest (deep, fits) le room = rw append_assoc (
      ground (
        arith,
        entries-write es f (depth + 1) (o + 1) rest end fits (Precede-end es),
        length-append (write_entries es) (b'e' ∷ []),
      ))

  items-write :
      (xs : Items) (f depth o : ℕ) (rest : Bytes)
      → FitItems depth xs
      → suc (length (write_items xs)) ≤ f
      → o + length (write_items xs) ≤ usize_max
      → items f depth (at (write_items xs ++ b'e' ∷ rest) o)
        ≡ past xs rest o (length (write_items xs) + 1)
  items-write nil zero depth o rest h le room = absurd (omega arith)
  items-write nil (suc f) depth o rest h le room = ground arith
  items-write (cons v xs) zero depth o rest h le room = absurd (omega arith)
  items-write (cons v xs) (suc f) depth o rest (hv, h) le room = rw append_assoc (
      items_step f depth o (write v ++ (write_items xs ++ b'e' ∷ rest)) (Starts-write v _)
      ∙ ground (
        arith,
        write-pos v,
        length-append (write v) (write_items xs),
        value-write v f depth o (write_items xs ++ b'e' ∷ rest) hv,
        items-write xs f depth (o + length (write v)) rest h,
      ))

  entries-write :
      (es : Entries) (f depth o : ℕ) (rest : Bytes) (done : Entries)
      → FitEntries depth es
      → Precede done es
      → suc (length (write_entries es)) ≤ f
      → o + length (write_entries es) ≤ usize_max
      → entries f depth done (at (write_entries es ++ b'e' ∷ rest) o)
        ≡ past (append_entries done es) rest o (length (write_entries es) + 1)
  entries-write end zero depth o rest done h before le room = absurd (omega arith)
  entries-write end (suc f) depth o rest done h before le room =
      ground (arith, append_entries-end done)
  entries-write (entry k v es) zero depth o rest done h before le room = absurd (omega arith)
  entries-write (entry k v es) (suc f) depth o rest done (hk, hv, above, h) (below, before) le
        room =
      let tail = write_entries es ++ b'e' ∷ rest in
      rw
        (
          append_assoc (write_bytes k) (write v ++ write_entries es) (b'e' ∷ rest),
          append_assoc (write v) (write_entries es) (b'e' ∷ rest),
        )
        (entries_step f depth o (write_bytes k ++ (write v ++ tail)) done (Starts-write_bytes k _)
          ∙ ground (
            arith,
            write-pos v,
            length-append (write_bytes k) (write v ++ write_entries es),
            length-append (write v) (write_entries es),
            byte_string-write_bytes k (write v ++ tail) o,
            value-write v f depth (o + length (write_bytes k)) tail hv,
            insert_entry-append_entries k v done below,
            append_entries_assoc done (entry k v end) es,
            entries-write es f depth (o + length (write_bytes k) + length (write v)) rest
                (append_entries done (entry k v end)) h
                (Precede-append_entries done k v es before above),
          ))

-- A value within the decoder's reach is decoded from its encoding to itself: its integers and
-- lengths fit 64 bits, it is at most `max_depth` levels deep, its keys ascend, and the encoding is
-- no longer than a `usize` counts.
pub decode-encode :
    (v : Value) → Fits 0 v → length (encode v) ≤ usize_max → decode (encode v) ≡ ok v
unfolding decode encode
decode-encode v h room =
    ground (arith, value-write v (2 * length (write v) + 1) 0 0 [] h, append-nil (write v))
