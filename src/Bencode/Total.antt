-- ===== src/Bencode/Total.antt =====
-- What the decoder returns, for every input: a value within its reach or an error of the source.
use sharerr_rs.Prelude.{
  Bool-cases, Bytes, Option, Result, [], arith, err, inl, inr, length, length-drop-le,
  length-take-le, list_eq, list_eqb_iff, ltb, nat_eq, none, ok, some, suc, true, zero, ℕ, ◌*◌, ◌+◌,
  ◌<◌, ◌∷◌, ◌≡◌, ◌≢◌, ◌≤◌,
}
use sharerr_rs.Bencode.Decode.{
  BencodeError, Parsed, Parser, byte_string, canonical_i64, decode, entries, finish, integer, items,
  malformed_integer, malformed_length, or_fail, out_of_fuel, split_at, truncated, value, ◌>>=◌,
}
use sharerr_rs.Bencode.Order.{lex_ltb_total, lex_ltb_trans}
use sharerr_rs.Bencode.Pieces.{at}
use sharerr_rs.Bencode.Value.{
  Above, Entries, FitEntries, FitItems, Fits, Value, bytes, cons, dict, end, entry, insert_entry,
  lex_ltb, list, max_depth, usize_max,
}
use sharerr_rs.Prelude.Decimal.{parse_unsigned}
use sharerr_rs.Prelude.Decimal.RoundTrip.{IfSome, parse_i64-IfSome}
use sharerr_rs.Prelude.Int.{IsI64}

-- A result has the property, or is an error other than that the fuel ran out.
abbrev pub Post : {A : Type 0} → (A → Type 0) → Result BencodeError A → Type 0
Post P (ok a) = P a
Post P (err e) = e ≢ out_of_fuel

Post-bind :
    {A B : Type 0} (P : A × Parser → Type 0) (Q : B → Type 0) (m : Parsed A)
    (f : A × Parser → Result BencodeError B)
    → Post P m
    → ((a : A × Parser) → P a → Post Q (f a))
    → Post Q (m >>= f)
Post-bind P Q (ok a) f h k = k a h
Post-bind P Q (err e) f h k = h

Post-mono :
    {A : Type 0} (P Q : A → Type 0) (r : Result BencodeError A)
    → Post P r
    → ((a : A) → P a → Q a)
    → Post Q r
Post-mono P Q (ok a) h k = k a h
Post-mono P Q (err e) h k = h

Post-or_fail :
    {A B : Type 0} (P : A → Type 0) (Q : B → Type 0) (o : Option A) (e : BencodeError)
    (f : A → Result BencodeError B)
    → e ≢ out_of_fuel
    → IfSome P o
    → ((a : A) → P a → Post Q (f a))
    → Post Q (or_fail o e f)
Post-or_fail P Q none e f ne h k = ne
Post-or_fail P Q (some a) e f ne h k = k a h

-- Some of the input is read, and the value has the property.
abbrev pub Reads : {A : Type 0} → (A → Type 0) → Bytes → A × Parser → Type 0
Reads P s (a, q) = P a × (length q.rest < length s)

split_at-IfSome : (b : ℕ) (s : Bytes) → IfSome (λ parts. length parts.1 < length s) (split_at b s)
unfolding split_at
split_at-IfSome b [] = tt
split_at-IfSome b (c ∷ s) = ground (arith, split_at-IfSome b s)

canonical_i64-IfSome : (s : Bytes) → IfSome IsI64 (canonical_i64 s)
unfolding canonical_i64
canonical_i64-IfSome s = ground (arith, parse_i64-IfSome s)

IfSome-any : {A : Type 0} (o : Option A) → IfSome (λ a. Unit {0}) o
IfSome-any none = tt
IfSome-any (some a) = tt

integer-Post :
    (depth o : ℕ) (s : Bytes) → depth ≤ max_depth → Post (Reads (Fits depth) s) (integer s o)
unfolding integer Fits
integer-Post depth o s deep =
    Post-or_fail _ _ (split_at b'e' s) truncated _ (λ e. cc e) (split_at-IfSome b'e' s)
      λ parts shorter.
        Post-or_fail IsI64 _ (canonical_i64 parts.0) (malformed_integer o) _ (λ e. cc e)
          (canonical_i64-IfSome parts.0) λ n fits. ((deep, fits), shorter)

byte_string-Post :
    (o : ℕ) (s : Bytes) → Post (Reads (λ b. length b ≤ usize_max) s) (byte_string (at s o))
unfolding byte_string
byte_string-Post o s =
    Post-or_fail _ _ (split_at b':' s) truncated _ (λ e. cc e) (split_at-IfSome b':' s)
      λ parts shorter.
        Post-or_fail (λ len. Unit {0}) _ (parse_unsigned usize_max parts.0) (malformed_length o) _
          (λ e. cc e) (IfSome-any (parse_unsigned usize_max parts.0))
          λ len _. ground (arith, length-take-le len parts.1, length-drop-le len parts.1)

Above-insert_entry :
    (j k : Bytes) (v : Value) (es : Entries)
    → lex_ltb j k ≡ true
    → Above j es
    → Above j (insert_entry k v es)
unfolding insert_entry
Above-insert_entry j k v end lt h = (lt, tt)
Above-insert_entry j k v (entry i w es) lt (hi, h) =
    ground (arith, Above-insert_entry j k v es lt h)

Above-trans : (j k : Bytes) (es : Entries) → lex_ltb j k ≡ true → Above k es → Above j es
Above-trans j k end lt h = tt
Above-trans j k (entry i w es) lt (hi, h) = (lex_ltb_trans j k i lt hi, Above-trans j k es lt h)

pub insert_entry-FitEntries :
    (depth : ℕ) (k : Bytes) (v : Value) (es : Entries)
    → length k ≤ usize_max
    → Fits depth v
    → FitEntries depth es
    → FitEntries depth (insert_entry k v es)
unfolding insert_entry Fits
insert_entry-FitEntries depth k v end hk hv h = (hk, hv, tt, tt)
insert_entry-FitEntries depth k v (entry j w es) hk hv (hj, hw, above, h) = ground (
  arith,
  list_eqb_iff k j,
  lex_ltb_total k j,
  Above-trans k j es,
  Above-insert_entry j k v es,
  insert_entry-FitEntries depth k v es hk hv h,
)

mutual
  unfolding value items entries Fits

  value-Post :
      (f depth o : ℕ) (s : Bytes)
      → 2 * length s + 1 ≤ f
      → Post (Reads (Fits depth) s) (value f depth (at s o))
  value-Post zero depth o s le = absurd (omega arith)
  value-Post (suc f) depth o [] le = ground arith
  value-Post (suc f) depth o (c ∷ s) le = elim (Bool-cases (ltb max_depth depth)) [
    | inl e ↦ rw e (λ h. cc h)
    | inr e ↦
        let deep : depth ≤ max_depth = ground arith in
        ground (
          arith,
          integer-Post depth o s deep,
          Post-bind (Reads (λ b. length b ≤ usize_max) (c ∷ s)) (Reads (Fits depth) (c ∷ s))
              (byte_string (at (c ∷ s) o)) (λ (b, q). ok (bytes b, q)) (byte_string-Post o (c ∷ s))
              (λ (b, q) (h, lt). ((deep, h), lt)),
          Post-bind (Reads (FitItems (depth + 1)) s) (Reads (Fits depth) (c ∷ s))
              (items f (depth + 1) (at s (o + 1))) (λ (xs, q). ok (list xs, q))
              (items-Post f (depth + 1) (o + 1) s (omega arith))
              (λ (xs, q) (h, lt). ((deep, h), omega arith)),
          Post-bind (Reads (FitEntries (depth + 1)) s) (Reads (Fits depth) (c ∷ s))
              (entries f (depth + 1) end (at s (o + 1))) (λ (es, q). ok (dict es, q))
              (entries-Post f (depth + 1) (o + 1) s end tt (omega arith))
              (λ (es, q) (h, lt). ((deep, h), omega arith)),
        )
  ]

  items-Post :
      (f depth o : ℕ) (s : Bytes)
      → 2 * length s + 2 ≤ f
      → Post (Reads (FitItems depth) s) (items f depth (at s o))
  items-Post zero depth o s le = absurd (omega arith)
  items-Post (suc f) depth o [] le = ground arith
  items-Post (suc f) depth o (c ∷ s) le = ground (
    arith,
    Post-bind (Reads (Fits depth) (c ∷ s)) (Reads (FitItems depth) (c ∷ s))
        (value f depth (at (c ∷ s) o))
        (λ (v, q). items f depth q >>= λ (xs, q'). ok (cons v xs, q'))
        (value-Post f depth o (c ∷ s) (omega arith))
        (λ (v, q) (hv, lt).
          Post-bind (Reads (FitItems depth) q.rest) (Reads (FitItems depth) (c ∷ s))
            (items f depth q) (λ (xs, q'). ok (cons v xs, q'))
            (items-Post f depth q.pos q.rest (omega arith))
            (λ (xs, q') (h, lt'). ((hv, h), omega arith))),
  )

  entries-Post :
      (f depth o : ℕ) (s : Bytes) (done : Entries)
      → FitEntries depth done
      → 2 * length s + 2 ≤ f
      → Post (Reads (FitEntries depth) s) (entries f depth done (at s o))
  entries-Post zero depth o s done h le = absurd (omega arith)
  entries-Post (suc f) depth o [] done h le = ground arith
  entries-Post (suc f) depth o (c ∷ s) done h le = ground (
    arith,
    Post-bind (Reads (λ b. length b ≤ usize_max) (c ∷ s)) (Reads (FitEntries depth) (c ∷ s))
        (byte_string (at (c ∷ s) o))
        (λ (k, q). value f depth q >>= λ (v, q'). entries f depth (insert_entry k v done) q')
        (byte_string-Post o (c ∷ s))
        (λ (k, q) (hk, lt).
          Post-bind (Reads (Fits depth) q.rest) (Reads (FitEntries depth) (c ∷ s)) (value f depth q)
            (λ (v, q'). entries f depth (insert_entry k v done) q')
            (value-Post f depth q.pos q.rest (omega arith))
            (λ (v, q') (hv, lt').
              Post-mono (Reads (FitEntries depth) q'.rest) (Reads (FitEntries depth) (c ∷ s))
                (entries f depth (insert_entry k v done) q')
                (entries-Post f depth q'.pos q'.rest (insert_entry k v done)
                  (insert_entry-FitEntries depth k v done hk hv h) (omega arith))
                (λ (es, p) (hes, less). (hes, omega arith)))),
  )

finish-Post : (v : Value) (rest : Bytes) → Fits 0 v → Post (Fits 0) (finish v rest)
unfolding finish
finish-Post v [] h = h
finish-Post v (c ∷ rest) h = λ e. cc e

-- Decoding ends on every input, with an error of the source or with a value within the decoder's
-- reach: integers and lengths of 64 bits, at most `max_depth` levels, keys in ascending order and
-- none twice. The fuel never runs out.
pub decode-Post : (input : Bytes) → Post (Fits 0) (decode input)
unfolding decode
decode-Post input =
    Post-bind (Reads (Fits 0) input) (Fits 0) (value (2 * length input + 1) 0 (at input 0))
      (λ (v, p). finish v p.rest) (value-Post (2 * length input + 1) 0 0 input (omega arith))
      (λ (v, p) (h, lt). finish-Post v p.rest h)
