-- ===== src/Announce/QueryRead.antt =====
-- What a query says, read off its pairs.
use sharerr_rs.Prelude.{
  All, Bool-cases, Bytes, List, Option, [], ap, arith, false, foldl, if◌then◌else◌, inl, inr,
  list_eq, map, nat_eq, none, refl, some, ℕ, ◌&&◌, ◌==◌, ◌++◌, ◌∙◌, ◌∷◌, ◌≡◌,
}
use sharerr_rs.Announce.Query.{
  Params, decoded, has_plus, insert_pair, key_and_value, parse_query, split_on,
}
use sharerr_rs.Bencode.Decode.{split_at}
use sharerr_rs.Bencode.Pieces.{split_at-append}
use sharerr_rs.Prelude.HashMap.{get, get-insert, insert}
use sharerr_rs.Prelude.Utf8.{is_utf8}

-- A pair is a key, and a value if there is a `=` behind it.
abbrev pub Pair : Type 0
Pair = Bytes × Option Bytes

abbrev pub pair_text : Pair → Bytes
pair_text (k, none) = k
pair_text (k, some v) = k ++ b'=' ∷ v

abbrev pub query_text : List Pair → Bytes
query_text [] = []
query_text (p ∷ []) = pair_text p
query_text (p ∷ q ∷ ps) = pair_text p ++ b'&' ∷ query_text (q ∷ ps)

-- A text without a byte.
abbrev pub Lacks : ℕ → Bytes → Type 0
Lacks b s = All (λ c. (c == b) ≡ false) s

-- Without the bytes that would end it.
abbrev pub IsPair : Pair → Type 0
IsPair (k, none) = Lacks b'=' k × Lacks b'&' k
IsPair (k, some v) = Lacks b'=' k × Lacks b'&' k × Lacks b'&' v

abbrev pub spaced : Bytes → Bytes
spaced [] = []
spaced (c ∷ s) = (if c == b'+' then b' ' else c) ∷ spaced s

map-spaced : (s : Bytes) → map (λ c. if c == b'+' then b' ' else c) s ≡ spaced s
map-spaced [] = refl
map-spaced (c ∷ s) = ap (λ r. (if c == b'+' then b' ' else c) ∷ r) (map-spaced s)

spaced_same : (s : Bytes) → has_plus s ≡ false → spaced s ≡ s
spaced_same [] h = refl
spaced_same (c ∷ s) h = ground (arith, spaced_same s)

split_on_whole : (b : ℕ) (s : Bytes) → Lacks b s → split_on b s ≡ s ∷ []
unfolding split_on
split_on_whole b [] h = refl
split_on_whole b (c ∷ s) (hc, h) = rw (hc, split_on_whole b s h) refl

split_on-append :
    (b : ℕ) (s rest : Bytes) → Lacks b s → split_on b (s ++ b ∷ rest) ≡ s ∷ split_on b rest
unfolding split_on
split_on-append b [] rest h = ground arith
split_on-append b (c ∷ s) rest (hc, h) = rw (hc, split_on-append b s rest h) refl

Lacks-append :
    (b : ℕ) (s : Bytes) (c : ℕ) (t : Bytes)
    → Lacks b s
    → (c == b) ≡ false
    → Lacks b t
    → Lacks b (s ++ c ∷ t)
Lacks-append b [] c t hs hc ht = (hc, ht)
Lacks-append b (d ∷ s) c t (hd, hs) hc ht = (hd, Lacks-append b s c t hs hc ht)

pair_text-Lacks : (p : Pair) → IsPair p → Lacks b'&' (pair_text p)
pair_text-Lacks (k, none) (no_equals, no_and) = no_and
pair_text-Lacks (k, some v) (no_equals, no_and, none_in) =
    Lacks-append b'&' k b'=' v no_and refl none_in

split_on-query_text :
    (p : Pair) (ps : List Pair)
    → All IsPair (p ∷ ps)
    → split_on b'&' (query_text (p ∷ ps)) ≡ map pair_text (p ∷ ps)
split_on-query_text p [] (h, hs) = split_on_whole b'&' (pair_text p) (pair_text-Lacks p h)
split_on-query_text p (q ∷ ps) (h, hs) =
    split_on-append b'&' (pair_text p) (query_text (q ∷ ps)) (pair_text-Lacks p h)
    ∙ ap (λ r. pair_text p ∷ r) (split_on-query_text q ps hs)

split_at_whole : (b : ℕ) (s : Bytes) → Lacks b s → split_at b s ≡ none
unfolding split_at
split_at_whole b [] h = refl
split_at_whole b (c ∷ s) (hc, h) = rw (hc, split_at_whole b s h) refl

module _ (percent_decode : Bytes → Bytes) where
  -- The value that a pair of the query gives a key.
  abbrev value_in : Bytes → Option Bytes → Bytes × Bytes → Option Bytes
  value_in key found (k, raw) =
      if is_utf8 k && key == k then some (decoded percent_decode raw) else found

  -- Of the pairs of a query, in order, the last value for a key.
  unfoldable last_value : Bytes → Option Bytes → List Bytes → Option Bytes
  unfolding split_at
  last_value key found [] = found
  last_value key found ([] ∷ pairs) = last_value key found pairs
  last_value key found ((c ∷ s) ∷ pairs) =
      last_value key (value_in key found (key_and_value (c ∷ s) (split_at b'=' (c ∷ s)))) pairs

  inserted : Params → Bytes × Bytes → Params
  inserted params (k, raw) =
      if is_utf8 k then insert k (decoded percent_decode raw) params else params

  get-inserted :
      (params : Params) (key : Bytes) (pair : Bytes × Bytes)
      → get key (inserted params pair) ≡ value_in key (get key params) pair
  unfolding inserted
  get-inserted params key (k, raw) =
      ground (arith, get-insert key k (decoded percent_decode raw) params)

  get-insert_all :
      (params : Params) (pairs : List Bytes) (key : Bytes)
      → get key (foldl (insert_pair percent_decode) params pairs)
        ≡ last_value key (get key params) pairs
  unfolding last_value insert_pair inserted
  get-insert_all params [] key = refl
  get-insert_all params ([] ∷ pairs) key = get-insert_all params pairs key
  get-insert_all params ((c ∷ s) ∷ pairs) key =
      let pair = key_and_value (c ∷ s) (split_at b'=' (c ∷ s)) in
      get-insert_all (inserted params pair) pairs key
      ∙ ap (λ found. last_value key found pairs) (get-inserted params key pair)

  decoded-spaced : (raw : Bytes) → decoded percent_decode raw ≡ percent_decode (spaced raw)
  unfolding decoded
  decoded-spaced raw = elim (Bool-cases (has_plus raw)) [
    | inl some_plus ↦ rw (some_plus, map-spaced raw) refl
    | inr no_plus ↦ rw (no_plus, spaced_same raw no_plus) refl
  ]

  -- What a pair says of a key: nothing if it is empty, its key is no UTF-8 or another one.
  abbrev pub given : Bytes → Option Bytes → Pair → Option Bytes
  given key found ([], none) = found
  given key found (c ∷ k, none) =
      if is_utf8 (c ∷ k) && key == c ∷ k then some (percent_decode []) else found
  given key found (k, some v) =
      if is_utf8 k && key == k then some (percent_decode (spaced v)) else found

  abbrev pub last_given : Bytes → Option Bytes → List Pair → Option Bytes
  last_given key found [] = found
  last_given key found (p ∷ ps) = last_given key (given key found p) ps

  last_value-pair_text :
      (key : Bytes) (found : Option Bytes) (p : Pair) (rest : List Bytes)
      → IsPair p
      → last_value key found (pair_text p ∷ rest) ≡ last_value key (given key found p) rest
  unfolding last_value
  last_value-pair_text key found ([], none) rest h = refl
  last_value-pair_text key found (c ∷ k, none) rest (no_equals, no_and) =
      rw (split_at_whole b'=' (c ∷ k) no_equals, decoded-spaced []) refl
  last_value-pair_text key found ([], some v) rest h =
      ap (λ parts. last_value key (value_in key found (key_and_value (b'=' ∷ v) parts)) rest)
        (split_at-append b'=' [] v tt)
      ∙ rw (decoded-spaced v) refl
  last_value-pair_text key found (c ∷ k, some v) rest (no_equals, no_and, none_in) =
      rw (split_at-append b'=' (c ∷ k) v no_equals, decoded-spaced v) refl

  last_value-map :
      (key : Bytes) (found : Option Bytes) (ps : List Pair)
      → All IsPair ps
      → last_value key found (map pair_text ps) ≡ last_given key found ps
  unfolding last_value
  last_value-map key found [] h = refl
  last_value-map key found (p ∷ ps) (h, hs) =
      last_value-pair_text key found p (map pair_text ps) h
      ∙ last_value-map key (given key found p) ps hs

  -- Of a query written as pairs of a key and, behind a `=`, a value, with a `&` between them, a
  -- parameter is what the last pair with its key says: the value with its pluses as spaces, percent
  -- decoded, and without a `=` the decoded empty text. A key that is no UTF-8, and an empty pair, say
  -- nothing. Assumed: no
  -- key holds a `=` or a `&`, and no value a `&`.
  pub get-parse_query :
      (key : Bytes) (pairs : List Pair)
      → All IsPair pairs
      → get key (parse_query percent_decode (query_text pairs)) ≡ last_given key none pairs
  unfolding parse_query get last_value split_on
  get-parse_query key [] h = refl
  get-parse_query key (p ∷ ps) h =
      get-insert_all [] (split_on b'&' (query_text (p ∷ ps))) key
      ∙ ap (last_value key none) (split_on-query_text p ps h)
      ∙ last_value-map key none (p ∷ ps) h
