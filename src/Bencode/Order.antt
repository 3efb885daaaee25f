-- ===== src/Bencode/Order.antt =====
-- The order of keys, and insertion behind the last key.
use sharerr_rs.Prelude.{Bytes, [], ap, arith, false, list_eq, nat_eq, refl, true, ◌==◌, ◌∷◌, ◌≡◌}
use sharerr_rs.Bencode.Value.{Above, Entries, Value, end, entry, insert_entry, lex_ltb}

pub lex_ltb_asym : (s t : Bytes) → lex_ltb s t ≡ true → ((t == s) ≡ false) × (lex_ltb t s ≡ false)
unfolding lex_ltb
lex_ltb_asym [] [] h = cc h
lex_ltb_asym [] (c ∷ t) h = (refl, refl)
lex_ltb_asym (b ∷ s) [] h = cc h
lex_ltb_asym (b ∷ s) (c ∷ t) h = ground (arith, lex_ltb_asym s t)

pub lex_ltb_trans : (s t u : Bytes) → lex_ltb s t ≡ true → lex_ltb t u ≡ true → lex_ltb s u ≡ true
unfolding lex_ltb
lex_ltb_trans [] [] u h k = k
lex_ltb_trans [] (c ∷ t) [] h k = k
lex_ltb_trans [] (c ∷ t) (d ∷ u) h k = refl
lex_ltb_trans (b ∷ s) [] u h k = cc h
lex_ltb_trans (b ∷ s) (c ∷ t) [] h k = cc k
lex_ltb_trans (b ∷ s) (c ∷ t) (d ∷ u) h k = ground (arith, lex_ltb_trans s t u)

pub lex_ltb_total : (s t : Bytes) → (s == t) ≡ false → lex_ltb s t ≡ false → lex_ltb t s ≡ true
unfolding lex_ltb
lex_ltb_total [] [] h k = cc h
lex_ltb_total [] (c ∷ t) h k = cc k
lex_ltb_total (b ∷ s) [] h k = refl
lex_ltb_total (b ∷ s) (c ∷ t) h k = ground (arith, lex_ltb_total s t)

unfoldable pub append_entries : Entries → Entries → Entries
append_entries end es = es
append_entries (entry k v ds) es = entry k v (append_entries ds es)

pub append_entries_assoc :
    (a b c : Entries)
    → append_entries (append_entries a b) c ≡ append_entries a (append_entries b c)
unfolding append_entries
append_entries_assoc end b c = refl
append_entries_assoc (entry k v a) b c = ap (entry k v) (append_entries_assoc a b c)

pub append_entries-end : (es : Entries) → append_entries es end ≡ es
unfolding append_entries
append_entries-end end = refl
append_entries-end (entry k v es) = ap (entry k v) (append_entries-end es)

-- Every key of `done` comes before `k`, or before every key of `es`.
abbrev pub Below : Entries → Bytes → Type 0
Below end k = Unit
Below (entry j w done) k = (lex_ltb j k ≡ true) × Below done k

abbrev pub Precede : Entries → Entries → Type 0
Precede done end = Unit
Precede done (entry k v es) = Below done k × Precede done es

pub insert_entry-append_entries :
    (k : Bytes) (v : Value) (done : Entries)
    → Below done k
    → insert_entry k v done ≡ append_entries done (entry k v end)
unfolding insert_entry append_entries
insert_entry-append_entries k v end h = refl
insert_entry-append_entries k v (entry j w done) (lt, h) =
    ground (arith, lex_ltb_asym j k lt, insert_entry-append_entries k v done h)

Below-append_entries :
    (done : Entries) (k j : Bytes) (v : Value)
    → Below done j
    → lex_ltb k j ≡ true
    → Below (append_entries done (entry k v end)) j
unfolding append_entries
Below-append_entries end k j v h lt = (lt, tt)
Below-append_entries (entry i w done) k j v (hi, h) lt = (hi, Below-append_entries done k j v h lt)

pub Precede-append_entries :
    (done : Entries) (k : Bytes) (v : Value) (es : Entries)
    → Precede done es
    → Above k es
    → Precede (append_entries done (entry k v end)) es
Precede-append_entries done k v end h a = tt
Precede-append_entries done k v (entry j w es) (hj, h) (lt, a) =
    (Below-append_entries done k j v hj lt, Precede-append_entries done k v es h a)

pub Precede-end : (es : Entries) → Precede end es
Precede-end end = tt
Precede-end (entry k v es) = (tt, Precede-end es)
