-- ===== src/Bencode/Maps.antt =====
-- The laws of insertion into a dictionary, and of removal.
use sharerr_rs.Prelude.{
  ==-refl, Bool-cases, Bytes, arith, false, if◌then◌else◌, inl, inr, list_eq, list_eqb_iff, nat_eq,
  none, refl, some, sym, true, ℕ, ◌==◌, ◌≡◌,
}
use sharerr_rs.Bencode.Order.{lex_ltb_asym, lex_ltb_total, lex_ltb_trans}
use sharerr_rs.Bencode.Value.{
  Above, Entries, FitEntries, Fits, Value, end, entry, get_entry, insert_entry, lex_ltb,
  remove_entry,
}
use sharerr_rs.Paths.Resolver.{component_eq}
use sharerr_rs.Prelude.Decimal.RoundTrip.{IfSome}

pub get_entry-insert_entry :
    (j k : Bytes) (v : Value) (es : Entries)
    → get_entry j (insert_entry k v es) ≡ (if j == k then some v else get_entry j es)
unfolding get_entry insert_entry
get_entry-insert_entry j k v end = refl
get_entry-insert_entry j k v (entry i w es) =
    ground
      (arith, list_eqb_iff j k, list_eqb_iff k i, list_eqb_iff j i, get_entry-insert_entry j k v es)

pub remove_entry-insert_entry :
    (k : Bytes) (v : Value) (es : Entries)
    → get_entry k es ≡ none
    → remove_entry k (insert_entry k v es) ≡ es
unfolding get_entry insert_entry remove_entry
remove_entry-insert_entry k v end h = ground (arith, ==-refl k)
remove_entry-insert_entry k v (entry j w es) h =
    ground (arith, ==-refl k, remove_entry-insert_entry k v es)

pub remove_entry-absent :
    (k : Bytes) (es : Entries) → get_entry k es ≡ none → remove_entry k es ≡ es
unfolding get_entry remove_entry
remove_entry-absent k end h = refl
remove_entry-absent k (entry j w es) h = ground (arith, remove_entry-absent k es)

-- Of two keys in order, a key between them is told apart from both.
insert_entry_exchange :
    (j k : Bytes) (v w : Value) (es : Entries)
    → lex_ltb j k ≡ true
    → insert_entry j v (insert_entry k w es) ≡ insert_entry k w (insert_entry j v es)
unfolding insert_entry
insert_entry_exchange j k v w end h = ground (arith, lex_ltb_asym j k h, list_eqb_iff j k)
insert_entry_exchange j k v w (entry i u es) h = ground (
  arith,
  lex_ltb_asym j k h,
  list_eqb_iff j k,
  list_eqb_iff j i,
  list_eqb_iff k i,
  list_eqb_iff i j,
  lex_ltb_trans j k i h,
  lex_ltb_asym j i,
  lex_ltb_total j i,
  insert_entry_exchange j k v w es h,
)

-- Insertions under two keys may be exchanged.
pub insert_entry_comm :
    (j k : Bytes) (v w : Value) (es : Entries)
    → (j == k) ≡ false
    → insert_entry j v (insert_entry k w es) ≡ insert_entry k w (insert_entry j v es)
insert_entry_comm j k v w es h = elim (Bool-cases (lex_ltb j k)) [
  | inl before ↦ insert_entry_exchange j k v w es before
  | inr after_it ↦ sym (insert_entry_exchange k j w v es (lex_ltb_total j k h after_it))
]

Above-absent : (k : Bytes) (es : Entries) → Above k es → get_entry k es ≡ none
unfolding get_entry
Above-absent k end h = refl
Above-absent k (entry j w es) (lt, h) =
    ground (arith, lex_ltb_asym k j lt, list_eqb_iff k j, list_eqb_iff j k, Above-absent k es h)

pub get_entry-remove_entry :
    (depth : ℕ) (k : Bytes) (es : Entries)
    → FitEntries depth es
    → get_entry k (remove_entry k es) ≡ none
unfolding get_entry remove_entry Fits
get_entry-remove_entry depth k end h = refl
get_entry-remove_entry depth k (entry j w es) (hk, hw, above, h) =
    ground (arith, list_eqb_iff k j, Above-absent j es above, get_entry-remove_entry depth k es h)

pub get_entry-remove_other :
    (j k : Bytes) (es : Entries) → get_entry j es ≡ none → get_entry j (remove_entry k es) ≡ none
unfolding get_entry remove_entry
get_entry-remove_other j k end h = refl
get_entry-remove_other j k (entry i w es) h = ground (arith, get_entry-remove_other j k es)

Above-remove_entry : (i k : Bytes) (es : Entries) → Above i es → Above i (remove_entry k es)
unfolding remove_entry
Above-remove_entry i k end h = tt
Above-remove_entry i k (entry j w es) (lt, h) = ground (arith, Above-remove_entry i k es h)

pub remove_entry-FitEntries :
    (depth : ℕ) (k : Bytes) (es : Entries)
    → FitEntries depth es
    → FitEntries depth (remove_entry k es)
unfolding remove_entry Fits
remove_entry-FitEntries depth k end h = tt
remove_entry-FitEntries depth k (entry j w es) (hk, hw, above, h) =
    ground (arith, Above-remove_entry j k es above, remove_entry-FitEntries depth k es h)

-- What a dictionary within the decoder's reach holds is within it too.
pub get_entry-Fits :
    (depth : ℕ) (k : Bytes) (es : Entries)
    → FitEntries depth es
    → IfSome (Fits depth) (get_entry k es)
unfolding get_entry Fits
get_entry-Fits depth k end h = tt
get_entry-Fits depth k (entry j w es) (hk, hw, above, h) = elim (Bool-cases (k == j)) [
  | inl same ↦ rw same hw
  | inr other ↦ rw other (get_entry-Fits depth k es h)
]
