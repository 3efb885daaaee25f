-- ===== src/Torrent/Announced.antt =====
-- The top dictionary that a torrent is written as.
use mathlib.Core.Option
use sharerr_rs.Prelude.{
  ==-refl, Bytes, List, Option, Option-cases, [], ap, arith, false, inl, inr, list_eq, nat_eq, none,
  refl, some, ◌++◌, ◌==◌, ◌∙◌, ◌∷◌, ◌≡◌,
}
use sharerr_rs.Bencode.Decode.{value}
use sharerr_rs.Bencode.Encode.{
  Field, Fields, encode, field_dict, field_value, write, write_bytes, write_dict, write_each,
  write_entries, write_field, write_fields,
}
use sharerr_rs.Bencode.Maps.{
  get_entry-insert_entry, insert_entry_comm, remove_entry-absent, remove_entry-insert_entry,
}
use sharerr_rs.Bencode.Value.{
  Entries, Value, bytes, dict, end, entry, get_entry, insert_entry, list, remove_entry,
}
use sharerr_rs.Endpoint.AnnounceList.{tiers}
use sharerr_rs.Paths.Resolver.{component_eq}
use sharerr_rs.Torrent.Metainfo.{
  Torrent, borrowed, encode_torrent, insert_field, insert_some, key_announce, key_announce_list,
  key_info, list_items,
}

unfoldable pub insert_opt : {A : Type 0} → Bytes → (A → Value) → Option A → Entries → Entries
insert_opt key value none es = es
insert_opt key value (some a) es = insert_entry key (value a) es

abbrev pub tiers_value : List (List Bytes) → Value
tiers_value tiers = list (list_items tiers)

unfoldable pub top_of : Torrent → Entries
unfolding insert_opt
top_of t = insert_entry key_info (dict t.info) (
    insert_opt key_announce_list tiers_value t.announce_list
      (insert_opt key_announce bytes t.announce t.extra))

abbrev value_of : Field → Value
value_of (field_value v) = v
value_of (field_dict es) = dict es

abbrev values : Fields → Entries
values [] = end
values ((k, f) ∷ fields) = entry k (value_of f) (values fields)

write_field-value_of : (f : Field) → write_field f ≡ write (value_of f)
unfolding write_field write_dict write
write_field-value_of (field_value v) = refl
write_field-value_of (field_dict es) = refl

write_each-values : (fields : Fields) → write_each fields ≡ write_entries (values fields)
unfolding write_each write
write_each-values [] = refl
write_each-values ((k, f) ∷ fields) =
    ap (λ t. write_bytes k ++ (t ++ write_each fields)) (write_field-value_of f)
    ∙ ap (λ t. write_bytes k ++ (write (value_of f) ++ t)) (write_each-values fields)

values-borrowed : (es : Entries) → values (borrowed es) ≡ es
unfolding borrowed
values-borrowed end = refl
values-borrowed (entry k v es) = ap (entry k v) (values-borrowed es)

values-insert_field :
    (k : Bytes) (f : Field) (fields : Fields)
    → values (insert_field k f fields) ≡ insert_entry k (value_of f) (values fields)
unfolding insert_field insert_entry
values-insert_field k f [] = refl
values-insert_field k f ((j, g) ∷ fields) = ground (arith, values-insert_field k f fields)

values-insert_some :
    {A : Type 0} (k : Bytes) (value : A → Value) (o : Option A) (fields : Fields)
    → values (insert_some k value o fields) ≡ insert_opt k value o (values fields)
unfolding insert_some insert_opt
values-insert_some k value none fields = refl
values-insert_some k value (some a) fields = values-insert_field k (field_value (value a)) fields

-- Writing from borrowed parts is writing the dictionary of them.
pub encode_torrent-encode : (t : Torrent) → encode_torrent t ≡ encode (dict (top_of t))
unfolding encode_torrent write_fields encode top_of
encode_torrent-encode t =
    let announced = insert_some key_announce bytes t.announce (borrowed t.extra) in
    let listed = insert_some key_announce_list tiers_value t.announce_list announced in
    ap (λ es. b'd' ∷ es ++ b'e' ∷ [])
      (write_each-values (insert_field key_info (field_dict t.info) listed))
    ∙ ap (λ es. b'd' ∷ write_entries es ++ b'e' ∷ [])
        (values-insert_field key_info (field_dict t.info) listed
          ∙ ap (insert_entry key_info (dict t.info)) (
              values-insert_some key_announce_list tiers_value t.announce_list announced
              ∙ ap (insert_opt key_announce_list tiers_value t.announce_list) (
                  values-insert_some key_announce bytes t.announce (borrowed t.extra)
                  ∙ ap (insert_opt key_announce bytes t.announce) (values-borrowed t.extra))))

module _ {A : Type 0} (k : Bytes) (value : A → Value) (o : Option A) where
  pub get_entry-insert_opt_other :
      (j : Bytes) (es : Entries)
      → (j == k) ≡ false
      → get_entry j (insert_opt k value o es) ≡ get_entry j es
  unfolding insert_opt
  get_entry-insert_opt_other j es h = elim (Option-cases o) [
    | inl e ↦ rw e refl
    | inr (a, e) ↦ rw e (get_entry-insert_entry j k (value a) es ∙ rw h refl)
  ]

  pub get_entry-insert_opt :
      (es : Entries)
      → get_entry k es ≡ none
      → get_entry k (insert_opt k value o es) ≡ Option.map value o
  unfolding insert_opt
  get_entry-insert_opt es h = elim (Option-cases o) [
    | inl e ↦ rw e h
    | inr (a, e) ↦ rw e (get_entry-insert_entry k k (value a) es ∙ rw (==-refl k) refl)
  ]

  pub remove_entry-insert_opt :
      (es : Entries) → get_entry k es ≡ none → remove_entry k (insert_opt k value o es) ≡ es
  unfolding insert_opt
  remove_entry-insert_opt es h = elim (Option-cases o) [
    | inl e ↦ rw e (remove_entry-absent k es h)
    | inr (a, e) ↦ rw e (remove_entry-insert_entry k (value a) es h)
  ]

  pub insert_opt_comm :
      {B : Type 0} (j : Bytes) (value' : B → Value) (o' : Option B) (es : Entries)
      → (j == k) ≡ false
      → insert_opt j value' o' (insert_opt k value o es)
        ≡ insert_opt k value o (insert_opt j value' o' es)
  unfolding insert_opt
  insert_opt_comm j value' o' es h = elim (Option-cases o) [
    | inl e ↦ rw e refl
    | inr (a, e) ↦ elim (Option-cases o') [
      | inl e' ↦ rw (e, e') refl
      | inr (b, e') ↦ rw (e, e') (insert_entry_comm j k (value' b) (value a) es h)
    ]
  ]
