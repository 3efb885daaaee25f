-- ===== src/Torrent/Metainfo.antt =====
-- `Torrent`, with `read_from_bytes`, `encode` and the accessors. sha1, sha256 and hex are parameters.
use sharerr_rs.Prelude.{
  Bytes, List, Option, Result, [], and_then, codes, err, if◌then◌else◌, list_eq, nat_eq, none, ok,
  or_err, some, ◌==◌, ◌∷◌,
}
use sharerr_rs.Bencode.Decode.{BencodeError, decode, value}
use sharerr_rs.Bencode.Encode.{Field, Fields, field_dict, field_value, write_fields}
use sharerr_rs.Bencode.Value.{
  Entries, Items, Value, as_str, bytes, cons, dict, end, entry, get_entry, int, lex_ltb, list, nil,
  remove_entry,
}
use sharerr_rs.Endpoint.AnnounceList.{tiers}
use sharerr_rs.Paths.Resolver.{component_eq}

pub record Torrent : Type 0 where
  pub announce : Option Bytes
  pub announce_list : Option (List (List Bytes))
  pub info : Entries
  pub extra : Entries

pub data MetainfoError : Type 0 where
  bencode : BencodeError → MetainfoError
  not_a_dictionary missing_info announce_not_a_string announce_list_malformed : MetainfoError

abbrev pub cons_option : {A : Type 0} → Option A → Option (List A) → Option (List A)
cons_option none rest = none
cons_option (some a) none = none
cons_option (some a) (some rest) = some (a ∷ rest)

-- The urls of one tier, which `as_str` must read.
unfoldable pub parse_tier : Items → Option (List Bytes)
unfolding as_str
parse_tier nil = some []
parse_tier (cons v xs) = cons_option (as_str v) (parse_tier xs)

unfoldable pub parse_tier_value : Value → Option (List Bytes)
unfolding parse_tier
parse_tier_value (list xs) = parse_tier xs
parse_tier_value (int n) = none
parse_tier_value (bytes b) = none
parse_tier_value (dict es) = none

unfoldable pub parse_tiers : Items → Option (List (List Bytes))
unfolding parse_tier_value
parse_tiers nil = some []
parse_tiers (cons v xs) = cons_option (parse_tier_value v) (parse_tiers xs)

-- `parse_announce_list`; `none` is `AnnounceListMalformed`.
unfoldable pub parse_announce_list : Value → Option (List (List Bytes))
unfolding parse_tiers
parse_announce_list (list xs) = parse_tiers xs
parse_announce_list (int n) = none
parse_announce_list (bytes b) = none
parse_announce_list (dict es) = none

abbrev pub dict_of : Option Value → Option Entries
dict_of (some (dict es)) = some es
dict_of (some (int n)) = none
dict_of (some (bytes b)) = none
dict_of (some (list xs)) = none
dict_of none = none

-- A field that may be missing, but not malformed.
abbrev pub optional {ℓ} :
    {A : Type ℓ}
    → Option Value
    → (Value → Option A)
    → MetainfoError
    → Result MetainfoError (Option A)
optional none read e = ok none
optional (some v) read e = or_err (read v) e (λ a. ok (some a))

abbrev pub key_info : Bytes
key_info = codes "info"

abbrev pub key_announce : Bytes
key_announce = codes "announce"

abbrev pub key_announce_list : Bytes
key_announce_list = codes "announce-list"

-- The fields of the top dictionary, each removed as it is read.
unfoldable pub read_top : Entries → Result MetainfoError Torrent
unfolding as_str parse_announce_list get_entry remove_entry
read_top top = or_err (dict_of (get_entry key_info top)) missing_info λ info.
    let top' = remove_entry key_info top in
    and_then (optional (get_entry key_announce top') as_str announce_not_a_string) λ announce.
      let top'' = remove_entry key_announce top' in
      and_then
        (optional (get_entry key_announce_list top'') parse_announce_list announce_list_malformed)
        λ announce_list. ok (record {
          announce = announce;
          announce_list = announce_list;
          info = info;
          extra = remove_entry key_announce_list top'';
        })

unfoldable pub read_value : Result BencodeError Value → Result MetainfoError Torrent
unfolding read_top
read_value (err e) = err (bencode e)
read_value (ok (dict top)) = read_top top
read_value (ok (int n)) = err not_a_dictionary
read_value (ok (bytes b)) = err not_a_dictionary
read_value (ok (list xs)) = err not_a_dictionary

unfoldable pub read_from_bytes : Bytes → Result MetainfoError Torrent
unfolding decode read_value
read_from_bytes input = read_value (decode input)

-- The values that `encode` makes of the announce fields.
unfoldable pub tier_items : List Bytes → Items
tier_items [] = nil
tier_items (url ∷ urls) = cons (bytes url) (tier_items urls)

unfoldable pub list_items : List (List Bytes) → Items
unfolding tier_items
list_items [] = nil
list_items (tier ∷ tiers) = cons (list (tier_items tier)) (list_items tiers)

-- `extra.iter().map(…).collect()`
unfoldable pub borrowed : Entries → Fields
borrowed end = []
borrowed (entry k v es) = (k, field_value v) ∷ borrowed es

-- `BTreeMap::insert`, of borrowed keys
unfoldable pub insert_field : Bytes → Field → Fields → Fields
unfolding lex_ltb
insert_field k f [] = (k, f) ∷ []
insert_field k f ((j, g) ∷ fields) =
    let rest = insert_field k f fields in
    if k == j
    then (k, f) ∷ fields
    else if lex_ltb k j
    then (k, f) ∷ (j, g) ∷ fields
    else (j, g) ∷ rest

unfoldable pub insert_some : {A : Type 0} → Bytes → (A → Value) → Option A → Fields → Fields
unfolding insert_field
insert_some key value none fields = fields
insert_some key value (some a) fields = insert_field key (field_value (value a)) fields

unfoldable pub encode_torrent : Torrent → Bytes
unfolding write_fields insert_field borrowed list_items insert_some
encode_torrent t =
    let announced = insert_some key_announce bytes t.announce (borrowed t.extra) in
    let listed =
      insert_some key_announce_list (λ tiers. list (list_items tiers)) t.announce_list announced in
    write_fields (insert_field key_info (field_dict t.info) listed)
