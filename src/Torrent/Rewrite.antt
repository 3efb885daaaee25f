-- ===== src/Torrent/Rewrite.antt =====
-- `rewrite_announce` and `retarget_announce` of crates/sharerr-torrent/src/factory.rs, on a stored
-- torrent. The error of both is that of the reading.
use sharerr_rs.Prelude.{
  Bool, Bytes, Option, PartialEq, Result, and_then, ap, arith, err, false, if◌then◌else◌, list_eq,
  nat_eq, none, ok, or_err, refl, some, subst, sym, ◌==◌, ◌∙◌, ◌≡◌,
}
use sharerr_rs.Bencode.Decode.{BencodeError, decode}
use sharerr_rs.Bencode.Maps.{
  get_entry-Fits, get_entry-remove_entry, get_entry-remove_other, remove_entry-FitEntries,
}
use sharerr_rs.Bencode.Total.{Post, decode-Post}
use sharerr_rs.Bencode.Value.{
  Entries, FitEntries, Fits, Value, as_str, bytes, dict, get_entry, int, list, remove_entry,
}
use sharerr_rs.Endpoint.AnnounceList.{AnnounceSet, tier_list}
use sharerr_rs.Paths.Resolver.{component_eq}
use sharerr_rs.Prelude.Decimal.RoundTrip.{IfSome}
use sharerr_rs.Torrent.Metainfo.{
  MetainfoError, Torrent, announce_list_malformed, announce_not_a_string, dict_of, encode_torrent,
  key_announce, key_announce_list, key_info, missing_info, optional, parse_announce_list,
  read_from_bytes, read_top, read_value,
}

pub data Retargeted : Type 0 where
  unchanged : Torrent → Retargeted
  updated_to : Option Bytes → Torrent → Bytes → Retargeted

module _ {Url : Type 0} ⦃e : PartialEq Url⦄ (as_str : Url → Bytes)
    (parse_url : Bytes → Option Url) where
  unfoldable pub with_announce : AnnounceSet Url → Torrent → Torrent
  unfolding tier_list
  with_announce set t = record t {
    announce = some (as_str set.primary);
    announce_list = tier_list as_str parse_url set;
  }

  unfoldable pub rewrite_announce : Bytes → AnnounceSet Url → Result MetainfoError Bytes
  unfolding read_from_bytes encode_torrent with_announce
  rewrite_announce input set =
      and_then (read_from_bytes input) λ t. ok (encode_torrent (with_announce set t))

  abbrev pub announces_at : Bytes → Option Bytes → Bool
  announces_at url none = false
  announces_at url (some announce) = announce == url

  unfoldable pub retarget_announce : Bytes → AnnounceSet Url → Result MetainfoError Retargeted
  unfolding read_from_bytes encode_torrent with_announce
  retarget_announce input set = and_then (read_from_bytes input) λ t.
      if announces_at (as_str set.primary) t.announce
      then ok (unchanged t)
      else ok (updated_to t.announce (with_announce set t) (encode_torrent (with_announce set t)))

-- What reading takes of the top dictionary.
abbrev IsPartOf : Entries → Torrent → Type 0
IsPartOf top t =
    (get_entry key_info top ≡ some (dict t.info))
    × (t.extra
        ≡ remove_entry key_announce_list (remove_entry key_announce (remove_entry key_info top)))

info_or : Entries → Result MetainfoError Torrent → Entries
info_or d (ok t) = t.info
info_or d (err e) = d

extra_or : Entries → Result MetainfoError Torrent → Entries
extra_or d (ok t) = t.extra
extra_or d (err e) = d

dict_of-some : (o : Option Value) (es : Entries) → dict_of o ≡ some es → o ≡ some (dict es)
dict_of-some none es h = ground arith
dict_of-some (some (int n)) es h = ground arith
dict_of-some (some (bytes b)) es h = ground arith
dict_of-some (some (list xs)) es h = ground arith
dict_of-some (some (dict ds)) es h = ground arith

-- Whatever the announce fields are read as.
and_then_parts :
    {A B : Type 0} (a : Result MetainfoError A) (b : Result MetainfoError B)
    (made : A → B → Torrent) (info extra : Entries) (t : Torrent)
    → ((x : A) (y : B) → ((made x y).info ≡ info) × ((made x y).extra ≡ extra))
    → and_then a (λ x. and_then b (λ y. ok (made x y))) ≡ ok t
    → (t.info ≡ info) × (t.extra ≡ extra)
unfolding info_or extra_or
and_then_parts (err e) b made info extra t f h = ground arith
and_then_parts (ok x) (err e) made info extra t f h = ground arith
and_then_parts (ok x) (ok y) made info extra t f h =
    (ap (info_or info) (sym h) ∙ (f x y).0, ap (extra_or extra) (sym h) ∙ (f x y).1)

or_err_parts :
    (o : Option Entries) (e : MetainfoError) (f : Entries → Result MetainfoError Torrent)
    (t : Torrent)
    → or_err o e f ≡ ok t
    → (info : Entries) × (o ≡ some info) × (f info ≡ ok t)
or_err_parts none e f t h = ground arith
or_err_parts (some info) e f t h = (info, refl, h)

read_top-IsPartOf : (top : Entries) (t : Torrent) → read_top top ≡ ok t → IsPartOf top t
unfolding read_top
read_top-IsPartOf top t h =
    let top' = remove_entry key_info top in
    let top'' = remove_entry key_announce top' in
    let (info, found, rest) = or_err_parts (dict_of (get_entry key_info top)) missing_info _ t h in
    let (same_info, same_extra) =
      and_then_parts (optional (get_entry key_announce top') as_str announce_not_a_string)
        (optional (get_entry key_announce_list top'') parse_announce_list announce_list_malformed)
        (λ x y. record {
          announce = x;
          announce_list = y;
          info = info;
          extra = remove_entry key_announce_list top'';
        })
        info (remove_entry key_announce_list top'') t (λ x y. (refl, refl)) rest in
    (
      dict_of-some (get_entry key_info top) info found ∙ ap (λ i. some (dict i)) (sym same_info),
      same_extra,
    )

-- A torrent that was read can be written: its dictionaries are within the decoder's reach, and the
-- three keys are gone from the rest.
pub record WasRead (t : Torrent) : Type 0 where
  pub info_fits : Fits 1 (dict t.info)
  pub extra_fits : FitEntries 1 t.extra
  pub no_info : get_entry key_info t.extra ≡ none
  pub no_announce : get_entry key_announce t.extra ≡ none
  pub no_list : get_entry key_announce_list t.extra ≡ none

IsPartOf-WasRead : (top : Entries) (t : Torrent) → FitEntries 1 top → IsPartOf top t → WasRead t
IsPartOf-WasRead top t fits (info, extra) =
    let top' = remove_entry key_info top in
    let top'' = remove_entry key_announce top' in
    let fits' = remove_entry-FitEntries 1 key_info top fits in
    let fits'' = remove_entry-FitEntries 1 key_announce top' fits' in
    record {
      info_fits = subst (IfSome (Fits 1)) info (get_entry-Fits 1 key_info top fits);
      extra_fits =
          subst (FitEntries 1) (sym extra)
            (remove_entry-FitEntries 1 key_announce_list top'' fits'');
      no_info =
          ap (get_entry key_info) extra
          ∙ get_entry-remove_other key_info key_announce_list top'' (
              get_entry-remove_other key_info key_announce top'
                (get_entry-remove_entry 1 key_info top fits));
      no_announce =
          ap (get_entry key_announce) extra
          ∙ get_entry-remove_other key_announce key_announce_list top''
              (get_entry-remove_entry 1 key_announce top' fits');
      no_list =
          ap (get_entry key_announce_list) extra
          ∙ get_entry-remove_entry 1 key_announce_list top'' fits'';
    }

read_value-WasRead :
    (decoded : Result BencodeError Value) (t : Torrent)
    → Post (Fits 0) decoded
    → read_value decoded ≡ ok t
    → WasRead t
unfolding read_value Fits
read_value-WasRead (err e) t p h = ground arith
read_value-WasRead (ok (int n)) t p h = ground arith
read_value-WasRead (ok (bytes b)) t p h = ground arith
read_value-WasRead (ok (list xs)) t p h = ground arith
read_value-WasRead (ok (dict top)) t (d, p) h = IsPartOf-WasRead top t p (read_top-IsPartOf top t h)

pub read_from_bytes-WasRead :
    (input : Bytes) (t : Torrent) → read_from_bytes input ≡ ok t → WasRead t
unfolding read_from_bytes
read_from_bytes-WasRead input t h = read_value-WasRead (decode input) t (decode-Post input) h
