-- ===== src/Torrent/Reread.antt =====
-- A torrent that is written is read back.
use mathlib.Core.Option
use sharerr_rs.Prelude.{
  All, Bytes, List, Option, Result, [], and_then, ap, length, list_eq, nat_eq, none, ok, or_err,
  refl, some, subst, true, ◌∙◌, ◌∷◌, ◌≡◌, ◌≤◌,
}
use sharerr_rs.Bencode.Decode.{decode, value}
use sharerr_rs.Bencode.Maps.{get_entry-insert_entry, remove_entry-insert_entry}
use sharerr_rs.Bencode.RoundTrip.{decode-encode}
use sharerr_rs.Bencode.Value.{
  Entries, Fits, Value, as_bytes, as_str, bytes, dict, get_entry, remove_entry, usize_max,
}
use sharerr_rs.Endpoint.AnnounceList.{tiers}
use sharerr_rs.Paths.Resolver.{component_eq}
use sharerr_rs.Prelude.Utf8.{is_utf8}
use sharerr_rs.Torrent.Announced.{
  encode_torrent-encode, get_entry-insert_opt, get_entry-insert_opt_other, insert_opt,
  insert_opt_comm, remove_entry-insert_opt, tiers_value, top_of,
}
use sharerr_rs.Torrent.Metainfo.{
  MetainfoError, Torrent, announce_list_malformed, announce_not_a_string, cons_option, dict_of,
  encode_torrent, key_announce, key_announce_list, key_info, list_items, missing_info, optional,
  parse_announce_list, parse_tier, parse_tier_value, parse_tiers, read_from_bytes, read_top,
  read_value, tier_items,
}

abbrev pub IsText : Bytes → Type 0
IsText s = is_utf8 s ≡ true

as_str-bytes : (s : Bytes) → IsText s → as_str (bytes s) ≡ some s
unfolding as_str as_bytes
as_str-bytes s h = rw h refl

parse_tier-tier_items :
    (urls : List Bytes) → All IsText urls → parse_tier (tier_items urls) ≡ some urls
unfolding parse_tier tier_items
parse_tier-tier_items [] h = refl
parse_tier-tier_items (url ∷ urls) (text, h) =
    ap (λ o. cons_option o (parse_tier (tier_items urls))) (as_str-bytes url text)
    ∙ ap (cons_option (some url)) (parse_tier-tier_items urls h)

parse_tiers-list_items :
    (tiers : List (List Bytes))
    → All (All IsText) tiers
    → parse_tiers (list_items tiers) ≡ some tiers
unfolding parse_tiers list_items parse_tier_value
parse_tiers-list_items [] h = refl
parse_tiers-list_items (tier ∷ tiers) (text, h) =
    ap (λ o. cons_option o (parse_tiers (list_items tiers))) (parse_tier-tier_items tier text)
    ∙ ap (cons_option (some tier)) (parse_tiers-list_items tiers h)

-- What holds of the announce fields, which are strings, and of the fields beside them.
abbrev pub AllSome : {A : Type 0} → (A → Type 0) → Option A → Type 0
AllSome P none = Unit
AllSome P (some a) = P a

pub record IsTorrent (t : Torrent) : Type 0 where
  pub announce_text : AllSome IsText t.announce
  pub tiers_text : AllSome (All (All IsText)) t.announce_list
  pub no_info : get_entry key_info t.extra ≡ none
  pub no_announce : get_entry key_announce t.extra ≡ none
  pub no_list : get_entry key_announce_list t.extra ≡ none

optional_lem :
    {A : Type 0} (value : A → Value) (read : Value → Option A) (P : A → Type 0) (e : MetainfoError)
    (o : Option A)
    → ((a : A) → P a → read (value a) ≡ some a)
    → AllSome P o
    → optional (Option.map value o) read e ≡ ok o
optional_lem value read P e none f h = refl
optional_lem value read P e (some a) f h = ap (λ r. or_err r e (λ b. ok (some b))) (f a h)

parse_announce_list-tiers_value :
    (tiers : List (List Bytes))
    → All (All IsText) tiers
    → parse_announce_list (tiers_value tiers) ≡ some tiers
unfolding parse_announce_list
parse_announce_list-tiers_value tiers h = parse_tiers-list_items tiers h

-- The same steps, with what each lookup and removal gives.
unfoldable pub read_steps :
    Option Value → Option Value → Option Value → Entries → Result MetainfoError Torrent
read_steps i a l rest = or_err (dict_of i) missing_info λ info.
    and_then (optional a as_str announce_not_a_string) λ announce.
      and_then (optional l parse_announce_list announce_list_malformed) λ announce_list.
        ok
          (record { announce = announce; announce_list = announce_list; info = info; extra = rest })

module _ (t : Torrent) (w : IsTorrent t) where
  beside : Entries
  beside = insert_opt key_announce_list tiers_value t.announce_list t.extra

  listed : Entries
  listed =
      insert_opt key_announce_list tiers_value t.announce_list
        (insert_opt key_announce bytes t.announce t.extra)

  listed_exchanged : listed ≡ insert_opt key_announce bytes t.announce beside
  unfolding listed beside
  listed_exchanged =
      insert_opt_comm key_announce bytes t.announce key_announce_list tiers_value t.announce_list
        t.extra refl

  info-listed : get_entry key_info listed ≡ none
  unfolding listed
  info-listed =
      get_entry-insert_opt_other key_announce_list tiers_value t.announce_list key_info _ refl
      ∙ (get_entry-insert_opt_other key_announce bytes t.announce key_info t.extra refl ∙ w.no_info)

  announce-beside : get_entry key_announce beside ≡ none
  unfolding beside
  announce-beside =
      get_entry-insert_opt_other key_announce_list tiers_value t.announce_list key_announce t.extra
        refl
      ∙ w.no_announce

  read_steps-ok :
      read_steps
        (some (dict t.info))
        (Option.map bytes t.announce)
        (Option.map tiers_value t.announce_list)
        t.extra
      ≡ ok t
  unfolding read_steps
  read_steps-ok =
      ap
        (λ r. and_then r λ announce.
          and_then
            (optional (Option.map tiers_value t.announce_list) parse_announce_list
              announce_list_malformed)
            λ announce_list. ok (record t { announce = announce; announce_list = announce_list }))
        (optional_lem bytes as_str IsText announce_not_a_string t.announce as_str-bytes
          w.announce_text)
      ∙ ap (λ r. and_then r λ announce_list. ok (record t { announce_list = announce_list }))
          (optional_lem tiers_value parse_announce_list (All (All IsText)) announce_list_malformed
            t.announce_list parse_announce_list-tiers_value w.tiers_text)

  got_info : get_entry key_info (top_of t) ≡ some (dict t.info)
  unfolding top_of listed
  got_info = get_entry-insert_entry key_info key_info (dict t.info) listed

  left_listed : remove_entry key_info (top_of t) ≡ insert_opt key_announce bytes t.announce beside
  unfolding top_of listed
  left_listed =
      remove_entry-insert_entry key_info (dict t.info) listed info-listed ∙ listed_exchanged

  read_top-top_of : read_top (top_of t) ≡ ok t
  unfolding read_top read_steps beside
  read_top-top_of =
      let announced = insert_opt key_announce bytes t.announce beside in
      let read = λ (T : Entries).
        read_steps (some (dict t.info)) (get_entry key_announce T)
          (get_entry key_announce_list (remove_entry key_announce T))
          (remove_entry key_announce_list (remove_entry key_announce T)) in
      let top' = remove_entry key_info (top_of t) in
      ap
        (λ i.
          read_steps i (get_entry key_announce top')
            (get_entry key_announce_list (remove_entry key_announce top'))
            (remove_entry key_announce_list (remove_entry key_announce top')))
        got_info
      ∙ (ap read left_listed
          ∙ (ap
                (λ a.
                  read_steps (some (dict t.info)) a
                    (get_entry key_announce_list (remove_entry key_announce announced))
                    (remove_entry key_announce_list (remove_entry key_announce announced)))
                (get_entry-insert_opt key_announce bytes t.announce beside announce-beside)
              ∙ (ap
                    (λ T.
                      read_steps (some (dict t.info)) (Option.map bytes t.announce)
                        (get_entry key_announce_list T) (remove_entry key_announce_list T))
                    (remove_entry-insert_opt key_announce bytes t.announce beside announce-beside)
                  ∙ (ap
                        (λ l.
                          read_steps (some (dict t.info)) (Option.map bytes t.announce) l
                            (remove_entry key_announce_list beside))
                        (get_entry-insert_opt key_announce_list tiers_value t.announce_list t.extra
                          w.no_list)
                      ∙ (ap
                            (read_steps (some (dict t.info)) (Option.map bytes t.announce)
                              (Option.map tiers_value t.announce_list))
                            (remove_entry-insert_opt key_announce_list tiers_value t.announce_list
                              t.extra w.no_list)
                          ∙ read_steps-ok)))))

-- A torrent is read back from its bytes to itself: its announce fields are text, the three keys that
-- it holds are no others of it, and its dictionary is one that the codec writes and reads.
pub read_from_bytes-encode_torrent :
    (t : Torrent)
    → IsTorrent t
    → Fits 0 (dict (top_of t))
    → length (encode_torrent t) ≤ usize_max
    → read_from_bytes (encode_torrent t) ≡ ok t
unfolding read_from_bytes read_value
read_from_bytes-encode_torrent t w fits room =
    let same = encode_torrent-encode t in
    ap read_value (
      ap decode same
      ∙ decode-encode (dict (top_of t)) fits (subst (λ d. length d ≤ usize_max) same room))
    ∙ read_top-top_of t w
