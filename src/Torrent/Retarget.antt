-- ===== src/Torrent/Retarget.antt =====
-- A torrent whose announce fields are rewritten is otherwise the same.
use mathlib.Core.Option
use sharerr_rs.Prelude.{
  All, Bool-cases, Bytes, List, Option, PartialEq, [], and_then, ap, arith, inl, inr, leb, length,
  list_eq, map, nat_eq, none, ok, some, ◌∙◌, ◌∷◌, ◌≡◌, ◌≤◌, refl, ◌≢◌,
}
use sharerr_rs.Bencode.Decode.{value}
use sharerr_rs.Bencode.Total.{insert_entry-FitEntries}
use sharerr_rs.Bencode.Value.{Entries, FitEntries, FitItems, Fits, Value, bytes, dict, usize_max}
use sharerr_rs.Endpoint.AnnounceList.{AnnounceSet, tier_list, tiers}
use sharerr_rs.Paths.Resolver.{component_eq}
use sharerr_rs.Prelude.Decimal.RoundTrip.{IfSome}
use sharerr_rs.Torrent.Announced.{insert_opt, tiers_value, top_of}
use sharerr_rs.Torrent.Metainfo.{
  Torrent, encode_torrent, key_announce, key_announce_list, key_info, list_items, read_from_bytes,
  tier_items,
}
use sharerr_rs.Torrent.Reread.{AllSome, IsText, IsTorrent, read_from_bytes-encode_torrent}
use sharerr_rs.Torrent.Rewrite.{WasRead, read_from_bytes-WasRead, rewrite_announce, with_announce}
use sharerr_rs.Torrent.Stream.{read}

insert_opt-FitEntries :
    {A : Type 0} (k : Bytes) (value : A → Value) (o : Option A) (es : Entries)
    → length k ≤ usize_max
    → IfSome (Fits 1) (Option.map value o)
    → FitEntries 1 es
    → FitEntries 1 (insert_opt k value o es)
unfolding insert_opt
insert_opt-FitEntries k value none es short fits h = h
insert_opt-FitEntries k value (some a) es short fits h =
    insert_entry-FitEntries 1 k (value a) es short fits h

-- A url that can be written: a text that a `usize` measures.
abbrev pub IsUrl : Bytes → Type 0
IsUrl url = IsText url × (length url ≤ usize_max)

tier_items-FitItems : (url : Bytes) → length url ≤ usize_max → FitItems 3 (tier_items (url ∷ []))
unfolding tier_items Fits
tier_items-FitItems url short = ((omega arith, short), tt)

module _ {Url : Type 0} ⦃e : PartialEq Url⦄ (as_str : Url → Bytes)
    (parse_url : Bytes → Option Url) where
  abbrev pub each_alone : List Url → List (List Bytes)
  each_alone us = map (λ u. as_str u ∷ []) us

  -- What the announce fields say once they are those of a set: its first URL, and every URL in a tier
  -- of its own if there are several. All else is as it was.
  pub record IsRetargeted (set : AnnounceSet Url) (old t : Torrent) : Type 0 where
    pub same_info : t.info ≡ old.info
    pub same_extra : t.extra ≡ old.extra
    pub first : t.announce ≡ some (as_str set.primary)
    pub alone : set.fallbacks ≡ [] → t.announce_list ≡ none
    pub several : set.fallbacks ≢ [] → t.announce_list ≡ some (each_alone (tiers set))

  tier_list_alone :
      (primary : Url) (fallbacks : List Url)
      → fallbacks ≡ []
      → tier_list as_str parse_url (record { primary = primary; fallbacks = fallbacks }) ≡ none
  unfolding tier_list
  tier_list_alone primary [] h = refl
  tier_list_alone primary (u ∷ us) h = ground arith

  tier_list_several :
      (primary : Url) (fallbacks : List Url)
      → fallbacks ≢ []
      → tier_list as_str parse_url (record { primary = primary; fallbacks = fallbacks })
        ≡ some (each_alone (primary ∷ fallbacks))
  unfolding tier_list
  tier_list_several primary [] h = absurd (h refl)
  tier_list_several primary (u ∷ us) h = ground arith

  pub with_announce-IsRetargeted :
      (set : AnnounceSet Url) (t : Torrent)
      → IsRetargeted set t (with_announce as_str parse_url set t)
  unfolding with_announce
  with_announce-IsRetargeted set t = record {
    same_info = refl;
    same_extra = refl;
    first = refl;
    alone = λ h. tier_list_alone set.primary set.fallbacks h;
    several = λ h. tier_list_several set.primary set.fallbacks h;
  }

  list_items-FitItems :
      (us : List Url) → All (λ u. IsUrl (as_str u)) us → FitItems 2 (list_items (each_alone us))
  unfolding list_items Fits
  list_items-FitItems [] h = tt
  list_items-FitItems (u ∷ us) ((text, short), h) =
      ((omega arith, tier_items-FitItems (as_str u) short), list_items-FitItems us h)

  each_alone-IsText :
      (us : List Url) → All (λ u. IsUrl (as_str u)) us → All (All IsText) (each_alone us)
  each_alone-IsText [] h = tt
  each_alone-IsText (u ∷ us) ((text, short), h) = ((text, tt), each_alone-IsText us h)

  module _ (set : AnnounceSet Url) (urls : All (λ u. IsUrl (as_str u)) (tiers set)) where
    tier_list-Fits : IfSome (Fits 1) (Option.map tiers_value (tier_list as_str parse_url set))
    unfolding tier_list Fits
    tier_list-Fits = elim (Bool-cases (leb (length (tiers set)) 1)) [
      | inl alone ↦ rw alone tt
      | inr several ↦ rw several (omega arith, list_items-FitItems (tiers set) urls)
    ]

    tier_list-IsText : AllSome (All (All IsText)) (tier_list as_str parse_url set)
    unfolding tier_list
    tier_list-IsText = elim (Bool-cases (leb (length (tiers set)) 1)) [
      | inl alone ↦ rw alone tt
      | inr several ↦ rw several (each_alone-IsText (tiers set) urls)
    ]

    pub with_announce-IsTorrent :
        (t : Torrent) → WasRead t → IsTorrent (with_announce as_str parse_url set t)
    unfolding with_announce
    with_announce-IsTorrent t w = record {
      announce_text = urls.0.0;
      tiers_text = tier_list-IsText;
      no_info = w.no_info;
      no_announce = w.no_announce;
      no_list = w.no_list;
    }

    pub top_of-Fits :
        (t : Torrent) → WasRead t → Fits 0 (dict (top_of (with_announce as_str parse_url set t)))
    unfolding top_of with_announce Fits
    top_of-Fits t w = (
      omega arith,
      insert_entry-FitEntries 1 key_info (dict t.info) _ (omega arith) w.info_fits (
          insert_opt-FitEntries key_announce_list tiers_value (tier_list as_str parse_url set) _
            (omega arith) tier_list-Fits
            (insert_opt-FitEntries key_announce bytes (some (as_str set.primary)) t.extra
              (omega arith) (omega arith, urls.0.1) w.extra_fits)),
    )

    read_rewritten :
        (input : Bytes) (t : Torrent)
        → read_from_bytes input ≡ ok t
        → length (encode_torrent (with_announce as_str parse_url set t)) ≤ usize_max
        → and_then (rewrite_announce as_str parse_url input set) read_from_bytes
          ≡ ok (with_announce as_str parse_url set t)
    unfolding rewrite_announce
    read_rewritten input t read room =
        let w = read_from_bytes-WasRead input t read in
        ap
          (λ r.
            and_then (and_then r (λ t. ok (encode_torrent (with_announce as_str parse_url set t))))
              read_from_bytes)
          read
        ∙ read_from_bytes-encode_torrent (with_announce as_str parse_url set t)
            (with_announce-IsTorrent t w) (top_of-Fits t w) room

    -- A stored torrent whose announce fields are rewritten is read as a torrent with the same info
    -- dictionary and the same other fields, which announces on the set's first URL and has no announce
    -- list if that is the only one, and else the list of all the set's URLs in order, each a tier of
    -- its own: if the set's URLs are text, and the result is no longer than a `usize` counts.
    pub rewrite_announce-read :
        (input : Bytes) (t : Torrent)
        → read_from_bytes input ≡ ok t
        → length (encode_torrent (with_announce as_str parse_url set t)) ≤ usize_max
        → (t' : Torrent) × (and_then (rewrite_announce as_str parse_url input set) read_from_bytes
            ≡ ok t')
          × IsRetargeted set t t'
    rewrite_announce-read input t read room = (
      with_announce as_str parse_url set t,
      read_rewritten input t read room,
      with_announce-IsRetargeted set t,
    )
