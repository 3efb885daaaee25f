-- ===== src/Endpoint/Token.antt =====
-- `token_from_announce_url` of crates/sharerr-torrent/src/tracker.rs. The url crate's
-- `path_segments` is a parameter.
use sharerr_rs.Prelude.{
  All, Bytes, List, Option, [], ap, codes, false, if◌then◌else◌, list_eq, nat_eq, none, refl, some,
  ◌++◌, ◌==◌, ◌∙◌, ◌∷◌, ◌≡◌,
}
use sharerr_rs.Paths.Resolver.{component_eq}

abbrev pub announce_segment : Bytes
announce_segment = codes "announce"

abbrev pub next_segment : List Bytes → Option Bytes
next_segment [] = none
next_segment (segment ∷ rest) = some segment

-- The loop over the segments.
unfoldable pub token_of_segments : List Bytes → Option Bytes
token_of_segments [] = none
token_of_segments (segment ∷ rest) =
    let later = token_of_segments rest in
    if segment == announce_segment then next_segment rest else later

abbrev pub of_segments : Option (List Bytes) → Option Bytes
of_segments none = none
of_segments (some segments) = token_of_segments segments

abbrev pub token_segments : Option Bytes → List Bytes
token_segments none = []
token_segments (some token) = token ∷ []

token_of_segments-append :
    (prefix : List Bytes) (token : Option Bytes)
    → All (λ segment. (segment == announce_segment) ≡ false) prefix
    → token_of_segments (prefix ++ announce_segment ∷ token_segments token) ≡ token
unfolding token_of_segments
token_of_segments-append [] none h = refl
token_of_segments-append [] (some token) h = refl
token_of_segments-append (segment ∷ prefix) token (other, h) =
    rw other (token_of_segments-append prefix token h)

module _ {Url : Type 0} (path_segments : Url → Option (List Bytes)) where
  unfoldable pub token_from_announce_url : Url → Option Bytes
  unfolding token_of_segments
  token_from_announce_url url = of_segments (path_segments url)

  -- Of a URL whose path is some segments, none of them `announce`, then `announce`, then the token
  -- if there is one, the token is read back.
  pub token_from_announce_url_lem :
      (url : Url) (prefix : List Bytes) (token : Option Bytes)
      → path_segments url ≡ some (prefix ++ announce_segment ∷ token_segments token)
      → All (λ segment. (segment == announce_segment) ≡ false) prefix
      → token_from_announce_url url ≡ token
  unfolding token_from_announce_url
  token_from_announce_url_lem url prefix token path plain =
      ap of_segments path ∙ token_of_segments-append prefix token plain
