-- ===== src/Endpoint/Announced.antt =====
-- What the announce list of an endpoint says.
use sharerr_rs.Prelude.{
  All, Bool-cases, Bytes, List, Member, Option, PartialEq, Result, [], ap, append_assoc, codes, err,
  false, inl, inr, nat_eqb_iff, nat_eq, none, ok, refl, some, sym, ℕ, ◌++◌, ◌∷◌, ◌==◌, ◌≡◌,
}
use sharerr_rs.Endpoint.AnnounceList.{
  AnnounceSet, TorrentError, announce_set_for, announce_url, announce_urls, announce_url_invalid,
  base_string, into_set, join_path, no_advertised_host, onto, or_invalid, tiers, trim_end_slashes,
  with_token, without_slashes,
}
use sharerr_rs.Endpoint.State.{Inner, recent}

-- A text that does not end in a slash.
abbrev pub IsTrimmed : Bytes → Type 0
IsTrimmed [] = Unit
IsTrimmed (c ∷ []) = (c == b'/') ≡ false
IsTrimmed (c ∷ d ∷ s) = IsTrimmed (d ∷ s)

abbrev pub IsSlashes : Bytes → Type 0
IsSlashes s = All (λ c. c ≡ b'/') s

-- A text is another one behind which only slashes stand.
abbrev pub IsStem : Bytes → Bytes → Type 0
IsStem stem s = IsTrimmed stem × ((slashes : Bytes) × IsSlashes slashes × (s ≡ stem ++ slashes))

without_slashes-IsStem :
    (c : ℕ) (stem s : Bytes) → IsStem stem s → IsStem (without_slashes c stem) (c ∷ s)
without_slashes-IsStem c [] s (trimmed, (slashes, are_slashes, same)) =
    elim (Bool-cases (c == b'/')) [
      | inl slash ↦
          rw slash
            (tt, (c ∷ slashes, ((nat_eqb_iff c b'/').0 slash, are_slashes), ap (λ r. c ∷ r) same))
      | inr other ↦ rw other (other, (slashes, are_slashes, ap (λ r. c ∷ r) same))
    ]
without_slashes-IsStem c (d ∷ stem) s (trimmed, (slashes, are_slashes, same)) =
    (trimmed, (slashes, are_slashes, ap (λ r. c ∷ r) same))

trim_end_slashes-IsStem : (s : Bytes) → IsStem (trim_end_slashes s) s
unfolding trim_end_slashes
trim_end_slashes-IsStem [] = (tt, ([], tt, refl))
trim_end_slashes-IsStem (c ∷ s) =
    without_slashes-IsStem c (trim_end_slashes s) s (trim_end_slashes-IsStem s)

-- The path behind a base: the word, and the token behind another slash.
abbrev pub announce_path : Option Bytes → Bytes
announce_path none = codes "/announce"
announce_path (some token) = codes "/announce/" ++ token

module _ {Url : Type 0} ⦃e : PartialEq Url⦄ (as_str : Url → Bytes)
    (parse_url : Bytes → Option Url) where
  -- What the base, without slashes at its end, and the path behind it are read as.
  abbrev pub IsReadAs : Option Bytes → Url → Option Url → Type 0
  IsReadAs token base o =
      (stem : Bytes) × IsStem stem (as_str base) × (parse_url (stem ++ announce_path token) ≡ o)

  -- The tiers of a set are the URLs of the bases, in order.
  abbrev pub Announces : Option Bytes → List Url → List Url → Type 0
  Announces token [] [] = Unit
  Announces token [] (u ∷ us) = ⊥
  Announces token (base ∷ bases) [] = ⊥
  Announces token (base ∷ bases) (u ∷ us) = IsReadAs token base (some u) × Announces token bases us

  -- A set for some bases, or the reason that there is none.
  abbrev pub SetFor : Option Bytes → List Url → Result (TorrentError Url) (AnnounceSet Url) → Type 0
  SetFor token bases (ok set) = Announces token bases (tiers set)
  SetFor token bases (err no_advertised_host) = bases ≡ []
  SetFor token bases (err (announce_url_invalid base)) =
      Member base bases × IsReadAs token base none

  abbrev UrlsFor : Option Bytes → List Url → Result (TorrentError Url) (List Url) → Type 0
  UrlsFor token bases (ok us) = Announces token bases us
  UrlsFor token bases (err no_advertised_host) = ⊥
  UrlsFor token bases (err (announce_url_invalid base)) =
      Member base bases × IsReadAs token base none

  with_token-path :
      (stem : Bytes) (token : Option Bytes)
      → with_token (stem ++ codes "/announce") token ≡ stem ++ announce_path token
  with_token-path stem none = refl
  with_token-path stem (some token) = append_assoc stem (codes "/announce") (b'/' ∷ token)

  onto-UrlsFor :
      (token : Option Bytes) (base : Url) (bases : List Url) (o : Option Url)
      (rest : Result (TorrentError Url) (List Url))
      → IsReadAs token base o
      → UrlsFor token bases rest
      → UrlsFor token (base ∷ bases) (onto (or_invalid base o) rest)
  onto-UrlsFor token base bases none rest made h = (inl refl, made)
  onto-UrlsFor token base bases (some u) (ok us) made h = (made, h)
  onto-UrlsFor token base bases (some u) (err no_advertised_host) made h = absurd h
  onto-UrlsFor token base bases (some u) (err (announce_url_invalid other)) made (there, h) =
      (inr there, h)

  announce_urls-UrlsFor :
      (token : Option Bytes) (bases : List Url)
      → UrlsFor token bases (announce_urls as_str parse_url bases token)
  unfolding announce_urls announce_url join_path base_string
  announce_urls-UrlsFor token [] = tt
  announce_urls-UrlsFor token (base ∷ bases) =
      let stem = trim_end_slashes (as_str base) in
      onto-UrlsFor token base bases (parse_url (with_token (stem ++ codes "/announce") token))
        (announce_urls as_str parse_url bases token)
        (
          stem,
          trim_end_slashes-IsStem (as_str base),
          ap parse_url (sym (with_token-path stem token)),
        )
        (announce_urls-UrlsFor token bases)

  into_set-SetFor :
      (token : Option Bytes) (bases : List Url) (us : Result (TorrentError Url) (List Url))
      → UrlsFor token bases us
      → SetFor token bases (into_set us)
  into_set-SetFor token [] (ok []) h = refl
  into_set-SetFor token (base ∷ bases) (ok []) h = absurd h
  into_set-SetFor token bases (ok (u ∷ us)) h = h
  into_set-SetFor token bases (err no_advertised_host) h = absurd h
  into_set-SetFor token bases (err (announce_url_invalid base)) h = h

  -- A set announces on every base of the endpoint, in the order of `recent`: each tier is what the
  -- base, without the slashes at its end, then `/announce` and, if there is a token, a slash and the
  -- token are parsed as, the same token for all. Without a set, the endpoint has no base, or the error
  -- names one of its bases, and that text does not parse for it.
  pub announce_set_for-SetFor :
      (s : Inner Url) (token : Option Bytes)
      → SetFor token (recent s) (announce_set_for as_str parse_url s token)
  unfolding announce_set_for
  announce_set_for-SetFor s token =
      into_set-SetFor token (recent s) (announce_urls as_str parse_url (recent s) token)
        (announce_urls-UrlsFor token (recent s))
