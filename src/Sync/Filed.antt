-- ===== src/Sync/Filed.antt =====
-- What adopting a torrent leaves in the cache.
use sharerr_rs.Prelude.{
  Bool-cases, Bytes, List, Option, Option-cases, PartialEq, Result, [], ap, arith, err, false, inl,
  inr, list_eq, nat_eq, none, ok, refl, some, subst, suc, sym, true, ◌∙◌, ◌∷◌, ◌≡◌, ◌≢◌, ◌⊎◌,
}
use sharerr_rs.Announce.Query.{hash}
use sharerr_rs.Announce.WireValue.{answer}
use sharerr_rs.Endpoint.AnnounceList.{AnnounceSet, tiers}
use sharerr_rs.Endpoint.State.{current}
use sharerr_rs.Lighthouse.Hex.{eq_ignore_ascii_case}
use sharerr_rs.Paths.Resolver.{component_eq}
use sharerr_rs.Prelude.HashMap.{get}
use sharerr_rs.Sync.Cached.{
  adopt, adopt_bytes, adopt_export, adopt_exported, file_adopted, foreign_tiers, hash_of, retarget,
  upstream_of,
}
use sharerr_rs.Sync.Exec.{gets, lift, modify, pure, raise, settle, ◌>>=◌}
use sharerr_rs.Sync.Foreign.{IsForeign, foreign_tiers-IsForeign}
use sharerr_rs.Sync.Item.{Types, int_eq, key_eq, source_eq}
use sharerr_rs.Sync.Leads.{IfOk, IfOk-mono}
use sharerr_rs.Sync.Ordering.{get-insert_self}
use sharerr_rs.Sync.Store.{
  access, ask_client, end_write, logged, put_cached, read_cached, tick, torn_cached,
  write_torrent_file,
}
use sharerr_rs.Sync.World.{Env, Sync, World, trackers_added}
use sharerr_rs.Torrent.Fields.{info_hash}
use sharerr_rs.Torrent.Metainfo.{Torrent, encode_torrent, read_from_bytes}
use sharerr_rs.Torrent.Retarget.{IsRetargeted, with_announce-IsRetargeted}
use sharerr_rs.Torrent.Rewrite.{
  Retargeted, announces_at, retarget_announce, unchanged, updated_to, with_announce,
}
use sharerr_rs.Torrent.Stream.{read, unread}

read_cases :
    {E A : Type 0} (r : Result E A) → ((a : A) × (r ≡ ok a)) ⊎ ((failure : E) × (r ≡ err failure))
read_cases (ok a) = inl (a, refl)
read_cases (err failure) = inr (failure, refl)

apart : true ≢ false
apart h = ground arith

abbrev unwrap_or_nil : Option Bytes → Bytes
unwrap_or_nil none = []
unwrap_or_nil (some u) = u

module _ {Url : Type 0} ⦃e : PartialEq Url⦄ (as_str : Url → Bytes)
    (parse_url : Bytes → Option Url) where
  announces_at-some :
      (url : Bytes) (old : Option Bytes)
      → announces_at as_str parse_url url old ≡ true
      → old ≡ some url
  announces_at-some url none h = ground arith
  announces_at-some url (some u) h = ap (λ a. some a) ((list_eq.same_iff u url).0 h)

  announces_elsewhere :
      (url : Bytes) (old : Option Bytes)
      → announces_at as_str parse_url url old ≡ false
      → old ≢ some url
  announces_elsewhere url none h same = ground arith
  announces_elsewhere url (some u) h same =
      apart (sym ((list_eq.same_iff u url).1 (ap unwrap_or_nil same)) ∙ h)

module _ {T : Types} {Url : Type 0} ⦃e : PartialEq Url⦄ (env : Env T Url) (hash : Bytes)
    (set : AnnounceSet Url) where
  -- What stands in the cache under the hash: what the client exports, or, where that announces
  -- elsewhere, the torrent with its announce fields rewritten to the set.
  abbrev pub FiledExport : Option (Option Bytes) → List Bytes → World T Url → Type 0
  FiledExport answered upstream w =
      (exported : Bytes) × (t : Torrent) × (filed : Bytes) × (answered ≡ some (some exported))
      × (read_from_bytes exported ≡ ok t)
      × (eq_ignore_ascii_case (hash_of env t) hash ≡ true)
      × (((t.announce ≡ some (env.as_str set.primary)) × (filed ≡ exported))
          ⊎ ((t.announce ≢ some (env.as_str set.primary))
              × (t' : Torrent) × IsRetargeted env.as_str env.parse_url set t t'
              × (filed ≡ encode_torrent t')))
      × (get hash w.cache ≡ some filed)
      × IsForeign env set t upstream

  abbrev Filed : Bytes → Bytes → List Bytes → List Bytes → World T Url → Type 0
  Filed actual torrent upstream answer w =
      (eq_ignore_ascii_case actual hash ≡ true)
      × (get hash w.cache ≡ some torrent)
      × (answer ≡ upstream)

  file_adopted-Filed :
      (actual torrent : Bytes) (upstream : List Bytes) (w : World T Url)
      → let (r, w') = file_adopted env hash actual torrent upstream w in
        IfOk (λ answer. Filed actual torrent upstream answer w') r
  unfolding file_adopted raise pure ◌>>=◌ write_torrent_file access tick modify put_cached end_write
      torn_cached settle
  file_adopted-Filed actual torrent upstream w =
      elim (Bool-cases (eq_ignore_ascii_case actual hash)) [
        | inr other ↦ rw other tt
        | inl same ↦ elim (Bool-cases (env.refuses w.accesses)) [
          | inl unwritable ↦ rw (same, unwritable) tt
          | inr written ↦ rw (same, written) (refl, get-insert_self hash torrent w.cache, refl)
        ]
      ]

  module _ (answered : Option (Option Bytes)) (exported : Bytes)
      (given : answered ≡ some (some exported)) where
    -- Filed under the hash of the export, with its own trackers as the answer.
    export_stored :
        (t : Torrent) (filed : Bytes) (answer : List Bytes) (w : World T Url)
        → read_from_bytes exported ≡ ok t
        → ((t.announce ≡ some (env.as_str set.primary)) × (filed ≡ exported))
          ⊎ ((t.announce ≢ some (env.as_str set.primary))
              × (t' : Torrent) × IsRetargeted env.as_str env.parse_url set t t'
              × (filed ≡ encode_torrent t'))
        → Filed (hash_of env t) filed (foreign_tiers env t set) answer w
        → FiledExport answered answer w
    export_stored t filed answer w read shape (matches, there, as_is) = (
      exported,
      t,
      filed,
      given,
      read,
      matches,
      shape,
      there,
      subst (IsForeign env set t) (sym as_is) (foreign_tiers-IsForeign env set t),
    )

    adopt_parsed :
        (t : Torrent) (w : World T Url)
        → read_from_bytes exported ≡ ok t
        → (outcome : Retargeted)
        → ((t.announce ≡ some (env.as_str set.primary)) × (outcome ≡ unchanged t))
          ⊎ ((t.announce ≢ some (env.as_str set.primary))
              × (outcome
                  ≡ updated_to t.announce
                      (with_announce env.as_str env.parse_url set t)
                      (encode_torrent (with_announce env.as_str env.parse_url set t))))
        → let (r, w') = adopt_exported env hash exported (foreign_tiers env t set) outcome w in
          IfOk (λ answer. FiledExport answered answer w') r
    unfolding adopt_exported info_hash with_announce
    adopt_parsed t w read outcome (inl (at_set, same)) =
        let upstream = foreign_tiers env t set in
        rw same (
          IfOk-mono _ _ (file_adopted env hash (hash_of env t) exported upstream w).0
            (λ answer.
              export_stored t exported answer
                (file_adopted env hash (hash_of env t) exported upstream w).1 read
                (inl (at_set, refl)))
            (file_adopted-Filed (hash_of env t) exported upstream w))
    adopt_parsed t w read outcome (inr (elsewhere, same)) =
        let upstream = foreign_tiers env t set in
        let t' = with_announce env.as_str env.parse_url set t in
        rw same (
          IfOk-mono _ _ (file_adopted env hash (hash_of env t') (encode_torrent t') upstream w).0
            (λ answer.
              export_stored t (encode_torrent t') answer
                (file_adopted env hash (hash_of env t') (encode_torrent t') upstream w).1 read
                (inr
                  (elsewhere, t', with_announce-IsRetargeted env.as_str env.parse_url set t, refl)))
            (file_adopted-Filed (hash_of env t') (encode_torrent t') upstream w))

    adopt_held :
        (w : World T Url)
        → let m : Sync T Url (List Bytes) = lift (retarget env exported set) >>= λ outcome.
            adopt_exported env hash exported
              (upstream_of env (read_from_bytes exported) set)
              outcome in
          let (r, w') = m w in IfOk (λ answer. FiledExport answered answer w') r
    unfolding ◌>>=◌ lift retarget retarget_announce
    adopt_held w = elim (read_cases (read_from_bytes exported)) [
      | inr (failure, unread) ↦ rw unread tt
      | inl (t, read) ↦
          elim (Bool-cases
            (announces_at env.as_str env.parse_url (env.as_str set.primary) t.announce)) [
              | inl current ↦
                  rw (read, current)
                    (adopt_parsed t w read _ (
                      inl (
                        announces_at-some env.as_str env.parse_url (env.as_str set.primary)
                            t.announce current,
                        refl,
                      )))
              | inr moved ↦
                  rw (read, moved)
                    (adopt_parsed t w read _ (
                      inr (
                        announces_elsewhere env.as_str env.parse_url (env.as_str set.primary)
                            t.announce moved,
                        refl,
                      )))
            ]
    ]

  adopt_export-FiledExport :
      (w : World T Url)
      → let (r, w') = adopt_export env hash set w in
        IfOk (λ answer. FiledExport (env.qbit.export w.client hash) answer w') r
  unfolding adopt_export ◌>>=◌ gets raise pure
  adopt_export-FiledExport w = elim (Option-cases (env.qbit.export w.client hash)) [
    | inl down ↦ rw down tt
    | inr (none, empty) ↦ rw empty tt
    | inr (some exported, there) ↦ rw there (adopt_held (some (some exported)) exported refl w)
  ]

  adopt_read-FiledExport :
      (w : World T Url)
      → get hash w.cache ≡ none
      → let m : Sync T Url (List Bytes) =
          read_cached env hash >>= λ cached. adopt_bytes env hash set cached in
        let (r, w') = m w in
        IfOk (λ answer. FiledExport (env.qbit.export w.client hash) answer w') r
  unfolding adopt_bytes ◌>>=◌ read_cached access tick gets
  adopt_read-FiledExport w missing_file = elim (Bool-cases (env.refuses w.accesses)) [
    | inl unreadable_file ↦ rw unreadable_file tt
    | inr readable ↦
        rw (readable, missing_file)
          (adopt_export-FiledExport (record w { accesses = suc w.accesses }))
  ]

-- Adopting a torrent that the cache has not, where it succeeds, files under the torrent's hash what
-- the client exports for that hash once it was given sharerr's trackers. The export reads back with
-- that very info hash, but for the case of its letters; it is filed as it is where it announces on the
-- set's first URL, or else as the same torrent with its announce fields rewritten to the set. The
-- answer has exactly the export's trackers other than the set's.
pub adopt-FiledExport :
    {T : Types} {Url : Type 0} ⦃e : PartialEq Url⦄ (env : Env T Url) (hash : Bytes)
    (set : AnnounceSet Url) (w : World T Url)
    → get hash w.cache ≡ none
    → let (r, w') = adopt env hash set w in
      let client = (env.qbit.perform (trackers_added hash (tiers set)) w.client).1 in
      IfOk (λ answer. FiledExport env hash set (env.qbit.export client hash) answer w') r
unfolding adopt ◌>>=◌ ask_client logged
adopt-FiledExport env hash set w missing_file =
    let answer = env.qbit.perform (trackers_added hash (tiers set)) w.client in
    elim (Bool-cases answer.0) [
      | inr refused ↦ rw refused tt
      | inl granted ↦ rw granted (
          adopt_read-FiledExport env hash set
            (record w {
              client = answer.1;
              calls = (trackers_added hash (tiers set), true) ∷ w.calls;
            })
            missing_file)
    ]
