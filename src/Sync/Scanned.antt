-- ===== src/Sync/Scanned.antt =====
-- What a removal rests on, in terms of what the sources answered.
use sharerr_rs.Prelude.{
  Bool, Bool-cases, Bytes, List, Member, Option, [], ap, arith, false, if◌then◌else◌, inl, inr,
  list_eq, map, nat_eq, none, not, refl, some, subst, sym, true, ◌&&◌, ◌==◌, ◌||◌, ◌∙◌, ◌∷◌, ◌≡◌,
  ◌≢◌, ◌⊎◌,
}
use sharerr_rs.Announce.Query.{hash}
use sharerr_rs.Bencode.Decode.{items}
use sharerr_rs.Paths.Resolver.{MediaSource, component_eq}
use sharerr_rs.Prelude.HashMap.{HashMap, get}
use sharerr_rs.Prelude.Int.{ℤ, ◌≤ℤ◌}
use sharerr_rs.Sync.Discovery.{
  Discovery, SourceScan, add_scan, add_scans, contains_key, contains_source, discover, is_withdrawn,
  is_withdrawn_from,
}
use sharerr_rs.Sync.Item.{
  Discovered, Key, ShareState, SharedItem, Types, discovered_key, int_eq, item_key, key_eq,
  source_eq, unshared,
}
use sharerr_rs.Sync.Member.{Member-append}
use sharerr_rs.Sync.Own.{IsOwn, IsOwnRemoval}
use sharerr_rs.Sync.Reconcile.{has_ended}
use sharerr_rs.Sync.World.{ClientCall, added, limits_applied, removed, trackers_added, trackers_set}

-- What the sources answered, each under its kind; one that failed answered nothing.
abbrev pub Scans : Types → Type 0
Scans T = List (MediaSource × Option (SourceScan T))

differ : true ≢ false
differ h = ground arith

both : (a b c : Bool) → (a && not b && c) ≡ true → (a ≡ true) × (b ≡ false) × (c ≡ true)
both a b c h = ground arith

not_unshared : (state : ShareState) → is_withdrawn_from state ≡ true → state ≢ unshared
not_unshared state h same = ground arith

has_ended_parts :
    (now : ℤ) (o : Option ℤ)
    → has_ended now o ≡ true
    → (until : ℤ) × (o ≡ some until) × (until ≤ℤ now)
has_ended_parts now none h = ground arith
has_ended_parts now (some until) h = (until, refl, ground arith)

module _ {T : Types} where
  -- A source of this kind listed its whole library.
  abbrev pub AnsweredWhole : MediaSource → Scans T → Type 0
  AnsweredWhole kind scans =
      (scan : SourceScan T) × Member (kind, some scan) scans × (scan.complete ≡ true)

  -- No source listed an item of this key.
  abbrev pub IsUnlisted : Key → Scans T → Type 0
  IsUnlisted k scans =
      (kind : MediaSource) (scan : SourceScan T) (item : Discovered T)
      → Member (kind, some scan) scans
      → Member item scan.items
      → discovered_key item ≢ k

  -- A removal of a torrent that sharerr made for a known item, which is not unshared already: its
  -- share ended on its date, or its source listed its whole library and the item was not listed.
  pub record IsDue (now : ℤ) (known : HashMap Key (SharedItem T)) (ends : HashMap Key ℤ)
      (scans : Scans T) (hash : Bytes) : Type 0 where
    pub key : Key
    pub item : SharedItem T
    pub stands : Member (key, item) known
    pub filed : item.info_hash ≡ some hash
    pub own : item.created_by_sharerr ≡ true
    pub reason :
        ((until : ℤ) × (get key ends ≡ some until) × (until ≤ℤ now))
        ⊎ (AnsweredWhole item.source scans
            × IsUnlisted (item_key item) scans
            × (item.state ≢ unshared))

  withdrawable-add_scans :
      (source : MediaSource) (scans : Scans T) (d : Discovery T)
      → contains_source source (add_scans scans d).withdrawable ≡ true
      → (contains_source source d.withdrawable ≡ true) ⊎ AnsweredWhole source scans
  unfolding add_scans add_scan
  withdrawable-add_scans source [] d h = inl h
  withdrawable-add_scans source ((kind, none) ∷ scans) d h =
      elim (withdrawable-add_scans source scans (add_scan kind none d) h) [
        | inl before ↦ inl before
        | inr (scan, there, whole) ↦ inr (scan, inr there, whole)
      ]
  withdrawable-add_scans source ((kind, some scan) ∷ scans) d h =
      elim (withdrawable-add_scans source scans (add_scan kind (some scan) d) h) [
        | inr (later, there, whole) ↦ inr (later, inr there, whole)
        | inl before ↦ elim (Bool-cases scan.complete) [
          | inr partial ↦ inl (
              subst
                (λ (b : Bool).
                  contains_source source (if b then kind ∷ d.withdrawable else d.withdrawable)
                  ≡ true)
                partial before)
          | inl whole ↦
              let taken =
                subst
                  (λ (b : Bool).
                    contains_source source (if b then kind ∷ d.withdrawable else d.withdrawable)
                    ≡ true)
                  whole before in
              elim (Bool-cases (source == kind)) [
                | inl same ↦ inr (
                  scan,
                  inl (ap (λ k. (k, some scan)) ((source_eq.same_iff source kind).0 same)),
                  whole,
                )
                | inr other ↦ inl (
                    subst (λ (b : Bool). (b || contains_source source d.withdrawable) ≡ true) other
                      taken)
              ]
        ]
      ]

  items-add_scans :
      (item : Discovered T) (scans : Scans T) (d : Discovery T)
      → Member item d.items
      → Member item (add_scans scans d).items
  unfolding add_scans add_scan
  items-add_scans item [] d h = h
  items-add_scans item ((kind, none) ∷ scans) d h =
      items-add_scans item scans (add_scan kind none d) h
  items-add_scans item ((kind, some scan) ∷ scans) d h =
      items-add_scans item scans (add_scan kind (some scan) d)
        (Member-append item d.items scan.items (inl h))

  abbrev IsListedIn : Discovered T → Option (SourceScan T) → Type 0
  IsListedIn item none = ⊥
  IsListedIn item (some scan) = Member item scan.items

  listed-add_scans :
      (kind : MediaSource) (scan : SourceScan T) (item : Discovered T) (scans : Scans T)
      (d : Discovery T)
      → Member (kind, some scan) scans
      → Member item scan.items
      → Member item (add_scans scans d).items
  unfolding add_scans add_scan
  listed-add_scans kind scan item [] d h inside = absurd h
  listed-add_scans kind scan item ((k, none) ∷ scans) d (inl same) inside =
      absurd (
        subst (IsListedIn item) (ap (λ (p : MediaSource × Option (SourceScan T)). p.1) same) inside)
  listed-add_scans kind scan item ((k, some s) ∷ scans) d (inl same) inside =
      items-add_scans item scans (add_scan k (some s) d) (
        Member-append item d.items s.items (
          inr (
            subst (IsListedIn item) (ap (λ (p : MediaSource × Option (SourceScan T)). p.1) same)
              inside)))
  listed-add_scans kind scan item ((k, o) ∷ scans) d (inr later) inside =
      listed-add_scans kind scan item scans (add_scan k o d) later inside

  contains_key-Member :
      (item : Discovered T) (items : List (Discovered T))
      → Member item items
      → contains_key (discovered_key item) (map discovered_key items) ≡ true
  contains_key-Member item [] h = absurd h
  contains_key-Member item (j ∷ items) (inl same) =
      rw ((key_eq.same_iff (discovered_key item) (discovered_key j)).1 (ap discovered_key same))
        refl
  contains_key-Member item (j ∷ items) (inr later) =
      elim (Bool-cases (discovered_key item == discovered_key j)) [
        | inl same ↦ rw same refl
        | inr other ↦ rw (other, contains_key-Member item items later) refl
      ]

  withdrawn_parts :
      (scans : Scans T) (k : Key) (item : SharedItem T)
      → is_withdrawn
          (map discovered_key (discover scans).items)
          (discover scans).withdrawable
          (k, item)
        ≡ true
      → AnsweredWhole item.source scans × IsUnlisted (item_key item) scans × (item.state ≢ unshared)
  unfolding is_withdrawn discover
  withdrawn_parts scans k item h =
      let (answered, unlisted, shared) = both _ _ _ h in
      (
        elim (withdrawable-add_scans item.source scans _ answered) [
          | inl before ↦ ground arith
          | inr whole ↦ whole
        ],
        λ kind scan listed there inside same. differ (
            sym (
              contains_key-Member listed (discover scans).items
                (listed-add_scans kind scan listed scans _ there inside))
            ∙ ap (λ k. contains_key k (map discovered_key (discover scans).items)) same
            ∙ unlisted),
        not_unshared item.state shared,
      )

  pub IsOwnRemoval-IsDue :
      (now : ℤ) (known : HashMap Key (SharedItem T)) (ends : HashMap Key ℤ) (scans : Scans T)
      (hash : Bytes)
      → IsOwnRemoval now known ends
          (map discovered_key (discover scans).items)
          (discover scans).withdrawable
          hash
      → IsDue now known ends scans hash
  IsOwnRemoval-IsDue now known ends scans hash r = record {
    key = r.key;
    item = r.item;
    stands = r.stands;
    filed = r.filed;
    own = r.own;
    reason = elim r.reason [
      | inl ended ↦ inl (has_ended_parts now (get r.key ends) ended)
      | inr withdrawn ↦ inr (withdrawn_parts scans r.key r.item withdrawn)
    ];
  }

-- What a pass asks of the client: the only torrents that it removes are its own that are due, and the
-- only limits that it sets are those of its own.
abbrev pub DueCall :
    {T : Types} {Url : Type 0}
    → ℤ
    → HashMap Key (SharedItem T)
    → HashMap Key ℤ
    → Scans T
    → ClientCall T Url
    → Type 0
DueCall now known ends scans (removed hash) = IsDue now known ends scans hash
DueCall now known ends scans (limits_applied hash limits) = IsOwn known hash
DueCall now known ends scans (added r) = Unit
DueCall now known ends scans (trackers_set hash urls) = Unit
DueCall now known ends scans (trackers_added hash urls) = Unit
