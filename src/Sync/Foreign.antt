-- ===== src/Sync/Foreign.antt =====
-- Which trackers of a torrent are not the set's.
use sharerr_rs.Torrent.Fields
use sharerr_rs.Prelude.{
  Bool, Bool-cases, Bytes, List, Member, PartialEq, [], ap, arith, inl, inr, list_eq, map, nat_eq,
  not, refl, subst, true, ◌==◌, ◌↔◌, ◌∷◌, ◌≡◌,
}
use sharerr_rs.Endpoint.AnnounceList.{AnnounceSet, tiers}
use sharerr_rs.Endpoint.State.{first}
use sharerr_rs.Paths.Resolver.{component_eq}
use sharerr_rs.Sync.Cached.{all_tiers, concat_tiers, foreign_tiers, member_of}
use sharerr_rs.Sync.Item.{Types, int_eq, key_eq, source_eq}
use sharerr_rs.Sync.Member.{Member-append, Member-filter, append-Member, filter-Member}
use sharerr_rs.Sync.World.{Env}
use sharerr_rs.Torrent.Fields.{announce_tiers}
use sharerr_rs.Torrent.Metainfo.{Torrent}

member_of-Member : (url : Bytes) (urls : List Bytes) → member_of url urls ≡ true → Member url urls
member_of-Member url [] h = ground arith
member_of-Member url (u ∷ urls) h = elim (Bool-cases (url == u)) [
  | inl same ↦ inl ((list_eq.same_iff url u).0 same)
  | inr other ↦ inr (member_of-Member url urls (ground arith))
]

Member-member_of : (url : Bytes) (urls : List Bytes) → Member url urls → member_of url urls ≡ true
Member-member_of url [] h = absurd h
Member-member_of url (u ∷ urls) (inl same) = rw ((list_eq.same_iff url u).1 same) refl
Member-member_of url (u ∷ urls) (inr later) = elim (Bool-cases (url == u)) [
  | inl same ↦ rw same refl
  | inr other ↦ rw (other, Member-member_of url urls later) refl
]

abbrev pub InSome : Bytes → List (List Bytes) → Type 0
InSome url lists = (tier : List Bytes) × Member tier lists × Member url tier

concat_tiers-InSome :
    (url : Bytes) (lists : List (List Bytes)) → Member url (concat_tiers lists) → InSome url lists
concat_tiers-InSome url [] h = absurd h
concat_tiers-InSome url (tier ∷ lists) h = elim (append-Member url tier (concat_tiers lists) h) [
  | inl here ↦ (tier, inl refl, here)
  | inr later ↦
      let (found, there, inside) = concat_tiers-InSome url lists later in (found, inr there, inside)
]

InSome-concat_tiers :
    (url : Bytes) (lists : List (List Bytes)) → InSome url lists → Member url (concat_tiers lists)
InSome-concat_tiers url [] (tier, there, inside) = absurd there
InSome-concat_tiers url (first ∷ lists) (tier, inl same, inside) =
    Member-append url first (concat_tiers lists) (inl (subst (Member url) same inside))
InSome-concat_tiers url (first ∷ lists) (tier, inr later, inside) =
    Member-append url first (concat_tiers lists)
      (inr (InSome-concat_tiers url lists (tier, later, inside)))

clash : (b : Bool) → not b ≡ true → b ≡ true → ⊥
clash b h same = ground arith

outside_not :
    (url : Bytes) (urls : List Bytes) → (Member url urls → ⊥) → not (member_of url urls) ≡ true
outside_not url urls foreign = elim (Bool-cases (member_of url urls)) [
  | inl inside ↦ absurd (foreign (member_of-Member url urls inside))
  | inr outside ↦ ap not outside
]

module _ {T : Types} {Url : Type 0} ⦃e : PartialEq Url⦄ (env : Env T Url)
    (set : AnnounceSet Url) where
  -- The trackers that a torrent has besides the set's.
  abbrev pub IsForeign : Torrent → List Bytes → Type 0
  IsForeign t upstream =
      (url : Bytes)
      → Member url upstream
        ↔ (InSome url (Fields.announce_tiers t) × (Member url (map env.as_str (tiers set)) → ⊥))

  pub foreign_tiers-IsForeign : (t : Torrent) → IsForeign t (foreign_tiers env t set)
  unfolding foreign_tiers
  foreign_tiers-IsForeign t url = (
    λ h.
        let (inside, passes) = Member-filter _ url (all_tiers t) h in
        (
          concat_tiers-InSome url (Fields.announce_tiers t) inside,
          λ ours. clash _ passes (Member-member_of url (map env.as_str (tiers set)) ours),
        ),
    λ (inside, foreign).
        filter-Member _ url (all_tiers t) (InSome-concat_tiers url (Fields.announce_tiers t) inside)
          (outside_not url (map env.as_str (tiers set)) foreign),
  )
