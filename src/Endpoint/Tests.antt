-- ===== src/Endpoint/Tests.antt =====
-- Tests and witnesses: bases are numbers here.
use sharerr_rs.Prelude.{
  Bytes, List, Option, [], codes, list_eq, map, nat_eq, ok, refl, some, take, true, ℕ, ◌↔◌, ◌∷◌,
  ◌≡◌, ◌≢◌, ◌⊎◌,
}
use sharerr_rs.Endpoint.AnnounceList.{announce_set_for}
use sharerr_rs.Endpoint.Current.{observe_told_iff}
use sharerr_rs.Endpoint.History.{
  Call, observations, observes, recency, run, run-history, sets_static,
}
use sharerr_rs.Endpoint.State.{
  Inner, base_of, current, forget_dynamic, max_dynamic_history, new, observe, recent, set_static,
}
use sharerr_rs.Endpoint.Token.{
  token_from_announce_url, token_from_announce_url_lem, token_of_segments,
}
use sharerr_rs.Paths.Resolver.{component_eq}
use sharerr_rs.Endpoint.Announced.{SetFor, announce_set_for-SetFor}

abbrev fresh : Inner ℕ
fresh = new (some 9)

abbrev reconnects : List (Call ℕ)
reconnects =
    observes 1 10
    ∷ observes 2 20
    ∷ observes 3 30
    ∷ sets_static (some 2)
    ∷ observes 4 40
    ∷ observes 5 50
    ∷ observes 2 60
    ∷ []

abbrev moved : Inner ℕ
moved = run fresh reconnects

moved_bases : map base_of moved.dynamic ≡ 2 ∷ 5 ∷ 4 ∷ 3 ∷ []
unfolding run new observe set_static
moved_bases = refl

moved-recent : recent moved ≡ 2 ∷ 5 ∷ 4 ∷ 3 ∷ []
unfolding run new observe set_static recent
moved-recent = refl

fallen_back : current (forget_dynamic moved) ≡ some 2
unfolding run new observe set_static current forget_dynamic
fallen_back = refl

run-history_example :
    map base_of (run (new (some 9)) reconnects).dynamic
    ≡ take max_dynamic_history (recency (observations [] reconnects))
run-history_example = run-history (some 9) reconnects

observe_told_iff_example :
    ((observe fresh 9 5).0 ≡ true)
    ↔ ((current fresh ≢ some 9) ⊎ ((fresh.dynamic ≡ []) × (fresh.static_base ≡ some 9)))
observe_told_iff_example = observe_told_iff fresh 9 5

abbrev bases : Inner Bytes
bases = record {
  static_base = some (codes "http://a.example/");
  dynamic = (record { base = codes "http://1.2.3.4:5/sharerr/"; observed_at = 9 }) ∷ [];
}

abbrev kept_text : Bytes → Bytes
kept_text u = u

announced :
    announce_set_for kept_text some bases (some (codes "key"))
    ≡ ok (record {
      primary = codes "http://1.2.3.4:5/sharerr/announce/key";
      fallbacks = codes "http://a.example/announce/key" ∷ [];
    })
unfolding announce_set_for
announced = refl

announce_set_for-SetFor_example :
    SetFor kept_text some
      (some (codes "key"))
      (recent bases)
      (announce_set_for kept_text some bases (some (codes "key")))
announce_set_for-SetFor_example = announce_set_for-SetFor kept_text some bases (some (codes "key"))

abbrev one_path : ℕ → Option (List Bytes)
one_path u = some (codes "sharerr" ∷ codes "announce" ∷ codes "key" ∷ [])

token_from_announce_url_lem_example : token_from_announce_url one_path 0 ≡ some (codes "key")
token_from_announce_url_lem_example =
    token_from_announce_url_lem one_path 0 (codes "sharerr" ∷ []) (some (codes "key")) refl
      (refl, tt)

-- A base with a segment `announce` of its own hides the token.
token_hidden :
    token_of_segments (codes "announce" ∷ codes "announce" ∷ codes "key" ∷ [])
    ≡ some (codes "announce")
unfolding token_of_segments
token_hidden = refl
