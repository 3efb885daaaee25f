-- ===== src/Sync/Safety.antt =====
-- What a pass asks of the torrent client.
use sharerr_rs.Prelude.{
  All, Bool, Bool-cases, Bytes, List, Option, [], ap, inl, inr, map, none, some, ◌≡◌,
}
use sharerr_rs.Announce.Query.{hash}
use sharerr_rs.Paths.Resolver.{MediaSource}
use sharerr_rs.Prelude.HashMap.{HashMap}
use sharerr_rs.Prelude.Int.{ℤ}
use sharerr_rs.Sync.Discovery.{Discovery}
use sharerr_rs.Sync.Exec.{gets, modify, settle, ◌>>=◌}
use sharerr_rs.Sync.Frame.{Frame}
use sharerr_rs.Sync.Item.{ItemOrigin, Key, SharedItem, Types, discovered_key}
use sharerr_rs.Sync.Keeps.{Keeps, Keeps-bind, Keeps-modify, Keeps-settle, keeps_rules}
use sharerr_rs.Sync.Leads.{IfOk, Yields}
use sharerr_rs.Sync.Own.{IsOwn, IsOwnRemoval}
use sharerr_rs.Sync.Refresh.{confirm_set}
use sharerr_rs.Sync.Report.{note_applied, note_cap, track_cap_in_force}
use sharerr_rs.Sync.Store.{
  access, logged, put_audience, put_cached, put_item, put_origin, read_rows, replace_audience, tick,
  updated_row,
}
use sharerr_rs.Sync.World.{
  ClientCall, Env, Row, World, added, limits_applied, removed, trackers_added, trackers_set,
}

-- Of a pass over some known items: the only torrents that it removes are its own, for a reason, and
-- the only limits that it sets are those of its own.
abbrev pub PassMay :
    {T : Types} {Url : Type 0}
    → ℤ
    → HashMap Key (SharedItem T)
    → HashMap Key ℤ
    → Discovery T
    → ClientCall T Url
    → Type 0
PassMay now known ends discovery (removed hash) =
    IsOwnRemoval now known ends (map discovered_key discovery.items) discovery.withdrawable hash
PassMay now known ends discovery (limits_applied hash limits) = IsOwn known hash
PassMay now known ends discovery (added r) = Unit
PassMay now known ends discovery (trackers_set hash urls) = Unit
PassMay now known ends discovery (trackers_added hash urls) = Unit

module _ {T : Types} {Url : Type 0} where
  abbrev pub AllCalls : (ClientCall T Url → Type 0) → World T Url → Type 0
  AllCalls May w = All (λ (entry : ClientCall T Url × Bool). May entry.0) w.calls

put_origin-calls :
    {T : Types} {Url : Type 0} (May : ClientCall T Url → Type 0) (k : Key)
    (origin : Option ItemOrigin) (w : World T Url)
    → AllCalls May w
    → AllCalls May (put_origin k origin w)
unfolding put_origin
put_origin-calls May k none w h = h
put_origin-calls May k (some origin) w h = h

pub AllCalls-Frame :
    {T : Types} {Url : Type 0} (May : ClientCall T Url → Type 0)
    → Frame May (λ k. Unit) (AllCalls May)
unfolding tick logged put_cached confirm_set updated_row put_item put_origin put_audience note_cap
    note_applied
AllCalls-Frame May = record {
  ticks = λ w h. h;
  requests = λ call answer w may h. (may, h);
  caches = λ hash torrent w h. h;
  confirms = λ hash set w h. h;
  updates = λ k f w mine h. h;
  items = λ item w mine h. h;
  origins = λ k origin w mine h. put_origin-calls May k origin w h;
  audiences = λ source audience w h. h;
  caps = λ cap w h. h;
  limits = λ hash w h. h;
}

-- Before the pass acts: the rows are those it read, and it has asked for nothing.
abbrev pub IsFresh : {T : Types} {Url : Type 0} → HashMap Key (Row T) → World T Url → Type 0
IsFresh rows w = (w.rows ≡ rows) × (w.calls ≡ [])

module _ {T : Types} {Url : Type 0} (env : Env T Url) (rows : HashMap Key (Row T)) where
  access-Keeps-IsFresh : Keeps (IsFresh rows) (access env)
  unfolding access tick
  access-Keeps-IsFresh = record { at = λ w h. h }

  pub track_cap-Keeps-IsFresh : Keeps (IsFresh rows) (track_cap_in_force env)
  unfolding track_cap_in_force note_cap modify
  track_cap-Keeps-IsFresh = record { at = λ w h. h }

  pub replace_audience-Keeps-IsFresh :
      (source : MediaSource) (audience : List (ℤ × List Bytes))
      → Keeps (IsFresh rows) (replace_audience env source audience)
  unfolding replace_audience put_audience
  replace_audience-Keeps-IsFresh source audience =
      Keeps-bind _ _ access-Keeps-IsFresh λ _. Keeps-modify _ λ w h. h

  pub read_rows-Keeps-IsFresh :
      {A : Type 0} (f : World T Url → A) → Keeps (IsFresh rows) (read_rows env f)
  unfolding read_rows
  read_rows-Keeps-IsFresh f = search (keeps_rules, access-Keeps-IsFresh)

  -- What is read is made of the rows.
  pub read_rows-Yields :
      {A : Type 0} (g : HashMap Key (Row T) → A)
      → Yields (IsFresh rows) (IfOk λ a. a ≡ g rows) (settle (read_rows env λ w. g w.rows))
  unfolding settle read_rows access ◌>>=◌ gets tick
  read_rows-Yields g = record {
    keeps = (Keeps-settle _ (read_rows-Keeps-IsFresh _)).at;
    gives = λ w h. elim (Bool-cases (env.refuses w.accesses)) [
      | inl refused ↦ rw refused tt
      | inr granted ↦ rw granted (ap g h.0)
    ];
  }
