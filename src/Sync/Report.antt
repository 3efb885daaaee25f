-- ===== src/Sync/Report.antt =====
-- crates/sharerr/src/sync/mod.rs: what a pass reports, and crates/sharerr-core/src/config.rs: the
-- upload cap that is in force.
use sharerr_rs.Prelude.{
  Bool, Bytes, List, Option, [], false, if◌then◌else◌, leb, list_eq, ltb, nat_eq, none, not,
  option_eqb, some, true, ℕ, ◌&&◌, ◌+◌, ◌==◌, ◌||◌, ◌∷◌,
}
use sharerr_rs.Lighthouse.State.{report}
use sharerr_rs.Paths.Resolver.{component_eq}
use sharerr_rs.Sync.Exec.{gets, modify, pure, ◌>>=◌, ◌>>◌}
use sharerr_rs.Sync.Item.{Failure, Types, int_eq, key_eq, source_eq}
use sharerr_rs.Sync.Store.{set_limits}
use sharerr_rs.Sync.World.{Env, SeedingLimits, Settings, Sync, TorrentSummary, World}

pub record Flagged : Type 0 where
  pub hash : Bytes
  pub title : Bytes

pub record SyncReport : Type 0 where
  pub discovered : ℕ
  pub added : ℕ
  pub reused : ℕ
  pub unchanged : ℕ
  pub unshared : ℕ
  pub failed : ℕ
  pub sources_failed : ℕ
  -- whether there is a reason; its text is not kept
  pub library_unreadable : Bool
  pub ended : ℕ
  pub stopped : List Flagged
  pub removed : List Flagged
  pub changed : List Flagged

pub record RunSummary : Type 0 where
  pub discovered : ℕ
  pub added : ℕ
  pub unshared : ℕ
  pub failed : ℕ
  pub error : Option Failure

abbrev pub default_report : SyncReport
default_report = record {
  discovered = 0;
  added = 0;
  reused = 0;
  unchanged = 0;
  unshared = 0;
  failed = 0;
  sources_failed = 0;
  library_unreadable = false;
  ended = 0;
  stopped = [];
  removed = [];
  changed = [];
}

unfoldable pub to_summary : SyncReport → RunSummary
to_summary report = record {
  discovered = report.discovered;
  added = report.added + report.reused;
  unshared = report.unshared + report.ended;
  failed = report.failed + report.sources_failed;
  error = none;
}

pub data Step : Type 0 where
  step_added step_reused step_unchanged : Step

abbrev pub counted : Step → SyncReport → SyncReport
counted step_added report = record report { added = report.added + 1 }
counted step_reused report = record report { reused = report.reused + 1 }
counted step_unchanged report = record report { unchanged = report.unchanged + 1 }

-- `QuietHours::contains`
unfoldable pub quiet_contains : ℕ × ℕ → ℕ → Bool
quiet_contains (start, stop) minute =
    if ltb start stop
    then leb start minute && ltb minute stop
    else leb start minute || ltb minute stop

abbrev quiet_cap : Option (ℕ × ℕ) → Option ℕ → Option ℕ → ℕ → Option ℕ
quiet_cap none quiet normal minute = normal
quiet_cap (some window) none normal minute = normal
quiet_cap (some window) (some quiet) none minute = none
quiet_cap (some window) (some quiet) (some normal) minute =
    if quiet_contains window minute then some quiet else some normal

abbrev matches_cap : Option ℕ → Option ℕ → Bool
matches_cap none reported = true
matches_cap (some want) reported = option_eqb reported (some want)

abbrev cap_changed : Option (Option ℕ) → Option ℕ → Bool
cap_changed none cap = false
cap_changed (some previous) cap = not (option_eqb previous cap)

abbrev contains_hash : Bytes → List Bytes → Bool
contains_hash hash [] = false
contains_hash hash (h ∷ hashes) = hash == h || contains_hash hash hashes

module _ {T : Types} where
  unfoldable pub upload_limit_at : Settings T → ℕ → Option ℕ
  unfolding quiet_contains
  upload_limit_at settings minute =
      quiet_cap settings.quiet_hours settings.quiet_upload_limit_kib settings.upload_limit_kib
        minute

module _ {T : Types} {Url : Type 0} where
  unfoldable pub note_cap : Option ℕ → World T Url → World T Url
  note_cap cap w = record w {
    applied = if cap_changed w.cap cap then [] else w.applied;
    cap = some cap;
  }

  unfoldable pub note_applied : Bytes → World T Url → World T Url
  note_applied hash w = record w { applied = hash ∷ w.applied }

module _ {T : Types} {Url : Type 0} (env : Env T Url) where
  abbrev matches_ratio : Option T.Float → Option T.Float → Bool
  matches_ratio none reported = true
  matches_ratio (some want) none = false
  matches_ratio (some want) (some have) = env.near have want

  -- `SeedingLimits::matches`
  unfoldable pub limits_match : SeedingLimits T → TorrentSummary T → Bool
  limits_match goal reported =
      matches_cap goal.upload_limit_kib reported.upload_limit_kib
      && matches_ratio goal.ratio_limit reported.ratio_limit

  unfoldable pub upload_cap_now : Option ℕ
  unfolding upload_limit_at
  upload_cap_now = upload_limit_at env.settings env.clock

  -- The memo's lock is never poisoned here.
  unfoldable pub track_cap_in_force : Sync T Url Unit
  unfolding upload_cap_now note_cap
  track_cap_in_force = modify (note_cap upload_cap_now)

  unfoldable pub seeding_goal : SeedingLimits T
  unfolding upload_cap_now
  seeding_goal = record {
    upload_limit_kib = upload_cap_now;
    ratio_limit = env.settings.ratio_limit;
  }

  unfoldable pub apply_goal : Bytes → TorrentSummary T → Sync T Url Bool
  unfolding limits_match seeding_goal set_limits note_applied
  apply_goal hash reported =
      if limits_match seeding_goal reported
      then (do modify (note_applied hash); pure false)
      else (do set_limits env hash seeding_goal; modify (note_applied hash); pure true)

  unfoldable pub reconcile_limits : Bytes → TorrentSummary T → Sync T Url Bool
  unfolding apply_goal
  reconcile_limits hash reported = do
    known ← gets λ w. contains_hash hash w.applied
    if known then pure false else apply_goal hash reported
