-- ===== src/Paths/Outcome.antt =====
-- What a resolution answers, whatever the source of the path.
use sharerr_rs.Prelude.{
  Bool-cases, List, Option, Result, err, false, inl, inr, none, ok, refl, some, true, ◌≡◌, ◌⊎◌,
}
use sharerr_rs.Paths.Resolver.{
  FilePath, MediaSource, PathError, PathMapping, ResolvedPaths, directory, is_absolute, lidarr,
  mapped_views, not_absolute, radarr, readarr, resolve, resolve_for, resolve_sharerr, sonarr,
  unwrap_or, whisparr,
}
use sharerr_rs.Prelude.HashMap.{is_some}

-- The error is that the path is relative. Otherwise the *arr view is the path, and unless a rule
-- applied, so are the others.
abbrev pub Outcome : FilePath → Result PathError ResolvedPaths → Type 0
Outcome path (err e) = (is_absolute path ≡ false) × (e ≡ not_absolute path)
Outcome path (ok views) =
    (is_absolute path ≡ true)
    × (views.arr ≡ path)
    × ((views.mapping_applied ≡ true) ⊎ ((views.sharerr ≡ path) × (views.qbit ≡ path)))

mapped_views-Outcome :
    (path : FilePath) (o : Option (PathMapping × FilePath))
    → is_absolute path ≡ true
    → Outcome path (ok (mapped_views path o))
unfolding mapped_views
mapped_views-Outcome path none absolute = (absolute, refl, inr (refl, refl))
mapped_views-Outcome path (some (m, rest)) absolute = (absolute, refl, inl refl)

scanned-Outcome :
    (path : FilePath) (o : Option FilePath)
    → is_absolute path ≡ true
    → Outcome path (
        ok (record {
          arr = path;
          sharerr = path;
          qbit = unwrap_or o path;
          mapping_applied = is_some o;
        }))
scanned-Outcome path none absolute = (absolute, refl, inr (refl, refl))
scanned-Outcome path (some q) absolute = (absolute, refl, inl refl)

resolve-Outcome : (maps : List PathMapping) (path : FilePath) → Outcome path (resolve maps path)
unfolding resolve
resolve-Outcome maps path = elim (Bool-cases (is_absolute path)) [
  | inl absolute ↦ rw absolute (mapped_views-Outcome path _ absolute)
  | inr relative ↦ rw relative (relative, refl)
]

resolve_sharerr-Outcome :
    (maps : List PathMapping) (path : FilePath) → Outcome path (resolve_sharerr maps path)
unfolding resolve_sharerr
resolve_sharerr-Outcome maps path = elim (Bool-cases (is_absolute path)) [
  | inl absolute ↦ rw absolute (scanned-Outcome path _ absolute)
  | inr relative ↦ rw relative (relative, refl)
]

-- Of any source, a relative path is refused, and an absolute one passes through to every view
-- unless the resolution says that a rule applied; the *arr view is always the path.
pub resolve_for-Outcome :
    (maps : List PathMapping) (source : MediaSource) (path : FilePath)
    → Outcome path (resolve_for maps source path)
unfolding resolve_for
resolve_for-Outcome maps sonarr path = resolve-Outcome maps path
resolve_for-Outcome maps radarr path = resolve-Outcome maps path
resolve_for-Outcome maps lidarr path = resolve-Outcome maps path
resolve_for-Outcome maps readarr path = resolve-Outcome maps path
resolve_for-Outcome maps whisparr path = resolve-Outcome maps path
resolve_for-Outcome maps directory path = resolve_sharerr-Outcome maps path
