-- ===== src/Sync/Samples.antt =====
-- A small library for the tests: one source, one file that it still lists, and two that it does not.
use sharerr_rs.Prelude.{
  Bool, Bytes, List, Option, [], codes, false, list_eq, nat_eq, none, some, true, ℕ, ◌+◌, ◌==◌, ◌∷◌,
}
use sharerr_rs.Endpoint.AnnounceList.{AnnounceSet}
use sharerr_rs.Paths.Resolver.{
  FilePath, MediaSource, ResolvedPaths, component_eq, named, radarr, root_dir,
}
use sharerr_rs.Prelude.Int.{pos}
use sharerr_rs.Sync.Cached.{file_name_of}
use sharerr_rs.Sync.Discovery.{SourceScan}
use sharerr_rs.Sync.Item.{Discovered, Types, int_eq, key_eq, seeding, source_eq}
use sharerr_rs.Sync.Live.{PassContext}
use sharerr_rs.Sync.Seed.{FriendTorrents, SeedOutcome, seed_added}
use sharerr_rs.Sync.World.{Env, Row, Settings, TorrentClient, TorrentSummary, World}
use sharerr_rs.Torrent.Hashing.{Files}

abbrev pub plain : Types
plain = record { Float = ℕ; Spec = Unit; Ids = Unit; Media = Unit; Scene = Unit; Client = ℕ }

abbrev pub accepting : TorrentClient plain Bytes
accepting = record {
  list = λ n. some [];
  files = λ n hash. none;
  export = λ n hash. some none;
  hybrid_torrents = false;
  perform = λ call n. (true, n + 1);
}

abbrev pub no_disk : Files FilePath
no_disk = record {
  metadata = λ path. none;
  file_name = file_name_of;
  beside = λ path sidecar. path;
  open_file = λ path. none;
}

abbrev pub night : Settings plain
night = record {
  category = codes "sharerr";
  tag = codes "sharerr";
  skip_checking = true;
  private_flag = true;
  hybrid = false;
  upload_limit_kib = some 500;
  ratio_limit = none;
  quiet_hours = some (1320, 360);
  quiet_upload_limit_kib = some 50;
  sidecar_roots = [];
  path_map = [];
}

abbrev pub house : Env plain Bytes
house = record {
  qbit = accepting;
  refuses = λ n. false;
  torn = λ n torrent. none;
  settings = night;
  disk = no_disk;
  stamp_of = λ path. none;
  sha1 = λ b. b;
  sha256 = λ b. b;
  hex_encode = λ b. b;
  as_str = λ u. u;
  parse_url = some;
  path_segments = λ u. none;
  now_epoch = pos 1000;
  clock = 1400;
  near = λ a b. a == b;
  subtitles_beside = λ path. [];
  probe = λ path. none;
  release_title = λ item. codes "A.Film.2020";
  describe = λ media. none;
  catalog_matches = λ spec ids size. none;
  download = λ url. none;
}

abbrev pub film_path : FilePath
film_path = root_dir ∷ named (codes "film.mkv") ∷ []

abbrev pub listed_film : Discovered plain
listed_film = record {
  source = radarr;
  source_id = pos 1;
  file_id = pos 1;
  spec = tt;
  arr_path = film_path;
  size = 5;
  ids = tt;
  scene_name = none;
  original_path = none;
  media = none;
  scene = none;
}

abbrev pub seeding_row : ℕ → Bool → Row plain
seeding_row n own = record {
  item = record {
    source = radarr;
    source_id = pos n;
    file_id = pos n;
    spec = tt;
    release_title = codes "Gone.2019";
    arr_path = film_path;
    size = 5;
    ids = tt;
    info_hash = some (codes "ab");
    announce_token_fp = none;
    created_by_sharerr = own;
    state = seeding;
    last_error = none;
    media = none;
    achieved_ratio = none;
    ratio_limit_reported = none;
    is_private = true;
  };
  info_hash_v2 = none;
  stamp = none;
  share_until = none;
}

abbrev pub two_rows : World plain Bytes
two_rows = record {
  client = 0;
  calls = [];
  rows = ((radarr, pos 2), seeding_row 2 true) ∷ ((radarr, pos 3), seeding_row 3 false) ∷ [];
  origins = [];
  audiences = [];
  cache = [];
  confirmed = [];
  applied = [];
  cap = none;
  accesses = 0;
}

abbrev pub one_scan : List (MediaSource × Option (SourceScan plain))
one_scan = (radarr, some (record { items = listed_film ∷ []; complete = true; audience = [] })) ∷ []

abbrev pub home : AnnounceSet Bytes
home = record { primary = codes "http://h/announce"; fallbacks = [] }

abbrev pub calm : PassContext plain Bytes
calm = record {
  announces = home;
  token_fp = none;
  live = [];
  torrents = [];
  origins = [];
  dry_run = false;
}

abbrev pub film_paths : ResolvedPaths
film_paths = record {
  arr = film_path;
  sharerr = film_path;
  qbit = film_path;
  mapping_applied = false;
}

abbrev pub theirs : TorrentSummary plain
theirs = record {
  hash = codes "cd";
  save_path = root_dir ∷ [];
  content_path = film_path;
  is_stopped = false;
  ratio = none;
  ratio_limit = none;
  upload_limit_kib = none;
}

abbrev pub no_friends : FriendTorrents
no_friends = record { matches = []; joined = none }

-- A client that hands back the torrents it holds.
abbrev pub exporting : Env plain Bytes
exporting = record house {
  qbit = record accepting { export = λ n hash. some (some (codes "d4:infod4:name1:aee")) };
}

abbrev pub one_cached : World plain Bytes
one_cached = record two_rows {
  cache = (codes "ab", codes "d8:announce3:old4:infod4:name1:aee") ∷ [];
}

abbrev pub built_outcome : SeedOutcome
built_outcome = seed_added (codes "ef") (record { private_flag = true; info_hash_v2 = none })
