-- ===== src/Announce/QueryTests.antt =====
-- Queries parsed, and the theorems on them at concrete inputs.
use sharerr_rs.Prelude.{
  Bytes, List, Option, [], some, codes, err, if◌then◌else◌, leb, list_eq, nat_eq, none, ok, refl,
  true, ℕ, ◌*◌, ◌+◌, ◌-◌, ◌==◌, ◌∷◌, ◌≡◌,
}
use sharerr_rs.Announce.Address.{IpAddr, started}
use sharerr_rs.Announce.Query.{bad_length, missing, not_a_number, parse, parse_query}
use sharerr_rs.Announce.QueryBounds.{IsRequest, Sound, parse-Sound}
use sharerr_rs.Announce.QueryRead.{Pair, get-parse_query, last_given, query_text}
use sharerr_rs.Paths.Resolver.{component_eq}
use sharerr_rs.Prelude.HashMap.{get, insert}
use sharerr_rs.Prelude.Utf8.{is_utf8}

abbrev hex_value : ℕ → ℕ
hex_value c = if leb c b'9' then c - b'0' else if leb c b'F' then c - 55 else c - 87

-- `%` and two hex digits are a byte; any other byte stands for itself.
abbrev unescape : Bytes → Bytes
unescape [] = []
unescape (c ∷ []) = c ∷ []
unescape (c ∷ d ∷ []) = c ∷ d ∷ []
unescape (c ∷ d ∷ e ∷ s) =
    let one = unescape (d ∷ e ∷ s) in
    let three = unescape s in
    if c == b'%' then (hex_value d * 16 + hex_value e) ∷ three else c ∷ one

abbrev no_ip : Bytes → Option IpAddr
no_ip raw = none

abbrev asked : Bytes
asked =
    codes
      "info_hash=aaaaaaaaaaaaaaaaaaa%2B&peer_id=-qB-bbbbbbbbbbbbbbb+&port=1&left=7&event=started&port=6881&numwant=200"

parsed :
    parse unescape no_ip asked
    ≡ ok (record {
      info_hash = codes "aaaaaaaaaaaaaaaaaaa+";
      peer_id = codes "-qB-bbbbbbbbbbbbbbb ";
      port = 6881;
      left = 7;
      uploaded = 0;
      downloaded = 0;
      event = started;
      compact = true;
      numwant = 50;
      declared_ip = none;
    })
unfolding parse get insert
parsed = refl

refused :
    (parse unescape no_ip (codes "port=70000") ≡ err (not_a_number (codes "port")))
    × (parse unescape no_ip (codes "port=0") ≡ err (missing (codes "port")))
    × (parse unescape no_ip (codes "port=1&info_hash=a") ≡ err (bad_length (codes "info_hash") 1))
unfolding parse get insert
refused = (refl, refl, refl)

parse-Sound_example : Sound IsRequest (parse unescape no_ip asked)
parse-Sound_example = parse-Sound unescape no_ip asked

-- A query that names one key twice and has a key without a value.
abbrev pairs : List Pair
pairs =
    (codes "port", some (codes "1"))
    ∷ (codes "compact", none)
    ∷ (codes "port", some (codes "6+8"))
    ∷ []

get-parse_query_example :
    get (codes "port") (parse_query unescape (query_text pairs))
    ≡ last_given unescape (codes "port") none pairs
get-parse_query_example = get-parse_query unescape (codes "port") pairs (
  ((refl, (refl, (refl, (refl, tt)))), (refl, (refl, (refl, (refl, tt)))), (refl, tt)),
  (
    (
      (refl, (refl, (refl, (refl, (refl, (refl, (refl, tt))))))),
      (refl, (refl, (refl, (refl, (refl, (refl, (refl, tt))))))),
    ),
    (
      (
        (refl, (refl, (refl, (refl, tt)))),
        (refl, (refl, (refl, (refl, tt)))),
        (refl, (refl, (refl, tt))),
      ),
      tt,
    ),
  ),
)

last_port : last_given unescape (codes "port") none pairs ≡ some (codes "6 8")
unfolding is_utf8
last_port = refl
